-- ===== src/Cca/Signed.antt =====
-- What the signature of provision/cca/cca_provision.cpp covers, and what an accepted token has
-- established.
use tee_anchor.Prelude.{
  ℕ, ◌≤◌, ◌<◌, ◌≡◌, ◌^◌, refl, ap, sym, subst, ◌∙◌, Bool, true, false, Option, none, some, [],
  append_assoc, append-nil, ◌==◌, ==_iff, if◌then◌else◌, length, slice, Bytes, codes, is_empty,
  Result, ok, throw, throw_if, or_throw, >>=-eq-ok, >>-eq-ok, or_throw-eq-ok, throw_unless-eq-ok,
  ok_injective, Bool-cases, inl, inr, arith,
}
use tee_anchor.OpenSsl.{OpenSsl, Outcome, valid, invalid, failed, call}
use tee_anchor.Cbor.{
  Value, value, uint, nint, bytes, text, array, map, tag, simple, no_values, at, decode,
}
use tee_anchor.Cbor.Encoder.{enc_head, enc_bytes, enc_text}
use tee_anchor.Cbor.RoundTrip.{enc_bytes-append, enc_text-append}
use tee_anchor.Cbor.Print.{print, decode-print}
use tee_anchor.Cca.Cpak.{load_pinned_cpak}
use tee_anchor.Cca.{
  Sign1, CcaVerifyResult, parse_sign1, check_alg, sig_structure, read_claims, non_empty_bytes,
  is_map, verify_es384, verify_token, instance_id_key,
}

-- The Sig_structure of RFC 9052, as an item.
abbrev pub sig_item : Bytes → Bytes → Value
sig_item protected_b payload_b = array (
    value (text (codes "Signature1"))
      (value (bytes protected_b) (value (bytes []) (value (bytes payload_b) no_values))))

sig_structure-print :
    (protected_b payload_b : Bytes)
    → sig_structure protected_b payload_b ≡ print (sig_item protected_b payload_b)
unfolding sig_structure print
sig_structure-print protected_b payload_b =
    rw
      (
        enc_bytes-append
            (enc_bytes (enc_bytes (enc_text (enc_head [] 4 4) (codes "Signature1")) protected_b) [])
            payload_b,
        enc_bytes-append (enc_bytes (enc_text (enc_head [] 4 4) (codes "Signature1")) protected_b)
            [],
        enc_bytes-append (enc_text (enc_head [] 4 4) (codes "Signature1")) protected_b,
        enc_text-append (enc_head [] 4 4) (codes "Signature1"),
        append-nil,
        append_assoc,
        append_assoc,
        append_assoc,
      )
      refl

-- The signed bytes are the Sig_structure of the protected header and the payload: a decoder reads
-- the four items back, so no two tokens with different headers or payloads are signed by the same bytes.
pub decode-sig_structure :
    (max_items : ℕ) (protected_b payload_b : Bytes)
    → 4 ≤ max_items
    → length protected_b < 2 ^ 32
    → length payload_b < 2 ^ 32
    → decode max_items (sig_structure protected_b payload_b) ≡ ok (sig_item protected_b payload_b)
decode-sig_structure max_items protected_b payload_b h h₁ h₂ =
    ap (λ s. decode max_items s) (sig_structure-print protected_b payload_b ∙ sym (append-nil _))
    ∙ decode-print max_items (sig_item protected_b payload_b) []
        (omega arith, h, (omega arith, (h₁, (omega arith, (h₂, tt)))))

module _ (ssl : OpenSsl) where
  -- The token's parts, the pinned key, and the signature.
  pub record Accepted (max_items : ℕ) (tok : Bytes) (r : CcaVerifyResult ssl) : Type 0 where
    pub sign1 : Sign1
    pub claims : Value
    pub parsed : parse_sign1 max_items tok ≡ ok sign1
    pub algorithm : check_alg max_items sign1.protected_header ≡ ok tt
    pub pinned : load_pinned_cpak ssl ≡ ok r.cpak
    pub size : length sign1.signature ≡ 96
    pub signed :
        ssl.verify_ecdsa r.cpak
          (sig_structure sign1.protected_header sign1.payload)
          (slice 0 48 sign1.signature)
          (slice 48 48 sign1.signature)
        ≡ valid
    pub payload : decode max_items sign1.payload ≡ ok claims
    pub instance_id : at claims instance_id_key ≡ some (bytes r.instance_id)
    pub present : is_empty r.instance_id ≡ false

  verify_es384-ok :
      (pk : ssl.Key) (msg raw : Bytes)
      → verify_es384 ssl pk msg raw ≡ ok true
      → (length raw ≡ 96) × (ssl.verify_ecdsa pk msg (slice 0 48 raw) (slice 48 48 raw) ≡ valid)
  unfolding verify_es384
  verify_es384-ok pk msg raw h =
      let (size, h₁) =
        >>-eq-ok
          (throw_if (if length raw == 96 then false else true)
            "CCA: unexpected COSE signature length (expected 96 bytes for ES384/P-384)")
          _ h in
      let h₂ = (>>-eq-ok (call ssl "BN_bin2bn (COSE signature)") _ h₁).1 in
      let h₃ = (>>-eq-ok (call ssl "ECDSA_SIG_new") _ h₂).1 in
      let h₄ = (>>-eq-ok (call ssl "ECDSA_SIG_set0") _ h₃).1 in
      let h₅ = (>>-eq-ok (call ssl "i2d_ECDSA_SIG (length)") _ h₄).1 in
      let h₆ = (>>-eq-ok (call ssl "i2d_ECDSA_SIG") _ h₅).1 in
      let h₇ = (>>-eq-ok (call ssl "EVP_MD_CTX_new") _ h₆).1 in
      let h₈ = (>>-eq-ok (call ssl "EVP_DigestVerifyInit (ES384)") _ h₇).1 in
      (
        (==_iff (length raw) 96).0 (throw_unless-eq-ok (length raw == 96) _ size),
        only_valid (ssl.verify_ecdsa pk msg (slice 0 48 raw) (slice 48 48 raw)) h₈,
      )
    where
      only_valid :
          (o : Outcome)
          → elim o as (λ k. Result Bool) [
            | valid ↦ ok true
            | invalid ↦ ok false
            | failed ↦ throw "EVP_DigestVerify"
          ]
            ≡ ok true
          → o ≡ valid
      only_valid valid e = refl
      only_valid invalid e = cc
      only_valid failed e = cc

  non_empty_bytes-ok :
      (o : Option Value) (d : Bytes)
      → non_empty_bytes o ≡ some d
      → (o ≡ some (bytes d)) × (is_empty d ≡ false)
  unfolding non_empty_bytes
  non_empty_bytes-ok none d h = cc
  non_empty_bytes-ok (some (uint n)) d h = cc
  non_empty_bytes-ok (some (nint n)) d h = cc
  non_empty_bytes-ok (some (bytes x)) d h = elim (Bool-cases (is_empty x)) [
    | inl blank ↦ absurd (ground arith)
    | inr full ↦
        let same : x ≡ d = ground arith in
        (ap (λ y. some (bytes y)) same, ap (λ y. is_empty y) (sym same) ∙ full)
  ]
  non_empty_bytes-ok (some (text x)) d h = cc
  non_empty_bytes-ok (some (array vs)) d h = cc
  non_empty_bytes-ok (some (map ps)) d h = cc
  non_empty_bytes-ok (some (tag n vs)) d h = cc
  non_empty_bytes-ok (some (simple n)) d h = cc

  read_claims-ok :
      (max_items : ℕ) (payload iid impl : Bytes)
      → read_claims max_items payload ≡ ok (iid, impl)
      → (claims : Value) × (decode max_items payload ≡ ok claims)
        × (at claims instance_id_key ≡ some (bytes iid))
        × (is_empty iid ≡ false)
  unfolding read_claims
  read_claims-ok max_items payload iid impl h =
      let (claims, decoded, h₁) = >>=-eq-ok (decode max_items payload) _ h in
      let h₂ =
        (>>-eq-ok
          (throw_if (if is_map claims then false else true)
            "CCA: platform claims payload is not a map")
          _ h₁).1 in
      let (d, there, h₃) =
        >>=-eq-ok (or_throw (non_empty_bytes (at claims instance_id_key)) _) _ h₂ in
      let (found, some_bytes) =
        non_empty_bytes-ok (at claims instance_id_key) d (or_throw-eq-ok _ _ there) in
      let same = ap (λ (p : Bytes × Bytes). p.0) (ok_injective h₃) in
      (
        claims,
        decoded,
        found ∙ ap (λ x. some (bytes x)) same,
        ap (λ x. is_empty x) (sym same) ∙ some_bytes,
      )

  -- A token that is accepted holds a platform token whose signature of 96 bytes, over the Sig_structure of
  -- its protected header and its payload, is valid under the pinned key; the header names the algorithm
  -- that the program expects; and the instance-id is the non-empty byte string under its key in the
  -- payload that was signed.
  pub verify_token-Accepted :
      (max_items : ℕ) (tok : Bytes) (r : CcaVerifyResult ssl)
      → verify_token ssl max_items tok ≡ ok r
      → Accepted max_items tok r
  unfolding verify_token
  verify_token-Accepted max_items tok r h =
      let (sign1, parsed, h₁) = >>=-eq-ok (parse_sign1 max_items tok) _ h in
      let (algorithm, h₂) = >>-eq-ok (check_alg max_items sign1.protected_header) _ h₁ in
      let (cpak, pinned, h₃) = >>=-eq-ok (load_pinned_cpak ssl) _ h₂ in
      let (good, verified, h₄) =
        >>=-eq-ok
          (verify_es384 ssl cpak (sig_structure sign1.protected_header sign1.payload)
            sign1.signature)
          _ h₃ in
      let (is_good, h₅) =
        >>-eq-ok
          (throw_if (if good then false else true)
            "CCA: platform token signature verification failed (CPAK pin mismatch or tampered token)")
          _ h₄ in
      let ((iid, impl), claimed, h₆) = >>=-eq-ok (read_claims max_items sign1.payload) _ h₅ in
      let (size, signed) =
        verify_es384-ok cpak _ sign1.signature
          (verified ∙ ap ok (throw_unless-eq-ok good _ is_good)) in
      let (claims, payload, instance_id, present) =
        read_claims-ok max_items sign1.payload iid impl claimed in
      subst (λ x. Accepted max_items tok x) (ok_injective h₆)
        (record {
          sign1 = sign1;
          claims = claims;
          parsed = parsed;
          algorithm = algorithm;
          pinned = pinned;
          size = size;
          signed = signed;
          payload = payload;
          instance_id = instance_id;
          present = present;
        })
