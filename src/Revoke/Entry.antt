-- ===== src/Revoke/Entry.antt =====
-- The entry that `run_revoke` of ca/revoke.cpp makes for a certificate.
use tee_anchor.Prelude.{
  ℕ, ◌≡◌, refl, ap, sym, ◌∙◌, true, false, List, [], ◌∷◌, Bytes, bytes_eq, bytes_eq_iff, is_empty,
  ok, some, All, throw_if, >>=-eq-ok, >>-eq-ok, ok_injective, throw_unless-eq-ok, if◌then◌else◌,
  Bool-cases, inl, inr, subst,
}
use tee_anchor.OpenSsl.{OpenSsl, call}
use tee_anchor.World.{World}
use tee_anchor.Pki.{load_pem_cert}
use tee_anchor.RevocationDb.{RevocationEntry}
use tee_anchor.RevocationDb.Text.{to_lower}
use tee_anchor.RevocationDb.Words.{is_hex, no_blank}
use tee_anchor.RevocationDb.RoundTrip.{IsEntry}
use tee_anchor.Cli.{is_c_space}
use tee_anchor.Revoke.{
  RevokeArgs, reason_names, is_one_of, is_valid_reason, check_revoke_args, serial_hex_lower,
  revocation_of,
}

-- What `BN_bn2hex` and `BN_hex2bn` do: at least one digit, and digits that read back in lower case.
pub record HexLaws (ssl : OpenSsl) : Type 0 where
  pub some_digit : (n : ℕ) → is_empty (to_lower (ssl.hex_of_number n)) ≡ false
  pub digits : (n : ℕ) → is_hex (to_lower (ssl.hex_of_number n)) ≡ true
  pub reads : (n : ℕ) → ssl.number_of_hex (to_lower (ssl.hex_of_number n)) ≡ some n

no_blank-is_one_of :
    (names : List Bytes) (r : Bytes)
    → All (λ n. no_blank n ≡ true) names
    → is_one_of names r ≡ true
    → no_blank r ≡ true
unfolding is_one_of
no_blank-is_one_of [] r all h = cc
no_blank-is_one_of (n ∷ ns) r (plain, all) h = elim (Bool-cases (bytes_eq n r)) [
  | inl same ↦ subst (λ x. no_blank x ≡ true) ((bytes_eq_iff n r).0 same) plain
  | inr other ↦ no_blank-is_one_of ns r all (rw other at h)
]

no_blank-is_valid_reason : (r : Bytes) → is_valid_reason r ≡ true → no_blank r ≡ true
unfolding is_valid_reason no_blank is_c_space
no_blank-is_valid_reason [] h = refl
no_blank-is_valid_reason (c ∷ r) h =
    no_blank-is_one_of reason_names (c ∷ r)
      (refl, (refl, (refl, (refl, (refl, (refl, (refl, (refl, (refl, tt))))))))) h

module _ (ssl : OpenSsl) where
  -- The certificate that an entry was made for: the entry has its serial number in lower-case digits,
  -- the time of the command, and the reason it was given, which is one of those allowed.
  pub record RevocationOf (args : RevokeArgs) (w : World) (e : RevocationEntry) : Type 0 where
    pub cert : ssl.Cert
    pub loaded : load_pem_cert ssl args.cert_path w ≡ ok cert
    pub serial : e.serial_hex ≡ to_lower (ssl.hex_of_number (ssl.serial cert))
    pub date : e.revocation_date ≡ w.now
    pub reason : e.reason ≡ args.reason
    pub allowed : is_valid_reason args.reason ≡ true

  serial_hex_lower-ok :
      (cert : ssl.Cert) (s : Bytes)
      → serial_hex_lower ssl cert ≡ ok s
      → s ≡ to_lower (ssl.hex_of_number (ssl.serial cert))
  unfolding serial_hex_lower
  serial_hex_lower-ok cert s h =
      let h₁ = (>>-eq-ok (call ssl "X509_get0_serialNumber") _ h).1 in
      let h₂ = (>>-eq-ok (call ssl "ASN1_INTEGER_to_BN") _ h₁).1 in
      let h₃ =
        (>>-eq-ok (call ssl "BN_bn2hex") (ok (to_lower (ssl.hex_of_number (ssl.serial cert))))
          h₂).1 in
      sym (ok_injective h₃)

  check_revoke_args-reason :
      (args : RevokeArgs) → check_revoke_args args ≡ ok tt → is_valid_reason args.reason ≡ true
  unfolding check_revoke_args
  check_revoke_args-reason args h =
      let h₁ = (>>-eq-ok (throw_if (is_empty args.ca_cert_path) _) _ h).1 in
      let h₂ = (>>-eq-ok (throw_if (is_empty args.cert_path) _) _ h₁).1 in
      throw_unless-eq-ok (is_valid_reason args.reason) _ h₂

  pub revocation_of-ok :
      (args : RevokeArgs) (w : World) (e : RevocationEntry)
      → revocation_of ssl args w ≡ ok e
      → RevocationOf args w e
  unfolding revocation_of
  revocation_of-ok args w e h =
      let (checked, h₁) = >>-eq-ok (check_revoke_args args) _ h in
      let (ca, l₁, h₂) = >>=-eq-ok (load_pem_cert ssl args.ca_cert_path w) _ h₁ in
      let (cert, l₂, h₃) = >>=-eq-ok (load_pem_cert ssl args.cert_path w) _ h₂ in
      let h₄ =
        (>>-eq-ok
          (throw_if (if ssl.same_name (ssl.subject ca) (ssl.issuer cert) then false else true) _) _
          h₃).1 in
      let (s, serial, h₅) = >>=-eq-ok (serial_hex_lower ssl cert) _ h₄ in
      let same = ok_injective h₅ in
      record {
        cert = cert;
        loaded = l₂;
        serial =
            sym (ap (λ (x : RevocationEntry). x.serial_hex) same)
            ∙ serial_hex_lower-ok cert s serial;
        date = sym (ap (λ (x : RevocationEntry). x.revocation_date) same);
        reason = sym (ap (λ (x : RevocationEntry). x.reason) same);
        allowed = check_revoke_args-reason args checked;
      }

  -- It is well-formed where the clock's text is a word.
  pub revocation_of-IsEntry :
      HexLaws ssl
      → (args : RevokeArgs) (w : World) (e : RevocationEntry) → is_empty w.now ≡ false
      → no_blank w.now ≡ true
      → revocation_of ssl args w ≡ ok e
      → IsEntry e
  revocation_of-IsEntry laws args w e some_date word h =
      let r = revocation_of-ok args w e h in
      let n = ssl.serial r.cert in
      record {
        serial_some = ap is_empty r.serial ∙ laws.some_digit n;
        serial_hex = ap is_hex r.serial ∙ laws.digits n;
        date_some = ap is_empty r.date ∙ some_date;
        date_word = ap no_blank r.date ∙ word;
        reason_word = ap no_blank r.reason ∙ no_blank-is_valid_reason args.reason r.allowed;
      }
