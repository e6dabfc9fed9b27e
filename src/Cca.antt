-- ===== src/Cca.antt =====
-- provision/cca/cca_provision.cpp: from a CCA attestation token to the instance-id.
pub mod Cpak
pub mod Ends
pub mod Signed
use tee_anchor.Prelude.{
  ℕ, zero, suc, ◌+◌, Bool, true, false, ◌&&◌, Option, none, some, List, [], ◌∷◌, ◌++◌, ◌==◌,
  if◌then◌else◌, length, slice, Bytes, is_empty, codes, String, Result, ok, err, throw, throw_if,
  or_throw, ◌>>=◌, ◌>>◌,
}
use tee_anchor.Prelude.Int.{ℤ, pos, negsuc, ◌==ℤ◌}
use tee_anchor.OpenSsl.{OpenSsl, Outcome, valid, invalid, failed, call}
use tee_anchor.World.{World, read_file}
use tee_anchor.Cbor.{
  Value, Values, Pairs, value, bytes, array, map, no_values, as_int, at, untag, decode,
}
use tee_anchor.Cbor.Encoder.{enc_head, enc_bytes, enc_text}
use Cpak.{load_pinned_cpak}

abbrev pub cca_token_tag : ℕ
cca_token_tag = 399

abbrev pub cose_sign1_tag : ℕ
cose_sign1_tag = 18

abbrev pub platform_token_key : ℤ
platform_token_key = pos 44234

abbrev pub instance_id_key : ℤ
instance_id_key = pos 256

abbrev pub impl_id_key : ℤ
impl_id_key = pos 2396

abbrev pub cose_alg_key : ℤ
cose_alg_key = pos 1

-- -35
abbrev pub cose_alg_es384 : ℤ
cose_alg_es384 = negsuc 34

unfoldable pub expect_bytes : Value → String → Result Bytes
expect_bytes (bytes d) msg = ok d
expect_bytes _ msg = throw msg

abbrev pub is_map : Value → Bool
is_map (map ps) = true
is_map _ = false

-- `arr.type == Type::Array && arr.array.size() == 4`, with the items.
unfoldable pub four_items : Value → Option (Value × Value × Value × Value)
four_items (array (value a (value b (value c (value d no_values))))) = some (a, b, c, d)
four_items _ = none

-- The parts of the platform token's COSE_Sign1 that the program uses.
pub record Sign1 : Type 0 where
  pub protected_header : Bytes
  pub payload : Bytes
  pub signature : Bytes

-- Steps 1 to 3. `max_items` is what `std::vector::reserve` grants.
unfoldable pub parse_sign1 : ℕ → Bytes → Result Sign1
parse_sign1 max_items tok = do
  top ← decode max_items tok
  coll ← untag top cca_token_tag
  throw_if (if is_map coll then false else true) "CCA: token top-level is not a CCA collection map"
  plat ← or_throw (at coll platform_token_key) "CCA: cca-platform-token (key 44234) not found"
  plat_bytes ← expect_bytes plat "CCA: platform token is not a byte string"
  sign1 ← decode max_items plat_bytes
  arr ← untag sign1 cose_sign1_tag
  (a, b, c, d) ←
      or_throw (four_items arr) "CCA: platform token is not a COSE_Sign1 (tag18/array[4])"
  protected_b ← expect_bytes a "CCA: COSE protected header is not a byte string"
  payload_b ← expect_bytes c "CCA: COSE payload is not a byte string"
  sig_b ← expect_bytes d "CCA: COSE signature is not a byte string"
  ok (record { protected_header = protected_b; payload = payload_b; signature = sig_b })

-- `!alg || alg->as_int() != kCoseAlgES384`
unfoldable pub check_alg_value : Option Value → Result (Unit {0})
check_alg_value none = throw "CCA: unexpected COSE alg (expected ES384=-35)"
check_alg_value (some alg) = do
  n ← as_int alg
  throw_if (if n ==ℤ cose_alg_es384 then false else true)
      "CCA: unexpected COSE alg (expected ES384=-35)"

-- Step 3a.
unfoldable pub check_alg : ℕ → Bytes → Result (Unit {0})
check_alg max_items protected_b = do
  ph ← decode max_items protected_b
  check_alg_value (if is_map ph then at ph cose_alg_key else none)

-- Step 4: the Sig_structure.
unfoldable pub sig_structure : Bytes → Bytes → Bytes
sig_structure protected_b payload_b =
    let o₁ = enc_head [] 4 4 in
    let o₂ = enc_text o₁ (codes "Signature1") in
    let o₃ = enc_bytes o₂ protected_b in let o₄ = enc_bytes o₃ [] in enc_bytes o₄ payload_b

-- Step 6: the instance-id and the implementation-id of the claims.
unfoldable pub non_empty_bytes : Option Value → Option Bytes
non_empty_bytes (some (bytes d)) = if is_empty d then none else some d
non_empty_bytes _ = none

unfoldable pub bytes_or_empty : Option Value → Bytes
bytes_or_empty (some (bytes d)) = d
bytes_or_empty _ = []

unfoldable pub read_claims : ℕ → Bytes → Result (Bytes × Bytes)
read_claims max_items payload_b = do
  claims ← decode max_items payload_b
  throw_if (if is_map claims then false else true) "CCA: platform claims payload is not a map"
  iid ←
      or_throw (non_empty_bytes (at claims instance_id_key))
        "CCA: cca-platform-instance-id (claim 256) missing/empty"
  ok (iid, bytes_or_empty (at claims impl_id_key))

module _ (ssl : OpenSsl) where
  pub record CcaVerifyResult : Type 0 where
    pub instance_id : Bytes
    pub implementation_id : Bytes
    pub cpak : ssl.Key

  unfoldable pub verify_es384 : ssl.Key → Bytes → Bytes → Result Bool
  verify_es384 pk msg raw_sig = do
    throw_if (if length raw_sig == 96 then false else true)
        "CCA: unexpected COSE signature length (expected 96 bytes for ES384/P-384)"
    call ssl "BN_bin2bn (COSE signature)"
    call ssl "ECDSA_SIG_new"
    call ssl "ECDSA_SIG_set0"
    call ssl "i2d_ECDSA_SIG (length)"
    call ssl "i2d_ECDSA_SIG"
    call ssl "EVP_MD_CTX_new"
    call ssl "EVP_DigestVerifyInit (ES384)"
    elim (ssl.verify_ecdsa pk msg (slice 0 48 raw_sig) (slice 48 48 raw_sig)) [
      | valid ↦ ok true
      | invalid ↦ ok false
      | failed ↦ throw "EVP_DigestVerify"
    ]

  -- What follows the reading of the token.
  unfoldable pub verify_token : ℕ → Bytes → Result CcaVerifyResult
  verify_token max_items tok = do
    sign1 ← parse_sign1 max_items tok
    check_alg max_items sign1.protected_header
    cpak ← load_pinned_cpak ssl
    good ← verify_es384 cpak (sig_structure sign1.protected_header sign1.payload) sign1.signature
    throw_if (if good then false else true)
        "CCA: platform token signature verification failed (CPAK pin mismatch or tampered token)"
    (iid, impl) ← read_claims max_items sign1.payload
    ok (record { instance_id = iid; implementation_id = impl; cpak = cpak })

  unfoldable pub verify_and_extract : ℕ → Bytes → World → Result CcaVerifyResult
  verify_and_extract max_items token_path w = do
    tok ← read_file token_path w
    verify_token max_items tok
