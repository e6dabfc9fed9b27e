-- ===== src/Binding.antt =====
-- binding/chip_id_binding.cpp: the ChipIdBinding extension, encoded in DER and decoded by OpenSSL's
-- `ASN1_get_object`.
pub mod Der
pub mod Ends
pub mod RoundTrip
use tee_anchor.Prelude.{
  ℕ, ◌+◌, Bool, true, false, Option, none, some, List, [], ◌∷◌, ◌++◌, ◌==◌, if◌then◌else◌, length,
  take, drop, get_or, Bytes, codes, String, Result, ok, err, throw, throw_if, or_throw, ◌>>=◌, ◌>>◌,
}
use tee_anchor.OpenSsl.{OpenSsl, Extension, octets, call}
use tee_anchor.Pki.{make_oid}
use Der.{der_tlv}

abbrev pub tee_type_sgx : ℕ
tee_type_sgx = 0

abbrev pub tee_type_tdx : ℕ
tee_type_tdx = 1

abbrev pub tee_type_sev_snp : ℕ
tee_type_sev_snp = 2

abbrev pub tee_type_arm_cca : ℕ
tee_type_arm_cca = 3

abbrev pub oid_chip_id_binding : Bytes
oid_chip_id_binding = codes "1.3.6.1.4.1.99999.1.1"

pub record ChipIdBinding : Type 0 where
  pub tee_type : ℕ
  pub chip_id : Bytes
  pub issued_at : Bytes

-- `now` is the text of the current time.
unfoldable pub encode_chip_id_binding : ℕ → Bytes → Bytes → Result Bytes
encode_chip_id_binding tee_type chip_id now = do
  enum_tlv ← der_tlv 0x0A (tee_type ∷ [])
  octet_tlv ← der_tlv 0x04 chip_id
  time_tlv ← der_tlv 0x18 now
  der_tlv 0x30 (enum_tlv ++ (octet_tlv ++ time_tlv))

module _ (ssl : OpenSsl) where
  unfoldable pub make_chip_id_binding_extension : Bytes → Result Extension
  make_chip_id_binding_extension binding_der = do
    oid ← make_oid ssl oid_chip_id_binding
    call ssl "ASN1_OCTET_STRING_new"
    call ssl "ASN1_OCTET_STRING_set"
    call ssl "X509_EXTENSION_create_by_OBJ"
    ok (octets oid true binding_der)

  -- `must_read`: the value of the object at `p`, which has to carry the tag, and what follows it.
  unfoldable pub must_read : Bytes → ℕ → String → Result (Bytes × Bytes)
  must_read p expect_tag msg = elim (ssl.get_object p) [
    | none ↦ throw msg
    | some (tag, len, val) ↦
        if tag == expect_tag then ok (take len val, drop len val) else throw msg
  ]

  -- The fields inside the outer SEQUENCE. What follows the third is ignored.
  unfoldable pub decode_fields : Bytes → Result ChipIdBinding
  decode_fields p = do
    (tt_val, p₁) ← must_read p 10 "ChipIdBinding: ENUMERATED teeType expected"
    throw_if (if length tt_val == 1 then false else true) "ChipIdBinding: teeType length must be 1"
    (ci_val, p₂) ← must_read p₁ 4 "ChipIdBinding: OCTET STRING chipId expected"
    (it_val, p₃) ← must_read p₂ 24 "ChipIdBinding: GeneralizedTime issuedAt expected"
    ok (record { tee_type = get_or tt_val 0 0; chip_id = ci_val; issued_at = it_val })

  unfoldable pub decode_chip_id_binding : Bytes → Result ChipIdBinding
  decode_chip_id_binding der = do
    (seq, rest) ← must_read der 16 "ChipIdBinding: outer SEQUENCE expected"
    decode_fields seq

  unfoldable pub extract_chip_id_binding : ssl.Cert → Result ChipIdBinding
  extract_chip_id_binding cert = do
    oid ← make_oid ssl oid_chip_id_binding
    found ← or_throw (ssl.extension cert oid) "ChipIdBinding extension not found in cert"
    der ← or_throw found "X509_EXTENSION_get_data returned null"
    decode_chip_id_binding der

-- `tee_type_name` of binding/chip_id_binding.hpp
unfoldable pub tee_type_name : ℕ → String
tee_type_name t =
    if t == tee_type_sgx
    then "sgx"
    else if t == tee_type_tdx
    then "tdx"
    else if t == tee_type_sev_snp
    then "sev-snp"
    else if t == tee_type_arm_cca
    then "arm-cca"
    else "unknown"
