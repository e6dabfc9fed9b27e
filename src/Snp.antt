-- ===== src/Snp.antt =====
-- provision/sev-snp/snp_provision.cpp: from an SEV-SNP attestation report to the CHIP_ID.
pub mod Pins
pub mod Report
pub mod Ends
pub mod Accepts
use tee_anchor.Prelude.{
  ℕ, ◌+◌, ◌*◌, ◌<◌, Bool, true, false, ◌&&◌, Option, none, some, List, [], ◌∷◌, ◌++◌, ltb, ◌==◌,
  if◌then◌else◌, length, take, drop, slice, Bytes, bytes_eq, is_empty, codes, String, Result, ok,
  err, throw, throw_if, or_throw, ◌>>=◌, ◌>>◌,
}
use tee_anchor.OpenSsl.{
  OpenSsl, Store, KeyKind, ec, rsa, ed25519, ed448, other, Outcome, valid, invalid, failed, call,
}
use tee_anchor.World.{World, path_exists, read_file}
use tee_anchor.Pki.{load_pem_cert, make_oid, pubkey_spki_sha384}
use tee_anchor.Quote.{rd_u32le}
use Pins.{match_ark_pin}
use Report.{
  off_version, off_signature, off_signed_end, ecdsa_comp_len, validate_report_header,
  extract_chip_id_from_report, be_of_le,
}

-- `dir.back() == '/'`
unfoldable pub ends_with_slash : Bytes → Bool
ends_with_slash [] = false
ends_with_slash (c ∷ []) = c == b'/'
ends_with_slash (c ∷ d ∷ s) = ends_with_slash (d ∷ s)

unfoldable pub join_path : Bytes → Bytes → Bytes
join_path dir name =
    if is_empty dir then name else if ends_with_slash dir then dir ++ name else dir ++ (b'/' ∷ name)

abbrev pub oid_amd_sev_hwid : Bytes
oid_amd_sev_hwid = codes "1.3.6.1.4.1.3704.1.4"

module _ (ssl : OpenSsl) where
  -- `SnpChain`: the leaf and the generation.
  pub record SnpChain : Type 0 where
    pub vcek : ssl.Cert
    pub generation : String

  pub record SnpVerifyResult : Type 0 where
    pub chip_id : Bytes
    pub version : ℕ
    pub generation : String
    pub vcek : ssl.Cert

  unfoldable pub vcek_store : ssl.Cert → ssl.Cert → Store ssl.Cert ssl.Crl
  vcek_store ark ask = record {
    trusted = ark;
    untrusted = ask ∷ [];
    crl = none;
    ignore_critical = false;
    crl_check = false;
  }

  -- Steps 2 and 3 of `verify_vcek_chain`: the pin of the root, and the chain.
  unfoldable pub verify_vcek_certs : ssl.Cert → ssl.Cert → ssl.Cert → Result SnpChain
  verify_vcek_certs ark ask vcek = do
    digest ← pubkey_spki_sha384 ssl ark
    generation ← or_throw (match_ark_pin digest) "ARK public key does not match any pinned AMD root"
    call ssl "X509_STORE_new"
    call ssl "X509_STORE_add_cert (ARK)"
    call ssl "sk_X509_new_null"
    call ssl "sk_X509_push (ASK)"
    call ssl "X509_STORE_CTX_new"
    call ssl "X509_STORE_CTX_init"
    if ssl.verify_cert (vcek_store ark ask) vcek == 0
        then ok (record { vcek = vcek; generation = generation })
        else throw "VCEK certificate chain verification failed (ARK->ASK->VCEK)"

  unfoldable pub verify_vcek_chain : Bytes → World → Result SnpChain
  verify_vcek_chain certs_dir w = do
    let ark_path = join_path certs_dir (codes "ark.pem")
    let ask_path = join_path certs_dir (codes "ask.pem")
    let vcek_path = join_path certs_dir (codes "vcek.pem")
    throw_if (if path_exists ark_path w then false else true) "ARK certificate not found"
    throw_if (if path_exists ask_path w then false else true) "ASK certificate not found"
    throw_if (if path_exists vcek_path w then false else true) "VCEK certificate not found"
    ark ← load_pem_cert ssl ark_path w
    ask ← load_pem_cert ssl ask_path w
    vcek ← load_pem_cert ssl vcek_path w
    verify_vcek_certs ark ask vcek

  -- `EVP_PKEY_base_id(pk) != EVP_PKEY_EC`
  abbrev pub is_not_ec : KeyKind → Bool
  is_not_ec ec = false
  is_not_ec rsa = true
  is_not_ec ed25519 = true
  is_not_ec ed448 = true
  is_not_ec other = true

  unfoldable pub verify_report_signature : Bytes → ssl.Cert → Result (Unit {0})
  verify_report_signature report vcek = do
    throw_if (ltb (length report) (off_signature + 2 * ecdsa_comp_len))
        "attestation report too short for SIGNATURE field"
    pk ← or_throw (ssl.public_key vcek) "X509_get0_pubkey (VCEK)"
    throw_if (is_not_ec (ssl.kind pk)) "VCEK public key is not EC (expected ECDSA P-384)"
    call ssl "BN_bin2bn (SNP signature component)"
    let r = be_of_le (slice off_signature ecdsa_comp_len report)
    let s = be_of_le (slice (off_signature + ecdsa_comp_len) ecdsa_comp_len report)
    call ssl "ECDSA_SIG_new"
    call ssl "ECDSA_SIG_set0"
    call ssl "i2d_ECDSA_SIG (length)"
    call ssl "i2d_ECDSA_SIG"
    call ssl "EVP_MD_CTX_new"
    call ssl "EVP_DigestVerifyInit (ECDSA P-384/SHA-384)"
    elim (ssl.verify_ecdsa pk (take off_signed_end report) r s) [
      | valid ↦ ok tt
      | invalid ↦ throw "attestation report signature did not verify against the VCEK public key"
      | failed ↦ throw "EVP_DigestVerify (SNP report)"
    ]

  -- The cross-check with the hwID extension: only one of the CHIP_ID's length is compared.
  unfoldable pub check_hwid : ssl.Cert → Bytes → Result (Unit {0})
  check_hwid vcek chip_id = do
    oid ← make_oid ssl oid_amd_sev_hwid
    elim (ssl.extension vcek oid) [
      | none ↦ ok tt
      | some none ↦ ok tt
      | some (some hwid) ↦
          throw_if
            (if length hwid == length chip_id
              then (if bytes_eq chip_id hwid then false else true)
              else false)
            "CHIP_ID in attestation report does not match the VCEK hwID extension"
    ]

  -- What follows the reading of the report.
  unfoldable pub verify_report : Bytes → Bytes → World → Result SnpVerifyResult
  verify_report report certs_dir w = do
    validate_report_header report
    chain ← verify_vcek_chain certs_dir w
    verify_report_signature report chain.vcek
    chip_id ← extract_chip_id_from_report report
    check_hwid chain.vcek chip_id
    ok (record {
      chip_id = chip_id;
      version = rd_u32le report off_version;
      generation = chain.generation;
      vcek = chain.vcek;
    })

  unfoldable pub verify_and_extract : Bytes → Bytes → World → Result SnpVerifyResult
  verify_and_extract report_path certs_dir w = do
    report ← read_file report_path w
    verify_report report certs_dir w
