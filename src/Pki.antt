-- ===== src/Pki.antt =====
-- common/pki_util.hpp: names, digests, keys and files of the organization's PKI.
pub mod Dn
pub mod Trim
pub mod DnRuns
pub mod Ends
use tee_anchor.Prelude.{
  ℕ, suc, zero, ◌≡◌, Bool, true, false, ◌||◌, Option, none, some, List, [], ◌∷◌, ◌++◌, Bytes,
  bytes_eq, codes, if◌then◌else◌, String, Result, ok, err, throw, or_throw, ◌>>=◌, ◌>>◌,
}
use tee_anchor.OpenSsl.{
  OpenSsl, Digest, sha256, sha384, sha512, KeyKind, ec, rsa, ed25519, ed448, other, call, Extension,
  conf,
}
use tee_anchor.World.{World, read_file}

-- The curve's ECDSA digest.
unfoldable pub sig_md_for_curve : Bytes → Result Digest
sig_md_for_curve curve =
    if bytes_eq curve (codes "P-256")
      || bytes_eq curve (codes "secp256r1")
      || bytes_eq curve (codes "prime256v1")
    then ok sha256
    else if bytes_eq curve (codes "P-384") || bytes_eq curve (codes "secp384r1")
    then ok sha384
    else if bytes_eq curve (codes "P-521") || bytes_eq curve (codes "secp521r1")
    then ok sha512
    else throw "unsupported curve"

module _ (ssl : OpenSsl) where
  -- `nullptr` is `none`.
  unfoldable pub digest_for_signing_key : ssl.Key → Result (Option Digest)
  digest_for_signing_key key = elim (ssl.kind key) [
    | ec ↦ do
      curve ← or_throw (ssl.group_name key) "EVP_PKEY_get_utf8_string_param (group name)"
      md ← sig_md_for_curve curve
      ok (some md)
    | rsa ↦ ok (some sha256)
    | ed25519 ↦ ok none
    | ed448 ↦ ok none
    | other ↦ ok (some sha256)
  ]

  unfoldable pub gen_ec_key : Bytes → Result ssl.Key
  gen_ec_key curve = or_throw (ssl.gen_key curve) "EVP_EC_gen"

  unfoldable pub load_pem_private_key : Bytes → World → Result ssl.Key
  load_pem_private_key path w = do
    bytes ← read_file path w
    call ssl "BIO_new_mem_buf"
    or_throw (ssl.read_key bytes) "PEM_read_bio_PrivateKey"

  unfoldable pub load_pem_cert : Bytes → World → Result ssl.Cert
  load_pem_cert path w = do
    bytes ← read_file path w
    call ssl "BIO_new_mem_buf"
    (cert, rest) ← or_throw (ssl.read_cert bytes) "PEM_read_bio_X509"
    ok cert

  unfoldable pub load_pem_crl : Bytes → World → Result ssl.Crl
  load_pem_crl path w = do
    bytes ← read_file path w
    call ssl "BIO_new_mem_buf"
    or_throw (ssl.read_crl bytes) "PEM_read_bio_X509_CRL"

  unfoldable pub pem_private_key : ssl.Key → Result Bytes
  pem_private_key key = do
    call ssl "BIO_new (mem)"
    call ssl "PEM_write_bio_PrivateKey"
    ok (ssl.write_key key)

  unfoldable pub pem_cert : ssl.Cert → Result Bytes
  pem_cert cert = do
    call ssl "BIO_new (mem)"
    call ssl "PEM_write_bio_X509"
    ok (ssl.write_cert cert)

  -- 159 random bits, as `BN_rand` drew them.
  unfoldable pub random_serial : World → Result ℕ
  random_serial w = do
    call ssl "BN_new"
    call ssl "BN_rand"
    call ssl "ASN1_INTEGER_new"
    call ssl "BN_to_ASN1_INTEGER"
    ok w.random

  -- `add_v3_ext` makes the extension and adds it.
  unfoldable pub add_v3_ext : String → String → List Extension → Result (List Extension)
  add_v3_ext nid text extensions = do
    call ssl "X509V3_EXT_conf_nid"
    call ssl "X509_add_ext"
    ok (extensions ++ (conf nid text ∷ []))

  -- `OBJ_txt2obj`; an object is its dotted form.
  unfoldable pub make_oid : Bytes → Result Bytes
  make_oid oid = do call ssl "OBJ_txt2obj"; ok oid

  unfoldable pub pubkey_spki_sha384 : ssl.Cert → Result Bytes
  pubkey_spki_sha384 cert = do
    key ← or_throw (ssl.public_key cert) "X509_get0_pubkey"
    der ← or_throw (ssl.spki key) "i2d_PUBKEY"
    or_throw (ssl.digest sha384 der) "EVP_Digest (SHA-384 over SPKI)"
