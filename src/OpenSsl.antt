-- ===== src/OpenSsl.antt =====
-- The calls of OpenSSL that the program makes, as an interface: the program is modelled over any
-- value of this record. Objects are values; an allocation or a setter that can fail is asked by the
-- name that the program gives it in its error message.
use tee_anchor.Prelude.{ℕ, Bool, Option, List, Bytes, String, Result, ok, throw, if◌then◌else◌}
use tee_anchor.Prelude.Int.{ℤ}

pub data Digest : Type 0 where
  sha256 sha384 sha512 : Digest

pub data KeyKind : Type 0 where
  ec rsa ed25519 ed448 other : KeyKind

-- `EVP_DigestVerify`: 1, 0, or below 0
pub data Outcome : Type 0 where
  valid invalid failed : Outcome

-- An extension by its nid and configuration value, or by an OID, its flag and its bytes.
pub data Extension : Type 0 where
  conf : String → String → Extension
  octets : Bytes → Bool → Bytes → Extension

-- A certificate before it is signed. Dates are distances from now, in seconds.
pub record Tbs (Name Key : Type 0) : Type 0 where
  pub version : ℕ
  pub serial : ℕ
  pub not_before : ℤ
  pub not_after : ℤ
  pub issuer : Name
  pub subject : Name
  pub public_key : Key
  pub extensions : List Extension

-- An entry of a CRL: the serial number, the date as text, and the code of the reason, if any.
pub record Revoked : Type 0 where
  pub serial : ℕ
  pub date : Bytes
  pub reason : Option ℕ

-- A CRL before it is signed.
pub record TbsCrl (Name : Type 0) : Type 0 where
  pub version : ℕ
  pub issuer : Name
  pub this_update : ℤ
  pub next_update : ℤ
  pub revoked : List Revoked
  pub crl_number : ℤ
  pub extensions : List Extension

-- What a chain is verified against.
pub record Store (Cert Crl : Type 0) : Type 0 where
  pub trusted : Cert
  pub untrusted : List Cert
  pub crl : Option Crl
  pub ignore_critical : Bool
  pub crl_check : Bool

pub record OpenSsl : Type 1 where
  pub Cert : Type 0
  pub Key : Type 0
  pub Crl : Type 0
  pub Name : Type 0
  -- Whether the call named in an error message succeeds, where nothing else is asked of it.
  pub succeeds : String → Bool
  -- `PEM_read_bio_*`: the object, and for certificates also what follows it in the buffer.
  pub read_key : Bytes → Option Key
  pub read_cert : Bytes → Option (Cert × Bytes)
  pub read_crl : Bytes → Option Crl
  -- `PEM_write_bio_*`
  pub write_key : Key → Bytes
  pub write_cert : Cert → Bytes
  pub write_crl : Crl → Bytes
  -- `X509_NAME_cmp(a, b) == 0`, `X509_NAME_new`, `X509_NAME_add_entry_by_txt`
  pub same_name : Name → Name → Bool
  pub empty_name : Name
  pub add_entry : Name → Bytes → Bytes → Option Name
  -- `X509_get_subject_name`, `X509_get_issuer_name`, `X509_get0_serialNumber`, `X509_get0_pubkey`
  pub subject : Cert → Name
  pub issuer : Cert → Name
  pub serial : Cert → ℕ
  pub public_key : Cert → Option Key
  -- `X509_check_private_key(cert, key) == 1`
  pub key_matches : Cert → Key → Bool
  -- `EVP_PKEY_base_id`, the group name, the public point, `i2d_PUBKEY`, `d2i_PUBKEY`, `EVP_EC_gen`
  pub kind : Key → KeyKind
  pub group_name : Key → Option Bytes
  pub ec_point : Key → Option Bytes
  pub spki : Key → Option Bytes
  pub key_of_spki : Bytes → Option Key
  pub gen_key : Bytes → Option Key
  -- `EVP_Digest`
  pub digest : Digest → Bytes → Option Bytes
  -- `X509_get_ext_by_OBJ`: no such extension, one without data, or its data.
  pub extension : Cert → Bytes → Option (Option Bytes)
  -- `ASN1_get_object` on the bytes up to the limit: the tag, the length, and what follows the header.
  pub get_object : Bytes → Option (ℕ × ℕ × Bytes)
  -- `d2i_ASN1_OBJECT`: the object, in dotted form, and what follows it.
  pub read_oid : Bytes → Option (Bytes × Bytes)
  -- `X509_verify_cert`: 0 for success, or the error of the context.
  pub verify_cert : Store Cert Crl → Cert → ℕ
  -- ECDSA with SHA-384: the key, the message, and the big-endian bytes of the two numbers.
  pub verify_ecdsa : Key → Bytes → Bytes → Bytes → Outcome
  -- `X509_CRL_sort`, on the entries of a CRL
  pub sort_revoked : List Revoked → List Revoked
  -- `X509_sign`, `X509_CRL_sign`
  pub sign_cert : Tbs Name Key → Key → Option Digest → Option Cert
  pub sign_crl : TbsCrl Name → Key → Option Digest → Option Crl
  -- `BN_bn2hex`, `BN_hex2bn`, and whether `ASN1_GENERALIZEDTIME_set_string` takes a text
  pub hex_of_number : ℕ → Bytes
  pub number_of_hex : Bytes → Option ℕ
  pub is_time : Bytes → Bool

-- `X509_V_ERR_CERT_REVOKED`
abbrev pub err_cert_revoked : ℕ
err_cert_revoked = 23

-- `if (call != 1) throw_openssl_error(name);`
unfoldable pub call : OpenSsl → String → Result (Unit {0})
call ssl name = if ssl.succeeds name then ok tt else throw name
