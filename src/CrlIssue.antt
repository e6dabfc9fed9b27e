-- ===== src/CrlIssue.antt =====
-- ca/crl_issue.cpp: the subcommand `crl-issue`.
pub mod Ends
pub mod Reasons
pub mod Entries
pub mod Publishes
pub mod Sorted
pub mod Numbers
use tee_anchor.Prelude.{
  ℕ, ◌+◌, ◌*◌, ◌%◌, ◌^◌, Bool, true, false, ◌||◌, Option, none, some, List, [], ◌∷◌, if◌then◌else◌,
  Bytes, bytes_eq, is_empty, codes, String, Result, ok, err, throw, throw_if, or_throw, ◌>>=◌, ◌>>◌,
}
use tee_anchor.Prelude.Int.{ℤ, pos, negsuc, is_not_positive, to_int64, days}
use tee_anchor.OpenSsl.{OpenSsl, Extension, conf, TbsCrl, Revoked, call}
use tee_anchor.World.{World, Io, continue, and_then, write_file}
use tee_anchor.Pki.{load_pem_private_key, load_pem_cert, digest_for_signing_key}
use tee_anchor.RevocationDb.{RevocationEntry, RevocationDb, load_revocation_db, save_revocation_db}
use tee_anchor.Revoke.{db_path_or_default}
use tee_anchor.Cli.{Action, takes, help, unknown, sets, stoi, run_cli}

pub record CrlIssueArgs : Type 0 where
  pub ca_key_path : Bytes
  pub ca_cert_path : Bytes
  pub out_path : Bytes
  pub validity_days : ℤ
  pub db_path : Bytes

abbrev pub crl_issue_defaults : CrlIssueArgs
crl_issue_defaults = record {
  ca_key_path = codes "";
  ca_cert_path = codes "";
  out_path = codes "";
  validity_days = pos 7;
  db_path = codes "";
}

-- kReasonMap
abbrev pub reason_map : List (Bytes × ℕ)
reason_map =
    (codes "unspecified", 0)
    ∷ (codes "keyCompromise", 1)
    ∷ (codes "cACompromise", 2)
    ∷ (codes "affiliationChanged", 3)
    ∷ (codes "superseded", 4)
    ∷ (codes "cessationOfOperation", 5)
    ∷ (codes "certificateHold", 6)
    ∷ (codes "privilegeWithdrawn", 9)
    ∷ (codes "aACompromise", 10)
    ∷ []

unfoldable pub lookup_reason : List (Bytes × ℕ) → Bytes → Result ℕ
lookup_reason [] name = throw "unknown reason name in DB"
lookup_reason ((n, v) ∷ rest) name = if bytes_eq n name then ok v else lookup_reason rest name

unfoldable pub reason_to_int : Bytes → Result ℕ
unfolding lookup_reason
reason_to_int name = lookup_reason reason_map name

unfoldable pub check_crl_issue_args : CrlIssueArgs → Result (Unit {0})
check_crl_issue_args args = do
  throw_if (is_empty args.ca_key_path) "--ca-key is required"
  throw_if (is_empty args.ca_cert_path) "--ca-cert is required"
  throw_if (is_empty args.out_path) "--out is required"
  throw_if (is_not_positive args.validity_days) "--validity-days must be positive"

-- `db.crl_number += 1`
unfoldable pub next_crl_number : RevocationDb → RevocationDb
next_crl_number db = record db { crl_number = (db.crl_number + 1) % 2 ^ 64 }

module _ (ssl : OpenSsl) where
  unfoldable pub asn1_int_from_hex : Bytes → Result ℕ
  asn1_int_from_hex hex = do
    n ← or_throw (ssl.number_of_hex hex) "BN_hex2bn"
    call ssl "BN_to_ASN1_INTEGER"
    ok n

  unfoldable pub asn1_gentime_from_string : Bytes → Result Bytes
  asn1_gentime_from_string ts = do
    call ssl "ASN1_GENERALIZEDTIME_new"
    throw_if (if ssl.is_time ts then false else true) "invalid GeneralizedTime in DB"
    ok ts

  -- The reason that `add_crl_reason_extension` adds to an entry, if any.
  unfoldable pub add_crl_reason_extension : Bytes → Result (Option ℕ)
  add_crl_reason_extension reason_name = if is_empty reason_name then ok none else (do
    code ← reason_to_int reason_name
    call ssl "ASN1_ENUMERATED_new"
    call ssl "ASN1_ENUMERATED_set"
    call ssl "X509_REVOKED_add1_ext_i2d (crl_reason)"
    ok (some code))

  -- The body of the loop of step 4.
  unfoldable pub revoked_of : RevocationEntry → Result Revoked
  revoked_of e = do
    call ssl "X509_REVOKED_new"
    sn ← asn1_int_from_hex e.serial_hex
    call ssl "X509_REVOKED_set_serialNumber"
    rd ← asn1_gentime_from_string e.revocation_date
    call ssl "X509_REVOKED_set_revocationDate"
    reason ← add_crl_reason_extension e.reason
    call ssl "X509_CRL_add0_revoked"
    ok (record { serial = sn; date = rd; reason = reason })

  unfoldable pub revoked_list : List RevocationEntry → Result (List Revoked)
  revoked_list [] = ok []
  revoked_list (e ∷ es) = do r ← revoked_of e; rs ← revoked_list es; ok (r ∷ rs)

  -- Step 3, after the allocation, in the order of the calls.
  unfoldable pub start_crl : Result (Unit {0})
  start_crl = do
    call ssl "X509_CRL_new"
    call ssl "X509_CRL_set_version"
    call ssl "X509_CRL_set_issuer_name"
    call ssl "ASN1_TIME_new (this)"
    call ssl "X509_gmtime_adj (this)"
    call ssl "X509_CRL_set1_lastUpdate"
    call ssl "ASN1_TIME_new (next)"
    call ssl "X509_gmtime_adj (next)"
    call ssl "X509_CRL_set1_nextUpdate"

  -- Step 5, and the test of the sort of step 6.
  unfoldable pub finish_crl : Result (Unit {0})
  finish_crl = do
    call ssl "ASN1_INTEGER_new (crl_number)"
    call ssl "ASN1_INTEGER_set (crl_number)"
    call ssl "X509_CRL_add1_ext_i2d (crl_number)"
    call ssl "X509V3_EXT_conf_nid (AKI)"
    call ssl "X509_CRL_add_ext (AKI)"
    call ssl "X509_CRL_sort"

  unfoldable pub tbs_crl : CrlIssueArgs → ssl.Cert → RevocationDb → List Revoked → TbsCrl ssl.Name
  tbs_crl args ca_cert db revoked = record {
    version = 1;
    issuer = ssl.subject ca_cert;
    this_update = pos 0;
    next_update = days args.validity_days;
    revoked = revoked;
    crl_number = to_int64 db.crl_number;
    extensions = conf "NID_authority_key_identifier" "keyid:always" ∷ [];
  }

  -- Steps 3 to 6. The entries are signed as `X509_CRL_sort` has ordered them.
  unfoldable pub build_crl : CrlIssueArgs → ssl.Key → ssl.Cert → RevocationDb → Result ssl.Crl
  build_crl args ca_key ca_cert db = do
    start_crl
    revoked ← revoked_list db.entries
    finish_crl
    md ← digest_for_signing_key ssl ca_key
    or_throw (ssl.sign_crl (tbs_crl args ca_cert db (ssl.sort_revoked revoked)) ca_key md)
        "X509_CRL_sign"

  -- Step 7, up to the writing of the file.
  unfoldable pub pem_crl : ssl.Crl → Result Bytes
  pem_crl crl = do
    call ssl "BIO_new (mem)"
    call ssl "PEM_write_bio_X509_CRL"
    ok (ssl.write_crl crl)

  -- Steps 1 to 7, which read the files: the CRL, and the list with its number.
  unfoldable pub plan_crl : CrlIssueArgs → World → Result (Bytes × RevocationDb)
  plan_crl args w = do
    check_crl_issue_args args
    ca_key ← load_pem_private_key ssl args.ca_key_path w
    ca_cert ← load_pem_cert ssl args.ca_cert_path w
    throw_if (if ssl.key_matches ca_cert ca_key then false else true)
        "CA private key does not match CA certificate"
    old ← load_revocation_db (db_path_or_default args.db_path args.ca_cert_path) w
    let db = next_crl_number old
    crl ← build_crl args ca_key ca_cert db
    pem ← pem_crl crl
    ok (pem, db)

  -- The CRL is written first, and the list, with the new number, after it.
  unfoldable pub publish : CrlIssueArgs → Bytes × RevocationDb → Io (Unit {0})
  publish args (pem, db) =
      and_then (write_file args.out_path pem 0x1A4)
        (save_revocation_db (db_path_or_default args.db_path args.ca_cert_path) db)

  unfoldable pub run_crl_issue : CrlIssueArgs → Io (Unit {0})
  run_crl_issue args w = continue (plan_crl args w) (publish args) w

  unfoldable pub crl_issue_option : Bytes → Action CrlIssueArgs
  crl_issue_option a =
      if bytes_eq a (codes "--ca-key")
      then sets (λ v r. record r { ca_key_path = v })
      else if bytes_eq a (codes "--ca-cert")
      then sets (λ v r. record r { ca_cert_path = v })
      else if bytes_eq a (codes "--out")
      then sets (λ v r. record r { out_path = v })
      else if bytes_eq a (codes "--validity-days")
      then takes (λ v r. stoi v >>= λ n. ok (record r { validity_days = n }))
      else if bytes_eq a (codes "--db")
      then sets (λ v r. record r { db_path = v })
      else if bytes_eq a (codes "-h") || bytes_eq a (codes "--help")
      then help
      else unknown

  unfoldable pub cli_crl_issue : List Bytes → World → ℕ × World
  cli_crl_issue argv w = run_cli crl_issue_option crl_issue_defaults run_crl_issue argv w
