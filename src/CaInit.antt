-- ===== src/CaInit.antt =====
-- ca/ca_init.cpp: the subcommand `ca-init`.
pub mod Creates
pub mod Ends
use tee_anchor.Prelude.{
  ℕ, Bool, true, false, ◌&&◌, ◌||◌, Option, none, some, List, [], ◌∷◌, ◌++◌, if◌then◌else◌, Bytes,
  bytes_eq, is_empty, codes, String, Result, ok, err, throw, throw_if, or_throw, ◌>>=◌, ◌>>◌,
}
use tee_anchor.Prelude.Int.{ℤ, pos, is_not_positive, days}
use tee_anchor.OpenSsl.{OpenSsl, Extension, Tbs, call}
use tee_anchor.World.{World, Io, continue, and_then, write_file, path_exists}
use tee_anchor.Pki.{
  sig_md_for_curve, gen_ec_key, random_serial, add_v3_ext, pem_private_key, pem_cert,
}
use tee_anchor.Pki.Dn.{parse_dn}
use tee_anchor.Cli.{Action, takes, flag, help, unknown, sets, stoi, run_cli}

pub record CaInitArgs : Type 0 where
  pub out_dir : Bytes
  pub subject : Bytes
  pub validity_days : ℤ
  pub curve : Bytes
  pub force : Bool

abbrev pub ca_init_defaults : CaInitArgs
ca_init_defaults = record {
  out_dir = codes "";
  subject = codes "CN=TEE Anchor Org CA";
  validity_days = pos 3650;
  curve = codes "P-384";
  force = false;
}

abbrev pub key_path : CaInitArgs → Bytes
key_path args = args.out_dir ++ codes "/ca.key"

abbrev pub crt_path : CaInitArgs → Bytes
crt_path args = args.out_dir ++ codes "/ca.crt"

unfoldable pub check_ca_init : CaInitArgs → World → Result (Unit {0})
check_ca_init args w = do
  throw_if (is_empty args.out_dir) "--out-dir is required"
  throw_if (is_not_positive args.validity_days) "--validity-days must be positive"
  throw_if (if args.force then false else path_exists (key_path args) w) "already exists: ca.key"
  throw_if (if args.force then false else path_exists (crt_path args) w) "already exists: ca.crt"

module _ (ssl : OpenSsl) where
  -- Step 3.
  unfoldable pub ca_extensions : Result (List Extension)
  ca_extensions = do
    e₁ ← add_v3_ext ssl "NID_basic_constraints" "critical,CA:TRUE" []
    e₂ ← add_v3_ext ssl "NID_key_usage" "critical,digitalSignature,keyCertSign,cRLSign" e₁
    add_v3_ext ssl "NID_subject_key_identifier" "hash" e₂

  unfoldable pub ca_tbs :
      CaInitArgs → ℕ → ssl.Name → ssl.Key → List Extension → Tbs ssl.Name ssl.Key
  ca_tbs args sn name pkey extensions = record {
    version = 2;
    serial = sn;
    not_before = pos 0;
    not_after = days args.validity_days;
    issuer = name;
    subject = name;
    public_key = pkey;
    extensions = extensions;
  }

  -- Steps 2 to 4: the self-signed certificate of the key.
  unfoldable pub self_signed : CaInitArgs → ssl.Key → World → Result ssl.Cert
  self_signed args pkey w = do
    call ssl "X509_new"
    call ssl "X509_set_version"
    sn ← random_serial ssl w
    call ssl "X509_set_serialNumber"
    call ssl "X509_gmtime_adj (notBefore)"
    call ssl "X509_gmtime_adj (notAfter)"
    name ← parse_dn ssl args.subject
    call ssl "X509_set_subject_name"
    call ssl "X509_set_issuer_name"
    call ssl "X509_set_pubkey"
    extensions ← ca_extensions
    md ← sig_md_for_curve args.curve
    or_throw (ssl.sign_cert (ca_tbs args sn name pkey extensions) pkey (some md)) "X509_sign"

  -- Steps 1 to 4: the key as PEM, and the certificate.
  unfoldable pub make_ca : CaInitArgs → World → Result (Bytes × ssl.Cert)
  make_ca args w = do
    check_ca_init args w
    pkey ← gen_ec_key ssl args.curve
    cert ← self_signed args pkey w
    key_pem ← pem_private_key ssl pkey
    ok (key_pem, cert)

  -- Step 5: the certificate is turned into PEM after the key is written.
  unfoldable pub write_ca : CaInitArgs → Bytes × ssl.Cert → Io (Unit {0})
  write_ca args (key_pem, cert) =
      and_then (write_file (key_path args) key_pem 0x180)
        (λ w. continue (pem_cert ssl cert) (λ crt_pem. write_file (crt_path args) crt_pem 0x1A4) w)

  unfoldable pub run_ca_init : CaInitArgs → Io (Unit {0})
  run_ca_init args w = continue (make_ca args w) (write_ca args) w

  unfoldable pub ca_init_option : Bytes → Action CaInitArgs
  ca_init_option a =
      if bytes_eq a (codes "--out-dir")
      then sets (λ v r. record r { out_dir = v })
      else if bytes_eq a (codes "--subject")
      then sets (λ v r. record r { subject = v })
      else if bytes_eq a (codes "--validity-days")
      then takes (λ v r. stoi v >>= λ n. ok (record r { validity_days = n }))
      else if bytes_eq a (codes "--curve")
      then sets (λ v r. record r { curve = v })
      else if bytes_eq a (codes "--force")
      then flag (λ r. record r { force = true })
      else if bytes_eq a (codes "-h") || bytes_eq a (codes "--help")
      then help
      else unknown

  unfoldable pub cli_ca_init : List Bytes → World → ℕ × World
  cli_ca_init argv w = run_cli ca_init_option ca_init_defaults run_ca_init argv w
