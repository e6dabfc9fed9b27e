-- ===== src/Verify/Args.antt =====
-- The arguments of `verify` (verify/verify.hpp), and the checks at the start of `run_verify`.
use tee_anchor.Prelude.{
  Bool, true, false, ◌||◌, if◌then◌else◌, Bytes, bytes_eq, is_empty, codes, Result, ok, throw_if,
  ◌>>◌,
}
use tee_anchor.Cli.{Action, help, unknown, sets}

pub record VerifyArgs : Type 0 where
  pub report_path : Bytes
  pub certs_dir : Bytes
  pub org_cert_path : Bytes
  pub org_ca_path : Bytes
  pub crl_path : Bytes
  pub tee_type : Bytes

abbrev pub verify_defaults : VerifyArgs
verify_defaults = record {
  report_path = codes "";
  certs_dir = codes "";
  org_cert_path = codes "";
  org_ca_path = codes "";
  crl_path = codes "";
  tee_type = codes "sgx";
}

-- The chain of tests of `cli_verify`.
unfoldable pub verify_option : Bytes → Action VerifyArgs
verify_option a =
    if bytes_eq a (codes "--report")
    then sets (λ v r. record r { report_path = v })
    else if bytes_eq a (codes "--certs")
    then sets (λ v r. record r { certs_dir = v })
    else if bytes_eq a (codes "--org-cert")
    then sets (λ v r. record r { org_cert_path = v })
    else if bytes_eq a (codes "--org-ca")
    then sets (λ v r. record r { org_ca_path = v })
    else if bytes_eq a (codes "--crl")
    then sets (λ v r. record r { crl_path = v })
    else if bytes_eq a (codes "--tee-type")
    then sets (λ v r. record r { tee_type = v })
    else if bytes_eq a (codes "-h") || bytes_eq a (codes "--help")
    then help
    else unknown

-- `args.tee_type != "sgx" && ...`, negated
unfoldable pub is_tee_type : Bytes → Bool
is_tee_type t =
    bytes_eq t (codes "sgx")
    || bytes_eq t (codes "tdx")
    || bytes_eq t (codes "snp")
    || bytes_eq t (codes "cca")

unfoldable pub check_args : VerifyArgs → Result (Unit {0})
check_args args = do
  throw_if (is_empty args.org_cert_path) "--org-cert is required"
  throw_if (is_empty args.org_ca_path) "--org-ca is required"
  throw_if (if is_tee_type args.tee_type then false else true) "unknown --tee-type"
  throw_if (is_empty args.report_path) "--report is required"
  if bytes_eq args.tee_type (codes "snp")
      then throw_if (is_empty args.certs_dir) "--certs is required"
      else ok tt
