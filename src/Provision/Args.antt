-- ===== src/Provision/Args.antt =====
-- The arguments of `provision` (provision/provision.hpp), and the checks at the start of
-- `run_provision`.
use tee_anchor.Prelude.{
  true, false, ◌||◌, if◌then◌else◌, Bytes, bytes_eq, is_empty, codes, Result, ok, throw_if, ◌>>=◌,
  ◌>>◌,
}
use tee_anchor.Prelude.Int.{ℤ, pos, is_not_positive}
use tee_anchor.Verify.Args.{is_tee_type}
use tee_anchor.Cli.{Action, takes, help, unknown, sets, stoi}

pub record ProvisionArgs : Type 0 where
  pub report_path : Bytes
  pub certs_dir : Bytes
  pub ca_key_path : Bytes
  pub ca_cert_path : Bytes
  pub out_path : Bytes
  pub subject : Bytes
  pub validity_days : ℤ
  pub tee_type : Bytes

abbrev pub provision_defaults : ProvisionArgs
provision_defaults = record {
  report_path = codes "";
  certs_dir = codes "";
  ca_key_path = codes "";
  ca_cert_path = codes "";
  out_path = codes "";
  subject = codes "";
  validity_days = pos 365;
  tee_type = codes "sgx";
}

-- The chain of tests of `cli_provision`.
unfoldable pub provision_option : Bytes → Action ProvisionArgs
provision_option a =
    if bytes_eq a (codes "--report")
    then sets (λ v r. record r { report_path = v })
    else if bytes_eq a (codes "--certs")
    then sets (λ v r. record r { certs_dir = v })
    else if bytes_eq a (codes "--ca-key")
    then sets (λ v r. record r { ca_key_path = v })
    else if bytes_eq a (codes "--ca-cert")
    then sets (λ v r. record r { ca_cert_path = v })
    else if bytes_eq a (codes "--out")
    then sets (λ v r. record r { out_path = v })
    else if bytes_eq a (codes "--subject")
    then sets (λ v r. record r { subject = v })
    else if bytes_eq a (codes "--validity-days")
    then takes (λ v r. stoi v >>= λ n. ok (record r { validity_days = n }))
    else if bytes_eq a (codes "--tee-type")
    then sets (λ v r. record r { tee_type = v })
    else if bytes_eq a (codes "-h") || bytes_eq a (codes "--help")
    then help
    else unknown

unfoldable pub check_provision_args : ProvisionArgs → Result (Unit {0})
check_provision_args args = do
  throw_if (if is_tee_type args.tee_type then false else true) "unknown --tee-type"
  throw_if (is_empty args.report_path) "--report is required"
  (if bytes_eq args.tee_type (codes "snp")
      then throw_if (is_empty args.certs_dir) "--certs is required"
      else ok tt)
  throw_if (is_empty args.ca_key_path) "--ca-key is required"
  throw_if (is_empty args.ca_cert_path) "--ca-cert is required"
  throw_if (is_empty args.out_path) "--out is required"
  throw_if (is_not_positive args.validity_days) "--validity-days must be positive"
