-- ===== src/Verify.antt =====
-- verify/verify.cpp: the subcommand `verify`. `max_items` is what `std::vector::reserve` grants to the
-- CBOR decoder.
pub mod Args
pub mod Accepts
pub mod Ends
pub mod Codes
use tee_anchor.Prelude.{
  ℕ, ◌+◌, Bool, true, false, ◌&&◌, ◌||◌, Option, none, some, List, [], ◌∷◌, ◌==◌, if◌then◌else◌,
  length, Bytes, bytes_eq, is_empty, codes, String, Result, ok, err, throw, throw_if, or_throw,
  Error, tee_anchor_error, std_exception, out_of_fuel, ◌>>=◌, ◌>>◌,
}
use tee_anchor.OpenSsl.{OpenSsl, Store, err_cert_revoked, call}
use tee_anchor.World.{World, read_file}
use tee_anchor.Pki.{load_pem_cert, load_pem_crl}
use tee_anchor.Binding.{
  ChipIdBinding, extract_chip_id_binding, tee_type_sgx, tee_type_tdx, tee_type_sev_snp,
  tee_type_arm_cca,
}
use tee_anchor.Sgx
use tee_anchor.Sgx.Chain.{verify_pck_chain}
use tee_anchor.Sgx.Extension.{find_sgx_extension_octet, oid_sgx_ppid}
use tee_anchor.Tdx
use tee_anchor.Snp
use tee_anchor.Cca
use tee_anchor.Cli.{scan_args}
use Args.{VerifyArgs, check_args, verify_option, verify_defaults}

abbrev pub exit_ok : ℕ
exit_ok = 0

abbrev pub exit_evidence : ℕ
exit_evidence = 20

abbrev pub exit_org_failed : ℕ
exit_org_failed = 21

abbrev pub exit_mismatch : ℕ
exit_mismatch = 22

abbrev pub exit_revoked : ℕ
exit_revoked = 24

abbrev pub exit_internal : ℕ
exit_internal = 30

pub data OrgChainStatus : Type 0 where
  chain_ok revoked other_fail : OrgChainStatus

unfoldable pub expected_tee_type : Bytes → Result ℕ
expected_tee_type s =
    if bytes_eq s (codes "sgx")
    then ok tee_type_sgx
    else if bytes_eq s (codes "tdx")
    then ok tee_type_tdx
    else if bytes_eq s (codes "snp")
    then ok tee_type_sev_snp
    else if bytes_eq s (codes "cca")
    then ok tee_type_arm_cca
    else throw "unknown --tee-type"

-- A handler that returns the code for every exception. The last case is no exit of the program: a loop
-- of the model that runs out of fuel is not caught.
abbrev pub caught : Error → ℕ → ℕ
caught (tee_anchor_error msg) handler = handler
caught (std_exception msg) handler = handler
caught out_of_fuel handler = 3

-- A `try` whose handler returns the code.
abbrev pub or_exit : Result ℕ → ℕ → ℕ
or_exit (ok code) handler = code
or_exit (err e) handler = caught e handler

-- The error of the context: none, revocation, or another.
unfoldable pub org_status : ℕ → OrgChainStatus
org_status code =
    if code == 0 then chain_ok else if code == err_cert_revoked then revoked else other_fail

-- The two comparisons of step (3).
unfoldable pub binding_code : ChipIdBinding → ℕ → Bytes → ℕ
binding_code chip expected evidence_chip_id =
    if chip.tee_type == expected
    then (if length chip.chip_id == length evidence_chip_id
        then (if bytes_eq chip.chip_id evidence_chip_id then exit_ok else exit_mismatch)
        else exit_mismatch)
    else exit_mismatch

module _ (ssl : OpenSsl) (max_items : ℕ) where
  unfoldable pub ppid_from_pck_chain : List ssl.Cert → Result Bytes
  ppid_from_pck_chain chain = do
    leaf ← verify_pck_chain ssl chain
    ppid ← find_sgx_extension_octet ssl leaf oid_sgx_ppid
    or_throw ppid "PPID not found in PCK leaf"

  unfoldable pub verify_evidence_and_extract_chip_id : VerifyArgs → World → Result Bytes
  verify_evidence_and_extract_chip_id args w =
      if bytes_eq args.tee_type (codes "sgx")
      then (do
        quote ← read_file args.report_path w
        chain ← Sgx.extract_pck_chain_from_quote ssl quote
        ppid_from_pck_chain chain)
      else if bytes_eq args.tee_type (codes "tdx")
      then (do
        quote ← read_file args.report_path w
        chain ← Tdx.extract_pck_chain_from_quote ssl quote
        ppid_from_pck_chain chain)
      else if bytes_eq args.tee_type (codes "snp")
      then (do r ← Snp.verify_and_extract ssl args.report_path args.certs_dir w; ok r.chip_id)
      else if bytes_eq args.tee_type (codes "cca")
      then (do r ← Cca.verify_and_extract ssl max_items args.report_path w; ok r.instance_id)
      else throw "unknown --tee-type"

  unfoldable pub org_store : ssl.Cert → Option ssl.Crl → Store ssl.Cert ssl.Crl
  org_store org_ca crl = record {
    trusted = org_ca;
    untrusted = [];
    crl = crl;
    ignore_critical = true;
    crl_check = elim crl [ none ↦ false | some c ↦ true ];
  }

  -- The set-up of the store and the context.
  unfoldable pub org_context : Option ssl.Crl → Result (Unit {0})
  org_context crl = do
    call ssl "X509_STORE_new"
    call ssl "X509_STORE_add_cert (org_ca)"
    elim crl [ none ↦ ok tt | some c ↦ call ssl "X509_STORE_add_crl" ]
    call ssl "X509_STORE_get0_param"
    call ssl "X509_VERIFY_PARAM_set_flags"
    call ssl "X509_STORE_CTX_new"
    call ssl "X509_STORE_CTX_init"

  unfoldable pub verify_org_chain : ssl.Cert → ssl.Cert → Option ssl.Crl → Result OrgChainStatus
  verify_org_chain org_cert org_ca crl = do
    org_context crl
    ok (org_status (ssl.verify_cert (org_store org_ca crl) org_cert))

  -- The endorsement, the organization's CA, and the CRL if one is given.
  pub record Inputs : Type 0 where
    pub org_cert : ssl.Cert
    pub org_ca : ssl.Cert
    pub org_crl : Option ssl.Crl

  unfoldable pub load_inputs : VerifyArgs → World → Result Inputs
  load_inputs args w = do
    org_cert ← load_pem_cert ssl args.org_cert_path w
    org_ca ← load_pem_cert ssl args.org_ca_path w
    org_crl ←
        (if is_empty args.crl_path
          then ok none
          else (do crl ← load_pem_crl ssl args.crl_path w; ok (some crl)))
    ok (record { org_cert = org_cert; org_ca = org_ca; org_crl = org_crl })

  -- Step (3), within its `try`: the exit code.
  unfoldable pub compare_binding : Bytes → Bytes → ssl.Cert → Result ℕ
  compare_binding tee_type evidence_chip_id org_cert = do
    chip ← extract_chip_id_binding ssl org_cert
    expected ← expected_tee_type tee_type
    ok (binding_code chip expected evidence_chip_id)

  unfoldable pub check_binding : Bytes → Bytes → ssl.Cert → ℕ
  check_binding tee_type evidence_chip_id org_cert =
      or_exit (compare_binding tee_type evidence_chip_id org_cert) exit_mismatch

  -- Step (2), and what follows it.
  unfoldable pub check_org : Bytes → Bytes → Inputs → ℕ
  check_org tee_type evidence_chip_id inputs =
      elim (verify_org_chain inputs.org_cert inputs.org_ca inputs.org_crl) [
        | err e ↦ caught e exit_internal
        | ok chain_ok ↦ check_binding tee_type evidence_chip_id inputs.org_cert
        | ok revoked ↦ exit_revoked
        | ok other_fail ↦ exit_org_failed
      ]

  -- Step (1), and what follows it.
  unfoldable pub check_evidence : VerifyArgs → Inputs → World → ℕ
  check_evidence args inputs w = elim (verify_evidence_and_extract_chip_id args w) [
    | err e ↦ caught e exit_evidence
    | ok evidence_chip_id ↦ check_org args.tee_type evidence_chip_id inputs
  ]

  unfoldable pub run_verify : VerifyArgs → World → ℕ
  run_verify args w = elim (check_args args) [
    | err e ↦ caught e exit_internal
    | ok u ↦ elim (load_inputs args w) [
      | err e ↦ caught e exit_internal
      | ok inputs ↦ check_evidence args inputs w
    ]
  ]

  -- `cli_verify`: an exception of the loop has its own code.
  unfoldable pub cli_verify : List Bytes → World → ℕ
  cli_verify argv w = elim (scan_args verify_option argv verify_defaults) [
    | err e ↦ caught e exit_internal
    | ok none ↦ exit_ok
    | ok (some args) ↦ run_verify args w
  ]
