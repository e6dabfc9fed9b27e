-- ===== src/Provision.antt =====
-- provision/provision.cpp: the subcommand `provision`. `max_items` is what `std::vector::reserve` grants
-- to the CBOR decoder.
pub mod Args
pub mod Extensions
pub mod Ends
pub mod Issues
pub mod Verifies
use tee_anchor.Prelude.{
  ℕ, Bool, Option, none, some, List, [], ◌∷◌, ◌++◌, if◌then◌else◌, take, Bytes, bytes_eq, is_empty,
  codes, String, Result, ok, err, throw, throw_if, or_throw, ◌>>=◌, ◌>>◌, true, false,
}
use tee_anchor.Prelude.Int.{pos, days}
use tee_anchor.OpenSsl.{OpenSsl, Extension, Tbs, call}
use tee_anchor.World.{World, Io, continue, read_file, write_file}
use tee_anchor.Hex.{to_hex_lower}
use tee_anchor.Pki.{
  load_pem_private_key, load_pem_cert, digest_for_signing_key, random_serial, add_v3_ext, pem_cert,
}
use tee_anchor.Pki.Dn.{parse_dn}
use tee_anchor.Binding.{
  encode_chip_id_binding, make_chip_id_binding_extension, tee_type_sgx, tee_type_tdx,
  tee_type_sev_snp, tee_type_arm_cca,
}
use tee_anchor.Sgx
use tee_anchor.Sgx.Chain.{verify_pck_chain}
use tee_anchor.Sgx.Extension.{find_sgx_extension_octet, oid_sgx_ppid}
use tee_anchor.Tdx
use tee_anchor.Snp
use tee_anchor.Cca
use tee_anchor.Cli.{run_cli}
use Args.{ProvisionArgs, check_provision_args, provision_option, provision_defaults}

-- The subject that is made from the first bytes of the chip id.
unfoldable pub auto_subject : Bytes → Bytes
auto_subject chip_id = codes "CN=tee-anchor-" ++ to_hex_lower (take 4 chip_id)

module _ (ssl : OpenSsl) (max_items : ℕ) where
  pub record ChipIdResult : Type 0 where
    pub chip_id : Bytes
    pub tee_type : ℕ
    pub subject_pubkey : ssl.Key

  -- A PPID of zeros is only warned about.
  unfoldable pub chip_id_from_pck_chain : List ssl.Cert → ℕ → Result ChipIdResult
  chip_id_from_pck_chain chain tee_type = do
    leaf ← verify_pck_chain ssl chain
    found ← find_sgx_extension_octet ssl leaf oid_sgx_ppid
    ppid ← or_throw found "PPID not found in PCK leaf"
    key ← or_throw (ssl.public_key leaf) "X509_get_pubkey (PCK leaf)"
    ok (record { chip_id = ppid; tee_type = tee_type; subject_pubkey = key })

  unfoldable pub extract_chip_id_for_sgx : Bytes → World → Result ChipIdResult
  extract_chip_id_for_sgx quote_path w = do
    quote ← read_file quote_path w
    chain ← Sgx.extract_pck_chain_from_quote ssl quote
    chip_id_from_pck_chain chain tee_type_sgx

  unfoldable pub extract_chip_id_for_tdx : Bytes → World → Result ChipIdResult
  extract_chip_id_for_tdx quote_path w = do
    quote ← read_file quote_path w
    chain ← Tdx.extract_pck_chain_from_quote ssl quote
    chip_id_from_pck_chain chain tee_type_tdx

  unfoldable pub extract_chip_id_for_snp : ProvisionArgs → World → Result ChipIdResult
  extract_chip_id_for_snp args w = do
    r ← Snp.verify_and_extract ssl args.report_path args.certs_dir w
    key ← or_throw (ssl.public_key r.vcek) "X509_get_pubkey (VCEK leaf)"
    ok (record { chip_id = r.chip_id; tee_type = tee_type_sev_snp; subject_pubkey = key })

  unfoldable pub extract_chip_id_for_cca : Bytes → World → Result ChipIdResult
  extract_chip_id_for_cca token_path w = do
    r ← Cca.verify_and_extract ssl max_items token_path w
    ok (record { chip_id = r.instance_id; tee_type = tee_type_arm_cca; subject_pubkey = r.cpak })

  unfoldable pub extract_chip_id : ProvisionArgs → World → Result ChipIdResult
  extract_chip_id args w =
      if bytes_eq args.tee_type (codes "sgx")
      then extract_chip_id_for_sgx args.report_path w
      else if bytes_eq args.tee_type (codes "tdx")
      then extract_chip_id_for_tdx args.report_path w
      else if bytes_eq args.tee_type (codes "snp")
      then extract_chip_id_for_snp args w
      else if bytes_eq args.tee_type (codes "cca")
      then extract_chip_id_for_cca args.report_path w
      else throw "unknown --tee-type"

  -- Step 2: the key and the certificate of the CA.
  unfoldable pub load_ca : ProvisionArgs → World → Result (ssl.Key × ssl.Cert)
  load_ca args w = do
    ca_key ← load_pem_private_key ssl args.ca_key_path w
    ca_cert ← load_pem_cert ssl args.ca_cert_path w
    throw_if (if ssl.key_matches ca_cert ca_key then false else true)
        "CA private key does not match CA certificate"
    ok (ca_key, ca_cert)

  -- Step 5: the extensions, with the binding of the chip id.
  unfoldable pub endorsement_extensions : ℕ → Bytes → Bytes → Result (List Extension)
  endorsement_extensions tee_type chip_id now = do
    e₁ ← add_v3_ext ssl "NID_basic_constraints" "critical,CA:FALSE" []
    e₂ ← add_v3_ext ssl "NID_key_usage" "critical,digitalSignature" e₁
    e₃ ← add_v3_ext ssl "NID_subject_key_identifier" "hash" e₂
    e₄ ← add_v3_ext ssl "NID_authority_key_identifier" "keyid:always" e₃
    der ← encode_chip_id_binding tee_type chip_id now
    ext ← make_chip_id_binding_extension ssl der
    call ssl "X509_add_ext (ChipIdBinding)"
    ok (e₄ ++ (ext ∷ []))

  unfoldable pub endorsement_tbs :
      ProvisionArgs → ℕ → ssl.Cert → ssl.Name → ssl.Key → List Extension → Tbs ssl.Name ssl.Key
  endorsement_tbs args sn ca_cert subject key extensions = record {
    version = 2;
    serial = sn;
    not_before = pos 0;
    not_after = days args.validity_days;
    issuer = ssl.subject ca_cert;
    subject = subject;
    public_key = key;
    extensions = extensions;
  }

  unfoldable pub subject_text : ProvisionArgs → Bytes → Bytes
  subject_text args chip_id = if is_empty args.subject then auto_subject chip_id else args.subject

  -- Steps 4 to 6: the certificate.
  unfoldable pub endorse :
      ProvisionArgs → ssl.Key → ssl.Cert → ChipIdResult → World → Result ssl.Cert
  endorse args ca_key ca_cert chip w = do
    call ssl "X509_new"
    call ssl "X509_set_version"
    sn ← random_serial ssl w
    call ssl "X509_set_serialNumber"
    call ssl "X509_gmtime_adj (notBefore)"
    call ssl "X509_gmtime_adj (notAfter)"
    call ssl "X509_set_issuer_name"
    subject ← parse_dn ssl (subject_text args chip.chip_id)
    call ssl "X509_set_subject_name"
    call ssl "X509_set_pubkey (endorsement)"
    extensions ← endorsement_extensions chip.tee_type chip.chip_id w.now
    md ← digest_for_signing_key ssl ca_key
    or_throw
        (ssl.sign_cert (endorsement_tbs args sn ca_cert subject chip.subject_pubkey extensions)
          ca_key md)
        "X509_sign (endorsement)"

  -- Steps 1 to 6, and the PEM of step 7.
  unfoldable pub make_endorsement : ProvisionArgs → World → Result Bytes
  make_endorsement args w = do
    check_provision_args args
    (ca_key, ca_cert) ← load_ca args w
    chip ← extract_chip_id args w
    cert ← endorse args ca_key ca_cert chip w
    pem_cert ssl cert

  unfoldable pub run_provision : ProvisionArgs → Io (Unit {0})
  run_provision args w =
      continue (make_endorsement args w) (λ pem. write_file args.out_path pem 0x1A4) w

  unfoldable pub cli_provision : List Bytes → World → ℕ × World
  cli_provision argv w = run_cli provision_option provision_defaults run_provision argv w
