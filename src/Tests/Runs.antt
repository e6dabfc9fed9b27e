-- ===== src/Tests/Runs.antt =====
-- A provisioned machine: the files, and the runs of `provision` and `verify` on them.
use tee_anchor.Sgx.{extract_pck_chain_from_quote}
use tee_anchor.Sgx.Layout.{locate_pck_chain}
use tee_anchor.Sgx.Chain.{
  number_from, get_ec_pubkey_uncompressed, is_self_signed, find_root, issuer_of_some, find_leaf,
  intermediates, push_all, pck_store, verify_leaf, verify_links, verify_pck_chain,
}
use tee_anchor.Sgx.Extension.{element_value, walk_loop, walk_extension, find_sgx_extension_octet}
use tee_anchor.Quote.{rd_u16le, rd_u32le, need, mem_buf, read_certs, read_chain}
use tee_anchor.Pki.{
  sig_md_for_curve, digest_for_signing_key, load_pem_private_key, load_pem_cert, pem_cert,
  random_serial, add_v3_ext, make_oid,
}
use tee_anchor.Pki.Dn.{add_rdn, parse_dn_loop, parse_dn}
use tee_anchor.Hex.{to_hex_lower}
use tee_anchor.Binding.{
  encode_chip_id_binding, make_chip_id_binding_extension, must_read, decode_fields,
  decode_chip_id_binding, extract_chip_id_binding, ChipIdBinding,
}
use tee_anchor.Binding.Der.{der_length, der_tlv}
use tee_anchor.World.{read_file, write_file, File, World}
use tee_anchor.OpenSsl.{call}
use tee_anchor.Verify.Args.{is_tee_type, check_args, VerifyArgs}
use tee_anchor.Provision.{
  auto_subject, chip_id_from_pck_chain, extract_chip_id_for_sgx, extract_chip_id, load_ca,
  endorsement_extensions, subject_text, endorse, make_endorsement, run_provision,
}
use tee_anchor.Provision.Args.{check_provision_args, ProvisionArgs}
use tee_anchor.Verify.{
  expected_tee_type, org_status, binding_code, ppid_from_pck_chain,
  verify_evidence_and_extract_chip_id, org_store, org_context, verify_org_chain, load_inputs,
  compare_binding, check_binding, check_org, check_evidence, run_verify, Inputs, chain_ok,
}
use tee_anchor.Prelude.{
  ◌≡◌, refl, Option, none, [], ◌∷◌, ◌++◌, replicate, if◌then◌else◌, Bytes, bytes_eq, codes, ok,
}
use tee_anchor.Prelude.Int.{pos}
use tee_anchor.Tests.Toy.{toy, chip, host, file, org_ca, intel_root, pck_leaf, endorsement}

-- The header, the report and the rest, 1012 bytes; no QE auth data; certification data of type 5 with
-- two certificates.
abbrev pub quote : Bytes
quote = replicate 1012 0 ++ (0 ∷ 0 ∷ 5 ∷ 0 ∷ 2 ∷ 0 ∷ 0 ∷ 0 ∷ 3 ∷ 4 ∷ [])

abbrev pub files : Bytes → Option File
files q =
    if bytes_eq q (codes "quote")
    then file quote
    else if bytes_eq q (codes "ca.key")
    then file (1 ∷ [])
    else if bytes_eq q (codes "ca.crt")
    then file (1 ∷ [])
    else if bytes_eq q (codes "cert")
    then file (2 ∷ [])
    else if bytes_eq q (codes "crl")
    then file (171 ∷ [])
    else none

abbrev pub w : World
w = host files

abbrev pub provision_args : ProvisionArgs
provision_args = record {
  report_path = codes "quote";
  certs_dir = [];
  ca_key_path = codes "ca.key";
  ca_cert_path = codes "ca.crt";
  out_path = codes "cert";
  subject = [];
  validity_days = pos 365;
  tee_type = codes "sgx";
}

abbrev pub verify_args : VerifyArgs
verify_args = record {
  report_path = codes "quote";
  certs_dir = [];
  org_cert_path = codes "cert";
  org_ca_path = codes "ca.crt";
  crl_path = [];
  tee_type = codes "sgx";
}

abbrev pub inputs : Inputs toy 100
inputs = record { org_cert = endorsement; org_ca = org_ca; org_crl = none }

pub chain_of_quote : extract_pck_chain_from_quote toy quote ≡ ok (intel_root ∷ pck_leaf ∷ [])
unfolding extract_pck_chain_from_quote locate_pck_chain rd_u16le rd_u32le need mem_buf read_certs
    read_chain call
chain_of_quote = refl

pub evidence : verify_evidence_and_extract_chip_id toy 100 verify_args w ≡ ok chip
unfolding extract_pck_chain_from_quote locate_pck_chain number_from get_ec_pubkey_uncompressed
    is_self_signed find_root issuer_of_some find_leaf intermediates push_all pck_store verify_leaf
    verify_links verify_pck_chain element_value walk_loop walk_extension find_sgx_extension_octet
    rd_u16le rd_u32le need mem_buf read_certs read_chain make_oid read_file call ppid_from_pck_chain
    verify_evidence_and_extract_chip_id bytes_eq
evidence = refl

pub arguments : check_args verify_args ≡ ok tt
unfolding is_tee_type check_args bytes_eq
arguments = refl

pub loaded : load_inputs toy 100 verify_args w ≡ ok inputs
unfolding load_pem_cert read_file call load_inputs bytes_eq
loaded = refl

pub chain : verify_org_chain toy 100 endorsement org_ca none ≡ ok chain_ok
unfolding call org_status org_store org_context verify_org_chain
chain = refl

abbrev pub chip_binding : ChipIdBinding
chip_binding = record { tee_type = 0; chip_id = chip; issued_at = codes "now" }

pub bound : extract_chip_id_binding toy endorsement ≡ ok chip_binding
unfolding make_oid must_read decode_fields decode_chip_id_binding extract_chip_id_binding call
    bytes_eq
bound = refl

pub accepted : run_verify toy 100 verify_args w ≡ 0
unfolding extract_pck_chain_from_quote locate_pck_chain number_from get_ec_pubkey_uncompressed
    is_self_signed find_root issuer_of_some find_leaf intermediates push_all pck_store verify_leaf
    verify_links verify_pck_chain element_value walk_loop walk_extension find_sgx_extension_octet
    rd_u16le rd_u32le need mem_buf read_certs read_chain load_pem_cert make_oid must_read
    decode_fields decode_chip_id_binding extract_chip_id_binding read_file call is_tee_type
    check_args expected_tee_type org_status binding_code ppid_from_pck_chain
    verify_evidence_and_extract_chip_id org_store org_context verify_org_chain load_inputs
    compare_binding check_binding check_org check_evidence run_verify bytes_eq
accepted = refl

pub provisioned : (run_provision toy 100 provision_args w).0 ≡ ok tt
unfolding extract_pck_chain_from_quote locate_pck_chain number_from get_ec_pubkey_uncompressed
    is_self_signed find_root issuer_of_some find_leaf intermediates push_all pck_store verify_leaf
    verify_links verify_pck_chain element_value walk_loop walk_extension find_sgx_extension_octet
    rd_u16le rd_u32le need mem_buf read_certs read_chain sig_md_for_curve digest_for_signing_key
    load_pem_private_key load_pem_cert pem_cert random_serial add_v3_ext make_oid add_rdn
    parse_dn_loop parse_dn to_hex_lower encode_chip_id_binding make_chip_id_binding_extension
    der_length der_tlv read_file write_file call is_tee_type auto_subject chip_id_from_pck_chain
    extract_chip_id_for_sgx extract_chip_id load_ca endorsement_extensions subject_text endorse
    make_endorsement run_provision check_provision_args bytes_eq
provisioned = refl
