-- ===== src/Tests/Protocol.antt =====
-- The theorems on `provision` and `verify` at the machine of Tests/Runs.antt.
use tee_anchor.Sgx.{extract_pck_chain_from_quote}
use tee_anchor.Sgx.Layout.{locate_pck_chain}
use tee_anchor.Sgx.Chain.{
  number_from, get_ec_pubkey_uncompressed, is_self_signed, find_root, issuer_of_some, find_leaf,
  intermediates, push_all, pck_store, verify_leaf, verify_links, verify_pck_chain,
}
use tee_anchor.Sgx.Extension.{element_value, walk_loop, walk_extension, find_sgx_extension_octet}
use tee_anchor.Quote.{rd_u16le, rd_u32le, need, mem_buf, read_certs, read_chain}
use tee_anchor.Pki.{load_pem_private_key, load_pem_cert, make_oid}
use tee_anchor.Pki.Dn.{add_rdn, parse_dn_loop, parse_dn}
use tee_anchor.Pki.Trim.{drop_front, drop_back, trim, is_space, is_line_space}
use tee_anchor.Hex.{hex_digit, to_hex_lower, digit_value, of_hex}
use tee_anchor.Binding.{
  encode_chip_id_binding, make_chip_id_binding_extension, must_read, decode_fields,
  decode_chip_id_binding, extract_chip_id_binding, tee_type_name, ChipIdBinding,
  oid_chip_id_binding,
}
use tee_anchor.Binding.Der.{der_length, der_tlv}
use tee_anchor.World.{
  World, put_file, path_exists, read_file, mode_at, spill, stream_failed, set_mode, write_file,
}
use tee_anchor.OpenSsl.{call, OpenSsl, sha384}
use tee_anchor.Verify.Args.{is_tee_type, check_args}
use tee_anchor.Provision.{
  auto_subject, chip_id_from_pck_chain, extract_chip_id_for_sgx, extract_chip_id_for_tdx,
  extract_chip_id_for_snp, extract_chip_id_for_cca, extract_chip_id, load_ca,
  endorsement_extensions, endorsement_tbs, subject_text, endorse, make_endorsement, run_provision,
  ChipIdResult,
}
use tee_anchor.Provision.Args.{check_provision_args}
use tee_anchor.Verify.{
  expected_tee_type, org_status, binding_code, ppid_from_pck_chain,
  verify_evidence_and_extract_chip_id, org_store, org_context, verify_org_chain, load_inputs,
  run_verify,
}
use tee_anchor.Prelude.{
  ◌≡◌, ◌↔◌, refl, ap, none, some, [], ◌∷◌, take, get_or, if◌then◌else◌, Bytes, bytes_eq, codes, ok,
  arith,
}
use tee_anchor.Tests.Toy.{
  ToyCert, cert_of, toy, toy-DerLaws, toy-KeepsBinding, chip, org_ca, intel_root, pck_leaf,
  endorsement, binding_der,
}
use tee_anchor.Tests.Runs.{
  w, provision_args, verify_args, inputs, arguments, chain, chip_binding, provisioned,
}
use tee_anchor.Provision.Issues.{Issued, run_provision-Issued, extract_chip_id_binding-Issued}
use tee_anchor.Provision.Verifies.{
  SameEvidence, Delivered, verify_evidence-extract_chip_id, run_verify-Issued,
}
use tee_anchor.Sgx.Pinned.{Pinned, verify_pck_chain-Pinned}
use tee_anchor.Verify.Accepts.{Accepted, run_verify_exact, run_verify_mismatch}

run_verify_exact_example : (run_verify toy 100 verify_args w ≡ 0) ↔ Accepted toy 100 verify_args w
run_verify_exact_example = run_verify_exact toy 100 verify_args w

abbrev chip_result : ChipIdResult toy 100
chip_result = record { chip_id = chip; tee_type = 0; subject_pubkey = codes "pck" }

abbrev ca_pair : Bytes × ToyCert
ca_pair = (codes "ca", org_ca)

unfoldable issued : Issued toy 100 provision_args w endorsement
unfolding bytes_eq subject_text load_ca extract_chip_id extract_chip_id_for_cca
    extract_chip_id_for_snp extract_chip_id_for_tdx extract_chip_id_for_sgx chip_id_from_pck_chain
    auto_subject check_args is_tee_type call write_file set_mode stream_failed spill mode_at
    read_file path_exists put_file der_tlv der_length tee_type_name extract_chip_id_binding
    decode_chip_id_binding decode_fields must_read make_chip_id_binding_extension
    encode_chip_id_binding of_hex digit_value to_hex_lower hex_digit is_line_space is_space trim
    drop_back drop_front parse_dn parse_dn_loop add_rdn make_oid load_pem_cert load_pem_private_key
    read_chain read_certs mem_buf need rd_u32le rd_u16le find_sgx_extension_octet walk_extension
    walk_loop element_value verify_pck_chain verify_links verify_leaf pck_store push_all
    intermediates find_leaf issuer_of_some find_root is_self_signed get_ec_pubkey_uncompressed
    number_from locate_pck_chain extract_pck_chain_from_quote
issued = record {
  ca_key = codes "ca";
  ca_cert = org_ca;
  chip = chip_result;
  serial = 171;
  name = codes "tee-anchor-070809";
  der = binding_der;
  md = some sha384;
  loaded = refl;
  matches = refl;
  evidence = refl;
  named = refl;
  encoded = refl;
  signed = refl;
}

pub same_evidence : SameEvidence provision_args verify_args
same_evidence = record { tee_type = refl; report = refl; certs = refl }

-- The machine that verifies: later, and without the key of the organization's CA.
abbrev elsewhere : World
elsewhere = record w {
  files = λ q. if bytes_eq q (codes "ca.key") then none else w.files q;
  now = codes "later";
}

loaded_elsewhere : load_inputs toy 100 verify_args elsewhere ≡ ok inputs
unfolding load_pem_cert read_file call load_inputs bytes_eq
loaded_elsewhere = refl

delivered : Delivered provision_args w verify_args elsewhere
unfolding read_file bytes_eq
delivered = record {
  tee_type = refl;
  report = refl;
  certs = λ e. absurd (omega (arith, ap (λ (s : Bytes). get_or s 1 0) e));
}

run_verify-Issued_example : run_verify toy 100 verify_args elsewhere ≡ 0
run_verify-Issued_example =
    run_verify-Issued toy 100 toy-DerLaws toy-KeepsBinding refl provision_args w endorsement issued
      verify_args elsewhere inputs delivered arguments loaded_elsewhere refl chain

-- Another machine's endorsement, for the same certificate of the organization.
abbrev other_binding : ChipIdBinding
other_binding = record { tee_type = 0; chip_id = 7 ∷ 8 ∷ 1 ∷ []; issued_at = codes "now" }

abbrev other_cert : ToyCert
other_cert = record endorsement {
  extensions =
      (
        oid_chip_id_binding,
        0x30 ∷ 13 ∷ 0x0A ∷ 1 ∷ 0 ∷ 0x04 ∷ 3 ∷ 7 ∷ 8 ∷ 1 ∷ 0x18 ∷ 3 ∷ codes "now",
      )
      ∷ [];
}

abbrev other : OpenSsl
other = record toy {
  read_cert = λ text. elim (cert_of text) [
    | none ↦ none
    | some (c, rest) ↦ some ((if bytes_eq (c.label ∷ []) (2 ∷ []) then other_cert else c), rest)
  ];
}

run_verify_mismatch_example : run_verify other 100 verify_args w ≡ 22
unfolding bytes_eq load_inputs verify_org_chain org_context org_store
    verify_evidence_and_extract_chip_id ppid_from_pck_chain binding_code org_status
    expected_tee_type check_provision_args run_provision make_endorsement endorse subject_text
    endorsement_tbs endorsement_extensions load_ca extract_chip_id extract_chip_id_for_cca
    extract_chip_id_for_snp extract_chip_id_for_tdx extract_chip_id_for_sgx chip_id_from_pck_chain
    auto_subject check_args is_tee_type call write_file set_mode stream_failed spill mode_at
    read_file path_exists put_file der_tlv der_length tee_type_name extract_chip_id_binding
    decode_chip_id_binding decode_fields must_read make_oid load_pem_cert read_chain read_certs
    mem_buf need rd_u32le rd_u16le find_sgx_extension_octet walk_extension walk_loop element_value
    verify_pck_chain verify_links verify_leaf pck_store push_all intermediates find_leaf
    issuer_of_some find_root is_self_signed get_ec_pubkey_uncompressed number_from locate_pck_chain
    extract_pck_chain_from_quote
run_verify_mismatch_example =
    run_verify_mismatch other 100 verify_args w
      (record { org_cert = other_cert; org_ca = org_ca; org_crl = none }) chip other_binding refl
      refl refl refl refl (λ e. absurd (omega (arith, ap (λ (s : Bytes). get_or s 2 0) e)))

run_provision-Issued_example :
    (cert : ToyCert) × Issued toy 100 provision_args w cert
    × ((run_provision toy 100 provision_args w).1.files (codes "cert")
        ≡ some (record { content = take 2000 (cert.label ∷ []); mode = 0x1A4 }))
run_provision-Issued_example = run_provision-Issued toy 100 provision_args w provisioned

verify_pck_chain-Pinned_example : Pinned toy (intel_root ∷ pck_leaf ∷ []) pck_leaf
unfolding bytes_eq call verify_pck_chain verify_links verify_leaf pck_store push_all intermediates
    find_leaf issuer_of_some find_root is_self_signed get_ec_pubkey_uncompressed number_from
verify_pck_chain-Pinned_example =
    verify_pck_chain-Pinned toy (intel_root ∷ pck_leaf ∷ []) pck_leaf refl

extract_chip_id_binding-Issued_example : extract_chip_id_binding toy endorsement ≡ ok chip_binding
unfolding issued
extract_chip_id_binding-Issued_example =
    extract_chip_id_binding-Issued toy 100 toy-DerLaws toy-KeepsBinding refl provision_args w
      endorsement issued

verify_evidence-extract_chip_id_example :
    (verify_evidence_and_extract_chip_id toy 100 verify_args w ≡ ok chip)
    × (expected_tee_type (codes "sgx") ≡ ok 0)
unfolding issued
verify_evidence-extract_chip_id_example =
    verify_evidence-extract_chip_id toy 100 provision_args verify_args w chip_result same_evidence
      issued.evidence
