-- ===== src/Tests/Vendors.antt =====
-- The theorems on quotes, reports and tokens at small ones.
use tee_anchor.Quote.{rd_u16le, rd_u32le, need}
use tee_anchor.World.{path_exists, read_file, File}
use tee_anchor.OpenSsl.{call}
use tee_anchor.Pki.{load_pem_cert, make_oid, pubkey_spki_sha384}
use tee_anchor.Cbor.{
  as_int, at, untag, read_bytes, read_be, read_len, reserve, read_flat, decode, read_item, Value,
  uint, bytes, map, pair, no_pairs,
}
use tee_anchor.Cbor.Print.{print, decode-print}
use tee_anchor.Tdx.Layout.{
  locate_inner, locate_auth, locate_pck_region, sig_data_at, locate_sig_data,
}
use tee_anchor.Tdx.{locate_region}
use tee_anchor.Sgx.Layout.{locate_pck_chain}
use tee_anchor.Snp.{
  ends_with_slash, join_path, vcek_store, verify_vcek_certs, verify_vcek_chain,
  verify_report_signature, check_hwid, verify_report, SnpVerifyResult, oid_amd_sev_hwid,
}
use tee_anchor.Snp.Pins.{match_pin, match_ark_pin}
use tee_anchor.Snp.Report.{validate_report_header, all_zero, extract_chip_id_from_report}
use tee_anchor.Cca.{
  expect_bytes, four_items, parse_sign1, check_alg_value, check_alg, sig_structure, non_empty_bytes,
  bytes_or_empty, read_claims, verify_es384, verify_token, CcaVerifyResult,
}
use tee_anchor.Cca.Cpak.{load_pinned_cpak}
use tee_anchor.Prelude.{
  ◌+◌, ◌≤◌, ◌≡◌, ◌≢◌, ◌↔◌, ◌⊎◌, refl, Option, none, [], ◌∷◌, ◌++◌, replicate, if◌then◌else◌, length,
  Bytes, bytes_eq, codes, ok, err, arith, out_of_fuel,
}
use tee_anchor.Tests.Toy.{ToyCert, toy, host, file, pck_leaf}
use tee_anchor.Tdx.Region.{locate_region_bounds, locate_sig_data-found}
use tee_anchor.Sgx.{extract_ppid_from_quote}
use tee_anchor.Sgx.Forging.{quote_of, locate_pck_chain-quote_of, extract_ppid-ignores_signature}
use tee_anchor.Cbor.Fuel.{decode-Ends}
use tee_anchor.Snp.Accepts.{Accepted as SnpAccepted, verify_report-Accepted, check_hwid-ok}
use tee_anchor.Cca.Signed.{
  Accepted as CcaAccepted, verify_token-Accepted, sig_item, decode-sig_structure,
}

-- A version 4 TD quote with two certificates.
abbrev td_quote : Bytes
td_quote =
    (4 ∷ 0 ∷ 0 ∷ 0 ∷ 0x81 ∷ 0 ∷ 0 ∷ 0 ∷ replicate 624 0)
    ++ ((80 ∷ 2 ∷ 0 ∷ 0 ∷ replicate 128 0)
        ++ ((6 ∷ 0 ∷ 202 ∷ 1 ∷ 0 ∷ 0 ∷ replicate 448 0)
            ++ (0 ∷ 0 ∷ 5 ∷ 0 ∷ 2 ∷ 0 ∷ 0 ∷ 0 ∷ 3 ∷ 4 ∷ [])))

locate_region_bounds_example : (590 ≤ 1226) × (1226 + 2 ≤ length td_quote)
unfolding rd_u16le rd_u32le need locate_inner locate_auth locate_pck_region sig_data_at
    locate_sig_data locate_region
locate_region_bounds_example = locate_region_bounds td_quote 1226 2 refl

locate_sig_data-found_example : locate_pck_region td_quote 636 592 ≢ none
unfolding rd_u16le rd_u32le need locate_inner locate_auth locate_pck_region sig_data_at
    locate_sig_data
locate_sig_data-found_example = locate_sig_data-found td_quote 636 592 refl

locate_pck_chain-quote_of_example :
    locate_pck_chain (quote_of (replicate 1012 0) (1 ∷ []) (3 ∷ 4 ∷ []) (9 ∷ [])) ≡ ok (1021, 2)
locate_pck_chain-quote_of_example =
    locate_pck_chain-quote_of (replicate 1012 0) (1 ∷ []) (3 ∷ 4 ∷ []) (9 ∷ []) refl (omega arith)
      (omega arith)

-- A quote, and the same certificates under another signature.
extract_ppid-ignores_signature_example :
    extract_ppid_from_quote toy (quote_of (replicate 1012 0) [] (3 ∷ 4 ∷ []) [])
    ≡ extract_ppid_from_quote toy (quote_of (replicate 1012 255) (1 ∷ []) (3 ∷ 4 ∷ []) (9 ∷ []))
extract_ppid-ignores_signature_example =
    extract_ppid-ignores_signature toy (replicate 1012 0) (replicate 1012 255) [] (1 ∷ [])
      (3 ∷ 4 ∷ []) [] (9 ∷ []) refl refl (omega arith) (omega arith) (omega arith)

abbrev claims : Value
claims = map (pair (uint 256) (bytes (1 ∷ 2 ∷ [])) no_pairs)

decode-print_example : decode 100 (print claims ++ (0 ∷ [])) ≡ ok claims
decode-print_example =
    decode-print 100 claims (0 ∷ []) (omega arith, omega arith, (omega arith, omega arith, tt))

decode-Ends_example : decode 100 (0x82 ∷ 0 ∷ []) ≢ err out_of_fuel
decode-Ends_example = decode-Ends 100 (0x82 ∷ 0 ∷ [])

decode-sig_structure_example :
    decode 100 (sig_structure (1 ∷ []) (2 ∷ 3 ∷ [])) ≡ ok (sig_item (1 ∷ []) (2 ∷ 3 ∷ []))
decode-sig_structure_example =
    decode-sig_structure 100 (1 ∷ []) (2 ∷ 3 ∷ []) (omega arith) (omega arith) (omega arith)

-- A report of version 2.
abbrev report : Bytes
report =
    (2 ∷ 0 ∷ 0 ∷ 0 ∷ replicate 48 0)
    ++ ((1 ∷ 0 ∷ 0 ∷ 0 ∷ replicate 360 0) ++ (replicate 64 5 ++ replicate 704 0))

abbrev certs_files : Bytes → Option File
certs_files q =
    if bytes_eq q (codes "d/ark.pem")
    then file (3 ∷ [])
    else if bytes_eq q (codes "d/ask.pem")
    then file (3 ∷ [])
    else if bytes_eq q (codes "d/vcek.pem")
    then file (4 ∷ [])
    else none

abbrev snp_result : SnpVerifyResult toy
snp_result = record { chip_id = replicate 64 5; version = 2; generation = "Milan"; vcek = pck_leaf }

verify_report-Accepted_example : SnpAccepted toy report snp_result
unfolding rd_u32le path_exists read_file call load_pem_cert make_oid pubkey_spki_sha384
    ends_with_slash join_path vcek_store verify_vcek_certs verify_vcek_chain verify_report_signature
    check_hwid verify_report match_pin match_ark_pin validate_report_header all_zero
    extract_chip_id_from_report bytes_eq
verify_report-Accepted_example =
    verify_report-Accepted toy report (codes "d") (host certs_files) snp_result refl

abbrev with_hwid : ToyCert
with_hwid = record pck_leaf { extensions = (oid_amd_sev_hwid, 1 ∷ 2 ∷ []) ∷ [] }

abbrev one : Bytes
one = 1 ∷ []

abbrev two : Bytes
two = 1 ∷ 2 ∷ []

check_hwid-ok_example :
    (check_hwid toy with_hwid one ≡ ok tt) ↔ ((length two ≢ length one) ⊎ (one ≡ two))
unfolding bytes_eq
check_hwid-ok_example = check_hwid-ok toy with_hwid one two refl refl

abbrev cca_payload : Bytes
cca_payload = 0xa1 ∷ 0x19 ∷ 1 ∷ 0 ∷ 0x42 ∷ 1 ∷ 2 ∷ []

-- {44234: h'D2 84 43 A10138 22 ...'}, with a signature of 96 bytes
abbrev sign1 : Bytes
sign1 =
    0xd2
    ∷ 0x84
    ∷ 0x44
    ∷ 0xa1
    ∷ 0x01
    ∷ 0x38
    ∷ 0x22
    ∷ 0xa0
    ∷ 0x47
    ∷ (cca_payload ++ (0x58 ∷ 96 ∷ replicate 96 1))

abbrev token : Bytes
token = 0xa1 ∷ 0x19 ∷ 0xac ∷ 0xca ∷ 0x58 ∷ 114 ∷ sign1

abbrev cca_result : CcaVerifyResult toy
cca_result = record { instance_id = 1 ∷ 2 ∷ []; implementation_id = []; cpak = codes "cpak" }

verify_token-Accepted_example : CcaAccepted toy 100 token cca_result
unfolding call as_int at untag read_bytes read_be read_len reserve read_flat decode expect_bytes
    four_items parse_sign1 check_alg_value check_alg non_empty_bytes bytes_or_empty read_claims
    verify_es384 verify_token load_pinned_cpak read_item
verify_token-Accepted_example = verify_token-Accepted toy 100 token cca_result refl
