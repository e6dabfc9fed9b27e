-- ===== src/Verify/Ends.antt =====
-- verify/verify.cpp: the results of its steps are never out of fuel.
use tee_anchor.Prelude.{Bytes, Option, none, some, ℕ, List, err, out_of_fuel, ◌≢◌}
use tee_anchor.Prelude.Endings.{Stops, Stops-ne, stops_rules}
use tee_anchor.OpenSsl.{OpenSsl}
use tee_anchor.World.{World}
use tee_anchor.Pki.Ends.{read_file-Stops, pki_rules}
use tee_anchor.Binding.Ends.{extract_chip_id_binding-Stops}
use tee_anchor.Verify.Accepts.{expected_tee_type-Stops}
use tee_anchor.Quote.Reads.{ReadsOn}
use tee_anchor.Binding.RoundTrip.{DerLaws}
use tee_anchor.Sgx
use tee_anchor.Sgx.Ends.{verify_pck_chain-Stops, find_sgx_extension_octet-Stops}
use tee_anchor.Tdx
use tee_anchor.Snp
use tee_anchor.Cca
use tee_anchor.Verify.Args.{VerifyArgs, check_args}
use tee_anchor.Verify.{
  ppid_from_pck_chain, verify_evidence_and_extract_chip_id, load_inputs, org_context,
  verify_org_chain, compare_binding,
}

pub check_args-Stops : (args : VerifyArgs) → Stops (check_args args)
unfolding check_args
check_args-Stops args = search stops_rules depth 8

module _ (ssl : OpenSsl) (max_items : ℕ) where
  pub load_inputs-Stops : (args : VerifyArgs) (w : World) → Stops (load_inputs ssl max_items args w)
  unfolding load_inputs
  load_inputs-Stops args w = search pki_rules depth 8

  org_context-Stops : (crl : Option ssl.Crl) → Stops (org_context ssl max_items crl)
  unfolding org_context
  org_context-Stops none = search pki_rules depth 10
  org_context-Stops (some crl) = search pki_rules depth 10

  pub verify_org_chain-Stops :
      (org_cert org_ca : ssl.Cert) (crl : Option ssl.Crl)
      → Stops (verify_org_chain ssl max_items org_cert org_ca crl)
  unfolding verify_org_chain
  verify_org_chain-Stops org_cert org_ca crl = search (stops_rules, org_context-Stops)

  pub compare_binding-Stops :
      (tee_type chip_id : Bytes) (org_cert : ssl.Cert)
      → Stops (compare_binding ssl max_items tee_type chip_id org_cert)
  unfolding compare_binding
  compare_binding-Stops tee_type chip_id org_cert =
      search (stops_rules, extract_chip_id_binding-Stops, expected_tee_type-Stops)

module _ (ssl : OpenSsl) (max_items : ℕ) (laws : DerLaws ssl) (reads_on : ReadsOn ssl) where
  ppid_from_pck_chain-Stops :
      (chain : List ssl.Cert) → Stops (ppid_from_pck_chain ssl max_items chain)
  unfolding ppid_from_pck_chain
  ppid_from_pck_chain-Stops chain =
      search (stops_rules, verify_pck_chain-Stops, find_sgx_extension_octet-Stops ssl laws)

  pub verify_evidence-Stops :
      (args : VerifyArgs) (w : World)
      → Stops (verify_evidence_and_extract_chip_id ssl max_items args w)
  unfolding verify_evidence_and_extract_chip_id
  verify_evidence-Stops args w =
      search
        (
          stops_rules,
          read_file-Stops,
          ppid_from_pck_chain-Stops,
          Sgx.Ends.extract_pck_chain_from_quote-Stops ssl reads_on,
          Tdx.Ends.extract_pck_chain_from_quote-Stops ssl reads_on,
          Snp.Ends.verify_and_extract-Stops,
          Cca.Ends.verify_and_extract-Stops,
        )
        depth 10

  -- The verification of the evidence ends for every kind of TEE, whatever the files hold: a chip id
  -- comes back, or one of the program's exceptions. Of OpenSSL it takes what it documents:
  -- `PEM_read_bio_X509` moves on in its buffer, and `ASN1_get_object` reads what `DerLaws` states.
  pub verify_evidence-Ends :
      (args : VerifyArgs) (w : World)
      → verify_evidence_and_extract_chip_id ssl max_items args w ≢ err out_of_fuel
  verify_evidence-Ends args w = Stops-ne _ (verify_evidence-Stops args w)
