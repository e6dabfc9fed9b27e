-- ===== src/Provision/Ends.antt =====
-- provision/provision.cpp: the results of its steps are never out of fuel.
use tee_anchor.Prelude.{ℕ, List, Bytes}
use tee_anchor.Prelude.Endings.{Stops, stops_rules}
use tee_anchor.OpenSsl.{OpenSsl}
use tee_anchor.World.{World}
use tee_anchor.World.Ends.{continue-Stops, write_file-Stops}
use tee_anchor.Pki.Ends.{pki_rules}
use tee_anchor.Quote.Reads.{ReadsOn}
use tee_anchor.Binding.RoundTrip.{DerLaws}
use tee_anchor.Binding.Ends.{encode_chip_id_binding-Stops, make_chip_id_binding_extension-Stops}
use tee_anchor.Sgx
use tee_anchor.Sgx.Ends.{verify_pck_chain-Stops, find_sgx_extension_octet-Stops}
use tee_anchor.Tdx
use tee_anchor.Snp
use tee_anchor.Cca
use tee_anchor.Provision.Args.{ProvisionArgs, check_provision_args}
use tee_anchor.Provision.{
  ChipIdResult, chip_id_from_pck_chain, extract_chip_id_for_sgx, extract_chip_id_for_tdx,
  extract_chip_id_for_snp, extract_chip_id_for_cca, extract_chip_id, load_ca,
  endorsement_extensions, endorse, make_endorsement, run_provision,
}

check_provision_args-Stops : (args : ProvisionArgs) → Stops (check_provision_args args)
unfolding check_provision_args
check_provision_args-Stops args = search stops_rules depth 12

module _ (ssl : OpenSsl) (max_items : ℕ) where
  load_ca-Stops : (args : ProvisionArgs) (w : World) → Stops (load_ca ssl max_items args w)
  unfolding load_ca
  load_ca-Stops args w = search pki_rules

  endorsement_extensions-Stops :
      (tee_type : ℕ) (chip_id now : Bytes)
      → Stops (endorsement_extensions ssl max_items tee_type chip_id now)
  unfolding endorsement_extensions
  endorsement_extensions-Stops tee_type chip_id now =
      search (pki_rules, encode_chip_id_binding-Stops, make_chip_id_binding_extension-Stops) depth
        10

  endorse-Stops :
      (args : ProvisionArgs) (ca_key : ssl.Key) (ca_cert : ssl.Cert)
      (chip : ChipIdResult ssl max_items) (w : World)
      → Stops (endorse ssl max_items args ca_key ca_cert chip w)
  unfolding endorse
  endorse-Stops args ca_key ca_cert chip w =
      search (pki_rules, endorsement_extensions-Stops) depth 16

  module _ (laws : DerLaws ssl) (reads_on : ReadsOn ssl) where
    chip_id_from_pck_chain-Stops :
        (chain : List ssl.Cert) (tee_type : ℕ)
        → Stops (chip_id_from_pck_chain ssl max_items chain tee_type)
    unfolding chip_id_from_pck_chain
    chip_id_from_pck_chain-Stops chain tee_type =
        search (stops_rules, verify_pck_chain-Stops, find_sgx_extension_octet-Stops ssl laws) depth
          7

    extract_chip_id-Stops :
        (args : ProvisionArgs) (w : World) → Stops (extract_chip_id ssl max_items args w)
    unfolding extract_chip_id extract_chip_id_for_sgx extract_chip_id_for_tdx
        extract_chip_id_for_snp extract_chip_id_for_cca
    extract_chip_id-Stops args w =
        search
          (
            pki_rules,
            chip_id_from_pck_chain-Stops,
            Sgx.Ends.extract_pck_chain_from_quote-Stops ssl reads_on,
            Tdx.Ends.extract_pck_chain_from_quote-Stops ssl reads_on,
            Snp.Ends.verify_and_extract-Stops,
            Cca.Ends.verify_and_extract-Stops,
          )
          depth 10

    make_endorsement-Stops :
        (args : ProvisionArgs) (w : World) → Stops (make_endorsement ssl max_items args w)
    unfolding make_endorsement
    make_endorsement-Stops args w =
        search
          (
            pki_rules, check_provision_args-Stops, load_ca-Stops, extract_chip_id-Stops,
            endorse-Stops,
          )
          depth 8

    pub run_provision-Stops :
        (args : ProvisionArgs) (w : World) → Stops (run_provision ssl max_items args w).0
    unfolding run_provision
    run_provision-Stops args w =
        continue-Stops (make_endorsement ssl max_items args w) _ w (make_endorsement-Stops args w)
          (λ pem. write_file-Stops args.out_path pem 0x1A4 w)
