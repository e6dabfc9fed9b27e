-- ===== src/Snp/Ends.antt =====
-- provision/sev-snp/snp_provision.cpp: its results are never out of fuel.
use tee_anchor.Prelude.{Bytes, ok, throw}
use tee_anchor.Prelude.Endings.{
  Stops, Stops-ok, Stops-throw, Stops-throw_if, Stops-or_throw, Stops-bind, Stops-option,
  stops_rules,
}
use tee_anchor.OpenSsl.{OpenSsl, Outcome, valid, invalid, failed}
use tee_anchor.World.{World}
use tee_anchor.Pki.Ends.{after_call, pki_rules, make_oid-Stops}
use tee_anchor.Snp.Report.{validate_report_header, extract_chip_id_from_report}
use tee_anchor.Snp.{
  verify_vcek_certs, verify_vcek_chain, verify_report_signature, check_hwid, verify_report,
  verify_and_extract,
}

validate_report_header-Stops : (report : Bytes) → Stops (validate_report_header report)
unfolding validate_report_header
validate_report_header-Stops report = search stops_rules

extract_chip_id_from_report-Stops : (report : Bytes) → Stops (extract_chip_id_from_report report)
unfolding extract_chip_id_from_report
extract_chip_id_from_report-Stops report = search stops_rules

-- What is made of the outcome of `EVP_DigestVerify`.
outcome-Stops :
    (o : Outcome)
    → Stops {A = Unit {0}} (elim o [
      | valid ↦ ok tt
      | invalid ↦ throw "attestation report signature did not verify against the VCEK public key"
      | failed ↦ throw "EVP_DigestVerify (SNP report)"
    ])
outcome-Stops valid = Stops-ok tt
outcome-Stops invalid = Stops-throw _
outcome-Stops failed = Stops-throw _

module _ (ssl : OpenSsl) where
  verify_vcek_certs-Stops : (ark ask vcek : ssl.Cert) → Stops (verify_vcek_certs ssl ark ask vcek)
  unfolding verify_vcek_certs
  verify_vcek_certs-Stops ark ask vcek = search pki_rules depth 12

  verify_vcek_chain-Stops :
      (certs_dir : Bytes) (w : World) → Stops (verify_vcek_chain ssl certs_dir w)
  unfolding verify_vcek_chain
  verify_vcek_chain-Stops certs_dir w = search (pki_rules, verify_vcek_certs-Stops) depth 12

  verify_report_signature-Stops :
      (report : Bytes) (vcek : ssl.Cert) → Stops (verify_report_signature ssl report vcek)
  unfolding verify_report_signature
  verify_report_signature-Stops report vcek = Stops-bind _ _ (Stops-throw_if _ _) λ _.
      Stops-bind _ _ (Stops-or_throw (ssl.public_key vcek) _) λ pk.
        Stops-bind _ _ (Stops-throw_if _ _) λ _. after_call ssl _ (
          after_call ssl _ (
            after_call ssl _ (
              after_call ssl _
                (after_call ssl _ (after_call ssl _ (after_call ssl _ (outcome-Stops _)))))))

  check_hwid-Stops : (vcek : ssl.Cert) (chip_id : Bytes) → Stops (check_hwid ssl vcek chip_id)
  unfolding check_hwid
  check_hwid-Stops vcek chip_id = Stops-bind _ _ (make_oid-Stops ssl _) λ oid.
      Stops-option (ssl.extension vcek oid) _ _ (Stops-ok tt)
        λ found. Stops-option found _ _ (Stops-ok tt) (λ hwid. Stops-throw_if _ _)

  verify_report-Stops :
      (report certs_dir : Bytes) (w : World) → Stops (verify_report ssl report certs_dir w)
  unfolding verify_report
  verify_report-Stops report certs_dir w =
      search
        (
          pki_rules, validate_report_header-Stops, verify_vcek_chain-Stops,
          verify_report_signature-Stops, extract_chip_id_from_report-Stops, check_hwid-Stops,
        )
        depth 8

  pub verify_and_extract-Stops :
      (report_path certs_dir : Bytes) (w : World)
      → Stops (verify_and_extract ssl report_path certs_dir w)
  unfolding verify_and_extract
  verify_and_extract-Stops report_path certs_dir w = search (pki_rules, verify_report-Stops)
