-- ===== src/CrlIssue/Ends.antt =====
-- ca/crl_issue.cpp: its results are never out of fuel.
use tee_anchor.Prelude.{ℕ, List, [], ◌∷◌, Bytes}
use tee_anchor.Prelude.Endings.{Stops, Stops-ok, Stops-throw, Stops-if, Stops-bind, stops_rules}
use tee_anchor.OpenSsl.{OpenSsl}
use tee_anchor.World.{World, write_file}
use tee_anchor.World.Ends.{continue-Stops, and_then-Stops, write_file-Stops}
use tee_anchor.Pki.Ends.{pki_rules}
use tee_anchor.RevocationDb.{RevocationEntry, RevocationDb, save_revocation_db}
use tee_anchor.Revoke.{db_path_or_default}
use tee_anchor.RevocationDb.Ends.{load_revocation_db-Stops, save_revocation_db-Stops}
use tee_anchor.CrlIssue.{
  CrlIssueArgs, lookup_reason, reason_map, reason_to_int, check_crl_issue_args, asn1_int_from_hex,
  asn1_gentime_from_string, add_crl_reason_extension, revoked_of, revoked_list, start_crl,
  finish_crl, build_crl, pem_crl, plan_crl, publish, run_crl_issue,
}

check_crl_issue_args-Stops : (args : CrlIssueArgs) → Stops (check_crl_issue_args args)
unfolding check_crl_issue_args
check_crl_issue_args-Stops args = search stops_rules

lookup_reason-Stops : (m : List (Bytes × ℕ)) (name : Bytes) → Stops (lookup_reason m name)
unfolding lookup_reason
lookup_reason-Stops [] name = Stops-throw _
lookup_reason-Stops ((n, v) ∷ rest) name =
    Stops-if _ _ _ (Stops-ok v) (lookup_reason-Stops rest name)

reason_to_int-Stops : (name : Bytes) → Stops (reason_to_int name)
unfolding reason_to_int
reason_to_int-Stops name = lookup_reason-Stops reason_map name

module _ (ssl : OpenSsl) where
  asn1_int_from_hex-Stops : (hex : Bytes) → Stops (asn1_int_from_hex ssl hex)
  unfolding asn1_int_from_hex
  asn1_int_from_hex-Stops hex = search pki_rules

  asn1_gentime_from_string-Stops : (ts : Bytes) → Stops (asn1_gentime_from_string ssl ts)
  unfolding asn1_gentime_from_string
  asn1_gentime_from_string-Stops ts = search pki_rules

  add_crl_reason_extension-Stops : (name : Bytes) → Stops (add_crl_reason_extension ssl name)
  unfolding add_crl_reason_extension
  add_crl_reason_extension-Stops name = search (pki_rules, reason_to_int-Stops) depth 8

  revoked_of-Stops : (e : RevocationEntry) → Stops (revoked_of ssl e)
  unfolding revoked_of
  revoked_of-Stops e =
      search
        (
          pki_rules, asn1_int_from_hex-Stops, asn1_gentime_from_string-Stops,
          add_crl_reason_extension-Stops,
        )
        depth 12

  revoked_list-Stops : (es : List RevocationEntry) → Stops (revoked_list ssl es)
  unfolding revoked_list
  revoked_list-Stops [] = Stops-ok []
  revoked_list-Stops (e ∷ es) =
      Stops-bind _ _ (revoked_of-Stops e)
        λ r. Stops-bind _ _ (revoked_list-Stops es) (λ rs. Stops-ok (r ∷ rs))

  start_crl-Stops : Stops (start_crl ssl)
  unfolding start_crl
  start_crl-Stops = search pki_rules depth 12

  finish_crl-Stops : Stops (finish_crl ssl)
  unfolding finish_crl
  finish_crl-Stops = search pki_rules depth 12

  build_crl-Stops :
      (args : CrlIssueArgs) (ca_key : ssl.Key) (ca_cert : ssl.Cert) (db : RevocationDb)
      → Stops (build_crl ssl args ca_key ca_cert db)
  unfolding build_crl
  build_crl-Stops args ca_key ca_cert db =
      search (pki_rules, start_crl-Stops, revoked_list-Stops, finish_crl-Stops) depth 8

  pem_crl-Stops : (crl : ssl.Crl) → Stops (pem_crl ssl crl)
  unfolding pem_crl
  pem_crl-Stops crl = search pki_rules

  plan_crl-Stops : (args : CrlIssueArgs) (w : World) → Stops (plan_crl ssl args w)
  unfolding plan_crl
  plan_crl-Stops args w =
      search
        (
          pki_rules, check_crl_issue_args-Stops, load_revocation_db-Stops, build_crl-Stops,
          pem_crl-Stops,
        )
        depth 10

  pub run_crl_issue-Stops : (args : CrlIssueArgs) (w : World) → Stops (run_crl_issue ssl args w).0
  unfolding run_crl_issue publish
  run_crl_issue-Stops args w = continue-Stops _ _ w (plan_crl-Stops args w) λ (pem, db).
      let db_path = db_path_or_default args.db_path args.ca_cert_path in
      and_then-Stops (write_file args.out_path pem 0x1A4) (save_revocation_db db_path db) w
        (write_file-Stops args.out_path pem 0x1A4 w) (save_revocation_db-Stops db_path db)
