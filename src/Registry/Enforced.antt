-- ===== src/Registry/Enforced.antt =====
-- ca/revoke.cpp, ca/crl_issue.cpp and verify/verify.cpp together: a revoked certificate and a later CRL.
use tee_anchor.Prelude.{
  ℕ, ◌≡◌, ◌≢◌, refl, ap, sym, subst, ◌∙◌, Bool, true, false, Option, none, some, List, Bytes,
  is_empty, ok, ok_injective, arith,
}
use tee_anchor.OpenSsl.{OpenSsl, Digest, TbsCrl, Store, err_cert_revoked, call}
use tee_anchor.World.{World, read_file}
use tee_anchor.World.Writes.{Reported, write_file-reported}
use tee_anchor.Pki.{load_pem_cert, load_pem_crl}
use tee_anchor.RevocationDb.{RevocationDb, load_revocation_db, tmp_path}
use tee_anchor.RevocationDb.Text.{to_lower}
use tee_anchor.RevocationDb.Saves.{save_revocation_db-frame}
use tee_anchor.Revoke.{has_serial}
use tee_anchor.Revoke.Entry.{HexLaws}
use tee_anchor.CrlIssue.{CrlIssueArgs, plan_crl, run_crl_issue}
use tee_anchor.CrlIssue.Sorted.{Sorts, lists_serial, lists_serial-sorted, has_serial-lists}
use tee_anchor.CrlIssue.Publishes.{plan_crl-Published}
use tee_anchor.CrlIssue.Numbers.{list_path, run_crl_issue-done}
use tee_anchor.Verify.Args.{VerifyArgs, check_args}
use tee_anchor.Verify.{
  Inputs, load_inputs, org_context, org_store, verify_evidence_and_extract_chip_id, run_verify,
}
use tee_anchor.Verify.Codes.{run_verify_revoked}
use tee_anchor.Registry.{Event, replay}
use tee_anchor.Registry.Log.{revokes_serial, has_serial-replay}
use tee_anchor.Registry.History.{History}
use tee_anchor.Registry.Refines.{Loads, History-Loads}

-- What the program relies on in a CRL: it reads back from its PEM, `X509_CRL_sort` only reorders its
-- entries, and `X509_verify_cert` with X509_V_FLAG_CRL_CHECK reports a certificate as revoked that would
-- pass without the check, where the CRL of its issuer, signed with the issuer's key and in force, lists
-- its serial number. `in_force ca crl` stands for what OpenSSL asks of a CRL before it uses it: that its
-- dates and its extensions hold, and that the CA may sign CRLs.
pub record CrlLaws (ssl : OpenSsl) : Type 0 where
  pub reads : (crl : ssl.Crl) → ssl.read_crl (ssl.write_crl crl) ≡ some crl
  pub sorts : Sorts ssl
  pub in_force : ssl.Cert → ssl.Crl → Bool
  pub revokes :
      (tbs : TbsCrl ssl.Name) (key : ssl.Key) (md : Option Digest) (crl : ssl.Crl)
      (store : Store ssl.Cert ssl.Crl) (cert : ssl.Cert)
      → ssl.sign_crl tbs key md ≡ some crl
      → ssl.key_matches store.trusted key ≡ true
      → tbs.issuer ≡ ssl.subject store.trusted
      → lists_serial (ssl.serial cert) tbs.revoked ≡ true
      → in_force store.trusted crl ≡ true
      → ssl.verify_cert (record store { crl = none; crl_check = false }) cert ≡ 0
      → ssl.verify_cert (record store { crl = some crl; crl_check = true }) cert ≡ err_cert_revoked

module _ (ssl : OpenSsl) (max_items : ℕ) where
  -- A `verify` under a CRL file that can be opened and holds a CRL in force, which would accept the
  -- endorsement if it looked at no CRL.
  pub record Checks (laws : CrlLaws ssl) (v : VerifyArgs) (w : World) (cert ca : ssl.Cert)
      (chip_id : Bytes) : Type 0 where
    pub arguments : check_args v ≡ ok tt
    pub crl_given : is_empty v.crl_path ≡ false
    pub readable : (w.medium v.crl_path).readable ≡ true
    pub in_force :
        (crl : ssl.Crl) → load_pem_crl ssl v.crl_path w ≡ ok crl → laws.in_force ca crl ≡ true
    pub cert_loaded : load_pem_cert ssl v.org_cert_path w ≡ ok cert
    pub ca_loaded : load_pem_cert ssl v.org_ca_path w ≡ ok ca
    pub evidence : verify_evidence_and_extract_chip_id ssl max_items v w ≡ ok chip_id
    pub buffer : ssl.succeeds "BIO_new_mem_buf" ≡ true
    pub context : (crl : ssl.Crl) → org_context ssl max_items (some crl) ≡ ok tt
    pub unrevoked : ssl.verify_cert (org_store ssl max_items ca none) cert ≡ 0

  load_pem_crl-file :
      CrlLaws ssl
      → (path : Bytes) (w : World) (crl : ssl.Crl) (mode : ℕ)
      → ssl.succeeds "BIO_new_mem_buf" ≡ true
      → (w.medium path).readable ≡ true
      → w.files path ≡ some (record { content = ssl.write_crl crl; mode = mode })
      → load_pem_crl ssl path w ≡ ok crl
  unfolding load_pem_crl read_file call
  load_pem_crl-file laws path w crl mode buffer readable there =
      rw (readable, there, buffer, laws.reads crl) refl

  load_inputs-crl :
      (v : VerifyArgs) (w : World) (cert ca : ssl.Cert) (crl : ssl.Crl)
      → is_empty v.crl_path ≡ false
      → load_pem_cert ssl v.org_cert_path w ≡ ok cert
      → load_pem_cert ssl v.org_ca_path w ≡ ok ca
      → load_pem_crl ssl v.crl_path w ≡ ok crl
      → load_inputs ssl max_items v w
        ≡ ok (record { org_cert = cert; org_ca = ca; org_crl = some crl })
  unfolding load_inputs
  load_inputs-crl v w cert ca crl given h₁ h₂ h₃ = rw (h₁, h₂, given, h₃) refl

  -- A revoked certificate stays out. Take a history of a list (as `History-Loads` has them, with no save
  -- cut off in silence) in which the certificate was revoked, and a later `crl-issue` on that list that
  -- succeeds, with the CRL written whole to a file of its own. Then a `verify`, at any time and on any
  -- machine that has this CRL file, refuses the certificate with 24, although its evidence is good and
  -- OpenSSL would accept it without the CRL, provided that the CRL is in force.
  pub run_verify-revoked_before :
      (crl_laws : CrlLaws ssl)
      → HexLaws ssl
      → (path : Bytes) (start : World) (db : RevocationDb) → Loads path start db
      → (log : List Event) (w : World) → History ssl path start log w
      → (cert ca : ssl.Cert)
      → revokes_serial (to_lower (ssl.hex_of_number (ssl.serial cert))) log ≡ true
      → (args : CrlIssueArgs) → list_path args ≡ path
      → load_pem_cert ssl args.ca_cert_path w ≡ ok ca
      → args.out_path ≢ path
      → args.out_path ≢ tmp_path path
      → ((pem : Bytes) (next : RevocationDb)
          → plan_crl ssl args w ≡ ok (pem, next)
          → Reported args.out_path pem w)
      → (run_crl_issue ssl args w).0 ≡ ok tt
      → (v : VerifyArgs) (u : World) (chip_id : Bytes)
      → u.files v.crl_path ≡ (run_crl_issue ssl args w).1.files args.out_path
      → Checks crl_laws v u cert ca chip_id
      → run_verify ssl max_items v u ≡ 24
  unfolding org_store
  run_verify-revoked_before crl_laws hex_laws path start db l log w h cert ca on_log args at_ the_ca
        apart apart_tmp reports done v u chip_id delivered checks =
      let serial = to_lower (ssl.hex_of_number (ssl.serial cert)) in
      let now = History-Loads ssl hex_laws path start db l log w h in
      let (pem, db', planned, written, eq) = run_crl_issue-done ssl args w done in
      let p = plan_crl-Published ssl args w pem db' planned in
      let same_list : p.old ≡ replay log db = ok_injective (
        sym p.loaded
        ∙ (subst (λ q. load_revocation_db q w ≡ ok (replay log db)) (sym at_) now.loaded)) in
      let same_ca : p.ca_cert ≡ ca = ok_injective (sym p.cert_loaded ∙ the_ca) in
      let on_list : has_serial serial p.old.entries ≡ true =
        ap (λ (d : RevocationDb). has_serial serial d.entries) same_list
        ∙ has_serial-replay serial log db
        ∙ ground arith in
      let listed =
        lists_serial-sorted ssl crl_laws.sorts (ssl.serial cert) p.revoked
        ∙ has_serial-lists ssl serial (ssl.serial cert) p.old.entries p.revoked
            (hex_laws.reads (ssl.serial cert)) p.listed on_list in
      let there =
        delivered
        ∙ ap (λ r. r.1.files args.out_path) eq
        ∙ save_revocation_db-frame (list_path args) db' _ args.out_path
            (subst (λ q. args.out_path ≢ q) (sym at_) apart)
            (subst (λ q. args.out_path ≢ tmp_path q) (sym at_) apart_tmp)
        ∙ write_file-reported args.out_path pem 0x1A4 w (reports pem db' planned) written
        ∙ ap (λ t. some (record { content = t; mode = 0x1A4 })) p.printed in
      let read =
        load_pem_crl-file crl_laws v.crl_path u p.crl 0x1A4 checks.buffer checks.readable there in
      let inputs : Inputs ssl max_items = record {
        org_cert = cert;
        org_ca = ca;
        org_crl = some p.crl;
      } in
      run_verify_revoked ssl max_items v u inputs chip_id checks.arguments
        (load_inputs-crl v u cert ca p.crl checks.crl_given checks.cert_loaded checks.ca_loaded
          read)
        checks.evidence (checks.context p.crl)
        (crl_laws.revokes _ p.ca_key p.md p.crl (org_store ssl max_items ca none) cert p.signed
          (ap (λ c. ssl.key_matches c p.ca_key) (sym same_ca) ∙ p.matches) (ap ssl.subject same_ca)
          listed (checks.in_force p.crl read) checks.unrevoked)
