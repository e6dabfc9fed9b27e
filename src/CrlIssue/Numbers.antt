-- ===== src/CrlIssue/Numbers.antt =====
-- What `run_crl_issue` of ca/crl_issue.cpp leaves behind: the CRL, and the list with its number.
use tee_anchor.Prelude.{
  ◌+◌, ◌%◌, ◌^◌, ◌≤◌, ◌≡◌, ◌≢◌, refl, ap, sym, ◌∙◌, true, some, length, take, Bytes, ok, inl, inr,
  ◌⊎◌, Error, err, Result-cases, err-ne-ok,
}
use tee_anchor.OpenSsl.{OpenSsl}
use tee_anchor.World.{World, write_file}
use tee_anchor.World.Writes.{
  write_file-frame, write_file-ok, write_file-SameHost, and_then-ok, SameHost, SameHost-eq,
  SameHost-trans,
}
use tee_anchor.RevocationDb.RoundTrip.{IsDb}
use tee_anchor.RevocationDb.Saves.{
  load-save_revocation_db, save_revocation_db-replaces, save_revocation_db-frame,
  save_revocation_db-SameHost,
}
use tee_anchor.RevocationDb.{
  RevocationDb, load_revocation_db, save_revocation_db, print_db, tmp_path,
}
use tee_anchor.Revoke.{db_path_or_default}
use tee_anchor.CrlIssue.{CrlIssueArgs, plan_crl, publish, run_crl_issue}
use tee_anchor.CrlIssue.Publishes.{plan_crl-Published}

-- The path of the list.
abbrev pub list_path : CrlIssueArgs → Bytes
list_path args = db_path_or_default args.db_path args.ca_cert_path

module _ (ssl : OpenSsl) where
  run_crl_issue-planned :
      (args : CrlIssueArgs) (w : World) (pem : Bytes) (db : RevocationDb)
      → plan_crl ssl args w ≡ ok (pem, db)
      → run_crl_issue ssl args w ≡ publish ssl args (pem, db) w
  unfolding run_crl_issue
  run_crl_issue-planned args w pem db h = rw h refl

  publish-written :
      (args : CrlIssueArgs) (w : World) (pem : Bytes) (db : RevocationDb)
      → (write_file args.out_path pem 0x1A4 w).0 ≡ ok tt
      → publish ssl args (pem, db) w
        ≡ save_revocation_db (list_path args) db (write_file args.out_path pem 0x1A4 w).1
  unfolding publish
  publish-written args w pem db h = rw h refl

  publish-unwritten :
      (args : CrlIssueArgs) (w : World) (pem : Bytes) (db : RevocationDb) (e : Error)
      → (write_file args.out_path pem 0x1A4 w).0 ≡ err e
      → publish ssl args (pem, db) w ≡ (err e, (write_file args.out_path pem 0x1A4 w).1)
  unfolding publish
  publish-unwritten args w pem db e h = rw h refl

  -- The CRL is out before the list is saved: where it is written and the save fails, the command
  -- throws, the CRL's file holds the CRL with the new number, and the list still has the old one.
  pub run_crl_issue_reuses_number :
      (args : CrlIssueArgs) (w : World) (pem : Bytes) (db : RevocationDb)
      → plan_crl ssl args w ≡ ok (pem, db)
      → args.out_path ≢ list_path args
      → args.out_path ≢ tmp_path (list_path args)
      → (write_file args.out_path pem 0x1A4 w).0 ≡ ok tt
      → (save_revocation_db (list_path args) db (write_file args.out_path pem 0x1A4 w).1).0 ≢ ok tt
      → ((run_crl_issue ssl args w).0 ≢ ok tt)
        × ((run_crl_issue ssl args w).1.files args.out_path
            ≡ some (record { content = take (w.medium args.out_path).accepted pem; mode = 0x1A4 }))
        × ((run_crl_issue ssl args w).1.files (list_path args) ≡ w.files (list_path args))
  run_crl_issue_reuses_number args w pem db h ne ne_tmp written failed =
      let w' = (write_file args.out_path pem 0x1A4 w).1 in
      let eq = run_crl_issue-planned args w pem db h ∙ publish-written args w pem db written in
      elim (save_revocation_db-replaces (list_path args) db w') [
        | inl (done, there) ↦ absurd (failed done)
        | inr (bad, same) ↦ (
          (λ e. bad (sym (ap (λ r. r.0) eq) ∙ e)),
          ap (λ r. r.1.files args.out_path) eq
              ∙ save_revocation_db-frame (list_path args) db w' args.out_path ne ne_tmp
              ∙ write_file-ok args.out_path pem 0x1A4 w written,
          ap (λ r. r.1.files (list_path args)) eq
              ∙ same
              ∙ write_file-frame args.out_path pem 0x1A4 w (list_path args) (λ e. ne (sym e)),
        )
      ]

  -- Where a CRL is planned from a list and written to its file, the list with the next number is
  -- well-formed, and the disk takes the whole of it and puts it in place, the command succeeds, and the
  -- list loaded next is the one of before under a number that is one more, in 64 bits.
  pub run_crl_issue-number :
      (args : CrlIssueArgs) (w : World) (pem : Bytes) (db : RevocationDb)
      → plan_crl ssl args w ≡ ok (pem, db)
      → (write_file args.out_path pem 0x1A4 w).0 ≡ ok tt
      → IsDb db
      → (w.medium (tmp_path (list_path args))).writable ≡ true
      → length (print_db db) ≤ (w.medium (tmp_path (list_path args))).accepted
      → w.can_rename (tmp_path (list_path args)) (list_path args) ≡ true
      → (w.medium (list_path args)).readable ≡ true
      → (old : RevocationDb) × (load_revocation_db (list_path args) w ≡ ok old)
        × ((run_crl_issue ssl args w).0 ≡ ok tt)
        × (load_revocation_db (list_path args) (run_crl_issue ssl args w).1
            ≡ ok (record { crl_number = (old.crl_number + 1) % 2 ^ 64; entries = old.entries }))
  run_crl_issue-number args w pem db h written good writable room can readable =
      let p = plan_crl-Published ssl args w pem db h in
      let w' = (write_file args.out_path pem 0x1A4 w).1 in
      let host = write_file-SameHost args.out_path pem 0x1A4 w in
      let eq = run_crl_issue-planned args w pem db h ∙ publish-written args w pem db written in
      let (done, loaded) =
        load-save_revocation_db (list_path args) db w' good
          (ap (λ m. (m (tmp_path (list_path args))).writable) host.medium ∙ writable)
          (rw host.medium room)
          (ap (λ c. c (tmp_path (list_path args)) (list_path args)) host.can_rename ∙ can)
          (ap (λ m. (m (list_path args)).readable) host.medium ∙ readable) in
      (
        p.old,
        p.loaded,
        ap (λ r. r.0) eq ∙ done,
        ap (λ r. load_revocation_db (list_path args) r.1) eq ∙ loaded ∙ ap ok p.numbered,
      )

  run_crl_issue-cases :
      (args : CrlIssueArgs) (w : World)
      → ((e : Error) × (run_crl_issue ssl args w ≡ (err e, w)))
        ⊎ ((pem : Bytes) × (db : RevocationDb) × (plan_crl ssl args w ≡ ok (pem, db))
            × (run_crl_issue ssl args w ≡ publish ssl args (pem, db) w))
  unfolding run_crl_issue
  run_crl_issue-cases args w = elim (Result-cases (plan_crl ssl args w)) [
    | inl ((pem, db), h) ↦ inr (pem, db, h, run_crl_issue-planned args w pem db h)
    | inr (e, h) ↦ inl (e, rw h refl)
  ]

  -- A command that succeeds has planned a CRL, written it, and saved the list.
  pub run_crl_issue-done :
      (args : CrlIssueArgs) (w : World)
      → (run_crl_issue ssl args w).0 ≡ ok tt
      → (pem : Bytes) × (db : RevocationDb) × (plan_crl ssl args w ≡ ok (pem, db))
        × ((write_file args.out_path pem 0x1A4 w).0 ≡ ok tt)
        × (run_crl_issue ssl args w
            ≡ save_revocation_db (list_path args) db (write_file args.out_path pem 0x1A4 w).1)
  unfolding publish
  run_crl_issue-done args w h = elim (run_crl_issue-cases args w) [
    | inl (e, eq) ↦ absurd (err-ne-ok (sym (ap (λ r. r.0) eq) ∙ h))
    | inr (pem, db, planned, eq) ↦
        let (written, saves) =
          and_then-ok (write_file args.out_path pem 0x1A4) (save_revocation_db (list_path args) db)
            w (sym (ap (λ r. r.0) eq) ∙ h) in
        (pem, db, planned, written, eq ∙ saves)
  ]

  -- A command that throws has left the list as it was, unless the CRL was to be written over it.
  pub run_crl_issue-error :
      (args : CrlIssueArgs) (w : World)
      → args.out_path ≢ list_path args
      → (run_crl_issue ssl args w).0 ≢ ok tt
      → (run_crl_issue ssl args w).1.files (list_path args) ≡ w.files (list_path args)
  unfolding publish
  run_crl_issue-error args w ne h = elim (run_crl_issue-cases args w) [
    | inl (e, eq) ↦ ap (λ r. r.1.files (list_path args)) eq
    | inr (pem, db, planned, eq) ↦
        let frame = write_file-frame args.out_path pem 0x1A4 w (list_path args) (λ e. ne (sym e)) in
        elim (Result-cases (write_file args.out_path pem 0x1A4 w).0) [
          | inr (x, failed) ↦
              ap (λ r. r.1.files (list_path args)) (eq ∙ publish-unwritten args w pem db x failed)
              ∙ frame
          | inl (u, written) ↦
              let eq' = eq ∙ publish-written args w pem db written in
              elim (save_revocation_db-replaces (list_path args) db
                (write_file args.out_path pem 0x1A4 w).1) [
                  | inl (done, there) ↦ absurd (h (ap (λ r. r.0) eq' ∙ done))
                  | inr (failed, same) ↦ ap (λ r. r.1.files (list_path args)) eq' ∙ same ∙ frame
                ]
        ]
  ]

  -- A command writes files and nothing else of the state.
  pub run_crl_issue-SameHost :
      (args : CrlIssueArgs) (w : World) → SameHost (run_crl_issue ssl args w).1 w
  unfolding publish
  run_crl_issue-SameHost args w = elim (run_crl_issue-cases args w) [
    | inl (e, eq) ↦ SameHost-eq (ap (λ r. r.1) eq)
    | inr (pem, db, planned, eq) ↦ elim (Result-cases (write_file args.out_path pem 0x1A4 w).0) [
      | inr (x, failed) ↦
          SameHost-trans
            (SameHost-eq (ap (λ r. r.1) (eq ∙ publish-unwritten args w pem db x failed)))
            (write_file-SameHost args.out_path pem 0x1A4 w)
      | inl (u, written) ↦
          SameHost-trans (SameHost-eq (ap (λ r. r.1) (eq ∙ publish-written args w pem db written)))
            (SameHost-trans (save_revocation_db-SameHost (list_path args) db _)
              (write_file-SameHost args.out_path pem 0x1A4 w))
    ]
  ]
