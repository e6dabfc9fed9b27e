-- ===== src/Revoke/Keeps.antt =====
-- What `run_revoke` of ca/revoke.cpp does to the list of revoked certificates.
use tee_anchor.Prelude.{
  ◌≤◌, ◌≡◌, ◌≢◌, refl, ap, sym, ◌∙◌, true, false, none, some, List, [], ◌∷◌, ◌++◌, length,
  Option-cases, Bytes, bytes_eq_refl, All, Error, ok, err, Result-cases, arith, inl, inr,
}
use tee_anchor.OpenSsl.{OpenSsl}
use tee_anchor.World.{File, World}
use tee_anchor.World.Writes.{SameHost, SameHost-eq, SameHost-trans}
use tee_anchor.RevocationDb.{
  RevocationEntry, RevocationDb, empty_db, load_revocation_db, save_revocation_db, print_db,
  tmp_path,
}
use tee_anchor.RevocationDb.RoundTrip.{IsEntry, IsDb}
use tee_anchor.RevocationDb.Saves.{
  saved, load-save_revocation_db, save_revocation_db-replaces, save_revocation_db-SameHost,
}
use tee_anchor.Revoke.{
  RevokeArgs, has_serial, db_path_or_default, add_entry, revocation_of, plan_revoke, run_revoke,
}

-- The path of the list.
abbrev pub list_path : RevokeArgs → Bytes
list_path args = db_path_or_default args.db_path args.ca_cert_path

pub has_serial-append :
    (x : Bytes) (es fs : List RevocationEntry)
    → has_serial x es ≡ true
    → has_serial x (es ++ fs) ≡ true
unfolding has_serial
has_serial-append x [] fs h = cc
has_serial-append x (e ∷ es) fs h = ground (arith, has_serial-append x es fs)

pub has_serial-last :
    (e : RevocationEntry) (es : List RevocationEntry)
    → has_serial e.serial_hex (es ++ (e ∷ [])) ≡ true
unfolding has_serial
has_serial-last e [] = rw (bytes_eq_refl e.serial_hex) refl
has_serial-last e (x ∷ es) = ground (arith, has_serial-last e es)

pub All-snoc :
    (es : List RevocationEntry) (e : RevocationEntry)
    → All IsEntry es
    → IsEntry e
    → All IsEntry (es ++ (e ∷ []))
All-snoc [] e hs h = (h, tt)
All-snoc (x ∷ es) e (hx, hs) h = (hx, All-snoc es e hs h)

module _ (ssl : OpenSsl) where
  pub plan_revoke-loaded :
      (args : RevokeArgs) (w : World) (e : RevocationEntry) (db : RevocationDb)
      → revocation_of ssl args w ≡ ok e
      → load_revocation_db (list_path args) w ≡ ok db
      → plan_revoke ssl args w ≡ ok (add_entry e db)
  unfolding plan_revoke
  plan_revoke-loaded args w e db h₁ h₂ = rw (h₁, h₂) refl

  pub run_revoke-there :
      (args : RevokeArgs) (w : World)
      → plan_revoke ssl args w ≡ ok none
      → run_revoke ssl args w ≡ (ok tt, w)
  unfolding run_revoke
  run_revoke-there args w h = rw h refl

  pub run_revoke-new :
      (args : RevokeArgs) (w : World) (db : RevocationDb)
      → plan_revoke ssl args w ≡ ok (some db)
      → run_revoke ssl args w ≡ save_revocation_db (list_path args) db w
  unfolding run_revoke
  run_revoke-new args w db h = rw h refl

  pub run_revoke-failed :
      (args : RevokeArgs) (w : World) (x : Error)
      → plan_revoke ssl args w ≡ err x
      → run_revoke ssl args w ≡ (err x, w)
  unfolding run_revoke
  run_revoke-failed args w x h = rw h refl

  pub add_entry-there :
      (e : RevocationEntry) (db : RevocationDb)
      → has_serial e.serial_hex db.entries ≡ true
      → add_entry e db ≡ none
  unfolding add_entry
  add_entry-there e db h = rw h refl

  pub add_entry-new :
      (e : RevocationEntry) (db : RevocationDb)
      → has_serial e.serial_hex db.entries ≡ false
      → add_entry e db ≡ some (record db { entries = db.entries ++ (e ∷ []) })
  unfolding add_entry
  add_entry-new e db h = rw h refl

  -- Revoking a certificate whose serial number is in the list succeeds and changes nothing.
  pub run_revoke-again :
      (args : RevokeArgs) (w : World) (e : RevocationEntry) (db : RevocationDb)
      → revocation_of ssl args w ≡ ok e
      → load_revocation_db (list_path args) w ≡ ok db
      → has_serial e.serial_hex db.entries ≡ true
      → run_revoke ssl args w ≡ (ok tt, w)
  run_revoke-again args w e db h₁ h₂ h =
      run_revoke-there args w
        (plan_revoke-loaded args w e db h₁ h₂ ∙ ap ok (add_entry-there e db h))

  -- Revoking a certificate that is not in the list, on a disk that takes the new text: the command
  -- succeeds, and the list loaded next is the old one, in its order and under its number, with the entry
  -- at the end.
  pub run_revoke-appends :
      (args : RevokeArgs) (w : World) (e : RevocationEntry) (db : RevocationDb)
      → revocation_of ssl args w ≡ ok e
      → load_revocation_db (list_path args) w ≡ ok db
      → has_serial e.serial_hex db.entries ≡ false
      → IsDb db
      → IsEntry e
      → (w.medium (tmp_path (list_path args))).writable ≡ true
      → length (print_db (record db { entries = db.entries ++ (e ∷ []) }))
        ≤ (w.medium (tmp_path (list_path args))).accepted
      → w.can_rename (tmp_path (list_path args)) (list_path args) ≡ true
      → (w.medium (list_path args)).readable ≡ true
      → ((run_revoke ssl args w).0 ≡ ok tt)
        × (load_revocation_db (list_path args) (run_revoke ssl args w).1
            ≡ ok (record db { entries = db.entries ++ (e ∷ []) }))
  run_revoke-appends args w e db h₁ h₂ h good entry writable room can readable =
      let db' = record db { entries = db.entries ++ (e ∷ []) } in
      let good' : IsDb db' = record {
        number = good.number;
        entries = All-snoc db.entries e good.entries entry;
      } in
      let eq =
        run_revoke-new args w db'
          (plan_revoke-loaded args w e db h₁ h₂ ∙ ap ok (add_entry-new e db h)) in
      let (done, loaded) =
        load-save_revocation_db (list_path args) db' w good' writable room can readable in
      (ap (λ r. r.0) eq ∙ done, ap (λ r. load_revocation_db (list_path args) r.1) eq ∙ loaded)

  -- A command that throws has left the list as it was.
  pub run_revoke-error :
      (args : RevokeArgs) (w : World)
      → (run_revoke ssl args w).0 ≢ ok tt
      → (run_revoke ssl args w).1.files (list_path args) ≡ w.files (list_path args)
  run_revoke-error args w h = elim (Result-cases (plan_revoke ssl args w)) [
    | inr (x, e) ↦ ap (λ r. r.1.files (list_path args)) (run_revoke-failed args w x e)
    | inl (o, e) ↦ elim (Option-cases o) [
      | inl absent ↦
          ap (λ r. r.1.files (list_path args)) (run_revoke-there args w (e ∙ ap ok absent))
      | inr (db, found) ↦
          let eq = run_revoke-new args w db (e ∙ ap ok found) in
          elim (save_revocation_db-replaces (list_path args) db w) [
            | inl (done, there) ↦ absurd (h (ap (λ r. r.0) eq ∙ done))
            | inr (failed, same) ↦ ap (λ r. r.1.files (list_path args)) eq ∙ same
          ]
    ]
  ]

  load-unreadable :
      (path : Bytes) (w : World)
      → (w.medium path).readable ≡ false
      → load_revocation_db path w ≡ ok empty_db
  unfolding load_revocation_db
  load-unreadable path w h = rw h refl

  -- A list that exists and cannot be opened is taken for an empty one. So where its directory can be
  -- written, a command that succeeds has replaced it by a list with the new entry alone, and number 0:
  -- every certificate revoked before is forgotten.
  pub run_revoke_forgets :
      (args : RevokeArgs) (w : World) (e : RevocationEntry)
      → revocation_of ssl args w ≡ ok e
      → (w.medium (list_path args)).readable ≡ false
      → (run_revoke ssl args w).0 ≡ ok tt
      → (f : File) × ((run_revoke ssl args w).1.files (list_path args) ≡ some f)
        × (f.content ≡ saved (list_path args) (record { crl_number = 0; entries = e ∷ [] }) w)
  unfolding has_serial
  run_revoke_forgets args w e h₁ h₂ done =
      let db : RevocationDb = record { crl_number = 0; entries = e ∷ [] } in
      let eq = run_revoke-new args w db (
        plan_revoke-loaded args w e empty_db h₁ (load-unreadable (list_path args) w h₂)
        ∙ ap ok (add_entry-new e empty_db refl)) in
      elim (save_revocation_db-replaces (list_path args) db w) [
        | inl (good, (f, there, content)) ↦
            (f, ap (λ r. r.1.files (list_path args)) eq ∙ there, content)
        | inr (failed, same) ↦ absurd (failed (sym (ap (λ r. r.0) eq) ∙ done))
      ]

  -- A command writes files and nothing else of the state.
  pub run_revoke-SameHost : (args : RevokeArgs) (w : World) → SameHost (run_revoke ssl args w).1 w
  run_revoke-SameHost args w = elim (Result-cases (plan_revoke ssl args w)) [
    | inr (x, e) ↦ SameHost-eq (ap (λ r. r.1) (run_revoke-failed args w x e))
    | inl (o, e) ↦ elim (Option-cases o) [
      | inl absent ↦ SameHost-eq (ap (λ r. r.1) (run_revoke-there args w (e ∙ ap ok absent)))
      | inr (db, found) ↦
          SameHost-trans (SameHost-eq (ap (λ r. r.1) (run_revoke-new args w db (e ∙ ap ok found))))
            (save_revocation_db-SameHost (list_path args) db w)
    ]
  ]
