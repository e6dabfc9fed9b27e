-- ===== src/Registry/Live.antt =====
-- `revoke` of ca/revoke.cpp after a history of the list.
use tee_anchor.Prelude.{
  ◌≤◌, ◌≡◌, ◌∙◌, Option, none, some, ok_injective, ap, sym, subst, true, List, ◌∷◌, length, Bytes,
  ok, Bool-cases, inl, inr,
}
use tee_anchor.OpenSsl.{OpenSsl}
use tee_anchor.World.{World}
use tee_anchor.RevocationDb.{RevocationEntry, RevocationDb, load_revocation_db, print_db, tmp_path}
use tee_anchor.Revoke.{RevokeArgs, has_serial, revocation_of, run_revoke}
use tee_anchor.Revoke.Entry.{HexLaws, revocation_of-IsEntry}
use tee_anchor.Revoke.Keeps.{
  list_path, run_revoke-again, run_revoke-appends, plan_revoke-loaded, add_entry-there,
  add_entry-new,
}
use tee_anchor.Registry.{Event, revocation, apply, replay}
use tee_anchor.Registry.Log.{has_serial-applied}
use tee_anchor.Registry.History.{History, RevokeReported, revokes}
use tee_anchor.Registry.Refines.{Loads, History-Loads, apply-new}

-- The disk takes this list, and puts it in its place.
pub record Room (path : Bytes) (db : RevocationDb) (w : World) : Type 0 where
  pub writable : (w.medium (tmp_path path)).writable ≡ true
  pub room : length (print_db db) ≤ (w.medium (tmp_path path)).accepted
  pub can_rename : w.can_rename (tmp_path path) path ≡ true

module _ (ssl : OpenSsl) where
  revoke-succeeds :
      HexLaws ssl
      → (args : RevokeArgs) (w : World) (db : RevocationDb) (e : RevocationEntry)
      → Loads (list_path args) w db
      → revocation_of ssl args w ≡ ok e
      → Room (list_path args) (apply (revocation e) db) w
      → (run_revoke ssl args w).0 ≡ ok tt
  revoke-succeeds laws args w db e l made room =
      elim (Bool-cases (has_serial e.serial_hex db.entries)) [
        | inl old ↦ ap (λ r. r.0) (run_revoke-again ssl args w e db made l.loaded old)
        | inr new ↦
            let fits =
              subst
                (λ (d : RevocationDb).
                  length (print_db d) ≤ (w.medium (tmp_path (list_path args))).accepted)
                (apply-new e db new) room.room in
            (run_revoke-appends ssl args w e db made l.loaded new l.good
              (revocation_of-IsEntry ssl laws args w e l.host.stamped l.host.stamp made)
              room.writable fits room.can_rename l.host.readable).0
      ]

  revoke-reported :
      (args : RevokeArgs) (w : World) (db : RevocationDb) (e : RevocationEntry)
      → revocation_of ssl args w ≡ ok e
      → load_revocation_db (list_path args) w ≡ ok db
      → Room (list_path args) (apply (revocation e) db) w
      → RevokeReported ssl (list_path args) args w
  revoke-reported args w db e made loaded room db' planned whole =
      let added = ok_injective (sym (plan_revoke-loaded ssl args w e db made loaded) ∙ planned) in
      elim (Bool-cases (has_serial e.serial_hex db.entries)) [
        | inl old ↦ absurd (none_ne (sym (add_entry-there ssl e db old) ∙ added))
        | inr new ↦
            subst (λ d. length (print_db d) ≤ (w.medium (tmp_path (list_path args))).accepted)
              (apply-new e db new ∙ inner (sym (add_entry-new ssl e db new) ∙ added)) room.room
      ]
    where
      none_ne : ¬ (◌≡◌ {A = Option RevocationDb} none (some db'))
      none_ne h = cc

      inner : {a b : RevocationDb} → ◌≡◌ {A = Option RevocationDb} (some a) (some b) → a ≡ b
      inner h = cc

  -- After a history (as `History-Loads` has them, with no save cut off in silence), however many of its
  -- commands have failed: where the certificate and the CA's certificate load and fit, and the disk takes
  -- the list now, `revoke` succeeds, and the certificate is on the list that is loaded next.
  pub History-revokes :
      HexLaws ssl
      → (path : Bytes) (start : World) (db : RevocationDb) → Loads path start db
      → (log : List Event) (w : World) → History ssl path start log w
      → (args : RevokeArgs) (e : RevocationEntry) → list_path args ≡ path
      → revocation_of ssl args w ≡ ok e
      → Room path (apply (revocation e) (replay log db)) w
      → ((run_revoke ssl args w).0 ≡ ok tt)
        × ((now : RevocationDb) × (load_revocation_db path (run_revoke ssl args w).1 ≡ ok now)
            × (has_serial e.serial_hex now.entries ≡ true))
  unfolding replay
  History-revokes laws path start db l log w h args e at_ made room =
      let before = History-Loads ssl laws path start db l log w h in
      let done =
        revoke-succeeds laws args w (replay log db) e
          (subst (λ p. Loads p w (replay log db)) (sym at_) before) made
          (subst (λ p. Room p (apply (revocation e) (replay log db)) w) (sym at_) room) in
      let reported =
        revoke-reported args w (replay log db) e made
          (subst (λ p. load_revocation_db p w ≡ ok (replay log db)) (sym at_) before.loaded)
          (subst (λ p. Room p (apply (revocation e) (replay log db)) w) (sym at_) room) in
      let after =
        History-Loads ssl laws path start db l (revocation e ∷ log) _ (
          revokes h args e at_ made done (subst (λ p. RevokeReported ssl p args w) at_ reported)) in
      (done, (_, after.loaded, has_serial-applied e (replay log db)))
