-- ===== src/Registry/Refines.antt =====
-- The list of ca/revoke.cpp and ca/crl_issue.cpp after a history of the two commands.
use tee_anchor.Prelude.{
  ◌+◌, ◌%◌, ◌^◌, ◌≡◌, ◌≢◌, refl, ap, sym, subst, ◌∙◌, true, false, List, [], ◌∷◌, ◌++◌, Bytes,
  is_empty, ok, Bool-cases, inl, inr, arith, ok_injective, bytes_eq, bytes_eq_iff,
}
use tee_anchor.OpenSsl.{OpenSsl}
use tee_anchor.World.{World}
use tee_anchor.World.Writes.{Reported-SameHost, SameHost, write_file-SameHost}
use tee_anchor.RevocationDb.{RevocationEntry, RevocationDb, load_revocation_db, tmp_path, print_db}
use tee_anchor.RevocationDb.Words.{no_blank}
use tee_anchor.RevocationDb.RoundTrip.{IsDb}
use tee_anchor.RevocationDb.Saves.{load-save_revocation_db-reported, load_revocation_db-same}
use tee_anchor.Revoke.{RevokeArgs, has_serial, revocation_of, run_revoke}
use tee_anchor.Revoke.Entry.{HexLaws, revocation_of-IsEntry}
use tee_anchor.Revoke.Keeps
use tee_anchor.Revoke.Keeps.{
  run_revoke-there, run_revoke-new, plan_revoke-loaded, add_entry-there, add_entry-new, All-snoc,
  run_revoke-error, run_revoke-SameHost,
}
use tee_anchor.CrlIssue.{CrlIssueArgs, run_crl_issue}
use tee_anchor.CrlIssue.Publishes.{plan_crl-Published}
use tee_anchor.CrlIssue.Numbers
use tee_anchor.CrlIssue.Numbers.{run_crl_issue-done, run_crl_issue-error, run_crl_issue-SameHost}
use tee_anchor.Registry.{Event, revocation, publication, apply, replay, Distinct}
use tee_anchor.Registry.History.{
  Host, RevokeReported, PublishReported, History, begins, revokes, revoke_fails, publishes,
  publish_fails, goes_on,
}

-- A machine on which the list is this one.
pub record Loads (path : Bytes) (w : World) (db : RevocationDb) : Type 0 where
  pub host : Host path w
  pub loaded : load_revocation_db path w ≡ ok db
  pub good : IsDb db
  pub distinct : Distinct db.entries

Host-SameHost : (path : Bytes) (v w : World) → SameHost v w → Host path w → Host path v
Host-SameHost path v w same h = record {
  readable = ap (λ m. (m path).readable) same.medium ∙ h.readable;
  stamped = ap is_empty same.now ∙ h.stamped;
  stamp = ap no_blank same.now ∙ h.stamp;
}

-- What leaves the file alone leaves the list alone.
Loads-same :
    (path : Bytes) (v w : World) (db : RevocationDb)
    → v.files path ≡ w.files path
    → Host path v
    → Loads path w db
    → Loads path v db
Loads-same path v w db files host l = record {
  host = host;
  loaded = load_revocation_db-same path v w files (host.readable ∙ sym l.host.readable) ∙ l.loaded;
  good = l.good;
  distinct = l.distinct;
}

has_serial-snoc :
    (s : Bytes) (es : List RevocationEntry) (e : RevocationEntry)
    → has_serial s es ≡ false
    → bytes_eq e.serial_hex s ≡ false
    → has_serial s (es ++ (e ∷ [])) ≡ false
unfolding has_serial
has_serial-snoc s [] e h h' = rw h' refl
has_serial-snoc s (x ∷ es) e h h' = ground (arith, has_serial-snoc s es e)

has_serial-head :
    (s : Bytes) (x : RevocationEntry) (es : List RevocationEntry)
    → has_serial s (x ∷ es) ≡ false
    → (bytes_eq x.serial_hex s ≡ false) × (has_serial s es ≡ false)
unfolding has_serial
has_serial-head s x es h = ground arith

pub bytes_eq-swap : (a b : Bytes) → bytes_eq a b ≡ false → bytes_eq b a ≡ false
bytes_eq-swap a b h = ground (arith, bytes_eq_iff a b, bytes_eq_iff b a)

Distinct-snoc :
    (es : List RevocationEntry) (e : RevocationEntry)
    → Distinct es
    → has_serial e.serial_hex es ≡ false
    → Distinct (es ++ (e ∷ []))
unfolding has_serial
Distinct-snoc [] e d h = (refl, tt)
Distinct-snoc (x ∷ es) e (first, rest) h =
    let (other, new) = has_serial-head e.serial_hex x es h in
    (
      has_serial-snoc x.serial_hex es e first (bytes_eq-swap x.serial_hex e.serial_hex other),
      Distinct-snoc es e rest new,
    )

pub apply-there :
    (e : RevocationEntry) (db : RevocationDb)
    → has_serial e.serial_hex db.entries ≡ true
    → apply (revocation e) db ≡ db
unfolding apply
apply-there e db h = rw h refl

pub apply-new :
    (e : RevocationEntry) (db : RevocationDb)
    → has_serial e.serial_hex db.entries ≡ false
    → apply (revocation e) db ≡ record db { entries = db.entries ++ (e ∷ []) }
unfolding apply
apply-new e db h = rw h refl

module _ (ssl : OpenSsl) where
  revoke-Loads :
      HexLaws ssl
      → (args : RevokeArgs) (w : World) (e : RevocationEntry) (db : RevocationDb)
      → revocation_of ssl args w ≡ ok e
      → (run_revoke ssl args w).0 ≡ ok tt
      → RevokeReported ssl (Keeps.list_path args) args w
      → Loads (Keeps.list_path args) w db
      → Loads (Keeps.list_path args) (run_revoke ssl args w).1 (apply (revocation e) db)
  revoke-Loads laws args w e db made done whole l =
      let planned = plan_revoke-loaded ssl args w e db made l.loaded in
      elim (Bool-cases (has_serial e.serial_hex db.entries)) [
        | inl old ↦
            let eq = run_revoke-there ssl args w (planned ∙ ap ok (add_entry-there ssl e db old)) in
            subst (λ (w' : World). Loads (Keeps.list_path args) w' (apply (revocation e) db))
              (sym (ap (λ r. r.1) eq))
              (subst (λ d. Loads (Keeps.list_path args) w d) (sym (apply-there e db old)) l)
        | inr new ↦
            let db' = record db { entries = db.entries ++ (e ∷ []) } in
            let entry = revocation_of-IsEntry ssl laws args w e l.host.stamped l.host.stamp made in
            let good : IsDb db' = record {
              number = l.good.number;
              entries = All-snoc db.entries e l.good.entries entry;
            } in
            let adds = planned ∙ ap ok (add_entry-new ssl e db new) in
            let eq = run_revoke-new ssl args w db' adds in
            subst (λ d. Loads (Keeps.list_path args) (run_revoke ssl args w).1 d)
              (sym (apply-new e db new))
              (record {
                host =
                    Host-SameHost (Keeps.list_path args) _ w (run_revoke-SameHost ssl args w)
                      l.host;
                loaded =
                    ap (λ r. load_revocation_db (Keeps.list_path args) r.1) eq
                    ∙ load-save_revocation_db-reported (Keeps.list_path args) db' w good
                        l.host.readable (whole db' adds) (sym (ap (λ r. r.0) eq) ∙ done);
                good = good;
                distinct = Distinct-snoc db.entries e l.distinct new;
              })
      ]

  publish-Loads :
      (args : CrlIssueArgs) (w : World) (db : RevocationDb)
      → (run_crl_issue ssl args w).0 ≡ ok tt
      → PublishReported ssl (Numbers.list_path args) args w
      → Loads (Numbers.list_path args) w db
      → Loads (Numbers.list_path args) (run_crl_issue ssl args w).1 (apply publication db)
  unfolding apply
  publish-Loads args w db done whole l =
      let (pem, db', planned, written, eq) = run_crl_issue-done ssl args w done in
      let p = plan_crl-Published ssl args w pem db' planned in
      let same = ok_injective (sym p.loaded ∙ l.loaded) in
      let next : db' ≡ apply publication db =
        p.numbered
        ∙ ap
            (λ (d : RevocationDb). record {
              crl_number = (d.crl_number + 1) % 2 ^ 64;
              entries = d.entries;
            })
            same in
      let good : IsDb (apply publication db) = record {
        number = omega arith;
        entries = l.good.entries;
      } in
      let host = write_file-SameHost args.out_path pem 0x1A4 w in
      let after = Host-SameHost (Numbers.list_path args) _ w host l.host in
      record {
        host =
            Host-SameHost (Numbers.list_path args) _ w (run_crl_issue-SameHost ssl args w) l.host;
        loaded =
            ap (λ r. load_revocation_db (Numbers.list_path args) r.1) eq
            ∙ load-save_revocation_db-reported (Numbers.list_path args) db' _
                (subst IsDb (sym next) good) after.readable
                (Reported-SameHost (tmp_path (Numbers.list_path args)) (print_db db') _ w host
                  (whole pem db' planned))
                (sym (ap (λ r. r.0) eq) ∙ done)
            ∙ ap ok next;
        good = good;
        distinct = l.distinct;
      }

  -- The list is its log. A history starts with a well-formed list without a serial number twice, and
  -- consists of runs of the two commands on it, of which any may fail, with anything in between that
  -- leaves the file of the list as it is and readable, and the clock's text a word. Where no save that
  -- reports success was cut off in silence, and the CRLs have files of their own, the list that is
  -- loaded after it is the events of the commands that succeeded, replayed on the list of the start:
  -- well-formed again, and without a serial number twice. Of OpenSSL it takes the digits of `HexLaws`.
  pub History-Loads :
      HexLaws ssl
      → (path : Bytes) (start : World) (db : RevocationDb) → Loads path start db
      → (log : List Event) (w : World) → History ssl path start log w
      → Loads path w (replay log db)
  unfolding replay
  History-Loads laws path start db l log w begins = l
  History-Loads laws path start db l log w
        (revokes {log = old} {w = v} h args e at_ made done whole) =
      subst
        (λ p.
          RevokeReported ssl p args v
          → Loads p v (replay old db)
          → Loads p (run_revoke ssl args v).1 (replay log db))
        at_ (revoke-Loads laws args v e (replay old db) made done) whole
        (History-Loads laws path start db l old v h)
  History-Loads laws path start db l log w (revoke_fails {w = v} h args at_ failed) =
      let before = History-Loads laws path start db l log v h in
      Loads-same path _ v _
        (subst (λ p. (run_revoke ssl args v).1.files p ≡ v.files p) at_
          (run_revoke-error ssl args v failed))
        (Host-SameHost path _ v (run_revoke-SameHost ssl args v) before.host) before
  History-Loads laws path start db l log w
        (publishes {log = old} {w = v} h args at_ apart done whole) =
      subst
        (λ p.
          PublishReported ssl p args v
          → Loads p v (replay old db)
          → Loads p (run_crl_issue ssl args v).1 (replay log db))
        at_ (publish-Loads args v (replay old db) done) whole
        (History-Loads laws path start db l old v h)
  History-Loads laws path start db l log w (publish_fails {w = v} h args at_ apart failed) =
      let before = History-Loads laws path start db l log v h in
      Loads-same path _ v _
        (subst (λ p. args.out_path ≢ p → (run_crl_issue ssl args v).1.files p ≡ v.files p) at_
          (λ ne. run_crl_issue-error ssl args v ne failed) apart)
        (Host-SameHost path _ v (run_crl_issue-SameHost ssl args v) before.host) before
  History-Loads laws path start db l log w (goes_on {w = v} h v' same host) =
      Loads-same path w v _ same host (History-Loads laws path start db l log v h)
