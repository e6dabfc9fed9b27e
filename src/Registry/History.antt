-- ===== src/Registry/History.antt =====
-- Histories of the list of ca/revocation_db.cpp: runs of ca/revoke.cpp and ca/crl_issue.cpp, that succeed
-- or fail, and what else happens to the machine between them.
use tee_anchor.Prelude.{some, ◌≡◌, ◌≢◌, true, false, List, [], ◌∷◌, Bytes, is_empty, ok}
use tee_anchor.OpenSsl.{OpenSsl}
use tee_anchor.World.{World}
use tee_anchor.World.Writes.{Reported}
use tee_anchor.RevocationDb.{RevocationEntry, RevocationDb, tmp_path, print_db}
use tee_anchor.RevocationDb.Words.{no_blank}
use tee_anchor.Revoke.{RevokeArgs, revocation_of, plan_revoke, run_revoke}
use tee_anchor.Revoke.Keeps
use tee_anchor.CrlIssue.{CrlIssueArgs, plan_crl, run_crl_issue}
use tee_anchor.CrlIssue.Numbers
use tee_anchor.Registry.{Event, revocation, publication}

-- The machine that the list needs: its file can be opened for reading, and the clock's text is a word.
pub record Host (path : Bytes) (w : World) : Type 0 where
  pub readable : (w.medium path).readable ≡ true
  pub stamped : is_empty w.now ≡ false
  pub stamp : no_blank w.now ≡ true

module _ (ssl : OpenSsl) (path : Bytes) where
  -- The list that `revoke` saves, if it does, is not cut off in silence.
  abbrev pub RevokeReported : RevokeArgs → World → Type 0
  RevokeReported args w =
      (db : RevocationDb)
      → plan_revoke ssl args w ≡ ok (some db)
      → Reported (tmp_path path) (print_db db) w

  -- The list that `crl-issue` saves is not cut off in silence.
  abbrev pub PublishReported : CrlIssueArgs → World → Type 0
  PublishReported args w =
      (pem : Bytes) (db : RevocationDb)
      → plan_crl ssl args w ≡ ok (pem, db)
      → Reported (tmp_path path) (print_db db) w

module _ (ssl : OpenSsl) (path : Bytes) (start : World) where
  -- What has happened since `start`: the events of the commands that succeeded, the latest first, and
  -- the machine as it is now.
  pub data History : List Event → World → Type 0 where
    begins : History [] start
    revokes :
        {log : List Event} {w : World}
        → History log w
        → (args : RevokeArgs) (e : RevocationEntry) → Keeps.list_path args ≡ path
        → revocation_of ssl args w ≡ ok e
        → (run_revoke ssl args w).0 ≡ ok tt
        → RevokeReported ssl path args w
        → History (revocation e ∷ log) (run_revoke ssl args w).1
    revoke_fails :
        {log : List Event} {w : World}
        → History log w
        → (args : RevokeArgs) → Keeps.list_path args ≡ path
        → (run_revoke ssl args w).0 ≢ ok tt
        → History log (run_revoke ssl args w).1
    publishes :
        {log : List Event} {w : World}
        → History log w
        → (args : CrlIssueArgs) → Numbers.list_path args ≡ path
        → args.out_path ≢ path
        → (run_crl_issue ssl args w).0 ≡ ok tt
        → PublishReported ssl path args w
        → History (publication ∷ log) (run_crl_issue ssl args w).1
    publish_fails :
        {log : List Event} {w : World}
        → History log w
        → (args : CrlIssueArgs) → Numbers.list_path args ≡ path
        → args.out_path ≢ path
        → (run_crl_issue ssl args w).0 ≢ ok tt
        → History log (run_crl_issue ssl args w).1
    -- time passes, disks fill up, other commands run: the file of the list stays as it is, and readable
    goes_on :
        {log : List Event} {w : World}
        → History log w
        → (v : World) → v.files path ≡ w.files path
        → Host path v
        → History log v
