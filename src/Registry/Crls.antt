-- ===== src/Registry/Crls.antt =====
-- The CRLs that ca/crl_issue.cpp makes of one list, one after the other.
use tee_anchor.Prelude.{
  ℕ, true, ◌+◌, ◌%◌, ◌^◌, ◌≡◌, ◌≢◌, ap, sym, subst, ◌∙◌, List, ◌∷◌, ◌++◌, Bytes, ok, ok_injective,
  arith,
}
use tee_anchor.OpenSsl.{OpenSsl}
use tee_anchor.World.{World}
use tee_anchor.RevocationDb.{RevocationEntry, RevocationDb, load_revocation_db}
use tee_anchor.Revoke.Entry.{HexLaws}
use tee_anchor.CrlIssue.{CrlIssueArgs, plan_crl, run_crl_issue}
use tee_anchor.CrlIssue.Entries.{AllLists}
use tee_anchor.CrlIssue.Sorted.{Sorts, lists_serial, lists_serial-sorted, lists_serial-longer}
use tee_anchor.CrlIssue.Publishes.{plan_crl-Published}
use tee_anchor.CrlIssue.Numbers.{list_path}
use tee_anchor.Registry.{Event, publication, apply, replay}
use tee_anchor.Registry.Log.{publications, replay-keeps, replay-number}
use tee_anchor.Registry.History.{History, PublishReported, publishes}
use tee_anchor.Registry.Refines.{Loads, History-Loads}

module _ (ssl : OpenSsl) where
  -- A CRL made after some history has the number after the log's, and the log's entries.
  plan_crl-replay :
      (path : Bytes) (w : World) (db : RevocationDb)
      → Loads path w db
      → (args : CrlIssueArgs) → list_path args ≡ path
      → (pem : Bytes) (next : RevocationDb) → plan_crl ssl args w ≡ ok (pem, next)
      → next ≡ apply publication db
  unfolding apply
  plan_crl-replay path w db l args at_ pem next planned =
      let p = plan_crl-Published ssl args w pem next planned in
      let same : p.old ≡ db =
        ok_injective
          (sym p.loaded ∙ subst (λ q. load_revocation_db q w ≡ ok db) (sym at_) l.loaded) in
      p.numbered
      ∙ ap
          (λ (d : RevocationDb). record {
            crl_number = (d.crl_number + 1) % 2 ^ 64;
            entries = d.entries;
          })
          same

  -- A later CRL of the list goes beyond an earlier one, where no save in between was cut off in silence:
  -- between the two stand as many numbers as CRLs were published in between, in 64 bits; the list that
  -- the later one is made of is that of the earlier one, in its order, with what was revoked since
  -- behind it; and the later CRL, as it is signed, lists every serial number that the earlier one lists.
  pub later_crl :
      HexLaws ssl
      → Sorts ssl
      → (path : Bytes) (start : World) (db : RevocationDb) → Loads path start db
      → (log : List Event) (w : World) → History ssl path start log w
      → (args : CrlIssueArgs) → list_path args ≡ path
      → args.out_path ≢ path
      → (pem : Bytes) (earlier : RevocationDb) (planned : plan_crl ssl args w ≡ ok (pem, earlier))
      → (run_crl_issue ssl args w).0 ≡ ok tt
      → PublishReported ssl path args w
      → (log' : List Event) (w' : World) → History ssl path (run_crl_issue ssl args w).1 log' w'
      → (args' : CrlIssueArgs) → list_path args' ≡ path
      → (pem' : Bytes) (later : RevocationDb) (planned' : plan_crl ssl args' w' ≡ ok (pem', later))
      → (later.crl_number ≡ (earlier.crl_number + publications log' + 1) % 2 ^ 64)
        × ((new : List RevocationEntry) × (later.entries ≡ earlier.entries ++ new))
        × ((n : ℕ)
            → lists_serial n
                (ssl.sort_revoked (plan_crl-Published ssl args w pem earlier planned).revoked)
              ≡ true
            → lists_serial n
                (ssl.sort_revoked (plan_crl-Published ssl args' w' pem' later planned').revoked)
              ≡ true)
  unfolding apply replay
  later_crl laws sorts path start db l log w h args at_ apart pem earlier planned done whole log' w'
        h' args' at' pem' later planned' =
      let before = History-Loads ssl laws path start db l log w h in
      let e = plan_crl-replay path w _ before args at_ pem earlier planned in
      let after =
        subst (λ d. Loads path (run_crl_issue ssl args w).1 d) (sym e)
          (History-Loads ssl laws path start db l (publication ∷ log) _
            (publishes h args at_ apart done whole)) in
      let now = History-Loads ssl laws path _ earlier after log' w' h' in
      let e' = plan_crl-replay path w' _ now args' at' pem' later planned' in
      let (new, kept) = replay-keeps log' earlier in
      let longer = ap (λ (d : RevocationDb). d.entries) e' ∙ kept in
      let p = plan_crl-Published ssl args w pem earlier planned in
      let p' = plan_crl-Published ssl args' w' pem' later planned' in
      let old_entries : p'.old.entries ≡ p.old.entries ++ new =
        sym (ap (λ (d : RevocationDb). d.entries) p'.numbered)
        ∙ longer
        ∙ ap (λ (d : RevocationDb). d.entries ++ new) p.numbered in
      (
        omega (
          arith,
          ap (λ (d : RevocationDb). d.crl_number) e',
          after.good.number,
          replay-number log' earlier,
        ),
        (new, longer),
        λ n h.
            lists_serial-sorted ssl sorts n p'.revoked
            ∙ lists_serial-longer ssl n p.old.entries new p.revoked p'.revoked p.listed
                (subst (λ es. AllLists ssl es p'.revoked) old_entries p'.listed)
                (sym (lists_serial-sorted ssl sorts n p.revoked) ∙ h),
      )
