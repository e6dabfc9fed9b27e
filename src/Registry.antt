-- ===== src/Registry.antt =====
-- ca/revoke.cpp and ca/crl_issue.cpp on one list, run after run: the events, and what each of them is to
-- do to the list.
pub mod Log
pub mod History
pub mod Refines
pub mod Enforced
pub mod Crls
pub mod Live
pub mod Known
pub mod Apart
pub mod Unordered
use tee_anchor.Prelude.{
  ℕ, zero, suc, ◌+◌, ◌%◌, ◌^◌, ◌≡◌, refl, Bool, true, false, List, [], ◌∷◌, ◌++◌, Bytes,
  if◌then◌else◌,
}
use tee_anchor.RevocationDb.{RevocationEntry, RevocationDb}
use tee_anchor.Revoke.{has_serial}

-- A certificate was revoked, or a CRL was published.
pub data Event : Type 0 where
  revocation : RevocationEntry → Event
  publication : Event

-- The promise: a revocation adds its entry at the end, once, and a publication counts.
unfoldable pub apply : Event → RevocationDb → RevocationDb
apply (revocation e) db =
    if has_serial e.serial_hex db.entries
    then db
    else record db { entries = db.entries ++ (e ∷ []) }
apply publication db = record db { crl_number = (db.crl_number + 1) % 2 ^ 64 }

-- A log, its latest event first, on top of a list.
unfoldable pub replay : List Event → RevocationDb → RevocationDb
unfolding apply
replay [] db = db
replay (ev ∷ log) db = apply ev (replay log db)

-- No serial number is revoked twice.
abbrev pub Distinct : List RevocationEntry → Type 0
Distinct [] = Unit
Distinct (e ∷ es) = (has_serial e.serial_hex es ≡ false) × Distinct es
