-- ===== src/RevocationDb/Ends.antt =====
-- ca/revocation_db.cpp: its results are never out of fuel.
use tee_anchor.Prelude.{List, [], ◌∷◌, Bytes, Bool, false}
use tee_anchor.Prelude.Endings.{
  Stops, Stops-ok, Stops-throw, Stops-if, Stops-bind, Stops-option, stops_rules,
}
use tee_anchor.World.{World}
use tee_anchor.World.Ends.{Stops-if_io}
use tee_anchor.RevocationDb.{
  RevocationDb, number_after_sign, extract_number, parse_entry, parse_line, parse_lines, parse_db,
  load_revocation_db, save_revocation_db,
}

number_after_sign-Stops : (negative : Bool) (s : Bytes) → Stops (number_after_sign negative s)
unfolding number_after_sign
number_after_sign-Stops negative s = search stops_rules

extract_number-Stops : (s : Bytes) → Stops (extract_number s)
unfolding extract_number
extract_number-Stops [] = number_after_sign-Stops false []
extract_number-Stops (c ∷ s) = search (stops_rules, number_after_sign-Stops)

parse_entry-Stops : (s : Bytes) → Stops (parse_entry s)
unfolding parse_entry
parse_entry-Stops s = search stops_rules

parse_line-Stops : (db : RevocationDb) (s : Bytes) → Stops (parse_line db s)
unfolding parse_line
parse_line-Stops db s = search (stops_rules, extract_number-Stops, parse_entry-Stops)

parse_lines-Stops : (db : RevocationDb) (ls : List Bytes) → Stops (parse_lines db ls)
unfolding parse_lines
parse_lines-Stops db [] = Stops-ok db
parse_lines-Stops db (line ∷ rest) =
    Stops-bind _ _ (parse_line-Stops db _) (λ db'. parse_lines-Stops db' rest)

pub load_revocation_db-Stops : (path : Bytes) (w : World) → Stops (load_revocation_db path w)
unfolding load_revocation_db parse_db
load_revocation_db-Stops path w =
    Stops-if _ _ _ (Stops-option (w.files path) _ _ (Stops-ok _) (λ f. parse_lines-Stops _ _))
      (Stops-ok _)

pub save_revocation_db-Stops :
    (path : Bytes) (db : RevocationDb) (w : World) → Stops (save_revocation_db path db w).0
unfolding save_revocation_db
save_revocation_db-Stops path db w =
    Stops-if_io _ _ _
      (Stops-if_io _ _ _ (Stops-throw _) (Stops-if_io _ _ _ (Stops-ok tt) (Stops-throw _)))
      (Stops-throw _)
