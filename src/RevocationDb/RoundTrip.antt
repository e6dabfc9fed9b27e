-- ===== src/RevocationDb/RoundTrip.antt =====
-- The text that ca/revocation_db.cpp prints, parsed again.
use tee_anchor.Prelude.{
  ℕ, ◌^◌, ◌<◌, ◌≡◌, refl, ap, ◌∙◌, true, false, List, [], ◌∷◌, ◌++◌, append_assoc, append-nil,
  Bytes, is_empty, codes, All, ok, arith,
}
use tee_anchor.Cli.{is_c_space, is_digit, digits_from, starts_digit}
use tee_anchor.Pki.Trim.{trim, drop_front, drop_back, is_line_space}
use tee_anchor.RevocationDb.{
  RevocationEntry, RevocationDb, empty_db, parse_entry, parse_line, parse_lines, parse_db,
  print_entry, print_entries, print_db, extract_number, number_after_sign, title_line, format_line,
}
use tee_anchor.RevocationDb.Text.{lines, starts_with, decimal}
use tee_anchor.RevocationDb.Words.{
  no_blank, is_hex, all_digits, read_word-blank, read_word-all, read_word-skip, trim-blank,
  is_empty-decimal, to_lower-hex, hex-no_blank, hex-not_comment, hex-not_number, trim-words,
  lines-one_line, one_line, one_line-append, one_line-blank, all_digits-decimal,
  digits_from-decimal, no_blank-digits, drop_front-digits, drop_front-blanks,
}

-- An entry as `revoke` makes it: a serial number in lower-case hexadecimal digits, a date and a reason
-- without blanks, of which the reason may be empty.
pub record IsEntry (e : RevocationEntry) : Type 0 where
  pub serial_some : is_empty e.serial_hex ≡ false
  pub serial_hex : is_hex e.serial_hex ≡ true
  pub date_some : is_empty e.revocation_date ≡ false
  pub date_word : no_blank e.revocation_date ≡ true
  pub reason_word : no_blank e.reason ≡ true

pub record IsDb (db : RevocationDb) : Type 0 where
  pub number : db.crl_number < 2 ^ 64
  pub entries : All IsEntry db.entries

-- The reason, with the blank before it.
unfoldable reason_part : Bytes → Bytes
reason_part [] = []
reason_part (c ∷ r) = 32 ∷ c ∷ r

-- The line of an entry, without its end.
unfoldable entry_line : Bytes → Bytes → Bytes → Bytes
entry_line s d r = s ++ (32 ∷ (d ++ reason_part r))

print_entry-line :
    (s d r u : Bytes)
    → print_entry (record { serial_hex = s; revocation_date = d; reason = r }) ++ u
      ≡ entry_line s d r ++ (10 ∷ u)
unfolding print_entry entry_line reason_part
print_entry-line s d [] u = simp append_assoc
print_entry-line s d (c ∷ r) u = simp append_assoc

one_line-entry :
    (s d r : Bytes)
    → no_blank s ≡ true
    → no_blank d ≡ true
    → no_blank r ≡ true
    → one_line (entry_line s d r) ≡ true
unfolding entry_line reason_part one_line
one_line-entry s d r hs hd hr =
    one_line-append s (32 ∷ (d ++ reason_part r)) hs
      (one_line-blank (d ++ reason_part r) (one_line-append d (reason_part r) hd (part r hr)))
  where
    part : (r : Bytes) → no_blank r ≡ true → one_line (reason_part r) ≡ true
    part [] h = refl
    part (c ∷ r) h = one_line-blank (c ∷ r) (rw append-nil at (one_line-append (c ∷ r) [] h refl))

parse_entry-line :
    (s d r : Bytes)
    → is_empty s ≡ false
    → is_hex s ≡ true
    → is_empty d ≡ false
    → no_blank d ≡ true
    → no_blank r ≡ true
    → parse_entry (entry_line s d r)
      ≡ ok (record { serial_hex = s; revocation_date = d; reason = r })
unfolding entry_line reason_part parse_entry is_c_space trim drop_front drop_back
parse_entry-line s d [] h₁ h₂ h₃ h₄ h₅ =
    rw
      (
        append-nil,
        read_word-blank s 32 d h₁ (hex-no_blank s h₂) refl,
        read_word-skip 32 d refl,
        read_word-all d h₃ h₄,
        h₁,
        h₃,
        to_lower-hex s h₂,
      )
      refl
parse_entry-line s d (c ∷ r) h₁ h₂ h₃ h₄ h₅ =
    rw
      (
        read_word-blank s 32 (d ++ (32 ∷ c ∷ r)) h₁ (hex-no_blank s h₂) refl,
        read_word-skip 32 (d ++ (32 ∷ c ∷ r)) refl,
        read_word-blank d 32 (c ∷ r) h₃ h₄ refl,
        h₁,
        h₃,
        to_lower-hex s h₂,
        trim-blank (c ∷ r) h₅,
      )
      refl

trim-entry_line :
    (s d r : Bytes)
    → is_empty s ≡ false
    → no_blank s ≡ true
    → is_empty d ≡ false
    → no_blank d ≡ true
    → no_blank r ≡ true
    → trim is_line_space (entry_line s d r) ≡ entry_line s d r
unfolding entry_line reason_part
trim-entry_line s d [] h₁ h₂ h₃ h₄ h₅ = rw append-nil (trim-words s (32 ∷ []) d h₁ h₂ h₃ h₄)
trim-entry_line s d (c ∷ r) h₁ h₂ h₃ h₄ h₅ =
    rw (append_assoc d (32 ∷ []) (c ∷ r)) at
      (trim-words s (32 ∷ (d ++ (32 ∷ []))) (c ∷ r) h₁ h₂ refl h₅)

parse_line-entry :
    (db : RevocationDb) (e : RevocationEntry)
    → IsEntry e
    → parse_line db (entry_line e.serial_hex e.revocation_date e.reason)
      ≡ ok (record db { entries = db.entries ++ (e ∷ []) })
unfolding parse_line entry_line
parse_line-entry db e h =
    let s = e.serial_hex in
    let rest = e.revocation_date ++ reason_part e.reason in
    rw
      (
        plain s (32 ∷ rest) h.serial_some,
        hex-not_comment s (32 ∷ rest) h.serial_some h.serial_hex,
        hex-not_number s rest h.serial_some h.serial_hex,
        parse_entry-line s e.revocation_date e.reason h.serial_some h.serial_hex h.date_some
            h.date_word h.reason_word,
      )
      refl
  where
    plain : (s t : Bytes) → is_empty s ≡ false → is_empty (s ++ t) ≡ false
    plain [] t h = cc
    plain (c ∷ s) t h = refl

parse_lines-entries :
    (db : RevocationDb) (es : List RevocationEntry)
    → All IsEntry es
    → parse_lines db (lines (print_entries es)) ≡ ok (record db { entries = db.entries ++ es })
unfolding print_entries lines parse_lines
parse_lines-entries db [] h = rw append-nil refl
parse_lines-entries db (e ∷ es) (h, hs) =
    let s = e.serial_hex in
    let d = e.revocation_date in
    rw
      (
        print_entry-line s d e.reason (print_entries es),
        lines-one_line (entry_line s d e.reason) (print_entries es)
            (one_line-entry s d e.reason (hex-no_blank s h.serial_hex) h.date_word h.reason_word),
        parse_lines,
        trim-entry_line s d e.reason h.serial_some (hex-no_blank s h.serial_hex) h.date_some
            h.date_word h.reason_word,
        parse_line-entry db e h,
      )
      (parse_lines-entries (record db { entries = db.entries ++ (e ∷ []) }) es hs
        ∙ rw append_assoc refl)

extract_number-digits :
    (s : Bytes) (n : ℕ)
    → is_empty s ≡ false
    → all_digits s ≡ true
    → digits_from 0 s ≡ n
    → n < 2 ^ 64
    → extract_number s ≡ ok n
unfolding extract_number number_after_sign all_digits is_digit starts_digit
extract_number-digits [] n h₁ h₂ h₃ h₄ = cc
extract_number-digits (c ∷ s) n h₁ h₂ h₃ h₄ = ground (arith, drop_front-digits (c ∷ s) h₂)

abbrev number_line : ℕ → Bytes
number_line n = codes "crl-number" ++ (32 ∷ decimal n)

parse_line-number :
    (db : RevocationDb) (n : ℕ)
    → n < 2 ^ 64
    → parse_line db (trim is_line_space (number_line n)) ≡ ok (record db { crl_number = n })
unfolding parse_line starts_with no_blank is_c_space drop_front
parse_line-number db n h =
    let digits = all_digits-decimal n in
    rw
      (
        trim-words (codes "crl-number") (32 ∷ []) (decimal n) refl refl (is_empty-decimal n)
            (no_blank-digits (decimal n) digits),
        read_word-blank (codes "crl-number") 32 (decimal n) refl refl refl,
      )
      (rw
        (
          drop_front-blanks (decimal n) (no_blank-digits (decimal n) digits),
          extract_number-digits (decimal n) n (is_empty-decimal n) digits (digits_from-decimal n h)
              h,
        )
        refl)

-- The two comments at the top.
parse_line-comments :
    (db : RevocationDb)
    → (parse_line db (trim is_line_space title_line) ≡ ok db)
      × (parse_line db (trim is_line_space format_line) ≡ ok db)
unfolding parse_line trim drop_front drop_back is_line_space starts_with
parse_line-comments db = (refl, refl)

one_line-number : (n : ℕ) → one_line (number_line n) ≡ true
unfolding one_line
one_line-number n =
    rw append-nil at
      (one_line-append (decimal n) [] (no_blank-digits (decimal n) (all_digits-decimal n)) refl)

lines-print_db :
    (db : RevocationDb)
    → lines (print_db db)
      ≡ title_line ∷ format_line ∷ number_line db.crl_number ∷ lines (print_entries db.entries)
unfolding print_db one_line
lines-print_db db =
    let n = number_line db.crl_number in
    let es = print_entries db.entries in
    lines-one_line title_line (format_line ++ (10 ∷ (n ++ (10 ∷ es)))) refl
    ∙ ap (λ ls. title_line ∷ ls)
        (lines-one_line format_line (n ++ (10 ∷ es)) refl
          ∙ ap (λ ls. format_line ∷ ls) (lines-one_line n es (one_line-number db.crl_number)))

-- What is printed reads back, for every list of entries as `revoke` makes them and every number that
-- fits into 64 bits.
pub parse_db-print_db : (db : RevocationDb) → IsDb db → parse_db (print_db db) ≡ ok db
unfolding parse_db parse_lines
parse_db-print_db db h =
    let numbered = record empty_db { crl_number = db.crl_number } in
    rw
      (
        lines-print_db db,
        parse_lines,
        (parse_line-comments empty_db).0,
        parse_lines,
        (parse_line-comments empty_db).1,
        parse_lines,
        parse_line-number empty_db db.crl_number h.number,
      )
      (parse_lines-entries numbered db.entries h.entries)
