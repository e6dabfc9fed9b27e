-- ===== src/RevocationDb.antt =====
-- ca/revocation_db.cpp: the list of revoked serial numbers, kept as text.
pub mod Ends
pub mod Text
pub mod Words
pub mod RoundTrip
pub mod Saves
use tee_anchor.Prelude.{
  ℕ, zero, suc, ◌+◌, ◌-◌, ◌*◌, ◌/◌, ◌%◌, ◌^◌, ◌≡◌, Bool, true, false, ◌&&◌, ◌||◌, Option, none,
  some, List, [], ◌∷◌, ◌++◌, ltb, leb, ◌==◌, if◌then◌else◌, Bytes, bytes_eq, is_empty, codes,
  String, Result, ok, err, throw, throw_if, ◌>>=◌, ◌>>◌,
}
use tee_anchor.Cli.{is_c_space, is_digit, digits_from, starts_digit}
use tee_anchor.Pki.Trim.{trim, drop_front, is_line_space}
use tee_anchor.World.{File, World, Io, put_file, spill, stream_failed}
use Text.{lines, read_word, starts_with, to_lower, decimal, parent_path}

pub record RevocationEntry : Type 0 where
  pub serial_hex : Bytes
  pub revocation_date : Bytes
  pub reason : Bytes

pub record RevocationDb : Type 0 where
  pub crl_number : ℕ
  pub entries : List RevocationEntry

abbrev pub empty_db : RevocationDb
empty_db = record { crl_number = 0; entries = [] }

unfoldable pub default_db_path : Bytes → Bytes
default_db_path ca_cert_path =
    let parent = parent_path ca_cert_path in
    let dir = if is_empty parent then codes "." else parent in
    if bytes_eq dir (codes "/") then codes "/revocations.txt" else dir ++ codes "/revocations.txt"

-- What `iss >> n` leaves in a `uint64_t` that is 0, and whether `!iss && !iss.eof()` holds: a number
-- that is too large sets the largest value and fails, a missing one leaves 0 and fails.
unfoldable pub number_after_sign : Bool → Bytes → Result ℕ
number_after_sign negative s =
    let n = digits_from 0 s in
    let at_end = is_empty (drop_front is_digit s) in
    if starts_digit s
    then (if ltb n (2 ^ 64)
        then ok (if negative then (2 ^ 64 - n) % 2 ^ 64 else n)
        else if at_end
        then ok (2 ^ 64 - 1)
        else throw "invalid 'crl-number' line")
    else if at_end
    then ok 0
    else throw "invalid 'crl-number' line"

unfoldable pub extract_number : Bytes → Result ℕ
extract_number [] = number_after_sign false []
extract_number (c ∷ s) =
    if c == b'-'
    then number_after_sign true s
    else if c == b'+'
    then number_after_sign false s
    else number_after_sign false (c ∷ s)

-- A line `<serial> <date> [<reason>]`.
unfoldable pub parse_entry : Bytes → Result RevocationEntry
parse_entry s = do
  let (serial, rest₁) = read_word s
  let (date, rest₂) = read_word rest₁
  throw_if (is_empty serial || is_empty date) "expected '<serial> <date> [<reason>]'"
  ok (record {
    serial_hex = to_lower serial;
    revocation_date = date;
    reason = trim is_line_space rest₂;
  })

-- The body of the loop, on a line that is trimmed.
unfoldable pub parse_line : RevocationDb → Bytes → Result RevocationDb
parse_line db s =
    if is_empty s || starts_with (codes "#") s
    then ok db
    else if starts_with (codes "crl-number") s
    then (do
      n ← extract_number (drop_front is_c_space (read_word s).1)
      ok (record db { crl_number = n }))
    else (do e ← parse_entry s; ok (record db { entries = db.entries ++ (e ∷ []) }))

unfoldable pub parse_lines : RevocationDb → List Bytes → Result RevocationDb
parse_lines db [] = ok db
parse_lines db (line ∷ rest) = do
  db' ← parse_line db (trim is_line_space line)
  parse_lines db' rest

unfoldable pub parse_db : Bytes → Result RevocationDb
parse_db text = parse_lines empty_db (lines text)

-- A file that cannot be opened, for whatever reason, is an empty list.
unfoldable pub load_revocation_db : Bytes → World → Result RevocationDb
load_revocation_db path w =
    if (w.medium path).readable
    then elim (w.files path) [ none ↦ ok empty_db | some f ↦ parse_db f.content ]
    else ok empty_db

unfoldable pub print_entry : RevocationEntry → Bytes
print_entry e =
    e.serial_hex
    ++ (b' '
        ∷ (e.revocation_date
            ++ (if is_empty e.reason then 10 ∷ [] else b' ' ∷ (e.reason ++ (10 ∷ [])))))

unfoldable pub print_entries : List RevocationEntry → Bytes
print_entries [] = []
print_entries (e ∷ es) = print_entry e ++ print_entries es

abbrev pub title_line : Bytes
title_line = codes "# TEE Anchor revocation database (v1)"

abbrev pub format_line : Bytes
format_line = codes "# format: <serial-hex> <YYYYMMDDHHMMSSZ> [<reason>]"

unfoldable pub print_db : RevocationDb → Bytes
print_db db =
    title_line
    ++ (10
        ∷ (format_line
            ++ (10
                ∷ (codes "crl-number "
                    ++ (decimal db.crl_number ++ (10 ∷ print_entries db.entries))))))

abbrev pub tmp_path : Bytes → Bytes
tmp_path path = path ++ codes ".tmp"

-- `std::rename`
unfoldable pub rename_file : Bytes → Bytes → World → World
rename_file source target w = record w {
  files = λ q.
      if bytes_eq q target then w.files source else if bytes_eq q source then none else w.files q;
}

unfoldable pub save_revocation_db : Bytes → RevocationDb → Io (Unit {0})
save_revocation_db path db w =
    let tmp = tmp_path path in
    let text = print_db db in
    if (w.medium tmp).writable
    then (let w' = spill tmp text w in
        if stream_failed tmp text w
        then (throw "write failed", w')
        else if w.can_rename tmp path
        then (ok tt, rename_file tmp path w')
        else (throw "rename failed", w'))
    else (throw "cannot open for writing", w)
