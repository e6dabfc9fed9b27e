-- ===== src/RevocationDb/Text.antt =====
-- The text processing of ca/revocation_db.cpp that the standard library does for it: lines, words,
-- prefixes, lower case, decimal numbers and the directory of a path.
use tee_anchor.Prelude.{
  ℕ, zero, suc, ◌+◌, ◌/◌, ◌%◌, Bool, true, false, ◌&&◌, Option, none, some, List, [], ◌∷◌, ◌++◌,
  ltb, leb, ◌==◌, if◌then◌else◌, Bytes, is_empty,
}
use tee_anchor.Cli.{is_c_space}
use tee_anchor.Pki.Trim.{drop_front}

-- A character before the first line.
unfoldable pub push_char : ℕ → List Bytes → List Bytes
push_char c [] = (c ∷ []) ∷ []
push_char c (l ∷ ls) = (c ∷ l) ∷ ls

-- `while (std::getline(f, line))`
unfoldable pub lines : Bytes → List Bytes
unfolding push_char
lines [] = []
lines (c ∷ s) = let rest = lines s in if c == 10 then [] ∷ rest else push_char c rest

-- The characters up to the first blank, and what follows them.
unfoldable pub span_word : Bytes → Bytes × Bytes
span_word [] = ([], [])
span_word (c ∷ s) =
    let rest = span_word s in if is_c_space c then ([], c ∷ s) else (c ∷ rest.0, rest.1)

-- `iss >> word`
unfoldable pub read_word : Bytes → Bytes × Bytes
unfolding drop_front span_word
read_word s = span_word (drop_front is_c_space s)

-- `s.rfind(prefix, 0) == 0`
unfoldable pub starts_with : Bytes → Bytes → Bool
starts_with [] s = true
starts_with (p ∷ ps) [] = false
starts_with (p ∷ ps) (c ∷ s) = p == c && starts_with ps s

-- `std::tolower` on every character
unfoldable pub lower_char : ℕ → ℕ
lower_char c = if leb b'A' c && leb c b'Z' then c + 32 else c

unfoldable pub to_lower : Bytes → Bytes
unfolding lower_char
to_lower [] = []
to_lower (c ∷ s) = lower_char c ∷ to_lower s

-- `f << n`. A `uint64_t` has at most 20 digits.
unfoldable pub decimal_loop : ℕ → ℕ → Bytes
decimal_loop zero n = []
decimal_loop (suc f) n =
    let front = decimal_loop f (n / 10) in
    if ltb n 10 then (b'0' + n) ∷ [] else front ++ ((b'0' + n % 10) ∷ [])

unfoldable pub decimal : ℕ → Bytes
unfolding decimal_loop
decimal n = decimal_loop 20 n

-- What stands before the last slash: nothing if there is no slash, and the slashes before the name
-- are dropped, unless nothing else is left.
unfoldable pub before_slash : Bytes → Option Bytes
before_slash [] = none
before_slash (c ∷ s) = elim (before_slash s) [
  | some front ↦ some (c ∷ front)
  | none ↦ if c == b'/' then some [] else none
]

unfoldable pub drop_slashes : Bytes → Bytes
drop_slashes [] = []
drop_slashes (c ∷ s) =
    let rest = drop_slashes s in if is_empty rest && c == b'/' then [] else c ∷ rest

-- `std::filesystem::path::parent_path`
unfoldable pub parent_path : Bytes → Bytes
unfolding before_slash drop_slashes
parent_path path = elim (before_slash path) [
  | none ↦ []
  | some front ↦ (let dir = drop_slashes front in if is_empty dir then b'/' ∷ [] else dir)
]
