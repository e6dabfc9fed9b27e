-- ===== src/RevocationDb/Words.antt =====
-- How the text processing of ca/revocation_db.cpp treats words, hexadecimal serial numbers and decimal
-- numbers.
use tee_anchor.Prelude.{
  ℕ, zero, suc, ◌+◌, ◌-◌, ◌*◌, ◌/◌, ◌%◌, ◌^◌, ◌<◌, ◌≡◌, refl, ap, ◌∙◌, Bool, true, false, ◌&&◌,
  ◌||◌, [], ◌∷◌, ◌++◌, append_assoc, append-nil, ltb, leb, ◌==◌, if◌then◌else◌, Bytes, is_empty,
  codes, arith, Bool-cases, inl, inr,
}
use tee_anchor.Cli.{is_c_space, is_digit, digits_from}
use tee_anchor.Pki.Trim.{trim, drop_front, drop_back, is_line_space}
use tee_anchor.RevocationDb.Text.{
  lines, push_char, span_word, read_word, starts_with, lower_char, to_lower, decimal, decimal_loop,
}

-- A text without blanks.
unfoldable pub no_blank : Bytes → Bool
no_blank [] = true
no_blank (c ∷ s) = (if is_c_space c then false else true) && no_blank s

-- A text of lower-case hexadecimal digits.
unfoldable pub is_hex : Bytes → Bool
is_hex [] = true
is_hex (c ∷ s) = (leb b'0' c && leb c b'9' || leb b'a' c && leb c b'f') && is_hex s

span_word-blank :
    (s : Bytes) (c : ℕ) (t : Bytes)
    → no_blank s ≡ true
    → is_c_space c ≡ true
    → span_word (s ++ (c ∷ t)) ≡ (s, c ∷ t)
unfolding span_word no_blank
span_word-blank [] c t h hc = ground arith
span_word-blank (x ∷ s) c t h hc = ground (arith, span_word-blank s c t)

span_word-all : (s : Bytes) → no_blank s ≡ true → span_word s ≡ (s, [])
unfolding span_word no_blank
span_word-all [] h = refl
span_word-all (x ∷ s) h = ground (arith, span_word-all s)

drop_front-word :
    (s t : Bytes) → is_empty s ≡ false → no_blank s ≡ true → drop_front is_c_space (s ++ t) ≡ s ++ t
unfolding drop_front no_blank
drop_front-word [] t h h' = cc
drop_front-word (c ∷ s) t h h' = ground arith

-- A word is read up to the blank that ends it.
pub read_word-blank :
    (s : Bytes) (c : ℕ) (t : Bytes)
    → is_empty s ≡ false
    → no_blank s ≡ true
    → is_c_space c ≡ true
    → read_word (s ++ (c ∷ t)) ≡ (s, c ∷ t)
unfolding read_word
read_word-blank s c t h h' hc =
    rw (drop_front-word s (c ∷ t) h h', span_word) (span_word-blank s c t h' hc)

pub read_word-all : (s : Bytes) → is_empty s ≡ false → no_blank s ≡ true → read_word s ≡ (s, [])
unfolding read_word
read_word-all s h h' =
    rw ((rw append-nil at (drop_front-word s [] h h')), span_word) (span_word-all s h')

-- A blank before the word is skipped.
pub read_word-skip : (c : ℕ) (s : Bytes) → is_c_space c ≡ true → read_word (c ∷ s) ≡ read_word s
unfolding read_word drop_front
read_word-skip c s h = ground arith

pub to_lower-hex : (s : Bytes) → is_hex s ≡ true → to_lower s ≡ s
unfolding to_lower lower_char is_hex
to_lower-hex [] h = refl
to_lower-hex (c ∷ s) h = ground (arith, to_lower-hex s)

pub hex-no_blank : (s : Bytes) → is_hex s ≡ true → no_blank s ≡ true
unfolding no_blank is_hex is_c_space
hex-no_blank [] h = refl
hex-no_blank (c ∷ s) h = ground (arith, hex-no_blank s)

pub hex-not_comment :
    (s t : Bytes) → is_empty s ≡ false → is_hex s ≡ true → starts_with (codes "#") (s ++ t) ≡ false
unfolding starts_with is_hex
hex-not_comment [] t h h' = cc
hex-not_comment (c ∷ s) t h h' = ground arith

pub hex-not_number :
    (s t : Bytes)
    → is_empty s ≡ false
    → is_hex s ≡ true
    → starts_with (codes "crl-number") (s ++ (32 ∷ t)) ≡ false
unfolding starts_with is_hex
hex-not_number [] t h h' = cc
hex-not_number (c ∷ []) t h h' = ground arith
hex-not_number (c ∷ d ∷ s) t h h' = ground arith

drop_front-line :
    (s t : Bytes)
    → is_empty s ≡ false
    → no_blank s ≡ true
    → drop_front is_line_space (s ++ t) ≡ s ++ t
unfolding drop_front no_blank is_line_space is_c_space
drop_front-line [] t h h' = cc
drop_front-line (c ∷ s) t h h' = ground arith

drop_back-word : (u : Bytes) → no_blank u ≡ true → drop_back is_line_space u ≡ u
unfolding drop_back no_blank is_line_space is_c_space
drop_back-word [] h = refl
drop_back-word (c ∷ u) h = ground (arith, drop_back-word u)

drop_back-line :
    (s u : Bytes)
    → is_empty u ≡ false
    → no_blank u ≡ true
    → drop_back is_line_space (s ++ u) ≡ s ++ u
unfolding drop_back
drop_back-line [] u h h' = drop_back-word u h'
drop_back-line (c ∷ []) [] h h' = cc
drop_back-line (c ∷ []) (x ∷ u) h h' = ground (arith, drop_back-line [] (x ∷ u) h h')
drop_back-line (c ∷ d ∷ s) u h h' = ground (arith, drop_back-line (d ∷ s) u h h')

-- A text that neither begins nor ends with a blank is not trimmed.
pub trim-words :
    (s t u : Bytes)
    → is_empty s ≡ false
    → no_blank s ≡ true
    → is_empty u ≡ false
    → no_blank u ≡ true
    → trim is_line_space (s ++ (t ++ u)) ≡ s ++ (t ++ u)
unfolding trim
trim-words s t u h₁ h₂ h₃ h₄ =
    rw (drop_front-line s (t ++ u) h₁ h₂, drop_back, ← append_assoc s t u)
      (drop_back-line (s ++ t) u h₃ h₄)

-- A text of one line.
unfoldable pub one_line : Bytes → Bool
one_line [] = true
one_line (c ∷ s) = (if c == 10 then false else true) && one_line s

pub lines-one_line : (s u : Bytes) → one_line s ≡ true → lines (s ++ (10 ∷ u)) ≡ s ∷ lines u
unfolding lines push_char one_line
lines-one_line [] u h = refl
lines-one_line (c ∷ s) u h = ground (arith, lines-one_line s u)

pub one_line-append :
    (s t : Bytes) → no_blank s ≡ true → one_line t ≡ true → one_line (s ++ t) ≡ true
unfolding one_line no_blank is_c_space
one_line-append [] t h h' = h'
one_line-append (c ∷ s) t h h' = ground (arith, one_line-append s t)

pub one_line-blank : (t : Bytes) → one_line t ≡ true → one_line (32 ∷ t) ≡ true
unfolding one_line
one_line-blank t h = ground arith

unfoldable pub all_digits : Bytes → Bool
unfolding is_digit
all_digits [] = true
all_digits (c ∷ s) = is_digit c && all_digits s

digits_from-snoc :
    (m : ℕ) (ds : Bytes) (d : ℕ)
    → all_digits ds ≡ true
    → d < 10
    → digits_from m (ds ++ ((48 + d) ∷ [])) ≡ digits_from m ds * 10 + d
unfolding digits_from all_digits is_digit
digits_from-snoc m [] d h lt = ground arith
digits_from-snoc m (c ∷ ds) d h lt = ground (arith, digits_from-snoc (m * 10 + (c - 48)) ds d)

all_digits-snoc :
    (ds : Bytes) (d : ℕ) → all_digits ds ≡ true → d < 10 → all_digits (ds ++ ((48 + d) ∷ [])) ≡ true
unfolding all_digits is_digit
all_digits-snoc [] d h lt = ground arith
all_digits-snoc (c ∷ ds) d h lt = ground (arith, all_digits-snoc ds d)

pub all_digits-decimal_loop : (f n : ℕ) → all_digits (decimal_loop f n) ≡ true
unfolding decimal_loop all_digits
all_digits-decimal_loop zero n = refl
all_digits-decimal_loop (suc f) n = elim (Bool-cases (ltb n 10)) [
  | inl small ↦ rw (small) (all_digits-snoc [] n refl (ground arith))
  | inr large ↦ rw (large) (
      all_digits-snoc (decimal_loop f (n / 10)) (n % 10) (all_digits-decimal_loop f (n / 10))
        (omega arith))
]

-- The digits of a number below 10 ^ f write that number.
pub digits_from-decimal_loop : (f n : ℕ) → n < 10 ^ f → digits_from 0 (decimal_loop f n) ≡ n
unfolding decimal_loop digits_from is_digit
digits_from-decimal_loop zero n h = omega arith
digits_from-decimal_loop (suc f) n h = elim (Bool-cases (ltb n 10)) [
  | inl small ↦ ground arith
  | inr large ↦
      let power : 10 ^ suc f ≡ 10 ^ f * 10 = omega arith in
      let below : n / 10 < 10 ^ f = omega arith in
      rw large (
        digits_from-snoc 0 (decimal_loop f (n / 10)) (n % 10) (all_digits-decimal_loop f (n / 10))
          (omega arith)
        ∙ rw (digits_from-decimal_loop f (n / 10) below) (omega arith))
]

pub no_blank-digits : (s : Bytes) → all_digits s ≡ true → no_blank s ≡ true
unfolding no_blank all_digits is_digit is_c_space
no_blank-digits [] h = refl
no_blank-digits (c ∷ s) h = ground (arith, no_blank-digits s)

pub drop_front-digits : (s : Bytes) → all_digits s ≡ true → drop_front is_digit s ≡ []
unfolding drop_front all_digits
drop_front-digits [] h = refl
drop_front-digits (c ∷ s) h = ground (arith, drop_front-digits s)

drop_front-no_blank : (s : Bytes) → no_blank s ≡ true → drop_front is_line_space s ≡ s
unfolding drop_front no_blank is_line_space is_c_space
drop_front-no_blank [] h = refl
drop_front-no_blank (c ∷ s) h = ground arith

-- The blank before a word is trimmed off.
pub trim-blank : (r : Bytes) → no_blank r ≡ true → trim is_line_space (32 ∷ r) ≡ r
unfolding trim drop_front is_line_space
trim-blank r h = ap (λ s. drop_back is_line_space s) (drop_front-no_blank r h) ∙ drop_back-word r h

pub is_empty-decimal_loop : (f n : ℕ) → is_empty (decimal_loop (suc f) n) ≡ false
unfolding decimal_loop
is_empty-decimal_loop f n = elim (Bool-cases (ltb n 10)) [
  | inl small ↦ rw small
  | inr large ↦ rw large (some_last (decimal_loop f (n / 10)))
]
  where
    some_last : (s : Bytes) → is_empty (s ++ ((48 + n % 10) ∷ [])) ≡ false
    some_last [] = refl
    some_last (c ∷ s) = refl

pub is_empty-decimal : (n : ℕ) → is_empty (decimal n) ≡ false
unfolding decimal
is_empty-decimal n = is_empty-decimal_loop 19 n

pub all_digits-decimal : (n : ℕ) → all_digits (decimal n) ≡ true
unfolding decimal
all_digits-decimal n = all_digits-decimal_loop 20 n

-- Twenty digits are enough for 64 bits.
pub digits_from-decimal : (n : ℕ) → n < 2 ^ 64 → digits_from 0 (decimal n) ≡ n
unfolding decimal
digits_from-decimal n h = digits_from-decimal_loop 20 n (omega arith)

pub drop_front-blanks : (s : Bytes) → no_blank s ≡ true → drop_front is_c_space s ≡ s
unfolding drop_front no_blank
drop_front-blanks [] h = refl
drop_front-blanks (c ∷ s) h = ground arith
