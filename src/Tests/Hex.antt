-- ===== src/Tests/Hex.antt =====
-- `BN_bn2hex` and `BN_hex2bn` of the small OpenSSL instance: upper-case digits, read in lower case.
use tee_anchor.Prelude.{
  ℕ, zero, suc, ◌+◌, ◌-◌, ◌*◌, ◌/◌, ◌%◌, ◌<◌, ◌≡◌, refl, ap, true, false, [], ◌∷◌, ◌++◌, ltb, leb,
  ltb→lt, Bool-cases, inl, inr, if◌then◌else◌, Bytes, is_empty, arith,
}
use tee_anchor.RevocationDb.Text.{lower_char, to_lower}
use tee_anchor.RevocationDb.Words.{is_hex}

abbrev pub upper_digit : ℕ → ℕ
upper_digit d = if ltb d 10 then b'0' + d else d + 55

abbrev pub digit_of : ℕ → ℕ
digit_of c = if leb b'a' c then c - 87 else c - b'0'

abbrev pub hex_loop : ℕ → ℕ → Bytes
hex_loop zero n = []
hex_loop (suc f) n =
    let front = hex_loop f (n / 16) in
    if ltb n 16 then upper_digit n ∷ [] else front ++ (upper_digit (n % 16) ∷ [])

abbrev pub hex_text : ℕ → Bytes
hex_text n = hex_loop (suc n) n

abbrev pub read_hex : ℕ → Bytes → ℕ
read_hex acc [] = acc
read_hex acc (c ∷ s) = read_hex (acc * 16 + digit_of c) s

lower_digit :
    (d : ℕ)
    → d < 16
    → (is_hex (lower_char (upper_digit d) ∷ []) ≡ true)
      × (digit_of (lower_char (upper_digit d)) ≡ d)
unfolding lower_char is_hex
lower_digit d h = (ground arith, ground arith)

to_lower-snoc : (s : Bytes) (c : ℕ) → to_lower (s ++ (c ∷ [])) ≡ to_lower s ++ (lower_char c ∷ [])
unfolding to_lower
to_lower-snoc [] c = refl
to_lower-snoc (x ∷ s) c = ap (λ t. lower_char x ∷ t) (to_lower-snoc s c)

is_hex-snoc :
    (s : Bytes) (c : ℕ) → is_hex s ≡ true → is_hex (c ∷ []) ≡ true → is_hex (s ++ (c ∷ [])) ≡ true
unfolding is_hex
is_hex-snoc [] c h k = k
is_hex-snoc (x ∷ s) c h k = ground (arith, is_hex-snoc s c)

read_hex-snoc :
    (acc : ℕ) (s : Bytes) (c : ℕ) → read_hex acc (s ++ (c ∷ [])) ≡ read_hex acc s * 16 + digit_of c
read_hex-snoc acc [] c = refl
read_hex-snoc acc (x ∷ s) c = read_hex-snoc (acc * 16 + digit_of x) s c

reads_front :
    (front : Bytes) (n : ℕ)
    → (is_hex (to_lower front) ≡ true) × (read_hex 0 (to_lower front) ≡ n / 16)
    → let s = to_lower (front ++ (upper_digit (n % 16) ∷ [])) in
      (is_hex s ≡ true) × (read_hex 0 s ≡ n)
reads_front front n (digits, value) =
    let (last, same) = lower_digit (n % 16) (omega arith) in
    rw (to_lower-snoc front (upper_digit (n % 16))) (
      is_hex-snoc (to_lower front) (lower_char (upper_digit (n % 16))) digits last,
      omega (
        arith,
        read_hex-snoc 0 (to_lower front) (lower_char (upper_digit (n % 16))),
        value,
        same,
      ),
    )

-- A number below the fuel is written with digits that read as it.
hex_loop-reads :
    (f n : ℕ)
    → n < f
    → (is_hex (to_lower (hex_loop f n)) ≡ true) × (read_hex 0 (to_lower (hex_loop f n)) ≡ n)
unfolding to_lower
hex_loop-reads zero n h = absurd (omega arith)
hex_loop-reads (suc f) n h = elim (Bool-cases (ltb n 16)) [
  | inl small ↦
      let (digits, value) = lower_digit n (ltb→lt n 16 small) in
      rw small (digits, omega (arith, value))
  | inr large ↦
      rw large (reads_front (hex_loop f (n / 16)) n (hex_loop-reads f (n / 16) (ground arith)))
]

pub hex_text-digits : (n : ℕ) → is_hex (to_lower (hex_text n)) ≡ true
hex_text-digits n = (hex_loop-reads (suc n) n (omega arith)).0

pub read_hex-hex_text : (n : ℕ) → read_hex 0 (to_lower (hex_text n)) ≡ n
read_hex-hex_text n = (hex_loop-reads (suc n) n (omega arith)).1

is_empty-snoc : (s : Bytes) (c : ℕ) → is_empty (to_lower (s ++ (c ∷ []))) ≡ false
unfolding to_lower
is_empty-snoc [] c = refl
is_empty-snoc (x ∷ s) c = refl

pub hex_text-some : (n : ℕ) → is_empty (to_lower (hex_text n)) ≡ false
unfolding to_lower
hex_text-some n = elim (Bool-cases (ltb n 16)) [
  | inl small ↦ rw small refl
  | inr large ↦ rw large (is_empty-snoc (hex_loop n (n / 16)) (upper_digit (n % 16)))
]
