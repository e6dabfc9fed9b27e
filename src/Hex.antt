-- ===== src/Hex.antt =====
-- common/hex.hpp: `to_hex_lower`.
use tee_anchor.Prelude.{
  ℕ, zero, suc, ◌+◌, ◌-◌, ◌*◌, ◌/◌, ◌%◌, ◌≡◌, refl, [], ◌∷◌, arith, leb, ◌&&◌, ◌==◌, ==_iff, Bool,
  true, ◌<◌, ◌≤◌, if◌then◌else◌, length, Bytes, IsByte, All, codes, get_or,
}

-- `d[i]`, for an index that the source keeps below 16
unfoldable pub hex_digit : ℕ → ℕ
hex_digit i = get_or (codes "0123456789abcdef") i 0

unfoldable pub to_hex_lower : Bytes → Bytes
unfolding hex_digit
to_hex_lower [] = []
to_hex_lower (b ∷ bs) = hex_digit (b / 16) ∷ hex_digit (b % 16) ∷ to_hex_lower bs

-- The reading of a digit, and of a text of digits in pairs.
unfoldable pub digit_value : ℕ → ℕ
digit_value c = if leb b'a' c then c - b'a' + 10 else c - b'0'

unfoldable pub of_hex : Bytes → Bytes
unfolding digit_value
of_hex [] = []
of_hex (h ∷ []) = []
of_hex (h ∷ l ∷ rest) = (digit_value h * 16 + digit_value l) ∷ of_hex rest

-- The test passes on `k` numbers, the first of them `i`.
passes : (ℕ → Bool) → ℕ → ℕ → Bool
passes test i zero = true
passes test i (suc k) = passes test (suc i) k && test i

passes-at :
    (test : ℕ → Bool) (i k c : ℕ) → i ≤ c → c < i + k → passes test i k ≡ true → test c ≡ true
unfolding passes
passes-at test i zero c low high all = absurd (omega arith)
passes-at test i (suc k) c low high all = ground (arith, passes-at test (suc i) k c)

reads_digit : ℕ → Bool
reads_digit i = digit_value (hex_digit i) == i

digit_value-hex_digit : (i : ℕ) → i < 16 → digit_value (hex_digit i) ≡ i
unfolding passes reads_digit digit_value hex_digit
digit_value-hex_digit i h =
    (==_iff (digit_value (hex_digit i)) i).0
      (passes-at reads_digit 0 16 i (omega arith) (omega arith) refl)

-- The printed form has two digits for each byte, and reading the digits gives the bytes back: two
-- byte strings never print alike.
pub of_hex-to_hex_lower :
    (bs : Bytes)
    → All IsByte bs
    → (of_hex (to_hex_lower bs) ≡ bs) × (length (to_hex_lower bs) ≡ 2 * length bs)
unfolding of_hex to_hex_lower
of_hex-to_hex_lower [] h = (refl, refl)
of_hex-to_hex_lower (b ∷ bs) (hb, hbs) =
    let (same, twice) = of_hex-to_hex_lower bs hbs in
    let front : digit_value (hex_digit (b / 16)) * 16 + digit_value (hex_digit (b % 16)) ≡ b =
      rw
        (digit_value-hex_digit (b / 16) (omega arith), digit_value-hex_digit (b % 16) (omega arith))
        (omega arith) in
    (cc (front, same), omega (arith, twice))
