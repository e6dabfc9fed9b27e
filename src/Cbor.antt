-- ===== src/Cbor.antt =====
-- common/cbor.hpp: the CBOR values, the accessors of `Value`, the decoder and the encoder.
-- The proofs are in the modules below.
pub mod Encoder
pub mod Fuel
pub mod RoundTrip
pub mod Print
use tee_anchor.Prelude.{
  ℕ, zero, suc, ◌+◌, ◌-◌, ◌*◌, ◌/◌, ◌%◌, ◌^◌, Bool, ◌&&◌, ◌||◌, Option, none, some, List, [], ◌∷◌,
  String, ltb, ◌==◌, if◌then◌else◌, length, take, drop, Bytes, Result, ok, err, throw,
  std_exception, out_of_fuel,
}
use tee_anchor.Prelude.Results
use tee_anchor.Prelude.Int.{ℤ, pos, negsuc, ◌==ℤ◌, to_int64}

-- A constructor for each `Type`, with the members of `Value` that the type uses. The content of a
-- tag is the `array` of its value; the decoder always puts one item there.
mutual
  pub data Value : Type 0 where
    uint nint simple : ℕ → Value
    bytes text : Bytes → Value
    array : Values → Value
    map : Pairs → Value
    tag : ℕ → Values → Value

  pub data Values : Type 0 where
    no_values : Values
    value : Value → Values → Values

  pub data Pairs : Type 0 where
    no_pairs : Pairs
    pair : Value → Value → Pairs → Pairs

-- `-1 - i` on an `int64_t`
abbrev pub minus_one_minus : ℤ → ℤ
minus_one_minus (pos n) = negsuc n
minus_one_minus (negsuc n) = pos n

unfoldable pub as_int : Value → Result ℤ
as_int (uint u) = ok (to_int64 u)
as_int (nint u) = ok (minus_one_minus (to_int64 u))
as_int _ = throw "cbor: value is not an integer"

abbrev pub is_integer : Value → Bool
is_integer (uint u) = Bool.true
is_integer (nint u) = Bool.true
is_integer _ = Bool.false

-- The test of `at` on one key: an integer type, and then `as_int() == key`.
unfoldable pub key_is : ℤ → Value → Bool
key_is key (uint u) = to_int64 u ==ℤ key
key_is key (nint u) = minus_one_minus (to_int64 u) ==ℤ key
key_is key _ = Bool.false

unfoldable pub at_pairs : Pairs → ℤ → Option Value
at_pairs no_pairs key = none
at_pairs (pair k v rest) key = if key_is key k then some v else at_pairs rest key

-- `at` of a value that is no map finds nothing: its `map` is empty.
unfoldable pub at : Value → ℤ → Option Value
unfolding at_pairs key_is
at (map ps) key = at_pairs ps key
at _ key = none

unfoldable pub untag : Value → ℕ → Result Value
untag (tag n no_values) expected =
    if n == expected then throw "cbor: empty tag content" else throw "cbor: unexpected tag number"
untag (tag n (value v _)) expected =
    if n == expected then ok v else throw "cbor: unexpected tag number"
untag v expected = ok v

-- A member function of `Decoder` reads from `p_` on: it is given the bytes up to `end_`, and returns
-- those that it leaves.
abbrev pub Decoder : Type 0 → Type 0
Decoder A = Bytes → Result (A × Bytes)

infixl 5 ◌>>=◌ ◌>>◌
abbrev ◌>>=◌ : {A B : Type 0} → Decoder A → (A → Decoder B) → Decoder B
◌>>=◌ m f s = Results.◌>>=◌ (m s) λ (a, rest). f a rest

abbrev ◌>>◌ : {B : Type 0} → Decoder (Unit {0}) → Decoder B → Decoder B
m >> k = m >>= λ _. k

abbrev pure : {A : Type 0} → A → Decoder A
pure a s = ok (a, s)

abbrev run : {A : Type 0} → Bytes → Decoder A → Result (A × Bytes)
run s m = m s

unfoldable pub rb : Decoder ℕ
rb [] = throw "cbor: truncated input"
rb (b ∷ rest) = ok (b, rest)

-- `need(n)`, and then `n` bytes from `p_`
unfoldable pub read_bytes : ℕ → Decoder Bytes
read_bytes n s = if ltb (length s) n then throw "cbor: truncated item" else ok (take n s, drop n s)

-- `for (...) v = (v << 8) | rb();`, for the rounds that are left
unfoldable pub read_be : ℕ → ℕ → Decoder ℕ
unfolding rb
read_be zero v = pure v
read_be (suc n) v = do b ← rb; read_be n (v * 256 % 2 ^ 64 + b)

unfoldable pub read_len : ℕ → Decoder ℕ
read_len ai s =
    if ltb ai 24
    then ok (ai, s)
    else if ai == 24
    then rb s
    else if ai == 25
    then read_be 2 0 s
    else if ai == 26
    then read_be 4 0 s
    else if ai == 27
    then read_be 8 0 s
    else throw "cbor: indefinite/reserved length not supported"

-- `reserve(n)` throws where the memory for `n` values cannot be had, which the environment decides.
unfoldable pub reserve : ℕ → ℕ → Decoder (Unit {0})
reserve max_items n s =
    if ltb max_items n then err (std_exception "vector::reserve") else ok (tt, s)

-- Case 7 of the switch, and the major types 0 to 3 and 7, which hold no other item.
unfoldable pub read_simple : ℕ → Decoder Value
read_simple ai s =
    if ai == 24
    then (run s do n ← rb; pure (simple n))
    else if ltb ai 24
    then ok (simple ai, s)
    else throw "cbor: float/break not supported"

unfoldable pub read_flat : ℕ → ℕ → Decoder Value
read_flat mt ai s =
    if mt == 0
    then (run s do n ← read_len ai; pure (uint n))
    else if mt == 1
    then (run s do n ← read_len ai; pure (nint n))
    else if mt == 2
    then (run s do n ← read_len ai; d ← read_bytes n; pure (bytes d))
    else if mt == 3
    then (run s do n ← read_len ai; d ← read_bytes n; pure (text d))
    else if mt == 7
    then read_simple ai s
    else throw "cbor: invalid major type"

-- `rb` of the first byte is the match on the input. What an item leaves of the input is no structural part of it, so each call costs a unit of fuel.
unfoldable mutual
  pub read_item : ℕ → ℕ → Decoder Value
  read_item max_items zero s = err out_of_fuel
  read_item max_items (suc f) [] = throw "cbor: truncated input"
  read_item max_items (suc f) (ib ∷ s) =
      let mt = ib / 32 in
      let ai = ib % 32 in
      let items =
        run s
          do n ← read_len ai; reserve max_items n; vs ← read_values max_items f n; pure (array vs)
      in let pairs =
          run s
            do n ← read_len ai; reserve max_items n; ps ← read_pairs max_items f n; pure (map ps)
        in let tagged =
            run s do n ← read_len ai; v ← read_item max_items f; pure (tag n (value v no_values))
          in if mt == 4
            then items
            else if mt == 5
            then pairs
            else if mt == 6
            then tagged
            else read_flat mt ai s

  -- The loops over the items of an array and of a map.
  pub read_values : ℕ → ℕ → ℕ → Decoder Values
  read_values max_items zero n s = err out_of_fuel
  read_values max_items (suc f) n s =
      let more =
        run s do v ← read_item max_items f; vs ← read_values max_items f (n - 1); pure (value v vs)
      in if n == 0 then ok (no_values, s) else more

  pub read_pairs : ℕ → ℕ → ℕ → Decoder Pairs
  read_pairs max_items zero n s = err out_of_fuel
  read_pairs max_items (suc f) n s =
      let more = run s do
        k ← read_item max_items f
        v ← read_item max_items f
        ps ← read_pairs max_items f (n - 1)
        pure (pair k v ps)
      in if n == 0 then ok (no_pairs, s) else more

-- An item takes a byte at least, and a round of a loop two calls at most beside those of its items.
abbrev pub enough : Bytes → ℕ
enough s = 2 * length s + 2

-- `Decoder(p, n).decode()`; what follows the item is not looked at.
unfoldable pub decode : ℕ → Bytes → Result Value
decode max_items s = Results.◌>>=◌ (read_item max_items (enough s) s) λ (v, rest). ok v
