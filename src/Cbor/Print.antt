-- ===== src/Cbor/Print.antt =====
-- A printer of whole items, built from `enc_head` of common/cbor.hpp, and the decoder on what it prints.
use tee_anchor.Prelude.{
  ℕ, zero, suc, ◌+◌, ◌-◌, ◌*◌, ◌^◌, ◌≤◌, ◌<◌, ◌≡◌, refl, [], ◌++◌, arith, length, length-append,
  Bytes, append_assoc, append-nil, ok,
}
use tee_anchor.Prelude.Results
use tee_anchor.Cbor.{
  Value, Values, Pairs, value, pair, uint, nint, bytes, text, array, map, tag, simple, no_values,
  no_pairs, reserve, read_item, read_values, read_pairs, enough, decode,
}
use tee_anchor.Cbor.Encoder.{enc_head, enc_bytes, enc_text}
use tee_anchor.Cbor.RoundTrip.{
  read_item-array, read_item-map, read_item-tag, read_item-uint, read_item-nint, read_item-simple,
  read_item-enc_bytes, read_item-enc_text, length-enc_head_pos,
}

abbrev pub count : Values → ℕ
count no_values = 0
count (value v vs) = suc (count vs)

abbrev pub count_pairs : Pairs → ℕ
count_pairs no_pairs = 0
count_pairs (pair k v ps) = suc (count_pairs ps)

-- The decoder makes tags with one item of content, so a tag prints the first.
unfoldable mutual
  pub print : Value → Bytes
  print (uint n) = enc_head [] 0 n
  print (nint n) = enc_head [] 1 n
  print (simple n) = enc_head [] 7 n
  print (bytes d) = enc_bytes [] d
  print (text d) = enc_text [] d
  print (array vs) = enc_head [] 4 (count vs) ++ print_values vs
  print (map ps) = enc_head [] 5 (count_pairs ps) ++ print_pairs ps
  print (tag n vs) = enc_head [] 6 n ++ print_values vs

  pub print_values : Values → Bytes
  print_values no_values = []
  print_values (value v vs) = print v ++ print_values vs

  pub print_pairs : Pairs → Bytes
  print_pairs no_pairs = []
  print_pairs (pair k v ps) = print k ++ (print v ++ print_pairs ps)

-- The sizes fit in the four bytes that `enc_head` writes, and in memory; a tag has one item.
abbrev mutual
  pub Fits : ℕ → Value → Type 0
  Fits max_items (uint n) = n < 2 ^ 32
  Fits max_items (nint n) = n < 2 ^ 32
  Fits max_items (simple n) = n < 256
  Fits max_items (bytes d) = length d < 2 ^ 32
  Fits max_items (text d) = length d < 2 ^ 32
  Fits max_items (array vs) = (count vs < 2 ^ 32) × (count vs ≤ max_items) × FitsValues max_items vs
  Fits max_items (map ps) =
      (count_pairs ps < 2 ^ 32) × (count_pairs ps ≤ max_items) × FitsPairs max_items ps
  Fits max_items (tag n vs) = (n < 2 ^ 32) × (count vs ≡ 1) × FitsValues max_items vs

  pub FitsValues : ℕ → Values → Type 0
  FitsValues max_items no_values = Unit
  FitsValues max_items (value v vs) = Fits max_items v × FitsValues max_items vs

  pub FitsPairs : ℕ → Pairs → Type 0
  FitsPairs max_items no_pairs = Unit
  FitsPairs max_items (pair k v ps) = Fits max_items k × Fits max_items v × FitsPairs max_items ps

length-print_pos : (v : Value) → 0 < length (print v)
unfolding print enc_bytes enc_text
length-print_pos (uint n) = length-enc_head_pos 0 n (omega arith)
length-print_pos (nint n) = length-enc_head_pos 1 n (omega arith)
length-print_pos (simple n) = length-enc_head_pos 7 n (omega arith)
length-print_pos (bytes d) =
    omega (arith, length-append (enc_head [] 2 (length d)) d, length-enc_head_pos 2 (length d))
length-print_pos (text d) =
    omega (arith, length-append (enc_head [] 3 (length d)) d, length-enc_head_pos 3 (length d))
length-print_pos (array vs) = omega (
  arith,
  length-append (enc_head [] 4 (count vs)) (print_values vs),
  length-enc_head_pos 4 (count vs),
)
length-print_pos (map ps) = omega (
  arith,
  length-append (enc_head [] 5 (count_pairs ps)) (print_pairs ps),
  length-enc_head_pos 5 (count_pairs ps),
)
length-print_pos (tag n vs) =
    omega (arith, length-append (enc_head [] 6 n) (print_values vs), length-enc_head_pos 6 n)

reserve_fits : (max_items n : ℕ) (s : Bytes) → n ≤ max_items → reserve max_items n s ≡ ok (tt, s)
unfolding reserve
reserve_fits max_items n s h = ground arith

module _ (max_items f n : ℕ) (s : Bytes) where
  read_values_step :
      read_values max_items (suc f) (suc n) s
      ≡ Results.◌>>=◌
          (read_item max_items f s)
          λ (v, s₁). Results.◌>>=◌ (read_values max_items f n s₁) λ (vs, s₂). ok (value v vs, s₂)
  unfolding read_values
  read_values_step = let e : suc n - 1 ≡ n = omega arith in rw e (ground arith)

  read_pairs_step :
      read_pairs max_items (suc f) (suc n) s
      ≡ Results.◌>>=◌ (read_item max_items f s) λ (k, s₁).
        Results.◌>>=◌
          (read_item max_items f s₁)
          λ (v, s₂). Results.◌>>=◌ (read_pairs max_items f n s₂) λ (ps, s₃). ok (pair k v ps, s₃)
  unfolding read_pairs
  read_pairs_step = let e : suc n - 1 ≡ n = omega arith in rw e (ground arith)

read_values_end : (m f : ℕ) (s : Bytes) → read_values m (suc f) 0 s ≡ ok (no_values, s)
unfolding read_values
read_values_end m f s = refl

read_pairs_end : (m f : ℕ) (s : Bytes) → read_pairs m (suc f) 0 s ≡ ok (no_pairs, s)
unfolding read_pairs
read_pairs_end m f s = refl

mutual
  unfolding print

  read_item-prints :
      (max_items f : ℕ) (v : Value) (rest : Bytes)
      → Fits max_items v
      → 2 * length (print v) < f
      → read_item max_items f (print v ++ rest) ≡ ok (v, rest)
  read_item-prints m zero v rest h g = absurd (omega arith)
  read_item-prints m (suc f) (uint n) rest h g = read_item-uint m f n rest h
  read_item-prints m (suc f) (nint n) rest h g = read_item-nint m f n rest h
  read_item-prints m (suc f) (simple n) rest h g = read_item-simple m f n rest h
  read_item-prints m (suc f) (bytes d) rest h g = read_item-enc_bytes m f d rest h
  read_item-prints m (suc f) (text d) rest h g = read_item-enc_text m f d rest h
  read_item-prints m (suc f) (array vs) rest (h₁, h₂, h₃) g = rw (
    append_assoc,
    read_item-array m f (count vs) (print_values vs ++ rest) h₁,
    reserve_fits m (count vs) (print_values vs ++ rest) h₂,
    read_values-prints m f vs rest h₃ (
        omega (
          arith,
          length-append (enc_head [] 4 (count vs)) (print_values vs),
          length-enc_head_pos 4 (count vs),
        )),
  )
  read_item-prints m (suc f) (map ps) rest (h₁, h₂, h₃) g = rw (
    append_assoc,
    read_item-map m f (count_pairs ps) (print_pairs ps ++ rest) h₁,
    reserve_fits m (count_pairs ps) (print_pairs ps ++ rest) h₂,
    read_pairs-prints m f ps rest h₃ (
        omega (
          arith,
          length-append (enc_head [] 5 (count_pairs ps)) (print_pairs ps),
          length-enc_head_pos 5 (count_pairs ps),
        )),
  )
  read_item-prints m (suc f) (tag n no_values) rest (h₁, h₂, h₃) g = absurd (omega arith)
  read_item-prints m (suc f) (tag n (value v no_values)) rest (h₁, h₂, h₃) g = rw (
    append-nil (print v),
    append_assoc,
    read_item-tag m f n (print v ++ rest) h₁,
    read_item-prints m f v rest h₃.0 (
        omega (
          arith,
          length-append (enc_head [] 6 n) (print v ++ []),
          length-append (print v) [],
          length-enc_head_pos 6 n,
        )),
  )
  read_item-prints m (suc f) (tag n (value v (value w vs))) rest (h₁, h₂, h₃) g =
      absurd (omega arith)

  read_values-prints :
      (max_items f : ℕ) (vs : Values) (rest : Bytes)
      → FitsValues max_items vs
      → 2 * length (print_values vs) + 1 < f
      → read_values max_items f (count vs) (print_values vs ++ rest) ≡ ok (vs, rest)
  read_values-prints m zero vs rest h g = absurd (omega arith)
  read_values-prints m (suc f) no_values rest h g = read_values_end m f rest
  read_values-prints m (suc f) (value v vs) rest (h₁, h₂) g = rw (
    append_assoc,
    read_values_step m f (count vs) (print v ++ (print_values vs ++ rest)),
    read_item-prints m f v (print_values vs ++ rest) h₁
        (omega (arith, length-append (print v) (print_values vs))),
    read_values-prints m f vs rest h₂
        (omega (arith, length-append (print v) (print_values vs), length-print_pos v)),
  )

  read_pairs-prints :
      (max_items f : ℕ) (ps : Pairs) (rest : Bytes)
      → FitsPairs max_items ps
      → 2 * length (print_pairs ps) + 1 < f
      → read_pairs max_items f (count_pairs ps) (print_pairs ps ++ rest) ≡ ok (ps, rest)
  read_pairs-prints m zero ps rest h g = absurd (omega arith)
  read_pairs-prints m (suc f) no_pairs rest h g = read_pairs_end m f rest
  read_pairs-prints m (suc f) (pair k v ps) rest (h₁, h₂, h₃) g =
      let lengths = length-append (print k) (print v ++ print_pairs ps) in
      let lengths' = length-append (print v) (print_pairs ps) in
      rw (
        append_assoc,
        append_assoc,
        read_pairs_step m f (count_pairs ps) (print k ++ (print v ++ (print_pairs ps ++ rest))),
        read_item-prints m f k (print v ++ (print_pairs ps ++ rest)) h₁ (omega arith),
        read_item-prints m f v (print_pairs ps ++ rest) h₂ (omega arith),
        read_pairs-prints m f ps rest h₃ (omega (arith, length-print_pos k)),
      )

-- `decode` reads back an item from its print, and ignores what follows it. The item is one that fits: its
-- numbers, lengths and counts are below 2 ^ 32, which is what `enc_head` writes, its simple values below
-- 256, the counts are within `max_items`, and each tag has one item.
pub decode-print :
    (max_items : ℕ) (v : Value) (rest : Bytes)
    → Fits max_items v
    → decode max_items (print v ++ rest) ≡ ok v
unfolding decode
decode-print max_items v rest h = rw (
    read_item-prints max_items (enough (print v ++ rest)) v rest h
      (omega (arith, length-append (print v) rest)))
