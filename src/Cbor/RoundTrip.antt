-- ===== src/Cbor/RoundTrip.antt =====
-- The decoder of common/cbor.hpp on the heads that its encoder writes.
use tee_anchor.Prelude.{
  ℕ, suc, ◌+◌, ◌*◌, ◌/◌, ◌%◌, ◌^◌, ◌<◌, ◌≡◌, refl, false, [], ◌∷◌, ◌++◌, arith, ltb, ◌==◌,
  if◌then◌else◌, length, length-append, take-append, drop-append, Bytes, append_assoc, Result, ok,
}
use tee_anchor.Prelude.Results
use tee_anchor.Cbor.{
  Value, value, uint, nint, bytes, text, array, map, tag, simple, no_values, rb, read_bytes,
  read_be, read_len, reserve, read_simple, read_flat, read_item, read_values, read_pairs,
}
use tee_anchor.Cbor.Encoder.{enc_head, enc_bytes, enc_text}

-- What `enc_head` puts behind the first byte.
len_bytes : ℕ → Bytes
len_bytes n =
    if ltb n 24
    then []
    else if ltb n 256
    then n ∷ []
    else if ltb n 65536
    then (n / 256) ∷ (n % 256) ∷ []
    else (n / 2 ^ 24 % 256) ∷ (n / 2 ^ 16 % 256) ∷ (n / 2 ^ 8 % 256) ∷ (n % 256) ∷ []

-- The low five bits of the first byte.
len_code : ℕ → ℕ
len_code n = if ltb n 24 then n else if ltb n 256 then 24 else if ltb n 65536 then 25 else 26

enc_head-split :
    (o : Bytes) (mt n : ℕ) → mt < 8 → enc_head o mt n ≡ o ++ ((mt * 32 + len_code n) ∷ len_bytes n)
unfolding enc_head len_bytes len_code
enc_head-split o mt n h = ground arith

len_code-lt : (n : ℕ) → len_code n < 32
unfolding len_code
len_code-lt n = ground arith

read_len-len_bytes :
    (n : ℕ) (rest : Bytes) → n < 2 ^ 32 → read_len (len_code n) (len_bytes n ++ rest) ≡ ok (n, rest)
unfolding read_len len_bytes len_code read_be rb
read_len-len_bytes n rest h = ground arith

head_mt : (mt n : ℕ) → (mt * 32 + len_code n) / 32 ≡ mt
head_mt mt n = omega (arith, len_code-lt n)

head_ai : (mt n : ℕ) → (mt * 32 + len_code n) % 32 ≡ len_code n
head_ai mt n = omega (arith, len_code-lt n)

read_bytes-append : (d rest : Bytes) → read_bytes (length d) (d ++ rest) ≡ ok (d, rest)
unfolding read_bytes
read_bytes-append d rest =
    rw (take-append d rest, drop-append d rest) (ground (arith, length-append d rest))

-- One item, by its major type, once its head is read.
module _ (max_items f n : ℕ) (rest : Bytes) (fits : n < 2 ^ 32) where
  read_item-flat :
      (mt : ℕ) (r : Result (Value × Bytes))
      → mt < 8
      → (mt == 4) ≡ false
      → (mt == 5) ≡ false
      → (mt == 6) ≡ false
      → read_flat mt (len_code n) (len_bytes n ++ rest) ≡ r
      → read_item max_items (suc f) (enc_head [] mt n ++ rest) ≡ r
  unfolding read_item
  read_item-flat mt r hm h4 h5 h6 e =
      rw (enc_head-split [] mt n hm, head_mt mt n, head_ai mt n, h4, h5, h6) e

  pub read_item-array :
      read_item max_items (suc f) (enc_head [] 4 n ++ rest)
      ≡ Results.◌>>=◌
          (reserve max_items n rest)
          λ (_, s). Results.◌>>=◌ (read_values max_items f n s) λ (vs, s'). ok (array vs, s')
  unfolding read_item
  read_item-array = rw (
    enc_head-split [] 4 n (omega arith),
    head_mt 4 n,
    head_ai 4 n,
    read_len-len_bytes n rest fits,
  )

  pub read_item-map :
      read_item max_items (suc f) (enc_head [] 5 n ++ rest)
      ≡ Results.◌>>=◌
          (reserve max_items n rest)
          λ (_, s). Results.◌>>=◌ (read_pairs max_items f n s) λ (ps, s'). ok (map ps, s')
  unfolding read_item
  read_item-map = rw (
    enc_head-split [] 5 n (omega arith),
    head_mt 5 n,
    head_ai 5 n,
    read_len-len_bytes n rest fits,
  )

  pub read_item-tag :
      read_item max_items (suc f) (enc_head [] 6 n ++ rest)
      ≡ Results.◌>>=◌ (read_item max_items f rest) λ (v, s'). ok (tag n (value v no_values), s')
  unfolding read_item
  read_item-tag = rw (
    enc_head-split [] 6 n (omega arith),
    head_mt 6 n,
    head_ai 6 n,
    read_len-len_bytes n rest fits,
  )

  pub read_item-uint : read_item max_items (suc f) (enc_head [] 0 n ++ rest) ≡ ok (uint n, rest)
  unfolding read_flat
  read_item-uint =
      read_item-flat 0 _ (omega arith) refl refl refl (rw (read_len-len_bytes n rest fits))

  pub read_item-nint : read_item max_items (suc f) (enc_head [] 1 n ++ rest) ≡ ok (nint n, rest)
  unfolding read_flat
  read_item-nint =
      read_item-flat 1 _ (omega arith) refl refl refl (rw (read_len-len_bytes n rest fits))

pub read_item-simple :
    (max_items f n : ℕ) (rest : Bytes)
    → n < 256
    → read_item max_items (suc f) (enc_head [] 7 n ++ rest) ≡ ok (simple n, rest)
read_item-simple max_items f n rest h =
    read_item-flat max_items f n rest (omega arith) 7 _ (omega arith) refl refl refl
      (unfold read_flat read_simple rb len_code len_bytes in ground arith)

-- `enc_bytes` appends to its output a byte string that the decoder reads back, whatever follows, if
-- the string is shorter than 2 ^ 32 bytes.
pub read_item-enc_bytes :
    (max_items f : ℕ) (d rest : Bytes)
    → length d < 2 ^ 32
    → read_item max_items (suc f) (enc_bytes [] d ++ rest) ≡ ok (bytes d, rest)
unfolding enc_bytes
read_item-enc_bytes max_items f d rest h = rw append_assoc (
    read_item-flat max_items f (length d) (d ++ rest) h 2 _ (omega arith) refl refl refl (
      unfold read_flat in
      rw (read_len-len_bytes (length d) (d ++ rest) h, read_bytes-append d rest)))

pub read_item-enc_text :
    (max_items f : ℕ) (d rest : Bytes)
    → length d < 2 ^ 32
    → read_item max_items (suc f) (enc_text [] d ++ rest) ≡ ok (text d, rest)
unfolding enc_text
read_item-enc_text max_items f d rest h = rw append_assoc (
    read_item-flat max_items f (length d) (d ++ rest) h 3 _ (omega arith) refl refl refl (
      unfold read_flat in
      rw (read_len-len_bytes (length d) (d ++ rest) h, read_bytes-append d rest)))

-- What is encoded is appended to the output.
pub enc_head-append : (o : Bytes) (mt n : ℕ) → mt < 8 → enc_head o mt n ≡ o ++ enc_head [] mt n
enc_head-append o mt n h = rw (enc_head-split o mt n h, enc_head-split [] mt n h)

pub enc_bytes-append : (o d : Bytes) → enc_bytes o d ≡ o ++ enc_bytes [] d
unfolding enc_bytes
enc_bytes-append o d = rw (enc_head-append o 2 (length d) (omega arith), append_assoc)

pub enc_text-append : (o d : Bytes) → enc_text o d ≡ o ++ enc_text [] d
unfolding enc_text
enc_text-append o d = rw (enc_head-append o 3 (length d) (omega arith), append_assoc)

pub length-enc_head_pos : (mt n : ℕ) → mt < 8 → 0 < length (enc_head [] mt n)
length-enc_head_pos mt n h = rw (enc_head-split [] mt n h) (omega arith)
