-- ===== src/Cbor/Encoder.antt =====
-- common/cbor.hpp: the encoder.
use tee_anchor.Prelude.{
  ℕ, ◌+◌, ◌*◌, ◌/◌, ◌%◌, ◌^◌, [], ◌∷◌, ◌++◌, ltb, if◌then◌else◌, length, Bytes,
}

-- `b | x` below: the low five bits of `b` are 0, and `x` is below 32, so it is a sum. A head with
-- four length bytes is also what a length of 2 ^ 32 and more gets: its higher bytes are dropped.
unfoldable pub enc_head : Bytes → ℕ → ℕ → Bytes
enc_head o mt n =
    let b = mt * 32 % 256 in
    if ltb n 24
    then o ++ ((b + n) ∷ [])
    else if ltb n 256
    then o ++ ((b + 24) ∷ n ∷ [])
    else if ltb n 65536
    then o ++ ((b + 25) ∷ (n / 256) ∷ (n % 256) ∷ [])
    else o
      ++ ((b + 26) ∷ (n / 2 ^ 24 % 256) ∷ (n / 2 ^ 16 % 256) ∷ (n / 2 ^ 8 % 256) ∷ (n % 256) ∷ [])

unfoldable pub enc_bytes : Bytes → Bytes → Bytes
enc_bytes o d = enc_head o 2 (length d) ++ d

unfoldable pub enc_text : Bytes → Bytes → Bytes
enc_text o s = enc_head o 3 (length s) ++ s
