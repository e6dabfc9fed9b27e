-- ===== src/Binding/Der.antt =====
-- The DER helpers of binding/chip_id_binding.cpp.
use tee_anchor.Prelude.{
  ℕ, ◌/◌, ◌%◌, ◌^◌, [], ◌∷◌, ◌++◌, ltb, if◌then◌else◌, length, Bytes, Result, ok, throw, ◌>>=◌,
}

unfoldable pub der_length : ℕ → Result Bytes
der_length len =
    if ltb len 0x80
    then ok (len ∷ [])
    else if ltb len 0x100
    then ok (0x81 ∷ len ∷ [])
    else if ltb len 0x10000
    then ok (0x82 ∷ (len / 2 ^ 8) ∷ (len % 2 ^ 8) ∷ [])
    else throw "DER length unexpectedly large"

unfoldable pub der_tlv : ℕ → Bytes → Result Bytes
der_tlv tag val = do l ← der_length (length val); ok (tag ∷ (l ++ val))
