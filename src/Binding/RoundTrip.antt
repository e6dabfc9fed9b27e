-- ===== src/Binding/RoundTrip.antt =====
-- The decoder of binding/chip_id_binding.cpp on what its encoder wrote.
use tee_anchor.Prelude.{
  ℕ, ◌+◌, ◌*◌, ◌/◌, ◌%◌, ◌≤◌, ◌<◌, ◌≡◌, ◌≢◌, refl, some, [], ◌∷◌, ◌++◌, ltb, length, length-append,
  take-append, drop-append, append-nil, Bytes, String, ok, throw, >>=-eq-ok, arith, Bool-cases, inl,
  inr, lt→ltb,
}
use tee_anchor.OpenSsl.{OpenSsl}
use tee_anchor.Binding.Der.{der_length, der_tlv}
use tee_anchor.Binding.{encode_chip_id_binding, must_read, decode_fields, decode_chip_id_binding}

-- What `ASN1_get_object` documents: on success the content lies within the limit, behind a header of at
-- least one byte; and it reads the header of an object with a low tag and a definite length in its
-- shortest forms (X.690, 8.1.2 and 8.1.3), where the content lies within the limit.
pub record DerLaws (ssl : OpenSsl) : Type 0 where
  pub within :
      (p : Bytes) (tag len : ℕ) (rest : Bytes)
      → ssl.get_object p ≡ some (tag, len, rest)
      → (len ≤ length rest) × (length rest < length p)
  pub short_form :
      (b n : ℕ) (rest : Bytes)
      → b % 32 ≢ 31
      → n < 128
      → n ≤ length rest
      → ssl.get_object (b ∷ n ∷ rest) ≡ some (b % 32, n, rest)
  pub one_byte :
      (b n : ℕ) (rest : Bytes)
      → b % 32 ≢ 31
      → 128 ≤ n
      → n < 256
      → n ≤ length rest
      → ssl.get_object (b ∷ 0x81 ∷ n ∷ rest) ≡ some (b % 32, n, rest)
  pub two_bytes :
      (b hi lo : ℕ) (rest : Bytes)
      → b % 32 ≢ 31
      → 1 ≤ hi
      → hi < 256
      → lo < 256
      → hi * 256 + lo ≤ length rest
      → ssl.get_object (b ∷ 0x82 ∷ hi ∷ lo ∷ rest) ≡ some (b % 32, hi * 256 + lo, rest)

module _ (ssl : OpenSsl) (laws : DerLaws ssl) where
  -- An encoded object is read, with whatever follows it.
  pub get_object-der_tlv :
      (b : ℕ) (val rest tlv : Bytes)
      → b % 32 ≢ 31
      → der_tlv b val ≡ ok tlv
      → ssl.get_object (tlv ++ rest) ≡ some (b % 32, length val, val ++ rest)
  unfolding der_tlv der_length
  get_object-der_tlv b val rest tlv low h = elim (Bool-cases (ltb (length val) 128)) [
    | inl short ↦
        let e : b ∷ length val ∷ val ≡ tlv = ground arith in
        rw (← e) (
          laws.short_form b (length val) (val ++ rest) low (ground arith)
            (omega (arith, length-append val rest)))
    | inr long ↦ elim (Bool-cases (ltb (length val) 256)) [
      | inl one ↦
          let e : b ∷ 0x81 ∷ length val ∷ val ≡ tlv = ground arith in
          rw (← e) (
            laws.one_byte b (length val) (val ++ rest) low (ground arith) (ground arith)
              (omega (arith, length-append val rest)))
      | inr two ↦ elim (Bool-cases (ltb (length val) 65536)) [
        | inl fits ↦
            let e : b ∷ 0x82 ∷ (length val / 256) ∷ (length val % 256) ∷ val ≡ tlv = ground arith in
            let sum : length val / 256 * 256 + length val % 256 ≡ length val = omega arith in
            rw (← e) (
              rw sum at (
                laws.two_bytes b (length val / 256) (length val % 256) (val ++ rest) low
                  (ground arith) (ground arith) (omega arith)
                  (omega (arith, length-append val rest))))
        | inr large ↦ absurd (ground arith)
      ]
    ]
  ]

  must_read-der_tlv :
      (b : ℕ) (val rest tlv : Bytes) (msg : String)
      → b % 32 ≢ 31
      → der_tlv b val ≡ ok tlv
      → must_read ssl (tlv ++ rest) (b % 32) msg ≡ ok (val, rest)
  unfolding must_read
  must_read-der_tlv b val rest tlv msg low h =
      rw (get_object-der_tlv b val rest tlv low h, must_read)
        (rw (take-append val rest, drop-append val rest) (ground arith))

  decode_fields-encoded :
      (tee_type : ℕ) (chip_id now enum_tlv octet_tlv time_tlv : Bytes)
      → der_tlv 0x0A (tee_type ∷ []) ≡ ok enum_tlv
      → der_tlv 0x04 chip_id ≡ ok octet_tlv
      → der_tlv 0x18 now ≡ ok time_tlv
      → decode_fields ssl (enum_tlv ++ (octet_tlv ++ time_tlv))
        ≡ ok (record { tee_type = tee_type; chip_id = chip_id; issued_at = now })
  unfolding decode_fields
  decode_fields-encoded tee_type chip_id now enum_tlv octet_tlv time_tlv h₁ h₂ h₃ =
      let last =
        must_read-der_tlv 0x18 now [] time_tlv "ChipIdBinding: GeneralizedTime issuedAt expected"
          (λ e. cc) h₃ in
      rw (
        must_read-der_tlv 0x0A (tee_type ∷ []) (octet_tlv ++ time_tlv) enum_tlv
            "ChipIdBinding: ENUMERATED teeType expected" (λ e. cc) h₁,
        must_read-der_tlv 0x04 chip_id time_tlv octet_tlv
            "ChipIdBinding: OCTET STRING chipId expected" (λ e. cc) h₂,
        rw append-nil at last,
      )

  -- What `provision` puts into the extension, `verify` reads back: where the encoder returns bytes, the
  -- decoder returns the same TEE type, chip id and time.
  pub decode-encode_chip_id_binding :
      (tee_type : ℕ) (chip_id now der : Bytes)
      → encode_chip_id_binding tee_type chip_id now ≡ ok der
      → decode_chip_id_binding ssl der
        ≡ ok (record { tee_type = tee_type; chip_id = chip_id; issued_at = now })
  unfolding encode_chip_id_binding decode_chip_id_binding
  decode-encode_chip_id_binding tee_type chip_id now der h =
      let (enum_tlv, h₁, r₁) = >>=-eq-ok (der_tlv 0x0A (tee_type ∷ [])) _ h in
      let (octet_tlv, h₂, r₂) = >>=-eq-ok (der_tlv 0x04 chip_id) _ r₁ in
      let (time_tlv, h₃, r₃) = >>=-eq-ok (der_tlv 0x18 now) _ r₂ in
      let outer =
        must_read-der_tlv 0x30 (enum_tlv ++ (octet_tlv ++ time_tlv)) [] der
          "ChipIdBinding: outer SEQUENCE expected" (λ e. cc) r₃ in
      rw (rw append-nil at outer)
        (decode_fields-encoded tee_type chip_id now enum_tlv octet_tlv time_tlv h₁ h₂ h₃)

der_tlv-fits :
    (tag : ℕ) (val : Bytes)
    → length val < 65536
    → (tlv : Bytes) × (der_tlv tag val ≡ ok tlv) × (length tlv ≤ length val + 4)
unfolding der_tlv der_length
der_tlv-fits tag val h = elim (Bool-cases (ltb (length val) 128)) [
  | inl short ↦ (tag ∷ length val ∷ val, rw short refl, omega arith)
  | inr long ↦ elim (Bool-cases (ltb (length val) 256)) [
    | inl one ↦ (tag ∷ 0x81 ∷ length val ∷ val, rw (long, one) refl, omega arith)
    | inr two ↦ (
      tag ∷ 0x82 ∷ (length val / 256) ∷ (length val % 256) ∷ val,
      rw (long, two, lt→ltb (length val) 65536 h) refl,
      omega arith,
    )
  ]
]

der_tlv-large :
    (tag : ℕ) (val : Bytes)
    → 65536 ≤ length val
    → der_tlv tag val ≡ throw "DER length unexpectedly large"
unfolding der_tlv der_length
der_tlv-large tag val h = ground arith

-- The encoder returns bytes for every chip id of up to 65,000 bytes and every time of up to 100.
pub encode_chip_id_binding_fits :
    (tee_type : ℕ) (chip_id now : Bytes)
    → length now ≤ 100
    → length chip_id ≤ 65000
    → (der : Bytes) × (encode_chip_id_binding tee_type chip_id now ≡ ok der)
unfolding encode_chip_id_binding
encode_chip_id_binding_fits tee_type chip_id now h small =
    let (enum_tlv, e₁, l₁) = der_tlv-fits 0x0A (tee_type ∷ []) (omega arith) in
    let (octet_tlv, e₂, l₂) = der_tlv-fits 0x04 chip_id (omega arith) in
    let (time_tlv, e₃, l₃) = der_tlv-fits 0x18 now (omega arith) in
    let (der, e₄, l₄) = der_tlv-fits 0x30 (enum_tlv ++ (octet_tlv ++ time_tlv)) (
      omega (
        arith,
        length-append enum_tlv (octet_tlv ++ time_tlv),
        length-append octet_tlv time_tlv,
      )) in
    (der, rw (e₁, e₂, e₃) e₄)

-- A chip id of 65,536 bytes or more is refused.
pub encode_chip_id_binding_large :
    (tee_type : ℕ) (chip_id now : Bytes)
    → 65536 ≤ length chip_id
    → encode_chip_id_binding tee_type chip_id now ≡ throw "DER length unexpectedly large"
unfolding encode_chip_id_binding
encode_chip_id_binding_large tee_type chip_id now large =
    let (enum_tlv, e₁, l₁) = der_tlv-fits 0x0A (tee_type ∷ []) (omega arith) in
    rw (e₁, der_tlv-large 0x04 chip_id large) refl
