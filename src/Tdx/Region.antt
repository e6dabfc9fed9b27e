-- ===== src/Tdx/Region.antt =====
-- What `locate_region` finds in a TD quote of provision/tdx/tdx_provision.cpp.
use tee_anchor.Prelude.{
  ℕ, ◌+◌, ◌≤◌, ◌≡◌, ◌≢◌, none, some, ◌++◌, ltb, length, length-append, Bytes, String, ok, arith,
  >>=-eq-ok, or_throw-eq-ok, Bool-cases, Option-cases, inl, inr,
}
use tee_anchor.Quote.{need, rd_u16le, rd_u32le}
use tee_anchor.Quote.Reads.{rd_u16le-append, rd_u32le-append}
use tee_anchor.Tdx.{locate_region}
use tee_anchor.Tdx.Layout.{
  locate_inner, locate_auth, locate_pck_region, sig_data_at, locate_sig_data,
}

-- A region found by `locate_pck_region` closes exactly where the signature data closes, and that
-- lies inside the quote.
pub locate_inner_bounds :
    (q : Bytes) (p outer_end off size : ℕ)
    → locate_inner q p outer_end ≡ some (off, size)
    → (p + 6 ≤ off) × (off + size ≡ outer_end)
unfolding locate_inner
locate_inner_bounds q p outer_end off size h = ground arith

pub locate_auth_bounds :
    (q : Bytes) (outer_body outer_end off size : ℕ)
    → locate_auth q outer_body outer_end ≡ some (off, size)
    → (outer_body + 456 ≤ off) × (off + size ≡ outer_end)
unfolding locate_auth
locate_auth_bounds q outer_body outer_end off size h = ground (
  arith,
  locate_inner_bounds q (outer_body + 384 + 64 + 2 + rd_u16le q (outer_body + 384 + 64)) outer_end
      off size,
)

pub locate_pck_region_bounds :
    (q : Bytes) (sd sdl off size : ℕ)
    → locate_pck_region q sd sdl ≡ some (off, size)
    → (sd + 590 ≤ off) × (off + size ≡ sd + sdl) × (sd + sdl ≤ length q)
unfolding locate_pck_region
locate_pck_region_bounds q sd sdl off size h =
    ground (
      arith,
      locate_auth_bounds q (sd + 128 + 6) (sd + 128 + 6 + rd_u32le q (sd + 128 + 2)) off size,
    )

-- Each read lies inside the quote: bytes added behind the quote change nothing.
module _ (q pad : Bytes) where
  locate_inner-append :
      (p outer_end : ℕ)
      → outer_end ≤ length q
      → locate_inner (q ++ pad) p outer_end ≡ locate_inner q p outer_end
  unfolding locate_inner
  locate_inner-append p outer_end h = elim (Bool-cases (ltb outer_end (p + 6))) [
    | inl short ↦ rw short
    | inr long ↦
        rw (rd_u16le-append q pad p (ground arith), rd_u32le-append q pad (p + 2) (ground arith))
  ]

  locate_auth-append :
      (outer_body outer_end : ℕ)
      → outer_end ≤ length q
      → locate_auth (q ++ pad) outer_body outer_end ≡ locate_auth q outer_body outer_end
  unfolding locate_auth
  locate_auth-append outer_body outer_end h =
      elim (Bool-cases (ltb outer_end (outer_body + 384 + 64 + 2))) [
        | inl short ↦ rw short
        | inr long ↦ rw (
          rd_u16le-append q pad (outer_body + 384 + 64) (ground arith),
          locate_inner-append (outer_body + 384 + 64 + 2 + rd_u16le q (outer_body + 384 + 64))
              outer_end h,
        )
      ]

  locate_pck_region-append :
      (sd sdl : ℕ) {r : ℕ × ℕ}
      → locate_pck_region q sd sdl ≡ some r
      → locate_pck_region (q ++ pad) sd sdl ≡ some r
  unfolding locate_pck_region
  locate_pck_region-append sd sdl {r} h = elim (Bool-cases (ltb (sd + sdl) (sd + 128 + 6))) [
    | inl short ↦ ground arith
    | inr long ↦ elim (Bool-cases (ltb (length q) (sd + sdl))) [
      | inl out ↦ ground arith
      | inr inside ↦ ground (
        arith,
        length-append q pad,
        rd_u16le-append q pad (sd + 128),
        rd_u32le-append q pad (sd + 128 + 2),
        locate_auth-append (sd + 128 + 6) (sd + 128 + 6 + rd_u32le q (sd + 128 + 2)),
      )
    ]
  ]

  sig_data_at-append :
      (len_off : ℕ) (short bad : String) {r : ℕ × ℕ}
      → sig_data_at q len_off short bad ≡ ok r
      → sig_data_at (q ++ pad) len_off short bad ≡ ok r
  unfolding sig_data_at need
  sig_data_at-append len_off short bad {r} h =
      elim (Option-cases (locate_pck_region q (len_off + 4) (rd_u32le q len_off))) [
        | inl nothing ↦ ground arith
        | inr (region, found) ↦ ground (
          arith,
          length-append q pad,
          rd_u32le-append q pad len_off,
          locate_pck_region-append (len_off + 4) (rd_u32le q len_off) found,
        )
      ]

  locate_sig_data-append :
      {r : ℕ × ℕ} → locate_sig_data q ≡ ok r → locate_sig_data (q ++ pad) ≡ ok r
  unfolding locate_sig_data need
  locate_sig_data-append {r} h = ground (
    arith,
    length-append q pad,
    rd_u16le-append q pad 0,
    rd_u32le-append q pad 4,
    rd_u32le-append q pad 50,
    sig_data_at-append 632 "TD quote too short while reading v4 sig_len"
        "v4 TD quote signature_data structure is not as expected" {r = r},
    sig_data_at-append (54 + rd_u32le q 50) "TD quote too short while reading v5 sig_len"
        "v5 TD quote signature_data structure is not as expected" {r = r},
  )

  -- Bytes behind a quote, such as the zeros with which a device fills its buffer, do not change the
  -- region of the certificates that is found in it.
  pub locate_region-append : {r : ℕ × ℕ} → locate_region q ≡ ok r → locate_region (q ++ pad) ≡ ok r
  unfolding locate_region
  locate_region-append {r} h =
      let ((sd, sdl), sig, found) = >>=-eq-ok (locate_sig_data q) _ h in
      let region = or_throw-eq-ok (locate_pck_region q sd sdl) _ found in
      rw (locate_sig_data-append sig, locate_pck_region-append sd sdl region)

sig_data_at-found :
    (q : Bytes) (len_off : ℕ) (short bad : String) (sd sdl : ℕ)
    → sig_data_at q len_off short bad ≡ ok (sd, sdl)
    → locate_pck_region q sd sdl ≢ none
unfolding sig_data_at need
sig_data_at-found q len_off short bad sd sdl h e =
    elim (Option-cases (locate_pck_region q (len_off + 4) (rd_u32le q len_off))) [
      | inl nothing ↦ ground arith
      | inr (region, found) ↦ ground arith
    ]

-- The second search of `extract_pck_chain_from_quote` never fails: where the signature data has been
-- located, its certificate region is there.
pub locate_sig_data-found :
    (q : Bytes) (sd sdl : ℕ) → locate_sig_data q ≡ ok (sd, sdl) → locate_pck_region q sd sdl ≢ none
unfolding locate_sig_data need
locate_sig_data-found q sd sdl h e = ground (
  arith,
  sig_data_at-found q 632 "TD quote too short while reading v4 sig_len"
      "v4 TD quote signature_data structure is not as expected" sd sdl,
  sig_data_at-found q (54 + rd_u32le q 50) "TD quote too short while reading v5 sig_len"
      "v5 TD quote signature_data structure is not as expected" sd sdl,
)

-- The region of the certificates lies inside the quote, behind the signature, the attestation key and
-- the QE report.
pub locate_region_bounds :
    (q : Bytes) (off size : ℕ)
    → locate_region q ≡ ok (off, size)
    → (590 ≤ off) × (off + size ≤ length q)
unfolding locate_region
locate_region_bounds q off size h =
    let ((sd, sdl), sig, found) = >>=-eq-ok (locate_sig_data q) _ h in
    let region = or_throw-eq-ok (locate_pck_region q sd sdl) _ found in
    omega (arith, locate_pck_region_bounds q sd sdl off size region)
