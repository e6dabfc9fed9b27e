-- ===== src/Quote.antt =====
-- What provision/sgx/sgx_provision.cpp and provision/tdx/tdx_provision.cpp share: little-endian fields
-- of a buffer, the bounds test `need`, and the loop that reads PEM certificates from a region.
pub mod Reads
use tee_anchor.Prelude.{
  ℕ, zero, suc, ◌+◌, ◌-◌, ◌*◌, ◌^◌, Bool, ◌||◌, Option, none, some, [], ◌∷◌, List, ltb, ◌==◌,
  if◌then◌else◌, length, take, drop, slice, get_or, Bytes, String, Result, ok, err, throw, throw_if,
  out_of_fuel, ◌>>=◌, ◌>>◌,
}
use tee_anchor.OpenSsl.{OpenSsl, call}

-- `rd_u16le(&q[off])` and `rd_u32le(&q[off])`
unfoldable pub rd_u16le : Bytes → ℕ → ℕ
rd_u16le q off = get_or q off 0 + get_or q (off + 1) 0 * 2 ^ 8

unfoldable pub rd_u32le : Bytes → ℕ → ℕ
rd_u32le q off =
    get_or q off 0
    + get_or q (off + 1) 0 * 2 ^ 8
    + get_or q (off + 2) 0 * 2 ^ 16
    + get_or q (off + 3) 0 * 2 ^ 24

unfoldable pub need : Bytes → ℕ → ℕ → String → Result (Unit {0})
need q off n msg = throw_if (ltb (length q) off || ltb (length q - off) n) msg

unfoldable pub until_nul : Bytes → Bytes
until_nul [] = []
until_nul (b ∷ s) = let rest = until_nul s in if b == 0 then [] else b ∷ rest

-- `BIO_new_mem_buf(q.data() + off, static_cast<int>(size))`: a size from 2 ^ 31 on is negative as an
-- int, and then the buffer is read up to its first zero byte.
unfoldable pub mem_buf : Bytes → ℕ → ℕ → Bytes
unfolding until_nul
mem_buf q off size = if ltb size (2 ^ 31) then slice off size q else until_nul (drop off q)

module _ (ssl : OpenSsl) where
  -- `while (true) { raw = PEM_read_bio_X509(...); if (!raw) break; chain.emplace_back(raw); }`
  unfoldable pub read_certs : ℕ → Bytes → Result (List ssl.Cert)
  read_certs zero bio = err out_of_fuel
  read_certs (suc f) bio = elim (ssl.read_cert bio) [
    | none ↦ ok []
    | some (cert, rest) ↦ (do chain ← read_certs f rest; ok (cert ∷ chain))
  ]

  -- Each certificate takes a byte at least.
  unfoldable pub read_chain : Bytes → ℕ → ℕ → String → Result (List ssl.Cert)
  read_chain q off size msg = do
    call ssl "BIO_new_mem_buf"
    let bio = mem_buf q off size
    chain ← read_certs (suc (length bio)) bio
    elim chain [ [] ↦ throw msg | c ∷ cs ↦ ok (c ∷ cs) ]
