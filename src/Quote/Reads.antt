-- ===== src/Quote/Reads.antt =====
-- Fields, regions and certificates of a quote of provision/sgx and provision/tdx.
use tee_anchor.Prelude.{
  ℕ, zero, suc, ◌+◌, ◌*◌, ◌^◌, ◌≤◌, ◌<◌, ◌≡◌, refl, ap, sym, some, [], ◌∷◌, ◌++◌, length, drop,
  get_or, take-append, drop-append, Bytes, String, ok, arith, Ends, Ends-bind, Option-cases, inl,
  inr,
}
use tee_anchor.OpenSsl.{OpenSsl}
use tee_anchor.Quote.{rd_u16le, rd_u32le, need, mem_buf, read_certs, read_chain}

pub get_or-append : (xs ys : Bytes) (i : ℕ) → i < length xs → get_or (xs ++ ys) i 0 ≡ get_or xs i 0
get_or-append [] ys i h = absurd (omega arith)
get_or-append (x ∷ xs) ys zero h = refl
get_or-append (x ∷ xs) ys (suc i) h = get_or-append xs ys i (omega arith)

get_or-skip : (xs ys : Bytes) (i j : ℕ) → j ≡ length xs + i → get_or (xs ++ ys) j 0 ≡ get_or ys i 0
get_or-skip [] ys i j h = ap (λ (k : ℕ). get_or ys k 0) (omega arith)
get_or-skip (x ∷ xs) ys i zero h = absurd (omega arith)
get_or-skip (x ∷ xs) ys i (suc j) h = get_or-skip xs ys i j (omega arith)

-- A field behind `front`.
pub rd_u16le-at :
    (front rest : Bytes) (off a b : ℕ)
    → length front ≡ off
    → rd_u16le (front ++ a ∷ b ∷ rest) off ≡ a + b * 2 ^ 8
unfolding rd_u16le
rd_u16le-at front rest off a b h = rw (
  get_or-skip front (a ∷ b ∷ rest) 0 off (omega arith),
  get_or-skip front (a ∷ b ∷ rest) 1 (off + 1) (omega arith),
)

pub rd_u32le-at :
    (front rest : Bytes) (off a b c d : ℕ)
    → length front ≡ off
    → rd_u32le (front ++ a ∷ b ∷ c ∷ d ∷ rest) off ≡ a + b * 2 ^ 8 + c * 2 ^ 16 + d * 2 ^ 24
unfolding rd_u32le
rd_u32le-at front rest off a b c d h = rw (
  get_or-skip front (a ∷ b ∷ c ∷ d ∷ rest) 0 off (omega arith),
  get_or-skip front (a ∷ b ∷ c ∷ d ∷ rest) 1 (off + 1) (omega arith),
  get_or-skip front (a ∷ b ∷ c ∷ d ∷ rest) 2 (off + 2) (omega arith),
  get_or-skip front (a ∷ b ∷ c ∷ d ∷ rest) 3 (off + 3) (omega arith),
)

-- A field that lies inside a buffer does not change when bytes are added behind the buffer.
pub rd_u16le-append :
    (q pad : Bytes) (off : ℕ) → off + 2 ≤ length q → rd_u16le (q ++ pad) off ≡ rd_u16le q off
unfolding rd_u16le
rd_u16le-append q pad off h =
    rw (get_or-append q pad off (omega arith), get_or-append q pad (off + 1) (omega arith))

pub rd_u32le-append :
    (q pad : Bytes) (off : ℕ) → off + 4 ≤ length q → rd_u32le (q ++ pad) off ≡ rd_u32le q off
unfolding rd_u32le
rd_u32le-append q pad off h = rw (
  get_or-append q pad off (omega arith),
  get_or-append q pad (off + 1) (omega arith),
  get_or-append q pad (off + 2) (omega arith),
  get_or-append q pad (off + 3) (omega arith),
)

pub need-ok : (q : Bytes) (off n : ℕ) (msg : String) → off + n ≤ length q → need q off n msg ≡ ok tt
unfolding need
need-ok q off n msg h = ground arith

pub need-bound :
    (q : Bytes) (off n : ℕ) (msg : String) {u : Unit {0}}
    → need q off n msg ≡ ok u
    → off + n ≤ length q
unfolding need
need-bound q off n msg h = ground arith

pub mem_buf-at :
    (front text rest : Bytes) (off : ℕ)
    → length front ≡ off
    → length text < 2 ^ 31
    → mem_buf (front ++ (text ++ rest)) off (length text) ≡ text
unfolding mem_buf
mem_buf-at front text rest off h small =
    let at : drop off (front ++ (text ++ rest)) ≡ text ++ rest =
      rw (sym h) (drop-append front (text ++ rest)) in
    rw (at, take-append text rest) (ground arith)

-- What the certificates of a region are, as a function of its bytes alone.
pub read_chain-bio :
    (ssl : OpenSsl) (q q' : Bytes) (off size off' size' : ℕ) (msg : String)
    → mem_buf q off size ≡ mem_buf q' off' size'
    → read_chain ssl q off size msg ≡ read_chain ssl q' off' size' msg
unfolding read_chain
read_chain-bio ssl q q' off size off' size' msg e = rw e

-- `PEM_read_bio_X509` moves the position of the buffer on.
abbrev pub ReadsOn : OpenSsl → Type 0
ReadsOn ssl =
    (b : Bytes) (c : ssl.Cert) (rest : Bytes)
    → ssl.read_cert b ≡ some (c, rest)
    → length rest < length b

module _ (ssl : OpenSsl) (reads_on : ReadsOn ssl) where
  pub Ends-read_certs : (f : ℕ) (bio : Bytes) → length bio < f → Ends (read_certs ssl f bio)
  unfolding read_certs
  Ends-read_certs zero bio h = absurd (omega arith)
  Ends-read_certs (suc f) bio h = elim (Option-cases (ssl.read_cert bio)) [
    | inl e ↦ rw (e, Ends) tt
    | inr ((c, rest), e) ↦
        rw (e, Ends)
          (Ends-bind (read_certs ssl f rest) _
            (Ends-read_certs f rest (omega (arith, reads_on bio c rest e))) (λ cs _. tt))
  ]
