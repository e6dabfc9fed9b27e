-- ===== src/World/Writes.antt =====
-- What `write_file` of common/io.hpp leaves behind, on each of its outcomes.
use tee_anchor.Prelude.{
  false, ℕ, suc, ◌≤◌, ◌<◌, ◌≡◌, ◌≢◌, refl, true, false, Option, some, arith, if◌then◌else◌, length,
  take, length-take, Bytes, bytes_eq, bytes_eq_iff, bytes_eq_refl, ◌∙◌, Result, ok, err, zero, [],
  ◌∷◌, ap,
}
use tee_anchor.World.{File, World, Io, continue, and_then, mode_at, stream_failed, write_file}

pub take_all : (n : ℕ) (xs : Bytes) → length xs ≤ n → take n xs ≡ xs
take_all zero [] h = refl
take_all zero (x ∷ xs) h = absurd (omega arith)
take_all (suc n) [] h = refl
take_all (suc n) (x ∷ xs) h = ap (λ (ys : Bytes). x ∷ ys) (take_all n xs (omega arith))

pub bytes_ne : (p q : Bytes) → q ≢ p → bytes_eq q p ≡ false
bytes_ne p q h = ground (arith, bytes_eq_iff q p)

-- No outcome of a write touches another path.
pub write_file-frame :
    (path text : Bytes) (mode : ℕ) (w : World) (q : Bytes)
    → q ≢ path
    → (write_file path text mode w).1.files q ≡ w.files q
unfolding write_file
write_file-frame path text mode w q h = ground (arith, bytes_ne path q h, bytes_eq_refl path)

-- What the operating system answers, the clock and the random source are no files: a write leaves
-- them as they are.
pub record SameHost (a b : World) : Type 0 where
  pub medium : a.medium ≡ b.medium
  pub can_rename : a.can_rename ≡ b.can_rename
  pub default_mode : a.default_mode ≡ b.default_mode
  pub now : a.now ≡ b.now
  pub random : a.random ≡ b.random

pub SameHost-eq : {a b : World} → a ≡ b → SameHost a b
SameHost-eq e = record {
  medium = ap (λ (w : World). w.medium) e;
  can_rename = ap (λ (w : World). w.can_rename) e;
  default_mode = ap (λ (w : World). w.default_mode) e;
  now = ap (λ (w : World). w.now) e;
  random = ap (λ (w : World). w.random) e;
}

pub SameHost-trans : {a b c : World} → SameHost a b → SameHost b c → SameHost a c
SameHost-trans p q = record {
  medium = p.medium ∙ q.medium;
  can_rename = p.can_rename ∙ q.can_rename;
  default_mode = p.default_mode ∙ q.default_mode;
  now = p.now ∙ q.now;
  random = p.random ∙ q.random;
}

pub write_file-SameHost :
    (path text : Bytes) (mode : ℕ) (w : World) → SameHost (write_file path text mode w).1 w
unfolding write_file
write_file-SameHost path text mode w = record {
  medium = ground arith;
  can_rename = ground arith;
  default_mode = ground arith;
  now = ground arith;
  random = ground arith;
}

-- The file that a write leaves, as a function of what the operating system does.
unfoldable pub written : Bytes → Bytes → ℕ → World → Option File
written path text mode w =
    let m = w.medium path in
    if m.writable
    then some (record {
      content = take m.accepted text;
      mode =
          if stream_failed path text w
          then mode_at path w
          else if m.can_chmod
          then mode
          else mode_at path w;
    })
    else w.files path

pub write_file-written :
    (path text : Bytes) (mode : ℕ) (w : World)
    → (write_file path text mode w).1.files path ≡ written path text mode w
unfolding write_file written
write_file-written path text mode w = ground (arith, bytes_eq_refl path)

-- Where the file can be opened, the disk takes the whole text and the mode can be set, a write
-- succeeds, and leaves exactly the text under exactly the mode.
pub write_file_complete :
    (path text : Bytes) (mode : ℕ) (w : World)
    → (w.medium path).writable ≡ true
    → length text ≤ (w.medium path).accepted
    → (w.medium path).can_chmod ≡ true
    → ((write_file path text mode w).0 ≡ ok tt)
      × ((write_file path text mode w).1.files path ≡ some (record { content = text; mode = mode }))
unfolding write_file
write_file_complete path text mode w h₁ h₂ h₃ =
    ground (arith, bytes_eq_refl path, take_all (w.medium path).accepted text h₂)

-- A write that reports success has set the mode, and has written what the disk took, which is all of
-- the text or, if the disk fills up while the stream is closed, less.
pub write_file-ok :
    (path text : Bytes) (mode : ℕ) (w : World)
    → (write_file path text mode w).0 ≡ ok tt
    → (write_file path text mode w).1.files path
      ≡ some (record { content = take (w.medium path).accepted text; mode = mode })
unfolding write_file
write_file-ok path text mode w h = ground (arith, bytes_eq_refl path)

-- The program tests the stream before it closes it, and never after. So where the disk takes what is
-- flushed by the test, and not the whole text, the write reports success on a file that is cut off.
pub write_file_cuts_off :
    (path text : Bytes) (mode : ℕ) (w : World)
    → (w.medium path).writable ≡ true
    → (w.medium path).can_chmod ≡ true
    → (w.medium path).flushed (length text) ≤ (w.medium path).accepted
    → (w.medium path).accepted < length text
    → ((write_file path text mode w).0 ≡ ok tt)
      × ((write_file path text mode w).1.files path
          ≡ some (record { content = take (w.medium path).accepted text; mode = mode }))
      × (take (w.medium path).accepted text ≢ text)
unfolding write_file
write_file_cuts_off path text mode w h₁ h₂ h₃ h₄ = (
  ground arith,
  ground (arith, bytes_eq_refl path),
  λ e. absurd (omega (arith, length-take (w.medium path).accepted text, ap length e)),
)

-- An action that succeeds has gone through each of its parts.
pub continue-ok :
    {A B : Type 0} (r : Result A) (f : A → Io B) (w : World) {b : B}
    → (continue r f w).0 ≡ ok b
    → (a : A) × (r ≡ ok a) × (continue r f w ≡ f a w)
continue-ok (ok a) f w h = (a, refl, refl)
continue-ok (err e) f w h = cc

pub and_then-ok :
    {B : Type 0} (m : Io (Unit {0})) (k : Io B) (w : World) {b : B}
    → (and_then m k w).0 ≡ ok b
    → ((m w).0 ≡ ok tt) × (and_then m k w ≡ k (m w).1)
and_then-ok m k w h = let (u, e, eq) = continue-ok (m w).0 (λ u. k) (m w).1 h in (e, eq)

-- The write of this text is not cut off in silence: a byte that the disk refuses is refused by the time
-- the program tests the stream. It holds wherever the disk has room for the text.
abbrev pub Reported : Bytes → Bytes → World → Type 0
Reported path text w = stream_failed path text w ≡ false → length text ≤ (w.medium path).accepted

pub Reported-SameHost :
    (path text : Bytes) (v w : World) → SameHost v w → Reported path text w → Reported path text v
unfolding stream_failed
Reported-SameHost path text v w same h = rw same.medium h

write_file-flushed :
    (path text : Bytes) (mode : ℕ) (w : World)
    → (write_file path text mode w).0 ≡ ok tt
    → stream_failed path text w ≡ false
unfolding write_file
write_file-flushed path text mode w h = ground arith

-- Where that holds, a write that reports success has written the whole text.
pub write_file-reported :
    (path text : Bytes) (mode : ℕ) (w : World)
    → Reported path text w
    → (write_file path text mode w).0 ≡ ok tt
    → (write_file path text mode w).1.files path ≡ some (record { content = text; mode = mode })
write_file-reported path text mode w reports h =
    write_file-ok path text mode w h
    ∙ ap (λ t. some (record { content = t; mode = mode }))
        (take_all (w.medium path).accepted text (reports (write_file-flushed path text mode w h)))
