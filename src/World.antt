-- ===== src/World.antt =====
-- common/io.hpp: reading and writing whole files, over an explicit file system. Paths and contents
-- are byte strings. What the operating system does is part of the state: which files can be opened,
-- how much of a write reaches the disk, whether a change of mode or a rename succeeds.
pub mod Ends
pub mod Writes
use tee_anchor.Prelude.{
  ℕ, ◌≡◌, refl, Bool, true, false, Option, none, some, ltb, if◌then◌else◌, length, take, Bytes,
  bytes_eq, Result, ok, err, throw, String, Error,
}

pub record File : Type 0 where
  pub content : Bytes
  pub mode : ℕ

-- How the operating system answers at one path. An output stream writes through a buffer: of the
-- bytes of a text of `n` bytes, `flushed n` are handed on before the program tests the stream (none,
-- where all of it fits in the buffer), and the rest when it is closed. The disk takes `accepted` bytes
-- and no more.
pub record Medium : Type 0 where
  pub readable : Bool
  pub writable : Bool
  pub flushed : ℕ → ℕ
  pub accepted : ℕ
  pub can_chmod : Bool

pub record World : Type 0 where
  pub files : Bytes → Option File
  pub medium : Bytes → Medium
  pub can_rename : Bytes → Bytes → Bool
  -- the mode of a file that an output stream creates
  pub default_mode : ℕ
  -- `strftime(... "%Y%m%d%H%M%SZ", gmtime(time(nullptr)))`
  pub now : Bytes
  -- what `BN_rand` draws
  pub random : ℕ

-- An action may throw, and what it wrote before stays written.
abbrev pub Io : Type 0 → Type 0
Io A = World → Result A × World

abbrev pub continue : {A B : Type 0} → Result A → (A → Io B) → Io B
continue (ok a) f w = f a w
continue (err e) f w = (err e, w)

-- One action after another: an exception of the first one ends both.
abbrev pub and_then : {B : Type 0} → Io (Unit {0}) → Io B → Io B
and_then m k w = continue (m w).0 (λ u. k) (m w).1

unfoldable pub put_file : Bytes → File → (Bytes → Option File) → Bytes → Option File
put_file path f files q = if bytes_eq q path then some f else files q

unfoldable pub path_exists : Bytes → World → Bool
path_exists path w = elim (w.files path) [ none ↦ false | some f ↦ true ]

unfoldable pub read_file : Bytes → World → Result Bytes
read_file path w =
    if (w.medium path).readable
    then elim (w.files path) [ none ↦ throw "cannot open for reading" | some f ↦ ok f.content ]
    else throw "cannot open for reading"

-- The mode that the file has while the program writes it.
unfoldable pub mode_at : Bytes → World → ℕ
mode_at path w = elim (w.files path) [ none ↦ w.default_mode | some f ↦ f.mode ]

-- `std::ofstream(path, trunc)`, the text, and the close: the file holds what the disk took.
unfoldable pub spill : Bytes → Bytes → World → World
unfolding put_file mode_at
spill path text w = record w {
  files =
      put_file path (record { content = take (w.medium path).accepted text; mode = mode_at path w })
        w.files;
}

-- The state of the stream at the program's test: it failed if the disk refused a byte by then.
unfoldable pub stream_failed : Bytes → Bytes → World → Bool
stream_failed path text w =
    let m = w.medium path in
    let n = length text in ltb m.accepted (if ltb n (m.flushed n) then n else m.flushed n)

unfoldable pub set_mode : Bytes → ℕ → World → World
unfolding put_file
set_mode path mode w = record w {
  files = elim (w.files path) [
    | none ↦ w.files
    | some f ↦ put_file path (record f { mode = mode }) w.files
  ];
}

unfoldable pub write_file : Bytes → Bytes → ℕ → Io (Unit {0})
unfolding spill stream_failed set_mode
write_file path text mode w =
    if (w.medium path).writable
    then (let w' = spill path text w in
        if stream_failed path text w
        then (throw "write failed", w')
        else if (w.medium path).can_chmod
        then (ok tt, set_mode path mode w')
        else (throw "chmod failed", w'))
    else (throw "cannot open for writing", w)
