-- ===== src/RevocationDb/Saves.antt =====
-- What `save_revocation_db` of ca/revocation_db.cpp leaves behind, and what loading finds there.
use tee_anchor.Prelude.{
  ◌≤◌, ◌≡◌, ◌≢◌, ◌⊎◌, refl, ap, sym, ◌∙◌, true, false, some, length, length-append, take, Bytes,
  bytes_eq_refl, codes, Result, Error, tee_anchor_error, ok, err, arith, Bool-cases, inl, inr,
}
use tee_anchor.World.{File, World, put_file, mode_at, spill, stream_failed}
use tee_anchor.World.Writes.{take_all, bytes_ne, SameHost, Reported}
use tee_anchor.RevocationDb.{
  RevocationDb, load_revocation_db, save_revocation_db, parse_db, print_db, tmp_path, rename_file,
}
use tee_anchor.RevocationDb.RoundTrip.{IsDb, parse_db-print_db}

pub tmp_path-ne : (path : Bytes) → tmp_path path ≢ path
tmp_path-ne path e = absurd (omega (arith, length-append path (codes ".tmp"), ap length e))

-- The content of the file that a save has made.
abbrev pub saved : Bytes → RevocationDb → World → Bytes
saved path db w = take (w.medium (tmp_path path)).accepted (print_db db)

spill-same :
    (path text : Bytes) (w : World)
    → (f : File) × ((spill path text w).files path ≡ some f)
      × (f.content ≡ take (w.medium path).accepted text)
unfolding spill put_file
spill-same path text w = (
  record { content = take (w.medium path).accepted text; mode = mode_at path w },
  rw (bytes_eq_refl path) refl,
  refl,
)

spill-other :
    (path text : Bytes) (w : World) (q : Bytes) → q ≢ path → (spill path text w).files q ≡ w.files q
unfolding spill put_file
spill-other path text w q h = rw (bytes_ne path q h) refl

rename_file-target :
    (source target : Bytes) (w : World)
    → (rename_file source target w).files target ≡ w.files source
unfolding rename_file
rename_file-target source target w = rw (bytes_eq_refl target) refl

rename_file-other :
    (source target : Bytes) (w : World) (q : Bytes)
    → q ≢ source
    → q ≢ target
    → (rename_file source target w).files q ≡ w.files q
unfolding rename_file
rename_file-other source target w q h₁ h₂ = rw (bytes_ne target q h₂, bytes_ne source q h₁) refl

-- The ways in which a save can go.
data Saves (path : Bytes) (db : RevocationDb) (w : World) : Type 0 where
  renamed :
      save_revocation_db path db w
        ≡ (ok tt, rename_file (tmp_path path) path (spill (tmp_path path) (print_db db) w))
      → Saves path db w
  stopped :
      (e : Error)
      → save_revocation_db path db w ≡ (err e, spill (tmp_path path) (print_db db) w)
      → Saves path db w
  locked : (e : Error) → save_revocation_db path db w ≡ (err e, w) → Saves path db w

save_revocation_db-cases : (path : Bytes) (db : RevocationDb) (w : World) → Saves path db w
unfolding save_revocation_db
save_revocation_db-cases path db w = elim (Bool-cases (w.medium (tmp_path path)).writable) [
  | inr closed ↦ locked (tee_anchor_error "cannot open for writing") (rw closed refl)
  | inl open_ ↦ elim (Bool-cases (stream_failed (tmp_path path) (print_db db) w)) [
    | inl failed ↦ stopped (tee_anchor_error "write failed") (rw (open_, failed) refl)
    | inr good ↦ elim (Bool-cases (w.can_rename (tmp_path path) path)) [
      | inl can ↦ renamed (rw (open_, good, can) refl)
      | inr cannot ↦ stopped (tee_anchor_error "rename failed") (rw (open_, good, cannot) refl)
    ]
  ]
]

-- The file of the list changes only where the save reports success, and then it holds what the disk took
-- of the new text. A save that throws leaves it as it was.
pub save_revocation_db-replaces :
    (path : Bytes) (db : RevocationDb) (w : World)
    → (((save_revocation_db path db w).0 ≡ ok tt)
        × ((f : File) × ((save_revocation_db path db w).1.files path ≡ some f)
            × (f.content ≡ saved path db w)))
      ⊎ (((save_revocation_db path db w).0 ≢ ok tt)
          × ((save_revocation_db path db w).1.files path ≡ w.files path))
save_revocation_db-replaces path db w = elim (save_revocation_db-cases path db w) [
  | renamed e ↦
      let (f, there, content) = spill-same (tmp_path path) (print_db db) w in
      inl (
        ap (λ r. r.0) e,
        (
          f,
          ap (λ r. r.1.files path) e ∙ rename_file-target (tmp_path path) path _ ∙ there,
          content,
        ),
      )
  | stopped x e ↦ inr (
    (λ h. absurd (err_ne (sym (ap (λ r. r.0) e) ∙ h))),
    ap (λ r. r.1.files path) e
        ∙ spill-other (tmp_path path) (print_db db) w path (λ h. tmp_path-ne path (sym h)),
  )
  | locked x e ↦
      inr ((λ h. absurd (err_ne (sym (ap (λ r. r.0) e) ∙ h))), ap (λ r. r.1.files path) e)
]
  where
    err_ne : {x : Error} → ¬ (◌≡◌ {A = Result (Unit {0})} (err x) (ok tt))
    err_ne h = cc

-- A save that succeeds went through each of its steps.
save_revocation_db-steps :
    (path : Bytes) (db : RevocationDb) (w : World)
    → (save_revocation_db path db w).0 ≡ ok tt
    → ((w.medium (tmp_path path)).writable ≡ true)
      × (stream_failed (tmp_path path) (print_db db) w ≡ false)
      × (w.can_rename (tmp_path path) path ≡ true)
unfolding save_revocation_db
save_revocation_db-steps path db w h = ground arith

-- Where the write of the new text is not cut off in silence, a save is all or nothing: either it returns,
-- and the file of the list holds the whole new text, or it throws, and the file is what it was.
pub save_revocation_db-all_or_nothing :
    (path : Bytes) (db : RevocationDb) (w : World)
    → Reported (tmp_path path) (print_db db) w
    → (((save_revocation_db path db w).0 ≡ ok tt)
        × ((f : File) × ((save_revocation_db path db w).1.files path ≡ some f)
            × (f.content ≡ print_db db)))
      ⊎ (((save_revocation_db path db w).0 ≢ ok tt)
          × ((save_revocation_db path db w).1.files path ≡ w.files path))
save_revocation_db-all_or_nothing path db w reports = elim (save_revocation_db-replaces path db w) [
  | inr kept ↦ inr kept
  | inl (done, (f, there, content)) ↦
      let (writable, whole, can) = save_revocation_db-steps path db w done in
      inl (done, (f, there, content ∙ take_all _ (print_db db) (reports whole)))
]

-- No file but the list and the temporary one is touched.
pub save_revocation_db-frame :
    (path : Bytes) (db : RevocationDb) (w : World) (q : Bytes)
    → q ≢ path
    → q ≢ tmp_path path
    → (save_revocation_db path db w).1.files q ≡ w.files q
save_revocation_db-frame path db w q h₁ h₂ =
    let same = spill-other (tmp_path path) (print_db db) w q h₂ in
    elim (save_revocation_db-cases path db w) [
      | renamed e ↦
          ap (λ r. r.1.files q) e ∙ rename_file-other (tmp_path path) path _ q h₂ h₁ ∙ same
      | stopped x e ↦ ap (λ r. r.1.files q) e ∙ same
      | locked x e ↦ ap (λ r. r.1.files q) e
    ]

stream_failed-full :
    (path text : Bytes) (w : World)
    → length text ≤ (w.medium path).accepted
    → stream_failed path text w ≡ false
unfolding stream_failed
stream_failed-full path text w h = ground arith

save_revocation_db-renamed :
    (path : Bytes) (db : RevocationDb) (w : World)
    → (w.medium (tmp_path path)).writable ≡ true
    → stream_failed (tmp_path path) (print_db db) w ≡ false
    → w.can_rename (tmp_path path) path ≡ true
    → save_revocation_db path db w
      ≡ (ok tt, rename_file (tmp_path path) path (spill (tmp_path path) (print_db db) w))
unfolding save_revocation_db
save_revocation_db-renamed path db w h₁ h₂ h₃ = rw (h₁, h₂, h₃) refl

rename-readable :
    (source target text q : Bytes) (w : World)
    → ((rename_file source target (spill source text w)).medium q).readable ≡ (w.medium q).readable
unfolding rename_file spill
rename-readable source target text q w = refl

pub load-file :
    (path : Bytes) (w : World) (f : File)
    → (w.medium path).readable ≡ true
    → w.files path ≡ some f
    → load_revocation_db path w ≡ parse_db f.content
unfolding load_revocation_db
load-file path w f h₁ h₂ = rw (h₁, h₂) refl

-- Where the temporary file can be opened and renamed and the disk takes the whole text, a save
-- succeeds, and the list that it wrote is the list that is loaded next.
pub load-save_revocation_db :
    (path : Bytes) (db : RevocationDb) (w : World)
    → IsDb db
    → (w.medium (tmp_path path)).writable ≡ true
    → length (print_db db) ≤ (w.medium (tmp_path path)).accepted
    → w.can_rename (tmp_path path) path ≡ true
    → (w.medium path).readable ≡ true
    → ((save_revocation_db path db w).0 ≡ ok tt)
      × (load_revocation_db path (save_revocation_db path db w).1 ≡ ok db)
load-save_revocation_db path db w h h₁ h₂ h₃ h₄ =
    let e =
      save_revocation_db-renamed path db w h₁
        (stream_failed-full (tmp_path path) (print_db db) w h₂) h₃ in
    let (f, there, content) = spill-same (tmp_path path) (print_db db) w in
    (
      ap (λ r. r.0) e,
      ap (λ r. load_revocation_db path r.1) e
          ∙ load-file path _ f (rename-readable (tmp_path path) path (print_db db) path w ∙ h₄)
              (rename_file-target (tmp_path path) path _ ∙ there)
          ∙ ap parse_db (content ∙ take_all _ (print_db db) h₂)
          ∙ parse_db-print_db db h,
    )

-- Where the save is not cut off in silence, a list whose save succeeds is the list that is loaded next.
pub load-save_revocation_db-reported :
    (path : Bytes) (db : RevocationDb) (w : World)
    → IsDb db
    → (w.medium path).readable ≡ true
    → Reported (tmp_path path) (print_db db) w
    → (save_revocation_db path db w).0 ≡ ok tt
    → load_revocation_db path (save_revocation_db path db w).1 ≡ ok db
load-save_revocation_db-reported path db w good readable reports h =
    let (writable, whole, can) = save_revocation_db-steps path db w h in
    (load-save_revocation_db path db w good writable (reports whole) can readable).1

-- A save writes files and nothing else of the state.
pub save_revocation_db-SameHost :
    (path : Bytes) (db : RevocationDb) (w : World) → SameHost (save_revocation_db path db w).1 w
unfolding save_revocation_db spill rename_file
save_revocation_db-SameHost path db w = record {
  medium = ground arith;
  can_rename = ground arith;
  default_mode = ground arith;
  now = ground arith;
  random = ground arith;
}

-- What is loaded depends on the file, and on whether it can be opened.
pub load_revocation_db-same :
    (path : Bytes) (v w : World)
    → v.files path ≡ w.files path
    → (v.medium path).readable ≡ (w.medium path).readable
    → load_revocation_db path v ≡ load_revocation_db path w
unfolding load_revocation_db
load_revocation_db-same path v w h₁ h₂ = rw (h₁, h₂) refl
