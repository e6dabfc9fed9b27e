-- ===== src/Pki/DnRuns.antt =====
-- `parse_dn` of common/pki_util.hpp on names that are written as `key=value,...`.
use mathlib.Core.Logic.{◌≢◌}
use tee_anchor.Prelude.{
  ℕ, zero, suc, ◌<◌, ◌≡◌, refl, ap, sym, Bool, true, false, ◌||◌, none, some, List, [], ◌∷◌, ◌++◌,
  Bytes, is_empty, length, length-append, All, arith, if◌then◌else◌, Result, ok, err, throw,
  or_throw, out_of_fuel, ◌>>=◌, ◌>>◌, append-nil, Ends, Ends-bind, Ends-throw_if_then, String,
  Ends-or_throw, Ends-ne, Option-cases, inl, inr,
}
use tee_anchor.OpenSsl.{OpenSsl, call}
use tee_anchor.Pki.Trim.{trim, is_space}
use tee_anchor.Pki.Dn.{split_at, add_rdn, parse_dn_loop, parse_dn}

abbrev pub Lacks : ℕ → Bytes → Type 0
Lacks c s = All (λ x. x ≢ c) s

split_at-hit : (c : ℕ) (s rest : Bytes) → Lacks c s → split_at c (s ++ c ∷ rest) ≡ (s, some rest)
unfolding split_at
split_at-hit c [] rest h = ground arith
split_at-hit c (x ∷ s) rest (h, hs) = ground (arith, split_at-hit c s rest hs)

split_at-miss : (c : ℕ) (s : Bytes) → Lacks c s → split_at c s ≡ (s, none)
unfolding split_at
split_at-miss c [] h = refl
split_at-miss c (x ∷ s) (h, hs) = ground (arith, split_at-miss c s hs)

length-split_at : (c : ℕ) (s rest : Bytes) → (split_at c s).1 ≡ some rest → length rest < length s
unfolding split_at
length-split_at c [] rest e = cc
length-split_at c (x ∷ s) rest e = ground (arith, length-split_at c s rest)

-- A key or a value as it is written: it is not empty, begins and ends with no blank, and holds no
-- comma. A key holds no `=` either.
abbrev pub IsPart : Bytes → Type 0
IsPart s = (is_empty s ≡ false) × (trim is_space s ≡ s) × Lacks b',' s

abbrev pub Pairs : Type 0
Pairs = List (Bytes × Bytes)

-- `k=v,k=v`
unfoldable pub print_dn : Pairs → Bytes
print_dn [] = []
print_dn ((k, v) ∷ []) = k ++ b'=' ∷ v
print_dn ((k, v) ∷ p ∷ ps) = (k ++ b'=' ∷ v) ++ b',' ∷ print_dn (p ∷ ps)

abbrev pub AllParts : Pairs → Type 0
AllParts ps = All (λ kv. IsPart kv.0 × IsPart kv.1 × Lacks b'=' kv.0) ps

module _ (ssl : OpenSsl) where
  -- The name with the pairs added one after the other.
  unfoldable pub add_all : ssl.Name → Pairs → Result ssl.Name
  add_all name [] = ok name
  add_all name ((k, v) ∷ ps) = do
    name' ← or_throw (ssl.add_entry name k v) "X509_NAME_add_entry_by_txt"
    add_all name' ps

  add_rdn-print :
      (name : ssl.Name) (k v : Bytes)
      → IsPart k
      → IsPart v
      → Lacks b'=' k
      → add_rdn ssl name (k ++ b'=' ∷ v)
        ≡ or_throw (ssl.add_entry name k v) "X509_NAME_add_entry_by_txt"
  unfolding add_rdn
  add_rdn-print name k v (k₁, k₂, k₃) (v₁, v₂, v₃) h =
      rw (split_at-hit b'=' k v h, add_rdn) (rw (split_at-hit b'=' k v h, k₂, v₂, k₁, v₁))

  Lacks-append : (c : ℕ) (s t : Bytes) → Lacks c s → Lacks c t → Lacks c (s ++ t)
  Lacks-append c [] t hs ht = ht
  Lacks-append c (x ∷ s) t (hx, hs) ht = (hx, Lacks-append c s t hs ht)

  segment-Lacks : (k v : Bytes) → Lacks b',' k → Lacks b',' v → Lacks b',' (k ++ b'=' ∷ v)
  segment-Lacks k v hk hv = Lacks-append b',' k (b'=' ∷ v) hk (λ e. absurd (omega arith), hv)

  is_empty-segment : (k v rest : Bytes) → is_empty ((k ++ b'=' ∷ v) ++ rest) ≡ false
  is_empty-segment [] v rest = refl
  is_empty-segment (x ∷ k) v rest = refl

  bind_cong :
      (r : Result ssl.Name) {f g : ssl.Name → Result ssl.Name}
      → ((n : ssl.Name) → f n ≡ g n)
      → (r >>= f) ≡ (r >>= g)
  bind_cong (ok n) h = h n
  bind_cong (err e) h = refl

  bind_ok : (r : Result ssl.Name) → (r >>= λ n. ok n) ≡ r
  bind_ok (ok n) = refl
  bind_ok (err e) = refl

  loop_last :
      (f : ℕ) (name : ssl.Name) (dn : Bytes)
      → is_empty dn ≡ false
      → Lacks b',' dn
      → parse_dn_loop ssl (suc f) name dn ≡ add_rdn ssl name dn
  unfolding parse_dn_loop
  loop_last f name dn ne h = rw ne (rw (split_at-miss b',' dn h) (bind_ok (add_rdn ssl name dn)))

  loop_more :
      (f : ℕ) (name : ssl.Name) (dn rest : Bytes)
      → is_empty (dn ++ b',' ∷ rest) ≡ false
      → Lacks b',' dn
      → parse_dn_loop ssl (suc f) name (dn ++ b',' ∷ rest)
        ≡ (add_rdn ssl name dn >>= λ name'. parse_dn_loop ssl f name' rest)
  unfolding parse_dn_loop
  loop_more f name dn rest ne h = rw ne (rw (split_at-hit b',' dn rest h))

  parse_dn_loop-print :
      (ps : Pairs) (f : ℕ) (name : ssl.Name)
      → AllParts ps
      → length (print_dn ps) < f
      → parse_dn_loop ssl f name (print_dn ps) ≡ add_all name ps
  unfolding print_dn add_all
  parse_dn_loop-print ps zero name h g = absurd (omega arith)
  parse_dn_loop-print [] (suc f) name h g = unfold parse_dn_loop in refl
  parse_dn_loop-print ((k, v) ∷ []) (suc f) name ((hk, hv, he), hs) g =
      rw
        (loop_last f name (k ++ b'=' ∷ v) (rw append-nil at (is_empty-segment k v []))
          (segment-Lacks k v hk.2 hv.2))
        (rw (add_rdn-print name k v hk hv he) (sym (bind_ok _)))
  parse_dn_loop-print ((k, v) ∷ p ∷ ps) (suc f) name ((hk, hv, he), hs) g =
      rw
        (
          loop_more f name (k ++ b'=' ∷ v) (print_dn (p ∷ ps)) (is_empty-segment k v _)
              (segment-Lacks k v hk.2 hv.2),
          add_rdn-print name k v hk hv he,
        )
        (bind_cong (or_throw (ssl.add_entry name k v) "X509_NAME_add_entry_by_txt") λ name'.
          parse_dn_loop-print (p ∷ ps) f name' hs
            (omega (arith, length-append (k ++ b'=' ∷ v) (b',' ∷ print_dn (p ∷ ps)))))

  -- A name written as `key=value` segments joined by commas, of keys and values that are not empty,
  -- not padded with blanks and free of commas, parses to those entries in that order.
  pub parse_dn-print_dn :
      (ps : Pairs)
      → AllParts ps
      → parse_dn ssl (print_dn ps) ≡ (call ssl "X509_NAME_new" >> add_all ssl.empty_name ps)
  unfolding parse_dn
  parse_dn-print_dn ps h =
      ap (λ (r : Result ssl.Name). call ssl "X509_NAME_new" >> r)
        (parse_dn_loop-print ps (suc (length (print_dn ps))) ssl.empty_name h (omega arith))

  Ends-add_rdn : (name : ssl.Name) (rdn : Bytes) → Ends (add_rdn ssl name rdn)
  unfolding add_rdn
  Ends-add_rdn name rdn = elim (Option-cases (split_at b'=' rdn).1) [
    | inl e ↦ rw (e, add_rdn) tt
    | inr (v, e) ↦
        rw (e, add_rdn)
          (Ends-throw_if_then
            (is_empty (trim is_space (split_at b'=' rdn).0) || is_empty (trim is_space v))
            "invalid DN segment"
            (or_throw (ssl.add_entry name (trim is_space (split_at b'=' rdn).0) (trim is_space v))
              "X509_NAME_add_entry_by_txt")
            (Ends-or_throw
              (ssl.add_entry name (trim is_space (split_at b'=' rdn).0) (trim is_space v))
              "X509_NAME_add_entry_by_txt"))
  ]

  Ends-parse_dn_loop :
      (f : ℕ) (name : ssl.Name) (dn : Bytes) → length dn < f → Ends (parse_dn_loop ssl f name dn)
  unfolding parse_dn_loop
  Ends-parse_dn_loop zero name dn h = absurd (omega arith)
  Ends-parse_dn_loop (suc f) name [] h = tt
  Ends-parse_dn_loop (suc f) name (c ∷ s) h =
      Ends-bind (add_rdn ssl name (split_at b',' (c ∷ s)).0) _ (Ends-add_rdn name _) λ name' _.
        elim (Option-cases (split_at b',' (c ∷ s)).1) [
          | inl e ↦ rw e tt
          | inr (rest, e) ↦
              rw e (
                Ends-parse_dn_loop f name' rest
                  (omega (arith, length-split_at b',' (c ∷ s) rest e)))
        ]

  Ends-call : (name : String) → Ends (call ssl name)
  unfolding call
  Ends-call name = ends (ssl.succeeds name)
    where
      ends : (b : Bool) → Ends (if b then ok tt else throw name)
      ends true = tt
      ends false = tt

  -- The loop of `parse_dn` ends on every text: a name comes back, or an exception of the program.
  pub parse_dn-Ends : (dn : Bytes) → parse_dn ssl dn ≢ err out_of_fuel
  unfolding parse_dn
  parse_dn-Ends dn = Ends-ne (parse_dn ssl dn) (
      Ends-bind (call ssl "X509_NAME_new") _ (Ends-call "X509_NAME_new")
        (λ _ _. Ends-parse_dn_loop (suc (length dn)) ssl.empty_name dn (omega arith)))
