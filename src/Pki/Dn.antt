-- ===== src/Pki/Dn.antt =====
-- `parse_dn` of common/pki_util.hpp.
use tee_anchor.Prelude.{
  ℕ, zero, suc, ◌||◌, Option, none, some, [], ◌∷◌, Bytes, is_empty, length, if◌then◌else◌, ◌==◌,
  Result, ok, err, throw, throw_if, or_throw, out_of_fuel, ◌>>=◌, ◌>>◌,
}
use tee_anchor.OpenSsl.{OpenSsl, call}
use tee_anchor.Pki.Trim.{trim, is_space}

-- `s.find(c)`: what stands before the first `c`, and what stands behind it, if there is one.
unfoldable pub split_at : ℕ → Bytes → Bytes × Option Bytes
split_at c [] = ([], none)
split_at c (x ∷ s) =
    let (front, back) = split_at c s in if x == c then ([], some s) else (x ∷ front, back)

module _ (ssl : OpenSsl) where
  -- One `key=value` of the name.
  unfoldable pub add_rdn : ssl.Name → Bytes → Result ssl.Name
  unfolding split_at trim is_space
  add_rdn name rdn =
      let (k, back) = split_at b'=' rdn in
      elim back [
        | none ↦ throw "invalid DN segment (no '=')"
        | some v ↦ (do
          let key = trim is_space k
          let val = trim is_space v
          throw_if (is_empty key || is_empty val) "invalid DN segment"
          or_throw (ssl.add_entry name key val) "X509_NAME_add_entry_by_txt")
      ]

  -- The loop over the segments, from `pos` on. Each round passes a comma, so the length bounds them.
  unfoldable pub parse_dn_loop : ℕ → ssl.Name → Bytes → Result ssl.Name
  parse_dn_loop zero name dn = err out_of_fuel
  parse_dn_loop (suc f) name dn =
      let round = (do
        let parts = split_at b',' dn
        name' ← add_rdn name parts.0
        elim parts.1 [ none ↦ ok name' | some rest ↦ parse_dn_loop f name' rest ]) in
      if is_empty dn then ok name else round

  unfoldable pub parse_dn : Bytes → Result ssl.Name
  parse_dn dn = do call ssl "X509_NAME_new"; parse_dn_loop (suc (length dn)) ssl.empty_name dn
