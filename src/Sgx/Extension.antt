-- ===== src/Sgx/Extension.antt =====
-- `walk_extension` and `find_sgx_extension_octet` of provision/sgx/sgx_provision.cpp.
use tee_anchor.Prelude.{
  ℕ, zero, suc, Option, none, some, [], ◌∷◌, ◌==◌, if◌then◌else◌, length, take, drop, Bytes,
  bytes_eq, codes, Result, ok, err, out_of_fuel, ◌>>=◌,
}
use tee_anchor.OpenSsl.{OpenSsl}
use tee_anchor.Pki.{make_oid}

abbrev pub oid_sgx_extension : Bytes
oid_sgx_extension = codes "1.2.840.113741.1.13.1"

abbrev pub oid_sgx_ppid : Bytes
oid_sgx_ppid = codes "1.2.840.113741.1.13.1.1"

-- `V_ASN1_SEQUENCE`
abbrev pub tag_sequence : ℕ
tag_sequence = 16

module _ (ssl : OpenSsl) where
  -- The value behind the OID of an element.
  unfoldable pub element_value : Bytes → Option Bytes
  element_value op = elim (ssl.get_object op) [
    | none ↦ none
    | some (vtag, vlen, v) ↦ some (take vlen v)
  ]

  -- `while (p < end)`: the bytes from `p` to `end`. An element takes a byte at least.
  unfoldable pub walk_loop : ℕ → Bytes → Bytes → Result (Option Bytes)
  walk_loop zero p target = err out_of_fuel
  walk_loop (suc f) [] target = ok none
  walk_loop (suc f) (b ∷ bs) target = elim (ssl.get_object (b ∷ bs)) [
    | none ↦ ok none
    | some (tag, elem_len, q) ↦
        let next = walk_loop f (drop elem_len q) target in
        if tag == tag_sequence
        then (elim (ssl.read_oid (take elem_len q)) [
          | none ↦ ok none
          | some (oid, op) ↦ if bytes_eq oid target then ok (element_value op) else next
        ])
        else ok none
  ]

  unfoldable pub walk_extension : Bytes → Bytes → Result (Option Bytes)
  walk_extension der target = elim (ssl.get_object der) [
    | none ↦ ok none
    | some (tag, len, p) ↦
        if tag == tag_sequence
        then walk_loop (suc (length (take len p))) (take len p) target
        else ok none
  ]

  unfoldable pub find_sgx_extension_octet : ssl.Cert → Bytes → Result (Option Bytes)
  find_sgx_extension_octet leaf oid = do
    ext_oid ← make_oid ssl oid_sgx_extension
    elim (ssl.extension leaf ext_oid) [
      | none ↦ ok none
      | some none ↦ ok none
      | some (some der) ↦ (do target ← make_oid ssl oid; walk_extension der target)
    ]
