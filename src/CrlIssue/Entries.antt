-- ===== src/CrlIssue/Entries.antt =====
-- The entries of a CRL of ca/crl_issue.cpp, and the entries of the list that they stand for.
use tee_anchor.Prelude.{
  ◌⊎◌, none, ℕ, ◌≡◌, refl, ap, sym, ◌∙◌, Option, some, List, [], ◌∷◌, Bytes, ok, or_throw,
  >>=-eq-ok, >>-eq-ok, subst, or_throw-eq-ok, ok_injective, inl, inr,
}
use tee_anchor.OpenSsl.{OpenSsl, Revoked, call}
use tee_anchor.RevocationDb.{RevocationEntry}
use tee_anchor.CrlIssue.{
  reason_to_int, asn1_int_from_hex, asn1_gentime_from_string, add_crl_reason_extension, revoked_of,
  revoked_list,
}

-- An entry of the CRL stands for an entry of the list: its serial number is what the list's digits
-- write, and its date is the list's.
pub record Lists (ssl : OpenSsl) (e : RevocationEntry) (r : Revoked) : Type 0 where
  pub serial : ssl.number_of_hex e.serial_hex ≡ some r.serial
  pub date : r.date ≡ e.revocation_date
  pub reason :
      ((e.reason ≡ []) × (r.reason ≡ none))
      ⊎ ((n : ℕ) × (reason_to_int e.reason ≡ ok n) × (r.reason ≡ some n))

-- The entries of the two stand for each other, one by one and in order.
abbrev pub AllLists : (ssl : OpenSsl) → List RevocationEntry → List Revoked → Type 0
AllLists ssl [] [] = Unit
AllLists ssl [] (r ∷ rs) = ⊥
AllLists ssl (e ∷ es) [] = ⊥
AllLists ssl (e ∷ es) (r ∷ rs) = Lists ssl e r × AllLists ssl es rs

module _ (ssl : OpenSsl) where
  asn1_int_from_hex-ok :
      (hex : Bytes) (n : ℕ) → asn1_int_from_hex ssl hex ≡ ok n → ssl.number_of_hex hex ≡ some n
  unfolding asn1_int_from_hex
  asn1_int_from_hex-ok hex n h =
      let (m, h₁, h₂) = >>=-eq-ok (or_throw (ssl.number_of_hex hex) "BN_hex2bn") _ h in
      or_throw-eq-ok (ssl.number_of_hex hex) "BN_hex2bn" h₁
      ∙ ap some (ok_injective (>>-eq-ok (call ssl "BN_to_ASN1_INTEGER") (ok m) h₂).1)

  asn1_gentime-ok : (ts t : Bytes) → asn1_gentime_from_string ssl ts ≡ ok t → t ≡ ts
  unfolding asn1_gentime_from_string
  asn1_gentime-ok ts t h =
      let h₁ = (>>-eq-ok (call ssl "ASN1_GENERALIZEDTIME_new") _ h).1 in
      sym (ok_injective (>>-eq-ok _ (ok ts) h₁).1)

  add_crl_reason_extension-ok :
      (name : Bytes) (r : Option ℕ)
      → add_crl_reason_extension ssl name ≡ ok r
      → ((name ≡ []) × (r ≡ none)) ⊎ ((n : ℕ) × (reason_to_int name ≡ ok n) × (r ≡ some n))
  unfolding add_crl_reason_extension
  add_crl_reason_extension-ok [] r h = inl (refl, sym (ok_injective h))
  add_crl_reason_extension-ok (c ∷ cs) r h =
      let (n, code, h₁) = >>=-eq-ok (reason_to_int (c ∷ cs)) _ h in
      let h₂ = (>>-eq-ok (call ssl "ASN1_ENUMERATED_new") _ h₁).1 in
      let h₃ = (>>-eq-ok (call ssl "ASN1_ENUMERATED_set") _ h₂).1 in
      let h₄ = (>>-eq-ok (call ssl "X509_REVOKED_add1_ext_i2d (crl_reason)") (ok (some n)) h₃).1 in
      inr (n, code, sym (ok_injective h₄))

  revoked_of-ok : (e : RevocationEntry) (r : Revoked) → revoked_of ssl e ≡ ok r → Lists ssl e r
  unfolding revoked_of
  revoked_of-ok e r h =
      let h₁ = (>>-eq-ok (call ssl "X509_REVOKED_new") _ h).1 in
      let (sn, serial, h₂) = >>=-eq-ok (asn1_int_from_hex ssl e.serial_hex) _ h₁ in
      let h₃ = (>>-eq-ok (call ssl "X509_REVOKED_set_serialNumber") _ h₂).1 in
      let (rd, date, h₄) = >>=-eq-ok (asn1_gentime_from_string ssl e.revocation_date) _ h₃ in
      let h₅ = (>>-eq-ok (call ssl "X509_REVOKED_set_revocationDate") _ h₄).1 in
      let (code, reason, h₆) = >>=-eq-ok (add_crl_reason_extension ssl e.reason) _ h₅ in
      let same = ok_injective (>>-eq-ok (call ssl "X509_CRL_add0_revoked") _ h₆).1 in
      record {
        serial =
            asn1_int_from_hex-ok e.serial_hex sn serial ∙ ap (λ (x : Revoked). some x.serial) same;
        date = sym (ap (λ (x : Revoked). x.date) same) ∙ asn1_gentime-ok e.revocation_date rd date;
        reason =
            add_crl_reason_extension-ok e.reason r.reason
              (reason ∙ ap (λ (x : Revoked). ok x.reason) same);
      }

  pub revoked_list-ok :
      (es : List RevocationEntry) (rs : List Revoked)
      → revoked_list ssl es ≡ ok rs
      → AllLists ssl es rs
  unfolding revoked_list
  revoked_list-ok [] [] h = tt
  revoked_list-ok [] (r ∷ rs) h = absurd (cons_ne (ok_injective h))
    where
      cons_ne : ¬ (◌≡◌ {A = List Revoked} [] (r ∷ rs))
      cons_ne e = cc
  revoked_list-ok (e ∷ es) rs h =
      let (r, h₁, h₂) = >>=-eq-ok (revoked_of ssl e) _ h in
      let (rest, h₃, h₄) = >>=-eq-ok (revoked_list ssl es) _ h₂ in
      subst (λ l. AllLists ssl (e ∷ es) l) (ok_injective h₄)
        (revoked_of-ok e r h₁, revoked_list-ok es rest h₃)
