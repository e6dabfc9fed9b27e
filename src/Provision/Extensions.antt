-- ===== src/Provision/Extensions.antt =====
-- The extensions of an endorsement that provision/provision.cpp makes.
use tee_anchor.Prelude.{
  ℕ, ◌≡◌, ap, sym, ◌∙◌, true, List, [], ◌∷◌, ◌++◌, Bytes, ok, >>=-eq-ok, >>-eq-ok, ok_injective,
}
use tee_anchor.OpenSsl.{OpenSsl, Extension, conf, octets, call}
use tee_anchor.Pki.{add_v3_ext, make_oid}
use tee_anchor.CaInit.Creates.{add_v3_ext-ok}
use tee_anchor.Binding.{encode_chip_id_binding, make_chip_id_binding_extension, oid_chip_id_binding}
use tee_anchor.Provision.{endorsement_extensions}

-- The extensions of an endorsement, the binding last.
abbrev pub endorsed_extensions : Bytes → List Extension
endorsed_extensions der =
    conf "NID_basic_constraints" "critical,CA:FALSE"
    ∷ conf "NID_key_usage" "critical,digitalSignature"
    ∷ conf "NID_subject_key_identifier" "hash"
    ∷ conf "NID_authority_key_identifier" "keyid:always"
    ∷ octets oid_chip_id_binding true der
    ∷ []

module _ (ssl : OpenSsl) (max_items : ℕ) where
  binding_extension-ok :
      (der : Bytes) (e : Extension)
      → make_chip_id_binding_extension ssl der ≡ ok e
      → e ≡ octets oid_chip_id_binding true der
  unfolding make_chip_id_binding_extension make_oid
  binding_extension-ok der e h =
      let (oid, made, h₁) = >>=-eq-ok (make_oid ssl oid_chip_id_binding) _ h in
      let h₂ = (>>-eq-ok (call ssl "ASN1_OCTET_STRING_new") _ h₁).1 in
      let h₃ = (>>-eq-ok (call ssl "ASN1_OCTET_STRING_set") _ h₂).1 in
      let h₄ =
        (>>-eq-ok (call ssl "X509_EXTENSION_create_by_OBJ") (ok (octets oid true der)) h₃).1 in
      let same = (>>-eq-ok (call ssl "OBJ_txt2obj") (ok oid_chip_id_binding) made).1 in
      sym (ok_injective h₄) ∙ ap (λ o. octets o true der) (sym (ok_injective same))

  pub endorsement_extensions-ok :
      (tee_type : ℕ) (chip_id now : Bytes) (es : List Extension)
      → endorsement_extensions ssl max_items tee_type chip_id now ≡ ok es
      → (der : Bytes) × (encode_chip_id_binding tee_type chip_id now ≡ ok der)
        × (es ≡ endorsed_extensions der)
  unfolding endorsement_extensions
  endorsement_extensions-ok tee_type chip_id now es h =
      let (e₁, a₁, h₁) =
        >>=-eq-ok (add_v3_ext ssl "NID_basic_constraints" "critical,CA:FALSE" []) _ h in
      let (e₂, a₂, h₂) =
        >>=-eq-ok (add_v3_ext ssl "NID_key_usage" "critical,digitalSignature" e₁) _ h₁ in
      let (e₃, a₃, h₃) = >>=-eq-ok (add_v3_ext ssl "NID_subject_key_identifier" "hash" e₂) _ h₂ in
      let (e₄, a₄, h₄) =
        >>=-eq-ok (add_v3_ext ssl "NID_authority_key_identifier" "keyid:always" e₃) _ h₃ in
      let (der, encoded, h₅) = >>=-eq-ok (encode_chip_id_binding tee_type chip_id now) _ h₄ in
      let (ext, made, h₆) = >>=-eq-ok (make_chip_id_binding_extension ssl der) _ h₅ in
      let h₇ = (>>-eq-ok (call ssl "X509_add_ext (ChipIdBinding)") (ok (e₄ ++ (ext ∷ []))) h₆).1 in
      let four =
        add_v3_ext-ok ssl "NID_authority_key_identifier" "keyid:always" e₃ e₄ a₄
        ∙ ap (λ x. x ++ (conf "NID_authority_key_identifier" "keyid:always" ∷ []))
            (add_v3_ext-ok ssl "NID_subject_key_identifier" "hash" e₂ e₃ a₃
              ∙ ap (λ x. x ++ (conf "NID_subject_key_identifier" "hash" ∷ []))
                  (add_v3_ext-ok ssl "NID_key_usage" "critical,digitalSignature" e₁ e₂ a₂
                    ∙ ap (λ x. x ++ (conf "NID_key_usage" "critical,digitalSignature" ∷ []))
                        (add_v3_ext-ok ssl "NID_basic_constraints" "critical,CA:FALSE" [] e₁
                          a₁))) in
      (
        der,
        encoded,
        sym (ok_injective h₇)
            ∙ ap (λ x. x ++ (ext ∷ [])) four
            ∙ ap
                (λ x.
                  conf "NID_basic_constraints" "critical,CA:FALSE"
                  ∷ conf "NID_key_usage" "critical,digitalSignature"
                  ∷ conf "NID_subject_key_identifier" "hash"
                  ∷ conf "NID_authority_key_identifier" "keyid:always"
                  ∷ x
                  ∷ [])
                (binding_extension-ok der ext made),
      )
