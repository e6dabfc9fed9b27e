-- ===== src/Verify/Codes.antt =====
-- The exit codes of verify/verify.cpp.
use tee_anchor.Prelude.{ℕ, ◌≡◌, ◌⊎◌, ◌∙◌, Bytes, ok, err, Error, Result-cases, inl, inr, arith}
use tee_anchor.Prelude.{
  refl, subst, tee_anchor_error, std_exception, out_of_fuel, Result, >>=-eq-ok, ok_injective,
}
use tee_anchor.Prelude.Endings.{Stops, Stops-ne}
use tee_anchor.Binding.{ChipIdBinding, extract_chip_id_binding}
use tee_anchor.Binding.RoundTrip.{DerLaws}
use tee_anchor.Quote.Reads.{ReadsOn}
use tee_anchor.Verify.Ends.{
  check_args-Stops, load_inputs-Stops, verify_org_chain-Stops, compare_binding-Stops,
  verify_evidence-Stops,
}
use tee_anchor.OpenSsl.{OpenSsl, err_cert_revoked}
use tee_anchor.World.{World}
use tee_anchor.Verify.Args.{VerifyArgs, check_args}
use tee_anchor.Verify.{
  caught, exit_internal, exit_revoked, exit_org_failed, OrgChainStatus, chain_ok, revoked,
  other_fail, expected_tee_type, Inputs, load_inputs, org_context, org_status, org_store,
  verify_evidence_and_extract_chip_id, verify_org_chain, check_binding, check_org, check_evidence,
  run_verify, compare_binding, binding_code,
}
use tee_anchor.Verify.Accepts.{run_verify-loaded, check_evidence-good}

-- The codes that the usage text of `verify` documents.
abbrev pub IsDocumented : ℕ → Type 0
IsDocumented c = (c ≡ 0) ⊎ (c ≡ 20) ⊎ (c ≡ 21) ⊎ (c ≡ 22) ⊎ (c ≡ 24) ⊎ (c ≡ 30)

pub caught-Stops :
    {A : Type 0} (r : Result A) (e : Error) (n : ℕ) → Stops r → r ≡ err e → caught e n ≡ n
caught-Stops r (tee_anchor_error msg) n h eq = refl
caught-Stops r (std_exception msg) n h eq = refl
caught-Stops r out_of_fuel n h eq = absurd (Stops-ne r h eq)

binding_code-codes :
    (chip : ChipIdBinding) (expected : ℕ) (evidence : Bytes)
    → (binding_code chip expected evidence ≡ 0) ⊎ (binding_code chip expected evidence ≡ 22)
unfolding binding_code
binding_code-codes chip expected evidence = ground arith

-- The three ends of step (2), and the code of step (3).
status-codes :
    (r : Result OrgChainStatus) (code : ℕ)
    → Stops r
    → (code ≡ 0) ⊎ (code ≡ 22)
    → IsDocumented (elim r as (λ _. ℕ) [
      | err e ↦ caught e exit_internal
      | ok chain_ok ↦ code
      | ok revoked ↦ exit_revoked
      | ok other_fail ↦ exit_org_failed
    ])
status-codes (ok chain_ok) code h c = ground arith
status-codes (ok revoked) code h c = ground arith
status-codes (ok other_fail) code h c = ground arith
status-codes (err (tee_anchor_error msg)) code h c = ground arith
status-codes (err (std_exception msg)) code h c = ground arith
status-codes (err out_of_fuel) code h c = absurd h.ends

internal : {c : ℕ} → c ≡ 30 → IsDocumented c
internal h = inr (inr (inr (inr (inr h))))

module _ (ssl : OpenSsl) (max_items : ℕ) where
  compare_binding-codes :
      (tee_type evidence : Bytes) (org_cert : ssl.Cert) (code : ℕ)
      → compare_binding ssl max_items tee_type evidence org_cert ≡ ok code
      → (code ≡ 0) ⊎ (code ≡ 22)
  unfolding compare_binding
  compare_binding-codes tee_type evidence org_cert code h =
      let (chip, bound, h₁) = >>=-eq-ok (extract_chip_id_binding ssl org_cert) _ h in
      let (expected, kind, h₂) = >>=-eq-ok (expected_tee_type tee_type) _ h₁ in
      subst (λ c. (c ≡ 0) ⊎ (c ≡ 22)) (ok_injective h₂) (binding_code-codes chip expected evidence)

  check_binding-codes :
      (tee_type evidence : Bytes) (org_cert : ssl.Cert)
      → (check_binding ssl max_items tee_type evidence org_cert ≡ 0)
        ⊎ (check_binding ssl max_items tee_type evidence org_cert ≡ 22)
  unfolding check_binding
  check_binding-codes tee_type evidence org_cert =
      let r = compare_binding ssl max_items tee_type evidence org_cert in
      elim (Result-cases r) [
        | inl (code, e) ↦ rw e (compare_binding-codes tee_type evidence org_cert code e)
        | inr (x, e) ↦ rw e (
            inr (
              caught-Stops r x 22 (compare_binding-Stops ssl max_items tee_type evidence org_cert)
                e))
      ]

  check_org-codes :
      (tee_type evidence : Bytes) (inputs : Inputs ssl max_items)
      → IsDocumented (check_org ssl max_items tee_type evidence inputs)
  unfolding check_org
  check_org-codes tee_type evidence inputs =
      status-codes _ _
        (verify_org_chain-Stops ssl max_items inputs.org_cert inputs.org_ca inputs.org_crl)
        (check_binding-codes tee_type evidence inputs.org_cert)

  module _ (laws : DerLaws ssl) (reads_on : ReadsOn ssl) where
    check_evidence-codes :
        (args : VerifyArgs) (inputs : Inputs ssl max_items) (w : World)
        → IsDocumented (check_evidence ssl max_items args inputs w)
    unfolding check_evidence
    check_evidence-codes args inputs w =
        let r = verify_evidence_and_extract_chip_id ssl max_items args w in
        elim (Result-cases r) [
          | inl (chip_id, e) ↦ rw (e, check_evidence) (check_org-codes args.tee_type chip_id inputs)
          | inr (x, e) ↦
              rw (e, check_evidence)
                (inr (
                  inl (
                    caught-Stops r x 20 (verify_evidence-Stops ssl max_items laws reads_on args w)
                      e)))
        ]

    pub run_verify-codes :
        (args : VerifyArgs) (w : World) → IsDocumented (run_verify ssl max_items args w)
    unfolding run_verify
    run_verify-codes args w =
        let c = check_args args in
        let r = load_inputs ssl max_items args w in
        elim (Result-cases c) [
          | inr (x, e) ↦
              rw (e, run_verify) (internal (caught-Stops c x 30 (check_args-Stops args) e))
          | inl (u, e) ↦ elim (Result-cases r) [
            | inl (inputs, e') ↦ rw (e, e', run_verify) (check_evidence-codes args inputs w)
            | inr (x, e') ↦
                rw (e, e', run_verify)
                  (internal (caught-Stops r x 30 (load_inputs-Stops ssl max_items args w) e'))
          ]
        ]

  -- A revoked endorsement is reported as such, with 24: where everything before it is good and OpenSSL
  -- says that the certificate is revoked, the chip id is not compared any more.
  pub run_verify_revoked :
      (args : VerifyArgs) (w : World) (inputs : Inputs ssl max_items) (chip_id : Bytes)
      → check_args args ≡ ok tt
      → load_inputs ssl max_items args w ≡ ok inputs
      → verify_evidence_and_extract_chip_id ssl max_items args w ≡ ok chip_id
      → org_context ssl max_items inputs.org_crl ≡ ok tt
      → ssl.verify_cert (org_store ssl max_items inputs.org_ca inputs.org_crl) inputs.org_cert
        ≡ err_cert_revoked
      → run_verify ssl max_items args w ≡ 24
  unfolding check_org verify_org_chain org_status
  run_verify_revoked args w inputs chip_id h₁ h₂ h₃ h₄ h₅ =
      run_verify-loaded ssl max_items args w inputs h₁ h₂
      ∙ check_evidence-good ssl max_items args w inputs chip_id h₃
      ∙ ground arith
