-- ===== src/Verify/Accepts.antt =====
-- What an accepted verification of verify/verify.cpp has established, and what makes it accept.
use tee_anchor.Prelude.{
  ℕ, ◌≡◌, ◌≢◌, ◌↔◌, refl, ap, Option, length, Bytes, bytes_eq_iff, Result, ok, err, Result-cases,
  >>=-eq-ok, inl, inr, arith, >>-eq-ok, ok_injective, ◌∙◌, ◌>>=◌,
}
use tee_anchor.Prelude.{tee_anchor_error, std_exception, out_of_fuel}
use tee_anchor.Prelude.Endings.{Stops, stops_rules}
use tee_anchor.OpenSsl.{OpenSsl}
use tee_anchor.World.{World}
use tee_anchor.Binding.{ChipIdBinding, extract_chip_id_binding}
use tee_anchor.Verify.Args.{VerifyArgs, check_args}
use tee_anchor.Verify.{
  chain_ok, expected_tee_type, Inputs, load_inputs, verify_evidence_and_extract_chip_id,
  verify_org_chain, org_store, compare_binding, check_binding, check_org, check_evidence,
  run_verify, or_exit, org_status, org_context, binding_code,
}

-- The evidence, the endorsement and the organization's chain fit together.
pub record Accepted (ssl : OpenSsl) (max_items : ℕ) (args : VerifyArgs) (w : World) : Type 0 where
  pub inputs : Inputs ssl max_items
  pub chip_id : Bytes
  pub binding : ChipIdBinding
  pub arguments : check_args args ≡ ok tt
  pub loaded : load_inputs ssl max_items args w ≡ ok inputs
  pub evidence : verify_evidence_and_extract_chip_id ssl max_items args w ≡ ok chip_id
  pub chain :
      verify_org_chain ssl max_items inputs.org_cert inputs.org_ca inputs.org_crl ≡ ok chain_ok
  pub bound : extract_chip_id_binding ssl inputs.org_cert ≡ ok binding
  pub tee_type : expected_tee_type args.tee_type ≡ ok binding.tee_type
  pub same_chip : binding.chip_id ≡ chip_id

org_status-chain_ok : (code : ℕ) → org_status code ≡ chain_ok → code ≡ 0
unfolding org_status
org_status-chain_ok code h = ground arith

binding_code-ok :
    (chip : ChipIdBinding) (expected : ℕ) (evidence : Bytes)
    → binding_code chip expected evidence ≡ 0
    → (expected ≡ chip.tee_type) × (chip.chip_id ≡ evidence)
unfolding binding_code
binding_code-ok chip expected evidence h = ground (arith, bytes_eq_iff chip.chip_id evidence)

binding_code-same :
    (chip : ChipIdBinding) (evidence : Bytes)
    → chip.chip_id ≡ evidence
    → binding_code chip chip.tee_type evidence ≡ 0
unfolding binding_code
binding_code-same chip evidence h = ground (arith, bytes_eq_iff chip.chip_id evidence, ap length h)

binding_code-ne :
    (chip : ChipIdBinding) (expected : ℕ) (evidence : Bytes)
    → chip.chip_id ≢ evidence
    → binding_code chip expected evidence ≡ 22
unfolding binding_code
binding_code-ne chip expected evidence h = ground (arith, bytes_eq_iff chip.chip_id evidence)

or_exit-ok : (r : Result ℕ) → or_exit r 22 ≡ 0 → r ≡ ok 0
or_exit-ok (ok code) h = ap ok h
or_exit-ok (err (tee_anchor_error msg)) h = absurd (omega arith)
or_exit-ok (err (std_exception msg)) h = absurd (omega arith)
or_exit-ok (err out_of_fuel) h = absurd (omega arith)

pub expected_tee_type-Stops : (s : Bytes) → Stops (expected_tee_type s)
unfolding expected_tee_type
expected_tee_type-Stops s = search stops_rules depth 6

module _ (ssl : OpenSsl) (max_items : ℕ) where
  -- The chain is accepted only by a verification of OpenSSL without an error.
  pub verify_org_chain-chain_ok :
      (org_cert org_ca : ssl.Cert) (crl : Option ssl.Crl)
      → verify_org_chain ssl max_items org_cert org_ca crl ≡ ok chain_ok
      → ssl.verify_cert (org_store ssl max_items org_ca crl) org_cert ≡ 0
  unfolding verify_org_chain
  verify_org_chain-chain_ok org_cert org_ca crl h =
      org_status-chain_ok _ (ok_injective (>>-eq-ok (org_context ssl max_items crl) _ h).1)

  compare_binding-ok :
      (tee_type evidence : Bytes) (org_cert : ssl.Cert)
      → compare_binding ssl max_items tee_type evidence org_cert ≡ ok 0
      → (chip : ChipIdBinding) × (extract_chip_id_binding ssl org_cert ≡ ok chip)
        × (expected_tee_type tee_type ≡ ok chip.tee_type)
        × (chip.chip_id ≡ evidence)
  unfolding compare_binding
  compare_binding-ok tee_type evidence org_cert h =
      let (chip, bound, h') = >>=-eq-ok (extract_chip_id_binding ssl org_cert) _ h in
      let (expected, e, h'') = >>=-eq-ok (expected_tee_type tee_type) _ h' in
      let (kind, same) = binding_code-ok chip expected evidence (ok_injective h'') in
      (chip, bound, e ∙ ap ok kind, same)

  check_binding-ok :
      (tee_type evidence : Bytes) (org_cert : ssl.Cert)
      → check_binding ssl max_items tee_type evidence org_cert ≡ 0
      → compare_binding ssl max_items tee_type evidence org_cert ≡ ok 0
  unfolding check_binding
  check_binding-ok tee_type evidence org_cert h =
      or_exit-ok (compare_binding ssl max_items tee_type evidence org_cert) h

  check_org-ok :
      (tee_type evidence : Bytes) (inputs : Inputs ssl max_items)
      → check_org ssl max_items tee_type evidence inputs ≡ 0
      → (verify_org_chain ssl max_items inputs.org_cert inputs.org_ca inputs.org_crl ≡ ok chain_ok)
        × (check_binding ssl max_items tee_type evidence inputs.org_cert ≡ 0)
  unfolding check_org
  check_org-ok tee_type evidence inputs h = ground arith

  check_evidence-ok :
      (args : VerifyArgs) (inputs : Inputs ssl max_items) (w : World)
      → check_evidence ssl max_items args inputs w ≡ 0
      → (chip_id : Bytes) × (verify_evidence_and_extract_chip_id ssl max_items args w ≡ ok chip_id)
        × (check_org ssl max_items args.tee_type chip_id inputs ≡ 0)
  unfolding check_evidence
  check_evidence-ok args inputs w h =
      elim (Result-cases (verify_evidence_and_extract_chip_id ssl max_items args w)) [
        | inl (chip_id, e) ↦ (chip_id, e, rw (e, check_evidence) at h)
        | inr (x, e) ↦ absurd (ground arith)
      ]

  run_verify-inputs :
      (args : VerifyArgs) (w : World)
      → run_verify ssl max_items args w ≡ 0
      → (inputs : Inputs ssl max_items) × (check_args args ≡ ok tt)
        × (load_inputs ssl max_items args w ≡ ok inputs)
        × (check_evidence ssl max_items args inputs w ≡ 0)
  unfolding run_verify
  run_verify-inputs args w h = elim (Result-cases (load_inputs ssl max_items args w)) [
    | inl (inputs, e) ↦ (inputs, ground arith, e, ground arith)
    | inr (x, e) ↦ absurd (ground arith)
  ]

  Accepted-of :
      (args : VerifyArgs) (w : World)
      → run_verify ssl max_items args w ≡ 0
      → Accepted ssl max_items args w
  Accepted-of args w h =
      let (inputs, arguments, loaded, h₁) = run_verify-inputs args w h in
      let (chip_id, evidence, h₂) = check_evidence-ok args inputs w h₁ in
      let (chain, h₃) = check_org-ok args.tee_type chip_id inputs h₂ in
      let (binding, bound, kind, same) =
        compare_binding-ok args.tee_type chip_id inputs.org_cert
          (check_binding-ok args.tee_type chip_id inputs.org_cert h₃) in
      record {
        inputs = inputs;
        chip_id = chip_id;
        binding = binding;
        arguments = arguments;
        loaded = loaded;
        evidence = evidence;
        chain = chain;
        bound = bound;
        tee_type = kind;
        same_chip = same;
      }

  -- The steps of `run_verify`, one after the other.
  pub run_verify-loaded :
      (args : VerifyArgs) (w : World) (inputs : Inputs ssl max_items)
      → check_args args ≡ ok tt
      → load_inputs ssl max_items args w ≡ ok inputs
      → run_verify ssl max_items args w ≡ check_evidence ssl max_items args inputs w
  unfolding run_verify
  run_verify-loaded args w inputs h₁ h₂ = ground arith

  pub check_evidence-good :
      (args : VerifyArgs) (w : World) (inputs : Inputs ssl max_items) (chip_id : Bytes)
      → verify_evidence_and_extract_chip_id ssl max_items args w ≡ ok chip_id
      → check_evidence ssl max_items args inputs w
        ≡ check_org ssl max_items args.tee_type chip_id inputs
  unfolding check_evidence
  check_evidence-good args w inputs chip_id h = ground arith

  pub check_org-good :
      (tee_type evidence : Bytes) (inputs : Inputs ssl max_items)
      → verify_org_chain ssl max_items inputs.org_cert inputs.org_ca inputs.org_crl ≡ ok chain_ok
      → check_org ssl max_items tee_type evidence inputs
        ≡ check_binding ssl max_items tee_type evidence inputs.org_cert
  unfolding check_org
  check_org-good tee_type evidence inputs h = ground arith

  check_binding-bound :
      (tee_type evidence : Bytes) (org_cert : ssl.Cert) (chip : ChipIdBinding)
      → extract_chip_id_binding ssl org_cert ≡ ok chip
      → check_binding ssl max_items tee_type evidence org_cert
        ≡ or_exit (expected_tee_type tee_type >>= λ n. ok (binding_code chip n evidence)) 22
  unfolding check_binding compare_binding
  check_binding-bound tee_type evidence org_cert chip h = rw h

  accepts :
      (args : VerifyArgs) (w : World)
      → Accepted ssl max_items args w
      → run_verify ssl max_items args w ≡ 0
  accepts args w a =
      run_verify-loaded args w a.inputs a.arguments a.loaded
      ∙ check_evidence-good args w a.inputs a.chip_id a.evidence
      ∙ check_org-good args.tee_type a.chip_id a.inputs a.chain
      ∙ check_binding-bound args.tee_type a.chip_id a.inputs.org_cert a.binding a.bound
      ∙ rw a.tee_type (binding_code-same a.binding a.chip_id a.same_chip)

  -- `verify` exits with 0 exactly when the arguments are complete, the inputs load, the evidence passes
  -- the verification of its vendor and yields a chip id, OpenSSL accepts the endorsement under the
  -- organization's CA (and the CRL, if one is given), and the endorsement binds this TEE type and,
  -- byte for byte, this chip id.
  pub run_verify_exact :
      (args : VerifyArgs) (w : World)
      → (run_verify ssl max_items args w ≡ 0) ↔ Accepted ssl max_items args w
  run_verify_exact args w = (Accepted-of args w, accepts args w)

  -- A proxy is refused: where the endorsement and the organization's chain are good, and the evidence
  -- passes its vendor's verification but comes from another chip than the one endorsed, `verify` exits
  -- with 22.
  pub run_verify_mismatch :
      (args : VerifyArgs) (w : World) (inputs : Inputs ssl max_items) (chip_id : Bytes)
      (binding : ChipIdBinding)
      → check_args args ≡ ok tt
      → load_inputs ssl max_items args w ≡ ok inputs
      → verify_evidence_and_extract_chip_id ssl max_items args w ≡ ok chip_id
      → verify_org_chain ssl max_items inputs.org_cert inputs.org_ca inputs.org_crl ≡ ok chain_ok
      → extract_chip_id_binding ssl inputs.org_cert ≡ ok binding
      → binding.chip_id ≢ chip_id
      → run_verify ssl max_items args w ≡ 22
  run_verify_mismatch args w inputs chip_id binding h₁ h₂ h₃ h₄ h₅ ne =
      run_verify-loaded args w inputs h₁ h₂
      ∙ check_evidence-good args w inputs chip_id h₃
      ∙ check_org-good args.tee_type chip_id inputs h₄
      ∙ check_binding-bound args.tee_type chip_id inputs.org_cert binding h₅
      ∙ mismatch (expected_tee_type args.tee_type) (expected_tee_type-Stops args.tee_type)
    where
      mismatch :
          (r : Result ℕ)
          → Stops r
          → or_exit (r >>= λ expected. ok (binding_code binding expected chip_id)) 22 ≡ 22
      mismatch (ok expected) h = binding_code-ne binding expected chip_id ne
      mismatch (err (tee_anchor_error msg)) h = refl
      mismatch (err (std_exception msg)) h = refl
      mismatch (err out_of_fuel) h = absurd h.ends
