-- ===== src/Provision/Verifies.antt =====
-- provision/provision.cpp and verify/verify.cpp on the same evidence.
use tee_anchor.Prelude.{
  ℕ, ◌≡◌, refl, ap, sym, subst, ◌∙◌, true, List, Bytes, bytes_eq, bytes_eq_iff, codes, Result, ok,
  or_throw, err-ne-ok, >>=-eq-ok, ok_injective, Bool-cases, inl, inr, ◌>>=◌,
}
use tee_anchor.OpenSsl.{OpenSsl}
use tee_anchor.World.{World, read_file, path_exists}
use tee_anchor.Binding.{extract_chip_id_binding}
use tee_anchor.Binding.RoundTrip.{DerLaws}
use tee_anchor.Sgx
use tee_anchor.Sgx.Chain.{verify_pck_chain}
use tee_anchor.Sgx.Extension.{find_sgx_extension_octet, oid_sgx_ppid}
use tee_anchor.Tdx
use tee_anchor.Snp
use tee_anchor.Snp.{join_path}
use tee_anchor.Pki.{load_pem_cert}
use tee_anchor.Cca
use tee_anchor.Verify.Args.{VerifyArgs, check_args}
use tee_anchor.Verify.Accepts.{run_verify_exact}
use tee_anchor.Verify.{
  ppid_from_pck_chain, verify_evidence_and_extract_chip_id, expected_tee_type, Inputs, load_inputs,
  verify_org_chain, chain_ok, run_verify,
}
use tee_anchor.Provision.Args.{ProvisionArgs}
use tee_anchor.Provision.Issues.{KeepsBinding, Issued, extract_chip_id_binding-Issued}
use tee_anchor.Provision.{
  ChipIdResult, chip_id_from_pck_chain, extract_chip_id_for_sgx, extract_chip_id_for_tdx,
  extract_chip_id_for_snp, extract_chip_id_for_cca, extract_chip_id,
}

-- The two commands are given the same evidence.
pub record SameEvidence (args : ProvisionArgs) (v : VerifyArgs) : Type 0 where
  pub tee_type : v.tee_type ≡ args.tee_type
  pub report : v.report_path ≡ args.report_path
  pub certs : v.certs_dir ≡ args.certs_dir

-- A file of the two directories of certificates.
abbrev SameCert : ProvisionArgs → World → VerifyArgs → World → Bytes → Type 0
SameCert args w v u name =
    (read_file (join_path v.certs_dir name) u ≡ read_file (join_path args.certs_dir name) w)
    × (path_exists (join_path v.certs_dir name) u ≡ path_exists (join_path args.certs_dir name) w)

pub record SameCerts (args : ProvisionArgs) (w : World) (v : VerifyArgs) (u : World) : Type 0 where
  pub ark : SameCert args w v u (codes "ark.pem")
  pub ask : SameCert args w v u (codes "ask.pem")
  pub vcek : SameCert args w v u (codes "vcek.pem")

-- `verify` is given the evidence that `provision` had: the same kind of TEE, and files with the same
-- content, under whatever names; for SEV-SNP, also the three certificates.
pub record Delivered (args : ProvisionArgs) (w : World) (v : VerifyArgs) (u : World) : Type 0 where
  pub tee_type : v.tee_type ≡ args.tee_type
  pub report : read_file v.report_path u ≡ read_file args.report_path w
  pub certs : v.tee_type ≡ codes "snp" → SameCerts args w v u

-- The arguments of `verify` with the paths of `provision`.
abbrev provided : ProvisionArgs → VerifyArgs → VerifyArgs
provided args v = record v { report_path = args.report_path; certs_dir = args.certs_dir }

module _ (ssl : OpenSsl) (max_items : ℕ) where
  ppid-chip_id_from_pck_chain :
      (chain : List ssl.Cert) (tee_type : ℕ) (chip : ChipIdResult ssl max_items)
      → chip_id_from_pck_chain ssl max_items chain tee_type ≡ ok chip
      → (ppid_from_pck_chain ssl max_items chain ≡ ok chip.chip_id) × (chip.tee_type ≡ tee_type)
  unfolding chip_id_from_pck_chain ppid_from_pck_chain
  ppid-chip_id_from_pck_chain chain tee_type chip h =
      let (leaf, verified, h₁) = >>=-eq-ok (verify_pck_chain ssl chain) _ h in
      let (found, walked, h₂) = >>=-eq-ok (find_sgx_extension_octet ssl leaf oid_sgx_ppid) _ h₁ in
      let (ppid, there, h₃) = >>=-eq-ok (or_throw found _) _ h₂ in
      let (key, public, h₄) = >>=-eq-ok (or_throw (ssl.public_key leaf) _) _ h₃ in
      let same = ok_injective h₄ in
      (
        rw (verified, walked) (there ∙ ap (λ (c : ChipIdResult ssl max_items). ok c.chip_id) same),
        sym (ap (λ (c : ChipIdResult ssl max_items). c.tee_type) same),
      )

  sgx_evidence :
      (path : Bytes) (w : World) (chip : ChipIdResult ssl max_items)
      → extract_chip_id_for_sgx ssl max_items path w ≡ ok chip
      → ((read_file path w >>= λ quote. Sgx.extract_pck_chain_from_quote ssl quote >>= λ chain.
            ppid_from_pck_chain ssl max_items chain)
          ≡ ok chip.chip_id)
        × (chip.tee_type ≡ 0)
  unfolding extract_chip_id_for_sgx
  sgx_evidence path w chip h =
      let (quote, read, h₁) = >>=-eq-ok (read_file path w) _ h in
      let (chain, there, h₂) = >>=-eq-ok (Sgx.extract_pck_chain_from_quote ssl quote) _ h₁ in
      rw (read, there) (ppid-chip_id_from_pck_chain chain 0 chip h₂)

  tdx_evidence :
      (path : Bytes) (w : World) (chip : ChipIdResult ssl max_items)
      → extract_chip_id_for_tdx ssl max_items path w ≡ ok chip
      → ((read_file path w >>= λ quote. Tdx.extract_pck_chain_from_quote ssl quote >>= λ chain.
            ppid_from_pck_chain ssl max_items chain)
          ≡ ok chip.chip_id)
        × (chip.tee_type ≡ 1)
  unfolding extract_chip_id_for_tdx
  tdx_evidence path w chip h =
      let (quote, read, h₁) = >>=-eq-ok (read_file path w) _ h in
      let (chain, there, h₂) = >>=-eq-ok (Tdx.extract_pck_chain_from_quote ssl quote) _ h₁ in
      rw (read, there) (ppid-chip_id_from_pck_chain chain 1 chip h₂)

  snp_evidence :
      (args : ProvisionArgs) (w : World) (chip : ChipIdResult ssl max_items)
      → extract_chip_id_for_snp ssl max_items args w ≡ ok chip
      → ((Snp.verify_and_extract ssl args.report_path args.certs_dir w >>= λ r. ok r.chip_id)
          ≡ ok chip.chip_id)
        × (chip.tee_type ≡ 2)
  unfolding extract_chip_id_for_snp
  snp_evidence args w chip h =
      let (r, verified, h₁) =
        >>=-eq-ok (Snp.verify_and_extract ssl args.report_path args.certs_dir w) _ h in
      let (key, public, h₂) = >>=-eq-ok (or_throw (ssl.public_key r.vcek) _) _ h₁ in
      let same = ok_injective h₂ in
      (
        rw verified (ap (λ (c : ChipIdResult ssl max_items). ok c.chip_id) same),
        sym (ap (λ (c : ChipIdResult ssl max_items). c.tee_type) same),
      )

  cca_evidence :
      (path : Bytes) (w : World) (chip : ChipIdResult ssl max_items)
      → extract_chip_id_for_cca ssl max_items path w ≡ ok chip
      → ((Cca.verify_and_extract ssl max_items path w >>= λ r. ok r.instance_id) ≡ ok chip.chip_id)
        × (chip.tee_type ≡ 3)
  unfolding extract_chip_id_for_cca
  cca_evidence path w chip h =
      let (r, verified, h₁) = >>=-eq-ok (Cca.verify_and_extract ssl max_items path w) _ h in
      let same = ok_injective h₁ in
      (
        rw verified (ap (λ (c : ChipIdResult ssl max_items). ok c.chip_id) same),
        sym (ap (λ (c : ChipIdResult ssl max_items). c.tee_type) same),
      )

  with_kind :
      {r : Result Bytes} {c : Bytes} {m n : ℕ} → (r ≡ ok c) × (n ≡ m) → (r ≡ ok c) × (ok m ≡ ok n)
  with_kind (e, same) = (e, ap ok (sym same))

  -- What the two commands read from evidence is one: where `provision` gets a chip id from it, `verify`
  -- gets the same, and expects the TEE type that `provision` has noted.
  pub verify_evidence-extract_chip_id :
      (args : ProvisionArgs) (v : VerifyArgs) (w : World) (chip : ChipIdResult ssl max_items)
      → SameEvidence args v
      → extract_chip_id ssl max_items args w ≡ ok chip
      → (verify_evidence_and_extract_chip_id ssl max_items v w ≡ ok chip.chip_id)
        × (expected_tee_type v.tee_type ≡ ok chip.tee_type)
  unfolding verify_evidence_and_extract_chip_id extract_chip_id expected_tee_type
  verify_evidence-extract_chip_id args v w chip same h =
      elim (Bool-cases (bytes_eq args.tee_type (codes "sgx"))) [
        | inl sgx ↦
            rw (same.tee_type, same.report, sgx)
              (with_kind (sgx_evidence args.report_path w chip (rw sgx at h)))
        | inr not_sgx ↦ elim (Bool-cases (bytes_eq args.tee_type (codes "tdx"))) [
          | inl tdx ↦
              rw (same.tee_type, same.report, not_sgx, tdx)
                (with_kind (tdx_evidence args.report_path w chip (rw (not_sgx, tdx) at h)))
          | inr not_tdx ↦ elim (Bool-cases (bytes_eq args.tee_type (codes "snp"))) [
            | inl snp ↦
                rw (same.tee_type, same.report, same.certs, not_sgx, not_tdx, snp)
                  (with_kind (snp_evidence args w chip (rw (not_sgx, not_tdx, snp) at h)))
            | inr not_snp ↦ elim (Bool-cases (bytes_eq args.tee_type (codes "cca"))) [
              | inl cca ↦
                  rw (same.tee_type, same.report, not_sgx, not_tdx, not_snp, cca)
                    (with_kind (
                      cca_evidence args.report_path w chip
                        (rw (not_sgx, not_tdx, not_snp, cca) at h)))
              | inr not_cca ↦ absurd (err-ne-ok (rw (not_sgx, not_tdx, not_snp, not_cca) at h))
            ]
          ]
        ]
      ]

  -- What `verify` reads of evidence is a function of the files that it is given.
  verify_evidence-Delivered :
      (args : ProvisionArgs) (w : World) (v : VerifyArgs) (u : World)
      → Delivered args w v u
      → verify_evidence_and_extract_chip_id ssl max_items v u
        ≡ verify_evidence_and_extract_chip_id ssl max_items (provided args v) w
  unfolding verify_evidence_and_extract_chip_id Snp.verify_and_extract Snp.verify_report
      Snp.verify_vcek_chain load_pem_cert Cca.verify_and_extract
  verify_evidence-Delivered args w v u d = elim (Bool-cases (bytes_eq v.tee_type (codes "snp"))) [
    | inr other ↦ rw (d.report, other) refl
    | inl snp ↦
        let c = d.certs ((bytes_eq_iff v.tee_type (codes "snp")).0 snp) in
        rw (d.report, c.ark.0, c.ask.0, c.vcek.0, c.ark.1, c.ask.1, c.vcek.1) refl
  ]

  -- The whole of the protocol. `provision` has issued a certificate for some evidence on one machine. At
  -- any later time, on any machine, `verify` is given files with the same evidence, that certificate,
  -- and an organization's CA under which OpenSSL accepts it: it exits with 0. Of OpenSSL it takes the DER
  -- headers of `DerLaws`, and that a signed certificate has the extensions that were set.
  pub run_verify-Issued :
      DerLaws ssl
      → KeepsBinding ssl
      → ssl.succeeds "OBJ_txt2obj" ≡ true
      → (args : ProvisionArgs) (w : World) (cert : ssl.Cert) → Issued ssl max_items args w cert
      → (v : VerifyArgs) (u : World) (inputs : Inputs ssl max_items) → Delivered args w v u
      → check_args v ≡ ok tt
      → load_inputs ssl max_items v u ≡ ok inputs
      → inputs.org_cert ≡ cert
      → verify_org_chain ssl max_items cert inputs.org_ca inputs.org_crl ≡ ok chain_ok
      → run_verify ssl max_items v u ≡ 0
  run_verify-Issued laws keeps txt args w cert issued v u inputs same checked loaded this chain =
      let (evidence, kind) =
        verify_evidence-extract_chip_id args (provided args v) w issued.chip
          (record { tee_type = same.tee_type; report = refl; certs = refl }) issued.evidence in
      (run_verify_exact ssl max_items v u).1 (record {
        inputs = inputs;
        chip_id = issued.chip.chip_id;
        binding = record {
          tee_type = issued.chip.tee_type;
          chip_id = issued.chip.chip_id;
          issued_at = w.now;
        };
        arguments = checked;
        loaded = loaded;
        evidence = verify_evidence-Delivered args w v u same ∙ evidence;
        chain =
            subst (λ c. verify_org_chain ssl max_items c inputs.org_ca inputs.org_crl ≡ ok chain_ok)
              (sym this) chain;
        bound =
            ap (λ c. extract_chip_id_binding ssl c) this
            ∙ extract_chip_id_binding-Issued ssl max_items laws keeps txt args w cert issued;
        tee_type = kind;
        same_chip = refl;
      })
