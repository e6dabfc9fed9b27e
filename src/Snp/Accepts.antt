-- ===== src/Snp/Accepts.antt =====
-- What an accepted report of provision/sev-snp/snp_provision.cpp has established.
use tee_anchor.Prelude.{
  ℕ, ◌≤◌, ◌≡◌, ◌≢◌, ◌↔◌, ◌⊎◌, refl, ap, sym, subst, ◌∙◌, true, false, some, ltb, ◌==◌,
  if◌then◌else◌, length, take, slice, String, Bytes, codes, bytes_eq_iff, Result, ok, throw,
  throw_if, or_throw, >>=-eq-ok, >>-eq-ok, or_throw-eq-ok, throw_if-eq-ok, ok_injective, Bool-cases,
  inl, inr, arith, ◌≤◌,
}
use tee_anchor.OpenSsl.{OpenSsl, Outcome, valid, invalid, failed, call}
use tee_anchor.World.{World, path_exists}
use tee_anchor.Quote.{rd_u32le}
use tee_anchor.Pki.{pubkey_spki_sha384, load_pem_cert, make_oid}
use tee_anchor.Snp.Pins.{match_ark_pin}
use tee_anchor.Snp.Report.{validate_report_header, extract_chip_id_from_report, all_zero, be_of_le}
use tee_anchor.Snp.{
  is_not_ec, join_path, oid_amd_sev_hwid, SnpChain, SnpVerifyResult, vcek_store, verify_vcek_certs,
  verify_vcek_chain, verify_report_signature, check_hwid, verify_report,
}

-- The header of a report that is read.
validate_report_header-ok :
    (report : Bytes)
    → validate_report_header report ≡ ok tt
    → (length report ≡ 1184)
      × (2 ≤ rd_u32le report 0)
      × (rd_u32le report 0 ≤ 5)
      × (rd_u32le report 0x34 ≡ 1)
unfolding validate_report_header
validate_report_header-ok report h = ground arith

extract_chip_id-ok :
    (report chip_id : Bytes)
    → extract_chip_id_from_report report ≡ ok chip_id
    → (chip_id ≡ slice 0x1A0 64 report) × (all_zero chip_id ≡ false)
unfolding extract_chip_id_from_report
extract_chip_id-ok report chip_id h =
    let h₁ = (>>-eq-ok (throw_if (ltb (length report) 480) _) _ h).1 in
    let (nonzero, h₂) =
      >>-eq-ok (throw_if (all_zero (slice 0x1A0 64 report)) _) (ok (slice 0x1A0 64 report)) h₁ in
    let same = ok_injective h₂ in
    (sym same, ap all_zero (sym same) ∙ throw_if-eq-ok (all_zero (slice 0x1A0 64 report)) _ nonzero)

module _ (ssl : OpenSsl) where
  -- The report, the root, the chain and the signature.
  pub record Accepted (report : Bytes) (r : SnpVerifyResult ssl) : Type 0 where
    pub size : length report ≡ 1184
    pub version : r.version ≡ rd_u32le report 0
    pub version_low : 2 ≤ rd_u32le report 0
    pub version_high : rd_u32le report 0 ≤ 5
    pub algorithm : rd_u32le report 0x34 ≡ 1
    pub ark : ssl.Cert
    pub ask : ssl.Cert
    pub key : ssl.Key
    pub digest : Bytes
    pub hashed : pubkey_spki_sha384 ssl ark ≡ ok digest
    pub pinned : match_ark_pin digest ≡ some r.generation
    pub chain : ssl.verify_cert (vcek_store ssl ark ask) r.vcek ≡ 0
    pub vcek_key : ssl.public_key r.vcek ≡ some key
    pub signed :
        ssl.verify_ecdsa key
          (take 0x2A0 report)
          (be_of_le (slice 0x2A0 72 report))
          (be_of_le (slice 0x2E8 72 report))
        ≡ valid
    pub chip_id : r.chip_id ≡ slice 0x1A0 64 report
    pub present : all_zero r.chip_id ≡ false

  verify_vcek_certs-ok :
      (ark ask vcek : ssl.Cert) (c : SnpChain ssl)
      → verify_vcek_certs ssl ark ask vcek ≡ ok c
      → (digest : Bytes) × (pubkey_spki_sha384 ssl ark ≡ ok digest)
        × (match_ark_pin digest ≡ some c.generation)
        × (ssl.verify_cert (vcek_store ssl ark ask) c.vcek ≡ 0)
  unfolding verify_vcek_certs
  verify_vcek_certs-ok ark ask vcek c h =
      let (digest, hashed, h₁) = >>=-eq-ok (pubkey_spki_sha384 ssl ark) _ h in
      let (generation, pinned, h₂) = >>=-eq-ok (or_throw (match_ark_pin digest) _) _ h₁ in
      let h₃ = (>>-eq-ok (call ssl "X509_STORE_new") _ h₂).1 in
      let h₄ = (>>-eq-ok (call ssl "X509_STORE_add_cert (ARK)") _ h₃).1 in
      let h₅ = (>>-eq-ok (call ssl "sk_X509_new_null") _ h₄).1 in
      let h₆ = (>>-eq-ok (call ssl "sk_X509_push (ASK)") _ h₅).1 in
      let h₇ = (>>-eq-ok (call ssl "X509_STORE_CTX_new") _ h₆).1 in
      let h₈ = (>>-eq-ok (call ssl "X509_STORE_CTX_init") _ h₇).1 in
      let (good, same) =
        zero_or (ssl.verify_cert (vcek_store ssl ark ask) vcek)
          (record { vcek = vcek; generation = generation }) c _ h₈ in
      (
        digest,
        hashed,
        or_throw-eq-ok (match_ark_pin digest) _ pinned
            ∙ ap (λ (x : SnpChain ssl). some x.generation) same,
        ap (λ (x : SnpChain ssl). ssl.verify_cert (vcek_store ssl ark ask) x.vcek) (sym same)
            ∙ good,
      )
    where
      zero_or :
          (n : ℕ) (a b : SnpChain ssl) (msg : String)
          → (if n == 0 then ok a else throw msg) ≡ ok b
          → (n ≡ 0) × (a ≡ b)
      zero_or n a b msg e = elim (Bool-cases (n == 0)) [
        | inl z ↦ (ground arith, ok_injective (rw z at e))
        | inr nz ↦ absurd (ground arith)
      ]

  verify_vcek_chain-ok :
      (certs_dir : Bytes) (w : World) (c : SnpChain ssl)
      → verify_vcek_chain ssl certs_dir w ≡ ok c
      → (ark : ssl.Cert) × (ask : ssl.Cert) × (vcek : ssl.Cert) × (verify_vcek_certs ssl ark ask
            vcek
          ≡ ok c)
  unfolding verify_vcek_chain
  verify_vcek_chain-ok certs_dir w c h =
      let ark_path = join_path certs_dir (codes "ark.pem") in
      let ask_path = join_path certs_dir (codes "ask.pem") in
      let vcek_path = join_path certs_dir (codes "vcek.pem") in
      let h₁ =
        (>>-eq-ok
          (throw_if (if path_exists ark_path w then false else true) "ARK certificate not found") _
          h).1 in
      let h₂ =
        (>>-eq-ok
          (throw_if (if path_exists ask_path w then false else true) "ASK certificate not found") _
          h₁).1 in
      let h₃ =
        (>>-eq-ok
          (throw_if (if path_exists vcek_path w then false else true) "VCEK certificate not found")
          _ h₂).1 in
      let (ark, l₁, h₄) = >>=-eq-ok (load_pem_cert ssl ark_path w) _ h₃ in
      let (ask, l₂, h₅) = >>=-eq-ok (load_pem_cert ssl ask_path w) _ h₄ in
      let (vcek, l₃, h₆) = >>=-eq-ok (load_pem_cert ssl vcek_path w) _ h₅ in (ark, ask, vcek, h₆)

  verify_report_signature-ok :
      (report : Bytes) (vcek : ssl.Cert)
      → verify_report_signature ssl report vcek ≡ ok tt
      → (key : ssl.Key) × (ssl.public_key vcek ≡ some key)
        × (ssl.verify_ecdsa key
              (take 0x2A0 report)
              (be_of_le (slice 0x2A0 72 report))
              (be_of_le (slice 0x2E8 72 report))
            ≡ valid)
  unfolding verify_report_signature
  verify_report_signature-ok report vcek h =
      let h₁ =
        (>>-eq-ok
          (throw_if (ltb (length report) 816) "attestation report too short for SIGNATURE field") _
          h).1 in
      let (key, there, h₂) = >>=-eq-ok (or_throw (ssl.public_key vcek) _) _ h₁ in
      let h₃ =
        (>>-eq-ok
          (throw_if (is_not_ec ssl (ssl.kind key))
            "VCEK public key is not EC (expected ECDSA P-384)")
          _ h₂).1 in
      let h₄ = (>>-eq-ok (call ssl "BN_bin2bn (SNP signature component)") _ h₃).1 in
      let h₅ = (>>-eq-ok (call ssl "ECDSA_SIG_new") _ h₄).1 in
      let h₆ = (>>-eq-ok (call ssl "ECDSA_SIG_set0") _ h₅).1 in
      let h₇ = (>>-eq-ok (call ssl "i2d_ECDSA_SIG (length)") _ h₆).1 in
      let h₈ = (>>-eq-ok (call ssl "i2d_ECDSA_SIG") _ h₇).1 in
      let h₉ = (>>-eq-ok (call ssl "EVP_MD_CTX_new") _ h₈).1 in
      let hₐ = (>>-eq-ok (call ssl "EVP_DigestVerifyInit (ECDSA P-384/SHA-384)") _ h₉).1 in
      (
        key,
        or_throw-eq-ok (ssl.public_key vcek) _ there,
        only_valid
            (ssl.verify_ecdsa key (take 0x2A0 report) (be_of_le (slice 0x2A0 72 report))
              (be_of_le (slice 0x2E8 72 report)))
            hₐ,
      )
    where
      only_valid :
          (o : Outcome)
          → elim o as (λ k. Result (Unit {0})) [
            | valid ↦ ok tt
            | invalid ↦
                throw "attestation report signature did not verify against the VCEK public key"
            | failed ↦ throw "EVP_DigestVerify (SNP report)"
          ]
            ≡ ok tt
          → o ≡ valid
      only_valid valid e = refl
      only_valid invalid e = cc
      only_valid failed e = cc

  -- A report that is accepted has 1184 bytes, at its start a version from 2 to 5, which is returned, and
  -- at 0x34 the algorithm ECDSA P-384 with SHA-384; the digest of the root's key is pinned, for the
  -- generation that is returned; OpenSSL accepts the VCEK under that root; the report's signature over
  -- its first 0x2A0 bytes is valid under the VCEK's
  -- key; and the chip id is the 64 bytes at 0x1A0, which are not all zero.
  pub verify_report-Accepted :
      (report certs_dir : Bytes) (w : World) (r : SnpVerifyResult ssl)
      → verify_report ssl report certs_dir w ≡ ok r
      → Accepted report r
  unfolding verify_report
  verify_report-Accepted report certs_dir w r h =
      let (header, h₁) = >>-eq-ok (validate_report_header report) _ h in
      let (chain, chained, h₂) = >>=-eq-ok (verify_vcek_chain ssl certs_dir w) _ h₁ in
      let (signature, h₃) = >>-eq-ok (verify_report_signature ssl report chain.vcek) _ h₂ in
      let (chip_id, extracted, h₄) = >>=-eq-ok (extract_chip_id_from_report report) _ h₃ in
      let same =
        ok_injective
          (>>-eq-ok (check_hwid ssl chain.vcek chip_id)
            (ok (record {
              chip_id = chip_id;
              version = rd_u32le report 0;
              generation = chain.generation;
              vcek = chain.vcek;
            }))
            h₄).1 in
      let (size, low, high, algorithm) = validate_report_header-ok report header in
      let (ark, ask, vcek, certs) = verify_vcek_chain-ok certs_dir w chain chained in
      let (digest, hashed, pinned, good) = verify_vcek_certs-ok ark ask vcek chain certs in
      let (key, there, signed) = verify_report_signature-ok report chain.vcek signature in
      let (id, present) = extract_chip_id-ok report chip_id extracted in
      subst (λ x. Accepted report x) same
        (record {
          size = size;
          version = refl;
          version_low = low;
          version_high = high;
          algorithm = algorithm;
          ark = ark;
          ask = ask;
          key = key;
          digest = digest;
          hashed = hashed;
          pinned = pinned;
          chain = good;
          vcek_key = there;
          signed = signed;
          chip_id = id;
          present = present;
        })

  -- The cross-check with the hwID extension of the certificate takes place for an extension of the chip
  -- id's length only: one of another length is not looked at, and the report passes.
  pub check_hwid-ok :
      (vcek : ssl.Cert) (chip_id hwid : Bytes)
      → ssl.succeeds "OBJ_txt2obj" ≡ true
      → ssl.extension vcek oid_amd_sev_hwid ≡ some (some hwid)
      → (check_hwid ssl vcek chip_id ≡ ok tt) ↔ ((length hwid ≢ length chip_id) ⊎ (chip_id ≡ hwid))
  unfolding check_hwid make_oid call
  check_hwid-ok vcek chip_id hwid txt there =
      rw (txt, there) (ground (arith, bytes_eq_iff chip_id hwid))
