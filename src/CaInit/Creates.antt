-- ===== src/CaInit/Creates.antt =====
-- What `run_ca_init` of ca/ca_init.cpp creates, and what it refuses to replace.
use tee_anchor.Prelude.{
  ℕ, ◌≡◌, ◌≢◌, refl, ap, sym, ◌∙◌, Bool, true, false, ◌||◌, some, List, [], ◌∷◌, ◌++◌, take, get_or,
  String, subst, is_empty, Bytes, codes, Error, ok, err, throw_if, >>=-eq-ok, >>-eq-ok,
  or_throw-eq-ok, ok_injective, arith, ◌>>◌,
}
use tee_anchor.Prelude.Int.{is_not_positive}
use tee_anchor.Prelude.Int.{pos, days}
use tee_anchor.OpenSsl.{OpenSsl, Digest, Extension, conf, call}
use tee_anchor.World.{World, continue, write_file, path_exists}
use tee_anchor.World.Writes.{
  write_file-frame, write_file-ok, write_file-SameHost, continue-ok, and_then-ok,
}
use tee_anchor.Pki.{
  sig_md_for_curve, gen_ec_key, random_serial, add_v3_ext, pem_private_key, pem_cert,
}
use tee_anchor.Pki.Dn.{parse_dn}
use tee_anchor.CaInit.{
  CaInitArgs, key_path, crt_path, check_ca_init, ca_extensions, ca_tbs, self_signed, make_ca,
  write_ca, run_ca_init,
}

key_path-ne : (args : CaInitArgs) → key_path args ≢ crt_path args
key_path-ne args = cancel args.out_dir
  where
    tail_of : Bytes → Bytes
    tail_of [] = []
    tail_of (c ∷ s) = s

    cancel : (s : Bytes) → ¬ (s ++ codes "/ca.key" ≡ s ++ codes "/ca.crt")
    cancel [] e = absurd (omega (arith, ap (λ (s : Bytes). get_or s 4 0) e))
    cancel (c ∷ s) e = cancel s (ap tail_of e)

third_or_fourth :
    (b₁ b₂ b₃ b₄ : Bool) (m₁ m₂ m₃ m₄ : String)
    → (b₃ || b₄) ≡ true
    → (x : Error) × ((throw_if b₁ m₁ >> (throw_if b₂ m₂ >> (throw_if b₃ m₃ >> throw_if b₄ m₄)))
        ≡ err x)
third_or_fourth true b₂ b₃ b₄ m₁ m₂ m₃ m₄ h = (_, refl)
third_or_fourth false true b₃ b₄ m₁ m₂ m₃ m₄ h = (_, refl)
third_or_fourth false false true b₄ m₁ m₂ m₃ m₄ h = (_, refl)
third_or_fourth false false false true m₁ m₂ m₃ m₄ h = (_, refl)
third_or_fourth false false false false m₁ m₂ m₃ m₄ h = cc

check_ca_init-exists :
    (args : CaInitArgs) (w : World)
    → args.force ≡ false
    → (path_exists (key_path args) w || path_exists (crt_path args) w) ≡ true
    → (x : Error) × (check_ca_init args w ≡ err x)
unfolding check_ca_init
check_ca_init-exists args w h there = rw h (
    third_or_fourth (is_empty args.out_dir) (is_not_positive args.validity_days)
      (path_exists (key_path args) w) (path_exists (crt_path args) w) _ _ _ _ there)

module _ (ssl : OpenSsl) where
  make_ca-exists :
      (args : CaInitArgs) (w : World)
      → args.force ≡ false
      → (path_exists (key_path args) w || path_exists (crt_path args) w) ≡ true
      → (x : Error) × (make_ca ssl args w ≡ err x)
  unfolding make_ca
  make_ca-exists args w h there = let (x, e) = check_ca_init-exists args w h there in (x, rw e refl)

  -- Without `--force`, where the key or the certificate is there already, the command throws and
  -- changes nothing.
  pub run_ca_init_refuses :
      (args : CaInitArgs) (w : World)
      → args.force ≡ false
      → (path_exists (key_path args) w || path_exists (crt_path args) w) ≡ true
      → (x : Error) × (run_ca_init ssl args w ≡ (err x, w))
  unfolding run_ca_init
  run_ca_init_refuses args w h there = let (x, e) = make_ca-exists args w h there in (x, rw e refl)

  -- A certificate that is its own issuer, over the key that signs it.
  pub record SelfSigned (args : CaInitArgs) (pkey : ssl.Key) (cert : ssl.Cert) : Type 0 where
    pub serial : ℕ
    pub name : ssl.Name
    pub md : Digest
    pub named : parse_dn ssl args.subject ≡ ok name
    pub curve : sig_md_for_curve args.curve ≡ ok md
    pub signed :
        ssl.sign_cert
          (record {
            version = 2;
            serial = serial;
            not_before = pos 0;
            not_after = days args.validity_days;
            issuer = name;
            subject = name;
            public_key = pkey;
            extensions =
                conf "NID_basic_constraints" "critical,CA:TRUE"
                ∷ conf "NID_key_usage" "critical,digitalSignature,keyCertSign,cRLSign"
                ∷ conf "NID_subject_key_identifier" "hash"
                ∷ [];
          })
          pkey
          (some md)
        ≡ some cert

  pub add_v3_ext-ok :
      (nid text : String) (es fs : List Extension)
      → add_v3_ext ssl nid text es ≡ ok fs
      → fs ≡ es ++ (conf nid text ∷ [])
  unfolding add_v3_ext
  add_v3_ext-ok nid text es fs h =
      let h₁ = (>>-eq-ok (call ssl "X509V3_EXT_conf_nid") _ h).1 in
      sym (ok_injective (>>-eq-ok (call ssl "X509_add_ext") (ok (es ++ (conf nid text ∷ []))) h₁).1)

  ca_extensions-ok :
      (es : List Extension)
      → ca_extensions ssl ≡ ok es
      → es
        ≡ conf "NID_basic_constraints" "critical,CA:TRUE"
          ∷ conf "NID_key_usage" "critical,digitalSignature,keyCertSign,cRLSign"
          ∷ conf "NID_subject_key_identifier" "hash"
          ∷ []
  unfolding ca_extensions
  ca_extensions-ok es h =
      let (e₁, a₁, h₁) =
        >>=-eq-ok (add_v3_ext ssl "NID_basic_constraints" "critical,CA:TRUE" []) _ h in
      let (e₂, a₂, h₂) = >>=-eq-ok _ _ h₁ in
      add_v3_ext-ok "NID_subject_key_identifier" "hash" e₂ es h₂
      ∙ ap (λ x. x ++ (conf "NID_subject_key_identifier" "hash" ∷ []))
          (add_v3_ext-ok "NID_key_usage" "critical,digitalSignature,keyCertSign,cRLSign" e₁ e₂ a₂
            ∙ ap
                (λ x.
                  x ++ (conf "NID_key_usage" "critical,digitalSignature,keyCertSign,cRLSign" ∷ []))
                (add_v3_ext-ok "NID_basic_constraints" "critical,CA:TRUE" [] e₁ a₁))

  self_signed-ok :
      (args : CaInitArgs) (pkey : ssl.Key) (w : World) (cert : ssl.Cert)
      → self_signed ssl args pkey w ≡ ok cert
      → SelfSigned args pkey cert
  unfolding self_signed ca_tbs
  self_signed-ok args pkey w cert h =
      let h₁ = (>>-eq-ok (call ssl "X509_new") _ h).1 in
      let h₂ = (>>-eq-ok (call ssl "X509_set_version") _ h₁).1 in
      let (sn, drawn, h₃) = >>=-eq-ok (random_serial ssl w) _ h₂ in
      let h₄ = (>>-eq-ok (call ssl "X509_set_serialNumber") _ h₃).1 in
      let h₅ = (>>-eq-ok (call ssl "X509_gmtime_adj (notBefore)") _ h₄).1 in
      let h₆ = (>>-eq-ok (call ssl "X509_gmtime_adj (notAfter)") _ h₅).1 in
      let (name, named, h₇) = >>=-eq-ok (parse_dn ssl args.subject) _ h₆ in
      let h₈ = (>>-eq-ok (call ssl "X509_set_subject_name") _ h₇).1 in
      let h₉ = (>>-eq-ok (call ssl "X509_set_issuer_name") _ h₈).1 in
      let hₐ = (>>-eq-ok (call ssl "X509_set_pubkey") _ h₉).1 in
      let (es, exts, hᵦ) = >>=-eq-ok (ca_extensions ssl) _ hₐ in
      let (md, curve, signed) = >>=-eq-ok (sig_md_for_curve args.curve) _ hᵦ in
      record {
        serial = sn;
        name = name;
        md = md;
        named = named;
        curve = curve;
        signed =
            subst (λ x. ssl.sign_cert (ca_tbs ssl args sn name pkey x) pkey (some md) ≡ some cert)
              (ca_extensions-ok es exts) (or_throw-eq-ok _ "X509_sign" signed);
      }

  -- The key, its certificate, and the two files.
  pub record Created (args : CaInitArgs) (w w' : World) : Type 0 where
    pub pkey : ssl.Key
    pub cert : ssl.Cert
    pub generated : gen_ec_key ssl args.curve ≡ ok pkey
    pub self_signed : SelfSigned args pkey cert
    pub key_file :
        w'.files (key_path args)
        ≡ some (record {
          content = take (w.medium (key_path args)).accepted (ssl.write_key pkey);
          mode = 0x180;
        })
    pub crt_file :
        w'.files (crt_path args)
        ≡ some (record {
          content = take (w.medium (crt_path args)).accepted (ssl.write_cert cert);
          mode = 0x1A4;
        })

  make_ca-ok :
      (args : CaInitArgs) (w : World) (key_pem : Bytes) (cert : ssl.Cert)
      → make_ca ssl args w ≡ ok (key_pem, cert)
      → (pkey : ssl.Key) × (gen_ec_key ssl args.curve ≡ ok pkey)
        × SelfSigned args pkey cert
        × (key_pem ≡ ssl.write_key pkey)
  unfolding make_ca pem_private_key
  make_ca-ok args w key_pem cert h =
      let h₁ = (>>-eq-ok (check_ca_init args w) _ h).1 in
      let (pkey, made, h₂) = >>=-eq-ok (gen_ec_key ssl args.curve) _ h₁ in
      let (c, signed, h₃) = >>=-eq-ok (self_signed ssl args pkey w) _ h₂ in
      let (pem, printed, h₄) = >>=-eq-ok (pem_private_key ssl pkey) _ h₃ in
      let same = ok_injective h₄ in
      let p₁ = (>>-eq-ok (call ssl "BIO_new (mem)") _ printed).1 in
      let p₂ = (>>-eq-ok (call ssl "PEM_write_bio_PrivateKey") (ok (ssl.write_key pkey)) p₁).1 in
      (
        pkey,
        made,
        subst (λ x. SelfSigned args pkey x) (ap (λ (p : Bytes × ssl.Cert). p.1) same)
            (self_signed-ok args pkey w c signed),
        sym (ap (λ (p : Bytes × ssl.Cert). p.0) same) ∙ sym (ok_injective p₂),
      )

  pub pem_cert-ok :
      (cert : ssl.Cert) (pem : Bytes) → pem_cert ssl cert ≡ ok pem → pem ≡ ssl.write_cert cert
  unfolding pem_cert
  pem_cert-ok cert pem h =
      let h₁ = (>>-eq-ok (call ssl "BIO_new (mem)") _ h).1 in
      sym (ok_injective (>>-eq-ok (call ssl "PEM_write_bio_X509") (ok (ssl.write_cert cert)) h₁).1)

  -- A command that succeeds has generated a key, written it under mode 0600 and certified it under mode
  -- 0644: the certificate names the requested subject as its subject and its issuer, carries the
  -- extensions of a CA and is signed with its own key. Each file holds what the disk took of the text.
  pub run_ca_init-Created :
      (args : CaInitArgs) (w : World)
      → (run_ca_init ssl args w).0 ≡ ok tt
      → Created args w (run_ca_init ssl args w).1
  unfolding run_ca_init write_ca
  run_ca_init-Created args w h =
      let ((key_pem, cert), made, eq) = continue-ok (make_ca ssl args w) (write_ca ssl args) w h in
      let (pkey, generated, signed, key_text) = make_ca-ok args w key_pem cert made in
      let written = write_file (key_path args) key_pem 0x180 in
      let crt = λ (w : World).
        continue (pem_cert ssl cert) (λ pem. write_file (crt_path args) pem 0x1A4) w in
      let (key_done, eq₂) = and_then-ok written crt w (sym (ap (λ r. r.0) eq) ∙ h) in
      let w' = (written w).1 in
      let (pem, printed, eq₃) =
        continue-ok (pem_cert ssl cert) (λ pem. write_file (crt_path args) pem 0x1A4) w'
          (sym (ap (λ r. r.0) (eq ∙ eq₂)) ∙ h) in
      let whole = eq ∙ eq₂ ∙ eq₃ in
      let crt_done = sym (ap (λ r. r.0) whole) ∙ h in
      let host = write_file-SameHost (key_path args) key_pem 0x180 w in
      record {
        pkey = pkey;
        cert = cert;
        generated = generated;
        self_signed = signed;
        key_file =
            ap (λ r. r.1.files (key_path args)) whole
            ∙ write_file-frame (crt_path args) pem 0x1A4 w' (key_path args) (key_path-ne args)
            ∙ write_file-ok (key_path args) key_pem 0x180 w key_done
            ∙ ap
                (λ text. some (record {
                  content = take (w.medium (key_path args)).accepted text;
                  mode = 0x180;
                }))
                key_text;
        crt_file =
            ap (λ r. r.1.files (crt_path args)) whole
            ∙ write_file-ok (crt_path args) pem 0x1A4 w' crt_done
            ∙ ap
                (λ m.
                  some (record { content = take (m (crt_path args)).accepted pem; mode = 0x1A4 }))
                host.medium
            ∙ ap
                (λ text. some (record {
                  content = take (w.medium (crt_path args)).accepted text;
                  mode = 0x1A4;
                }))
                (pem_cert-ok cert pem printed);
      }
