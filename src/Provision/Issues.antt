-- ===== src/Provision/Issues.antt =====
-- What `run_provision` of provision/provision.cpp issues, and how its binding reads back.
use tee_anchor.Prelude.{
  ℕ, ◌≡◌, refl, ap, sym, subst, ◌∙◌, true, false, Option, some, List, [], ◌∷◌, ◌++◌, All, take,
  if◌then◌else◌, Bytes, ok, throw_if, >>=-eq-ok, >>-eq-ok, or_throw-eq-ok, throw_unless-eq-ok,
  ok_injective,
}
use tee_anchor.Prelude.Int.{pos, days}
use tee_anchor.OpenSsl.{OpenSsl, Digest, Extension, conf, octets, Tbs, call}
use tee_anchor.World.{World, write_file}
use tee_anchor.World.Writes.{write_file-ok, continue-ok}
use tee_anchor.Pki.{
  random_serial, make_oid, digest_for_signing_key, load_pem_private_key, load_pem_cert,
}
use tee_anchor.Pki.Dn.{parse_dn}
use tee_anchor.CaInit.Creates.{pem_cert-ok}
use tee_anchor.Binding.{encode_chip_id_binding, extract_chip_id_binding, oid_chip_id_binding}
use tee_anchor.Binding.RoundTrip.{DerLaws, decode-encode_chip_id_binding}
use tee_anchor.Provision.Extensions.{endorsed_extensions, endorsement_extensions-ok}
use tee_anchor.Provision.Args.{ProvisionArgs, check_provision_args}
use tee_anchor.Provision.{
  ChipIdResult, extract_chip_id, load_ca, endorsement_extensions, endorsement_tbs, subject_text,
  endorse, make_endorsement, run_provision,
}

-- An extension that the program made from a configuration.
abbrev pub IsConf : Extension → Type 0
IsConf (conf nid text) = Unit
IsConf (octets oid critical der) = ⊥

-- What the program relies on in a signed certificate: `X509_get_ext_by_OBJ` finds the extension that was
-- added last under the program's own OID, as no extension made from a configuration has that OID.
pub record KeepsBinding (ssl : OpenSsl) : Type 0 where
  pub finds :
      (tbs : Tbs ssl.Name ssl.Key) (key : ssl.Key) (md : Option Digest) (cert : ssl.Cert)
      (es : List Extension) (der : Bytes)
      → ssl.sign_cert tbs key md ≡ some cert
      → tbs.extensions ≡ es ++ (octets oid_chip_id_binding true der ∷ [])
      → All IsConf es
      → ssl.extension cert oid_chip_id_binding ≡ some (some der)

module _ (ssl : OpenSsl) (max_items : ℕ) where
  -- The certificate that was issued, and what it was issued over.
  pub record Issued (args : ProvisionArgs) (w : World) (cert : ssl.Cert) : Type 0 where
    pub ca_key : ssl.Key
    pub ca_cert : ssl.Cert
    pub chip : ChipIdResult ssl max_items
    pub serial : ℕ
    pub name : ssl.Name
    pub der : Bytes
    pub md : Option Digest
    pub loaded : load_ca ssl max_items args w ≡ ok (ca_key, ca_cert)
    pub matches : ssl.key_matches ca_cert ca_key ≡ true
    pub evidence : extract_chip_id ssl max_items args w ≡ ok chip
    pub named : parse_dn ssl (subject_text ssl max_items args chip.chip_id) ≡ ok name
    pub encoded : encode_chip_id_binding chip.tee_type chip.chip_id w.now ≡ ok der
    pub signed :
        ssl.sign_cert
          (record {
            version = 2;
            serial = serial;
            not_before = pos 0;
            not_after = days args.validity_days;
            issuer = ssl.subject ca_cert;
            subject = name;
            public_key = chip.subject_pubkey;
            extensions = endorsed_extensions der;
          })
          ca_key
          md
        ≡ some cert

  load_ca-matches :
      (args : ProvisionArgs) (w : World) (key : ssl.Key) (cert : ssl.Cert)
      → load_ca ssl max_items args w ≡ ok (key, cert)
      → ssl.key_matches cert key ≡ true
  unfolding load_ca
  load_ca-matches args w key cert h =
      let (k, l₁, h₁) = >>=-eq-ok (load_pem_private_key ssl args.ca_key_path w) _ h in
      let (c, l₂, h₂) = >>=-eq-ok (load_pem_cert ssl args.ca_cert_path w) _ h₁ in
      let (fits, h₃) =
        >>-eq-ok (throw_if (if ssl.key_matches c k then false else true) _) (ok (k, c)) h₂ in
      subst (λ (p : ssl.Key × ssl.Cert). ssl.key_matches p.1 p.0 ≡ true) (ok_injective h₃)
        (throw_unless-eq-ok (ssl.key_matches c k) _ fits)

  -- The certificate that an endorsement is made of, in terms of its parts.
  endorse-ok :
      (args : ProvisionArgs) (key : ssl.Key) (ca : ssl.Cert) (chip : ChipIdResult ssl max_items)
      (w : World) (cert : ssl.Cert)
      → endorse ssl max_items args key ca chip w ≡ ok cert
      → (sn : ℕ) × (name : ssl.Name) × (der : Bytes) × (md : Option Digest) × (parse_dn ssl
            (subject_text ssl max_items args chip.chip_id)
          ≡ ok name)
        × (encode_chip_id_binding chip.tee_type chip.chip_id w.now ≡ ok der)
        × (ssl.sign_cert
              (endorsement_tbs ssl max_items args sn ca name chip.subject_pubkey
                (endorsed_extensions der))
              key
              md
            ≡ some cert)
  unfolding endorse
  endorse-ok args key ca chip w cert h =
      let h₁ = (>>-eq-ok (call ssl "X509_new") _ h).1 in
      let h₂ = (>>-eq-ok (call ssl "X509_set_version") _ h₁).1 in
      let (sn, drawn, h₃) = >>=-eq-ok (random_serial ssl w) _ h₂ in
      let h₄ = (>>-eq-ok (call ssl "X509_set_serialNumber") _ h₃).1 in
      let h₅ = (>>-eq-ok (call ssl "X509_gmtime_adj (notBefore)") _ h₄).1 in
      let h₆ = (>>-eq-ok (call ssl "X509_gmtime_adj (notAfter)") _ h₅).1 in
      let h₇ = (>>-eq-ok (call ssl "X509_set_issuer_name") _ h₆).1 in
      let (name, named, h₈) =
        >>=-eq-ok (parse_dn ssl (subject_text ssl max_items args chip.chip_id)) _ h₇ in
      let h₉ = (>>-eq-ok (call ssl "X509_set_subject_name") _ h₈).1 in
      let hₐ = (>>-eq-ok (call ssl "X509_set_pubkey (endorsement)") _ h₉).1 in
      let (es, exts, hᵦ) =
        >>=-eq-ok (endorsement_extensions ssl max_items chip.tee_type chip.chip_id w.now) _ hₐ in
      let (md, digest, signed) = >>=-eq-ok (digest_for_signing_key ssl key) _ hᵦ in
      let (der, encoded, same) =
        endorsement_extensions-ok ssl max_items chip.tee_type chip.chip_id w.now es exts in
      (
        sn,
        name,
        der,
        md,
        named,
        encoded,
        subst
            (λ x.
              ssl.sign_cert (endorsement_tbs ssl max_items args sn ca name chip.subject_pubkey x)
                key md
              ≡ some cert)
            same (or_throw-eq-ok _ "X509_sign (endorsement)" signed),
      )

  make_endorsement-ok :
      (args : ProvisionArgs) (w : World) (pem : Bytes)
      → make_endorsement ssl max_items args w ≡ ok pem
      → (cert : ssl.Cert) × Issued args w cert × (pem ≡ ssl.write_cert cert)
  unfolding make_endorsement endorsement_tbs
  make_endorsement-ok args w pem h =
      let h₁ = (>>-eq-ok (check_provision_args args) _ h).1 in
      let ((key, ca), loaded, h₂) = >>=-eq-ok (load_ca ssl max_items args w) _ h₁ in
      let (chip, evidence, h₃) = >>=-eq-ok (extract_chip_id ssl max_items args w) _ h₂ in
      let (cert, made, h₄) = >>=-eq-ok (endorse ssl max_items args key ca chip w) _ h₃ in
      let (sn, name, der, md, named, encoded, signed) = endorse-ok args key ca chip w cert made in
      (
        cert,
        record {
          ca_key = key;
          ca_cert = ca;
          chip = chip;
          serial = sn;
          name = name;
          der = der;
          md = md;
          loaded = loaded;
          matches = load_ca-matches args w key ca loaded;
          evidence = evidence;
          named = named;
          encoded = encoded;
          signed = signed;
        },
        pem_cert-ok ssl cert pem h₄,
      )

  -- A command that succeeds has verified the evidence with its vendor's rules, and has written a
  -- certificate under mode 0644 that the CA's key signed, which matches the CA's certificate: its issuer
  -- is the CA's subject, its key is the evidence's key, and its last extension, a critical one, encodes
  -- the TEE type and the chip id of the evidence, with the time. The file holds what the disk took of it.
  pub run_provision-Issued :
      (args : ProvisionArgs) (w : World)
      → (run_provision ssl max_items args w).0 ≡ ok tt
      → (cert : ssl.Cert) × Issued args w cert
        × ((run_provision ssl max_items args w).1.files args.out_path
            ≡ some (record {
              content = take (w.medium args.out_path).accepted (ssl.write_cert cert);
              mode = 0x1A4;
            }))
  unfolding run_provision
  run_provision-Issued args w h =
      let (pem, made, eq) =
        continue-ok (make_endorsement ssl max_items args w)
          (λ pem. write_file args.out_path pem 0x1A4) w h in
      let (cert, issued, text) = make_endorsement-ok args w pem made in
      (
        cert,
        issued,
        ap (λ r. r.1.files args.out_path) eq
            ∙ write_file-ok args.out_path pem 0x1A4 w (sym (ap (λ r. r.0) eq) ∙ h)
            ∙ ap
                (λ t.
                  some
                    (record { content = take (w.medium args.out_path).accepted t; mode = 0x1A4 }))
                text,
      )

  -- The binding of an issued certificate is read back from it.
  pub extract_chip_id_binding-Issued :
      DerLaws ssl
      → KeepsBinding ssl
      → ssl.succeeds "OBJ_txt2obj" ≡ true
      → (args : ProvisionArgs) (w : World) (cert : ssl.Cert) → (issued : Issued args w cert)
      → extract_chip_id_binding ssl cert
        ≡ ok (record {
          tee_type = issued.chip.tee_type;
          chip_id = issued.chip.chip_id;
          issued_at = w.now;
        })
  unfolding extract_chip_id_binding make_oid call
  extract_chip_id_binding-Issued laws keeps txt args w cert i =
      let front : List Extension =
        conf "NID_basic_constraints" "critical,CA:FALSE"
        ∷ conf "NID_key_usage" "critical,digitalSignature"
        ∷ conf "NID_subject_key_identifier" "hash"
        ∷ conf "NID_authority_key_identifier" "keyid:always"
        ∷ [] in
      rw
        (txt, keeps.finds _ i.ca_key i.md cert front i.der i.signed refl (tt, (tt, (tt, (tt, tt)))))
        (decode-encode_chip_id_binding ssl laws i.chip.tee_type i.chip.chip_id w.now i.der
          i.encoded)
