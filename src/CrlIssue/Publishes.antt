-- ===== src/CrlIssue/Publishes.antt =====
-- What `run_crl_issue` of ca/crl_issue.cpp publishes.
use tee_anchor.Prelude.Int.{pos, days, to_int64}
use tee_anchor.Prelude.{
  ◌+◌, ◌%◌, ◌^◌, ◌≡◌, ap, sym, ◌∙◌, true, false, Option, some, List, [], ◌∷◌, Bytes, is_empty,
  false, throw_if-eq-ok, ok, throw_if, >>=-eq-ok, >>-eq-ok, throw_unless-eq-ok, or_throw-eq-ok,
  ok_injective, if◌then◌else◌,
}
use tee_anchor.OpenSsl.{OpenSsl, Digest, Revoked, conf, call}
use tee_anchor.World.{World}
use tee_anchor.Pki.{load_pem_private_key, load_pem_cert, digest_for_signing_key}
use tee_anchor.RevocationDb.{RevocationDb, load_revocation_db}
use tee_anchor.Revoke.{db_path_or_default}
use tee_anchor.CrlIssue.{
  CrlIssueArgs, check_crl_issue_args, next_crl_number, revoked_list, start_crl, finish_crl, tbs_crl,
  build_crl, pem_crl, plan_crl,
}
use tee_anchor.CrlIssue.Entries.{AllLists, revoked_list-ok}

check_crl_issue_args-out :
    (args : CrlIssueArgs) → check_crl_issue_args args ≡ ok tt → is_empty args.out_path ≡ false
unfolding check_crl_issue_args
check_crl_issue_args-out args h =
    let h₁ = (>>-eq-ok (throw_if (is_empty args.ca_key_path) _) _ h).1 in
    let h₂ = (>>-eq-ok (throw_if (is_empty args.ca_cert_path) _) _ h₁).1 in
    throw_if-eq-ok (is_empty args.out_path) _
      (>>-eq-ok (throw_if (is_empty args.out_path) _) _ h₂).0

module _ (ssl : OpenSsl) where
  -- The list as it is read, and the CRL that is signed over its entries, sorted.
  pub record Published (args : CrlIssueArgs) (w : World) (pem : Bytes) (db : RevocationDb)
      : Type 0 where
    pub old : RevocationDb
    pub ca_key : ssl.Key
    pub ca_cert : ssl.Cert
    pub revoked : List Revoked
    pub md : Option Digest
    pub crl : ssl.Crl
    pub out_given : is_empty args.out_path ≡ false
    pub key_loaded : load_pem_private_key ssl args.ca_key_path w ≡ ok ca_key
    pub cert_loaded : load_pem_cert ssl args.ca_cert_path w ≡ ok ca_cert
    pub loaded : load_revocation_db (db_path_or_default args.db_path args.ca_cert_path) w ≡ ok old
    pub numbered : db ≡ record { crl_number = (old.crl_number + 1) % 2 ^ 64; entries = old.entries }
    pub matches : ssl.key_matches ca_cert ca_key ≡ true
    pub listed : AllLists ssl old.entries revoked
    pub signed :
        ssl.sign_crl
          (record {
            version = 1;
            issuer = ssl.subject ca_cert;
            this_update = pos 0;
            next_update = days args.validity_days;
            revoked = ssl.sort_revoked revoked;
            crl_number = to_int64 ((old.crl_number + 1) % 2 ^ 64);
            extensions = conf "NID_authority_key_identifier" "keyid:always" ∷ [];
          })
          ca_key
          md
        ≡ some crl
    pub printed : pem ≡ ssl.write_crl crl

  build_crl-ok :
      (args : CrlIssueArgs) (key : ssl.Key) (cert : ssl.Cert) (db : RevocationDb) (crl : ssl.Crl)
      → build_crl ssl args key cert db ≡ ok crl
      → (rs : List Revoked) × (md : Option Digest) × AllLists ssl db.entries rs
        × (ssl.sign_crl (tbs_crl ssl args cert db (ssl.sort_revoked rs)) key md ≡ some crl)
  unfolding build_crl
  build_crl-ok args key cert db crl h =
      let h₁ = (>>-eq-ok (start_crl ssl) _ h).1 in
      let (rs, listed, h₂) = >>=-eq-ok (revoked_list ssl db.entries) _ h₁ in
      let h₃ = (>>-eq-ok (finish_crl ssl) _ h₂).1 in
      let (md, digest, h₄) = >>=-eq-ok (digest_for_signing_key ssl key) _ h₃ in
      (rs, md, revoked_list-ok ssl db.entries rs listed, or_throw-eq-ok _ "X509_CRL_sign" h₄)

  pem_crl-ok : (crl : ssl.Crl) (pem : Bytes) → pem_crl ssl crl ≡ ok pem → pem ≡ ssl.write_crl crl
  unfolding pem_crl
  pem_crl-ok crl pem h =
      let h₁ = (>>-eq-ok (call ssl "BIO_new (mem)") _ h).1 in
      sym
        (ok_injective (>>-eq-ok (call ssl "PEM_write_bio_X509_CRL") (ok (ssl.write_crl crl)) h₁).1)

  -- The CRL that is made carries the number after the one in the list. Its entries are those of the list,
  -- each with its serial number, date and reason, in the order that `X509_CRL_sort` gives them. Its
  -- issuer is the subject of the CA's certificate, and it is signed with the CA's key, which matches
  -- that certificate.
  pub plan_crl-Published :
      (args : CrlIssueArgs) (w : World) (pem : Bytes) (db : RevocationDb)
      → plan_crl ssl args w ≡ ok (pem, db)
      → Published args w pem db
  unfolding plan_crl next_crl_number tbs_crl
  plan_crl-Published args w pem db h =
      let (checked, h₁) = >>-eq-ok (check_crl_issue_args args) _ h in
      let (key, l₁, h₂) = >>=-eq-ok (load_pem_private_key ssl args.ca_key_path w) _ h₁ in
      let (cert, l₂, h₃) = >>=-eq-ok (load_pem_cert ssl args.ca_cert_path w) _ h₂ in
      let (fits, h₄) =
        >>-eq-ok (throw_if (if ssl.key_matches cert key then false else true) _) _ h₃ in
      let (old, loaded, h₅) =
        >>=-eq-ok (load_revocation_db (db_path_or_default args.db_path args.ca_cert_path) w) _ h₄ in
      let (crl, built, h₆) = >>=-eq-ok (build_crl ssl args key cert (next_crl_number old)) _ h₅ in
      let (text, printed, h₇) = >>=-eq-ok (pem_crl ssl crl) _ h₆ in
      let (rs, md, listed, signed) = build_crl-ok args key cert (next_crl_number old) crl built in
      let same = ok_injective h₇ in
      record {
        old = old;
        ca_key = key;
        ca_cert = cert;
        revoked = rs;
        md = md;
        crl = crl;
        out_given = check_crl_issue_args-out args checked;
        key_loaded = l₁;
        cert_loaded = l₂;
        loaded = loaded;
        numbered = sym (ap (λ (p : Bytes × RevocationDb). p.1) same);
        matches = throw_unless-eq-ok (ssl.key_matches cert key) _ fits;
        listed = listed;
        signed = signed;
        printed = sym (ap (λ (p : Bytes × RevocationDb). p.0) same) ∙ pem_crl-ok crl text printed;
      }
