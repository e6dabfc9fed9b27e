-- ===== src/Pki/Ends.antt =====
-- common/pki_util.hpp: its results are never out of fuel.
use tee_anchor.Prelude.{Bytes, String, List, ◌>>◌, Result}
use tee_anchor.Prelude.Endings.{
  Stops, Stops-ok, Stops-throw, Stops-if, Stops-bind, Stops-option, Stops-of-ne, stops_rules,
}
use tee_anchor.OpenSsl.{OpenSsl, KeyKind, ec, rsa, ed25519, ed448, other, Extension, call}
use tee_anchor.World.{World, read_file}
use tee_anchor.Pki.{
  sig_md_for_curve, digest_for_signing_key, gen_ec_key, load_pem_private_key, load_pem_cert,
  load_pem_crl, pem_private_key, pem_cert, random_serial, add_v3_ext, make_oid, pubkey_spki_sha384,
}
use tee_anchor.Pki.Dn.{parse_dn}
use tee_anchor.Pki.DnRuns.{parse_dn-Ends}

pub read_file-Stops : (path : Bytes) (w : World) → Stops (read_file path w)
unfolding read_file
read_file-Stops path w =
    Stops-if _ _ _ (Stops-option (w.files path) _ _ (Stops-throw _) (λ f. Stops-ok f.content))
      (Stops-throw _)

pub sig_md_for_curve-Stops : (curve : Bytes) → Stops (sig_md_for_curve curve)
unfolding sig_md_for_curve
sig_md_for_curve-Stops curve = search stops_rules

-- The digest's `switch` on the kind of a key.
Stops-kind :
    {A : Type 0} (k : KeyKind) (for_ec for_rsa for_ed : Result A)
    → Stops for_ec
    → Stops for_rsa
    → Stops for_ed
    → Stops (elim k [
      | ec ↦ for_ec
      | rsa ↦ for_rsa
      | ed25519 ↦ for_ed
      | ed448 ↦ for_ed
      | other ↦ for_rsa
    ])
Stops-kind ec _ _ _ h₁ h₂ h₃ = h₁
Stops-kind rsa _ _ _ h₁ h₂ h₃ = h₂
Stops-kind ed25519 _ _ _ h₁ h₂ h₃ = h₃
Stops-kind ed448 _ _ _ h₁ h₂ h₃ = h₃
Stops-kind other _ _ _ h₁ h₂ h₃ = h₂

module _ (ssl : OpenSsl) where
  pub call-Stops : (name : String) → Stops (call ssl name)
  unfolding call
  call-Stops name = search stops_rules

  -- A call in front of a run.
  pub after_call :
      {A : Type 0} (name : String) {r : Result A} → Stops r → Stops (call ssl name >> r)
  after_call name h = Stops-bind (call ssl name) _ (call-Stops name) (λ _. h)

  ruleset call_rules = (stops_rules, call-Stops, read_file-Stops)

  pub digest_for_signing_key-Stops : (key : ssl.Key) → Stops (digest_for_signing_key ssl key)
  unfolding digest_for_signing_key
  digest_for_signing_key-Stops key =
      Stops-kind (ssl.kind key) _ _ _ (search (stops_rules, sig_md_for_curve-Stops)) (Stops-ok _)
        (Stops-ok _)

  pub gen_ec_key-Stops : (curve : Bytes) → Stops (gen_ec_key ssl curve)
  unfolding gen_ec_key
  gen_ec_key-Stops curve = search stops_rules

  pub load_pem_private_key-Stops :
      (path : Bytes) (w : World) → Stops (load_pem_private_key ssl path w)
  unfolding load_pem_private_key
  load_pem_private_key-Stops path w = search call_rules

  pub load_pem_cert-Stops : (path : Bytes) (w : World) → Stops (load_pem_cert ssl path w)
  unfolding load_pem_cert
  load_pem_cert-Stops path w = search call_rules

  pub load_pem_crl-Stops : (path : Bytes) (w : World) → Stops (load_pem_crl ssl path w)
  unfolding load_pem_crl
  load_pem_crl-Stops path w = search call_rules

  pub pem_private_key-Stops : (key : ssl.Key) → Stops (pem_private_key ssl key)
  unfolding pem_private_key
  pem_private_key-Stops key = search call_rules

  pub pem_cert-Stops : (cert : ssl.Cert) → Stops (pem_cert ssl cert)
  unfolding pem_cert
  pem_cert-Stops cert = search call_rules

  pub random_serial-Stops : (w : World) → Stops (random_serial ssl w)
  unfolding random_serial
  random_serial-Stops w = search call_rules depth 6

  pub add_v3_ext-Stops :
      (nid text : String) (extensions : List Extension) → Stops (add_v3_ext ssl nid text extensions)
  unfolding add_v3_ext
  add_v3_ext-Stops nid text extensions = search call_rules

  pub make_oid-Stops : (oid : Bytes) → Stops (make_oid ssl oid)
  unfolding make_oid
  make_oid-Stops oid = search call_rules

  pub pubkey_spki_sha384-Stops : (cert : ssl.Cert) → Stops (pubkey_spki_sha384 ssl cert)
  unfolding pubkey_spki_sha384
  pubkey_spki_sha384-Stops cert = search call_rules

  pub parse_dn-Stops : (dn : Bytes) → Stops (parse_dn ssl dn)
  parse_dn-Stops dn = Stops-of-ne (parse_dn ssl dn) (parse_dn-Ends ssl dn)

pub ruleset pki_rules = (
  stops_rules, call-Stops, read_file-Stops, sig_md_for_curve-Stops, digest_for_signing_key-Stops,
  gen_ec_key-Stops, load_pem_private_key-Stops, load_pem_cert-Stops, load_pem_crl-Stops,
  pem_private_key-Stops, pem_cert-Stops, random_serial-Stops, add_v3_ext-Stops, make_oid-Stops,
  pubkey_spki_sha384-Stops, parse_dn-Stops,
)
