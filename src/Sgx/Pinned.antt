-- ===== src/Sgx/Pinned.antt =====
-- What an accepted PCK chain of provision/sgx/sgx_provision.cpp has established.
use tee_anchor.Prelude.{
  ℕ, ◌≡◌, ap, sym, ◌∙◌, true, false, Option, none, some, List, [], ◌∷◌, ◌==◌, if◌then◌else◌, String,
  bytes_eq, bytes_eq_iff, ok, throw, throw_if, or_throw, >>=-eq-ok, >>-eq-ok, or_throw-eq-ok,
  throw_unless-eq-ok, ok_injective, Bool-cases, inl, inr, arith,
}
use tee_anchor.OpenSsl.{OpenSsl, call}
use tee_anchor.Sgx.Chain.{
  Link, number_from, get_ec_pubkey_uncompressed, is_self_signed, find_root, find_leaf_in, find_leaf,
  issuer_of_some, intermediates, push_all, pck_store, verify_leaf, verify_links, verify_pck_chain,
  intel_sgx_root_pubkey,
}

module _ (ssl : OpenSsl) where
  -- The root and the leaf of a chain, by their places.
  pub record Pinned (chain : List ssl.Cert) (leaf : ssl.Cert) : Type 0 where
    pub root : Link ssl
    pub link : Link ssl
    pub found : find_root ssl (number_from ssl 0 chain) ≡ some root
    pub root_self : is_self_signed ssl root.1 ≡ true
    pub root_key : get_ec_pubkey_uncompressed ssl root.1 ≡ ok intel_sgx_root_pubkey
    pub leaf_found : find_leaf ssl (number_from ssl 0 chain) ≡ some link
    pub leaf_not_self : is_self_signed ssl leaf ≡ false
    pub leaf_issues_none : issuer_of_some ssl link (number_from ssl 0 chain) ≡ false
    pub same : link.1 ≡ leaf
    pub verified : ssl.verify_cert (pck_store ssl root link (number_from ssl 0 chain)) leaf ≡ 0

  pub some_injective : {A : Type 0} {a b : A} → some a ≡ some b → a ≡ b
  some_injective {A} {a} {b} h = ap (λ (o : Option A). from o) h
    where
      from : Option A → A
      from none = a
      from (some x) = x

  find_root_self :
      (links : List (Link ssl)) (root : Link ssl)
      → find_root ssl links ≡ some root
      → is_self_signed ssl root.1 ≡ true
  unfolding find_root
  find_root_self [] root h = cc
  find_root_self (c ∷ cs) root h = elim (Bool-cases (is_self_signed ssl c.1)) [
    | inl self ↦
        ap (λ (l : Link ssl). is_self_signed ssl l.1) (sym (some_injective (rw self at h))) ∙ self
    | inr other ↦ find_root_self cs root (rw other at h)
  ]

  find_leaf_in-leaf :
      (chain links : List (Link ssl)) (link : Link ssl)
      → find_leaf_in ssl chain links ≡ some link
      → (is_self_signed ssl link.1 ≡ false) × (issuer_of_some ssl link chain ≡ false)
  unfolding find_leaf_in
  find_leaf_in-leaf chain [] link h = cc
  find_leaf_in-leaf chain (c ∷ cs) link h = elim (Bool-cases (is_self_signed ssl c.1)) [
    | inl self ↦ find_leaf_in-leaf chain cs link (rw self at h)
    | inr other ↦ elim (Bool-cases (issuer_of_some ssl c chain)) [
      | inl issues ↦ find_leaf_in-leaf chain cs link (rw (other, issues) at h)
      | inr ends ↦
          let same = some_injective (rw (other, ends) at h) in
          (
            ap (λ (l : Link ssl). is_self_signed ssl l.1) (sym same) ∙ other,
            ap (λ (l : Link ssl). issuer_of_some ssl l chain) (sym same) ∙ ends,
          )
    ]
  ]

  verify_leaf-ok :
      (root link : Link ssl) (links : List (Link ssl)) (leaf : ssl.Cert)
      → verify_leaf ssl root link links ≡ ok leaf
      → (link.1 ≡ leaf) × (ssl.verify_cert (pck_store ssl root link links) leaf ≡ 0)
  unfolding verify_leaf
  verify_leaf-ok root link links leaf h =
      let h₁ = (>>-eq-ok (call ssl "X509_STORE_new") _ h).1 in
      let h₂ = (>>-eq-ok (call ssl "X509_STORE_add_cert (root)") _ h₁).1 in
      let h₃ = (>>-eq-ok (call ssl "sk_X509_new_null") _ h₂).1 in
      let h₄ = (>>-eq-ok (push_all ssl (intermediates ssl root link links)) _ h₃).1 in
      let h₅ = (>>-eq-ok (call ssl "X509_STORE_CTX_new") _ h₄).1 in
      let h₆ = (>>-eq-ok (call ssl "X509_STORE_CTX_init") _ h₅).1 in
      let (good, same) =
        zero_or (ssl.verify_cert (pck_store ssl root link links) link.1) link.1 leaf _ h₆ in
      (same, ap (λ c. ssl.verify_cert (pck_store ssl root link links) c) (sym same) ∙ good)
    where
      zero_or :
          (n : ℕ) (a b : ssl.Cert) (msg : String)
          → (if n == 0 then ok a else throw msg) ≡ ok b
          → (n ≡ 0) × (a ≡ b)
      zero_or n a b msg e = elim (Bool-cases (n == 0)) [
        | inl z ↦ (ground arith, ok_injective (rw z at e))
        | inr nz ↦ absurd (ground arith)
      ]

  verify_links-Pinned :
      (chain : List ssl.Cert) (leaf : ssl.Cert)
      → verify_links ssl (number_from ssl 0 chain) ≡ ok leaf
      → Pinned chain leaf
  unfolding verify_links find_leaf
  verify_links-Pinned chain leaf h =
      let links = number_from ssl 0 chain in
      let (root, found, h₁) = >>=-eq-ok (or_throw (find_root ssl links) _) _ h in
      let (root_pub, key, h₂) = >>=-eq-ok (get_ec_pubkey_uncompressed ssl root.1) _ h₁ in
      let (pinned, h₃) =
        >>-eq-ok
          (throw_if (if bytes_eq root_pub intel_sgx_root_pubkey then false else true)
            "PCK chain root public key does not match the hardcoded Intel SGX Root CA public key")
          _ h₂ in
      let (link, last, h₄) = >>=-eq-ok (or_throw (find_leaf ssl links) _) _ h₃ in
      let root_found = or_throw-eq-ok (find_root ssl links) _ found in
      let leaf_found = or_throw-eq-ok (find_leaf ssl links) _ last in
      let (not_self, ends) = find_leaf_in-leaf links links link leaf_found in
      let (same, verified) = verify_leaf-ok root link links leaf h₄ in
      record {
        root = root;
        link = link;
        found = root_found;
        root_self = find_root_self links root root_found;
        root_key =
            key
            ∙ ap ok
                ((bytes_eq_iff root_pub intel_sgx_root_pubkey).0 (throw_unless-eq-ok _ _ pinned));
        leaf_found = leaf_found;
        leaf_not_self = ap (λ c. is_self_signed ssl c) (sym same) ∙ not_self;
        leaf_issues_none = ends;
        same = same;
        verified = verified;
      }

  -- A chain that is accepted has a self-signed certificate whose public key is Intel's, the first
  -- self-signed one of the chain, and the leaf that is returned is the first certificate of the chain
  -- that is neither self-signed nor named as the issuer of another one; OpenSSL accepts it with that root
  -- as its only trust anchor.
  pub verify_pck_chain-Pinned :
      (chain : List ssl.Cert) (leaf : ssl.Cert)
      → verify_pck_chain ssl chain ≡ ok leaf
      → Pinned chain leaf
  unfolding verify_pck_chain
  verify_pck_chain-Pinned [] leaf h = cc
  verify_pck_chain-Pinned (c ∷ cs) leaf h = verify_links-Pinned (c ∷ cs) leaf h
