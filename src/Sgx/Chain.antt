-- ===== src/Sgx/Chain.antt =====
-- The chain of provision/sgx/sgx_provision.cpp: the pinned root, the leaf, and the verification. The
-- program compares certificates by address, so the model numbers them by their place in the chain.
use tee_anchor.Prelude.{
  ℕ, suc, Bool, true, false, ◌||◌, Option, none, some, List, [], ◌∷◌, ◌==◌, if◌then◌else◌, Bytes,
  bytes_eq, Result, ok, throw, throw_if, or_throw, ◌>>=◌, ◌>>◌,
}
use tee_anchor.OpenSsl.{OpenSsl, Store, call}

-- kIntelSgxRootPubkey of provision/sgx/intel_sgx_root_pubkey.hpp
abbrev pub intel_sgx_root_pubkey : Bytes
intel_sgx_root_pubkey =
    0x04 ∷ 0x0b ∷ 0xa9 ∷ 0xc4 ∷ 0xc0 ∷ 0xc0 ∷ 0xc8 ∷ 0x61 ∷ 0x93 ∷ 0xa3 ∷ 0xfe ∷ 0x23 ∷ 0xd6 ∷ 0xb0
    ∷ 0x2c ∷ 0xda ∷ 0x10 ∷ 0xa8 ∷ 0xbb ∷ 0xd4 ∷ 0xe8 ∷ 0x8e ∷ 0x48 ∷ 0xb4 ∷ 0x45 ∷ 0x85 ∷ 0x61
    ∷ 0xa3 ∷ 0x6e ∷ 0x70 ∷ 0x55 ∷ 0x25 ∷ 0xf5 ∷ 0x67 ∷ 0x91 ∷ 0x8e ∷ 0x2e ∷ 0xdc ∷ 0x88 ∷ 0xe4
    ∷ 0x0d ∷ 0x86 ∷ 0x0b ∷ 0xd0 ∷ 0xcc ∷ 0x4e ∷ 0xe2 ∷ 0x6a ∷ 0xac ∷ 0xc9 ∷ 0x88 ∷ 0xe5 ∷ 0x05
    ∷ 0xa9 ∷ 0x53 ∷ 0x55 ∷ 0x8c ∷ 0x45 ∷ 0x3f ∷ 0x6b ∷ 0x09 ∷ 0x04 ∷ 0xae ∷ 0x73 ∷ 0x94 ∷ []

module _ (ssl : OpenSsl) where
  -- A certificate of the chain, with its place.
  abbrev pub Link : Type 0
  Link = ℕ × ssl.Cert

  unfoldable pub number_from : ℕ → List ssl.Cert → List Link
  number_from n [] = []
  number_from n (c ∷ cs) = (n, c) ∷ number_from (suc n) cs

  unfoldable pub get_ec_pubkey_uncompressed : ssl.Cert → Result Bytes
  get_ec_pubkey_uncompressed cert = do
    key ← or_throw (ssl.public_key cert) "X509_get0_pubkey"
    or_throw (ssl.ec_point key) "EVP_PKEY_get_octet_string_param"

  unfoldable pub is_self_signed : ssl.Cert → Bool
  is_self_signed c = ssl.same_name (ssl.subject c) (ssl.issuer c)

  unfoldable pub find_root : List Link → Option Link
  find_root [] = none
  find_root (c ∷ cs) = if is_self_signed c.1 then some c else find_root cs

  -- The inner loop: some other certificate names `c` as its issuer.
  unfoldable pub issuer_of_some : Link → List Link → Bool
  issuer_of_some c [] = false
  issuer_of_some c (other ∷ rest) =
      if other.0 == c.0
      then issuer_of_some c rest
      else (ssl.same_name (ssl.subject c.1) (ssl.issuer other.1) || issuer_of_some c rest)

  unfoldable pub find_leaf_in : List Link → List Link → Option Link
  find_leaf_in chain [] = none
  find_leaf_in chain (c ∷ cs) =
      if is_self_signed c.1
      then find_leaf_in chain cs
      else if issuer_of_some c chain
      then find_leaf_in chain cs
      else some c

  unfoldable pub find_leaf : List Link → Option Link
  unfolding find_leaf_in
  find_leaf chain = find_leaf_in chain chain

  -- The certificates that are neither the root nor the leaf.
  unfoldable pub intermediates : Link → Link → List Link → List ssl.Cert
  intermediates root leaf [] = []
  intermediates root leaf (c ∷ cs) =
      if c.0 == root.0 || c.0 == leaf.0
      then intermediates root leaf cs
      else c.1 ∷ intermediates root leaf cs

  -- `sk_X509_push`, once for each of them
  unfoldable pub push_all : List ssl.Cert → Result (Unit {0})
  push_all [] = ok tt
  push_all (c ∷ cs) = do call ssl "sk_X509_push"; push_all cs

  unfoldable pub pck_store : Link → Link → List Link → Store ssl.Cert ssl.Crl
  pck_store root leaf links = record {
    trusted = root.1;
    untrusted = intermediates root leaf links;
    crl = none;
    ignore_critical = false;
    crl_check = false;
  }

  -- Step 4: the root as trust anchor, and the verification of the leaf.
  unfoldable pub verify_leaf : Link → Link → List Link → Result ssl.Cert
  verify_leaf root leaf links = do
    call ssl "X509_STORE_new"
    call ssl "X509_STORE_add_cert (root)"
    call ssl "sk_X509_new_null"
    push_all (intermediates root leaf links)
    call ssl "X509_STORE_CTX_new"
    call ssl "X509_STORE_CTX_init"
    if ssl.verify_cert (pck_store root leaf links) leaf.1 == 0
        then ok leaf.1
        else throw "PCK chain verification failed"

  -- Steps 1 to 3.
  unfoldable pub verify_links : List Link → Result ssl.Cert
  verify_links links = do
    root ← or_throw (find_root links) "no self-signed root certificate in PCK chain"
    root_pub ← get_ec_pubkey_uncompressed root.1
    throw_if (if bytes_eq root_pub intel_sgx_root_pubkey then false else true)
        "PCK chain root public key does not match the hardcoded Intel SGX Root CA public key"
    leaf ← or_throw (find_leaf links) "could not identify leaf certificate in PCK chain"
    verify_leaf root leaf links

  unfoldable pub verify_pck_chain : List ssl.Cert → Result ssl.Cert
  verify_pck_chain [] = throw "empty PCK chain"
  verify_pck_chain (c ∷ cs) = verify_links (number_from 0 (c ∷ cs))
