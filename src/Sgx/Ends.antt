-- ===== src/Sgx/Ends.antt =====
-- provision/sgx/sgx_provision.cpp: its results are never out of fuel. The loops that OpenSSL drives are
-- those over the certificates of the quote and over the elements of the leaf's extension.
use tee_anchor.Prelude.{
  ℕ, zero, suc, ◌<◌, List, [], ◌∷◌, length, length-drop, drop, take, Bytes, String, throw, ok,
  arith, Option-cases, inl, inr,
}
use tee_anchor.Prelude.Endings.{
  Stops, Stops-ok, Stops-throw, Stops-if, Stops-option, Stops-bind, stops_rules,
}
use tee_anchor.OpenSsl.{OpenSsl}
use tee_anchor.Pki.Ends.{call-Stops, make_oid-Stops, pki_rules}
use tee_anchor.Quote.{need, mem_buf, read_certs, read_chain}
use tee_anchor.Quote.Reads.{ReadsOn, Ends-read_certs}
use tee_anchor.Binding.RoundTrip.{DerLaws}
use tee_anchor.Sgx.Layout.{locate_pck_chain}
use tee_anchor.Sgx.Chain.{
  get_ec_pubkey_uncompressed, push_all, verify_leaf, verify_links, verify_pck_chain, number_from,
}
use tee_anchor.Sgx.Extension.{walk_loop, walk_extension, find_sgx_extension_octet}
use tee_anchor.Sgx.{extract_pck_chain_from_quote}

pub need-Stops : (q : Bytes) (off n : ℕ) (msg : String) → Stops (need q off n msg)
unfolding need
need-Stops q off n msg = search stops_rules

locate_pck_chain-Stops : (q : Bytes) → Stops (locate_pck_chain q)
unfolding locate_pck_chain
locate_pck_chain-Stops q = search (stops_rules, need-Stops) depth 12

module _ (ssl : OpenSsl) where
  push_all-Stops : (cs : List ssl.Cert) → Stops (push_all ssl cs)
  unfolding push_all
  push_all-Stops [] = Stops-ok tt
  push_all-Stops (c ∷ cs) = Stops-bind _ _ (call-Stops ssl _) (λ _. push_all-Stops cs)

  verify_leaf-Stops :
      (root leaf : ℕ × ssl.Cert) (links : List (ℕ × ssl.Cert))
      → Stops (verify_leaf ssl root leaf links)
  unfolding verify_leaf
  verify_leaf-Stops root leaf links = search (pki_rules, push_all-Stops) depth 12

  verify_links-Stops : (links : List (ℕ × ssl.Cert)) → Stops (verify_links ssl links)
  unfolding verify_links get_ec_pubkey_uncompressed
  verify_links-Stops links = search (stops_rules, verify_leaf-Stops)

  pub verify_pck_chain-Stops : (chain : List ssl.Cert) → Stops (verify_pck_chain ssl chain)
  unfolding verify_pck_chain
  verify_pck_chain-Stops [] = Stops-throw _
  verify_pck_chain-Stops (c ∷ cs) = verify_links-Stops (number_from ssl 0 (c ∷ cs))

module _ (ssl : OpenSsl) (reads_on : ReadsOn ssl) where
  pub read_chain-Stops :
      (q : Bytes) (off size : ℕ) (msg : String) → Stops (read_chain ssl q off size msg)
  unfolding read_chain
  read_chain-Stops q off size msg =
      let bio = mem_buf q off size in
      Stops-bind _ _ (call-Stops ssl "BIO_new_mem_buf") λ _.
        Stops-bind (read_certs ssl (suc (length bio)) bio) _
          (record { ends = Ends-read_certs ssl reads_on (suc (length bio)) bio (omega arith) })
          some_or_throw
    where
      some_or_throw :
          (chain : List ssl.Cert)
          → Stops {A = List ssl.Cert} (elim chain [ [] ↦ throw msg | c ∷ cs ↦ ok (c ∷ cs) ])
      some_or_throw [] = Stops-throw msg
      some_or_throw (c ∷ cs) = Stops-ok (c ∷ cs)

  pub extract_pck_chain_from_quote-Stops :
      (quote : Bytes) → Stops (extract_pck_chain_from_quote ssl quote)
  unfolding extract_pck_chain_from_quote
  extract_pck_chain_from_quote-Stops quote =
      search (stops_rules, locate_pck_chain-Stops, read_chain-Stops)

module _ (ssl : OpenSsl) (laws : DerLaws ssl) where
  walk_loop-Stops : (f : ℕ) (p target : Bytes) → length p < f → Stops (walk_loop ssl f p target)
  unfolding walk_loop
  walk_loop-Stops zero p target h = absurd (omega arith)
  walk_loop-Stops (suc f) [] target h = Stops-ok _
  walk_loop-Stops (suc f) (b ∷ bs) target h = elim (Option-cases (ssl.get_object (b ∷ bs))) [
    | inl e ↦ rw (e, walk_loop) (Stops-ok _)
    | inr ((tag, elem_len, q), e) ↦
        let rest : Stops (walk_loop ssl f (drop elem_len q) target) =
          walk_loop-Stops f (drop elem_len q) target
            (omega (arith, laws.within (b ∷ bs) tag elem_len q e, length-drop elem_len q)) in
        rw (e, walk_loop)
          (Stops-if _ _ _
            (Stops-option (ssl.read_oid (take elem_len q)) _ _ (Stops-ok _)
              (λ (oid, op). Stops-if _ _ _ (Stops-ok _) rest))
            (Stops-ok _))
  ]

  walk_extension-Stops : (der target : Bytes) → Stops (walk_extension ssl der target)
  unfolding walk_extension
  walk_extension-Stops der target =
      Stops-option (ssl.get_object der) _ _ (Stops-ok _) λ (tag, len, p).
        Stops-if _ _ _
          (walk_loop-Stops (suc (length (take len p))) (take len p) target (omega arith))
          (Stops-ok _)

  pub find_sgx_extension_octet-Stops :
      (leaf : ssl.Cert) (oid : Bytes) → Stops (find_sgx_extension_octet ssl leaf oid)
  unfolding find_sgx_extension_octet
  find_sgx_extension_octet-Stops leaf oid = Stops-bind _ _ (make_oid-Stops ssl _) λ ext_oid.
      Stops-option (ssl.extension leaf ext_oid) _ _ (Stops-ok _) λ found.
        Stops-option found _ _ (Stops-ok _)
          λ der. Stops-bind _ _ (make_oid-Stops ssl oid) λ target. walk_extension-Stops der target
