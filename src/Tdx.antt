-- ===== src/Tdx.antt =====
-- provision/tdx/tdx_provision.cpp: from a TD quote to the PPID.
pub mod Layout
pub mod Ends
pub mod Region
use tee_anchor.Prelude.{ℕ, Option, none, some, List, Bytes, Result, ok, or_throw, ◌>>=◌}
use tee_anchor.OpenSsl.{OpenSsl}
use tee_anchor.Quote.{read_chain}
use tee_anchor.Sgx.Chain.{verify_pck_chain}
use tee_anchor.Sgx.Extension.{find_sgx_extension_octet, oid_sgx_ppid}
use Layout.{locate_sig_data, locate_pck_region}

-- The region of the inner certification data; the second test is defensive in the program.
unfoldable pub locate_region : Bytes → Result (ℕ × ℕ)
locate_region quote = do
  (sd, sdl) ← locate_sig_data quote
  or_throw (locate_pck_region quote sd sdl)
      "PCK cert chain not found in TD quote certification data"

module _ (ssl : OpenSsl) where
  unfoldable pub extract_pck_chain_from_quote : Bytes → Result (List ssl.Cert)
  extract_pck_chain_from_quote quote = do
    (pck_off, pck_size) ← locate_region quote
    read_chain ssl quote pck_off pck_size "no PCK certificates found in TD quote certification data"

  unfoldable pub extract_ppid_from_quote : Bytes → Result Bytes
  extract_ppid_from_quote quote = do
    chain ← extract_pck_chain_from_quote quote
    leaf ← verify_pck_chain ssl chain
    ppid ← find_sgx_extension_octet ssl leaf oid_sgx_ppid
    or_throw ppid "PPID (OID 1.2.840.113741.1.13.1.1) not found in PCK leaf"
