-- ===== src/Sgx.antt =====
-- provision/sgx/sgx_provision.cpp: from an SGX quote to the PPID. The parts are in the modules below.
pub mod Layout
pub mod Extension
pub mod Ends
pub mod Chain
pub mod Pinned
pub mod Forging
use tee_anchor.Prelude.{ℕ, Option, none, some, List, Bytes, codes, Result, ok, or_throw, ◌>>=◌}
use tee_anchor.OpenSsl.{OpenSsl}
use tee_anchor.Quote.{read_chain}
use Layout.{locate_pck_chain}
use Chain.{verify_pck_chain}
use Extension.{find_sgx_extension_octet, oid_sgx_ppid}

module _ (ssl : OpenSsl) where
  unfoldable pub extract_pck_chain_from_quote : Bytes → Result (List ssl.Cert)
  extract_pck_chain_from_quote quote = do
    (off, size) ← locate_pck_chain quote
    read_chain ssl quote off size "no PCK certificates found in quote certification_data"

  unfoldable pub extract_ppid_from_quote : Bytes → Result Bytes
  extract_ppid_from_quote quote = do
    chain ← extract_pck_chain_from_quote quote
    leaf ← verify_pck_chain ssl chain
    ppid ← find_sgx_extension_octet ssl leaf oid_sgx_ppid
    or_throw ppid "PPID (OID 1.2.840.113741.1.13.1.1) not found in PCK cert"
