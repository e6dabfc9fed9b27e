-- ===== src/Sgx/Layout.antt =====
-- `extract_pck_chain_from_quote` of provision/sgx/sgx_provision.cpp, up to the certification data.
use tee_anchor.Prelude.{ℕ, ◌+◌, ◌==◌, if◌then◌else◌, Bytes, Result, ok, throw, ◌>>◌}
use tee_anchor.Quote.{need, rd_u16le, rd_u32le}

abbrev pub quote_header_size : ℕ
quote_header_size = 48

abbrev pub report_body_size : ℕ
report_body_size = 384

abbrev pub sig_len_field_size : ℕ
sig_len_field_size = 4

abbrev pub ecdsa_fixed_size : ℕ
ecdsa_fixed_size = 64 + 64 + report_body_size + 64

abbrev pub cert_type_pck_cert_chain : ℕ
cert_type_pck_cert_chain = 5

-- The offset and the size of the certification data. `off` below is the offset of the auth data.
unfoldable pub locate_pck_chain : Bytes → Result (ℕ × ℕ)
locate_pck_chain q = do
  let sig = quote_header_size + report_body_size + sig_len_field_size
  need q sig ecdsa_fixed_size "quote too short while reading ecdsa signature fixed part"
  let off = sig + ecdsa_fixed_size
  need q off 2 "quote too short while reading auth_data size"
  let auth_size = rd_u16le q off
  need q (off + 2) auth_size "quote too short while reading auth_data body"
  let header = off + 2 + auth_size
  need q header 6 "quote too short while reading certification_data header"
  let cert_key_type = rd_u16le q header
  let cert_size = rd_u32le q (header + 2)
  need q (header + 6) cert_size "quote too short while reading certification_data body"
  if cert_key_type == cert_type_pck_cert_chain
      then ok (header + 6, cert_size)
      else throw "unsupported cert_key_type"
