-- ===== src/Sgx/Forging.antt =====
-- What the result of `extract_ppid_from_quote` of provision/sgx/sgx_provision.cpp depends on.
use tee_anchor.Prelude.{
  ℕ, ◌+◌, ◌/◌, ◌%◌, ◌^◌, ◌<◌, ◌≡◌, sym, ◌∙◌, [], ◌∷◌, ◌++◌, length, length-append, take-length,
  append_assoc, Bytes, ok, arith,
}
use tee_anchor.OpenSsl.{OpenSsl}
use tee_anchor.Quote.{need, rd_u16le, rd_u32le, read_chain, mem_buf}
use tee_anchor.Quote.Reads.{rd_u16le-at, rd_u32le-at, mem_buf-at, read_chain-bio}
use tee_anchor.Sgx.{extract_pck_chain_from_quote, extract_ppid_from_quote}
use tee_anchor.Sgx.Layout.{locate_pck_chain}

abbrev pub le16 : ℕ → Bytes
le16 n = (n % 2 ^ 8) ∷ (n / 2 ^ 8 % 2 ^ 8) ∷ []

abbrev pub le32 : ℕ → Bytes
le32 n = (n % 2 ^ 8) ∷ (n / 2 ^ 8 % 2 ^ 8) ∷ (n / 2 ^ 16 % 2 ^ 8) ∷ (n / 2 ^ 24 % 2 ^ 8) ∷ []

-- A quote by its parts: `front` is the header, the report body, the length of the signature data, the
-- signature, the attestation key, the QE report and its signature; then come the QE's auth data, the
-- certification data of type 5, and whatever stands behind it.
unfoldable pub quote_of : Bytes → Bytes → Bytes → Bytes → Bytes
quote_of front auth cert tail =
    front ++ (le16 (length auth) ++ (auth ++ (le16 5 ++ (le32 (length cert) ++ (cert ++ tail)))))

whole_buf : (cert : Bytes) → length cert < 2 ^ 31 → mem_buf cert 0 (length cert) ≡ cert
unfolding mem_buf
whole_buf cert small = rw (take-length cert) (ground arith)

module _ (front auth cert tail : Bytes) (front_size : length front ≡ 1012)
    (auth_fits : length auth < 2 ^ 16) (cert_fits : length cert < 2 ^ 32) where
  behind_auth : Bytes
  behind_auth = le16 5 ++ (le32 (length cert) ++ (cert ++ tail))

  length-quote_of :
      length (quote_of front auth cert tail) ≡ 1020 + length auth + length cert + length tail
  unfolding quote_of
  length-quote_of = omega (
    arith,
    length-append front
        (le16 (length auth) ++ (auth ++ (le16 5 ++ (le32 (length cert) ++ (cert ++ tail))))),
    length-append auth (le16 5 ++ (le32 (length cert) ++ (cert ++ tail))),
    length-append cert tail,
  )

  auth_size_of : rd_u16le (quote_of front auth cert tail) 1012 ≡ length auth
  unfolding quote_of
  auth_size_of =
      rd_u16le-at front (auth ++ (le16 5 ++ (le32 (length cert) ++ (cert ++ tail)))) 1012
        (length auth % 2 ^ 8) (length auth / 2 ^ 8 % 2 ^ 8) front_size
      ∙ omega arith

  before_header : Bytes
  before_header = front ++ (le16 (length auth) ++ auth)

  length-before_header : length before_header ≡ 1014 + length auth
  unfolding before_header
  length-before_header = omega (arith, length-append front (le16 (length auth) ++ auth))

  split_header :
      quote_of front auth cert tail
      ≡ before_header ++ (le16 5 ++ (le32 (length cert) ++ (cert ++ tail)))
  unfolding quote_of before_header
  split_header = simp append_assoc

  split_size :
      quote_of front auth cert tail
      ≡ (before_header ++ le16 5) ++ (le32 (length cert) ++ (cert ++ tail))
  unfolding quote_of before_header
  split_size = simp append_assoc

  split_cert :
      quote_of front auth cert tail
      ≡ (before_header ++ (le16 5 ++ le32 (length cert))) ++ (cert ++ tail)
  unfolding quote_of before_header
  split_cert = simp append_assoc

  type_of : rd_u16le (quote_of front auth cert tail) (1014 + length auth) ≡ 5
  type_of = rw split_header (
      rd_u16le-at before_header (le32 (length cert) ++ (cert ++ tail)) (1014 + length auth) 5 0
        length-before_header)

  size_of : rd_u32le (quote_of front auth cert tail) (1014 + length auth + 2) ≡ length cert
  size_of =
      rw
        (
          split_size,
          rd_u32le-at (before_header ++ le16 5) (cert ++ tail) (1014 + length auth + 2)
              (length cert % 2 ^ 8) (length cert / 2 ^ 8 % 2 ^ 8) (length cert / 2 ^ 16 % 2 ^ 8)
              (length cert / 2 ^ 24 % 2 ^ 8)
              (omega (arith, length-append before_header (le16 5), length-before_header)),
        )
        (omega arith)

  -- The parser finds the certification data where the parts put it.
  pub locate_pck_chain-quote_of :
      locate_pck_chain (quote_of front auth cert tail) ≡ ok (1014 + length auth + 6, length cert)
  unfolding locate_pck_chain need
  locate_pck_chain-quote_of = ground (arith, length-quote_of, auth_size_of, type_of, size_of)

  -- The certificates of such a quote are those of its certification data.
  pub extract_pck_chain-quote_of :
      (ssl : OpenSsl)
      → length cert < 2 ^ 31
      → extract_pck_chain_from_quote ssl (quote_of front auth cert tail)
        ≡ read_chain ssl cert 0
            (length cert)
            "no PCK certificates found in quote certification_data"
  unfolding extract_pck_chain_from_quote
  extract_pck_chain-quote_of ssl small = rw locate_pck_chain-quote_of (
      read_chain-bio ssl (quote_of front auth cert tail) cert (1014 + length auth + 6) (length cert)
        0 (length cert) "no PCK certificates found in quote certification_data"
        (rw split_cert (
            mem_buf-at (before_header ++ (le16 5 ++ le32 (length cert))) cert tail
              (1014 + length auth + 6)
              (omega (
                arith,
                length-append before_header (le16 5 ++ le32 (length cert)),
                length-before_header,
              ))
              small)
          ∙ sym (whole_buf cert small)))

-- The PPID that the program extracts from an SGX quote is that of the PCK certificates which stand in
-- it: two quotes with the same certification data, below 2 ^ 31 bytes, give the same result, whatever
-- their headers, report bodies, ECDSA signatures, attestation keys and QE reports are. The quote's own
-- signature is not looked at.
pub extract_ppid-ignores_signature :
    (ssl : OpenSsl) (front front' auth auth' cert tail tail' : Bytes)
    → length front ≡ 1012
    → length front' ≡ 1012
    → length auth < 2 ^ 16
    → length auth' < 2 ^ 16
    → length cert < 2 ^ 31
    → extract_ppid_from_quote ssl (quote_of front auth cert tail)
      ≡ extract_ppid_from_quote ssl (quote_of front' auth' cert tail')
unfolding extract_ppid_from_quote
extract_ppid-ignores_signature ssl front front' auth auth' cert tail tail' h h' a a' c = rw (
  extract_pck_chain-quote_of front auth cert tail h a (omega arith) ssl c,
  extract_pck_chain-quote_of front' auth' cert tail' h' a' (omega arith) ssl c,
)
