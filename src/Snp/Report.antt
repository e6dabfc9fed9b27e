-- ===== src/Snp/Report.antt =====
-- The attestation report of provision/sev-snp/snp_provision.cpp: its header and its CHIP_ID. The
-- constants are those of provision/sev-snp/snp_provision.hpp.
use tee_anchor.Prelude.{
  ℕ, ◌+◌, Bool, true, false, ◌&&◌, ◌||◌, [], ◌∷◌, ◌++◌, ltb, ◌==◌, if◌then◌else◌, length, slice,
  Bytes, Result, ok, throw_if, ◌>>◌,
}
use tee_anchor.Quote.{rd_u32le}

abbrev pub report_len : ℕ
report_len = 1184

abbrev pub off_version : ℕ
off_version = 0x000

abbrev pub off_sig_algo : ℕ
off_sig_algo = 0x034

abbrev pub off_chip_id : ℕ
off_chip_id = 0x1A0

abbrev pub chip_id_len : ℕ
chip_id_len = 64

abbrev pub off_signed_end : ℕ
off_signed_end = 0x2A0

abbrev pub off_signature : ℕ
off_signature = 0x2A0

abbrev pub ecdsa_comp_len : ℕ
ecdsa_comp_len = 72

abbrev pub sig_algo_ecdsa_p384_sha384 : ℕ
sig_algo_ecdsa_p384_sha384 = 1

-- The bytes of `le_bytes_to_bn`, last one first.
unfoldable pub be_of_le : Bytes → Bytes
be_of_le [] = []
be_of_le (b ∷ bs) = be_of_le bs ++ (b ∷ [])

unfoldable pub validate_report_header : Bytes → Result (Unit {0})
validate_report_header report = do
  throw_if (if length report == report_len then false else true)
      "attestation report has unexpected length"
  let version = rd_u32le report off_version
  let sig_algo = rd_u32le report off_sig_algo
  throw_if (ltb version 2 || ltb 5 version) "unsupported attestation report VERSION"
  throw_if (if sig_algo == sig_algo_ecdsa_p384_sha384 then false else true)
      "unsupported SIGNATURE_ALGO"

-- `std::all_of(..., b == 0)`
unfoldable pub all_zero : Bytes → Bool
all_zero [] = true
all_zero (b ∷ bs) = b == 0 && all_zero bs

unfoldable pub extract_chip_id_from_report : Bytes → Result Bytes
extract_chip_id_from_report report = do
  throw_if (ltb (length report) (off_chip_id + chip_id_len))
      "attestation report too short for CHIP_ID"
  let chip_id = slice off_chip_id chip_id_len report
  throw_if (all_zero chip_id) "CHIP_ID is all zero"
  ok chip_id
