-- ===== src/Lib.antt =====
-- A verification library for tee-anchor: a command line tool that binds an organization's PKI to
-- the chips of its trusted execution environments.
--
-- The program.
--   An organization makes a root CA (`ca-init`), issues endorsement certificates that carry a
--   critical extension with a TEE type and a chip id (`provision`), checks evidence against such a
--   certificate (`verify`), and keeps a list of revoked serial numbers (`revoke`) from which it makes
--   CRLs (`crl-issue`). `provision` and `verify` take the chip id from vendor evidence by the same
--   four routines: an SGX quote and a TD quote (the PPID of the PCK certificate), an SEV-SNP report
--   (CHIP_ID) and a CCA token (instance-id). The list of revoked serial numbers is a text file that
--   `revoke` and `crl-issue` rewrite through a temporary file and a rename.
--
-- The files, and the code that each is about.
--   Prelude, Prelude/*   names, Boolean tests, lists over the native numbers, byte strings, signed
--                        integers; Prelude/Results is common/error.hpp: an exception is a value of
--                        `Result`, with the message up to its first variable part. Prelude/Endings has
--                        the rules by which a run ends; the modules named Ends apply them, up to Main
--   World, World/*       common/io.hpp: `read_file`, `write_file` and `path_exists` over a record with
--                        the files, their modes, what the disk accepts, the clock and the random bits
--   Hex                  common/hex.hpp
--   Cbor, Cbor/*         common/cbor.hpp: `Value` with its accessors, the decoder, the encoder heads
--   OpenSsl              the interface of OpenSSL: a record of types and operations. Everything below
--                        is stated for any value of it, and laws are named hypotheses
--   Pki, Pki/*           common/pki_util.hpp: `parse_dn`, digests, keys, PEM files, extensions
--   Binding, Binding/*   binding/chip_id_binding.cpp: the DER of the ChipIdBinding extension
--   Quote, Quote/*       what provision/sgx/sgx_provision.cpp and provision/tdx/tdx_provision.cpp
--                        share: little-endian fields, bounds tests, the loop over PEM certificates
--   Sgx, Sgx/*           provision/sgx/sgx_provision.cpp: quote layout, PCK chain, SGX extension
--   Tdx, Tdx/*           provision/tdx/tdx_provision.cpp: TD quotes of versions 4 and 5
--   Snp, Snp/*           provision/sev-snp/snp_provision.cpp: report, pinned roots, chain, hwID
--   Cca, Cca/*           provision/cca/cca_provision.cpp: COSE_Sign1 token under the pinned CPAK
--   Cli, Cli/*           what the `cli_*` functions repeat: the loop over `argv`, `need_value`, the
--                        handlers with their exit codes
--   Provision, Verify, CaInit, Revoke, CrlIssue and the modules below them
--                        provision/provision.cpp, verify/verify.cpp, ca/ca_init.cpp, ca/revoke.cpp
--                        and ca/crl_issue.cpp: the `run_*` functions and their command lines
--   RevocationDb, RevocationDb/*
--                        ca/revocation_db.cpp: the text format, with what the extractors of an input
--                        stream do on malformed text, and the save through a temporary file
--   Registry, Registry/*  ca/revoke.cpp and ca/crl_issue.cpp on one list, run after run: histories as a
--                        step relation, the log that they refine, and `verify` under the CRLs
--   Main                 tee_anchor.cpp: the dispatch on the subcommand
--   Tests, Tests/*       a small instance of OpenSSL, and the theorems applied at concrete inputs
--
-- State. A function that touches files takes a `World` and returns its result with the next one;
--   what was written before an exception stays written. A function that only throws returns `Result`.
--
-- Interfaces. An object of OpenSSL is a value; a call that can fail is an operation into Option or
--   Bool. The theorems that rely on OpenSSL name what they rely on: that a certificate printed as PEM
--   is read back, that extensions set are extensions read, that `ASN1_get_object` reads the DER headers
--   of X.690, that `PEM_read_bio_X509` moves on in its buffer, that `BN_hex2bn` reads what `BN_bn2hex`
--   writes, that `X509_CRL_sort` only reorders, that `X509_verify_cert` refuses a certificate that a
--   CRL in force lists, where in force is a predicate of the law, or answered ok for the certificate.
--   Tests has an instance with these laws.
--
-- Bounds and fuel. Integers of the program wrap where the source lets them: `% 2 ^ w` is written
--   out, a cast of a size to int is signed from 2 ^ 31 on, and the number of the revocation list
--   is printed with twenty rounds of division, as 2 ^ 64 has twenty digits, and read up to 2 ^ 64
--   - 1. Four loops run on fuel. The CBOR decoder has twice the length of its input and two: each
--   item takes a byte and each call one unit. The loop of `parse_dn` has the number of bytes and
--   one: a round passes a comma. The loops over PEM certificates and over the elements of the SGX
--   extension have the length of their region and one; that a round takes a byte is OpenSSL's
--   part. `max_items` is the number of items that `std::vector::reserve` grants to the CBOR
--   decoder. Running out of fuel is an error of its own that no handler of the program catches: it
--   would show as exit code 3.
--
-- The disk. A file accepts a number of bytes, and a stream notices a refused byte only after its
--   buffer is flushed, at a point that depends on the length of the text. A text is reported where
--   a write of it that is cut off shows as a failed stream, as for each text that the disk takes whole. The
--   histories of Registry ask it of the texts that they save, and of no others.
--
-- Not modelled. common/openssl_raii.hpp (deleters), the sample attesters under provision/*/, the client
--   under benchmark/, the variable parts of messages and the text printed to the terminal. The
--   clock and random numbers are fields of the state. Other processes do not change files while a
--   command runs.
pub mod Prelude
pub mod Cbor
pub mod Hex
pub mod World
pub mod OpenSsl
pub mod Pki
pub mod Quote
pub mod Sgx
pub mod Tdx
pub mod Snp
pub mod Cca
pub mod Binding
pub mod Cli
pub mod Verify
pub mod RevocationDb
pub mod Revoke
pub mod CrlIssue
pub mod CaInit
pub mod Provision
pub mod Registry
pub mod Main
pub mod Tests
