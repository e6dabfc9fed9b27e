-- ===== src/Cca/Ends.antt =====
-- provision/cca/cca_provision.cpp: its results are never out of fuel.
use tee_anchor.Prelude.{ℕ, Bool, true, false, ok, throw, Bytes, String, Option, none, some}
use tee_anchor.Prelude.Endings.{
  Stops, Stops-ok, Stops-throw, Stops-bind, Stops-throw_if, Stops-of-ne, stops_rules,
}
use tee_anchor.OpenSsl.{OpenSsl, Outcome, valid, invalid, failed}
use tee_anchor.World.{World}
use tee_anchor.Pki.Ends.{after_call, pki_rules}
use tee_anchor.Cbor.{Value, value, uint, nint, bytes, tag, no_values, as_int, untag, decode}
use tee_anchor.Cbor.Fuel.{decode-Ends}
use tee_anchor.Cca.Cpak.{load_pinned_cpak}
use tee_anchor.Cca.{
  expect_bytes, parse_sign1, check_alg_value, check_alg, read_claims, verify_es384, verify_token,
  verify_and_extract,
}

decode-Stops : (max_items : ℕ) (s : Bytes) → Stops (decode max_items s)
decode-Stops max_items s = Stops-of-ne (decode max_items s) (decode-Ends max_items s)

as_int-Stops : (v : Value) → Stops (as_int v)
unfolding as_int
as_int-Stops (uint u) = Stops-ok _
as_int-Stops (nint u) = Stops-ok _
as_int-Stops _ = Stops-throw _

untag-Stops : (v : Value) (expected : ℕ) → Stops (untag v expected)
unfolding untag
untag-Stops (tag n no_values) expected = search stops_rules
untag-Stops (tag n (value v _)) expected = search stops_rules
untag-Stops _ expected = Stops-ok _

expect_bytes-Stops : (v : Value) (msg : String) → Stops (expect_bytes v msg)
unfolding expect_bytes
expect_bytes-Stops (bytes d) msg = Stops-ok d
expect_bytes-Stops _ msg = Stops-throw msg

check_alg_value-Stops : (alg : Option Value) → Stops (check_alg_value alg)
unfolding check_alg_value
check_alg_value-Stops none = Stops-throw _
check_alg_value-Stops (some alg) = search (stops_rules, as_int-Stops)

ruleset cbor_rules = (stops_rules, decode-Stops, untag-Stops, expect_bytes-Stops)

parse_sign1-Stops : (max_items : ℕ) (tok : Bytes) → Stops (parse_sign1 max_items tok)
unfolding parse_sign1
parse_sign1-Stops max_items tok = search cbor_rules depth 14

check_alg-Stops : (max_items : ℕ) (protected_b : Bytes) → Stops (check_alg max_items protected_b)
unfolding check_alg
check_alg-Stops max_items protected_b = search (cbor_rules, check_alg_value-Stops)

read_claims-Stops : (max_items : ℕ) (payload_b : Bytes) → Stops (read_claims max_items payload_b)
unfolding read_claims
read_claims-Stops max_items payload_b = search cbor_rules

-- What is made of the outcome of `EVP_DigestVerify`.
outcome-Stops :
    (o : Outcome)
    → Stops {A = Bool}
        (elim o [ valid ↦ ok true | invalid ↦ ok false | failed ↦ throw "EVP_DigestVerify" ])
outcome-Stops valid = Stops-ok true
outcome-Stops invalid = Stops-ok false
outcome-Stops failed = Stops-throw _

module _ (ssl : OpenSsl) where
  load_pinned_cpak-Stops : Stops (load_pinned_cpak ssl)
  unfolding load_pinned_cpak
  load_pinned_cpak-Stops = search stops_rules

  verify_es384-Stops :
      (pk : ssl.Key) (msg raw_sig : Bytes) → Stops (verify_es384 ssl pk msg raw_sig)
  unfolding verify_es384
  verify_es384-Stops pk msg raw_sig = Stops-bind _ _ (Stops-throw_if _ _) λ _. after_call ssl _ (
      after_call ssl _ (
        after_call ssl _ (
          after_call ssl _
            (after_call ssl _ (after_call ssl _ (after_call ssl _ (outcome-Stops _)))))))

  verify_token-Stops : (max_items : ℕ) (tok : Bytes) → Stops (verify_token ssl max_items tok)
  unfolding verify_token
  verify_token-Stops max_items tok =
      search
        (
          stops_rules, parse_sign1-Stops, check_alg-Stops, load_pinned_cpak-Stops,
          verify_es384-Stops, read_claims-Stops,
        )
        depth 10

  pub verify_and_extract-Stops :
      (max_items : ℕ) (token_path : Bytes) (w : World)
      → Stops (verify_and_extract ssl max_items token_path w)
  unfolding verify_and_extract
  verify_and_extract-Stops max_items token_path w = search (pki_rules, verify_token-Stops)
