-- ===== src/Tests/Ends.antt =====
-- The program at the machine of Tests/Runs.antt: a command line, and the evidence.
use tee_anchor.Prelude.{
  ◌≡◌, ◌≢◌, ◌<◌, some, List, [], ◌∷◌, length, Bytes, codes, err, out_of_fuel, arith,
}
use tee_anchor.Quote.Reads.{ReadsOn}
use tee_anchor.Verify.{verify_evidence_and_extract_chip_id}
use tee_anchor.Verify.Ends.{verify_evidence-Ends}
use tee_anchor.Main.{main}
use tee_anchor.Main.Ends.{IsExitCode, main-IsExitCode}
use tee_anchor.Tests.Toy.{ToyCert, cert_of, toy, toy-DerLaws}
use tee_anchor.Tests.Runs.{w, verify_args}

cert_of-reads_on :
    (b : Bytes) (c : ToyCert) (rest : Bytes) → cert_of b ≡ some (c, rest) → length rest < length b
cert_of-reads_on [] c rest h = cc
cert_of-reads_on (n ∷ s) c rest h = ground arith

pub toy-ReadsOn : ReadsOn toy
toy-ReadsOn = cert_of-reads_on

verify_evidence-Ends_example :
    verify_evidence_and_extract_chip_id toy 100 verify_args w ≢ err out_of_fuel
verify_evidence-Ends_example = verify_evidence-Ends toy 100 toy-DerLaws toy-ReadsOn verify_args w

abbrev command_line : List Bytes
command_line =
    codes "provision"
    ∷ codes "--report"
    ∷ codes "quote"
    ∷ codes "--validity-days"
    ∷ codes "30"
    ∷ codes "--ca-key"
    ∷ codes "ca.key"
    ∷ codes "--ca-cert"
    ∷ codes "ca.crt"
    ∷ codes "--out"
    ∷ codes "cert"
    ∷ []

main-IsExitCode_example : IsExitCode (main toy 100 command_line w).0
main-IsExitCode_example = main-IsExitCode toy 100 toy-DerLaws toy-ReadsOn command_line w
