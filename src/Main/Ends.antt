-- ===== src/Main/Ends.antt =====
-- tee_anchor.cpp: the exit codes of the whole program.
use tee_anchor.Prelude.{
  ℕ, ◌⊎◌, inl, inr, refl, Bool, true, false, if◌then◌else◌, none, some, List, [], ◌∷◌, Bytes,
  Result-cases,
}
use tee_anchor.OpenSsl.{OpenSsl}
use tee_anchor.World.{World}
use tee_anchor.Binding.RoundTrip.{DerLaws}
use tee_anchor.Quote.Reads.{ReadsOn}
use tee_anchor.Cli.{scan_args}
use tee_anchor.Cli.Ends.{
  ActionStops, IsPlainExit, option_rules, run_cli-IsPlainExit, scan_args-Stops,
}
use tee_anchor.CaInit.{cli_ca_init, ca_init_option, ca_init_defaults, run_ca_init}
use tee_anchor.CaInit.Ends.{run_ca_init-Stops}
use tee_anchor.Provision.{cli_provision, run_provision}
use tee_anchor.Provision.Args.{provision_option, provision_defaults}
use tee_anchor.Provision.Ends.{run_provision-Stops}
use tee_anchor.Revoke.{cli_revoke, revoke_option, revoke_defaults, run_revoke}
use tee_anchor.Revoke.Ends.{run_revoke-Stops}
use tee_anchor.CrlIssue.{cli_crl_issue, crl_issue_option, crl_issue_defaults, run_crl_issue}
use tee_anchor.CrlIssue.Ends.{run_crl_issue-Stops}
use tee_anchor.Verify.{cli_verify}
use tee_anchor.Verify.Codes.{IsDocumented, run_verify-codes, caught-Stops}
use tee_anchor.Verify.Args.{verify_option, verify_defaults}
use tee_anchor.Main.{main}

provision_option-Stops : (a : Bytes) → ActionStops (provision_option a)
unfolding provision_option
provision_option-Stops a = search option_rules depth 14

verify_option-Stops : (a : Bytes) → ActionStops (verify_option a)
unfolding verify_option
verify_option-Stops a = search option_rules depth 12

-- The exit codes that the program has: those of the handlers of `cli_*`, and those of `verify`.
abbrev pub IsExitCode : ℕ → Type 0
IsExitCode c = IsPlainExit c ⊎ IsDocumented c

-- One step of the dispatch on the subcommand.
IsExitCode-if :
    (b : Bool) (x y : ℕ × World)
    → IsExitCode x.0
    → IsExitCode y.0
    → IsExitCode (if b then x else y).0
IsExitCode-if true x y hx hy = hx
IsExitCode-if false x y hx hy = hy

module _ (ssl : OpenSsl) where
  ca_init_option-Stops : (a : Bytes) → ActionStops (ca_init_option ssl a)
  unfolding ca_init_option
  ca_init_option-Stops a = search option_rules depth 12

  revoke_option-Stops : (a : Bytes) → ActionStops (revoke_option ssl a)
  unfolding revoke_option
  revoke_option-Stops a = search option_rules depth 12

  crl_issue_option-Stops : (a : Bytes) → ActionStops (crl_issue_option ssl a)
  unfolding crl_issue_option
  crl_issue_option-Stops a = search option_rules depth 12

  cli_ca_init-IsPlainExit : (argv : List Bytes) (w : World) → IsPlainExit (cli_ca_init ssl argv w).0
  unfolding cli_ca_init
  cli_ca_init-IsPlainExit argv w =
      run_cli-IsPlainExit (ca_init_option ssl) ca_init_defaults (run_ca_init ssl) argv w
        ca_init_option-Stops (λ args. run_ca_init-Stops ssl args w)

  cli_revoke-IsPlainExit : (argv : List Bytes) (w : World) → IsPlainExit (cli_revoke ssl argv w).0
  unfolding cli_revoke
  cli_revoke-IsPlainExit argv w =
      run_cli-IsPlainExit (revoke_option ssl) revoke_defaults (run_revoke ssl) argv w
        revoke_option-Stops (λ args. run_revoke-Stops ssl args w)

  cli_crl_issue-IsPlainExit :
      (argv : List Bytes) (w : World) → IsPlainExit (cli_crl_issue ssl argv w).0
  unfolding cli_crl_issue
  cli_crl_issue-IsPlainExit argv w =
      run_cli-IsPlainExit (crl_issue_option ssl) crl_issue_defaults (run_crl_issue ssl) argv w
        crl_issue_option-Stops (λ args. run_crl_issue-Stops ssl args w)

  module _ (max_items : ℕ) where
    module _ (laws : DerLaws ssl) (reads_on : ReadsOn ssl) where
      cli_verify-IsDocumented :
          (argv : List Bytes) (w : World) → IsDocumented (cli_verify ssl max_items argv w)
      unfolding cli_verify
      cli_verify-IsDocumented argv w =
          let r = scan_args verify_option argv verify_defaults in
          let ends = scan_args-Stops verify_option verify_option-Stops argv verify_defaults in
          elim (Result-cases r) [
            | inl (none, e) ↦ rw (e, cli_verify) (inl refl)
            | inl (some args, e) ↦
                rw (e, cli_verify) (run_verify-codes ssl max_items laws reads_on args w)
            | inr (x, e) ↦
                rw (e, cli_verify) (inr (inr (inr (inr (inr (caught-Stops r x 30 ends e))))))
          ]

      cli_provision-IsPlainExit :
          (argv : List Bytes) (w : World) → IsPlainExit (cli_provision ssl max_items argv w).0
      unfolding cli_provision
      cli_provision-IsPlainExit argv w =
          run_cli-IsPlainExit provision_option provision_defaults (run_provision ssl max_items) argv
            w provision_option-Stops
            (λ args. run_provision-Stops ssl max_items laws reads_on args w)

      -- The program ends on every command line, whatever its files hold and whichever calls of OpenSSL
      -- and of the file system fail: no loop of a subcommand, `verify` included, runs out of fuel, which
      -- would show as 3, and the exit code is one of 0, 1, 2, 20, 21, 22, 24 and 30. Of
      -- OpenSSL it takes what it documents: `PEM_read_bio_X509` moves on in its buffer, and
      -- `ASN1_get_object` reads what `DerLaws` states.
      pub main-IsExitCode :
          (argv : List Bytes) (w : World) → IsExitCode (main ssl max_items argv w).0
      unfolding main
      main-IsExitCode [] w = inl (inr (inl refl))
      main-IsExitCode (sub ∷ argv) w = IsExitCode-if _ _ _ (inl (cli_ca_init-IsPlainExit argv w)) (
          IsExitCode-if _ _ _ (inl (cli_provision-IsPlainExit argv w)) (
            IsExitCode-if _ _ _ (inl (cli_revoke-IsPlainExit argv w)) (
              IsExitCode-if _ _ _ (inl (cli_crl_issue-IsPlainExit argv w)) (
                IsExitCode-if _ _ _ (inr (cli_verify-IsDocumented argv w))
                  (IsExitCode-if _ _ _ (inl (inl refl)) (inl (inr (inl refl))))))))
