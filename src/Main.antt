-- ===== src/Main.antt =====
-- tee_anchor.cpp: the dispatch on the subcommand.
pub mod Ends
use tee_anchor.Prelude.{ℕ, ◌||◌, List, [], ◌∷◌, if◌then◌else◌, Bytes, bytes_eq, codes}
use tee_anchor.OpenSsl.{OpenSsl}
use tee_anchor.World.{World}
use tee_anchor.CaInit.{cli_ca_init}
use tee_anchor.Provision.{cli_provision}
use tee_anchor.Revoke.{cli_revoke}
use tee_anchor.CrlIssue.{cli_crl_issue}
use tee_anchor.Verify.{cli_verify}

-- The arguments behind the program's name, and the exit code.
unfoldable pub main : (ssl : OpenSsl) → ℕ → List Bytes → World → ℕ × World
main ssl max_items [] w = (1, w)
main ssl max_items (sub ∷ argv) w =
    if bytes_eq sub (codes "ca-init")
    then cli_ca_init ssl argv w
    else if bytes_eq sub (codes "provision")
    then cli_provision ssl max_items argv w
    else if bytes_eq sub (codes "revoke")
    then cli_revoke ssl argv w
    else if bytes_eq sub (codes "crl-issue")
    then cli_crl_issue ssl argv w
    else if bytes_eq sub (codes "verify")
    then (cli_verify ssl max_items argv w, w)
    else if bytes_eq sub (codes "-h")
        || bytes_eq sub (codes "--help")
        || bytes_eq sub (codes "help")
    then (0, w)
    else (1, w)
