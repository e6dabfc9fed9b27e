-- ===== src/Revoke/Ends.antt =====
-- ca/revoke.cpp: its results are never out of fuel.
use tee_anchor.Prelude.Endings.{Stops, Stops-ok, stops_rules}
use tee_anchor.OpenSsl.{OpenSsl}
use tee_anchor.World.{World}
use tee_anchor.World.Ends.{continue-Stops, Stops-option_io}
use tee_anchor.Pki.Ends.{pki_rules}
use tee_anchor.RevocationDb.Ends.{load_revocation_db-Stops, save_revocation_db-Stops}
use tee_anchor.Revoke.{
  RevokeArgs, check_revoke_args, serial_hex_lower, revocation_of, plan_revoke, run_revoke,
}

check_revoke_args-Stops : (args : RevokeArgs) → Stops (check_revoke_args args)
unfolding check_revoke_args
check_revoke_args-Stops args = search stops_rules

module _ (ssl : OpenSsl) where
  serial_hex_lower-Stops : (cert : ssl.Cert) → Stops (serial_hex_lower ssl cert)
  unfolding serial_hex_lower
  serial_hex_lower-Stops cert = search pki_rules depth 6

  revocation_of-Stops : (args : RevokeArgs) (w : World) → Stops (revocation_of ssl args w)
  unfolding revocation_of
  revocation_of-Stops args w =
      search (pki_rules, check_revoke_args-Stops, serial_hex_lower-Stops) depth 8

  plan_revoke-Stops : (args : RevokeArgs) (w : World) → Stops (plan_revoke ssl args w)
  unfolding plan_revoke
  plan_revoke-Stops args w = search (stops_rules, revocation_of-Stops, load_revocation_db-Stops)

  pub run_revoke-Stops : (args : RevokeArgs) (w : World) → Stops (run_revoke ssl args w).0
  unfolding run_revoke
  run_revoke-Stops args w =
      continue-Stops _ _ w (plan_revoke-Stops args w)
        λ change. Stops-option_io change _ _ w (Stops-ok tt) (λ db. save_revocation_db-Stops _ db w)
