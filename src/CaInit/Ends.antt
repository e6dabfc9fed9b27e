-- ===== src/CaInit/Ends.antt =====
-- ca/ca_init.cpp: its results are never out of fuel.
use tee_anchor.Prelude.Endings.{Stops, stops_rules}
use tee_anchor.OpenSsl.{OpenSsl}
use tee_anchor.World.{World, write_file, continue}
use tee_anchor.World.Ends.{continue-Stops, and_then-Stops, write_file-Stops}
use tee_anchor.Pki.Ends.{pki_rules, pem_cert-Stops}
use tee_anchor.Pki.{pem_cert}
use tee_anchor.CaInit.{
  CaInitArgs, key_path, crt_path, check_ca_init, ca_extensions, self_signed, make_ca, write_ca,
  run_ca_init,
}

check_ca_init-Stops : (args : CaInitArgs) (w : World) → Stops (check_ca_init args w)
unfolding check_ca_init
check_ca_init-Stops args w = search stops_rules

module _ (ssl : OpenSsl) where
  ca_extensions-Stops : Stops (ca_extensions ssl)
  unfolding ca_extensions
  ca_extensions-Stops = search pki_rules

  self_signed-Stops :
      (args : CaInitArgs) (pkey : ssl.Key) (w : World) → Stops (self_signed ssl args pkey w)
  unfolding self_signed
  self_signed-Stops args pkey w = search (pki_rules, ca_extensions-Stops) depth 16

  make_ca-Stops : (args : CaInitArgs) (w : World) → Stops (make_ca ssl args w)
  unfolding make_ca
  make_ca-Stops args w = search (pki_rules, check_ca_init-Stops, self_signed-Stops) depth 7

  pub run_ca_init-Stops : (args : CaInitArgs) (w : World) → Stops (run_ca_init ssl args w).0
  unfolding run_ca_init write_ca
  run_ca_init-Stops args w = continue-Stops _ _ w (make_ca-Stops args w) λ (key_pem, cert).
      and_then-Stops (write_file (key_path args) key_pem 0x180)
        (continue (pem_cert ssl cert) (λ crt_pem. write_file (crt_path args) crt_pem 0x1A4)) w
        (write_file-Stops (key_path args) key_pem 0x180 w)
        λ w'.
          continue-Stops (pem_cert ssl cert) (λ crt_pem. write_file (crt_path args) crt_pem 0x1A4)
            w' (pem_cert-Stops ssl cert)
            (λ crt_pem. write_file-Stops (crt_path args) crt_pem 0x1A4 w')
