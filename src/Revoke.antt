-- ===== src/Revoke.antt =====
-- ca/revoke.cpp: the subcommand `revoke`.
pub mod Ends
pub mod Entry
pub mod Keeps
use tee_anchor.Prelude.{
  ℕ, Bool, true, false, ◌||◌, Option, none, some, List, [], ◌∷◌, ◌++◌, if◌then◌else◌, Bytes,
  bytes_eq, is_empty, codes, String, Result, ok, err, throw, throw_if, ◌>>=◌, ◌>>◌,
}
use tee_anchor.OpenSsl.{OpenSsl, call}
use tee_anchor.World.{World, Io, continue}
use tee_anchor.Pki.{load_pem_cert}
use tee_anchor.RevocationDb.{
  RevocationEntry, RevocationDb, default_db_path, load_revocation_db, save_revocation_db,
}
use tee_anchor.RevocationDb.Text.{to_lower}
use tee_anchor.Cli.{Action, help, unknown, sets, run_cli}

pub record RevokeArgs : Type 0 where
  pub ca_cert_path : Bytes
  pub cert_path : Bytes
  pub reason : Bytes
  pub db_path : Bytes

abbrev pub revoke_defaults : RevokeArgs
revoke_defaults = record {
  ca_cert_path = codes "";
  cert_path = codes "";
  reason = codes "";
  db_path = codes "";
}

-- kReasonNames
abbrev pub reason_names : List Bytes
reason_names =
    codes "unspecified"
    ∷ codes "keyCompromise"
    ∷ codes "cACompromise"
    ∷ codes "affiliationChanged"
    ∷ codes "superseded"
    ∷ codes "cessationOfOperation"
    ∷ codes "certificateHold"
    ∷ codes "privilegeWithdrawn"
    ∷ codes "aACompromise"
    ∷ []

unfoldable pub is_one_of : List Bytes → Bytes → Bool
is_one_of [] r = false
is_one_of (n ∷ ns) r = bytes_eq n r || is_one_of ns r

unfoldable pub is_valid_reason : Bytes → Bool
is_valid_reason r = is_empty r || is_one_of reason_names r

unfoldable pub check_revoke_args : RevokeArgs → Result (Unit {0})
check_revoke_args args = do
  throw_if (is_empty args.ca_cert_path) "--ca-cert is required"
  throw_if (is_empty args.cert_path) "--cert is required"
  throw_if (if is_valid_reason args.reason then false else true) "invalid --reason"

-- Whether some entry has the serial number.
unfoldable pub has_serial : Bytes → List RevocationEntry → Bool
has_serial serial [] = false
has_serial serial (e ∷ es) = bytes_eq e.serial_hex serial || has_serial serial es

-- `args.db_path.empty() ? default_db_path(args.ca_cert_path) : args.db_path`
unfoldable pub db_path_or_default : Bytes → Bytes → Bytes
db_path_or_default db_path ca_cert_path =
    if is_empty db_path then default_db_path ca_cert_path else db_path

-- The list with the entry added, or `none` where the serial number is there already.
unfoldable pub add_entry : RevocationEntry → RevocationDb → Option RevocationDb
add_entry e db =
    if has_serial e.serial_hex db.entries
    then none
    else some (record db { entries = db.entries ++ (e ∷ []) })

module _ (ssl : OpenSsl) where
  unfoldable pub serial_hex_lower : ssl.Cert → Result Bytes
  serial_hex_lower cert = do
    call ssl "X509_get0_serialNumber"
    call ssl "ASN1_INTEGER_to_BN"
    call ssl "BN_bn2hex"
    ok (to_lower (ssl.hex_of_number (ssl.serial cert)))

  -- Steps 1 to 3: the entry for the certificate.
  unfoldable pub revocation_of : RevokeArgs → World → Result RevocationEntry
  revocation_of args w = do
    check_revoke_args args
    ca_cert ← load_pem_cert ssl args.ca_cert_path w
    endorsement ← load_pem_cert ssl args.cert_path w
    throw_if (if ssl.same_name (ssl.subject ca_cert) (ssl.issuer endorsement) then false else true)
        "subject(--ca-cert) != issuer(--cert)"
    serial_hex ← serial_hex_lower endorsement
    ok (record { serial_hex = serial_hex; revocation_date = w.now; reason = args.reason })

  -- Steps 4 to 6: the list to be saved, if it changes.
  unfoldable pub plan_revoke : RevokeArgs → World → Result (Option RevocationDb)
  plan_revoke args w = do
    e ← revocation_of args w
    db ← load_revocation_db (db_path_or_default args.db_path args.ca_cert_path) w
    ok (add_entry e db)

  unfoldable pub run_revoke : RevokeArgs → Io (Unit {0})
  run_revoke args w =
      continue (plan_revoke args w)
        (λ (change : Option RevocationDb). elim change [
          | none ↦ (λ w'. (ok tt, w'))
          | some db ↦ save_revocation_db (db_path_or_default args.db_path args.ca_cert_path) db
        ])
        w

  unfoldable pub revoke_option : Bytes → Action RevokeArgs
  revoke_option a =
      if bytes_eq a (codes "--ca-cert")
      then sets (λ v r. record r { ca_cert_path = v })
      else if bytes_eq a (codes "--cert")
      then sets (λ v r. record r { cert_path = v })
      else if bytes_eq a (codes "--reason")
      then sets (λ v r. record r { reason = v })
      else if bytes_eq a (codes "--db")
      then sets (λ v r. record r { db_path = v })
      else if bytes_eq a (codes "-h") || bytes_eq a (codes "--help")
      then help
      else unknown

  unfoldable pub cli_revoke : List Bytes → World → ℕ × World
  cli_revoke argv w = run_cli revoke_option revoke_defaults run_revoke argv w
