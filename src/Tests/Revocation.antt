-- ===== src/Tests/Revocation.antt =====
-- The theorems on files, the list of revoked certificates, the CRL, the CA and the command line at small
-- inputs.
use tee_anchor.World.{path_exists, read_file, write_file, File, World}
use tee_anchor.OpenSsl.{call}
use tee_anchor.Pki.{
  sig_md_for_curve, digest_for_signing_key, gen_ec_key, load_pem_private_key, load_pem_cert,
  pem_private_key, pem_cert, random_serial, add_v3_ext,
}
use tee_anchor.Pki.Dn.{add_rdn, parse_dn_loop, parse_dn}
use tee_anchor.Pki.Trim.{trim, is_space, is_line_space}
use tee_anchor.Cli.{is_c_space, stoi, run_cli, exit_of}
use tee_anchor.RevocationDb.{
  number_after_sign, extract_number, parse_entry, parse_line, parse_lines, parse_db,
  load_revocation_db, print_entry, print_entries, print_db, save_revocation_db, RevocationEntry,
  RevocationDb,
}
use tee_anchor.RevocationDb.Text.{lines, read_word, starts_with, to_lower, decimal, decimal_loop}
use tee_anchor.Revoke.{
  is_valid_reason, check_revoke_args, has_serial, db_path_or_default, add_entry, serial_hex_lower,
  revocation_of, plan_revoke, run_revoke, RevokeArgs, revoke_defaults, revoke_option,
}
use tee_anchor.CrlIssue.{
  tbs_crl, reason_to_int, check_crl_issue_args, next_crl_number, asn1_int_from_hex,
  asn1_gentime_from_string, add_crl_reason_extension, revoked_of, revoked_list, start_crl,
  finish_crl, build_crl, pem_crl, plan_crl, run_crl_issue, CrlIssueArgs,
}
use tee_anchor.CaInit.{
  check_ca_init, ca_extensions, self_signed, make_ca, write_ca, run_ca_init, CaInitArgs,
  ca_init_defaults,
}
use tee_anchor.Binding.{encode_chip_id_binding, decode_chip_id_binding}
use tee_anchor.Binding.Der.{der_length, der_tlv}
use tee_anchor.Prelude.{
  ◌+◌, ◌≤◌, ◌%◌, ◌^◌, ℕ, ◌≡◌, ◌≢◌, ◌⊎◌, refl, ap, true, false, Option, none, some, List, [], ◌∷◌,
  ◌++◌, take, if◌then◌else◌, length, Bytes, bytes_eq, codes, ok, err, Error, arith, ◌>>◌,
}
use tee_anchor.Prelude.Int.{pos}
use tee_anchor.Tests.Toy.{toy, toy-DerLaws, host, file, binding_der, chip}
use tee_anchor.World.Writes.{write_file_cuts_off}
use tee_anchor.Pki.DnRuns.{print_dn, add_all, AllParts, parse_dn-print_dn}
use tee_anchor.RevocationDb.Words.{no_blank, is_hex}
use tee_anchor.RevocationDb.RoundTrip.{IsEntry, IsDb, parse_db-print_db}
use tee_anchor.RevocationDb.Saves.{
  saved, save_revocation_db-all_or_nothing, load-save_revocation_db,
}
use tee_anchor.Revoke.Keeps.{run_revoke-appends, run_revoke_forgets}
use tee_anchor.CrlIssue.Publishes.{Published, plan_crl-Published}
use tee_anchor.CrlIssue.Numbers.{run_crl_issue_reuses_number, run_crl_issue-number}
use tee_anchor.CaInit.Creates.{Created, run_ca_init-Created, run_ca_init_refuses}
use tee_anchor.Binding.RoundTrip.{decode-encode_chip_id_binding}
use tee_anchor.Cli.Loop.{Reads, done, option, run_cli-Reads}

abbrev list_path : Bytes
list_path = codes "db"

abbrev entry : RevocationEntry
entry = record {
  serial_hex = codes "0b";
  revocation_date = codes "20260101000000Z";
  reason = codes "superseded";
}

abbrev fresh : RevocationEntry
fresh = record { serial_hex = codes "ab"; revocation_date = codes "now"; reason = [] }

abbrev db : RevocationDb
db = record { crl_number = 12; entries = entry ∷ [] }

abbrev longer : RevocationDb
longer = record { crl_number = 12; entries = entry ∷ fresh ∷ [] }

abbrev list_text : Bytes
list_text =
    codes "# TEE Anchor revocation database (v1)"
    ++ (10
        ∷ (codes "# format: <serial-hex> <YYYYMMDDHHMMSSZ> [<reason>]"
            ++ (10
                ∷ (codes "crl-number 12"
                    ++ (10 ∷ (codes "0b 20260101000000Z superseded" ++ (10 ∷ [])))))))

abbrev files : Bytes → Option File
files q =
    if bytes_eq q list_path
    then file list_text
    else if bytes_eq q (codes "ca.key")
    then file (1 ∷ [])
    else if bytes_eq q (codes "ca.crt")
    then file (1 ∷ [])
    else if bytes_eq q (codes "cert")
    then file (2 ∷ [])
    else none

abbrev w : World
w = host files

db-IsDb : IsDb db
unfolding no_blank is_hex is_c_space
db-IsDb = record {
  number = omega arith;
  entries = (
    record {
      serial_some = refl;
      serial_hex = refl;
      date_some = refl;
      date_word = refl;
      reason_word = refl;
    },
    tt,
  );
}

fresh-IsEntry : IsEntry fresh
unfolding no_blank is_hex is_c_space
fresh-IsEntry = record {
  serial_some = refl;
  serial_hex = refl;
  date_some = refl;
  date_word = refl;
  reason_word = refl;
}

parse_db-print_db_example : parse_db (print_db db) ≡ ok db
parse_db-print_db_example = parse_db-print_db db db-IsDb

db_fits : length (print_db db) ≤ 2000
unfolding print_db print_entries print_entry decimal decimal_loop
db_fits = omega arith

save_revocation_db-all_or_nothing_example :
    (((save_revocation_db list_path db w).0 ≡ ok tt)
      × ((f : File) × ((save_revocation_db list_path db w).1.files list_path ≡ some f)
          × (f.content ≡ print_db db)))
    ⊎ (((save_revocation_db list_path db w).0 ≢ ok tt)
        × ((save_revocation_db list_path db w).1.files list_path ≡ w.files list_path))
save_revocation_db-all_or_nothing_example =
    save_revocation_db-all_or_nothing list_path db w (λ stream. db_fits)

load-save_revocation_db_example :
    ((save_revocation_db list_path db w).0 ≡ ok tt)
    × (load_revocation_db list_path (save_revocation_db list_path db w).1 ≡ ok db)
unfolding print_entry print_entries print_db decimal
load-save_revocation_db_example =
    load-save_revocation_db list_path db w db-IsDb refl (omega arith) refl refl

abbrev revoke_args : RevokeArgs
revoke_args = record {
  ca_cert_path = codes "ca.crt";
  cert_path = codes "cert";
  reason = [];
  db_path = list_path;
}

run_revoke-appends_example :
    ((run_revoke toy revoke_args w).0 ≡ ok tt)
    × (load_revocation_db list_path (run_revoke toy revoke_args w).1 ≡ ok longer)
unfolding read_file call load_pem_cert trim is_line_space stoi number_after_sign extract_number
    parse_entry parse_line parse_lines parse_db load_revocation_db print_entry print_entries
    print_db lines read_word starts_with to_lower decimal is_valid_reason check_revoke_args
    has_serial db_path_or_default serial_hex_lower revocation_of bytes_eq
run_revoke-appends_example =
    run_revoke-appends toy revoke_args w fresh db refl refl refl db-IsDb fresh-IsEntry refl
      (omega arith) refl refl

-- The list that holds the certificate's serial number already.
abbrev w_again : World
w_again = host (λ q. if bytes_eq q list_path then file (codes "AB now") else files q)

-- A host on which no file can be replaced.
abbrev w_stuck : World
w_stuck = record w { can_rename = λ source target. false }

-- A list that cannot be opened for reading.
abbrev w_closed : World
w_closed = record w {
  medium = λ path. record {
    readable = if bytes_eq path list_path then false else true;
    writable = true;
    flushed = λ n. 0;
    accepted = 2000;
    can_chmod = true;
  };
}

run_revoke_forgets_example :
    (f : File) × ((run_revoke toy revoke_args w_closed).1.files list_path ≡ some f)
    × (f.content ≡ saved list_path (record { crl_number = 0; entries = fresh ∷ [] }) w_closed)
unfolding read_file write_file call load_pem_cert load_revocation_db print_entry print_entries
    print_db save_revocation_db to_lower decimal is_valid_reason check_revoke_args has_serial
    db_path_or_default add_entry serial_hex_lower revocation_of plan_revoke run_revoke bytes_eq
run_revoke_forgets_example = run_revoke_forgets toy revoke_args w_closed fresh refl refl refl

abbrev crl_args : CrlIssueArgs
crl_args = record {
  ca_key_path = codes "ca.key";
  ca_cert_path = codes "ca.crt";
  out_path = codes "out";
  validity_days = pos 7;
  db_path = list_path;
}

abbrev next : RevocationDb
next = record { crl_number = 13; entries = entry ∷ [] }

next-IsDb : IsDb next
next-IsDb = record { number = omega arith; entries = db-IsDb.entries }

plan_crl-Published_example : Published toy crl_args w (11 ∷ []) next
unfolding tbs_crl read_file call sig_md_for_curve digest_for_signing_key load_pem_private_key
    load_pem_cert trim is_line_space stoi number_after_sign extract_number parse_entry parse_line
    parse_lines parse_db load_revocation_db lines read_word starts_with to_lower db_path_or_default
    reason_to_int check_crl_issue_args next_crl_number asn1_int_from_hex asn1_gentime_from_string
    add_crl_reason_extension revoked_of revoked_list start_crl finish_crl build_crl pem_crl plan_crl
    bytes_eq
plan_crl-Published_example = plan_crl-Published toy crl_args w (11 ∷ []) next refl

run_crl_issue-number_example :
    (old : RevocationDb) × (load_revocation_db list_path w ≡ ok old)
    × ((run_crl_issue toy crl_args w).0 ≡ ok tt)
    × (load_revocation_db list_path (run_crl_issue toy crl_args w).1
        ≡ ok (record { crl_number = (old.crl_number + 1) % 2 ^ 64; entries = old.entries }))
unfolding tbs_crl read_file write_file call sig_md_for_curve digest_for_signing_key
    load_pem_private_key load_pem_cert trim is_line_space stoi number_after_sign extract_number
    parse_entry parse_line parse_lines parse_db load_revocation_db print_entry print_entries
    print_db lines read_word starts_with to_lower decimal db_path_or_default reason_to_int
    check_crl_issue_args next_crl_number asn1_int_from_hex asn1_gentime_from_string
    add_crl_reason_extension revoked_of revoked_list start_crl finish_crl build_crl pem_crl plan_crl
    bytes_eq
run_crl_issue-number_example =
    run_crl_issue-number toy crl_args w (11 ∷ []) next refl refl next-IsDb refl (omega arith) refl
      refl

run_crl_issue_reuses_number_example :
    ((run_crl_issue toy crl_args w_stuck).0 ≢ ok tt)
    × ((run_crl_issue toy crl_args w_stuck).1.files (codes "out")
        ≡ some (record { content = take 2000 (11 ∷ []); mode = 0x1A4 }))
    × ((run_crl_issue toy crl_args w_stuck).1.files list_path ≡ w_stuck.files list_path)
unfolding tbs_crl read_file write_file call sig_md_for_curve digest_for_signing_key
    load_pem_private_key load_pem_cert trim is_line_space stoi number_after_sign extract_number
    parse_entry parse_line parse_lines parse_db load_revocation_db print_entry print_entries
    print_db save_revocation_db lines read_word starts_with to_lower decimal db_path_or_default
    reason_to_int check_crl_issue_args next_crl_number asn1_int_from_hex asn1_gentime_from_string
    add_crl_reason_extension revoked_of revoked_list start_crl finish_crl build_crl pem_crl plan_crl
    bytes_eq
run_crl_issue_reuses_number_example =
    run_crl_issue_reuses_number toy crl_args w_stuck (11 ∷ []) next refl
      (λ e. absurd (omega (arith, ap length e))) (λ e. absurd (omega (arith, ap length e))) refl
      (λ e. cc)

abbrev ca_args : CaInitArgs
ca_args = record ca_init_defaults { out_dir = codes "d" }

run_ca_init-Created_example : Created toy ca_args w (run_ca_init toy ca_args w).1
unfolding path_exists write_file call sig_md_for_curve gen_ec_key pem_private_key pem_cert
    random_serial add_v3_ext add_rdn parse_dn_loop parse_dn check_ca_init ca_extensions self_signed
    make_ca write_ca run_ca_init bytes_eq
run_ca_init-Created_example = run_ca_init-Created toy ca_args w refl

abbrev w_there : World
w_there = host (λ q. if bytes_eq q (codes "d/ca.crt") then file [] else none)

run_ca_init_refuses_example : (x : Error) × (run_ca_init toy ca_args w_there ≡ (err x, w_there))
unfolding path_exists bytes_eq
run_ca_init_refuses_example = run_ca_init_refuses toy ca_args w_there refl refl

decode-encode_chip_id_binding_example :
    decode_chip_id_binding toy binding_der
    ≡ ok (record { tee_type = 0; chip_id = chip; issued_at = codes "now" })
unfolding encode_chip_id_binding der_length der_tlv
decode-encode_chip_id_binding_example =
    decode-encode_chip_id_binding toy toy-DerLaws 0 chip (codes "now") binding_der refl

-- A disk that takes two bytes, and a stream that has not flushed any when it is tested.
abbrev w_full : World
w_full = record w {
  medium = λ path. record {
    readable = true;
    writable = true;
    flushed = λ n. 0;
    accepted = 2;
    can_chmod = true;
  };
}

write_file_cuts_off_example :
    ((write_file (codes "out") (codes "text") 0x180 w_full).0 ≡ ok tt)
    × ((write_file (codes "out") (codes "text") 0x180 w_full).1.files (codes "out")
        ≡ some (record { content = take 2 (codes "text"); mode = 0x180 }))
    × (take 2 (codes "text") ≢ codes "text")
write_file_cuts_off_example =
    write_file_cuts_off (codes "out") (codes "text") 0x180 w_full refl refl (omega arith)
      (omega arith)

abbrev name_parts : List (Bytes × Bytes)
name_parts = (codes "CN", codes "A") ∷ (codes "O", codes "B") ∷ []

other_char : (a b : ℕ) → bytes_eq (a ∷ []) (b ∷ []) ≡ false → a ≢ b
unfolding bytes_eq
other_char a b h = ground arith

parse_dn-print_dn_example :
    parse_dn toy (codes "CN=A,O=B")
    ≡ (call toy "X509_NAME_new" >> add_all toy (codes "") name_parts)
unfolding trim is_space bytes_eq print_dn
parse_dn-print_dn_example = parse_dn-print_dn toy name_parts parts
  where
    differs : (a b : ℕ) → bytes_eq (a ∷ []) (b ∷ []) ≡ false → a ≢ b
    differs = other_char

    parts : AllParts name_parts
    parts = (
      (
        (refl, refl, (differs _ _ refl, (differs _ _ refl, tt))),
        (refl, refl, (differs _ _ refl, tt)),
        (differs _ _ refl, (differs _ _ refl, tt)),
      ),
      (
        (
          (refl, refl, (differs _ _ refl, tt)),
          (refl, refl, (differs _ _ refl, tt)),
          (differs _ _ refl, tt),
        ),
        tt,
      ),
    )

abbrev argv : List Bytes
argv = codes "--ca-cert" ∷ codes "ca.crt" ∷ []

argv-Reads :
    Reads
      (revoke_option toy)
      argv
      revoke_defaults
      (record revoke_defaults { ca_cert_path = codes "ca.crt" })
unfolding revoke_option bytes_eq
argv-Reads =
    option (codes "--ca-cert") (codes "ca.crt") _ [] revoke_defaults
      (record revoke_defaults { ca_cert_path = codes "ca.crt" }) _ refl refl (done _)

run_cli-Reads_example :
    run_cli (revoke_option toy) revoke_defaults (run_revoke toy) argv w
    ≡ exit_of (run_revoke toy (record revoke_defaults { ca_cert_path = codes "ca.crt" }) w)
run_cli-Reads_example =
    run_cli-Reads (revoke_option toy) (run_revoke toy) argv revoke_defaults
      (record revoke_defaults { ca_cert_path = codes "ca.crt" }) w argv-Reads
