-- ===== src/Tests/Registry.antt =====
-- A certificate is revoked, a CRL is published, and `verify` looks at it: the theorems on histories at
-- concrete runs.
use mathlib.Core.Quot
use mathlib.Core.List.{Permᴰ}
use tee_anchor.Prelude.{
  ℕ, ◌≤◌, Option, some, sym, subst, ◌∙◌, length, ok_injective, ◌+◌, ◌%◌, ◌^◌, ◌≡◌, refl, ap, true,
  List, [], ◌∷◌, ◌++◌, Bytes, bytes_eq, codes, ok, arith,
}
use tee_anchor.Prelude.Int.{pos}
use tee_anchor.World.{
  World, read_file, write_file, stream_failed, spill, put_file, set_mode, mode_at,
}
use tee_anchor.World.Writes.{Reported, Reported-SameHost, SameHost}
use tee_anchor.Revoke.Keeps.{run_revoke-SameHost}
use tee_anchor.CrlIssue.Numbers.{run_crl_issue-SameHost}
use tee_anchor.CrlIssue.Publishes.{plan_crl-Published}
use tee_anchor.CrlIssue.Sorted.{lists_serial}
use tee_anchor.Tests.Toy.{sort, sort-Perm}
use tee_anchor.RevocationDb.{
  RevocationEntry, RevocationDb, empty_db, load_revocation_db, save_revocation_db, print_db,
  tmp_path,
}
use tee_anchor.RevocationDb.Words.{no_blank}
use tee_anchor.Cli.{is_c_space}
use tee_anchor.Pki.{load_pem_cert}
use tee_anchor.OpenSsl.{call}
use tee_anchor.RevocationDb.Text.{to_lower, lower_char, decimal, decimal_loop}
use tee_anchor.RevocationDb.{rename_file, print_entry, print_entries}
use tee_anchor.Revoke.{
  is_one_of, is_valid_reason, check_revoke_args, serial_hex_lower, db_path_or_default, add_entry,
  plan_revoke, RevokeArgs, has_serial, run_revoke, revocation_of,
}
use tee_anchor.CrlIssue.{CrlIssueArgs, plan_crl, run_crl_issue}
use tee_anchor.Registry.{revocation, publication, apply, replay}
use tee_anchor.Registry.History.{
  Host, RevokeReported, PublishReported, History, begins, revokes, publishes,
}
use tee_anchor.Registry.Refines.{Loads, History-Loads}
use tee_anchor.Pki.{sig_md_for_curve, digest_for_signing_key, load_pem_private_key}
use tee_anchor.Pki.Trim.{trim, is_line_space, drop_front, drop_back}
use tee_anchor.Cli.{stoi, is_digit, digits_from}
use tee_anchor.RevocationDb.{
  number_after_sign, extract_number, parse_entry, parse_line, parse_lines, parse_db,
}
use tee_anchor.RevocationDb.Text.{lines, read_word, starts_with, push_char, span_word}
use tee_anchor.CrlIssue.{
  reason_to_int, check_crl_issue_args, next_crl_number, asn1_int_from_hex, asn1_gentime_from_string,
  add_crl_reason_extension, revoked_of, revoked_list, start_crl, finish_crl, tbs_crl, build_crl,
  pem_crl, lookup_reason, publish,
}
use tee_anchor.Registry.Log.{publications, revokes_serial}
use tee_anchor.Registry.Crls.{later_crl}
use tee_anchor.Registry.Live.{History-revokes}
use tee_anchor.Registry.Enforced.{Checks, run_verify-revoked_before}
use tee_anchor.Registry.Unordered.{Ledger, enter_all, History-Perm}
use tee_anchor.Verify.Args.{VerifyArgs}
use tee_anchor.Verify.{run_verify}
use tee_anchor.Pki.{make_oid}
use tee_anchor.Quote.{rd_u16le, rd_u32le, need, mem_buf, read_certs, read_chain}
use tee_anchor.Sgx.{extract_pck_chain_from_quote}
use tee_anchor.Sgx.Layout.{locate_pck_chain}
use tee_anchor.Sgx.Chain.{
  number_from, get_ec_pubkey_uncompressed, is_self_signed, find_root, issuer_of_some, find_leaf,
  intermediates, push_all, pck_store, verify_leaf, verify_links, verify_pck_chain,
}
use tee_anchor.Sgx.Extension.{element_value, walk_loop, walk_extension, find_sgx_extension_octet}
use tee_anchor.Verify.{
  ppid_from_pck_chain, verify_evidence_and_extract_chip_id, org_context, org_store,
}
use tee_anchor.Verify.Args.{check_args, is_tee_type}
use tee_anchor.Tests.Toy.{
  toy, toy-HexLaws, toy-CrlLaws, toy-in_force, host, endorsement, org_ca, chip,
}
use tee_anchor.Tests.Runs.{files, verify_args}

abbrev path : Bytes
path = codes "db"

-- A disk with room, and a buffered stream that has handed on nothing when it is tested.
abbrev w : World
w = host files

w-Host : Host path w
unfolding no_blank is_c_space
w-Host = record { readable = refl; stamped = refl; stamp = refl }

-- There is no list yet.
w-Loads : Loads path w empty_db
unfolding load_revocation_db bytes_eq
w-Loads = record {
  host = w-Host;
  loaded = refl;
  good = record { number = omega arith; entries = tt };
  distinct = tt;
}

abbrev revoke_args : RevokeArgs
revoke_args = record {
  ca_cert_path = codes "ca.crt";
  cert_path = codes "cert";
  reason = codes "superseded";
  db_path = path;
}

abbrev entry : RevocationEntry
entry = record {
  serial_hex = codes "ab";
  revocation_date = codes "now";
  reason = codes "superseded";
}

made : revocation_of toy revoke_args w ≡ ok entry
unfolding read_file call load_pem_cert to_lower lower_char is_one_of is_valid_reason
    check_revoke_args serial_hex_lower revocation_of bytes_eq
made = refl

w-writes : (run_revoke toy revoke_args w).0 ≡ ok tt
unfolding read_file call load_pem_cert to_lower lower_char is_one_of is_valid_reason
    check_revoke_args serial_hex_lower revocation_of bytes_eq has_serial db_path_or_default
    load_revocation_db add_entry plan_revoke run_revoke save_revocation_db spill stream_failed
    put_file mode_at rename_file print_db print_entries print_entry decimal decimal_loop
w-writes = refl

abbrev w₁ : World
w₁ = (run_revoke toy revoke_args w).1

abbrev listed : RevocationDb
listed = record { crl_number = 0; entries = entry ∷ [] }

-- A text that the disk has room for is not cut off.
fits : (q text : Bytes) → length text ≤ 2000 → Reported q text w
fits q text h stream = h

plans : plan_revoke toy revoke_args w ≡ ok (some listed)
unfolding read_file call load_pem_cert to_lower lower_char is_one_of is_valid_reason
    check_revoke_args serial_hex_lower revocation_of bytes_eq has_serial db_path_or_default
    load_revocation_db add_entry plan_revoke run_revoke save_revocation_db spill stream_failed
    put_file mode_at rename_file print_db print_entries print_entry decimal decimal_loop
plans = refl

listed_fits : length (print_db listed) ≤ 2000
unfolding print_db print_entries print_entry decimal decimal_loop
listed_fits = omega arith

w-reported : RevokeReported toy path revoke_args w
w-reported db h =
    fits (tmp_path path) (print_db db) (
      subst (λ d. length (print_db d) ≤ 2000) (some_inj (ok_injective (sym plans ∙ h))) listed_fits)
  where
    some_inj : {a b : RevocationDb} → ◌≡◌ {A = Option RevocationDb} (some a) (some b) → a ≡ b
    some_inj e = cc

once : History toy path w (revocation entry ∷ []) w₁
unfolding db_path_or_default
once = revokes begins revoke_args entry refl made w-writes w-reported

same_host : SameHost w₁ w
same_host = run_revoke-SameHost toy revoke_args w

History-Loads_example : Loads path w₁ (replay (revocation entry ∷ []) empty_db)
History-Loads_example =
    History-Loads toy toy-HexLaws path w empty_db w-Loads (revocation entry ∷ []) w₁ once

abbrev crl_args : CrlIssueArgs
crl_args = record {
  ca_key_path = codes "ca.key";
  ca_cert_path = codes "ca.crt";
  out_path = codes "out";
  validity_days = pos 7;
  db_path = path;
}

abbrev w₂ : World
w₂ = (run_crl_issue toy crl_args w₁).1

abbrev numbered : RevocationDb
numbered = record { crl_number = 1; entries = entry ∷ [] }

planned : plan_crl toy crl_args w₁ ≡ ok (171 ∷ [], numbered)
unfolding read_file call load_pem_cert to_lower lower_char is_one_of is_valid_reason
    check_revoke_args serial_hex_lower revocation_of bytes_eq has_serial db_path_or_default
    load_revocation_db add_entry plan_revoke run_revoke save_revocation_db spill stream_failed
    put_file mode_at rename_file print_db print_entries print_entry decimal decimal_loop
    sig_md_for_curve digest_for_signing_key load_pem_private_key trim is_line_space stoi
    number_after_sign extract_number parse_entry parse_line parse_lines parse_db lines read_word
    starts_with reason_to_int check_crl_issue_args next_crl_number asn1_int_from_hex
    asn1_gentime_from_string add_crl_reason_extension revoked_of revoked_list start_crl finish_crl
    tbs_crl build_crl pem_crl plan_crl push_char span_word drop_front drop_back lookup_reason
    write_file set_mode publish run_crl_issue is_c_space is_digit digits_from
planned = refl

published : (run_crl_issue toy crl_args w₁).0 ≡ ok tt
unfolding read_file call load_pem_cert to_lower lower_char is_one_of is_valid_reason
    check_revoke_args serial_hex_lower revocation_of bytes_eq has_serial db_path_or_default
    load_revocation_db add_entry plan_revoke run_revoke save_revocation_db spill stream_failed
    put_file mode_at rename_file print_db print_entries print_entry decimal decimal_loop
    sig_md_for_curve digest_for_signing_key load_pem_private_key trim is_line_space stoi
    number_after_sign extract_number parse_entry parse_line parse_lines parse_db lines read_word
    starts_with reason_to_int check_crl_issue_args next_crl_number asn1_int_from_hex
    asn1_gentime_from_string add_crl_reason_extension revoked_of revoked_list start_crl finish_crl
    tbs_crl build_crl pem_crl plan_crl push_char span_word drop_front drop_back lookup_reason
    write_file set_mode publish run_crl_issue is_c_space is_digit digits_from
published = refl

numbered_fits : length (print_db numbered) ≤ 2000
unfolding print_db print_entries print_entry decimal decimal_loop
numbered_fits = omega arith

-- What a plan saves and writes fits, whatever the machine has done before.
plan_fits :
    (v : World)
    → SameHost v w
    → plan_crl toy crl_args v ≡ ok (171 ∷ [], numbered)
    → PublishReported toy path crl_args v
plan_fits v same plan pem db h = Reported-SameHost (tmp_path path) (print_db db) v w same (
    fits (tmp_path path) (print_db db) (
      subst (λ d. length (print_db d) ≤ 2000)
        (ap (λ (p : Bytes × RevocationDb). p.1) (ok_injective (sym plan ∙ h))) numbered_fits))

crl_fits :
    (pem : Bytes) (db : RevocationDb)
    → plan_crl toy crl_args w₁ ≡ ok (pem, db)
    → Reported (codes "out") pem w₁
crl_fits pem db h = Reported-SameHost (codes "out") pem w₁ w same_host (
    fits (codes "out") pem (
      subst (λ t. length t ≤ 2000)
        (ap (λ (p : Bytes × RevocationDb). p.0) (ok_injective (sym planned ∙ h))) (omega arith)))

twice : History toy path w (publication ∷ revocation entry ∷ []) w₂
unfolding db_path_or_default
twice = publishes once crl_args refl (λ e. cc) published (plan_fits w₁ same_host planned)

abbrev later_args : CrlIssueArgs
later_args = record crl_args { out_path = codes "later" }

abbrev later : RevocationDb
later = record { crl_number = 2; entries = entry ∷ [] }

planned_later : plan_crl toy later_args w₂ ≡ ok (171 ∷ [], later)
unfolding read_file call load_pem_cert to_lower lower_char is_one_of is_valid_reason
    check_revoke_args serial_hex_lower revocation_of bytes_eq has_serial db_path_or_default
    load_revocation_db add_entry plan_revoke run_revoke save_revocation_db spill stream_failed
    put_file mode_at rename_file print_db print_entries print_entry decimal decimal_loop
    sig_md_for_curve digest_for_signing_key load_pem_private_key trim is_line_space stoi
    number_after_sign extract_number parse_entry parse_line parse_lines parse_db lines read_word
    starts_with reason_to_int check_crl_issue_args next_crl_number asn1_int_from_hex
    asn1_gentime_from_string add_crl_reason_extension revoked_of revoked_list start_crl finish_crl
    tbs_crl build_crl pem_crl plan_crl push_char span_word drop_front drop_back lookup_reason
    write_file set_mode publish run_crl_issue is_c_space is_digit digits_from
planned_later = refl

later_crl_example :
    (later.crl_number ≡ (numbered.crl_number + publications [] + 1) % 2 ^ 64)
    × ((new : List RevocationEntry) × (later.entries ≡ numbered.entries ++ new))
    × ((n : ℕ)
        → lists_serial n
            (sort (plan_crl-Published toy crl_args w₁ (171 ∷ []) numbered planned).revoked)
          ≡ true
        → lists_serial n
            (sort (plan_crl-Published toy later_args w₂ (171 ∷ []) later planned_later).revoked)
          ≡ true)
unfolding db_path_or_default publications
later_crl_example =
    later_crl toy toy-HexLaws sort-Perm path w empty_db w-Loads (revocation entry ∷ []) w₁ once
      crl_args refl (λ e. cc) (171 ∷ []) numbered planned published (plan_fits w₁ same_host planned)
      [] w₂ begins later_args refl (171 ∷ []) later planned_later

History-revokes_example :
    ((run_revoke toy revoke_args w).0 ≡ ok tt)
    × ((now : RevocationDb) × (load_revocation_db path w₁ ≡ ok now)
        × (has_serial (codes "ab") now.entries ≡ true))
unfolding db_path_or_default apply replay has_serial print_db print_entries print_entry decimal
    decimal_loop
History-revokes_example =
    History-revokes toy toy-HexLaws path w empty_db w-Loads [] w begins revoke_args entry refl made
      (record { writable = refl; room = omega arith; can_rename = refl })

abbrev crl_check : VerifyArgs
crl_check = record verify_args { crl_path = codes "out" }

checks : Checks toy 100 toy-CrlLaws crl_check w₂ endorsement org_ca chip
unfolding read_file call load_pem_cert to_lower lower_char is_one_of is_valid_reason
    check_revoke_args serial_hex_lower revocation_of bytes_eq has_serial db_path_or_default
    load_revocation_db add_entry plan_revoke run_revoke save_revocation_db spill stream_failed
    put_file mode_at rename_file print_db print_entries print_entry decimal decimal_loop
    sig_md_for_curve digest_for_signing_key load_pem_private_key trim is_line_space stoi
    number_after_sign extract_number parse_entry parse_line parse_lines parse_db lines read_word
    starts_with reason_to_int check_crl_issue_args next_crl_number asn1_int_from_hex
    asn1_gentime_from_string add_crl_reason_extension revoked_of revoked_list start_crl finish_crl
    tbs_crl build_crl pem_crl plan_crl push_char span_word drop_front drop_back lookup_reason
    write_file set_mode publish run_crl_issue is_c_space is_digit digits_from
    extract_pck_chain_from_quote locate_pck_chain number_from get_ec_pubkey_uncompressed
    is_self_signed find_root issuer_of_some find_leaf intermediates push_all pck_store verify_leaf
    verify_links verify_pck_chain element_value walk_loop walk_extension find_sgx_extension_octet
    rd_u16le rd_u32le need mem_buf read_certs read_chain make_oid ppid_from_pck_chain
    verify_evidence_and_extract_chip_id check_args is_tee_type org_context org_store
checks = record {
  arguments = refl;
  crl_given = refl;
  readable = refl;
  in_force = λ crl h. toy-in_force org_ca crl;
  cert_loaded = refl;
  ca_loaded = refl;
  evidence = refl;
  buffer = refl;
  context = λ crl. refl;
  unrevoked = refl;
}

ca_of_w₁ : load_pem_cert toy (codes "ca.crt") w₁ ≡ ok org_ca
unfolding read_file call load_pem_cert to_lower lower_char is_one_of is_valid_reason
    check_revoke_args serial_hex_lower revocation_of bytes_eq has_serial db_path_or_default
    load_revocation_db add_entry plan_revoke run_revoke save_revocation_db spill stream_failed
    put_file mode_at rename_file print_db print_entries print_entry decimal decimal_loop
    sig_md_for_curve digest_for_signing_key load_pem_private_key trim is_line_space stoi
    number_after_sign extract_number parse_entry parse_line parse_lines parse_db lines read_word
    starts_with reason_to_int check_crl_issue_args next_crl_number asn1_int_from_hex
    asn1_gentime_from_string add_crl_reason_extension revoked_of revoked_list start_crl finish_crl
    tbs_crl build_crl pem_crl plan_crl push_char span_word drop_front drop_back lookup_reason
    write_file set_mode publish run_crl_issue is_c_space is_digit digits_from
ca_of_w₁ = refl

run_verify-revoked_before_example : run_verify toy 100 crl_check w₂ ≡ 24
unfolding db_path_or_default revokes_serial to_lower lower_char bytes_eq
run_verify-revoked_before_example =
    run_verify-revoked_before toy 100 toy-CrlLaws toy-HexLaws path w empty_db w-Loads
      (revocation entry ∷ []) w₁ once endorsement org_ca refl crl_args refl ca_of_w₁ (λ e. cc)
      (λ e. cc) crl_fits published crl_check w₂ chip refl checks

-- The same two events in the other order.
abbrev v₁ : World
v₁ = (run_crl_issue toy crl_args w).1

abbrev v₂ : World
v₂ = (run_revoke toy revoke_args v₁).1

abbrev first : RevocationDb
first = record { crl_number = 1; entries = [] }

first_fits : length (print_db first) ≤ 2000
unfolding print_db print_entries print_entry decimal decimal_loop
first_fits = omega arith

published_first : (run_crl_issue toy crl_args w).0 ≡ ok tt
unfolding read_file call load_pem_cert to_lower lower_char is_one_of is_valid_reason
    check_revoke_args serial_hex_lower revocation_of bytes_eq has_serial db_path_or_default
    load_revocation_db add_entry plan_revoke run_revoke save_revocation_db spill stream_failed
    put_file mode_at rename_file print_db print_entries print_entry decimal decimal_loop
    sig_md_for_curve digest_for_signing_key load_pem_private_key trim is_line_space stoi
    number_after_sign extract_number parse_entry parse_line parse_lines parse_db lines read_word
    starts_with reason_to_int check_crl_issue_args next_crl_number asn1_int_from_hex
    asn1_gentime_from_string add_crl_reason_extension revoked_of revoked_list start_crl finish_crl
    tbs_crl build_crl pem_crl plan_crl push_char span_word drop_front drop_back lookup_reason
    write_file set_mode publish run_crl_issue is_c_space is_digit digits_from
published_first = refl

made_then : revocation_of toy revoke_args v₁ ≡ ok entry
unfolding read_file call load_pem_cert to_lower lower_char is_one_of is_valid_reason
    check_revoke_args serial_hex_lower revocation_of bytes_eq has_serial db_path_or_default
    load_revocation_db add_entry plan_revoke run_revoke save_revocation_db spill stream_failed
    put_file mode_at rename_file print_db print_entries print_entry decimal decimal_loop
    sig_md_for_curve digest_for_signing_key load_pem_private_key trim is_line_space stoi
    number_after_sign extract_number parse_entry parse_line parse_lines parse_db lines read_word
    starts_with reason_to_int check_crl_issue_args next_crl_number asn1_int_from_hex
    asn1_gentime_from_string add_crl_reason_extension revoked_of revoked_list start_crl finish_crl
    tbs_crl build_crl pem_crl plan_crl push_char span_word drop_front drop_back lookup_reason
    write_file set_mode publish run_crl_issue is_c_space is_digit digits_from
made_then = refl

revoked_then : (run_revoke toy revoke_args v₁).0 ≡ ok tt
unfolding read_file call load_pem_cert to_lower lower_char is_one_of is_valid_reason
    check_revoke_args serial_hex_lower revocation_of bytes_eq has_serial db_path_or_default
    load_revocation_db add_entry plan_revoke run_revoke save_revocation_db spill stream_failed
    put_file mode_at rename_file print_db print_entries print_entry decimal decimal_loop
    sig_md_for_curve digest_for_signing_key load_pem_private_key trim is_line_space stoi
    number_after_sign extract_number parse_entry parse_line parse_lines parse_db lines read_word
    starts_with reason_to_int check_crl_issue_args next_crl_number asn1_int_from_hex
    asn1_gentime_from_string add_crl_reason_extension revoked_of revoked_list start_crl finish_crl
    tbs_crl build_crl pem_crl plan_crl push_char span_word drop_front drop_back lookup_reason
    write_file set_mode publish run_crl_issue is_c_space is_digit digits_from
revoked_then = refl

planned_first : plan_crl toy crl_args w ≡ ok ([], first)
unfolding read_file call load_pem_cert to_lower lower_char is_one_of is_valid_reason
    check_revoke_args serial_hex_lower revocation_of bytes_eq has_serial db_path_or_default
    load_revocation_db add_entry plan_revoke run_revoke save_revocation_db spill stream_failed
    put_file mode_at rename_file print_db print_entries print_entry decimal decimal_loop
    sig_md_for_curve digest_for_signing_key load_pem_private_key trim is_line_space stoi
    number_after_sign extract_number parse_entry parse_line parse_lines parse_db lines read_word
    starts_with reason_to_int check_crl_issue_args next_crl_number asn1_int_from_hex
    asn1_gentime_from_string add_crl_reason_extension revoked_of revoked_list start_crl finish_crl
    tbs_crl build_crl pem_crl plan_crl push_char span_word drop_front drop_back lookup_reason
    write_file set_mode publish run_crl_issue is_c_space is_digit digits_from
planned_first = refl

publish_first : PublishReported toy path crl_args w
publish_first pem db h = fits (tmp_path path) (print_db db) (
    subst (λ d. length (print_db d) ≤ 2000)
      (ap (λ (p : Bytes × RevocationDb). p.1) (ok_injective (sym planned_first ∙ h))) first_fits)

plans_then : plan_revoke toy revoke_args v₁ ≡ ok (some numbered)
unfolding read_file call load_pem_cert to_lower lower_char is_one_of is_valid_reason
    check_revoke_args serial_hex_lower revocation_of bytes_eq has_serial db_path_or_default
    load_revocation_db add_entry plan_revoke run_revoke save_revocation_db spill stream_failed
    put_file mode_at rename_file print_db print_entries print_entry decimal decimal_loop
    sig_md_for_curve digest_for_signing_key load_pem_private_key trim is_line_space stoi
    number_after_sign extract_number parse_entry parse_line parse_lines parse_db lines read_word
    starts_with reason_to_int check_crl_issue_args next_crl_number asn1_int_from_hex
    asn1_gentime_from_string add_crl_reason_extension revoked_of revoked_list start_crl finish_crl
    tbs_crl build_crl pem_crl plan_crl push_char span_word drop_front drop_back lookup_reason
    write_file set_mode publish run_crl_issue is_c_space is_digit digits_from
plans_then = refl

revoke_then : RevokeReported toy path revoke_args v₁
revoke_then db h =
    Reported-SameHost (tmp_path path) (print_db db) v₁ w (run_crl_issue-SameHost toy crl_args w) (
      fits (tmp_path path) (print_db db) (
        subst (λ d. length (print_db d) ≤ 2000) (some_inj (ok_injective (sym plans_then ∙ h)))
          numbered_fits))
  where
    some_inj : {a b : RevocationDb} → ◌≡◌ {A = Option RevocationDb} (some a) (some b) → a ≡ b
    some_inj e = cc

other_order : History toy path w (revocation entry ∷ publication ∷ []) v₂
unfolding db_path_or_default
other_order =
    revokes (publishes begins crl_args refl (λ e. cc) published_first publish_first) revoke_args
      entry refl made_then revoked_then revoke_then

now_w₂ : load_revocation_db path w₂ ≡ ok numbered
unfolding read_file call load_pem_cert to_lower lower_char is_one_of is_valid_reason
    check_revoke_args serial_hex_lower revocation_of bytes_eq has_serial db_path_or_default
    load_revocation_db add_entry plan_revoke run_revoke save_revocation_db spill stream_failed
    put_file mode_at rename_file print_db print_entries print_entry decimal decimal_loop
    sig_md_for_curve digest_for_signing_key load_pem_private_key trim is_line_space stoi
    number_after_sign extract_number parse_entry parse_line parse_lines parse_db lines read_word
    starts_with reason_to_int check_crl_issue_args next_crl_number asn1_int_from_hex
    asn1_gentime_from_string add_crl_reason_extension revoked_of revoked_list start_crl finish_crl
    tbs_crl build_crl pem_crl plan_crl push_char span_word drop_front drop_back lookup_reason
    write_file set_mode publish run_crl_issue is_c_space is_digit digits_from
now_w₂ = refl

now_v₂ : load_revocation_db path v₂ ≡ ok numbered
unfolding read_file call load_pem_cert to_lower lower_char is_one_of is_valid_reason
    check_revoke_args serial_hex_lower revocation_of bytes_eq has_serial db_path_or_default
    load_revocation_db add_entry plan_revoke run_revoke save_revocation_db spill stream_failed
    put_file mode_at rename_file print_db print_entries print_entry decimal decimal_loop
    sig_md_for_curve digest_for_signing_key load_pem_private_key trim is_line_space stoi
    number_after_sign extract_number parse_entry parse_line parse_lines parse_db lines read_word
    starts_with reason_to_int check_crl_issue_args next_crl_number asn1_int_from_hex
    asn1_gentime_from_string add_crl_reason_extension revoked_of revoked_list start_crl finish_crl
    tbs_crl build_crl pem_crl plan_crl push_char span_word drop_front drop_back lookup_reason
    write_file set_mode publish run_crl_issue is_c_space is_digit digits_from
now_v₂ = refl

History-Perm_example :
    (◌≡◌ {A = Ledger}
      (Quot.mk numbered)
      (enter_all (publication ∷ revocation entry ∷ []) (Quot.mk empty_db)))
    × (◌≡◌ {A = Ledger} (Quot.mk numbered) (Quot.mk numbered))
unfolding revokes_serial
History-Perm_example =
    History-Perm toy toy-HexLaws path w w empty_db w-Loads w-Loads
      (publication ∷ revocation entry ∷ []) (revocation entry ∷ publication ∷ []) w₂ v₂ twice
      other_order (Permᴰ.swap refl refl) (refl, tt) numbered numbered now_w₂ now_v₂
