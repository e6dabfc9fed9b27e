-- ===== src/Tests/Toy.antt =====
-- A small instance of the OpenSSL interface, with the documented behaviour that the theorems ask for:
-- certificates are records, PEM is one byte for each object, and DER headers are read in their shortest
-- forms.
use tee_anchor.Prelude.{
  Bool, false, subst, ◌||◌, ℕ, ◌+◌, ◌*◌, ◌%◌, ◌≤◌, ◌<◌, ◌≡◌, refl, ap, sym, ◌∙◌, true, Option, none,
  some, List, [], ◌∷◌, ◌++◌, ltb, leb, ◌==◌, if◌then◌else◌, length, All, Bytes, bytes_eq,
  bytes_eq_refl, codes, arith, Bool-cases, inl, inr,
}
use tee_anchor.OpenSsl.{
  Revoked, err_cert_revoked, TbsCrl, OpenSsl, ec, valid, Extension, conf, octets,
}
use tee_anchor.World.{File, World}
use tee_anchor.Binding.RoundTrip.{DerLaws}
use tee_anchor.Binding.{oid_chip_id_binding}
use tee_anchor.Provision.Issues.{KeepsBinding, IsConf}
use tee_anchor.Sgx.Pinned.{some_injective}
use tee_anchor.Sgx.Chain.{intel_sgx_root_pubkey}
use tee_anchor.Sgx.Extension.{oid_sgx_extension, oid_sgx_ppid}
use tee_anchor.Snp.Pins.{milan}
use tee_anchor.Revoke.Entry.{HexLaws}
use tee_anchor.Registry.Enforced.{CrlLaws}
use tee_anchor.CrlIssue.Sorted.{lists_serial}
use mathlib.Core.List.{Permᴰ}
use tee_anchor.Tests.Hex.{hex_text, read_hex, hex_text-digits, read_hex-hex_text, hex_text-some}

pub record ToyCert : Type 0 where
  pub label : ℕ
  pub subject : Bytes
  pub issuer : Bytes
  pub serial : ℕ
  pub key : Bytes
  pub extensions : List (Bytes × Bytes)

-- The extensions that are given by their bytes.
abbrev pub given : List Extension → List (Bytes × Bytes)
given [] = []
given (conf nid text ∷ es) = given es
given (octets oid critical der ∷ es) = (oid, der) ∷ given es

abbrev pub find : List (Bytes × Bytes) → Bytes → Option (Option Bytes)
find [] oid = none
find ((o, der) ∷ es) oid = if bytes_eq o oid then some (some der) else find es oid

abbrev pub fits : ℕ → ℕ → Bytes → Option (ℕ × ℕ × Bytes)
fits b n rest = if leb n (length rest) then some (b % 32, n, rest) else none

abbrev pub two_bytes_long : ℕ → ℕ → ℕ → Bytes → Option (ℕ × ℕ × Bytes)
two_bytes_long b n m [] = none
two_bytes_long b n m (l ∷ rest) = if n == 0x82 then fits b (m * 256 + l) rest else none

abbrev pub long_form : ℕ → ℕ → Bytes → Option (ℕ × ℕ × Bytes)
long_form b n [] = none
long_form b n (m ∷ rest) = if n == 0x81 then fits b m rest else two_bytes_long b n m rest

-- `ASN1_get_object`
abbrev pub header : Bytes → Option (ℕ × ℕ × Bytes)
header [] = none
header (b ∷ []) = none
header (b ∷ n ∷ rest) =
    if b % 32 == 31 then none else if ltb n 128 then fits b n rest else long_form b n rest

abbrev pub chip : Bytes
chip = 7 ∷ 8 ∷ 9 ∷ []

-- SEQUENCE { SEQUENCE { OID, OCTET STRING } }, where the OID is the PPID's.
abbrev pub ppid_extension : Bytes
ppid_extension = 0x30 ∷ 10 ∷ 0x30 ∷ 8 ∷ 6 ∷ 1 ∷ 0 ∷ 4 ∷ 3 ∷ chip

abbrev pub oid_of : Bytes → Option (Bytes × Bytes)
oid_of [] = none
oid_of (t ∷ []) = none
oid_of (t ∷ n ∷ []) = none
oid_of (t ∷ n ∷ x ∷ rest) = some (oid_sgx_ppid, rest)

abbrev pub org_ca : ToyCert
org_ca = record {
  label = 1;
  subject = codes "ca";
  issuer = codes "ca";
  serial = 1;
  key = codes "ca";
  extensions = [];
}

abbrev pub intel_root : ToyCert
intel_root = record {
  label = 3;
  subject = codes "intel";
  issuer = codes "intel";
  serial = 3;
  key = intel_sgx_root_pubkey;
  extensions = [];
}

abbrev pub pck_leaf : ToyCert
pck_leaf = record {
  label = 4;
  subject = codes "pck";
  issuer = codes "intel";
  serial = 4;
  key = codes "pck";
  extensions = (oid_sgx_extension, ppid_extension) ∷ [];
}

-- ChipIdBinding of SGX, `chip` and the time "now"
abbrev pub binding_der : Bytes
binding_der = 0x30 ∷ 13 ∷ 0x0A ∷ 1 ∷ 0 ∷ 0x04 ∷ 3 ∷ 7 ∷ 8 ∷ 9 ∷ 0x18 ∷ 3 ∷ codes "now"

-- The subject that `auto_subject` makes of `chip`, as the name that it parses to.
abbrev pub endorsement : ToyCert
endorsement = record {
  label = 2;
  subject = codes "tee-anchor-070809";
  issuer = codes "ca";
  serial = 171;
  key = codes "pck";
  extensions = (oid_chip_id_binding, binding_der) ∷ [];
}

abbrev pub cert_of : Bytes → Option (ToyCert × Bytes)
cert_of [] = none
cert_of (c ∷ rest) =
    if c == 1
    then some (org_ca, rest)
    else if c == 2
    then some (endorsement, rest)
    else if c == 3
    then some (intel_root, rest)
    else if c == 4
    then some (pck_leaf, rest)
    else none

-- A CRL is the serial numbers that it lists.
abbrev pub serials : List Revoked → Bytes
serials [] = []
serials (r ∷ rs) = r.serial ∷ serials rs

abbrev pub has_number : ℕ → Bytes → Bool
has_number n [] = false
has_number n (c ∷ s) = c == n || has_number n s

-- The entries of a CRL by their serial numbers.
abbrev pub insert : Revoked → List Revoked → List Revoked
insert r [] = r ∷ []
insert r (x ∷ xs) = let rest = insert r xs in if leb r.serial x.serial then r ∷ x ∷ xs else x ∷ rest

abbrev pub sort : List Revoked → List Revoked
sort [] = []
sort (r ∷ rs) = insert r (sort rs)

insert-Perm : (r : Revoked) (rs : List Revoked) → Permᴰ (r ∷ rs) (insert r rs)
insert-Perm r [] = Permᴰ.cons refl Permᴰ.nil
insert-Perm r (x ∷ xs) = elim (Bool-cases (leb r.serial x.serial)) [
  | inl before ↦ rw before (same (r ∷ x ∷ xs))
  | inr behind ↦ rw behind (Permᴰ.trans (Permᴰ.swap refl refl) (Permᴰ.cons refl (insert-Perm r xs)))
]
  where
    same : (rs : List Revoked) → Permᴰ rs rs
    same [] = Permᴰ.nil
    same (r ∷ rs) = Permᴰ.cons refl (same rs)

pub sort-Perm : (rs : List Revoked) → Permᴰ rs (sort rs)
sort-Perm [] = Permᴰ.nil
sort-Perm (r ∷ rs) = Permᴰ.trans (Permᴰ.cons refl (sort-Perm rs)) (insert-Perm r (sort rs))

abbrev pub toy : OpenSsl
toy = record {
  Cert = ToyCert;
  Key = Bytes;
  Crl = Bytes;
  Name = Bytes;
  succeeds = λ name. true;
  read_key = λ text. some (codes "ca");
  read_cert = cert_of;
  read_crl = λ text. some text;
  write_key = λ key. key;
  write_cert = λ cert. cert.label ∷ [];
  write_crl = λ crl. crl;
  same_name = bytes_eq;
  empty_name = [];
  add_entry = λ name key val. some (name ++ val);
  subject = λ cert. cert.subject;
  issuer = λ cert. cert.issuer;
  serial = λ cert. cert.serial;
  public_key = λ cert. some cert.key;
  key_matches = λ cert key. bytes_eq cert.key key;
  kind = λ key. ec;
  group_name = λ key. some (codes "P-384");
  ec_point = λ key. some key;
  spki = λ key. some key;
  key_of_spki = λ der. some (codes "cpak");
  gen_key = λ curve. some (codes "ca");
  digest = λ md text. some milan;
  extension = λ cert oid. find cert.extensions oid;
  get_object = header;
  read_oid = oid_of;
  verify_cert = λ store cert. elim store.crl [
    | none ↦ 0
    | some crl ↦ if has_number cert.serial crl then 23 else 0
  ];
  verify_ecdsa = λ key msg r s. valid;
  sort_revoked = sort;
  sign_cert = λ tbs key md. some (record {
    label = 2;
    subject = tbs.subject;
    issuer = tbs.issuer;
    serial = tbs.serial;
    key = tbs.public_key;
    extensions = given tbs.extensions;
  });
  sign_crl = λ tbs key md. some (serials tbs.revoked);
  hex_of_number = hex_text;
  number_of_hex = λ hex. some (read_hex 0 hex);
  is_time = λ text. true;
}

fits-within :
    (b n : ℕ) (rest : Bytes) (tag len : ℕ) (s : Bytes)
    → fits b n rest ≡ some (tag, len, s)
    → (len ≤ length s) × (length s ≤ length rest)
fits-within b n rest tag len s h = ground arith

header-within :
    (p : Bytes) (tag len : ℕ) (rest : Bytes)
    → header p ≡ some (tag, len, rest)
    → (len ≤ length rest) × (length rest < length p)
header-within [] tag len rest h = cc
header-within (b ∷ []) tag len rest h = cc
header-within (b ∷ n ∷ []) tag len rest h = ground arith
header-within (b ∷ n ∷ m ∷ []) tag len rest h = ground arith
header-within (b ∷ n ∷ m ∷ l ∷ s) tag len rest h = ground arith

pub toy-DerLaws : DerLaws toy
toy-DerLaws = record {
  within = header-within;
  short_form = λ b n rest low small room. ground arith;
  one_byte = λ b n rest low large small room. ground arith;
  two_bytes = λ b hi lo rest low some_hi h l room. ground arith;
}

find-given :
    (es : List Extension) (oid der : Bytes)
    → All IsConf es
    → find (given (es ++ (octets oid true der ∷ []))) oid ≡ some (some der)
find-given [] oid der h = rw (bytes_eq_refl oid) refl
find-given (conf nid text ∷ es) oid der (h, hs) = find-given es oid der hs
find-given (octets o c d ∷ es) oid der (h, hs) = absurd h

pub toy-KeepsBinding : KeepsBinding toy
toy-KeepsBinding = record {
  finds = λ tbs key md cert es der signed exts confs.
      ap (λ (c : ToyCert). find c.extensions oid_chip_id_binding) (sym (some_injective toy signed))
      ∙ ap (λ x. find (given x) oid_chip_id_binding) exts
      ∙ find-given es oid_chip_id_binding der confs;
}

pub toy-HexLaws : HexLaws toy
toy-HexLaws = record {
  some_digit = hex_text-some;
  digits = hex_text-digits;
  reads = λ n. ap some (read_hex-hex_text n);
}

has_number-serials :
    (n : ℕ) (rs : List Revoked) → lists_serial n rs ≡ true → has_number n (serials rs) ≡ true
unfolding lists_serial
has_number-serials n [] h = h
has_number-serials n (r ∷ rs) h = ground (arith, has_number-serials n rs)

toy-revokes :
    (tbs : TbsCrl Bytes) (crl : Bytes) (n : ℕ)
    → ◌≡◌ {A = Option Bytes} (some (serials tbs.revoked)) (some crl)
    → lists_serial n tbs.revoked ≡ true
    → (if has_number n crl then 23 else 0) ≡ err_cert_revoked
toy-revokes tbs crl n signed listed =
    subst (λ c. (if has_number n c then 23 else 0) ≡ err_cert_revoked) (some_injective toy signed)
      (rw (has_number-serials n tbs.revoked listed) refl)

pub toy-CrlLaws : CrlLaws toy
toy-CrlLaws = record {
  reads = λ crl. refl;
  sorts = sort-Perm;
  in_force = λ ca crl. true;
  revokes = λ tbs key md crl store cert signed fits issuer listed valid_now unrevoked.
      toy-revokes tbs crl cert.serial signed listed;
}

pub toy-in_force : (ca : ToyCert) (crl : Bytes) → toy-CrlLaws.in_force ca crl ≡ true
unfolding toy-CrlLaws
toy-in_force ca crl = refl

-- Files of the same host: every path can be read and written, on a disk of 2000 bytes.
abbrev pub host : (Bytes → Option File) → World
host files = record {
  files = files;
  medium = λ path. record {
    readable = true;
    writable = true;
    flushed = λ n. 0;
    accepted = 2000;
    can_chmod = true;
  };
  can_rename = λ source target. true;
  default_mode = 0x1A4;
  now = codes "now";
  random = 171;
}

abbrev pub file : Bytes → Option File
file text = some (record { content = text; mode = 0x1A4 })
