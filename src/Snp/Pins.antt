-- ===== src/Snp/Pins.antt =====
-- provision/sev-snp/amd_ark_pubkeys.hpp: the pinned SHA-384 digests of AMD's root keys.
use tee_anchor.Prelude.{
  Option, none, some, List, [], ◌∷◌, ◌==◌, if◌then◌else◌, length, Bytes, bytes_eq, String,
}

abbrev pub milan : Bytes
milan =
    0x12 ∷ 0x49 ∷ 0xf6 ∷ 0x7f ∷ 0x15 ∷ 0xcf ∷ 0x22 ∷ 0x9a ∷ 0x40 ∷ 0x69 ∷ 0x19 ∷ 0x5e ∷ 0x1a ∷ 0x9c
    ∷ 0xe5 ∷ 0x37 ∷ 0xd1 ∷ 0x76 ∷ 0x5e ∷ 0xf7 ∷ 0x06 ∷ 0xa1 ∷ 0xf4 ∷ 0xa1 ∷ 0x23 ∷ 0xc3 ∷ 0x6b
    ∷ 0xe9 ∷ 0x51 ∷ 0x87 ∷ 0x86 ∷ 0x51 ∷ 0x5d ∷ 0x25 ∷ 0xec ∷ 0xc0 ∷ 0x07 ∷ 0xf3 ∷ 0x66 ∷ 0xb5
    ∷ 0x64 ∷ 0xd2 ∷ 0xb3 ∷ 0xf3 ∷ 0x1c ∷ 0x48 ∷ 0x08 ∷ 0x2e ∷ []

abbrev pub genoa : Bytes
genoa =
    0x32 ∷ 0xab ∷ 0x53 ∷ 0xa6 ∷ 0xce ∷ 0x5e ∷ 0xc1 ∷ 0x49 ∷ 0x26 ∷ 0x20 ∷ 0x73 ∷ 0x96 ∷ 0xe5 ∷ 0xc4
    ∷ 0x75 ∷ 0xae ∷ 0x76 ∷ 0x8a ∷ 0x6a ∷ 0x98 ∷ 0x31 ∷ 0xb7 ∷ 0xe8 ∷ 0x60 ∷ 0xb5 ∷ 0xac ∷ 0xf2
    ∷ 0xe1 ∷ 0xc1 ∷ 0xdf ∷ 0xf2 ∷ 0x22 ∷ 0xbc ∷ 0x5a ∷ 0x8b ∷ 0xfc ∷ 0x43 ∷ 0xeb ∷ 0x5e ∷ 0x06
    ∷ 0x39 ∷ 0x31 ∷ 0x89 ∷ 0xc1 ∷ 0xf2 ∷ 0x46 ∷ 0xd8 ∷ 0x80 ∷ []

abbrev pub turin : Bytes
turin =
    0x34 ∷ 0x75 ∷ 0xf0 ∷ 0x8a ∷ 0x97 ∷ 0x27 ∷ 0xf8 ∷ 0xac ∷ 0x9a ∷ 0x1d ∷ 0xea ∷ 0xea ∷ 0x5f ∷ 0x2a
    ∷ 0x20 ∷ 0x97 ∷ 0xaa ∷ 0x59 ∷ 0xd6 ∷ 0x4d ∷ 0x05 ∷ 0xc2 ∷ 0xa6 ∷ 0x78 ∷ 0xc2 ∷ 0x29 ∷ 0xc8
    ∷ 0x73 ∷ 0xe6 ∷ 0x35 ∷ 0x9d ∷ 0x3a ∷ 0x69 ∷ 0x26 ∷ 0x28 ∷ 0x7a ∷ 0x2a ∷ 0x22 ∷ 0xcd ∷ 0x5f
    ∷ 0x88 ∷ 0xa3 ∷ 0x85 ∷ 0xe3 ∷ 0x33 ∷ 0xa2 ∷ 0xfc ∷ 0xc5 ∷ []

-- kAmdArkPins
abbrev pub ark_pins : List (String × Bytes)
ark_pins = ("Milan", milan) ∷ ("Genoa", genoa) ∷ ("Turin", turin) ∷ []

unfoldable pub match_pin : List (String × Bytes) → Bytes → Option String
match_pin [] digest = none
match_pin ((generation, pin) ∷ pins) digest =
    if bytes_eq pin digest then some generation else match_pin pins digest

unfoldable pub match_ark_pin : Bytes → Option String
match_ark_pin digest = if length digest == 48 then match_pin ark_pins digest else none
