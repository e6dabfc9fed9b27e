-- ===== src/Cca/Cpak.antt =====
-- provision/cca/cca_cpak_pubkey.hpp: the pinned platform attestation key.
use tee_anchor.Prelude.{[], ◌∷◌, Bytes, Result, or_throw}
use tee_anchor.OpenSsl.{OpenSsl}

-- kCpakSpkiDer
abbrev pub cpak_spki_der : Bytes
cpak_spki_der =
    0x30 ∷ 0x76 ∷ 0x30 ∷ 0x10 ∷ 0x06 ∷ 0x07 ∷ 0x2a ∷ 0x86 ∷ 0x48 ∷ 0xce ∷ 0x3d ∷ 0x02 ∷ 0x01 ∷ 0x06
    ∷ 0x05 ∷ 0x2b ∷ 0x81 ∷ 0x04 ∷ 0x00 ∷ 0x22 ∷ 0x03 ∷ 0x62 ∷ 0x00 ∷ 0x04 ∷ 0x21 ∷ 0x28 ∷ 0x67
    ∷ 0xc5 ∷ 0x2e ∷ 0x2b ∷ 0x95 ∷ 0x08 ∷ 0xb0 ∷ 0xa4 ∷ 0x20 ∷ 0xa9 ∷ 0x05 ∷ 0x60 ∷ 0xf3 ∷ 0x94
    ∷ 0xd2 ∷ 0xdf ∷ 0xaa ∷ 0x21 ∷ 0xbd ∷ 0xd7 ∷ 0x51 ∷ 0x4f ∷ 0xf1 ∷ 0xa9 ∷ 0x01 ∷ 0xaf ∷ 0xe7
    ∷ 0xe1 ∷ 0xf7 ∷ 0x8b ∷ 0xb1 ∷ 0x1d ∷ 0x4e ∷ 0x66 ∷ 0xf8 ∷ 0xa8 ∷ 0xa3 ∷ 0x8a ∷ 0xfa ∷ 0x76
    ∷ 0xaf ∷ 0x6a ∷ 0x31 ∷ 0xc4 ∷ 0xde ∷ 0x8c ∷ 0x84 ∷ 0xce ∷ 0x2d ∷ 0xaf ∷ 0xc9 ∷ 0x96 ∷ 0x42
    ∷ 0x58 ∷ 0xb5 ∷ 0x3f ∷ 0xad ∷ 0x71 ∷ 0x87 ∷ 0x74 ∷ 0xf4 ∷ 0x56 ∷ 0x20 ∷ 0xd1 ∷ 0x11 ∷ 0xb1
    ∷ 0x76 ∷ 0xe8 ∷ 0x31 ∷ 0x8e ∷ 0x11 ∷ 0x87 ∷ 0xdb ∷ 0x02 ∷ 0x35 ∷ 0xa3 ∷ 0x18 ∷ 0xd3 ∷ 0x7b
    ∷ 0xa5 ∷ 0x97 ∷ 0xfe ∷ 0xe8 ∷ 0x0e ∷ 0x0e ∷ 0x4c ∷ 0x76 ∷ 0x2a ∷ 0x12 ∷ 0xbc ∷ 0xb3 ∷ 0xea
    ∷ 0x6e ∷ 0xd4 ∷ []

unfoldable pub load_pinned_cpak : (ssl : OpenSsl) → Result ssl.Key
load_pinned_cpak ssl = or_throw (ssl.key_of_spki cpak_spki_der) "d2i_PUBKEY (pinned CPAK)"
