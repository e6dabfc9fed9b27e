-- ===== src/Tdx/Layout.antt =====
-- The binary layout of a TD quote: `locate_pck_region` and `locate_sig_data` of
-- provision/tdx/tdx_provision.cpp.
use tee_anchor.Prelude.{
  ℕ, ◌+◌, ◌-◌, Bool, ◌||◌, Option, none, some, ltb, ◌==◌, if◌then◌else◌, length, Bytes, String,
  Result, ok, throw, throw_if, ◌>>◌, true, false,
}
use tee_anchor.Quote.{need, rd_u16le, rd_u32le}

abbrev pub header_size : ℕ
header_size = 48

abbrev pub sig_pubkey_size : ℕ
sig_pubkey_size = 64 + 64

abbrev pub cert_hdr_size : ℕ
cert_hdr_size = 6

abbrev pub qe_report_size : ℕ
qe_report_size = 384

abbrev pub qe_report_sig : ℕ
qe_report_sig = 64

abbrev pub cert_type_qe_report : ℕ
cert_type_qe_report = 6

abbrev pub cert_type_pck : ℕ
cert_type_pck = 5

abbrev pub td_report_body_v4 : ℕ
td_report_body_v4 = 584

-- `if (bad) return std::nullopt;`
abbrev nothing_if : {A : Type 0} → Bool → Option A → Option A
nothing_if true o = none
nothing_if false o = o

-- The inner certification data, from its header at `p` to the end of the outer data.
unfoldable pub locate_inner : Bytes → ℕ → ℕ → Option (ℕ × ℕ)
locate_inner q p outer_end = nothing_if (ltb outer_end (p + cert_hdr_size)) (
    let inner_size = rd_u32le q (p + 2) in
    let inner_body = p + cert_hdr_size in
    if rd_u16le q p == cert_type_pck
    then (nothing_if (ltb (outer_end - inner_body) inner_size)
        (if inner_body + inner_size == outer_end then some (inner_body, inner_size) else none))
    else none)

-- The body of the outer data: the QE report, its signature, and the QE's auth data.
unfoldable pub locate_auth : Bytes → ℕ → ℕ → Option (ℕ × ℕ)
locate_auth q outer_body outer_end =
    let p = outer_body + qe_report_size + qe_report_sig in
    nothing_if (ltb outer_end (p + 2)) (
      let auth_size = rd_u16le q p in
      nothing_if (ltb (outer_end - (p + 2)) auth_size)
        (locate_inner q (p + 2 + auth_size) outer_end))

unfoldable pub locate_pck_region : Bytes → ℕ → ℕ → Option (ℕ × ℕ)
locate_pck_region q sd sdl = nothing_if (ltb (length q) sd || ltb (length q - sd) sdl) (
    let sd_end = sd + sdl in
    let outer_hdr = sd + sig_pubkey_size in
    nothing_if (ltb sd_end (outer_hdr + cert_hdr_size)) (
      let outer_size = rd_u32le q (outer_hdr + 2) in
      let outer_body = outer_hdr + cert_hdr_size in
      if rd_u16le q outer_hdr == cert_type_qe_report
      then (nothing_if (ltb (sd_end - outer_body) outer_size) (
          if outer_body + outer_size == sd_end
          then locate_auth q outer_body (outer_body + outer_size)
          else none))
      else none))

-- The end of both branches on the version: the length at `len_off`, and the test of the structure.
unfoldable pub sig_data_at : Bytes → ℕ → String → String → Result (ℕ × ℕ)
sig_data_at q len_off short bad = do
  need q len_off 4 short
  let sdl = rd_u32le q len_off
  let sd = len_off + 4
  elim (locate_pck_region q sd sdl) [ none ↦ throw bad | some r ↦ ok (sd, sdl) ]

unfoldable pub locate_sig_data : Bytes → Result (ℕ × ℕ)
locate_sig_data q = do
  need q 0 header_size "TD quote too short while reading quote header"
  let version = rd_u16le q 0
  let tee_type = rd_u32le q 4
  throw_if (if tee_type == 0x81 then false else true) "TD quote has unexpected tee_type"
  if version == 4
      then sig_data_at q (header_size + td_report_body_v4)
          "TD quote too short while reading v4 sig_len"
          "v4 TD quote signature_data structure is not as expected"
      else if version == 5
      then (do
        need q header_size cert_hdr_size "TD quote too short while reading v5 body descriptor"
        let body_size = rd_u32le q (header_size + 2)
        sig_data_at q (header_size + cert_hdr_size + body_size)
            "TD quote too short while reading v5 sig_len"
            "v5 TD quote signature_data structure is not as expected")
      else throw "unsupported TD quote version"
