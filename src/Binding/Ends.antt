-- ===== src/Binding/Ends.antt =====
-- binding/chip_id_binding.cpp: its results are never out of fuel.
use tee_anchor.Prelude.{ℕ, Bytes, String}
use tee_anchor.Prelude.Endings.{Stops, Stops-ok, Stops-throw, Stops-if, Stops-option, stops_rules}
use tee_anchor.OpenSsl.{OpenSsl}
use tee_anchor.Pki.Ends.{pki_rules}
use tee_anchor.Binding.Der.{der_length, der_tlv}
use tee_anchor.Binding.{
  encode_chip_id_binding, make_chip_id_binding_extension, must_read, decode_fields,
  decode_chip_id_binding, extract_chip_id_binding,
}

der_tlv-Stops : (tag : ℕ) (val : Bytes) → Stops (der_tlv tag val)
unfolding der_tlv der_length
der_tlv-Stops tag val = search stops_rules

pub encode_chip_id_binding-Stops :
    (tee_type : ℕ) (chip_id now : Bytes) → Stops (encode_chip_id_binding tee_type chip_id now)
unfolding encode_chip_id_binding
encode_chip_id_binding-Stops tee_type chip_id now = search (stops_rules, der_tlv-Stops)

pub make_chip_id_binding_extension-Stops :
    (ssl : OpenSsl) (binding_der : Bytes) → Stops (make_chip_id_binding_extension ssl binding_der)
unfolding make_chip_id_binding_extension
make_chip_id_binding_extension-Stops ssl binding_der = search pki_rules depth 6

module _ (ssl : OpenSsl) where
  must_read-Stops : (p : Bytes) (tag : ℕ) (msg : String) → Stops (must_read ssl p tag msg)
  unfolding must_read
  must_read-Stops p tag msg =
      Stops-option (ssl.get_object p) _ _ (Stops-throw msg)
        (λ o. Stops-if _ _ _ (Stops-ok _) (Stops-throw msg))

  decode_fields-Stops : (p : Bytes) → Stops (decode_fields ssl p)
  unfolding decode_fields
  decode_fields-Stops p = search (stops_rules, must_read-Stops) depth 8

  decode_chip_id_binding-Stops : (der : Bytes) → Stops (decode_chip_id_binding ssl der)
  unfolding decode_chip_id_binding
  decode_chip_id_binding-Stops der = search (stops_rules, must_read-Stops, decode_fields-Stops)

  pub extract_chip_id_binding-Stops : (cert : ssl.Cert) → Stops (extract_chip_id_binding ssl cert)
  unfolding extract_chip_id_binding
  extract_chip_id_binding-Stops cert = search (pki_rules, decode_chip_id_binding-Stops) depth 7
