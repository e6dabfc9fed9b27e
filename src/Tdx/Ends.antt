-- ===== src/Tdx/Ends.antt =====
-- provision/tdx/tdx_provision.cpp: its results are never out of fuel.
use tee_anchor.Prelude.{ℕ, Bytes, String}
use tee_anchor.Prelude.Endings.{Stops, Stops-ok, Stops-throw, Stops-bind, Stops-option, stops_rules}
use tee_anchor.OpenSsl.{OpenSsl}
use tee_anchor.Quote.Reads.{ReadsOn}
use tee_anchor.Sgx.Ends.{need-Stops, read_chain-Stops}
use tee_anchor.Tdx.Layout.{sig_data_at, locate_sig_data, locate_pck_region}
use tee_anchor.Tdx.{locate_region, extract_pck_chain_from_quote}

sig_data_at-Stops :
    (q : Bytes) (len_off : ℕ) (short bad : String) → Stops (sig_data_at q len_off short bad)
unfolding sig_data_at
sig_data_at-Stops q len_off short bad =
    Stops-bind _ _ (need-Stops q len_off 4 short)
      λ _. Stops-option (locate_pck_region q _ _) _ _ (Stops-throw bad) (λ r. Stops-ok _)

locate_sig_data-Stops : (q : Bytes) → Stops (locate_sig_data q)
unfolding locate_sig_data
locate_sig_data-Stops q = search (stops_rules, need-Stops, sig_data_at-Stops) depth 8

locate_region-Stops : (q : Bytes) → Stops (locate_region q)
unfolding locate_region
locate_region-Stops q = search (stops_rules, locate_sig_data-Stops)

module _ (ssl : OpenSsl) (reads_on : ReadsOn ssl) where
  pub extract_pck_chain_from_quote-Stops :
      (quote : Bytes) → Stops (extract_pck_chain_from_quote ssl quote)
  unfolding extract_pck_chain_from_quote
  extract_pck_chain_from_quote-Stops quote =
      search (stops_rules, locate_region-Stops, read_chain-Stops)
