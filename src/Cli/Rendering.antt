-- ===== src/Cli/Rendering.antt =====
-- src/bin/proxybroker.rs: what a proxy is in the formats of the output; src/proxy.rs, `addr`.
use proxybroker_rs.Float.{Float, nat_float}
use proxybroker_rs.Maps.{tree_get, tree_has}
use proxybroker_rs.Net.{IpAddr, addr_eq, ip_eq}
use proxybroker_rs.Prelude.{
  List, Option, [], false, if◌then◌else◌, length, map, none, some, suc, true, zero, ℕ, ◌++◌, ◌-◌,
  ◌∷◌,
}
use proxybroker_rs.Proxy.Measures.{avg_resp_time, error_rate}
use proxybroker_rs.Proxy.Record.{Asn, Country, Proxy}
use proxybroker_rs.Scheduler.Rechecker.{value_or}
use proxybroker_rs.Server.Requests.{IpText, frontend_eq}
use proxybroker_rs.Text.{Text, starts_with, text}
use proxybroker_rs.Text.Decimal.{show}
use proxybroker_rs.Types.AnonLevel.{AnonLevel, level_eq, level_ranked, level_str}
use proxybroker_rs.Types.Proto.{Proto, as_str, proto_eq, proto_ranked}

-- How a library prints a number and serializes a proxy.
pub record Printing (F : Type 0) : Type 0 where
  pub show_float : F → Text
  pub to_json : Proxy F → Text

-- One pass of `str::replace`: what is still to be skipped, and the rest.
unfoldable pub replace_from : ℕ → Text → Text → Text → Text
unfolding starts_with
replace_from skip needle with' [] = []
replace_from (suc skip) needle with' (c ∷ s) = replace_from skip needle with' s
replace_from zero needle with' (c ∷ s) = elim (starts_with needle (c ∷ s)) [
  | true ↦ with' ++ replace_from (length needle - 1) needle with' s
  | false ↦ c ∷ replace_from zero needle with' s
]

unfoldable pub replace : Text → Text → Text → Text
unfolding replace_from
replace s needle with' = replace_from 0 needle with' s

unfoldable pub joined : Text → List Text → Text
joined sep [] = []
joined sep (s ∷ []) = s
joined sep (s ∷ t ∷ ss) = s ++ sep ++ joined sep (t ∷ ss)

abbrev pub addr_shown : Text → IpAddr → ℕ → Text
addr_shown shown (IpAddr.v4 n) port = shown ++ b':' ∷ show port
addr_shown shown (IpAddr.v6 n) port = b'[' ∷ shown ++ text "]:" ++ show port

abbrev pub anon_of : Option (Option AnonLevel) → Text
anon_of (some (some l)) = level_str l
anon_of _ = []

abbrev pub code_of : Option Country → Text
code_of none = []
code_of (some c) = c.code

abbrev pub number_of : Option Asn → Text
number_of none = []
number_of (some a) = show a.number

abbrev pub org_of : Option Asn → Text
org_of none = []
org_of (some a) = value_or [] a.org

unfoldable pub replace_each : Text → List (Text × Text) → Text
unfolding replace
replace_each s [] = s
replace_each s ((token, value) ∷ rest) = replace_each (replace s token value) rest

module _ {F : Type 0} where
  -- `Proxy::addr`.
  unfoldable pub addr_text : ⦃t : IpText⦄ → Proxy F → Text
  unfolding show
  addr_text ⦃t⦄ p = addr_shown (t.show_ip p.host) p.host p.port

  unfoldable pub scheme_str : Proxy F → Text
  unfolding tree_has
  scheme_str p =
      if tree_has Proto.socks5 p.types
      then text "socks5"
      else if tree_has Proto.socks4 p.types
      then text "socks4"
      else text "http"

  unfoldable pub proto_list : Proxy F → Text
  unfolding joined
  proto_list p = joined (text "|") (map (λ e. as_str e.0) p.types)

  unfoldable pub anon_str : Proxy F → Text
  unfolding tree_get
  anon_str p = anon_of (tree_get Proto.http p.types)

  abbrev pub country_str : Proxy F → Text
  country_str p = code_of p.geo

module _ {F : Type 0} ⦃f : Float F⦄ ⦃t : IpText⦄ ⦃r : Printing F⦄ where
  -- The tokens with what stands for them, in the order in which they are replaced.
  abbrev pub replacements : Proxy F → List (Text × Text)
  replacements p =
      (text "{{proxy}}", addr_text p)
      ∷ (text "{{host}}", t.show_ip p.host)
      ∷ (text "{{port}}", show p.port)
      ∷ (text "{{scheme}}", scheme_str p)
      ∷ (text "{{protocols}}", proto_list p)
      ∷ (text "{{anon}}", anon_str p)
      ∷ (text "{{country}}", country_str p)
      ∷ (text "{{asn}}", number_of p.asn)
      ∷ (text "{{asn_org}}", org_of p.asn)
      ∷ (text "{{duration}}", r.show_float (avg_resp_time p))
      ∷ (text "{{error_rate}}", r.show_float (error_rate p))
      ∷ []

  unfoldable pub render_template : Text → Proxy F → Text
  unfolding replace_each addr_text show scheme_str proto_list anon_str avg_resp_time error_rate
  render_template tmpl p = replace_each tmpl (replacements p)

  unfoldable pub csv_row : Proxy F → Text
  unfolding show proto_list anon_str avg_resp_time error_rate joined
  csv_row p = joined (text ",") (
      t.show_ip p.host
      ∷ show p.port
      ∷ proto_list p
      ∷ anon_str p
      ∷ country_str p
      ∷ r.show_float (avg_resp_time p)
      ∷ r.show_float (error_rate p)
      ∷ [])
