-- ===== src/Cli/Emitter.antt =====
-- src/bin/proxybroker.rs: the `Emitter`, and what `write_stream` writes.
use proxybroker_rs.Cli.Arguments.{Format, csv, default_format, json, json_array, txt, url}
use proxybroker_rs.Cli.Rendering.{Printing, addr_text, csv_row, render_template, scheme_str}
use proxybroker_rs.Float.{Float, nat_float}
use proxybroker_rs.Prelude.{
  Bool, List, Option, [], false, if◌then◌else◌, is_some, none, some, true, ◌++◌, ◌∷◌,
}
use proxybroker_rs.Proxy.Record.{Proxy}
use proxybroker_rs.Scheduler.Rechecker.{value_or}
use proxybroker_rs.Server.Requests.{IpText, frontend_eq}
use proxybroker_rs.Text.{Text, text}

pub record Emitter : Type 0 where
  pub format : Format
  pub template : Option Text
  pub started : Bool

abbrev pub new_emitter : Format → Option Text → Emitter
new_emitter format template = record { format = format; template = template; started = false }

abbrev pub csv_header : Text
csv_header = text "host,port,protocols,anon,country,resp_time,error_rate\n"

abbrev pub prefix_of : Format → Option Text
prefix_of json_array = some (text "[")
prefix_of csv = some csv_header
prefix_of _ = none

abbrev pub suffix_of : Format → Option Text
suffix_of json_array = some (text "]\n")
suffix_of _ = none

unfoldable pub prefix : Emitter → Option Text
prefix e = if is_some e.template then none else prefix_of e.format

unfoldable pub suffix : Emitter → Option Text
suffix e = if is_some e.template then none else suffix_of e.format

abbrev pub line : Text → Text
line s = s ++ text "\n"

module _ {F : Type 0} ⦃f : Float F⦄ ⦃t : IpText⦄ ⦃r : Printing F⦄ where
  abbrev pub formatted : Emitter → Proxy F → Format → Text × Emitter
  formatted e p default_format = (line (addr_text p), e)
  formatted e p txt = (line (addr_text p), e)
  formatted e p json = (line (r.to_json p), e)
  formatted e p url = (line (scheme_str p ++ text "://" ++ addr_text p), e)
  formatted e p csv = (line (csv_row p), e)
  formatted e p json_array =
      ((if e.started then text "," else []) ++ r.to_json p, record e { started = true })

  abbrev pub templated : Emitter → Proxy F → Option Text → Text × Emitter
  templated e p (some tmpl) = (line (render_template tmpl p), e)
  templated e p none = formatted e p e.format

  unfoldable pub item : Emitter → Proxy F → Text × Emitter
  unfolding render_template addr_text scheme_str csv_row
  item e p = templated e p e.template

  unfoldable pub items : Emitter → List (Proxy F) → Text
  unfolding item
  items e [] = []
  items e (p ∷ ps) = (item e p).0 ++ items (item e p).1 ps

  -- The bytes that `write_stream` writes to its sink for the proxies of a stream.
  unfoldable pub written : Format → Option Text → List (Proxy F) → Text
  unfolding prefix suffix items
  written format template ps =
      let e = new_emitter format template in
      value_or [] (prefix e) ++ items e ps ++ value_or [] (suffix e)
