-- ===== src/Cli/Written.antt =====
-- What the output of src/bin/proxybroker.rs is as a whole.
use mathlib.Core.List.{append-nil, append_assoc}
use proxybroker_rs.Cli.Arguments.{Format, csv, default_format, json, json_array, txt, url}
use proxybroker_rs.Cli.Emitter.{
  Emitter, csv_header, item, items, line, new_emitter, prefix, suffix, written,
}
use proxybroker_rs.Cli.Rendering.{Printing, addr_text, csv_row, joined, render_template, scheme_str}
use proxybroker_rs.Float.{Float, nat_float}
use proxybroker_rs.Prelude.{
  Bool, List, Option, [], ap, false, map, none, refl, some, sym, true, ◌++◌, ◌∙◌, ◌∷◌, ◌≡◌,
}
use proxybroker_rs.Proxy.Record.{Proxy}
use proxybroker_rs.Server.Requests.{IpText, frontend_eq}
use proxybroker_rs.Text.{Text, text}

module _ {F : Type 0} where
  -- A line for each proxy.
  abbrev pub lines_of : (Proxy F → Text) → List (Proxy F) → Text
  lines_of g [] = []
  lines_of g (p ∷ ps) = line (g p) ++ lines_of g ps

abbrev array_emitter : Bool → Emitter
array_emitter one_out = record { format = json_array; template = none; started = one_out }

-- What follows the first element of an array.
abbrev after_comma : List Text → Text
after_comma [] = []
after_comma (s ∷ ss) = text "," ++ s ++ after_comma ss

joined-after_comma : (s : Text) (ss : List Text) → joined (text ",") (s ∷ ss) ≡ s ++ after_comma ss
unfolding joined
joined-after_comma s [] = sym (append-nil s)
joined-after_comma s (t ∷ ss) =
    append_assoc s (text ",") (joined (text ",") (t ∷ ss))
    ∙ ap (λ (r : Text). s ++ b',' ∷ r) (joined-after_comma t ss)

module _ {F : Type 0} ⦃f : Float F⦄ ⦃t : IpText⦄ ⦃r : Printing F⦄ where
  -- The whole output in each format, at once.
  abbrev pub expected : Format → Option Text → List (Proxy F) → Text
  expected format (some tmpl) ps = lines_of (render_template tmpl) ps
  expected default_format none ps = lines_of addr_text ps
  expected txt none ps = lines_of addr_text ps
  expected json none ps = lines_of r.to_json ps
  expected url none ps = lines_of (λ p. scheme_str p ++ text "://" ++ addr_text p) ps
  expected csv none ps = csv_header ++ lines_of csv_row ps
  expected json_array none ps = text "[" ++ joined (text ",") (map r.to_json ps) ++ text "]\n"

  items-lines_of :
      (e : Emitter) (g : Proxy F → Text) (ps : List (Proxy F))
      → ((p : Proxy F) → item e p ≡ (line (g p), e))
      → items e ps ≡ lines_of g ps
  unfolding items
  items-lines_of e g [] h = refl
  items-lines_of e g (p ∷ ps) h =
      rw (h p) (ap (λ (s : Text). line (g p) ++ s) (items-lines_of e g ps h))

  items-after_comma :
      (ps : List (Proxy F)) → items (array_emitter true) ps ≡ after_comma (map r.to_json ps)
  unfolding items item
  items-after_comma [] = refl
  items-after_comma (p ∷ ps) = ap (λ (s : Text). b',' ∷ r.to_json p ++ s) (items-after_comma ps)

  items-array :
      (ps : List (Proxy F)) → items (array_emitter false) ps ≡ joined (text ",") (map r.to_json ps)
  unfolding items item joined
  items-array [] = refl
  items-array (p ∷ ps) =
      ap (λ (s : Text). r.to_json p ++ s) (items-after_comma ps)
      ∙ sym (joined-after_comma (r.to_json p) (map r.to_json ps))

  no_frame :
      (e : Emitter) (g : Proxy F → Text) (ps : List (Proxy F))
      → ((p : Proxy F) → item e p ≡ (line (g p), e))
      → items e ps ++ [] ≡ lines_of g ps
  no_frame e g ps h = append-nil (items e ps) ∙ items-lines_of e g ps h

  -- The output is, for a template, a line for each proxy and nothing else, whatever the format; and
  -- without one, the lines of the format, the header once before those of CSV, or one JSON array with
  -- a comma between each two elements and none elsewhere, also for no proxy at all.
  pub written_lem :
      (format : Format) (template : Option Text) (ps : List (Proxy F))
      → written format template ps ≡ expected format template ps
  unfolding written prefix suffix item
  written_lem format (some tmpl) ps =
      no_frame (new_emitter format (some tmpl)) (render_template tmpl) ps (λ p. refl)
  written_lem default_format none ps =
      no_frame (new_emitter default_format none) addr_text ps (λ p. refl)
  written_lem txt none ps = no_frame (new_emitter txt none) addr_text ps (λ p. refl)
  written_lem json none ps = no_frame (new_emitter json none) r.to_json ps (λ p. refl)
  written_lem url none ps =
      no_frame (new_emitter url none) (λ p. scheme_str p ++ text "://" ++ addr_text p) ps
        (λ p. refl)
  written_lem csv none ps =
      ap (λ (s : Text). csv_header ++ s) (no_frame (new_emitter csv none) csv_row ps (λ p. refl))
  written_lem json_array none ps = ap (λ (s : Text). text "[" ++ s ++ text "]\n") (items-array ps)
