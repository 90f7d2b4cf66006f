-- ===== src/Tests/Printing.antt =====
-- The theorems on the command line and on a whole search at concrete inputs.
use proxybroker_rs.Broker.Sources.{Distinct}
use proxybroker_rs.Cli.Arguments.{json_array}
use proxybroker_rs.Cli.Emitter.{written}
use proxybroker_rs.Cli.Merged.{union_dedup, union_dedup_lem}
use proxybroker_rs.Cli.Rendering.{Printing}
use proxybroker_rs.Cli.Written.{expected, written_lem}
use proxybroker_rs.Errors.{error_eq}
use proxybroker_rs.Float.{nat_float}
use proxybroker_rs.Net.{Addr, addr_eq, ip_eq, memb}
use proxybroker_rs.Prelude.{[], map, none, take, ℕ, ◌||◌, ◌∷◌, ◌≡◌}
use proxybroker_rs.Proxy.Record.{addr_of}
use proxybroker_rs.Tests.Fixtures.{plain, shown, tunnel}
use proxybroker_rs.Text.{text}

instance abbrev printing : Printing ℕ
printing = record { show_float = λ x. text "0.5"; to_json = λ p. text "{}" }

written_lem_example :
    written json_array none (plain ∷ tunnel ∷ []) ≡ expected json_array none (plain ∷ tunnel ∷ [])
written_lem_example = written_lem json_array none (plain ∷ tunnel ∷ [])

union_dedup_lem_example :
    ((a : Addr)
      → memb a (map addr_of (union_dedup (plain ∷ []) (plain ∷ tunnel ∷ [])))
        ≡ (memb a (map addr_of (plain ∷ [])) || memb a (map addr_of (plain ∷ tunnel ∷ []))))
    × (take 1 (union_dedup (plain ∷ []) (plain ∷ tunnel ∷ [])) ≡ plain ∷ [])
    × (Distinct (map addr_of (plain ∷ []))
        → Distinct (map addr_of (plain ∷ tunnel ∷ []))
        → Distinct (map addr_of (union_dedup (plain ∷ []) (plain ∷ tunnel ∷ []))))
union_dedup_lem_example = union_dedup_lem (plain ∷ []) (plain ∷ tunnel ∷ [])
