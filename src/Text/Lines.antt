-- ===== src/Text/Lines.antt =====
-- Lines and words.
use proxybroker_rs.Prelude.{List, [], if◌then◌else◌, none, some, ◌++◌, ◌∷◌}
use proxybroker_rs.Prelude.Equality.{list_eq, nat_eq, ◌==◌}
use proxybroker_rs.Text.Base.{Text, is_space, strip_suffix}

-- A line that a newline ended loses one carriage return.
unfoldable pub chomp : Text → Text
unfolding strip_suffix
chomp line = elim (strip_suffix (13 ∷ []) line) [ none ↦ line | some l ↦ l ]

unfoldable pub lines_from : Text → Text → List Text
unfolding chomp
lines_from [] [] = []
lines_from (c ∷ cur) [] = (c ∷ cur) ∷ []
lines_from cur (c ∷ s) =
    let ended = chomp cur ∷ lines_from [] s in
    let longer = lines_from (cur ++ c ∷ []) s in if c == 10 then ended else longer

-- `lines`.
unfoldable pub lines : Text → List Text
unfolding lines_from
lines s = lines_from [] s

abbrev flush : Text → List Text → List Text
flush [] ws = ws
flush (c ∷ w) ws = (c ∷ w) ∷ ws

unfoldable pub words_from : Text → Text → List Text
words_from cur [] = flush cur []
words_from cur (c ∷ s) =
    let ended = flush cur (words_from [] s) in
    let longer = words_from (cur ++ c ∷ []) s in if is_space c then ended else longer

-- `split_whitespace`.
unfoldable pub words : Text → List Text
unfolding words_from
words s = words_from [] s
