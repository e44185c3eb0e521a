-- ===== src/Utils/Strings.antt =====
-- The functions on texts of src/utils.cc.
use mathlib.Core.Option
use ctranslate.Prelude.{
  ℕ, zero, suc, ◌+◌, ◌-◌, ltb, leb, Bool, true, false, ◌&&◌, Text, text_eq, Option, none, some,
  List, [], ◌∷◌, ◌++◌, length, take, drop, is_nil, if◌then◌else◌, Run, done, timeout, and_then,
}

unfoldable pub ends_with : Text → Text → Bool
ends_with str suffix =
    leb (length suffix) (length str) && text_eq (drop (length str - length suffix) str) suffix

unfoldable pub starts_with : Text → Text → Bool
starts_with str prefix =
    leb (length prefix) (length str) && text_eq (take (length prefix) str) prefix

-- std::string::find, from the start of the text that is left.
unfoldable pub find_text : Text → Text → Option ℕ
find_text delimiter [] = if is_nil delimiter then some 0 else none
find_text delimiter (c ∷ str) =
    if text_eq (take (length delimiter) (c ∷ str)) delimiter
    then some 0
    else Option.map suc (find_text delimiter str)

-- `pos - offset`, with `npos` taken for the end.
unfoldable pub part_length : Text → Text → ℕ
unfolding find_text
part_length delimiter str = elim (find_text delimiter str) [ some pos ↦ pos | none ↦ length str ]

-- The loop, by the text from `offset` on and on fuel: a round takes one character at least, unless
-- the delimiter is empty.
unfoldable pub split_rounds : ℕ → Text → Text → Run (List Text)
unfolding part_length
split_rounds zero delimiter str = timeout
split_rounds (suc rounds) delimiter str = elim (is_nil str) [
  | true ↦ done []
  | false ↦
      let n = part_length delimiter str in
      and_then (split_rounds rounds delimiter (drop (n + length delimiter) str))
        λ parts. done (if ltb 0 n then take n str ∷ parts else parts)
]

unfoldable pub split_string : Text → Text → Run (List Text)
unfolding split_rounds
split_string str delimiter = split_rounds (length str + 1) delimiter str

-- The loop of join_string.
unfoldable pub join_onto : Text → List Text → Text → Text
join_onto text [] separator = text
join_onto text (t ∷ ts) separator =
    join_onto ((if is_nil text then text else text ++ separator) ++ t) ts separator

unfoldable pub join_string : List Text → Text → Text
unfolding join_onto
join_string tokens separator = join_onto [] tokens separator

unfoldable pub split_tokens : Text → Run (List Text)
unfolding split_string
split_tokens text = split_string text (32 ∷ [])

unfoldable pub join_tokens : List Text → Text
unfolding join_string
join_tokens tokens = join_string tokens (32 ∷ [])
