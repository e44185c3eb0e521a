-- ===== src/Vocab/Tests.antt =====
-- Vocabularies followed by hand. Texts are spelled by bytes: "a" is 97, "b" is 98.
use ctranslate.Prelude.{
  ℕ, ◌≤◌, true, Text, none, some, List, [], ◌∷◌, ◌++◌, length, ok, ◌>>=◌, ◌≡◌, refl, arith,
}
use ctranslate.Vocab.Defs.{
  at, size, marked, default_info, Vocabulary, new_vocabulary, to_id, to_tokens, to_ids, to_ids_of,
  find, emplace, add_token, add_tokens, contains, with_unk,
}
use ctranslate.Vocab.Lookup.{IsWellFormed, new_vocabulary-IsWellFormed}
use ctranslate.Vocab.Batches.{to_tokens-to_ids, to_ids_of-eos}
use ctranslate.Vocab.Files.{pop_back, back}
use ctranslate.Vocab.Map.{
  VocabularyMap, insert, insert_all, rule, stripped, read_char, read_chars, read_last, read_line,
  assign, add_rule, read_rules, new_vocabulary_map, get_candidates,
}
use ctranslate.Vocab.Candidates.{is_in, is_in-get_candidates}

abbrev a : Text
a = 97 ∷ []

abbrev b : Text
b = 98 ∷ []

-- "a", "b", "a" again, and EOS, with no unknown token.
abbrev letters : List Text
letters = a ∷ b ∷ a ∷ default_info.eos_token ∷ []

abbrev small : Vocabulary
small = new_vocabulary letters default_info

small-IsWellFormed : IsWellFormed small
small-IsWellFormed = new_vocabulary-IsWellFormed letters default_info

new_vocabulary-IsWellFormed_example : IsWellFormed (new_vocabulary (a ∷ b ∷ []) default_info)
new_vocabulary-IsWellFormed_example = new_vocabulary-IsWellFormed (a ∷ b ∷ []) default_info

to_tokens-to_ids_example :
    (to_ids small 0 none (some default_info.eos_token) true ((a ∷ b ∷ []) ∷ []) >>= to_tokens small)
    ≡ ok ((a ∷ b ∷ default_info.eos_token ∷ []) ∷ [])
unfolding contains find new_vocabulary with_unk add_tokens add_token emplace marked
to_tokens-to_ids_example =
    to_tokens-to_ids small-IsWellFormed none (some default_info.eos_token) ((a ∷ b ∷ []) ∷ [])

to_ids_of-eos_example :
    (ids : List ℕ) × (e : ℕ) × (to_ids_of small 2 none (some small.info.eos_token) true (a ∷ b ∷ [])
      ≡ ok (ids ++ e ∷ []))
    × (to_id small small.info.eos_token true ≡ ok e)
    × (length (ids ++ e ∷ []) ≤ 2)
to_ids_of-eos_example = to_ids_of-eos small-IsWellFormed 2 none (a ∷ b ∷ []) (omega arith)

-- One rule: "a" may be "b" or "a".
abbrev rules : List Text
rules = (97 ∷ 9 ∷ 98 ∷ 32 ∷ 97 ∷ 13 ∷ []) ∷ []

abbrev small_map : VocabularyMap
small_map = record {
  vocabulary_size = 5;
  map_rules = ((a, 1 ∷ 0 ∷ []) ∷ []) ∷ [];
  fixed_candidates = 3 ∷ 4 ∷ [];
}

small_map-read : new_vocabulary_map small rules ≡ ok (some small_map)
unfolding new_vocabulary_map size contains find new_vocabulary with_unk add_tokens add_token emplace
    insert insert_all rule stripped read_char read_chars read_last read_line assign add_rule
    read_rules to_id at back pop_back
small_map-read = refl

is_in-get_candidates_example :
    is_in 1 (get_candidates small_map ((a ∷ []) ∷ []) ((2 ∷ []) ∷ [])) ≡ true
unfolding rule
is_in-get_candidates_example = is_in-get_candidates 1 small_map ((a ∷ []) ∷ []) ((2 ∷ []) ∷ [])
