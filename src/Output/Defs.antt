-- ===== src/Output/Defs.antt =====
-- Decoder::update_output_layer and the two maps between the ids of the vocabulary and of the output.
use ctranslate.Prelude.{
  ℕ, suc, ◌+◌, ◌-◌, ◌%◌, ◌==◌, Bool, true, false, not, Option, none, some, List, [], ◌∷◌, ◌++◌,
  length, get_elem?, iota, replicate, is_nil, if◌then◌else◌, Result, ok, err, out_of_range,
}

-- `output_size` is the number of rows of the weights in use, of which the last `masked` ones are biased
-- so that they do not win; `layer_size` is the number of rows of the whole layer.
pub record OutputLayer : Type 0 where
  pub vocabulary_size : ℕ
  pub layer_size : ℕ
  pub output_size : ℕ
  pub masked : ℕ
  pub to_original : List ℕ
  pub to_output : List (ℕ × ℕ)

unfoldable pub find_id : ℕ → List (ℕ × ℕ) → Option ℕ
find_id k [] = none
find_id k ((k', i) ∷ m) = if k == k' then some i else find_id k m

-- An entry that is there stays.
unfoldable pub emplace_id : ℕ → ℕ → List (ℕ × ℕ) → List (ℕ × ℕ)
unfolding find_id
emplace_id k i m = elim (find_id k m) as (λ _. List (ℕ × ℕ)) [ some j ↦ m | none ↦ (k, i) ∷ m ]

-- The loop over the ids, from the position `i` on.
unfoldable pub emplace_ids : ℕ → List ℕ → List (ℕ × ℕ) → List (ℕ × ℕ)
unfolding emplace_id
emplace_ids i [] m = m
emplace_ids i (k ∷ ids) m = emplace_ids (suc i) ids (emplace_id k i m)

unfoldable pub padding_size : ℕ → ℕ → ℕ
padding_size size size_multiple =
    if size % size_multiple == 0 then 0 else size_multiple - size % size_multiple

-- The end of the update, with the ids before they are padded.
unfoldable pub select_ids : List ℕ → ℕ → OutputLayer → OutputLayer
unfolding emplace_ids
select_ids ids padding s =
    let padded = ids ++ replicate padding 0 in
    record s {
      output_size = length padded;
      masked = padding;
      to_original = padded;
      to_output = emplace_ids 0 padded s.to_output;
    }

-- The vocabulary's size is that of the layer at the first call.
unfoldable pub update_output_layer : ℕ → List ℕ → OutputLayer → OutputLayer
unfolding padding_size select_ids
update_output_layer size_multiple restrict_ids s =
    let size = if s.vocabulary_size == 0 then s.output_size else s.vocabulary_size in
    let s' = record s { vocabulary_size = size } in
    let wanted = if is_nil restrict_ids then size else length restrict_ids in
    let padding = padding_size wanted size_multiple in
    if is_nil restrict_ids
    then (if wanted + padding == s.output_size
        then s'
        else if padding == 0
        then record s' { output_size = s.layer_size; masked = 0; to_original = []; to_output = [] }
        else select_ids (iota 0 size) padding s')
    else select_ids restrict_ids padding s'

unfoldable pub output_layer_is_updated : OutputLayer → Bool
output_layer_is_updated s = not (is_nil s.to_original)

unfoldable pub is_in_output : OutputLayer → ℕ → Bool
unfolding find_id
is_in_output s word_id = elim (find_id word_id s.to_output) [ some i ↦ true | none ↦ false ]

unfoldable pub to_output_word_id : OutputLayer → ℕ → Result ℕ
unfolding find_id
to_output_word_id s original_id =
    if is_nil s.to_output
    then ok original_id
    else elim (find_id original_id s.to_output) as (λ _. Result ℕ) [
      | some i ↦ ok i
      | none ↦ err out_of_range
    ]

unfoldable pub to_original_word_id : OutputLayer → ℕ → Result ℕ
to_original_word_id s output_id =
    if is_nil s.to_original
    then ok output_id
    else elim (get_elem? s.to_original output_id) as (λ _. Result ℕ) [
      | some id ↦ ok id
      | none ↦ err out_of_range
    ]
