-- ===== src/Constraints/Processors.antt =====
-- The logits processors of src/decoding_utils.cc, but for the repetition penalty.
use ctranslate.Prelude.{
  ℕ, zero, suc, ◌+◌, ◌-◌, ◌/◌, ltb, ◌==◌, Bool, true, false, not, ◌&&◌, Option, none, some, List,
  [], ◌∷◌, length, take, drop, get_or, text_eq, if◌then◌else◌, Run, done, timeout, and_then,
}
use ctranslate.Vocab.Map.{insert}
use ctranslate.Constraints.Defs.{DisableTokens, add_each, add_all}

abbrev pub begins : List ℕ → List ℕ → Bool
begins [] ys = true
begins (x ∷ xs) [] = false
begins (x ∷ xs) (y ∷ ys) = (x == y) && begins xs ys

-- std::search: how far the first occurrence is, or the end of the range.
abbrev pub search_for : List ℕ → List ℕ → ℕ
search_for pattern [] = 0
search_for pattern (y ∷ ys) = if begins pattern (y ∷ ys) then 0 else suc (search_for pattern ys)

-- The loop of NoRepeatNgram::apply on a row, from `begin` on. A round moves `begin` by one at least.
unfoldable pub ngram_rounds : ℕ → ℕ → List ℕ → List ℕ → List ℕ → Run (List ℕ)
ngram_rounds zero n current from found = timeout
ngram_rounds (suc rounds) n current from found =
    let at = drop (search_for current from) from in
    elim (ltb (length at) n) [
      | true ↦ done found
      | false ↦ ngram_rounds rounds n current (drop 1 at) (insert (get_or at (n - 1) 0) found)
    ]

unfoldable pub ngram_final_tokens : ℕ → List ℕ → Run (List ℕ)
unfolding ngram_rounds
ngram_final_tokens n row =
    if ltb (length row) n
    then done []
    else ngram_rounds (suc (length row)) n (drop (length row + 1 - n) row) row []

-- All rows have one length in the source, which tests it once.
unfoldable pub apply_no_repeat_ngram :
    {A : Type 0} → ℕ → ℕ → List (List ℕ) → DisableTokens A → Run (DisableTokens A)
unfolding ngram_final_tokens add_each
apply_no_repeat_ngram n batch_id [] d = done d
apply_no_repeat_ngram n batch_id (row ∷ rows) d =
    and_then (ngram_final_tokens n row)
      λ tokens. apply_no_repeat_ngram n (suc batch_id) rows (add_each batch_id tokens d)

pub record SuppressSequences : Type 0 where
  pub ids : List ℕ
  pub sequences : List (List ℕ)

-- The constructor.
unfoldable pub new_suppress_sequences : List (List ℕ) → SuppressSequences
new_suppress_sequences [] = record { ids = []; sequences = [] }
new_suppress_sequences ([] ∷ sequences) = new_suppress_sequences sequences
new_suppress_sequences ((x ∷ []) ∷ sequences) =
    let s = new_suppress_sequences sequences in record s { ids = x ∷ s.ids }
new_suppress_sequences ((x ∷ y ∷ xs) ∷ sequences) =
    let s = new_suppress_sequences sequences in record s { sequences = (x ∷ y ∷ xs) ∷ s.sequences }

abbrev pub back : List ℕ → ℕ
back xs = get_or xs (length xs - 1) 0

unfoldable pub disable_last : List ℕ → List ℕ → Bool
disable_last row banned =
    let compare_length = length banned - 1 in
    not (ltb (length row) compare_length)
    && text_eq (drop (length row - compare_length) row) (take compare_length banned)

-- The tokens that the loop over the banned sequences disables for a row.
unfoldable pub banned_tokens : List ℕ → List (List ℕ) → List ℕ
unfolding disable_last
banned_tokens row [] = []
banned_tokens row (banned ∷ sequences) =
    let rest = banned_tokens row sequences in
    if disable_last row banned then back banned ∷ rest else rest

unfoldable pub suppress_rows :
    {A : Type 0} → List (List ℕ) → ℕ → List (List ℕ) → DisableTokens A → DisableTokens A
unfolding banned_tokens add_each
suppress_rows sequences batch_id [] d = d
suppress_rows sequences batch_id (row ∷ rows) d =
    suppress_rows sequences (suc batch_id) rows (add_each batch_id (banned_tokens row sequences) d)

-- SuppressTokens::apply.
unfoldable pub apply_suppress_tokens : {A : Type 0} → List ℕ → DisableTokens A → DisableTokens A
unfolding add_all
apply_suppress_tokens [] d = d
apply_suppress_tokens (t ∷ ids) d = apply_suppress_tokens ids (add_all t d)

-- No rows are an empty storage.
unfoldable pub apply_suppress_sequences :
    {A : Type 0} → SuppressSequences → List (List ℕ) → DisableTokens A → DisableTokens A
unfolding apply_suppress_tokens suppress_rows
apply_suppress_sequences s rows d = suppress_rows s.sequences 0 rows (apply_suppress_tokens s.ids d)

unfoldable pub get_batch_index : ℕ → ℕ → List ℕ → ℕ
get_batch_index batch_size batch_id batch_offset =
    get_or batch_offset (batch_id / (batch_size / length batch_offset)) 0

unfoldable pub get_sample_begin : ℕ → ℕ → List ℕ → Option (List (List ℕ)) → ℕ
unfolding get_batch_index
get_sample_begin batch_size batch_id batch_offset none = 0
get_sample_begin batch_size batch_id batch_offset (some prefix) =
    length (get_or prefix (get_batch_index batch_size batch_id batch_offset) [])

-- SuppressTokensBegin::apply on the rows that are left.
unfoldable pub suppress_begin :
    {A : Type 0}
    → List ℕ
    → ℕ
    → ℕ
    → ℕ
    → List ℕ
    → Option (List (List ℕ))
    → DisableTokens A
    → DisableTokens A
unfolding get_sample_begin add_each
suppress_begin ids step zero batch_id batch_offset prefix d = d
suppress_begin ids step (suc rows) batch_id batch_offset prefix d =
    suppress_begin ids step rows (suc batch_id) batch_offset prefix (
      if step == get_sample_begin d.batch_size batch_id batch_offset prefix
      then add_each batch_id ids d
      else d)
