-- ===== src/Decoding/Defs.antt =====
-- What the searches of src/decoding.cc share: the objects that they are called with, their options,
-- their results, and the tests on the step.
use ctranslate.Prelude.{
  ℕ, ◌+◌, ltb, ◌==◌, max, Bool, false, ◌&&◌, ◌||◌, Option, none, some, List, [], ◌∷◌, length,
  get_or, set, take, iota, if◌then◌else◌,
}
use ctranslate.Batching.Rebatch.{index_vector}

-- The objects behind virtual calls: layers::Decoder with its state, the LogitsProcessor list, the
-- Sampler and the callback; and the arithmetic of floats. `Score` is a float and `Attention` a vector
-- of attention weights.
pub record Engine : Type 1 where
  pub Score : Type 0
  pub Attention : Type 0
  pub State : Type 0
  -- `decoder(step, ids, state, &logits, &attention)`.
  pub forward : ℕ → List ℕ → State → List (List Score) × List Attention × State
  -- `decoder.update_state(state, alive)`.
  pub update_state : State → List ℕ → State
  -- repeat_batch on each value of the state.
  pub repeat_batch : ℕ → State → State
  -- `decoder.to_original_word_id`, or the identity when the output layer is not updated.
  pub to_original_word_id : ℕ → ℕ
  -- The logits processors, one after the other, on a step, the sequences, the batch offsets and the logits.
  pub process : ℕ → List (List ℕ) → List ℕ → List (List Score) → List (List Score)
  -- ops::LogSoftMax on one row.
  pub log_softmax : List Score → List Score
  -- The sampler, with one sample for each row. `State` has the state of the random generator too,
  -- from which RandomSampler draws.
  pub sample : List (List Score) → State → List (ℕ × Score) × State
  -- The callback, on step, batch, hypothesis, token, score and `is_last`, taken as a function of these;
  -- constantly false when there is none.
  pub callback : ℕ → ℕ → ℕ → ℕ → Option Score → Bool → Bool
  -- 0, -1e10, and std::numeric_limits<float>::lowest().
  pub zero_score : Score
  pub low_score : Score
  pub lowest : Score
  pub add_score : Score → Score → Score
  -- `finalize_hypothesis_score`, for the penalties of the search, where it does not throw.
  pub final_score : Score → ℕ → List Attention → Score
  -- std::sort by a comparison.
  pub sort : (ℕ → ℕ → Bool) → List ℕ → List ℕ
  pub greater : Score → Score → Bool

-- The arguments of GreedySearch::search, with what the search asks of its penalties.
pub record SearchOptions : Type 0 where
  pub end_ids : List ℕ
  pub start_step : ℕ
  pub max_length : ℕ
  pub min_length : ℕ
  pub return_scores : Bool
  pub return_attention : Bool
  pub return_prefix : Bool
  pub include_eos_in_hypotheses : Bool
  -- `coverage_penalty != 0`.
  pub has_coverage : Bool
  -- `!logits_processors.empty()`.
  pub has_processors : Bool
  -- A null pointer is `none`.
  pub prefix_ids : Option (List (List ℕ))

unfoldable pub is_eos : ℕ → List ℕ → Bool
is_eos id [] = false
is_eos id (e ∷ es) = (e == id) || is_eos id es

-- `prefix_ids->at(batch_id)`, or no prefix.
unfoldable pub prefix_of : SearchOptions → ℕ → List ℕ
prefix_of o b = elim o.prefix_ids [ none ↦ [] | some prefixes ↦ get_or prefixes b [] ]

-- The loop of get_max_step over the prefixes.
unfoldable pub longest : ℕ → List (List ℕ) → ℕ → ℕ
longest max_length [] max_step = max_step
longest max_length (p ∷ ps) max_step = longest max_length ps (max max_step (length p + max_length))

unfoldable pub get_max_step : ℕ → Bool → Option (List (List ℕ)) → ℕ
unfolding longest
get_max_step max_length return_prefix none = max_length
get_max_step max_length return_prefix (some prefixes) =
    if return_prefix then max_length else longest max_length prefixes 0

unfoldable pub is_last_step : ℕ → ℕ → ℕ → Bool → Bool
is_last_step step max_length prefix_length return_prefix =
    step + 1 == max_length + (if return_prefix then 0 else prefix_length)

module _ (E : Engine) where
  open E use {Score, Attention, zero_score, low_score, lowest, final_score, sort, greater}

  pub record DecodingResult : Type 0 where
    pub hypotheses : List (List ℕ)
    pub scores : List Score
    pub attention : List (List Attention)

  -- DisableTokens::add on a row of the logits. On the CPU the value is written at once.
  unfoldable pub disable : List ℕ → List Score → List Score
  disable [] row = row
  disable (id ∷ ids) row = disable ids (set row id lowest)

  -- The test of apply_min_length for one row.
  unfoldable pub is_too_short : SearchOptions → ℕ → ℕ → Bool
  unfolding prefix_of
  is_too_short o step b = elim o.prefix_ids [
    | none ↦ ltb step o.min_length
    | some prefixes ↦
        if o.return_prefix
        then ltb step o.min_length
        else ltb step (length (prefix_of o b) + o.min_length)
  ]

  unfoldable pub apply_min_length :
      SearchOptions → ℕ → List ℕ → List (List Score) → List (List Score)
  unfolding disable is_too_short
  apply_min_length o step (b ∷ offset) (row ∷ rows) =
      (if is_too_short o step b then disable o.end_ids row else row)
      ∷ apply_min_length o step offset rows
  apply_min_length o step [] rows = rows
  apply_min_length o step (b ∷ offset) [] = []

  -- The body of update_sample_with_prefix for the sample `k` of a row.
  unfoldable pub override : ℕ → List ℕ → List ℕ → ℕ → ℕ × Score → ℕ × Score
  unfolding is_eos
  override step prefix end_ids k (id, score) =
      if ltb step (length prefix)
      then (get_or prefix step 0, (if k == 0 then zero_score else low_score))
      else if (step == length prefix) && (ltb 0 k && is_eos id end_ids)
      then (0, low_score)
      else (id, score)

  -- update_sample_with_prefix with one sample for each row.
  unfoldable pub update_sample_with_prefix :
      SearchOptions → ℕ → List ℕ → List (ℕ × Score) → List (ℕ × Score)
  unfolding override prefix_of
  update_sample_with_prefix o step (b ∷ offset) (s ∷ samples) =
      (elim o.prefix_ids as (λ _. ℕ × Score) [
        | none ↦ s
        | some prefixes ↦ override step (get_or prefixes b []) o.end_ids 0 s
      ])
      ∷ update_sample_with_prefix o step offset samples
  update_sample_with_prefix o step [] samples = samples
  update_sample_with_prefix o step (b ∷ offset) [] = []

  -- The loop of finalize_result over the scores.
  unfoldable pub final_scores : List Score → List (List ℕ) → List (List Attention) → List Score
  final_scores [] hypotheses attention = []
  final_scores (s ∷ scores) hypotheses attention =
      final_score s (length (get_or hypotheses 0 [])) (get_or attention 0 [])
      ∷ final_scores scores (elim hypotheses [ [] ↦ [] | h ∷ hs ↦ hs ])
          (elim attention [ [] ↦ [] | a ∷ as' ↦ as' ])

  unfoldable pub sort_hypotheses : ℕ → Bool → Bool → DecodingResult → DecodingResult
  unfolding index_vector
  sort_hypotheses max_hypotheses keep_scores keep_attention r =
      let idx = take max_hypotheses (
        sort (λ i j. greater (get_or r.scores i zero_score) (get_or r.scores j zero_score))
          (iota 0 (length r.hypotheses))) in
      record {
        hypotheses = index_vector [] r.hypotheses idx;
        scores = if keep_scores then index_vector zero_score r.scores idx else [];
        attention = if keep_attention then index_vector [] r.attention idx else [];
      }

  unfoldable pub finalize_result : ℕ → Bool → Bool → DecodingResult → DecodingResult
  unfolding final_scores sort_hypotheses
  finalize_result max_hypotheses keep_scores keep_attention r =
      sort_hypotheses max_hypotheses keep_scores keep_attention
        (record r { scores = final_scores r.scores r.hypotheses r.attention })
