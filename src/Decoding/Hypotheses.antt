-- ===== src/Decoding/Hypotheses.antt =====
-- GreedySearch::search for several hypotheses: the batch is repeated, and the results are merged.
use ctranslate.Prelude.{
  ℕ, suc, ◌/◌, ◌%◌, ltb, true, Option, none, some, List, [], ◌∷◌, ◌++◌, length, get_or, set, map,
  replicate, if◌then◌else◌,
}
use ctranslate.Decoding.Defs.{Engine, SearchOptions, DecodingResult, sort_hypotheses}
use ctranslate.Decoding.Greedy.{no_result, greedy_search}

-- repeat_vector of include/ctranslate2/utils.h.
unfoldable pub repeat_vector : {A : Type 0} → List A → ℕ → List A
repeat_vector [] repeats = []
repeat_vector (e ∷ v) repeats = replicate repeats e ++ repeat_vector v repeats

-- The search with `hypothesis_callback`.
abbrev pub with_hypotheses : Engine → ℕ → Engine
with_hypotheses E n = record E {
  callback = λ step batch_id hypothesis_id word_id score over.
      E.callback step (batch_id / n) (batch_id % n) word_id score over;
}

-- The arguments of the inner search.
abbrev pub repeated : SearchOptions → ℕ → SearchOptions
repeated o n = record o {
  return_scores = true;
  prefix_ids = elim o.prefix_ids as (λ _. Option (List (List ℕ))) [
    | none ↦ none
    | some prefixes ↦ some (repeat_vector prefixes n)
  ];
}

module _ (E : Engine) (n : ℕ) where
  -- The hypothesis of a result behind those of the final result.
  unfoldable pub append_result :
      SearchOptions → DecodingResult (with_hypotheses E n) → DecodingResult E → DecodingResult E
  append_result o result final = record {
    hypotheses = final.hypotheses ++ get_or result.hypotheses 0 [] ∷ [];
    scores = final.scores ++ get_or result.scores 0 E.zero_score ∷ [];
    attention =
        if o.return_attention
        then final.attention ++ get_or result.attention 0 [] ∷ []
        else final.attention;
  }

  -- The loop over the results, from `i` on.
  unfoldable pub merge_results :
      SearchOptions
      → ℕ
      → List (DecodingResult (with_hypotheses E n))
      → List (DecodingResult E)
      → List (DecodingResult E)
  unfolding append_result
  merge_results o i [] finals = finals
  merge_results o i (r ∷ results) finals =
      merge_results o (suc i) results
        (set finals (i / n) (append_result o r (get_or finals (i / n) (no_result E))))

  unfoldable pub greedy_hypotheses : SearchOptions → List ℕ → E.State → List (DecodingResult E)
  unfolding merge_results repeat_vector
  greedy_hypotheses o start_ids state =
      let results =
        greedy_search (with_hypotheses E n) (repeated o n) (repeat_vector start_ids n)
          (E.repeat_batch n state) in
      map (sort_hypotheses E n o.return_scores o.return_attention)
        (merge_results o 0 results (replicate (length start_ids) (no_result E)))

  -- The whole of GreedySearch::search.
  unfoldable pub search : SearchOptions → List ℕ → E.State → List (DecodingResult E)
  unfolding greedy_hypotheses
  search o start_ids state =
      if ltb 1 n then greedy_hypotheses o start_ids state else greedy_search E o start_ids state
