-- ===== src/Decoding/ResultCount.antt =====
-- A search has a result for each row.
use ctranslate.Prelude.{
  ℕ, zero, suc, ◌==◌, Bool, true, false, Bool-cases, not, List, length, map, if◌then◌else◌, ◌≡◌,
  refl, ap, ◌∙◌, inl, inr, length-replicate,
}
use ctranslate.Decoding.Defs.{Engine, SearchOptions, DecodingResult}
use ctranslate.Decoding.Greedy.{
  Search, positions, items, update_results, next_inputs, append_tokens, is_finished, keep_alive,
  close_step, decode_step, search_rounds, new_result, greedy_search,
}
use ctranslate.Decoding.Batch.{length-update_results}

module _ (E : Engine) (o : SearchOptions) where
  keep_alive-results :
      (alive : List ℕ) (m : ℕ) (s : Search E) → (keep_alive E alive m s).results ≡ s.results
  unfolding keep_alive
  keep_alive-results alive m s = elim (Bool-cases (length alive == m)) [
    | inl c ↦ rw c refl
    | inr c ↦ rw c refl
  ]

  length-close_step :
      (step : ℕ) (s : Search E) (d : List (ℕ × E.Score) × List E.Attention × E.State)
      → length (close_step E o step s d).0.results ≡ length s.results
  unfolding close_step
  length-close_step step s d =
      let ts = items E s.batch_offset d.0 d.1 in
      ap length (
        keep_alive-results (positions 0 (map (λ t. not (is_finished E o step t)) ts)) (length ts)
          (record {
            sample_from = next_inputs E o step ts s.sample_from;
            batch_offset = s.batch_offset;
            alive_seq = if o.has_processors then append_tokens E s.alive_seq d.0 else s.alive_seq;
            state = d.2;
            results = update_results E o step ts s.results;
          }))
      ∙ length-update_results E o step ts s.results

  length-search_rounds :
      (rounds step : ℕ) (s : Search E) → length (search_rounds E o rounds step s) ≡ length s.results
  unfolding search_rounds
  length-search_rounds zero step s = refl
  length-search_rounds (suc rounds) step s =
      let q = close_step E o step s (decode_step E o step s) in
      let e : length q.0.results ≡ length s.results =
        length-close_step step s (decode_step E o step s) in
      let next : Bool → List (DecodingResult E) = λ over.
        elim over as (λ _. List (DecodingResult E)) [
          | true ↦ q.0.results
          | false ↦ search_rounds E o rounds (suc step) q.0
        ] in
      elim (Bool-cases q.1) [
        | inl c ↦ ap (λ over. length (next over)) c ∙ e
        | inr c ↦ ap (λ over. length (next over)) c ∙ length-search_rounds rounds (suc step) q.0 ∙ e
      ]

  pub length-greedy_search :
      (ids : List ℕ) (state : E.State) → length (greedy_search E o ids state) ≡ length ids
  unfolding greedy_search
  length-greedy_search ids state =
      length-search_rounds _ 0 _ ∙ length-replicate (length ids) (new_result E o)
