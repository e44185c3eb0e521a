-- ===== src/Decoding/OneHypothesis.antt =====
-- What a step does to the only hypothesis of a row.
use mathlib.Core.List.{Perm}
use native.Mathlib.Nat.{ℕ_set}
use ctranslate.Prelude.{
  ℕ, Bool, Bool-cases, List, [], ◌∷◌, ◌++◌, length, get_or, take, iota, if◌then◌else◌, ◌≡◌, refl,
  ap, ◌∙◌, arith, inl, inr, All, All-perm, length-perm,
}
use ctranslate.Batching.Rebatch.{index_vector}
use ctranslate.Decoding.Defs.{
  Engine, SearchOptions, DecodingResult, final_scores, sort_hypotheses, finalize_result,
}
use ctranslate.Decoding.Greedy.{Item, push_first, push, is_kept, is_finished, advance}

zero_alone : (xs : List ℕ) → length xs ≡ 1 → All (λ x. x ≡ 0) xs → xs ≡ 0 ∷ []
zero_alone [] h a = ground (arith, h)
zero_alone (x ∷ []) h a = ap (λ y. y ∷ []) a.0
zero_alone (x ∷ y ∷ xs) h a = ground (arith, h)

module _ (E : Engine)
    (sort-perm : (before : ℕ → ℕ → Bool) (xs : List ℕ) → Perm (E.sort before xs) xs) where
  sort_one : (before : ℕ → ℕ → Bool) → E.sort before (0 ∷ []) ≡ 0 ∷ []
  sort_one before =
      let p = sort-perm before (0 ∷ []) in
      zero_alone (E.sort before (0 ∷ [])) (length-perm p)
        (All-perm (λ x. x ≡ 0) (λ x. ℕ_set x 0) p (refl, tt))

  -- A single hypothesis stays as it is when the result is finalized.
  finalize_result-hypothesis :
      (keep_scores keep_attention : Bool) (r : DecodingResult E) (h : List ℕ)
      → r.hypotheses ≡ h ∷ []
      → (finalize_result E 1 keep_scores keep_attention r).hypotheses ≡ h ∷ []
  unfolding finalize_result sort_hypotheses index_vector
  finalize_result-hypothesis keep_scores keep_attention r h p =
      let scores = final_scores E r.scores r.hypotheses r.attention in
      let before : ℕ → ℕ → Bool =
        λ i j. E.greater (get_or scores i E.zero_score) (get_or scores j E.zero_score) in
      ap (λ hs. index_vector [] hs (take 1 (E.sort before (iota 0 (length hs))))) p
      ∙ ap (λ idx. index_vector [] (h ∷ []) (take 1 idx)) (sort_one before)

  module _ (o : SearchOptions) where
    push-hypothesis :
        (step : ℕ) (t : Item E) (r : DecodingResult E) (h : List ℕ)
        → r.hypotheses ≡ h ∷ []
        → (push E o step t r).hypotheses
          ≡ (if is_kept E o step t then h ++ t.word_id ∷ [] else h) ∷ []
    unfolding push
    push-hypothesis step t r h p = elim (Bool-cases (is_kept E o step t)) [
      | inl k ↦ rw k (ap (λ v. push_first v t.word_id) p)
      | inr k ↦ rw k p
    ]

    pub advance-hypothesis :
        (step : ℕ) (t : Item E) (r : DecodingResult E) (h : List ℕ)
        → r.hypotheses ≡ h ∷ []
        → (advance E o step t r).hypotheses
          ≡ (if is_kept E o step t then h ++ t.word_id ∷ [] else h) ∷ []
    unfolding advance
    advance-hypothesis step t r h p = elim (Bool-cases (is_finished E o step t)) [
      | inl k ↦ rw k (
          finalize_result-hypothesis o.return_scores o.return_attention (push E o step t r) _
            (push-hypothesis step t r h p))
      | inr k ↦ rw k (push-hypothesis step t r h p)
    ]
