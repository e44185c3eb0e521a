-- ===== src/Decoding/MaxLength.antt =====
-- How long the hypothesis of a row becomes.
use mathlib.Core.List.{Perm}
use ctranslate.Prelude.{
  ℕ, zero, suc, ◌+◌, ◌<◌, ◌≤◌, max, Bool, true, false, Bool-cases, some, List, [], ◌∷◌, ◌++◌,
  length, get_or, get_elem?, map, ◌≡◌, ◌⊎◌, refl, sym, ap, subst, ◌∙◌, arith, inl, inr,
  length-append,
}
use ctranslate.Decoding.Defs.{Engine, SearchOptions, DecodingResult}
use ctranslate.Decoding.Greedy.{
  Item, is_kept, is_finished, advance, no_result, new_result, greedy_search,
}
use ctranslate.Decoding.Lanes.{RowWise, Lane, lane_item, lane_next, decode_one}
use ctranslate.Decoding.Batch.{decode_one-suc}
use ctranslate.Decoding.OneHypothesis.{advance-hypothesis}
use ctranslate.Decoding.Length.{free_tokens, own_steps, HasPrefix, greedy_search-decode_one}

module _ (E : Engine) (R : RowWise E) (o : SearchOptions) (b : ℕ) where
  -- A row of `b` that ends in the step before `k`.
  abbrev pub EndsAt : ℕ → Type 0
  EndsAt k =
      (s : ℕ) × (l : Lane E R o) × (suc s ≡ k)
      × (l.batch_id ≡ b)
      × (is_finished E o s (lane_item E R o s l) ≡ true)

  module _ (P : ℕ → DecodingResult E → Type 0)
      (keeps : (step : ℕ) (l : Lane E R o) (r : DecodingResult E)
        → l.batch_id ≡ b
        → P step r
        → P (suc step) (advance E o step (lane_item E R o step l) r)) where
    -- What each step keeps holds of the result, at the step at which the row ends or runs out of steps.
    pub decode_one-keeps :
        (rounds step : ℕ) (l : Lane E R o) (r : DecodingResult E)
        → l.batch_id ≡ b
        → P step r
        → (k : ℕ) × (k ≤ step + rounds)
          × P k (decode_one E R o rounds step l r)
          × ((k ≡ step + rounds) ⊎ EndsAt k)
    unfolding decode_one
    decode_one-keeps zero step l r e p = (step, omega arith, p, inl (omega arith))
    decode_one-keeps (suc rounds) step l r e p =
        elim (Bool-cases (is_finished E o step (lane_item E R o step l))) [
          | inl g ↦ (
            suc step,
            omega arith,
            subst (P (suc step)) (sym (decode_one-suc E R o rounds step l r true g))
                (keeps step l r e p),
            inr (step, l, refl, e, g),
          )
          | inr g ↦
              let (k, h, q, c) =
                decode_one-keeps rounds (suc step) (lane_next E R o step l) _ e
                  (keeps step l r e p) in
              (
                k,
                omega (arith, h),
                subst (P k) (sym (decode_one-suc E R o rounds step l r false g)) q,
                elim c [ inl x ↦ inl (omega (arith, x)) | inr x ↦ inr x ],
              )
        ]

module _ (E : Engine)
    (sort-perm : (before : ℕ → ℕ → Bool) (xs : List ℕ) → Perm (E.sort before xs) xs) (R : RowWise E)
    (o : SearchOptions) where
  -- One hypothesis, whose tokens each took a step that counts.
  abbrev Bounded : ℕ → ℕ → DecodingResult E → Type 0
  Bounded b step r =
      (h : List ℕ) × (r.hypotheses ≡ h ∷ [])
      × (length h + free_tokens o b ≤ max step (free_tokens o b))

  is_kept-free :
      (step : ℕ) (t : Item E) → is_kept E o step t ≡ true → free_tokens o t.batch_id ≤ step
  unfolding is_kept
  is_kept-free step t k = ground (arith, k)

  Bounded-advance :
      (b step : ℕ) (t : Item E) (r : DecodingResult E)
      → t.batch_id ≡ b
      → Bounded b step r
      → Bounded b (suc step) (advance E o step t r)
  Bounded-advance b step t r e (h, p, q) = elim (Bool-cases (is_kept E o step t)) [
    | inl k ↦ (
      h ++ t.word_id ∷ [],
      advance-hypothesis E sort-perm o step t r h p ∙ rw k refl,
      (let f : free_tokens o b ≤ step =
            subst (λ x. free_tokens o x ≤ step) e (is_kept-free step t k) in
          omega (arith, f, q, length-append h (t.word_id ∷ []))),
    )
    | inr k ↦ (h, advance-hypothesis E sort-perm o step t r h p ∙ rw k refl, omega (arith, q))
  ]

  -- When decoder, processors and sampler treat each row by itself, the sort rearranges its input,
  -- max_length is positive, a row has a prefix if there are prefixes, and a coverage penalty comes only
  -- with the attention that it needs: the result of each row is one hypothesis of at most max_length
  -- tokens.
  pub greedy_search-max_length :
      (starts : List (ℕ × R.Row)) (state : E.State) (b id : ℕ) (row : R.Row)
      → R.rows state ≡ map (λ p. p.1) starts
      → get_elem? starts b ≡ some (id, row)
      → 0 < o.max_length
      → HasPrefix o b
      → (o.has_coverage ≡ false) ⊎ (o.return_attention ≡ true)
      → (h : List ℕ) × ((get_or
            (greedy_search E o (map (λ p. p.0) starts) state)
            b
            (no_result E)).hypotheses
          ≡ h ∷ [])
        × (length h ≤ o.max_length)
  greedy_search-max_length starts state b id row h g k p attended =
      let l : Lane E R o = record { batch_id = b; input = id; sequence = []; row = row } in
      let (n, le, (tokens, e, q), c) =
        decode_one-keeps E R o b (Bounded b)
          (λ step l r i. Bounded-advance b step (lane_item E R o step l) r i) (own_steps o b) 0 l
          (new_result E o) refl ([], refl, omega arith) in
      (
        tokens,
        ap (λ r. r.hypotheses) (greedy_search-decode_one E R o starts state b id row h g k p) ∙ e,
        omega (arith, le, q),
      )
