-- ===== src/Constraints/NoRepeat.antt =====
-- NoRepeatNgram on the logits of a batch.
use ctranslate.Prelude.{
  flat_lt, ℕ, zero, suc, ◌+◌, ◌*◌, ◌<◌, ◌≤◌, ◌==◌, Bool, true, false, ◌&&◌, ◌||◌, List, [], ◌∷◌,
  ◌++◌, length, get_or, if◌then◌else◌, done, and_then, ◌⊎◌, ◌≡◌, refl, sym, ap, subst, ◌∙◌, arith,
  All,
}
use ctranslate.Constraints.Defs.{DisableTokens, add_each, apply}
use ctranslate.Constraints.Processors.{apply_no_repeat_ngram}
use ctranslate.Constraints.Disabled.{
  IsNarrow, IsNarrow-mono, mul_mono, add_each-kept, get_or-add_each,
}
use ctranslate.Constraints.Ngrams.{occurs, current_ngram, ngram_final_tokens-occurs}

-- The token `t` would repeat an n-gram of the row.
abbrev pub repeats : ℕ → List ℕ → ℕ → Bool
repeats n row t = occurs (current_ngram n row ++ t ∷ []) row

-- The same for the row `b` of the rows from `i` on.
abbrev repeats_from : ℕ → ℕ → List (List ℕ) → ℕ → ℕ → Bool
repeats_from n i [] b t = false
repeats_from n i (row ∷ rows) b t = repeats_from n (suc i) rows b t || ((i == b) && repeats n row t)

repeats_from-below :
    (n i b : ℕ) (rows : List (List ℕ)) (t : ℕ) → b < i → repeats_from n i rows b t ≡ false
repeats_from-below n i b [] t h = refl
repeats_from-below n i b (row ∷ rows) t h =
    ground (arith, h, repeats_from-below n (suc i) b rows t (omega (arith, h)))

repeats_from-get_or :
    (n i k b : ℕ) (rows : List (List ℕ)) (t : ℕ)
    → b ≡ i + k
    → k < length rows
    → repeats_from n i rows b t ≡ repeats n (get_or rows k []) t
repeats_from-get_or n i k b [] t e h = ground (arith, h)
repeats_from-get_or n i zero b (row ∷ rows) t e h =
    ground (arith, e, repeats_from-below n (suc i) b rows t (omega (arith, e)))
repeats_from-get_or n i (suc k) b (row ∷ rows) t e h =
    ground
      (arith, e, repeats_from-get_or n (suc i) k b rows t (omega (arith, e)) (omega (arith, h)))

module _ {A : Type 0} where
  no_repeat-rows :
      (n i : ℕ) (rows : List (List ℕ)) (v : ℕ) (a : A) (d : DisableTokens A)
      → 0 < n
      → All (λ row. All (λ t. t < v) row) rows
      → d.vocabulary_size ≡ v
      → d.disable_value ≡ a
      → IsNarrow d.on_cpu ((i + length rows) * v)
      → (d' : DisableTokens A) × (apply_no_repeat_ngram n i rows d ≡ done d')
        × ((b t : ℕ) (x : A)
            → t < v
            → b * v + t < length (apply d).logits
            → get_or (apply d').logits (b * v + t) x
              ≡ (if repeats_from n i rows b t then a else get_or (apply d).logits (b * v + t) x))
  unfolding apply_no_repeat_ngram
  no_repeat-rows n i [] v a d h k p q w = (d, refl, λ b t x l m. refl)
  no_repeat-rows n i (row ∷ rows) v a d h k p q w =
      let (tokens, e, small, member) = ngram_final_tokens-occurs n row h in
      let d1 = add_each i tokens d in
      let (kv, ka, kl, kc) = add_each-kept i tokens d in
      let (d', f, g) = no_repeat-rows n (suc i) rows v a d1 h k.1 (kv ∙ p) (ka ∙ q) (
        subst (λ c. IsNarrow c ((suc i + length rows) * v)) (sym kc)
          (IsNarrow-mono d.on_cpu _ _ (mul_mono (suc i + length rows) _ v (omega arith)) w)) in
      (
        d',
        ap
              (λ r.
                and_then r (λ tokens'. apply_no_repeat_ngram n (suc i) rows (add_each i tokens' d)))
              e
            ∙ f,
        λ b t x l m.
            let s =
              get_or-add_each i tokens v a d b t x p q (small v k.0) l m
                (IsNarrow-mono d.on_cpu _ _ (mul_mono (suc i) _ v (omega arith)) w) in
            let r = g b t x l (omega (arith, m, kl)) in ground (arith, s, r, member t),
      )

  -- NoRepeatNgram returns, and once DisableTokens is applied the score of a token is the disabled
  -- value exactly when the last n - 1 tokens of its row with the token behind them are already in the
  -- row; every other score is as it was. The n-grams are not empty, all tokens are in the vocabulary, and
  -- the logits have a row for each sequence; they are on the CPU, or no more than 2 ^ 31, since the
  -- indices of other devices are of 32 bits with a sign.
  pub apply_no_repeat_ngram-logits :
      (n : ℕ) (rows : List (List ℕ)) (d : DisableTokens A)
      → 0 < n
      → All (λ row. All (λ t. t < d.vocabulary_size) row) rows
      → length rows * d.vocabulary_size ≤ length (apply d).logits
      → (d.on_cpu ≡ true) ⊎ (length rows * d.vocabulary_size ≤ 2147483648)
      → (d' : DisableTokens A) × (apply_no_repeat_ngram n 0 rows d ≡ done d')
        × ((b t : ℕ) (x : A)
            → b < length rows
            → t < d.vocabulary_size
            → get_or (apply d').logits (b * d.vocabulary_size + t) x ≡ (
                if repeats n (get_or rows b []) t
                then d.disable_value
                else get_or (apply d).logits (b * d.vocabulary_size + t) x))
  apply_no_repeat_ngram-logits n rows d h k l w =
      let (d', e, g) = no_repeat-rows n 0 rows d.vocabulary_size d.disable_value d h k refl refl (
        IsNarrow-mono d.on_cpu _ _ (mul_mono (0 + length rows) _ d.vocabulary_size (omega arith))
          w) in
      (
        d',
        e,
        λ b t x i j.
            let m = flat_lt b (length rows) t d.vocabulary_size i j in
            g b t x j (omega (arith, l, m))
            ∙ ap
                (λ c.
                  if c
                  then d.disable_value
                  else get_or (apply d).logits (b * d.vocabulary_size + t) x)
                (repeats_from-get_or n 0 b b rows t (omega arith) i),
      )
