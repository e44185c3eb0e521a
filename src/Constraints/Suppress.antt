-- ===== src/Constraints/Suppress.antt =====
-- SuppressTokens and SuppressSequences on the logits of a batch.
use ctranslate.Prelude.{
  flat_lt, ℕ, zero, suc, ◌+◌, ◌-◌, ◌*◌, ◌<◌, ◌≤◌, ltb, leb, ◌==◌, Bool, Bool-cases, true, false,
  ◌&&◌, ◌||◌, List, [], ◌∷◌, length, get_or, get_or-set, if◌then◌else◌, ◌⊎◌, ◌≡◌, refl, sym, ap,
  subst, ◌∙◌, arith, inl, inr, All,
}
use native.Mathlib.Nat.{suc-mul}
use ctranslate.Prelude.Reading.{All-get_or}
use ctranslate.Vocab.Candidates.{is_in}
use ctranslate.Constraints.Defs.{DisableTokens, add, add_rows, add_all, add_each, apply}
use ctranslate.Constraints.Processors.{
  new_suppress_sequences, disable_last, banned_tokens, suppress_rows, apply_suppress_tokens,
  apply_suppress_sequences,
}
use ctranslate.Constraints.Disabled.{
  IsNarrow, IsNarrow-mono, mul_mono, flat_same, logits-add_v, length-add, add-kept, add_each-kept,
  get_or-add_each,
}
use ctranslate.Constraints.Sequences.{completes, is_in-banned_tokens}

-- What a processor leaves of an object but for the scores.
record Kept {A : Type 0} (d d' : DisableTokens A) : Type 0 where
  vocabulary : d'.vocabulary_size ≡ d.vocabulary_size
  value : d'.disable_value ≡ d.disable_value
  kind : d'.on_cpu ≡ d.on_cpu
  rows : d'.batch_size ≡ d.batch_size
  size : length (apply d').logits ≡ length (apply d).logits

module _ {A : Type 0} where
  Kept-refl : (d : DisableTokens A) → Kept d d
  Kept-refl d = record { vocabulary = refl; value = refl; kind = refl; rows = refl; size = refl }

  Kept-trans : (d e f : DisableTokens A) → Kept d e → Kept e f → Kept d f
  Kept-trans d e f h k = record {
    vocabulary = k.vocabulary ∙ h.vocabulary;
    value = k.value ∙ h.value;
    kind = k.kind ∙ h.kind;
    rows = k.rows ∙ h.rows;
    size = k.size ∙ h.size;
  }

  Kept-add : (b t : ℕ) (d : DisableTokens A) → Kept d (add b t d)
  Kept-add b t d =
      let (v, a, c, n) = add-kept b t d in
      record { vocabulary = v; value = a; kind = c; rows = n; size = length-add b t d }

  Kept-add_rows : (rows i t : ℕ) (d : DisableTokens A) → Kept d (add_rows rows i t d)
  unfolding add_rows
  Kept-add_rows zero i t d = Kept-refl d
  Kept-add_rows (suc rows) i t d =
      Kept-trans d (add i t d) _ (Kept-add i t d) (Kept-add_rows rows (suc i) t (add i t d))

  -- One token for the rows from `i` on.
  get_or-add_rows :
      (rows i t v : ℕ) (a : A) (d : DisableTokens A) (b t' : ℕ) (x : A)
      → d.vocabulary_size ≡ v
      → d.disable_value ≡ a
      → t < v
      → t' < v
      → b * v + t' < length (apply d).logits
      → IsNarrow d.on_cpu ((i + rows) * v)
      → get_or (apply (add_rows rows i t d)).logits (b * v + t') x ≡ (
          if (leb i b && ltb b (i + rows)) && (t' == t)
          then a
          else get_or (apply d).logits (b * v + t') x)
  unfolding add_rows
  get_or-add_rows zero i t v a d b t' x p q h k l w = ground arith
  get_or-add_rows (suc rows) i t v a d b t' x p q h k l w =
      let kept = Kept-add i t d in
      let last : suc (i * v + t) ≤ suc i * v = omega (arith, h, suc-mul i v) in
      let more : suc i * v ≤ (i + suc rows) * v = mul_mono (suc i) _ v (omega arith) in
      let e =
        logits-add_v i t v a d p q
          (IsNarrow-mono d.on_cpu (suc (i * v + t)) _ (omega (arith, last, more)) w) in
      let ih =
        get_or-add_rows rows (suc i) t v a (add i t d) b t' x (kept.vocabulary ∙ p) (kept.value ∙ q)
          h k (omega (arith, l, kept.size))
          (subst (λ c. IsNarrow c ((suc i + rows) * v)) (sym kept.kind)
            (IsNarrow-mono d.on_cpu _ _ (mul_mono (suc i + rows) _ v (omega arith)) w)) in
      let r =
        ap (λ ys. get_or ys (b * v + t') x) e
        ∙ get_or-set (apply d).logits (i * v + t) (b * v + t') a x l in
      ground (arith, ih, r, flat_same i b t t' v h k)

  Kept-apply_suppress_tokens :
      (ids : List ℕ) (d : DisableTokens A) → Kept d (apply_suppress_tokens ids d)
  unfolding apply_suppress_tokens add_all
  Kept-apply_suppress_tokens [] d = Kept-refl d
  Kept-apply_suppress_tokens (t ∷ ids) d =
      Kept-trans d (add_all t d) _ (Kept-add_rows d.batch_size 0 t d)
        (Kept-apply_suppress_tokens ids (add_all t d))

  get_or-apply_suppress_tokens :
      (ids : List ℕ) (n v : ℕ) (a : A) (d : DisableTokens A) (b t : ℕ) (x : A)
      → d.batch_size ≡ n
      → d.vocabulary_size ≡ v
      → d.disable_value ≡ a
      → All (λ s. s < v) ids
      → t < v
      → b < n
      → b * v + t < length (apply d).logits
      → IsNarrow d.on_cpu (n * v)
      → get_or (apply (apply_suppress_tokens ids d)).logits (b * v + t) x
        ≡ (if is_in t ids then a else get_or (apply d).logits (b * v + t) x)
  unfolding apply_suppress_tokens add_all
  get_or-apply_suppress_tokens [] n v a d b t x o p q h k j l w = ground arith
  get_or-apply_suppress_tokens (s ∷ ids) n v a d b t x o p q h k j l w =
      let kept = Kept-add_rows d.batch_size 0 s d in
      let ih =
        get_or-apply_suppress_tokens ids n v a (add_all s d) b t x (kept.rows ∙ o)
          (kept.vocabulary ∙ p) (kept.value ∙ q) h.1 k j (omega (arith, l, kept.size))
          (subst (λ c. IsNarrow c (n * v)) (sym kept.kind) w) in
      let r =
        get_or-add_rows d.batch_size 0 s v a d b t x p q h.0 k l
          (IsNarrow-mono d.on_cpu _ _ (mul_mono (0 + d.batch_size) n v (omega (arith, o))) w) in
      ground (arith, ih, r, j, o)

-- A test holds of the row `b` of the rows from `i` on.
abbrev holds_from : (List ℕ → Bool) → ℕ → List (List ℕ) → ℕ → Bool
holds_from test i [] b = false
holds_from test i (row ∷ rows) b = holds_from test (suc i) rows b || ((i == b) && test row)

holds_from-below :
    (test : List ℕ → Bool) (i b : ℕ) (rows : List (List ℕ))
    → b < i
    → holds_from test i rows b ≡ false
holds_from-below test i b [] h = refl
holds_from-below test i b (row ∷ rows) h =
    ground (arith, h, holds_from-below test (suc i) b rows (omega (arith, h)))

holds_from-get_or :
    (test : List ℕ → Bool) (i k b : ℕ) (rows : List (List ℕ))
    → b ≡ i + k
    → k < length rows
    → holds_from test i rows b ≡ test (get_or rows k [])
holds_from-get_or test i k b [] e h = ground (arith, h)
holds_from-get_or test i zero b (row ∷ rows) e h =
    ground (arith, e, holds_from-below test (suc i) b rows (omega (arith, e)))
holds_from-get_or test i (suc k) b (row ∷ rows) e h =
    ground (arith, e, holds_from-get_or test (suc i) k b rows (omega (arith, e)) (omega (arith, h)))

-- The tokens of the sequences are in the vocabulary, and so are those that are disabled.
module _ (v : ℕ) where
  ids_small :
      (sequences : List (List ℕ))
      → All (λ s. All (λ t. t < v) s) sequences
      → All (λ t. t < v) (new_suppress_sequences sequences).ids
  unfolding new_suppress_sequences
  ids_small [] h = tt
  ids_small ([] ∷ sequences) h = ids_small sequences h.1
  ids_small ((x ∷ []) ∷ sequences) h = (h.0.0, ids_small sequences h.1)
  ids_small ((x ∷ y ∷ xs) ∷ sequences) h = ids_small sequences h.1

  banned_small :
      (sequences : List (List ℕ)) (row : List ℕ)
      → All (λ s. All (λ t. t < v) s) sequences
      → All (λ t. t < v) (banned_tokens row (new_suppress_sequences sequences).sequences)
  unfolding new_suppress_sequences banned_tokens
  banned_small [] row h = tt
  banned_small ([] ∷ sequences) row h = banned_small sequences row h.1
  banned_small ((x ∷ []) ∷ sequences) row h = banned_small sequences row h.1
  banned_small ((x ∷ y ∷ xs) ∷ sequences) row h =
      elim (Bool-cases (disable_last row (x ∷ y ∷ xs))) [
        | inl c ↦ rw c (
          All-get_or (λ t. t < v) (x ∷ y ∷ xs) (length (x ∷ y ∷ xs) - 1) 0 h.0 (omega arith),
          banned_small sequences row h.1,
        )
        | inr c ↦ rw c (banned_small sequences row h.1)
      ]

module _ {A : Type 0} where
  get_or-suppress_rows :
      (sequences : List (List ℕ)) (i : ℕ) (rows : List (List ℕ)) (v : ℕ) (a : A)
      (d : DisableTokens A) (b t : ℕ) (x : A)
      → ((row : List ℕ) → All (λ s. s < v) (banned_tokens row sequences))
      → d.vocabulary_size ≡ v
      → d.disable_value ≡ a
      → t < v
      → b * v + t < length (apply d).logits
      → IsNarrow d.on_cpu ((i + length rows) * v)
      → get_or (apply (suppress_rows sequences i rows d)).logits (b * v + t) x ≡ (
          if holds_from (λ row. is_in t (banned_tokens row sequences)) i rows b
          then a
          else get_or (apply d).logits (b * v + t) x)
  unfolding suppress_rows
  get_or-suppress_rows sequences i [] v a d b t x small p q k l w = refl
  get_or-suppress_rows sequences i (row ∷ rows) v a d b t x small p q k l w =
      let tokens = banned_tokens row sequences in
      let (kv, ka, kl, kc) = add_each-kept i tokens d in
      let s =
        get_or-add_each i tokens v a d b t x p q (small row) k l
          (IsNarrow-mono d.on_cpu _ _ (mul_mono (suc i) _ v (omega arith)) w) in
      let r =
        get_or-suppress_rows sequences (suc i) rows v a (add_each i tokens d) b t x small (kv ∙ p)
          (ka ∙ q) k (omega (arith, l, kl))
          (subst (λ c. IsNarrow c ((suc i + length rows) * v)) (sym kc)
            (IsNarrow-mono d.on_cpu _ _ (mul_mono (suc i + length rows) _ v (omega arith)) w)) in
      ground (arith, s, r)

  -- Once SuppressSequences has run and DisableTokens is applied, the score of a token is the disabled
  -- value exactly when its row with the token behind it ends in one of the sequences that the
  -- constructor was given, empty ones apart; every other score is as it was. There is a row for
  -- each of the batch, the tokens of the sequences are in the vocabulary, and the logits have a row for
  -- each sequence; they are on the CPU, or no more than 2 ^ 31.
  pub apply_suppress_sequences-logits :
      (sequences rows : List (List ℕ)) (d : DisableTokens A)
      → length rows ≡ d.batch_size
      → All (λ s. All (λ t. t < d.vocabulary_size) s) sequences
      → length rows * d.vocabulary_size ≤ length (apply d).logits
      → (d.on_cpu ≡ true) ⊎ (length rows * d.vocabulary_size ≤ 2147483648)
      → (b t : ℕ) (x : A) → b < length rows
      → t < d.vocabulary_size
      → get_or
          (apply (apply_suppress_sequences (new_suppress_sequences sequences) rows d)).logits
          (b * d.vocabulary_size + t)
          x
        ≡ (if completes sequences (get_or rows b []) t
            then d.disable_value
            else get_or (apply d).logits (b * d.vocabulary_size + t) x)
  unfolding apply_suppress_sequences
  apply_suppress_sequences-logits sequences rows d n small l w b t x i j =
      let s = new_suppress_sequences sequences in
      let v = d.vocabulary_size in
      let d' = apply_suppress_tokens s.ids d in
      let kept = Kept-apply_suppress_tokens s.ids d in
      let m : b * v + t < length (apply d).logits =
        omega (arith, l, flat_lt b (length rows) t v i j) in
      let r =
        get_or-apply_suppress_tokens s.ids (length rows) v d.disable_value d b t x (sym n) refl refl
          (ids_small v sequences small) j i m w in
      let q =
        get_or-suppress_rows s.sequences 0 rows v d.disable_value d' b t x
          (λ row. banned_small v sequences row small) kept.vocabulary kept.value j
          (omega (arith, m, kept.size))
          (subst (λ c. IsNarrow c ((0 + length rows) * v)) (sym kept.kind)
            (IsNarrow-mono d.on_cpu _ _ (mul_mono (0 + length rows) _ v (omega arith)) w)) in
      let e =
        holds_from-get_or (λ row. is_in t (banned_tokens row s.sequences)) 0 b b rows (omega arith)
          i in
      ground (arith, q, r, e, is_in-banned_tokens sequences (get_or rows b []) t)
