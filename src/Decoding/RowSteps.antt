-- ===== src/Decoding/RowSteps.antt =====
-- The loops of a greedy step over the rows of a batch, as maps over the lanes.
use ctranslate.Prelude.{
  ℕ, suc, ◌≤◌, Bool, true, false, Bool-cases, none, some, List, [], ◌∷◌, ◌++◌, length, get_or, map,
  if◌then◌else◌, ◌≡◌, refl, ap, ◌∙◌, arith, inl, inr,
}
use ctranslate.Batching.Rebatch.{index_vector}
use ctranslate.Decoding.Defs.{
  Engine, SearchOptions, is_too_short, disable, override, apply_min_length,
  update_sample_with_prefix,
}
use ctranslate.Decoding.Greedy.{Item, is_finished, positions, items, next_inputs, append_tokens}
use ctranslate.Decoding.Lanes.{keep}

-- Picking the positions of a flag, from vectors that the same elements fill.
index_vector-shift :
    {A : Type 0} (d a : A) (v : List A) (i : ℕ) (flags : List Bool)
    → index_vector d (a ∷ v) (positions (suc i) flags) ≡ index_vector d v (positions i flags)
unfolding index_vector
index_vector-shift d a v i [] = refl
index_vector-shift d a v i (true ∷ flags) =
    ap (◌∷◌ (get_or v i d)) (index_vector-shift d a v (suc i) flags)
index_vector-shift d a v i (false ∷ flags) = index_vector-shift d a v (suc i) flags

positions_shift :
    (i : ℕ) (flags : List Bool) → length (positions (suc i) flags) ≡ length (positions i flags)
positions_shift i [] = refl
positions_shift i (true ∷ flags) = ap suc (positions_shift (suc i) flags)
positions_shift i (false ∷ flags) = positions_shift (suc i) flags

module _ {X : Type 0} where
  pub index_vector-positions :
      {A : Type 0} (d : A) (f : X → A) (g : X → Bool) (xs : List X)
      → index_vector d (map f xs) (positions 0 (map g xs)) ≡ map f (keep g xs)
  unfolding index_vector
  index_vector-positions d f g [] = refl
  index_vector-positions d f g (x ∷ xs) = elim (Bool-cases (g x)) [
    | inl h ↦ rw h (
        ap (◌∷◌ (f x))
          (index_vector-shift d (f x) (map f xs) 0 (map g xs) ∙ index_vector-positions d f g xs))
    | inr h ↦
        rw h (index_vector-shift d (f x) (map f xs) 0 (map g xs) ∙ index_vector-positions d f g xs)
  ]

  pub length-positions :
      (g : X → Bool) (xs : List X) → length (positions 0 (map g xs)) ≡ length (keep g xs)
  length-positions g [] = refl
  length-positions g (x ∷ xs) = elim (Bool-cases (g x)) [
    | inl h ↦ rw h (ap suc (positions_shift 0 (map g xs) ∙ length-positions g xs))
    | inr h ↦ rw h (positions_shift 0 (map g xs) ∙ length-positions g xs)
  ]

  length-keep : (g : X → Bool) (xs : List X) → length (keep g xs) ≤ length xs
  length-keep g [] = omega arith
  length-keep g (x ∷ xs) = ground (arith, length-keep g xs)

  -- When as many elements are kept as there are, all are.
  pub keep_all : (g : X → Bool) (xs : List X) → length (keep g xs) ≡ length xs → keep g xs ≡ xs
  keep_all g [] h = refl
  keep_all g (x ∷ xs) h = ground (arith, length-keep g xs, keep_all g xs)

  -- Two functions that agree where the test holds.
  pub map-keep :
      {A : Type 0} (f f' : X → A) (g : X → Bool) (xs : List X)
      → ((x : X) → g x ≡ true → f x ≡ f' x)
      → map f (keep g xs) ≡ map f' (keep g xs)
  map-keep f f' g [] h = refl
  map-keep f f' g (x ∷ xs) h = elim (Bool-cases (g x)) [
    | inl e ↦ rw (e, h x e) (ap (◌∷◌ (f' x)) (map-keep f f' g xs h))
    | inr e ↦ rw e (map-keep f f' g xs h)
  ]

  pub length-map : {A : Type 0} (f : X → A) (xs : List X) → length (map f xs) ≡ length xs
  length-map f [] = refl
  length-map f (x ∷ xs) = ap suc (length-map f xs)

  pub map-map :
      {A B : Type 0} (f : A → B) (g : X → A) (xs : List X)
      → map f (map g xs) ≡ map (λ x. f (g x)) xs
  map-map f g [] = refl
  map-map f g (x ∷ xs) = ap (◌∷◌ (f (g x))) (map-map f g xs)

module _ (E : Engine) (o : SearchOptions) {X : Type 0} where
  open E use {Score, Attention}

  pub apply_min_length-map :
      (step : ℕ) (b : X → ℕ) (logits : X → List Score) (xs : List X)
      → apply_min_length E o step (map b xs) (map logits xs)
        ≡ map
            (λ x. if is_too_short E o step (b x) then disable E o.end_ids (logits x) else logits x)
            xs
  unfolding apply_min_length
  apply_min_length-map step b logits [] = refl
  apply_min_length-map step b logits (x ∷ xs) = rw (apply_min_length-map step b logits xs)

  pub update_sample-map :
      (step : ℕ) (b : X → ℕ) (s : X → ℕ × Score) (xs : List X)
      → update_sample_with_prefix E o step (map b xs) (map s xs)
        ≡ map
            (λ x. elim o.prefix_ids as (λ _. ℕ × Score) [
              | none ↦ s x
              | some prefixes ↦ override E step (get_or prefixes (b x) []) o.end_ids 0 (s x)
            ])
            xs
  unfolding update_sample_with_prefix
  update_sample-map step b s [] = refl
  update_sample-map step b s (x ∷ xs) = rw (update_sample-map step b s xs)

  pub items-map :
      (asked : Bool) (b : X → ℕ) (s : X → ℕ × Score) (a : X → Attention) (xs : List X)
      → items E (map b xs) (map s xs) (if asked then map a xs else [])
        ≡ map
            (λ x. record {
              batch_id = b x;
              word_id = (s x).0;
              score = (s x).1;
              weights = if asked then some (a x) else none;
            })
            xs
  unfolding items
  items-map true b s a [] = refl
  items-map true b s a (x ∷ xs) = rw (items-map true b s a xs)
  items-map false b s a [] = refl
  items-map false b s a (x ∷ xs) = rw (items-map false b s a xs)

  pub next_inputs-map :
      (step : ℕ) (t : X → Item E) (id : X → ℕ) (xs : List X)
      → next_inputs E o step (map t xs) (map id xs)
        ≡ map (λ x. if is_finished E o step (t x) then id x else (t x).word_id) xs
  unfolding next_inputs
  next_inputs-map step t id [] = refl
  next_inputs-map step t id (x ∷ xs) = rw (next_inputs-map step t id xs)

  pub append_tokens-map :
      (seq : X → List ℕ) (s : X → ℕ × Score) (xs : List X)
      → append_tokens E (map seq xs) (map s xs) ≡ map (λ x. seq x ++ (s x).0 ∷ []) xs
  unfolding append_tokens
  append_tokens-map seq s [] = refl
  append_tokens-map seq s (x ∷ xs) = rw (append_tokens-map seq s xs)
