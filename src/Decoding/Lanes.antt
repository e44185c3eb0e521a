-- ===== src/Decoding/Lanes.antt =====
-- One row of a batch by itself.
use ctranslate.Prelude.{
  ℕ, zero, suc, ◌+◌, Bool, true, false, not, none, some, List, [], ◌∷◌, ◌++◌, get_or, map,
  if◌then◌else◌, ◌≡◌,
}
use ctranslate.Decoding.Defs.{
  Engine, SearchOptions, DecodingResult, is_too_short, disable, override,
}
use ctranslate.Decoding.Greedy.{Item, is_finished, advance, gather_attention, positions}

-- The elements at which a test holds.
abbrev pub keep {ℓ} : {A : Type ℓ} → (A → Bool) → List A → List A
keep g [] = []
keep g (x ∷ xs) = if g x then x ∷ keep g xs else keep g xs

-- The decoder, the logits processors and the sampler treat each row of a batch by itself: what they
-- give for a row depends on that row only, as with BestSampler, and `update_state` keeps the rows at
-- the given positions.
pub record RowWise (E : Engine) : Type 1 where
  pub Row : Type 0
  pub rows : E.State → List Row
  pub forward_one : ℕ → ℕ → Row → List E.Score × E.Attention × Row
  pub process_one : ℕ → List ℕ → ℕ → List E.Score → List E.Score
  pub pick : List E.Score → ℕ × E.Score
  pub forward_rows :
      (X : Type 0) (t : ℕ) (xs : List X) (id : X → ℕ) (row : X → Row) (s : E.State)
      → rows s ≡ map row xs
      → ((E.forward t (map id xs) s).0 ≡ map (λ x. (forward_one t (id x) (row x)).0) xs)
        × ((E.forward t (map id xs) s).1 ≡ map (λ x. (forward_one t (id x) (row x)).1) xs)
        × (rows (E.forward t (map id xs) s).2 ≡ map (λ x. (forward_one t (id x) (row x)).2) xs)
  pub process_rows :
      (X : Type 0) (t : ℕ) (xs : List X) (seq : X → List ℕ) (b : X → ℕ) (logits : X → List E.Score)
      → E.process t (map seq xs) (map b xs) (map logits xs)
        ≡ map (λ x. process_one t (seq x) (b x) (logits x)) xs
  pub sample_rows :
      (X : Type 0) (xs : List X) (probs : X → List E.Score) (s : E.State)
      → ((E.sample (map probs xs) s).0 ≡ map (λ x. pick (probs x)) xs)
        × (rows (E.sample (map probs xs) s).1 ≡ rows s)
  pub update_rows :
      (X : Type 0) (xs : List X) (row : X → Row) (g : X → Bool) (s : E.State)
      → rows s ≡ map row xs
      → rows (E.update_state s (positions 0 (map g xs))) ≡ map row (keep g xs)

module _ (E : Engine) (R : RowWise E) (o : SearchOptions) where
  open E use {Score, Attention, to_original_word_id, log_softmax}
  open R use {Row, forward_one, process_one, pick}

  pub record Lane : Type 0 where
    pub batch_id : ℕ
    pub input : ℕ
    pub sequence : List ℕ
    pub row : Row

  abbrev pub lane_forward : ℕ → Lane → List Score × Attention × Row
  lane_forward step l = forward_one (o.start_step + step) (to_original_word_id l.input) l.row

  abbrev pub lane_allowed : ℕ → Lane → List Score
  lane_allowed step l =
      if is_too_short E o step l.batch_id
      then disable E o.end_ids (lane_forward step l).0
      else (lane_forward step l).0

  abbrev pub lane_processed : ℕ → Lane → List Score
  lane_processed step l =
      if o.has_processors
      then process_one step l.sequence l.batch_id (lane_allowed step l)
      else lane_allowed step l

  abbrev pub lane_probs : ℕ → Lane → List Score
  lane_probs step l =
      if o.return_scores then log_softmax (lane_processed step l) else lane_processed step l

  abbrev pub lane_sample : ℕ → Lane → ℕ × Score
  lane_sample step l = elim o.prefix_ids as (λ _. ℕ × Score) [
    | none ↦ pick (lane_probs step l)
    | some prefixes ↦
        override E step (get_or prefixes l.batch_id []) o.end_ids 0 (pick (lane_probs step l))
  ]

  abbrev pub lane_item : ℕ → Lane → Item E
  lane_item step l = record {
    batch_id = l.batch_id;
    word_id = (lane_sample step l).0;
    score = (lane_sample step l).1;
    weights = if gather_attention E o then some (lane_forward step l).1 else none;
  }

  abbrev pub lane_next : ℕ → Lane → Lane
  lane_next step l = record {
    batch_id = l.batch_id;
    input = (lane_sample step l).0;
    sequence = if o.has_processors then l.sequence ++ (lane_sample step l).0 ∷ [] else l.sequence;
    row = (lane_forward step l).2;
  }

  abbrev pub goes_on : ℕ → Lane → Bool
  goes_on step l = not (is_finished E o step (lane_item step l))

  -- The lanes of the next step.
  abbrev pub next_lanes : ℕ → List Lane → List Lane
  next_lanes step lanes = map (lane_next step) (keep (goes_on step) lanes)

  -- Greedy search on one row.
  unfoldable pub decode_one : ℕ → ℕ → Lane → DecodingResult E → DecodingResult E
  decode_one zero step l r = r
  decode_one (suc rounds) step l r = elim (is_finished E o step (lane_item step l)) [
    | true ↦ advance E o step (lane_item step l) r
    | false ↦
        decode_one rounds (suc step) (lane_next step l) (advance E o step (lane_item step l) r)
  ]
