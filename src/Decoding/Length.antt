-- ===== src/Decoding/Length.antt =====
-- How many steps a row takes, and how long its hypothesis becomes.
use ctranslate.Prelude.{
  ℕ, zero, suc, ◌+◌, ◌<◌, ◌≤◌, max, Bool, true, false, Bool-cases, Option, none, some, List, [],
  ◌∷◌, length, get_or, get_elem?, map, if◌then◌else◌, ◌≡◌, sym, ◌∙◌, arith, inl, inr,
}
use ctranslate.Decoding.Defs.{
  Engine, SearchOptions, DecodingResult, get_max_step, longest, prefix_of, is_last_step,
}
use ctranslate.Decoding.Greedy.{Item, is_finished, no_result, new_result, greedy_search}
use ctranslate.Decoding.Lanes.{RowWise, Lane, lane_item, lane_next, decode_one}
use ctranslate.Decoding.Batch.{decode_one-suc}
use ctranslate.Decoding.Start.{greedy_search-rounds}

-- The number of tokens that do not count.
abbrev pub free_tokens : SearchOptions → ℕ → ℕ
free_tokens o b = if o.return_prefix then 0 else length (prefix_of o b)

abbrev pub own_steps : SearchOptions → ℕ → ℕ
own_steps o b = o.max_length + free_tokens o b

-- The row has a prefix, if there are prefixes.
abbrev pub HasPrefix : SearchOptions → ℕ → Type 0
HasPrefix o b = elim o.prefix_ids [ none ↦ Unit | some prefixes ↦ b < length prefixes ]

longest-ge : (m : ℕ) (ps : List (List ℕ)) (acc : ℕ) → acc ≤ longest m ps acc
unfolding longest
longest-ge m [] acc = omega arith
longest-ge m (p ∷ ps) acc = omega (arith, longest-ge m ps (max acc (length p + m)))

longest-get_or :
    (m : ℕ) (ps : List (List ℕ)) (acc b : ℕ)
    → b < length ps
    → m + length (get_or ps b []) ≤ longest m ps acc
unfolding longest
longest-get_or m [] acc b h = ground (arith, h)
longest-get_or m (p ∷ ps) acc zero h = omega (arith, longest-ge m ps (max acc (length p + m)))
longest-get_or m (p ∷ ps) acc (suc b) h =
    longest-get_or m ps (max acc (length p + m)) b (omega (arith, h))

own_steps-le :
    (m : ℕ) (rp : Bool) (prefixes : Option (List (List ℕ))) (b : ℕ)
    → (elim prefixes as (λ _. Type 0) [ none ↦ Unit | some ps ↦ b < length ps ])
    → m
        + (if rp
            then 0
            else length (elim prefixes as (λ _. List ℕ) [ none ↦ [] | some ps ↦ get_or ps b [] ]))
      ≤ get_max_step m rp prefixes
unfolding get_max_step
own_steps-le m true none b h = omega arith
own_steps-le m false none b h = omega arith
own_steps-le m true (some ps) b h = omega arith
own_steps-le m false (some ps) b h = longest-get_or m ps 0 b h

module _ (E : Engine) (R : RowWise E) (o : SearchOptions) where
  -- The last step of a row ends it.
  is_finished-last :
      (step : ℕ) (t : Item E) → suc step ≡ own_steps o t.batch_id → is_finished E o step t ≡ true
  unfolding is_finished is_last_step
  is_finished-last step t h = ground (arith, h)

  decode_one-enough :
      (rounds rounds' step : ℕ) (l : Lane E R o) (r : DecodingResult E)
      → step < own_steps o l.batch_id
      → own_steps o l.batch_id ≤ step + rounds
      → own_steps o l.batch_id ≤ step + rounds'
      → decode_one E R o rounds step l r ≡ decode_one E R o rounds' step l r
  decode_one-enough zero rounds' step l r h k k' = ground (arith, h, k)
  decode_one-enough (suc rounds) zero step l r h k k' = ground (arith, h, k')
  decode_one-enough (suc rounds) (suc rounds') step l r h k k' =
      elim (Bool-cases (is_finished E o step (lane_item E R o step l))) [
        | inl g ↦
            decode_one-suc E R o rounds step l r true g
            ∙ sym (decode_one-suc E R o rounds' step l r true g)
        | inr g ↦
            let more : suc step < own_steps o l.batch_id =
              ground (arith, h, g, is_finished-last step (lane_item E R o step l)) in
            decode_one-suc E R o rounds step l r false g
            ∙ decode_one-enough rounds rounds' (suc step) (lane_next E R o step l) _ more
                (omega (arith, k)) (omega (arith, k'))
            ∙ sym (decode_one-suc E R o rounds' step l r false g)
      ]

  -- When the decoder, the logits processors and the sampler treat each row by itself, greedy search
  -- on a batch, whose rows end at different steps and leave it, gives for each row the result of the
  -- greedy search on that row alone, for max_length steps and one for each token of its prefix that is
  -- not returned. max_length is positive and each row has a prefix, if there are prefixes.
  pub greedy_search-decode_one :
      (starts : List (ℕ × R.Row)) (state : E.State) (b id : ℕ) (row : R.Row)
      → R.rows state ≡ map (λ p. p.1) starts
      → get_elem? starts b ≡ some (id, row)
      → 0 < o.max_length
      → HasPrefix o b
      → get_or (greedy_search E o (map (λ p. p.0) starts) state) b (no_result E)
        ≡ decode_one E R o
            (own_steps o b)
            0
            (record { batch_id = b; input = id; sequence = []; row = row })
            (new_result E o)
  unfolding prefix_of
  greedy_search-decode_one starts state b id row h g k p =
      greedy_search-rounds E R o starts state b id row h g
      ∙ decode_one-enough _ (own_steps o b) 0 _ (new_result E o) (omega (arith, k))
          (omega (arith, own_steps-le o.max_length o.return_prefix o.prefix_ids b p)) (omega arith)
