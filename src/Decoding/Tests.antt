-- ===== src/Decoding/Tests.antt =====
-- A small model with four tokens, and the theorems on it.
use ctranslate.Prelude.{
  ℕ, suc, ◌+◌, ◌≤◌, ◌%◌, ltb, true, false, none, some, List, [], ◌∷◌, length, get_or, set, map,
  replicate, if◌then◌else◌, ◌≡◌, refl, ap, ◌∙◌, arith, inl,
}
use ctranslate.Prelude.Sorting.{sort_by, sort_by-perm}
use ctranslate.Batching.Rebatch.{index_vector}
use ctranslate.Decoding.Defs.{Engine, is_eos, SearchOptions}
use ctranslate.Decoding.Greedy.{
  positions, decode_step, close_step, greedy_search, no_result, new_result,
}
use ctranslate.Decoding.Hypotheses.{repeat_vector}
use ctranslate.Decoding.Lanes.{RowWise, decode_one}
use ctranslate.Decoding.RowSteps.{index_vector-positions}
use ctranslate.Decoding.Length.{own_steps, greedy_search-decode_one}
use ctranslate.Decoding.MaxLength.{greedy_search-max_length}
use ctranslate.Decoding.Prefix.{greedy_search-prefix}

-- The best token, the first of those with the best score.
best_from : ℕ → ℕ → ℕ → List ℕ → ℕ × ℕ
best_from i at best [] = (at, best)
best_from i at best (s ∷ row) =
    if ltb best s then best_from (suc i) i s row else best_from (suc i) at best row

best_token : List ℕ → ℕ × ℕ
unfolding best_from
best_token row = best_from 0 0 0 row

-- The state of a row counts its steps. The next token is one more than the last one.
next_token : ℕ → ℕ → List ℕ × ℕ × ℕ
next_token id row = (set (replicate 4 0) ((id + 1) % 4) (row + 1), id, row + 1)

step_rows : List ℕ → List ℕ → List (List ℕ) × List ℕ × List ℕ
unfolding next_token
step_rows (id ∷ ids) (row ∷ rows) =
    let (logits, weights, rows') = step_rows ids rows in
    let (l, w, row') = next_token id row in (l ∷ logits, w ∷ weights, row' ∷ rows')
step_rows [] rows = ([], [], [])
step_rows (id ∷ ids) [] = ([], [], [])

abbrev counting : Engine
counting = record {
  Score = ℕ;
  Attention = ℕ;
  State = List ℕ;
  forward = λ t. step_rows;
  update_state = index_vector 0;
  repeat_batch = λ n s. repeat_vector s n;
  to_original_word_id = λ id. id;
  process = λ t seqs offset logits. logits;
  log_softmax = λ row. row;
  sample = λ rows s. (map best_token rows, s);
  callback = λ step b hyp w score over. false;
  zero_score = 0;
  low_score = 0;
  lowest = 0;
  add_score = λ s t. s + t;
  final_score = λ s n weights. s;
  sort = sort_by;
  greater = λ s t. ltb t s;
}

step_rows-map :
    {X : Type 0} (xs : List X) (id row : X → ℕ)
    → step_rows (map id xs) (map row xs) ≡ (
      map (λ x. (next_token (id x) (row x)).0) xs,
      map (λ x. (next_token (id x) (row x)).1) xs,
      map (λ x. (next_token (id x) (row x)).2) xs,
    )
unfolding step_rows
step_rows-map [] id row = refl
step_rows-map (x ∷ xs) id row =
    let (l, w, r) = next_token (id x) (row x) in
    let ih = step_rows-map xs id row in λ i. (l ∷ (ih i).0, w ∷ (ih i).1, r ∷ (ih i).2)

map-both :
    {X Y Z : Type 0} (f : Y → Z) (g : X → Y) (xs : List X)
    → map f (map g xs) ≡ map (λ x. f (g x)) xs
map-both f g [] = refl
map-both f g (x ∷ xs) = ap (◌∷◌ (f (g x))) (map-both f g xs)

abbrev counting_rows : RowWise counting
counting_rows = record {
  Row = ℕ;
  rows = λ s. s;
  forward_one = λ t. next_token;
  process_one = λ t seq b row. row;
  pick = best_token;
  forward_rows = λ X t xs id row s h.
      let e = ap (step_rows (map id xs)) h ∙ step_rows-map xs id row in
      (ap (λ x. x.0) e, ap (λ x. x.1) e, ap (λ x. x.2) e);
  process_rows = λ X t xs seq b logits. refl;
  sample_rows = λ X xs probs s. (map-both best_token probs xs, refl);
  update_rows = λ X xs row g s h.
      ap (λ v. index_vector 0 v (positions 0 (map g xs))) h ∙ index_vector-positions 0 row g xs;
}

-- Rows that start from the tokens 0 and 1; the token 3 ends a row.
abbrev plain : SearchOptions
plain = record {
  end_ids = 3 ∷ [];
  start_step = 0;
  max_length = 5;
  min_length = 0;
  return_scores = true;
  return_attention = false;
  return_prefix = true;
  include_eos_in_hypotheses = false;
  has_coverage = false;
  has_processors = true;
  prefix_ids = none;
}

-- The second row has no prefix.
abbrev prefixed : SearchOptions
prefixed = record plain { prefix_ids = some ((2 ∷ 0 ∷ []) ∷ [] ∷ []) }

abbrev starts : List (ℕ × ℕ)
starts = (0, 10) ∷ (1, 20) ∷ []

plain_run :
    map (λ r. r.hypotheses) (greedy_search counting plain (0 ∷ 1 ∷ []) (10 ∷ 20 ∷ []))
    ≡ ((1 ∷ 2 ∷ []) ∷ []) ∷ ((2 ∷ []) ∷ []) ∷ []
unfolding greedy_search decode_step close_step step_rows next_token best_token sort_by
plain_run = refl

prefixed_run :
    map (λ r. r.hypotheses) (greedy_search counting prefixed (0 ∷ 1 ∷ []) (10 ∷ 20 ∷ []))
    ≡ ((2 ∷ 0 ∷ 1 ∷ 2 ∷ []) ∷ []) ∷ ((2 ∷ []) ∷ []) ∷ []
unfolding greedy_search decode_step close_step step_rows next_token best_token sort_by
prefixed_run = refl

greedy_search-decode_one_example :
    get_or (greedy_search counting plain (0 ∷ 1 ∷ []) (10 ∷ 20 ∷ [])) 1 (no_result counting)
    ≡ decode_one counting counting_rows plain
        (own_steps plain 1)
        0
        (record { batch_id = 1; input = 1; sequence = []; row = 20 })
        (new_result counting plain)
greedy_search-decode_one_example =
    greedy_search-decode_one counting counting_rows plain starts (10 ∷ 20 ∷ []) 1 1 20 refl refl
      (omega arith) tt

greedy_search-max_length_example :
    (h : List ℕ) × ((get_or
        (greedy_search counting prefixed (0 ∷ 1 ∷ []) (10 ∷ 20 ∷ []))
        0
        (no_result counting)).hypotheses
      ≡ h ∷ [])
    × (length h ≤ 5)
greedy_search-max_length_example =
    greedy_search-max_length counting sort_by-perm counting_rows prefixed starts (10 ∷ 20 ∷ []) 0 0
      10 refl refl (omega arith) (omega arith) (inl refl)

greedy_search-prefix_example :
    (rest : List ℕ) × ((get_or
        (greedy_search counting prefixed (0 ∷ 1 ∷ []) (10 ∷ 20 ∷ []))
        0
        (no_result counting)).hypotheses
      ≡ (2 ∷ 0 ∷ rest) ∷ [])
unfolding is_eos
greedy_search-prefix_example =
    greedy_search-prefix counting sort_by-perm counting_rows prefixed ((2 ∷ 0 ∷ []) ∷ [] ∷ []) refl
      refl 0 (refl, (refl, tt)) (λ step i j w s over. refl) starts (10 ∷ 20 ∷ []) 0 10 refl refl
      (omega arith) (omega arith) (omega arith)
