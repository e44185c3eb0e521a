-- ===== src/Decoding/Samples.antt =====
-- Each hypothesis of a search for several hypotheses is that of a search on the row alone.
use mathlib.Core.List.{Perm}
use mathlib.Core.List.Perm
use native.Mathlib.Nat.{suc-mul, zero-mul}
use ctranslate.Prelude.{
  ℕ, zero, suc, ◌+◌, ◌-◌, ◌*◌, ◌<◌, ◌≤◌, Bool, Option, none, some, List, [], ◌∷◌, ◌++◌, length,
  get_or, get_elem?, take, drop, map, replicate, iota, ◌≡◌, refl, sym, ap, subst, ◌∙◌, arith,
  length-replicate, length-perm, length-iota, flat_lt, get_or-replicate, get_elem?-lt,
}
use ctranslate.Decoding.Defs.{Engine, SearchOptions, DecodingResult, sort_hypotheses}
use ctranslate.Decoding.Greedy.{no_result, new_result, greedy_search}
use ctranslate.Decoding.Hypotheses.{
  repeat_vector, with_hypotheses, repeated, merge_results, greedy_hypotheses,
}
use ctranslate.Decoding.Lanes.{RowWise, decode_one}
use ctranslate.Decoding.RowSteps.{map-map, length-map}
use ctranslate.Decoding.Length.{own_steps, HasPrefix, greedy_search-decode_one}
use ctranslate.Decoding.ResultCount.{length-greedy_search}
use ctranslate.Decoding.Repeats.{
  get_elem?-repeat_vector, length-repeat_vector, map-repeat_vector, take-drop-iota,
  index_vector-map, map-get_or, take_whole, picked, length-merge_results, merge_results-picked,
  picked-below, picked-own,
}

get_or-map :
    {A B : Type 0} (f : A → B) (xs : List A) (b : ℕ) (d : A) (d' : B)
    → b < length xs
    → get_or (map f xs) b d' ≡ f (get_or xs b d)
get_or-map f [] b d d' h = ground (arith, h)
get_or-map f (x ∷ xs) zero d d' h = refl
get_or-map f (x ∷ xs) (suc b) d d' h = get_or-map f xs b d d' (omega (arith, h))

module _ (E : Engine)
    (sort-perm : (before : ℕ → ℕ → Bool) (xs : List ℕ) → Perm (E.sort before xs) xs) where
  sort_hypotheses-perm :
      (n : ℕ) (keep_scores keep_attention : Bool) (r : DecodingResult E)
      → length r.hypotheses ≤ n
      → Perm (sort_hypotheses E n keep_scores keep_attention r).hypotheses r.hypotheses
  unfolding sort_hypotheses
  sort_hypotheses-perm n keep_scores keep_attention r h =
      let before : ℕ → ℕ → Bool =
        λ i j. E.greater (get_or r.scores i E.zero_score) (get_or r.scores j E.zero_score) in
      let idx = E.sort before (iota 0 (length r.hypotheses)) in
      let p = sort-perm before (iota 0 (length r.hypotheses)) in
      let short : length idx ≤ n =
        omega (arith, h, length-perm p, length-iota 0 (length r.hypotheses)) in
      let all =
        index_vector-map [] r.hypotheses (take n idx)
        ∙ ap (map (λ i. get_or r.hypotheses i [])) (take_whole n idx short) in
      subst (λ l. Perm l r.hypotheses) (sym all)
        (subst (λ l. Perm (map (λ i. get_or r.hypotheses i []) idx) l) (map-get_or [] r.hypotheses)
          (Perm.map (λ i. get_or r.hypotheses i []) p))

block_le : (b k n : ℕ) → b < k → b * n + n ≤ k * n
block_le b zero n h = ground (arith, h)
block_le zero (suc k) n h = omega (arith, suc-mul k n, zero-mul n)
block_le (suc b) (suc k) n h =
    omega (arith, suc-mul b n, suc-mul k n, block_le b k n (omega (arith, h)))

module _ (E : Engine) (R : RowWise E) (n : ℕ) where
  -- The callback of the inner search is another one; all else is the same.
  abbrev pub with_hypotheses_rows : RowWise (with_hypotheses E n)
  with_hypotheses_rows = record {
    Row = R.Row;
    rows = R.rows;
    forward_one = R.forward_one;
    process_one = R.process_one;
    pick = R.pick;
    forward_rows = R.forward_rows;
    process_rows = R.process_rows;
    sample_rows = R.sample_rows;
    update_rows = R.update_rows;
  }

  -- The search for the hypothesis `j` of the row `b` alone.
  abbrev pub sampled_result :
      SearchOptions → ℕ → ℕ → R.Row → ℕ → DecodingResult (with_hypotheses E n)
  sampled_result o b id row j =
      decode_one (with_hypotheses E n) with_hypotheses_rows (repeated o n)
        (own_steps (repeated o n) (b * n + j)) 0
        (record { batch_id = b * n + j; input = id; sequence = []; row = row })
        (new_result (with_hypotheses E n) (repeated o n))

repeated-HasPrefix :
    (prefixes : Option (List (List ℕ))) (n b j : ℕ)
    → (elim prefixes as (λ _. Type 0) [ none ↦ Unit | some ps ↦ b < length ps ])
    → j < n
    → (elim (elim prefixes as (λ _. Option (List (List ℕ))) [
      | none ↦ none
      | some ps ↦ some (repeat_vector ps n)
    ])
        as (λ _. Type 0) [ none ↦ Unit | some ps ↦ b * n + j < length ps ])
repeated-HasPrefix none n b j h k = tt
repeated-HasPrefix (some ps) n b j h k =
    omega (arith, flat_lt b (length ps) j n h k, length-repeat_vector n ps)

module _ (E : Engine)
    (sort-perm : (before : ℕ → ℕ → Bool) (xs : List ℕ) → Perm (E.sort before xs) xs) (R : RowWise E)
    (o : SearchOptions) (n : ℕ) where
  -- The result of the inner search at the place of the row `b` and the hypothesis `j`.
  inner_result :
      (starts : List (ℕ × R.Row)) (state : E.State) (b id : ℕ) (row : R.Row) (j : ℕ)
      → R.rows (E.repeat_batch n state) ≡ repeat_vector (map (λ p. p.1) starts) n
      → get_elem? starts b ≡ some (id, row)
      → 0 < o.max_length
      → HasPrefix o b
      → j < n
      → get_or
          (greedy_search
            (with_hypotheses E n)
            (repeated o n)
            (repeat_vector (map (λ p. p.0) starts) n)
            (E.repeat_batch n state))
          (b * n + j)
          (no_result (with_hypotheses E n))
        ≡ sampled_result E R n o b id row j
  inner_result starts state b id row j h g k p lt =
      ap
        (λ v.
          get_or (greedy_search (with_hypotheses E n) (repeated o n) v (E.repeat_batch n state))
            (b * n + j) (no_result (with_hypotheses E n)))
        (sym (map-repeat_vector (λ q. q.0) starts n))
      ∙ greedy_search-decode_one (with_hypotheses E n) (with_hypotheses_rows E R n) (repeated o n)
          (repeat_vector starts n) (E.repeat_batch n state) (b * n + j) id row
          (h ∙ sym (map-repeat_vector (λ q. q.1) starts n))
          (get_elem?-repeat_vector n b j starts (id, row) lt g) k
          (repeated-HasPrefix o.prefix_ids n b j p lt)

  -- The hypotheses of the final result before they are sorted.
  merged_hypotheses :
      (results : List (DecodingResult (with_hypotheses E n))) (batch b : ℕ)
      (f : ℕ → DecodingResult (with_hypotheses E n))
      → 0 < n
      → b < batch
      → length results ≡ batch * n
      → ((j : ℕ) → j < n → get_or results (b * n + j) (no_result (with_hypotheses E n)) ≡ f j)
      → (get_or
          (merge_results E n o 0 results (replicate batch (no_result E)))
          b
          (no_result E)).hypotheses
        ≡ map (λ j. get_or (f j).hypotheses 0 []) (iota 0 n)
  merged_hypotheses results batch b f positive lb size one =
      let room : b * n + n ≤ length results = omega (arith, size, block_le b batch n lb) in
      let first : DecodingResult (with_hypotheses E n) → List ℕ = λ r. get_or r.hypotheses 0 [] in
      merge_results-picked E n positive o b 0 results (replicate batch (no_result E))
        (omega (arith, lb, length-replicate batch (no_result E)))
      ∙ ap (λ r. r.hypotheses ++ picked E n positive b 0 results)
          (get_or-replicate batch b (no_result E) (no_result E) lb)
      ∙ picked-below E n positive b 0 results (omega arith) (omega (arith, room, positive))
      ∙ picked-own E n positive b (b * n) n (drop (b * n - 0) results) (omega arith) refl
      ∙ ap (map first) (
          take-drop-iota n (b * n - 0) 0 results (no_result (with_hypotheses E n)) f
            (omega (arith, room))
            (λ j m l lt q r.
              ap (λ x. get_or results x (no_result (with_hypotheses E n))) (omega (arith, q, r))
              ∙ one l (omega (arith, lt, r))))
      ∙ map-map first f (iota 0 n)

  -- When the decoder, the logits processors and the sampler treat each row by itself, the decoder state is
  -- repeated row by row, and the sort rearranges its input, a search for several hypotheses gives for each
  -- row, in some order, exactly the hypotheses of that many searches on the row alone, in each of which
  -- the callback is told the row and the number of the hypothesis. The number of hypotheses and
  -- max_length are positive, and each row has a prefix, if there are prefixes.
  pub greedy_hypotheses-perm :
      (starts : List (ℕ × R.Row)) (state : E.State) (b id : ℕ) (row : R.Row)
      → R.rows (E.repeat_batch n state) ≡ repeat_vector (map (λ p. p.1) starts) n
      → get_elem? starts b ≡ some (id, row)
      → 0 < n
      → 0 < o.max_length
      → HasPrefix o b
      → Perm
          (get_or
            (greedy_hypotheses E n o (map (λ p. p.0) starts) state)
            b
            (no_result E)).hypotheses
          (map (λ j. get_or (sampled_result E R n o b id row j).hypotheses 0 []) (iota 0 n))
  unfolding greedy_hypotheses
  greedy_hypotheses-perm starts state b id row h g positive k p =
      let ids = map (λ (q : ℕ × R.Row). q.0) starts in
      let results =
        greedy_search (with_hypotheses E n) (repeated o n) (repeat_vector ids n)
          (E.repeat_batch n state) in
      let merged = merge_results E n o 0 results (replicate (length ids) (no_result E)) in
      let final = get_or merged b (no_result E) in
      let lb : b < length ids =
        omega
          (arith, get_elem?-lt starts b (id, row) g, length-map (λ (q : ℕ × R.Row). q.0) starts) in
      let size =
        length-greedy_search (with_hypotheses E n) (repeated o n) (repeat_vector ids n)
          (E.repeat_batch n state)
        ∙ length-repeat_vector n ids in
      let hyp =
        merged_hypotheses results (length ids) b (sampled_result E R n o b id row) positive lb size
          (λ j. inner_result starts state b id row j h g k p) in
      let few : length final.hypotheses ≤ n = omega (
        arith,
        ap length hyp,
        length-map (λ j. get_or (sampled_result E R n o b id row j).hypotheses 0 []) (iota 0 n),
        length-iota 0 n,
      ) in
      let lm : b < length merged = omega (
        arith,
        lb,
        length-merge_results E n positive o 0 results (replicate (length ids) (no_result E)),
        length-replicate (length ids) (no_result E),
      ) in
      subst
        (λ r.
          Perm r.hypotheses
            (map (λ j. get_or (sampled_result E R n o b id row j).hypotheses 0 []) (iota 0 n)))
        (sym (
          get_or-map (sort_hypotheses E n o.return_scores o.return_attention) merged b (no_result E)
            (no_result E) lm))
        (subst (Perm (sort_hypotheses E n o.return_scores o.return_attention final).hypotheses) hyp
          (sort_hypotheses-perm E sort-perm n o.return_scores o.return_attention final few))
