-- ===== src/Replica/Writing.antt =====
-- consume_batches writes one result for each example, in the order of the input.
use mathlib.Core.List.{Perm, map-append}
use ctranslate.Prelude.{
  ℕ, zero, suc, ◌*◌, ◌^◌, ◌≤◌, ◌<◌, Bool, true, false, List, [], ◌∷◌, ◌++◌, All, map, length, take,
  drop, is_nil, Option, some, ◌≡◌, refl, sym, ap, subst, ◌∙◌, Error, Result, Run, done, and_then,
  arith, append_assoc, append-nil, length-append, All-append_left, All-append_right,
  take-append-drop,
}
use ctranslate.Batching.Defs.{BatchType, Example, example_length, Reader, get_next}
use ctranslate.Batching.Feeds.{Delivers}
use ctranslate.Batching.Cut.{cut_batch}
use ctranslate.Batching.CutLaws.{cut_batch-append, is_nil-cut_batch}
use ctranslate.Batching.FillLaws.{get_next-Reads}
use ctranslate.Batching.RebatchLaws.{length-rest}
use ctranslate.Batching.VectorLaws.{HasStreams}
use ctranslate.Replica.Defs.{Shared, value, Failure, run_jobs}
use ctranslate.Replica.Posting.{Client}
use ctranslate.Replica.Schedules.{IsSchedule}
use ctranslate.Replica.InOrder.{IsPointwise, post_examples_for_futures-InOrder}
use ctranslate.Replica.Consuming.{
  ended, pop_ready, pop_all, effective_read_size, posted, consume, consume_batches,
}

module _ {R : Type 0} where
  abbrev values : List R → List (Shared R (Failure Error))
  values rs = map value rs

  pop_ready-values :
      (n : ℕ) (rs written : List R)
      → pop_ready n (values rs) written ≡ done (values (drop n rs), written ++ take n rs)
  unfolding pop_ready
  pop_ready-values zero rs written = ap (λ w. done (values rs, w)) (sym (append-nil written))
  pop_ready-values (suc n) [] written = ap (λ w. done ([], w)) (sym (append-nil written))
  pop_ready-values (suc n) (r ∷ rs) written =
      pop_ready-values n rs (written ++ r ∷ [])
      ∙ ap (λ w. done (values (drop n rs), w)) (append_assoc written (r ∷ []) (take n rs))

  pop_all-values : (rs written : List R) → pop_all (values rs) written ≡ done (written ++ rs)
  unfolding pop_all
  pop_all-values [] written = ap done (sym (append-nil written))
  pop_all-values (r ∷ rs) written =
      pop_all-values rs (written ++ r ∷ []) ∙ ap done (append_assoc written (r ∷ []) rs)

  values-append : (xs ys : List R) → values xs ++ values ys ≡ values (xs ++ ys)
  values-append [] ys = refl
  values-append (x ∷ xs) ys = ap (◌∷◌ (value x)) (values-append xs ys)

  values-map :
      {A : Type 0} (f : A → R) (xs : List A) → map (λ a. value (f a)) xs ≡ values (map f xs)
  values-map f [] = refl
  values-map f (x ∷ xs) = ap (◌∷◌ (value (f x))) (values-map f xs)

  -- What is written and what waits, before and after a round.
  regroup :
      {A : Type 0} (f : A → R) (n : ℕ) (written rs : List R) (part rest es : List A)
      → part ++ rest ≡ es
      → (written ++ take n (rs ++ map f part)) ++ (drop n (rs ++ map f part) ++ map f rest)
        ≡ written ++ (rs ++ map f es)
  regroup f n written rs part rest es q =
      append_assoc written (take n (rs ++ map f part)) (drop n (rs ++ map f part) ++ map f rest)
      ∙ ap (◌++◌ written) (
          sym (append_assoc (take n (rs ++ map f part)) (drop n (rs ++ map f part)) (map f rest))
          ∙ ap (λ l. l ++ map f rest) (take-append-drop n (rs ++ map f part))
          ∙ append_assoc rs (map f part) (map f rest)
          ∙ ap (◌++◌ rs) (sym (map-append f part rest) ∙ ap (map f) q))

module _ {S Replica R : Type 0} (next : S → Result (Example × S))
    (sort : (ℕ → ℕ → Bool) → List ℕ → List ℕ)
    (sort-perm : (before : ℕ → ℕ → Bool) (xs : List ℕ) → Perm (sort before xs) xs)
    (func : Client Replica R Error) (translate : Example → R)
    (pointwise : IsPointwise func translate) (order : ℕ → ℕ → List ℕ)
    (scheduled : (round : ℕ) → IsSchedule (order round)) (replica : ℕ → ℕ → Option Replica)
    (present : (round k : ℕ) → (r : Replica) × (replica round k ≡ some r)) where
  posted-values :
      (round : ℕ) (es : List Example) (max_size : ℕ) (type : BatchType) (L : ℕ)
      → HasStreams es
      → 0 < L
      → All (λ e. example_length e 0 ≤ L) es
      → length es * L < 2 ^ 64
      → posted next sort func order replica round es max_size type
        ≡ done (values (map translate es))
  unfolding posted
  posted-values round es max_size type L full pos bounded small =
      let run =
        post_examples_for_futures-InOrder sort sort-perm func translate pointwise (replica round)
          (present round) (order round) (scheduled round) es max_size type L full pos bounded small
          [] in
      ap
        (λ r. and_then r (λ x. ended (run_jobs x.1 (replica round) (order round (length x.1)) x.2)))
        run.posted
      ∙ ap ended run.ran
      ∙ ap done (values-map translate es)

  module _ (ready : ℕ → ℕ) (reads max_batch_size : ℕ) (type : BatchType) (L size : ℕ) where
    abbrev loop : ℕ → ℕ → Reader S → List (Shared R (Failure Error)) → List R → Run (List R)
    loop fuel round reader results written =
        consume next sort func order replica ready reads max_batch_size type fuel round size reader
          results written

    last_round :
        (fuel round : ℕ) (reader reader' : Reader S) (part : List Example)
        (results : List (Shared R (Failure Error))) (written : List R)
        → get_next next reads size type false reader ≡ done (part, reader')
        → is_nil part ≡ true
        → loop (suc fuel) round reader results written ≡ pop_all results written
    unfolding consume
    last_round fuel round reader reader' part results written h e =
        rw (h, consume) (rw (e, and_then) refl)

    next_round :
        (fuel round : ℕ) (reader reader' : Reader S) (part : List Example)
        (results futures results' : List (Shared R (Failure Error))) (written written' : List R)
        → get_next next reads size type false reader ≡ done (part, reader')
        → is_nil part ≡ false
        → posted next sort func order replica round part max_batch_size type ≡ done futures
        → pop_ready (ready round) (results ++ futures) written ≡ done (results', written')
        → loop (suc fuel) round reader results written
          ≡ loop fuel (suc round) reader' results' written'
    unfolding consume
    next_round fuel round reader reader' part results futures results' written written' h e p q =
        rw (h, consume) (rw (e, and_then) (rw (p, and_then) (rw (q, and_then) refl)))

    -- What is asked of the examples that are left.
    pub record Fit (es : List Example) : Type 0 where
      pub full : HasStreams es
      pub bounded : All (λ e. example_length e 0 ≤ L) es
      pub small : length es * L < 2 ^ 64

    Fit-left : (xs ys es : List Example) → xs ++ ys ≡ es → Fit es → Fit xs
    Fit-left xs ys es q h = record {
      full = All-append_left _ xs ys (subst HasStreams (sym q) h.full);
      bounded = All-append_left _ xs ys (subst (All _) (sym q) h.bounded);
      small =
          fewer (length xs) (length es) (omega (arith, ap length q, length-append xs ys)) h.small;
    }
      where
        fewer : (m n : ℕ) → m ≤ n → n * L < 2 ^ 64 → m * L < 2 ^ 64
        fewer m n h k = grind arith

    Fit-right : (xs ys es : List Example) → xs ++ ys ≡ es → Fit es → Fit ys
    Fit-right xs ys es q h = record {
      full = All-append_right _ xs ys (subst HasStreams (sym q) h.full);
      bounded = All-append_right _ xs ys (subst (All _) (sym q) h.bounded);
      small =
          fewer (length ys) (length es) (omega (arith, ap length q, length-append xs ys)) h.small;
    }
      where
        fewer : (m n : ℕ) → m ≤ n → n * L < 2 ^ 64 → m * L < 2 ^ 64
        fewer m n h k = grind arith

    loop_writes :
        (fuel round : ℕ) (reader : Reader S) (es : List Example) (rs written : List R)
        → 0 < L
        → 0 < size
        → length es < reads
        → length es < fuel
        → Fit es
        → Delivers next reader es
        → loop fuel round reader (values rs) written ≡ done (written ++ (rs ++ map translate es))
    loop_writes zero round reader es rs written pos some_size k h fit d = absurd (omega arith)
    loop_writes (suc fuel) round reader [] rs written pos some_size k h fit d =
        let read = get_next-Reads next reads size type false reader [] some_size k d in
        last_round fuel round reader read.after _ (values rs) written read.returns
          (is_nil-cut_batch size type false [])
        ∙ pop_all-values rs written
        ∙ ap (λ l. done (written ++ l)) (sym (append-nil rs))
    loop_writes (suc fuel) round reader (x ∷ xs) rs written pos some_size k h fit d =
        let part = (cut_batch size type false (x ∷ xs)).0 in
        let rest = (cut_batch size type false (x ∷ xs)).1 in
        let read = get_next-Reads next reads size type false reader (x ∷ xs) some_size k d in
        let q : part ++ rest ≡ x ∷ xs = cut_batch-append size type false (x ∷ xs) in
        let full : is_nil part ≡ false = is_nil-cut_batch size type false (x ∷ xs) in
        let fewer : length rest < length (x ∷ xs) = length-rest part rest (x ∷ xs) q full in
        let now = Fit-left part rest (x ∷ xs) q fit in
        let waiting : List R = rs ++ map translate part in
        next_round fuel round reader read.after part (values rs) (values (map translate part)) _
          written _ read.returns full
          (posted-values round part max_batch_size type L now.full pos now.bounded now.small)
          (ap (λ l. pop_ready (ready round) l written) (values-append rs (map translate part))
            ∙ pop_ready-values (ready round) waiting written)
        ∙ loop_writes fuel (suc round) read.after rest (drop (ready round) waiting)
            (written ++ take (ready round) waiting) pos some_size (omega arith) (omega arith)
            (Fit-right part rest (x ∷ xs) q fit) read.left
        ∙ ap done (regroup translate (ready round) written rs part rest (x ∷ xs) q)

  -- For a reader that ends and does not throw, examples that each have a stream and whose sizes do
  -- not overflow, a size of reads that is not 0, a client that gives each example its own result,
  -- workers that have replicas, and jobs that are each run once in their round, in any order: with
  -- fuel for the examples, the call returns, and the results of all examples have been written in
  -- the order of the input, however many futures are ready after each round.
  pub consume_batches-writes :
      (ready : ℕ → ℕ) (reads max_batch_size read_batch_size fuel : ℕ) (type : BatchType) (L : ℕ)
      (reader : Reader S) (es : List Example)
      → 0 < L
      → 0 < effective_read_size max_batch_size read_batch_size
      → length es < reads
      → length es < fuel
      → HasStreams es
      → All (λ e. example_length e 0 ≤ L) es
      → length es * L < 2 ^ 64
      → Delivers next reader es
      → consume_batches next sort func order replica ready reads max_batch_size type fuel
          read_batch_size reader
        ≡ done (map translate es)
  unfolding consume_batches
  consume_batches-writes ready reads max_batch_size read_batch_size fuel type L reader es pos
        some_size k h full bounded small d =
      loop_writes ready reads max_batch_size type L
        (effective_read_size max_batch_size read_batch_size) fuel 0 reader es [] [] pos some_size k
        h (record { full = full; bounded = bounded; small = small }) d
