-- ===== src/Replica/InOrder.antt =====
-- A client that treats each example by itself: the futures hold the results in the order of the
-- examples.
use mathlib.Core.List.{Perm}
use ctranslate.Prelude.{
  ℕ, zero, suc, ◌+◌, ◌-◌, ◌*◌, ◌^◌, ◌≤◌, ◌<◌, Bool, List, ◌++◌, All, map, length, get_elem?, get_or,
  iota, replicate, ◌≢◌, ◌≡◌, refl, sym, ap, ◌∙◌, Option, some, dec_lt, done, arith, length-append,
  length-replicate, length-iota,
}
use ctranslate.Prelude.Reading.{
  list_ext, get_elem?-left, get_elem?-right, get_elem?-replicate, get_elem?-map_at,
  get_elem?-get_or, All-get,
}
use ctranslate.Prelude.Distinct.{Nodup-iota}
use ctranslate.Batching.Defs.{BatchType, Example, example_length, no_example}
use ctranslate.Batching.Rebatch.{Batch, index_vector}
use ctranslate.Batching.VectorLaws.{HasStreams}
use ctranslate.Decoding.RowSteps.{length-map}
use ctranslate.Replica.Defs.{
  Shared, pending, value, Store, returns, Failure, Job, outcome, with_thread_replica, run_jobs,
}
use ctranslate.Replica.Posting.{Client, new_promises, post_examples_for_futures}
use ctranslate.Replica.Settling.{IsPending}
use ctranslate.Replica.Places.{get_elem?-index_vector}
use ctranslate.Replica.Schedules.{IsComplete, IsSchedule}
use ctranslate.Replica.Answers.{PostRun, post_examples-PostRun}

get_or-iota : (b n i d : ℕ) → i < n → get_or (iota b n) i d ≡ b + i
get_or-iota b zero i d h = absurd (omega arith)
get_or-iota b (suc n) zero d h = omega arith
get_or-iota b (suc n) (suc i) d h = omega (arith, get_or-iota (suc b) n i d (omega arith))

before-iota : (p b n : ℕ) → p < b → All (λ q. p ≢ q) (iota b n)
before-iota p b zero h = tt
before-iota p b (suc n) h = (λ e. omega (arith, e), before-iota p (suc b) n (omega arith))

module _ {R E : Type 0} (s : Store R E) where
  new_pending :
      (b n i m : ℕ)
      → b ≡ length s + i
      → i + n ≤ m
      → All (IsPending (s ++ replicate m pending)) (iota b n)
  new_pending b zero i m e h = tt
  new_pending b (suc n) i m e h = (
    ap (get_elem? (s ++ replicate m pending)) e
        ∙ get_elem?-right s (replicate m pending) i
        ∙ get_elem?-replicate m i pending (omega arith),
    new_pending (suc b) n (suc i) m (omega arith) (omega arith),
  )

-- The client gives each example of a batch its own result, whatever the replica and the batch.
abbrev pub IsPointwise : {Replica R E : Type 0} → Client Replica R E → (Example → R) → Type 0
IsPointwise {Replica} func translate =
    (replica : Replica) (b : Batch) → func replica b ≡ returns (map translate b.members)

-- The jobs that post_examples_for_futures posts, and what they leave behind the states before.
pub record InOrder {Replica R E : Type 0} (sort : (ℕ → ℕ → Bool) → List ℕ → List ℕ)
    (es : List Example) (max_size : ℕ) (type : BatchType) (func : Client Replica R E)
    (translate : Example → R) (replica : ℕ → Option Replica) (order : ℕ → List ℕ)
    (s : Store R (Failure E)) : Type 0 where
  pub jobs : List (Job Replica R E)
  pub posted :
      post_examples_for_futures sort es max_size type func s
      ≡ done (iota (length s) (length es), jobs, s ++ replicate (length es) pending)
  pub ran :
      run_jobs jobs replica (order (length jobs)) (s ++ replicate (length es) pending)
      ≡ some (s ++ map (λ e. value (translate e)) es)

module _ (sort : (ℕ → ℕ → Bool) → List ℕ → List ℕ)
    (sort-perm : (before : ℕ → ℕ → Bool) (xs : List ℕ) → Perm (sort before xs) xs)
    {Replica R E : Type 0} (func : Client Replica R E) (translate : Example → R)
    (pointwise : IsPointwise func translate) (replica : ℕ → Option Replica)
    (present : (k : ℕ) → (r : Replica) × (replica k ≡ some r)) (order : ℕ → List ℕ)
    (scheduled : IsSchedule order) where
  pub complete : IsComplete func
  complete r b results h =
      let e : results ≡ map translate b.members = cc (h, pointwise r b) in
      ap length e ∙ length-map translate b.members

  pub outcome_of :
      (es : List Example) (k j i : ℕ) (b : Batch)
      → b.members ≡ index_vector no_example es b.example_index
      → get_elem? b.example_index j ≡ some i
      → outcome (with_thread_replica (λ r. func r b) (replica k)) j
        ≡ some (value (translate (get_or es i no_example)))
  unfolding with_thread_replica outcome
  outcome_of es k j i b named at =
      let (r, e) = present k in
      let here : get_elem? (map translate b.members) j ≡ some (translate (get_or es i no_example)) =
        get_elem?-map_at translate b.members j (get_or es i no_example) (
          ap (λ l. get_elem? l j) named
          ∙ get_elem?-index_vector no_example es b.example_index j i at) in
      rw e (rw (pointwise r b, with_thread_replica) (rw (here, outcome) refl))

  module _ (es : List Example) (max_size : ℕ) (type : BatchType) (s : Store R (Failure E))
      (run : PostRun sort es max_size type func replica order
        (iota (length s) (length es))
        (s ++ replicate (length es) pending)) where
    grown : length run.after ≡ length s + length es
    grown =
        run.same_size
        ∙ length-append s (replicate (length es) pending)
        ∙ ap (λ n. length s + n) (length-replicate (length es) pending)

    entry :
        (p : ℕ)
        → p < length run.after
        → get_elem? run.after p ≡ get_elem? (s ++ map (λ e. value (translate e)) es) p
    entry p lt = elim (dec_lt p (length s)) [
      | yes h ↦
          run.kept p (before-iota p (length s) (length es) h)
          ∙ get_elem?-left s (replicate (length es) pending) p h
          ∙ sym (get_elem?-left s (map (λ e. value (translate e)) es) p h)
      | no h ↦
          let i : ℕ = p - length s in
          let e : p ≡ length s + i = omega arith in
          let small : i < length es = omega (arith, grown) in
          let (k, b, j, at, named) = run.covered i small in
          ap (get_elem? run.after) (e ∙ sym (get_or-iota (length s) (length es) i 0 small))
          ∙ run.answered k j i b at named
          ∙ outcome_of es k j i b
              (All-get (λ x. x.members ≡ index_vector no_example es x.example_index) run.batches k b
                run.indexed at)
              named
          ∙ sym (
              ap (get_elem? (s ++ map (λ e'. value (translate e')) es)) e
              ∙ get_elem?-right s (map (λ e'. value (translate e')) es) i
              ∙ get_elem?-map_at (λ e'. value (translate e')) es i (get_or es i no_example)
                  (get_elem?-get_or es i no_example small))
    ]

    same_length : length run.after ≡ length (s ++ map (λ e. value (translate e)) es)
    same_length =
        let answer : Example → Shared R (Failure E) = λ e. value (translate e) in
        grown
        ∙ ap (λ n. length s + n) (sym (length-map answer es))
        ∙ sym (length-append s (map (λ e. value (translate e)) es))

    all_entries : run.after ≡ s ++ map (λ e. value (translate e)) es
    all_entries = list_ext run.after (s ++ map (λ e. value (translate e)) es) same_length entry

  -- For a sort that rearranges, examples that each have a stream and whose sizes do not overflow, a
  -- client that gives each example of a batch its own result, workers that have replicas, and jobs
  -- that are each run once, in any order: the call returns one new future for each example, and
  -- when the jobs have run, the futures hold the results of the examples in the order of the
  -- examples, and the promises before them are as they were.
  pub post_examples_for_futures-InOrder :
      (es : List Example) (max_size : ℕ) (type : BatchType) (L : ℕ)
      → HasStreams es
      → 0 < L
      → All (λ e. example_length e 0 ≤ L) es
      → length es * L < 2 ^ 64
      → (s : Store R (Failure E)) → InOrder sort es max_size type func translate replica order s
  unfolding post_examples_for_futures new_promises
  post_examples_for_futures-InOrder es max_size type L full pos bounded small s =
      let run =
        post_examples-PostRun sort sort-perm func complete replica order scheduled es max_size type
          L full pos bounded small (iota (length s) (length es))
          (s ++ replicate (length es) pending) (length-iota (length s) (length es))
          (Nodup-iota (length s) (length es))
          (new_pending s (length s) (length es) 0 (length es) (omega arith) (omega arith)) in
      record {
        jobs = run.jobs;
        posted = rw (run.posted, post_examples_for_futures) refl;
        ran = run.ran ∙ ap some (all_entries es max_size type s run);
      }
