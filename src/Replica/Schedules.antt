-- ===== src/Replica/Schedules.antt =====
-- The jobs of one call of post_examples, run in any order by any workers.
use mathlib.Core.List.{Perm, Nodup}
use mathlib.Core.List.Perm
use native.Mathlib.Bridge.{le_prop}
use ctranslate.Prelude.{
  ℕ, suc, ◌+◌, ◌<◌, List, [], ◌∷◌, All, map, length, get_elem?, get_or, iota, ◌⊎◌, ◌≡◌, refl, sym,
  ap, subst, ◌∙◌, Option, none, some, inl, inr, arith, All-perm, All-iota, get_elem?-lt,
}
use ctranslate.Prelude.Distinct.{Distinct, Distinct-of_Nodup, Nodup-iota, flat, flat-perm}
use ctranslate.Prelude.Reading.{All-get, All-map, get_or-of_get}
use ctranslate.Prelude.Finding.{get_elem?-of_lt, position_of, mem-iota}
use ctranslate.Batching.Defs.{BatchType, Example, no_example}
use ctranslate.Batching.Rebatch.{Batch, index_vector}
use ctranslate.Batching.IndexVector.{length-index_vector, All-index_vector}
use ctranslate.Batching.RebatchLaws.{flat_index, IsBatchOf}
use ctranslate.Decoding.Repeats.{index_vector-map, map-get_or}
use ctranslate.Replica.Defs.{
  value, exception, Store, Promise, Call, returns, throws, Failure, no_model_replica, thrown, Job,
  outcome, with_thread_replica, batch_job, run_jobs,
}
use ctranslate.Replica.Posting.{Client, move_promises, post_batches}
use ctranslate.Replica.Settling.{
  IsPending, Serves, JobAt, Answered, AllSettled, run_jobs-AllSettled,
}
use ctranslate.Replica.Moves.{Present, get_elem?-post_batches}
use ctranslate.Replica.Places.{
  no_batch, get_elem?-index_vector, get_or-map-some, ids_at, flat-ids_at, All-batches, All-flat,
}

-- The client returns as many results as a batch has examples, or throws.
abbrev pub IsComplete : {Replica R E : Type 0} → Client Replica R E → Type 0
IsComplete {Replica} {R} func =
    (replica : Replica) (b : Batch) (results : List R)
    → func replica b ≡ returns results
    → length results ≡ length b.members

-- A schedule of any number of jobs that runs each of them once.
abbrev pub IsSchedule : (ℕ → List ℕ) → Type 0
IsSchedule order = (n : ℕ) → Perm (order n) (iota 0 n)

Call-cases :
    {A E : Type 0} (c : Call A E) → ((x : A) × (c ≡ returns x)) ⊎ ((e : E) × (c ≡ throws e))
Call-cases (returns x) = inl (x, refl)
Call-cases (throws e) = inr (e, refl)

module _ {Replica R E : Type 0} (func : Client Replica R E) (complete : IsComplete func) where
  pub func-Serves :
      (replica : Option Replica) (b : Batch) (n : ℕ)
      → n ≡ length b.members
      → Serves (with_thread_replica (λ r. func r b) replica) 0 n
  unfolding with_thread_replica outcome
  func-Serves none b n e j lt = (exception no_model_replica, refl)
  func-Serves (some r) b n e j lt = elim (Call-cases (func r b)) [
    | inl (results, q) ↦
        let (x, p) =
          get_elem?-of_lt results (0 + j) (omega (arith, e, lt, complete r b results q)) in
        (value x, rw (q, with_thread_replica) (rw (p, outcome) refl))
    | inr (x, q) ↦ (exception (thrown x), rw (q, with_thread_replica) refl)
  ]

pub length-post_batches :
    {Replica R E : Type 0} (func : Client Replica R E) (batches : List Batch) (ps : List Promise)
    → length (post_batches func batches ps) ≡ length batches
unfolding post_batches
length-post_batches func [] ps = refl
length-post_batches func (b ∷ batches) ps =
    ap suc (length-post_batches func batches (move_promises b.example_index ps).1)

-- One call of post_examples: the batches that it makes of the input.
module _ {Replica R E : Type 0} (func : Client Replica R E) (complete : IsComplete func)
    (es : List Example) (ids : List ℕ) (size : length ids ≡ length es) (batches : List Batch)
    (permutes : Perm (flat_index batches) (iota 0 (length es))) (type : BatchType) (max_size : ℕ)
    (sound : All (IsBatchOf es type max_size) batches) (replica : ℕ → Option Replica) where
  abbrev pub jobs_of : List (Job Replica R E)
  jobs_of = post_batches func batches (map some ids)

  abbrev pub call_at : ℕ → Call (List R) (Failure E)
  call_at k = with_thread_replica (λ r. func r (get_or batches k no_batch)) (replica k)

  in_range : All (λ i. i < length ids) (flat_index batches)
  in_range =
      All-perm _ (λ a. le_prop) permutes (All-iota 0 (length es) (length ids) (omega (arith, size)))

  Distinct-flat_index : Distinct (flat_index batches)
  Distinct-flat_index =
      Distinct-of_Nodup _ (Perm.nodup (Perm.symm permutes) (Nodup-iota 0 (length es)))

  Present-All : All (Present ids (map some ids)) (flat_index batches)
  Present-All =
      All-map (λ i. i < length ids) (Present ids (map some ids)) _ (λ i h. get_or-map-some ids i h)
        in_range

  job_at : (k : ℕ) → k < length batches → JobAt jobs_of replica (ids_at ids batches) call_at k
  unfolding ids_at batch_job
  job_at k lt =
      let (b, e) = get_elem?-of_lt batches k lt in
      let q : get_or batches k no_batch ≡ b = get_or-of_get batches k b no_batch e in
      record {
        job = batch_job (λ r. func r (get_or batches k no_batch)) (map some (ids_at ids batches k));
        found =
            get_elem?-post_batches ids func batches (map some ids) k _ Distinct-flat_index
              Present-All (e ∙ ap some (sym q));
        holds = refl;
        calls = refl;
        serves = func-Serves func complete (replica k) (get_or batches k no_batch) _ (
            length-index_vector 0 ids _
            ∙ sym (length-index_vector no_example es _)
            ∙ ap length (
                sym
                  (subst (IsBatchOf es type max_size) (sym q)
                    (All-get (IsBatchOf es type max_size) batches k b sound e)).indexed));
      }

  module _ (n : ℕ) (same : n ≡ length batches) (order : List ℕ)
      (scheduled : Perm order (iota 0 n)) where
    numbers : All (λ k. k < length batches) order
    numbers =
        All-perm _ (λ a. le_prop) scheduled (All-iota 0 n (length batches) (omega (arith, same)))

    pub flat-perm_ids : Perm (flat (ids_at ids batches) order) ids
    flat-perm_ids = Perm.trans (flat-perm (ids_at ids batches) scheduled) (
        subst (λ l. Perm l ids)
          (sym (
            flat-ids_at ids batches n 0 batches
              (λ k lt. ap (λ z. get_or batches z no_batch) (omega arith)) same))
          (subst (Perm _) whole (
            subst (λ l. Perm l (map (λ i. get_or ids i 0) (iota 0 (length es))))
              (sym (index_vector-map 0 ids (flat_index batches)))
              (Perm.map (λ i. get_or ids i 0) permutes))))
      where
        whole : map (λ i. get_or ids i 0) (iota 0 (length es)) ≡ ids
        whole = ap (λ m. map (λ i. get_or ids i 0) (iota 0 m)) (sym size) ∙ map-get_or 0 ids

    IsPending-order :
        (s : Store R (Failure E))
        → All (IsPending s) ids
        → All (IsPending s) (flat (ids_at ids batches) order)
    unfolding ids_at
    IsPending-order s h = All-flat (IsPending s) (ids_at ids batches) order (
        All-map (λ k. k < length batches) _ order
          (λ k lt.
            let (b, e) = get_elem?-of_lt batches k lt in
            All-index_vector 0 ids (IsPending s) _ h (
              subst (λ x. All (λ i. i < length ids) x.example_index)
                (sym (get_or-of_get batches k b no_batch e))
                (All-get (λ x. All (λ i. i < length ids) x.example_index) batches k b
                  (All-batches (λ i. i < length ids) batches in_range) e)))
          numbers)

    pub settled :
        (s : Store R (Failure E))
        → Nodup ids
        → All (IsPending s) ids
        → AllSettled jobs_of replica
            (ids_at ids batches)
            call_at
            order
            s
            (run_jobs jobs_of replica order s)
    settled s nodup h =
        run_jobs-AllSettled jobs_of replica (ids_at ids batches) call_at order s
          (Distinct-of_Nodup _ (Perm.nodup (Perm.symm flat-perm_ids) nodup)) (IsPending-order s h)
          (All-map (λ k. k < length batches) _ order job_at numbers)

    pub Answered-at :
        (s : Store R (Failure E))
        → All (Answered jobs_of replica (ids_at ids batches) call_at s) order
        → (k j i : ℕ) (b : Batch) → get_elem? batches k ≡ some b
        → get_elem? b.example_index j ≡ some i
        → get_elem? s (get_or ids i 0) ≡ outcome (with_thread_replica (λ r. func r b) (replica k)) j
    unfolding ids_at
    Answered-at s h k j i b e q =
        let lt : k < length batches = get_elem?-lt batches k b e in
        let (m, at) = position_of k order (
          Perm.subset (Perm.symm scheduled) k
            (mem-iota k 0 n (omega arith) (omega (arith, same)))) in
        let same_batch : get_or batches k no_batch ≡ b = get_or-of_get batches k b no_batch e in
        All-get (Answered jobs_of replica (ids_at ids batches) call_at s) order m k h at j
          (get_or ids i 0)
          (ap (λ x. get_elem? (index_vector 0 ids x.example_index) j) same_batch
            ∙ get_elem?-index_vector 0 ids b.example_index j i q)
        ∙ ap (λ x. outcome (with_thread_replica (λ r. func r x) (replica k)) j) same_batch
