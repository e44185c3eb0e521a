-- ===== src/Replica/Posting.antt =====
-- post, post_batch and post_examples: new promises, and the jobs that take them.
use ctranslate.Prelude.{
  ℕ, Bool, List, [], ◌∷◌, ◌++◌, map, length, get_or, set, replicate, iota, none, some, Run, done,
  and_then,
}
use ctranslate.Batching.Defs.{BatchType, Example}
use ctranslate.Batching.Rebatch.{Batch, rebatch_input}
use ctranslate.Replica.Defs.{pending, Store, Promise, Call, Failure, Job, batch_job, batched}

-- New promises, with their futures.
unfoldable pub new_promises : {R E : Type 0} → ℕ → Store R E → List ℕ × Store R E
new_promises n s = (iota (length s) n, s ++ replicate n pending)

-- `std::move(promises[index])` for each index. Outside the vector there is no promise.
unfoldable pub move_promises : List ℕ → List Promise → List Promise × List Promise
move_promises [] ps = ([], ps)
move_promises (i ∷ is) ps =
    let (taken, left) = move_promises is (set ps i none) in (get_or ps i none ∷ taken, left)

-- What a client does with a batch on a replica.
abbrev pub Client : Type 0 → Type 0 → Type 0 → Type 0
Client Replica R E = Replica → Batch → Call (List R) E

module _ {Replica R E : Type 0} where
  unfoldable pub post_batches :
      Client Replica R E → List Batch → List Promise → List (Job Replica R E)
  unfolding move_promises batch_job
  post_batches func [] ps = []
  post_batches func (b ∷ bs) ps =
      let (taken, left) = move_promises b.example_index ps in
      batch_job (λ replica. func replica b) taken ∷ post_batches func bs left

  -- `post_batch` that returns futures.
  unfoldable pub post_batch :
      (Replica → Call (List R) E)
      → ℕ
      → Store R (Failure E)
      → List ℕ × Job Replica R E × Store R (Failure E)
  unfolding new_promises batch_job
  post_batch func num_results s =
      let (futures, s') = new_promises num_results s in
      (futures, batch_job func (map some futures), s')

  -- `post`.
  unfoldable pub post_single :
      (Replica → Call R E) → Store R (Failure E) → List ℕ × Job Replica R E × Store R (Failure E)
  unfolding post_batch batched
  post_single func s = post_batch (batched func) 1 s

  module _ (sort : (ℕ → ℕ → Bool) → List ℕ → List ℕ) where
    -- `post_examples` with a list of promises: the jobs, in the order in which they are posted.
    unfoldable pub post_examples :
        List Example
        → ℕ
        → BatchType
        → List Promise
        → Client Replica R E
        → Run (List (Job Replica R E))
    unfolding rebatch_input post_batches
    post_examples es max_batch_size batch_type promises func =
        and_then (rebatch_input sort es max_batch_size batch_type)
          λ batches. done (post_batches func batches promises)

    -- `post_examples` that returns futures.
    unfoldable pub post_examples_for_futures :
        List Example
        → ℕ
        → BatchType
        → Client Replica R E
        → Store R (Failure E)
        → Run (List ℕ × List (Job Replica R E) × Store R (Failure E))
    unfolding new_promises post_examples
    post_examples_for_futures es max_batch_size batch_type func s =
        let (futures, s') = new_promises (length es) s in
        and_then (post_examples es max_batch_size batch_type (map some futures) func)
          λ jobs. done (futures, jobs, s')
