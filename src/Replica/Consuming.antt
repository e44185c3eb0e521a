-- ===== src/Replica/Consuming.antt =====
-- consume_batches: examples are read, posted to the pool, and their results written as they come.
use ctranslate.Prelude.{
  ℕ, zero, suc, ◌*◌, Bool, true, false, List, [], ◌∷◌, ◌++◌, length, Option, none, some, ◌==◌,
  if◌then◌else◌, is_nil, runtime_error, Error, Result, Run, done, fail, timeout, and_then,
}
use ctranslate.Batching.Defs.{BatchType, Example, Reader, get_next, u64}
use ctranslate.Replica.Defs.{
  Shared, pending, value, exception, Store, Failure, no_model_replica, thrown, run_jobs,
}
use ctranslate.Replica.Posting.{Client, post_examples_for_futures}

-- `future.get()`: a future whose promise is not fulfilled blocks for ever.
unfoldable pub get_future : {R : Type 0} → Shared R (Failure Error) → Run R
get_future pending = timeout
get_future (value r) = done r
get_future (exception no_model_replica) = fail runtime_error
get_future (exception (thrown e)) = fail e

-- `pop_results(false)` where the first `ready` futures of the queue are ready, and what the writer
-- has been given.
unfoldable pub pop_ready :
    {R : Type 0}
    → ℕ
    → List (Shared R (Failure Error))
    → List R
    → Run (List (Shared R (Failure Error)) × List R)
unfolding get_future
pop_ready zero results written = done (results, written)
pop_ready (suc ready) [] written = done ([], written)
pop_ready (suc ready) (f ∷ results) written =
    and_then (get_future f) λ r. pop_ready ready results (written ++ r ∷ [])

-- `pop_results(true)`.
unfoldable pub pop_all : {R : Type 0} → List (Shared R (Failure Error)) → List R → Run (List R)
unfolding get_future
pop_all [] written = done written
pop_all (f ∷ results) written = and_then (get_future f) λ r. pop_all results (written ++ r ∷ [])

-- An exception in a thread of the pool ends the program.
abbrev pub ended : {A : Type 0} → Option A → Run A
ended none = fail runtime_error
ended (some a) = done a

unfoldable pub effective_read_size : ℕ → ℕ → ℕ
effective_read_size max_batch_size read_batch_size =
    if read_batch_size == 0
    then (if max_batch_size == 1 then max_batch_size else u64 (max_batch_size * 16))
    else read_batch_size

-- The pool: in which order, and with which replicas, it runs the jobs of each round. The jobs of
-- two rounds share no promise. A future is known by what it comes to hold.
module _ {S Replica R : Type 0} (next : S → Result (Example × S))
    (sort : (ℕ → ℕ → Bool) → List ℕ → List ℕ) (func : Client Replica R Error)
    (order : ℕ → ℕ → List ℕ) (replica : ℕ → ℕ → Option Replica) where
  unfoldable pub posted : ℕ → List Example → ℕ → BatchType → Run (Store R (Failure Error))
  unfolding post_examples_for_futures run_jobs
  posted round es max_batch_size type =
      and_then (post_examples_for_futures sort es max_batch_size type func [])
        λ (futures, jobs, s). ended (run_jobs jobs (replica round) (order round (length jobs)) s)

  module _ (ready : ℕ → ℕ) (reads max_batch_size : ℕ) (type : BatchType) where
    -- The loop, on fuel for its rounds.
    unfoldable pub consume :
        ℕ → ℕ → ℕ → Reader S → List (Shared R (Failure Error)) → List R → Run (List R)
    unfolding get_next posted pop_ready pop_all
    consume zero round size reader results written = timeout
    consume (suc fuel) round size reader results written =
        and_then (get_next next reads size type false reader) λ (examples, reader').
          elim (is_nil examples) [
            | true ↦ pop_all results written
            | false ↦ and_then (posted round examples max_batch_size type) λ futures.
                and_then (pop_ready (ready round) (results ++ futures) written)
                  λ (results', written'). consume fuel (suc round) size reader' results' written'
          ]

    unfoldable pub consume_batches : ℕ → ℕ → Reader S → Run (List R)
    unfolding consume effective_read_size
    consume_batches fuel read_batch_size reader =
        consume fuel 0 (effective_read_size max_batch_size read_batch_size) reader [] []
