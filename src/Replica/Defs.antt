-- ===== src/Replica/Defs.antt =====
-- Promises, and the job that fulfils those of a batch.
use ctranslate.Prelude.{ℕ, suc, List, [], ◌∷◌, get_elem?, set, Option, none, some}

-- The state that a promise shares with its future.
pub data Shared (R E : Type 0) : Type 0 where
  pending : Shared R E
  value : R → Shared R E
  exception : E → Shared R E

-- The shared states, by the number of the promise.
abbrev pub Store : Type 0 → Type 0 → Type 0
Store R E = List (Shared R E)

-- A promise that was moved from has no shared state.
abbrev pub Promise : Type 0
Promise = Option ℕ

-- A call of a function of the client: what it returns, or the exception that it throws.
pub data Call (A E : Type 0) : Type 0 where
  returns : A → Call A E
  throws : E → Call A E

-- Where the thread has no replica, its function is not called.
pub data Failure (E : Type 0) : Type 0 where
  no_model_replica : Failure E
  thrown : E → Failure E

-- `BatchJob`, with the replica of the thread that runs it as an argument.
pub record Job (Replica R E : Type 0) : Type 0 where
  pub promises : List Promise
  pub func : Option Replica → Call (List R) (Failure E)

module _ {R E : Type 0} where
  -- `set_value` and `set_exception` throw on a promise with no state, and on one that is set.
  unfoldable pub settle : Promise → Shared R E → Store R E → Option (Store R E)
  settle none o s = none
  settle (some p) o s = elim (get_elem? s p) [
    | some pending ↦ some (set s p o)
    | some (value r) ↦ none
    | some (exception e) ↦ none
    | none ↦ none
  ]

  -- What promise number `i` is given. The source reads past the end of too few results.
  unfoldable pub outcome : Call (List R) E → ℕ → Option (Shared R E)
  outcome (throws e) i = some (exception e)
  outcome (returns results) i = elim (get_elem? results i) [ none ↦ none | some r ↦ some (value r) ]

  -- The loop over the promises. `none` is a call that the promises or the results do not allow.
  unfoldable pub settle_all : Call (List R) E → List Promise → ℕ → Store R E → Option (Store R E)
  unfolding settle outcome
  settle_all call [] i s = some s
  settle_all call (p ∷ ps) i s = elim (outcome call i) [
    | none ↦ none
    | some o ↦ elim (settle p o s) [ none ↦ none | some s' ↦ settle_all call ps (suc i) s' ]
  ]

module _ {Replica R E : Type 0} where
  -- `BatchJob::run`.
  unfoldable pub run :
      Job Replica R E → Option Replica → Store R (Failure E) → Option (Store R (Failure E))
  unfolding settle_all
  run job replica s = settle_all (job.func replica) job.promises 0 s

  -- `get_thread_replica`, and the call of the function with it.
  unfoldable pub with_thread_replica :
      (Replica → Call (List R) E) → Option Replica → Call (List R) (Failure E)
  with_thread_replica func none = throws no_model_replica
  with_thread_replica func (some replica) = elim (func replica) [
    | returns results ↦ returns results
    | throws e ↦ throws (thrown e)
  ]

  -- `post_batch` with a list of promises, and `post_func`.
  unfoldable pub batch_job : (Replica → Call (List R) E) → List Promise → Job Replica R E
  unfolding with_thread_replica
  batch_job func promises = record { promises = promises; func = with_thread_replica func }

  -- `batched_func` of `post`.
  unfoldable pub batched : (Replica → Call R E) → Replica → Call (List R) E
  batched func replica = elim (func replica) [ returns r ↦ returns (r ∷ []) | throws e ↦ throws e ]

  -- Jobs, by their numbers, in the order in which workers run them; `replica` is that of the worker
  -- that has the job.
  unfoldable pub run_jobs :
      List (Job Replica R E)
      → (ℕ → Option Replica)
      → List ℕ
      → Store R (Failure E)
      → Option (Store R (Failure E))
  unfolding run
  run_jobs jobs replica [] s = some s
  run_jobs jobs replica (k ∷ order) s = elim (get_elem? jobs k) [
    | none ↦ none
    | some job ↦ elim (run job (replica k) s) [
      | none ↦ none
      | some s' ↦ run_jobs jobs replica order s'
    ]
  ]
