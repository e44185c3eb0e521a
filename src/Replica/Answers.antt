-- ===== src/Replica/Answers.antt =====
-- post_examples: what every promise comes to hold.
use mathlib.Core.List.{Perm, Nodup}
use mathlib.Core.List.Perm
use ctranslate.Prelude.{
  ℕ, ◌*◌, ◌^◌, ◌≤◌, ◌<◌, Bool, List, All, map, length, get_elem?, get_or, ◌≢◌, ◌≡◌, refl, Option,
  some, done, arith, All-perm,
}
use ctranslate.Prelude.Reading.{All-map}
use ctranslate.Prelude.Finding.{position_of, mem-iota}
use ctranslate.Batching.Defs.{BatchType, Example, example_length, no_example}
use ctranslate.Batching.Rebatch.{Batch, rebatch_input, index_vector}
use ctranslate.Batching.VectorLaws.{HasStreams}
use ctranslate.Batching.RebatchLaws.{flat_index}
use ctranslate.Batching.Reordering.{rebatch_input-Rebatches}
use ctranslate.Replica.Defs.{Store, Failure, Job, outcome, with_thread_replica, run_jobs}
use ctranslate.Replica.Posting.{Client, post_batches, post_examples}
use ctranslate.Replica.Settling.{IsPending}
use mathlib.Core.HLevel.{¬_prop}
use ctranslate.Replica.Places.{batch_of}
use ctranslate.Replica.Schedules.{
  IsComplete, IsSchedule, flat-perm_ids, settled, Answered-at, length-post_batches,
}

-- What the jobs of post_examples leave, for promises `ids` and shared states `s`. Every example is
-- in a batch; its promise holds what the call for its batch gave at its place there, or what it threw.
pub record PostRun {Replica R E : Type 0} (sort : (ℕ → ℕ → Bool) → List ℕ → List ℕ)
    (es : List Example) (max_size : ℕ) (type : BatchType) (func : Client Replica R E)
    (replica : ℕ → Option Replica) (order : ℕ → List ℕ) (ids : List ℕ) (s : Store R (Failure E))
    : Type 0 where
  pub batches : List Batch
  pub jobs : List (Job Replica R E)
  pub after : Store R (Failure E)
  pub rebatched : rebatch_input sort es max_size type ≡ done batches
  pub posted : post_examples sort es max_size type (map some ids) func ≡ done jobs
  pub indexed : All (λ b. b.members ≡ index_vector no_example es b.example_index) batches
  pub ran : run_jobs jobs replica (order (length jobs)) s ≡ some after
  pub same_size : length after ≡ length s
  pub kept : (p : ℕ) → All (λ q. p ≢ q) ids → get_elem? after p ≡ get_elem? s p
  pub covered :
      (i : ℕ)
      → i < length es
      → (k : ℕ) × (b : Batch) × (j : ℕ) × (get_elem? batches k ≡ some b)
        × (get_elem? b.example_index j ≡ some i)
  pub answered :
      (k j i : ℕ) (b : Batch)
      → get_elem? batches k ≡ some b
      → get_elem? b.example_index j ≡ some i
      → get_elem? after (get_or ids i 0)
        ≡ outcome (with_thread_replica (λ r. func r b) (replica k)) j

module _ (sort : (ℕ → ℕ → Bool) → List ℕ → List ℕ)
    (sort-perm : (before : ℕ → ℕ → Bool) (xs : List ℕ) → Perm (sort before xs) xs)
    {Replica R E : Type 0} (func : Client Replica R E) (complete : IsComplete func)
    (replica : ℕ → Option Replica) (order : ℕ → List ℕ) (scheduled : IsSchedule order) where
  -- For a sort that rearranges, examples that each have a stream and whose sizes do not overflow, one
  -- pending promise of its own for each example, a client that returns as many results as a batch
  -- has examples or throws, and jobs that are each run once, in any order and by any workers, with a
  -- replica or without: rebatch_input and post_examples return, and the jobs run without setting a
  -- promise twice, setting one that was moved, or reading a result that is not there. Then the
  -- promise of example i, which stands at a place j of a batch k, holds what the call for batch k
  -- gave at j: the result, the exception that the client threw, or that of a missing replica. All
  -- other promises are as before.
  pub post_examples-PostRun :
      (es : List Example) (max_size : ℕ) (type : BatchType) (L : ℕ)
      → HasStreams es
      → 0 < L
      → All (λ e. example_length e 0 ≤ L) es
      → length es * L < 2 ^ 64
      → (ids : List ℕ) (s : Store R (Failure E)) → length ids ≡ length es
      → Nodup ids
      → All (IsPending s) ids
      → PostRun sort es max_size type func replica order ids s
  unfolding post_examples
  post_examples-PostRun es max_size type L full pos bounded small ids s size nodup pend =
      let cut = rebatch_input-Rebatches sort sort-perm es max_size type L full pos bounded small in
      let jobs : List (Job Replica R E) = post_batches func cut.batches (map some ids) in
      let same : length jobs ≡ length cut.batches = length-post_batches func cut.batches _ in
      let run =
        settled func complete es ids size cut.batches cut.permutes _ _ cut.sound replica
          (length jobs) same (order (length jobs)) (scheduled (length jobs)) s nodup pend in
      record {
        batches = cut.batches;
        jobs = jobs;
        after = run.after;
        rebatched = cut.returns;
        posted = rw (cut.returns, post_examples) refl;
        indexed = All-map _ _ cut.batches (λ b h. h.indexed) cut.sound;
        ran = run.returns;
        same_size = run.same_size;
        kept = λ p a. run.kept p (
            All-perm _ (λ q. ¬_prop)
              (flat-perm_ids func complete es ids size cut.batches cut.permutes _ _ cut.sound
                replica (length jobs) same (order (length jobs)) (scheduled (length jobs)))
              a);
        covered = λ i lt.
            let (m, at) = position_of i (flat_index cut.batches) (
              Perm.subset (Perm.symm cut.permutes) i
                (mem-iota i 0 (length es) (omega arith) (omega arith))) in
            batch_of cut.batches m i at;
        answered =
            Answered-at func complete es ids size cut.batches cut.permutes _ _ cut.sound replica
              (length jobs) same (order (length jobs)) (scheduled (length jobs)) run.after
              run.answered;
      }
