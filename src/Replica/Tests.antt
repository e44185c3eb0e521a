-- ===== src/Replica/Tests.antt =====
-- Runs of a pool, and the theorems at concrete inputs.
use mathlib.Core.List.{reverse, reverse_perm}
use ctranslate.Prelude.{
  ℕ, ◌==◌, Bool-cases, String, List, [], ◌∷◌, map, length, replicate, iota, Option, none, some,
  if◌then◌else◌, ◌≡◌, refl, ap, ◌∙◌, Error, and_then, done, arith, inl, inr,
}
use ctranslate.Prelude.Distinct.{Nodup-iota}
use ctranslate.Prelude.Sorting.{sort_by, sort_by-perm}
use ctranslate.Padding.Padder.{pos, negsuc}
use ctranslate.Batching.Defs.{examples, tokens, Example, example_length, new_reader}
use ctranslate.Batching.Readers.{vector_reader, next_of_vector}
use ctranslate.Batching.Feeds.{fresh}
use ctranslate.Batching.VectorLaws.{vector-Feeds}
use ctranslate.Decoding.RowSteps.{length-map}
use ctranslate.Replica.Defs.{
  pending, value, exception, returns, throws, no_model_replica, thrown, run_jobs,
}
use ctranslate.Replica.Posting.{Client, post_single, post_examples}
use ctranslate.Replica.Workers.{max_queue_size}
use ctranslate.Replica.Consuming.{effective_read_size, consume_batches, ended}
use ctranslate.Replica.Schedules.{IsComplete, IsSchedule}
use ctranslate.Replica.Answers.{PostRun, post_examples-PostRun}
use ctranslate.Replica.InOrder.{InOrder, post_examples_for_futures-InOrder}
use ctranslate.Replica.Writing.{consume_batches-writes}

abbrev of_words : List String → Example
of_words s = record { streams = s ∷ [] }

abbrev input : List Example
input = of_words ("a" ∷ []) ∷ of_words ("d" ∷ "e" ∷ "f" ∷ []) ∷ of_words ("b" ∷ "c" ∷ []) ∷ []

-- The last job first.
abbrev backwards : ℕ → List ℕ
backwards n = reverse (iota 0 n)

backwards-IsSchedule : IsSchedule backwards
backwards-IsSchedule n = reverse_perm (iota 0 n)

abbrev measure : Client ℕ ℕ Error
measure replica b = returns (map (λ e. example_length e 0) b.members)

-- Throws on a batch of one example.
abbrev picky : Client ℕ ℕ ℕ
picky replica b =
    if length b.members == 1 then throws 7 else returns (map (λ e. example_length e 0) b.members)

picky-IsComplete : IsComplete picky
picky-IsComplete replica b results = elim (Bool-cases (length b.members == 1)) [
  | inl h ↦ rw h (λ e. cc)
  | inr h ↦ rw h (λ e.
      let q : results ≡ map (λ (x : Example). example_length x 0) b.members = cc in
      ap length q ∙ length-map (λ (x : Example). example_length x 0) b.members)
]

post_examples-PostRun_example :
    PostRun sort_by input 4 tokens picky some backwards (iota 0 3) (replicate 3 pending)
unfolding example_length
post_examples-PostRun_example =
    post_examples-PostRun sort_by sort_by-perm picky picky-IsComplete some backwards
      backwards-IsSchedule input 4 tokens 3 (refl, (refl, (refl, tt))) (omega arith) (omega arith)
      (omega arith) (iota 0 3) (replicate 3 pending) refl (Nodup-iota 0 3)
      (refl, (refl, (refl, tt)))

post_examples_for_futures-InOrder_example :
    InOrder sort_by input 4 tokens measure (λ e. example_length e 0) some backwards []
unfolding example_length
post_examples_for_futures-InOrder_example =
    post_examples_for_futures-InOrder sort_by sort_by-perm measure (λ e. example_length e 0)
      (λ r b. refl) some (λ k. (k, refl)) backwards backwards-IsSchedule input 4 tokens 3
      (refl, (refl, (refl, tt))) (omega arith) (omega arith) (omega arith) []

consume_batches-writes_example :
    consume_batches next_of_vector sort_by measure
      (λ round. backwards)
      (λ round. some)
      (λ round. 1)
      4
      2
      examples
      4
      2
      (new_reader (vector_reader input))
    ≡ done (map (λ e. example_length e 0) input)
unfolding example_length effective_read_size
consume_batches-writes_example =
    consume_batches-writes next_of_vector sort_by sort_by-perm measure (λ e. example_length e 0)
      (λ r b. refl) (λ round. backwards) (λ round. backwards-IsSchedule) (λ round. some)
      (λ round k. (k, refl)) (λ round. 1) 4 2 2 4 examples 3 (new_reader (vector_reader input))
      input (omega arith) (omega arith) (omega arith) (omega arith) (refl, (refl, (refl, tt)))
      (omega arith) (omega arith)
      (fresh refl (vector-Feeds input 0 input refl (refl, (refl, (refl, tt)))))

abbrev two_models : List ℕ
two_models = 5 ∷ 6 ∷ []

abbrev two_workers : List (Option ℕ)
two_workers = some 1 ∷ none ∷ []

abbrev same : ℕ → ℕ
same m = m

-- The batch of the longest example throws, the other does not; the last job is run first.
batches_run :
    and_then
      (post_examples sort_by input 4 tokens (map some (iota 0 3)) picky)
      (λ jobs. ended (run_jobs jobs some (backwards (length jobs)) (replicate 3 pending)))
    ≡ done (value 1 ∷ exception (thrown 7) ∷ value 2 ∷ [])
unfolding post_examples run_jobs sort_by
batches_run = refl

-- A worker whose model was detached.
posted_alone :
    let (futures, job, s) = post_single {Replica = ℕ} {R = ℕ} {E = ℕ} (λ replica. returns 3) [] in
    run_jobs (job ∷ []) (λ k. none) (0 ∷ []) s ≡ some (exception no_model_replica ∷ [])
unfolding post_single run_jobs
posted_alone = refl

queue_sizes :
    (max_queue_size (pos 0) 3 ≡ 12)
    × (max_queue_size (pos 5) 3 ≡ 5)
    × (max_queue_size (negsuc 0) 3 ≡ 18446744073709551615)
unfolding max_queue_size
queue_sizes = (refl, refl, refl)
