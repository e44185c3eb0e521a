-- ===== src/Batching/Tests.antt =====
-- Runs of the readers and of rebatch_input, and the theorems at concrete inputs.
use ctranslate.Prelude.{
  ◌*◌, ◌≤◌, true, false, String, List, [], ◌∷◌, ◌++◌, length, ◌≡◌, refl, ◌⊎◌, done, fail,
  runtime_error, arith, is_nil,
}
use ctranslate.Prelude.Sorting.{sort_by, sort_by-perm}
use ctranslate.Batching.Defs.{
  examples, tokens, Example, example_length, get_batch_size_increment, new_reader, get_next,
}
use ctranslate.Batching.Readers.{vector_reader, next_of_vector, load_examples}
use ctranslate.Batching.Rebatch.{rebatch_input, get_stream}
use ctranslate.Batching.Feeds.{fresh}
use ctranslate.Batching.Cut.{cut_batch}
use ctranslate.Batching.FillLaws.{Reads, get_next-Reads}
use ctranslate.Batching.CutLaws.{longest, cut_batch_sized, is_nil-cut_batch, cut_batch-append}
use ctranslate.Batching.VectorLaws.{vector-Feeds}
use ctranslate.Batching.Reordering.{Rebatches, rebatch_input-Rebatches}

abbrev of_words : List String → Example
of_words s = record { streams = s ∷ [] }

abbrev short : Example
short = of_words ("a" ∷ [])

abbrev middle : Example
middle = of_words ("b" ∷ "c" ∷ [])

abbrev long : Example
long = of_words ("d" ∷ "e" ∷ "f" ∷ [])

abbrev input : List Example
input = short ∷ long ∷ middle ∷ []

input_batches :
    rebatch_input sort_by input 4 tokens
    ≡ done (
        record { members = long ∷ []; example_index = 1 ∷ [] }
        ∷ record { members = middle ∷ short ∷ []; example_index = 2 ∷ 0 ∷ [] }
        ∷ [])
unfolding rebatch_input sort_by
input_batches = refl

-- Two streams, of which the second ends first.
short_second_stream :
    load_examples ((("a" ∷ []) ∷ ("b" ∷ []) ∷ []) ∷ (("x" ∷ []) ∷ []) ∷ []) ≡ fail runtime_error
unfolding load_examples
short_second_stream = refl

-- Two streams, of which the first ends first: the rest of the second is not reported.
short_first_stream :
    load_examples ((("a" ∷ []) ∷ []) ∷ (("x" ∷ []) ∷ ("y" ∷ []) ∷ []) ∷ [])
    ≡ done (record { streams = ("a" ∷ []) ∷ ("x" ∷ []) ∷ [] } ∷ [])
unfolding load_examples
short_first_stream = refl

second_words :
    get_stream (record { members = input; example_index = [] }) 0
    ≡ ("a" ∷ []) ∷ ("d" ∷ "e" ∷ "f" ∷ []) ∷ ("b" ∷ "c" ∷ []) ∷ []
unfolding get_stream
second_words = refl

get_next-Reads_example :
    Reads next_of_vector
      (get_next next_of_vector 4 4 tokens true (new_reader (vector_reader input)))
      (cut_batch 4 tokens true input).0
      (cut_batch 4 tokens true input).1
get_next-Reads_example =
    get_next-Reads next_of_vector 4 4 tokens true (new_reader (vector_reader input)) input
      (omega arith) (omega arith)
      (fresh refl (vector-Feeds input 0 input refl (refl, (refl, (refl, tt)))))

cut_batch_sized_example :
    let b = (cut_batch 4 tokens true input).0 in
    (length b * longest tokens 0 b ≤ 4) ⊎ (length b ≤ 1)
unfolding get_batch_size_increment
cut_batch_sized_example = cut_batch_sized tokens 4 3 input (omega arith) (omega arith)

cut_batch-append_example :
    (cut_batch 4 tokens false input).0 ++ (cut_batch 4 tokens false input).1 ≡ input
cut_batch-append_example = cut_batch-append 4 tokens false input

is_nil-cut_batch_example : is_nil (cut_batch 1 examples true input).0 ≡ false
is_nil-cut_batch_example = is_nil-cut_batch 1 examples true input

rebatch_input-Rebatches_example : Rebatches input 4 tokens (rebatch_input sort_by input 4 tokens)
unfolding example_length
rebatch_input-Rebatches_example =
    rebatch_input-Rebatches sort_by sort_by-perm input 4 tokens 3 (refl, (refl, (refl, tt)))
      (omega arith) (omega arith) (omega arith)
