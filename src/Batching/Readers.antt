-- ===== src/Batching/Readers.antt =====
-- The readers that come with the library: VectorReader, ParallelBatchReader and TextLineReader.
use ctranslate.Prelude.{
  ℕ, ◌+◌, true, false, String, List, [], ◌∷◌, ◌++◌, map, length, get_elem?, none, some, ◌==◌,
  if◌then◌else◌, is_nil, runtime_error, Result, ok, err, Run, done, and_then,
}
use ctranslate.Batching.Defs.{examples, Example, no_example, is_empty, new_reader, get_next}

-- An example is moved out of the vector when it is read; the index never goes back to it.
pub record VectorReader : Type 0 where
  pub all : List Example
  pub index : ℕ

abbrev pub vector_reader : List Example → VectorReader
vector_reader es = record { all = es; index = 0 }

unfoldable pub next_of_vector : VectorReader → Result (Example × VectorReader)
next_of_vector r = elim (get_elem? r.all r.index) [
  | none ↦ ok (no_example, r)
  | some e ↦ ok (e, record r { index = r.index + 1 })
]

-- `lines` are the lines that are left in the stream; the tokenizer is the caller's.
unfoldable pub next_of_lines : (String → List String) → List String → Result (Example × List String)
next_of_lines tokenizer [] = ok (no_example, [])
next_of_lines tokenizer (line ∷ lines) = ok (record { streams = tokenizer line ∷ [] }, lines)

module _ {S : Type 0} (next : S → Result (Example × S)) where
  -- The loop over the readers, with the example that is being put together. After a `break` the
  -- readers that follow are not read.
  unfoldable pub next_of_readers : List S → Example → Result (Example × List S)
  next_of_readers [] example = ok (example, [])
  next_of_readers (r ∷ rs) example = elim (next r) [
    | err e ↦ err e
    | ok (e, r') ↦ elim (is_empty e) [
      | true ↦ if is_empty example then ok (example, r' ∷ rs) else err runtime_error
      | false ↦ elim (next_of_readers rs (record { streams = example.streams ++ e.streams })) [
        | err x ↦ err x
        | ok (e', rs') ↦ ok (e', r' ∷ rs')
      ]
    ]
  ]

  unfoldable pub next_of_parallel : List S → Result (Example × List S)
  unfolding next_of_readers
  next_of_parallel rs = next_of_readers rs no_example

-- `num_examples`: 0 is "not known".
unfoldable pub num_examples : List VectorReader → ℕ
num_examples [] = 0
num_examples (r ∷ rs) = if length r.all == 0 then num_examples rs else length r.all

abbrev pub of_sequence : List String → Example
of_sequence s = record { streams = s ∷ [] }

unfoldable pub readers_of : List (List (List String)) → List VectorReader
readers_of [] = []
readers_of (s ∷ ss) =
    if is_nil s then readers_of ss else vector_reader (map of_sequence s) ∷ readers_of ss

unfoldable pub load_examples : List (List (List String)) → Run (List Example)
unfolding readers_of num_examples next_of_parallel next_of_vector get_next
load_examples streams =
    let readers = readers_of streams in
    let n = num_examples readers in
    if n == 0
    then done []
    else and_then
        (get_next (next_of_parallel next_of_vector) (n + 1) n examples false (new_reader readers))
        λ (batch, _). done batch
