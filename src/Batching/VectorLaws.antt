-- ===== src/Batching/VectorLaws.antt =====
-- A VectorReader gives the examples of its vector from its index on.
use ctranslate.Prelude.{
  ℕ, ◌+◌, false, List, [], ◌∷◌, All, drop, get_elem?, get_elem?-drop, drop-suc, ◌≡◌, refl, ok, none,
  some,
}
use native.Mathlib.Numerals.{add-one}
use ctranslate.Batching.Defs.{Example, no_example, is_empty}
use ctranslate.Batching.Readers.{next_of_vector}
use ctranslate.Batching.Feeds.{Feeds}

abbrev pub HasStreams : List Example → Type 0
HasStreams = All (λ e. is_empty e ≡ false)

next_of_vector-at :
    (all : List Example) (i : ℕ) (x : Example)
    → get_elem? all i ≡ some x
    → next_of_vector (record { all = all; index = i }) ≡ ok (x, record { all = all; index = i + 1 })
unfolding next_of_vector
next_of_vector-at all i x h = rw (h, next_of_vector)

next_of_vector-end :
    (all : List Example) (i : ℕ)
    → get_elem? all i ≡ none
    → next_of_vector (record { all = all; index = i })
      ≡ ok (no_example, record { all = all; index = i })
unfolding next_of_vector
next_of_vector-end all i h = rw (h, next_of_vector)

pub vector-Feeds :
    (all : List Example) (i : ℕ) (xs : List Example)
    → drop i all ≡ xs
    → HasStreams xs
    → Feeds next_of_vector (record { all = all; index = i }) xs
vector-Feeds all i [] h full =
    (no_example, _, next_of_vector-end all i (get_elem?-drop i all [] h), refl)
vector-Feeds all i (x ∷ xs) h full = (
  record { all = all; index = i + 1 },
  next_of_vector-at all i x (get_elem?-drop i all (x ∷ xs) h),
  full.0,
  vector-Feeds all (i + 1) xs (rw add-one (drop-suc i all xs x h)) full.1,
)
