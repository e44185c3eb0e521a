-- ===== src/Vocab/Candidates.antt =====
-- Which ids get_candidates gives.
use ctranslate.Prelude.{
  ℕ, ◌==◌, Bool, false, ◌||◌, Text, List, [], ◌∷◌, ◌++◌, length, ◌≡◌, refl, sym, arith,
  append_assoc, length-append,
}
use ctranslate.Vocab.Map.{
  Table, VocabularyMap, insert, insert_all, rule, longer, candidates_at, candidates_of,
  candidates_of_all, insert_prefixes, get_candidates,
}

abbrev pub is_in : ℕ → List ℕ → Bool
is_in x [] = false
is_in x (y ∷ ys) = (x == y) || is_in x ys

-- Tokens with a space between two.
abbrev pub spaced : List Text → Text
spaced [] = []
spaced (w ∷ []) = w
spaced (w ∷ u ∷ ws) = w ++ 32 ∷ spaced (u ∷ ws)

-- A rule for the tokens `before` and some of those that follow allows `x`.
abbrev pub ngram_allows : ℕ → List Table → List Text → List Text → Bool
ngram_allows x [] before ws = false
ngram_allows x (t ∷ ts) before [] = false
ngram_allows x (t ∷ ts) before (w ∷ ws) =
    is_in x (rule (spaced (before ++ w ∷ [])) t) || ngram_allows x ts (before ++ w ∷ []) ws

abbrev pub text_allows : ℕ → List Table → List Text → Bool
text_allows x tables [] = false
text_allows x tables (w ∷ ws) = ngram_allows x tables [] (w ∷ ws) || text_allows x tables ws

abbrev pub batch_allows : ℕ → List Table → List (List Text) → Bool
batch_allows x tables [] = false
batch_allows x tables (ws ∷ batch) = text_allows x tables ws || batch_allows x tables batch

abbrev pub prefixes_hold : ℕ → List (List ℕ) → Bool
prefixes_hold x [] = false
prefixes_hold x (is ∷ iss) = is_in x is || prefixes_hold x iss

pub is_in-insert : (x y : ℕ) (c : List ℕ) → is_in x (insert y c) ≡ ((x == y) || is_in x c)
unfolding insert
is_in-insert x y [] = refl
is_in-insert x y (z ∷ c) = ground (arith, is_in-insert x y c)

is_in-insert_all : (x : ℕ) (ys c : List ℕ) → is_in x (insert_all ys c) ≡ (is_in x c || is_in x ys)
unfolding insert_all
is_in-insert_all x [] c = ground arith
is_in-insert_all x (y ∷ ys) c =
    ground (arith, is_in-insert_all x ys (insert y c), is_in-insert x y c)

spaced-snoc :
    (u : Text) (before : List Text) (w : Text)
    → spaced ((u ∷ before) ++ w ∷ []) ≡ spaced (u ∷ before) ++ 32 ∷ w
spaced-snoc u [] w = refl
spaced-snoc u (v ∷ before) w =
    ground (arith, spaced-snoc v before w, append_assoc u (32 ∷ spaced (v ∷ before)) (32 ∷ w))

longer-spaced :
    (before : List Text) (w : Text)
    → longer (length before) (spaced before) w ≡ spaced (before ++ w ∷ [])
unfolding longer
longer-spaced [] w = refl
longer-spaced (u ∷ before) w = sym (spaced-snoc u before w)

is_in-candidates_at :
    (x : ℕ) (tables : List Table) (before ws : List Text) (c : List ℕ)
    → is_in x (candidates_at tables (length before) (spaced before) ws c)
      ≡ (is_in x c || ngram_allows x tables before ws)
unfolding candidates_at
is_in-candidates_at x [] before ws c = ground arith
is_in-candidates_at x (t ∷ ts) before [] c = ground arith
is_in-candidates_at x (t ∷ ts) before (w ∷ ws) c = ground (
  arith,
  longer-spaced before w,
  length-append before (w ∷ []),
  is_in-insert_all x (rule (longer (length before) (spaced before) w) t) c,
  is_in-candidates_at x ts (before ++ w ∷ []) ws
      (insert_all (rule (longer (length before) (spaced before) w) t) c),
)

is_in-candidates_of :
    (x : ℕ) (tables : List Table) (ws : List Text) (c : List ℕ)
    → is_in x (candidates_of tables ws c) ≡ (is_in x c || text_allows x tables ws)
unfolding candidates_of
is_in-candidates_of x tables [] c = ground arith
is_in-candidates_of x tables (w ∷ ws) c = ground (
  arith,
  is_in-candidates_of x tables ws (candidates_at tables 0 [] (w ∷ ws) c),
  is_in-candidates_at x tables [] (w ∷ ws) c,
)

is_in-candidates_of_all :
    (x : ℕ) (tables : List Table) (batch : List (List Text)) (c : List ℕ)
    → is_in x (candidates_of_all tables batch c) ≡ (is_in x c || batch_allows x tables batch)
unfolding candidates_of_all
is_in-candidates_of_all x tables [] c = ground arith
is_in-candidates_of_all x tables (ws ∷ batch) c = ground (
  arith,
  is_in-candidates_of_all x tables batch (candidates_of tables ws c),
  is_in-candidates_of x tables ws c,
)

is_in-insert_prefixes :
    (x : ℕ) (iss : List (List ℕ)) (c : List ℕ)
    → is_in x (insert_prefixes iss c) ≡ (is_in x c || prefixes_hold x iss)
unfolding insert_prefixes
is_in-insert_prefixes x [] c = ground arith
is_in-insert_prefixes x (is ∷ iss) c =
    ground (arith, is_in-insert_prefixes x iss (insert_all is c), is_in-insert_all x is c)

-- An id is a candidate if and only if it is a fixed candidate, a rule for an n-gram of a source text
-- has it, where the n-gram is written with single spaces and stands in the table of its length, or
-- it is an id of a target prefix.
pub is_in-get_candidates :
    (x : ℕ) (m : VocabularyMap) (source : List (List Text)) (prefixes : List (List ℕ))
    → is_in x (get_candidates m source prefixes) ≡ (
        is_in x m.fixed_candidates || batch_allows x m.map_rules source || prefixes_hold x prefixes)
unfolding get_candidates
is_in-get_candidates x m source prefixes = ground (
  arith,
  is_in-insert_prefixes x prefixes (candidates_of_all m.map_rules source m.fixed_candidates),
  is_in-candidates_of_all x m.map_rules source m.fixed_candidates,
)
