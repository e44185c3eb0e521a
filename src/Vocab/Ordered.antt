-- ===== src/Vocab/Ordered.antt =====
-- The order of the candidates.
use ctranslate.Prelude.{
  ℕ, suc, ◌<◌, ltb, Bool, true, Option-cases, ◌&&◌, Text, some, List, [], ◌∷◌, get_elem?, ok,
  >>=-eq-ok, ◌≡◌, refl, arith, inl, inr,
}
use ctranslate.Vocab.Defs.{Vocabulary, to_id}
use ctranslate.Vocab.Map.{
  Table, VocabularyMap, insert, insert_all, rule, longer, candidates_at, candidates_of,
  candidates_of_all, insert_prefixes, get_candidates, read_rules, new_vocabulary_map,
}

abbrev below_head : ℕ → List ℕ → Bool
below_head x [] = true
below_head x (y ∷ ys) = ltb x y

-- From the least to the greatest, each once.
abbrev pub ascending : List ℕ → Bool
ascending [] = true
ascending (x ∷ xs) = below_head x xs && ascending xs

insert-below :
    (x y : ℕ) (c : List ℕ) → y < x → below_head y c ≡ true → below_head y (insert x c) ≡ true
unfolding insert
insert-below x y [] h k = ground (arith, h)
insert-below x y (z ∷ c) h k = ground (arith, h, k)

pub insert-ascending : (x : ℕ) (c : List ℕ) → ascending c ≡ true → ascending (insert x c) ≡ true
unfolding insert
insert-ascending x [] h = refl
insert-ascending x (y ∷ c) h = ground (arith, h, insert-ascending x c, insert-below x y c)

insert_all-ascending : (xs c : List ℕ) → ascending c ≡ true → ascending (insert_all xs c) ≡ true
unfolding insert_all
insert_all-ascending [] c h = h
insert_all-ascending (x ∷ xs) c h = insert_all-ascending xs (insert x c) (insert-ascending x c h)

candidates_at-ascending :
    (tables : List Table) (h : ℕ) (accu : Text) (ws : List Text) (c : List ℕ)
    → ascending c ≡ true
    → ascending (candidates_at tables h accu ws c) ≡ true
unfolding candidates_at
candidates_at-ascending [] h accu ws c k = k
candidates_at-ascending (t ∷ ts) h accu [] c k = k
candidates_at-ascending (t ∷ ts) h accu (w ∷ ws) c k =
    candidates_at-ascending ts (suc h) (longer h accu w) ws _
      (insert_all-ascending (rule (longer h accu w) t) c k)

candidates_of-ascending :
    (tables : List Table) (ws : List Text) (c : List ℕ)
    → ascending c ≡ true
    → ascending (candidates_of tables ws c) ≡ true
unfolding candidates_of
candidates_of-ascending tables [] c k = k
candidates_of-ascending tables (w ∷ ws) c k =
    candidates_of-ascending tables ws _ (candidates_at-ascending tables 0 [] (w ∷ ws) c k)

candidates_of_all-ascending :
    (tables : List Table) (batch : List (List Text)) (c : List ℕ)
    → ascending c ≡ true
    → ascending (candidates_of_all tables batch c) ≡ true
unfolding candidates_of_all
candidates_of_all-ascending tables [] c k = k
candidates_of_all-ascending tables (ws ∷ batch) c k =
    candidates_of_all-ascending tables batch _ (candidates_of-ascending tables ws c k)

insert_prefixes-ascending :
    (iss : List (List ℕ)) (c : List ℕ)
    → ascending c ≡ true
    → ascending (insert_prefixes iss c) ≡ true
unfolding insert_prefixes
insert_prefixes-ascending [] c k = k
insert_prefixes-ascending (is ∷ iss) c k =
    insert_prefixes-ascending iss _ (insert_all-ascending is c k)

fixed-ascending :
    (v : Vocabulary) (lines : List Text) (m : VocabularyMap)
    → new_vocabulary_map v lines ≡ ok (some m)
    → ascending m.fixed_candidates ≡ true
unfolding new_vocabulary_map
fixed-ascending v lines m h =
    let (tables, a, h1) = >>=-eq-ok (read_rules v lines []) _ h in
    let (unk, b, h2) = >>=-eq-ok (to_id v v.info.unk_token true) _ h1 in
    let (bos, c, h3) = >>=-eq-ok (to_id v v.info.bos_token true) _ h2 in
    let (eos, d, h4) = >>=-eq-ok (to_id v v.info.eos_token true) _ h3 in
    elim (Option-cases (get_elem? tables 0)) [
      | inl e ↦ ground (arith, e, h4)
      | inr (t, e) ↦
          ground (arith, e, h4, insert_all-ascending (unk ∷ bos ∷ eos ∷ rule [] t) [] refl)
    ]

-- The candidates of a map that was read from a file come from the least to the greatest, each once.
pub get_candidates-ascending :
    (v : Vocabulary) (lines : List Text) (m : VocabularyMap) (source : List (List Text))
    (prefixes : List (List ℕ))
    → new_vocabulary_map v lines ≡ ok (some m)
    → ascending (get_candidates m source prefixes) ≡ true
unfolding get_candidates
get_candidates-ascending v lines m source prefixes h =
    insert_prefixes-ascending prefixes _
      (candidates_of_all-ascending m.map_rules source _ (fixed-ascending v lines m h))
