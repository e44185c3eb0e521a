-- ===== src/Vocab/Lookup.antt =====
-- Tokens and ids, one by one.
use mathlib.Core.Option
use ctranslate.Prelude.{
  ℕ, suc, ◌<◌, true, false, Bool-cases, Option-cases, Text, text_eq, text_eq→eq, text_eq_refl,
  Option, none, some, List, [], ◌∷◌, ◌++◌, length, get_or, if◌then◌else◌, ok, err, ◌>>=◌,
  invalid_argument, append-nil, append_assoc, ◌≡◌, refl, sym, ap, ◌∙◌, inl, inr, arith,
}
use ctranslate.Vocab.Defs.{
  VocabularyInfo, Vocabulary, find, emplace, size, add_token, add_tokens, contains, with_unk,
  new_vocabulary, to_token, to_id, at,
}

-- The first position of a token.
unfoldable pub index_of : Text → List Text → Option ℕ
index_of t [] = none
index_of t (x ∷ xs) = if text_eq t x then some 0 else Option.map suc (index_of t xs)

-- The first of two results that is there.
abbrev or_at : Option ℕ → Option ℕ → Option ℕ
or_at (some i) o = some i
or_at none o = o

index_of-snoc :
    (t u : Text) (xs : List Text)
    → index_of t (xs ++ u ∷ [])
      ≡ or_at (index_of t xs) (if text_eq t u then some (length xs) else none)
unfolding index_of
index_of-snoc t u [] = ground arith
index_of-snoc t u (x ∷ xs) = ground (arith, index_of-snoc t u xs)

or_at-none : (o : Option ℕ) → or_at o none ≡ o
or_at-none (some i) = refl
or_at-none none = refl

find-emplace_same :
    (t u : Text) (n : ℕ) (m : List (Text × ℕ))
    → text_eq t u ≡ true
    → find t (emplace u n m) ≡ or_at (find t m) (some n)
unfolding find emplace
find-emplace_same t u n m h = elim (Option-cases (find u m)) [
  | inl e ↦ ground (arith, e, h, text_eq→eq t u h)
  | inr (j, e) ↦ ground (arith, e, h, text_eq→eq t u h)
]

find-emplace_other :
    (t u : Text) (n : ℕ) (m : List (Text × ℕ))
    → text_eq t u ≡ false
    → find t (emplace u n m) ≡ find t m
unfolding find emplace
find-emplace_other t u n m h = elim (Option-cases (find u m)) [
  | inl e ↦ ground (arith, e, h)
  | inr (j, e) ↦ ground (arith, e, h)
]

find-emplace :
    (t u : Text) (n : ℕ) (m : List (Text × ℕ))
    → find t (emplace u n m) ≡ or_at (find t m) (if text_eq t u then some n else none)
find-emplace t u n m = elim (Bool-cases (text_eq t u)) [
  | inl h ↦ rw h (find-emplace_same t u n m h)
  | inr h ↦ rw h (find-emplace_other t u n m h ∙ sym (or_at-none (find t m)))
]

-- The map gives each token its first position.
pub record IsIndexed (v : Vocabulary) : Type 0 where
  pub agrees : (t : Text) → find t v.token_to_id ≡ index_of t v.id_to_token

add_token-IsIndexed : (t : Text) (v : Vocabulary) → IsIndexed v → IsIndexed (add_token t v)
unfolding add_token size
add_token-IsIndexed u v w = record {
  agrees = λ t.
      find-emplace t u (length v.id_to_token) v.token_to_id
      ∙ ap (λ o. or_at o (if text_eq t u then some (length v.id_to_token) else none)) (w.agrees t)
      ∙ sym (index_of-snoc t u v.id_to_token);
}

add_tokens-IsIndexed : (ts : List Text) (v : Vocabulary) → IsIndexed v → IsIndexed (add_tokens ts v)
unfolding add_tokens
add_tokens-IsIndexed [] v w = w
add_tokens-IsIndexed (t ∷ ts) v w =
    add_tokens-IsIndexed ts (add_token t v) (add_token-IsIndexed t v w)

with_unk-IsIndexed : (v : Vocabulary) → IsIndexed v → IsIndexed (with_unk v)
unfolding with_unk
with_unk-IsIndexed v w = ground (arith, add_token-IsIndexed v.info.unk_token v w)

pub new_vocabulary-IsIndexed :
    (tokens : List Text) (i : VocabularyInfo) → IsIndexed (new_vocabulary tokens i)
unfolding new_vocabulary find index_of
new_vocabulary-IsIndexed tokens i =
    with_unk-IsIndexed _ (add_tokens-IsIndexed tokens _ (record { agrees = λ t. refl }))

-- `at` reads what the map gives.
pub index_of-get_or :
    (t : Text) (xs : List Text) (i : ℕ)
    → index_of t xs ≡ some i
    → (i < length xs) × (get_or xs i [] ≡ t)
unfolding index_of
index_of-get_or t [] i h = cc
index_of-get_or t (x ∷ xs) i h = elim (Bool-cases (text_eq t x)) [
  | inl e ↦ ground (arith, e, h, text_eq→eq t x e)
  | inr e ↦ elim (Option-cases (index_of t xs)) [
    | inl f ↦ ground (arith, e, f, h)
    | inr (j, f) ↦ ground (arith, e, f, h, index_of-get_or t xs j f)
  ]
]

add_token-info : (t : Text) (v : Vocabulary) → (add_token t v).info ≡ v.info
unfolding add_token
add_token-info t v = refl

-- The constructor sees to it that the unknown token has an id.
contains-with_unk : (v : Vocabulary) → contains (with_unk v) (with_unk v).info.unk_token ≡ true
unfolding with_unk contains add_token emplace find
contains-with_unk v = elim (Option-cases (find v.info.unk_token v.token_to_id)) [
  | inl e ↦ ground (arith, e, text_eq_refl v.info.unk_token)
  | inr (j, e) ↦ ground (arith, e)
]

-- The map and the list of tokens agree, and the unknown token is one of them.
pub record IsWellFormed (v : Vocabulary) : Type 0 where
  pub indexed : IsIndexed v
  pub has_unk : contains v v.info.unk_token ≡ true

-- In every vocabulary that the constructor gives, the map leads from each token to its first
-- position in the list of tokens, and the unknown token has an id.
pub new_vocabulary-IsWellFormed :
    (tokens : List Text) (i : VocabularyInfo) → IsWellFormed (new_vocabulary tokens i)
unfolding new_vocabulary
new_vocabulary-IsWellFormed tokens i = record {
  indexed = new_vocabulary-IsIndexed tokens i;
  has_unk = contains-with_unk _;
}

add_tokens-id_to_token :
    (ts : List Text) (v : Vocabulary) → (add_tokens ts v).id_to_token ≡ v.id_to_token ++ ts
unfolding add_tokens add_token
add_tokens-id_to_token [] v = sym (append-nil v.id_to_token)
add_tokens-id_to_token (t ∷ ts) v =
    add_tokens-id_to_token ts (add_token t v) ∙ append_assoc v.id_to_token (t ∷ []) ts

add_tokens-info : (ts : List Text) (v : Vocabulary) → (add_tokens ts v).info ≡ v.info
unfolding add_tokens
add_tokens-info [] v = refl
add_tokens-info (t ∷ ts) v = add_tokens-info ts (add_token t v) ∙ add_token-info t v

-- What the constructor appends to the tokens.
abbrev unk_if : Option ℕ → Text → List Text
unk_if (some i) t = []
unk_if none t = t ∷ []

with_unk-id_to_token :
    (v : Vocabulary)
    → IsIndexed v
    → (with_unk v).id_to_token
      ≡ v.id_to_token ++ unk_if (index_of v.info.unk_token v.id_to_token) v.info.unk_token
unfolding with_unk contains add_token
with_unk-id_to_token v w = elim (Option-cases (index_of v.info.unk_token v.id_to_token)) [
  | inl e ↦ ground (arith, e, w.agrees v.info.unk_token)
  | inr (i, e) ↦ ground (arith, e, w.agrees v.info.unk_token, append-nil v.id_to_token)
]

-- The ids are the positions in the given tokens, repeated ones included, and the unknown token
-- comes after them when they do not have it.
pub new_vocabulary-id_to_token :
    (tokens : List Text) (i : VocabularyInfo)
    → (new_vocabulary tokens i).id_to_token
      ≡ tokens ++ unk_if (index_of i.unk_token tokens) i.unk_token
unfolding new_vocabulary find index_of
new_vocabulary-id_to_token tokens i =
    let v : Vocabulary = record { id_to_token = []; token_to_id = []; info = i } in
    ground (
      arith,
      with_unk-id_to_token (add_tokens tokens v)
          (add_tokens-IsIndexed tokens v (record { agrees = λ t. refl })),
      add_tokens-id_to_token tokens v,
      add_tokens-info tokens v,
    )

module _ {v : Vocabulary} (w : IsWellFormed v) where
  to_token-index_of : (t : Text) (i : ℕ) → find t v.token_to_id ≡ some i → to_token v i ≡ ok t
  unfolding to_token size
  to_token-index_of t i h =
      let (below, read) = index_of-get_or t v.id_to_token i (sym (w.indexed.agrees t) ∙ h) in
      ground (arith, below, read)

  unk_found : (i : ℕ) × (find v.info.unk_token v.token_to_id ≡ some i)
  unfolding contains
  unk_found = elim (Option-cases (find v.info.unk_token v.token_to_id)) [
    | inl e ↦ ground (arith, w.has_unk, e)
    | inr r ↦ r
  ]

  -- In a vocabulary that the constructor gives, the id of a token leads back to the token, or to the
  -- unknown token when the vocabulary does not hold it; `to_id` does not throw.
  pub to_token-to_id :
      (t : Text)
      → (to_id v t true >>= to_token v) ≡ ok (if contains v t then t else v.info.unk_token)
  unfolding to_id contains at
  to_token-to_id t = elim (Option-cases (find t v.token_to_id)) [
    | inl e ↦ let (j, f) = unk_found in ground (arith, e, f, to_token-index_of v.info.unk_token j f)
    | inr (i, e) ↦ ground (arith, e, to_token-index_of t i e)
  ]

  -- In a vocabulary that the constructor gives, without leave to use the unknown token, the id of a
  -- token that it holds leads back to the token, and a token that it does not hold is refused.
  pub to_token-to_id_strict :
      (t : Text)
      → (to_id v t false >>= to_token v) ≡ (if contains v t then ok t else err invalid_argument)
  unfolding to_id contains at
  to_token-to_id_strict t = elim (Option-cases (find t v.token_to_id)) [
    | inl e ↦
        let (j, f) = unk_found in
        elim (Bool-cases (text_eq t v.info.unk_token)) [
          | inl h ↦ ground (arith, e, f, text_eq→eq t v.info.unk_token h)
          | inr h ↦ ground (arith, e, h)
        ]
    | inr (i, e) ↦ ground (arith, e, to_token-index_of t i e)
  ]
