-- ===== src/Vocab/Defs.antt =====
-- class Vocabulary. `_token_to_id` is an association list in which a key stands once, and
-- `_id_to_token`, whose pointers lead to its keys, the list of the keys' texts.
use ctranslate.Prelude.{
  ℕ, ◌-◌, ltb, leb, ◌==◌, Bool, true, false, not, ◌&&◌, Text, text_eq, Option, none, some, List, [],
  ◌∷◌, ◌++◌, length, get_or, set, take, if◌then◌else◌, Result, ok, err, ◌>>=◌, ◌>>◌, guard,
  invalid_argument, out_of_range,
}

pub record VocabularyInfo : Type 0 where
  pub unk_token : Text
  pub bos_token : Text
  pub eos_token : Text

-- "<unk>", "<s>" and "</s>".
abbrev pub default_info : VocabularyInfo
default_info = record {
  unk_token = 60 ∷ 117 ∷ 110 ∷ 107 ∷ 62 ∷ [];
  bos_token = 60 ∷ 115 ∷ 62 ∷ [];
  eos_token = 60 ∷ 47 ∷ 115 ∷ 62 ∷ [];
}

pub record Vocabulary : Type 0 where
  pub id_to_token : List Text
  pub token_to_id : List (Text × ℕ)
  pub info : VocabularyInfo

-- `find`, on a map from text.
unfoldable pub find : Text → List (Text × ℕ) → Option ℕ
find t [] = none
find t ((k, i) ∷ m) = if text_eq t k then some i else find t m

-- `emplace` inserts only a new key.
unfoldable pub emplace : Text → ℕ → List (Text × ℕ) → List (Text × ℕ)
emplace t i m = elim (find t m) [ some j ↦ m | none ↦ (t, i) ∷ m ]

unfoldable pub size : Vocabulary → ℕ
size v = length v.id_to_token

unfoldable pub add_token : Text → Vocabulary → Vocabulary
unfolding size
add_token token v = record v {
  token_to_id = emplace token (size v) v.token_to_id;
  id_to_token = v.id_to_token ++ token ∷ [];
}

unfoldable pub contains : Vocabulary → Text → Bool
contains v token = elim (find token v.token_to_id) [ some i ↦ true | none ↦ false ]

unfoldable pub add_tokens : List Text → Vocabulary → Vocabulary
add_tokens [] v = v
add_tokens (t ∷ ts) v = add_tokens ts (add_token t v)

unfoldable pub with_unk : Vocabulary → Vocabulary
with_unk v = if contains v v.info.unk_token then v else add_token v.info.unk_token v

unfoldable pub new_vocabulary : List Text → VocabularyInfo → Vocabulary
new_vocabulary tokens i =
    with_unk (add_tokens tokens (record { id_to_token = []; token_to_id = []; info = i }))

unfoldable pub to_token : Vocabulary → ℕ → Result Text
to_token v id = guard (not (leb (size v) id)) invalid_argument >> ok (get_or v.id_to_token id [])

-- `at`.
unfoldable pub at : Option ℕ → Result ℕ
at (some i) = ok i
at none = err out_of_range

unfoldable pub to_id : Vocabulary → Text → Bool → Result ℕ
to_id v token allow_unk = elim (find token v.token_to_id) [
  | some i ↦ ok i
  | none ↦
      guard (not (not allow_unk && not (text_eq token v.info.unk_token))) invalid_argument
      >> at (find v.info.unk_token v.token_to_id)
]

unfoldable pub to_tokens_of : Vocabulary → List ℕ → Result (List Text)
to_tokens_of v [] = ok []
to_tokens_of v (id ∷ ids) = to_token v id >>= λ t. to_tokens_of v ids >>= λ ts. ok (t ∷ ts)

unfoldable pub to_tokens : Vocabulary → List (List ℕ) → Result (List (List Text))
to_tokens v [] = ok []
to_tokens v (ids ∷ batch) =
    to_tokens_of v ids >>= λ ts. to_tokens v batch >>= λ rest. ok (ts ∷ rest)

unfoldable pub ids_of : Vocabulary → Bool → List Text → Result (List ℕ)
ids_of v allow_unk [] = ok []
ids_of v allow_unk (t ∷ ts) =
    to_id v t allow_unk >>= λ i. ids_of v allow_unk ts >>= λ is. ok (i ∷ is)

-- A prefix or suffix that may be a null pointer, as the tokens that it adds.
unfoldable pub marked : Option Text → List Text
marked none = []
marked (some t) = t ∷ []

-- `ids.resize(max_length)`, after EOS and a language code were moved to the last positions.
unfoldable pub truncate : ℕ → ℕ → List ℕ → List ℕ
truncate eos max_length ids = take max_length (
    if get_or ids (length ids - 1) 0 == eos
    then set ids (max_length - 1) eos
    else if (get_or ids (length ids - 2) 0 == eos) && leb 2 max_length
    then set (set ids (max_length - 2) eos) (max_length - 1)
        (get_or (set ids (max_length - 2) eos) (length ids - 1) 0)
    else ids)

unfoldable pub shorten : Vocabulary → ℕ → List ℕ → Result (List ℕ)
shorten v max_length ids =
    if ltb 0 max_length && ltb max_length (length ids)
    then (to_id v v.info.eos_token true >>= λ eos. ok (truncate eos max_length ids))
    else ok ids

unfoldable pub to_ids_of :
    Vocabulary → ℕ → Option Text → Option Text → Bool → List Text → Result (List ℕ)
to_ids_of v max_length prefix suffix allow_unk tokens =
    ids_of v allow_unk (marked prefix ++ tokens ++ marked suffix) >>= shorten v max_length

unfoldable pub to_ids :
    Vocabulary → ℕ → Option Text → Option Text → Bool → List (List Text) → Result (List (List ℕ))
to_ids v max_length prefix suffix allow_unk [] = ok []
to_ids v max_length prefix suffix allow_unk (tokens ∷ batch) =
    to_ids_of v max_length prefix suffix allow_unk tokens >>= λ ids.
    to_ids v max_length prefix suffix allow_unk batch >>= λ rest. ok (ids ∷ rest)

-- The overload with flags.
unfoldable pub to_ids_with :
    Vocabulary → ℕ → Bool → Bool → List (List Text) → Result (List (List ℕ))
to_ids_with v max_length add_bos add_eos =
    to_ids v max_length (if add_bos then some v.info.bos_token else none)
      (if add_eos then some v.info.eos_token else none) true
