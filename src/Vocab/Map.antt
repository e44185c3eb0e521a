-- ===== src/Vocab/Map.antt =====
-- class VocabularyMap of src/vocabulary_map.cc: which target ids a source text allows. A std::set
-- is the list of its elements from the least to the greatest.
use mathlib.Core.Option
use ctranslate.Prelude.{
  ℕ, zero, suc, ◌-◌, ltb, ◌==◌, Bool, true, false, not, ◌&&◌, Text, text_eq, Option, List, [], ◌∷◌,
  ◌++◌, get_elem?, is_nil, if◌then◌else◌, Result, ok, ◌>>=◌,
}
use ctranslate.Vocab.Defs.{Vocabulary, to_id, size}
use ctranslate.Vocab.Files.{back, pop_back, carriage_return}

-- The rules for the n-grams of one length.
abbrev pub Table : Type 0
Table = List (Text × List ℕ)

pub record VocabularyMap : Type 0 where
  pub vocabulary_size : ℕ
  pub map_rules : List Table
  pub fixed_candidates : List ℕ

unfoldable pub insert : ℕ → List ℕ → List ℕ
insert x [] = x ∷ []
insert x (y ∷ ys) = if ltb x y then x ∷ y ∷ ys else if x == y then y ∷ ys else y ∷ insert x ys

unfoldable pub insert_all : List ℕ → List ℕ → List ℕ
insert_all [] candidates = candidates
insert_all (x ∷ xs) candidates = insert_all xs (insert x candidates)

-- `ctranslate2::getline`, which takes the carriage return off.
unfoldable pub stripped : Text → Text
stripped line = if not (is_nil line) && (back line == carriage_return) then pop_back line else line

-- The variables of the loop over a line.
pub record Line : Type 0 where
  pub token : Text
  pub key : Text
  pub values : List ℕ
  pub target : Bool
  pub ngram : ℕ

-- One character: a tab ends the source side, a space ends a target token or counts a source token.
unfoldable pub read_char : Vocabulary → ℕ → Line → Result Line
read_char v c l =
    if c == 9
    then ok (record l { target = true; key = l.token; token = l.key })
    else if c == 32
    then if l.target
      then (to_id v l.token true >>= λ i. ok (record l { values = l.values ++ i ∷ []; token = [] }))
      else ok (record l { token = l.token ++ c ∷ []; ngram = suc l.ngram })
    else ok (record l { token = l.token ++ c ∷ [] })

unfoldable pub read_chars : Vocabulary → Text → Line → Result Line
read_chars v [] l = ok l
read_chars v (c ∷ cs) l = read_char v c l >>= read_chars v cs

unfoldable pub read_last : Vocabulary → Line → Result Line
read_last v l =
    if is_nil l.token
    then ok l
    else (to_id v l.token true >>= λ i. ok (record l { values = l.values ++ i ∷ [] }))

unfoldable pub read_line : Vocabulary → Text → Result Line
read_line v line =
    read_chars v (stripped line)
      (record { token = []; key = []; values = []; target = false; ngram = 1 })
    >>= read_last v

-- `table[key] = values`.
unfoldable pub assign : Text → List ℕ → Table → Table
assign key values [] = (key, values) ∷ []
assign key values ((k, vs) ∷ t) =
    if text_eq key k then (k, values) ∷ t else (k, vs) ∷ assign key values t

-- The table at `ngram - 1`, after a resize when there are fewer.
unfoldable pub add_rule : ℕ → Text → List ℕ → List Table → List Table
add_rule zero key values [] = assign key values [] ∷ []
add_rule zero key values (t ∷ ts) = assign key values t ∷ ts
add_rule (suc n) key values [] = [] ∷ add_rule n key values []
add_rule (suc n) key values (t ∷ ts) = t ∷ add_rule n key values ts

unfoldable pub read_rules : Vocabulary → List Text → List Table → Result (List Table)
read_rules v [] tables = ok tables
read_rules v (line ∷ lines) tables =
    read_line v line >>= λ l. read_rules v lines (add_rule (l.ngram - 1) l.key l.values tables)

unfoldable pub rule : Text → Table → List ℕ
rule key [] = []
rule key ((k, vs) ∷ t) = if text_eq key k then vs else rule key t

-- The constructor. On an empty file it reads the first table of none, which is undefined: `none`.
unfoldable pub new_vocabulary_map : Vocabulary → List Text → Result (Option VocabularyMap)
unfolding size
new_vocabulary_map v lines = read_rules v lines [] >>= λ tables.
    to_id v v.info.unk_token true >>= λ unk. to_id v v.info.bos_token true >>= λ bos.
    to_id v v.info.eos_token true >>= λ eos. ok (
      Option.map
        (λ t. record {
          vocabulary_size = size v;
          map_rules = tables;
          fixed_candidates = insert_all (unk ∷ bos ∷ eos ∷ rule [] t) [];
        })
        (get_elem? tables 0))

-- `accu` for the n-gram that is longer by a token.
unfoldable pub longer : ℕ → Text → Text → Text
longer zero accu token = token
longer (suc h) accu token = accu ++ 32 ∷ token

-- The loop over `h`, from the tables and the tokens that are left.
unfoldable pub candidates_at : List Table → ℕ → Text → List Text → List ℕ → List ℕ
candidates_at [] h accu tokens candidates = candidates
candidates_at (t ∷ ts) h accu [] candidates = candidates
candidates_at (t ∷ ts) h accu (w ∷ ws) candidates =
    candidates_at ts (suc h) (longer h accu w) ws (insert_all (rule (longer h accu w) t) candidates)

-- The loop over `i`.
unfoldable pub candidates_of : List Table → List Text → List ℕ → List ℕ
candidates_of tables [] candidates = candidates
candidates_of tables (w ∷ ws) candidates =
    candidates_of tables ws (candidates_at tables 0 [] (w ∷ ws) candidates)

unfoldable pub candidates_of_all : List Table → List (List Text) → List ℕ → List ℕ
candidates_of_all tables [] candidates = candidates
candidates_of_all tables (ws ∷ batch) candidates =
    candidates_of_all tables batch (candidates_of tables ws candidates)

unfoldable pub insert_prefixes : List (List ℕ) → List ℕ → List ℕ
insert_prefixes [] candidates = candidates
insert_prefixes (is ∷ iss) candidates = insert_prefixes iss (insert_all is candidates)

unfoldable pub get_candidates : VocabularyMap → List (List Text) → List (List ℕ) → List ℕ
get_candidates m source_tokens target_prefix_ids =
    insert_prefixes target_prefix_ids
      (candidates_of_all m.map_rules source_tokens m.fixed_candidates)
