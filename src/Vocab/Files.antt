-- ===== src/Vocab/Files.antt =====
-- Vocabulary::from_text_file. A file is the list of the lines that std::getline gives.
use ctranslate.Prelude.{
  ℕ, ◌==◌, Bool, true, false, not, ◌||◌, Text, List, [], ◌∷◌, ◌++◌, map, if◌then◌else◌, is_nil, ◌≡◌,
  refl, ap, arith,
}
use ctranslate.Vocab.Defs.{VocabularyInfo, Vocabulary, new_vocabulary}

-- `line.back()`, of a line that is not empty.
unfoldable pub back : Text → ℕ
back [] = 0
back (c ∷ []) = c
back (c ∷ d ∷ s) = back (d ∷ s)

unfoldable pub pop_back : Text → Text
pop_back [] = []
pop_back (c ∷ []) = []
pop_back (c ∷ d ∷ s) = c ∷ pop_back (d ∷ s)

-- '\r'.
abbrev pub carriage_return : ℕ
carriage_return = 13

-- The loop over the lines: whether the carriage returns are to be removed.
unfoldable pub read_lines : Bool → List Text → Bool
read_lines remove_carriage_return [] = remove_carriage_return
read_lines remove_carriage_return (line ∷ lines) =
    read_lines
      (if is_nil line || not (back line == carriage_return) then false else remove_carriage_return)
      lines

unfoldable pub from_text_file : List Text → VocabularyInfo → Vocabulary
from_text_file lines i =
    new_vocabulary (if read_lines true lines then map pop_back lines else lines) i

-- A line with its end of line as some systems write it.
pub with_return : Text → Text
with_return s = s ++ carriage_return ∷ []

pop_back-with_return : (s : Text) → pop_back (with_return s) ≡ s
unfolding pop_back with_return
pop_back-with_return [] = refl
pop_back-with_return (c ∷ []) = refl
pop_back-with_return (c ∷ d ∷ s) = ap (◌∷◌ c) (pop_back-with_return (d ∷ s))

back-with_return : (s : Text) → back (with_return s) ≡ carriage_return
unfolding back with_return
back-with_return [] = refl
back-with_return (c ∷ []) = refl
back-with_return (c ∷ d ∷ s) = back-with_return (d ∷ s)

is_nil-with_return : (s : Text) → is_nil (with_return s) ≡ false
unfolding with_return
is_nil-with_return [] = refl
is_nil-with_return (c ∷ s) = refl

read_lines-with_return : (b : Bool) (lines : List Text) → read_lines b (map with_return lines) ≡ b
unfolding read_lines
read_lines-with_return b [] = refl
read_lines-with_return b (s ∷ lines) =
    ground (arith, back-with_return s, is_nil-with_return s, read_lines-with_return b lines)

map-pop_back : (lines : List Text) → map pop_back (map with_return lines) ≡ lines
map-pop_back [] = refl
map-pop_back (s ∷ lines) = ground (arith, pop_back-with_return s, map-pop_back lines)

read_lines-false : (lines : List Text) → read_lines false lines ≡ false
unfolding read_lines
read_lines-false [] = refl
read_lines-false (s ∷ lines) = ground (arith, read_lines-false lines)

read_lines-mixed :
    (b : Bool) (before : List Text) (s : Text) (after : List Text)
    → (is_nil s || not (back s == carriage_return)) ≡ true
    → read_lines b (before ++ s ∷ after) ≡ false
unfolding read_lines
read_lines-mixed b [] s after h = ground (arith, h, read_lines-false after)
read_lines-mixed b (x ∷ before) s after h =
    read_lines-mixed (if is_nil x || not (back x == carriage_return) then false else b) before s
      after h

-- A file whose every line ends in a carriage return gives the vocabulary of the lines without it.
pub from_text_file-with_return :
    (lines : List Text) (i : VocabularyInfo)
    → from_text_file (map with_return lines) i ≡ new_vocabulary lines i
unfolding from_text_file
from_text_file-with_return lines i =
    ground (arith, read_lines-with_return true lines, map-pop_back lines)

-- One line that does not end in a carriage return is enough for every line to be kept as it is.
pub from_text_file-mixed :
    (before : List Text) (s : Text) (after : List Text) (i : VocabularyInfo)
    → (is_nil s || not (back s == carriage_return)) ≡ true
    → from_text_file (before ++ s ∷ after) i ≡ new_vocabulary (before ++ s ∷ after) i
unfolding from_text_file
from_text_file-mixed before s after i h = ground (arith, read_lines-mixed true before s after h)
