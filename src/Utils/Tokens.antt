-- ===== src/Utils/Tokens.antt =====
-- Splitting a joined text gives its tokens back.
use ctranslate.Prelude.{
  ℕ, zero, suc, ◌+◌, ◌<◌, ◌≤◌, ◌==◌, Bool, true, false, not, ◌&&◌, Text, none, some, List, [], ◌∷◌,
  ◌++◌, length, take, drop, is_nil, done, and_then, ◌≡◌, refl, sym, ap, arith, append_assoc,
  append-nil, length-append, take-append_self,
}
use ctranslate.Utils.Strings.{
  find_text, part_length, split_rounds, split_string, join_onto, join_string,
}

-- A token that is not empty and is free of the delimiter.
abbrev pub is_free : ℕ → Text → Bool
is_free c [] = true
is_free c (d ∷ t) = not (d == c) && is_free c t

abbrev pub all_tokens : ℕ → List Text → Bool
all_tokens c [] = true
all_tokens c (t ∷ ts) = (not (is_nil t) && is_free c t) && all_tokens c ts

find_text-free : (c : ℕ) (t : Text) → is_free c t ≡ true → find_text (c ∷ []) t ≡ none
unfolding find_text
find_text-free c [] h = refl
find_text-free c (d ∷ t) h = ground (arith, h, find_text-free c t)

find_text-first :
    (c : ℕ) (t rest : Text)
    → is_free c t ≡ true
    → find_text (c ∷ []) (t ++ c ∷ rest) ≡ some (length t)
unfolding find_text
find_text-first c [] rest h = ground arith
find_text-first c (d ∷ t) rest h = ground (arith, h, find_text-first c t rest)

drop-append_next : (t rest : Text) (c : ℕ) → drop (length t + 1) (t ++ c ∷ rest) ≡ rest
drop-append_next [] rest c = refl
drop-append_next (d ∷ t) rest c = ground (arith, drop-append_next t rest c)

-- One round on a text with a token in front.
round_next :
    (rounds c : ℕ) (t rest : Text)
    → is_nil t ≡ false
    → is_free c t ≡ true
    → split_rounds (suc rounds) (c ∷ []) (t ++ c ∷ rest)
      ≡ and_then (split_rounds rounds (c ∷ []) rest) (λ parts. done (t ∷ parts))
unfolding split_rounds part_length
round_next rounds c [] rest n h = ground (arith, n)
round_next rounds c (d ∷ t) rest n h = ground (
  arith,
  find_text-first c (d ∷ t) rest h,
  drop-append_next (d ∷ t) rest c,
  take-append_self (d ∷ t) (c ∷ rest),
)

drop_past : (t : Text) → ◌≡◌ {A = Text} (drop (length t + 1) t) []
drop_past [] = refl
drop_past (d ∷ t) = ground (arith, drop_past t)

take_all : (t : Text) → take (length t) t ≡ t
take_all [] = refl
take_all (d ∷ t) = ap (◌∷◌ d) (take_all t)

round_last :
    (rounds c : ℕ) (t : Text)
    → is_nil t ≡ false
    → is_free c t ≡ true
    → split_rounds (suc (suc rounds)) (c ∷ []) t ≡ done (t ∷ [])
unfolding split_rounds part_length
round_last rounds c [] n h = ground (arith, n)
round_last rounds c (d ∷ t) n h =
    ground (arith, find_text-free c (d ∷ t) h, drop_past (d ∷ t), take_all (d ∷ t))

-- What follows the first token of a joined text.
abbrev tail_of : ℕ → List Text → Text
tail_of c [] = []
tail_of c (t ∷ ts) = c ∷ (t ++ tail_of c ts)

is_nil-append : (s t : Text) → is_nil s ≡ false → is_nil (s ++ t) ≡ false
is_nil-append [] t h = ground (arith, h)
is_nil-append (d ∷ s) t h = refl

join_onto-tail_of :
    (c : ℕ) (text : Text) (ts : List Text)
    → is_nil text ≡ false
    → join_onto text ts (c ∷ []) ≡ text ++ tail_of c ts
unfolding join_onto
join_onto-tail_of c text [] h = sym (append-nil text)
join_onto-tail_of c text (t ∷ ts) h = ground (
  arith,
  h,
  join_onto-tail_of c ((text ++ c ∷ []) ++ t) ts,
  is_nil-append (text ++ c ∷ []) t,
  is_nil-append text (c ∷ []) h,
  append_assoc (text ++ c ∷ []) t (tail_of c ts),
  append_assoc text (c ∷ []) (t ++ tail_of c ts),
)

length-tail_of : (c : ℕ) (ts : List Text) → length ts ≤ length (tail_of c ts)
length-tail_of c [] = omega arith
length-tail_of c (t ∷ ts) = omega (arith, length-tail_of c ts, length-append t (tail_of c ts))

split_rounds-tail_of :
    (rounds c : ℕ) (t : Text) (ts : List Text)
    → all_tokens c (t ∷ ts) ≡ true
    → length ts + 2 ≤ rounds
    → split_rounds rounds (c ∷ []) (t ++ tail_of c ts) ≡ done (t ∷ ts)
split_rounds-tail_of zero c t ts h k = ground (arith, k)
split_rounds-tail_of (suc zero) c t ts h k = ground (arith, k)
split_rounds-tail_of (suc (suc rounds)) c t [] h k =
    ground (arith, h, append-nil t, round_last rounds c t)
split_rounds-tail_of (suc (suc rounds)) c t (u ∷ us) h k = ground (
  arith,
  h,
  k,
  round_next (suc rounds) c t (u ++ tail_of c us),
  split_rounds-tail_of (suc rounds) c u us,
)

length_token : (t : Text) → is_nil t ≡ false → 0 < length t
length_token [] h = ground (arith, h)
length_token (d ∷ t) h = omega arith

-- Splitting the text that joins tokens by a delimiter of one character gives the tokens back, when
-- none of them is empty or has that character. The loop ends.
pub split_string-join_string :
    (c : ℕ) (tokens : List Text)
    → all_tokens c tokens ≡ true
    → split_string (join_string tokens (c ∷ [])) (c ∷ []) ≡ done tokens
unfolding split_string join_string join_onto split_rounds
split_string-join_string c [] h = refl
split_string-join_string c (t ∷ ts) h =
    let filled : is_nil t ≡ false = ground (arith, h) in
    rw (join_onto-tail_of c t ts filled) (
      split_rounds-tail_of (length (t ++ tail_of c ts) + 1) c t ts h
        (omega (arith, length-append t (tail_of c ts), length-tail_of c ts, length_token t filled)))
