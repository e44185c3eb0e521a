-- ===== src/Constraints/Sequences.antt =====
-- The tokens that SuppressSequences disables for a row.
use ctranslate.Prelude.{
  ℕ, zero, suc, ◌-◌, ◌≤◌, leb, ◌==◌, Bool, false, not, ◌&&◌, ◌||◌, List, [], ◌∷◌, ◌++◌, length,
  take, drop, get_or, text_eq, is_nil, ◌≡◌, refl, arith, length-is_zero,
}
use ctranslate.Vocab.Candidates.{is_in}
use ctranslate.Constraints.Processors.{new_suppress_sequences, banned_tokens, disable_last, back}

-- The row with `t` behind it ends in one of the sequences, none of which is empty.
abbrev pub completes : List (List ℕ) → List ℕ → ℕ → Bool
completes [] row t = false
completes (s ∷ sequences) row t =
    (not (is_nil s)
      && (leb (length s) (suc (length row))
          && text_eq (drop (suc (length row) - length s) (row ++ t ∷ [])) s))
    || completes sequences row t

text_eq-snoc_nil : (xs : List ℕ) (t : ℕ) → text_eq (xs ++ t ∷ []) [] ≡ false
text_eq-snoc_nil [] t = refl
text_eq-snoc_nil (x ∷ xs) t = refl

text_eq-snoc :
    (xs s : List ℕ) (m t : ℕ)
    → length s ≡ suc m
    → text_eq (xs ++ t ∷ []) s ≡ (text_eq xs (take m s) && (t == get_or s m 0))
text_eq-snoc xs [] m t h = ground (arith, h)
text_eq-snoc [] (y ∷ []) zero t h = ground arith
text_eq-snoc [] (y ∷ []) (suc m) t h = ground (arith, h)
text_eq-snoc [] (y ∷ z ∷ ys) zero t h = ground (arith, h)
text_eq-snoc [] (y ∷ z ∷ ys) (suc m) t h = ground arith
text_eq-snoc (x ∷ xs) (y ∷ s) zero t h =
    let e : s ≡ [] = length-is_zero s (omega (arith, h)) in ground (arith, e, text_eq-snoc_nil xs t)
text_eq-snoc (x ∷ xs) (y ∷ s) (suc m) t h = ground (arith, text_eq-snoc xs s m t (omega (arith, h)))

drop-snoc :
    (k : ℕ) (row : List ℕ) (t : ℕ) → k ≤ length row → drop k (row ++ t ∷ []) ≡ drop k row ++ t ∷ []
drop-snoc zero row t h = refl
drop-snoc (suc k) [] t h = ground (arith, h)
drop-snoc (suc k) (x ∷ row) t h = drop-snoc k row t (omega (arith, h))

completes_one :
    (s row : List ℕ) (m t : ℕ)
    → length s ≡ suc m
    → (leb (length s) (suc (length row))
        && text_eq (drop (suc (length row) - length s) (row ++ t ∷ [])) s)
      ≡ (disable_last row s && (t == back s))
unfolding disable_last
completes_one s row m t h =
    let one : length s - 1 ≡ m = omega (arith, h) in
    let rest : suc (length row) - length s ≡ length row - m = omega (arith, h) in
    let e = text_eq-snoc (drop (length row - m) row) s m t h in
    let d = drop-snoc (length row - m) row t (omega arith) in ground (arith, h, one, rest, e, d)

drop_all : (row : List ℕ) → drop (length row) row ≡ []
drop_all [] = refl
drop_all (x ∷ row) = drop_all row

-- SuppressSequences disables a token for a row exactly when the row with the token behind it ends in
-- one of the sequences that the constructor was given, empty ones apart.
pub is_in-banned_tokens :
    (sequences : List (List ℕ)) (row : List ℕ) (t : ℕ)
    → (is_in t (new_suppress_sequences sequences).ids
        || is_in t (banned_tokens row (new_suppress_sequences sequences).sequences))
      ≡ completes sequences row t
unfolding new_suppress_sequences banned_tokens disable_last
is_in-banned_tokens [] row t = refl
is_in-banned_tokens ([] ∷ sequences) row t = is_in-banned_tokens sequences row t
is_in-banned_tokens ((x ∷ []) ∷ sequences) row t =
    let none_left : length row - 0 ≡ length row = omega arith in
    ground (
      arith,
      is_in-banned_tokens sequences row t,
      completes_one (x ∷ []) row 0 t refl,
      drop_all row,
      none_left,
    )
is_in-banned_tokens ((x ∷ y ∷ xs) ∷ sequences) row t = ground (
  arith,
  is_in-banned_tokens sequences row t,
  completes_one (x ∷ y ∷ xs) row (suc (length xs)) t refl,
)
