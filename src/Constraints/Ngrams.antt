-- ===== src/Constraints/Ngrams.antt =====
-- The tokens that NoRepeatNgram disables: those that would repeat an n-gram of the row.
use ctranslate.Prelude.{
  ℕ, zero, suc, ◌+◌, ◌-◌, ◌<◌, ◌≤◌, ltb, leb, ◌==◌, Bool, true, false, Bool-cases, ◌&&◌, ◌||◌, List,
  [], ◌∷◌, ◌++◌, length, drop, get_or, if◌then◌else◌, Run, done, ◌≡◌, refl, sym, ap, ◌∙◌, arith,
  inl, inr, length-append, All,
}
use ctranslate.Vocab.Map.{insert}
use ctranslate.Vocab.Candidates.{is_in, is_in-insert}
use ctranslate.Constraints.Processors.{begins, search_for, ngram_rounds, ngram_final_tokens}

-- `p` is somewhere in the row.
abbrev pub occurs : List ℕ → List ℕ → Bool
occurs p [] = begins p []
occurs p (y ∷ ys) = begins p (y ∷ ys) || occurs p ys

-- The last tokens of a row, one less than an n-gram has.
abbrev pub current_ngram : ℕ → List ℕ → List ℕ
current_ngram n row = drop (length row + 1 - n) row

begins-snoc :
    (p hay : List ℕ) (t : ℕ)
    → begins (p ++ t ∷ []) hay
      ≡ (begins p hay && (leb (suc (length p)) (length hay) && (t == get_or hay (length p) 0)))
begins-snoc [] [] t = ground arith
begins-snoc [] (y ∷ ys) t = ground arith
begins-snoc (x ∷ p) [] t = ground arith
begins-snoc (x ∷ p) (y ∷ ys) t = ground (arith, begins-snoc p ys t)

begins-short : (p hay : List ℕ) → length hay < length p → begins p hay ≡ false
begins-short [] hay h = ground (arith, h)
begins-short (x ∷ p) [] h = refl
begins-short (x ∷ p) (y ∷ ys) h = ground (arith, begins-short p ys (omega (arith, h)))

occurs-short : (p hay : List ℕ) → length hay < length p → occurs p hay ≡ false
occurs-short p [] h = begins-short p [] h
occurs-short p (y ∷ ys) h =
    ground (arith, begins-short p (y ∷ ys) h, occurs-short p ys (omega (arith, h)))

-- The tokens behind the occurrences of `p`, one after the other.
after : List ℕ → List ℕ → List ℕ → List ℕ
after p [] found = found
after p (y ∷ ys) found = after p ys (
    if begins p (y ∷ ys) && ltb (length p) (length (y ∷ ys))
    then insert (get_or (y ∷ ys) (length p) 0) found
    else found)

after-short : (p hay found : List ℕ) → length hay ≤ length p → after p hay found ≡ found
unfolding after
after-short p [] found h = refl
after-short p (y ∷ ys) found h =
    let long : ltb (length p) (length (y ∷ ys)) ≡ false = ground (arith, h) in
    let no : (begins p (y ∷ ys) && ltb (length p) (length (y ∷ ys))) ≡ false =
      ground (arith, long) in
    rw no (after-short p ys found (omega (arith, h)))

is_in-after :
    (t : ℕ) (p hay found : List ℕ)
    → is_in t (after p hay found) ≡ (is_in t found || occurs (p ++ t ∷ []) hay)
unfolding after
is_in-after t p [] found = ground (arith, begins-snoc p [] t)
is_in-after t p (y ∷ ys) found = ground (
  arith,
  begins-snoc p (y ∷ ys) t,
  is_in-insert t (get_or (y ∷ ys) (length p) 0) found,
  is_in-after t p ys (insert (get_or (y ∷ ys) (length p) 0) found),
  is_in-after t p ys found,
)

ngram_rounds-after :
    (rounds : ℕ) (p hay found : List ℕ)
    → length hay < rounds
    → ngram_rounds rounds (suc (length p)) p hay found ≡ done (after p hay found)
unfolding ngram_rounds after
ngram_rounds-after zero p hay found h = ground (arith, h)
ngram_rounds-after (suc rounds) p [] found h =
    let short : ltb 0 (suc (length p)) ≡ true = ground arith in rw (ngram_rounds, short)
ngram_rounds-after (suc rounds) p (y ∷ ys) found h = elim (Bool-cases (begins p (y ∷ ys))) [
  | inl b ↦ elim (Bool-cases (ltb (length (y ∷ ys)) (suc (length p)))) [
    | inl c ↦
        let long : ltb (length p) (length (y ∷ ys)) ≡ false = ground (arith, c) in
        rw (ngram_rounds, b, c, long) (ap done (sym (after-short p ys found (ground (arith, c)))))
    | inr c ↦
        let long : ltb (length p) (length (y ∷ ys)) ≡ true = ground (arith, c) in
        let head : search_for p (y ∷ ys) ≡ 0 = rw b refl in
        let one : suc (length p) - 1 ≡ length p = omega arith in
        rw (ngram_rounds, head, b, c, long, one)
          (rw head (ngram_rounds-after rounds p ys _ (omega (arith, h))))
  ]
  | inr b ↦
      let there : search_for p (y ∷ ys) ≡ suc (search_for p ys) = rw b refl in
      let skip : after p (y ∷ ys) found ≡ after p ys found = rw b refl in
      ap
        (λ k. elim (ltb (length (drop k (y ∷ ys))) (suc (length p))) as (λ _. Run (List ℕ)) [
          | true ↦ done found
          | false ↦
              ngram_rounds rounds (suc (length p)) p (drop 1 (drop k (y ∷ ys)))
                (insert (get_or (drop k (y ∷ ys)) (suc (length p) - 1) 0) found)
        ])
        there
      ∙ ngram_rounds-after (suc rounds) p ys found (omega (arith, h))
      ∙ ap done (sym skip)
]

All-insert : (v x : ℕ) (c : List ℕ) → x < v → All (λ t. t < v) c → All (λ t. t < v) (insert x c)
unfolding insert
All-insert v x [] h k = (h, tt)
All-insert v x (y ∷ c) h k = elim (Bool-cases (ltb x y)) [
  | inl e ↦ rw e (h, k)
  | inr e ↦ elim (Bool-cases (x == y)) [
    | inl q ↦ rw (e, q) k
    | inr q ↦ rw (e, q) (k.0, All-insert v x c h k.1)
  ]
]

All-get_or_lt : (v i : ℕ) (c : List ℕ) → i < length c → All (λ t. t < v) c → get_or c i 0 < v
All-get_or_lt v i [] h k = ground (arith, h)
All-get_or_lt v zero (x ∷ c) h k = k.0
All-get_or_lt v (suc i) (x ∷ c) h k = All-get_or_lt v i c (omega (arith, h)) k.1

All-after :
    (v : ℕ) (p hay found : List ℕ)
    → All (λ t. t < v) hay
    → All (λ t. t < v) found
    → All (λ t. t < v) (after p hay found)
unfolding after
All-after v p [] found h k = k
All-after v p (y ∷ ys) found h k =
    elim (Bool-cases (begins p (y ∷ ys) && ltb (length p) (length (y ∷ ys)))) [
      | inl e ↦ rw e (
          All-after v p ys _ h.1
            (All-insert v _ found (All-get_or_lt v (length p) (y ∷ ys) (ground (arith, e)) h) k))
      | inr e ↦ rw e (All-after v p ys found h.1 k)
    ]

pub length-drop : (k : ℕ) (xs : List ℕ) → length (drop k xs) ≡ length xs - k
length-drop zero xs = omega arith
length-drop (suc k) [] = omega arith
length-drop (suc k) (x ∷ xs) = omega (arith, length-drop k xs)

length-drop_current :
    (n : ℕ) (row : List ℕ) → 0 < n → n ≤ length row → n ≡ suc (length (current_ngram n row))
length-drop_current n row h k = omega (arith, h, k, length-drop (length row + 1 - n) row)

pub ngram_final_tokens-occurs :
    (n : ℕ) (row : List ℕ)
    → 0 < n
    → (tokens : List ℕ) × (ngram_final_tokens n row ≡ done tokens)
      × ((v : ℕ) → All (λ t. t < v) row → All (λ t. t < v) tokens)
      × ((t : ℕ) → is_in t tokens ≡ occurs (current_ngram n row ++ t ∷ []) row)
unfolding ngram_final_tokens
ngram_final_tokens-occurs n row h = elim (Bool-cases (ltb (length row) n)) [
  | inl c ↦ (
    [],
    rw c refl,
    λ v k. tt,
    λ t. sym (
        occurs-short (current_ngram n row ++ t ∷ []) row (
          ground (
            arith,
            c,
            length-drop (length row + 1 - n) row,
            length-append (current_ngram n row) (t ∷ []),
          ))),
  )
  | inr c ↦
      let e = length-drop_current n row h (ground (arith, c)) in
      let p = current_ngram n row in
      (
        after p row [],
        rw c (
            ap (λ m. ngram_rounds (suc (length row)) m p row []) e
            ∙ ngram_rounds-after (suc (length row)) p row [] (omega arith)),
        λ v k. All-after v p row [] k tt,
        λ t. ground (arith, is_in-after t p row []),
      )
]
