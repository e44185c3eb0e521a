-- ===== src/Decoding/Repeats.antt =====
-- What a search for several hypotheses gives for each row.
use native.Mathlib.Nat.{suc-mul, zero-mul, le-div_iff_mul-le, div-lt_iff_lt-mul}
use ctranslate.Prelude.{
  ℕ, zero, suc, ◌+◌, ◌-◌, ◌*◌, ◌/◌, ◌<◌, ◌≤◌, ◌==◌, ==_iff, true, false, Bool-cases, some, List, [],
  ◌∷◌, ◌++◌, length, get_or, get_elem?, set, take, drop, map, replicate, iota, if◌then◌else◌, ◌≡◌,
  refl, sym, ap, ◌∙◌, arith, inl, inr, append-nil, append_assoc, get_or-set, length-set,
  length-replicate, length-append,
}
use ctranslate.Batching.Rebatch.{index_vector}
use ctranslate.Decoding.Defs.{Engine, SearchOptions, DecodingResult}
use ctranslate.Decoding.Greedy.{no_result}
use ctranslate.Decoding.Hypotheses.{repeat_vector, with_hypotheses, append_result, merge_results}

div_same : (n b i : ℕ) → 0 < n → b * n ≤ i → i < b * n + n → ((i / n) == b) ≡ true
div_same n b i h k l =
    let p = (le-div_iff_mul-le {k = n} {x = b} {y = i} h).1 k in
    let q = (div-lt_iff_lt-mul {k = n} {x = i} {y = suc b} h).1 (omega (arith, l, suc-mul b n)) in
    ground (arith, p, q)

div_below : (n b i : ℕ) → 0 < n → i < b * n → ((i / n) == b) ≡ false
div_below n b i h k = let q = (div-lt_iff_lt-mul {k = n} {x = i} {y = b} h).1 k in ground (arith, q)

div_above : (n b i : ℕ) → 0 < n → b * n + n ≤ i → ((i / n) == b) ≡ false
div_above n b i h k =
    let p = (le-div_iff_mul-le {k = n} {x = suc b} {y = i} h).1 (omega (arith, k, suc-mul b n)) in
    ground (arith, p)

-- A vector that is repeated has each element n times.
module _ {A : Type 0} where
  get_elem?-replicate :
      (n j : ℕ) (x : A) (ys : List A) → j < n → get_elem? (replicate n x ++ ys) j ≡ some x
  get_elem?-replicate zero j x ys h = ground (arith, h)
  get_elem?-replicate (suc n) zero x ys h = refl
  get_elem?-replicate (suc n) (suc j) x ys h = get_elem?-replicate n j x ys (omega (arith, h))

  get_elem?-behind :
      (n k m : ℕ) (x : A) (ys : List A)
      → m ≡ k + n
      → get_elem? (replicate n x ++ ys) m ≡ get_elem? ys k
  get_elem?-behind zero k m x ys h = ap (get_elem? ys) (omega (arith, h))
  get_elem?-behind (suc n) k zero x ys h = ground (arith, h)
  get_elem?-behind (suc n) k (suc m) x ys h = get_elem?-behind n k m x ys (omega (arith, h))

  pub get_elem?-repeat_vector :
      (n b j : ℕ) (v : List A) (x : A)
      → j < n
      → get_elem? v b ≡ some x
      → get_elem? (repeat_vector v n) (b * n + j) ≡ some x
  unfolding repeat_vector
  get_elem?-repeat_vector n b j [] x h e = cc
  get_elem?-repeat_vector n zero j (y ∷ v) x h e =
      ap (get_elem? (replicate n y ++ repeat_vector v n)) (omega (arith, zero-mul n))
      ∙ get_elem?-replicate n j y (repeat_vector v n) h
      ∙ e
  get_elem?-repeat_vector n (suc b) j (y ∷ v) x h e =
      get_elem?-behind n (b * n + j) (suc b * n + j) y (repeat_vector v n)
        (omega (arith, suc-mul b n))
      ∙ get_elem?-repeat_vector n b j v x h e

  pub length-repeat_vector : (n : ℕ) (v : List A) → length (repeat_vector v n) ≡ length v * n
  unfolding repeat_vector
  length-repeat_vector n [] = omega arith
  length-repeat_vector n (x ∷ v) = omega (
    arith,
    length-append (replicate n x) (repeat_vector v n),
    length-replicate n x,
    length-repeat_vector n v,
    suc-mul (length v) n,
  )

  map-append : {B : Type 0} (f : A → B) (xs ys : List A) → map f (xs ++ ys) ≡ map f xs ++ map f ys
  map-append f [] ys = refl
  map-append f (x ∷ xs) ys = ap (◌∷◌ (f x)) (map-append f xs ys)

  map-replicate :
      {B : Type 0} (f : A → B) (n : ℕ) (x : A) → map f (replicate n x) ≡ replicate n (f x)
  map-replicate f zero x = refl
  map-replicate f (suc n) x = ap (◌∷◌ (f x)) (map-replicate f n x)

  pub map-repeat_vector :
      {B : Type 0} (f : A → B) (v : List A) (n : ℕ)
      → map f (repeat_vector v n) ≡ repeat_vector (map f v) n
  unfolding repeat_vector
  map-repeat_vector f [] n = refl
  map-repeat_vector f (x ∷ v) n =
      map-append f (replicate n x) (repeat_vector v n)
      ∙ (λ i. map-replicate f n x i ++ map-repeat_vector f v n i)

module _ {A : Type 0} where
  -- A list that is given by its elements.
  pub take-drop-iota :
      (n i k : ℕ) (xs : List A) (d : A) (f : ℕ → A)
      → i + n ≤ length xs
      → ((j m l : ℕ) → j < n → m ≡ i + j → l ≡ k + j → get_or xs m d ≡ f l)
      → take n (drop i xs) ≡ map f (iota k n)
  take-drop-iota zero i k xs d f h e = refl
  take-drop-iota (suc n) zero k [] d f h e = ground (arith, h)
  take-drop-iota (suc n) zero k (x ∷ xs) d f h e =
      ap (λ y. y ∷ take n xs) (e 0 0 k (omega arith) (omega arith) (omega arith))
      ∙ ap (◌∷◌ (f k)) (
          take-drop-iota n 0 (suc k) xs d f (omega (arith, h)) (λ j m l lt p q.
            e (suc j) (suc m) l (omega (arith, lt)) (omega (arith, p)) (omega (arith, q))))
  take-drop-iota (suc n) (suc i) k [] d f h e = ground (arith, h)
  take-drop-iota (suc n) (suc i) k (x ∷ xs) d f h e =
      take-drop-iota (suc n) i k xs d f (omega (arith, h))
        (λ j m l lt p q. e j (suc m) l lt (omega (arith, p)) q)

  pub index_vector-map :
      (d : A) (v : List A) (is : List ℕ) → index_vector d v is ≡ map (λ i. get_or v i d) is
  unfolding index_vector
  index_vector-map d v [] = refl
  index_vector-map d v (i ∷ is) = ap (◌∷◌ (get_or v i d)) (index_vector-map d v is)

  take_self : (v : List A) → take (length v) v ≡ v
  take_self [] = refl
  take_self (x ∷ v) = ap (◌∷◌ x) (take_self v)

  pub map-get_or : (d : A) (v : List A) → map (λ i. get_or v i d) (iota 0 (length v)) ≡ v
  map-get_or d v =
      sym (
        take-drop-iota (length v) 0 0 v d (λ i. get_or v i d) (omega arith)
          (λ j m l lt p q. ap (λ i. get_or v i d) (omega (arith, p, q))))
      ∙ take_self v

pub take_whole : (n : ℕ) (xs : List ℕ) → length xs ≤ n → take n xs ≡ xs
take_whole zero [] h = refl
take_whole zero (x ∷ xs) h = ground (arith, h)
take_whole (suc n) [] h = refl
take_whole (suc n) (x ∷ xs) h = ap (◌∷◌ x) (take_whole n xs (omega (arith, h)))

module _ (E : Engine) (n : ℕ) (positive : 0 < n) where
  -- The hypotheses of the results from `i` on that go to the final result `b`.
  abbrev pub picked : ℕ → ℕ → List (DecodingResult (with_hypotheses E n)) → List (List ℕ)
  picked b i [] = []
  picked b i (r ∷ rs) =
      if i / n == b then get_or r.hypotheses 0 [] ∷ picked b (suc i) rs else picked b (suc i) rs

  pub length-merge_results :
      (o : SearchOptions) (i : ℕ) (rs : List (DecodingResult (with_hypotheses E n)))
      (finals : List (DecodingResult E))
      → length (merge_results E n o i rs finals) ≡ length finals
  unfolding merge_results
  length-merge_results o i [] finals = refl
  length-merge_results o i (r ∷ rs) finals =
      length-merge_results o (suc i) rs _ ∙ length-set finals (i / n) _

  pub merge_results-picked :
      (o : SearchOptions) (b i : ℕ) (rs : List (DecodingResult (with_hypotheses E n)))
      (finals : List (DecodingResult E))
      → b < length finals
      → (get_or (merge_results E n o i rs finals) b (no_result E)).hypotheses
        ≡ (get_or finals b (no_result E)).hypotheses ++ picked b i rs
  unfolding merge_results append_result
  merge_results-picked o b i [] finals h = sym (append-nil _)
  merge_results-picked o b i (r ∷ rs) finals h =
      let new = append_result E n o r (get_or finals (i / n) (no_result E)) in
      let ih =
        merge_results-picked o b (suc i) rs (set finals (i / n) new)
          (omega (arith, h, length-set finals (i / n) new)) in
      let e = get_or-set finals (i / n) b new (no_result E) h in
      let h' = get_or r.hypotheses 0 [] in
      let rest = picked b (suc i) rs in
      elim (Bool-cases (i / n == b)) [
        | inl c ↦
            let here : (if i / n == b then new else get_or finals b (no_result E)) ≡ new =
              rw c refl in
            let there : picked b i (r ∷ rs) ≡ h' ∷ rest = rw c refl in
            ih
            ∙ ap (λ v. v.hypotheses ++ rest) (e ∙ here)
            ∙ append_assoc (get_or finals (i / n) (no_result E)).hypotheses (h' ∷ []) rest
            ∙ ap (λ x. (get_or finals x (no_result E)).hypotheses ++ h' ∷ rest)
                ((==_iff (i / n) b).0 c)
            ∙ ap (λ l. (get_or finals b (no_result E)).hypotheses ++ l) (sym there)
        | inr c ↦
            let here : (if i / n == b then new else get_or finals b (no_result E))
                ≡ get_or finals b (no_result E) =
              rw c refl in
            let there : picked b i (r ∷ rs) ≡ rest = rw c refl in
            ih
            ∙ ap (λ v. v.hypotheses ++ rest) (e ∙ here)
            ∙ ap (λ l. (get_or finals b (no_result E)).hypotheses ++ l) (sym there)
      ]

  pub picked-below :
      (b i : ℕ) (rs : List (DecodingResult (with_hypotheses E n)))
      → i ≤ b * n
      → b * n < i + length rs
      → picked b i rs ≡ picked b (b * n) (drop (b * n - i) rs)
  picked-below b i [] h k = ground (arith, h, k)
  picked-below b i (r ∷ rs) h k = elim (Bool-cases (i == b * n)) [
    | inl c ↦
        let p : i ≡ b * n = (==_iff i (b * n)).0 c in
        let q : 0 ≡ b * n - i = omega (arith, p) in λ t. picked b (p t) (drop (q t) (r ∷ rs))
    | inr c ↦
        let lt : i < b * n = ground (arith, c, h) in
        let q : suc (b * n - suc i) ≡ b * n - i = omega (arith, lt) in
        rw (div_below n b i positive lt)
          (picked-below b (suc i) rs (omega (arith, lt)) (omega (arith, k)))
        ∙ ap (λ x. picked b (b * n) (drop x (r ∷ rs))) q
  ]

  picked-above :
      (b i : ℕ) (rs : List (DecodingResult (with_hypotheses E n)))
      → b * n + n ≤ i
      → ◌≡◌ {A = List (List ℕ)} (picked b i rs) []
  picked-above b i [] h = refl
  picked-above b i (r ∷ rs) h =
      rw (div_above n b i positive h) (picked-above b (suc i) rs (omega (arith, h)))

  pub picked-own :
      (b i k : ℕ) (rs : List (DecodingResult (with_hypotheses E n)))
      → b * n ≤ i
      → i + k ≡ b * n + n
      → picked b i rs ≡ map (λ r. get_or r.hypotheses 0 []) (take k rs)
  picked-own b i zero rs h e = picked-above b i rs (omega (arith, e))
  picked-own b i (suc k) [] h e = refl
  picked-own b i (suc k) (r ∷ rs) h e = rw (div_same n b i positive h (omega (arith, e))) (
      ap (◌∷◌ (get_or r.hypotheses 0 []))
        (picked-own b (suc i) k rs (omega (arith, h)) (omega (arith, e))))
