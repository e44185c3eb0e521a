-- ===== src/Storage/Reshaping.antt =====
-- When a reshape succeeds, and with which shape.
use native.Mathlib.Nat.{mul_comm, mul_assoc, mul-one, one-mul, mul-div_cancel}
use ctranslate.Prelude.{
  ℕ, zero, suc, ◌+◌, ◌*◌, ◌/◌, ◌%◌, ◌≤◌, ◌<◌, Bool-cases, List, [], ◌∷◌, map, set, Option, none,
  some, ◌==◌, ==_iff, Result, ok, err, ◌≡◌, refl, sym, ap, subst, ◌∙◌, arith, inl, inr,
}
use ctranslate.Padding.Padder.{ℤ, pos, negsuc}
use ctranslate.Storage.Defs.{Storage, gives, compute_size}
use ctranslate.Storage.Shapes.{known_dims, to_dims, reshape}
use ctranslate.Storage.ShapeLaws.{
  Fits, Reshaped, refused, no_quotient, inferred, not_divisible, given, other_size,
  inferred-Reshaped, given-Reshaped,
}

module _ (dims : List ℤ) (s s' : Storage) (h : reshape dims s ≡ gives s') where
  by_result : (r : Result (Option ℕ × ℕ)) → known_dims dims 0 none 1 ≡ r → Reshaped dims s s'
  by_result (err e) q = let p = refused dims s e q in cc
  by_result (ok (some u, zero)) q = let p = no_quotient dims s u q in cc
  by_result (ok (some u, suc k)) q = elim (Bool-cases ((s.size % suc k) == 0)) [
    | inl t ↦
        let d : s.size % suc k ≡ 0 = (==_iff (s.size % suc k) 0).0 t in
        let p = inferred dims s u (suc k) q (omega arith) d in
        let e : record s { shape = to_dims (set dims u (pos (s.size / suc k))) } ≡ s' = cc in
        subst (Reshaped dims s) e (inferred-Reshaped dims s u (suc k) q d)
    | inr t ↦
        let p = not_divisible dims s u (suc k) q (omega arith) (λ d. ground (arith, t, d)) in cc
  ]
  by_result (ok (none, k)) q = elim (Bool-cases (s.size == k)) [
    | inl t ↦
        let d : s.size ≡ k = (==_iff s.size k).0 t in
        let p = given dims s k q d in
        let e : record s { shape = to_dims dims } ≡ s' = cc in
        subst (Reshaped dims s) e (given-Reshaped dims s k q d)
    | inr t ↦ let p = other_size dims s k q (λ d. ground (arith, t, d)) in cc
  ]

  -- A reshape that succeeds keeps the size and all else but the shape, and the new shape has the
  -- dimensions that are asked for, with one of its own in place of a -1.
  pub reshape-Reshaped : Reshaped dims s s'
  reshape-Reshaped = by_result (known_dims dims 0 none 1) refl

-- How many dimensions a request leaves open.
abbrev pub open_dims : List ℤ → ℕ
open_dims [] = 0
open_dims (pos d ∷ ds) = open_dims ds
open_dims (negsuc n ∷ ds) = suc (open_dims ds)

pub finds_closed :
    (ds : List ℤ) (ns : List ℕ) (i k : ℕ) (u : Option ℕ)
    → Fits ds ns
    → open_dims ds ≡ 0
    → (known_dims ds i u k ≡ ok (u, k * compute_size ns)) × (to_dims ds ≡ ns)
unfolding known_dims to_dims compute_size
finds_closed [] [] i k u f o = (ap (λ z. ok (u, z)) (sym (mul-one k)), refl)
finds_closed [] (n ∷ ns) i k u f o = absurd f
finds_closed (pos d ∷ ds) [] i k u f o = absurd f
finds_closed (negsuc m ∷ ds) [] i k u f o = absurd f
finds_closed (pos d ∷ ds) (n ∷ ns) i k u (e, f) o =
    let ih = finds_closed ds ns (suc i) (k * d) u f o in
    (
      ih.0
          ∙ ap (λ z. ok (u, z)) (mul_assoc k d (compute_size ns))
          ∙ ap (λ z. ok (u, k * (z * compute_size ns))) (sym e),
      ap (λ z. z ∷ to_dims ds) (sym e) ∙ ap (◌∷◌ n) ih.1,
    )
finds_closed (negsuc m ∷ ds) (n ∷ ns) i k u f o = absurd (omega arith)

finds_open :
    (ds : List ℤ) (ns : List ℕ) (i k : ℕ)
    → Fits ds ns
    → open_dims ds ≡ 1
    → (j : ℕ) × (q : ℕ) × (k' : ℕ) × (known_dims ds i none k ≡ ok (some (i + j), k'))
      × (to_dims (set ds j (pos q)) ≡ ns)
      × (k' * q ≡ k * compute_size ns)
unfolding known_dims to_dims compute_size
finds_open [] ns i k f o = absurd (omega arith)
finds_open (pos d ∷ ds) [] i k f o = absurd f
finds_open (pos d ∷ ds) (n ∷ ns) i k (e, f) o =
    let (j, q, k', r, t, p) = finds_open ds ns (suc i) (k * d) f o in
    let e' : suc i + j ≡ i + suc j = omega arith in
    (
      suc j,
      q,
      k',
      r ∙ ap (λ z. ok (some z, k')) e',
      ap (λ z. z ∷ to_dims (set ds j (pos q))) (sym e) ∙ ap (◌∷◌ n) t,
      p ∙ mul_assoc k d (compute_size ns) ∙ ap (λ z. k * (z * compute_size ns)) (sym e),
    )
finds_open (negsuc zero ∷ ds) [] i k f o = absurd f
finds_open (negsuc zero ∷ ds) (n ∷ ns) i k f o =
    let (r, t) = finds_closed ds ns (suc i) k (some i) f (omega arith) in
    let e' : i ≡ i + 0 = omega arith in
    (
      0,
      n,
      k * compute_size ns,
      r ∙ ap (λ z. ok (some z, k * compute_size ns)) e',
      ap (◌∷◌ n) t,
      mul_assoc k (compute_size ns) n ∙ ap (◌*◌ k) (mul_comm (compute_size ns) n),
    )
finds_open (negsuc (suc m) ∷ ds) [] i k f o = absurd f
finds_open (negsuc (suc m) ∷ ds) (n ∷ ns) i k f o = absurd f

module _ (dims : List ℤ) (ns : List ℕ) (s : Storage) (fits : Fits dims ns)
    (size : compute_size ns ≡ s.size) (some_elements : 0 < s.size) where
  finds_one : open_dims dims ≡ 1 → reshape dims s ≡ gives (record s { shape = ns })
  finds_one o =
      let (j, q, k', r, t, p) = finds_open dims ns 0 1 fits o in
      let e : 0 + j ≡ j = omega arith in
      let p' : k' * q ≡ s.size = p ∙ one-mul (compute_size ns) ∙ size in
      let k'_pos : 0 < k' = positive k' q s.size p' some_elements in
      inferred dims s j k' (r ∙ ap (λ z. ok (some z, k')) e) k'_pos (divides k' q s.size p')
      ∙ ap (λ z. gives (record s { shape = to_dims (set dims j (pos z)) }))
          (ap (λ z. z / k') (sym p' ∙ mul_comm k' q) ∙ mul-div_cancel q k'_pos)
      ∙ ap (λ z. gives (record s { shape = z })) t
    where
      positive : (k q n : ℕ) → k * q ≡ n → 0 < n → 0 < k
      positive zero q n e h = grind arith
      positive (suc k) q n e h = omega arith

      divides : (k q n : ℕ) → k * q ≡ n → n % k ≡ 0
      divides k q n e = grind arith

  finds_all : open_dims dims ≡ 0 → reshape dims s ≡ gives (record s { shape = ns })
  finds_all o =
      let (r, t) = finds_closed dims ns 0 1 none fits o in
      given dims s (1 * compute_size ns) r (sym size ∙ sym (one-mul (compute_size ns)))
      ∙ ap (λ z. gives (record s { shape = z })) t

  -- Where some shape fits the request and has the size of the storage, the storage has an element,
  -- and at most one dimension is -1, the reshape succeeds with that shape.
  pub reshape-finds : open_dims dims ≤ 1 → reshape dims s ≡ gives (record s { shape = ns })
  reshape-finds h = elim (Bool-cases (open_dims dims == 0)) [
    | inl t ↦ finds_all ((==_iff (open_dims dims) 0).0 t)
    | inr t ↦ finds_one (ground (arith, t, h))
  ]

Fits-map_pos : (ns : List ℕ) → Fits (map pos ns) ns × (open_dims (map pos ns) ≡ 0)
Fits-map_pos [] = (tt, refl)
Fits-map_pos (n ∷ ns) = let (f, o) = Fits-map_pos ns in ((refl, f), o)

-- A request with no dimension left open, of the size of the storage.
pub reshape-of_size :
    (ns : List ℕ) (s : Storage)
    → s.size ≡ compute_size ns
    → reshape (map pos ns) s ≡ gives (record s { shape = ns })
reshape-of_size ns s e =
    let (f, o) = Fits-map_pos ns in
    let (r, t) = finds_closed (map pos ns) ns 0 1 none f o in
    given (map pos ns) s (1 * compute_size ns) r (e ∙ sym (one-mul (compute_size ns)))
    ∙ ap (λ z. gives (record s { shape = z })) t
