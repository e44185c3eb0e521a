-- ===== src/Storage/ShapeLaws.antt =====
-- Reshaping keeps the number of elements, and squeezing undoes the insertion of a dimension.
use native.Mathlib.Nat.{mul_comm, mul_assoc, mul-one, one-mul}
use ctranslate.Prelude.{
  ℕ, zero, suc, ◌+◌, ◌*◌, ◌/◌, ◌%◌, ◌<◌, false, List, [], ◌∷◌, set, Option, none, some, ◌==◌,
  ==_iff, invalid_argument, Error, ok, err, ◌≢◌, ◌≡◌, refl, sym, ap, subst, ◌∙◌, arith,
}
use ctranslate.Padding.Padder.{ℤ, pos, negsuc}
use ctranslate.Storage.Defs.{Storage, gives, throws, undefined, compute_size}
use ctranslate.Storage.Shapes.{known_dims, to_dims, reshape}

-- A shape that a request allows: it has the dimensions that are given, and any in place of a -1.
abbrev pub Fits : List ℤ → List ℕ → Type 0
Fits [] [] = Unit {0}
Fits [] (n ∷ ns) = ⊥
Fits (d ∷ ds) [] = ⊥
Fits (pos d ∷ ds) (n ∷ ns) = (n ≡ d) × Fits ds ns
Fits (negsuc zero ∷ ds) (n ∷ ns) = Fits ds ns
Fits (negsuc (suc m) ∷ ds) (n ∷ ns) = ⊥

-- With a dimension found that is -1, all others are given.
known-some :
    (ds : List ℤ) (i u k : ℕ) (u' : Option ℕ) (k' : ℕ)
    → known_dims ds i (some u) k ≡ ok (u', k')
    → (u' ≡ some u) × (k * compute_size (to_dims ds) ≡ k') × Fits ds (to_dims ds)
unfolding known_dims to_dims compute_size
known-some [] i u k u' k' h = (cc, mul-one k ∙ cc, tt)
known-some (pos d ∷ ds) i u k u' k' h =
    let ih = known-some ds (suc i) u (k * d) u' k' h in
    (ih.0, sym (mul_assoc k d (compute_size (to_dims ds))) ∙ ih.1, (refl, ih.2))
known-some (negsuc zero ∷ ds) i u k u' k' h = cc
known-some (negsuc (suc n) ∷ ds) i u k u' k' h = cc

known-none :
    (ds : List ℤ) (i k k' : ℕ)
    → known_dims ds i none k ≡ ok (none, k')
    → (k * compute_size (to_dims ds) ≡ k') × Fits ds (to_dims ds)
unfolding known_dims to_dims compute_size
known-none [] i k k' h = (mul-one k ∙ cc, tt)
known-none (pos d ∷ ds) i k k' h =
    let ih = known-none ds (suc i) (k * d) k' h in
    (sym (mul_assoc k d (compute_size (to_dims ds))) ∙ ih.0, (refl, ih.1))
known-none (negsuc zero ∷ ds) i k k' h = let q = (known-some ds (suc i) i k none k' h).0 in cc
known-none (negsuc (suc n) ∷ ds) i k k' h = cc

-- The one dimension that is -1, and the product with `q` in its place.
known-unknown :
    (ds : List ℤ) (i k u k' q : ℕ)
    → known_dims ds i none k ≡ ok (some u, k')
    → (j : ℕ) × (u ≡ i + j)
      × (k * compute_size (to_dims (set ds j (pos q))) ≡ k' * q)
      × Fits ds (to_dims (set ds j (pos q)))
unfolding known_dims to_dims compute_size
known-unknown [] i k u k' q h = cc
known-unknown (pos d ∷ ds) i k u k' q h =
    let (j, e, p, f) = known-unknown ds (suc i) (k * d) u k' q h in
    (suc j, omega (arith, e), sym (mul_assoc k d _) ∙ p, (refl, f))
known-unknown (negsuc zero ∷ ds) i k u k' q h =
    let (e, p, f) = known-some ds (suc i) i k (some u) k' h in
    let e' : u ≡ i = cc in
    (
      0,
      omega (arith, e'),
      sym (mul_assoc k q _)
          ∙ ap (λ z. z * compute_size (to_dims ds)) (mul_comm k q)
          ∙ mul_assoc q k _
          ∙ ap (◌*◌ q) p
          ∙ mul_comm q k',
      f,
    )
known-unknown (negsuc (suc n) ∷ ds) i k u k' q h = cc

-- What a reshape that succeeds gives.
pub record Reshaped (dims : List ℤ) (s s' : Storage) : Type 0 where
  pub same_size : compute_size s'.shape ≡ s.size
  pub fitting : Fits dims s'.shape
  pub else_same : s' ≡ record s { shape = s'.shape }

module _ (dims : List ℤ) (s : Storage) where
  pub refused : (e : Error) → known_dims dims 0 none 1 ≡ err e → reshape dims s ≡ throws e s
  unfolding reshape
  refused e h = rw (h, reshape) refl

  pub no_quotient : (u : ℕ) → known_dims dims 0 none 1 ≡ ok (some u, 0) → reshape dims s ≡ undefined
  unfolding reshape
  no_quotient u h = rw (h, reshape) refl

  pub inferred :
      (u known : ℕ)
      → known_dims dims 0 none 1 ≡ ok (some u, known)
      → 0 < known
      → s.size % known ≡ 0
      → reshape dims s ≡ gives (record s { shape = to_dims (set dims u (pos (s.size / known))) })
  unfolding reshape
  inferred u known h k d =
      rw (h, reshape)
        (let e : (known == 0) ≡ false = ground arith in
          rw e (rw ((==_iff (s.size % known) 0).1 d) refl))

  pub not_divisible :
      (u known : ℕ)
      → known_dims dims 0 none 1 ≡ ok (some u, known)
      → 0 < known
      → s.size % known ≢ 0
      → reshape dims s ≡ throws invalid_argument s
  unfolding reshape
  not_divisible u known h k d =
      rw (h, reshape)
        (let e : (known == 0) ≡ false = ground arith in
          let e' : ((s.size % known) == 0) ≡ false = ground arith in rw e (rw e' refl))

  pub given :
      (known : ℕ)
      → known_dims dims 0 none 1 ≡ ok (none, known)
      → s.size ≡ known
      → reshape dims s ≡ gives (record s { shape = to_dims dims })
  unfolding reshape
  given known h d = rw (h, reshape) (rw ((==_iff s.size known).1 d) refl)

  pub other_size :
      (known : ℕ)
      → known_dims dims 0 none 1 ≡ ok (none, known)
      → s.size ≢ known
      → reshape dims s ≡ throws invalid_argument s
  unfolding reshape
  other_size known h d =
      rw (h, reshape) (let e : (s.size == known) ≡ false = ground arith in rw e refl)

  pub inferred-Reshaped :
      (u known : ℕ)
      → known_dims dims 0 none 1 ≡ ok (some u, known)
      → s.size % known ≡ 0
      → Reshaped dims s (record s { shape = to_dims (set dims u (pos (s.size / known))) })
  inferred-Reshaped u known h d =
      let (j, e, p, f) = known-unknown dims 0 1 u known (s.size / known) h in
      let e' : u ≡ j = omega (arith, e) in
      record {
        same_size =
            ap (λ z. compute_size (to_dims (set dims z (pos (s.size / known))))) e'
            ∙ sym (one-mul (compute_size (to_dims (set dims j (pos (s.size / known))))))
            ∙ p
            ∙ whole s.size known d;
        fitting = subst (λ z. Fits dims (to_dims (set dims z (pos (s.size / known))))) (sym e') f;
        else_same = refl;
      }
    where
      whole : (n k : ℕ) → n % k ≡ 0 → k * (n / k) ≡ n
      whole n k h = grind arith

  pub given-Reshaped :
      (known : ℕ)
      → known_dims dims 0 none 1 ≡ ok (none, known)
      → s.size ≡ known
      → Reshaped dims s (record s { shape = to_dims dims })
  given-Reshaped known h d =
      let (p, f) = known-none dims 0 1 known h in
      record {
        same_size = sym (one-mul (compute_size (to_dims dims))) ∙ p ∙ sym d;
        fitting = f;
        else_same = refl;
      }
