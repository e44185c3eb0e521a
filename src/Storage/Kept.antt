-- ===== src/Storage/Kept.antt =====
-- Every operation keeps a storage in order.
use native.Mathlib.Nat.{one-mul}
use ctranslate.Prelude.{
  ℕ, zero, suc, ◌-◌, ◌*◌, ◌%◌, ◌<◌, Bool-cases, List, [], ◌∷◌, length, get_or, Option, none, some,
  ltb, le→leb, ◌==◌, ==_iff, Result, Result-cases, ok, err, ◌≢◌, ◌≡◌, refl, sym, ap, subst, ◌∙◌,
  arith, inl, inr,
}
use ctranslate.Padding.Padder.{ℤ, pos, negsuc}
use ctranslate.Storage.Defs.{Storage, compute_size, room, clear, release}
use ctranslate.Storage.Shapes.{
  known_dims, reshape, insert_at, erase_at, expand_at, expand_dims, squeeze, guard_dim, wrap_dim,
}
use ctranslate.Storage.ShapeLaws.{
  refused, inferred, not_divisible, given, other_size, inferred-Reshaped, given-Reshaped,
}
use ctranslate.Storage.Validity.{IsValid, expand_dim, Allowed, Keeps}

-- The same memory and as many elements, in another shape.
pub reshaped :
    (s s' : Storage)
    → IsValid s
    → compute_size s'.shape ≡ s.size
    → s' ≡ record s { shape = s'.shape }
    → IsValid s'
reshaped s s' v e q =
    subst IsValid (sym q) (record { shaped = inl (sym e); fits = v.fits; backed = v.backed })

pub clear-IsValid : (s : Storage) → IsValid s → IsValid (clear s)
unfolding clear
clear-IsValid s v = record { shaped = inr (refl, refl); fits = omega arith; backed = v.backed }

-- No memory and no element.
pub release-IsValid : (s : Storage) → IsValid (release s)
unfolding release room
release-IsValid s = record { shaped = inr (refl, refl); fits = omega arith; backed = grind arith }

insert_size : (ds : List ℕ) (i : ℕ) → compute_size (insert_at ds i 1) ≡ compute_size ds
unfolding compute_size insert_at
insert_size ds zero = one-mul (compute_size ds)
insert_size [] (suc i) = refl
insert_size (d ∷ ds) (suc i) = ap (◌*◌ d) (insert_size ds i)

erase_size :
    (ds : List ℕ) (i : ℕ)
    → i < length ds
    → get_or ds i 0 ≡ 1
    → compute_size (erase_at ds i) ≡ compute_size ds
unfolding compute_size erase_at
erase_size [] i h e = absurd (omega arith)
erase_size (d ∷ ds) zero h e =
    sym (one-mul (compute_size ds)) ∙ ap (λ z. z * compute_size ds) (sym e)
erase_size (d ∷ ds) (suc i) h e = ap (◌*◌ d) (erase_size ds i (omega arith) e)

-- A storage with a dimension is not a cleared one.
has_size : (s : Storage) (i : ℕ) → IsValid s → i < length s.shape → s.size ≡ compute_size s.shape
has_size s i v h = elim v.shaped [
  | inl e ↦ e
  | inr (z, e) ↦ absurd (ground (arith, ap length e, h))
]

expand_at-Keeps :
    (d : ℕ) (s : Storage) → IsValid s → s.size ≡ compute_size s.shape → Keeps (expand_at d s)
unfolding expand_at
expand_at-Keeps d s v e = elim (Bool-cases (ltb (length s.shape) d)) [
  | inl t ↦ rw t v
  | inr t ↦ rw t (reshaped s _ v (insert_size s.shape d ∙ sym e) refl)
]

pub expand_dims-Keeps :
    (d : ℤ) (s : Storage) → IsValid s → Allowed (expand_dim d) s → Keeps (expand_dims d s)
unfolding expand_dims
expand_dims-Keeps (pos d) s v e = expand_at-Keeps d s v e
expand_dims-Keeps (negsuc n) s v (e, h) =
    rw (le→leb n (length s.shape) h) (expand_at-Keeps (length s.shape - n) s v e)

guard_dim-lt : (d : ℤ) (rank k : ℕ) → guard_dim d rank ≡ ok k → k < rank
unfolding guard_dim
guard_dim-lt (negsuc n) rank k h = cc
guard_dim-lt (pos d) rank k h = ground (arith, h)

pub squeeze-Keeps : (d : ℤ) (s : Storage) → IsValid s → Keeps (squeeze d s)
unfolding squeeze
squeeze-Keeps d s v =
    elim (Result-cases (guard_dim (wrap_dim d (length s.shape)) (length s.shape))) [
      | inr (e, h) ↦ rw (h, Keeps, squeeze) v
      | inl (k, h) ↦
          let lt : k < length s.shape = guard_dim-lt _ _ k h in
          rw (h, Keeps, squeeze)
            (elim (Bool-cases (get_or s.shape k 0 == 1)) [
              | inl t ↦ rw t (
                  reshaped s _ v
                    (erase_size s.shape k lt ((==_iff (get_or s.shape k 0) 1).0 t)
                      ∙ sym (has_size s k v lt))
                    refl)
              | inr t ↦ rw t v
            ])
    ]

pub reshape_result-Keeps :
    (dims : List ℤ) (s : Storage)
    → IsValid s
    → ((u : ℕ) → known_dims dims 0 none 1 ≢ ok (some u, 0))
    → (r : Result (Option ℕ × ℕ)) → known_dims dims 0 none 1 ≡ r
    → Keeps (reshape dims s)
reshape_result-Keeps dims s v a (err e) q = subst Keeps (sym (refused dims s e q)) v
reshape_result-Keeps dims s v a (ok (some u, zero)) q = absurd (a u q)
reshape_result-Keeps dims s v a (ok (some u, suc k)) q = elim (Bool-cases ((s.size % suc k) == 0)) [
  | inl t ↦
      let d : s.size % suc k ≡ 0 = (==_iff (s.size % suc k) 0).0 t in
      let h = inferred-Reshaped dims s u (suc k) q d in
      subst Keeps (sym (inferred dims s u (suc k) q (omega arith) d))
        (reshaped s _ v h.same_size h.else_same)
  | inr t ↦
      subst Keeps (sym (not_divisible dims s u (suc k) q (omega arith) (λ d. ground (arith, t, d))))
        v
]
reshape_result-Keeps dims s v a (ok (none, k)) q = elim (Bool-cases (s.size == k)) [
  | inl t ↦
      let d : s.size ≡ k = (==_iff s.size k).0 t in
      let h = given-Reshaped dims s k q d in
      subst Keeps (sym (given dims s k q d)) (reshaped s _ v h.same_size h.else_same)
  | inr t ↦ subst Keeps (sym (other_size dims s k q (λ d. ground (arith, t, d)))) v
]
