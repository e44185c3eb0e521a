-- ===== src/Storage/Memory.antt =====
-- Every operation that resizes a storage keeps it in order.
use ctranslate.Prelude.{
  ℕ, ◌+◌, ◌-◌, ◌*◌, ◌≤◌, Bool, Bool-cases, List, length, get_or, set, leb, le→leb, leb→le,
  Result-cases, ok, true, ◌≡◌, sym, subst, ◌∙◌, refl, arith, inl, inr,
}
use ctranslate.Padding.Padder.{ℤ}
use ctranslate.Types.Defs.{DataType}
use ctranslate.Storage.Defs.{
  Storage, Effect, gives, throws, undefined, item_size, compute_size, room, release, reserve,
  fits_dim,
}
use ctranslate.Storage.Shapes.{guard_dim}
use ctranslate.Storage.Operations.{and_gives, resize, resize_dim, grow, shrink}
use ctranslate.Storage.Validity.{IsValid, IsSmall, resize_one, grow_by, shrink_by, Allowed, Keeps}

-- An effect whose storage satisfies a condition, or that throws and leaves a storage in order.
abbrev pub Reserved : (Storage → Type 0) → Effect → Type 0
Reserved P (gives s) = P s
Reserved P (throws e s) = IsValid s
Reserved P undefined = ⊥

pub and_gives-Keeps :
    (P : Storage → Type 0) (f : Effect) (k : Storage → Effect)
    → ((s : Storage) → P s → Keeps (k s))
    → Reserved P f
    → Keeps (and_gives f k)
and_gives-Keeps P (gives s) k h r = h s r
and_gives-Keeps P (throws e s) k h r = r
and_gives-Keeps P undefined k h r = r

-- Memory for `n` elements of the type of `s`.
pub record HasMemory (n : ℕ) (dtype : DataType) (s : Storage) : Type 0 where
  pub enough : n ≤ s.allocated_size
  pub there : s.allocated_size * item_size s.dtype ≤ room s.memory
  pub typed : s.dtype ≡ dtype

resized :
    (d : ℤ) (k : ℕ) (s : Storage) (n : ℕ)
    → guard_dim d (length s.shape) ≡ ok k
    → IsSmall s.dtype (set s.shape k n)
    → Allowed (resize_one d n) s
resized d k s n h a j g = subst (λ x. IsSmall s.dtype (set s.shape x n)) (got (sym h ∙ g)) a
  where
    got : {i j : ℕ} → ok i ≡ ok j → i ≡ j
    got e = cc

module _ (allocate : ℕ → Bool) where
  reserve-Reserved :
      (n : ℕ) (s : Storage)
      → s.allocated_size * item_size s.dtype ≤ room s.memory
      → fits_dim (n * item_size s.dtype) ≡ true
      → Reserved (HasMemory n s.dtype) (reserve allocate n s)
  unfolding reserve release room
  reserve-Reserved n s b f = elim (Bool-cases (leb n s.allocated_size)) [
    | inl t ↦ rw t (record { enough = leb→le n s.allocated_size t; there = b; typed = refl })
    | inr t ↦
        rw (t, f, reserve)
          (elim (Bool-cases (allocate (n * item_size s.dtype))) [
            | inl t' ↦ rw t' (record { enough = omega arith; there = omega arith; typed = refl })
            | inr t' ↦
                rw t'
                  (record { shaped = inr (refl, refl); fits = omega arith; backed = grind arith })
          ])
  ]

  pub Keeps-reserve :
      (n : ℕ) (s : Storage)
      → IsValid s
      → fits_dim (n * item_size s.dtype) ≡ true
      → Keeps (reserve allocate n s)
  unfolding reserve release room
  Keeps-reserve n s v f = elim (Bool-cases (leb n s.allocated_size)) [
    | inl t ↦ rw t v
    | inr t ↦
        rw (t, f, reserve)
          (elim (Bool-cases (allocate (n * item_size s.dtype))) [
            | inl t' ↦
                rw t'
                  (record { shaped = inr (refl, refl); fits = omega arith; backed = omega arith })
            | inr t' ↦
                rw t'
                  (record { shaped = inr (refl, refl); fits = omega arith; backed = grind arith })
          ])
  ]

  -- A resize gives a storage in order, of the type before, from any memory that is there.
  pub resize-Reserved :
      (shape : List ℕ) (s : Storage)
      → s.allocated_size * item_size s.dtype ≤ room s.memory
      → IsSmall s.dtype shape
      → Reserved
          (λ s'. IsValid s' × (s'.dtype ≡ s.dtype) × (s'.size ≡ compute_size shape))
          (resize allocate shape s)
  unfolding resize
  resize-Reserved shape s b f =
      rw (f.0, resize)
        (after (reserve allocate (compute_size shape) s)
          (reserve-Reserved (compute_size shape) s b f.1))
    where
      after :
          (f : Effect)
          → Reserved (HasMemory (compute_size shape) s.dtype) f
          → Reserved
              (λ s'. IsValid s' × (s'.dtype ≡ s.dtype) × (s'.size ≡ compute_size shape))
              (and_gives f λ s'. gives (record s' { size = compute_size shape; shape = shape }))
      after (gives s') m =
          (record { shaped = inl refl; fits = m.enough; backed = m.there }, m.typed, refl)
      after (throws e s') m = m
      after undefined m = m

  pub Keeps-Reserved :
      (P : Storage → Type 0) (f : Effect)
      → ((s : Storage) → P s → IsValid s)
      → Reserved P f
      → Keeps f
  Keeps-Reserved P (gives s) h r = h s r
  Keeps-Reserved P (throws e s) h r = r
  Keeps-Reserved P undefined h r = r

  pub resize-Keeps :
      (shape : List ℕ) (s : Storage)
      → IsValid s
      → IsSmall s.dtype shape
      → Keeps (resize allocate shape s)
  resize-Keeps shape s v f =
      Keeps-Reserved _ (resize allocate shape s) (λ s' p. p.0) (resize-Reserved shape s v.backed f)

  pub resize_dim-Keeps :
      (d : ℤ) (n : ℕ) (s : Storage)
      → IsValid s
      → Allowed (resize_one d n) s
      → Keeps (resize_dim allocate d n s)
  unfolding resize_dim
  resize_dim-Keeps d n s v a = elim (Result-cases (guard_dim d (length s.shape))) [
    | inr (e, h) ↦ rw (h, Keeps, resize_dim) v
    | inl (k, h) ↦ rw (h, Keeps, resize_dim) (resize-Keeps (set s.shape k n) s v (a k h))
  ]

  pub grow-Keeps :
      (d : ℤ) (n : ℕ) (s : Storage)
      → IsValid s
      → Allowed (grow_by d n) s
      → Keeps (grow allocate d n s)
  unfolding grow
  grow-Keeps d n s v a = elim (Result-cases (guard_dim d (length s.shape))) [
    | inr (e, h) ↦ rw (h, Keeps, grow) v
    | inl (k, h) ↦
        rw (h, Keeps, grow)
          (resize_dim-Keeps d (get_or s.shape k 0 + n) s v (resized d k s _ h (a k h)))
  ]

  pub shrink-Keeps :
      (d : ℤ) (n : ℕ) (s : Storage)
      → IsValid s
      → Allowed (shrink_by d n) s
      → Keeps (shrink allocate d n s)
  unfolding shrink
  shrink-Keeps d n s v a = elim (Result-cases (guard_dim d (length s.shape))) [
    | inr (e, h) ↦ rw (h, Keeps, shrink) v
    | inl (k, h) ↦
        rw (h, Keeps, shrink)
          (rw (le→leb n (get_or s.shape k 0) (a k h).0)
            (resize_dim-Keeps d (get_or s.shape k 0 - n) s v (resized d k s _ h (a k h).1)))
  ]
