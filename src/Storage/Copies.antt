-- ===== src/Storage/Copies.antt =====
-- Every operation keeps a storage in order: views, copies and assignments, and all together.
use ctranslate.Prelude.{
  ℕ, zero, suc, ◌*◌, ◌≤◌, Bool, Bool-cases, true, false, List, ◌&&◌, Option, none, le→leb, ◌==◌,
  ==_iff, is_nil, ◌⊎◌, ◌≡◌, refl, sym, ap, subst, ◌∙◌, arith, inl, inr,
}
use ctranslate.Types.Defs.{DataType}
use ctranslate.Storage.Defs.{
  Storage, Effect, gives, throws, undefined, item_size, compute_size, room, clear, release,
  fits_shape,
}
use ctranslate.Storage.Shapes.{known_dims}
use ctranslate.Storage.Operations.{
  view, shallow_copy, and_gives, resize, resize_as, copy_elements, copy_from, assign, type_code,
  same_type, same_device,
}
use ctranslate.Storage.Validity.{
  IsValid, IsSmall, Operation, clear_all, release_all, reserve_size, reshape_to, expand_dim,
  squeeze_dim, resize_to, resize_one, grow_by, shrink_by, resize_like, view_at, shallow_copy_of,
  copy_of, assign_from, perform, Allowed, Keeps,
}
use ctranslate.Storage.Reshaping.{reshape-of_size}
use ctranslate.Storage.Kept.{
  clear-IsValid, release-IsValid, expand_dims-Keeps, squeeze-Keeps, reshape_result-Keeps,
}
use ctranslate.Storage.Memory.{
  Reserved, and_gives-Keeps, Keeps-Reserved, Keeps-reserve, resize-Reserved, resize-Keeps,
  resize_dim-Keeps, grow-Keeps, shrink-Keeps,
}

mul_mono : (m n k : ℕ) → m ≤ n → m * k ≤ n * k
mul_mono m n k h = grind arith

mul_mono_left : (k m n : ℕ) → m ≤ n → k * m ≤ k * n
mul_mono_left k m n h = grind arith

le_trans : {a b c : ℕ} → a ≤ b → b ≤ c → a ≤ c
le_trans h k = omega arith

abbrev of_code : ℕ → DataType
of_code zero = DataType.float32
of_code (suc zero) = DataType.int8
of_code (suc (suc zero)) = DataType.int16
of_code (suc (suc (suc zero))) = DataType.int32
of_code (suc (suc (suc (suc zero)))) = DataType.float16
of_code n = DataType.bfloat16

of-type_code : (a : DataType) → of_code (type_code a) ≡ a
of-type_code DataType.float32 = refl
of-type_code DataType.int8 = refl
of-type_code DataType.int16 = refl
of-type_code DataType.int32 = refl
of-type_code DataType.float16 = refl
of-type_code DataType.bfloat16 = refl

same_type-eq : (a b : DataType) → same_type a b ≡ true → a ≡ b
same_type-eq a b h =
    sym (of-type_code a) ∙ ap of_code ((==_iff (type_code a) (type_code b)).0 h) ∙ of-type_code b

-- A view of memory that is there.
pub view-Keeps :
    (dtype : DataType) (memory : Option ℕ) (shape : List ℕ) (s : Storage)
    → IsValid s
    → fits_shape 1 shape ≡ true
    → compute_size shape * item_size dtype ≤ room memory
    → Keeps (view dtype memory shape s)
unfolding view release clear
view-Keeps dtype memory shape s v small a = elim (Bool-cases (same_type s.dtype dtype)) [
  | inr t ↦ rw (t, Keeps, view) v
  | inl t ↦
      rw (t, small, Keeps, view)
        (subst Keeps (sym (reshape-of_size shape _ refl)) (record {
          shaped = inl refl;
          fits = omega arith;
          backed = rw (same_type-eq s.dtype dtype t) a;
        }))
]

shallow_copy-Keeps :
    (other s : Storage)
    → IsValid s
    → IsValid other
    → other.size ≡ compute_size other.shape
    → fits_shape 1 other.shape ≡ true
    → Keeps (shallow_copy other s)
unfolding shallow_copy view release clear
shallow_copy-Keeps other s v v' e small =
    let same : same_type other.dtype other.dtype ≡ true =
      (==_iff _ (type_code other.dtype)).1 refl in
    let b : compute_size other.shape * item_size other.dtype ≤ room other.memory =
      le_trans
        (mul_mono (compute_size other.shape) other.allocated_size (item_size other.dtype)
          (omega (arith, e, v'.fits)))
        v'.backed in
    rw (same, small, Keeps, shallow_copy, view)
      (subst
        (λ f. Keeps (
          and_gives f
            λ s'. gives (record s' { device = other.device; device_index = other.device_index })))
        (sym (reshape-of_size other.shape _ refl))
        (record { shaped = inl refl; fits = omega arith; backed = b }))

module _ (allocate : ℕ → Bool) where
  -- A resize to the shape of another storage gives its size.
  resize_as-Reserved :
      (other s : Storage)
      → IsValid other
      → s.allocated_size * item_size s.dtype ≤ room s.memory
      → IsSmall s.dtype other.shape
      → Reserved
          (λ s'. IsValid s' × (s'.dtype ≡ s.dtype) × (s'.size ≡ other.size))
          (resize_as allocate other s)
  unfolding resize_as clear
  resize_as-Reserved other s v b small = elim (Bool-cases (other.size == 0 && is_nil other.shape)) [
    | inl t ↦ rw t (
      record { shaped = inr (refl, refl); fits = omega arith; backed = b },
      refl,
      ground (arith, t),
    )
    | inr t ↦
        let e : compute_size other.shape ≡ other.size = sized other v t in
        rw t (
          weaken (resize allocate other.shape s) other e
            (resize-Reserved allocate other.shape s b small))
  ]
    where
      sized :
          (other : Storage)
          → IsValid other
          → (other.size == 0 && is_nil other.shape) ≡ false
          → compute_size other.shape ≡ other.size
      sized other v t = elim v.shaped [
        | inl e ↦ sym e
        | inr (z, n) ↦ absurd (ground (arith, t, z, ap is_nil n))
      ]

      weaken :
          (f : Effect) (other : Storage)
          → compute_size other.shape ≡ other.size
          → Reserved
              (λ s'. IsValid s' × (s'.dtype ≡ s.dtype) × (s'.size ≡ compute_size other.shape))
              f
          → Reserved (λ s'. IsValid s' × (s'.dtype ≡ s.dtype) × (s'.size ≡ other.size)) f
      weaken (gives s') other e (p, q, r) = (p, q, r ∙ e)
      weaken (throws x s') other e h = h
      weaken undefined other e h = h

  copy_elements-Keeps :
      (dtype : DataType) (n : ℕ) (s : Storage)
      → IsValid s
      → s.size ≡ n
      → Keeps (copy_elements dtype n s)
  unfolding copy_elements
  copy_elements-Keeps dtype n s v e =
      rw ((==_iff n s.size).1 (sym e)) (elim (Bool-cases (same_type s.dtype dtype)) [
        | inr t ↦ rw t v
        | inl t ↦
            let b : n * item_size dtype ≤ room s.memory =
              le_trans (mul_mono n s.allocated_size (item_size dtype) (omega (arith, e, v.fits))) (
                subst (λ d. s.allocated_size * item_size d ≤ room s.memory)
                  (same_type-eq s.dtype dtype t) v.backed) in
            rw t (rw (le→leb (n * item_size dtype) (room s.memory) b) v)
      ])

  copy_from-Keeps :
      (other s : Storage)
      → IsValid other
      → s.allocated_size * item_size s.dtype ≤ room s.memory
      → IsSmall s.dtype other.shape
      → Keeps (copy_from allocate other s)
  unfolding copy_from
  copy_from-Keeps other s v b small =
      and_gives-Keeps _ (resize_as allocate other s) _
        (λ s' p. copy_elements-Keeps other.dtype other.size s' p.0 p.2)
        (resize_as-Reserved other s v b small)

  assign-Keeps :
      (other s : Storage)
      → IsValid s
      → IsValid other
      → IsSmall other.dtype other.shape
      → (same_device s other ≡ false) ⊎ (item_size other.dtype ≤ item_size s.dtype)
      → Keeps (assign allocate other s)
  unfolding assign release clear
  assign-Keeps other s v v' small a = elim (Bool-cases (same_device s other)) [
    | inr t ↦ rw (t, assign, release, clear) (copy_from-Keeps other _ v' (grind arith) small)
    | inl t ↦ elim a [
      | inl f ↦ absurd (ground (arith, t, f))
      | inr le ↦
          rw (t, assign)
            (copy_from-Keeps other _ v'
              (le_trans
                (mul_mono_left s.allocated_size (item_size other.dtype) (item_size s.dtype) le)
                v.backed)
              small)
    ]
  ]

  -- A storage in order has the elements of its shape, or none after a clear, no more elements than
  -- are reserved, and memory for those that are reserved. Under what the source leaves to its callers
  -- (`Allowed`: among others, that
  -- no size and no number of bytes is too large for 64 bits with a sign), every operation keeps it so, whether it returns or throws, and does nothing that is
  -- undefined: clear, release, reserve, reshape, expand_dims, squeeze, the resizes, grow, shrink,
  -- view, shallow_copy, copy_from and the assignment, for any answers of the allocator.
  pub perform-Keeps :
      (op : Operation) (s : Storage) → IsValid s → Allowed op s → Keeps (perform allocate op s)
  unfolding perform
  perform-Keeps clear_all s v a = clear-IsValid s v
  perform-Keeps release_all s v a = release-IsValid s
  perform-Keeps (reserve_size n) s v a = Keeps-reserve allocate n s v a
  perform-Keeps (reshape_to dims) s v a =
      reshape_result-Keeps dims s v a.1 (known_dims dims 0 none 1) refl
  perform-Keeps (expand_dim d) s v a = expand_dims-Keeps d s v a
  perform-Keeps (squeeze_dim d) s v a = squeeze-Keeps d s v
  perform-Keeps (resize_to shape) s v a = resize-Keeps allocate shape s v a
  perform-Keeps (resize_one d n) s v a = resize_dim-Keeps allocate d n s v a
  perform-Keeps (grow_by d n) s v a = grow-Keeps allocate d n s v a
  perform-Keeps (shrink_by d n) s v a = shrink-Keeps allocate d n s v a
  perform-Keeps (resize_like other) s v a =
      Keeps-Reserved allocate _ (resize_as allocate other s) (λ s' p. p.0)
        (resize_as-Reserved other s a.0 v.backed a.1)
  perform-Keeps (view_at dtype memory shape) s v a = view-Keeps dtype memory shape s v a.0 a.1
  perform-Keeps (shallow_copy_of other) s v a = shallow_copy-Keeps other s v a.0 a.1 a.2
  perform-Keeps (copy_of other) s v a = copy_from-Keeps other s a.0 v.backed a.1
  perform-Keeps (assign_from other) s v a = assign-Keeps other s v a.0 a.1 a.2
