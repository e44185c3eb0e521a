-- ===== src/Prelude/Perms.antt =====
-- Rearrangements, in the terms of native lengths and of predicates by recursion.
use Prim.Native.Nat.{ℕ, zero, suc, ◌+◌, ◌<◌}
use mathlib.Core.Path.{◌≡◌, refl, ap, ◌∙◌}
use mathlib.Core.Logic.{∥∥₁_elim}
use mathlib.Core.Logic.Or
use mathlib.Core.List.{List, [], ◌∷◌, Mem, Perm, Permᴰ, mem-cons, not-mem-nil, mem-cons_self}
use mathlib.Core.List.{mem-cons_of_mem}
use mathlib.Core.List.Perm
use native.Mathlib.Nat.{ℕ_set}
use native.Mathlib.Omega.{arith}
use ctranslate.Prelude.Lists.{length, All, iota}

module _ {ℓ} {A : Type ℓ} where
  length-Permᴰ : {xs ys : List A} → Permᴰ xs ys → length xs ≡ length ys
  length-Permᴰ Permᴰ.nil = refl
  length-Permᴰ (Permᴰ.cons e p) = ap suc (length-Permᴰ p)
  length-Permᴰ (Permᴰ.swap e e') = refl
  length-Permᴰ (Permᴰ.trans p q) = length-Permᴰ p ∙ length-Permᴰ q

  pub length-perm : {xs ys : List A} → Perm xs ys → length xs ≡ length ys
  length-perm p = ∥∥₁_elim p (ℕ_set _ _) length-Permᴰ

module _ {ℓ κ} {A : Type ℓ} (P : A → Type κ) where
  pub All-of_mem : (xs : List A) → ((a : A) → Mem a xs → P a) → All P xs
  All-of_mem [] h = tt
  All-of_mem (x ∷ xs) h = (h x mem-cons_self, All-of_mem xs (λ a m. h a (mem-cons_of_mem x m)))

module _ {ℓ κ} {A : Type ℓ} (P : A → Type κ) (prop : (a : A) → IsProp (P a)) where
  pub of_mem : (a : A) (xs : List A) → All P xs → Mem a xs → P a
  of_mem a [] h m = absurd (not-mem-nil m)
  of_mem a (x ∷ xs) h m = Or.elim (prop a) (mem-cons.0 m) (λ e. rw e h.0) (of_mem a xs h.1)

  pub All-perm : {xs ys : List A} → Perm xs ys → All P ys → All P xs
  All-perm {xs} {ys} p h = All-of_mem P xs (λ a m. of_mem a ys h (Perm.subset p a m))

pub All-iota : (i n j : ℕ) → i + n ≡ j → All (λ k. k < j) (iota i n)
All-iota i zero j e = tt
All-iota i (suc n) j e = (omega arith, All-iota (suc i) n j (omega arith))

pub length-iota : (i n : ℕ) → length (iota i n) ≡ n
length-iota i zero = refl
length-iota i (suc n) = ap suc (length-iota (suc i) n)
