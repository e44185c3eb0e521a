-- ===== src/Prelude/Distinct.antt =====
-- Lists without repetition, through rearrangements, and a rearrangement of what lists hold together.
use mathlib.Core.Logic.{∥∥₁_elim}
use mathlib.Core.List.{
  List, [], ◌∷◌, ◌++◌, Mem, Perm, Permᴰ, Perm-prop, Nodup, Nodup-cons, Nodup-nil, not-mem-nil,
  perm_append_comm,
}
use mathlib.Core.List.Perm
use mathlib.Core.Path.{◌≡◌, sym, subst}
use mathlib.Core.Logic.{◌≢◌}
use mathlib.Core.Logic.Or
use mathlib.Core.List.{append_assoc, mem-cons}
use Prim.Native.Nat.{ℕ, zero, suc, ◌<◌}
use native.Mathlib.Omega.{arith}
use mathlib.Core.Option.{some}
use ctranslate.Prelude.Lists.{All, iota, get_elem?, All-append, All-append_left, All-append_right}
use ctranslate.Prelude.Perms.{All-of_mem}

module _ {ℓ} {A : Type ℓ} where
  abbrev pub Distinct : List A → Type ℓ
  Distinct [] = Unit
  Distinct (x ∷ xs) = All (λ y. x ≢ y) xs × Distinct xs

  pub Distinct-of_Nodup : (xs : List A) → Nodup xs → Distinct xs
  Distinct-of_Nodup [] h = tt
  Distinct-of_Nodup (x ∷ xs) h =
      let k : (¬ Mem x xs) × Nodup xs = Nodup-cons.0 h in
      (
        All-of_mem (λ y. x ≢ y) xs (λ y m e. k.0 (subst (λ z. Mem z xs) (sym e) m)),
        Distinct-of_Nodup xs k.1,
      )

-- A list without repetition, split.
module _ {ℓ} {A : Type ℓ} where
  pub Distinct-left : (xs ys : List A) → Distinct (xs ++ ys) → Distinct xs
  Distinct-left [] ys d = tt
  Distinct-left (x ∷ xs) ys d = (All-append_left _ xs ys d.0, Distinct-left xs ys d.1)

  pub Distinct-right : (xs ys : List A) → Distinct (xs ++ ys) → Distinct ys
  Distinct-right [] ys d = d
  Distinct-right (x ∷ xs) ys d = Distinct-right xs ys d.1

  pub Distinct-before :
      (xs : List A) (y : A) (ys : List A) → Distinct (xs ++ y ∷ ys) → All (λ q. y ≢ q) xs
  Distinct-before [] y ys d = tt
  Distinct-before (x ∷ xs) y ys d =
      (λ e. (All-append_right _ xs (y ∷ ys) d.0).0 (sym e), Distinct-before xs y ys d.1)

  pub Distinct-skip :
      (xs : List A) (y : A) (ys : List A) → Distinct (xs ++ y ∷ ys) → Distinct (xs ++ ys)
  Distinct-skip [] y ys d = d.1
  Distinct-skip (x ∷ xs) y ys d = (
    All-append _ xs ys (All-append_left _ xs (y ∷ ys) d.0) (All-append_right _ xs (y ∷ ys) d.0).1,
    Distinct-skip xs y ys d.1,
  )

  pub Distinct-apart :
      (xs ys : List A) (i : ℕ) (p : A)
      → Distinct (xs ++ ys)
      → get_elem? xs i ≡ some p
      → All (λ q. p ≢ q) ys
  Distinct-apart [] ys i p d h = cc
  Distinct-apart (x ∷ xs) ys zero p d h =
      let e : x ≡ p = cc in subst (λ z. All (λ q. z ≢ q) ys) e (All-append_right _ xs ys d.0)
  Distinct-apart (x ∷ xs) ys (suc i) p d h = Distinct-apart xs ys i p d.1 h

not-mem-iota : (k i n : ℕ) → k < i → ¬ Mem k (iota i n)
not-mem-iota k i zero h m = not-mem-nil m
not-mem-iota k i (suc n) h m =
    Or.elim (λ a b. absurd a) (mem-cons.0 m) (λ e. omega (arith, e))
      (not-mem-iota k (suc i) n (omega arith))

pub Nodup-iota : (i n : ℕ) → Nodup (iota i n)
Nodup-iota i zero = Nodup-nil
Nodup-iota i (suc n) = Nodup-cons.1 (not-mem-iota i (suc i) n (omega arith), Nodup-iota (suc i) n)

-- What the elements of a list hold, one behind the other.
module _ {ℓ κ} {A : Type ℓ} {B : Type κ} (f : A → List B) where
  abbrev pub flat : List A → List B
  flat [] = []
  flat (x ∷ xs) = f x ++ flat xs

  flat-Permᴰ : {xs ys : List A} → Permᴰ xs ys → Perm (flat xs) (flat ys)
  flat-Permᴰ Permᴰ.nil = Perm.nil
  flat-Permᴰ (Permᴰ.cons {a} {b} {l₁} {l₂} e p) =
      subst (λ z. Perm (f a ++ flat l₁) (f z ++ flat l₂)) e (Perm.append_left (f a) (flat-Permᴰ p))
  flat-Permᴰ (Permᴰ.swap {a} {b} {a'} {b'} {l} e e') =
      subst (λ z. Perm (f a ++ (f b ++ flat l)) (f a' ++ (f z ++ flat l))) e
        (subst (λ z. Perm (f a ++ (f b ++ flat l)) (f z ++ (f a ++ flat l))) e'
          (rw (← append_assoc (f a) (f b) (flat l), ← append_assoc (f b) (f a) (flat l))
            (Perm.append_right (flat l) (perm_append_comm (f a) (f b)))))
  flat-Permᴰ (Permᴰ.trans p q) = Perm.trans (flat-Permᴰ p) (flat-Permᴰ q)

  pub flat-perm : {xs ys : List A} → Perm xs ys → Perm (flat xs) (flat ys)
  flat-perm p = ∥∥₁_elim p Perm-prop flat-Permᴰ
