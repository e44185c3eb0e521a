-- ===== src/Prelude/Finding.antt =====
-- Where an element of a list stands.
use mathlib.Core.List.{Mem, Mem-prop, mem-cons, not-mem-nil, mem-cons_self, mem-cons_of_mem}
use mathlib.Core.Logic.Or
use mathlib.Core.List.{List, [], ◌∷◌}
use mathlib.Core.Path.{◌≡◌, refl, sym, ap, subst}
use mathlib.Core.Option.{some}
use mathlib.Core.Logic.{inl, inr}
use Prim.Native.Nat.{ℕ, zero, suc, ◌+◌, ◌≤◌, ◌<◌}
use native.Mathlib.Omega.{arith}
use ctranslate.Prelude.Tests.{◌==◌, Bool-cases, ==_iff}
use ctranslate.Prelude.Lists.{length, get_elem?, iota}

pub get_elem?-of_lt {ℓ} :
    {A : Type ℓ} (xs : List A) (i : ℕ) → i < length xs → (x : A) × (get_elem? xs i ≡ some x)
get_elem?-of_lt [] i h = absurd (omega arith)
get_elem?-of_lt (x ∷ xs) zero h = (x, refl)
get_elem?-of_lt (x ∷ xs) (suc i) h = get_elem?-of_lt xs i (omega arith)

pub position_of : (a : ℕ) (xs : List ℕ) → Mem a xs → (i : ℕ) × (get_elem? xs i ≡ some a)
position_of a [] m = absurd (not-mem-nil m)
position_of a (x ∷ xs) m = elim (Bool-cases (x == a)) [
  | inl e ↦ (0, ap some ((==_iff x a).0 e))
  | inr e ↦
      let m' : Mem a xs =
        Or.elim Mem-prop (mem-cons.0 m) (λ q. absurd (ground (arith, e, q))) (λ k. k) in
      let (i, h) = position_of a xs m' in (suc i, h)
]

pub mem-iota : (k i n : ℕ) → i ≤ k → k < i + n → Mem k (iota i n)
mem-iota k i zero h l = absurd (omega arith)
mem-iota k i (suc n) h l = elim (Bool-cases (k == i)) [
  | inl e ↦ subst (λ z. Mem z (iota i (suc n))) (sym ((==_iff k i).0 e)) mem-cons_self
  | inr e ↦ mem-cons_of_mem i (mem-iota k (suc i) n (ground (arith, e, h)) (omega arith))
]
