-- ===== src/Prelude/Updates.antt =====
-- Reading from lists that were filled or written to.
use Prim.Native.Nat.{ℕ, zero, suc, ◌+◌, ◌*◌, ◌<◌}
use native.Mathlib.Nat.{suc-mul}
use mathlib.Core.Path.{◌≡◌, refl}
use mathlib.Core.Bool.{true}
use mathlib.Core.Option.{some}
use mathlib.Core.List.{List, [], ◌∷◌}
use native.Mathlib.Omega.{arith}
use ctranslate.Prelude.Tests.{◌==◌, if◌then◌else◌}
use ctranslate.Prelude.Lists.{length, get_or, get_elem?, set, replicate, is_nil}

pub get_or-set :
    {A : Type 0} (xs : List A) (i j : ℕ) (v d : A)
    → j < length xs
    → get_or (set xs i v) j d ≡ (if i == j then v else get_or xs j d)
get_or-set [] i j v d h = ground (arith, h)
get_or-set (x ∷ xs) zero zero v d h = refl
get_or-set (x ∷ xs) zero (suc j) v d h = ground arith
get_or-set (x ∷ xs) (suc i) zero v d h = ground arith
get_or-set (x ∷ xs) (suc i) (suc j) v d h = ground (arith, get_or-set xs i j v d (omega (arith, h)))

pub length_of_nil : (xs : List ℕ) → is_nil xs ≡ true → length xs ≡ 0
length_of_nil [] h = refl
length_of_nil (x ∷ xs) h = cc

pub get_elem?-lt :
    {A : Type 0} (xs : List A) (i : ℕ) (x : A) → get_elem? xs i ≡ some x → i < length xs
get_elem?-lt [] i x h = cc
get_elem?-lt (y ∷ xs) zero x h = omega arith
get_elem?-lt (y ∷ xs) (suc i) x h = omega (arith, get_elem?-lt xs i x h)

pub get_or-replicate : {A : Type 0} (n i : ℕ) (x d : A) → i < n → get_or (replicate n x) i d ≡ x
get_or-replicate zero i x d h = ground (arith, h)
get_or-replicate (suc n) zero x d h = refl
get_or-replicate (suc n) (suc i) x d h = get_or-replicate n i x d (omega (arith, h))

-- The place of a column in the rows of a matrix, one behind the other.
pub flat_lt : (b n t v : ℕ) → b < n → t < v → b * v + t < n * v
flat_lt b zero t v h k = ground (arith, h)
flat_lt zero (suc n) t v h k = omega (arith, k, suc-mul n v)
flat_lt (suc b) (suc n) t v h k =
    omega (arith, suc-mul b v, suc-mul n v, flat_lt b n t v (omega (arith, h)) k)
