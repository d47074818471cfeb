-- ===== src/Prelude/Sets.antt =====
-- `BTreeSet<usize>`: its elements in iteration order, each once.
use Prim.Native.Nat.{ℕ, ◌<◌}
use mathlib.Core.Path.{◌≡◌, refl}
use mathlib.Core.Bool.{true, false, ◌||◌}
use mathlib.Core.List.{List, [], ◌∷◌}
use native.Mathlib.Omega.{arith}
use starframe.Prelude.Tests.{ltb, ◌==◌, if◌then◌else◌}
use starframe.Prelude.Lists.{elem}

unfoldable pub insert : ℕ → List ℕ → List ℕ
insert x [] = x ∷ []
insert x (y ∷ ys) =
    let rest = insert x ys in if ltb x y then x ∷ y ∷ ys else if x == y then y ∷ ys else y ∷ rest

-- Every element lies above `x`.
abbrev pub IsAbove : ℕ → List ℕ → Type 0
IsAbove x [] = Unit
IsAbove x (y ∷ ys) = (x < y) × IsAbove x ys

abbrev pub IsAscending : List ℕ → Type 0
IsAscending [] = Unit
IsAscending (x ∷ xs) = IsAbove x xs × IsAscending xs

pub IsAbove-elem : (x v : ℕ) (ys : List ℕ) → IsAbove x ys → elem v ys ≡ true → x < v
IsAbove-elem x v [] h e = cc
IsAbove-elem x v (y ∷ ys) h e = ground (arith, IsAbove-elem x v ys h.1)

pub IsAbove-not-elem : (x : ℕ) (ys : List ℕ) → IsAbove x ys → elem x ys ≡ false
IsAbove-not-elem x ys h = ground (arith, IsAbove-elem x x ys h)

IsAbove-trans : (x y : ℕ) (ys : List ℕ) → x < y → IsAbove y ys → IsAbove x ys
IsAbove-trans x y [] l h = tt
IsAbove-trans x y (z ∷ ys) l h = (omega arith, IsAbove-trans x y ys l h.1)

pub elem-insert : (v x : ℕ) (ys : List ℕ) → elem v (insert x ys) ≡ ((v == x) || elem v ys)
unfolding insert
elem-insert v x [] = refl
elem-insert v x (y ∷ ys) = ground (arith, elem-insert v x ys)

IsAbove-insert : (a x : ℕ) (ys : List ℕ) → a < x → IsAbove a ys → IsAbove a (insert x ys)
unfolding insert
IsAbove-insert a x [] l h = (l, tt)
IsAbove-insert a x (y ∷ ys) l h = ground (arith, IsAbove-insert a x ys l h.1)

pub insert-IsAscending : (x : ℕ) (ys : List ℕ) → IsAscending ys → IsAscending (insert x ys)
unfolding insert
insert-IsAscending x [] h = (tt, tt)
insert-IsAscending x (y ∷ ys) h =
    ground (arith, IsAbove-trans x y ys, IsAbove-insert y x ys, insert-IsAscending x ys h.1)
