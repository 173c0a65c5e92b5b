-- ===== src/Base/Strings.antt =====
-- Go strings and byte slices: sequences of bytes, written as lists of numbers.
use Prim.Native.Nat.{ℕ}
use Prim.Native.Char.{code}
use Prim.Native.String.{String}
use mathlib.Core.Path.{◌≡◌, refl}
use mathlib.Core.Logic.{◌↔◌}
use mathlib.Core.Bool.{Bool, true, false, ◌&&◌}
use mathlib.Core.List.{List, [], ◌∷◌}
use native.Mathlib.Omega.{arith}
use systemboot.Base.Tests.{◌==◌}

abbrev pub Bytes : Type 0
Bytes = List ℕ

-- A literal of the source; every literal is ASCII.
abbrev pub bytes : String → Bytes
bytes String.[] = []
bytes (String.◌∷◌ c s) = code c ∷ bytes s

-- Go's `==` on strings.
unfoldable pub equal : Bytes → Bytes → Bool
equal [] [] = true
equal [] (b ∷ right) = false
equal (a ∷ left) [] = false
equal (a ∷ left) (b ∷ right) = a == b && equal left right

pub equal_iff : (left right : Bytes) → (equal left right ≡ true) ↔ (left ≡ right)
unfolding equal
equal_iff [] [] = ground arith
equal_iff [] (b ∷ right) = ground arith
equal_iff (a ∷ left) [] = ground arith
equal_iff (a ∷ left) (b ∷ right) = ground (arith, equal_iff left right)

pub equal_refl : (a : Bytes) → equal a a ≡ true
equal_refl a = (equal_iff a a).1 refl

-- `s == ""`
abbrev pub is_empty : Bytes → Bool
is_empty [] = true
is_empty (c ∷ s) = false

-- A string is one of the literals of a `switch` case.
abbrev pub one_of : Bytes → List Bytes → Bool
one_of w [] = false
one_of w (l ∷ ls) = elim (equal w l) [ true ↦ true | false ↦ one_of w ls ]
