-- ===== src/Base/Text.antt =====
-- C strings: the characters before the terminator, as numbers. `eq_str a b` is
-- `wcscmp(a, b) == 0` and `strcmp(a, b) == 0`.
use Prim.Native.Nat.{ℕ, compare, Ordering}
use Prim.Native.Char.{code}
use Prim.Native.String.{String}
use mathlib.Core.Path.{◌≡◌, refl}
use mathlib.Core.Logic.{◌↔◌, ◌≢◌}
use mathlib.Core.Bool.{Bool, true, false}
use mathlib.Core.List.{List, [], ◌∷◌}
use native.Mathlib.Omega.{arith}

abbrev pub Str : Type 0
Str = List ℕ

-- The code points of a literal.
abbrev pub codes : String → Str
codes String.[] = []
codes (String.◌∷◌ c s) = code c ∷ codes s

unfoldable pub eq_str : Str → Str → Bool
eq_str [] [] = true
eq_str (x ∷ xs) (y ∷ ys) = elim (compare x y) [ Ordering.eq ↦ eq_str xs ys | _ ↦ false ]
eq_str _ _ = false

pub eq_str_iff : (a b : Str) → (eq_str a b ≡ true) ↔ (a ≡ b)
unfolding eq_str
eq_str_iff (x ∷ a) (y ∷ b) = ground (arith, eq_str_iff a b)
eq_str_iff _ _ = ground arith

pub eq_str_refl : (a : Str) → eq_str a a ≡ true
eq_str_refl a = (eq_str_iff a a).1 refl

pub eq_str_ne : (a b : Str) → a ≢ b → eq_str a b ≡ false
eq_str_ne a b h = ground (arith, eq_str_iff a b)

pub eq_str_comm : (a b : Str) → eq_str a b ≡ eq_str b a
eq_str_comm a b = ground (arith, eq_str_iff a b, eq_str_iff b a)
