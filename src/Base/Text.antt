-- ===== src/Base/Text.antt =====
-- Texts: the code points of a native string, and the order of texts that `ORDER BY` uses.
use Prim.Native.Nat.{ℕ}
use Prim.Native.Char.{code}
use Prim.Native.String.{String}
use mathlib.Core.Path.{◌≡◌, refl}
use mathlib.Core.Bool.{Bool, true, false, ◌||◌, ◌&&◌}
use mathlib.Core.List.{List, [], ◌∷◌}
use native.Mathlib.Omega.{arith}
use text.Mathlib.Text.{◌==◌ as str_eq}
use debot.Base.Tests.{ltb, leb, ◌==◌}

abbrev pub codes : String → List ℕ
codes String.[] = []
codes (String.◌∷◌ c s) = code c ∷ codes s

-- `value in values`
abbrev pub str_mem : String → List String → Bool
str_mem s [] = false
str_mem s (x ∷ xs) = str_eq x s || str_mem s xs

abbrev pub in_range : ℕ → ℕ → ℕ → Bool
in_range lo hi c = leb lo c && leb c hi

-- The order of two texts by their code points, which is the order of their UTF-8 bytes.
codes_ltb : List ℕ → List ℕ → Bool
codes_ltb xs [] = false
codes_ltb [] (y ∷ ys) = true
codes_ltb (x ∷ xs) (y ∷ ys) = ltb x y || x == y && codes_ltb xs ys

unfoldable pub str_ltb : String → String → Bool
unfolding codes_ltb
str_ltb s t = codes_ltb (codes s) (codes t)

codes_ltb_irrefl : (xs : List ℕ) → codes_ltb xs xs ≡ false
unfolding codes_ltb
codes_ltb_irrefl [] = refl
codes_ltb_irrefl (x ∷ xs) = ground (arith, codes_ltb_irrefl xs)

codes_ltb_trans :
    (xs ys zs : List ℕ) → codes_ltb xs ys ≡ true → codes_ltb ys zs ≡ true → codes_ltb xs zs ≡ true
unfolding codes_ltb
codes_ltb_trans xs [] zs h k = cc
codes_ltb_trans xs (y ∷ ys) [] h k = cc
codes_ltb_trans [] (y ∷ ys) (z ∷ zs) h k = refl
codes_ltb_trans (x ∷ xs) (y ∷ ys) (z ∷ zs) h k = ground (arith, codes_ltb_trans xs ys zs)

pub str_ltb_irrefl : (s : String) → str_ltb s s ≡ false
unfolding str_ltb
str_ltb_irrefl s = codes_ltb_irrefl (codes s)

pub str_ltb_trans : (s t u : String) → str_ltb s t ≡ true → str_ltb t u ≡ true → str_ltb s u ≡ true
unfolding str_ltb
str_ltb_trans s t u h k = codes_ltb_trans (codes s) (codes t) (codes u) h k
