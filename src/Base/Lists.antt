-- ===== src/Base/Lists.antt =====
-- Lists measured by native numbers, searched and filtered by Boolean tests.
use Prim.Native.Nat.{ℕ, suc, ◌+◌}
use mathlib.Core.Path.{◌≡◌, refl}
use mathlib.Core.Logic.{inl, inr}
use mathlib.Core.Bool.{Bool, true, false, ◌||◌, ◌&&◌}
use mathlib.Core.Option.{Option, none, some}
use mathlib.Core.List.{List, [], ◌∷◌, ◌++◌, map, Memᴰ}
use native.Mathlib.Omega.{arith}
use debot.Base.Tests.{if◌then◌else◌, Bool-cases}

module _ {ℓ} {A : Type ℓ} where
  abbrev pub length : List A → ℕ
  length [] = 0
  length (x ∷ xs) = suc (length xs)

  abbrev pub is_empty : List A → Bool
  is_empty [] = true
  is_empty (x ∷ xs) = false

  -- `[x for x in xs if test(x)]`
  abbrev pub satisfying : (A → Bool) → List A → List A
  satisfying test [] = []
  satisfying test (x ∷ xs) = let rest = satisfying test xs in if test x then x ∷ rest else rest

  -- The first member that passes.
  abbrev pub find? : (A → Bool) → List A → Option A
  find? test [] = none
  find? test (x ∷ xs) = let rest = find? test xs in if test x then some x else rest

  abbrev pub count : (A → Bool) → List A → ℕ
  count test [] = 0
  count test (x ∷ xs) = let rest = count test xs in if test x then suc rest else rest

  abbrev pub any : (A → Bool) → List A → Bool
  any test [] = false
  any test (x ∷ xs) = test x || any test xs

  abbrev pub every : (A → Bool) → List A → Bool
  every test [] = true
  every test (x ∷ xs) = test x && every test xs

abbrev pub All {ℓ κ} : {A : Type ℓ} → (A → Type κ) → List A → Type κ
All P [] = Unit
All P (x ∷ xs) = P x × All P xs

module _ {ℓ} {A : Type ℓ} where
  pub All-Memᴰ {κ} : (P : A → Type κ) (xs : List A) (a : A) → All P xs → Memᴰ a xs → P a
  All-Memᴰ P [] a h m = elim m [ ]
  All-Memᴰ P (x ∷ xs) a h (Memᴰ.head e) = rw e h.0
  All-Memᴰ P (x ∷ xs) a h (Memᴰ.tail m) = All-Memᴰ P xs a h.1 m

  pub All-map {κ} :
      {P : A → Type κ} (f : A → A)
      → ((a : A) → P a → P (f a))
      → (xs : List A) → All P xs
      → All P (map f xs)
  All-map f keep [] h = tt
  All-map f keep (x ∷ xs) h = (keep x h.0, All-map f keep xs h.1)

  pub length-append : (xs ys : List A) → length (xs ++ ys) ≡ length xs + length ys
  length-append [] ys = omega arith
  length-append (x ∷ xs) ys = omega (arith, length-append xs ys)

  pub find?-Memᴰ : (test : A → Bool) (xs : List A) (a : A) → find? test xs ≡ some a → Memᴰ a xs
  find?-Memᴰ test [] a h = cc
  find?-Memᴰ test (x ∷ xs) a h = elim (Bool-cases (test x)) [
    | inl hit ↦ Memᴰ.head (ground arith)
    | inr miss ↦ Memᴰ.tail (find?-Memᴰ test xs a (ground arith))
  ]

  pub find?-test : (test : A → Bool) (xs : List A) (a : A) → find? test xs ≡ some a → test a ≡ true
  find?-test test [] a h = cc
  find?-test test (x ∷ xs) a h = ground (arith, find?-test test xs a)

pub All-implies {ℓ κ μ} :
    {A : Type ℓ} {P : A → Type κ} {Q : A → Type μ}
    → ((a : A) → P a → Q a)
    → (xs : List A) → All P xs
    → All Q xs
All-implies f [] h = tt
All-implies f (x ∷ xs) h = (f x h.0, All-implies f xs h.1)

pub All-append {ℓ κ} :
    {A : Type ℓ} (P : A → Type κ) (xs ys : List A) → All P xs → All P ys → All P (xs ++ ys)
All-append P [] ys h k = k
All-append P (x ∷ xs) ys h k = (h.0, All-append P xs ys h.1 k)

pub All-self {ℓ} : {A : Type ℓ} (xs : List A) → All (λ x. Memᴰ x xs) xs
All-self [] = tt
All-self (x ∷ xs) = (Memᴰ.head refl, All-implies (λ y m. Memᴰ.tail m) xs (All-self xs))
