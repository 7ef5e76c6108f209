-- ===== src/Base/Reasons.antt =====
-- The lists of reasons that the decisions of src/debot4/v6/narrative collect: `append` under a test,
-- `xs or ys`, a prefix on each, and `tuple(dict.fromkeys(reasons))`.
use Prim.Native.String.{String}
use Prim.Native.String.{◌++◌ as str_append}
use mathlib.Core.Path.{◌≡◌, refl}
use mathlib.Core.Logic.{inl, inr}
use mathlib.Core.Bool.{Bool, true, false, ◌&&◌, not}
use mathlib.Core.List.{List, [], ◌∷◌, ◌++◌, map}
use debot.Base.Tests.{if◌then◌else◌, Bool-cases}
use debot.Base.Lists.{is_empty}
use debot.Base.Text.{str_mem}

-- `if test: reasons.append(reason)`
abbrev pub when : Bool → String → List String
when true reason = reason ∷ []
when false reason = []

-- `xs or ys`
abbrev pub or_else : List String → List String → List String
or_else [] ys = ys
or_else (x ∷ xs) ys = x ∷ xs

-- `f"{label}{item}" for item in items`
abbrev pub prefixed : String → List String → List String
prefixed label = map (str_append label)

-- the members that were not seen, each at its first place
abbrev pub unseen : List String → List String → List String
unseen seen [] = []
unseen seen (x ∷ xs) =
    let rest = unseen (x ∷ seen) xs in
    let skipped = unseen seen xs in if str_mem x seen then skipped else x ∷ rest

-- `tuple(dict.fromkeys(xs))`
abbrev pub unique : List String → List String
unique = unseen []

-- No member occurs twice, and none is in `seen`.
abbrev pub AreDistinct : List String → List String → Type 0
AreDistinct seen [] = Unit
AreDistinct seen (x ∷ xs) = (str_mem x seen ≡ false) × AreDistinct (x ∷ seen) xs

unseen-AreDistinct : (seen xs : List String) → AreDistinct seen (unseen seen xs)
unseen-AreDistinct seen [] = tt
unseen-AreDistinct seen (x ∷ xs) = elim (Bool-cases (str_mem x seen)) [
  | inl hit ↦ simp hit (unseen-AreDistinct seen xs)
  | inr miss ↦ simp miss (refl, unseen-AreDistinct (x ∷ seen) xs)
]

pub unique-AreDistinct : (xs : List String) → AreDistinct [] (unique xs)
unique-AreDistinct xs = unseen-AreDistinct [] xs

pub is_empty-append : (xs ys : List String) → is_empty (xs ++ ys) ≡ (is_empty xs && is_empty ys)
is_empty-append [] ys = refl
is_empty-append (x ∷ xs) ys = refl

pub is_empty-when : (b : Bool) (reason : String) → is_empty (when b reason) ≡ not b
is_empty-when true reason = refl
is_empty-when false reason = refl

pub is_empty-prefixed :
    (label : String) (xs : List String) → is_empty (prefixed label xs) ≡ is_empty xs
is_empty-prefixed label [] = refl
is_empty-prefixed label (x ∷ xs) = refl

pub is_empty-or_else :
    (xs ys : List String) → is_empty (or_else xs ys) ≡ (is_empty xs && is_empty ys)
is_empty-or_else [] ys = refl
is_empty-or_else (x ∷ xs) ys = refl

pub is_empty-unique : (xs : List String) → is_empty (unique xs) ≡ is_empty xs
is_empty-unique [] = refl
is_empty-unique (x ∷ xs) = refl
