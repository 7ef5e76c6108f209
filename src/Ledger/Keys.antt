-- ===== src/Ledger/Keys.antt =====
-- The primary keys of the ledger's tables: no two rows of a table share one, and a row that is there stays.
use mathlib.Core.List.{Memᴰ}
use debot.Base.{
  ok, String, Bool, true, false, ◌||◌, ◌≡◌, refl, sym, ◌∙◌, none, List, [], ◌∷◌, ◌++◌, arith, find?,
  any, eq_iff, Bool-cases, inl, inr,
}
use debot.Ledger.Columns.{Columns}
use debot.Ledger.Transaction.{Stored, InsertResult, Stamp, has_key, new_stored, append}
use debot.Ledger.Appending.{Extends, Appended, found, placed, append-Appended}

module _ {A : Type 0} where
  pub Memᴰ-append : (xs ys : List A) (a : A) → Memᴰ a xs → Memᴰ a (xs ++ ys)
  Memᴰ-append [] ys a m = elim m [ ]
  Memᴰ-append (x ∷ xs) ys a (Memᴰ.head e) = Memᴰ.head e
  Memᴰ-append (x ∷ xs) ys a (Memᴰ.tail m) = Memᴰ.tail (Memᴰ-append xs ys a m)

  pub Memᴰ-Extends :
      (P : A → Type 0) (xs ys : List A) (a : A) → Extends P xs ys → Memᴰ a xs → Memᴰ a ys
  Memᴰ-Extends P xs ys a e m = rw e.behind (Memᴰ-append xs e.added a m)

  pub any-Memᴰ :
      (test : A → Bool) (xs : List A) → any test xs ≡ true → (a : A) × Memᴰ a xs × (test a ≡ true)
  any-Memᴰ test [] h = absurd (ground arith)
  any-Memᴰ test (x ∷ xs) h = elim (Bool-cases (test x)) [
    | inl hit ↦ (x, Memᴰ.head refl, hit)
    | inr miss ↦ let (a, m, t) = any-Memᴰ test xs (ground arith) in (a, Memᴰ.tail m, t)
  ]

  pub any_of_Memᴰ :
      (test : A → Bool) (a : A) (xs : List A) → Memᴰ a xs → test a ≡ true → any test xs ≡ true
  any_of_Memᴰ test a [] m h = elim m [ ]
  any_of_Memᴰ test a (x ∷ xs) (Memᴰ.head e) h = rw (← e, h) refl
  any_of_Memᴰ test a (x ∷ xs) (Memᴰ.tail m) h = ground (arith, any_of_Memᴰ test a xs m h)

module _ {A : Type 0} ⦃columns : Columns A⦄ where
  abbrev key_of : Stored A → String
  key_of row = columns.key row.content

  -- No two rows share their key.
  abbrev pub AreKeyed : List (Stored A) → Type 0
  AreKeyed [] = Unit
  AreKeyed (row ∷ rows) = (any (has_key (key_of row)) rows ≡ false) × AreKeyed rows

  pub has_key_self : (row : Stored A) → has_key (key_of row) row ≡ true
  has_key_self row = (eq_iff (key_of row) (key_of row)).1 refl

  clash :
      (x : Stored A) (xs : List (Stored A)) (b : Stored A) (key : String)
      → any (has_key (key_of x)) xs ≡ false
      → Memᴰ b xs
      → has_key key x ≡ true
      → has_key key b ≡ true
      → ⊥
  clash x xs b key k n h i = ground (
    arith,
    any_of_Memᴰ (has_key (key_of x)) b xs n,
    eq_iff (key_of x) key,
    eq_iff (key_of b) key,
    eq_iff (key_of b) (key_of x),
  )

  pub AreKeyed-unique :
      (key : String) (rows : List (Stored A)) (a b : Stored A)
      → AreKeyed rows
      → Memᴰ a rows
      → Memᴰ b rows
      → has_key key a ≡ true
      → has_key key b ≡ true
      → a ≡ b
  AreKeyed-unique key [] a b k m n h i = elim m [ ]
  AreKeyed-unique key (x ∷ xs) a b k (Memᴰ.head e) (Memᴰ.head f) h i = e ∙ sym f
  AreKeyed-unique key (x ∷ xs) a b k (Memᴰ.tail m) (Memᴰ.tail n) h i =
      AreKeyed-unique key xs a b k.1 m n h i
  AreKeyed-unique key (x ∷ xs) a b k (Memᴰ.head e) (Memᴰ.tail n) h i =
      absurd (clash x xs b key k.0 n (rw e at h) i)
  AreKeyed-unique key (x ∷ xs) a b k (Memᴰ.tail m) (Memᴰ.head f) h i =
      absurd (clash x xs a key k.0 m (rw f at i) h)

  find?-any :
      (test : Stored A → Bool) (rows : List (Stored A))
      → find? test rows ≡ none
      → any test rows ≡ false
  find?-any test [] h = refl
  find?-any test (x ∷ xs) h = ground (arith, find?-any test xs)

  any-append :
      (test : Stored A → Bool) (xs : List (Stored A)) (y : Stored A)
      → any test (xs ++ y ∷ []) ≡ (any test xs || test y)
  any-append test [] y = ground arith
  any-append test (x ∷ xs) y = ground (arith, any-append test xs y)

  AreKeyed-append :
      (rows : List (Stored A)) (row : Stored A)
      → AreKeyed rows
      → any (has_key (key_of row)) rows ≡ false
      → AreKeyed (rows ++ row ∷ [])
  AreKeyed-append [] row k h = (refl, tt)
  AreKeyed-append (x ∷ xs) row k h = (
    rw (any-append (has_key (key_of x)) xs row)
        (ground (arith, k.0, eq_iff (key_of x) (key_of row), eq_iff (key_of row) (key_of x))),
    AreKeyed-append xs row k.1 (ground arith),
  )

  -- An insertion keeps the keys apart.
  pub append-AreKeyed :
      (stamp : Stamp) (constraints : Bool) (values : A) (rows : List (Stored A))
      (result : InsertResult A) (after : List (Stored A))
      → append stamp constraints values rows ≡ ok (result, after)
      → AreKeyed rows
      → AreKeyed after
  append-AreKeyed stamp constraints values rows result after h k =
      kept (append-Appended stamp constraints values rows result after h)
    where
      kept : Appended stamp constraints values rows result after → AreKeyed after
      kept (found row e c r a) = rw a k
      kept (placed e c r a) =
          rw a (AreKeyed-append rows (new_stored stamp values) k (find?-any _ rows e))
