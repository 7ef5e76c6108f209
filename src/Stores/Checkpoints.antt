-- ===== src/Stores/Checkpoints.antt =====
-- `JsonXCheckpointStore` (src/debot4/v6/narrative/monitor_state.py) and `MarketAnomalyState`
-- (market_state.py): a table by key, written to the disk before it is taken over. Whether the write
-- succeeds is an argument. The store keeps the keys in the order of their first use, as a dict does.
use debot.Entry.Models.{lower_hex}
use debot.Base.{
  every, codes, ◌==◌, ℕ, ◌-◌, ◌≤◌, suc, String, ◌≡◌, refl, Bool, true, false, ◌&&◌, ◌||◌, not, List,
  [], ◌∷◌, Option, none, some, arith, Result, ok, err, value_error, runtime_error, if◌then◌else◌,
  leb, length, str_eq, eq_iff, Bool-cases, inl, inr,
}

-- `items[key] = value`
abbrev pub put {ℓ} : {A : Type ℓ} → String → A → List (String × A) → List (String × A)
put key value [] = (key, value) ∷ []
put key value ((k, v) ∷ items) =
    let rest = put key value items in if str_eq k key then (k, value) ∷ items else (k, v) ∷ rest

-- `items.get(key)`
abbrev pub lookup {ℓ} : {A : Type ℓ} → String → List (String × A) → Option A
lookup key [] = none
lookup key ((k, v) ∷ items) = let rest = lookup key items in if str_eq k key then some v else rest

-- `key in items`
abbrev pub has_key {ℓ} : {A : Type ℓ} → String → List (String × A) → Bool
has_key key [] = false
has_key key ((k, v) ∷ items) = str_eq k key || has_key key items

pub record Checkpoint : Type 0 where
  pub handle : String
  pub user_id : String
  pub latest_tweet_id : String

pub record CheckpointStore : Type 0 where
  pub items : List (String × Checkpoint)
  pub max_accounts : ℕ

-- `save`, when the write to the disk succeeds or raises
unfoldable pub save : Bool → Checkpoint → CheckpointStore → Result (Unit {0}) × CheckpointStore
save disk_ok checkpoint store =
    if not (has_key checkpoint.handle store.items) && leb store.max_accounts (length store.items)
    then (err value_error, store)
    else if disk_ok
    then (ok tt, record store { items = put checkpoint.handle checkpoint store.items })
    else (err runtime_error, store)

-- `load` of a handle that is normal
unfoldable pub load : String → CheckpointStore → Option Checkpoint
load handle store = lookup handle store.items

-- The anomalies that `mark` keeps: those that were emitted within the retention.
abbrev pub retained : (stamp retention : ℕ) → List (String × ℕ) → List (String × ℕ)
retained stamp retention [] = []
retained stamp retention ((k, at) ∷ items) =
    let rest = retained stamp retention items in
    if leb (stamp - at) retention then (k, at) ∷ rest else rest

abbrev pub put_all : ℕ → List String → List (String × ℕ) → List (String × ℕ)
put_all stamp [] items = items
put_all stamp (id ∷ ids) items = put_all stamp ids (put id stamp items)

-- `_ANOMALY_ID.fullmatch`: the codes of `market-anomaly-`, then 32 digits
abbrev pub follows : List ℕ → List ℕ → Bool
follows [] digits = length digits == 32 && every lower_hex digits
follows (p ∷ ps) [] = false
follows (p ∷ ps) (c ∷ cs) = p == c && follows ps cs

abbrev pub is_anomaly_id : String → Bool
is_anomaly_id id = follows (codes "market-anomaly-") (codes id)

-- `mark`
unfoldable pub mark :
    Bool
    → List String
    → (stamp retention : ℕ) → List (String × ℕ)
    → Result (Unit {0}) × List (String × ℕ)
mark disk_ok ids stamp retention emitted =
    if not (every is_anomaly_id ids)
    then (err value_error, emitted)
    else if disk_ok
    then (ok tt, put_all stamp ids (retained stamp retention emitted))
    else (err runtime_error, emitted)

-- A key that is there stays there while others are put.
has_key-put_all :
    (id : String) (stamp : ℕ) (ids : List String) (items : List (String × ℕ))
    → has_key id items ≡ true
    → has_key id (put_all stamp ids items) ≡ true
has_key-put_all id stamp [] items h = h
has_key-put_all id stamp (i ∷ ids) items h =
    has_key-put_all id stamp ids (put i stamp items) (kept items h)
  where
    kept :
        (items : List (String × ℕ))
        → has_key id items ≡ true
        → has_key id (put i stamp items) ≡ true
    kept [] h = cc
    kept ((k, v) ∷ items) h = elim (Bool-cases (str_eq k i)) [
      | inl same ↦ rw same h
      | inr other ↦ rw other (elim (Bool-cases (str_eq k id)) [
        | inl here ↦ rw here refl
        | inr there ↦ simp there (kept items (simp there at h))
      ])
    ]

length-put :
    (key : String) (value : Checkpoint) (items : List (String × Checkpoint))
    → length (put key value items)
      ≡ (if has_key key items then length items else suc (length items))
length-put key value [] = refl
length-put key value ((k, v) ∷ items) = elim (Bool-cases (str_eq k key)) [
  | inl same ↦ rw same refl
  | inr other ↦ rw other (elim (Bool-cases (has_key key items)) [
    | inl has ↦ rw has (ground (arith, length-put key value items))
    | inr lacks ↦ rw lacks (ground (arith, length-put key value items))
  ])
]

lookup-put :
    (key other : String) (value : Checkpoint) (items : List (String × Checkpoint))
    → lookup other (put key value items)
      ≡ (if str_eq key other then some value else lookup other items)
lookup-put key other value [] = refl
lookup-put key other value ((k, v) ∷ items) = elim (Bool-cases (str_eq k key)) [
  | inl same ↦ rw same (rw ((eq_iff k key).0 same) (ground arith))
  | inr apart ↦ rw apart (elim (Bool-cases (str_eq k other)) [
    | inl hit ↦ rw hit (
        let kept : str_eq key other ≡ false =
          ground (arith, eq_iff k other, eq_iff key other, eq_iff k key) in
        rw kept refl)
    | inr miss ↦ rw miss (lookup-put key other value items)
  ])
]

-- How `save` ends.
abbrev pub Saves : Checkpoint → CheckpointStore → Result (Unit {0}) × CheckpointStore → Type 0
Saves checkpoint store (err e, after) = after ≡ store
Saves checkpoint store (ok u, after) =
    (length after.items ≤ after.max_accounts)
    × ((handle : String)
        → load handle after
          ≡ (if str_eq checkpoint.handle handle then some checkpoint else load handle store))

-- For a store within its limit of accounts: a call of `save` that raises leaves the store as it was, and
-- after one that returns the store is within its limit, loads the saved checkpoint under its handle, and
-- loads under every other handle what it did before.
pub save-Saves :
    (disk_ok : Bool) (checkpoint : Checkpoint) (store : CheckpointStore)
    → length store.items ≤ store.max_accounts
    → Saves checkpoint store (save disk_ok checkpoint store)
unfolding save load
save-Saves disk_ok checkpoint store h =
    elim (Bool-cases (
      not (has_key checkpoint.handle store.items) && leb store.max_accounts (length store.items))) [
        | inl full ↦ rw full refl
        | inr room ↦ rw room (elim (Bool-cases disk_ok) [
          | inr lost ↦ rw lost refl
          | inl stored ↦ rw stored (
            ground (arith, length-put checkpoint.handle checkpoint store.items),
            λ handle. lookup-put checkpoint.handle handle checkpoint store.items,
          )
        ])
      ]
