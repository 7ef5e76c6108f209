-- ===== src/Egress/Pool.antt =====
-- The pool's nodes, its constructor and its operations (src/debot4/v6/x/egress.py). What a node's opener
-- answers to a request, which depends on the node and on how often it was asked, and `str.casefold` are
-- parameters. Calls are made one after another: the lock of the source guards each counter.
use debot.Base.{
  zero, ℕ, ◌+◌, ◌%◌, suc, String, Bool, false, ◌&&◌, ◌||◌, not, List, [], ◌∷◌, map, Option, none,
  some, Result, ok, value_error, ◌>>◌, guard, if◌then◌else◌, leb, ◌==◌, any, every, length, codes,
  in_range, str_eq, ◌-◌,
}
use debot.Queue.Identity.{strip}
use debot.Gate.Dossier.{are_unique}

pub record EgressNode : Type 0 where
  pub node_id : String
  pub proxy_host : String
  pub proxy_port : ℕ

-- [a-z0-9]
abbrev pub id_start : ℕ → Bool
id_start c = in_range b'a' b'z' c || in_range b'0' b'9' c

-- [a-z0-9._-]
abbrev pub id_char : ℕ → Bool
id_char c = id_start c || c == b'.' || c == b'_' || c == b'-'

-- `_NODE_ID.fullmatch`
abbrev pub is_node_id : List ℕ → Bool
is_node_id [] = false
is_node_id (c ∷ cs) = id_start c && leb (length cs) 31 && every id_char cs

-- `FxEgressNode.__post_init__`
unfoldable pub make_node : (String → String) → String → String → ℕ → Result EgressNode
make_node casefold id host port = do
  guard (is_node_id (codes (casefold (strip id))) && not (str_eq (strip host) "")) value_error
  guard (in_range 1 65_535 port) value_error
  ok (record { node_id = casefold (strip id); proxy_host = strip host; proxy_port = port })

pub record NodeRuntime : Type 0 where
  pub node : EgressNode
  pub attempts : ℕ
  pub successes : ℕ
  pub failures : ℕ
  pub last_error_type : Option String

pub record EgressPool : Type 0 where
  pub nodes : List NodeRuntime
  pub max_attempts : ℕ
  pub cursor : ℕ

-- What one attempt ends with: a response with its status, an `HTTPError`, another `OSError` by the name
-- of its class, or an exception that the pool does not catch.
pub data Answer : Type 0 where
  responded : ℕ → Answer
  http_error : ℕ → Answer
  os_error : String → Answer
  uncaught : String → Answer

-- How `open` ends.
pub data Opened : Type 0 where
  returned : ℕ → Opened
  raised_http : ℕ → Opened
  raised : String → Opened
  egress_error : Opened

-- `_RETRYABLE_HTTP`
abbrev pub is_retryable : ℕ → Bool
is_retryable status = any (λ s. status == s) (403 ∷ 408 ∷ 425 ∷ 429 ∷ 500 ∷ 502 ∷ 503 ∷ 504 ∷ [])

abbrev pub idle : EgressNode → NodeRuntime
idle node = record {
  node = node;
  attempts = 0;
  successes = 0;
  failures = 0;
  last_error_type = none;
}

-- `FxEgressPool.__init__`
unfoldable pub make_pool : List EgressNode → ℕ → Result EgressPool
make_pool nodes max_attempts = do
  guard (in_range 1 64 (length nodes)) value_error
  guard (in_range 1 (length nodes) max_attempts) value_error
  guard (are_unique (λ a b. str_eq a.node_id b.node_id) nodes) value_error
  guard (are_unique (λ a b. str_eq a.proxy_host b.proxy_host && a.proxy_port == b.proxy_port) nodes)
      value_error
  ok (record { nodes = map idle nodes; max_attempts = max_attempts; cursor = 0 })

-- The member at an index changes.
abbrev pub modify_at : ℕ → (NodeRuntime → NodeRuntime) → List NodeRuntime → List NodeRuntime
modify_at i f [] = []
modify_at i f (r ∷ rs) = let rest = modify_at (i - 1) f rs in if i == 0 then f r ∷ rs else r ∷ rest

abbrev pub node_at : ℕ → List NodeRuntime → Option NodeRuntime
node_at i [] = none
node_at i (r ∷ rs) = let rest = node_at (i - 1) rs in if i == 0 then some r else rest

-- `_mark_attempt`
abbrev pub mark_attempt : NodeRuntime → NodeRuntime
mark_attempt r = record r { attempts = r.attempts + 1 }

-- `_mark_success`
abbrev pub mark_success : NodeRuntime → NodeRuntime
mark_success r = record r { successes = r.successes + 1; last_error_type = none }

-- `_mark_failure`
abbrev pub mark_failure : String → NodeRuntime → NodeRuntime
mark_failure error r = record r { failures = r.failures + 1; last_error_type = some error }

-- `(start + offset) % len(nodes)` for `count` offsets from `offset` on
abbrev pub places : (start size offset count : ℕ) → List ℕ
places start size offset zero = []
places start size offset (suc count) =
    (start + offset) % size ∷ places start size (suc offset) count

-- `_route`: the indexes to try, and the pool with the next cursor
unfoldable pub route : EgressPool → List ℕ × EgressPool
route pool = (
  places pool.cursor (length pool.nodes) 0 pool.max_attempts,
  record pool { cursor = (pool.cursor + 1) % length pool.nodes },
)

-- What an attempt at the index `i` does to the pool, and what it goes on with after a failure.
abbrev pub settle_answer :
    Answer
    → ℕ
    → (List NodeRuntime → Opened × List NodeRuntime)
    → List NodeRuntime
    → Opened × List NodeRuntime
settle_answer (responded status) i next nodes =
    if is_retryable status
    then next (modify_at i (mark_failure "HTTPError") nodes)
    else (returned status, modify_at i mark_success nodes)
settle_answer (http_error status) i next nodes =
    if is_retryable status
    then next (modify_at i (mark_failure "HTTPError") nodes)
    else (raised_http status, modify_at i mark_success nodes)
settle_answer (os_error name) i next nodes = next (modify_at i (mark_failure name) nodes)
settle_answer (uncaught name) i next nodes = (raised name, nodes)

module _ (answer : EgressNode → (attempts : ℕ) → Answer) where
  -- what the node at an index answers to its next attempt
  abbrev pub ask : List NodeRuntime → ℕ → Answer
  ask nodes i = elim (node_at i nodes) [
    | none ↦ uncaught "IndexError"
    | some r ↦ answer r.node r.attempts
  ]

  -- The loop over the route.
  unfoldable pub try_nodes : List ℕ → List NodeRuntime → Opened × List NodeRuntime
  try_nodes [] nodes = (egress_error, nodes)
  try_nodes (i ∷ is) nodes =
      settle_answer (ask nodes i) i (try_nodes is) (modify_at i mark_attempt nodes)

  -- `open`
  unfoldable pub open_ : EgressPool → Opened × EgressPool
  unfolding route try_nodes
  open_ pool =
      let (indexes, routed) = route pool in
      let (opened, nodes) = try_nodes indexes routed.nodes in
      (opened, record routed { nodes = nodes })
