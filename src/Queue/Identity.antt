-- ===== src/Queue/Identity.antt =====
-- The identities that a queue call is given (src/debot4/v6/narrative/job_queue_models.py).
-- A regular expression `[class]{lo,hi}` under `fullmatch` is a test of the length and of each
-- code point.
use Prim.Native.Char.{code}
use debot.Base.{
  ℕ, String, ◌≡◌, refl, Bool, false, ◌&&◌, ◌||◌, List, [], ◌∷◌, leb, ◌==◌, if◌then◌else◌, length,
  every, codes, in_range, str_eq, Result, ok, err, value_error,
}

-- What `str.strip` takes away at both ends.
is_space : ℕ → Bool
is_space c =
    in_range 9 13 c
    || in_range 28 32 c
    || c == 0x85
    || c == 0xa0
    || c == 0x1680
    || in_range 0x2000 0x200a c
    || in_range 0x2028 0x2029 c
    || c == 0x202f
    || c == 0x205f
    || c == 0x3000

lstrip : String → String
lstrip String.[] = String.[]
lstrip (String.◌∷◌ c s) = let rest = lstrip s in if is_space (code c) then rest else String.◌∷◌ c s

rstrip : String → String
rstrip String.[] = String.[]
rstrip (String.◌∷◌ c s) =
    let rest = rstrip s in
    if is_space (code c) && str_eq rest "" then String.[] else String.◌∷◌ c rest

unfoldable pub strip : String → String
unfolding is_space lstrip rstrip
strip s = rstrip (lstrip s)

is_lower : ℕ → Bool
is_lower c = in_range b'a' b'z' c

is_upper : ℕ → Bool
is_upper c = in_range b'A' b'Z' c

is_digit : ℕ → Bool
is_digit c = in_range b'0' b'9' c

-- [A-Za-z0-9_.:@-]
worker_char : ℕ → Bool
unfolding is_lower is_upper is_digit
worker_char c =
    is_upper c
    || is_lower c
    || is_digit c
    || c == b'_'
    || c == b'.'
    || c == b':'
    || c == b'@'
    || c == b'-'

-- [0-9a-f]
lease_char : ℕ → Bool
unfolding is_digit
lease_char c = is_digit c || in_range b'a' b'f' c

-- [A-Za-z_]
name_start : ℕ → Bool
unfolding is_lower is_upper
name_start c = is_upper c || is_lower c || c == b'_'

-- [A-Za-z0-9_.]
name_char : ℕ → Bool
unfolding name_start is_digit
name_char c = name_start c || is_digit c || c == b'.'

has_shape : (ℕ → Bool) → ℕ → ℕ → String → Bool
has_shape class lo hi s = in_range lo hi (length (codes s)) && every class (codes s)

-- [A-Za-z_][A-Za-z0-9_.]{0,127}
is_error_type : List ℕ → Bool
unfolding name_start name_char
is_error_type [] = false
is_error_type (c ∷ cs) = name_start c && leb (length cs) 127 && every name_char cs

unfoldable pub worker_identity : String → Result String
unfolding has_shape worker_char strip
worker_identity value =
    let worker = strip value in
    if has_shape worker_char 1 128 worker then ok worker else err value_error

unfoldable pub lease_identity : String → Result String
unfolding has_shape lease_char strip
lease_identity value =
    let lease_id = strip value in
    if has_shape lease_char 32 32 lease_id then ok lease_id else err value_error

-- `error` is given by the name of its class. (A value that is no exception is not representable.)
unfoldable pub sanitized_error_type : String → String
unfolding is_error_type
sanitized_error_type name = if is_error_type (codes name) then name else "Exception"

worker_identity_trims : worker_identity " narrative-grok-1\n" ≡ ok "narrative-grok-1"
unfolding worker_identity
worker_identity_trims = refl

lease_identity_short : lease_identity "00ff" ≡ err value_error
unfolding lease_identity
lease_identity_short = refl

sanitized_names : sanitized_error_type "requests.Timeout" ≡ "requests.Timeout"
unfolding sanitized_error_type
sanitized_names = refl
