-- ===== src/Control/NodeHandler/Wait.antt =====
-- `parseHeartbeatWait` and `extractPathParam` of control-plane/handler/node.go. A duration is the
-- two's complement of its 64 bits, in nanoseconds; what strconv.Atoi makes of the text is an
-- argument: `none` for an error, or for a number below 1, which the code treats alike.
use res.Base.{
  ℕ, ◌*◌, ◌%◌, ◌^◌, ◌<◌, ◌≡◌, refl, Bool, true, false, ◌&&◌, Option, none, some, [], ◌∷◌, ◌++◌, ltb,
  leb, nat_beq, if◌then◌else◌, arith, Bytes, length, take, drop, All, take_of_append,
  drop_of_append, ◌==◌, ==_refl, bytes_eq,
}

abbrev pub second : ℕ
second = 1000000000

-- maxHeartbeatWait
abbrev pub max_heartbeat_wait : ℕ
max_heartbeat_wait = 30 * second

-- `d > maxHeartbeatWait` on the 64 bits of `d`: the upper half is negative.
unfoldable pub exceeds_wait : ℕ → Bool
exceeds_wait d = ltb max_heartbeat_wait d && ltb d (2 ^ 63)

-- `parseHeartbeatWait`, with the bits of the duration; `wait > 0` is `is_positive`.
unfoldable pub parse_heartbeat_wait : Option ℕ → ℕ
parse_heartbeat_wait none = 0
parse_heartbeat_wait (some n) =
    let d = (n * second) % 2 ^ 64 in if exceeds_wait d then max_heartbeat_wait else d

unfoldable pub is_positive : ℕ → Bool
is_positive d = ltb 0 d && ltb d (2 ^ 63)

-- A wait is never more than 30 seconds, for every 64-bit number of seconds; up to 9223372036 of them
-- it is that many seconds, or 30 if there are more.
pub parse_heartbeat_wait_bound :
    (n : ℕ)
    → n < 2 ^ 63
    → (exceeds_wait (parse_heartbeat_wait (some n)) ≡ false)
      × ((if leb n 9223372036
            then nat_beq
                (parse_heartbeat_wait (some n))
                (if leb n 30 then n * second else 30 * second)
            else true)
          ≡ true)
unfolding parse_heartbeat_wait exceeds_wait
parse_heartbeat_wait_bound n h = (ground (arith, h), ground (arith, h))

-- `strings.TrimPrefix`
unfoldable pub trim_prefix : Bytes → Bytes → Bytes
trim_prefix prefix path =
    if take (length prefix) path == prefix then drop (length prefix) path else path

-- `s[:strings.Index(s, "/")]`, or all of `s` where there is no slash.
unfoldable pub until_slash : Bytes → Bytes
until_slash [] = []
until_slash (c ∷ cs) = if nat_beq c b'/' then [] else c ∷ until_slash cs

-- `extractPathParam`
unfoldable pub extract_path_param : Bytes → Bytes → Bytes
extract_path_param path prefix = until_slash (trim_prefix prefix path)

until_slash-append :
    (id rest : Bytes) → All (λ c. nat_beq c b'/' ≡ false) id → until_slash (id ++ b'/' ∷ rest) ≡ id
unfolding until_slash
until_slash-append [] rest h = refl
until_slash-append (c ∷ cs) rest h = ground (arith, h.0, until_slash-append cs rest h.1)

until_slash-All : (id : Bytes) → All (λ c. nat_beq c b'/' ≡ false) id → until_slash id ≡ id
unfolding until_slash
until_slash-All [] h = refl
until_slash-All (c ∷ cs) h = ground (arith, h.0, until_slash-All cs h.1)

-- The identifier of a path is what stands between the prefix and the next slash, or the end.
pub extract_path_param_lem :
    (prefix id rest : Bytes)
    → All (λ c. nat_beq c b'/' ≡ false) id
    → (extract_path_param (prefix ++ id) prefix ≡ id)
      × (extract_path_param (prefix ++ (id ++ b'/' ∷ rest)) prefix ≡ id)
unfolding extract_path_param trim_prefix
extract_path_param_lem prefix id rest h = (
  rw
      (
        take_of_append (length prefix) prefix id refl,
        drop_of_append (length prefix) prefix id refl,
        ==_refl prefix,
      )
      (until_slash-All id h),
  rw
      (
        take_of_append (length prefix) prefix (id ++ b'/' ∷ rest) refl,
        drop_of_append (length prefix) prefix (id ++ b'/' ∷ rest) refl,
        ==_refl prefix,
      )
      (until_slash-append id rest h),
)
