-- ===== src/RateLimit.antt =====
-- middleware/ratelimit.go, middleware/memorystore.go: rate limiting under GCRA. Times are
-- nanoseconds since the store's creation, on a clock that does not run back. The sums are those of
-- int64, written without its wrap; RateLimit/Bounds is about their range. KeyFunc's answer is an
-- argument: `none` is its error.
pub mod Gcra
pub mod Bounds
pub mod Refines
pub mod Rate
mod Tests
use rice_http.Prelude.{
  ℕ, zero, suc, ◌+◌, ◌-◌, ◌*◌, ◌/◌, ◌%◌, Bytes, Bool, true, false, Option, none, some, ◌==◌, ltb,
  leb, bytes_eq, if◌then◌else◌, ℤ, pos, negsuc,
}

-- `math.MaxInt64`, and `int64(time.Second)`.
abbrev pub max_int64 : ℕ
max_int64 = 9223372036854775807

abbrev pub second : ℕ
second = 1000000000

pub record Limit : Type 0 where
  pub rate : ℤ
  pub per : ℤ
  pub burst : ℤ

-- The emission interval and the burst that `params` returns.
pub record Quota : Type 0 where
  pub interval : ℕ
  pub burst : ℕ

pub data Message : Type 0 where
  rate_not_positive per_not_positive burst_negative interval_zero too_long : Message

pub data Params : Type 0 where
  valid : Quota → Params
  invalid : Message → Params

-- The part of `params` behind the switch.
unfoldable pub quota : ℕ → ℕ → ℕ → Params
quota rate per burst =
    let interval = per / rate in
    let requests = (if burst == 0 then rate else burst) in
    if interval == 0
    then invalid interval_zero
    else if ltb (max_int64 / 4 / interval) requests
    then invalid too_long
    else valid (record { interval = interval; burst = requests })

unfoldable pub params_of : ℤ → ℤ → ℤ → Params
params_of (pos (suc rate)) (pos (suc per)) (pos burst) = quota (suc rate) (suc per) burst
params_of (pos (suc rate)) (pos (suc per)) (negsuc b) = invalid burst_negative
params_of (pos (suc rate)) (pos zero) burst = invalid per_not_positive
params_of (pos (suc rate)) (negsuc p) burst = invalid per_not_positive
params_of (pos zero) per burst = invalid rate_not_positive
params_of (negsuc r) per burst = invalid rate_not_positive

abbrev pub params : Limit → Params
params l = params_of l.rate l.per l.burst

-- A shard: the theoretical arrival time of each key that it holds, and the last sweep.
pub record Shard : Type 0 where
  pub tat : Bytes → Option ℕ
  pub last_sweep : ℕ

pub record Store : Type 0 where
  pub shards : ℕ → Shard

-- `NewMemoryStore`
abbrev pub new_store : Store
new_store = record { shards = λ i. record { tat = λ k. none; last_sweep = 0 } }

abbrev pub unexpired : ℕ → Option ℕ → Option ℕ
unexpired now none = none
unexpired now (some tat) = if leb tat now then none else some tat

-- The sweep, if one is due.
unfoldable pub sweep : ℕ → ℕ → Shard → Shard
sweep every now sh =
    if leb every (now - sh.last_sweep)
    then record { tat = λ k. unexpired now (sh.tat k); last_sweep = now }
    else sh

-- The arrival time that a request at `now` starts from.
abbrev pub start_from : ℕ → Option ℕ → ℕ
start_from now none = now
start_from now (some tat) = if ltb tat now then now else tat

abbrev pub put_tat : Bytes → ℕ → Shard → Shard
put_tat key next sh = record sh { tat = λ k. if bytes_eq k key then some next else sh.tat k }

-- `Take` in the key's shard: the time to wait, and the shard as it is left. The test
-- `now < next - burst*interval` is written without the negative number.
unfoldable pub charge : Quota → ℕ → Bytes → Shard → ℕ × Shard
charge q now key sh =
    let next = start_from now (sh.tat key) + q.interval in
    if ltb (now + q.burst * q.interval) next
    then (next - (now + q.burst * q.interval), sh)
    else (0, put_tat key next sh)

unfoldable pub take_valid : (Bytes → ℕ) → ℕ → ℕ → Bytes → Quota → Store → ℕ × Store
take_valid hash every now key q s =
    let i = hash key % 64 in
    let r = charge q now key (sweep every now (s.shards i)) in
    (r.0, record { shards = λ j. if j == i then r.1 else s.shards j })

pub data Taken : Type 0 where
  wait : ℕ → Store → Taken
  refused : Message → Taken

-- `Take`, with the hash of a key, the time between sweeps, and the time.
unfoldable pub take : (Bytes → ℕ) → ℕ → ℕ → Bytes → Limit → Store → Taken
take hash every now key l s = elim (params l) [
  | valid q ↦ wait (take_valid hash every now key q s).0 (take_valid hash every now key q s).1
  | invalid msg ↦ refused msg
]

unfoldable pub retry_after : ℕ → ℕ
retry_after w =
    let s = (if w % second == 0 then w / second else w / second + 1) in if leb s 1 then 1 else s

-- What the middleware does with a request, once the key and the wait are known.
pub data Reply : Type 0 where
  next failed : Reply
  too_many_requests : ℕ → Reply

unfoldable pub admit : ℕ → Reply
admit w = if ltb 0 w then too_many_requests (retry_after w) else next

abbrev after_take : Store → Taken → Reply × Store
after_take s (wait w s') = (admit w, s')
after_take s (refused msg) = (failed, s)

-- The handler of `RateLimit` over a MemoryStore, up to the call of the next one.
unfoldable pub rate_limit : (Bytes → ℕ) → ℕ → ℕ → Limit → Option Bytes → Store → Reply × Store
rate_limit hash every now l none s = (failed, s)
rate_limit hash every now l (some key) s = after_take s (take hash every now key l s)
