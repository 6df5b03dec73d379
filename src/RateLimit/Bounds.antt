-- ===== src/RateLimit/Bounds.antt =====
-- middleware/ratelimit.go, middleware/memorystore.go: which limits are valid, and that no sum of Take
-- leaves the range of int64.
use rice_http.Prelude.{
  ℕ, zero, suc, ◌+◌, ◌*◌, ◌/◌, ◌≤◌, ◌<◌, ◌≡◌, ◌==◌, ltb, arith, if◌then◌else◌, Bool-cases, inl, inr,
  ℤ, pos, negsuc,
}
use rice_http.RateLimit.{
  Limit, Quota, Message, interval_zero, too_long, Params, valid, invalid, quota, params_of, params,
  max_int64,
}
use rice_http.RateLimit.Gcra.{gcra, later}

-- A quota that Take can count with.
pub record IsUsable (q : Quota) : Type 0 where
  pub spaced : 0 < q.interval
  pub some_burst : 0 < q.burst
  pub bounded : q.burst * q.interval ≤ max_int64 / 4

div_bound : (m i b : ℕ) → 0 < i → b ≤ m / i → b * i ≤ m
div_bound m i b p h = grind arith

abbrev fits : ℕ → ℕ → Params
fits interval burst =
    if interval == 0
    then invalid interval_zero
    else if ltb (max_int64 / 4 / interval) burst
    then invalid too_long
    else valid (record { interval = interval; burst = burst })

refused_not_valid : {e : Message} {q : Quota} → invalid e ≡ valid q → ⊥
refused_not_valid h = cc

same_quota : {p q : Quota} → valid p ≡ valid q → p ≡ q
same_quota h = cc

fits-IsUsable : (i b : ℕ) (q : Quota) → 0 < b → fits i b ≡ valid q → IsUsable q
fits-IsUsable i b q p h = elim (Bool-cases (i == 0)) [
  | inl zero_ ↦ absurd (refused_not_valid (rw zero_ at h))
  | inr some_ ↦ elim (Bool-cases (ltb (max_int64 / 4 / i) b)) [
    | inl long ↦ absurd (refused_not_valid (rw (some_, long) at h))
    | inr short ↦
        let pos_i : 0 < i = ground arith in
        let le_b : b ≤ max_int64 / 4 / i = ground arith in
        rw (← same_quota (rw (some_, short) at h)) (record {
          spaced = pos_i;
          some_burst = p;
          bounded = div_bound (max_int64 / 4) i b pos_i le_b;
        })
  ]
]

quota-IsUsable :
    (rate per burst : ℕ) (q : Quota) → 0 < rate → quota rate per burst ≡ valid q → IsUsable q
unfolding quota
quota-IsUsable rate per burst q p h =
    fits-IsUsable (per / rate) (if burst == 0 then rate else burst) q (ground arith) h

params-IsUsable : (rate per burst : ℤ) (q : Quota) → params_of rate per burst ≡ valid q → IsUsable q
unfolding params_of
params-IsUsable (pos (suc rate)) (pos (suc per)) (pos burst) q h =
    quota-IsUsable (suc rate) (suc per) burst q (omega arith) h
params-IsUsable (pos (suc rate)) (pos (suc per)) (negsuc b) q h = absurd (refused_not_valid h)
params-IsUsable (pos (suc rate)) (pos zero) burst q h = absurd (refused_not_valid h)
params-IsUsable (pos (suc rate)) (negsuc p) burst q h = absurd (refused_not_valid h)
params-IsUsable (pos zero) per burst q h = absurd (refused_not_valid h)
params-IsUsable (negsuc r) per burst q h = absurd (refused_not_valid h)

one_interval : (b i : ℕ) → 0 < b → i ≤ b * i
one_interval zero i h = elim h [ ]
one_interval (suc b) i h = grind arith

gcra_room :
    (q : Quota) (now d : ℕ)
    → d ≤ now + q.burst * q.interval
    → (later now d ≤ now + q.burst * q.interval) × ((gcra q now d).1 ≤ now + q.burst * q.interval)
unfolding gcra
gcra_room q now d h = ground arith

-- With a valid limit, a store that has run for at most half the range of int64, and a stored time
-- that Take can have left, the sums of Take are in the range of int64, its burst is positive, and the
-- time that it stores is again one that Take can have left.
pub take_bounds :
    (l : Limit) (q : Quota) (now d : ℕ)
    → params l ≡ valid q
    → now ≤ max_int64 / 2
    → d ≤ now + q.burst * q.interval
    → (later now d + q.interval ≤ max_int64)
      × (now + q.burst * q.interval ≤ max_int64)
      × (0 < q.burst)
      × ((gcra q now d).1 ≤ now + q.burst * q.interval)
take_bounds l q now d v t h =
    let use_ = params-IsUsable l.rate l.per l.burst q v in
    let room = gcra_room q now d h in
    let one = one_interval q.burst q.interval use_.some_burst in
    let bound = use_.bounded in (omega arith, omega arith, use_.some_burst, room.1)
