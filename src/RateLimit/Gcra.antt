-- ===== src/RateLimit/Gcra.antt =====
-- middleware/memorystore.go: the generic cell rate algorithm on the arrival time of one key.
use rice_http.Prelude.{
  ℕ, zero, suc, ◌+◌, ◌-◌, ◌*◌, ◌≤◌, ◌<◌, Bool, true, false, ◌≡◌, ltb, if◌then◌else◌, arith, ◌==◌,
}
use rice_http.RateLimit.{Quota, retry_after, second}

abbrev pub later : ℕ → ℕ → ℕ
later now d = if ltb d now then now else d

-- One request at `now`: the time to wait, and the arrival time afterwards.
unfoldable pub gcra : Quota → ℕ → ℕ → ℕ × ℕ
gcra q now d =
    let next = later now d + q.interval in
    if ltb (now + q.burst * q.interval) next
    then (next - (now + q.burst * q.interval), d)
    else (0, next)

pub gcra_step :
    (q : Quota) (t d : ℕ)
    → (later t d + (if (gcra q t d).0 == 0 then q.interval else 0) ≤ later t (gcra q t d).1)
      × (later t (gcra q t d).1 ≤ later t d + q.interval)
unfolding gcra
gcra_step q t d = ground arith

pub gcra_cap :
    (q : Quota) (t d : ℕ) → d ≤ t + q.burst * q.interval → (gcra q t d).1 ≤ t + q.burst * q.interval
unfolding gcra
gcra_cap q t d h = ground arith

pub one_more :
    (admitted : Bool) (i n a b c : ℕ)
    → a + (if admitted then i else 0) ≤ b
    → b + n * i ≤ c
    → a + (if admitted then suc n else n) * i ≤ c
one_more true i n a b c h k = let e : suc n * i ≡ i + n * i = grind arith in rw e (omega arith)
one_more false i n a b c h k = omega arith

gcra_refusal :
    (q : Quota) (t d : ℕ)
    → 0 < (gcra q t d).0
    → ((gcra q t d).1 ≡ d) × (later t d + q.interval ≡ t + q.burst * q.interval + (gcra q t d).0)
unfolding gcra
gcra_refusal q t d h = ground arith

gcra_admits :
    (q : Quota) (t d : ℕ) → later t d + q.interval ≤ t + q.burst * q.interval → (gcra q t d).0 ≡ 0
unfolding gcra
gcra_admits q t d h = ground arith

burst_covers : (b i : ℕ) → 0 < b → i ≤ b * i
burst_covers zero i h = elim h [ ]
burst_covers (suc b) i h = grind arith

later_enough :
    (i B t d w e : ℕ) → i ≤ B → later t d + i ≡ t + B + w → w ≤ e → later (t + e) d + i ≤ t + e + B
later_enough i B t d w e h k l = ground arith

retry_after-ge : (w : ℕ) → w ≤ retry_after w * second
unfolding retry_after
retry_after-ge w = ground arith

retry_after_least : (w : ℕ) → 0 < w → (1 ≤ retry_after w) × (retry_after w * second < w + second)
unfolding retry_after
retry_after_least w h = ground arith

-- A request that is refused is not charged; the whole seconds that its Retry-After names are at
-- least 1 and less than a second above the wait; and a request after that many seconds is admitted
-- if none was charged between.
pub retry_after-admits :
    (q : Quota) (t d : ℕ)
    → 0 < q.burst
    → 0 < (gcra q t d).0
    → ((gcra q t d).1 ≡ d)
      × (1 ≤ retry_after (gcra q t d).0)
      × (retry_after (gcra q t d).0 * second < (gcra q t d).0 + second)
      × ((gcra q (t + retry_after (gcra q t d).0 * second) d).0 ≡ 0)
retry_after-admits q t d b h =
    let (kept, short) = gcra_refusal q t d h in
    let (least, tight) = retry_after_least (gcra q t d).0 h in
    (
      kept,
      least,
      tight,
      gcra_admits q _ d (
          later_enough q.interval _ t d (gcra q t d).0 _ (burst_covers q.burst q.interval b) short
            (retry_after-ge (gcra q t d).0)),
    )
