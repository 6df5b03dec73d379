-- ===== src/RateLimit/Refines.antt =====
-- middleware/memorystore.go: Take against GCRA on one arrival time for each key.
use rice_http.Prelude.{
  ℕ, ◌+◌, ◌-◌, ◌*◌, ◌≤◌, ◌%◌, Bytes, false, Option, none, some, ◌≡◌, refl, sym, ◌∙◌, ap, ltb, leb,
  ◌==◌, ==_self, ==_iff, bytes_eq, bytes_eq_self, arith, Bool-cases, inl, inr,
}
use rice_http.RateLimit.{Quota, Shard, Store, sweep, start_from, charge, take_valid, unexpired}
use rice_http.RateLimit.Gcra.{gcra, later}

-- The arrival time of a key as a request at `t` sees it.
abbrev pub due : (Bytes → ℕ) → Store → Bytes → ℕ → ℕ
due hash s key t = start_from t ((s.shards (hash key % 64)).tat key)

start_from-unexpired :
    (now t : ℕ) (o : Option ℕ) → now ≤ t → start_from t (unexpired now o) ≡ start_from t o
start_from-unexpired now t none h = refl
start_from-unexpired now t (some tat) h = ground arith

start_from-sweep :
    (every now t : ℕ) (sh : Shard) (k : Bytes)
    → now ≤ t
    → start_from t ((sweep every now sh).tat k) ≡ start_from t (sh.tat k)
unfolding sweep
start_from-sweep every now t sh k h = elim (Bool-cases (leb every (now - sh.last_sweep))) [
  | inl late ↦ rw late (start_from-unexpired now t (sh.tat k) h)
  | inr early ↦ rw early refl
]

start_again :
    (now t : ℕ) (o : Option ℕ) → now ≤ t → start_from t (some (start_from now o)) ≡ start_from t o
start_again now t none h = ground arith
start_again now t (some tat) h = ground arith

pub later-start_from : (now : ℕ) (o : Option ℕ) → later now (start_from now o) ≡ start_from now o
later-start_from now none = ground arith
later-start_from now (some tat) = ground arith

-- In a shard: the answer is that of GCRA, and so is the arrival time afterwards.
charge_key :
    (q : Quota) (now t : ℕ) (key : Bytes) (sh : Shard)
    → now ≤ t
    → ((charge q now key sh).0 ≡ (gcra q now (start_from now (sh.tat key))).0)
      × (start_from t ((charge q now key sh).1.tat key)
          ≡ later t (gcra q now (start_from now (sh.tat key))).1)
unfolding charge gcra
charge_key q now t key sh h =
    rw (later-start_from now (sh.tat key))
      (elim (Bool-cases
        (ltb (now + q.burst * q.interval) (start_from now (sh.tat key) + q.interval))) [
          | inl short ↦ rw short (refl, sym (start_again now t (sh.tat key) h))
          | inr room ↦ rw (room, bytes_eq_self key) (refl, refl)
        ])

charge_other :
    (q : Quota) (now : ℕ) (key k : Bytes) (sh : Shard)
    → bytes_eq k key ≡ false
    → (charge q now key sh).1.tat k ≡ sh.tat k
unfolding charge
charge_other q now key k sh off =
    elim (Bool-cases
      (ltb (now + q.burst * q.interval) (start_from now (sh.tat key) + q.interval))) [
        | inl short ↦ rw short refl
        | inr room ↦ rw (room, off) refl
      ]

-- `Take` with a valid limit answers as GCRA on the arrival time of the key alone, and from then on the
-- key's arrival time is the one that GCRA leaves, and every other key's is as it was: a sweep and a
-- shared shard make no difference.
pub take-gcra :
    (hash : Bytes → ℕ) (every now t : ℕ) (key k : Bytes) (q : Quota) (s : Store)
    → now ≤ t
    → ((take_valid hash every now key q s).0 ≡ (gcra q now (due hash s key now)).0)
      × (due hash (take_valid hash every now key q s).1 key t
          ≡ later t (gcra q now (due hash s key now)).1)
      × (bytes_eq k key ≡ false
          → due hash (take_valid hash every now key q s).1 k t ≡ due hash s k t)
unfolding take_valid
take-gcra hash every now t key k q s h =
    let i = hash key % 64 in
    let (answer, arrival) = charge_key q now t key (sweep every now (s.shards i)) h in
    let swept = start_from-sweep every now now (s.shards i) key (omega arith) in
    (
      answer ∙ ap (λ d. (gcra q now d).0) swept,
      rw (==_self i) (arrival ∙ ap (λ d. later t (gcra q now d).1) swept),
      λ off. elim (Bool-cases (hash k % 64 == i)) [
        | inl same ↦
            let e : hash k % 64 ≡ i = (==_iff _ i).0 same in
            rw same (
              ap (start_from t) (charge_other q now key k (sweep every now (s.shards i)) off)
              ∙ start_from-sweep every now t (s.shards i) k h
              ∙ ap (λ j. start_from t ((s.shards j).tat k)) (sym e))
        | inr other ↦ rw other refl
      ],
    )
