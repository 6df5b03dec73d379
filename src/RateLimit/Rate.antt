-- ===== src/RateLimit/Rate.antt =====
-- middleware/memorystore.go: how many requests of a key Take admits in a window.
use rice_http.Prelude.{
  ℕ, suc, ◌+◌, ◌*◌, ◌≤◌, ◌%◌, List, [], ◌∷◌, Bytes, ◌&&◌, Option, none, some, ◌≡◌, ◌==◌, bytes_eq,
  bytes_eq_iff, bytes_eq_self, if◌then◌else◌, arith, Bool-cases, inl, inr,
}
use rice_http.RateLimit.{Quota, Store, take_valid, start_from}
use rice_http.RateLimit.Gcra.{gcra, later, gcra_step, gcra_cap, one_more}
use rice_http.RateLimit.Refines.{due, take-gcra, later-start_from}

-- Requests, each with its time and its key, that do not run back and end by `last`.
abbrev pub Within : ℕ → ℕ → List (ℕ × Bytes) → Type 0
Within first last [] = first ≤ last
Within first last ((t, key) ∷ rs) = (first ≤ t) × Within t last rs

start_from_mono : (s t : ℕ) (o : Option ℕ) → s ≤ t → start_from s o ≤ start_from t o
start_from_mono s t none h = h
start_from_mono s t (some tat) h = ground arith

start_from_cap :
    (s t B : ℕ) (o : Option ℕ) → s ≤ t → start_from s o ≤ s + B → start_from t o ≤ t + B
start_from_cap s t B none h k = omega arith
start_from_cap s t B (some tat) h k = ground arith

start_from_least : (t : ℕ) (o : Option ℕ) → t ≤ start_from t o
start_from_least t none = omega arith
start_from_least t (some tat) = ground arith

later_cap : (t d B : ℕ) → d ≤ t + B → later t d ≤ t + B
later_cap t d B h = ground arith

own_room :
    (q : Quota) (t d : ℕ)
    → later t d ≡ d
    → d + (if (gcra q t d).0 == 0 then q.interval else 0) ≤ later t (gcra q t d).1
own_room q t d e = let step = (gcra_step q t d).0 in omega arith

module _ (hash : Bytes → ℕ) (every : ℕ) (q : Quota) (k : Bytes) where
  -- How many of the requests are the key's and are admitted.
  unfoldable pub admitted : List (ℕ × Bytes) → Store → ℕ
  admitted [] s = 0
  admitted ((t, key) ∷ rs) s =
      let n = admitted rs (take_valid hash every t key q s).1 in
      if bytes_eq k key && (take_valid hash every t key q s).0 == 0 then suc n else n

  abbrev B : ℕ
  B = q.burst * q.interval

  -- A request of the key takes an interval out of the room, if it is admitted.
  own_request :
      (t : ℕ) (s : Store) (n c : ℕ)
      → due hash (take_valid hash every t k q s).1 k t + n * q.interval ≤ c
      → due hash s k t + (if (take_valid hash every t k q s).0 == 0 then suc n else n) * q.interval
        ≤ c
  own_request t s n c h =
      let (answer, arrival, off) = take-gcra hash every t t k k q s (omega arith) in
      one_more ((take_valid hash every t k q s).0 == 0) q.interval n _ _ _
        (rw answer
          (own_room q t (due hash s k t) (later-start_from t ((s.shards (hash k % 64)).tat k))))
        (rw arrival at h)

  own_cap :
      (t : ℕ) (s : Store)
      → due hash s k t ≤ t + B
      → due hash (take_valid hash every t k q s).1 k t ≤ t + B
  own_cap t s h =
      let (answer, arrival, off) = take-gcra hash every t t k k q s (omega arith) in
      rw arrival (later_cap t _ B (gcra_cap q t (due hash s k t) h))

  admitted_room :
      (rs : List (ℕ × Bytes)) (first last : ℕ) (s : Store)
      → Within first last rs
      → due hash s k first ≤ first + B
      → due hash s k first + admitted rs s * q.interval ≤ last + B
  unfolding admitted
  admitted_room [] first last s w h = omega arith
  admitted_room ((t, key) ∷ rs) first last s (ft, w) h =
      let o = (s.shards (hash k % 64)).tat k in
      let mono = start_from_mono first t o ft in
      let cap = start_from_cap first t B o ft h in
      elim (Bool-cases (bytes_eq k key)) [
        | inl own ↦
            let same = (bytes_eq_iff k key).0 own in
            let rest =
              admitted_room rs t last (take_valid hash every t k q s).1 w (own_cap t s cap) in
            let all =
              own_request t s (admitted rs (take_valid hash every t k q s).1) (last + B) rest in
            rw (← same, bytes_eq_self k) (omega arith)
        | inr other ↦
            let kept = (take-gcra hash every t t key k q s (omega arith)).2 other in
            let rest =
              admitted_room rs t last (take_valid hash every t key q s).1 w (rw kept cap) in
            let all : due hash s k t + admitted rs (take_valid hash every t key q s).1 * q.interval
                ≤ last + B =
              rw kept at rest in
            rw other (omega arith)
      ]

  -- In any window, whatever other keys are asked for and whenever the shards are swept: the requests
  -- of a key that are admitted, times the interval, are at most the burst, times the interval, and
  -- the length of the window, if the arrival time of the key at the start is at most the burst, times
  -- the interval, ahead.
  pub admitted_bounds :
      (rs : List (ℕ × Bytes)) (first last : ℕ) (s : Store)
      → Within first last rs
      → due hash s k first ≤ first + q.burst * q.interval
      → first + admitted rs s * q.interval ≤ last + q.burst * q.interval
  admitted_bounds rs first last s w h =
      let room = admitted_room rs first last s w h in
      let least = start_from_least first ((s.shards (hash k % 64)).tat k) in omega arith
