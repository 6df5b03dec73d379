-- ===== src/RealIp.antt =====
-- middleware/realip.go: the client's address behind trusted proxies. net.ParseIP is an argument.
pub mod Entries
mod Tests
use rice_http.Prelude.{
  ℕ, zero, suc, ◌+◌, ◌-◌, ◌*◌, Bytes, Bool, true, false, not, ◌&&◌, ◌||◌, Option, none, some, List,
  [], ◌∷◌, ◌++◌, ◌==◌, leb, ltb, length, if◌then◌else◌, ℤ, pos, negsuc,
}
use rice_http.Accept.{cut_at, trim_ows}

-- What the loops over the lines come to: an answer, or the number of entries seen so far.
pub data Scan (A : Type 0) : Type 0 where
  decided : Option A → Scan A
  passed : ℕ → Scan A

abbrev pub cons_before : ℕ → Option (Bytes × Bytes) → Option (Bytes × Bytes)
cons_before c none = none
cons_before c (some (before, after)) = some (c ∷ before, after)

abbrev pub or_here : Bool → Bytes → Option (Bytes × Bytes) → Option (Bytes × Bytes)
or_here here cs (some x) = some x
or_here true cs none = some ([], cs)
or_here false cs none = none

-- `bytes.LastIndexByte`: what is before the byte, and behind it.
unfoldable pub cut_last : ℕ → Bytes → Option (Bytes × Bytes)
cut_last b [] = none
cut_last b (c ∷ cs) = or_here (c == b) cs (cons_before c (cut_last b cs))

-- The number that the digits spell, if they are digits.
unfoldable pub port_from : ℕ → Bytes → Option ℕ
port_from n [] = some n
port_from n (b ∷ p) =
    let rest = port_from (n * 10 + (b - 48)) p in if ltb b 48 || ltb 57 b then none else rest

abbrev pub in_range : Option ℕ → Bool
in_range none = false
in_range (some n) = leb 1 n && leb n 65535

unfoldable pub valid_port : Bytes → Bool
valid_port p = if length p == 0 || ltb 5 (length p) then false else in_range (port_from 0 p)

unfoldable pub valid_port_suffix : Bytes → Bool
valid_port_suffix [] = true
valid_port_suffix (c ∷ p) = c == 58 && valid_port p

-- A round of the loop over a line: its last entry, and the line in front of it.
abbrev pub last_entry : Bytes → Option (Bytes × Bytes) → Bytes × Bytes
last_entry line none = (line, [])
last_entry line (some (before, after)) = (after, before)

abbrev pub go_on : {A : Type 0} → (ℕ → Scan A) → Scan A → Scan A
go_on k (decided x) = decided x
go_on k (passed seen) = k seen

abbrev pub answer : {A : Type 0} → Scan A → Option A
answer (decided x) = x
answer (passed seen) = none

module _ {A : Type 0} (parse_ip : Bytes → Option A) where
  -- Behind a '[': up to the ']', which has a port behind it or nothing.
  abbrev pub bracketed : Option (Bytes × Bytes) → Option A
  bracketed none = none
  bracketed (some (host, rest)) =
      if valid_port_suffix rest then with_colon host (cut_at 58 host) else none
    where
      with_colon : Bytes → Option (Bytes × Bytes) → Option A
      with_colon host none = none
      with_colon host (some x) = parse_ip host

  -- An entry with its first colon: a port behind it, if it is the only one.
  abbrev pub with_port : Bytes → Option (Bytes × Bytes) → Option A
  with_port entry none = parse_ip entry
  with_port entry (some (host, rest)) = only_colon (cut_at 58 rest)
    where
      only_colon : Option (Bytes × Bytes) → Option A
      only_colon none = if valid_port rest then parse_ip host else none
      only_colon (some x) = parse_ip entry

  abbrev pub parse_trimmed : Bytes → Option A
  parse_trimmed [] = with_port [] (cut_at 58 [])
  parse_trimmed (c ∷ cs) =
      if c == 91 then bracketed (cut_at 93 cs) else with_port (c ∷ cs) (cut_at 58 (c ∷ cs))

  unfoldable pub parse_entry : Bytes → Option A
  parse_entry entry = parse_trimmed (trim_ows entry)

  -- The loop over a line, on fuel, since each round leaves a shorter line.
  unfoldable pub scan_line : ℕ → ℕ → Bytes → ℕ → Scan A
  scan_line hops fuel [] seen = passed seen
  scan_line hops zero (c ∷ cs) seen = passed seen
  scan_line hops (suc fuel) (c ∷ cs) seen =
      let (entry, line) = last_entry (c ∷ cs) (cut_last 44 (c ∷ cs)) in
      let rest = scan_line hops fuel line (suc seen) in
      if ltb (suc seen) hops then rest else decided (parse_entry entry)

  -- The loop over the lines, the last one first.
  unfoldable pub scan_lines : ℕ → List Bytes → Scan A
  scan_lines hops [] = passed 0
  scan_lines hops (line ∷ lines) = go_on (scan_line hops (length line) line) (scan_lines hops lines)

  unfoldable pub resolve : List Bytes → ℕ → Option A
  resolve lines hops = answer (scan_lines hops lines)

  -- `RealIP`: what its handler sets as the remote address; it panics for no hop.
  unfoldable pub real_ip : ℤ → Option (List Bytes → Option A)
  real_ip (pos zero) = none
  real_ip (pos (suc n)) = some (λ lines. resolve lines (suc n))
  real_ip (negsuc n) = none
