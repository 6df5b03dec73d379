-- ===== src/Sse/Lines.antt =====
-- sse.go: the lines of an event's data, and one line as a client reads it.
use rice_http.Prelude.{
  contains, ℕ, ◌≤◌, ◌<◌, Bytes, Bool, true, false, ◌||◌, Option, none, some, [], ◌∷◌, ◌++◌, ◌≡◌,
  refl, sym, ◌∙◌, ap, ◌==◌, length, All, arith, append-nil, append_assoc, Bool-cases, inl, inr,
  if◌then◌else◌,
}
use rice_http.Sse.{is_break, skip_feed, cut_line}
use rice_http.Sse.Client.{Buffers, Client, process, read_byte, read}

-- The data with each line break, of whatever kind, as one line feed.
abbrev pub normal : Bool → Bytes → Bytes
normal after_return [] = []
normal after_return (c ∷ cs) =
    let plain = normal false cs in
    let behind = normal true cs in
    if c == 10
    then (if after_return then plain else 10 ∷ plain)
    else if c == 13
    then 10 ∷ behind
    else c ∷ plain

abbrev pub IsLine : Bytes → Type 0
IsLine l = All (λ c. is_break c ≡ false) l

-- What a cut makes of the data.
abbrev pub Rest : Bytes → Bytes × Option Bytes → Type 0
Rest d (l, none) = normal false d ≡ l
Rest d (l, some r) = (normal false d ≡ l ++ 10 ∷ normal false r) × (length r < length d)

normal_skip : (cs : Bytes) → normal true cs ≡ normal false (skip_feed cs)
normal_skip [] = refl
normal_skip (c ∷ cs) = elim (Bool-cases (c == 10)) [
  | inl feed ↦ rw feed refl
  | inr other ↦ rw (other, other) refl
]

skip_le : (cs : Bytes) → length (skip_feed cs) ≤ length cs
skip_le [] = omega arith
skip_le (c ∷ cs) = ground arith

grown :
    (c : ℕ) (d : Bytes) (x : Bytes × Option Bytes)
    → (c == 10) ≡ false
    → (c == 13) ≡ false
    → Rest d x
    → Rest (c ∷ d) (c ∷ x.0, x.1)
grown c d (l, none) p q e = rw (p, q) (ap (λ t. c ∷ t) e)
grown c d (l, some r) p q (e, h) = (rw (p, q) (ap (λ t. c ∷ t) e), omega (arith, h))

pub cut_line-Rest : (d : Bytes) → Rest d (cut_line d)
unfolding cut_line
cut_line-Rest [] = refl
cut_line-Rest (c ∷ cs) = elim (Bool-cases (c == 13)) [
  | inl cr ↦
      let off : (c == 10) ≡ false = ground arith in
      rw cr (rw (off, cr) (ap (λ t. 10 ∷ t) (normal_skip cs)), omega (arith, skip_le cs))
  | inr not_cr ↦ elim (Bool-cases (c == 10)) [
    | inl feed ↦ rw (not_cr, feed) (rw feed refl, omega arith)
    | inr other ↦ rw (not_cr, other) (grown c cs (cut_line cs) other not_cr (cut_line-Rest cs))
  ]
]

pub cut_line-IsLine : (d : Bytes) → IsLine (cut_line d).0
unfolding cut_line
cut_line-IsLine [] = tt
cut_line-IsLine (c ∷ cs) = elim (Bool-cases (c == 13)) [
  | inl cr ↦ rw cr tt
  | inr not_cr ↦ elim (Bool-cases (c == 10)) [
    | inl feed ↦ rw (not_cr, feed) tt
    | inr other ↦ rw (not_cr, other) (rw (other, not_cr) refl, cut_line-IsLine cs)
  ]
]

pub or_false : (a b : Bool) → (a || b) ≡ false → (a ≡ false) × (b ≡ false)
or_false true b h = cc
or_false false b h = (refl, h)

pub contains-IsLine : (s : Bytes) → contains is_break s ≡ false → IsLine s
unfolding contains
contains-IsLine [] h = tt
contains-IsLine (c ∷ cs) h =
    let (here, there) = or_false (is_break c) (contains is_break cs) h in
    (here, contains-IsLine cs there)

abbrev pub at : Bytes → Buffers → Client
at line b = record { line = line; after_return = false; buffers = b }

pub read-append : (xs ys : Bytes) (p : Client) → read (xs ++ ys) p ≡ read ys (read xs p)
unfolding read
read-append [] ys p = refl
read-append (x ∷ xs) ys p = read-append xs ys (read_byte x p)

plain_byte :
    (c : ℕ) (line : Bytes) (b : Buffers)
    → (c == 10) ≡ false
    → (c == 13) ≡ false
    → read_byte c (at line b) ≡ at (line ++ c ∷ []) b
unfolding read_byte
plain_byte c line b p q = rw (p, q) refl

-- A line with its feed, behind what was read of it.
read_rest :
    (l later line : Bytes) (b : Buffers)
    → IsLine l
    → read (l ++ 10 ∷ later) (at line b) ≡ read later (at [] (process (line ++ l) b))
unfolding read read_byte
read_rest [] later line b h = ap (λ s. read later (at [] (process s b))) (sym (append-nil line))
read_rest (c ∷ l) later line b (h, hs) =
    let (not_feed, not_cr) = or_false (c == 10) (c == 13) h in
    ap (read (l ++ 10 ∷ later)) (plain_byte c line b not_feed not_cr)
    ∙ read_rest l later (line ++ c ∷ []) b hs
    ∙ ap (λ s. read later (at [] (process s b))) (append_assoc line (c ∷ []) l)

pub read_line :
    (l later : Bytes) (b : Buffers)
    → IsLine l
    → read (l ++ 10 ∷ later) (at [] b) ≡ read later (at [] (process l b))
read_line l later b h = read_rest l later [] b h
