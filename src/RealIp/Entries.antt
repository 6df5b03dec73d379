-- ===== src/RealIp/Entries.antt =====
-- middleware/realip.go (`resolve`): which entry of the forwarded lines is the client's.
use rice_http.Prelude.{
  ℕ, zero, suc, ◌+◌, ◌≤◌, ◌<◌, Bytes, Bool, true, false, Option, none, some, List, [], ◌∷◌, ◌++◌,
  ◌≡◌, refl, sym, ◌∙◌, ap, ◌==◌, ltb, length, get_elem?, arith, append-nil, append_assoc,
  Bool-cases, inl, inr, if◌then◌else◌,
}
use rice_http.RealIp.{
  Scan, decided, passed, cons_before, or_here, cut_last, last_entry, scan_line, go_on, scan_lines,
  answer, resolve, parse_entry,
}

-- The pieces of a line between its commas, from the left.
abbrev pub onto : ℕ → List Bytes → List Bytes
onto c [] = (c ∷ []) ∷ []
onto c (p ∷ ps) = (c ∷ p) ∷ ps

abbrev pub pieces : Bytes → List Bytes
pieces [] = [] ∷ []
pieces (c ∷ cs) = let rest = pieces cs in if c == 44 then [] ∷ rest else onto c rest

-- A line that begins with a comma has no entry in front of it.
abbrev pub drop_empty : List Bytes → List Bytes
drop_empty ([] ∷ ps) = ps
drop_empty ps = ps

abbrev pub backwards : List Bytes → List Bytes
backwards [] = []
backwards (p ∷ ps) = backwards ps ++ p ∷ []

-- The entries of a line, and of all lines, from the right.
abbrev pub entries : Bytes → List Bytes
entries line = backwards (drop_empty (pieces line))

abbrev pub all_entries : List Bytes → List Bytes
all_entries [] = []
all_entries (line ∷ lines) = all_entries lines ++ entries line

-- What a cut at the last comma makes of the pieces.
abbrev Cut : Bytes → Option (Bytes × Bytes) → Type 0
Cut line none = pieces line ≡ line ∷ []
Cut line (some (before, after)) =
    (pieces line ≡ pieces before ++ after ∷ []) × (length before < length line)

pieces-cons : (d : Bytes) → (p : Bytes) × (ps : List Bytes) × (pieces d ≡ p ∷ ps)
pieces-cons [] = ([], [], refl)
pieces-cons (c ∷ cs) =
    let (p, ps, e) = pieces-cons cs in
    elim (Bool-cases (c == 44)) [
      | inl comma ↦ ([], pieces cs, rw comma refl)
      | inr other ↦ (c ∷ p, ps, rw (other, e) refl)
    ]

onto-append :
    (c : ℕ) (d : Bytes) (p : Bytes) → onto c (pieces d ++ p ∷ []) ≡ onto c (pieces d) ++ p ∷ []
onto-append c d p = let (q, qs, e) = pieces-cons d in rw e refl

cut_last-Cut : (line : Bytes) → Cut line (cut_last 44 line)
unfolding cut_last
cut_last-Cut [] = refl
cut_last-Cut (c ∷ cs) = here (cut_last 44 cs) (cut_last-Cut cs)
  where
    alone : (b : Bool) → (c == 44) ≡ b → pieces cs ≡ cs ∷ [] → Cut (c ∷ cs) (or_here b cs none)
    alone true p e = (rw (p, e) refl, omega arith)
    alone false p e = rw (p, e) refl

    here :
        (x : Option (Bytes × Bytes))
        → Cut cs x
        → Cut (c ∷ cs) (or_here (c == 44) cs (cons_before c x))
    here none e = alone (c == 44) refl e
    here (some (before, after)) (e, h) = elim (Bool-cases (c == 44)) [
      | inl comma ↦ (rw (comma, e) refl, omega arith)
      | inr other ↦ (rw (other, e) (onto-append c before after), omega arith)
    ]

backwards-append : (xs : List Bytes) (p : Bytes) → backwards (xs ++ p ∷ []) ≡ p ∷ backwards xs
backwards-append [] p = refl
backwards-append (x ∷ xs) p = ap (λ t. t ++ x ∷ []) (backwards-append xs p)

drop_empty-append :
    (d p : Bytes) → drop_empty (pieces d ++ p ∷ []) ≡ drop_empty (pieces d) ++ p ∷ []
drop_empty-append d p = let (q, qs, e) = pieces-cons d in rw e (kept q qs)
  where
    kept :
        (q : Bytes) (qs : List Bytes)
        → drop_empty (q ∷ qs ++ p ∷ []) ≡ drop_empty (q ∷ qs) ++ p ∷ []
    kept [] qs = refl
    kept (c ∷ q) qs = refl

-- The last entry of a line, then those of what is in front of it.
entries-last :
    (c : ℕ) (cs : Bytes) (x : Option (Bytes × Bytes))
    → Cut (c ∷ cs) x
    → (entries (c ∷ cs) ≡ (last_entry (c ∷ cs) x).0 ∷ entries (last_entry (c ∷ cs) x).1)
      × (length (last_entry (c ∷ cs) x).1 < length (c ∷ cs))
entries-last c cs none e = (ap (λ ps. backwards (drop_empty ps)) e, omega arith)
entries-last c cs (some (before, after)) (e, h) = (
  ap (λ ps. backwards (drop_empty ps)) e
      ∙ ap backwards (drop_empty-append before after)
      ∙ backwards-append (drop_empty (pieces before)) after,
  h,
)

module _ {A : Type 0} (parse_ip : Bytes → Option A) where
  -- The entry that the hops end at, from some number of seen ones on.
  abbrev pick : ℕ → List Bytes → ℕ → Scan A
  pick hops [] seen = passed seen
  pick hops (e ∷ es) seen =
      let rest = pick hops es (suc seen) in
      if ltb (suc seen) hops then rest else decided (parse_entry parse_ip e)

  scan_line-pick :
      (hops fuel : ℕ) (line : Bytes) (seen : ℕ)
      → length line ≤ fuel
      → scan_line parse_ip hops fuel line seen ≡ pick hops (entries line) seen
  unfolding scan_line
  scan_line-pick hops fuel [] seen h = refl
  scan_line-pick hops zero (c ∷ cs) seen h = absurd (omega (arith, h))
  scan_line-pick hops (suc fuel) (c ∷ cs) seen h =
      let (e, shorter) = entries-last c cs (cut_last 44 (c ∷ cs)) (cut_last-Cut (c ∷ cs)) in
      let (entry, line) = last_entry (c ∷ cs) (cut_last 44 (c ∷ cs)) in
      ap (λ x. if ltb (suc seen) hops then x else decided (parse_entry parse_ip entry))
        (scan_line-pick hops fuel line (suc seen) (omega arith))
      ∙ ap (λ es. pick hops es seen) (sym e)

  pick-append :
      (hops : ℕ) (xs ys : List Bytes) (seen : ℕ)
      → pick hops (xs ++ ys) seen ≡ go_on (pick hops ys) (pick hops xs seen)
  pick-append hops [] ys seen = refl
  pick-append hops (x ∷ xs) ys seen = elim (Bool-cases (ltb (suc seen) hops)) [
    | inl more ↦ rw more (pick-append hops xs ys (suc seen))
    | inr last ↦ rw last refl
  ]

  gone_on :
      (hops : ℕ) (line : Bytes) (x : Scan A)
      → go_on (scan_line parse_ip hops (length line) line) x ≡ go_on (pick hops (entries line)) x
  gone_on hops line (decided x) = refl
  gone_on hops line (passed seen) = scan_line-pick hops (length line) line seen (omega arith)

  scan_lines-pick :
      (hops : ℕ) (lines : List Bytes)
      → scan_lines parse_ip hops lines ≡ pick hops (all_entries lines) 0
  unfolding scan_lines
  scan_lines-pick hops [] = refl
  scan_lines-pick hops (line ∷ lines) =
      ap (go_on (scan_line parse_ip hops (length line) line)) (scan_lines-pick hops lines)
      ∙ gone_on hops line (pick hops (all_entries lines) 0)
      ∙ sym (pick-append hops (all_entries lines) (entries line) 0)

  -- What is made of the entry that was chosen.
  abbrev pub chosen : Option Bytes → Option A
  chosen none = none
  chosen (some e) = parse_entry parse_ip e

  answer-pick :
      (hops : ℕ) (es : List Bytes) (seen k : ℕ)
      → hops ≡ suc (seen + k)
      → answer (pick hops es seen) ≡ chosen (get_elem? es k)
  answer-pick hops [] seen k h = refl
  answer-pick hops (e ∷ es) seen zero h =
      let last : ltb (suc seen) hops ≡ false = ground arith in rw last refl
  answer-pick hops (e ∷ es) seen (suc k) h =
      let more : ltb (suc seen) hops ≡ true = ground arith in
      rw more (answer-pick hops es (suc seen) k (omega arith))

  -- The address is that of one entry: with all lines in their order as one list of entries, the one
  -- that stands as many places from the right as there are trusted hops. It is parsed, and no other
  -- entry is looked at; with fewer entries there is no address.
  pub resolve-get_elem? :
      (lines : List Bytes) (n : ℕ)
      → resolve parse_ip lines (suc n) ≡ chosen (get_elem? (all_entries lines) n)
  unfolding resolve
  resolve-get_elem? lines n =
      ap answer (scan_lines-pick (suc n) lines)
      ∙ answer-pick (suc n) (all_entries lines) 0 n (omega arith)

all_entries-append :
    (xs ys : List Bytes) → all_entries (xs ++ ys) ≡ all_entries ys ++ all_entries xs
all_entries-append [] ys = sym (append-nil (all_entries ys))
all_entries-append (x ∷ xs) ys =
    ap (λ es. es ++ entries x) (all_entries-append xs ys)
    ∙ append_assoc (all_entries ys) (all_entries xs) (entries x)

get_elem?-left :
    (xs ys : List Bytes) (n : ℕ) → n < length xs → get_elem? (xs ++ ys) n ≡ get_elem? xs n
get_elem?-left [] ys n h = absurd (omega (arith, h))
get_elem?-left (x ∷ xs) ys zero h = refl
get_elem?-left (x ∷ xs) ys (suc n) h = get_elem?-left xs ys n (omega arith)

-- A client cannot choose its address: when the lines that the trusted proxies added hold an entry for
-- each of the hops, whatever lines stand in front of them changes nothing.
pub resolve-append :
    {A : Type 0} (parse_ip : Bytes → Option A) (forged lines : List Bytes) (n : ℕ)
    → n < length (all_entries lines)
    → resolve parse_ip (forged ++ lines) (suc n) ≡ resolve parse_ip lines (suc n)
resolve-append parse_ip forged lines n h =
    resolve-get_elem? parse_ip (forged ++ lines) n
    ∙ ap (chosen parse_ip) (
        ap (λ es. get_elem? es n) (all_entries-append forged lines)
        ∙ get_elem?-left (all_entries lines) (all_entries forged) n h)
    ∙ sym (resolve-get_elem? parse_ip lines n)
