-- ===== src/Sse/Reading.antt =====
-- sse.go (`Send`), stream.go (`heartbeat`): what a client reads of a stream.
use rice_http.Prelude.{
  contains, ℕ, zero, suc, ◌≤◌, ◌<◌, Bytes, codes, bytes_eq, true, false, Option, none, some, List,
  [], ◌∷◌, ◌++◌, ◌≡◌, refl, sym, ◌∙◌, ap, ◌==◌, length, arith, append_assoc,
}
use rice_http.Sse.{
  Event, put_field, put_retry, put_data, cut_line, milliseconds, is_break, break_or_nul,
}
use rice_http.Sse.Client.{Message, Buffers, or_message, cut_colon, all_digits, field, process, read}
use rice_http.Sse.Lines.{
  normal, IsLine, Rest, cut_line-Rest, cut_line-IsLine, contains-IsLine, or_false, at, read_line,
}

-- A client between two messages.
pub record Reader : Type 0 where
  pub last_id : Bytes
  pub retry : Option Bytes
  pub messages : List Message

abbrev pub idle : Reader → Buffers
idle r = record {
  data_text = [];
  kind = [];
  last_id = r.last_id;
  retry = r.retry;
  messages = r.messages;
}

abbrev pub or_old : Bytes → Bytes → Bytes
or_old [] old = old
or_old (c ∷ cs) old = c ∷ cs

module _ (decimal : ℕ → Bytes) where
  abbrev pub new_retry : ℕ → Option Bytes → Option Bytes
  new_retry zero old = old
  new_retry (suc ms) old = some (decimal (suc ms))

  -- What an event is to the client.
  abbrev pub received : Event → Reader → Reader
  received ev r = record {
    last_id = or_old ev.id r.last_id;
    retry = new_retry (milliseconds ev.retry) r.retry;
    messages =
        r.messages
        ++ record {
          kind = or_message ev.event;
          data_text = normal false ev.data_text;
          last_id = or_old ev.id r.last_id;
        }
          ∷ [];
  }

no_nul : (s : Bytes) → contains break_or_nul s ≡ false → contains (λ c. c == 0) s ≡ false
unfolding contains
no_nul [] h = refl
no_nul (c ∷ cs) h =
    let (here, there) = or_false (break_or_nul c) (contains break_or_nul cs) h in
    let (plain, off) = or_false (is_break c) (c == 0) here in rw (off, no_nul cs there) refl

no_break : (s : Bytes) → contains break_or_nul s ≡ false → contains is_break s ≡ false
unfolding contains
no_break [] h = refl
no_break (c ∷ cs) h =
    let (here, there) = or_false (break_or_nul c) (contains break_or_nul cs) h in
    let (plain, off) = or_false (is_break c) (c == 0) here in rw (plain, no_break cs there) refl

all_digits-IsLine : (s : Bytes) → all_digits s ≡ true → IsLine s
unfolding all_digits
all_digits-IsLine [] h = tt
all_digits-IsLine (c ∷ cs) h = (ground arith, all_digits-IsLine cs (ground arith))

process_id :
    (v : Bytes) (b : Buffers)
    → contains (λ c. c == 0) v ≡ false
    → process (codes "id: " ++ v) b ≡ record b { last_id = v }
unfolding process cut_colon field bytes_eq
process_id v b h = rw h refl

process_event : (v : Bytes) (b : Buffers) → process (codes "event: " ++ v) b ≡ record b { kind = v }
unfolding process cut_colon field bytes_eq
process_event v b = refl

process_data :
    (v : Bytes) (b : Buffers)
    → process (codes "data: " ++ v) b ≡ record b { data_text = b.data_text ++ (v ++ 10 ∷ []) }
unfolding process cut_colon field bytes_eq
process_data v b = refl

process_retry :
    (v : Bytes) (b : Buffers)
    → all_digits v ≡ true
    → process (codes "retry: " ++ v) b ≡ record b { retry = some v }
unfolding process cut_colon field bytes_eq
process_retry v b h = rw h refl

pub read_id :
    (v later : Bytes) (b : Buffers)
    → contains break_or_nul v ≡ false
    → read (put_field (codes "id: ") v later) (at [] b)
      ≡ read later (at [] (record b { last_id = or_old v b.last_id }))
read_id [] later b h = refl
read_id (c ∷ cs) later b h =
    let line = contains-IsLine (c ∷ cs) (no_break (c ∷ cs) h) in
    read_line (codes "id: " ++ c ∷ cs) later b (refl, (refl, (refl, (refl, line))))
    ∙ ap (λ x. read later (at [] x)) (process_id (c ∷ cs) b (no_nul (c ∷ cs) h))

pub read_event :
    (v later : Bytes) (b : Buffers)
    → contains is_break v ≡ false
    → b.kind ≡ []
    → read (put_field (codes "event: ") v later) (at [] b)
      ≡ read later (at [] (record b { kind = v }))
read_event [] later b h e = ap (λ k. read later (at [] (record b { kind = k }))) e
read_event (c ∷ cs) later b h e =
    read_line (codes "event: " ++ c ∷ cs) later b
      (refl, (refl, (refl, (refl, (refl, (refl, (refl, contains-IsLine (c ∷ cs) h)))))))
    ∙ ap (λ x. read later (at [] x)) (process_event (c ∷ cs) b)

pub read_retry :
    (decimal : ℕ → Bytes) (ms : ℕ) (later : Bytes) (b : Buffers)
    → ((n : ℕ) → all_digits (decimal n) ≡ true)
    → read (put_retry decimal ms later) (at [] b)
      ≡ read later (at [] (record b { retry = new_retry decimal ms b.retry }))
read_retry decimal zero later b digits = refl
read_retry decimal (suc ms) later b digits =
    let d = decimal (suc ms) in
    read_line (codes "retry: " ++ d) later b
      (refl, (refl, (refl, (refl, (refl, (refl, (refl, all_digits-IsLine d (digits (suc ms)))))))))
    ∙ ap (λ x. read later (at [] x)) (process_retry d b (digits (suc ms)))

-- The data of an event in the buffer, with its last line feed.
abbrev pub with_data : Buffers → Bytes → Buffers
with_data b d = record b { data_text = b.data_text ++ (d ++ 10 ∷ []) }

put_data-none : (n : ℕ) (later : Bytes) → put_data n none later ≡ later
unfolding put_data
put_data-none zero later = refl
put_data-none (suc n) later = refl

joined : (a l r : Bytes) → (a ++ (l ++ 10 ∷ [])) ++ (r ++ 10 ∷ []) ≡ a ++ ((l ++ 10 ∷ r) ++ 10 ∷ [])
joined a l r =
    append_assoc a (l ++ 10 ∷ []) (r ++ 10 ∷ [])
    ∙ ap (λ t. a ++ t)
        (append_assoc l (10 ∷ []) (r ++ 10 ∷ []) ∙ sym (append_assoc l (10 ∷ r) (10 ∷ [])))

behind_cut :
    (n : ℕ) (d later : Bytes) (b : Buffers) (x : Bytes × Option Bytes)
    → Rest d x
    → length d ≤ n
    → ((r : Bytes) (c : Buffers)
        → length r < n
        → read (put_data n (some r) later) (at [] c)
          ≡ read later (at [] (with_data c (normal false r))))
    → read (put_data n x.1 later) (at [] (with_data b x.0))
      ≡ read later (at [] (with_data b (normal false d)))
behind_cut n d later b (l, none) e h f =
    ap (λ s. read s (at [] (with_data b l))) (put_data-none n later)
    ∙ ap (λ s. read later (at [] (with_data b s))) (sym e)
behind_cut n d later b (l, some r) (e, less) h f =
    f r (with_data b l) (omega arith)
    ∙ ap (λ s. read later (at [] (record b { data_text = s })))
        (joined b.data_text l (normal false r))
    ∙ ap (λ s. read later (at [] (with_data b s))) (sym e)

pub read_data :
    (n : ℕ) (d later : Bytes) (b : Buffers)
    → length d < n
    → read (put_data n (some d) later) (at [] b) ≡ read later (at [] (with_data b (normal false d)))
unfolding put_data
read_data zero d later b h = absurd (omega (arith, h))
read_data (suc n) d later b h =
    let (l, more) = cut_line d in
    read_line (codes "data: " ++ l) (put_data n more later) b
      (refl, (refl, (refl, (refl, (refl, (refl, cut_line-IsLine d))))))
    ∙ ap (λ x. read (put_data n more later) (at [] x)) (process_data l b)
    ∙ behind_cut n d later b (cut_line d) (cut_line-Rest d) (omega arith)
        (λ r c less. read_data n r later c less)
