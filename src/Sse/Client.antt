-- ===== src/Sse/Client.antt =====
-- How a client reads an event stream, after the HTML standard's EventSource: bytes to lines, lines to
-- fields, fields to messages. A byte order mark in front is left out.
use rice_http.Prelude.{
  contains, ℕ, Bytes, codes, bytes_eq, Bool, true, false, ◌&&◌, Option, none, some, List, [], ◌∷◌,
  ◌++◌, ◌==◌, leb, if◌then◌else◌,
}

pub record Message : Type 0 where
  pub kind : Bytes
  pub data_text : Bytes
  pub last_id : Bytes

-- The buffers, the reconnection time as it was spelled, and the messages so far.
pub record Buffers : Type 0 where
  pub data_text : Bytes
  pub kind : Bytes
  pub last_id : Bytes
  pub retry : Option Bytes
  pub messages : List Message

pub record Client : Type 0 where
  pub line : Bytes
  pub after_return : Bool
  pub buffers : Buffers

abbrev pub or_message : Bytes → Bytes
or_message [] = codes "message"
or_message (c ∷ cs) = c ∷ cs

abbrev pub without_last : ℕ → Bytes → Bytes
without_last c [] = if c == 10 then [] else c ∷ []
without_last c (d ∷ ds) = c ∷ without_last d ds

-- The data without its last line feed; `none` when the buffer is empty.
abbrev pub trim : Bytes → Option Bytes
trim [] = none
trim (c ∷ cs) = some (without_last c cs)

abbrev pub emit : Option Bytes → Buffers → Buffers
emit none b = record b { data_text = []; kind = [] }
emit (some d) b = record b {
  data_text = [];
  kind = [];
  messages =
      b.messages ++ record { kind = or_message b.kind; data_text = d; last_id = b.last_id } ∷ [];
}

unfoldable pub cut_colon : Bytes → Bytes × Bytes
cut_colon [] = ([], [])
cut_colon (c ∷ cs) = let rest = cut_colon cs in if c == 58 then ([], cs) else (c ∷ rest.0, rest.1)

abbrev pub drop_space : Bytes → Bytes
drop_space [] = []
drop_space (c ∷ cs) = if c == 32 then cs else c ∷ cs

unfoldable pub all_digits : Bytes → Bool
all_digits [] = true
all_digits (c ∷ cs) = leb 48 c && leb c 57 && all_digits cs

unfoldable pub field : Bytes → Bytes → Buffers → Buffers
field name value b =
    if bytes_eq name (codes "event")
    then record b { kind = value }
    else if bytes_eq name (codes "data")
    then record b { data_text = b.data_text ++ (value ++ 10 ∷ []) }
    else if bytes_eq name (codes "id")
    then (if contains (λ c. c == 0) value then b else record b { last_id = value })
    else if bytes_eq name (codes "retry")
    then (if all_digits value then record b { retry = some value } else b)
    else b

-- A line of the stream: an empty one ends a message, one with a colon in front is a comment.
unfoldable pub process : Bytes → Buffers → Buffers
process [] b = emit (trim b.data_text) b
process (c ∷ cs) b =
    if c == 58 then b else field (cut_colon (c ∷ cs)).0 (drop_space (cut_colon (c ∷ cs)).1) b

abbrev pub end_line : Bool → Client → Client
end_line cr p = record { line = []; after_return = cr; buffers = process p.line p.buffers }

unfoldable pub read_byte : ℕ → Client → Client
read_byte c p =
    if c == 10
    then (if p.after_return then record p { after_return = false } else end_line false p)
    else if c == 13
    then end_line true p
    else record p { line = p.line ++ c ∷ []; after_return = false }

unfoldable pub read : Bytes → Client → Client
read [] p = p
read (c ∷ cs) p = read cs (read_byte c p)
