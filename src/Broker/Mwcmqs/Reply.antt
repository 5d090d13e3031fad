-- ===== src/Broker/Mwcmqs/Reply.antt =====
-- How `subscribe` of src/broker/mwcmq.rs takes an answer of the server apart.
use mwc.Prelude.{
  ℕ, suc, Bool, true, false, List, [], ◌∷◌, ◌++◌, Option, none, some, Bytes, codes, bytes_eq, take,
  drop, get_elem?, if◌then◌else◌, split, find, starts_with, contains,
}

-- The messages of an answer, the id up to which the server may delete, and whether a line was bad.
pub record Listing : Type 0 where
  pub texts : List Bytes
  pub last_id : Option Bytes
  pub failed : Bool

pub data Reading : Type 0 where
  messages : Listing → Reading
  nginx closed ours unknown : Reading

abbrev pub after_space : Bytes → Bytes
after_space s = elim (find b' ' s) [ none ↦ s | some start ↦ drop (suc start) s ]

-- The message behind the `;` at an index of a text, and the id in front of it.
abbrev pub add_text : Listing → Bytes → ℕ → Listing
add_text l text index = record l {
  texts = l.texts ++ drop (suc index) text ∷ [];
  last_id = some (after_space (take index text));
}

-- The second word of a line, with the index of its `;`; `again` reads the lines behind it.
abbrev pub on_index : (Listing → Listing) → Listing → Bytes → Option ℕ → Listing
on_index again l text (some index) = again (add_text l text index)
on_index again l text none =
    if bytes_eq text (codes "closenewlogin") then l else again (record l { failed = true })

abbrev pub on_word : (Listing → Listing) → Listing → Option Bytes → Listing
on_word again l none = again l
on_word again l (some text) = on_index again l text (find b';' text)

-- `for i in 1..lines.len()`
unfoldable pub read_lines : List Bytes → Listing → Listing
read_lines [] l = l
read_lines (line ∷ lines) l = on_word (read_lines lines) l (get_elem? (split b' ' line) 1)

abbrev pub nothing_read : Listing
nothing_read = record { texts = []; last_id = none; failed = false }

-- An answer with one message, or with none
abbrev pub read_single : Bytes → Reading
read_single resp_str = elim (find b';' resp_str) [
  | some index ↦ messages (add_text nothing_read resp_str index)
  | none ↦
      if contains (codes "nginx") resp_str
      then nginx
      else if bytes_eq resp_str (codes "message: closenewlogin\n")
      then closed
      else if bytes_eq resp_str (codes "message: mapmessage=nil")
      then ours
      else unknown
]

unfoldable pub read_reply : Bytes → Reading
unfolding read_lines
read_reply resp_str =
    if starts_with (codes "messagelist: ") resp_str
    then messages (read_lines (drop 1 (split b'\n' resp_str)) nothing_read)
    else read_single resp_str
