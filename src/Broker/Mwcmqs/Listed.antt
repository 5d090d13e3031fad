-- ===== src/Broker/Mwcmqs/Listed.antt =====
-- A list of messages, as the server sends it, is taken apart into its messages
-- (src/broker/mwcmq.rs).
use mwc.Prelude.{
  ℕ, suc, ◌≡◌, refl, ap, ◌∙◌, false, List, [], ◌∷◌, ◌++◌, append_assoc, append-nil, map, Option,
  none, some, Bytes, codes, length, drop, take_front, All, All-append, get_elem?, split, Without,
  split_front, split_none, find_front, find_absent, absent-Without,
}
use mwc.Broker.Mwcmqs.Reply.{
  Listing, messages, after_space, add_text, nothing_read, on_index, on_word, read_lines, read_reply,
}

-- A message with its id.
pub record Entry : Type 0 where
  pub id : Bytes
  pub text : Bytes

pub record IsClean (e : Entry) : Type 0 where
  pub id_semicolon : Without b';' e.id
  pub id_space : Without b' ' e.id
  pub id_newline : Without b'\n' e.id
  pub text_space : Without b' ' e.text
  pub text_newline : Without b'\n' e.text

abbrev pub word : Entry → Bytes
word e = e.id ++ b';' ∷ e.text

abbrev pub line : Entry → Bytes
line e = codes "message: " ++ word e

-- Each message on a line of its own.
abbrev pub print_lines : List Entry → Bytes
print_lines [] = []
print_lines (e ∷ es) = b'\n' ∷ (line e ++ print_lines es)

abbrev pub last_id_of : List Entry → Option Bytes → Option Bytes
last_id_of [] id = id
last_id_of (e ∷ es) id = last_id_of es (some e.id)

abbrev pub texts_of : List Entry → List Bytes
texts_of [] = []
texts_of (e ∷ es) = e.text ∷ texts_of es

drop_behind : (xs : Bytes) (y : ℕ) (ys : Bytes) → drop (suc (length xs)) (xs ++ y ∷ ys) ≡ ys
drop_behind [] y ys = refl
drop_behind (x ∷ xs) y ys = drop_behind xs y ys

split_word : (e : Entry) → IsClean e → split b' ' (line e) ≡ codes "message:" ∷ word e ∷ []
split_word e h =
    ap (λ (ws : List Bytes). codes "message:" ∷ ws)
      (split_none b' ' (word e) (
        All-append _ e.id (b';' ∷ e.text) h.id_space
          ((absent-Without b' ' (b';' ∷ []) refl).0, h.text_space)))

after_space_none : (s : Bytes) → Without b' ' s → after_space s ≡ s
after_space_none s h = rw (after_space, find_absent b' ' s h) refl

add_text_lem :
    (e : Entry) (l : Listing)
    → IsClean e
    → add_text l (word e) (length e.id)
      ≡ record l { texts = l.texts ++ e.text ∷ []; last_id = some e.id }
add_text_lem e l h =
    rw
      (
        drop_behind e.id b';' e.text,
        take_front e.id (b';' ∷ e.text),
        after_space_none e.id h.id_space,
      )
      refl

read_lines-lines :
    (es : List Entry) (l : Listing)
    → All IsClean es
    → read_lines (map line es) l
      ≡ record l { texts = l.texts ++ texts_of es; last_id = last_id_of es l.last_id }
unfolding read_lines
read_lines-lines [] l h = rw (append-nil l.texts) refl
read_lines-lines (e ∷ es) l h =
    ap (λ (ws : List Bytes). on_word (read_lines (map line es)) l (get_elem? ws 1))
      (split_word e h.0)
    ∙ ap (on_index (read_lines (map line es)) l (word e))
        (find_front b';' e.id e.text h.0.id_semicolon)
    ∙ ap (read_lines (map line es)) (add_text_lem e l h.0)
    ∙ read_lines-lines es (record l { texts = l.texts ++ e.text ∷ []; last_id = some e.id }) h.1
    ∙ ap (λ (texts : List Bytes). record l { texts = texts; last_id = last_id_of es (some e.id) })
        (append_assoc l.texts (e.text ∷ []) (texts_of es))

-- No newline in a line.
line-Without : (e : Entry) → IsClean e → Without b'\n' (line e)
line-Without e h =
    All-append _ (codes "message: ") (word e) (absent-Without b'\n' (codes "message: ") refl) (
      All-append _ e.id (b';' ∷ e.text) h.id_newline
        ((absent-Without b'\n' (b';' ∷ []) refl).0, h.text_newline))

split-lines :
    (s : Bytes) (es : List Entry)
    → Without b'\n' s
    → All IsClean es
    → split b'\n' (s ++ print_lines es) ≡ s ∷ map line es
split-lines s [] hs h = rw (append-nil s) (split_none b'\n' s hs)
split-lines s (e ∷ es) hs h =
    split_front b'\n' s (line e ++ print_lines es) hs
    ∙ ap (λ (ws : List Bytes). s ∷ ws) (split-lines (line e) es (line-Without e h.0) h.1)

-- Messages whose ids have no semicolon, and which have no spaces or newlines, are read from the list
-- that the server sends, in their order, and the server may delete up to the last one.
pub read_reply-print_lines :
    (head : Bytes) (es : List Entry)
    → Without b'\n' head
    → All IsClean es
    → read_reply (codes "messagelist: " ++ (head ++ print_lines es))
      ≡ messages (record { texts = texts_of es; last_id = last_id_of es none; failed = false })
unfolding read_reply
read_reply-print_lines head es hh h =
    rw
      (
        split-lines (codes "messagelist: " ++ head) es
            (All-append _ (codes "messagelist: ") head
              (absent-Without b'\n' (codes "messagelist: ") refl) hh)
            h,
        read_lines-lines es nothing_read h,
      )
      refl
