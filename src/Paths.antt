-- ===== src/Paths.antt =====
-- What the code uses of Rust's `std::path` on Unix. A path is its components, as `PathBuf` compares them:
-- separators in a row, and a `.` behind the first component, do not count.
use mwc.Prelude.{
  Bool, true, false, not, ◌&&◌, ◌||◌, List, [], ◌∷◌, ◌++◌, Option, none, some, Bytes, bytes_eq,
  codes, if◌then◌else◌, split, filter, starts_with,
}

pub record PathBuf : Type 0 where
  pub absolute : Bool
  pub components : List Bytes

abbrev pub is_named : Bytes → Bool
is_named s = not (bytes_eq s [] || bytes_eq s (codes "."))

abbrev pub is_current : List Bytes → Bool
is_current (s ∷ ss) = bytes_eq s (codes ".")
is_current [] = false

-- A `.` is kept only in front of a path that does not begin at the root.
abbrev pub parse : Bytes → PathBuf
parse s =
    let absolute = starts_with (codes "/") s in
    let words = split 47 s in
    record {
      absolute = absolute;
      components =
          if not absolute && is_current words
          then codes "." ∷ filter is_named words
          else filter is_named words;
    }

abbrev pub empty : PathBuf
empty = record { absolute = false; components = [] }

abbrev pub push_onto : Bool → List Bytes → PathBuf → PathBuf
push_onto true [] q = record { absolute = true; components = filter is_named q.components }
push_onto false [] q = q
push_onto absolute (w ∷ ws) q = record {
  absolute = absolute;
  components = (w ∷ ws) ++ filter is_named q.components;
}

-- `push`
abbrev pub push : PathBuf → PathBuf → PathBuf
push p q = if q.absolute then q else push_onto p.absolute p.components q

-- All components but the last, and the last.
abbrev pub unsnoc : List Bytes → Option (List Bytes × Bytes)
unsnoc [] = none
unsnoc (w ∷ []) = some ([], w)
unsnoc (w ∷ v ∷ ws) = elim (unsnoc (v ∷ ws)) [ none ↦ none | some r ↦ some (w ∷ r.0, r.1) ]

abbrev pub parent_of : Bool → Option (List Bytes × Bytes) → Option PathBuf
parent_of absolute none = none
parent_of absolute (some r) = some (record { absolute = absolute; components = r.0 })

-- `parent`
abbrev pub parent : PathBuf → Option PathBuf
parent p = parent_of p.absolute (unsnoc p.components)

abbrev pub name_of : Option (List Bytes × Bytes) → Option Bytes
name_of none = none
name_of (some r) = if bytes_eq r.1 (codes "..") || bytes_eq r.1 (codes ".") then none else some r.1

-- `file_name`
abbrev pub file_name : PathBuf → Option Bytes
file_name p = name_of (unsnoc p.components)

abbrev pub or_self : PathBuf → Option PathBuf → PathBuf
or_self p none = p
or_self p (some q) = q

-- `pop`
abbrev pub pop : PathBuf → PathBuf
pop p = or_self p (parent p)
