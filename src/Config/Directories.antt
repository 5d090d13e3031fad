-- ===== src/Config/Directories.antt =====
-- The two directories that the wallet library is given (src/common/config.rs).
use mwc.Prelude.{
  ==_ne, ℕ, ◌≡◌, ◌≢◌, refl, ap, sym, ◌∙◌, inl, inr, Bool, true, false, not, ◌&&◌, ◌||◌, List, [],
  ◌∷◌, ◌++◌, Option, none, some, Bool-cases, Option-cases, Bytes, bytes_eq, codes, if◌then◌else◌,
  split, push_front, filter, starts_with, strip_prefix, Without, split_none, absent-Without, All,
  All-append, Outcome, ok, unwrap_ok, ◌==◌, arith,
}
use mwc.ErrorKind.{Error}
use mwc.Paths.{
  PathBuf, parse, push, push_onto, pop, parent, file_name, unsnoc, is_named, is_current,
}
use mwc.Contacts.Address.{unwrap_or}
use mwc.Config.{
  Wallet713Config, get_data_path, get_top_level_directory, get_wallet_data_directory,
  wallet713_default_config_filename,
}

-- No separator stands in a component, and none is empty.
abbrev pub IsPart : Bytes → Type 0
IsPart s = Without 47 s × (bytes_eq s [] ≡ false)

abbrev Parts : List Bytes → Type 0
Parts ws = All IsPart ws

push_front-Without :
    (c : ℕ) (ws : List Bytes) → c ≢ 47 → All (Without 47) ws → All (Without 47) (push_front c ws)
push_front-Without c [] h k = ((h, tt), tt)
push_front-Without c (w ∷ ws) h k = ((h, k.0), k.1)

split-Without : (s : Bytes) → All (Without 47) (split 47 s)
split-Without [] = (tt, tt)
split-Without (c ∷ s) = elim (Bool-cases (c == 47)) [
  | inl e ↦ rw e (tt, split-Without s)
  | inr e ↦ rw e (push_front-Without c (split 47 s) (λ h. ground arith) (split-Without s))
]

filter-Parts : (ws : List Bytes) → All (Without 47) ws → Parts (filter is_named ws)
filter-Parts [] h = tt
filter-Parts (w ∷ ws) h = elim (Bool-cases (bytes_eq w [])) [
  | inl e ↦ rw e (filter-Parts ws h.1)
  | inr e ↦ elim (Bool-cases (bytes_eq w (codes "."))) [
    | inl f ↦ rw (e, f) (filter-Parts ws h.1)
    | inr f ↦ rw (e, f) ((h.0, e), filter-Parts ws h.1)
  ]
]

Parts-Without : (ws : List Bytes) → Parts ws → All (Without 47) ws
Parts-Without [] h = tt
Parts-Without (w ∷ ws) h = (h.0.0, Parts-Without ws h.1)

dot-IsPart : IsPart (codes ".")
dot-IsPart = (absent-Without 47 (codes ".") refl, refl)

parse-Parts : (s : Bytes) → Parts (parse s).components
parse-Parts s = elim (Bool-cases (not (starts_with (codes "/") s) && is_current (split 47 s))) [
  | inl e ↦ rw e (dot-IsPart, filter-Parts (split 47 s) (split-Without s))
  | inr e ↦ rw e (filter-Parts (split 47 s) (split-Without s))
]

push_onto-Parts :
    (absolute : Bool) (ws : List Bytes) (q : PathBuf)
    → Parts ws
    → Parts q.components
    → Parts (push_onto absolute ws q).components
push_onto-Parts true [] q hp hq = filter-Parts q.components (Parts-Without q.components hq)
push_onto-Parts false [] q hp hq = hq
push_onto-Parts absolute (w ∷ ws) q hp hq =
    All-append IsPart (w ∷ ws) (filter is_named q.components) hp
      (filter-Parts q.components (Parts-Without q.components hq))

push-Parts : (p q : PathBuf) → Parts p.components → Parts q.components → Parts (push p q).components
push-Parts p q hp hq = elim (Bool-cases q.absolute) [
  | inl e ↦ rw e hq
  | inr e ↦ simp (e) (push_onto-Parts p.absolute p.components q hp hq)
]

abbrev pair : List Bytes → Bytes → Option (List Bytes × Bytes)
pair ws w = some (ws, w)

pair_eq : {ws vs : List Bytes} {w v : Bytes} → pair ws w ≡ pair vs v → (ws ≡ vs) × (w ≡ v)
pair_eq h = (cc, cc)

unsnoc-append :
    (ws : List Bytes) {front : List Bytes} {last : Bytes}
    → unsnoc ws ≡ pair front last
    → ws ≡ front ++ last ∷ []
unsnoc-append [] h = cc
unsnoc-append (w ∷ []) h = cc
unsnoc-append (w ∷ v ∷ ws) {front} {last} h = elim (Option-cases (unsnoc (v ∷ ws))) [
  | inl e ↦ let h' = rw e at h in cc
  | inr ((fs, l), e) ↦
      let (e1, e2) = pair_eq (rw e at h) in ap (λ t. w ∷ t) (unsnoc-append (v ∷ ws) e) ∙ (cc)
]

All-front : (ws vs : List Bytes) → Parts (ws ++ vs) → Parts ws
All-front [] vs h = tt
All-front (w ∷ ws) vs h = (h.0, All-front ws vs h.1)

All-back : (ws vs : List Bytes) → Parts (ws ++ vs) → Parts vs
All-back [] vs h = h
All-back (w ∷ ws) vs h = All-back ws vs h.1

pop-Parts : (p : PathBuf) → Parts p.components → Parts (pop p).components
pop-Parts p h = elim (Option-cases (unsnoc p.components)) [
  | inl e ↦ rw e h
  | inr ((front, last), e) ↦ rw e (All-front front _ (rw (unsnoc-append p.components e) at h))
]

get_data_path-Parts :
    {SecretKey : Type 0} (config : Wallet713Config SecretKey)
    → Parts (get_data_path config).components
unfolding get_data_path
get_data_path-Parts config =
    let home = parse (unwrap_or config.config_home wallet713_default_config_filename) in
    elim (Bool-cases (parse config.wallet713_data_path).absolute) [
      | inl e ↦ rw e (parse-Parts config.wallet713_data_path)
      | inr e ↦ rw e (
          push-Parts (pop home) (parse config.wallet713_data_path)
            (pop-Parts home
              (parse-Parts (unwrap_or config.config_home wallet713_default_config_filename)))
            (parse-Parts config.wallet713_data_path))
    ]

-- A name is read as the path of that name.
rootless : (f : Bytes) → Without 47 f → starts_with (codes "/") f ≡ false
rootless [] h = refl
rootless (c ∷ f) h = simp (starts_with, strip_prefix, ==_ne 47 c (λ e. h.0 (sym e))) refl

abbrev named_path : Bool → List Bytes → PathBuf
named_path absolute ws = record { absolute = absolute; components = ws }

pub parse_name :
    (f : Bytes)
    → IsPart f
    → bytes_eq f (codes ".") ≡ false
    → parse f ≡ record { absolute = false; components = f ∷ [] }
parse_name f h named = rw (rootless f h.0, split_none 47 f h.0, named, h.1) refl

pub push_name :
    (absolute : Bool) (ws : List Bytes) (f : Bytes)
    → is_named f ≡ true
    → push_onto absolute ws (record { absolute = false; components = f ∷ [] })
      ≡ record { absolute = absolute; components = ws ++ f ∷ [] }
push_name true [] f h = rw h refl
push_name false [] f h = refl
push_name absolute (w ∷ ws) f h = rw h refl

join_name :
    (p : PathBuf) (front : List Bytes) (f : Bytes)
    → p.components ≡ front ++ f ∷ []
    → IsPart f
    → bytes_eq f (codes ".") ≡ false
    → push (record { absolute = p.absolute; components = front }) (parse f) ≡ p
join_name p front f whole part named =
    let is : is_named f ≡ true = rw (part.1, named) refl in
    let front_path : PathBuf = record { absolute = p.absolute; components = front } in
    ap (λ q. push front_path q) (parse_name f part named)
    ∙ push_name p.absolute front f is
    ∙ ap (λ (ws : List Bytes). named_path p.absolute ws) (sym whole)

abbrev ok_path : PathBuf → Outcome Error PathBuf
ok_path p = ok p

abbrev ok_name : Bytes → Outcome Error Bytes
ok_name s = ok s

abbrev some_name : Bytes → Option Bytes
some_name s = some s

name_of-some :
    (last : Bytes) {f : Bytes}
    → (if bytes_eq last (codes "..") || bytes_eq last (codes ".") then none else some last)
      ≡ some_name f
    → (last ≡ f) × (bytes_eq last (codes ".") ≡ false)
name_of-some last h = ground arith

abbrev some_path : PathBuf → Option PathBuf
some_path p = some p

same_path : {p q : PathBuf} → some_path p ≡ some_path q → p ≡ q
same_path h = cc

split_path :
    (p : PathBuf) {d : PathBuf} {f : Bytes}
    → Parts p.components
    → parent p ≡ some d
    → file_name p ≡ some f
    → push d (parse f) ≡ p
split_path p {d} {f} parts up name = elim (Option-cases (unsnoc p.components)) [
  | inl e ↦ let h' = rw e at up in cc
  | inr ((front, last), e) ↦
      let (same, named) = name_of-some last (rw e at name) in
      let whole = unsnoc-append p.components e in
      let part = (All-back front (last ∷ []) (rw whole at parts)).0 in
      let d_is = same_path (rw e at up) in
      rw (← d_is, ← same) (join_name p front last whole part named)
]

-- The wallet library is given the data path in two parts: the name, read as a path and pushed to the
-- top level directory, gives the data path back.
pub get_wallet_data_directory-get_top_level_directory :
    {SecretKey : Type 0} (config : Wallet713Config SecretKey) {d : PathBuf} {f : Bytes}
    → get_top_level_directory config ≡ ok d
    → get_wallet_data_directory config ≡ ok f
    → push d (parse f) ≡ get_data_path config
unfolding get_top_level_directory get_wallet_data_directory
get_wallet_data_directory-get_top_level_directory config h k =
    split_path (get_data_path config) (get_data_path-Parts config)
      (unwrap_ok (parent (get_data_path config)) h) (unwrap_ok (file_name (get_data_path config)) k)
