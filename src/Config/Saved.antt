-- ===== src/Config/Saved.antt =====
-- What `do_config` of src/main.rs leaves in the configuration file.
use mathlib.Core.Path.{subst}
use mwc.Prelude.{
  ℕ, ◌≡◌, refl, sym, inl, inr, ◌⊎◌, Bool, true, false, not, ◌||◌, Option, none, some, Bytes,
  Outcome, ok, ◌++◌,
}
use mwc.ErrorKind.{Error}
use mwc.Effects.{result, returns, and_then_ok, lift}
use mwc.Contacts.Address.{unwrap_or}
use mwc.Config.{ChainTypes, Wallet713Config, is_some}
use mwc.Config.Files.{
  Files, Args, stored, wallet713_config_help, config_file, calling, reading, exists, from_file,
  to_file, or_some, new_port, any_given, with_args, from_file_or_default, saved_if, do_config,
}

ok_port : {p q : Option ℕ} → new_port none p ≡ ok q → q ≡ p
ok_port h = cc

is_some-false : {A : Type 0} (o : Option A) → is_some o ≡ false → o ≡ none
is_some-false none h = refl
is_some-false (some a) h = cc

or_else-false : (a b : Bool) → (a || b) ≡ false → (a ≡ false) × (b ≡ false)
or_else-false false b h = (refl, h)
or_else-false true b h = cc

unwrap_or_again : {A : Type 0} (o : Option A) (d : A) → unwrap_or o (unwrap_or o d) ≡ unwrap_or o d
unwrap_or_again none d = refl
unwrap_or_again (some a) d = refl

or_some_again : {A : Type 0} (o d : Option A) → or_some o (or_some o d) ≡ or_some o d
or_some_again none d = refl
or_some_again (some a) d = refl

-- The options stand in the configuration.
pub record Applied {SecretKey : Type 0} (args : Args) (new_address_index : Option ℕ)
    (config : Wallet713Config SecretKey) : Type 0 where
  pub data_path : unwrap_or args.data_path config.wallet713_data_path ≡ config.wallet713_data_path
  pub domain : or_some args.domain config.mwcmq_domain ≡ config.mwcmq_domain
  pub old_port : Option ℕ
  pub port : new_port args.port old_port ≡ ok config.mwcmq_port
  pub node_uri : or_some args.node_uri config.mwc_node_uri ≡ config.mwc_node_uri
  pub node_secret : or_some args.node_secret config.mwc_node_secret ≡ config.mwc_node_secret
  pub index : or_some new_address_index config.grinbox_address_index ≡ config.grinbox_address_index

Applied-stored :
    {SecretKey : Type 0} (args : Args) (new_address_index : Option ℕ)
    (config : Wallet713Config SecretKey)
    → Applied args new_address_index (stored config)
    → Applied args new_address_index config
Applied-stored args new_address_index config a = record {
  data_path = a.data_path;
  domain = a.domain;
  old_port = a.old_port;
  port = a.port;
  node_uri = a.node_uri;
  node_secret = a.node_secret;
  index = a.index;
}

module _ {SecretKey : Type 0} (f : Files SecretKey) where
  open f use {
    State, file_exists, read_file, create, write_all, to_toml, from_toml, read_file-write_all,
    from_toml-to_toml, from_toml-stored,
  }

  abbrev read_as : {A : Type 0} → A → State → (Error ⊎ A) × State
  read_as a s = (inr a, s)

  abbrev back_as : {A : Type 0} → A → Error ⊎ A
  back_as a = inr a

  called_ok :
      {A : Type 0} (r : (Error ⊎ A) × State) {a : A} {s : State}
      → (result r.0, r.1) ≡ returns a s
      → r ≡ read_as a s
  called_ok (inl e, s) h = cc
  called_ok (inr a, s) h = cc

  result_ok :
      {A : Type 0} (r : Error ⊎ A) (s : State) {a : A} {s' : State}
      → (result r, s) ≡ returns a s'
      → (r ≡ back_as a) × (s' ≡ s)
  result_ok (inl e) s h = cc
  result_ok (inr a) s h = (cc, cc)

  same_pair :
      {a b : Wallet713Config SecretKey} {s s' : State}
      → returns a s ≡ returns b s'
      → (a ≡ b) × (s ≡ s')
  same_pair h = (cc, cc)

  -- The file of a configuration holds it: reading gives it back, but for the fields that are skipped.
  pub record Saved (config : Wallet713Config SecretKey) (s : State) : Type 0 where
    pub path : Bytes
    pub text : Bytes
    pub home : config.config_home ≡ some path
    pub written : read_file s path ≡ inr text
    pub back : from_toml text ≡ inr (stored config)

  Saved-same :
      {a b : Wallet713Config SecretKey} {s s' : State}
      → returns a s ≡ returns b s'
      → Saved a s
      → Saved b s'
  Saved-same {a} {b} {s} {s'} h saved =
      let (e, e') = same_pair h in subst (λ c. Saved c s') e (subst (λ s. Saved a s) e' saved)

  to_file-Saved :
      (config : Wallet713Config SecretKey) (config_path : Option Bytes) (s : State)
      {c : Wallet713Config SecretKey} {s' : State}
      → to_file f config config_path s ≡ returns c s'
      → Saved c s' × (stored c ≡ stored config)
  unfolding to_file
  to_file-Saved config config_path s h =
      let (path, s1, h1, r1) = and_then_ok (config_file f config_path config.chain s) _ h in
      let (text, s2, h2, r2) = and_then_ok (lift (result (to_toml config)) s1) _ r1 in
      let (u, s3, h3, r3) = and_then_ok (calling f (create path) s2) _ r2 in
      let whole = wallet713_config_help ++ text in
      let (v, s4, h4, r4) = and_then_ok (calling f (write_all path whole) s3) _ r3 in
      let (printed, _) = result_ok (to_toml config) s1 h2 in
      let wrote = called_ok (write_all path whole s3) h4 in
      let made : Wallet713Config SecretKey = record config { config_home = some path } in
      (
        Saved-same {a = made} r4 (record {
          path = path;
          text = whole;
          home = refl;
          written = read_file-write_all path whole s3 s4 wrote;
          back = from_toml-to_toml config text printed;
        }),
        subst (λ c. stored c ≡ stored config) (same_pair r4).0 refl,
      )

  from_file-Saved :
      (config_path : Option Bytes) (chain : ChainTypes) (s : State) {c : Wallet713Config SecretKey}
      {s' : State}
      → from_file f config_path chain s ≡ returns c s'
      → Saved c s'
  unfolding from_file
  from_file-Saved config_path chain s h =
      let (path, s1, h1, r1) = and_then_ok (config_file f config_path chain s) _ h in
      let (text, s2, h2, r2) = and_then_ok (reading f (λ s. read_file s path) s1) _ r1 in
      let (config, s3, h3, r3) = and_then_ok (lift (result (from_toml text)) s2) _ r2 in
      let (there, same) = result_ok (read_file s1 path) s1 h2 in
      let (parsed, same') = result_ok (from_toml text) s2 h3 in
      let made : Wallet713Config SecretKey = record config { config_home = some path } in
      Saved-same {a = made} r3 (record {
        path = path;
        text = text;
        home = refl;
        written = rw (same', same) there;
        back = rw (from_toml-stored text config parsed) parsed;
      })

  -- Without options, nothing changes.
  with_args_unused :
      (args : Args) (new_address_index : Option ℕ) (config : Wallet713Config SecretKey)
      {port : Option ℕ}
      → any_given args new_address_index ≡ false
      → new_port args.port config.mwcmq_port ≡ ok port
      → with_args args port new_address_index config ≡ config
  with_args_unused args new_address_index config h k =
      let (k1, h6) = or_else-false _ (is_some new_address_index) h in
      let (k2, h5) = or_else-false _ (is_some args.node_secret) k1 in
      let (k3, h4) = or_else-false _ (is_some args.node_uri) k2 in
      let (k4, h3) = or_else-false _ (is_some args.port) k3 in
      let (h1, h2) = or_else-false (is_some args.data_path) (is_some args.domain) k4 in
      let old = ok_port (rw (is_some-false args.port h3) at k) in
      rw
        (
          is_some-false args.data_path h1,
          is_some-false args.domain h2,
          is_some-false args.node_uri h4,
          is_some-false args.node_secret h5,
          is_some-false new_address_index h6,
          old,
        )
        refl

  with_args-Applied :
      (args : Args) (new_address_index : Option ℕ) (config : Wallet713Config SecretKey)
      {port : Option ℕ}
      → new_port args.port config.mwcmq_port ≡ ok port
      → Applied args new_address_index (stored (with_args args port new_address_index config))
  with_args-Applied args new_address_index config h = record {
    data_path = unwrap_or_again args.data_path config.wallet713_data_path;
    domain = or_some_again args.domain config.mwcmq_domain;
    old_port = config.mwcmq_port;
    port = h;
    node_uri = or_some_again args.node_uri config.mwc_node_uri;
    node_secret = or_some_again args.node_secret config.mwc_node_secret;
    index = or_some_again new_address_index config.grinbox_address_index;
  }

  from_file_or_default-Saved :
      (found : Bool) (config_path : Option Bytes) (chain : ChainTypes) (s : State)
      {c : Wallet713Config SecretKey} {s' : State}
      → found ≡ true
      → from_file_or_default f found config_path chain s ≡ returns c s'
      → Saved c s'
  from_file_or_default-Saved true config_path chain s e h = from_file-Saved config_path chain s h
  from_file_or_default-Saved false config_path chain s e h = cc

  saved_if-Saved :
      (any_matches : Bool) (config_path : Option Bytes) (config : Wallet713Config SecretKey)
      (s : State) {c : Wallet713Config SecretKey} {s' : State}
      → (any_matches ≡ false → Saved config s)
      → saved_if f any_matches config_path config s ≡ returns c s'
      → Saved c s' × (stored c ≡ stored config)
  saved_if-Saved true config_path config s k h = to_file-Saved config config_path s h
  saved_if-Saved false config_path config s k h = (
    Saved-same {a = config} h (k refl),
    subst (λ c. stored c ≡ stored config) (same_pair {a = config} h).0 refl,
  )

  not-false : (b : Bool) → not b ≡ false → b ≡ true
  not-false true h = refl
  not-false false h = cc

  lifted :
      {A : Type 0} (r : Outcome Error A) (s : State) {a : A} {s' : State}
      → (r, s) ≡ returns a s'
      → (r ≡ ok a) × (s' ≡ s)
  lifted r s h = (cc, cc)

  -- Where the command `config` ends with a configuration, the file that it names as its home holds it:
  -- reading the file gives the configuration back, but for the two fields that are not stored. The
  -- options that were given stand in it, the port as the number that its text spells.
  pub do_config-Saved :
      (args : Args) (chain : ChainTypes) (new_address_index : Option ℕ) (config_path : Option Bytes)
      (s : State) (config : Wallet713Config SecretKey) (s' : State)
      → do_config f args chain new_address_index config_path s ≡ returns config s'
      → Saved config s' × Applied args new_address_index config
  unfolding do_config
  do_config-Saved args chain new_address_index config_path s config s' h =
      let (found, s1, h1, r1) = and_then_ok (exists f config_path chain s) _ h in
      let (old, s2, h2, r2) =
        and_then_ok (from_file_or_default f found config_path chain s1) _ r1 in
      let (port, s3, h3, r3) = and_then_ok (lift (new_port args.port old.mwcmq_port) s2) _ r2 in
      let (read, same) = lifted (new_port args.port old.mwcmq_port) s2 h3 in
      let any = any_given args new_address_index in
      let (saved, kept) =
        saved_if-Saved (not found || any) config_path (with_args args port new_address_index old) s3
          (λ none_given.
            let (there, unused) = or_else-false (not found) any none_given in
            subst (λ c. Saved c s3) (sym (with_args_unused args new_address_index old unused read))
              (subst (λ s. Saved old s) (sym same)
                (from_file_or_default-Saved found config_path chain s1 (not-false found there) h2)))
          r3 in
      (
        saved,
        Applied-stored args new_address_index config (
            subst (λ c. Applied args new_address_index c) (sym kept)
              (with_args-Applied args new_address_index old read)),
      )
