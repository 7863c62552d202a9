-- ===== src/Command/Starts.antt =====
-- cmd/reelm/main.go: with which configuration the program serves.
use reelm.Base.{
  ℕ, ◌≡◌, ◌≢◌, refl, sym, ap, ◌∙◌, true, false, Option, none, some, [], Text, ◌==◌, eq_iff,
  to_lower, trim_space, Fallible, ok, failed, Bool-cases, inl, inr,
}
use reelm.Base.Strings.Lowered.{trim_space-to_lower}
use reelm.Config.{Config, format_yaml, format_json}
use reelm.Config.Float64.{Float}
use reelm.Config.Validate.{is_mode, is_format, validate, accepted, load}
use reelm.Config.Validate.Accepts.{IsValid, load_validated, validate_keeps}
use reelm.Hasher.{CanonicRequest}
use reelm.Proxy.Server.{Codecs, new_handler}
use reelm.Proxy.Tls.Ca.{Crypto}
use reelm.Store.Backend.{Backend}
use reelm.Store.Disk.{Disk}
use reelm.Store.DiskStore.{Result, bad_format, DiskStore, new_disk_store}
use reelm.Store.DiskStore.Opened.{Opened, opened, not_opened, new_disk_store-Opened}
use reelm.Store.Serializer.{Serializer, get_serializer}
use reelm.Command.{
  Flags, override, apply_flags, StartError, bad_config, bad_flags, no_store, Running, Start,
  refused, running, start_server, with_store, validated, with_config, run_serve,
}

-- A word in any case is the word that is left of it without white space.
trimmed :
    (s word : Text)
    → trim_space word ≡ word
    → (to_lower s == word) ≡ true
    → to_lower (trim_space s) ≡ word
trimmed s word h e =
    sym (trim_space-to_lower s) ∙ ap trim_space ((eq_iff (to_lower s) word).0 e) ∙ h

-- A format that Validate accepts has a serializer.
get_serializer-is_format :
    (f : Text) → is_format (to_lower f) ≡ true → (ser : Serializer) × (get_serializer f ≡ some ser)
unfolding get_serializer trim_space ◌==◌
get_serializer-is_format f h = elim (Bool-cases (to_lower f == format_yaml)) [
  | inl e ↦ (Serializer.yaml, rw (trimmed f format_yaml refl e) refl)
  | inr e ↦ (Serializer.json, rw (trimmed f format_json refl (simp e at h)) refl)
]

module _ (quote : Text → Text) (show : Float → Text) (parse_url : Text → Option (Text × Text))
    (b : Backend) (x : Crypto) (j : Codecs) (hash : CanonicRequest → Option Text) where
  -- What the program serves with, for the flags it was given
  pub record Serves (f : Flags) (r : Running b x) : Type 0 where
    pub valid : IsValid quote show parse_url r.config
    pub mode : is_mode (to_lower r.handler.mode) ≡ true
    pub base_dir : r.store.base_dir ≡ r.config.cassette_dir
    pub serializer : get_serializer r.config.cassette_format ≡ some r.store.serializer
    pub chosen_mode : (f.mode == []) ≡ false → r.handler.mode ≡ f.mode
    pub chosen_dir : (f.dir == []) ≡ false → r.store.base_dir ≡ f.dir

  -- A start whose error, if it has one, is not the format of the cassettes
  data Starts (f : Flags) : Start b x → Type 0 where
    serves : (r : Running b x) → Serves f r → Starts f (running r)
    refuses : (e : StartError) → e ≢ no_store bad_format → Starts f (refused e)

  with_store-Starts :
      (now n : ℕ) (home : Option Text) (f : Flags) (c : Config) (q : Result (DiskStore b))
      → IsValid quote show parse_url c
      → ((f.mode == []) ≡ false → c.mode ≡ f.mode)
      → ((f.dir == []) ≡ false → c.cassette_dir ≡ f.dir)
      → Opened b c.cassette_dir c.cassette_format q
      → Starts f (with_store quote show parse_url b x j hash now n home c q)
  unfolding with_store start_server new_handler
  with_store-Starts now n home f c _ v m d (opened s k) = serves _ (record {
    valid = v;
    mode = v.mode;
    base_dir = k.base_dir;
    serializer = k.serializer;
    chosen_mode = m;
    chosen_dir = λ e. k.base_dir ∙ d e;
  })
  with_store-Starts now n home f c _ v m d (not_opened e k) = refuses (no_store e) (λ p. k cc)

  overridden : (flag old : Text) → (flag == []) ≡ false → override flag old ≡ flag
  overridden flag old e = simp e

  validated-Starts :
      (now n : ℕ) (home : Option Text) (db : Option b.Db) (d : Disk) (f : Flags) (c : Config)
      (q : Option Text × Config)
      → validate quote show parse_url (apply_flags f c) ≡ q
      → Starts f (validated quote show parse_url b x j hash now n home db d q)
  unfolding validated apply_flags
  validated-Starts now n home db d f c (some e, v) h = refuses (bad_flags e) (λ p. cc)
  validated-Starts now n home db d f c (none, v) h =
      let (valid, format) =
        load_validated quote show parse_url (apply_flags f c) v
          (ap (accepted quote show parse_url) h) in
      let (ser, s) = get_serializer-is_format v.cassette_format format in
      let (m, k) = validate_keeps quote show parse_url (apply_flags f c) in
      with_store-Starts now n home f v (new_disk_store b v.cassette_dir v.cassette_format db d)
        valid
        (λ e. sym (ap (λ (p : Option Text × Config). p.1.mode) h) ∙ m ∙ overridden f.mode c.mode e)
        (λ e.
          sym (ap (λ (p : Option Text × Config). p.1.cassette_dir) h)
          ∙ k
          ∙ overridden f.dir c.cassette_dir e)
        (new_disk_store-Opened b v.cassette_dir v.cassette_format db d ser s)

  with_config-Starts :
      (now n : ℕ) (home : Option Text) (db : Option b.Db) (d : Disk) (f : Flags)
      (q : Fallible Config)
      → Starts f (with_config quote show parse_url b x j hash now n home db d f q)
  unfolding with_config
  with_config-Starts now n home db d f (failed e) = refuses (bad_config e) (λ p. cc)
  with_config-Starts now n home db d f (ok c) = validated-Starts now n home db d f c _ refl

  run_serve-Starts :
      (now n : ℕ) (home : Option Text) (db : Option b.Db) (d : Disk) (f : Flags)
      (read : Fallible Config)
      → Starts f (run_serve quote show parse_url b x j hash now n home db d f read)
  unfolding run_serve
  run_serve-Starts now n home db d f read =
      with_config-Starts now n home db d f (load quote show parse_url read)

  of_running :
      (f : Flags) (q : Start b x) (r : Running b x) → Starts f q → q ≡ running r → Serves f r
  of_running f _ r (serves t k) h = let same : t ≡ r = cc in rw (← same) k
  of_running f _ r (refuses e k) h = cc

  of_refused : (f : Flags) (q : Start b x) → Starts f q → q ≢ refused (no_store bad_format)
  of_refused f _ (serves t k) h = cc
  of_refused f _ (refuses e k) h = k cc

  -- What runServe serves with is a valid configuration, the flags included: its mode is one of the
  -- three, the store has the directory and the serializer that it names, and a mode or a directory
  -- that a flag gives is the handler's mode and the store's directory.
  pub run_serve-Serves :
      (now n : ℕ) (home : Option Text) (db : Option b.Db) (d : Disk) (f : Flags)
      (read : Fallible Config) (r : Running b x)
      → run_serve quote show parse_url b x j hash now n home db d f read ≡ running r
      → Serves f r
  run_serve-Serves now n home db d f read r h =
      of_running f _ r (run_serve-Starts now n home db d f read) h

  -- A format of the cassettes that Validate accepts is one that NewDiskStore knows: runServe never
  -- ends with the error of NewDiskStore for an unknown format.
  pub run_serve-bad_format :
      (now n : ℕ) (home : Option Text) (db : Option b.Db) (d : Disk) (f : Flags)
      (read : Fallible Config)
      → run_serve quote show parse_url b x j hash now n home db d f read
        ≢ refused (no_store bad_format)
  run_serve-bad_format now n home db d f read =
      of_refused f _ (run_serve-Starts now n home db d f read)
