-- ===== src/Config/Validate/Accepts.antt =====
-- pkg/config/validate.go: which configurations are accepted.
use reelm.Base.{
  ℕ, suc, ◌≡◌, ◌↔◌, refl, Bool, true, false, not, ◌||◌, Option, none, some, List, [], ◌∷◌, ◌++◌,
  Text, ◌==◌, to_lower, Fallible, ok, failed, All, or-eq-false, Bool-cases, inl, inr,
}
use reelm.Config.Float64.{Float, below_zero, above_one}
use reelm.Config.{Config, Provider}
use reelm.Config.Validate.{
  demand, is_blank, is_mode, is_format, mode_errors, check_format, is_absolute, url_errors,
  provider_errors, has_provider, config_errors, joined, validate, accepted, or_default, load,
}

append_nil {ℓ} : {A : Type ℓ} (xs ys : List A) → xs ++ ys ≡ [] → (xs ≡ []) × (ys ≡ [])
append_nil [] ys h = (refl, h)
append_nil (x ∷ xs) ys h = cc

demand_iff : (b : Bool) (e : Text) → (demand b e ≡ []) ↔ (b ≡ true)
demand_iff true e = (λ h. refl, λ h. refl)
demand_iff false e = (λ h. cc, λ h. cc)

not-true : (b : Bool) → not b ≡ true → b ≡ false
not-true true h = cc
not-true false h = refl

module _ (quote : Text → Text) (show : Float → Text) (parse_url : Text → Option (Text × Text)) where
  -- A provider with a name and an absolute URL.
  abbrev pub IsUsable : Provider → Type 0
  IsUsable p =
      (is_blank p.name ≡ false)
      × (is_blank p.base_url ≡ false)
      × (is_absolute quote show parse_url (parse_url p.base_url) ≡ true)

  -- What Validate asks for.
  pub record IsValid (c : Config) : Type 0 where
    pub mode : is_mode (to_lower c.mode) ≡ true
    pub format : (is_format (to_lower c.cassette_format) || to_lower c.cassette_format == []) ≡ true
    pub listen_addr : is_blank c.listen_addr ≡ false
    pub cassette_dir : is_blank c.cassette_dir ≡ false
    pub some_provider : has_provider quote show parse_url c.providers ≡ true
    pub providers : All IsUsable c.providers
    pub threshold_low : below_zero c.matching.similarity_threshold ≡ false
    pub threshold_high : above_one c.matching.similarity_threshold ≡ false

  mode_errors_iff :
      (m : Text) → (mode_errors quote show parse_url m ≡ []) ↔ (is_mode (to_lower m) ≡ true)
  unfolding mode_errors
  mode_errors_iff m = elim (Bool-cases (is_mode (to_lower m))) [
    | inl e ↦ simp e (λ h. refl, λ h. refl)
    | inr e ↦ elim (Bool-cases (to_lower m == [])) [
      | inl f ↦ simp (e, f) (λ h. cc, λ h. cc)
      | inr f ↦ simp (e, f) (λ h. cc, λ h. cc)
    ]
  ]

  check_format_iff :
      (f : Text)
      → ((check_format quote show parse_url f).0 ≡ [])
        ↔ ((is_format (to_lower f) || to_lower f == []) ≡ true)
  unfolding check_format
  check_format_iff f = elim (Bool-cases (is_format (to_lower f))) [
    | inl e ↦ simp e (λ h. refl, λ h. refl)
    | inr e ↦ elim (Bool-cases (to_lower f == [])) [
      | inl g ↦ simp (e, g) (λ h. refl, λ h. refl)
      | inr g ↦ simp (e, g) (λ h. cc, λ h. cc)
    ]
  ]

  url_errors_iff :
      (p : Provider)
      → (url_errors quote show parse_url p ≡ []) ↔ (
          (is_blank p.base_url ≡ false)
          × (is_absolute quote show parse_url (parse_url p.base_url) ≡ true))
  unfolding url_errors
  url_errors_iff p = elim (Bool-cases (is_blank p.base_url)) [
    | inl e ↦ simp e (λ h. cc, λ h. cc)
    | inr e ↦ simp e (
      λ h. (refl, (demand_iff (is_absolute quote show parse_url (parse_url p.base_url)) _).0 h),
      λ h. (demand_iff (is_absolute quote show parse_url (parse_url p.base_url)) _).1 h.1,
    )
  ]

  provider_errors-IsUsable :
      (i : ℕ) (ps : List Provider)
      → provider_errors quote show parse_url i ps ≡ []
      → All IsUsable ps
  unfolding provider_errors
  provider_errors-IsUsable i [] h = tt
  provider_errors-IsUsable i (p ∷ ps) h =
      let (a, r) = append_nil (demand (not (is_blank p.name)) _) _ h in
      let (u, s) = append_nil (url_errors quote show parse_url p) _ r in
      let (x, y) = (url_errors_iff p).0 u in
      (
        (not-true (is_blank p.name) ((demand_iff (not (is_blank p.name)) _).0 a), x, y),
        provider_errors-IsUsable (suc i) ps s,
      )

  IsUsable-provider_errors :
      (i : ℕ) (ps : List Provider)
      → All IsUsable ps
      → provider_errors quote show parse_url i ps ≡ []
  unfolding provider_errors
  IsUsable-provider_errors i [] h = refl
  IsUsable-provider_errors i (p ∷ ps) ((a, x, y), h) =
      simp (a, (url_errors_iff p).1 (x, y), IsUsable-provider_errors (suc i) ps h)

  joined_iff : (es : List Text) → (joined quote show parse_url es ≡ none) ↔ (es ≡ [])
  joined_iff [] = (λ h. refl, λ h. refl)
  joined_iff (e ∷ es) = (λ h. cc, λ h. cc)

  config_errors-IsValid : (c : Config) → config_errors quote show parse_url c ≡ [] → IsValid c
  unfolding config_errors
  config_errors-IsValid c h =
      let low = below_zero c.matching.similarity_threshold in
      let (a, r) = append_nil (mode_errors quote show parse_url c.mode) _ h in
      let (b, s) = append_nil (check_format quote show parse_url c.cassette_format).0 _ r in
      let (d, t) = append_nil (demand (not (is_blank c.listen_addr)) _) _ s in
      let (e, u) = append_nil (demand (not (is_blank c.cassette_dir)) _) _ t in
      let (f, v) = append_nil (demand (has_provider quote show parse_url c.providers) _) _ u in
      let (g, w) = append_nil (provider_errors quote show parse_url 0 c.providers) _ v in
      let (x, y) = or-eq-false low _ (not-true _ ((demand_iff _ _).0 w)) in
      record {
        mode = (mode_errors_iff c.mode).0 a;
        format = (check_format_iff c.cassette_format).0 b;
        listen_addr = not-true (is_blank c.listen_addr) ((demand_iff _ _).0 d);
        cassette_dir = not-true (is_blank c.cassette_dir) ((demand_iff _ _).0 e);
        some_provider = (demand_iff _ _).0 f;
        providers = provider_errors-IsUsable 0 c.providers g;
        threshold_low = x;
        threshold_high = y;
      }

  IsValid-config_errors : (c : Config) → IsValid c → config_errors quote show parse_url c ≡ []
  unfolding config_errors
  IsValid-config_errors c k = simp (
    (mode_errors_iff c.mode).1 k.mode,
    (check_format_iff c.cassette_format).1 k.format,
    k.listen_addr,
    k.cassette_dir,
    k.some_provider,
    IsUsable-provider_errors 0 c.providers k.providers,
    k.threshold_low,
    k.threshold_high,
  )

  -- Validate returns no error exactly for the configurations that have what it asks for.
  pub validate-IsValid : (c : Config) → ((validate quote show parse_url c).0 ≡ none) ↔ IsValid c
  unfolding validate
  validate-IsValid c =
      let j = joined_iff (config_errors quote show parse_url c) in
      (λ h. config_errors-IsValid c (j.0 h), λ k. j.1 (IsValid-config_errors c k))

  check_format-is_format :
      (f : Text)
      → (is_format (to_lower f) || to_lower f == []) ≡ true
      → is_format (to_lower (check_format quote show parse_url f).1) ≡ true
  unfolding check_format to_lower ◌==◌
  check_format-is_format f h = elim (Bool-cases (is_format (to_lower f))) [
    | inl e ↦ simp e
    | inr e ↦ elim (Bool-cases (to_lower f == [])) [
      | inl g ↦ simp (e, g)
      | inr g ↦ cc (simp (e, g) at h)
    ]
  ]

  accepted-ok :
      (r : Option Text × Config) (c : Config)
      → accepted quote show parse_url r ≡ ok c
      → (r.0 ≡ none) × (r.1 ≡ c)
  accepted-ok (none, d) c h = (refl, cc)
  accepted-ok (some e, d) c h = cc

  pub validate_keeps :
      (d : Config)
      → ((validate quote show parse_url d).1.mode ≡ d.mode)
        × ((validate quote show parse_url d).1.cassette_dir ≡ d.cassette_dir)
  unfolding validate
  validate_keeps d = (refl, refl)

  pub load_validated :
      (d c : Config)
      → accepted quote show parse_url (validate quote show parse_url d) ≡ ok c
      → IsValid c × (is_format (to_lower c.cassette_format) ≡ true)
  unfolding validate
  load_validated d c h =
      let (done, p) = accepted-ok (validate quote show parse_url d) c h in
      let k = (validate-IsValid d).0 done in
      let f = check_format-is_format d.cassette_format k.format in
      let valid : IsValid (validate quote show parse_url d).1 = record {
        mode = k.mode;
        format = simp f;
        listen_addr = k.listen_addr;
        cassette_dir = k.cassette_dir;
        some_provider = k.some_provider;
        providers = k.providers;
        threshold_low = k.threshold_low;
        threshold_high = k.threshold_high;
      } in
      rw (← p) (valid, f)

  -- A configuration that Load returns is valid, and names one of the two cassette formats.
  pub load-IsValid :
      (q : Fallible Config) (c : Config)
      → load quote show parse_url q ≡ ok c
      → IsValid c × (is_format (to_lower c.cassette_format) ≡ true)
  unfolding load
  load-IsValid (failed e) c h = cc
  load-IsValid (ok d) c h =
      load_validated (record d { providers = or_default quote show parse_url d.providers }) c h
