-- ===== src/Providers/Registry/Laws.antt =====
-- pkg/hasher/providers/registry.go: what is registered is found, and what is detected is registered.
use reelm.Base.{
  ◌≡◌, refl, ap, Bool, true, false, Option, none, some, [], ◌∷◌, arith, Text, codes, ◌==◌, eq_iff,
  Fallible, ok, failed, to_lower, to_lower_idem, if◌then◌else◌, Bool-cases, inl, inr,
}
use reelm.Http.{Request}
use reelm.Providers.Registry.{
  Registry, entry, set_entry, register, get, choose, try, is_azure, is_anthropic, is_gemini,
  is_openai, detect_by_request, detect_provider,
}

module _ {C : Type 0} where
  entry-set_entry :
      (p q : Text) (c : C) (r : Registry C)
      → entry q (set_entry p c r) ≡ (if p == q then some c else entry q r)
  unfolding entry set_entry
  entry-set_entry p q c [] = refl
  entry-set_entry p q c ((n, d) ∷ r) =
      ground (arith, eq_iff p q, eq_iff n p, eq_iff n q, entry-set_entry p q c r)

  -- After Register, Get finds the new canonicalizer under every spelling of the name that lower case
  -- makes the same, and what it found before under every other name.
  pub get-register :
      (p q : Text) (c : C) (r : Registry C)
      → get q (register p c r) ≡ (if to_lower p == to_lower q then some c else get q r)
  unfolding get register
  get-register p q c r = entry-set_entry (to_lower p) (to_lower q) c r

  -- A result names a provider of the registry, with its canonicalizer.
  abbrev pub IsRegistered : Registry C → Fallible (Text × C) → Type 0
  IsRegistered r (ok (name, c)) = get name r ≡ some c
  IsRegistered r (failed e) = get (codes "openai") r ≡ none

  choose-IsRegistered :
      (r : Registry C) (name : Text) (o : Option C) (later : Fallible (Text × C))
      → get name r ≡ o
      → IsRegistered r later
      → IsRegistered r (choose name o later)
  choose-IsRegistered r name none later e h = h
  choose-IsRegistered r name (some c) later e h = e

  try-IsRegistered :
      (test : Bool) (name : Text) (r : Registry C) (later : Fallible (Text × C))
      → IsRegistered r later
      → IsRegistered r (try test name r later)
  try-IsRegistered true name r later h = choose-IsRegistered r name (get name r) later refl h
  try-IsRegistered false name r later h = h

  fallback-IsRegistered :
      (r : Registry C) (o : Option C) (e : Text)
      → get (codes "openai") r ≡ o
      → IsRegistered r (choose (codes "openai") o (failed e))
  fallback-IsRegistered r none e h = h
  fallback-IsRegistered r (some c) e h = h

  detect_by_request-IsRegistered :
      (quote : Text → Text) (req : Request) (r : Registry C)
      → IsRegistered r (detect_by_request quote req r)
  unfolding detect_by_request
  detect_by_request-IsRegistered quote req r = try-IsRegistered (is_azure req) (codes "azure") r _ (
      try-IsRegistered (is_anthropic req) (codes "anthropic") r _ (
        try-IsRegistered (is_gemini req) (codes "gemini") r _ (
          try-IsRegistered (is_openai req) (codes "openai") r _
            (fallback-IsRegistered r (get (codes "openai") r) _ refl))))

  get-to_lower : (p : Text) (r : Registry C) → get (to_lower p) r ≡ get p r
  unfolding get
  get-to_lower p r = ap (λ (n : Text). entry n r) (to_lower_idem p)

  -- DetectProvider on a request returns a registered name with the canonicalizer that the registry
  -- has for it, and fails only where no canonicalizer for openai is registered.
  pub detect_provider-IsRegistered :
      (quote : Text → Text) (req : Request) (r : Registry C)
      → IsRegistered r (detect_provider quote (some req) r)
  unfolding detect_provider
  detect_provider-IsRegistered quote req r =
      let later = detect_by_request-IsRegistered quote req r in
      let p = reelm.Http.Headers.get (codes "X-Reelm-Provider") req.header in
      elim (Bool-cases (p == [])) [
        | inl e ↦ simp e later
        | inr e ↦ simp e (choose-IsRegistered r (to_lower p) (get p r) _ (get-to_lower p r) later)
      ]
