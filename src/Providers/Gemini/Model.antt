-- ===== src/Providers/Gemini/Model.antt =====
-- pkg/hasher/providers/gemini.go: the model is the one that the path names.
use reelm.Base.{
  ℕ, ◌≡◌, refl, sym, ap, ◌∙◌, Bool, true, false, Option, none, some, List, [], ◌∷◌, ◌++◌, arith,
  Text, codes, eqb, any, Fallible, ok, failed, Bool-cases, inl, inr, or-eq-false, if◌then◌else◌,
}
use reelm.Hasher.{CanonicRequest}
use reelm.Http.{Request}
use reelm.Providers.Shared.{JsonCode}
use reelm.Providers.Gemini.{
  RequestSchema, after, until, model_in_path, gemini_canonic, gemini_parsed, gemini_canonicalize,
}

-- No character of the text is a colon.
abbrev pub HasNoColon : Text → Type 0
HasNoColon s = any (λ c. eqb c b':') s ≡ false

until-append : (name rest : Text) → HasNoColon name → until b':' (name ++ b':' ∷ rest) ≡ name
unfolding until
until-append [] rest h = refl
until-append (c ∷ name) rest h =
    let (e, f) = or-eq-false (eqb c b':') _ h in simp (e, until-append name rest f)

until-absent : (name : Text) → HasNoColon name → until b':' name ≡ name
unfolding until
until-absent [] h = refl
until-absent (c ∷ name) h =
    let (e, f) = or-eq-false (eqb c b':') _ h in simp (e, until-absent name f)

model_in_path-until :
    (rest : Text) → model_in_path (codes "/v1beta/models/" ++ rest) ≡ until b':' rest
unfolding model_in_path after reelm.Base.Strings.has_prefix
model_in_path-until rest = refl

module _ (j : JsonCode RequestSchema) where
  gemini_parsed-model :
      (r : Request) (q : Fallible RequestSchema) (c : CanonicRequest)
      → gemini_parsed j (some r) q ≡ ok c
      → c.model ≡ model_in_path r.path
  unfolding gemini_parsed gemini_canonic
  gemini_parsed-model r (failed e) c h = cc
  gemini_parsed-model r (ok p) c h =
      let same : gemini_canonic j (some r) p ≡ c = cc in
      ap (λ (x : CanonicRequest). x.model) (sym same)

  gemini_canonicalize-path :
      (r : Request) (body : Text) (c : CanonicRequest)
      → gemini_canonicalize j (some r) body ≡ ok c
      → c.model ≡ model_in_path r.path
  unfolding gemini_canonicalize
  gemini_canonicalize-path r [] c h = cc
  gemini_canonicalize-path r (x ∷ body) c h = gemini_parsed-model r (j.parse (x ∷ body)) c h

  -- A request to /v1beta/models/NAME:ACTION that is canonicalized has NAME for its model, whatever
  -- the action is.
  pub gemini_canonicalize-model :
      (r : Request) (name action body : Text) (c : CanonicRequest)
      → r.path ≡ codes "/v1beta/models/" ++ (name ++ b':' ∷ action)
      → HasNoColon name
      → gemini_canonicalize j (some r) body ≡ ok c
      → c.model ≡ name
  gemini_canonicalize-model r name action body c path h k =
      gemini_canonicalize-path r body c k
      ∙ ap model_in_path path
      ∙ model_in_path-until (name ++ b':' ∷ action)
      ∙ until-append name action h
