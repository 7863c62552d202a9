-- ===== src/Providers/Azure/Deployment.antt =====
-- pkg/hasher/providers/azure.go: the model is the deployment that the path names.
use reelm.Base.{
  ◌≡◌, refl, sym, ap, ◌∙◌, false, some, [], ◌∷◌, ◌++◌, Text, codes, ◌==◌, eqb, any, contains, split,
  Fallible, ok, failed, or-eq-false,
}
use reelm.Hasher.{CanonicRequest}
use reelm.Http.{Request}
use reelm.Providers.Shared.{JsonCode}
use reelm.Providers.OpenAi.{RequestSchema, canonicalize as canonicalize_openai}
use reelm.Providers.Azure.{deployment, model_of, for_azure, azure_canonicalize}

-- No character of the text is the separator.
abbrev pub HasNoSlash : Text → Type 0
HasNoSlash s = any (λ c. eqb c 47) s ≡ false

split-first :
    (name rest : Text) → HasNoSlash name → split 47 (name ++ 47 ∷ rest) ≡ name ∷ split 47 rest
unfolding split
split-first [] rest h = refl
split-first (c ∷ name) rest h =
    let (e, f) = or-eq-false (eqb c 47) _ h in simp (e, split-first name rest f)

model_of-deployment :
    (r : Request) (model name rest : Text)
    → r.path ≡ codes "/openai/deployments/" ++ (name ++ 47 ∷ rest)
    → HasNoSlash name
    → model_of (some r) model ≡ name
unfolding model_of deployment contains split ◌==◌
model_of-deployment r model name rest path h = rw path (simp (split-first name rest h))

module _ (j : JsonCode RequestSchema) where
  for_azure-model :
      (r : Request) (name rest : Text) (q : Fallible CanonicRequest) (c : CanonicRequest)
      → r.path ≡ codes "/openai/deployments/" ++ (name ++ 47 ∷ rest)
      → HasNoSlash name
      → for_azure (some r) q ≡ ok c
      → (c.provider ≡ codes "azure") × (c.model ≡ name)
  unfolding for_azure
  for_azure-model r name rest (failed e) c path h k = cc
  for_azure-model r name rest (ok d) c path h k =
      let same : record d { provider = codes "azure"; model = model_of (some r) d.model } ≡ c =
        cc in
      (
        ap (λ (x : CanonicRequest). x.provider) (sym same),
        ap (λ (x : CanonicRequest). x.model) (sym same)
            ∙ model_of-deployment r d.model name rest path h,
      )

  -- A request to a path /openai/deployments/NAME/... that is canonicalized has NAME for its model,
  -- whatever its body says, and azure for its provider.
  pub azure_canonicalize-model :
      (r : Request) (name rest body : Text) (c : CanonicRequest)
      → r.path ≡ codes "/openai/deployments/" ++ (name ++ 47 ∷ rest)
      → HasNoSlash name
      → azure_canonicalize j (some r) body ≡ ok c
      → (c.provider ≡ codes "azure") × (c.model ≡ name)
  unfolding azure_canonicalize
  azure_canonicalize-model r name rest [] c path h k = cc
  azure_canonicalize-model r name rest (x ∷ body) c path h k =
      for_azure-model r name rest (canonicalize_openai j (some r) (x ∷ body)) c path h k
