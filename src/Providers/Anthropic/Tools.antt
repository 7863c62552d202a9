-- ===== src/Providers/Anthropic/Tools.antt =====
-- pkg/hasher/providers/anthropic.go: the order of the tools in a request.
use reelm.Base.{ℕ, ◌≡◌, sym, ap, ◌∙◌, Option, List, ◌∷◌, map, Text, ok}
use reelm.Hasher.Order.{HasDistinctNames, Reordered, canonicalize_tools-Reordered}
use reelm.Http.{Request}
use reelm.Providers.Shared.{JsonCode}
use reelm.Providers.Anthropic.{
  RequestSchema, ToolSchema, tool_of, anthropic_canonic, anthropic_parsed, anthropic_canonicalize,
  anthropic_parameters,
}

module _ (j : JsonCode RequestSchema) (req : Option Request) where
  anthropic_canonicalize_lem :
      (c : ℕ) (body : Text) (p : RequestSchema)
      → j.parse (c ∷ body) ≡ ok p
      → anthropic_canonicalize j req (c ∷ body) ≡ ok (anthropic_canonic j req p)
  unfolding anthropic_canonicalize anthropic_parsed
  anthropic_canonicalize_lem c body p h = ap (anthropic_parsed j req) h

  -- Two bodies that decode to requests which differ in the order of their tools alone have one
  -- canonical request, if no two tools have one name.
  pub anthropic_canonicalize-Reordered :
      (a b : ℕ) (s t : Text) (p : RequestSchema) (tools : List ToolSchema)
      → j.parse (a ∷ s) ≡ ok p
      → j.parse (b ∷ t) ≡ ok (record p { tools = tools })
      → Reordered (map tool_of p.tools) (map tool_of tools)
      → HasDistinctNames (map tool_of p.tools)
      → anthropic_canonicalize j req (a ∷ s) ≡ anthropic_canonicalize j req (b ∷ t)
  unfolding anthropic_canonic anthropic_canonicalize anthropic_parameters
  anthropic_canonicalize-Reordered a b s t p tools h k o d =
      anthropic_canonicalize_lem a s p h
      ∙ (λ i. ok (record (anthropic_canonic j req p) {
        tools = canonicalize_tools-Reordered (map tool_of p.tools) (map tool_of tools) o d i;
      }))
      ∙ sym (anthropic_canonicalize_lem b t (record p { tools = tools }) k)
