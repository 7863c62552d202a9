-- ===== src/Providers/OpenAi/Respelled.antt =====
-- pkg/hasher/providers/openai.go: requests that mean the same have one canonical form.
use reelm.Base.{
  ℕ, ◌≡◌, sym, ap, ◌∙◌, false, Option, List, [], ◌∷◌, ◌++◌, map, Text, replace_all, ok,
}
use reelm.Hasher.{str, Tool, CanonicRequest, normalize_text}
use reelm.Hasher.Normal.{lf, cr, occurs, normalize_text-line_endings}
use reelm.Hasher.Order.{HasDistinctNames, Reordered, canonicalize_tools-Reordered}
use reelm.Http.{Request}
use reelm.Providers.Shared.{JsonCode}
use reelm.Providers.OpenAi.{
  MessageSchema, RequestSchema, content_text, canonicalize_message, canonic_request, parsed,
  canonicalize, parameters_of,
}

-- Two ways of sending one request: its tools, no two of one name, are in another order, or the line
-- feeds of one message's text become pairs of a carriage return and a line feed.
pub data Respelled (p q : RequestSchema) : Type 0 where
  tools_reordered :
      (r : RequestSchema) (ts us : List Tool)
      → Reordered ts us
      → HasDistinctNames ts
      → p ≡ record r { tools = ts }
      → q ≡ record r { tools = us }
      → Respelled p q
  line_endings :
      (r : RequestSchema) (ms : List MessageSchema) (m : MessageSchema) (text : Text)
      (ns : List MessageSchema)
      → occurs cr text ≡ false
      → p ≡ record r { messages = ms ++ record m { content = str text } ∷ ns }
      → q ≡ record r {
        messages =
            ms ++ record m { content = str (replace_all text (lf ∷ []) (cr ∷ lf ∷ [])) } ∷ ns;
      }
      → Respelled p q

module _ (j : JsonCode RequestSchema) (req : Option Request) where
  map-middle :
      (ms : List MessageSchema) (m n : MessageSchema) (ns : List MessageSchema)
      → canonicalize_message j m ≡ canonicalize_message j n
      → map (canonicalize_message j) (ms ++ m ∷ ns) ≡ map (canonicalize_message j) (ms ++ n ∷ ns)
  map-middle [] m n ns e = λ i. e i ∷ map (canonicalize_message j) ns
  map-middle (x ∷ ms) m n ns e = λ i. canonicalize_message j x ∷ map-middle ms m n ns e i

  canonicalize_message-content :
      (m : MessageSchema) (s t : Text)
      → normalize_text s ≡ normalize_text t
      → canonicalize_message j (record m { content = str s })
        ≡ canonicalize_message j (record m { content = str t })
  unfolding canonicalize_message content_text
  canonicalize_message-content m s t e =
      λ i. record (canonicalize_message j (record m { content = str s })) { content = e i }

  canonic_request-Respelled :
      (p q : RequestSchema) → Respelled p q → canonic_request j req p ≡ canonic_request j req q
  unfolding canonic_request parameters_of
  canonic_request-Respelled p q (tools_reordered r ts us o d e f) =
      ap (canonic_request j req) e
      ∙ (λ i. record (canonic_request j req r) { tools = canonicalize_tools-Reordered ts us o d i })
      ∙ sym (ap (canonic_request j req) f)
  canonic_request-Respelled p q (line_endings r ms m text ns h e f) =
      ap (canonic_request j req) e
      ∙ (λ i. record (canonic_request j req r) {
        messages =
            map-middle ms _ _ ns
              (canonicalize_message-content m text _ (sym (normalize_text-line_endings text h).0))
              i;
      })
      ∙ sym (ap (canonic_request j req) f)

  canonicalize_lem :
      (c : ℕ) (body : Text) (p : RequestSchema)
      → j.parse (c ∷ body) ≡ ok p
      → canonicalize j req (c ∷ body) ≡ ok (canonic_request j req p)
  unfolding canonicalize parsed
  canonicalize_lem c body p h = ap (parsed j req) h

  -- Two bodies that decode to requests which differ in the order of their tools, no two of
  -- which have one name, or in the line endings of one message's text, have one canonical request.
  pub canonicalize-Respelled :
      (a b : ℕ) (s t : Text) (p q : RequestSchema)
      → j.parse (a ∷ s) ≡ ok p
      → j.parse (b ∷ t) ≡ ok q
      → Respelled p q
      → canonicalize j req (a ∷ s) ≡ canonicalize j req (b ∷ t)
  canonicalize-Respelled a b s t p q h k r =
      canonicalize_lem a s p h
      ∙ ap (λ (c : CanonicRequest). ok c) (canonic_request-Respelled p q r)
      ∙ sym (canonicalize_lem b t q k)
