-- ===== src/Hasher/Order.antt =====
-- pkg/hasher/canonicalize.go: CanonicalizeTools does not depend on the order of the tools.
use reelm.Base.{◌≡◌, refl, sym, ap, ◌∙◌, false, List, [], ◌∷◌, ◌==◌, eq_comm, All}
use reelm.Hasher.{Tool, tool_name, insert_tool, sort_tools, canonicalize_tools}
use reelm.Hasher.Tools.{insert_tool_comm}

-- No two tools have one name.
abbrev pub HasDistinctNames : List Tool → Type 0
HasDistinctNames [] = Unit
HasDistinctNames (t ∷ ts) = All (λ u. (tool_name t == tool_name u) ≡ false) ts × HasDistinctNames ts

-- The same tools in another order.
pub data Reordered : List Tool → List Tool → Type 0 where
  same : Reordered [] []
  keep : (t : Tool) {ts us : List Tool} → Reordered ts us → Reordered (t ∷ ts) (t ∷ us)
  swap : (t u : Tool) (ts : List Tool) → Reordered (t ∷ u ∷ ts) (u ∷ t ∷ ts)
  trans : {ts us vs : List Tool} → Reordered ts us → Reordered us vs → Reordered ts vs

All-Reordered : (P : Tool → Type 0) {ts us : List Tool} → Reordered ts us → All P ts → All P us
All-Reordered P same h = h
All-Reordered P (keep t p) (h, k) = (h, All-Reordered P p k)
All-Reordered P (swap t u ts) (h, (k, r)) = (k, (h, r))
All-Reordered P (trans p q) h = All-Reordered P q (All-Reordered P p h)

HasDistinctNames-Reordered :
    {ts us : List Tool} → Reordered ts us → HasDistinctNames ts → HasDistinctNames us
HasDistinctNames-Reordered same h = h
HasDistinctNames-Reordered (keep t p) (h, k) =
    (All-Reordered (λ u. (tool_name t == tool_name u) ≡ false) p h, HasDistinctNames-Reordered p k)
HasDistinctNames-Reordered (swap t u ts) ((h, k), (l, r)) =
    ((eq_comm (tool_name u) (tool_name t) ∙ h, l), (k, r))
HasDistinctNames-Reordered (trans p q) h =
    HasDistinctNames-Reordered q (HasDistinctNames-Reordered p h)

sort_tools-Reordered :
    {ts us : List Tool} → Reordered ts us → HasDistinctNames ts → sort_tools ts ≡ sort_tools us
unfolding sort_tools
sort_tools-Reordered same h = refl
sort_tools-Reordered (keep t p) (h, k) = ap (insert_tool t) (sort_tools-Reordered p k)
sort_tools-Reordered (swap t u ts) ((h, k), r) = insert_tool_comm t u (sort_tools ts) h
sort_tools-Reordered (trans p q) h =
    sort_tools-Reordered p h ∙ sort_tools-Reordered q (HasDistinctNames-Reordered p h)

-- A list of one tool or of none is sorted.
canonicalize_tools-eq : (ts : List Tool) → canonicalize_tools ts ≡ sort_tools ts
unfolding canonicalize_tools sort_tools insert_tool
canonicalize_tools-eq [] = refl
canonicalize_tools-eq (t ∷ []) = refl
canonicalize_tools-eq (t ∷ u ∷ ts) = refl

-- However the tools are ordered, CanonicalizeTools gives one list, if no two of them have one name.
pub canonicalize_tools-Reordered :
    (ts us : List Tool)
    → Reordered ts us
    → HasDistinctNames ts
    → canonicalize_tools ts ≡ canonicalize_tools us
canonicalize_tools-Reordered ts us p h =
    canonicalize_tools-eq ts ∙ sort_tools-Reordered p h ∙ sym (canonicalize_tools-eq us)
