-- ===== src/Hasher/Tools.antt =====
-- pkg/hasher/canonicalize.go: the order of the tools, and the parameters that are left out.
use mathlib.Core.List.Perm
use mathlib.Core.List.{Perm}
use reelm.Base.{
  some_eq, ◌≡◌, refl, sym, ap, ◌∙◌, false, none, some, List, [], ◌∷◌, arith, Text, ◌==◌, eq_iff,
  text_lt, All, if◌then◌else◌, Bool-cases, inl, inr,
}
use reelm.Base.Strings.Order.{text_lt_asymm, text_lt_negtrans, text_lt_total}
use reelm.Hasher.{
  Tool, Dict, tool_name, entry, insert_tool, sort_tools, canonicalize_tools, is_ignored,
  clean_entries, clean_parameters,
}

-- No tool comes after one with a greater name.
abbrev pub IsSorted : List Tool → Type 0
IsSorted [] = Unit
IsSorted (t ∷ ts) = All (λ u. text_lt (tool_name u) (tool_name t) ≡ false) ts × IsSorted ts

abbrev Above : Tool → List Tool → Type 0
Above t ts = All (λ u. text_lt (tool_name u) (tool_name t) ≡ false) ts

Above-trans :
    (s t : Tool) (ts : List Tool)
    → text_lt (tool_name t) (tool_name s) ≡ false
    → Above t ts
    → Above s ts
Above-trans s t [] h k = tt
Above-trans s t (u ∷ ts) h (k, l) =
    (text_lt_negtrans (tool_name s) (tool_name t) (tool_name u) h k, Above-trans s t ts h l)

Above-insert_tool :
    (s t : Tool) (ts : List Tool)
    → text_lt (tool_name t) (tool_name s) ≡ false
    → Above s ts
    → Above s (insert_tool t ts)
unfolding insert_tool
Above-insert_tool s t [] h k = (h, tt)
Above-insert_tool s t (u ∷ ts) h (k, l) = elim (Bool-cases (text_lt (tool_name u) (tool_name t))) [
  | inl e ↦ simp e (k, Above-insert_tool s t ts h l)
  | inr e ↦ simp e (h, (k, l))
]

insert_tool-IsSorted : (t : Tool) (ts : List Tool) → IsSorted ts → IsSorted (insert_tool t ts)
unfolding insert_tool
insert_tool-IsSorted t [] h = (tt, tt)
insert_tool-IsSorted t (u ∷ ts) (k, h) = elim (Bool-cases (text_lt (tool_name u) (tool_name t))) [
  | inl e ↦ simp e (
    Above-insert_tool u t ts (text_lt_asymm (tool_name u) (tool_name t) e) k,
    insert_tool-IsSorted t ts h,
  )
  | inr e ↦ simp e ((refl, Above-trans t u ts e k), (k, h))
]

sort_tools-IsSorted : (ts : List Tool) → IsSorted (sort_tools ts)
unfolding sort_tools
sort_tools-IsSorted [] = tt
sort_tools-IsSorted (t ∷ ts) = insert_tool-IsSorted t (sort_tools ts) (sort_tools-IsSorted ts)

insert_tool-perm : (t : Tool) (ts : List Tool) → Perm (insert_tool t ts) (t ∷ ts)
unfolding insert_tool
insert_tool-perm t [] = Perm.refl (t ∷ [])
insert_tool-perm t (u ∷ ts) = elim (Bool-cases (text_lt (tool_name u) (tool_name t))) [
  | inl e ↦ simp e (Perm.trans (Perm.cons u (insert_tool-perm t ts)) (Perm.swap t u ts))
  | inr e ↦ simp e (Perm.refl (t ∷ u ∷ ts))
]

sort_tools-perm : (ts : List Tool) → Perm (sort_tools ts) ts
unfolding sort_tools
sort_tools-perm [] = Perm.refl []
sort_tools-perm (t ∷ ts) =
    Perm.trans (insert_tool-perm t (sort_tools ts)) (Perm.cons t (sort_tools-perm ts))

-- CanonicalizeTools sorts the tools by name and neither drops nor repeats one.
pub canonicalize_tools-IsSorted :
    (ts : List Tool) → IsSorted (canonicalize_tools ts) × Perm (canonicalize_tools ts) ts
unfolding canonicalize_tools
canonicalize_tools-IsSorted [] = (tt, Perm.refl [])
canonicalize_tools-IsSorted (t ∷ []) = ((tt, tt), Perm.refl (t ∷ []))
canonicalize_tools-IsSorted (t ∷ u ∷ ts) =
    (sort_tools-IsSorted (t ∷ u ∷ ts), sort_tools-perm (t ∷ u ∷ ts))

pub insert_tool_comm :
    (s t : Tool) (ts : List Tool)
    → (tool_name s == tool_name t) ≡ false
    → insert_tool s (insert_tool t ts) ≡ insert_tool t (insert_tool s ts)
unfolding insert_tool
insert_tool_comm s t [] h = ground (
  arith,
  text_lt_asymm (tool_name s) (tool_name t),
  text_lt_asymm (tool_name t) (tool_name s),
  text_lt_total (tool_name s) (tool_name t),
)
insert_tool_comm s t (u ∷ ts) h =
    let a = tool_name s in
    let b = tool_name t in
    let c = tool_name u in
    ground (
      arith,
      text_lt_asymm a b,
      text_lt_asymm b a,
      text_lt_total a b,
      text_lt_negtrans a c b,
      text_lt_negtrans b c a,
      text_lt_negtrans c a b,
      text_lt_negtrans c b a,
      text_lt_asymm c a,
      text_lt_asymm c b,
      insert_tool_comm s t ts h,
    )

entry-clean_entries :
    (keys : List Text) (params : Dict) (k : Text)
    → entry k (clean_entries keys params) ≡ (if is_ignored keys k then none else entry k params)
unfolding entry clean_entries
entry-clean_entries keys [] k = ground arith
entry-clean_entries keys ((j, v) ∷ params) k =
    ground (arith, eq_iff j k, entry-clean_entries keys params k)

-- CleanParameters takes away exactly the ignored keys: every other key keeps its value, or
-- stays absent.
pub entry-clean_parameters :
    (keys : List Text) (params clean : Dict)
    → clean_parameters (some params) keys ≡ some clean
    → (k : Text) → entry k clean ≡ (if is_ignored keys k then none else entry k params)
unfolding clean_parameters
entry-clean_parameters keys params clean h k =
    ap (entry k) (sym (some_eq h)) ∙ entry-clean_entries keys params k
