-- ===== src/Proxy/Forward/Laws.antt =====
-- pkg/proxy/handler.go: which headers copyHeaders passes on.
use mathlib.Core.List.{append_assoc, append-nil}
use reelm.Base.{
  Bool, ◌++◌, codes, if◌then◌else◌, ◌≡◌, refl, sym, ap, ◌∙◌, true, false, List, [], ◌∷◌, Text, ◌==◌,
  eq_iff, any, to_lower, Bool-cases, inl, inr,
}
use reelm.Http.Headers.{
  Header, canonical_key, values, values_at, add, values-add, to_lower-canonical_key,
}
use reelm.Proxy.Forward.{hop_by_hop, is_hop_by_hop_header, add_all, copy_headers}

-- Names with one canonical key are both headers of one hop, or neither is.
is_hop_by_hop_header-eq :
    (k j : Text)
    → canonical_key k ≡ canonical_key j
    → is_hop_by_hop_header k ≡ is_hop_by_hop_header j
unfolding is_hop_by_hop_header
is_hop_by_hop_header-eq k j h =
    ap (λ (n : Text). any (λ x. x == n) hop_by_hop)
      (sym (to_lower-canonical_key k) ∙ ap to_lower h ∙ to_lower-canonical_key j)

values-add_all :
    (k j : Text) (vs : List Text) (h : Header)
    → (canonical_key k == canonical_key j) ≡ false
    → values j (add_all k vs h) ≡ values j h
unfolding add_all
values-add_all k j [] h e = refl
values-add_all k j (v ∷ vs) h e = values-add_all k j vs (add k v h) e ∙ values-add k j v h ∙ simp e

apart :
    (k j : Text)
    → is_hop_by_hop_header k ≡ false
    → is_hop_by_hop_header j ≡ true
    → (canonical_key k == canonical_key j) ≡ false
apart k j p q = elim (Bool-cases (canonical_key k == canonical_key j)) [
  | inl e ↦ cc (is_hop_by_hop_header-eq k j ((eq_iff (canonical_key k) (canonical_key j)).0 e))
  | inr e ↦ e
]

-- The headers of one hop of RFC 2616, 13.5.1, in lower case
abbrev pub one_hop : List Text
one_hop =
    codes "connection"
    ∷ codes "keep-alive"
    ∷ codes "proxy-authenticate"
    ∷ codes "proxy-authorization"
    ∷ codes "te"
    ∷ codes "trailers"
    ∷ codes "transfer-encoding"
    ∷ codes "upgrade"
    ∷ []

-- The name is one of them, in any spelling of its letters.
abbrev pub is_one_hop : Text → Bool
is_one_hop name = any (λ h. h == to_lower name) one_hop

-- All values that a header has under a name, in their order
abbrev pub collected : Text → Header → List Text
collected name [] = []
collected name ((k, vv) ∷ h) =
    let rest = collected name h in
    if canonical_key k == canonical_key name then vv ++ rest else rest

is_hop_by_hop_header-is_one_hop : (name : Text) → is_hop_by_hop_header name ≡ is_one_hop name
unfolding is_hop_by_hop_header
is_hop_by_hop_header-is_one_hop name = refl

values-add_all_same :
    (k j : Text) (vs : List Text) (h : Header)
    → (canonical_key k == canonical_key j) ≡ true
    → values j (add_all k vs h) ≡ values j h ++ vs
unfolding add_all
values-add_all_same k j [] h e = sym (append-nil (values j h))
values-add_all_same k j (v ∷ vs) h e =
    let same : values k h ≡ values j h =
      unfold values in
      ap (λ (n : Text). values_at n h) ((eq_iff (canonical_key k) (canonical_key j)).0 e) in
    values-add_all_same k j vs (add k v h) e
    ∙ ap (λ (l : List Text). l ++ vs) (values-add k j v h ∙ simp (e, same))
    ∙ append_assoc (values j h) (v ∷ []) vs

values-copy_headers_one_hop :
    (name : Text) (src dst : Header)
    → is_hop_by_hop_header name ≡ true
    → values name (copy_headers src dst) ≡ values name dst
unfolding copy_headers
values-copy_headers_one_hop name [] dst h = refl
values-copy_headers_one_hop name ((k, vv) ∷ src) dst h =
    elim (Bool-cases (is_hop_by_hop_header k)) [
      | inl e ↦ simp e (values-copy_headers_one_hop name src dst h)
      | inr e ↦ simp e (
          values-copy_headers_one_hop name src (add_all k vv dst) h
          ∙ values-add_all k name vv dst (apart k name e h))
    ]

values-copy_headers_other :
    (name : Text) (src dst : Header)
    → is_hop_by_hop_header name ≡ false
    → values name (copy_headers src dst) ≡ values name dst ++ collected name src
unfolding copy_headers
values-copy_headers_other name [] dst h = sym (append-nil (values name dst))
values-copy_headers_other name ((k, vv) ∷ src) dst h =
    elim (Bool-cases (canonical_key k == canonical_key name)) [
      | inl e ↦
          let same =
            is_hop_by_hop_header-eq k name ((eq_iff (canonical_key k) (canonical_key name)).0 e) in
          simp (e, same ∙ h)
            (values-copy_headers_other name src (add_all k vv dst) h
              ∙ ap (λ (l : List Text). l ++ collected name src)
                  (values-add_all_same k name vv dst e)
              ∙ append_assoc (values name dst) vv (collected name src))
      | inr e ↦ elim (Bool-cases (is_hop_by_hop_header k)) [
        | inl f ↦ simp (e, f) (values-copy_headers_other name src dst h)
        | inr f ↦
            simp (e, f)
              (values-copy_headers_other name src (add_all k vv dst) h
                ∙ ap (λ (l : List Text). l ++ collected name src) (values-add_all k name vv dst e))
      ]
    ]

-- copyHeaders leaves the destination with its own values of each of the eight headers that RFC 2616
-- lists as those of one hop, however its name is spelled, and adds to its values of any other header
-- all those of the source, in their order.
pub values-copy_headers :
    (name : Text) (src dst : Header)
    → values name (copy_headers src dst)
      ≡ (if is_one_hop name then values name dst else values name dst ++ collected name src)
values-copy_headers name src dst = elim (Bool-cases (is_one_hop name)) [
  | inl e ↦
      simp e (values-copy_headers_one_hop name src dst (is_hop_by_hop_header-is_one_hop name ∙ e))
  | inr e ↦
      simp e (values-copy_headers_other name src dst (is_hop_by_hop_header-is_one_hop name ∙ e))
]
