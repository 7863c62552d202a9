-- ===== src/Hasher.antt =====
-- Package hasher: the provider-agnostic request, its normal form and its hash.
pub mod Normal
pub mod Tools
pub mod Order
pub mod Tests
use mathlib.Core.List.{flat_map}
use reelm.Base.{
  ℕ, ◌+◌, ◌-◌, ◌/◌, ◌%◌, Bool, true, false, not, trim_right, eqb, Option, none, some, List, [], ◌∷◌,
  ◌++◌, Text, codes, ◌==◌, any, ltb, trim_space, replace_all, text_lt, if◌then◌else◌,
}

-- interface{} as encoding/json fills it; a number is the text that Go prints for it.
mutual
  pub data Json : Type 0 where
    null : Json
    bool : Bool → Json
    num : Text → Json
    str : Text → Json
    arr : Items → Json
    obj : Fields → Json

  pub data Items : Type 0 where
    nil : Items
    cons : Json → Items → Items

  pub data Fields : Type 0 where
    end : Fields
    field : Text → Json → Fields → Fields

-- A map[string]interface{}
abbrev pub Dict : Type 0
Dict = List (Text × Json)

pub record ToolCall : Type 0 where
  pub id : Text
  pub type : Text
  pub name : Text
  pub arguments : Text

pub record Message : Type 0 where
  pub role : Text
  pub content : Text
  pub name : Text
  pub tool_call_id : Text
  pub tool_calls : List ToolCall

pub record Tool : Type 0 where
  pub type : Text
  pub function : Dict

pub record CanonicRequest : Type 0 where
  pub namespace : Text
  pub provider : Text
  pub endpoint : Text
  pub method : Text
  pub model : Text
  pub messages : List Message
  pub parameters : Dict
  pub tools : List Tool
  pub extra_fields : Dict

-- NormalizeText
unfoldable pub normalize_text : Text → Text
normalize_text s =
    trim_space (replace_all (replace_all s (13 ∷ 10 ∷ []) (10 ∷ [])) (13 ∷ []) (10 ∷ []))

unfoldable pub entry : Text → Dict → Option Json
entry k [] = none
entry k ((j, v) ∷ m) = if j == k then some v else entry k m

-- `m[k].(string)`, and the empty text where that is not a string
abbrev pub text_of : Option Json → Text
text_of (some (str s)) = s
text_of _ = []

abbrev pub tool_name : Tool → Text
tool_name t = text_of (entry (codes "name") t.function)

-- CanonicalizeJSON: whether it succeeded, and the bytes that it returns. `decode` and `encode` are
-- encoding/json's Unmarshal and an Encoder that does not escape HTML.
unfoldable pub encoded : Text → Option Text → Bool × Text
encoded raw none = (false, raw)
encoded raw (some bytes) = (true, trim_right (λ c. eqb c 10) bytes)

unfoldable pub canonicalize_json : (Text → Option Json) → (Json → Option Text) → Text → Bool × Text
canonicalize_json decode encode raw = elim (decode raw) [
  | none ↦ (false, raw)
  | some val ↦ encoded raw (encode val)
]

-- sort.SliceStable by the name, as an insertion sort
unfoldable pub insert_tool : Tool → List Tool → List Tool
insert_tool t [] = t ∷ []
insert_tool t (u ∷ us) =
    let rest = insert_tool t us in
    if text_lt (tool_name u) (tool_name t) then u ∷ rest else t ∷ u ∷ us

unfoldable pub sort_tools : List Tool → List Tool
sort_tools [] = []
sort_tools (t ∷ ts) = insert_tool t (sort_tools ts)

-- CanonicalizeTools
unfoldable pub canonicalize_tools : List Tool → List Tool
canonicalize_tools [] = []
canonicalize_tools (t ∷ []) = t ∷ []
canonicalize_tools (t ∷ u ∷ us) = sort_tools (t ∷ u ∷ us)

-- The keys of CleanParameters
abbrev pub always_ignored : List Text
always_ignored =
    codes "user" ∷ codes "stream" ∷ codes "stream_options" ∷ codes "n" ∷ codes "seed" ∷ []

unfoldable pub is_ignored : List Text → Text → Bool
is_ignored ignored_keys k = any (λ i. i == k) (always_ignored ++ ignored_keys)

unfoldable pub clean_entries : List Text → Dict → Dict
clean_entries ignored_keys [] = []
clean_entries ignored_keys ((k, v) ∷ params) =
    let rest = clean_entries ignored_keys params in
    if not (is_ignored ignored_keys k) then (k, v) ∷ rest else rest

-- CleanParameters; none is the nil map.
unfoldable pub clean_parameters : Option Dict → List Text → Option Dict
clean_parameters none ignored_keys = none
clean_parameters (some params) ignored_keys = some (clean_entries ignored_keys params)

abbrev hex_digit : ℕ → ℕ
hex_digit n = if ltb n 10 then b'0' + n else b'a' + n - 10

-- hex.EncodeToString
unfoldable pub hex : List ℕ → Text
hex [] = []
hex (x ∷ xs) = hex_digit (x / 16) ∷ hex_digit (x % 16) ∷ hex xs

-- Hash of the DefaultHasher, with encoding/json's Marshal and SHA-256 given; none is an error.
unfoldable pub hash :
    (CanonicRequest → Option Text) → (Text → List ℕ) → Option CanonicRequest → Option Text
hash marshal sum256 none = none
hash marshal sum256 (some canonic) = elim (marshal canonic) [
  | none ↦ none
  | some bytes ↦ some (hex (sum256 bytes))
]

-- All that the hasher computes with.
unfoldable pub hasher_code : Unit {0}
unfolding hash hex clean_parameters clean_entries is_ignored canonicalize_tools sort_tools
    insert_tool entry canonicalize_json encoded normalize_text replace_all trim_space text_lt ◌==◌
hasher_code = tt
