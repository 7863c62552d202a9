-- ===== src/Providers/Shared.antt =====
-- What the canonicalizers of pkg/hasher/providers share. The decoding of a body into a schema, and
-- the encodings of JSON values, are those of encoding/json, and parameters; a number is the text
-- that Go prints for it.
use reelm.Base.{not, Option, none, some, List, [], ◌∷◌, Text, codes, ◌==◌, Fallible, if◌then◌else◌}
use reelm.Hasher.{
  Json, null, num, str, arr, obj, Items, nil, cons, Fields, end, field, Dict, canonicalize_json,
}
use reelm.Http.{Request}
use reelm.Http.Headers.{get}

-- encoding/json: Unmarshal into a schema and into interface{}, Marshal, and an Encoder that does
-- not escape HTML. An error of the last three has no text.
pub record JsonCode (S : Type 0) : Type 0 where
  pub parse : Text → Fallible S
  pub decode : Text → Option Json
  pub marshal : Json → Option Text
  pub encode : Json → Option Text

-- What a marshalling whose error is dropped leaves.
abbrev pub bytes_of : Option Text → Text
bytes_of none = []
bytes_of (some t) = t

-- Marshal and CanonicalizeJSON, whose errors are dropped.
unfoldable pub canonical_text : {S : Type 0} → JsonCode S → Json → Text
canonical_text j v = (canonicalize_json j.decode j.encode (bytes_of (j.marshal v))).1

-- `if parsed.X != nil { params[key] = *parsed.X }`
abbrev pub number_param : Text → Option Text → Dict
number_param key none = []
number_param key (some n) = (key, num n) ∷ []

abbrev pub json_param : Text → Json → Dict
json_param key null = []
json_param key v = (key, v) ∷ []

-- The namespace, the path and the method, from the request or else by default.
abbrev pub namespace_of : Option Request → Text
namespace_of none = []
namespace_of (some r) = get (codes "X-Reelm-Namespace") r.header

abbrev pub or_text : Text → Text → Text
or_text s default = if not (s == []) then s else default

abbrev pub path_or : Option Request → Text → Text
path_or none default = default
path_or (some r) default = or_text r.path default

abbrev pub method_of : Option Request → Text
method_of none = codes "POST"
method_of (some r) = or_text r.method (codes "POST")

-- A []interface{} as a list, and an absent key of a map, which is nil.
abbrev pub values_of : Items → List Json
values_of nil = []
values_of (cons v vs) = v ∷ values_of vs

unfoldable pub field_of : Text → Fields → Json
field_of key end = null
field_of key (field k v fs) = if k == key then v else field_of key fs

-- `v, _ := m[key].(string)`
abbrev pub text_or_empty : Json → Text
text_or_empty (str s) = s
text_or_empty _ = []

-- `v, _ := x.([]interface{})`, and of a map
abbrev pub array_or_empty : Json → List Json
array_or_empty (arr items) = values_of items
array_or_empty _ = []

abbrev pub fields_or_empty : Json → Fields
fields_or_empty (obj fs) = fs
fields_or_empty _ = end
