-- ===== src/Store/Serializer.antt =====
-- pkg/store/serializer.go: which serializer a format's name means, and its extension. The encodings
-- themselves are those of `Backend`.
use reelm.Base.{
  ◌||◌, Option, none, some, [], Text, codes, ◌==◌, trim_space, to_lower, if◌then◌else◌,
}

-- YAMLSerializer and JSONSerializer
pub data Serializer : Type 0 where
  yaml json : Serializer

-- Extension
abbrev pub extension : Serializer → Text
extension yaml = codes ".yaml"
extension json = codes ".json"

-- GetSerializer; none is its error.
unfoldable pub get_serializer : Text → Option Serializer
get_serializer format =
    let name = to_lower (trim_space format) in
    if name == codes "yaml" || name == codes "yml" || name == []
    then some yaml
    else if name == codes "json"
    then some json
    else none

-- The choice by a file's extension, in LoadByHash, List and RebuildIndex.
unfoldable pub serializer_of : Text → Serializer
serializer_of extension = if extension == codes ".json" then json else yaml
