-- ===== src/Hasher/Tests.antt =====
-- Runs of pkg/hasher.
use reelm.Base.{◌≡◌, refl, true, false, [], ◌∷◌, Text, codes}
use reelm.Hasher.{Dict, str, bool, Tool, normalize_text, hasher_code}
use reelm.Hasher.Normal.{normalize_text-line_endings}

abbrev named : Text → Tool
named name = record { type = codes "function"; function = (codes "name", str name) ∷ [] }

normalize_text-line_endings_example :
    (normalize_text (codes "a\r\nb") ≡ codes "a\nb")
    × (normalize_text (codes "a\rb") ≡ codes "a\nb")
unfolding hasher_code
normalize_text-line_endings_example = normalize_text-line_endings (codes "a\nb") refl

abbrev params : Dict
params = (codes "seed", bool true) ∷ (codes "top_p", bool false) ∷ []
