-- ===== src/Store/Tests/Codec.antt =====
-- A database and encodings to run the store of pkg/store/store.go on: the database is a function,
-- and a cassette is the packed list of its fields.
use reelm.Base.{
  ℕ, suc, ◌-◌, ◌≡◌, refl, sym, ap, ◌∙◌, Bool, true, false, ◌&&◌, Option, none, some, List, [], ◌∷◌,
  ◌++◌, arith, Text, ◌==◌, eqb, some_eq, if◌then◌else◌,
}
use reelm.Base.Int.{ℤ, pos, negsuc}
use reelm.Store.Cassette.{Cassette, StreamChunk}
use reelm.Store.Backend.{Backend, Bucket, same_bucket, IsLawful}

-- Texts in one text: each character is one more, and 0 ends a text.
abbrev shifted : Text → Text
shifted [] = []
shifted (c ∷ s) = suc c ∷ shifted s

abbrev pub pack : List Text → Text
pack [] = []
pack (t ∷ ts) = shifted t ++ 0 ∷ pack ts

abbrev on_first : ℕ → List Text → List Text
on_first c [] = (c ∷ []) ∷ []
on_first c (t ∷ ts) = (c ∷ t) ∷ ts

abbrev pub unpack : Text → List Text
unpack [] = []
unpack (c ∷ s) = let rest = unpack s in if eqb c 0 then [] ∷ rest else on_first (c - 1) rest

unpack-shifted : (t s : Text) → unpack (shifted t ++ 0 ∷ s) ≡ t ∷ unpack s
unpack-shifted [] s = refl
unpack-shifted (c ∷ t) s = rw (unpack-shifted t s) (ground arith)

unpack-pack : (ts : List Text) → unpack (pack ts) ≡ ts
unpack-pack [] = refl
unpack-pack (t ∷ ts) = unpack-shifted t (pack ts) ∙ ap (λ (us : List Text). t ∷ us) (unpack-pack ts)

-- Flags and signed numbers as texts.
abbrev flag : Bool → Text
flag true = 1 ∷ []
flag false = []

abbrev flag_of : Text → Bool
flag_of [] = false
flag_of (c ∷ s) = true

flag_of-flag : (b : Bool) → flag_of (flag b) ≡ b
flag_of-flag true = refl
flag_of-flag false = refl

abbrev head : Text → ℕ
head [] = 0
head (c ∷ s) = c

abbrev signed : ℤ → Text
signed (pos n) = n ∷ []
signed (negsuc n) = n ∷ 1 ∷ []

abbrev signed_of : Text → ℤ
signed_of (n ∷ m ∷ s) = negsuc n
signed_of s = pos (head s)

signed_of-signed : (n : ℤ) → signed_of (signed n) ≡ n
signed_of-signed (pos n) = refl
signed_of-signed (negsuc n) = refl

abbrev maybe : Option ℕ → Text
maybe none = []
maybe (some n) = n ∷ []

abbrev maybe_of : Text → Option ℕ
maybe_of [] = none
maybe_of (n ∷ s) = some n

maybe_of-maybe : (o : Option ℕ) → maybe_of (maybe o) ≡ o
maybe_of-maybe none = refl
maybe_of-maybe (some n) = refl

-- Lists of pairs as lists of texts.
abbrev flat : List (Text × Text) → List Text
flat [] = []
flat ((k, v) ∷ ps) = k ∷ v ∷ flat ps

abbrev pairs : List Text → List (Text × Text)
pairs (k ∷ v ∷ ts) = (k, v) ∷ pairs ts
pairs ts = []

pairs-flat : (ps : List (Text × Text)) → pairs (flat ps) ≡ ps
pairs-flat [] = refl
pairs-flat ((k, v) ∷ ps) = ap (λ (qs : List (Text × Text)). (k, v) ∷ qs) (pairs-flat ps)

abbrev flat_chunks : List StreamChunk → List Text
flat_chunks [] = []
flat_chunks (c ∷ cs) = c.event ∷ signed c.delay ∷ flat_chunks cs

abbrev chunks_of : List Text → List StreamChunk
chunks_of (k ∷ v ∷ ts) = record { event = k; delay = signed_of v } ∷ chunks_of ts
chunks_of ts = []

chunks_of-flat_chunks : (cs : List StreamChunk) → chunks_of (flat_chunks cs) ≡ cs
chunks_of-flat_chunks [] = refl
chunks_of-flat_chunks (c ∷ cs) =
    λ i. record { event = c.event; delay = signed_of-signed c.delay i } ∷ chunks_of-flat_chunks cs i

abbrev item : ℕ → List Text → Text
item n [] = []
item n (t ∷ ts) = let rest = item (n - 1) ts in if eqb n 0 then t else rest

abbrev fields : Cassette → List Text
fields c =
    (c.version ∷ [])
    ∷ c.hash
    ∷ c.namespace
    ∷ c.provider
    ∷ c.endpoint
    ∷ (c.recorded_at ∷ [])
    ∷ maybe c.expires_at
    ∷ c.request.method
    ∷ c.request.path
    ∷ pack (flat c.request.headers)
    ∷ c.request.body
    ∷ (c.response.status_code ∷ [])
    ∷ pack (flat c.response.headers)
    ∷ c.response.body
    ∷ pack (flat_chunks c.response.chunks)
    ∷ signed c.response.latency
    ∷ flag c.response.is_stream
    ∷ pack (flat c.metadata)
    ∷ []

abbrev cassette_of : List Text → Cassette
cassette_of ts = record {
  version = head (item 0 ts);
  hash = item 1 ts;
  namespace = item 2 ts;
  provider = item 3 ts;
  endpoint = item 4 ts;
  recorded_at = head (item 5 ts);
  expires_at = maybe_of (item 6 ts);
  request = record {
    method = item 7 ts;
    path = item 8 ts;
    headers = pairs (unpack (item 9 ts));
    body = item 10 ts;
  };
  response = record {
    status_code = head (item 11 ts);
    headers = pairs (unpack (item 12 ts));
    body = item 13 ts;
    chunks = chunks_of (unpack (item 14 ts));
    latency = signed_of (item 15 ts);
    is_stream = flag_of (item 16 ts);
  };
  metadata = pairs (unpack (item 17 ts));
}

headers_back : (hs : List (Text × Text)) → pairs (unpack (pack (flat hs))) ≡ hs
headers_back hs = ap pairs (unpack-pack (flat hs)) ∙ pairs-flat hs

cassette_of-fields : (c : Cassette) → cassette_of (fields c) ≡ c
cassette_of-fields c = λ i. record {
  version = c.version;
  hash = c.hash;
  namespace = c.namespace;
  provider = c.provider;
  endpoint = c.endpoint;
  recorded_at = c.recorded_at;
  expires_at = maybe_of-maybe c.expires_at i;
  request = record {
    method = c.request.method;
    path = c.request.path;
    headers = headers_back c.request.headers i;
    body = c.request.body;
  };
  response = record {
    status_code = c.response.status_code;
    headers = headers_back c.response.headers i;
    body = c.response.body;
    chunks =
        (ap chunks_of (unpack-pack (flat_chunks c.response.chunks))
            ∙ chunks_of-flat_chunks c.response.chunks)
          i;
    latency = signed_of-signed c.response.latency i;
    is_stream = flag_of-flag c.response.is_stream i;
  };
  metadata = headers_back c.metadata i;
}

abbrev pub decode : Text → Option Cassette
decode t = some (cassette_of (unpack t))

abbrev pub table : Backend
table = record {
  Db = Bucket → Text → Option Text;
  get = λ d c k. d c k;
  put = λ d c k v. some (λ a j. if same_bucket c a && k == j then some v else d a j);
  delete = λ d c k. some (λ a j. if same_bucket c a && k == j then none else d a j);
  create_bucket = λ d c. some d;
  commit = λ d. some d;
  marshal = λ s c. some (pack (fields c));
  unmarshal = λ s t. decode t;
  marshal_hashes = λ hs. some (pack hs);
  unmarshal_hashes = λ t. some (unpack t);
}

pub table-IsLawful : IsLawful table
table-IsLawful = record {
  get-put = λ {d} {e} c a k j v h. ap (λ (x : table.Db). x a j) (sym (some_eq h));
  get-delete = λ {d} {e} c a k j h. ap (λ (x : table.Db). x a j) (sym (some_eq h));
  get-create_bucket = λ {d} {e} c a j h. ap (λ (x : table.Db). x a j) (sym (some_eq h));
  get-commit = λ {d} {e} a j h. ap (λ (x : table.Db). x a j) (sym (some_eq h));
  unmarshal-marshal = λ s c {t} h.
      ap decode (sym (some_eq h))
      ∙ ap some (ap cassette_of (unpack-pack (fields c)) ∙ cassette_of-fields c);
  unmarshal_hashes-marshal_hashes =
      λ hs {t} h. ap (λ (u : Text). some (unpack u)) (sym (some_eq h)) ∙ ap some (unpack-pack hs);
}
