-- ===== src/Odm.antt =====
-- odm/db_model.go and odm/index_spec.go: keys, search parameters and the definitions of search
-- indexes, over the values of the package `bson`.
pub mod Client
pub mod Keys
pub mod Collection
pub mod Saving
pub mod Abstract
pub mod Reliable
pub mod Refine
pub mod History
pub mod Race
pub mod Indexes
use go_api_boot.Base.{
  ℕ, Str, codes, List, [], ◌∷◌, ◌++◌, Bool, true, false, not, Option, none, some, Result, ok, err,
  take, ◌/◌, ◌%◌, ltb, ◌+◌, ◌-◌, if◌then◌else◌,
}
use go_api_boot.Base.Dict.{Dict}
use go_api_boot.Strings.{join}

-- A Go int.
pub data ℤ : Type 0 where
  pos : ℕ → ℤ
  negsuc : ℕ → ℤ

-- n <= 0
abbrev pub is_not_positive : ℤ → Bool
is_not_positive (pos n) = not (ltb 0 n)
is_not_positive (negsuc _) = true

mutual
  pub data Bson : Type 0 where
    string : Str → Bson
    int : ℤ → Bson
    boolean : Bool → Bson
    -- An int64 that is not negative.
    int64 : ℕ → Bson
    binary : Str → Bson
    strings : List Str → Bson
    document : Doc → Bson
    -- An array of one document.
    single : Doc → Bson

  -- bson.D: the elements in order
  pub data Doc : Type 0 where
    end : Doc
    field : Str → Bson → Doc → Doc

-- bson.M
abbrev pub Fields : Type 0
Fields = Dict Str Bson

-- A bson.M as a value.
abbrev pub as_doc : Fields → Doc
as_doc [] = end
as_doc ((k, v) ∷ m) = field k v (as_doc m)

-- The score is a float64, by its bits.
pub record SearchHit (M : Type 0) : Type 0 where
  pub score : ℕ
  pub doc : M

pub record VectorSearchParams : Type 0 where
  pub index_name : Str
  pub path : Str
  pub k : ℤ
  pub num_candidates : ℤ
  pub filter : Option Fields

pub record TermSearchParams : Type 0 where
  pub index_name : Str
  pub path : List Str
  pub filter : Option Fields
  pub limit : ℤ

abbrev pub hex_digit : ℕ → ℕ
hex_digit n = if ltb n 10 then b'0' + n else b'a' + (n - 10)

-- hex.EncodeToString(b)
unfoldable pub encode_to_string : Str → Str
encode_to_string [] = []
encode_to_string (c ∷ s) = hex_digit (c / 16) ∷ hex_digit (c % 16) ∷ encode_to_string s

-- HashedKey; the argument is the hash of the package `blake2s`, or its error
unfoldable pub hashed_key : (Str → Result Str Str) → List Str → Result Str Str
unfolding join encode_to_string
hashed_key blake2s [] = ok []
hashed_key blake2s (f ∷ fields) = elim (blake2s (join (f ∷ fields) (codes ">"))) [
  | ok sum ↦ ok (take 12 (encode_to_string sum))
  | err e ↦ err e
]

-- mongo.SearchIndexModel: its definition, and the name and the type of its options.
pub record SearchIndexModel : Type 0 where
  pub definition : Doc
  pub name : Str
  pub index_type : Str

pub record VectorIndexSpec : Type 0 where
  pub name : Str
  pub field_type : Str
  pub path : Str
  pub num_dimensions : ℤ
  pub similarity : Str
  pub quantization : Str

-- The tag `omitempty` of a string.
abbrev omit_empty : Str → Str → Doc → Doc
omit_empty key [] d = d
omit_empty key (c ∷ s) d = field key (string (c ∷ s)) d

-- A specification as `bson` marshals it by its tags.
unfoldable pub spec_doc : VectorIndexSpec → Doc
spec_doc v = field (codes "type") (string v.field_type) (
    field (codes "path") (string v.path) (
      field (codes "numDimensions") (int v.num_dimensions) (
        omit_empty (codes "similarity") v.similarity
          (omit_empty (codes "quantization") v.quantization end))))

-- VectorIndexSpec.Model
unfoldable pub vector_model : VectorIndexSpec → SearchIndexModel
unfolding spec_doc
vector_model v = record {
  definition = field (codes "fields") (single (spec_doc v)) end;
  name = v.name;
  index_type = codes "vectorSearch";
}

pub record TermSearchIndexSpec : Type 0 where
  pub name : Str
  pub paths : List Str

unfoldable pub term_fields : List Str → Doc
term_fields [] = end
term_fields (path ∷ paths) =
    field path (document (field (codes "type") (string (codes "string")) end)) (term_fields paths)

-- TermSearchIndexSpec.Model
unfoldable pub term_model : TermSearchIndexSpec → SearchIndexModel
unfolding term_fields
term_model t = record {
  definition =
      field (codes "mappings")
        (document (
          field (codes "dynamic") (boolean false)
            (field (codes "fields") (document (term_fields t.paths)) end)))
        end;
  name = t.name;
  index_type = codes "search";
}
