-- ===== src/Cache/Keys.antt =====
-- pkg/graph/bindMap.go: bitmaps by key, where a group of keys can be bound to one bitmap.
use sapper.Base.{
  nat_eq, text_eq, Text, text, Map, lookup, insert, List, [], ◌∷◌, ◌++◌, Option, none, some, Result,
  ok, err, ◌>>=◌,
}
use sapper.Bitmap.{Bitmaps}
use sapper.Graph.{GraphError, key_not_found, value_not_found}

-- crypto/sha256 and the two ways to print a sum: fmt.Sprint and %x.
pub record Hash : Type 0 where
  pub sum256 : Text → Text
  pub sprint : Text → Text
  pub hex : Text → Text

pub record KeyManagement (B : Type 0) : Type 0 where
  pub key_map : Map Text Text
  pub data_store : Map Text B

module _ {B : Type 0} where
  abbrev pub new_key_management : KeyManagement B
  new_key_management = record { key_map = []; data_store = [] }

module _ (h : Hash) where
  abbrev pub key_string : List Text → Text
  key_string [] = []
  key_string (key ∷ keys) = h.sprint (h.sum256 key) ++ key_string keys

  abbrev pub hash_key : List Text → Text
  hash_key keys = text "shared:" ++ h.hex (h.sum256 (key_string keys))

-- The loop that points each key to the group.
unfoldable pub point_to : Text → List Text → Map Text Text → Map Text Text
point_to target [] m = m
point_to target (key ∷ keys) m = point_to target keys (insert key target m)

module _ {B : Type 0} where
  unfoldable pub bind_keys : Hash → List Text → KeyManagement B → KeyManagement B
  unfolding point_to
  bind_keys h keys nkm = record nkm { key_map = point_to (hash_key h keys) keys nkm.key_map }

  unfoldable pub set : Text → B → KeyManagement B → KeyManagement B
  set key value nkm = elim (lookup key nkm.key_map) [
    | some hash ↦ record nkm { data_store = insert hash value nkm.data_store }
    | none ↦ record nkm { data_store = insert key value nkm.data_store }
  ]

module _ {B : Type 0} ⦃bm : Bitmaps B⦄ where
  -- `data[hash]` of a map of bitmaps: the empty one for a missing key.
  abbrev pub or_zero : Option B → B
  or_zero none = bm.new
  or_zero (some b) = b

  unfoldable pub get : KeyManagement B → Text → Result GraphError B
  get nkm key = elim (lookup key nkm.key_map) [
    | some hash ↦ ok (or_zero (lookup hash nkm.data_store))
    | none ↦ elim (lookup key nkm.data_store) [ none ↦ err key_not_found | some b ↦ ok b ]
  ]

module _ {B : Type 0} where
  abbrev value_of : KeyManagement B → Text → Text → Result GraphError B
  value_of nkm key hash = elim (lookup hash nkm.data_store) [
    | some b ↦ ok b
    | none ↦ elim (lookup key nkm.data_store) [ none ↦ err value_not_found | some b ↦ ok b ]
  ]

  unfoldable pub all_values : KeyManagement B → Map Text Text → Result GraphError (List (Text × B))
  all_values nkm [] = ok []
  all_values nkm ((key, hash) ∷ rest) =
      value_of nkm key hash >>= λ b. all_values nkm rest >>= λ others. ok ((key, b) ∷ others)

  -- The keys and the values, in the order of one iteration over the map.
  unfoldable pub get_all_keys_and_values : KeyManagement B → Result GraphError (List (Text × B))
  unfolding all_values
  get_all_keys_and_values nkm = all_values nkm nkm.key_map
