-- ===== src/Storages/Sql.antt =====
-- pkg/storages/sql.go: the tables of nodes, caches, IDs and of what is to be cached. gorm and SQLite are
-- read as SQL: Save inserts or replaces a row by its key, and a statement may fail. The JSON forms of
-- nodes and caches are a parameter.
pub mod Rows
use sapper.Base.{
  nat_eq, text_eq, ℕ, ◌+◌, Text, text, Map, lookup, insert, Bool, not, List, [], ◌∷◌, ◌++◌, Option,
  none, some, Result, ok, err, if◌then◌else◌, elem, filter, has_prefix, to_lower,
}
use sapper.Graph.{
  Node, NodeCache, GraphError, Op, failed, node_not_found, name_not_found, bad_number, parse_failed,
}
use sapper.Numbers.{uint32_to_str, str_to_uint32}

-- The statements that can fail, by what they are about.
pub data SqlStatement : Type 0 where
  save_row first_row : Text → SqlStatement
  create_entry : ℕ → SqlStatement
  delete_caches find_stack delete_stack create_counter : SqlStatement

pub record Database : Type 0 where
  -- Table `KVStore`.
  pub kv : Map Text Text
  -- Table `CacheStack`, whose IDs are unique.
  pub stack : List ℕ
  -- The last ID of table `GlobalCounter`.
  pub last_id : ℕ
  pub fails : SqlStatement → Bool

abbrev pub Tx : Type 0 → Type 0
Tx A = Database → Result GraphError A × Database

-- The JSON forms.
pub record Codec (B M : Type 0) : Type 0 where
  pub encode_node : Node B M → Option Text
  pub decode_node : Text → Option (Node B M)
  pub encode_cache : NodeCache B → Option Text
  pub decode_cache : Text → Option (NodeCache B)

abbrev pub node_key : ℕ → Text
node_key id = text "node:" ++ uint32_to_str id

abbrev pub name_key : Text → Text
name_key name = text "name_to_id:" ++ name

abbrev pub cache_key : ℕ → Text
cache_key id = text "cache:" ++ uint32_to_str id

-- One statement, for an operation.
abbrev pub run_statement : Op → SqlStatement → (Database → Database) → Tx (Unit {0})
run_statement op statement change db =
    if db.fails statement then (err (failed op), db) else (ok tt, change db)

abbrev pub save : Op → Text → Text → Tx (Unit {0})
save op key value =
    run_statement op (save_row key) (λ db. record db { kv = insert key value db.kv })

abbrev pub then_do : Tx (Unit {0}) → Tx (Unit {0}) → Tx (Unit {0})
then_do first second db = let (r, d) = first db in elim r [ err e ↦ (err e, d) | ok _ ↦ second d ]

-- A transaction that fails leaves no trace.
abbrev pub transaction : Tx (Unit {0}) → Tx (Unit {0})
transaction body db = let (r, d) = body db in elim r [ err e ↦ (err e, db) | ok _ ↦ (ok tt, d) ]

-- `OnConflict ... DoNothing`
abbrev pub push_entry : ℕ → Tx (Unit {0})
push_entry id =
    run_statement (Op.save_node id) (create_entry id)
      (λ db. record db { stack = if elem id db.stack then db.stack else db.stack ++ id ∷ [] })

-- `First` with a key: `none` where there is no such row.
abbrev pub find_first : Op → Text → Database → Result GraphError (Option Text)
find_first op key db = if db.fails (first_row key) then err (failed op) else ok (lookup key db.kv)

unfoldable pub name_to_id : Database → Text → Result GraphError ℕ
name_to_id db name = elim (find_first Op.name_to_id (name_key name) db) [
  | err e ↦ err e
  | ok none ↦ err (name_not_found name)
  | ok (some value) ↦ elim (str_to_uint32 value) [ err _ ↦ err bad_number | ok id ↦ ok id ]
]

module _ {B M : Type 0} (codec : Codec B M) where
  unfoldable pub save_node : Node B M → Tx (Unit {0})
  save_node node db = elim (codec.encode_node node) [
    | none ↦ (err (parse_failed node.name), db)
    | some json ↦
        transaction
          (then_do (save (Op.save_node node.id) (node_key node.id) json) (
            then_do (save (Op.save_node node.id) (name_key node.name) (uint32_to_str node.id))
              (push_entry node.id)))
          db
  ]

  unfoldable pub get_node : Database → ℕ → Result GraphError (Node B M)
  get_node db id = elim (find_first Op.get_node (node_key id) db) [
    | err e ↦ err e
    | ok none ↦ err (node_not_found id)
    | ok (some value) ↦ elim (codec.decode_node value) [
      | none ↦ err (parse_failed value)
      | some node ↦ ok node
    ]
  ]

  unfoldable pub save_cache : NodeCache B → Tx (Unit {0})
  save_cache cache db = elim (codec.encode_cache cache) [
    | none ↦ (err (parse_failed (cache_key cache.id)), db)
    | some json ↦ save Op.save_cache (cache_key cache.id) json db
  ]

  -- A missing cache is a nil pointer and no error.
  unfoldable pub get_cache : Database → ℕ → Result GraphError (Option (NodeCache B))
  get_cache db id = elim (find_first Op.get_cache (cache_key id) db) [
    | err e ↦ err e
    | ok none ↦ ok none
    | ok (some value) ↦ elim (codec.decode_cache value) [
      | none ↦ err (parse_failed value)
      | some cache ↦ ok (some cache)
    ]
  ]

-- LIKE 'cache:%', which does not tell the cases of ASCII letters apart.
abbrev pub is_cache : Text → Bool
is_cache key = has_prefix (to_lower key) (text "cache:")

unfoldable pub remove_all_caches : Tx (Unit {0})
remove_all_caches =
    run_statement Op.remove_all_caches delete_caches
      (λ db. record db { kv = filter (λ row. not (is_cache row.0)) db.kv })

unfoldable pub to_be_cached : Database → Result GraphError (List ℕ)
to_be_cached db = if db.fails find_stack then err (failed Op.to_be_cached) else ok db.stack

unfoldable pub add_node_to_cached_stack : ℕ → Tx (Unit {0})
add_node_to_cached_stack id db =
    if elem id db.stack
    then (err (failed Op.add_node_to_cached_stack), db)
    else run_statement Op.add_node_to_cached_stack (create_entry id)
        (λ d. record d { stack = d.stack ++ id ∷ [] }) db

unfoldable pub clear_cache_stack : Tx (Unit {0})
clear_cache_stack = run_statement Op.clear_cache_stack delete_stack (λ db. record db { stack = [] })

unfoldable pub generate_id : Database → Result GraphError ℕ × Database
generate_id db =
    if db.fails create_counter
    then (err (failed Op.generate_id), db)
    else (ok (db.last_id + 1), record db { last_id = db.last_id + 1 })
