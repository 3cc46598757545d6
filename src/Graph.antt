-- ===== src/Graph.antt =====
-- pkg/graph/graph.go: the data of the dependency graph, and the errors of the package.
-- A bitmap is a value of any type with the interface `Bitmaps`, and metadata (Go's `any`) is a value
-- of any type `M`. Nodes are values, as they are in the SQL and Redis storages, which keep them
-- serialised: a loaded node is a copy, and changes reach the storage by `SaveNode` only.
pub mod Storage
pub mod Edit
pub mod Query
use sapper.Base.{ℕ, Text, Map, Bool, List, Result, ok, err}

-- `Direction` is a string with two known values.
pub data Direction : Type 0 where
  parents_direction children_direction : Direction
  other_direction : Text → Direction

-- `ChildData` and `ParentData` hold the bitmaps' bytes in the JSON form only, and are left out.
pub record Node (B M : Type 0) : Type 0 where
  pub metadata : M
  pub children : B
  pub parents : B
  pub type : Text
  pub name : Text
  pub id : ℕ

pub record NodeCache (B : Type 0) : Type 0 where
  pub id : ℕ
  pub all_parents : B
  pub all_children : B

-- The calls of the storage that can fail; `SaveNode` node by node, as it does where a node is one row.
-- Whether a call fails does not change while a request runs.
pub data Op : Type 0 where
  save_node : ℕ → Op
  get_node get_nodes_by_glob get_all_keys save_cache to_be_cached : Op
  add_node_to_cached_stack clear_cache_stack get_cache generate_id name_to_id : Op
  get_nodes save_caches get_caches remove_all_caches add_or_update_custom_data get_custom_data : Op

-- Errors carry what distinguishes them; the wording and the wrapping (`%w`) are left out.
pub data GraphError : Type 0 where
  self_dependency nil_node nil_dereference key_not_found value_not_found bad_number : GraphError
  failed : Op → GraphError
  node_not_found cache_not_found no_cache_for : ℕ → GraphError
  name_not_found no_custom_data invalid_direction dependency_not_found : Text → GraphError
  dependent_not_found unknown_operator unknown_query parse_failed unknown_status : Text → GraphError
  out_of_fuel not_cached : GraphError

-- The in-memory storage of mockGraph.go. Its fields `dependencies`, `dependents` and `fullyCached`
-- are never used, and its mutex makes each method one step.
pub record Store (B M : Type 0) : Type 0 where
  pub nodes : Map ℕ (Node B M)
  pub ids : Map Text ℕ
  pub cache : Map ℕ (NodeCache B)
  pub pending : List ℕ
  pub id_counter : ℕ
  pub db : Map Text (Map Text Text)
  -- Which calls fail: those of which the error field (`SaveNodeErr` and so on) is set, and `SaveNode`
  -- of single nodes, which other storages can refuse.
  pub fails : Op → Bool

-- A method that changes the storage: what it returns, and the storage after it, also after an error.
abbrev pub Action : Type 0 → Type 0 → Type 0 → Type 0
Action B M A = Store B M → Result GraphError A × Store B M

module _ {B M : Type 0} where
  infixl 5 ◌>>=◌ ◌>>◌
  abbrev pub ◌>>=◌ : {A C : Type 0} → Action B M A → (A → Action B M C) → Action B M C
  ◌>>=◌ m f s = let (r, t) = m s in elim r [ ok a ↦ f a t | err e ↦ (err e, t) ]

  abbrev pub ◌>>◌ : {C : Type 0} → Action B M (Unit {0}) → Action B M C → Action B M C
  m >> k = m >>= λ _. k

  abbrev pub return : {A : Type 0} → A → Action B M A
  return a s = (ok a, s)

  abbrev pub throw : {A : Type 0} → GraphError → Action B M A
  throw e s = (err e, s)

  -- A method that only reads the storage.
  abbrev pub reading : {A : Type 0} → (Store B M → Result GraphError A) → Action B M A
  reading r s = (r s, s)
