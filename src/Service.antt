-- ===== src/Service.antt =====
-- api/v1/service.go and report.go: the requests of the server. The transport is left out: a request is
-- its message, a response is the message or an error. A request that is cut off leaves no trace here.
pub mod Leaderboard
pub mod Libraries
pub mod Loads
pub mod Scores
pub mod Index
pub mod Built
pub mod Reads
pub mod Unchanged
pub mod Steps
pub mod Changes
pub mod Fresh
use sapper.Base.{
  nat_eq, text_eq, ℕ, Text, Map, Bool, true, false, List, [], ◌∷◌, Option, none, some, Result, ok,
  err, map, values,
}
use sapper.Base.{◌>>=◌ as ◌|>=◌}
use sapper.Bitmap.{Bitmaps}
use sapper.Graph.{Node, Store, Action, GraphError, parse_failed}
use sapper.Graph.Storage.{
  get_node, name_to_id, get_all_keys, get_nodes, get_nodes_by_glob, get_caches, to_be_cached,
  remove_all_caches,
}
use sapper.Graph.Edit.{add_node, set_dependency}
use sapper.Ingest.Osv.{Vulnerability}
use sapper.Ingest.Purl.{PackageUrl}
use sapper.Ingest.Sbom.{NodeList, sbom}
use sapper.Ingest.Loader.{LibraryIndex, build_library_index, vulnerabilities_with_index}
use sapper.Ingest.Scorecards.{ScorecardResult, scorecards}
use sapper.Ingest.Priorities.{Counted}
use sapper.Script.{Expression, parse_and_execute}
use sapper.Versions.{Semver}

-- `librariesMu` makes the steps that read or set `libraries` exclude one another.
pub record Service (B M : Type 0) : Type 0 where
  pub storage : Store B M
  pub libraries : Option LibraryIndex

abbrev pub Request : Type 0 → Type 0 → Type 0 → Type 0
Request B M A = Service B M → Result GraphError A × Service B M

pub record ServiceNode : Type 0 where
  pub id : ℕ
  pub name : Text
  pub type : Text
  pub metadata : Text
  pub dependencies : List ℕ
  pub dependents : List ℕ

-- `len(cacheStack) == 0`
abbrev pub is_done : List ℕ → Bool
is_done [] = true
is_done (id ∷ ids) = false

module _ {B M : Type 0} where
  -- A request that only calls the storage.
  abbrev pub on_storage : {A : Type 0} → Action B M A → Request B M A
  on_storage action v = let (r, s) = action v.storage in (r, record v { storage = s })

  abbrev pub asking : {A : Type 0} → (Store B M → Result GraphError A) → Request B M A
  asking read v = (read v.storage, v)

  unfoldable pub invalidate_libraries : Service B M → Service B M
  invalidate_libraries v = record v { libraries = none }

  -- What a request does to the server, one change after another.
  abbrev pub run_changes : List (Service B M → Service B M) → Service B M → Service B M
  run_changes [] v = v
  run_changes (change ∷ rest) v = run_changes rest (change v)

  abbrev pub new_service : Store B M → Service B M
  new_service storage = record { storage = storage; libraries = none }

module _ {B M : Type 0} ⦃bm : Bitmaps B⦄ where
  -- The index is dropped after the node was added, on errors too; other requests can come between.
  unfoldable pub add_node_changes : Text → M → Text → List (Service B M → Service B M)
  add_node_changes type metadata name =
      (λ v. (on_storage (add_node type metadata name) v).1) ∷ invalidate_libraries ∷ []

  unfoldable pub ingest_sbom_changes :
      (Text → Option (Option (NodeList M))) → Text → List (Service B M → Service B M)
  ingest_sbom_changes parse source =
      (λ v. (on_storage (sbom parse source) v).1) ∷ invalidate_libraries ∷ []

module _ {B M : Type 0} ⦃bm : Bitmaps B⦄ (marshal : M → Option Text) where
  unfoldable pub node_to_service_node : Node B M → Result GraphError ServiceNode
  node_to_service_node node = elim (marshal node.metadata) [
    | none ↦ err (parse_failed node.name)
    | some metadata ↦ ok (record {
      id = node.id;
      name = node.name;
      type = node.type;
      metadata = metadata;
      dependencies = bm.to_array node.children;
      dependents = bm.to_array node.parents;
    })
  ]

  -- The loops that convert nodes.
  unfoldable pub to_service_nodes : List (Node B M) → Result GraphError (List ServiceNode)
  unfolding node_to_service_node
  to_service_nodes [] = ok []
  to_service_nodes (node ∷ rest) =
      node_to_service_node node |>= λ n. to_service_nodes rest |>= λ others. ok (n ∷ others)

  unfoldable pub get_node_request : ℕ → Request B M ServiceNode
  get_node_request id = asking (λ s. get_node s id |>= node_to_service_node)

  unfoldable pub get_node_by_name : Text → Request B M ServiceNode
  get_node_by_name name =
      asking (λ s. name_to_id s name |>= λ id. get_node s id |>= node_to_service_node)

  unfoldable pub get_nodes_by_glob_request :
      (Text → Text → Option Bool) → Text → Request B M (List ServiceNode)
  get_nodes_by_glob_request matches pattern =
      asking (λ s. get_nodes_by_glob matches s pattern |>= to_service_nodes)

  -- The node is converted after the index is dropped.
  unfoldable pub add_node_request : Text → M → Text → Request B M ServiceNode
  unfolding add_node_changes
  add_node_request type metadata name v = (
    (add_node type metadata name v.storage).0 |>= node_to_service_node,
    run_changes (add_node_changes type metadata name) v,
  )

  unfoldable pub all_keys : Request B M (List ServiceNode)
  all_keys = asking (λ s.
      get_all_keys s |>= λ keys. get_nodes s keys |>= λ nodes. to_service_nodes (values nodes))

  unfoldable pub query_request : (Text → Option Expression) → Text → Request B M (List ServiceNode)
  query_request parse script = asking (λ s. get_all_keys s |>= λ keys. get_nodes s keys |>= λ nodes.
      get_caches s keys |>= λ caches. to_be_cached s |>= λ cache_stack.
      parse_and_execute parse script s []
        (map {B = ℕ × Option (Node B M)} (λ e. (e.0, some e.1)) nodes) caches (is_done cache_stack)
      |>= λ result. get_nodes s (bm.to_array result) |>= λ output. to_service_nodes (values output))

module _ {B M : Type 0} ⦃bm : Bitmaps B⦄ where
  unfoldable pub set_dependency_request : ℕ → ℕ → Request B M (Unit {0})
  set_dependency_request node_id dependency_id v = elim (get_node v.storage node_id) [
    | err e ↦ (err e, v)
    | ok from_node ↦ elim (get_node v.storage dependency_id) [
      | err e ↦ (err e, v)
      | ok to_node ↦
          let (r, w) = on_storage (set_dependency (some from_node) (some to_node)) v in
          (r |>= λ _. ok tt, w)
    ]
  ]

  unfoldable pub ingest_sbom : (Text → Option (Option (NodeList M))) → Text → Request B M (Unit {0})
  unfolding ingest_sbom_changes
  ingest_sbom parse source v =
      ((sbom parse source v.storage).0, run_changes (ingest_sbom_changes parse source) v)

  -- The index is built where it is missing, and then kept.
  unfoldable pub ingest_vulnerability :
      {V : Type 0}
      → Semver V
      → (Text → Option PackageUrl)
      → (Text → Option (Vulnerability × M))
      → Text
      → Request B M (Unit {0})
  ingest_vulnerability sv from_string decode source v = elim v.libraries [
    | none ↦ elim (build_library_index from_string v.storage) [
      | err e ↦ (err e, v)
      | ok idx ↦
          on_storage (vulnerabilities_with_index sv decode source idx)
            (record v { libraries = some idx })
    ]
    | some idx ↦ on_storage (vulnerabilities_with_index sv decode source idx) v
  ]

  unfoldable pub ingest_scorecard :
      (Text → Option PackageUrl)
      → (Text → Option (List (ScorecardResult M)))
      → Text
      → Request B M (Unit {0})
  ingest_scorecard from_string decode source = on_storage (scorecards from_string decode source)

module _ {B M : Type 0} where
  unfoldable pub clear : Request B M (Unit {0})
  clear = on_storage remove_all_caches

  -- `IngestKEV`, `IngestEPSS` and `IngestVEX`, by what they call: the number beside an error is dropped.
  unfoldable pub ingest_data : Counted B M → Request B M ℕ
  ingest_data load v =
      let ((count, r), s) = load v.storage in (r |>= λ _. ok count, record v { storage = s })
