-- ===== src/Ingest/Sbom.antt =====
-- pkg/tools/ingest/sbom.go: the loading of SBOMs. The reader of protobom is a parameter; its nodes
-- and edges are records with the fields that the program reads.
pub mod Keeps
use sapper.Base.{
  nat_eq, text_eq, ℕ, Text, text, Map, lookup, insert, Bool, true, false, ◌||◌, List, [], ◌∷◌, ◌++◌,
  Option, none, some, Result, ok, err, ◌==◌, if◌then◌else◌,
}
use sapper.Bitmap.{Bitmaps}
use sapper.Graph.{Node, Store, Action, GraphError, ◌>>=◌, return, throw, reading, parse_failed}
use sapper.Graph.Storage.{get_node}
use sapper.Graph.Edit.{add_node, set_dependency}
use sapper.Versions.{is_nonempty}

-- The kinds of edge that `dependencyDirection` names, and the rest.
pub data EdgeType : Type 0 where
  contains depends_on prerequisite static_link dynamic_link : EdgeType
  contained_by dependency_of prerequisite_for build_dependency dev_dependency : EdgeType
  runtime_dependency test_dependency optional_dependency optional_component : EdgeType
  provided_dependency other_edge : EdgeType

pub data EdgeDirection : Type 0 where
  not_a_dependency from_depends_on_to to_depends_on_from : EdgeDirection

unfoldable pub dependency_direction : EdgeType → EdgeDirection
dependency_direction contains = from_depends_on_to
dependency_direction depends_on = from_depends_on_to
dependency_direction prerequisite = from_depends_on_to
dependency_direction static_link = from_depends_on_to
dependency_direction dynamic_link = from_depends_on_to
dependency_direction other_edge = not_a_dependency
dependency_direction _ = to_depends_on_from

pub record SbomNode (M : Type 0) : Type 0 where
  pub id : Text
  pub purl : Text
  pub name : Text
  pub version : Text
  pub metadata : M

pub record SbomEdge : Type 0 where
  pub type : EdgeType
  pub from : Text
  pub to : List Text

-- The node list of a document, which may be missing.
pub record NodeList (M : Type 0) : Type 0 where
  pub nodes : List (SbomNode M)
  pub edges : List SbomEdge

-- `purl_of`: the package URL, or fmt.Sprintf("pkg:%s@%s", name, version).
module _ {M : Type 0} where
  abbrev pub purl_of : SbomNode M → Text
  purl_of n =
      if is_nonempty n.purl then n.purl else text "pkg:" ++ (n.name ++ (text "@" ++ n.version))

-- The dependent and the dependency of an edge between two known nodes.
abbrev pub oriented : EdgeDirection → ℕ → ℕ → ℕ × ℕ
oriented to_depends_on_from from to = (to, from)
oriented _ from to = (from, to)

module _ {B M : Type 0} ⦃bm : Bitmaps B⦄ where
  -- The first loop; its result is `nameToId`.
  unfoldable pub add_nodes : List (SbomNode M) → Map Text ℕ → Action B M (Map Text ℕ)
  add_nodes [] name_to_id = return name_to_id
  add_nodes (n ∷ rest) name_to_id =
      add_node (text "library") n.metadata (purl_of n) >>= λ graph_node.
      add_nodes rest (insert n.id graph_node.id name_to_id)

  -- The nodes are loaded for each edge, since `SetDependency` saves the copies that it is given.
  unfoldable pub link_ids : ℕ → ℕ → Action B M (Unit {0})
  link_ids dependent_id dependency_id = reading (λ s. get_node s dependent_id) >>= λ dependent.
      reading (λ s. get_node s dependency_id) >>= λ dependency.
      set_dependency (some dependent) (some dependency) >>= λ _. return tt

  unfoldable pub link_target : EdgeDirection → Map Text ℕ → ℕ → Text → Action B M (Unit {0})
  link_target direction name_to_id from_id to = elim (lookup to name_to_id) [
    | none ↦ return tt
    | some to_id ↦
        if from_id == to_id
        then return tt
        else link_ids (oriented direction from_id to_id).0 (oriented direction from_id to_id).1
  ]

  unfoldable pub link_targets : EdgeDirection → Map Text ℕ → ℕ → List Text → Action B M (Unit {0})
  link_targets direction name_to_id from_id [] = return tt
  link_targets direction name_to_id from_id (to ∷ rest) =
      link_target direction name_to_id from_id to >>= λ _.
      link_targets direction name_to_id from_id rest

  abbrev pub link_known : EdgeDirection → Map Text ℕ → SbomEdge → Action B M (Unit {0})
  link_known direction name_to_id e = elim (lookup e.from name_to_id) [
    | none ↦ return tt
    | some from_id ↦ link_targets direction name_to_id from_id e.to
  ]

  unfoldable pub link_edge : Map Text ℕ → SbomEdge → Action B M (Unit {0})
  link_edge name_to_id e = elim (dependency_direction e.type) [
    | not_a_dependency ↦ return tt
    | from_depends_on_to ↦ link_known from_depends_on_to name_to_id e
    | to_depends_on_from ↦ link_known to_depends_on_from name_to_id e
  ]

  unfoldable pub link_edges : Map Text ℕ → List SbomEdge → Action B M (Unit {0})
  link_edges name_to_id [] = return tt
  link_edges name_to_id (e ∷ rest) = link_edge name_to_id e >>= λ _. link_edges name_to_id rest

  abbrev pub load : Option (NodeList M) → Action B M (Unit {0})
  load none = return tt
  load (some l) = add_nodes l.nodes [] >>= λ name_to_id. link_edges name_to_id l.edges

  -- `SBOM`: `parse` gives the document's node list.
  unfoldable pub sbom : (Text → Option (Option (NodeList M))) → Text → Action B M (Unit {0})
  sbom parse [] = throw (parse_failed [])
  sbom parse (c ∷ cs) = elim (parse (c ∷ cs)) [
    | none ↦ throw (parse_failed (c ∷ cs))
    | some node_list ↦ load node_list
  ]
