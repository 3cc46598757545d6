-- ===== src/Graph/Edit.antt =====
-- pkg/graph/graph.go: `AddNode` and `SetDependency`. A pointer that may be nil is an `Option`.
pub mod WellFormed
pub mod Adds
pub mod Links
pub mod Halves
pub mod Loading
use sapper.Base.{nat_eq, ℕ, Text, Option, none, some, Result, ok, err, ◌==◌, if◌then◌else◌}
use sapper.Bitmap.{Bitmaps}
use sapper.Graph.{
  Node, NodeCache, Store, Action, ◌>>=◌, ◌>>◌, return, throw, nil_node, self_dependency,
}
use sapper.Graph.Storage.{name_to_id, get_node, generate_id, save_node, save_cache}

module _ {B : Type 0} ⦃bm : Bitmaps B⦄ where
  abbrev pub new_cache : ℕ → NodeCache B
  new_cache id = record { id = id; all_parents = bm.new; all_children = bm.new }

module _ {B M : Type 0} ⦃bm : Bitmaps B⦄ where
  abbrev pub new_node : Text → M → Text → ℕ → Node B M
  new_node type metadata name id = record {
    metadata = metadata;
    children = bm.new;
    parents = bm.new;
    type = type;
    name = name;
    id = id;
  }

  -- A name that is known gives the stored node, and changes nothing.
  unfoldable pub add_node : Text → M → Text → Action B M (Node B M)
  unfolding name_to_id get_node generate_id save_node save_cache
  add_node type metadata name s = elim (name_to_id s name) [
    | ok id ↦ (get_node s id, s)
    | err _ ↦
        (do
          id ← generate_id
          save_node (new_node type metadata name id)
          save_cache (new_cache id)
          return (new_node type metadata name id))
          s
  ]

  abbrev pub with_child : Node B M → ℕ → Node B M
  with_child n id = record n { children = bm.add n.children id }

  abbrev pub with_parent : Node B M → ℕ → Node B M
  with_parent n id = record n { parents = bm.add n.parents id }

  -- `n` depends on `neighbor`. The result is the two nodes as they are after the call.
  unfoldable pub link_nodes : Node B M → Node B M → Action B M (Node B M × Node B M)
  unfolding save_node
  link_nodes n neighbor = if n.id == neighbor.id then throw self_dependency else (do
    save_node (with_child n neighbor.id)
    save_node (with_parent neighbor n.id)
    return (with_child n neighbor.id, with_parent neighbor n.id))

  unfoldable pub set_dependency :
      Option (Node B M) → Option (Node B M) → Action B M (Node B M × Node B M)
  unfolding link_nodes
  set_dependency none neighbor = throw nil_node
  set_dependency (some n) none = throw nil_node
  set_dependency (some n) (some neighbor) = link_nodes n neighbor
