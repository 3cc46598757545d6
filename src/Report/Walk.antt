-- ===== src/Report/Walk.antt =====
-- pkg/report/report.go: how `buildFinding` walks up from a vulnerability, and the dependency paths
-- that it reads off the walk.
pub mod Climb
pub mod Work
pub mod Levels
pub mod Rounds
pub mod Correct
use sapper.Base.{
  nat_eq, ℕ, zero, suc, ◌+◌, Text, Map, lookup, insert, Bool, true, false, not, ◌&&◌, List, [], ◌∷◌,
  ◌++◌, Option, none, some, ◌==◌, if◌then◌else◌, elem, length,
}
use sapper.Bitmap.{Bitmaps}
use sapper.Graph.{Node}

pub record Walk : Type 0 where
  pub next : Map ℕ ℕ
  -- The IDs that map to true.
  pub visited : List ℕ
  pub queue : List ℕ
  pub products : List ℕ
  pub packages : List Text

module _ {B M : Type 0} where
  -- `if current == vulnNode.ID { if p := nodes[parent]; p != nil { ... } }`
  abbrev pub add_package : Map ℕ (Node B M) → Bool → ℕ → List Text → List Text
  add_package nodes at_start parent packages = elim (lookup parent nodes) [
    | none ↦ packages
    | some p ↦ if at_start then packages ++ p.name ∷ [] else packages
  ]

  abbrev pub discover : Map ℕ (Node B M) → Bool → ℕ → ℕ → Walk → Walk
  discover nodes at_start current parent w = record w {
    visited = parent ∷ w.visited;
    next = insert parent current w.next;
    queue = w.queue ++ parent ∷ [];
    packages = add_package nodes at_start parent w.packages;
  }

  -- The loop over the parents of one node.
  unfoldable pub visit_parents : Map ℕ (Node B M) → Bool → ℕ → List ℕ → Walk → Walk
  visit_parents nodes at_start current [] w = w
  visit_parents nodes at_start current (parent ∷ parents) w =
      visit_parents nodes at_start current parents
        (if elem parent w.visited then w else discover nodes at_start current parent w)

module _ {B M : Type 0} ⦃bm : Bitmaps B⦄ (nodes : Map ℕ (Node B M)) (vuln_id : ℕ) where
  abbrev pub add_product : ℕ → Node B M → List ℕ → List ℕ
  add_product current node products =
      if not (current == vuln_id) && bm.is_empty node.parents
      then products ++ current ∷ []
      else products

  -- The rest of a round, once `nodes[current]` is known.
  abbrev pub expand : ℕ → List ℕ → Walk → Option (Node B M) → Walk
  expand current queue w none = record w { queue = queue }
  expand current queue w (some node) =
      visit_parents nodes (current == vuln_id) current (bm.to_array node.parents)
        (record w { queue = queue; products = add_product current node w.products })

  -- One round, for the ID at the head of the queue.
  unfoldable pub walk_step : ℕ → List ℕ → Walk → Walk
  unfolding visit_parents
  walk_step current queue w = expand current queue w (lookup current nodes)

  -- The loop; `none` means that the fuel ran out.
  unfoldable pub walk_loop : ℕ → Walk → Option Walk
  walk_loop zero w = elim w.queue [ [] ↦ some w | _ ∷ _ ↦ none ]
  walk_loop (suc fuel) w = elim w.queue [
    | [] ↦ some w
    | current ∷ queue ↦ walk_loop fuel (walk_step current queue w)
  ]

abbrev pub walk_start : ℕ → Walk
walk_start vuln_id = record {
  next = [];
  visited = vuln_id ∷ [];
  queue = vuln_id ∷ [];
  products = [];
  packages = [];
}

module _ {B M : Type 0} ⦃bm : Bitmaps B⦄ where
  -- Each round but the first takes what an edge has queued.
  abbrev pub edge_count : Map ℕ (Node B M) → ℕ
  edge_count [] = 0
  edge_count ((_, n) ∷ nodes) = length (bm.to_array n.parents) + edge_count nodes

  unfoldable pub walk : Map ℕ (Node B M) → ℕ → Option Walk
  walk nodes vuln_id = walk_loop nodes vuln_id (suc (edge_count nodes)) (walk_start vuln_id)

-- `next[step]`, which is 0 for a missing key.
abbrev pub next_of : Map ℕ ℕ → ℕ → ℕ
next_of next step = elim (lookup step next) [ none ↦ 0 | some id ↦ id ]

-- `for step := id; step != vulnNode.ID; step = next[step]`: the steps of the path.
unfoldable pub path_ids : ℕ → Map ℕ ℕ → ℕ → ℕ → Option (List ℕ)
path_ids zero next vuln_id step = if step == vuln_id then some [] else none
path_ids (suc fuel) next vuln_id step = elim (step == vuln_id) [
  | true ↦ some []
  | false ↦ elim (path_ids fuel next vuln_id (next_of next step)) [
    | none ↦ none
    | some steps ↦ some (step ∷ steps)
  ]
]
