-- ===== src/Tests/Edits.antt =====
-- `AddNode` and `SetDependency`.
use sapper.Base.{
  nat_eq, text_eq, ℕ, ◌+◌, ◌≡◌, ◌≢◌, ◌↔◌, ◌⊎◌, ◌==◌, refl, Text, text, lookup, Bool, true, false,
  List, [], some, arith, ok, err,
}
use sapper.Bitmap.Listed.{listed}
use sapper.Graph.{Node, Op, failed}
use sapper.Graph.Edit.{add_node, set_dependency, with_child, with_parent}
use sapper.Graph.Edit.WellFormed.{IsWellFormed, IsWellFormed-same, HasChild, HasParent}
use sapper.Graph.Edit.Adds.{add_node-IsWellFormed, add_node-add_node, add_node_duplicates}
use sapper.Graph.Edit.Links.{set_dependency-IsWellFormed, set_dependency-HasChild}
use sapper.Graph.Edit.Halves.{set_dependency_half}
use sapper.Tests.Sample.{Graph, app, lib, vuln, three_nodes, three_nodes-IsWellFormed, program}

add_node-IsWellFormed_example :
    IsWellFormed (add_node (text "library") [] (text "lib") three_nodes).1
unfolding program
add_node-IsWellFormed_example =
    add_node-IsWellFormed (text "library") [] (text "lib") three_nodes refl (omega arith)
      three_nodes-IsWellFormed

add_node-add_node_example :
    (n : Node (List ℕ) Text) × (t : Graph) × (add_node
        (text "library")
        (text "m")
        (text "new")
        three_nodes
      ≡ (ok n, t))
    × (n.name ≡ text "new")
    × (lookup n.id t.nodes ≡ some n)
    × (add_node (text "vuln") [] (text "new") t ≡ (ok n, t))
unfolding program
add_node-add_node_example =
    add_node-add_node (text "library") (text "m") (text "new") three_nodes (text "vuln") []
      (λ _. refl) three_nodes-IsWellFormed

-- The storage of which only `NameToID` fails.
abbrev name_to_id_fails : Op → Bool
name_to_id_fails Op.name_to_id = true
name_to_id_fails _ = false

abbrev unreadable : Graph
unreadable = record three_nodes { fails = name_to_id_fails }

unreadable-IsWellFormed : IsWellFormed unreadable
unfolding program
unreadable-IsWellFormed =
    IsWellFormed-same three_nodes unreadable refl refl (omega arith) three_nodes-IsWellFormed

add_node_duplicates_example :
    let t = (add_node (text "library") [] (text "lib") unreadable).1 in
    (lookup 2 t.nodes ≡ some lib)
    × (lookup (text "lib") t.ids ≡ some (unreadable.id_counter + 1))
    × (unreadable.id_counter + 1 ≢ 2)
    × ¬ IsWellFormed t
unfolding program
add_node_duplicates_example =
    add_node_duplicates (text "library") [] (text "lib") unreadable lib refl refl refl (omega arith)
      unreadable-IsWellFormed refl refl

set_dependency-IsWellFormed_example :
    IsWellFormed (set_dependency (some app) (some vuln) three_nodes).1
unfolding program
set_dependency-IsWellFormed_example =
    set_dependency-IsWellFormed three_nodes app vuln refl refl refl three_nodes-IsWellFormed

set_dependency-HasChild_example :
    let t = (set_dependency (some app) (some vuln) three_nodes).1 in
    ((set_dependency (some app) (some vuln) three_nodes).0
      ≡ ok (with_child app 3, with_parent vuln 1))
    × ((v w : ℕ) → HasChild t v w ↔ (HasChild three_nodes v w ⊎ (v ≡ 1) × (w ≡ 3)))
    × ((v w : ℕ) → HasParent t v w ↔ (HasParent three_nodes v w ⊎ (v ≡ 3) × (w ≡ 1)))
unfolding program
set_dependency-HasChild_example =
    set_dependency-HasChild three_nodes app vuln refl refl (omega arith) refl refl

-- The storage of which only the vulnerability cannot be saved.
abbrev vuln_fails : Op → Bool
vuln_fails (Op.save_node id) = id == 3
vuln_fails _ = false

abbrev unsavable : Graph
unsavable = record three_nodes { fails = vuln_fails }

set_dependency_half_example :
    let t = (set_dependency (some app) (some vuln) unsavable).1 in
    ((set_dependency (some app) (some vuln) unsavable).0 ≡ err (failed (Op.save_node 3)))
    × HasChild t 1 3
    × ¬ HasParent t 3 1
    × ¬ IsWellFormed t
unfolding program
set_dependency_half_example =
    set_dependency_half unsavable app vuln refl (omega arith) refl refl refl
