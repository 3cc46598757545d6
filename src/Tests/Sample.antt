-- ===== src/Tests/Sample.antt =====
-- A storage built by the program's own calls: an application that depends on a library, which a
-- vulnerability reaches.
use sapper.Base.{
  nat_eq, text_eq, ℕ, ◌≡◌, refl, Text, text, lookup, insert, false, List, [], ◌∷◌, some, arith,
}
use sapper.Bitmap.Listed.{listed}
use sapper.Graph.{Node, Store}
use sapper.Graph.Edit.{add_node, set_dependency}
use sapper.Graph.Edit.WellFormed.{IsWellFormed}
use sapper.Graph.Edit.Adds.{add_node-IsWellFormed}
use sapper.Graph.Edit.Links.{set_dependency-IsWellFormed}

abbrev pub Graph : Type 0
Graph = Store (List ℕ) Text

abbrev pub empty_store : Graph
empty_store = record {
  nodes = [];
  ids = [];
  cache = [];
  pending = [];
  id_counter = 0;
  db = [];
  fails = λ _. false;
}

pub empty_store-IsWellFormed : IsWellFormed empty_store
unfolding lookup
empty_store-IsWellFormed = record {
  keyed = λ v n e. cc;
  counted = λ v n e. cc;
  mutual_child = λ v w (n, e, c). cc;
  mutual_parent = λ v w (n, e, c). cc;
  no_loop = λ v (n, e, c). cc;
  named = λ v n e. cc;
  resolved = λ v name e. cc;
}

abbrev pub add : Text → Text → Graph → Graph
add type name s = (add_node type [] name s).1

abbrev pub stored : ℕ → Text → Text → List ℕ → List ℕ → Node (List ℕ) Text
stored id type name children parents = record {
  metadata = [];
  children = children;
  parents = parents;
  type = type;
  name = name;
  id = id;
}

-- app, lib and vuln under the IDs 1, 2 and 3.
abbrev pub three_nodes : Graph
three_nodes =
    add (text "vuln") (text "v")
      (add (text "library") (text "lib") (add (text "library") (text "app") empty_store))

pub three_nodes-IsWellFormed : IsWellFormed three_nodes
unfolding add_node lookup insert
three_nodes-IsWellFormed =
    add_node-IsWellFormed (text "vuln") [] (text "v")
      (add (text "library") (text "lib") (add (text "library") (text "app") empty_store)) refl
      (omega arith)
      (add_node-IsWellFormed (text "library") [] (text "lib")
        (add (text "library") (text "app") empty_store) refl (omega arith)
        (add_node-IsWellFormed (text "library") [] (text "app") empty_store refl (omega arith)
          empty_store-IsWellFormed))

abbrev pub app : Node (List ℕ) Text
app = stored 1 (text "library") (text "app") [] []

abbrev pub lib : Node (List ℕ) Text
lib = stored 2 (text "library") (text "lib") [] []

abbrev pub vuln : Node (List ℕ) Text
vuln = stored 3 (text "vuln") (text "v") [] []

abbrev pub two_edges : Graph
two_edges =
    (set_dependency (some (record lib { parents = 1 ∷ [] })) (some vuln)
      (set_dependency (some app) (some lib) three_nodes).1).1

unfoldable pub program : Unit {0}
unfolding lookup insert add_node set_dependency
program = tt

pub three_nodes_lookup :
    (lookup 1 three_nodes.nodes ≡ some app)
    × (lookup 2 three_nodes.nodes ≡ some lib)
    × (lookup 3 three_nodes.nodes ≡ some vuln)
unfolding program
three_nodes_lookup = (refl, refl, refl)

pub two_edges-IsWellFormed : IsWellFormed two_edges
unfolding program
two_edges-IsWellFormed =
    set_dependency-IsWellFormed (set_dependency (some app) (some lib) three_nodes).1
      (record lib { parents = 1 ∷ [] }) vuln refl refl refl
      (set_dependency-IsWellFormed three_nodes app lib refl refl refl three_nodes-IsWellFormed)
