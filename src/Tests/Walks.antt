-- ===== src/Tests/Walks.antt =====
-- A report on the application that a vulnerability reaches through a library.
use sapper.Base.{
  nat_eq, text_eq, ℕ, ◌≡◌, ◌≢◌, ◌≤◌, ◌↔◌, refl, Text, text, lookup, false, true, List, [], ◌∷◌,
  ◌++◌, Option, none, some, ok, elem, length, keys, any, map,
}
use mathlib.Core.List.{Memᴰ}
use sapper.Bitmap.Listed.{listed}
use sapper.Graph.{Node}
use sapper.Graph.Storage.{get_all_keys, get_nodes, get_custom_data, collect}
use sapper.Ingest.Priorities.{vulnerability_names}
use sapper.Report.{Finding, Product}
use sapper.Report.Merge.{merge_aliases}
use sapper.Report.Walk.{Walk, walk, walk_loop, walk_step, visit_parents, path_ids}
use sapper.Report.Walk.Climb.{IsRoot, IsPath, Climb}
use sapper.Report.Walk.Correct.{walk-Climb}
use sapper.Report.Details.{
  Formats, build_finding, make_products, node_names, statement_for, attach, collect_vex,
  severity_of,
}
use sapper.Report.Details.Statements.{IsCleared}
use sapper.Report.Details.Impact.{Lists, Impact, build_finding-Impact}
use sapper.Report.Build.{Floats, Options, is_some, is_kept, build, build_each, more_urgent}
use sapper.Report.Build.Urgent.{FindingOf, build-Urgent}
use sapper.Tests.Sample.{Graph, two_edges, vuln, program}

-- Nothing is stored beside the graph, and scores are numbers.
abbrev format : Formats Text Text ℕ Text
format = record {
  vulnerability = λ _. none;
  kev = λ t. some t;
  epss = λ _. none;
  above = λ _ _. false;
  vex = λ t. some t;
  status = λ t. t;
}

abbrev floats : Floats ℕ ℕ
floats = record {
  less = λ _ _. false;
  differ = λ _ _. false;
  zero_float = 0;
  minus_one = 0;
  score = λ n. n;
}

abbrev all : Options ℕ
all = record { vulnerability = []; kev_only = false; min_epss = 0 }

abbrev vuln_node : Node (List ℕ) Text
vuln_node = record vuln { parents = 2 ∷ [] }

unfoldable walking : Unit {0}
unfolding program walk walk_loop walk_step visit_parents path_ids make_products node_names
    statement_for build_finding attach collect_vex severity_of get_all_keys get_nodes
    get_custom_data collect vulnerability_names merge_aliases build build_each more_urgent is_kept
walking = tt

path_run :
    map {B = List Text}
      (λ (p : Product Text). p.path)
      (elim (build_finding format two_edges two_edges.nodes vuln_node []) [
        | none ↦ []
        | some f ↦ f.products
      ])
    ≡ (text "app" ∷ text "lib" ∷ []) ∷ []
unfolding walking
path_run = refl

walk-Climb_example :
    (w : Walk) × (walk two_edges.nodes 3 ≡ some w)
    × ((x : ℕ)
        → (elem x w.products ≡ true)
          ↔ ((x ≢ 3) × IsRoot two_edges.nodes x × (k : ℕ) × Climb two_edges.nodes 3 k x))
    × ((x : ℕ)
        → elem x w.products ≡ true
        → (rest : List ℕ) × (path_ids (length w.visited) w.next 3 x ≡ some (x ∷ rest))
          × IsPath two_edges.nodes 3 (x ∷ rest)
          × ((k : ℕ) → Climb two_edges.nodes 3 k x → length (x ∷ rest) ≤ k))
walk-Climb_example = walk-Climb two_edges.nodes 3

-- The library of the path has a fix, by a statement under the second name of the vulnerability.
abbrev vexed : Graph
vexed = record two_edges {
  db =
      (text "vex:CVE-1", (text "lib", text "affected") ∷ [])
      ∷ (text "vex:CVE-2", (text "lib", text "fixed") ∷ [])
      ∷ [];
}

abbrev both_names : List Text
both_names = text "CVE-1" ∷ text "CVE-2" ∷ []

suppressed_run :
    elim (build_finding format vexed vexed.nodes vuln_node both_names) [
      | none ↦ []
      | some f ↦ map {B = Text × Option Text} (λ (p : Product Text). (p.name, p.vex)) f.suppressed
    ]
    ≡ (text "app", some (text "fixed")) ∷ []
unfolding walking
suppressed_run = refl

build_finding-Impact_example :
    (f : Finding Text ℕ Text) × (build_finding format vexed vexed.nodes vuln_node both_names
      ≡ some f)
    × ((p : Product Text) → Lists f p → Impact format vexed vexed.nodes vuln_node both_names p)
    × ((x k : ℕ)
        → x ≢ 3
        → IsRoot vexed.nodes x
        → Climb vexed.nodes 3 k x
        → (p : Product Text) × (n : Node (List ℕ) Text) × (lookup x vexed.nodes ≡ some n)
          × (p.name ≡ n.name)
          × Lists f p)
    × ((p : Product Text) → Memᴰ p f.products → ¬ IsCleared format vexed p)
    × ((p : Product Text) → Memᴰ p f.suppressed → IsCleared format vexed p)
build_finding-Impact_example = build_finding-Impact format vexed vexed.nodes vuln_node both_names

build-Urgent_example :
    let nodes = collect two_edges.nodes (keys two_edges.nodes) [] in
    (single report : List (Finding Text ℕ Text)) × (build format floats two_edges all ≡ ok report)
    × ((f : Finding Text ℕ Text) → Memᴰ f single ↔ FindingOf format two_edges nodes nodes f)
    × ((f : Finding Text ℕ Text)
        → Memᴰ f report
          ↔ (Memᴰ f (merge_aliases format.above single) × (is_kept floats all f ≡ true)))
    × ((front back : List (Finding Text ℕ Text)) (f : Finding Text ℕ Text)
        → report ≡ front ++ f ∷ back
        → is_some f.kev ≡ false
        → any (λ g. is_some g.kev) back ≡ false)
unfolding program
build-Urgent_example = build-Urgent format floats two_edges all refl refl
