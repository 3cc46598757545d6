-- ===== src/Tests/Scripts.antt =====
-- The query language.
use sapper.Base.{
  nat_eq, text_eq, ℕ, ◌≡◌, ◌↔◌, refl, Text, text, Map, true, false, List, [], ◌∷◌, Option, some, ok,
  err,
}
use sapper.Bitmap.Listed.{listed}
use sapper.Graph.{Node, parents_direction, nil_dereference}
use sapper.Graph.Query.Reach.{Reach}
use sapper.Script.{
  Query, Expression, expression, term, no_expression, Answers, has_type, iterate_expression,
  parse_and_execute, execute, index_names, resolve, collect_packages,
}
use sapper.Graph.Query.{batch_query_dependencies, batch_query_dependents}
use sapper.Script.Meaning.{
  single, joined, xor_operator, or_operator, parse_tree, meaning, iterate_expression-meaning,
}
use sapper.Script.Groups.{bracketed, iterate_expression-bracketed, iterate_expression-dangling}
use sapper.Script.Dependents.{dependents_query, parse_and_execute-dependents}
use sapper.Tests.Sample.{app, lib, vuln, program, two_edges, two_edges-IsWellFormed}

abbrev stored_vuln : Node (List ℕ) Text
stored_vuln = record vuln { parents = 2 ∷ [] }

abbrev all_nodes : Map ℕ (Option (Node (List ℕ) Text))
all_nodes =
    (1, some (record app { children = 2 ∷ [] }))
    ∷ (2, some (record lib { parents = 1 ∷ []; children = 3 ∷ [] }))
    ∷ (3, some stored_vuln)
    ∷ []

abbrev to_v : Query
to_v = dependents_query (text "library") (text "v")

-- A parser that knows one script.
abbrev parser : Text → Option Expression
parser script = some (parse_tree (single to_v))

abbrev given : Answers (List ℕ) Text
given = record {
  dependencies_for_id = [];
  dependents_for_id = (3, 3 ∷ 2 ∷ 1 ∷ []) ∷ [];
  name_to_ids = (text "v", 3) ∷ [];
  nodes = all_nodes;
  default_name = [];
}

parse_and_execute_run :
    parse_and_execute parser (text "dependents library v") two_edges [] all_nodes [] false
    ≡ ok (2 ∷ 1 ∷ [])
unfolding program parse_and_execute execute index_names resolve collect_packages iterate_expression
    batch_query_dependencies batch_query_dependents
parse_and_execute_run = refl

parse_and_execute-dependents_example :
    (r : List ℕ) × (parse_and_execute parser
        (text "dependents library v")
        two_edges
        []
        all_nodes
        []
        false
      ≡ ok r)
    × ((w : ℕ)
        → (listed.contains r w ≡ true) ↔ (
            Reach two_edges parents_direction 3 w × (has_type (text "library") all_nodes w ≡ true)))
unfolding program
parse_and_execute-dependents_example =
    parse_and_execute-dependents two_edges stored_vuln (text "library") all_nodes parser
      (text "dependents library v") [] [] refl refl two_edges-IsWellFormed refl
      (refl, (refl, (refl, tt))) refl

iterate_expression-meaning_example :
    (b : List ℕ) × (iterate_expression given (parse_tree (joined to_v xor_operator (single to_v)))
      ≡ ok (some b))
    × ((x : ℕ) → listed.contains b x ≡ meaning given (joined to_v xor_operator (single to_v)) x)
unfolding program
iterate_expression-meaning_example =
    iterate_expression-meaning given (joined to_v xor_operator (single to_v))
      ((3 ∷ 2 ∷ 1 ∷ [], refl), (3 ∷ 2 ∷ 1 ∷ [], refl))

iterate_expression-bracketed_example :
    (b : List ℕ) × (iterate_expression given (bracketed (parse_tree (single to_v))) ≡ ok (some b))
    × ((x : ℕ) → listed.contains b x ≡ false)
unfolding program
iterate_expression-bracketed_example =
    iterate_expression-bracketed given (single to_v) (3 ∷ 2 ∷ 1 ∷ [], refl)

iterate_expression-dangling_example :
    iterate_expression given
      (expression (term (some to_v) no_expression) (some (text "or")) no_expression)
    ≡ err nil_dereference
unfolding program
iterate_expression-dangling_example =
    iterate_expression-dangling given to_v or_operator (3 ∷ 2 ∷ 1 ∷ []) refl
