-- ===== src/Tests/Queries.antt =====
-- The queries.
use sapper.Base.{nat_eq, ℕ, ◌≡◌, ◌↔◌, refl, true, List, [], ◌∷◌, some, ok}
use sapper.Bitmap.Listed.{listed}
use sapper.Graph.{children_direction}
use sapper.Graph.Query.{query_bitmap, query_dependents_no_cache}
use sapper.Graph.Query.Reach.{Reach}
use sapper.Graph.Query.Correct.{query_bitmap-Reach}
use sapper.Graph.Edit.WellFormed.{IsWellFormed-children}
use sapper.Tests.Sample.{app, vuln, program, two_edges, two_edges-IsWellFormed}

-- The application depends on the library and, through it, on the vulnerability.
dependencies_of_app :
    query_bitmap two_edges (some (record app { children = 2 ∷ [] })) children_direction
    ≡ ok (1 ∷ 2 ∷ 3 ∷ [])
unfolding program query_bitmap
dependencies_of_app = refl

dependents_of_vuln :
    query_dependents_no_cache two_edges (some (record vuln { parents = 2 ∷ [] }))
    ≡ ok (3 ∷ 2 ∷ 1 ∷ [])
unfolding program query_dependents_no_cache
dependents_of_vuln = refl

query_bitmap-Reach_example :
    (r : List ℕ) × (query_bitmap two_edges
        (some (record app { children = 2 ∷ [] }))
        children_direction
      ≡ ok r)
    × ((w : ℕ) → (listed.contains r w ≡ true) ↔ Reach two_edges children_direction 1 w)
unfolding program
query_bitmap-Reach_example =
    query_bitmap-Reach two_edges children_direction (record app { children = 2 ∷ [] }) tt refl
      (IsWellFormed-children two_edges two_edges-IsWellFormed) refl
