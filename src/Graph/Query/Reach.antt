-- ===== src/Graph/Query/Reach.antt =====
-- What a query of graph.go is about: the nodes that edges of one direction lead to.
use sapper.Base.{nat_eq, ℕ, ◌≡◌, true, some, ok, lookup}
use sapper.Bitmap.{Bitmaps}
use sapper.Graph.{Direction, parents_direction, children_direction, other_direction, Node, Store}
use sapper.Graph.Query.{bitmap_of}

-- One of the two directions that the program queries.
abbrev pub IsKnown : Direction → Type 0
IsKnown parents_direction = Unit
IsKnown children_direction = Unit
IsKnown (other_direction d) = ⊥

module _ {B M : Type 0} ⦃bm : Bitmaps B⦄ where
  -- The stored node `v` lists `w` in that direction.
  abbrev pub Edge : Store B M → Direction → ℕ → ℕ → Type 0
  Edge s d v w =
      (n : Node B M) × (b : B) × (lookup v s.nodes ≡ some n)
      × (bitmap_of d n ≡ ok b)
      × (bm.contains b w ≡ true)

  -- The walks from `u`.
  pub data Reach (s : Store B M) (d : Direction) (u : ℕ) : ℕ → Type 0 where
    here : Reach s d u u
    step : {v w : ℕ} → Reach s d u v → Edge s d v w → Reach s d u w

  -- Every node is stored under its own ID, and what an edge leads to is stored.
  pub record IsClosed (s : Store B M) (d : Direction) : Type 0 where
    pub keyed : (v : ℕ) (n : Node B M) → lookup v s.nodes ≡ some n → n.id ≡ v
    pub target : (v w : ℕ) → Edge s d v w → (n : Node B M) × (lookup w s.nodes ≡ some n)
