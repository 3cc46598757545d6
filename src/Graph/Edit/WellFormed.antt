-- ===== src/Graph/Edit/WellFormed.antt =====
-- What pkg/graph keeps true of a storage.
use sapper.Base.{nat_eq, text_eq, arith, Text, ℕ, ◌≤◌, ◌≡◌, true, some, lookup}
use sapper.Bitmap.{Bitmaps}
use sapper.Graph.{Node, Store, children_direction, parents_direction}
use sapper.Graph.Query.Reach.{IsClosed}

module _ {B M : Type 0} ⦃bm : Bitmaps B⦄ (s : Store B M) where
  -- The node stored under the ID lists the other one among its children, or its parents.
  abbrev pub HasChild : ℕ → ℕ → Type 0
  HasChild v w = (n : Node B M) × (lookup v s.nodes ≡ some n) × (bm.contains n.children w ≡ true)

  abbrev pub HasParent : ℕ → ℕ → Type 0
  HasParent v w = (n : Node B M) × (lookup v s.nodes ≡ some n) × (bm.contains n.parents w ≡ true)

module _ {B M : Type 0} ⦃bm : Bitmaps B⦄ where
  pub record IsWellFormed (s : Store B M) : Type 0 where
    -- Nodes are stored under their IDs, which the counter has reached.
    pub keyed : (v : ℕ) (n : Node B M) → lookup v s.nodes ≡ some n → n.id ≡ v
    pub counted : (v : ℕ) (n : Node B M) → lookup v s.nodes ≡ some n → v ≤ s.id_counter
    -- An edge is recorded at both of its ends, and never leads from a node to itself.
    pub mutual_child : (v w : ℕ) → HasChild s v w → HasParent s w v
    pub mutual_parent : (v w : ℕ) → HasParent s v w → HasChild s w v
    pub no_loop : (v : ℕ) → HasChild s v v → ⊥
    -- Names and nodes determine one another.
    pub named : (v : ℕ) (n : Node B M) → lookup v s.nodes ≡ some n → lookup n.name s.ids ≡ some v
    pub resolved :
        (v : ℕ) (name : Text)
        → lookup name s.ids ≡ some v
        → (n : Node B M) × (lookup v s.nodes ≡ some n) × (n.name ≡ name)

  -- So the searches of the graph find what they need, in both directions.
  pub IsWellFormed-children : (s : Store B M) → IsWellFormed s → IsClosed s children_direction
  IsWellFormed-children s h = record {
    keyed = h.keyed;
    target = λ v w (n, b, found, links, c).
        let (m, at, _) = h.mutual_child v w (n, found, cc) in (m, at);
  }

  pub IsWellFormed-parents : (s : Store B M) → IsWellFormed s → IsClosed s parents_direction
  IsWellFormed-parents s h = record {
    keyed = h.keyed;
    target = λ v w (n, b, found, links, c).
        let (m, at, _) = h.mutual_parent v w (n, found, cc) in (m, at);
  }

  -- The invariant speaks of the nodes, the names and the counter only.
  pub IsWellFormed-same :
      (s t : Store B M)
      → t.nodes ≡ s.nodes
      → t.ids ≡ s.ids
      → s.id_counter ≤ t.id_counter
      → IsWellFormed s
      → IsWellFormed t
  IsWellFormed-same s t nodes ids counter h = record {
    keyed = λ v n e. h.keyed v n (rw nodes at e);
    counted = λ v n e. omega (arith, h.counted v n (rw nodes at e));
    mutual_child = λ v w c. rw nodes (h.mutual_child v w (rw nodes at c));
    mutual_parent = λ v w c. rw nodes (h.mutual_parent v w (rw nodes at c));
    no_loop = λ v c. h.no_loop v (rw nodes at c);
    named = λ v n e. rw ids (h.named v n (rw nodes at e));
    resolved = λ v name e. rw nodes (h.resolved v name (rw ids at e));
  }
