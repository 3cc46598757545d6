-- ===== src/Report/Walk/Climb.antt =====
-- What the walk is about: the nodes that depend on the vulnerability, and how far away they are.
use sapper.Base.{nat_eq, ℕ, zero, suc, ◌≡◌, Map, lookup, true, List, [], ◌∷◌, some}
use sapper.Bitmap.{Bitmaps}
use sapper.Graph.{Node}

module _ {B M : Type 0} ⦃bm : Bitmaps B⦄ (nodes : Map ℕ (Node B M)) where
  -- The node `y` lists `x` among its parents: `x` depends on it.
  abbrev pub Parent : ℕ → ℕ → Type 0
  Parent y x = (n : Node B M) × (lookup y nodes ≡ some n) × (bm.contains n.parents x ≡ true)

  -- Nothing depends on the node.
  abbrev pub IsRoot : ℕ → Type 0
  IsRoot x = (n : Node B M) × (lookup x nodes ≡ some n) × (bm.is_empty n.parents ≡ true)

  -- Chains of dependents from `v` up to a node, by their length.
  pub data Climb (v : ℕ) : ℕ → ℕ → Type 0 where
    here : Climb v zero v
    up : {k x y : ℕ} → Climb v k y → Parent y x → Climb v (suc k) x

  -- A list of IDs, each of which depends on the next one and the last on `v`.
  abbrev pub IsPath : ℕ → List ℕ → Type 0
  IsPath v [] = Unit
  IsPath v (x ∷ []) = Parent v x
  IsPath v (x ∷ y ∷ rest) = Parent y x × IsPath v (y ∷ rest)
