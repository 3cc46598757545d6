-- ===== src/Bitmap.antt =====
-- github.com/RoaringBitmap/roaring as an interface: the methods that pkg/graph and pkg/report call,
-- with what the library documents of them. `Clone` is the identity on values.
pub mod Listed
use sapper.Base.{
  nat_eq, ap, if◌then◌else◌, ℕ, ◌<◌, ◌≡◌, ◌↔◌, Bool, true, false, not, ◌&&◌, ◌||◌, List, [], ◌∷◌,
  ◌==◌, elem,
}

-- Every element is above the bound, and the list is strictly ascending.
abbrev pub AscendingFrom : ℕ → List ℕ → Type 0
AscendingFrom a [] = Unit
AscendingFrom a (x ∷ xs) = (a < x) × AscendingFrom x xs

-- Strictly ascending, as `ToArray` gives its elements.
abbrev pub Ascending : List ℕ → Type 0
Ascending [] = Unit
Ascending (x ∷ xs) = AscendingFrom x xs

pub record Bitmaps (B : Type 0) : Type 0 where
  pub new : B
  pub add : B → ℕ → B
  pub remove : B → ℕ → B
  pub contains : B → ℕ → Bool
  pub is_empty : B → Bool
  pub or : B → B → B
  pub and : B → B → B
  pub xor : B → B → B
  pub and_not : B → B → B
  pub to_array : B → List ℕ
  pub contains-new : (x : ℕ) → contains new x ≡ false
  pub contains-add : (b : B) (x y : ℕ) → contains (add b x) y ≡ (x == y || contains b y)
  pub contains-remove : (b : B) (x y : ℕ) → contains (remove b x) y ≡ (not (x == y) && contains b y)
  pub contains-or : (a b : B) (y : ℕ) → contains (or a b) y ≡ (contains a y || contains b y)
  pub contains-and : (a b : B) (y : ℕ) → contains (and a b) y ≡ (contains a y && contains b y)
  pub contains-xor :
      (a b : B) (y : ℕ)
      → contains (xor a b) y ≡ (if contains a y then not (contains b y) else contains b y)
  pub contains-and_not :
      (a b : B) (y : ℕ) → contains (and_not a b) y ≡ (contains a y && not (contains b y))
  pub elem-to_array : (b : B) (y : ℕ) → elem y (to_array b) ≡ contains b y
  pub to_array-Ascending : (b : B) → Ascending (to_array b)
  pub is_empty_iff : (b : B) → (is_empty b ≡ true) ↔ (to_array b ≡ [])
