-- ===== src/Bitmap/Listed.antt =====
-- The interface can be met: a set is the list of what was added, and its array is sorted on demand.
use sapper.Base.{
  nat_eq, ap, if◌then◌else◌, ℕ, ◌<◌, ◌≡◌, ◌↔◌, refl, Bool, true, false, not, ◌&&◌, ◌||◌, List, [],
  ◌∷◌, ◌++◌, ◌==◌, elem, arith, ltb, elem-append, filter, nat_beq, nat_beq_iff, Bool-cases, inl,
  inr,
}
use sapper.Bitmap.{Bitmaps, Ascending, AscendingFrom}

-- Insertion into an ascending list.
abbrev place : ℕ → List ℕ → List ℕ
place x [] = x ∷ []
place x (y ∷ ys) = if ltb x y then x ∷ y ∷ ys else if nat_beq x y then y ∷ ys else y ∷ place x ys

abbrev arrange : List ℕ → List ℕ
arrange [] = []
arrange (x ∷ xs) = place x (arrange xs)

abbrev empty : List ℕ → Bool
empty [] = true
empty (x ∷ xs) = false

elem-place : (x y : ℕ) (xs : List ℕ) → elem y (place x xs) ≡ (x == y || elem y xs)
elem-place x y [] = refl
elem-place x y (z ∷ xs) = ground (arith, elem-place x y xs)

pub elem-arrange : (xs : List ℕ) (y : ℕ) → elem y (arrange xs) ≡ elem y xs
elem-arrange [] y = refl
elem-arrange (x ∷ xs) y = ground (arith, elem-place x y (arrange xs), elem-arrange xs y)

place-AscendingFrom :
    (a x : ℕ) (xs : List ℕ) → a < x → AscendingFrom a xs → AscendingFrom a (place x xs)
place-AscendingFrom a x [] h s = ground arith
place-AscendingFrom a x (y ∷ xs) h s = ground (arith, place-AscendingFrom y x xs)

place-Ascending : (x : ℕ) (xs : List ℕ) → Ascending xs → Ascending (place x xs)
place-Ascending x [] s = tt
place-Ascending x (y ∷ xs) s = ground (arith, place-AscendingFrom y x xs)

pub arrange-Ascending : (xs : List ℕ) → Ascending (arrange xs)
arrange-Ascending [] = tt
arrange-Ascending (x ∷ xs) = place-Ascending x (arrange xs) (arrange-Ascending xs)

place-ne-nil : (x : ℕ) (xs : List ℕ) → place x xs ≡ [] → ⊥
place-ne-nil x [] h = cc
place-ne-nil x (y ∷ xs) h = ground arith

pub empty_iff : (b : List ℕ) → (empty b ≡ true) ↔ (arrange b ≡ [])
empty_iff [] = (λ _. refl, λ _. refl)
empty_iff (x ∷ xs) = (λ h. cc, λ h. absurd (place-ne-nil x (arrange xs) h))

elem-filter : (p : ℕ → Bool) (y : ℕ) (xs : List ℕ) → elem y (filter p xs) ≡ (p y && elem y xs)
elem-filter p y [] = ground arith
elem-filter p y (x ∷ xs) = elim (Bool-cases (nat_beq x y)) [
  | inl same ↦ ground (arith, elem-filter p y xs, ap p ((nat_beq_iff x y).0 same))
  | inr other ↦ ground (arith, elem-filter p y xs)
]

elem_head : (y : ℕ) (xs : List ℕ) → elem y (y ∷ xs) ≡ true
elem_head y xs = ground arith

pub listed_or : (a b : List ℕ) (y : ℕ) → elem y (a ++ b) ≡ (elem y a || elem y b)
listed_or a b y = elem-append y a b

pub listed_xor :
    (a b : List ℕ) (y : ℕ)
    → elem y (filter (λ x. not (elem x b)) a ++ filter (λ x. not (elem x a)) b)
      ≡ (if elem y a then not (elem y b) else elem y b)
listed_xor a b y = ground (
  arith,
  elem-append y (filter (λ x. not (elem x b)) a) (filter (λ x. not (elem x a)) b),
  elem-filter (λ x. not (elem x b)) y a,
  elem-filter (λ x. not (elem x a)) y b,
)

pub listed_and : (a b : List ℕ) (y : ℕ) → elem y (filter (λ x. elem x b) a) ≡ (elem y a && elem y b)
listed_and a b y = ground (arith, elem-filter (λ x. elem x b) y a)

pub listed_and_not :
    (a b : List ℕ) (y : ℕ) → elem y (filter (λ x. not (elem x b)) a) ≡ (elem y a && not (elem y b))
listed_and_not a b y = ground (arith, elem-filter (λ x. not (elem x b)) y a)

pub listed_remove :
    (b : List ℕ) (x y : ℕ)
    → elem y (filter (λ z. not (nat_beq x z)) b) ≡ (not (nat_beq x y) && elem y b)
listed_remove b x y = elem-filter (λ z. not (nat_beq x z)) y b

instance abbrev pub listed : Bitmaps (List ℕ)
listed = record {
  new = [];
  add = λ b x. x ∷ b;
  remove = λ b x. filter (λ z. not (nat_beq x z)) b;
  contains = λ b x. elem x b;
  is_empty = empty;
  or = ◌++◌;
  and = λ a b. filter (λ x. elem x b) a;
  xor = λ a b. filter (λ x. not (elem x b)) a ++ filter (λ x. not (elem x a)) b;
  and_not = λ a b. filter (λ x. not (elem x b)) a;
  to_array = arrange;
  contains-new = λ _. refl;
  contains-add = λ _ _ _. refl;
  contains-remove = listed_remove;
  contains-or = listed_or;
  contains-and = listed_and;
  contains-xor = listed_xor;
  contains-and_not = listed_and_not;
  elem-to_array = elem-arrange;
  to_array-Ascending = arrange-Ascending;
  is_empty_iff = empty_iff;
}
