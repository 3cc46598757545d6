-- ===== src/Ingest/Affected/Sorting.antt =====
-- What the stable sort keeps: the elements, and a class of them that the order puts first.
use sapper.Base.{
  ◌≡◌, refl, ◌↔◌, ◌∙◌, ap, ◌⊎◌, inl, inr, ℕ, ◌≤◌, ltb, ltb→lt, Bool, true, false, ◌||◌, List, [],
  ◌∷◌, ◌++◌, any, filter, arith, Bool-cases,
}
use mathlib.Core.List.{Memᴰ}
use mathlib.Core.List.Memᴰ
use sapper.Ingest.Affected.{place, stable_sort}

module _ {A : Type 0} (less : A → A → Bool) where
  place-Memᴰ : (x y : A) (xs : List A) → Memᴰ y (place less x xs) → Memᴰ y (x ∷ xs)
  place-Memᴰ x y [] = λ m. m
  place-Memᴰ x y (z ∷ zs) = elim (Bool-cases (less z x)) [
    | inl e ↦ rw e (λ m. behind (place-Memᴰ x y zs) (Memᴰ.cases_cons m))
    | inr e ↦ rw e (λ m. m)
  ]
    where
      swap : Memᴰ y (x ∷ zs) → Memᴰ y (x ∷ z ∷ zs)
      swap (Memᴰ.head e) = Memᴰ.head e
      swap (Memᴰ.tail m) = Memᴰ.tail (Memᴰ.tail m)

      behind :
          (Memᴰ y (place less x zs) → Memᴰ y (x ∷ zs))
          → (y ≡ z) ⊎ Memᴰ y (place less x zs)
          → Memᴰ y (x ∷ z ∷ zs)
      behind ih (inl e) = Memᴰ.tail (Memᴰ.head e)
      behind ih (inr m) = swap (ih m)

  Memᴰ-place : (x y : A) (xs : List A) → Memᴰ y (x ∷ xs) → Memᴰ y (place less x xs)
  Memᴰ-place x y [] m = m
  Memᴰ-place x y (z ∷ zs) m = elim (Bool-cases (less z x)) [
    | inl e ↦ rw e (ahead (Memᴰ-place x y zs) m)
    | inr e ↦ rw e m
  ]
    where
      ahead :
          (Memᴰ y (x ∷ zs) → Memᴰ y (place less x zs))
          → Memᴰ y (x ∷ z ∷ zs)
          → Memᴰ y (z ∷ place less x zs)
      ahead ih (Memᴰ.head e) = Memᴰ.tail (ih (Memᴰ.head e))
      ahead ih (Memᴰ.tail (Memᴰ.head e)) = Memᴰ.head e
      ahead ih (Memᴰ.tail (Memᴰ.tail m)) = Memᴰ.tail (ih (Memᴰ.tail m))

  pub stable_sort-Memᴰ : (y : A) (xs : List A) → Memᴰ y (stable_sort less xs) ↔ Memᴰ y xs
  stable_sort-Memᴰ y [] = (λ m. m, λ m. m)
  stable_sort-Memᴰ y (x ∷ xs) = (
    λ m. later (stable_sort-Memᴰ y xs).0 (Memᴰ.cases_cons (place-Memᴰ x y (stable_sort less xs) m)),
    λ m.
        Memᴰ-place x y (stable_sort less xs) (sooner (stable_sort-Memᴰ y xs).1 (Memᴰ.cases_cons m)),
  )
    where
      later :
          (Memᴰ y (stable_sort less xs) → Memᴰ y xs)
          → (y ≡ x) ⊎ Memᴰ y (stable_sort less xs)
          → Memᴰ y (x ∷ xs)
      later ih (inl e) = Memᴰ.head e
      later ih (inr m) = Memᴰ.tail (ih m)

      sooner :
          (Memᴰ y xs → Memᴰ y (stable_sort less xs))
          → (y ≡ x) ⊎ Memᴰ y xs
          → Memᴰ y (x ∷ stable_sort less xs)
      sooner ih (inl e) = Memᴰ.head e
      sooner ih (inr m) = Memᴰ.tail (ih m)

  module _ (p : A → Bool) where
    pub any-place : (x : A) (xs : List A) → any p (place less x xs) ≡ (p x || any p xs)
    any-place x [] = refl
    any-place x (y ∷ ys) = ground (arith, any-place x ys)

    pub any-stable_sort : (xs : List A) → any p (stable_sort less xs) ≡ any p xs
    any-stable_sort [] = refl
    any-stable_sort (x ∷ xs) =
        any-place x (stable_sort less xs) ∙ ap (λ b. p x || b) (any-stable_sort xs)

    -- Nothing of the class comes after an element outside it.
    abbrev pub Leading : List A → Type 0
    Leading [] = Unit
    Leading (x ∷ xs) = (p x ≡ false → any p xs ≡ false) × Leading xs

    pub Leading-behind :
        (front back : List A) (x : A)
        → Leading (front ++ x ∷ back)
        → p x ≡ false
        → any p back ≡ false
    Leading-behind [] back x h e = h.0 e
    Leading-behind (y ∷ front) back x h e = Leading-behind front back x h.1 e

    module _ (leads : (a b : A) → p a ≡ true → p b ≡ false → less a b ≡ true)
        (keeps : (a b : A) → less a b ≡ true → p b ≡ true → p a ≡ true) where
      place-Leading : (x : A) (xs : List A) → Leading xs → Leading (place less x xs)
      place-Leading x [] h = (λ _. refl, tt)
      place-Leading x (y ∷ ys) h = elim (Bool-cases (less y x)) [
        | inl e ↦
            rw e (λ out. ground (arith, any-place x ys, keeps y x, h.0), place-Leading x ys h.1)
        | inr e ↦ rw e (λ out. ground (arith, leads y x, h.0), h)
      ]

      pub stable_sort-Leading : (xs : List A) → Leading (stable_sort less xs)
      stable_sort-Leading [] = tt
      stable_sort-Leading (x ∷ xs) = place-Leading x (stable_sort less xs) (stable_sort-Leading xs)

module _ {A : Type 0} (p : A → Bool) where
  pub filter-Memᴰ : (y : A) (xs : List A) → Memᴰ y (filter p xs) ↔ (Memᴰ y xs × (p y ≡ true))
  filter-Memᴰ y [] = (λ m. absurd (Memᴰ.not-nil m), λ m. m.0)
  filter-Memᴰ y (x ∷ xs) = elim (Bool-cases (p x)) [
    | inl e ↦ rw e (
      λ m. kept (filter-Memᴰ y xs).0 e (Memᴰ.cases_cons m),
      λ (m, h). again (filter-Memᴰ y xs).1 (Memᴰ.cases_cons m) h,
    )
    | inr e ↦ rw e (
      λ m. let (n, h) = (filter-Memᴰ y xs).0 m in (Memᴰ.tail n, h),
      λ (m, h). left_out (filter-Memᴰ y xs).1 e (Memᴰ.cases_cons m) h,
    )
  ]
    where
      kept :
          (Memᴰ y (filter p xs) → Memᴰ y xs × (p y ≡ true))
          → p x ≡ true
          → (y ≡ x) ⊎ Memᴰ y (filter p xs)
          → Memᴰ y (x ∷ xs) × (p y ≡ true)
      kept ih e (inl same) = (Memᴰ.head same, ap p same ∙ e)
      kept ih e (inr m) = let (n, h) = ih m in (Memᴰ.tail n, h)

      again :
          (Memᴰ y xs × (p y ≡ true) → Memᴰ y (filter p xs))
          → (y ≡ x) ⊎ Memᴰ y xs
          → p y ≡ true
          → Memᴰ y (x ∷ filter p xs)
      again ih (inl same) h = Memᴰ.head same
      again ih (inr m) h = Memᴰ.tail (ih (m, h))

      left_out :
          (Memᴰ y xs × (p y ≡ true) → Memᴰ y (filter p xs))
          → p x ≡ false
          → (y ≡ x) ⊎ Memᴰ y xs
          → p y ≡ true
          → Memᴰ y (filter p xs)
      left_out ih e (inl same) h = absurd (apart (ap p same) e h)
        where
          apart : p y ≡ p x → p x ≡ false → p y ≡ true → ⊥
          apart s e h = cc
      left_out ih e (inr m) h = ih (m, h)

module _ {A : Type 0} (key : A → ℕ) where
  -- By their keys, the least first.
  abbrev pub Ascending : List A → Type 0
  Ascending [] = Unit
  Ascending (x ∷ xs) = ((y : A) → Memᴰ y xs → key x ≤ key y) × Ascending xs

  abbrev pub by_key : A → A → Bool
  by_key a b = ltb (key a) (key b)

  place-Ascending : (x : A) (xs : List A) → Ascending xs → Ascending (place by_key x xs)
  place-Ascending x [] h = (λ y m. absurd (Memᴰ.not-nil m), tt)
  place-Ascending x (y ∷ ys) h = elim (Bool-cases (by_key y x)) [
    | inl e ↦ rw e (
      λ z m. elim (Memᴰ.cases_cons (place-Memᴰ by_key x z ys m)) [
        | inl same ↦ omega (arith, ap key same, ltb→lt (key y) (key x) e)
        | inr later ↦ h.0 z later
      ],
      place-Ascending x ys h.1,
    )
    | inr e ↦ rw e (
      λ z m. elim (Memᴰ.cases_cons m) [
        | inl same ↦ omega (arith, ap key same, not_less e)
        | inr later ↦ omega (arith, h.0 z later, not_less e)
      ],
      h,
    )
  ]
    where
      not_less : ltb (key y) (key x) ≡ false → key x ≤ key y
      not_less e = ground arith

  pub stable_sort-Ascending : (xs : List A) → Ascending (stable_sort by_key xs)
  stable_sort-Ascending [] = tt
  stable_sort-Ascending (x ∷ xs) =
      place-Ascending x (stable_sort by_key xs) (stable_sort-Ascending xs)
