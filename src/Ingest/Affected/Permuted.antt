-- ===== src/Ingest/Affected/Permuted.antt =====
-- Sorting by a key that no two elements share does not depend on the order of the list.
use mathlib.Core.List.{Memᴰ, Permᴰ}
use mathlib.Core.List.Memᴰ
use mathlib.Core.List.Permᴰ.{nil, cons, swap, trans}
use sapper.Base.{
  refl, sym, ap, subst, ◌∙◌, ◌≡◌, ◌≢◌, ℕ, Bool, true, List, [], ◌∷◌, leb, suc, ◌<◌, if◌then◌else◌,
  arith, inl, inr,
}
use sapper.Ingest.Affected.{place, stable_sort}
use sapper.Ingest.Affected.Sorting.{stable_sort-Memᴰ, by_key}

module _ {A : Type 0} where
  pub Permᴰ-Memᴰ : {xs ys : List A} (y : A) → Permᴰ xs ys → Memᴰ y ys → Memᴰ y xs
  Permᴰ-Memᴰ y nil m = m
  Permᴰ-Memᴰ y (cons e p) m = elim (Memᴰ.cases_cons m) [
    | inl same ↦ Memᴰ.head (same ∙ sym e)
    | inr m' ↦ Memᴰ.tail (Permᴰ-Memᴰ y p m')
  ]
  Permᴰ-Memᴰ y (swap e f) m = elim (Memᴰ.cases_cons m) [
    | inl same ↦ Memᴰ.tail (Memᴰ.head (same ∙ sym f))
    | inr m' ↦ elim (Memᴰ.cases_cons m') [
      | inl same ↦ Memᴰ.head (same ∙ sym e)
      | inr m'' ↦ Memᴰ.tail (Memᴰ.tail m'')
    ]
  ]
  Permᴰ-Memᴰ y (trans p q) m = Permᴰ-Memᴰ y p (Permᴰ-Memᴰ y q m)

  place_agree :
      (less less' : A → A → Bool) (x : A) (ys : List A)
      → ((y : A) → Memᴰ y ys → less y x ≡ less' y x)
      → place less x ys ≡ place less' x ys
  place_agree less less' x [] h = refl
  place_agree less less' x (y ∷ ys) h =
      ap (λ l. if less y x then y ∷ l else x ∷ y ∷ ys)
        (place_agree less less' x ys (λ z m. h z (Memᴰ.tail m)))
      ∙ ap (λ b. if b then y ∷ place less' x ys else x ∷ y ∷ ys) (h y (Memᴰ.head refl))

  -- Tests that agree on the elements of a list sort it in the same way.
  pub stable_sort_agree :
      (less less' : A → A → Bool) (xs : List A)
      → ((x y : A) → Memᴰ x xs → Memᴰ y xs → less x y ≡ less' x y)
      → stable_sort less xs ≡ stable_sort less' xs
  stable_sort_agree less less' [] h = refl
  stable_sort_agree less less' (x ∷ xs) h =
      place_agree less less' x (stable_sort less xs)
        (λ y m. h y x (Memᴰ.tail ((stable_sort-Memᴰ less y xs).0 m)) (Memᴰ.head refl))
      ∙ ap (place less' x)
          (stable_sort_agree less less' xs (λ a b m n. h a b (Memᴰ.tail m) (Memᴰ.tail n)))

module _ {A : Type 0} (key : A → ℕ) where
  abbrev pub Distinct : List A → Type 0
  Distinct [] = Unit
  Distinct (x ∷ xs) = ((y : A) → Memᴰ y xs → key x ≢ key y) × Distinct xs

  place_comm :
      (x y : A) (l : List A)
      → key x ≢ key y
      → place (by_key key) x (place (by_key key) y l)
        ≡ place (by_key key) y (place (by_key key) x l)
  place_comm x y [] h = ground arith
  place_comm x y (z ∷ l) h = ground (arith, place_comm x y l h)

  Permᴰ-Distinct : {xs ys : List A} → Permᴰ xs ys → Distinct xs → Distinct ys
  Permᴰ-Distinct nil d = d
  Permᴰ-Distinct (cons e p) d =
      (λ y m. subst (λ a. key a ≢ key y) e (d.0 y (Permᴰ-Memᴰ y p m)), Permᴰ-Distinct p d.1)
  Permᴰ-Distinct (swap e f) d = (
    λ y m k. elim (Memᴰ.cases_cons m) [
      | inl same ↦ d.0 _ (Memᴰ.head refl) (ap key e ∙ ap key (sym same) ∙ sym k ∙ ap key (sym f))
      | inr m' ↦ d.1.0 y m' (ap key f ∙ k)
    ],
    (λ y m k. d.0 y (Memᴰ.tail m) (ap key e ∙ k), d.1.1),
  )
  Permᴰ-Distinct (trans p q) d = Permᴰ-Distinct q (Permᴰ-Distinct p d)

  pub stable_sort-Permᴰ :
      {xs ys : List A}
      → Permᴰ xs ys
      → Distinct xs
      → stable_sort (by_key key) xs ≡ stable_sort (by_key key) ys
  stable_sort-Permᴰ nil d = refl
  stable_sort-Permᴰ (cons {a} {b} {l₁} {l₂} e p) d =
      ap (place (by_key key) a) (stable_sort-Permᴰ p d.1)
      ∙ ap (λ x. place (by_key key) x (stable_sort (by_key key) l₂)) e
  stable_sort-Permᴰ (swap {a} {b} {a'} {b'} {l} e f) d =
      place_comm a b (stable_sort (by_key key) l) (d.0 b (Memᴰ.head refl))
      ∙ ap (λ x. place (by_key key) x (place (by_key key) a (stable_sort (by_key key) l))) f
      ∙ ap (λ x. place (by_key key) a' (place (by_key key) x (stable_sort (by_key key) l))) e
  stable_sort-Permᴰ (trans p q) d = stable_sort-Permᴰ p d ∙ stable_sort-Permᴰ q (Permᴰ-Distinct p d)

  -- A list in which every key is above the ones before it.
  abbrev pub Rising : ℕ → List A → Type 0
  Rising low [] = Unit
  Rising low (x ∷ xs) = (leb low (key x) ≡ true) × Rising (suc (key x)) xs

  pub Rising-Distinct : (low : ℕ) (xs : List A) → Rising low xs → Distinct xs
  Rising-Distinct low [] h = tt
  Rising-Distinct low (x ∷ xs) h =
      (λ y m. above (suc (key x)) xs h.1 y m (omega arith), Rising-Distinct (suc (key x)) xs h.1)
    where
      above :
          (low : ℕ) (l : List A) → Rising low l → (y : A) → Memᴰ y l → key x < low → key x ≢ key y
      above low [] r y m k = absurd (Memᴰ.not-nil m)
      above low (z ∷ l) r y m k = elim (Memᴰ.cases_cons m) [
        | inl e ↦ ground (arith, ap key e)
        | inr m' ↦ above (suc (key z)) l r.1 y m' (ground arith)
      ]

  pub stable_sort-Rising :
      (low : ℕ) (xs : List A) → Rising low xs → stable_sort (by_key key) xs ≡ xs
  stable_sort-Rising low [] h = refl
  stable_sort-Rising low (x ∷ xs) h =
      ap (place (by_key key) x) (stable_sort-Rising (suc (key x)) xs h.1) ∙ front xs h.1
    where
      front : (l : List A) → Rising (suc (key x)) l → place (by_key key) x l ≡ x ∷ l
      front [] r = refl
      front (y ∷ l) r = ground arith
