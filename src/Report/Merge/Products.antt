-- ===== src/Report/Merge/Products.antt =====
-- What `mergeGroup` keeps of the products of a group.
use sapper.Base.{
  to_upper, nat_eq, text_eq, ◌⊎◌, ◌≡◌, refl, sym, ◌∙◌, ap, subst, Text, Map, lookup, insert, keys,
  values, Bool, true, false, not, ◌&&◌, ◌||◌, List, [], ◌∷◌, Option, none, some, ◌==◌, ltb, any,
  elem, arith, Bool-cases, Option-cases, inl, inr, text_beq, text_beq_iff,
}
use sapper.Ingest.Affected.{place, stable_sort}
use sapper.Ingest.Affected.Sorting.{any-stable_sort}
use sapper.Report.{Finding, Product}
use sapper.Report.Merge.{
  id_rank, before, keep_first, add_products, without, Merging, merge_one, merge_each, merge_sorted,
  merge_group,
}

or_false : (b : Bool) → (b || false) ≡ b
or_false true = refl
or_false false = refl

place-ne-nil : {A : Type 0} (less : A → A → Bool) (x : A) (xs : List A) → place less x xs ≡ [] → ⊥
place-ne-nil less x [] e = cc
place-ne-nil less x (y ∷ ys) e = ground arith

module _ {V : Type 0} where
  -- A product of that name.
  abbrev pub named : Text → Product V → Bool
  named x p = p.name == x

  -- Each product stands under its name.
  abbrev Keyed : Map Text (Product V) → Type 0
  Keyed [] = Unit
  Keyed ((k, p) ∷ m) = (k ≡ p.name) × Keyed m

  elem-insert :
      (k x : Text) (p : Product V) (m : Map Text (Product V))
      → elem x (keys (insert k p m)) ≡ (k == x || elem x (keys m))
  unfolding insert
  elem-insert k x p [] = refl
  elem-insert k x p ((j, q) ∷ m) = elim (Bool-cases (text_beq j k)) [
    | inl same ↦ ground (arith, ap (λ t. text_beq t x) ((text_beq_iff j k).0 same))
    | inr other ↦ ground (arith, elem-insert k x p m)
  ]

  insert-Keyed : (p : Product V) (m : Map Text (Product V)) → Keyed m → Keyed (insert p.name p m)
  unfolding insert
  insert-Keyed p [] h = (refl, tt)
  insert-Keyed p ((j, q) ∷ m) h = elim (Bool-cases (text_beq j p.name)) [
    | inl same ↦ rw same (refl, h.1)
    | inr other ↦ rw other (h.0, insert-Keyed p m h.1)
  ]

  lookup-elem :
      (k : Text) (p : Product V) (m : Map Text (Product V))
      → lookup k m ≡ some p
      → elem k (keys m) ≡ true
  unfolding lookup
  lookup-elem k p [] e = cc
  lookup-elem k p ((j, q) ∷ m) e = ground (arith, lookup-elem k p m)

  elem-keep_first :
      (x : Text) (p : Product V) (m : Map Text (Product V))
      → elem x (keys (keep_first p.name p m)) ≡ (named x p || elem x (keys m))
  elem-keep_first x p m = elim (Option-cases (lookup p.name m)) [
    | inl new ↦ ap (λ o. elem x (keys (kept o))) new ∙ elem-insert p.name x p m
    | inr (q, old) ↦
        ap (λ o. elem x (keys (kept o))) old
        ∙ known (Bool-cases (text_beq p.name x)) (lookup-elem p.name q m old)
  ]
    where
      kept : Option (Product V) → Map Text (Product V)
      kept o = elim o [ none ↦ insert p.name p m | some _ ↦ m ]

      known :
          (text_beq p.name x ≡ true) ⊎ (text_beq p.name x ≡ false)
          → elem p.name (keys m) ≡ true
          → elem x (keys m) ≡ (text_beq p.name x || elem x (keys m))
      known (inl h) e = rw h (subst (λ t. elem t (keys m) ≡ true) ((text_beq_iff p.name x).0 h) e)
      known (inr h) e = rw h refl

  keep_first-Keyed :
      (p : Product V) (m : Map Text (Product V)) → Keyed m → Keyed (keep_first p.name p m)
  keep_first-Keyed p m h = kept (lookup p.name m)
    where
      kept : (o : Option (Product V)) → Keyed (elim o [ none ↦ insert p.name p m | some _ ↦ m ])
      kept none = insert-Keyed p m h
      kept (some q) = h

  elem-add_products :
      (x : Text) (ps : List (Product V)) (m : Map Text (Product V))
      → elem x (keys (add_products ps m)) ≡ (any (named x) ps || elem x (keys m))
  elem-add_products x [] m = refl
  elem-add_products x (p ∷ ps) m =
      ground (arith, elem-add_products x ps (keep_first p.name p m), elem-keep_first x p m)

  add_products-Keyed :
      (ps : List (Product V)) (m : Map Text (Product V)) → Keyed m → Keyed (add_products ps m)
  add_products-Keyed [] m h = h
  add_products-Keyed (p ∷ ps) m h =
      add_products-Keyed ps (keep_first p.name p m) (keep_first-Keyed p m h)

  any-values :
      (x : Text) (m : Map Text (Product V)) → Keyed m → any (named x) (values m) ≡ elem x (keys m)
  any-values x [] h = refl
  any-values x ((k, p) ∷ m) (e, h) = ground (arith, ap (λ t. text_beq t x) e, any-values x m h)

  any-without :
      (x : Text) (gone m : Map Text (Product V))
      → Keyed m
      → any (named x) (values (without gone m)) ≡ (elem x (keys m) && not (elem x (keys gone)))
  any-without x gone [] h = refl
  any-without x gone ((k, p) ∷ m) (e, h) = elim (Bool-cases (text_beq k x)) [
    | inl here ↦ ground (
      arith,
      ap (λ t. text_beq t x) e,
      ap (λ t. elem t (keys gone)) ((text_beq_iff k x).0 here),
      any-without x gone m h,
    )
    | inr there ↦ ground (arith, ap (λ t. text_beq t x) e, any-without x gone m h)
  ]

module _ {K S V : Type 0} where
  abbrev pub reaches : Text → Finding K S V → Bool
  reaches x f = any (named x) f.products

  abbrev pub suppresses : Text → Finding K S V → Bool
  suppresses x f = any (named x) f.suppressed

  abbrev Keeps : Text → List (Finding K S V) → Finding K S V → Type 0
  Keeps x group r =
      (reaches x r ≡ (any (reaches x) group && not (any (suppresses x) group)))
      × (suppresses x r ≡ any (suppresses x) group)

module _ {K S V : Type 0} (above : S → S → Bool) where
  merge_each-products :
      (x : Text) (fs : List (Finding K S V)) (m : Merging K S V)
      → elem x (keys (merge_each above fs m).products)
        ≡ (any (reaches x) fs || elem x (keys m.products))
  unfolding merge_each merge_one
  merge_each-products x [] m = refl
  merge_each-products x (f ∷ fs) m =
      merge_each-products x fs (merge_one above f m)
      ∙ ground (arith, elem-add_products x f.products m.products)

  merge_each-suppressed :
      (x : Text) (fs : List (Finding K S V)) (m : Merging K S V)
      → elem x (keys (merge_each above fs m).suppressed)
        ≡ (any (suppresses x) fs || elem x (keys m.suppressed))
  unfolding merge_each merge_one
  merge_each-suppressed x [] m = refl
  merge_each-suppressed x (f ∷ fs) m =
      merge_each-suppressed x fs (merge_one above f m)
      ∙ ground (arith, elem-add_products x f.suppressed m.suppressed)

  merge_each-Keyed :
      (fs : List (Finding K S V)) (m : Merging K S V)
      → Keyed m.products
      → Keyed m.suppressed
      → Keyed (merge_each above fs m).products × Keyed (merge_each above fs m).suppressed
  unfolding merge_each merge_one
  merge_each-Keyed [] m p s = (p, s)
  merge_each-Keyed (f ∷ fs) m p s =
      merge_each-Keyed fs (merge_one above f m) (add_products-Keyed f.products m.products p)
        (add_products-Keyed f.suppressed m.suppressed s)

  merge_sorted-Keeps :
      (x : Text) (first : Finding K S V) (rest : List (Finding K S V))
      → Keeps x (first ∷ rest) (merge_sorted above first rest)
  merge_sorted-Keeps x first rest =
      let group = first ∷ rest in
      let start : Merging K S V = record {
        out = first;
        names = to_upper first.id ∷ [];
        aliases = [];
        packages = [];
        products = [];
        suppressed = [];
      } in
      let m = merge_each above group start in
      let (p, s) = merge_each-Keyed group start tt tt in
      let reached = merge_each-products x group start ∙ or_false (any (reaches x) group) in
      let gone = merge_each-suppressed x group start ∙ or_false (any (suppresses x) group) in
      (
        any-stable_sort (λ a b. before a.name b.name) (named x)
              (values (without m.suppressed m.products))
            ∙ any-without x m.suppressed m.products p
            ∙ ap (λ b. b && not (elem x (keys m.suppressed))) reached
            ∙ ap (λ b. any (reaches x) group && not b) gone,
        any-stable_sort (λ a b. before a.name b.name) (named x) (values m.suppressed)
            ∙ any-values x m.suppressed s
            ∙ gone,
      )

  -- A group of two or more findings merges into one that suppresses the products that any of them
  -- suppresses, and reports the products that any of them reports and none suppresses.
  pub merge_group-products :
      (x : Text) (f g : Finding K S V) (rest : List (Finding K S V))
      → let group = f ∷ g ∷ rest in
        let r = merge_group above f (g ∷ rest) in
        (reaches x r ≡ (any (reaches x) group && not (any (suppresses x) group)))
        × (suppresses x r ≡ any (suppresses x) group)
  unfolding merge_group
  merge_group-products x f g rest = split (stable_sort less group) refl
    where
      less : Finding K S V → Finding K S V → Bool
      less a b = ltb (id_rank a.id) (id_rank b.id)

      group : List (Finding K S V)
      group = f ∷ g ∷ rest

      split :
          (sorted : List (Finding K S V))
          → stable_sort less group ≡ sorted
          → Keeps x group
              (elim sorted [ [] ↦ f | first ∷ others ↦ merge_sorted above first others ])
      split [] e = absurd (place-ne-nil less f (stable_sort less (g ∷ rest)) e)
      split (first ∷ others) e =
          let (p, s) = merge_sorted-Keeps x first others in
          let same_p : any (reaches x) (first ∷ others) ≡ any (reaches x) group =
            ap (any (reaches x)) (sym e) ∙ any-stable_sort less (reaches x) group in
          let same_s : any (suppresses x) (first ∷ others) ≡ any (suppresses x) group =
            ap (any (suppresses x)) (sym e) ∙ any-stable_sort less (suppresses x) group in
          (
            p
                ∙ ap (λ b. b && not (any (suppresses x) (first ∷ others))) same_p
                ∙ ap (λ b. any (reaches x) group && not b) same_s,
            s ∙ same_s,
          )
