-- ===== src/Report/Details/Impact.antt =====
-- What a finding says of the products that a vulnerability reaches.
use sapper.Base.{
  nat_eq, text_eq, ap, sym, refl, ◌∙◌, subst, ℕ, ◌≤◌, ◌≡◌, ◌≢◌, ◌↔◌, ◌⊎◌, inl, inr, Text, Map,
  lookup, Bool, true, false, not, List, [], ◌∷◌, some, elem, length, filter, arith, Bool-cases,
  nat_beq_iff, ==_refl, nat_beq,
}
use mathlib.Core.List.{Memᴰ}
use mathlib.Core.List.Memᴰ
use sapper.Bitmap.{Bitmaps}
use sapper.Graph.{Node, Store}
use sapper.Ingest.Affected.Sorting.{stable_sort-Memᴰ, filter-Memᴰ}
use sapper.Report.{Finding, Product}
use sapper.Report.Walk.{Walk, path_ids}
use sapper.Report.Walk.Climb.{IsRoot, IsPath, Climb}
use sapper.Report.Walk.Correct.{walk-Climb}
use sapper.Report.Details.Statements.{
  Stated, statement_for-Stated, IsCleared, is_suppressed-IsCleared, IsCleared-is_suppressed,
}
use sapper.Report.Details.{
  statement_for, Formats, node_names, with_name, make_products, product_of, is_suppressed, by_name,
  collect_vex, described, completed, build_finding,
}

module _ {B M : Type 0} ⦃bm : Bitmaps B⦄ (nodes : Map ℕ (Node B M)) (v : ℕ) where
  -- Every step of a path is stored, so its names are there.
  pub node_names-IsPath :
      (rest : List ℕ) (x : ℕ) (n : Node B M)
      → lookup x nodes ≡ some n
      → IsPath nodes v (x ∷ rest)
      → (names : List Text) × (node_names nodes (x ∷ rest) ≡ some (n.name ∷ names))
  unfolding node_names
  node_names-IsPath [] x n at path = ([], rw (at, node_names) refl)
  node_names-IsPath (y ∷ rest) x n at ((m, there, _), path) =
      let (names, e) = node_names-IsPath rest y m there path in
      (m.name ∷ names, rw (at, node_names) (ap (with_name n.name) e))

  module _ {V : Type 0} (w : Walk) (vex : Map Text V) where
    -- The parts of a product are there.
    abbrev Complete : ℕ → Type 0
    Complete x =
        (n : Node B M) × (rest : List ℕ) × (names : List Text) × (lookup x nodes ≡ some n)
        × (path_ids (length w.visited) w.next v x ≡ some (x ∷ rest))
        × (node_names nodes (x ∷ rest) ≡ some (n.name ∷ names))

    -- The product is made from the node.
    abbrev Made : ℕ → Product V → Type 0
    Made x p =
        (n : Node B M) × (rest : List ℕ) × (lookup x nodes ≡ some n)
        × (path_ids (length w.visited) w.next v x ≡ some (x ∷ rest))
        × (node_names nodes (x ∷ rest) ≡ some p.path)
        × (p.name ≡ n.name)
        × ((others : List Text) × (p.path ≡ p.name ∷ others))
        × (p.vex ≡ statement_for vex p.path p.name)

    abbrev Each : List ℕ → List (Product V) → Type 0
    Each ids products =
        ((p : Product V) → Memᴰ p products → (x : ℕ) × (elem x ids ≡ true) × Made x p)
        × ((x : ℕ) → elem x ids ≡ true → (p : Product V) × Memᴰ p products × Made x p)

    make_products-Each :
        (ids : List ℕ)
        → ((x : ℕ) → elem x ids ≡ true → Complete x)
        → (products : List (Product V)) × (make_products nodes v w vex ids ≡ some products)
          × Each ids products
    unfolding make_products
    make_products-Each [] h = ([], refl, (λ p m. absurd (Memᴰ.not-nil m), λ x e. cc))
    make_products-Each (id ∷ ids) h =
        let (n, rest, names, at, follows, named) = h id (ground (arith, ==_refl id)) in
        let (products, e, (from, to)) = make_products-Each ids (λ x m. h x (ground (arith, m))) in
        let p = product_of vex n.name (n.name ∷ names) in
        (
          p ∷ products,
          rw (at, make_products) (rw follows (rw named (rw e refl))),
          (
            λ q m. elim (Memᴰ.cases_cons m) [
              | inl same ↦ (
                id,
                ground (arith, ==_refl id),
                (
                  n,
                  rest,
                  at,
                  follows,
                  subst (λ r. node_names nodes (id ∷ rest) ≡ some r.path) (sym same) named,
                  ap (λ r. r.name) same,
                  (names, subst (λ r. r.path ≡ r.name ∷ names) (sym same) refl),
                  subst (λ r. r.vex ≡ statement_for vex r.path r.name) (sym same) refl,
                ),
              )
              | inr m' ↦ let (x, l, made) = from q m' in (x, ground (arith, l), made)
            ],
            λ x m. elim (Bool-cases (nat_beq id x)) [
              | inl same ↦
                  subst (λ y. (q : Product V) × Memᴰ q (p ∷ products) × Made y q)
                    ((nat_beq_iff id x).0 same)
                    (p, Memᴰ.head refl, (n, rest, at, follows, named, refl, (names, refl), refl))
              | inr other ↦ let (q, l, made) = to x (ground (arith, m)) in (q, Memᴰ.tail l, made)
            ],
          ),
        )

module _ {K S V : Type 0} where
  -- The finding lists the product, among those that a VEX statement clears or among the others.
  abbrev pub Lists : Finding K S V → Product V → Type 0
  Lists f p = Memᴰ p f.products ⊎ Memᴰ p f.suppressed

module _ {B M K S V : Type 0} ⦃bm : Bitmaps B⦄ (format : Formats M K S V) (s : Store B M)
    (nodes : Map ℕ (Node B M)) (vuln : Node B M) (names : List Text) where
  -- The product is a node that depends on the vulnerability and that nothing depends on, its path
  -- names the nodes of a shortest chain, and its statement is the one stored for it or its package.
  abbrev pub Impact : Product V → Type 0
  Impact p =
      (x : ℕ) × (n : Node B M) × (rest : List ℕ) × (lookup x nodes ≡ some n)
      × (p.name ≡ n.name)
      × (x ≢ vuln.id)
      × IsRoot nodes x
      × IsPath nodes vuln.id (x ∷ rest)
      × (node_names nodes (x ∷ rest) ≡ some p.path)
      × ((k : ℕ) → Climb nodes vuln.id k x → length (x ∷ rest) ≤ k)
      × Stated format s names p

module _ {B M K S V : Type 0} ⦃bm : Bitmaps B⦄ (format : Formats M K S V) (s : Store B M)
    (nodes : Map ℕ (Node B M)) (vuln : Node B M) (names : List Text) where
  found_in_parts :
      (w : Walk) (f : Finding K S V) (products : List (Product V)) (p : Product V)
      → Lists (completed format w f products) p ↔ Memᴰ p products
  found_in_parts w f products p = (
    λ o. elim o [
      | inl m ↦
          ((filter-Memᴰ (λ q. not (is_suppressed format q)) p products).0 (
            (stable_sort-Memᴰ by_name p (filter (λ q. not (is_suppressed format q)) products)).0
              m)).0
      | inr m ↦
          ((filter-Memᴰ (is_suppressed format) p products).0
            ((stable_sort-Memᴰ by_name p (filter (is_suppressed format) products)).0 m)).0
    ],
    λ m. elim (Bool-cases (is_suppressed format p)) [
      | inl e ↦ inr (
          (stable_sort-Memᴰ by_name p (filter (is_suppressed format) products)).1
            ((filter-Memᴰ (is_suppressed format) p products).1 (m, e)))
      | inr e ↦ inl (
          (stable_sort-Memᴰ by_name p (filter (λ q. not (is_suppressed format q)) products)).1
            ((filter-Memᴰ (λ q. not (is_suppressed format q)) p products).1 (m, ap not e)))
    ],
  )

  same_rest : (x : ℕ) (r t : List ℕ) → some (x ∷ r) ≡ some (x ∷ t) → r ≡ t
  same_rest x r t e = cc

  negated : (b : Bool) → not b ≡ true → b ≡ false
  negated b e = ground arith

  -- There is a finding. Every product that it lists is a node that depends on the vulnerability and
  -- that nothing depends on, with the names of a shortest chain as its path, and with the statement
  -- stored last, in the order of the names, for it or else for the package that the path ends in;
  -- every such node gives a product; and the product is suppressed exactly if its statement has the
  -- status `not_affected` or `fixed`.
  pub build_finding-Impact :
      (f : Finding K S V) × (build_finding format s nodes vuln names ≡ some f)
      × ((p : Product V) → Lists f p → Impact format s nodes vuln names p)
      × ((x k : ℕ)
          → x ≢ vuln.id
          → IsRoot nodes x
          → Climb nodes vuln.id k x
          → (p : Product V) × (n : Node B M) × (lookup x nodes ≡ some n)
            × (p.name ≡ n.name)
            × Lists f p)
      × ((p : Product V) → Memᴰ p f.products → ¬ IsCleared format s p)
      × ((p : Product V) → Memᴰ p f.suppressed → IsCleared format s p)
  unfolding build_finding
  build_finding-Impact =
      let (w, ends, exact, paths) = walk-Climb nodes vuln.id in
      let vex = collect_vex format s names [] in
      let (products, made, (from, to)) = make_products-Each nodes vuln.id w vex w.products (λ x m.
        let (_, (n, at, _), _, _) = (exact x).0 m in
        let (rest, follows, path, short) = paths x m in
        let (others, named) = node_names-IsPath nodes vuln.id rest x n at path in
        (n, rest, others, at, follows, named)) in
      let f = completed format w (described format s vuln names) products in
      (
        f,
        rw (ends, build_finding) (rw made refl),
        (λ p l.
            let (x, m, (n, rest, at, follows, named, same, (others, begins), vex_of)) =
              from p ((found_in_parts w (described format s vuln names) products p).0 l) in
            let (far, root, _, _) = (exact x).0 m in
            let (rest', follows', path, short) = paths x m in
            let agree = same_rest x rest' rest (sym follows' ∙ follows) in
            (
              x,
              n,
              rest,
              at,
              same,
              far,
              root,
              subst (λ r. IsPath nodes vuln.id (x ∷ r)) agree path,
              named,
              λ k c. omega (arith, short k c, ap length agree),
              statement_for-Stated format s names p others begins vex_of,
            )),
        (λ x k far root c.
            let (p, m, (n, _, at, _, _, same, _, _)) = to x ((exact x).1 (far, root, k, c)) in
            (p, n, at, same, (found_in_parts w (described format s vuln names) products p).1 m)),
        (λ p m. IsCleared-is_suppressed format s p (
            negated (is_suppressed format p)
              ((filter-Memᴰ (λ q. not (is_suppressed format q)) p products).0 (
                (stable_sort-Memᴰ by_name p (filter (λ q. not (is_suppressed format q)) products)).0
                  m)).1)),
        (λ p m.
            is_suppressed-IsCleared format s p
              ((filter-Memᴰ (is_suppressed format) p products).0
                ((stable_sort-Memᴰ by_name p (filter (is_suppressed format) products)).0 m)).1),
      )
