-- ===== src/Report/Walk/Correct.antt =====
-- The walk finds the products that a vulnerability reaches, and a shortest path to each of them.
use sapper.Base.{
  nat_eq, ap, sym, refl, ◌∙◌, subst, ℕ, zero, suc, ◌≤◌, ◌≡◌, ◌≢◌, ◌↔◌, Map, true, false, List, [],
  ◌∷◌, some, elem, length, arith, Bool-cases, nat_beq, nat_beq_iff, inl, inr,
}
use sapper.Bitmap.{Bitmaps}
use sapper.Graph.{Node}
use sapper.Report.Walk.{Walk, walk, walk_start, path_ids, next_of, edge_count}
use sapper.Report.Walk.Climb.{Parent, IsRoot, IsPath, Climb, here, up}
use sapper.Report.Walk.Work.{walk_loop_rule, open_parents-le}
use sapper.Report.Walk.Levels.{Levels, Done}
use sapper.Report.Walk.Rounds.{Round, start-Round, walk_step-Round}

module _ {B M : Type 0} ⦃bm : Bitmaps B⦄ (nodes : Map ℕ (Node B M)) (v : ℕ) where
  module _ (depth : ℕ → ℕ) (current : ℕ) (w : Walk) (h : Levels nodes v depth current w)
      (done : (x : ℕ) → elem x w.visited ≡ true → Done nodes v depth w x) where
    -- No chain is shorter than the distance.
    found_early : {k x : ℕ} → Climb nodes v k x → (elem x w.visited ≡ true) × (depth x ≤ k)
    found_early here = (h.root, omega (arith, h.depth_root))
    found_early (up {k} {x} {y} c par) =
        let (seen, below) = found_early c in
        let (later, near) = done y seen x par in (later, omega arith)

    at_start : (x : ℕ) → x ≡ v → Climb nodes v (depth x) x
    at_start x e =
        subst (λ y. Climb nodes v (depth y) y) (sym e)
          (subst (λ d. Climb nodes v d v) (sym h.depth_root) here)

    reached : (n x : ℕ) → elem x w.visited ≡ true → depth x ≤ n → Climb nodes v (depth x) x
    reached zero x m below = elim (h.linked x m) [
      | inl e ↦ at_start x e
      | inr (y, at, par, seen, deeper) ↦ absurd (omega arith)
    ]
    reached (suc n) x m below = elim (h.linked x m) [
      | inl e ↦ at_start x e
      | inr (y, at, par, seen, deeper) ↦
          subst (λ d. Climb nodes v d x) (sym deeper) (up (reached n y seen (omega arith)) par)
    ]

    abbrev Chain : ℕ → List ℕ → Type 0
    Chain x steps =
        IsPath nodes v steps
        × (length steps ≡ depth x)
        × (x ≡ v → steps ≡ [])
        × (x ≢ v → (rest : List ℕ) × (steps ≡ x ∷ rest))

    here-Chain :
        (fuel x : ℕ)
        → x ≡ v
        → (steps : List ℕ) × (path_ids fuel w.next v x ≡ some steps) × Chain x steps
    unfolding path_ids
    here-Chain zero x e = (
      [],
      rw ((nat_beq_iff x v).1 e) refl,
      (tt, omega (arith, ap depth e, h.depth_root), λ _. refl, λ far. absurd (far e)),
    )
    here-Chain (suc fuel) x e = (
      [],
      rw ((nat_beq_iff x v).1 e, path_ids) refl,
      (tt, omega (arith, ap depth e, h.depth_root), λ _. refl, λ far. absurd (far e)),
    )

    -- A path starts at its first node and goes on to the next one.
    join :
        (x y : ℕ) (steps : List ℕ) → Parent nodes y x → Chain y steps → IsPath nodes v (x ∷ steps)
    join x y [] par (path, size, near, far) = elim (Bool-cases (nat_beq y v)) [
      | inl e ↦ subst (λ k. Parent nodes k x) ((nat_beq_iff y v).0 e) par
      | inr e ↦
          let (rest, starts) = far (λ s. ground (arith, nat_beq_iff y v)) in
          absurd (nil-ne-cons y rest starts)
    ]
      where
        nil-ne-cons : (y : ℕ) (rest : List ℕ) → [] ≡ y ∷ rest → ⊥
        nil-ne-cons y rest s = cc
    join x y (z ∷ rest) par (path, size, near, far) = elim (Bool-cases (nat_beq y v)) [
      | inl e ↦ absurd (cons-ne-nil z rest (near ((nat_beq_iff y v).0 e)))
      | inr e ↦
          let (rest', starts) = far (λ s. ground (arith, nat_beq_iff y v)) in
          (subst (λ k. Parent nodes k x) (cons_head y z rest' rest (sym starts)) par, path)
    ]
      where
        cons-ne-nil : (z : ℕ) (rest : List ℕ) → z ∷ rest ≡ [] → ⊥
        cons-ne-nil z rest s = cc

        cons_head : (y z : ℕ) (r t : List ℕ) → y ∷ r ≡ z ∷ t → y ≡ z
        cons_head y z r t s = cc

    path_ids-Chain :
        (fuel x : ℕ)
        → elem x w.visited ≡ true
        → depth x ≤ fuel
        → (steps : List ℕ) × (path_ids fuel w.next v x ≡ some steps) × Chain x steps
    unfolding path_ids
    path_ids-Chain zero x m below = elim (h.linked x m) [
      | inl e ↦ here-Chain zero x e
      | inr (y, at, par, seen, deeper) ↦ absurd (omega arith)
    ]
    path_ids-Chain (suc fuel) x m below = elim (h.linked x m) [
      | inl e ↦ here-Chain (suc fuel) x e
      | inr (y, at, par, seen, deeper) ↦
          let (steps, ends, path) = path_ids-Chain fuel y seen (omega arith) in
          let far : x ≢ v = λ e. omega (arith, ap depth e, h.depth_root) in
          let apart : nat_beq x v ≡ false = ground (arith, nat_beq_iff x v) in
          let goes : next_of w.next x ≡ y = rw (at, next_of) refl in
          (
            x ∷ steps,
            rw (apart, path_ids) (rw (goes, ends) refl),
            (
              join x y steps par path,
              omega (arith, path.1),
              λ e. absurd (far e),
              λ _. (steps, refl),
            ),
          )
    ]

  -- The walk ends. Its products are exactly the nodes that depend on the vulnerability, at any
  -- distance, and that nothing depends on. From each of them, following `next` gives a dependency
  -- path down to the vulnerable package, which starts at the product and is as short as any chain.
  pub walk-Climb :
      (w : Walk) × (walk nodes v ≡ some w)
      × ((x : ℕ)
          → (elem x w.products ≡ true) ↔ ((x ≢ v) × IsRoot nodes x × (k : ℕ) × Climb nodes v k x))
      × ((x : ℕ)
          → elem x w.products ≡ true
          → (rest : List ℕ) × (path_ids (length w.visited) w.next v x ≡ some (x ∷ rest))
            × IsPath nodes v (x ∷ rest)
            × ((k : ℕ) → Climb nodes v k x → length (x ∷ rest) ≤ k))
  unfolding walk
  walk-Climb =
      let (w, ends, empty, (depth, current, h, settled)) =
        walk_loop_rule nodes v (Round nodes v) (walk_step-Round nodes v) (suc (edge_count nodes))
          (walk_start v) (omega (arith, open_parents-le (v ∷ []) nodes)) (start-Round nodes v) in
      let done : (x : ℕ) → elem x w.visited ≡ true → Done nodes v depth w x =
        λ x m. elim (settled x m) [ inl q ↦ absurd (nowhere x w.queue empty q) | inr d ↦ d ] in
      (
        w,
        ends,
        λ x. (
          λ m.
              let (far, seen, root) = h.listed x m in
              (far, root, depth x, reached depth current w h done (depth x) x seen (omega arith)),
          λ (far, root, k, c).
              let (seen, _) = found_early depth current w h done c in
              elim (h.kept x seen far root) [
                | inl q ↦ absurd (nowhere x w.queue empty q)
                | inr m ↦ m
              ],
        ),
        λ x m.
            let (far, seen, root) = h.listed x m in
            let (steps, follows, (path, size, _, starts)) =
              path_ids-Chain depth current w h done (length w.visited) x seen
                (omega (arith, h.short x seen)) in
            let (rest, e) = starts far in
            (
              rest,
              follows ∙ ap (λ (l : List ℕ). some l) e,
              subst (IsPath nodes v) e path,
              λ k c. omega (arith, ap length e, size, found_early depth current w h done c),
            ),
      )
    where
      nowhere : (x : ℕ) (q : List ℕ) → q ≡ [] → elem x q ≡ true → ⊥
      nowhere x [] e m = cc
      nowhere x (y ∷ q) e m = cc
