-- ===== src/Report/Walk/Work.antt =====
-- The walk ends: each round takes an ID off the queue, and queues only IDs that an edge leads to
-- for the first time.
use sapper.Base.{
  nat_eq, ap, sym, refl, ◌∙◌, subst, ℕ, zero, suc, ◌+◌, ◌≤◌, ◌≡◌, Map, lookup, Bool, true, false,
  List, [], ◌∷◌, Option, some, ◌==◌, if◌then◌else◌, elem, length, arith, Bool-cases, Option-cases,
  List-cases, nat_beq, nat_beq_iff, length-append, inl, inr,
}
use sapper.Bitmap.{Bitmaps}
use sapper.Graph.{Node}
use sapper.Report.Walk.{
  Walk, visit_parents, walk_step, walk_loop, discover, expand, add_product, edge_count,
}

-- How many of the IDs are not visited.
abbrev pub fresh : List ℕ → List ℕ → ℕ
fresh visited [] = 0
fresh visited (p ∷ ps) = fresh visited ps + (if elem p visited then 0 else 1)

fresh_mono : (p : ℕ) (visited ps : List ℕ) → fresh (p ∷ visited) ps ≤ fresh visited ps
fresh_mono p visited [] = omega arith
fresh_mono p visited (q ∷ ps) = ground (arith, fresh_mono p visited ps)

fresh_visit :
    (p : ℕ) (visited ps : List ℕ)
    → elem p ps ≡ true
    → elem p visited ≡ false
    → fresh (p ∷ visited) ps + 1 ≤ fresh visited ps
fresh_visit p visited [] h new = cc
fresh_visit p visited (q ∷ ps) h new = elim (Bool-cases (nat_beq q p)) [
  | inl same ↦ ground (
    arith,
    fresh_mono p visited ps,
    ap (λ k. elem k visited) ((nat_beq_iff q p).0 same),
    nat_beq_iff p q,
    nat_beq_iff q p,
  )
  | inr other ↦ ground (arith, fresh_visit p visited ps, nat_beq_iff p q, nat_beq_iff q p)
]

fresh-le-length : (visited ps : List ℕ) → fresh visited ps ≤ length ps
fresh-le-length visited [] = omega arith
fresh-le-length visited (p ∷ ps) = ground (arith, fresh-le-length visited ps)

module _ {B M : Type 0} ⦃bm : Bitmaps B⦄ where
  -- The parents that are not visited, over all nodes.
  abbrev pub open_parents : List ℕ → Map ℕ (Node B M) → ℕ
  open_parents visited [] = 0
  open_parents visited ((_, n) ∷ nodes) =
      fresh visited (bm.to_array n.parents) + open_parents visited nodes

  open_parents_mono :
      (p : ℕ) (visited : List ℕ) (nodes : Map ℕ (Node B M))
      → open_parents (p ∷ visited) nodes ≤ open_parents visited nodes
  open_parents_mono p visited [] = omega arith
  open_parents_mono p visited ((j, n) ∷ nodes) =
      omega (arith, open_parents_mono p visited nodes, fresh_mono p visited (bm.to_array n.parents))

  open_parents_visit :
      (p current : ℕ) (visited : List ℕ) (n : Node B M) (nodes : Map ℕ (Node B M))
      → lookup current nodes ≡ some n
      → elem p (bm.to_array n.parents) ≡ true
      → elem p visited ≡ false
      → open_parents (p ∷ visited) nodes + 1 ≤ open_parents visited nodes
  unfolding lookup
  open_parents_visit p current visited n [] found h new = cc
  open_parents_visit p current visited n ((j, m) ∷ nodes) found h new =
      elim (Bool-cases (nat_beq j current)) [
        | inl here ↦
            let same : m ≡ n = ground arith in
            let listed : elem p (bm.to_array m.parents) ≡ true = rw same h in
            omega (
              arith,
              fresh_visit p visited (bm.to_array m.parents) listed new,
              open_parents_mono p visited nodes,
            )
        | inr there ↦
            let later : lookup current nodes ≡ some n = ground arith in
            omega (
              arith,
              fresh_mono p visited (bm.to_array m.parents),
              open_parents_visit p current visited n nodes later h new,
            )
      ]

  pub open_parents-le :
      (visited : List ℕ) (nodes : Map ℕ (Node B M)) → open_parents visited nodes ≤ edge_count nodes
  open_parents-le visited [] = omega arith
  open_parents-le visited ((j, n) ∷ nodes) =
      omega (arith, open_parents-le visited nodes, fresh-le-length visited (bm.to_array n.parents))

  abbrev pub work : Map ℕ (Node B M) → Walk → ℕ
  work nodes w = length w.queue + open_parents w.visited nodes

  visit_parents-work :
      (nodes : Map ℕ (Node B M)) (at_start : Bool) (current : ℕ) (n : Node B M) (ps : List ℕ)
      (w : Walk)
      → lookup current nodes ≡ some n
      → ((p : ℕ) → elem p ps ≡ true → elem p (bm.to_array n.parents) ≡ true)
      → work nodes (visit_parents nodes at_start current ps w) ≤ work nodes w
  unfolding visit_parents
  visit_parents-work nodes at_start current n [] w found all = omega arith
  visit_parents-work nodes at_start current n (p ∷ ps) w found all =
      let later = λ (q : ℕ) (e : elem q ps ≡ true). all q (ground (arith, e)) in
      let goes : Bool → Type 0 = λ b.
        work nodes (
          visit_parents nodes at_start current ps
            (if b then w else discover nodes at_start current p w))
        ≤ work nodes w in
      elim (Bool-cases (elem p w.visited)) [
        | inl old ↦
            subst goes (sym old) (visit_parents-work nodes at_start current n ps w found later)
        | inr new ↦ subst goes (sym new) (
            omega (
              arith,
              visit_parents-work nodes at_start current n ps (discover nodes at_start current p w)
                  found later,
              length-append w.queue (p ∷ []),
              open_parents_visit p current w.visited n nodes found
                  (all p (ground (arith, nat_beq_iff p p))) new,
            ))
      ]

  pub walk_step-work :
      (nodes : Map ℕ (Node B M)) (v current : ℕ) (queue : List ℕ) (w : Walk)
      → w.queue ≡ current ∷ queue
      → suc (work nodes (walk_step nodes v current queue w)) ≤ work nodes w
  unfolding walk_step
  walk_step-work nodes v current queue w e =
      let shrinks : Option (Node B M) → Type 0 =
        λ o. suc (work nodes (expand nodes v current queue w o)) ≤ work nodes w in
      elim (Option-cases (lookup current nodes)) [
        | inl gone ↦ subst shrinks (sym gone) (omega (arith, ap length e))
        | inr (n, found) ↦ subst shrinks (sym found) (
            omega (
              arith,
              ap length e,
              visit_parents-work nodes (current == v) current n (bm.to_array n.parents)
                  (record w { queue = queue; products = add_product nodes v current n w.products })
                  found (λ p h. h),
            ))
      ]

  walk_loop_next :
      (nodes : Map ℕ (Node B M)) (v fuel current : ℕ) (queue : List ℕ) (w : Walk)
      → w.queue ≡ current ∷ queue
      → walk_loop nodes v (suc fuel) w ≡ walk_loop nodes v fuel (walk_step nodes v current queue w)
  unfolding walk_loop
  walk_loop_next nodes v fuel current queue w e = ap (λ (q : List ℕ). next_round q) e
    where
      next_round : List ℕ → Option Walk
      next_round q = elim q [
        | [] ↦ some w
        | c ∷ rest ↦ walk_loop nodes v fuel (walk_step nodes v c rest w)
      ]

  -- What each round keeps holds at the end, and the fuel is enough.
  pub walk_loop_rule :
      (nodes : Map ℕ (Node B M)) (v : ℕ) (P : Walk → Type 0)
      → ((current : ℕ) (queue : List ℕ) (w : Walk)
          → w.queue ≡ current ∷ queue
          → P w
          → P (walk_step nodes v current queue w))
      → (fuel : ℕ) (w : Walk) → work nodes w ≤ fuel
      → P w
      → (r : Walk) × (walk_loop nodes v fuel w ≡ some r) × (r.queue ≡ []) × P r
  unfolding walk_loop
  walk_loop_rule nodes v P keep zero w enough p = elim (List-cases w.queue) [
    | inl done ↦ (w, rw done refl, done, p)
    | inr (c, q, e) ↦ absurd (omega (arith, ap length e))
  ]
  walk_loop_rule nodes v P keep (suc fuel) w enough p = elim (List-cases w.queue) [
    | inl done ↦ (w, rw done refl, done, p)
    | inr (c, q, e) ↦
        let (r, ends, empty, holds) =
          walk_loop_rule nodes v P keep fuel (walk_step nodes v c q w)
            (omega (arith, walk_step-work nodes v c q w e)) (keep c q w e p) in
        (r, walk_loop_next nodes v fuel c q w e ∙ ends, empty, holds)
  ]
