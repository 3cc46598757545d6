-- ===== src/Report/Walk/Levels.antt =====
-- The walk is breadth first: it finds nodes in the order of their distance.
use sapper.Base.{
  nat_eq, ap, sym, refl, ◌∙◌, subst, ℕ, suc, ◌≤◌, ◌<◌, ◌≡◌, ◌≢◌, ◌⊎◌, Map, lookup, lookup-insert,
  Bool, true, false, List, [], ◌∷◌, ◌++◌, some, if◌then◌else◌, elem, elem-append, length, arith,
  Bool-cases, nat_beq, nat_beq_iff, inl, inr,
}
use sapper.Bitmap.{Bitmaps}
use sapper.Graph.{Node}
use sapper.Report.Walk.{Walk, visit_parents, discover}
use sapper.Report.Walk.Climb.{Parent, IsRoot}

-- The distances do not fall along the queue, from a lower bound on.
abbrev pub SortedFrom : (ℕ → ℕ) → ℕ → List ℕ → Type 0
SortedFrom depth lo [] = Unit
SortedFrom depth lo (x ∷ xs) = (lo ≤ depth x) × SortedFrom depth (depth x) xs

module _ {B M : Type 0} ⦃bm : Bitmaps B⦄ (nodes : Map ℕ (Node B M)) (v : ℕ) where
  -- `next` leads one step down, to a node that was found before.
  abbrev pub Link : (ℕ → ℕ) → Walk → ℕ → Type 0
  Link depth w x =
      (y : ℕ) × (lookup x w.next ≡ some y)
      × Parent nodes y x
      × (elem y w.visited ≡ true)
      × (depth x ≡ suc (depth y))

  -- Everything that depends on the node is found, at most one step further away.
  abbrev pub Done : (ℕ → ℕ) → Walk → ℕ → Type 0
  Done depth w x =
      (y : ℕ) → Parent nodes x y → (elem y w.visited ≡ true) × (depth y ≤ suc (depth x))

  -- `current` is the ID whose parents are visited, and what lies nearer is done.
  pub record Levels (depth : ℕ → ℕ) (current : ℕ) (w : Walk) : Type 0 where
    pub root : elem v w.visited ≡ true
    pub depth_root : depth v ≡ 0
    pub linked : (x : ℕ) → elem x w.visited ≡ true → (x ≡ v) ⊎ Link depth w x
    pub queued : (x : ℕ) → elem x w.queue ≡ true → elem x w.visited ≡ true
    pub sorted : SortedFrom depth (depth current) w.queue
    pub top : (x : ℕ) → elem x w.visited ≡ true → depth x ≤ suc (depth current)
    pub short : (x : ℕ) → elem x w.visited ≡ true → depth x < length w.visited
    pub listed :
        (x : ℕ) → elem x w.products ≡ true → (x ≢ v) × (elem x w.visited ≡ true) × IsRoot nodes x
    pub kept :
        (x : ℕ)
        → elem x w.visited ≡ true
        → x ≢ v
        → IsRoot nodes x
        → (elem x w.queue ≡ true) ⊎ (elem x w.products ≡ true)

  -- What is found is in the queue or done, but for one ID.
  abbrev pub Pending : (ℕ → ℕ) → ℕ → Walk → Type 0
  Pending depth current w =
      (x : ℕ) → elem x w.visited ≡ true → (elem x w.queue ≡ true) ⊎ (x ≡ current) ⊎ Done depth w x

  SortedFrom-append :
      (depth later : ℕ → ℕ) (lo p : ℕ) (xs : List ℕ)
      → ((x : ℕ) → elem x xs ≡ true → (later x ≡ depth x) × (depth x ≤ later p))
      → lo ≤ later p
      → SortedFrom depth lo xs
      → SortedFrom later lo (xs ++ p ∷ [])
  SortedFrom-append depth later lo p [] same low s = (low, tt)
  SortedFrom-append depth later lo p (x ∷ xs) same low (h, s) =
      let (e, below) = same x (ground (arith, nat_beq_iff x x)) in
      (
        rw e h,
        rw e (
            SortedFrom-append depth later (depth x) p xs (λ y m. same y (ground (arith, m))) below
              s),
      )

  module _ (depth : ℕ → ℕ) (current p : ℕ) (at_start : Bool) (w : Walk) (h : Levels depth current w)
      (cur : elem current w.visited ≡ true) (edge : Parent nodes current p)
      (new : elem p w.visited ≡ false) where
    abbrev deeper : ℕ → ℕ
    deeper x = if nat_beq x p then suc (depth current) else depth x

    apart : (x : ℕ) → elem x w.visited ≡ true → nat_beq x p ≡ false
    apart x m = elim (Bool-cases (nat_beq x p)) [
      | inl e ↦ absurd (ground (arith, ap (λ k. elem k w.visited) ((nat_beq_iff x p).0 e)))
      | inr e ↦ e
    ]

    deeper_old : (x : ℕ) → elem x w.visited ≡ true → deeper x ≡ depth x
    deeper_old x m = rw (apart x m) refl

    deeper_new : deeper p ≡ suc (depth current)
    deeper_new = rw ((nat_beq_iff p p).1 refl) refl

    abbrev discovered : Walk
    discovered = discover nodes at_start current p w

    next_old :
        (x y : ℕ)
        → elem x w.visited ≡ true
        → lookup x w.next ≡ some y
        → lookup x discovered.next ≡ some y
    next_old x y m e =
        ground
          (arith, lookup-insert p x current w.next, nat_beq_iff p x, nat_beq_iff x p, apart x m)

    next_new : lookup p discovered.next ≡ some current
    next_new = ground (arith, lookup-insert p p current w.next, nat_beq_iff p p)

    found_cases : (x : ℕ) → elem x discovered.visited ≡ true → (x ≡ p) ⊎ (elem x w.visited ≡ true)
    found_cases x m = ground (arith, nat_beq_iff p x)

    discovered_linked :
        (x : ℕ) → elem x discovered.visited ≡ true → (x ≡ v) ⊎ Link deeper discovered x
    discovered_linked x m = elim (found_cases x m) [
      | inl e ↦ inr (
          subst (Link deeper discovered) (sym e) (
            current,
            next_new,
            edge,
            ground (arith, cur),
            deeper_new ∙ ap suc (sym (deeper_old current cur)),
          ))
      | inr old ↦ elim (h.linked x old) [
        | inl e ↦ inl e
        | inr (y, at, par, seen, e) ↦ inr (
          y,
          next_old x y old at,
          par,
          ground (arith, seen),
          deeper_old x old ∙ e ∙ ap suc (sym (deeper_old y seen)),
        )
      ]
    ]

    discovered-Levels : Levels deeper current discovered
    discovered-Levels = record {
      root = ground (arith, h.root);
      depth_root = deeper_old v h.root ∙ h.depth_root;
      linked = discovered_linked;
      queued = λ x m. ground (arith, elem-append x w.queue (p ∷ []), h.queued x);
      sorted = rw (deeper_old current cur) (
          SortedFrom-append depth deeper (depth current) p w.queue
            (λ x m. (deeper_old x (h.queued x m), rw deeper_new (h.top x (h.queued x m))))
            (rw deeper_new (omega arith)) h.sorted);
      top = λ x m. elim (found_cases x m) [
        | inl e ↦ rw (e, deeper_new, deeper_old current cur) (omega arith)
        | inr old ↦ rw (deeper_old x old, deeper_old current cur) (h.top x old)
      ];
      short = λ x m. elim (found_cases x m) [
        | inl e ↦ rw (e, deeper_new) (omega (arith, h.short current cur))
        | inr old ↦ rw (deeper_old x old) (omega (arith, h.short x old))
      ];
      listed = λ x m. let (far, seen, root) = h.listed x m in (far, ground (arith, seen), root);
      kept = λ x m far root. elim (found_cases x m) [
        | inl e ↦ inl (ground (arith, elem-append x w.queue (p ∷ []), nat_beq_iff p x))
        | inr old ↦ elim (h.kept x old far root) [
          | inl waits ↦ inl (ground (arith, elem-append x w.queue (p ∷ [])))
          | inr out ↦ inr out
        ]
      ];
    }

    discovered-Pending : Pending depth current w → Pending deeper current discovered
    discovered-Pending pending x m = elim (found_cases x m) [
      | inl e ↦ inl (ground (arith, elem-append x w.queue (p ∷ []), nat_beq_iff p x))
      | inr old ↦ elim (pending x old) [
        | inl waits ↦ inl (ground (arith, elem-append x w.queue (p ∷ [])))
        | inr (inl e) ↦ inr (inl e)
        | inr (inr done) ↦ inr (
            inr (λ y par.
              let (seen, below) = done y par in
              (ground (arith, seen), rw (deeper_old y seen, deeper_old x old) below)))
      ]
    ]

  -- The loop over the parents: they are all found, and what was found still is.
  pub visit_parents-Levels :
      (depth : ℕ → ℕ) (current : ℕ) (at_start : Bool) (ps : List ℕ) (w : Walk)
      → Levels depth current w
      → Pending depth current w
      → elem current w.visited ≡ true
      → ((p : ℕ) → elem p ps ≡ true → Parent nodes current p)
      → let r = visit_parents nodes at_start current ps w in
        (later : ℕ → ℕ) × Levels later current r
        × Pending later current r
        × ((p : ℕ) → (elem p ps ≡ true) ⊎ (elem p w.visited ≡ true) → elem p r.visited ≡ true)
  unfolding visit_parents
  visit_parents-Levels depth current at_start [] w h pending cur edges =
      (depth, h, pending, λ p m. ground (arith, m))
  visit_parents-Levels depth current at_start (p ∷ ps) w h pending cur edges =
      let Goal : Walk → Type 0 = λ u.
        (later : ℕ → ℕ) × Levels later current (visit_parents nodes at_start current ps u)
        × Pending later current (visit_parents nodes at_start current ps u)
        × ((q : ℕ)
            → (elem q (p ∷ ps) ≡ true) ⊎ (elem q w.visited ≡ true)
            → elem q (visit_parents nodes at_start current ps u).visited ≡ true) in
      let rest = λ (q : ℕ) (m : elem q ps ≡ true). edges q (ground (arith, m)) in
      elim (Bool-cases (elem p w.visited)) [
        | inl old ↦
            let (later, k, waits, all) =
              visit_parents-Levels depth current at_start ps w h pending cur rest in
            subst (λ b. Goal (if b then w else discover nodes at_start current p w)) (sym old)
              (
                later,
                k,
                waits,
                λ q m. all q (
                    ground (
                      arith,
                      m,
                      nat_beq_iff p q,
                      ap (λ x. elem x w.visited) ((nat_beq_iff p q).0 _),
                    )),
              )
        | inr new ↦
            let edge = edges p (ground (arith, nat_beq_iff p p)) in
            let u = discover nodes at_start current p w in
            let (later, k, waits, all) =
              visit_parents-Levels (deeper depth current p at_start w h cur edge new) current
                at_start ps u (discovered-Levels depth current p at_start w h cur edge new)
                (discovered-Pending depth current p at_start w h cur edge new pending)
                (ground (arith, cur)) rest in
            subst (λ b. Goal (if b then w else u)) (sym new)
              (later, k, waits, λ q m. all q (ground (arith, m)))
      ]
