-- ===== src/Report/Walk/Rounds.antt =====
-- What every round of the walk keeps.
use sapper.Base.{
  nat_eq, ap, sym, refl, ◌∙◌, subst, ℕ, ◌≤◌, ◌≡◌, ◌≢◌, ◌⊎◌, Map, lookup, true, List, [], ◌∷◌,
  Option, none, some, ◌==◌, elem, elem-append, arith, Bool-cases, nat_beq, nat_beq_iff, inl, inr,
}
use sapper.Bitmap.{Bitmaps}
use sapper.Graph.{Node}
use sapper.Report.Walk.{Walk, walk_step, expand, add_product, walk_start}
use sapper.Report.Walk.Climb.{IsRoot}
use sapper.Report.Walk.Levels.{SortedFrom, Levels, Pending, Done, visit_parents-Levels}

module _ {B M : Type 0} ⦃bm : Bitmaps B⦄ (nodes : Map ℕ (Node B M)) (v : ℕ) where
  -- Between two rounds: what is found is in the queue or done.
  abbrev pub Settled : (ℕ → ℕ) → Walk → Type 0
  Settled depth w =
      (x : ℕ) → elem x w.visited ≡ true → (elem x w.queue ≡ true) ⊎ Done nodes v depth w x

  abbrev pub Round : Walk → Type 0
  Round w = (depth : ℕ → ℕ) × (current : ℕ) × Levels nodes v depth current w × Settled depth w

  pub start-Round : Round (walk_start v)
  start-Round = (
    λ _. 0,
    v,
    record {
      root = ground (arith, nat_beq_iff v v);
      depth_root = refl;
      linked = λ x m. inl (ground (arith, nat_beq_iff v x));
      queued = λ x m. m;
      sorted = (omega arith, tt);
      top = λ x m. omega arith;
      short = λ x m. omega arith;
      listed = λ x m. cc;
      kept = λ x m far root. inl m;
    },
    λ x m. inl m,
  )

  module _ (depth : ℕ → ℕ) (before current : ℕ) (queue products : List ℕ) (w : Walk)
      (h : Levels nodes v depth before w) (e : w.queue ≡ current ∷ queue) where
    abbrev popped : Walk
    popped = record w { queue = queue; products = products }

    head_found : elem current w.visited ≡ true
    head_found = h.queued current (rw e (ground (arith, nat_beq_iff current current)))

    order : (depth before ≤ depth current) × SortedFrom depth (depth current) queue
    order = subst (SortedFrom depth (depth before)) e h.sorted

    in_rest : (x : ℕ) → elem x w.queue ≡ true → (x ≡ current) ⊎ (elem x queue ≡ true)
    in_rest x m = ground (arith, nat_beq_iff current x, ap (elem x) e)

    popped-Levels :
        ((x : ℕ) → elem x products ≡ true → (x ≢ v) × (elem x w.visited ≡ true) × IsRoot nodes x)
        → ((x : ℕ) → elem x w.products ≡ true → elem x products ≡ true)
        → (current ≢ v → IsRoot nodes current → elem current products ≡ true)
        → Levels nodes v depth current popped
    popped-Levels listed grows added = record {
      root = h.root;
      depth_root = h.depth_root;
      linked = h.linked;
      queued = λ x m. h.queued x (rw e (ground (arith, m)));
      sorted = order.1;
      top = λ x m. omega (arith, h.top x m, order.0);
      short = h.short;
      listed = listed;
      kept = λ x m far root. elim (h.kept x m far root) [
        | inl waits ↦ elim (in_rest x waits) [
          | inl same ↦ inr (
              subst (λ k. elem k products ≡ true) (sym same)
                (added (subst (λ k. k ≢ v) same far) (subst (IsRoot nodes) same root)))
          | inr later ↦ inl later
        ]
        | inr out ↦ inr (grows x out)
      ];
    }

    popped-Pending : Settled depth w → Pending nodes v depth current popped
    popped-Pending settled x m = elim (settled x m) [
      | inl waits ↦ elim (in_rest x waits) [ inl same ↦ inr (inl same) | inr later ↦ inl later ]
      | inr done ↦ inr (inr done)
    ]

  module _ (current : ℕ) (n : Node B M) (found : lookup current nodes ≡ some n)
      (products : List ℕ) where
    abbrev added : List ℕ
    added = add_product nodes v current n products

    added_cases :
        (x : ℕ)
        → elem x added ≡ true
        → (elem x products ≡ true)
          ⊎ ((x ≡ current) × (current ≢ v) × (bm.is_empty n.parents ≡ true))
    added_cases x m = elim (Bool-cases (elem x products)) [
      | inl old ↦ inl old
      | inr new ↦ inr (
        ground (arith, elem-append x products (current ∷ []), nat_beq_iff current x),
        λ e. ground (arith, elem-append x products (current ∷ []), nat_beq_iff current v),
        ground (arith, elem-append x products (current ∷ [])),
      )
    ]

    added_grows : (x : ℕ) → elem x products ≡ true → elem x added ≡ true
    added_grows x m = ground (arith, elem-append x products (current ∷ []))

    added_root : current ≢ v → IsRoot nodes current → elem current added ≡ true
    added_root far (m, at, empty) =
        let same : m ≡ n = cc in
        let bare : bm.is_empty n.parents ≡ true =
          subst (λ k. bm.is_empty k.parents ≡ true) same empty in
        elim (Bool-cases (nat_beq current v)) [
          | inl e ↦ absurd (far ((nat_beq_iff current v).0 e))
          | inr e ↦
              ground
                (arith, elem-append current products (current ∷ []), nat_beq_iff current current)
        ]

  pub walk_step-Round :
      (current : ℕ) (queue : List ℕ) (w : Walk)
      → w.queue ≡ current ∷ queue
      → Round w
      → Round (walk_step nodes v current queue w)
  unfolding walk_step
  walk_step-Round current queue w e (depth, before, h, settled) = at (lookup current nodes) refl
    where
      at :
          (o : Option (Node B M))
          → lookup current nodes ≡ o
          → Round (expand nodes v current queue w o)
      at none gone = (
        depth,
        current,
        popped-Levels depth before current queue w.products w h e h.listed (λ x m. m)
            (λ far (n, at_n, _). absurd (cc)),
        λ x m. elim (popped-Pending depth before current queue w.products w h e settled x m) [
          | inl waits ↦ inl waits
          | inr (inl same) ↦ inr (λ y (n, at_n, _). absurd (cc))
          | inr (inr done) ↦ inr done
        ],
      )
      at (some n) found =
          let products = added current n found w.products in
          let seen = head_found depth before current queue products w h e in
          let (later, k, waits, all) =
            visit_parents-Levels nodes v depth current (current == v) (bm.to_array n.parents)
              (record w { queue = queue; products = products })
              (popped-Levels depth before current queue products w h e
                (λ x m. elim (added_cases current n found w.products x m) [
                  | inl old ↦ h.listed x old
                  | inr (same, far, bare) ↦ (
                    subst (λ y. y ≢ v) (sym same) far,
                    subst (λ y. elem y w.visited ≡ true) (sym same) seen,
                    subst (IsRoot nodes) (sym same) (n, found, bare),
                  )
                ])
                (added_grows current n found w.products) (added_root current n found w.products))
              (popped-Pending depth before current queue products w h e settled) seen
              (λ p m. (n, found, sym (bm.elem-to_array n.parents p) ∙ m)) in
          let r = expand nodes v current queue w (some n) in
          let finished : Done nodes v later r current = λ y (m, at_m, c).
            let same : m ≡ n = (cc) in
            let member : elem y (bm.to_array n.parents) ≡ true =
              bm.elem-to_array n.parents y ∙ subst (λ j. bm.contains j.parents y ≡ true) same c in
            (all y (inl member), k.top y (all y (inl member))) in
          (
            later,
            current,
            k,
            λ x m. elim (waits x m) [
              | inl q ↦ inl q
              | inr (inl same) ↦ inr (subst (Done nodes v later r) (sym same) finished)
              | inr (inr done) ↦ inr done
            ],
          )
