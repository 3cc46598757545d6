-- ===== src/Graph/Edit/Links.antt =====
-- `SetDependency`, called on the stored copies of two nodes, as the program calls it.
use sapper.Base.{
  nat_eq, text_eq, Text, sym, refl, ◌∙◌, ℕ, ◌≡◌, ◌≢◌, ◌↔◌, ◌⊎◌, lookup, insert, lookup-insert, true,
  false, some, ok, if◌then◌else◌, arith, Bool-cases, nat_beq, nat_beq_iff, text_beq, text_beq_iff,
  inl, inr,
}
use mathlib.Core.Logic.{⊎_elim}
use mathlib.Core.Path.{subst₂}
use sapper.Bitmap.{Bitmaps}
use sapper.Graph.{Node, Store, Op}
use sapper.Graph.Edit.{set_dependency, with_child, with_parent}
use sapper.Graph.Edit.WellFormed.{IsWellFormed, HasChild, HasParent}

module _ {B M : Type 0} ⦃bm : Bitmaps B⦄ (s : Store B M) (n m : Node B M)
    (n_stored : lookup n.id s.nodes ≡ some n) (m_stored : lookup m.id s.nodes ≡ some m)
    (distinct : n.id ≢ m.id) (works_n : s.fails (Op.save_node n.id) ≡ false)
    (works_m : s.fails (Op.save_node m.id) ≡ false) where
  abbrev after : Store B M
  after = (set_dependency (some n) (some m) s).1

  at_id :
      (v : ℕ)
      → lookup v after.nodes ≡ (
          if nat_beq m.id v
          then some (with_parent m n.id)
          else if nat_beq n.id v
          then some (with_child n m.id)
          else lookup v s.nodes)
  unfolding set_dependency
  at_id v = ground (
    arith,
    lookup-insert m.id v (with_parent m n.id) (insert n.id (with_child n m.id) s.nodes),
    lookup-insert n.id v (with_child n m.id) s.nodes,
    nat_beq_iff n.id m.id,
  )

  old_child : (v w : ℕ) → HasChild s v w → HasChild after v w
  old_child v w (x, e, c) = elim (Bool-cases (nat_beq n.id v)) [
    | inl at_n ↦ (
      with_child n m.id,
      ground (arith, at_id v, nat_beq_iff n.id v, nat_beq_iff m.id v),
      ground (arith, nat_beq_iff n.id v, bm.contains-add n.children m.id w),
    )
    | inr not_n ↦ elim (Bool-cases (nat_beq m.id v)) [
      | inl at_m ↦ (with_parent m n.id, ground (arith, at_id v), ground (arith, nat_beq_iff m.id v))
      | inr other ↦ (x, ground (arith, at_id v), c)
    ]
  ]

  new_child : HasChild after n.id m.id
  new_child = (
    with_child n m.id,
    ground (arith, at_id n.id, nat_beq_iff n.id n.id, nat_beq_iff m.id n.id),
    ground (arith, nat_beq_iff m.id m.id, bm.contains-add n.children m.id m.id),
  )

  child_cases : (v w : ℕ) → HasChild after v w → HasChild s v w ⊎ (v ≡ n.id) × (w ≡ m.id)
  child_cases v w (x, e, c) = elim (Bool-cases (nat_beq n.id v)) [
    | inl at_n ↦ elim (Bool-cases (nat_beq m.id w)) [
      | inl at_m ↦ inr (ground (arith, nat_beq_iff n.id v), ground (arith, nat_beq_iff m.id w))
      | inr other ↦ inl (
        n,
        ground (arith, nat_beq_iff n.id v),
        ground (
          arith,
          at_id v,
          nat_beq_iff n.id v,
          nat_beq_iff m.id v,
          bm.contains-add n.children m.id w,
        ),
      )
    ]
    | inr not_n ↦ elim (Bool-cases (nat_beq m.id v)) [
      | inl at_m ↦ inl (m, ground (arith, nat_beq_iff m.id v), ground (arith, at_id v))
      | inr other ↦ inl (x, ground (arith, at_id v), c)
    ]
  ]

  old_parent : (v w : ℕ) → HasParent s v w → HasParent after v w
  old_parent v w (x, e, c) = elim (Bool-cases (nat_beq m.id v)) [
    | inl at_m ↦ (
      with_parent m n.id,
      ground (arith, at_id v),
      ground (arith, nat_beq_iff m.id v, bm.contains-add m.parents n.id w),
    )
    | inr not_m ↦ elim (Bool-cases (nat_beq n.id v)) [
      | inl at_n ↦ (with_child n m.id, ground (arith, at_id v), ground (arith, nat_beq_iff n.id v))
      | inr other ↦ (x, ground (arith, at_id v), c)
    ]
  ]

  new_parent : HasParent after m.id n.id
  new_parent = (
    with_parent m n.id,
    ground (arith, at_id m.id, nat_beq_iff m.id m.id),
    ground (arith, nat_beq_iff n.id n.id, bm.contains-add m.parents n.id n.id),
  )

  parent_cases : (v w : ℕ) → HasParent after v w → HasParent s v w ⊎ (v ≡ m.id) × (w ≡ n.id)
  parent_cases v w (x, e, c) = elim (Bool-cases (nat_beq m.id v)) [
    | inl at_m ↦ elim (Bool-cases (nat_beq n.id w)) [
      | inl at_n ↦ inr (ground (arith, nat_beq_iff m.id v), ground (arith, nat_beq_iff n.id w))
      | inr other ↦ inl (
        m,
        ground (arith, nat_beq_iff m.id v),
        ground (arith, at_id v, nat_beq_iff m.id v, bm.contains-add m.parents n.id w),
      )
    ]
    | inr not_m ↦ elim (Bool-cases (nat_beq n.id v)) [
      | inl at_n ↦ inl (n, ground (arith, nat_beq_iff n.id v), ground (arith, at_id v))
      | inr other ↦ inl (x, ground (arith, at_id v), c)
    ]
  ]

  -- When both arguments are the stored copies of their nodes, the nodes are different, and `SaveNode`
  -- works for both, `SetDependency` succeeds and adds exactly the one edge, at both of its ends.
  pub set_dependency-HasChild :
      (set_dependency (some n) (some m) s).0 ≡ ok (with_child n m.id, with_parent m n.id)
      × ((v w : ℕ) → HasChild after v w ↔ (HasChild s v w ⊎ (v ≡ n.id) × (w ≡ m.id)))
      × ((v w : ℕ) → HasParent after v w ↔ (HasParent s v w ⊎ (v ≡ m.id) × (w ≡ n.id)))
  unfolding set_dependency
  set_dependency-HasChild = (
    ground (arith, nat_beq_iff n.id m.id),
    λ v w. (
      child_cases v w,
      ⊎_elim (old_child v w) (λ (e, f). subst₂ (HasChild after) (sym e) (sym f) new_child),
    ),
    λ v w. (
      parent_cases v w,
      ⊎_elim (old_parent v w) (λ (e, f). subst₂ (HasParent after) (sym e) (sym f) new_parent),
    ),
  )

  same_counter : after.id_counter ≡ s.id_counter
  unfolding set_dependency
  same_counter = ground (arith, nat_beq_iff n.id m.id)

  at_name :
      (name : Text)
      → lookup name after.ids ≡ (
          if text_beq m.name name
          then some m.id
          else if text_beq n.name name
          then some n.id
          else lookup name s.ids)
  unfolding set_dependency
  at_name name = ground (
    arith,
    lookup-insert m.name name m.id (insert n.name n.id s.ids),
    lookup-insert n.name name n.id s.ids,
    nat_beq_iff n.id m.id,
  )

  renamed :
      (v : ℕ) (x : Node B M)
      → lookup v s.nodes ≡ some x
      → (y : Node B M) × (lookup v after.nodes ≡ some y) × (y.name ≡ x.name)
  renamed v x e = elim (Bool-cases (nat_beq m.id v)) [
    | inl at_m ↦ (with_parent m n.id, ground (arith, at_id v), ground (arith, nat_beq_iff m.id v))
    | inr not_m ↦ elim (Bool-cases (nat_beq n.id v)) [
      | inl at_n ↦ (with_child n m.id, ground (arith, at_id v), ground (arith, nat_beq_iff n.id v))
      | inr other ↦ (x, ground (arith, at_id v), refl)
    ]
  ]

  linked-IsWellFormed : IsWellFormed s → IsWellFormed after
  linked-IsWellFormed h = record {
    keyed = λ v x e. ground (arith, at_id v, h.keyed v x, nat_beq_iff n.id v, nat_beq_iff m.id v);
    counted = λ v x e. ground (
      arith,
      at_id v,
      same_counter,
      h.counted v x,
      h.counted v n,
      h.counted v m,
      nat_beq_iff n.id v,
      nat_beq_iff m.id v,
    );
    mutual_child = λ v w c.
        ⊎_elim (λ old. old_parent w v (h.mutual_child v w old))
          (λ (e, f). subst₂ (HasParent after) (sym f) (sym e) new_parent) (child_cases v w c);
    mutual_parent = λ v w c.
        ⊎_elim (λ old. old_child w v (h.mutual_parent v w old))
          (λ (e, f). subst₂ (HasChild after) (sym f) (sym e) new_child) (parent_cases v w c);
    no_loop = λ v c. ⊎_elim (h.no_loop v) (λ (e, f). distinct (sym e ∙ f)) (child_cases v v c);
    named = λ v x e. ground (
      arith,
      at_id v,
      at_name x.name,
      h.named v x,
      h.named n.id n,
      h.named m.id m,
      nat_beq_iff n.id v,
      nat_beq_iff m.id v,
      text_beq_iff m.name x.name,
      text_beq_iff n.name x.name,
    );
    resolved = λ v name e.
        let (x, at, same) = h.resolved v name (
          ground (
            arith,
            at_name name,
            h.named n.id n,
            h.named m.id m,
            text_beq_iff m.name name,
            text_beq_iff n.name name,
          )) in
        let (y, at', same') = renamed v x at in (y, at', same' ∙ same);
  }

module _ {B M : Type 0} ⦃bm : Bitmaps B⦄ (s : Store B M) (n m : Node B M) where
  refused :
      (n.id ≡ m.id) ⊎ (s.fails (Op.save_node n.id) ≡ true)
      → (set_dependency (some n) (some m) s).1 ≡ s
  unfolding set_dependency
  refused h = ground (arith, nat_beq_iff n.id m.id)

  -- Called with the stored copies of two nodes, or of one node twice, `SetDependency` keeps the
  -- storage well formed when the second `SaveNode` works, also when the first one fails.
  pub set_dependency-IsWellFormed :
      lookup n.id s.nodes ≡ some n
      → lookup m.id s.nodes ≡ some m
      → s.fails (Op.save_node m.id) ≡ false
      → IsWellFormed s
      → IsWellFormed (set_dependency (some n) (some m) s).1
  set_dependency-IsWellFormed at_n at_m second h = elim (Bool-cases (nat_beq n.id m.id)) [
    | inl same ↦ rw (refused (inl (ground (arith, nat_beq_iff n.id m.id)))) h
    | inr other ↦ elim (Bool-cases (s.fails (Op.save_node n.id))) [
      | inl broken ↦ rw (refused (inr broken)) h
      | inr works ↦
          linked-IsWellFormed s n m at_n at_m (λ e. cc ((nat_beq_iff n.id m.id).1 e)) works second h
    ]
  ]
