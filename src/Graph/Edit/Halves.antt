-- ===== src/Graph/Edit/Halves.antt =====
-- `SetDependency` saves its two nodes one after the other, with nothing that undoes the first.
use sapper.Base.{
  nat_eq, text_eq, ◌≡◌, ◌≢◌, lookup, lookup-insert, true, false, some, err, arith, nat_beq_iff,
}
use sapper.Bitmap.{Bitmaps}
use sapper.Graph.{Node, Store, Op, failed}
use sapper.Graph.Edit.{set_dependency, with_child}
use sapper.Graph.Edit.WellFormed.{IsWellFormed, HasChild, HasParent}

module _ {B M : Type 0} ⦃bm : Bitmaps B⦄ (s : Store B M) (n m : Node B M) where
  -- In a storage that keeps copies of nodes, `SetDependency` between two different stored nodes without
  -- that edge reports an error when the first `SaveNode` works and the second one fails, and leaves
  -- half of the edge: the child is listed, the parent is not, and the storage is no longer well formed.
  pub set_dependency_half :
      lookup m.id s.nodes ≡ some m
      → n.id ≢ m.id
      → s.fails (Op.save_node n.id) ≡ false
      → s.fails (Op.save_node m.id) ≡ true
      → bm.contains m.parents n.id ≡ false
      → let t = (set_dependency (some n) (some m) s).1 in
        ((set_dependency (some n) (some m) s).0 ≡ err (failed (Op.save_node m.id)))
        × HasChild t n.id m.id
        × ¬ HasParent t m.id n.id
        × ¬ IsWellFormed t
  unfolding set_dependency
  set_dependency_half at_m distinct first second apart =
      let t = (set_dependency (some n) (some m) s).1 in
      let listed : HasChild t n.id m.id = (
        with_child n m.id,
        ground (
          arith,
          lookup-insert n.id n.id (with_child n m.id) s.nodes,
          nat_beq_iff n.id n.id,
          nat_beq_iff n.id m.id,
        ),
        ground (arith, nat_beq_iff m.id m.id, bm.contains-add n.children m.id m.id),
      ) in
      let missing : ¬ HasParent t m.id n.id = λ (x, e, c).
        ground
          (arith, lookup-insert n.id m.id (with_child n m.id) s.nodes, nat_beq_iff n.id m.id) in
      (
        ground (arith, nat_beq_iff n.id m.id),
        listed,
        missing,
        λ h. missing (h.mutual_child n.id m.id listed),
      )
