-- ===== src/Graph/Query/Correct.antt =====
-- The uncached queries of graph.go compute exactly what is reachable.
use sapper.Base.{
  nat_eq, subst, ap, refl, ℕ, ◌≡◌, ◌↔◌, ◌⊎◌, lookup, true, false, List, [], ◌∷◌, ◌++◌, some, ok,
  ◌||◌, elem, arith, Bool-cases, nat_beq, nat_beq_iff, elem-append, inl, inr,
}
use sapper.Bitmap.{Bitmaps}
use sapper.Graph.{Direction, Node, Store, Op}
use sapper.Graph.Query.{bitmap_of, query_fuel, query_bitmap}
use sapper.Graph.Query.Reach.{Reach, here, step, Edge, IsClosed, IsKnown}
use sapper.Graph.Query.Work.{query_loop_rule, node_ids}

module _ {B M : Type 0} ⦃bm : Bitmaps B⦄ (s : Store B M) (d : Direction) (u : ℕ) where
  node_ids-append : (xs ys : List (Node B M)) → node_ids (xs ++ ys) ≡ node_ids xs ++ node_ids ys
  node_ids-append [] ys = refl
  node_ids-append (x ∷ xs) ys = ap (◌∷◌ x.id) (node_ids-append xs ys)

  record Inv (queue : List (Node B M)) (visited : List ℕ) (result : B) : Type 0 where
    start : (elem u visited ≡ true) ⊎ (elem u (node_ids queue) ≡ true)
    queued : (v : ℕ) → elem v (node_ids queue) ≡ true → Reach s d u v
    sound : (v : ℕ) → bm.contains result v ≡ true → Reach s d u v
    closed : (v w : ℕ) → elem v visited ≡ true → Edge s d v w → bm.contains result w ≡ true
    found :
        (v : ℕ)
        → bm.contains result v ≡ true
        → (elem v visited ≡ true) ⊎ (elem v (node_ids queue) ≡ true)

  Inv-start : (n : Node B M) → n.id ≡ u → Inv (n ∷ []) [] bm.new
  Inv-start n e = record {
    start = inr (ground (arith, nat_beq_iff n.id u));
    queued = λ v q. subst (Reach s d u) (ground (arith, nat_beq_iff n.id v)) here;
    sound = λ v c. cc (bm.contains-new v);
    closed = λ v w q _. cc;
    found = λ v c. cc (bm.contains-new v);
  }

  Inv-skip :
      (cur : Node B M) (queue : List (Node B M)) (visited : List ℕ) (result : B)
      → Inv (cur ∷ queue) visited result
      → elem cur.id visited ≡ true
      → Inv queue visited result
  Inv-skip cur queue visited result h seen = record {
    start = ground (arith, h.start, nat_beq_iff cur.id u);
    queued = λ v q. h.queued v (ground arith);
    sound = h.sound;
    closed = h.closed;
    found = λ v c. ground (arith, h.found v, nat_beq_iff cur.id v);
  }

  module _ (cur : Node B M) (queue ns : List (Node B M)) (visited : List ℕ) (result b : B)
      (h : Inv (cur ∷ queue) visited result) (stored : lookup cur.id s.nodes ≡ some cur)
      (links : bitmap_of d cur ≡ ok b) (same : node_ids ns ≡ bm.to_array b) where
    queue_grows :
        (v : ℕ) → elem v (node_ids (queue ++ ns)) ≡ (elem v (node_ids queue) || bm.contains b v)
    queue_grows v =
        rw (node_ids-append queue ns, same, elem-append v (node_ids queue) (bm.to_array b))
          (rw (bm.elem-to_array b v) refl)

    cur_reached : Reach s d u cur.id
    cur_reached = h.queued cur.id (ground (arith, nat_beq_iff cur.id cur.id))

    neighbour_reached : (v : ℕ) → bm.contains b v ≡ true → Reach s d u v
    neighbour_reached v c = step cur_reached (cur, b, stored, links, c)

    target_listed : (v w : ℕ) → v ≡ cur.id → Edge s d v w → bm.contains b w ≡ true
    target_listed v w e (n, b', found, links', c) =
        let same_node : n ≡ cur = cc in let same_links : b' ≡ b = cc in rw (← same_links) c

    Inv-visit : Inv (queue ++ ns) (cur.id ∷ visited) (bm.or result b)
    Inv-visit = record {
      start = ground (arith, queue_grows u, h.start);
      queued = λ v q. elim (Bool-cases (elem v (node_ids queue))) [
        | inl old ↦ h.queued v (ground arith)
        | inr new ↦ neighbour_reached v (ground (arith, queue_grows v))
      ];
      sound = λ v c. elim (Bool-cases (bm.contains result v)) [
        | inl old ↦ h.sound v old
        | inr new ↦ neighbour_reached v (ground (arith, bm.contains-or result b v))
      ];
      closed = λ v w q edge. elim (Bool-cases (nat_beq cur.id v)) [
        | inl same ↦
            ground (arith, bm.contains-or result b w, target_listed v w (ground arith) edge)
        | inr other ↦ ground (arith, bm.contains-or result b w, h.closed v w (ground arith) edge)
      ];
      found = λ v c. ground (arith, queue_grows v, bm.contains-or result b v, h.found v);
    }

  -- With an empty queue the visited nodes are closed under edges.
  complete :
      (visited : List ℕ) (result : B)
      → Inv [] visited result
      → {w : ℕ} → Reach s d u w
      → (u ≡ w) ⊎ (bm.contains result w ≡ true)
  complete visited result h here = inl refl
  complete visited result h (step {v} {w} p edge) =
      inr (h.closed v w (ground (arith, complete visited result h p, h.start, h.found v)) edge)

module _ {B M : Type 0} ⦃bm : Bitmaps B⦄ (s : Store B M) where
  -- In a storage whose reads succeed and whose edges lead to stored nodes, the search from a stored
  -- node ends within its fuel without an error, and its result holds exactly the nodes that walks
  -- along the queried direction lead to, the start included.
  pub query_bitmap-Reach :
      (d : Direction) (n : Node B M)
      → IsKnown d
      → s.fails Op.get_node ≡ false
      → IsClosed s d
      → lookup n.id s.nodes ≡ some n
      → (r : B) × (query_bitmap s (some n) d ≡ ok r)
        × ((w : ℕ) → (bm.contains r w ≡ true) ↔ Reach s d n.id w)
  unfolding query_bitmap
  query_bitmap-Reach d n known reads closed stored =
      let (r, visited, ends, inv) =
        query_loop_rule s d reads closed (Inv s d n.id) (Inv-skip s d n.id)
          (λ cur queue ns visited result b h at links same.
            Inv-visit s d n.id cur queue ns visited result b h at links same)
          known (query_fuel s d) (n ∷ []) [] bm.new (stored, tt) (omega arith)
          (Inv-start s d n.id n refl) in
      (
        bm.add r n.id,
        rw ends,
        λ w. (
          λ c. elim (Bool-cases (nat_beq n.id w)) [
            | inl e ↦ subst (Reach s d n.id) ((nat_beq_iff n.id w).0 e) here
            | inr e ↦ inv.sound w (ground (arith, bm.contains-add r n.id w))
          ],
          λ p. ground (
            arith,
            bm.contains-add r n.id w,
            complete s d n.id visited r inv p,
            nat_beq_iff n.id w,
          ),
        ),
      )
