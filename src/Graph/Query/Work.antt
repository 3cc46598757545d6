-- ===== src/Graph/Query/Work.antt =====
-- `queryBitmap` ends: each round takes one node off the queue, and queues nodes only along edges
-- that leave a node for the first time.
use sapper.Base.{
  nat_eq, subst, ap, sym, refl, ◌∙◌, ℕ, zero, suc, ◌+◌, ◌≤◌, ◌≡◌, Map, lookup, true, false, List,
  [], ◌∷◌, ◌++◌, some, ok, elem, length, arith, Bool-cases, nat_beq_iff, length-append, inl, inr,
}
use sapper.Bitmap.{Bitmaps}
use sapper.Graph.{
  Direction, parents_direction, children_direction, other_direction, Node, Store, Op,
}
use sapper.Graph.Storage.{get_node}
use sapper.Graph.Query.{bitmap_of, get_each, query_loop, degree, open_edges}
use sapper.Graph.Query.Reach.{IsClosed, IsKnown}

module _ {B M : Type 0} ⦃bm : Bitmaps B⦄ (d : Direction) where
  open_edges_mono :
      (visited : List ℕ) (id : ℕ) (nodes : Map ℕ (Node B M))
      → open_edges d (id ∷ visited) nodes ≤ open_edges d visited nodes
  open_edges_mono visited id [] = omega arith
  open_edges_mono visited id ((j, m) ∷ nodes) = ground (arith, open_edges_mono visited id nodes)

  -- To visit a node takes its edges out of the count.
  pub open_edges_visit :
      (visited : List ℕ) (id : ℕ) (n : Node B M) (nodes : Map ℕ (Node B M))
      → lookup id nodes ≡ some n
      → elem id visited ≡ false
      → open_edges d (id ∷ visited) nodes + degree d n ≤ open_edges d visited nodes
  unfolding lookup
  open_edges_visit visited id n [] found fresh = cc
  open_edges_visit visited id n ((j, m) ∷ nodes) found fresh = ground (
    arith,
    open_edges_mono visited id nodes,
    open_edges_visit visited id n nodes,
    nat_beq_iff j id,
  )

module _ {B M : Type 0} where
  abbrev pub node_ids : List (Node B M) → List ℕ
  node_ids [] = []
  node_ids (n ∷ ns) = n.id ∷ node_ids ns

module _ {B M : Type 0} (s : Store B M) where
  -- Every node of the list is the stored copy.
  abbrev pub AllStored : List (Node B M) → Type 0
  AllStored [] = Unit
  AllStored (n ∷ ns) = (lookup n.id s.nodes ≡ some n) × AllStored ns

  AllStored-append : (xs ys : List (Node B M)) → AllStored xs → AllStored ys → AllStored (xs ++ ys)
  AllStored-append [] ys p q = q
  AllStored-append (x ∷ xs) ys p q = (p.0, AllStored-append xs ys p.1 q)

module _ {B M : Type 0} ⦃bm : Bitmaps B⦄ where
  degree-ok :
      (d : Direction) (n : Node B M) (b : B)
      → bitmap_of d n ≡ ok b
      → degree d n ≡ length (bm.to_array b)
  degree-ok d n b h = rw (h, degree)

bitmap_known :
    {B M : Type 0} (d : Direction) (n : Node B M) → IsKnown d → (b : B) × (bitmap_of d n ≡ ok b)
bitmap_known parents_direction n k = (n.parents, refl)
bitmap_known children_direction n k = (n.children, refl)
bitmap_known (other_direction d) n k = elim k [ ]

module _ {B M : Type 0} ⦃bm : Bitmaps B⦄ (s : Store B M) (d : Direction) where
  module _ (reads : s.fails Op.get_node ≡ false) (closed : IsClosed s d) where
    get_node_stored : (id : ℕ) (n : Node B M) → lookup id s.nodes ≡ some n → get_node s id ≡ ok n
    unfolding get_node
    get_node_stored id n h = rw (reads, h)

    -- The inner loop loads the stored copies of the neighbours, in order.
    get_each_stored :
        (ids : List ℕ)
        → ((w : ℕ) → elem w ids ≡ true → (n : Node B M) × (lookup w s.nodes ≡ some n))
        → (ns : List (Node B M)) × (get_each s ids ≡ ok ns) × (node_ids ns ≡ ids) × AllStored s ns
    unfolding get_each
    get_each_stored [] h = ([], refl, refl, tt)
    get_each_stored (id ∷ ids) h =
        let (n, found) = h id (ground (arith, nat_beq_iff id id)) in
        let (ns, got, same, stored) = get_each_stored ids (λ w e. h w (ground arith)) in
        let key : n.id ≡ id = closed.keyed id n found in
        (
          n ∷ ns,
          rw (get_node_stored id n found, got),
          cc,
          (subst (λ k. lookup k s.nodes ≡ some n) (sym key) found, stored),
        )

    length-node_ids : (ns : List (Node B M)) → length ns ≡ length (node_ids ns)
    length-node_ids [] = refl
    length-node_ids (n ∷ ns) = ap suc (length-node_ids ns)

    -- With the fuel that the open edges ask for, the loop returns, and what each round keeps
    -- holds at the end, where the queue is empty.
    pub query_loop_rule :
        (P : List (Node B M) → List ℕ → B → Type 0)
        → ((cur : Node B M) (queue : List (Node B M)) (visited : List ℕ) (result : B)
            → P (cur ∷ queue) visited result
            → elem cur.id visited ≡ true
            → P queue visited result)
        → ((cur : Node B M) (queue ns : List (Node B M)) (visited : List ℕ) (result b : B)
            → P (cur ∷ queue) visited result
            → lookup cur.id s.nodes ≡ some cur
            → bitmap_of d cur ≡ ok b
            → node_ids ns ≡ bm.to_array b
            → P (queue ++ ns) (cur.id ∷ visited) (bm.or result b))
        → IsKnown d
        → (fuel : ℕ) (queue : List (Node B M)) (visited : List ℕ) (result : B) → AllStored s queue
        → length queue + open_edges d visited s.nodes ≤ fuel
        → P queue visited result
        → (r : B) × (visited' : List ℕ) × (query_loop s d fuel queue visited result ≡ ok r)
          × P [] visited' r
    unfolding query_loop
    query_loop_rule P skip visit known fuel [] visited result stored enough p =
        (result, visited, refl, p)
    query_loop_rule P skip visit known zero (cur ∷ queue) visited result stored enough p =
        absurd (omega arith)
    query_loop_rule P skip visit known (suc fuel) (cur ∷ queue) visited result stored enough p =
        elim (Bool-cases (elem cur.id visited)) [
          | inl seen ↦
              let (r, v, ends, q) =
                query_loop_rule P skip visit known fuel queue visited result stored.1 (omega arith)
                  (skip cur queue visited result p seen) in
              (r, v, rw (seen, query_loop) ends, q)
          | inr fresh ↦
              let (b, links) = bitmap_known d cur known in
              let (ns, got, same, all) = get_each_stored (bm.to_array b) (λ w e.
                closed.target cur.id w (cur, b, stored.0, links, sym (bm.elem-to_array b w) ∙ e)) in
              let (r, v, ends, q) =
                query_loop_rule P skip visit known fuel (queue ++ ns) (cur.id ∷ visited)
                  (bm.or result b) (AllStored-append s queue ns stored.1 all)
                  (omega (
                    arith,
                    degree-ok d cur b links,
                    length-append queue ns,
                    length-node_ids ns,
                    ap length same,
                    open_edges_visit d visited cur.id cur s.nodes stored.0 fresh,
                  ))
                  (visit cur queue ns visited result b p stored.0 links same) in
              (r, v, rw (fresh, links, got, query_loop) ends, q)
        ]
