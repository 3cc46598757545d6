-- ===== src/Graph/Edit/Adds.antt =====
-- `AddNode`.
use sapper.Base.{
  nat_eq, text_eq, Text, refl, ℕ, ◌+◌, ◌%◌, ◌^◌, ◌≤◌, ◌<◌, ◌≡◌, ◌≢◌, ◌⊎◌, lookup, insert,
  lookup-insert, true, false, [], ◌∷◌, ◌++◌, none, some, ok, if◌then◌else◌, arith, Bool-cases,
  Option-cases, nat_beq, nat_beq_iff, text_beq, text_beq_iff, inl, inr,
}
use sapper.Bitmap.{Bitmaps}
use sapper.Graph.{Node, Store, Op}
use sapper.Graph.Edit.{add_node, new_node, new_cache}
use sapper.Graph.Edit.WellFormed.{IsWellFormed, IsWellFormed-same, HasChild, HasParent}

module _ {B M : Type 0} ⦃bm : Bitmaps B⦄ (s s' : Store B M) (type : Text) (metadata : M)
    (name : Text) (id : ℕ) (h : IsWellFormed s) (next : s.id_counter < id)
    (unknown : lookup name s.ids ≡ none)
    (nodes : s'.nodes ≡ insert id (new_node type metadata name id) s.nodes)
    (ids : s'.ids ≡ insert name id s.ids) (counter : s'.id_counter ≡ id) where
  at_id :
      (v : ℕ)
      → lookup v s'.nodes
        ≡ (if nat_beq id v then some (new_node type metadata name id) else lookup v s.nodes)
  at_id v = rw nodes (lookup-insert id v (new_node type metadata name id) s.nodes)

  at_name :
      (other : Text)
      → lookup other s'.ids ≡ (if text_beq name other then some id else lookup other s.ids)
  at_name other = rw ids (lookup-insert name other id s.ids)

  kept : (v : ℕ) (n : Node B M) → lookup v s.nodes ≡ some n → lookup v s'.nodes ≡ some n
  kept v n e = ground (arith, at_id v, h.counted v n e, nat_beq_iff id v)

  old_child : (v w : ℕ) → HasChild s' v w → HasChild s v w
  old_child v w (n, e, c) = (n, ground (arith, at_id v, bm.contains-new w), c)

  old_parent : (v w : ℕ) → HasParent s' v w → HasParent s v w
  old_parent v w (n, e, c) = (n, ground (arith, at_id v, bm.contains-new w), c)

  -- A new node under the next ID keeps the invariant.
  saved-IsWellFormed : IsWellFormed s'
  saved-IsWellFormed = record {
    keyed = λ v n e. ground (arith, at_id v, h.keyed v n, nat_beq_iff id v);
    counted = λ v n e. ground (arith, at_id v, h.counted v n, nat_beq_iff id v);
    mutual_child =
        λ v w c. let (m, e, p) = h.mutual_child v w (old_child v w c) in (m, kept w m e, p);
    mutual_parent =
        λ v w c. let (m, e, p) = h.mutual_parent v w (old_parent v w c) in (m, kept w m e, p);
    no_loop = λ v c. h.no_loop v (old_child v v c);
    named = λ v n e.
        ground
          (arith, at_id v, at_name n.name, h.named v n, nat_beq_iff id v, text_beq_iff name n.name);
    resolved = λ v other e. elim (Bool-cases (text_beq name other)) [
      | inl same ↦ (
        new_node type metadata name id,
        ground (arith, at_id v, at_name other, nat_beq_iff id v),
        (text_beq_iff name other).0 same,
      )
      | inr new ↦
          let (n, at, e') = h.resolved v other (ground (arith, at_name other)) in
          (n, kept v n at, e')
    ];
  }

module _ {B M : Type 0} ⦃bm : Bitmaps B⦄ (type : Text) (metadata : M) (name : Text)
    (s : Store B M) where
  -- What `AddNode` leaves behind: the same nodes and names, or one more of each.
  add_outcome :
      s.fails Op.name_to_id ≡ false
      → s.id_counter + 1 < 2 ^ 32
      → let id = s.id_counter + 1 in
        let t = (add_node type metadata name s).1 in
        (t.nodes ≡ s.nodes) × (t.ids ≡ s.ids) × (s.id_counter ≤ t.id_counter)
        ⊎ (lookup name s.ids ≡ none)
          × (t.nodes ≡ insert id (new_node type metadata name id) s.nodes)
          × (t.ids ≡ insert name id s.ids)
          × (t.id_counter ≡ id)
  unfolding add_node
  add_outcome reads room = ground arith

  -- When the name can be looked up, `AddNode` keeps the storage well formed, whichever of its other
  -- calls fail, as long as the uint32 counter of IDs does not wrap.
  pub add_node-IsWellFormed :
      s.fails Op.name_to_id ≡ false
      → s.id_counter + 1 < 2 ^ 32
      → IsWellFormed s
      → IsWellFormed (add_node type metadata name s).1
  add_node-IsWellFormed reads room h = elim (add_outcome reads room) [
    | inl (nodes, ids, counter) ↦
        IsWellFormed-same s (add_node type metadata name s).1 nodes ids counter h
    | inr (unknown, nodes, ids, counter) ↦
        saved-IsWellFormed s (add_node type metadata name s).1 type metadata name (s.id_counter + 1)
          h (omega arith) unknown nodes ids counter
  ]

  -- When no call of the storage fails and it is well formed, `AddNode` returns a node of that name, and a second call with
  -- the name, under any type and metadata, returns the same node and leaves the storage as it is.
  pub add_node-add_node :
      (type' : Text) (metadata' : M)
      → ((op : Op) → s.fails op ≡ false)
      → IsWellFormed s
      → (n : Node B M) × (t : Store B M) × (add_node type metadata name s ≡ (ok n, t))
        × (n.name ≡ name)
        × (lookup n.id t.nodes ≡ some n)
        × (add_node type' metadata' name t ≡ (ok n, t))
  unfolding add_node
  add_node-add_node type' metadata' works h = elim (Option-cases (lookup name s.ids)) [
    | inl unknown ↦
        let id = (s.id_counter + 1) % 2 ^ 32 in
        let n = new_node type metadata name id in
        (
          n,
          record s {
            nodes = insert id n s.nodes;
            ids = insert name id s.ids;
            cache = insert id (new_cache id) s.cache;
            pending = s.pending ++ id ∷ [];
            id_counter = id;
          },
          ground (
            arith,
            works Op.name_to_id,
            works Op.generate_id,
            works (Op.save_node ((s.id_counter + 1) % 2 ^ 32)),
            works Op.save_cache,
            works Op.get_node,
          ),
          refl,
          ground (arith, lookup-insert id id n s.nodes, nat_beq_iff id id),
          ground (
            arith,
            works Op.name_to_id,
            works Op.generate_id,
            works (Op.save_node ((s.id_counter + 1) % 2 ^ 32)),
            works Op.save_cache,
            works Op.get_node,
            lookup-insert id id n s.nodes,
            nat_beq_iff id id,
            lookup-insert name name id s.ids,
            text_beq_iff name name,
          ),
        )
    | inr (id, known) ↦
        let (n, at, same) = h.resolved id name known in
        (
          n,
          s,
          ground (
            arith,
            works Op.name_to_id,
            works Op.generate_id,
            works (Op.save_node ((s.id_counter + 1) % 2 ^ 32)),
            works Op.save_cache,
            works Op.get_node,
          ),
          same,
          ground (arith, h.keyed id n at),
          ground (
            arith,
            works Op.name_to_id,
            works Op.generate_id,
            works (Op.save_node ((s.id_counter + 1) % 2 ^ 32)),
            works Op.save_cache,
            works Op.get_node,
          ),
        )
  ]

  -- When `NameToID` fails for another reason than an unknown name, `AddNode` takes the name for new:
  -- it stores a second node, and the name no longer leads to the node that had it.
  pub add_node_duplicates :
      (old : Node B M)
      → s.fails Op.name_to_id ≡ true
      → s.fails Op.generate_id ≡ false
      → s.fails (Op.save_node (s.id_counter + 1)) ≡ false
      → s.id_counter + 1 < 2 ^ 32
      → IsWellFormed s
      → lookup old.id s.nodes ≡ some old
      → old.name ≡ name
      → let t = (add_node type metadata name s).1 in
        (lookup old.id t.nodes ≡ some old)
        × (lookup name t.ids ≡ some (s.id_counter + 1))
        × (s.id_counter + 1 ≢ old.id)
        × ¬ IsWellFormed t
  unfolding add_node
  add_node_duplicates old broken counts saves room h at named =
      let id = s.id_counter + 1 in
      let n : Node B M = new_node type metadata name id in
      let t = (add_node type metadata name s).1 in
      let differs : id ≢ old.id = ground (arith, h.counted old.id old at) in
      let kept : lookup old.id t.nodes ≡ some old =
        ground (arith, lookup-insert id old.id n s.nodes, nat_beq_iff id old.id) in
      let moved : lookup name t.ids ≡ some id =
        ground (arith, lookup-insert name name id s.ids, text_beq_iff name name) in
      (kept, moved, differs, λ w. differs (ground (arith, w.named old.id old kept)))
