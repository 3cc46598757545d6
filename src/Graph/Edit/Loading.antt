-- ===== src/Graph/Edit/Loading.antt =====
-- What the loaders need: how long the storage stays well formed while nodes and edges are added.
use sapper.Base.{
  Bool, true, false, if◌then◌else◌, nat_eq, text_eq, Text, refl, ◌∙◌, ℕ, ◌+◌, ◌%◌, ◌^◌, ◌≤◌, ◌<◌,
  ◌≡◌, lookup, lookup-insert, false, some, Result, ok, err, arith, Option-cases, nat_beq_iff, inl,
  inr,
}
use sapper.Bitmap.{Bitmaps}
use sapper.Graph.{Node, Store, Op, Action, GraphError, ◌>>=◌, reading}
use sapper.Graph.Storage.{get_node}
use sapper.Graph.Edit.{new_node, add_node, set_dependency}
use sapper.Graph.Edit.WellFormed.{IsWellFormed}
use sapper.Graph.Edit.Adds.{add_node-IsWellFormed}
use sapper.Graph.Edit.Links.{set_dependency-IsWellFormed}

module _ {B M : Type 0} ⦃bm : Bitmaps B⦄ where
  -- A well-formed storage in which names can be looked up, nodes can be saved, and `k` more IDs are
  -- left.
  pub record HasRoom (k : ℕ) (s : Store B M) : Type 0 where
    pub valid : IsWellFormed s
    pub reads : s.fails Op.name_to_id ≡ false
    pub saves : (id : ℕ) → s.fails (Op.save_node id) ≡ false
    pub room : s.id_counter + k < 2 ^ 32

  pub HasRoom-le : (j k : ℕ) (s : Store B M) → j ≤ k → HasRoom k s → HasRoom j s
  HasRoom-le j k s h r = record {
    valid = r.valid;
    reads = r.reads;
    saves = r.saves;
    room = omega (arith, r.room);
  }

  counter-add_node :
      (type : Text) (metadata : M) (name : Text) (s : Store B M)
      → s.id_counter + 1 < 2 ^ 32
      → ((add_node type metadata name s).1.id_counter ≤ s.id_counter + 1)
        × ((op : Op) → (add_node type metadata name s).1.fails op ≡ s.fails op)
  unfolding add_node
  counter-add_node type metadata name s room = (ground arith, λ op. ground arith)

  pub add_node-HasRoom :
      (k : ℕ) (type : Text) (metadata : M) (name : Text) (s : Store B M)
      → HasRoom (k + 1) s
      → HasRoom k (add_node type metadata name s).1
  add_node-HasRoom k type metadata name s r =
      let (counter, fails) = counter-add_node type metadata name s (omega (arith, r.room)) in
      record {
        valid = add_node-IsWellFormed type metadata name s r.reads (omega (arith, r.room)) r.valid;
        reads = fails Op.name_to_id ∙ r.reads;
        saves = λ id. fails (Op.save_node id) ∙ r.saves id;
        room = omega (arith, r.room);
      }

  -- The node that `AddNode` returns is the stored copy.
  pub add_node_stored :
      (type : Text) (metadata : M) (name : Text) (s : Store B M) (n : Node B M)
      → IsWellFormed s
      → (add_node type metadata name s).0 ≡ ok n
      → lookup n.id (add_node type metadata name s).1.nodes ≡ some n
  unfolding add_node
  add_node_stored type metadata name s n h e = elim (Option-cases (lookup name s.ids)) [
    | inl unknown ↦
        let id = (s.id_counter + 1) % 2 ^ 32 in
        ground
          (arith, lookup-insert id id (new_node type metadata name id) s.nodes, nat_beq_iff id id)
    | inr (known, found) ↦
        let (m, at, _) = h.resolved known name found in
        let id = (s.id_counter + 1) % 2 ^ 32 in
        ground (
          arith,
          h.keyed known m at,
          lookup-insert id id (new_node type metadata name id) s.nodes,
          nat_beq_iff id id,
        )
  ]

  -- A node that was read is the stored copy.
  pub get_node_stored :
      (id : ℕ) (s : Store B M) (n : Node B M)
      → IsWellFormed s
      → get_node s id ≡ ok n
      → lookup n.id s.nodes ≡ some n
  unfolding get_node
  get_node_stored id s n h e = elim (Option-cases (lookup id s.nodes)) [
    | inl missing ↦ absurd (ground arith)
    | inr (m, at) ↦ ground (arith, h.keyed id m at)
  ]

  pub set_dependency-HasRoom :
      (k : ℕ) (s : Store B M) (n m : Node B M)
      → lookup n.id s.nodes ≡ some n
      → lookup m.id s.nodes ≡ some m
      → HasRoom k s
      → HasRoom k (set_dependency (some n) (some m) s).1
  unfolding set_dependency
  set_dependency-HasRoom k s n m at_n at_m r = record {
    valid = set_dependency-IsWellFormed s n m at_n at_m (r.saves m.id) r.valid;
    reads = ground (arith, r.reads);
    saves = λ id. ground (arith, r.saves id);
    room = ground (arith, r.room);
  }

  abbrev go_on :
      {A C : Type 0}
      → (A → Action B M C)
      → Result GraphError A × Store B M
      → Result GraphError C × Store B M
  go_on f o = elim o.0 [ ok a ↦ f a o.1 | err e ↦ (err e, o.1) ]

  -- A step keeps what a continuation needs, on success and on failure.
  pub >>=-keeps :
      {A C : Type 0} (P Q : Store B M → Type 0) (m : Action B M A) (f : A → Action B M C)
      (s : Store B M)
      → P (m s).1
      → ((t : Store B M) → P t → Q t)
      → ((a : A) (t : Store B M) → m s ≡ (ok a, t) → P t → Q (f a t).1)
      → Q ((m >>= f) s).1
  >>=-keeps {A} {C} P Q m f s p weaken go = split (m s) refl p
    where
      split : (o : Result GraphError A × Store B M) → m s ≡ o → P o.1 → Q (go_on f o).1
      split (ok a, t) e p = go a t e p
      split (err x, t) e p = weaken t p

  pub reading-keeps :
      {A C : Type 0} (P : Store B M → Type 0) (r : Store B M → Result GraphError A)
      (f : A → Action B M C) (s : Store B M)
      → P s
      → ((a : A) → r s ≡ ok a → P (f a s).1)
      → P ((reading r >>= f) s).1
  reading-keeps P r f s p go = split (r s) refl
    where
      split : (x : Result GraphError _) → r s ≡ x → P (go_on f (x, s)).1
      split (ok a) e = go a e
      split (err x) e = p

  pub if-keeps :
      {C : Type 0} (P : Store B M → Type 0) (b : Bool) (m n : Action B M C) (s : Store B M)
      → P (m s).1
      → P (n s).1
      → P ((if b then m else n) s).1
  if-keeps P true m n s p q = p
  if-keeps P false m n s p q = q
