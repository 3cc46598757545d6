-- ===== src/Service/Libraries.antt =====
-- Which packages the index of libraries is about, and what the operations of the graph do to them.
use sapper.Base.{
  nat_eq, text_eq, refl, sym, ap, subst, ◌∙◌, ◌≡◌, ◌≢◌, ◌⊎◌, ◌≤◌, ◌<◌, inl, inr, ℕ, suc, ◌+◌, ◌%◌,
  ◌^◌, Text, text, Map, lookup, insert, lookup-insert, Bool, true, false, ◌&&◌, Option, none, some,
  ok, ◌==◌, if◌then◌else◌, has_prefix, arith, Bool-cases, Option-cases, nat_beq, nat_beq_iff,
  text_beq,
}
use sapper.Bitmap.{Bitmaps}
use sapper.Graph.{Node, Store}
use sapper.Graph.Storage.{get_node}
use sapper.Graph.Edit.{add_node, new_node, set_dependency, with_child, with_parent}

module _ {B M : Type 0} where
  -- What the index takes from a node.
  abbrev pub library_of : Node B M → Option (ℕ × Text)
  library_of n =
      if n.type == text "library" && has_prefix n.name (text "pkg:")
      then some (n.id, n.name)
      else none

  abbrev pub library_in : Option (Node B M) → Option (ℕ × Text)
  library_in none = none
  library_in (some n) = library_of n

  abbrev pub library_at : Store B M → ℕ → Option (ℕ × Text)
  library_at s id = library_in (lookup id s.nodes)

  -- The node has an ID that was given out, under which there is a node with the same part in the
  -- index, if any.
  abbrev pub Known : Store B M → Node B M → Type 0
  Known s n = (n.id ≤ s.id_counter) × (library_at s n.id ≡ library_of n)

  -- From the first storage on, no library came, went or changed, unless they are not watched, and
  -- `k` IDs are left.
  pub record Keeps (watched : Bool) (k : ℕ) (s t : Store B M) : Type 0 where
    pub keyed : (id : ℕ) (n : Node B M) → lookup id t.nodes ≡ some n → n.id ≡ id
    pub counted : (id : ℕ) (n : Node B M) → lookup id t.nodes ≡ some n → id ≤ t.id_counter
    pub room : t.id_counter + k < 2 ^ 32
    pub grows : s.id_counter ≤ t.id_counter
    pub same : watched ≡ true → (id : ℕ) → library_at t id ≡ library_at s id

module _ {B M : Type 0} ⦃bm : Bitmaps B⦄ (watched : Bool) (s : Store B M) where
  -- One node is saved, and the counter may have grown.
  save-Keeps :
      (j k : ℕ) (t t' : Store B M) (n : Node B M)
      → Keeps watched j s t
      → t'.nodes ≡ insert n.id n t.nodes
      → t.id_counter ≤ t'.id_counter
      → n.id ≤ t'.id_counter
      → t'.id_counter + k < 2 ^ 32
      → (watched ≡ true → library_at t n.id ≡ library_of n)
      → Keeps watched k s t'
  save-Keeps j k t t' n h nodes grow id_le room given = record {
    keyed = λ id m e. ground (arith, at id, h.keyed id m, nat_beq_iff n.id id);
    counted = λ id m e. ground (arith, at id, h.counted id m, nat_beq_iff n.id id);
    room = room;
    grows = omega (arith, h.grows);
    same = λ w id. elim (Bool-cases (nat_beq n.id id)) [
      | inl e ↦
          ap library_in (at id ∙ chosen id e)
          ∙ sym (given w)
          ∙ ap (library_at t) ((nat_beq_iff n.id id).0 e)
          ∙ h.same w id
      | inr e ↦ ap library_in (at id ∙ other id e) ∙ h.same w id
    ];
  }
    where
      at : (id : ℕ) → lookup id t'.nodes ≡ (if nat_beq n.id id then some n else lookup id t.nodes)
      at id = ap (λ (l : Map ℕ (Node B M)). lookup id l) nodes ∙ lookup-insert n.id id n t.nodes

      chosen :
          (id : ℕ)
          → nat_beq n.id id ≡ true
          → (if nat_beq n.id id then some n else lookup id t.nodes) ≡ some n
      chosen id e = rw e refl

      other :
          (id : ℕ)
          → nat_beq n.id id ≡ false
          → (if nat_beq n.id id then some n else lookup id t.nodes) ≡ lookup id t.nodes
      other id e = rw e refl

  pub Keeps-le : (j k : ℕ) (t : Store B M) → j ≤ k → Keeps watched k s t → Keeps watched j s t
  Keeps-le j k t le h = record {
    keyed = h.keyed;
    counted = h.counted;
    room = omega (arith, h.room);
    grows = h.grows;
    same = h.same;
  }

  pub stored-Known :
      (k : ℕ) (t : Store B M) (n : Node B M)
      → Keeps watched k s t
      → lookup n.id t.nodes ≡ some n
      → Known t n
  stored-Known k t n h at = (h.counted n.id n at, ap library_in at)

  unchanged-Keeps :
      (j k : ℕ) (t u : Store B M)
      → Keeps watched j s t
      → u.nodes ≡ t.nodes
      → t.id_counter ≤ u.id_counter
      → u.id_counter + k < 2 ^ 32
      → Keeps watched k s u
  unchanged-Keeps j k t u h nodes low room = record {
    keyed = λ id n e. h.keyed id n (sym (ap (λ (l : Map ℕ (Node B M)). lookup id l) nodes) ∙ e);
    counted = λ id n e.
        omega
          (arith, low, h.counted id n (sym (ap (λ (l : Map ℕ (Node B M)). lookup id l) nodes) ∙ e));
    room = room;
    grows = omega (arith, h.grows);
    same = λ w id. ap (λ (l : Map ℕ (Node B M)). library_in (lookup id l)) nodes ∙ h.same w id;
  }

  -- A node that was read is known.
  pub get_node-Known :
      (k id : ℕ) (t : Store B M) (n : Node B M)
      → Keeps watched k s t
      → get_node t id ≡ ok n
      → Known t n
  unfolding get_node
  get_node-Known k id t n h e = elim (Option-cases (lookup id t.nodes)) [
    | inl missing ↦ absurd (ground arith)
    | inr (m, at) ↦ stored-Known k t n h (ground (arith, h.keyed id m at))
  ]

  add_outcome :
      (type : Text) (metadata : M) (name : Text) (t : Store B M)
      → t.id_counter + 1 < 2 ^ 32
      → let id = t.id_counter + 1 in
        let u = (add_node type metadata name t).1 in
        (u.nodes ≡ t.nodes) × (t.id_counter ≤ u.id_counter) × (u.id_counter ≤ id)
        ⊎ (u.nodes ≡ insert id (new_node type metadata name id) t.nodes) × (u.id_counter ≡ id)
  unfolding add_node
  add_outcome type metadata name t room = ground arith

  not_library :
      (type : Text) (metadata : M) (name : Text) (id : ℕ)
      → text_beq type (text "library") ≡ false
      → library_of {B = B} (new_node type metadata name id) ≡ none
  not_library type metadata name id e = rw e refl

  fresh :
      (k id : ℕ) (t : Store B M) → Keeps watched k s t → t.id_counter < id → library_at t id ≡ none
  fresh k id t h far = elim (Option-cases (lookup id t.nodes)) [
    | inl e ↦ ap library_in e
    | inr (n, e) ↦ absurd (omega (arith, h.counted id n e))
  ]

  -- `AddNode`; where libraries are watched, of anything but a library.
  pub add_node-Keeps :
      (k : ℕ) (type : Text) (metadata : M) (name : Text) (t : Store B M)
      → (watched ≡ true → text_beq type (text "library") ≡ false)
      → Keeps watched (suc k) s t
      → Keeps watched k s (add_node type metadata name t).1
  add_node-Keeps k type metadata name t other h =
      let u = (add_node type metadata name t).1 in
      elim (add_outcome type metadata name t (omega (arith, h.room))) [
        | inl (nodes, low, high) ↦ unchanged-Keeps (suc k) k t u h nodes low (omega (arith, h.room))
        | inr (nodes, counter) ↦
            save-Keeps (suc k) k t u (new_node type metadata name (t.id_counter + 1)) h nodes
              (omega arith) (omega arith) (omega (arith, h.room))
              (λ w.
                fresh (suc k) (t.id_counter + 1) t h (omega arith)
                ∙ sym (not_library type metadata name (t.id_counter + 1) (other w)))
      ]

  pub add_node-Known :
      (k : ℕ) (type : Text) (metadata : M) (name : Text) (t : Store B M) (n : Node B M)
      → Keeps watched k s (add_node type metadata name t).1
      → Keeps watched (suc k) s t
      → (add_node type metadata name t).0 ≡ ok n
      → Known (add_node type metadata name t).1 n
  unfolding add_node
  add_node-Known k type metadata name t n h' h e =
      stored-Known k (add_node type metadata name t).1 n h'
        (elim (Option-cases (lookup name t.ids)) [
          | inl unknown ↦
              let id = (t.id_counter + 1) % 2 ^ 32 in
              ground (
                arith,
                lookup-insert id id (new_node type metadata name id) t.nodes,
                nat_beq_iff id id,
              )
          | inr (known, found) ↦
              let id = (t.id_counter + 1) % 2 ^ 32 in
              elim (Option-cases (lookup known t.nodes)) [
                | inl missing ↦ ground (
                  arith,
                  lookup-insert id id (new_node type metadata name id) t.nodes,
                  nat_beq_iff id id,
                )
                | inr (m, at) ↦ ground (
                  arith,
                  h.keyed known m at,
                  lookup-insert id id (new_node type metadata name id) t.nodes,
                  nat_beq_iff id id,
                )
              ]
        ])

  link_outcome :
      (t : Store B M) (n m : Node B M)
      → let u = (set_dependency (some n) (some m) t).1 in
        (u.nodes ≡ t.nodes) × (u.id_counter ≡ t.id_counter)
        ⊎ (u.nodes ≡ insert n.id (with_child n m.id) t.nodes) × (u.id_counter ≡ t.id_counter)
        ⊎ (n.id ≢ m.id)
          × (u.nodes ≡ insert m.id (with_parent m n.id) (insert n.id (with_child n m.id) t.nodes))
          × (u.id_counter ≡ t.id_counter)
  unfolding set_dependency
  link_outcome t n m = ground (arith, nat_beq_iff n.id m.id)

  -- `SetDependency` between known nodes.
  pub set_dependency-Keeps :
      (k : ℕ) (t : Store B M) (n m : Node B M)
      → Known t n
      → Known t m
      → Keeps watched k s t
      → Keeps watched k s (set_dependency (some n) (some m) t).1
  set_dependency-Keeps k t n m known_n known_m h =
      let u = (set_dependency (some n) (some m) t).1 in
      elim (link_outcome t n m) [
        | inl (nodes, counter) ↦
            unchanged-Keeps k k t u h nodes (omega arith) (omega (arith, h.room))
        | inr (inl (nodes, counter)) ↦
            save-Keeps k k t u (with_child n m.id) h nodes (omega arith) (omega (arith, known_n.0))
              (omega (arith, h.room)) (λ _. known_n.1)
        | inr (inr (distinct, nodes, counter)) ↦
            let mid : Store B M = record t { nodes = insert n.id (with_child n m.id) t.nodes } in
            save-Keeps k k mid u (with_parent m n.id)
              (save-Keeps k k t mid (with_child n m.id) h refl (omega arith) (known_n.0) h.room
                (λ _. known_n.1))
              nodes (omega arith) (omega (arith, known_m.0)) (omega (arith, h.room))
              (λ _.
                ap library_in (lookup-insert n.id m.id (with_child n m.id) t.nodes ∙ apart distinct)
                ∙ known_m.1)
      ]
    where
      apart :
          n.id ≢ m.id
          → (if nat_beq n.id m.id then some (with_child n m.id) else lookup m.id t.nodes)
            ≡ lookup m.id t.nodes
      apart d = ground (arith, nat_beq_iff n.id m.id)

  -- The dependent, as it is after the call, is known where it was.
  pub linked-Known :
      (t : Store B M) (n m : Node B M) (linked : Node B M × Node B M)
      → Known s n
      → (set_dependency (some n) (some m) t).0 ≡ ok linked
      → Known s linked.0
  unfolding set_dependency
  linked-Known t n m linked known e = subst (λ (x : Node B M). Known s x) (same_node e) known
    where
      same_node : (set_dependency (some n) (some m) t).0 ≡ ok linked → with_child n m.id ≡ linked.0
      same_node e = ground (arith, nat_beq_iff n.id m.id)
