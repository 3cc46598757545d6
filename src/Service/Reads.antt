-- ===== src/Service/Reads.antt =====
-- What reading all nodes of a storage gives.
use sapper.Base.{
  nat_eq, text_eq, refl, sym, ap, ◌∙◌, ◌≡◌, ◌⊎◌, inl, inr, ℕ, Map, lookup, insert, keys, Bool, true,
  false, ◌||◌, List, [], ◌∷◌, Option, none, some, ok, elem, arith, Bool-cases, Option-cases,
  nat_beq, nat_beq_iff,
}
use mathlib.Core.List.{Memᴰ}
use mathlib.Core.List.Memᴰ
use sapper.Graph.{Node, Store, Op}
use sapper.Graph.Storage.{collect, get_nodes, get_all_keys}

module _ {V : Type 0} where
  pub elem-keys : (m : Map ℕ V) (id : ℕ) (v : V) → lookup id m ≡ some v → elem id (keys m) ≡ true
  unfolding lookup
  elem-keys [] id v e = cc
  elem-keys ((j, u) ∷ m) id v e = ground (arith, elem-keys m id v)

  pub insert-Memᴰ :
      (i : ℕ) (w : V) (out : Map ℕ V) (id : ℕ) (v : V)
      → Memᴰ (id, v) (insert i w out)
      → ((id ≡ i) × (v ≡ w)) ⊎ Memᴰ (id, v) out
  unfolding insert
  insert-Memᴰ i w [] id v = λ m. elim (Memᴰ.cases_cons m) [
    | inl e ↦ inl (ap (λ p. p.0) e, ap (λ p. p.1) e)
    | inr later ↦ absurd (Memᴰ.not-nil later)
  ]
  insert-Memᴰ i w ((j, u) ∷ out) id v = elim (Bool-cases (nat_beq j i)) [
    | inl e ↦ rw e (λ m. elim (Memᴰ.cases_cons m) [
      | inl same ↦ inl (ap (λ p. p.0) same, ap (λ p. p.1) same)
      | inr later ↦ inr (Memᴰ.tail later)
    ])
    | inr e ↦ rw e (λ m. elim (Memᴰ.cases_cons m) [
      | inl same ↦ inr (Memᴰ.head same)
      | inr later ↦ elim (insert-Memᴰ i w out id v later) [
        | inl new ↦ inl new
        | inr old ↦ inr (Memᴰ.tail old)
      ]
    ])
  ]

module _ {V : Type 0} (stored : Map ℕ V) where
  -- What is read is what is stored.
  pub collect-Memᴰ :
      (ids : List ℕ) (out : Map ℕ V)
      → ((id : ℕ) (v : V) → Memᴰ (id, v) out → lookup id stored ≡ some v)
      → (id : ℕ) (v : V) → Memᴰ (id, v) (collect stored ids out)
      → lookup id stored ≡ some v
  unfolding collect
  collect-Memᴰ [] out h = h
  collect-Memᴰ (i ∷ ids) out h = elim (Option-cases (lookup i stored)) [
    | inl e ↦ rw (e, collect) (collect-Memᴰ ids out h)
    | inr (w, e) ↦
        rw (e, collect)
          (collect-Memᴰ ids (insert i w out) (λ id v m. one (insert-Memᴰ i w out id v m) e h))
  ]
    where
      one :
          {w : V} {id : ℕ} {v : V}
          → ((id ≡ i) × (v ≡ w)) ⊎ Memᴰ (id, v) out
          → lookup i stored ≡ some w
          → ((id : ℕ) (v : V) → Memᴰ (id, v) out → lookup id stored ≡ some v)
          → lookup id stored ≡ some v
      one (inl (a, b)) e h = ap (λ k. lookup k stored) a ∙ e ∙ ap (λ (x : V). some x) (sym b)
      one {w} {id} {v} (inr m) e h = h id v m

module _ {V : Type 0} where
  pair : (a b : ℕ) (x y : V) → a ≡ b → x ≡ y → ◌≡◌ {A = ℕ × V} (a, x) (b, y)
  pair a b x y e h = ap (λ c. (c, x)) e ∙ ap (λ z. (b, z)) h

  Memᴰ-insert :
      (i : ℕ) (w : V) (out : Map ℕ V) (id : ℕ) (v : V)
      → (id ≡ i → v ≡ w)
      → Memᴰ (id, v) out ⊎ (id ≡ i)
      → Memᴰ (id, v) (insert i w out)
  unfolding insert
  Memᴰ-insert i w [] id v agree o = elim o [
    | inl m ↦ absurd (Memᴰ.not-nil m)
    | inr e ↦ Memᴰ.head (pair id i v w e (agree e))
  ]
  Memᴰ-insert i w ((j, u) ∷ out) id v agree o = elim (Bool-cases (nat_beq j i)) [
    | inl e ↦ rw e (elim o [
      | inl m ↦ elim (Memᴰ.cases_cons m) [
        | inl same ↦
            let here : id ≡ i = ap (λ p. p.0) same ∙ (nat_beq_iff j i).0 e in
            Memᴰ.head (pair id i v w here (agree here))
        | inr later ↦ Memᴰ.tail later
      ]
      | inr here ↦ Memᴰ.head (pair id i v w here (agree here))
    ])
    | inr e ↦ rw e (elim o [
      | inl m ↦ elim (Memᴰ.cases_cons m) [
        | inl same ↦ Memᴰ.head same
        | inr later ↦ Memᴰ.tail (Memᴰ-insert i w out id v agree (inl later))
      ]
      | inr here ↦ Memᴰ.tail (Memᴰ-insert i w out id v agree (inr here))
    ])
  ]

module _ {V : Type 0} (stored : Map ℕ V) where
  pub Memᴰ-collect :
      (ids : List ℕ) (out : Map ℕ V) (id : ℕ) (v : V)
      → lookup id stored ≡ some v
      → Memᴰ (id, v) out ⊎ (elem id ids ≡ true)
      → Memᴰ (id, v) (collect stored ids out)
  unfolding collect
  Memᴰ-collect [] out id v at o = elim o [ inl m ↦ m | inr e ↦ absurd cc ]
  Memᴰ-collect (i ∷ ids) out id v at o = elim (Option-cases (lookup i stored)) [
    | inl missing ↦
        rw (missing, collect)
          (Memᴰ-collect ids out id v at (elim o [
            | inl m ↦ inl m
            | inr e ↦ inr (
                elsewhere (nat_beq i id) e
                  (λ same. gone (ap (λ k. lookup k stored) ((nat_beq_iff i id).0 same)) at missing))
          ]))
    | inr (w, found) ↦
        rw (found, collect)
          (Memᴰ-collect ids (insert i w out) id v at (elim o [
            | inl m ↦ inl (
                Memᴰ-insert i w out id v (λ same. agree (ap (λ k. lookup k stored) same) at found)
                  (inl m))
            | inr e ↦ elim (Bool-cases (nat_beq i id)) [
              | inl same ↦ inl (
                  Memᴰ-insert i w out id v (λ s. agree (ap (λ k. lookup k stored) s) at found)
                    (inr (sym ((nat_beq_iff i id).0 same))))
              | inr other ↦ inr (later other e)
            ]
          ]))
  ]
    where
      gone : {a b : Option V} {x : V} → a ≡ b → b ≡ some x → a ≡ none → ⊥
      gone e f g = cc

      agree : {a b : Option V} {x y : V} → a ≡ b → a ≡ some x → b ≡ some y → x ≡ y
      agree e f g = cc

      elsewhere : (b : Bool) → (b || elem id ids) ≡ true → (b ≡ true → ⊥) → elem id ids ≡ true
      elsewhere true e h = absurd (h refl)
      elsewhere false e h = e

      later : nat_beq i id ≡ false → (nat_beq i id || elem id ids) ≡ true → elem id ids ≡ true
      later e h = ground arith

module _ {B M : Type 0} (s : Store B M) where
  read_keys : (ks : List ℕ) → get_all_keys s ≡ ok ks → ks ≡ keys s.nodes
  unfolding get_all_keys
  read_keys ks e = elim (Bool-cases (s.fails Op.get_all_keys)) [
    | inl f ↦ absurd (ground arith)
    | inr f ↦ ground arith
  ]

  read_nodes :
      (ks : List ℕ) (nodes : Map ℕ (Node B M))
      → get_nodes s ks ≡ ok nodes
      → nodes ≡ collect s.nodes ks []
  unfolding get_nodes
  read_nodes ks nodes e = elim (Bool-cases (s.fails Op.get_nodes)) [
    | inl f ↦ absurd (ground arith)
    | inr f ↦ ground arith
  ]

  abbrev pub all_nodes : Map ℕ (Node B M)
  all_nodes = collect s.nodes (keys s.nodes) []

  pub read_all :
      (ks : List ℕ) (nodes : Map ℕ (Node B M))
      → get_all_keys s ≡ ok ks
      → get_nodes s ks ≡ ok nodes
      → nodes ≡ all_nodes
  read_all ks nodes a b = read_nodes ks nodes b ∙ ap (λ l. collect s.nodes l []) (read_keys ks a)
