-- ===== src/Script/Dependents.antt =====
-- A script of one query, from its text to its answer, on a graph that is not cached.
use sapper.Base.{
  nat_eq, text_eq, ap, refl, ◌∙◌, ℕ, Text, text, Map, lookup, insert, lookup-insert, ◌≡◌, ◌↔◌, true,
  false, ◌&&◌, [], ◌∷◌, Option, none, some, ok, arith, nat_beq, nat_beq_iff, text_beq, text_beq_iff,
  Bool-cases, inl, inr,
}
use sapper.Bitmap.{Bitmaps}
use sapper.Graph.{dependent_not_found, Node, NodeCache, Store, Op, GraphError, parents_direction}
use sapper.Graph.Query.{query_bitmap, batch_query_dependencies, batch_query_dependents}
use sapper.Graph.Query.Reach.{Reach}
use sapper.Graph.Query.Correct.{query_bitmap-Reach}
use sapper.Graph.Edit.WellFormed.{IsWellFormed, IsWellFormed-parents}
use sapper.Script.{
  Query, Expression, Answers, id_of, has_type, pointer, iterate_expression, index_names, resolve,
  execute, parse_and_execute, collect_packages,
}
use sapper.Script.Meaning.{single, parse_tree, iterate_expression-meaning, answer_of, among}

module _ {B M : Type 0} ⦃bm : Bitmaps B⦄ (ids : Map Text ℕ) where
  -- What `GetNodes` returned has no nil, and its names lead to its IDs.
  abbrev pub AllNamed : Map ℕ (Option (Node B M)) → Type 0
  AllNamed [] = Unit
  AllNamed ((_, none) ∷ rest) = ⊥
  AllNamed ((_, some n) ∷ rest) = (lookup n.name ids ≡ some n.id) × AllNamed rest

  -- The names of the index lead where the storage's names lead, and no name of a node is missing.
  index_names_lem :
      (nodes : Map ℕ (Option (Node B M))) (acc : Map Text ℕ)
      → AllNamed nodes
      → ((name : Text) (id : ℕ) → lookup name acc ≡ some id → lookup name ids ≡ some id)
      → (found : Map Text ℕ) × (index_names nodes acc ≡ ok found)
        × ((name : Text) (id : ℕ) → lookup name found ≡ some id → lookup name ids ≡ some id)
        × ((name : Text) (id : ℕ)
            → lookup name acc ≡ some id
            → (j : ℕ) × (lookup name found ≡ some j))
        × ((id : ℕ) (n : Node B M)
            → pointer id nodes ≡ some n
            → (j : ℕ) × (lookup n.name found ≡ some j))
  unfolding index_names lookup
  index_names_lem [] acc all old = (acc, refl, old, λ name id h. (id, h), λ id n h. cc)
  index_names_lem ((k, none) ∷ rest) acc all old = absurd all
  index_names_lem ((k, some n) ∷ rest) acc all old =
      let (found, ends, sound, kept, named) =
        index_names_lem rest (insert n.name n.id acc) all.1 (λ name id h.
          ground
            (arith, lookup-insert n.name name n.id acc, old name id, text_beq_iff n.name name)) in
      (
        found,
        ends,
        sound,
        λ name id h. elim (Bool-cases (text_beq n.name name)) [
          | inl same ↦ kept name n.id (ground (arith, lookup-insert n.name name n.id acc))
          | inr other ↦ kept name id (ground (arith, lookup-insert n.name name n.id acc))
        ],
        λ id x h. elim (Bool-cases (nat_beq k id)) [
          | inl here ↦
              let same : n ≡ x = ground arith in
              kept x.name n.id (
                ground (
                  arith,
                  lookup-insert n.name x.name n.id acc,
                  text_beq_iff n.name x.name,
                  ap (λ (y : Node B M). y.name) same,
                ))
          | inr other ↦ named id x (ground arith)
        ],
      )

-- The query `dependents TYPE NAME`.
abbrev pub dependents_query : Text → Text → Query
dependents_query type name = record {
  query_type = text "dependents";
  node_type = type;
  node_name = some name;
}

module _ {B M : Type 0} ⦃bm : Bitmaps B⦄ (s : Store B M) (n : Node B M) (type : Text)
    (nodes : Map ℕ (Option (Node B M))) where
  no_dependencies :
      (caches : Map ℕ (NodeCache B)) → batch_query_dependencies s [] caches false ≡ ok []
  unfolding batch_query_dependencies
  no_dependencies caches = refl

  one_answer :
      (caches : Map ℕ (NodeCache B)) (answer : B)
      → query_bitmap s (some n) parents_direction ≡ ok answer
      → batch_query_dependents s (some n ∷ []) caches false ≡ ok ((n.id, answer) ∷ [])
  unfolding batch_query_dependents insert
  one_answer caches answer got = rw got

  nothing : (name : Text) → lookup {V = ℕ} name [] ≡ none
  unfolding lookup
  nothing name = refl

  one_entry : (id : ℕ) (answer : B) → lookup id ((id, answer) ∷ []) ≡ some answer
  unfolding lookup
  one_entry id answer = ground (arith, nat_beq_iff id id)

  -- The answers that the evaluation of the script reads.
  abbrev answers : Text → Map Text ℕ → B → Answers B M
  answers default_name found answer = record {
    dependencies_for_id = [];
    dependents_for_id = (n.id, answer) ∷ [];
    name_to_ids = found;
    nodes = nodes;
    default_name = default_name;
  }

  resolve_one :
      (missing : Text → GraphError) (found : Map Text ℕ)
      → lookup n.name found ≡ some n.id
      → pointer n.id nodes ≡ some n
      → resolve missing found nodes (record { purl = n.name; type = type } ∷ []) ≡ ok (some n ∷ [])
  unfolding resolve
  resolve_one missing found known at = ground arith

  execute_run :
      (caches : Map ℕ (NodeCache B)) (default_name : Text) (found : Map Text ℕ) (answer b : B)
      → lookup n.name found ≡ some n.id
      → pointer n.id nodes ≡ some n
      → query_bitmap s (some n) parents_direction ≡ ok answer
      → iterate_expression
          (answers default_name found answer)
          (parse_tree (single (dependents_query type n.name)))
        ≡ ok (some b)
      → execute s default_name nodes caches false found
          (parse_tree (single (dependents_query type n.name)))
        ≡ ok b
  unfolding execute resolve collect_packages
  execute_run caches default_name found answer b known at got ends =
      rw (resolve_one dependent_not_found found known at)
        (rw (no_dependencies caches, one_answer caches answer got) (rw ends))

  -- Once the names are indexed.
  execute-dependents :
      (caches : Map ℕ (NodeCache B)) (default_name : Text) (found : Map Text ℕ) (answer : B)
      → lookup n.name found ≡ some n.id
      → pointer n.id nodes ≡ some n
      → query_bitmap s (some n) parents_direction ≡ ok answer
      → (r : B) × (execute s default_name nodes caches false found
            (parse_tree (single (dependents_query type n.name)))
          ≡ ok r)
        × ((w : ℕ) → bm.contains r w ≡ (bm.contains answer w && has_type type nodes w))
  execute-dependents caches default_name found answer known at got =
      let q = dependents_query type n.name in
      let a = answers default_name found answer in
      let id_known : id_of n.name a ≡ n.id = rw (known, id_of) in
      let answered : answer_of a q ≡ some answer =
        ap (λ id. lookup id ((n.id, answer) ∷ [])) id_known ∙ one_entry n.id answer in
      let (b, ends, means) = iterate_expression-meaning a (single q) (answer, answered) in
      (
        b,
        execute_run caches default_name found answer b known at got ends,
        λ w. means w ∙ ap (λ o. among type nodes o w) answered,
      )

  -- When the nodes given to `ParseAndExecute` are the stored ones, the script `dependents TYPE NAME`
  -- succeeds on a well-formed graph that is not cached, and gives the nodes of that type from which
  -- dependencies lead to the named node.
  pub parse_and_execute-dependents :
      (parse : Text → Option Expression) (script : Text) (default_name : Text)
      (caches : Map ℕ (NodeCache B))
      → parse script ≡ some (parse_tree (single (dependents_query type n.name)))
      → s.fails Op.get_node ≡ false
      → IsWellFormed s
      → lookup n.id s.nodes ≡ some n
      → AllNamed s.ids nodes
      → pointer n.id nodes ≡ some n
      → (r : B) × (parse_and_execute parse script s default_name nodes caches false ≡ ok r)
        × ((w : ℕ)
            → (bm.contains r w ≡ true)
              ↔ (Reach s parents_direction n.id w × (has_type type nodes w ≡ true)))
  unfolding parse_and_execute
  parse_and_execute-dependents parse script default_name caches parsed reads h stored all at =
      let (found, indexed, sound, _, named) =
        index_names_lem s.ids nodes [] all (λ name id e. cc (nothing name)) in
      let (j, at_name) = named n.id n at in
      let known : lookup n.name found ≡ some n.id =
        ground (arith, sound n.name j at_name, h.named n.id n stored) in
      let (answer, got, reaches) =
        query_bitmap-Reach s parents_direction n tt reads (IsWellFormed-parents s h) stored in
      let (r, ends, holds) = execute-dependents caches default_name found answer known at got in
      (
        r,
        rw (indexed, parsed) ends,
        λ w. (
          λ c. ((reaches w).0 (ground (arith, holds w)), ground (arith, holds w)),
          λ (p, t). ground (arith, holds w, (reaches w).1 p),
        ),
      )
