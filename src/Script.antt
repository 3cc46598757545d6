-- ===== src/Script.antt =====
-- pkg/graph/parser.go: the query language. The parser itself (participle, with the lexer's rules) is
-- a parameter; what it returns is `Expression`. A nil pointer is a constructor or an `Option`.
pub mod Meaning
pub mod Groups
pub mod Dependents
use sapper.Base.{
  nat_eq, text_eq, ℕ, Text, text, Map, lookup, insert, Bool, true, false, ◌&&◌, List, [], ◌∷◌, ◌++◌,
  Option, none, some, Result, ok, err, ◌>>=◌, ◌==◌, if◌then◌else◌,
}
use sapper.Bitmap.{Bitmaps}
use sapper.Graph.{
  Node, NodeCache, Store, GraphError, nil_node, nil_dereference, unknown_operator, unknown_query,
  parse_failed, dependency_not_found, dependent_not_found,
}
use sapper.Graph.Query.{batch_query_dependencies, batch_query_dependents}

pub record Query : Type 0 where
  pub query_type : Text
  pub node_type : Text
  pub node_name : Option Text

mutual
  pub data Expression : Type 0 where
    no_expression : Expression
    -- `Left`, `Op` and `Right`.
    expression : Term → Option Text → Expression → Expression

  pub data Term : Type 0 where
    no_term : Term
    -- `Query` and `Expression`.
    term : Option Query → Expression → Term

pub record PurlData : Type 0 where
  pub purl : Text
  pub type : Text

-- The node that a query names, or the default one.
abbrev pub named_by : Text → Query → Text
named_by default_name q = elim q.node_name [ none ↦ default_name | some name ↦ name ]

abbrev pub Purls : Type 0
Purls = List PurlData × List PurlData

-- The `switch` of `collectPackagesFromTerm`; a query of another type is left out.
pub collect_query : Text → Query → Purls → Purls
collect_query default_name q (dependencies, dependents) =
    let found : PurlData = record { purl = named_by default_name q; type = q.node_type } in
    if q.query_type == text "dependencies"
    then (dependencies ++ found ∷ [], dependents)
    else if q.query_type == text "dependents"
    then (dependencies, dependents ++ found ∷ [])
    else (dependencies, dependents)

abbrev collect_optional : Text → Option Query → Purls → Purls
collect_optional default_name none found = found
collect_optional default_name (some q) found = collect_query default_name q found

unfoldable mutual
  unfolding collect_query

  pub collect_expression : Text → Expression → Purls → Purls
  collect_expression default_name no_expression found = found
  collect_expression default_name (expression left op right) found =
      collect_expression default_name right (collect_term default_name left found)

  pub collect_term : Text → Term → Purls → Purls
  collect_term default_name no_term found = found
  collect_term default_name (term query inner) found =
      collect_expression default_name inner (collect_optional default_name query found)

unfoldable pub collect_packages : Text → Expression → Purls
unfolding collect_expression
collect_packages default_name e = collect_expression default_name e ([], [])

module _ {V : Type 0} where
  -- `m[id]` of a map of pointers: nil when the key is missing.
  abbrev pub pointer : ℕ → Map ℕ (Option V) → Option V
  pointer id m = elim (lookup id m) [ none ↦ none | some p ↦ p ]

-- What the parse tree is evaluated against.
pub record Answers (B M : Type 0) : Type 0 where
  pub dependencies_for_id : Map ℕ B
  pub dependents_for_id : Map ℕ B
  pub name_to_ids : Map Text ℕ
  pub nodes : Map ℕ (Option (Node B M))
  pub default_name : Text

module _ {B M : Type 0} where
  -- nodes[depId] != nil && nodes[depId].Type == type
  abbrev pub has_type : Text → Map ℕ (Option (Node B M)) → ℕ → Bool
  has_type type nodes id = elim (pointer id nodes) [ none ↦ false | some n ↦ n.type == type ]

  -- `nameToIDs[name]`, which is 0 for a missing name.
  abbrev pub id_of : Text → Answers B M → ℕ
  id_of name a = elim (lookup name a.name_to_ids) [ none ↦ 0 | some id ↦ id ]

module _ {B M : Type 0} ⦃bm : Bitmaps B⦄ where
  -- The loops of `iterateTerm`.
  unfoldable pub keep_type : Text → Map ℕ (Option (Node B M)) → List ℕ → B → B
  keep_type type nodes [] b = b
  keep_type type nodes (id ∷ ids) b =
      keep_type type nodes ids (if has_type type nodes id then bm.add b id else b)

  abbrev pub keep_answer : Text → Map ℕ (Option (Node B M)) → Option B → Result GraphError B
  keep_answer type nodes none = err nil_dereference
  keep_answer type nodes (some b) = ok (keep_type type nodes (bm.to_array b) bm.new)

  unfoldable pub run_query : Answers B M → Query → Result GraphError B
  unfolding keep_type
  run_query a q =
      let id = id_of (named_by a.default_name q) a in
      if q.query_type == text "dependencies"
      then keep_answer q.node_type a.nodes (lookup id a.dependencies_for_id)
      else if q.query_type == text "dependents"
      then keep_answer q.node_type a.nodes (lookup id a.dependents_for_id)
      else err (unknown_query q.query_type)

  abbrev pub run_optional : Answers B M → Option Query → Result GraphError B
  run_optional a none = ok bm.new
  run_optional a (some q) = run_query a q

module _ {B : Type 0} ⦃bm : Bitmaps B⦄ where
  -- A method of a nil bitmap, or with one as its argument, dereferences nil.
  abbrev pub both : (B → B → B) → Option B → Option B → Result GraphError (Option B)
  both f none y = err nil_dereference
  both f (some b) none = err nil_dereference
  both f (some b) (some c) = ok (some (f b c))

  unfoldable pub combine : Text → Option B → Option B → Result GraphError (Option B)
  combine op left right =
      if op == text "or"
      then both bm.or left right
      else if op == text "and"
      then both bm.and left right
      else if op == text "xor"
      then both bm.xor left right
      else err (unknown_operator op)

unfoldable mutual
  unfolding run_query combine

  pub iterate_expression :
      {B M : Type 0} ⦃bm : Bitmaps B⦄ (a : Answers B M) (e : Expression)
      → Result GraphError (Option B)
  iterate_expression a no_expression = ok none
  iterate_expression a (expression left op right) =
      let rest = iterate_expression a right in
      iterate_term a left >>= λ b. elim op [ none ↦ ok b | some o ↦ rest >>= λ c. combine o b c ]

  -- The bitmap of a nested expression is computed and dropped.
  pub iterate_term :
      {B M : Type 0} ⦃bm : Bitmaps B⦄ (a : Answers B M) (t : Term) → Result GraphError (Option B)
  iterate_term a no_term = ok none
  iterate_term a (term query inner) =
      let nested = iterate_expression a inner in
      run_optional a query >>= λ b. nested >>= λ _. ok (some b)

module _ {B : Type 0} ⦃bm : Bitmaps B⦄ where
  abbrev pub or_empty : Option B → B
  or_empty none = bm.new
  or_empty (some b) = b

module _ {B M : Type 0} ⦃bm : Bitmaps B⦄ where
  -- The loop that fills `nameToIDs`.
  unfoldable pub index_names :
      Map ℕ (Option (Node B M)) → Map Text ℕ → Result GraphError (Map Text ℕ)
  index_names [] found = ok found
  index_names ((_, none) ∷ rest) found = err nil_node
  index_names ((_, some n) ∷ rest) found = index_names rest (insert n.name n.id found)

  -- The loops that look up what to query.
  unfoldable pub resolve :
      (Text → GraphError)
      → Map Text ℕ
      → Map ℕ (Option (Node B M))
      → List PurlData
      → Result GraphError (List (Option (Node B M)))
  resolve missing name_to_ids nodes [] = ok []
  resolve missing name_to_ids nodes (found ∷ rest) = elim (lookup found.purl name_to_ids) [
    | none ↦ err (missing found.purl)
    | some id ↦ resolve missing name_to_ids nodes rest >>= λ others. ok (pointer id nodes ∷ others)
  ]

  -- `ParseAndExecute` after the parse. A nil map of caches reads like an empty one.
  unfoldable pub execute :
      Store B M
      → Text
      → Map ℕ (Option (Node B M))
      → Map ℕ (NodeCache B)
      → Bool
      → Map Text ℕ
      → Expression
      → Result GraphError B
  execute s default_name nodes caches is_cached name_to_ids e =
      let purls = collect_packages default_name e in
      resolve dependency_not_found name_to_ids nodes purls.0 >>= λ to_dependencies.
      resolve dependent_not_found name_to_ids nodes purls.1 >>= λ to_dependents.
      batch_query_dependencies s to_dependencies caches is_cached >>= λ dependencies_for_id.
      batch_query_dependents s to_dependents caches is_cached >>= λ dependents_for_id.
      iterate_expression
        (record {
          dependencies_for_id = dependencies_for_id;
          dependents_for_id = dependents_for_id;
          name_to_ids = name_to_ids;
          nodes = nodes;
          default_name = default_name;
        })
        e
      >>= λ b. ok (or_empty b)

  unfoldable pub parse_and_execute :
      (Text → Option Expression)
      → Text
      → Store B M
      → Text
      → Map ℕ (Option (Node B M))
      → Map ℕ (NodeCache B)
      → Bool
      → Result GraphError B
  parse_and_execute parse script s default_name nodes caches is_cached =
      index_names nodes [] >>= λ name_to_ids. elim (parse script) [
        | none ↦ err (parse_failed script)
        | some e ↦ execute s default_name nodes caches is_cached name_to_ids e
      ]
