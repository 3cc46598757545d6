-- ===== src/Script/Meaning.antt =====
-- A script with no brackets means a Boolean combination of its queries, grouped to the right, with
-- no operator before another.
use sapper.Base.{
  nat_eq, text_eq, ap, ◌∙◌, refl, sym, ℕ, Text, text, Map, lookup, ◌≡◌, Bool, true, false, not,
  ◌&&◌, ◌||◌, List, [], ◌∷◌, Option, none, some, ok, ◌==◌, if◌then◌else◌, elem, arith, nat_beq,
  nat_beq_iff,
}
use mathlib.Core.Path.{ap₂}
use sapper.Bitmap.{Bitmaps}
use sapper.Graph.{Node}
use sapper.Script.{
  Query, Expression, no_expression, expression, term, Answers, named_by, id_of, has_type, keep_type,
  run_query, combine, iterate_expression,
}

pub data Operator : Type 0 where
  or_operator and_operator xor_operator : Operator

-- Queries with operators between them.
pub data Chain : Type 0 where
  single : Query → Chain
  joined : Query → Operator → Chain → Chain

abbrev pub spelling : Operator → Text
spelling or_operator = text "or"
spelling and_operator = text "and"
spelling xor_operator = text "xor"

-- The parse tree of a chain.
abbrev pub parse_tree : Chain → Expression
parse_tree (single q) = expression (term (some q) no_expression) none no_expression
parse_tree (joined q o c) =
    expression (term (some q) no_expression) (some (spelling o)) (parse_tree c)

abbrev pub applied : Operator → Bool → Bool → Bool
applied or_operator a b = a || b
applied and_operator a b = a && b
applied xor_operator a b = if a then not b else b

module _ {B M : Type 0} (a : Answers B M) where
  -- The bitmap that a query is about, if its type is known and the batch queries answered it.
  abbrev pub answer_of : Query → Option B
  answer_of q =
      if q.query_type == text "dependencies"
      then lookup (id_of (named_by a.default_name q) a) a.dependencies_for_id
      else if q.query_type == text "dependents"
      then lookup (id_of (named_by a.default_name q) a) a.dependents_for_id
      else none

  abbrev pub AllAnswered : Chain → Type 0
  AllAnswered (single q) = (b : B) × (answer_of q ≡ some b)
  AllAnswered (joined q o c) = ((b : B) × (answer_of q ≡ some b)) × AllAnswered c

module _ {B : Type 0} ⦃bm : Bitmaps B⦄ where
  keep_cases :
      (wanted wanted' : Bool) (b : B) (id x : ℕ) (later : Bool)
      → (nat_beq id x ≡ true → wanted ≡ wanted')
      → (bm.contains (if wanted then bm.add b id else b) x || later && wanted')
        ≡ (bm.contains b x || (nat_beq id x || later) && wanted')
  keep_cases wanted wanted' b id x later same = ground (arith, bm.contains-add b id x)

  abbrev apply_to : Operator → B → B → B
  apply_to or_operator = bm.or
  apply_to and_operator = bm.and
  apply_to xor_operator = bm.xor

  contains-apply_to :
      (o : Operator) (b c : B) (x : ℕ)
      → bm.contains (apply_to o b c) x ≡ applied o (bm.contains b x) (bm.contains c x)
  contains-apply_to or_operator = bm.contains-or
  contains-apply_to and_operator = bm.contains-and
  contains-apply_to xor_operator = bm.contains-xor

  combine_lem :
      (o : Operator) (b c : B) → combine (spelling o) (some b) (some c) ≡ ok (some (apply_to o b c))
  unfolding combine
  combine_lem or_operator b c = refl
  combine_lem and_operator b c = refl
  combine_lem xor_operator b c = refl

module _ {B M : Type 0} ⦃bm : Bitmaps B⦄ where
  -- The nodes of the wanted type in the query's answer.
  abbrev pub among : Text → Map ℕ (Option (Node B M)) → Option B → ℕ → Bool
  among type nodes none x = false
  among type nodes (some b) x = bm.contains b x && has_type type nodes x

  abbrev pub selects : Answers B M → Query → ℕ → Bool
  selects a q x = among q.node_type a.nodes (answer_of a q) x

  abbrev pub meaning : Answers B M → Chain → ℕ → Bool
  meaning a (single q) x = selects a q x
  meaning a (joined q o c) x = applied o (selects a q x) (meaning a c x)

  pub contains-keep_type :
      (type : Text) (nodes : Map ℕ (Option (Node B M))) (ids : List ℕ) (b : B) (x : ℕ)
      → bm.contains (keep_type type nodes ids b) x
        ≡ (bm.contains b x || elem x ids && has_type type nodes x)
  unfolding keep_type
  contains-keep_type type nodes [] b x = ground arith
  contains-keep_type type nodes (id ∷ ids) b x =
      let later =
        contains-keep_type type nodes ids (if has_type type nodes id then bm.add b id else b) x in
      let same : nat_beq id x ≡ true → has_type type nodes id ≡ has_type type nodes x =
        λ h. ap (has_type type nodes) ((nat_beq_iff id x).0 h) in
      later ∙ keep_cases (has_type type nodes id) (has_type type nodes x) b id x (elem x ids) same

  -- What a query that was answered computes.
  pub run_query_lem :
      (a : Answers B M) (q : Query) (b : B)
      → answer_of a q ≡ some b
      → run_query a q ≡ ok (keep_type q.node_type a.nodes (bm.to_array b) bm.new)
  unfolding run_query
  run_query_lem a q b h = ground arith

  contains-run_query :
      (a : Answers B M) (q : Query) (b : B)
      → answer_of a q ≡ some b
      → (x : ℕ)
      → bm.contains (keep_type q.node_type a.nodes (bm.to_array b) bm.new) x ≡ selects a q x
  contains-run_query a q b h x =
      contains-keep_type q.node_type a.nodes (bm.to_array b) bm.new x
      ∙ (rw (bm.contains-new x, bm.elem-to_array b x)
          (sym (ap (λ o. among q.node_type a.nodes o x) h)))

  -- When every query of a bracket-free script is of a known kind and the batch queries answered it, the
  -- evaluation succeeds, and a node is in the result exactly when the Boolean combination of the
  -- queries, grouped to the right, holds of it.
  pub iterate_expression-meaning :
      (a : Answers B M) (c : Chain)
      → AllAnswered a c
      → (b : B) × (iterate_expression a (parse_tree c) ≡ ok (some b))
        × ((x : ℕ) → bm.contains b x ≡ meaning a c x)
  unfolding iterate_expression
  iterate_expression-meaning a (single q) (b, h) = (
    keep_type q.node_type a.nodes (bm.to_array b) bm.new,
    rw (run_query_lem a q b h),
    contains-run_query a q b h,
  )
  iterate_expression-meaning a (joined q o c) ((b, h), rest) =
      let (d, ends, means) = iterate_expression-meaning a c rest in
      let k = keep_type q.node_type a.nodes (bm.to_array b) bm.new in
      (
        apply_to o k d,
        rw (run_query_lem a q b h, ends) (combine_lem o k d),
        λ x. contains-apply_to o k d x ∙ ap₂ (applied o) (contains-run_query a q b h x) (means x),
      )
