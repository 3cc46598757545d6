-- ===== src/Script/Groups.antt =====
-- Brackets, and operators with nothing to their right.
use sapper.Base.{ℕ, ◌≡◌, false, none, some, ok, err}
use sapper.Bitmap.{Bitmaps}
use sapper.Graph.{nil_dereference}
use sapper.Script.{
  Expression, no_expression, expression, term, Answers, Query, combine, iterate_expression,
}
use sapper.Script.Meaning.{
  Chain, Operator, or_operator, and_operator, xor_operator, spelling, parse_tree, AllAnswered,
  answer_of, iterate_expression-meaning, run_query_lem,
}

-- The parse tree of `(e)` and of `[e]`.
abbrev pub bracketed : Expression → Expression
bracketed e = expression (term none e) none no_expression

module _ {B M : Type 0} ⦃bm : Bitmaps B⦄ (a : Answers B M) where
  -- A script in brackets is evaluated and its result is dropped: nothing is in the answer, whatever
  -- the script without the brackets selects.
  pub iterate_expression-bracketed :
      (c : Chain)
      → AllAnswered a c
      → (b : B) × (iterate_expression a (bracketed (parse_tree c)) ≡ ok (some b))
        × ((x : ℕ) → bm.contains b x ≡ false)
  unfolding iterate_expression
  iterate_expression-bracketed c h =
      let (b, ends, _) = iterate_expression-meaning a c h in (bm.new, rw ends, bm.contains-new)

  -- An operator with no operand to its right, which the grammar allows, dereferences a nil bitmap.
  pub iterate_expression-dangling :
      (q : Query) (o : Operator) (b : B)
      → answer_of a q ≡ some b
      → iterate_expression a
          (expression (term (some q) no_expression) (some (spelling o)) no_expression)
        ≡ err nil_dereference
  unfolding iterate_expression combine
  iterate_expression-dangling q or_operator b h = rw (run_query_lem a q b h)
  iterate_expression-dangling q and_operator b h = rw (run_query_lem a q b h)
  iterate_expression-dangling q xor_operator b h = rw (run_query_lem a q b h)
