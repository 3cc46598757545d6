-- ===== src/Report/Forest/Classes.antt =====
-- The roots of `mergeAliases` are the classes of the linked findings.
use sapper.Base.{
  ◌↔◌, get_elem?, nat_eq, text_eq, ℕ, zero, suc, ◌+◌, ◌<◌, ◌≤◌, ◌≡◌, refl, sym, ◌∙◌, ap, subst,
  Text, lookup, List, [], ◌∷◌, some, length, arith,
}
use sapper.Report.Forest.{Parents, Forest, find, claim_each, roots, name_count, alias_roots}
use sapper.Report.Forest.Chains.{Leads-le, Represents, find_lem}
use sapper.Report.Forest.Labels.{
  names_at, Linked, share, same, back, through, Agrees, SeesAll, claim_each_lem,
}

roots_lem :
    (limit d i : ℕ) (rest : List (List Text)) (p : Parents) (label : ℕ → ℕ) (k : ℕ)
    → d ≤ limit
    → Represents p d label
    → k < length rest
    → get_elem? (roots (suc limit) i rest p) k ≡ some (label (i + k))
unfolding roots
roots_lem limit d i [] p label k h rep room = absurd (omega (arith, room))
roots_lem limit d i (names ∷ rest) p label zero h rep room =
    let (ends, _) = find_lem limit p i (label i) (Leads-le p d limit i (label i) h (rep i)) in
    let i_0 : i ≡ i + 0 = omega arith in ap (λ (n : ℕ). some n) (ends ∙ ap label i_0)
roots_lem limit d i (names ∷ rest) p label (suc k) h rep room =
    let (_, keeps) = find_lem limit p i (label i) (Leads-le p d limit i (label i) h (rep i)) in
    let next : i + 1 + k ≡ i + suc k = omega arith in
    roots_lem limit d (i + 1) rest (find (suc limit) i p).1 label k h
      (λ m. keeps d m (label m) (rep m)) (omega (arith, room))
    ∙ ap (λ (n : ℕ). some (label n)) next

some_injective : (i j : ℕ) → some i ≡ some j → i ≡ j
some_injective i j h = cc

module _ (all : List (List Text)) (f : Forest) (label : ℕ → ℕ)
    (seen : (k : ℕ) → SeesAll all f label k (names_at all k)) where
  Linked-label : (a b : ℕ) → Linked all a b → label a ≡ label b
  Linked-label a b (share _ _ name x y) =
      let (i, at, e) = seen a name x in
      let (j, at', e') = seen b name y in e ∙ ap label (some_injective i j (sym at ∙ at')) ∙ sym e'
  Linked-label a b (same _) = refl
  Linked-label a b (back x y l) = sym (Linked-label x y l)
  Linked-label a b (through x y z l m) = Linked-label x y l ∙ Linked-label y z m

abbrev start : Forest
start = record { parent = []; owner = [] }

start-Agrees : (all : List (List Text)) → Agrees all 0 start (λ k. k)
unfolding lookup
start-Agrees all = record {
  represents = λ k. (refl, refl);
  sound = λ a b e. subst (λ x. Linked all a x) e (same a);
  owned = λ name j e. cc;
}

-- The fuel is enough, and two findings get the same root exactly when a chain of shared names links
-- them; the findings are given by their names, in upper case.
pub alias_roots-Linked :
    (all : List (List Text)) (a b : ℕ)
    → a < length all
    → b < length all
    → (get_elem? (alias_roots all) a ≡ get_elem? (alias_roots all) b) ↔ Linked all a b
unfolding alias_roots
alias_roots-Linked all a b in_a in_b =
    let limit = name_count all in
    let (label, found, _, seen) =
      claim_each_lem all limit 0 0 all start (λ k. k) (omega arith)
        (λ k. ap (names_at all) (omega arith)) (start-Agrees all) in
    let f = claim_each (suc limit) 0 all start in
    let at : (k : ℕ) → k < length all → get_elem? (alias_roots all) k ≡ some (label (0 + k)) =
      λ k h. roots_lem limit (0 + limit) 0 all f.parent label k (omega arith) found.represents h in
    let seen' : (k : ℕ) → SeesAll all f label k (names_at all k) =
      λ k. subst (λ m. SeesAll all f label m (names_at all k)) (omega arith) (seen k) in
    (
      λ e. found.sound a b (
          ap label (omega arith)
          ∙ some_injective (label (0 + a)) (label (0 + b)) (sym (at a in_a) ∙ e ∙ at b in_b)
          ∙ ap label (omega arith)),
      λ l.
          at a in_a
          ∙ ap (λ (n : ℕ). some (label n)) (omega arith)
          ∙ ap (λ (n : ℕ). some n) (Linked-label all f label seen' a b l)
          ∙ ap (λ (n : ℕ). some (label n)) (omega arith)
          ∙ sym (at b in_b),
    )
