-- ===== src/Report/Merge.antt =====
-- pkg/report/merge.go: `mergeAliases` and `mergeGroup`.
pub mod Products
use sapper.Base.{
  nat_eq, text_eq, ℕ, Text, text, Map, lookup, insert, keys, values, Bool, not, ◌||◌, List, [], ◌∷◌,
  ◌++◌, Option, none, some, ◌==◌, if◌then◌else◌, ltb, map, filter, elem, compare_text, has_prefix,
  to_upper,
}
use sapper.Ingest.Affected.{stable_sort, below}
use sapper.Report.{Finding, Product}
use sapper.Report.Forest.{alias_roots}

unfoldable pub id_rank : Text → ℕ
id_rank id =
    if has_prefix id (text "GHSA-") then 0 else if has_prefix id (text "CVE-") then 2 else 1

unfoldable pub severity_rank : Text → ℕ
severity_rank s =
    let t = to_upper s in
    if t == text "CRITICAL"
    then 5
    else if t == text "HIGH"
    then 4
    else if t == text "MODERATE" || t == text "MEDIUM"
    then 3
    else if t == text "LOW"
    then 2
    else if t == []
    then 0
    else 1

abbrev pub before : Text → Text → Bool
before s t = below (compare_text s t)

module _ {A : Type 0} where
  abbrev pub keep_first : Text → A → Map Text A → Map Text A
  keep_first key a m = elim (lookup key m) [ none ↦ insert key a m | some _ ↦ m ]

-- The keys of a set, sorted.
abbrev pub sorted_keys : Map Text (Unit {0}) → List Text
sorted_keys m = stable_sort before (keys m)

module _ {K S V : Type 0} where
  abbrev pub names_of : Finding K S V → List Text
  names_of f = map to_upper (f.id ∷ f.aliases)

module _ {V : Type 0} where
  abbrev pub sorted_products : Map Text (Product V) → List (Product V)
  sorted_products m = stable_sort (λ p q. before p.name q.name) (values m)

  abbrev pub add_products : List (Product V) → Map Text (Product V) → Map Text (Product V)
  add_products [] m = m
  add_products (p ∷ ps) m = add_products ps (keep_first p.name p m)

  -- `delete(products, name)` for every name in `suppressed`.
  abbrev pub without : Map Text (Product V) → Map Text (Product V) → Map Text (Product V)
  without suppressed products = filter (λ e. not (elem e.0 (keys suppressed))) products

-- What the loop over a group keeps.
pub record Merging (K S V : Type 0) : Type 0 where
  pub out : Finding K S V
  pub names : List Text
  pub aliases : List Text
  pub packages : Map Text (Unit {0})
  pub products : Map Text (Product V)
  pub suppressed : Map Text (Product V)

abbrev pub add_names : List Text → List Text → List Text → List Text × List Text
add_names [] names aliases = (names, aliases)
add_names (n ∷ rest) names aliases =
    let known = add_names rest names aliases in
    let new = add_names rest (n ∷ names) (aliases ++ n ∷ []) in if elem n names then known else new

abbrev pub add_packages : List Text → Map Text (Unit {0}) → Map Text (Unit {0})
add_packages [] m = m
add_packages (p ∷ ps) m = add_packages ps (insert p tt m)

module _ {K S V : Type 0} where
  abbrev pub finish : Merging K S V → Finding K S V
  finish m = record m.out {
    aliases = stable_sort before m.aliases;
    packages = sorted_keys m.packages;
    products = sorted_products (without m.suppressed m.products);
    suppressed = sorted_products m.suppressed;
  }

  -- Groups by root, in the order in which the roots appear.
  abbrev pub add_to_group :
      ℕ → Finding K S V → Map ℕ (List (Finding K S V)) → Map ℕ (List (Finding K S V))
  add_to_group root f groups = elim (lookup root groups) [
    | none ↦ groups ++ (root, f ∷ []) ∷ []
    | some fs ↦ insert root (fs ++ f ∷ []) groups
  ]

  unfoldable pub group_by_root :
      List ℕ → List (Finding K S V) → Map ℕ (List (Finding K S V)) → Map ℕ (List (Finding K S V))
  group_by_root (root ∷ rs) (f ∷ fs) groups = group_by_root rs fs (add_to_group root f groups)
  group_by_root _ _ groups = groups

module _ {S : Type 0} (above_score : S → S → Bool) where
  abbrev pub better_epss : Option S → Option S → Option S
  better_epss old none = old
  better_epss none (some s) = some s
  better_epss (some o) (some s) = if above_score s o then some s else some o

module _ {K S V : Type 0} (above_score : S → S → Bool) where
  unfoldable pub merge_one : Finding K S V → Merging K S V → Merging K S V
  unfolding severity_rank
  merge_one f m =
      let (names, aliases) = add_names (names_of f) m.names m.aliases in
      record {
        out = record m.out {
          summary = if m.out.summary == [] then f.summary else m.out.summary;
          severity =
              if ltb (severity_rank m.out.severity) (severity_rank f.severity)
              then f.severity
              else m.out.severity;
          kev = elim m.out.kev [ none ↦ f.kev | some k ↦ some k ];
          epss = better_epss above_score m.out.epss f.epss;
        };
        names = names;
        aliases = aliases;
        packages = add_packages f.packages m.packages;
        products = add_products f.products m.products;
        suppressed = add_products f.suppressed m.suppressed;
      }

  unfoldable pub merge_each : List (Finding K S V) → Merging K S V → Merging K S V
  unfolding merge_one
  merge_each [] m = m
  merge_each (f ∷ fs) m = merge_each fs (merge_one f m)

  abbrev pub merge_sorted : Finding K S V → List (Finding K S V) → Finding K S V
  merge_sorted first rest = finish (
      merge_each (first ∷ rest) (record {
        out = first;
        names = to_upper first.id ∷ [];
        aliases = [];
        packages = [];
        products = [];
        suppressed = [];
      }))

  -- A group is never empty.
  unfoldable pub merge_group : Finding K S V → List (Finding K S V) → Finding K S V
  unfolding merge_each id_rank
  merge_group f [] = f
  merge_group f (g ∷ rest) =
      elim (stable_sort (λ a b. ltb (id_rank a.id) (id_rank b.id)) (f ∷ g ∷ rest)) [
        | [] ↦ f
        | first ∷ others ↦ merge_sorted first others
      ]

  abbrev pub merge_members : List (Finding K S V) → List (Finding K S V)
  merge_members [] = []
  merge_members (f ∷ fs) = merge_group f fs ∷ []

  abbrev pub merge_all : Map ℕ (List (Finding K S V)) → List (Finding K S V)
  merge_all [] = []
  merge_all ((_, members) ∷ rest) = merge_members members ++ merge_all rest

module _ {K S V : Type 0} (above_score : S → S → Bool) where
  unfoldable pub merge_aliases : List (Finding K S V) → List (Finding K S V)
  unfolding alias_roots group_by_root merge_group
  merge_aliases findings =
      merge_all above_score (group_by_root (alias_roots (map names_of findings)) findings [])
