-- ===== src/Tests/Reports.antt =====
-- The merging of findings.
use sapper.Base.{
  any, not, ◌&&◌, lookup, insert, nat_eq, text_eq, ℕ, ◌≡◌, ◌↔◌, refl, false, List, [], ◌∷◌, none,
  Text, text, get_elem?, map, arith,
}
use sapper.Report.{Finding, Product}
use sapper.Report.Forest.{alias_roots, find, unite, claim, claim_all, claim_each, roots}
use sapper.Report.Forest.Labels.{Linked}
use sapper.Report.Forest.Classes.{alias_roots-Linked}
use sapper.Report.Merge.Products.{reaches, suppresses, merge_group-products}
use sapper.Report.Merge.{
  merge_aliases, merge_group, merge_one, merge_each, group_by_root, id_rank, severity_rank,
}

-- The first and the last are linked by a name of the third.
abbrev four_findings : List (List Text)
four_findings =
    (text "GHSA-1" ∷ text "CVE-1" ∷ [])
    ∷ (text "GO-2" ∷ [])
    ∷ (text "CVE-1" ∷ text "GO-9" ∷ [])
    ∷ (text "GO-9" ∷ [])
    ∷ []

unfoldable whole : Unit {0}
unfolding alias_roots find unite claim claim_all claim_each roots merge_aliases merge_group
    merge_one merge_each group_by_root id_rank severity_rank
whole = tt

roots_run : alias_roots four_findings ≡ 0 ∷ 1 ∷ 0 ∷ 0 ∷ []
unfolding whole lookup insert
roots_run = refl

alias_roots-Linked_example :
    (get_elem? (alias_roots four_findings) 0 ≡ get_elem? (alias_roots four_findings) 3)
    ↔ Linked four_findings 0 3
alias_roots-Linked_example = alias_roots-Linked four_findings 0 3 (omega arith) (omega arith)

abbrev finding : Text → List Text → List Text → List Text → Finding Text ℕ Text
finding id aliases products suppressed = record {
  id = id;
  aliases = aliases;
  summary = [];
  severity = text "low";
  kev = none;
  epss = none;
  packages = [];
  products = map {B = Product Text} (λ n. record { name = n; path = []; vex = none }) products;
  suppressed = map {B = Product Text} (λ n. record { name = n; path = []; vex = none }) suppressed;
}

-- The advisory names the group, and a product that one record suppresses is not reported.
merge_run :
    map {B = Text × List Text × List (Product Text)}
      (λ (f : Finding Text ℕ Text). (f.id, f.aliases, f.products))
      (merge_aliases
        (λ _ _. false)
        (finding (text "GO-1") (text "cve-1" ∷ []) (text "app" ∷ []) []
          ∷ finding (text "GHSA-1") (text "CVE-1" ∷ []) [] (text "app" ∷ [])
          ∷ []))
    ≡ (text "GHSA-1", text "CVE-1" ∷ text "GO-1" ∷ [], []) ∷ []
unfolding whole lookup insert
merge_run = refl

merge_group-products_example :
    let f = finding (text "GO-1") (text "cve-1" ∷ []) (text "app" ∷ text "web" ∷ []) [] in
    let g = finding (text "GHSA-1") (text "CVE-1" ∷ []) [] (text "app" ∷ []) in
    let r = merge_group (λ _ _. false) f (g ∷ []) in
    (reaches (text "web") r ≡ (
      any (reaches (text "web")) (f ∷ g ∷ []) && not (any (suppresses (text "web")) (f ∷ g ∷ []))))
    × (suppresses (text "web") r ≡ any (suppresses (text "web")) (f ∷ g ∷ []))
merge_group-products_example =
    merge_group-products (λ _ _. false) (text "web")
      (finding (text "GO-1") (text "cve-1" ∷ []) (text "app" ∷ text "web" ∷ []) [])
      (finding (text "GHSA-1") (text "CVE-1" ∷ []) [] (text "app" ∷ [])) []
