-- ===== src/Tests/Priorities.antt =====
-- The KEV catalog and the scorecards.
use sapper.Base.{
  nat_eq, text_eq, ℕ, ◌≡◌, ◌≢◌, refl, Text, text, lookup, false, true, ap, sym, inl, inr, List, [],
  ◌∷◌, Option, none, some, ok, filter,
}
use mathlib.Core.List.Memᴰ
use mathlib.Core.List.{Memᴰ}
use sapper.Bitmap.Listed.{listed}
use sapper.Graph.{Node}
use sapper.Ingest.Purl.{PackageUrl, get_purl_ecosystem}
use sapper.Ingest.Priorities.{KevEntry, kev}
use sapper.Ingest.Priorities.Stored.{entry_at, last_entry, kev-entry_at}
use sapper.Ingest.Scorecards.{ScorecardResult, group_results, results_named, score_node}
use sapper.Ingest.Scorecards.Named.{
  has_separator, is_named, group_results-filter, score_node-namespace,
}
use sapper.Tests.Sample.{empty_store, Graph}

abbrev catalog : List KevEntry
catalog =
    record { cve_id = text " cve-1"; json = some (text "a") }
    ∷ record { cve_id = []; json = some (text "b") }
    ∷ record { cve_id = text "CVE-1"; json = some (text "c") }
    ∷ []

encoded : (entry : KevEntry) → Memᴰ entry catalog → (value : Text) × (entry.json ≡ some value)
encoded entry m = elim (Memᴰ.cases_cons m) [
  | inl e ↦ (text "a", ap (λ x. x.json) e)
  | inr m' ↦ elim (Memᴰ.cases_cons m') [
    | inl e ↦ (text "b", ap (λ x. x.json) e)
    | inr m'' ↦ (text "c", ap (λ x. x.json) (Memᴰ.eq_of_singleton m''))
  ]
]

kev-entry_at_example :
    (t : Graph) × (kev (λ _. some catalog) (text "{}") empty_store ≡ ((2, ok tt), t))
    × (t.nodes ≡ empty_store.nodes)
    × ((cve : Text)
        → cve ≢ []
        → entry_at t cve ≡ elim (last_entry cve catalog) [
          | some value ↦ some value
          | none ↦ entry_at empty_store cve
        ])
kev-entry_at_example =
    kev-entry_at (λ _. some catalog) (text "{}") catalog empty_store refl refl refl encoded

-- An npm package in a scope.
abbrev scoped : PackageUrl
scoped = record { type = text "npm"; namespace = text "@x"; name = text "y"; version = text "1" }

abbrev result : ScorecardResult Text
result = record { purl = text "pkg:npm/%40x/y@1"; success = true; metadata = [] }

abbrev parser : Text → Option PackageUrl
parser _ = some scoped

abbrev scoped_node : Node (List ℕ) Text
scoped_node = record {
  metadata = [];
  children = [];
  parents = [];
  type = text "library";
  name = text "pkg:npm/%40x/y@1";
  id = 1;
}

plain :
    (r : ScorecardResult Text) (v : PackageUrl)
    → Memᴰ r (result ∷ [])
    → parser r.purl ≡ some v
    → has_separator v.name ≡ false
plain r v m e = ap (λ (u : PackageUrl). has_separator u.name) (some_inj v scoped (sym e))
  where
    some_inj : (a b : PackageUrl) → some a ≡ some b → a ≡ b
    some_inj a b e = cc

score_node-namespace_example :
    score_node parser (group_results parser (result ∷ []) []) scoped_node empty_store
    ≡ (ok tt, empty_store)
unfolding get_purl_ecosystem lookup
score_node-namespace_example =
    score_node-namespace parser (result ∷ []) scoped_node scoped empty_store refl (λ e. cc)
      (λ e. cc) (λ e. cc) plain

group_results-filter_example :
    results_named (text "y") (group_results parser (result ∷ []) [])
    ≡ filter (is_named parser (text "y")) (result ∷ [])
group_results-filter_example = group_results-filter parser (text "y") (result ∷ [])
