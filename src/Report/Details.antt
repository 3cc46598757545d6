-- ===== src/Report/Details.antt =====
-- pkg/report/report.go: `buildFinding`. Where the Go code would dereference a nil node, or walk for
-- ever, the result is `none`.
pub mod Statements
pub mod Impact
use sapper.Base.{
  nat_eq, text_eq, ℕ, Text, text, Map, lookup, insert, Bool, false, ◌||◌, List, [], ◌∷◌, Option,
  none, some, Result, ok, err, ◌==◌, if◌then◌else◌, length, has_prefix, to_upper, filter, not,
}
use sapper.Bitmap.{Bitmaps}
use sapper.Graph.{Node, Store, GraphError}
use sapper.Graph.Storage.{get_custom_data}
use sapper.Ingest.Affected.{stable_sort}
use sapper.Ingest.Osv.{Vulnerability, Severity}
use sapper.Report.{Finding, Product}
use sapper.Report.Merge.{before, better_epss}
use sapper.Report.Walk.{Walk, walk, path_ids}

-- The decoders of what is stored, and what is read of it.
pub record Formats (M K S V : Type 0) : Type 0 where
  pub vulnerability : M → Option Vulnerability
  pub kev : Text → Option K
  pub epss : Text → Option S
  pub above : S → S → Bool
  pub vex : Text → Option V
  pub status : V → Text

-- The first CVSS vector that is not empty.
abbrev pub first_score : List Severity → Text
first_score [] = []
first_score (s ∷ rest) = let later = first_score rest in if s.score == [] then later else s.score

unfoldable pub severity_of : Vulnerability → Text
severity_of vuln = elim vuln.database_severity [
  | none ↦ first_score vuln.severity
  | some s ↦ if s == [] then first_score vuln.severity else to_upper s
]

module _ {A : Type 0} where
  -- The field of the hash and its decoding; a storage error and a missing field are the same.
  abbrev pub field_of : (Text → Option A) → Text → Result GraphError (Map Text Text) → Option A
  field_of decode key (err e) = none
  field_of decode key (ok fields) = elim (lookup key fields) [
    | none ↦ none
    | some value ↦ decode value
  ]

module _ {B M K S V : Type 0} (format : Formats M K S V) (s : Store B M) where
  abbrev pub or_kev : Option K → Text → Option K
  or_kev (some k) name = some k
  or_kev none name = field_of format.kev (text "entry") (get_custom_data s (text "kev") name)

  abbrev pub or_epss : Option S → Text → Option S
  or_epss old name =
      better_epss format.above old
        (field_of format.epss (text "score") (get_custom_data s (text "epss") name))

  -- The loop over the names that are CVEs.
  unfoldable pub attach : List Text → Option K → Option S → Option K × Option S
  attach [] kev epss = (kev, epss)
  attach (name ∷ names) kev epss =
      attach names (if has_prefix name (text "CVE-") then or_kev kev name else kev)
        (if has_prefix name (text "CVE-") then or_epss epss name else epss)

  -- `for product, raw := range data`
  abbrev pub add_statements : Map Text Text → Map Text V → Map Text V
  add_statements [] vex = vex
  add_statements ((product, raw) ∷ rest) vex =
      add_statements rest (elim (format.vex raw) [ none ↦ vex | some st ↦ insert product st vex ])

  abbrev pub add_vex : Result GraphError (Map Text Text) → Map Text V → Map Text V
  add_vex (err e) vex = vex
  add_vex (ok fields) vex = add_statements fields vex

  -- The statements about the vulnerability, by product.
  unfoldable pub collect_vex : List Text → Map Text V → Map Text V
  collect_vex [] vex = vex
  collect_vex (name ∷ names) vex =
      collect_vex names (add_vex (get_custom_data s (text "vex") name) vex)

abbrev pub with_name : Text → Option (List Text) → Option (List Text)
with_name name none = none
with_name name (some names) = some (name ∷ names)

module _ {B M : Type 0} (nodes : Map ℕ (Node B M)) where
  -- The names of the nodes; a missing node would be dereferenced.
  unfoldable pub node_names : List ℕ → Option (List Text)
  node_names [] = some []
  node_names (id ∷ ids) = elim (lookup id nodes) [
    | none ↦ none
    | some n ↦ with_name n.name (node_names ids)
  ]

abbrev pub last : Text → List Text → Text
last t [] = t
last t (u ∷ rest) = last u rest

module _ {V : Type 0} where
  -- A statement about the product, or about the vulnerable package inside it.
  unfoldable pub statement_for : Map Text V → List Text → Text → Option V
  statement_for vex path name = elim (lookup name vex) [
    | some st ↦ some st
    | none ↦ elim path [ [] ↦ none | first ∷ rest ↦ lookup (last first rest) vex ]
  ]

  abbrev pub product_of : Map Text V → Text → List Text → Product V
  product_of vex name path = record { name = name; path = path; vex = statement_for vex path name }

  abbrev pub by_name : Product V → Product V → Bool
  by_name p q = before p.name q.name

module _ {B M V : Type 0} ⦃bm : Bitmaps B⦄ where
  -- The products of the walk, in its order.
  unfoldable pub make_products :
      Map ℕ (Node B M) → ℕ → Walk → Map Text V → List ℕ → Option (List (Product V))
  unfolding node_names statement_for
  make_products nodes vuln_id w vex [] = some []
  make_products nodes vuln_id w vex (id ∷ ids) = elim (lookup id nodes) [
    | none ↦ none
    | some n ↦ elim (path_ids (length w.visited) w.next vuln_id id) [
      | none ↦ none
      | some steps ↦ elim (node_names nodes steps) [
        | none ↦ none
        | some path ↦ elim (make_products nodes vuln_id w vex ids) [
          | none ↦ none
          | some products ↦ some (product_of vex n.name path ∷ products)
        ]
      ]
    ]
  ]

module _ {M K S V : Type 0} (format : Formats M K S V) where
  abbrev pub is_suppressed : Product V → Bool
  is_suppressed p = elim p.vex [
    | none ↦ false
    | some st ↦ format.status st == text "not_affected" || format.status st == text "fixed"
  ]

  abbrev pub completed : Walk → Finding K S V → List (Product V) → Finding K S V
  completed w f products = record f {
    packages = stable_sort before w.packages;
    products = stable_sort by_name (filter (λ p. not (is_suppressed p)) products);
    suppressed = stable_sort by_name (filter is_suppressed products);
  }

module _ {B M K S V : Type 0} ⦃bm : Bitmaps B⦄ (format : Formats M K S V) where
  -- The finding before the walk.
  abbrev pub described : Store B M → Node B M → List Text → Finding K S V
  described s node names =
      let (kev, epss) = attach format s names none none in
      record {
        id = node.name;
        aliases = elim (format.vulnerability node.metadata) [ none ↦ [] | some v ↦ v.aliases ];
        summary = elim (format.vulnerability node.metadata) [ none ↦ [] | some v ↦ v.summary ];
        severity = elim (format.vulnerability node.metadata) [ none ↦ [] | some v ↦ severity_of v ];
        kev = kev;
        epss = epss;
        packages = [];
        products = [];
        suppressed = [];
      }

  unfoldable pub build_finding :
      Store B M → Map ℕ (Node B M) → Node B M → List Text → Option (Finding K S V)
  unfolding make_products
  build_finding s nodes vuln_node names = elim (walk nodes vuln_node.id) [
    | none ↦ none
    | some w ↦
        elim (make_products nodes vuln_node.id w (collect_vex format s names []) w.products) [
          | none ↦ none
          | some products ↦ some (completed format w (described s vuln_node names) products)
        ]
  ]
