-- ===== src/Ingest/Priorities.antt =====
-- pkg/tools/ingest/prioritize.go: KEV entries, EPSS scores and VEX statements, as custom data beside
-- the graph. The JSON coder, base64, gzip and the reader of CSV are parameters.
pub mod Stored
use sapper.Base.{
  nat_eq, text_eq, ℕ, suc, ◌+◌, Text, text, Map, lookup, insert, values, Bool, true, false, not,
  ◌&&◌, ◌||◌, List, [], ◌∷◌, ◌++◌, Option, none, some, Result, ok, err, ◌==◌, if◌then◌else◌, elem,
  leb, has_prefix, map, to_upper, to_lower, trim_space, get_elem?, length, max,
}
use sapper.Base.{◌>>=◌ as ◌|>=◌}
use sapper.Graph.{Node, Store, Action, GraphError, ◌>>=◌, return, throw, reading, parse_failed}
use sapper.Graph.Storage.{get_all_keys, get_nodes, add_or_update_custom_data}
use sapper.Ingest.Osv.{Vulnerability}

-- What a node's metadata can be: bytes, a string, nil, or another value with its JSON, if it has one.
pub data Metadata : Type 0 where
  bytes string : Text → Metadata
  missing : Metadata
  other : Option Text → Metadata

module _ (base64 : Text → Option Text) (unmarshal : Text → Option Vulnerability) where
  abbrev pub raw_of : Metadata → Option Text
  raw_of (bytes m) = some m
  raw_of (string m) = elim (base64 m) [ none ↦ some m | some decoded ↦ some decoded ]
  raw_of missing = none
  raw_of (other json) = json

  unfoldable pub decode_vulnerability : Metadata → Option Vulnerability
  decode_vulnerability metadata = elim (raw_of metadata) [ none ↦ none | some raw ↦ unmarshal raw ]

-- `cves[name] = true` for the names that are CVEs.
abbrev pub add_cves : List Text → Map Text (Unit {0}) → Map Text (Unit {0})
add_cves [] cves = cves
add_cves (name ∷ names) cves =
    add_cves names (if has_prefix name (text "CVE-") then insert name tt cves else cves)

abbrev pub cve_of : Text → Text
cve_of id = to_upper (trim_space id)

module _ {B M : Type 0} (decode : M → Option Vulnerability) where
  unfoldable pub vulnerability_names : Node B M → List Text
  vulnerability_names node = elim (decode node.metadata) [
    | none ↦ to_upper node.name ∷ []
    | some vuln ↦ to_upper node.name ∷ map to_upper vuln.aliases
  ]

  -- The loop over the nodes.
  unfoldable pub collect_cves : Map ℕ (Node B M) → Map Text (Unit {0}) → Map Text (Unit {0})
  unfolding vulnerability_names
  collect_cves [] cves = cves
  collect_cves ((_, node) ∷ nodes) cves =
      collect_cves nodes
        (if node.type == text "vuln" then add_cves (vulnerability_names node) cves else cves)

  unfoldable pub cves_in_graph : Store B M → Result GraphError (Map Text (Unit {0}))
  cves_in_graph s =
      get_all_keys s |>= λ keys. get_nodes s keys |>= λ nodes. ok (collect_cves nodes [])

-- `KEVEntry`, as far as the program reads it.
pub record KevEntry : Type 0 where
  pub cve_id : Text
  -- The JSON of the entry; `none` if it cannot be encoded.
  pub json : Option Text

-- A result with the number of entries that were stored, also beside an error.
abbrev pub Counted : Type 0 → Type 0 → Type 0
Counted B M = Store B M → (ℕ × Result GraphError (Unit {0})) × Store B M

module _ {B M : Type 0} where
  -- Stores one value and goes on with the count one higher, or stops.
  abbrev pub storing : Action B M (Unit {0}) → ℕ → (ℕ → Counted B M) → Counted B M
  storing save stored next s =
      let (r, t) = save s in elim r [ err e ↦ ((stored, err e), t) | ok _ ↦ next (suc stored) t ]

  -- The loop of `KEV`.
  unfoldable pub store_kev : List KevEntry → ℕ → Counted B M
  store_kev [] stored s = ((stored, ok tt), s)
  store_kev (entry ∷ rest) stored s =
      let skipped = store_kev rest stored s in
      if cve_of entry.cve_id == [] then skipped else elim entry.json [
        | none ↦ ((stored, err (parse_failed entry.cve_id)), s)
        | some value ↦
            storing
              (add_or_update_custom_data (text "kev") (cve_of entry.cve_id) (text "entry") value)
              stored (store_kev rest) s
      ]

  unfoldable pub kev : (Text → Option (List KevEntry)) → Text → Counted B M
  unfolding store_kev
  kev parse source s = elim (parse source) [
    | none ↦ ((0, err (parse_failed source)), s)
    | some entries ↦ store_kev entries 0 s
  ]
