-- ===== src/Tests/Services.antt =====
-- A server that takes in a library and then an advisory about it, and a leaderboard.
use sapper.Base.{
  nat_eq, text_eq, ℕ, ◌≡◌, ◌≤◌, ◌↔◌, inl, inr, ap, refl, Text, text, lookup, List, [], ◌∷◌, ◌++◌,
  Option, none, some, ok, err, Result, Ordering, if◌then◌else◌, ◌==◌, length, arith,
}
use mathlib.Core.List.{Memᴰ}
use mathlib.Core.List.Memᴰ
use sapper.Bitmap.Listed.{listed}
use sapper.Graph.{Node, GraphError, parse_failed}
use sapper.Graph.Storage.{collect, get_all_keys, get_nodes, get_node}
use sapper.Graph.Edit.Adds.{add_node-IsWellFormed}
use sapper.Versions.{Semver}
use sapper.Ingest.Osv.{Vulnerability}
use sapper.Ingest.Affected.{is_package_affected, is_version_included, is_version_in_ranges}
use sapper.Ingest.Purl.{PackageUrl, purl_to_package, get_purl_ecosystem}
use sapper.Ingest.Loader.{
  LibraryIndex, IndexedPackage, packages_named, index_nodes, build_library_index,
  vulnerabilities_with_index, link_affected, link_candidates, link_candidate,
}
use sapper.Service.{
  Service, ServiceNode, new_service, add_node_changes, invalidate_libraries, ingest_vulnerability,
  node_to_service_node,
}
use sapper.Service.Libraries.{library_at}
use sapper.Service.Steps.{
  Outside, Call, adds_node, ingests_vulnerability, Thread, Running, Steps, start, next, begins,
  changes, changes_of, AllDone, HasRoom-Keeps,
}
use sapper.Service.Fresh.{steps-library_at}
use sapper.Service.Leaderboard.{ServiceQuery, first_error, finished_queries, fill, pop_all, rank}
use sapper.Service.Leaderboard.Ranked.{rank-Shown}
use sapper.Tests.Sample.{empty_store, empty_store-IsWellFormed, app, lib, program, add, stored}

abbrev url : PackageUrl
url = record { type = text "npm"; namespace = []; name = text "lib"; version = text "1" }

abbrev from_string : Text → Option PackageUrl
from_string _ = some url

abbrev advisory : Vulnerability
advisory = record {
  id = text "GHSA-1";
  aliases = [];
  summary = [];
  severity = [];
  affected =
      record {
        pkg = record { ecosystem = text "npm"; name = text "lib"; purl = [] };
        ranges = [];
        versions = text "1" ∷ [];
      }
      ∷ [];
  database_severity = none;
}

abbrev no_semver : Semver Text
no_semver = record { new_version = λ _. none; compare_versions = λ _ _. Ordering.eq }

abbrev decode : Text → Option (Vulnerability × Text)
decode _ = some (advisory, [])

abbrev only_package : IndexedPackage
only_package = record {
  id = 1;
  info = record { name = text "lib"; version = text "1"; ecosystem = text "npm" };
}

abbrev index : LibraryIndex
index = (text "lib", only_package ∷ []) ∷ []

unfoldable serving : Unit {0}
unfolding program ingest_vulnerability build_library_index get_all_keys get_nodes get_node collect
    index_nodes purl_to_package get_purl_ecosystem vulnerabilities_with_index link_affected
    link_candidates link_candidate is_package_affected is_version_included is_version_in_ranges
    invalidate_libraries node_to_service_node first_error finished_queries fill pop_all rank
serving = tt

abbrev before : Service (List ℕ) Text
before = new_service (add (text "library") (text "pkg:npm/lib@1") empty_store)

abbrev after : Service (List ℕ) Text
after = (ingest_vulnerability no_semver from_string decode (text "{}") before).1

-- The index is kept, and the library depends on the vulnerability.
ingest_run :
    (after.libraries ≡ some index)
    × (lookup 1 after.storage.nodes
        ≡ some (record {
          metadata = [];
          children = 2 ∷ [];
          parents = [];
          type = text "library";
          name = text "pkg:npm/lib@1";
          id = 1;
        }))
unfolding serving
ingest_run = (refl, refl)

abbrev outside : Outside Text ℕ Text
outside = record {
  semver = no_semver;
  from_string = from_string;
  osv = decode;
  sbom = λ _. none;
  scorecards = λ _. none;
  hash = record { sum256 = λ t. t; sprint = λ t. t; hex = λ t. t };
  metadata = λ _. none;
  kev = λ _. none;
  epss = record {
    gunzip = λ _. none;
    rows = λ _. [];
    parse_float = λ _. none;
    encode = λ _ _ _. [];
  };
  vex = λ _. none;
  encode_vex = λ _ _. [];
  marshal = λ t. some t;
}

abbrev adding : Call Text
adding = adds_node (text "library") [] (text "pkg:npm/lib@1")

abbrev loading : Call Text
loading = ingests_vulnerability (text "{}")

abbrev done_thread : Call Text → Thread (List ℕ) Text
done_thread call = record { call = call; rest = [] }

abbrev served : Running (List ℕ) Text
served = record { service = after; threads = done_thread loading ∷ done_thread adding ∷ [] }

-- The library is added, the index is dropped, and the advisory is loaded.
run_of_two : Steps outside (record { service = new_service empty_store; threads = [] }) served
unfolding serving changes_of add_node_changes
run_of_two =
    next
      (next
        (next (next (next start (begins adding)) (changes [] [] adding _ _ refl tt))
          (changes [] [] adding _ _ refl tt))
        (begins loading))
      (changes [] (done_thread adding ∷ []) loading _ _ refl (
        HasRoom-Keeps 1 before.storage (record {
          valid =
              add_node-IsWellFormed (text "library") [] (text "pkg:npm/lib@1") empty_store refl
                (omega arith) empty_store-IsWellFormed;
          reads = refl;
          saves = λ _. refl;
          room = omega arith;
        })))

served-AllDone : AllDone outside served
served-AllDone t m = elim (Memᴰ.cases_cons m) [
  | inl e ↦ ap (λ u. u.rest) e
  | inr m' ↦ elim (Memᴰ.cases_cons m') [
    | inl e ↦ ap (λ u. u.rest) e
    | inr nowhere ↦ absurd (Memᴰ.not-nil nowhere)
  ]
]

steps-library_at_example : Memᴰ only_package (packages_named (text "lib") index) ↔ (
    (id : ℕ) × (purl : Text) × (library_at after.storage id ≡ some (1, purl))
    × (purl_to_package from_string purl ≡ some only_package.info)
    × (only_package.info.name ≡ text "lib"))
unfolding serving
steps-library_at_example =
    steps-library_at outside empty_store served run_of_two served-AllDone index refl (text "lib")
      only_package

-- The query of one node fails, and the two others have one output and two.
abbrev query_of : Node (List ℕ) Text → Result GraphError (List ℕ)
query_of n =
    if n.id == 1
    then ok (1 ∷ [])
    else if n.id == 2
    then ok (1 ∷ 2 ∷ [])
    else err (parse_failed n.name)

abbrev marshal : Text → Option Text
marshal t = some t

abbrev broken : Node (List ℕ) Text
broken = stored 3 (text "library") (text "broken") [] []

-- The error comes after the `select` and is lost.
rank_run :
    rank marshal query_of [] (app ∷ broken ∷ lib ∷ [])
    ≡ ok (
        record {
          node = record {
            id = 2;
            name = text "lib";
            type = text "library";
            metadata = [];
            dependencies = [];
            dependents = [];
          };
          output = 1 ∷ 2 ∷ [];
        }
        ∷ record {
          node = record {
            id = 1;
            name = text "app";
            type = text "library";
            metadata = [];
            dependencies = [];
            dependents = [];
          };
          output = 1 ∷ [];
        }
        ∷ [])
unfolding serving
rank_run = refl

encodes :
    (n : Node (List ℕ) Text)
    → Memᴰ n (app ∷ broken ∷ lib ∷ [])
    → (m : ServiceNode) × (node_to_service_node marshal n ≡ ok m)
unfolding node_to_service_node
encodes n m = (_, refl)

rank-Shown_example :
    (queries : List ServiceQuery) × (rank marshal query_of [] (app ∷ broken ∷ lib ∷ [])
      ≡ ok queries)
    × ((front back : List ServiceQuery) (q r : ServiceQuery)
        → queries ≡ front ++ q ∷ back
        → Memᴰ r back
        → length r.output ≤ length q.output)
    × ((r : ServiceQuery)
        → Memᴰ r queries ↔ (
            (n : Node (List ℕ) Text) × (b : List ℕ) × Memᴰ n (app ∷ broken ∷ lib ∷ [])
            × (query_of n ≡ ok b)
            × (node_to_service_node marshal n ≡ ok r.node)
            × (r.output ≡ listed.to_array b)))
unfolding first_error
rank-Shown_example = rank-Shown marshal query_of [] (app ∷ broken ∷ lib ∷ []) refl encodes
