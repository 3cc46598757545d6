-- ===== src/Tests/Ingest.antt =====
-- The loading of SBOMs and of OSV records.
use sapper.Base.{
  Ordering, none, nat_eq, text_eq, ℕ, ◌≡◌, refl, List, [], ◌∷◌, Option, some, Text, text, values,
  map, arith, ok,
}
use sapper.Bitmap.Listed.{listed}
use sapper.Graph.{Node}
use sapper.Graph.Storage.{get_node}
use sapper.Graph.Edit.WellFormed.{IsWellFormed}
use sapper.Ingest.Sbom.{
  NodeList, depends_on, dependency_of, other_edge, sbom, add_nodes, link_edges, link_edge,
  link_targets, link_target, link_ids, dependency_direction,
}
use sapper.Ingest.Sbom.Keeps.{sbom-IsWellFormed}
use sapper.Versions.{Semver}
use sapper.Ingest.Osv.{Vulnerability}
use sapper.Ingest.Affected.{is_package_affected, is_version_included, is_version_in_ranges}
use sapper.Ingest.Loader.{
  LibraryIndex, link_candidate, link_candidates, link_affected, vulnerabilities_with_index,
}
use sapper.Ingest.Loader.Keeps.{vulnerabilities_with_index-IsWellFormed}
use sapper.Tests.Sample.{empty_store, three_nodes, three_nodes-IsWellFormed, program}

-- Two packages, of which the first depends on the second; "dependency of" says the same once more.
abbrev document : NodeList Text
document = record {
  nodes =
      record {
        id = text "a";
        purl = text "pkg:npm/a@1";
        name = text "a";
        version = text "1";
        metadata = [];
      }
      ∷ record { id = text "b"; purl = []; name = text "b"; version = text "2"; metadata = [] }
      ∷ [];
  edges =
      record { type = depends_on; from = text "a"; to = text "b" ∷ text "missing" ∷ text "a" ∷ [] }
      ∷ record { type = dependency_of; from = text "b"; to = text "a" ∷ [] }
      ∷ record { type = other_edge; from = text "b"; to = text "a" ∷ [] }
      ∷ [];
}

abbrev parsed : Text → Option (Option (NodeList Text))
parsed _ = some (some document)

sbom_run :
    let t = (sbom parsed (text "{}") empty_store).1 in
    ((sbom parsed (text "{}") empty_store).0 ≡ ok tt)
    × (map {B = Text × List ℕ × List ℕ}
          (λ (n : Node (List ℕ) Text).
            (n.name, listed.to_array n.children, listed.to_array n.parents))
          (values t.nodes)
        ≡ (text "pkg:npm/a@1", 2 ∷ [], []) ∷ (text "pkg:b@2", [], 1 ∷ []) ∷ [])
unfolding program sbom add_nodes link_edges link_edge link_targets link_target link_ids get_node
    dependency_direction
sbom_run = (refl, refl)

sbom-IsWellFormed_example : IsWellFormed (sbom parsed (text "{}") three_nodes).1
unfolding program
sbom-IsWellFormed_example = sbom-IsWellFormed parsed (text "{}") document three_nodes refl (record {
  valid = three_nodes-IsWellFormed;
  reads = refl;
  saves = λ _. refl;
  room = omega arith;
})

-- One record, which affects the only library of the index, in the version it has.
abbrev advisory : Vulnerability
advisory = record {
  id = text "GHSA-1";
  aliases = [];
  summary = [];
  severity = [];
  affected =
      record {
        pkg = record { ecosystem = text "npm"; name = text "lib"; purl = [] };
        ranges = [];
        versions = text "1" ∷ [];
      }
      ∷ [];
  database_severity = none;
}

abbrev one_library : LibraryIndex
one_library =
    (
      text "lib",
      record {
        id = 2;
        info = record { name = text "lib"; version = text "1"; ecosystem = text "npm" };
      }
          ∷ [],
    )
    ∷ []

abbrev no_semver : Semver Text
no_semver = record { new_version = λ _. none; compare_versions = λ _ _. Ordering.eq }

-- The node 2 depends on the new node 4.
osv_run :
    let t =
      (vulnerabilities_with_index no_semver
        (λ _. some (advisory, []))
        (text "{}")
        one_library
        three_nodes).1 in
    map {B = Text × List ℕ × List ℕ}
      (λ (n : Node (List ℕ) Text). (n.name, listed.to_array n.children, listed.to_array n.parents))
      (values t.nodes)
    ≡ (text "app", [], [])
      ∷ (text "lib", 4 ∷ [], [])
      ∷ (text "v", [], [])
      ∷ (text "GHSA-1", [], 2 ∷ [])
      ∷ []
unfolding program vulnerabilities_with_index link_affected link_candidates link_candidate
    is_package_affected is_version_included is_version_in_ranges get_node
osv_run = refl

vulnerabilities_with_index-IsWellFormed_example :
    IsWellFormed
      (vulnerabilities_with_index no_semver
        (λ _. some (advisory, []))
        (text "{}")
        one_library
        three_nodes).1
unfolding program
vulnerabilities_with_index-IsWellFormed_example =
    vulnerabilities_with_index-IsWellFormed no_semver (λ _. some (advisory, [])) (text "{}")
      one_library advisory [] three_nodes refl
      (record {
        valid = three_nodes-IsWellFormed;
        reads = refl;
        saves = λ _. refl;
        room = omega arith;
      })
