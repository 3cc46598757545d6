-- ===== src/Ingest/Loader.antt =====
-- pkg/tools/ingest/vuln.go: the index of libraries, and the loading of OSV records. The decoding of
-- the JSON text is a parameter, and so is the metadata that its re-encoding gives.
pub mod Keeps
use sapper.Base.{
  nat_eq, text_eq, ℕ, Text, text, Map, lookup, insert, Bool, not, ◌&&◌, ◌||◌, List, [], ◌∷◌, ◌++◌,
  Option, none, some, Result, ok, ◌==◌, if◌then◌else◌, elem, has_prefix,
}
use sapper.Base.{◌>>=◌ as ◌|>=◌}
use sapper.Bitmap.{Bitmaps}
use sapper.Graph.{Node, Store, Action, GraphError, ◌>>=◌, return, throw, reading, parse_failed}
use sapper.Graph.Storage.{get_all_keys, get_nodes, get_node}
use sapper.Graph.Edit.{add_node, set_dependency}
use sapper.Versions.{Semver}
use sapper.Ingest.Osv.{Vulnerability, Affected, PackageInfo}
use sapper.Ingest.Affected.{is_package_affected}
use sapper.Ingest.Purl.{PackageUrl, purl_to_package}

pub record IndexedPackage : Type 0 where
  pub id : ℕ
  pub info : PackageInfo

abbrev pub LibraryIndex : Type 0
LibraryIndex = Map Text (List IndexedPackage)

abbrev pub packages_named : Text → LibraryIndex → List IndexedPackage
packages_named name idx = elim (lookup name idx) [ none ↦ [] | some packages ↦ packages ]

module _ {B M : Type 0} (from_string : Text → Option PackageUrl) where
  abbrev pub is_indexed : Node B M → Bool
  is_indexed n = n.type == text "library" && has_prefix n.name (text "pkg:")

  abbrev indexed : Node B M → LibraryIndex → LibraryIndex
  indexed n idx = elim (purl_to_package from_string n.name) [
    | none ↦ idx
    | some info ↦
        insert info.name (packages_named info.name idx ++ record { id = n.id; info = info } ∷ [])
          idx
  ]

  -- The loop over the nodes.
  unfoldable pub index_nodes : Map ℕ (Node B M) → LibraryIndex → LibraryIndex
  unfolding purl_to_package
  index_nodes [] idx = idx
  index_nodes ((_, n) ∷ rest) idx = index_nodes rest (if is_indexed n then indexed n idx else idx)

  unfoldable pub build_library_index : Store B M → Result GraphError LibraryIndex
  build_library_index s =
      get_all_keys s |>= λ ids. get_nodes s ids |>= λ nodes. ok (index_nodes nodes [])

module _ {V B M : Type 0} ⦃bm : Bitmaps B⦄ (sv : Semver V) (vuln : Vulnerability)
    (vuln_data : M) where
  -- The edge from one affected library to the vulnerability, whose node is added first.
  unfoldable pub link_candidate : IndexedPackage → Action B M (Unit {0})
  link_candidate candidate = add_node (text "vuln") vuln_data vuln.id >>= λ vuln_node.
      reading (λ s. get_node s candidate.id) >>= λ node.
      set_dependency (some node) (some vuln_node) >>= λ _. return tt

  -- The inner loop; its result is `seen` after it.
  unfoldable pub link_candidates : List IndexedPackage → List ℕ → Action B M (List ℕ)
  link_candidates [] seen = return seen
  link_candidates (candidate ∷ rest) seen =
      let skip = link_candidates rest seen in
      let link = link_candidate candidate >>= λ _. link_candidates rest (candidate.id ∷ seen) in
      if elem candidate.id seen || not (is_package_affected sv vuln candidate.info)
      then skip
      else link

  -- The loop over the affected packages.
  unfoldable pub link_affected : LibraryIndex → List Affected → List ℕ → Action B M (List ℕ)
  link_affected idx [] seen = return seen
  link_affected idx (a ∷ rest) seen =
      link_candidates (packages_named a.pkg.name idx) seen >>= λ seen'. link_affected idx rest seen'

module _ {V B M : Type 0} ⦃bm : Bitmaps B⦄ (sv : Semver V)
    (decode : Text → Option (Vulnerability × M)) where
  unfoldable pub vulnerabilities_with_index : Text → LibraryIndex → Action B M (Unit {0})
  vulnerabilities_with_index [] idx = throw (parse_failed [])
  vulnerabilities_with_index (c ∷ cs) idx = elim (decode (c ∷ cs)) [
    | none ↦ throw (parse_failed (c ∷ cs))
    | some (vuln, vuln_data) ↦
        link_affected sv vuln vuln_data idx vuln.affected [] >>= λ _. return tt
  ]

  unfoldable pub vulnerabilities : (Text → Option PackageUrl) → Text → Action B M (Unit {0})
  vulnerabilities from_string source =
      reading (build_library_index from_string) >>= λ idx. vulnerabilities_with_index source idx
