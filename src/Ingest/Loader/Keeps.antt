-- ===== src/Ingest/Loader/Keeps.antt =====
-- Loading an OSV record keeps the graph well formed.
use sapper.Base.{
  nat_eq, text_eq, Text, text, subst, ap, sym, ℕ, ◌+◌, ◌≡◌, lookup, not, ◌||◌, List, [], ◌∷◌,
  Option, none, some, elem, arith, length,
}
use sapper.Bitmap.{Bitmaps}
use sapper.Graph.{Store, Action, ◌>>=◌, return, throw, reading, parse_failed}
use sapper.Graph.Storage.{get_node}
use sapper.Graph.Edit.{add_node, set_dependency}
use sapper.Graph.Edit.WellFormed.{IsWellFormed}
use sapper.Graph.Edit.Loading.{
  HasRoom, HasRoom-le, add_node-HasRoom, add_node_stored, get_node_stored, set_dependency-HasRoom,
  >>=-keeps, reading-keeps, if-keeps,
}
use sapper.Versions.{Semver}
use sapper.Ingest.Osv.{Vulnerability, Affected}
use sapper.Ingest.Affected.{is_package_affected}
use sapper.Ingest.Loader.{
  LibraryIndex, IndexedPackage, packages_named, link_candidate, link_candidates, link_affected,
  vulnerabilities_with_index,
}

-- How many candidates the loops look at.
abbrev pub candidate_count : LibraryIndex → List Affected → ℕ
candidate_count idx [] = 0
candidate_count idx (a ∷ rest) = length (packages_named a.pkg.name idx) + candidate_count idx rest

module _ {V B M : Type 0} ⦃bm : Bitmaps B⦄ (sv : Semver V) (vuln : Vulnerability)
    (vuln_data : M) where
  link_candidate-HasRoom :
      (k : ℕ) (c : IndexedPackage) (s : Store B M)
      → HasRoom (k + 1) s
      → HasRoom k (link_candidate sv vuln vuln_data c s).1
  unfolding link_candidate
  link_candidate-HasRoom k c s r =
      >>=-keeps (HasRoom k) (HasRoom k) (add_node (text "vuln") vuln_data vuln.id)
        (λ v. reading (λ u. get_node u c.id) >>= λ n.
          set_dependency (some n) (some v) >>= λ _. return tt)
        s (add_node-HasRoom k (text "vuln") vuln_data vuln.id s r) (λ _ q. q)
        (λ v t e q.
          let at_v : lookup v.id t.nodes ≡ some v =
            subst (λ (u : Store B M). lookup v.id u.nodes ≡ some v) (ap (λ p. p.1) e)
              (add_node_stored (text "vuln") vuln_data vuln.id s v r.valid (ap (λ p. p.0) e)) in
          reading-keeps (HasRoom k) (λ u. get_node u c.id)
            (λ n. set_dependency (some n) (some v) >>= λ _. return tt) t q
            (λ n at_n.
              >>=-keeps (HasRoom k) (HasRoom k) (set_dependency (some n) (some v)) (λ _. return tt)
                t (set_dependency-HasRoom k t n v (get_node_stored c.id t n q.valid at_n) at_v q)
                (λ _ p. p) (λ _ _ _ p. p)))

  link_candidates-HasRoom :
      (k : ℕ) (candidates : List IndexedPackage) (seen : List ℕ) (s : Store B M)
      → HasRoom (length candidates + k) s
      → HasRoom k (link_candidates sv vuln vuln_data candidates seen s).1
  unfolding link_candidates
  link_candidates-HasRoom k [] seen s r =
      HasRoom-le k (length {A = IndexedPackage} [] + k) s (omega arith) r
  link_candidates-HasRoom k (c ∷ rest) seen s r =
      if-keeps (HasRoom k) (elem c.id seen || not (is_package_affected sv vuln c.info))
        (link_candidates sv vuln vuln_data rest seen)
        (link_candidate sv vuln vuln_data c >>= λ _.
          link_candidates sv vuln vuln_data rest (c.id ∷ seen))
        s
        (link_candidates-HasRoom k rest seen s
          (HasRoom-le (length rest + k) (length (c ∷ rest) + k) s (omega arith) r))
        (>>=-keeps (HasRoom (length rest + k)) (HasRoom k) (link_candidate sv vuln vuln_data c)
          (λ _. link_candidates sv vuln vuln_data rest (c.id ∷ seen)) s
          (link_candidate-HasRoom (length rest + k) c s
            (HasRoom-le (length rest + k + 1) (length (c ∷ rest) + k) s (omega arith) r))
          (λ t q. HasRoom-le k (length rest + k) t (omega arith) q)
          (λ _ t _ q. link_candidates-HasRoom k rest (c.id ∷ seen) t q))

  link_affected-HasRoom :
      (idx : LibraryIndex) (affected : List Affected) (seen : List ℕ) (s : Store B M)
      → HasRoom (candidate_count idx affected) s
      → HasRoom 0 (link_affected sv vuln vuln_data idx affected seen s).1
  unfolding link_affected
  link_affected-HasRoom idx [] seen s r = r
  link_affected-HasRoom idx (a ∷ rest) seen s r =
      >>=-keeps (HasRoom (candidate_count idx rest)) (HasRoom 0)
        (link_candidates sv vuln vuln_data (packages_named a.pkg.name idx) seen)
        (λ later. link_affected sv vuln vuln_data idx rest later) s
        (link_candidates-HasRoom (candidate_count idx rest) (packages_named a.pkg.name idx) seen s
          r)
        (λ t q. HasRoom-le 0 (candidate_count idx rest) t (omega arith) q)
        (λ later t _ q. link_affected-HasRoom idx rest later t q)

module _ {V B M : Type 0} ⦃bm : Bitmaps B⦄ (sv : Semver V)
    (decode : Text → Option (Vulnerability × M)) where
  abbrev record_at : Text → LibraryIndex → Option (Vulnerability × M) → Action B M (Unit {0})
  record_at source idx x = elim x [
    | none ↦ throw (parse_failed source)
    | some (vuln, vuln_data) ↦
        link_affected sv vuln vuln_data idx vuln.affected [] >>= λ _. return tt
  ]

  -- Loading a record that can be decoded, with any index, into a well-formed storage keeps it well
  -- formed, also where another call fails and the loading stops early, when no `SaveNode` fails, names
  -- can be looked up, and one ID per candidate is left.
  pub vulnerabilities_with_index-IsWellFormed :
      (source : Text) (idx : LibraryIndex) (vuln : Vulnerability) (vuln_data : M) (s : Store B M)
      → decode source ≡ some (vuln, vuln_data)
      → HasRoom (candidate_count idx vuln.affected) s
      → IsWellFormed (vulnerabilities_with_index sv decode source idx s).1
  unfolding vulnerabilities_with_index
  vulnerabilities_with_index-IsWellFormed [] idx vuln vuln_data s e r = r.valid
  vulnerabilities_with_index-IsWellFormed (c ∷ cs) idx vuln vuln_data s e r =
      subst (λ x. IsWellFormed (record_at (c ∷ cs) idx x s).1) (sym e)
        (>>=-keeps (HasRoom 0) (HasRoom 0) (link_affected sv vuln vuln_data idx vuln.affected [])
          (λ _. return tt) s (link_affected-HasRoom sv vuln vuln_data idx vuln.affected [] s r)
          (λ _ q. q) (λ _ _ _ q. q)).valid
