-- ===== src/Service/Loads.antt =====
-- The loaders, by what they do to the libraries.
use sapper.Base.{
  nat_eq, text_eq, refl, ap, subst, ◌≡◌, ℕ, suc, ◌+◌, Text, text, Bool, true, false, not, ◌||◌,
  List, [], ◌∷◌, Option, none, some, elem, length, arith, text_beq,
}
use sapper.Bitmap.{Bitmaps}
use sapper.Graph.{Store, Action, ◌>>=◌, return, throw, reading, parse_failed}
use sapper.Graph.Storage.{get_node}
use sapper.Graph.Edit.{add_node, set_dependency}
use sapper.Graph.Edit.Loading.{>>=-keeps, reading-keeps, if-keeps}
use sapper.Versions.{Semver}
use sapper.Ingest.Osv.{Vulnerability, Affected}
use sapper.Ingest.Affected.{is_package_affected}
use sapper.Ingest.Loader.{
  LibraryIndex, IndexedPackage, packages_named, link_candidate, link_candidates, link_affected,
  vulnerabilities_with_index,
}
use sapper.Ingest.Loader.Keeps.{candidate_count}
use sapper.Service.Libraries.{
  Keeps, Known, Keeps-le, get_node-Known, add_node-Keeps, add_node-Known, set_dependency-Keeps,
}

module _ {B M : Type 0} ⦃bm : Bitmaps B⦄ (watched : Bool) (s : Store B M) where
  -- A node is added, another one is read, and an edge leads from it to the first.
  pub add_link-Keeps :
      (k id : ℕ) (type : Text) (metadata : M) (name : Text) (t : Store B M)
      → (watched ≡ true → text_beq type (text "library") ≡ false)
      → Keeps watched (suc k) s t
      → Keeps watched k s
          ((add_node type metadata name >>= λ v. reading (λ u. get_node u id) >>= λ n.
              set_dependency (some n) (some v) >>= λ _. return tt)
            t).1
  add_link-Keeps k id type metadata name t other h =
      let added = add_node-Keeps watched s k type metadata name t other h in
      >>=-keeps (Keeps watched k s) (Keeps watched k s) (add_node type metadata name)
        (λ v.
          reading (λ u. get_node u id) >>= λ n. set_dependency (some n) (some v) >>= λ _. return tt)
        t added (λ _ q. q)
        (λ v u e q.
          let known_v : Known u v =
            subst (λ (w : Store B M). Known w v) (ap (λ p. p.1) e)
              (add_node-Known watched s k type metadata name t v added h (ap (λ p. p.0) e)) in
          reading-keeps (Keeps watched k s) (λ w. get_node w id)
            (λ n. set_dependency (some n) (some v) >>= λ _. return tt) u q
            (λ n at_n.
              >>=-keeps (Keeps watched k s) (Keeps watched k s) (set_dependency (some n) (some v))
                (λ _. return tt) u
                (set_dependency-Keeps watched s k u n v (get_node-Known watched s k id u n q at_n)
                  known_v q)
                (λ _ p. p) (λ _ _ _ p. p)))

module _ {V B M : Type 0} ⦃bm : Bitmaps B⦄ (sv : Semver V) (s : Store B M) (vuln : Vulnerability)
    (vuln_data : M) where
  link_candidates-Keeps :
      (k : ℕ) (candidates : List IndexedPackage) (seen : List ℕ) (t : Store B M)
      → Keeps true (length candidates + k) s t
      → Keeps true k s (link_candidates sv vuln vuln_data candidates seen t).1
  unfolding link_candidates link_candidate
  link_candidates-Keeps k [] seen t h =
      Keeps-le true s k (length {A = IndexedPackage} [] + k) t (omega arith) h
  link_candidates-Keeps k (c ∷ rest) seen t h =
      if-keeps (Keeps true k s) (elem c.id seen || not (is_package_affected sv vuln c.info))
        (link_candidates sv vuln vuln_data rest seen)
        (link_candidate sv vuln vuln_data c >>= λ _.
          link_candidates sv vuln vuln_data rest (c.id ∷ seen))
        t
        (link_candidates-Keeps k rest seen t
          (Keeps-le true s (length rest + k) (length (c ∷ rest) + k) t (omega arith) h))
        (>>=-keeps (Keeps true (length rest + k) s) (Keeps true k s)
          (link_candidate sv vuln vuln_data c)
          (λ _. link_candidates sv vuln vuln_data rest (c.id ∷ seen)) t
          (add_link-Keeps true s (length rest + k) c.id (text "vuln") vuln_data vuln.id t
            (λ _. refl)
            (Keeps-le true s (suc (length rest + k)) (length (c ∷ rest) + k) t (omega arith) h))
          (λ u q. Keeps-le true s k (length rest + k) u (omega arith) q)
          (λ _ u _ q. link_candidates-Keeps k rest (c.id ∷ seen) u q))

  link_affected-Keeps :
      (idx : LibraryIndex) (affected : List Affected) (seen : List ℕ) (t : Store B M)
      → Keeps true (candidate_count idx affected) s t
      → Keeps true 0 s (link_affected sv vuln vuln_data idx affected seen t).1
  unfolding link_affected
  link_affected-Keeps idx [] seen t h = h
  link_affected-Keeps idx (a ∷ rest) seen t h =
      >>=-keeps (Keeps true (candidate_count idx rest) s) (Keeps true 0 s)
        (link_candidates sv vuln vuln_data (packages_named a.pkg.name idx) seen)
        (λ later. link_affected sv vuln vuln_data idx rest later) t
        (link_candidates-Keeps (candidate_count idx rest) (packages_named a.pkg.name idx) seen t h)
        (λ u q. Keeps-le true s 0 (candidate_count idx rest) u (omega arith) q)
        (λ later u _ q. link_affected-Keeps idx rest later u q)

module _ {M : Type 0} where
  -- How many candidates the record has, if it is one.
  abbrev pub record_count : LibraryIndex → Option (Vulnerability × M) → ℕ
  record_count idx none = 0
  record_count idx (some (vuln, vuln_data)) = candidate_count idx vuln.affected

module _ {V B M : Type 0} ⦃bm : Bitmaps B⦄ (sv : Semver V)
    (decode : Text → Option (Vulnerability × M)) where
  abbrev loads : Text → LibraryIndex → Option (Vulnerability × M) → Action B M (Unit {0})
  loads source idx x = elim x [
    | none ↦ throw (parse_failed source)
    | some (vuln, vuln_data) ↦
        link_affected sv vuln vuln_data idx vuln.affected [] >>= λ _. return tt
  ]

  -- Loading an OSV record changes no library.
  pub vulnerabilities_with_index-Keeps :
      (source : Text) (idx : LibraryIndex) (s t : Store B M)
      → Keeps true (record_count idx (decode source)) s t
      → Keeps true 0 s (vulnerabilities_with_index sv decode source idx t).1
  unfolding vulnerabilities_with_index
  vulnerabilities_with_index-Keeps [] idx s t h =
      Keeps-le true s 0 (record_count idx (decode [])) t (omega arith) h
  vulnerabilities_with_index-Keeps (c ∷ cs) idx s t h = at (decode (c ∷ cs)) h
    where
      at :
          (x : Option (Vulnerability × M))
          → Keeps true (record_count idx x) s t
          → Keeps true 0 s (loads (c ∷ cs) idx x t).1
      at none h = h
      at (some (vuln, vuln_data)) h =
          >>=-keeps (Keeps true 0 s) (Keeps true 0 s)
            (link_affected sv vuln vuln_data idx vuln.affected []) (λ _. return tt) t
            (link_affected-Keeps sv s vuln vuln_data idx vuln.affected [] t h) (λ _ q. q)
            (λ _ _ _ q. q)
