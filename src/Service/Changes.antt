-- ===== src/Service/Changes.antt =====
-- What each request does to the cached index of libraries.
use sapper.Base.{
  nat_eq, text_eq, refl, sym, ap, subst, ◌∙◌, ◌≡◌, ◌≢◌, ◌⊎◌, inl, inr, ℕ, Text, Map, lookup, true,
  List, [], ◌∷◌, Option, none, some, Result, ok, err,
}
use sapper.Bitmap.{Bitmaps}
use sapper.Graph.{Node, Store, GraphError}
use sapper.Cache.{cache}
use sapper.Cache.Outcome.{cache-Outcome}
use sapper.Ingest.Loader.{LibraryIndex, build_library_index, vulnerabilities_with_index}
use sapper.Ingest.Scorecards.{scorecards}
use sapper.Ingest.Priorities.{kev}
use sapper.Ingest.Epss.{epss}
use sapper.Ingest.Vex.{vex}
use sapper.Ingest.Sbom.{sbom}
use sapper.Graph.Edit.{add_node}
use sapper.Graph.Storage.{remove_all_caches}
use sapper.Service.{
  add_node_request, ingest_sbom, Service, on_storage, invalidate_libraries, add_node_changes,
  ingest_sbom_changes, set_dependency_request, ingest_vulnerability, ingest_scorecard, clear,
  ingest_data,
}
use sapper.Service.Libraries.{Keeps, library_at, library_in}
use sapper.Service.Loads.{record_count, vulnerabilities_with_index-Keeps}
use sapper.Service.Scores.{scorecards-Keeps}
use sapper.Service.Index.{Packaged}
use sapper.Service.Built.{IsFresh, build_library_index-IsFresh}
use sapper.Service.Unchanged.{
  remove_all_caches-SameNodes, kev-SameNodes, epss-SameNodes, vex-SameNodes,
}
use sapper.Service.Steps.{
  handled, Outside, Call, adds_node, sets_dependency, caches, clears, ingests_sbom,
  ingests_vulnerability, ingests_scorecard, ingests_kev, ingests_epss, ingests_vex, changes_of,
  Ready, candidates_of, set_dependency_request-Keeps, set_dependency_request-libraries,
}

module _ {A : Type 0} where
  pub cons-head : (x y : A) (xs ys : List A) → x ∷ xs ≡ y ∷ ys → x ≡ y
  cons-head x y xs ys e = cc

  pub cons-tail : (x y : A) (xs ys : List A) → x ∷ xs ≡ y ∷ ys → xs ≡ ys
  cons-tail x y xs ys e = cc

  pub cons_ne : (x : A) (xs : List A) → x ∷ xs ≢ []
  cons_ne x xs e = cc

module _ {V F B M : Type 0} ⦃bm : Bitmaps B⦄ (o : Outside V F M) where
  abbrev pub Fresh : Service B M → Type 0
  Fresh v = (idx : LibraryIndex) → v.libraries ≡ some idx → IsFresh o.from_string idx v.storage

  same-IsFresh :
      (idx : LibraryIndex) (s t : Store B M)
      → ((id : ℕ) → library_at t id ≡ library_at s id)
      → IsFresh o.from_string idx s
      → IsFresh o.from_string idx t
  same-IsFresh idx s t same h name p =
      let (to, from) = h name p in
      (
        λ m.
            let (id, found) = to m in
            (id, subst (λ x. Packaged o.from_string name p x) (sym (same id)) found),
        λ (id, found). from (id, subst (λ x. Packaged o.from_string name p x) (same id) found),
      )

  ingest_vulnerability-Fresh :
      (source : Text) (s : Store B M) (libraries : Option LibraryIndex)
      → let v : Service B M = record { storage = s; libraries = libraries } in
        Keeps true (candidates_of {F = F} o source s libraries) s s
        → Fresh v
        → Fresh (ingest_vulnerability o.semver o.from_string o.osv source v).1
  unfolding ingest_vulnerability
  ingest_vulnerability-Fresh source s (some idx) h fresh = λ other e.
      same-IsFresh other s (vulnerabilities_with_index o.semver o.osv source idx s).1
        (Keeps.same (vulnerabilities_with_index-Keeps o.semver o.osv source idx s s h) refl)
        (fresh other e)
  ingest_vulnerability-Fresh source s none h fresh =
      indexed (build_library_index o.from_string s) refl h
    where
      v : Service B M
      v = record { storage = s; libraries = none }

      count : Result GraphError LibraryIndex → ℕ
      count x = elim x [ err e ↦ 0 | ok idx ↦ record_count idx (o.osv source) ]

      outcome : Result GraphError LibraryIndex → Result GraphError (Unit {0}) × Service B M
      outcome x = elim x [
        | err e ↦ (err e, v)
        | ok idx ↦
            on_storage (vulnerabilities_with_index o.semver o.osv source idx)
              (record v { libraries = some idx })
      ]

      after : Result GraphError LibraryIndex → Service B M
      after x = (outcome x).1

      some_inj : (a b : LibraryIndex) → some a ≡ some b → a ≡ b
      some_inj a b e = cc

      indexed :
          (x : Result GraphError LibraryIndex)
          → build_library_index o.from_string s ≡ x
          → Keeps true (count x) s s
          → Fresh (after x)
      indexed (err x) e h other f = absurd cc
      indexed (ok idx) e h other f =
          same-IsFresh other s (vulnerabilities_with_index o.semver o.osv source idx s).1
            (Keeps.same (vulnerabilities_with_index-Keeps o.semver o.osv source idx s s h) refl)
            (subst (λ i. IsFresh o.from_string i s) (some_inj idx other f)
              (build_library_index-IsFresh o.from_string s idx e))

  -- A request that keeps the nodes and the index.
  nodes-Fresh :
      (v : Service B M) (t : Store B M)
      → t.nodes ≡ v.storage.nodes
      → Fresh v
      → Fresh (record v { storage = t })
  nodes-Fresh v t same fresh idx f =
      same-IsFresh idx v.storage t
        (λ id. ap (λ (l : Map ℕ (Node B M)). library_in (lookup id l)) same) (fresh idx f)

  set_dependency_request-Fresh :
      (a b : ℕ) (v : Service B M)
      → Keeps true 0 v.storage v.storage
      → Fresh v
      → Fresh (set_dependency_request a b v).1
  set_dependency_request-Fresh a b v h fresh idx f =
      same-IsFresh idx v.storage (set_dependency_request a b v).1.storage
        (Keeps.same (set_dependency_request-Keeps a b v h) refl)
        (fresh idx (sym (set_dependency_request-libraries a b v) ∙ f))

  single :
      (f change : Service B M → Service B M) (rest : List (Service B M → Service B M))
      (v : Service B M)
      → change ∷ rest ≡ f ∷ []
      → (Fresh v → Fresh (f v))
      → (rest ≡ invalidate_libraries ∷ []) ⊎ ((rest ≡ []) × (Fresh v → Fresh (change v)))
  single f change rest v e keeps = inr (
    cons-tail change f rest [] e,
    subst (λ (g : Service B M → Service B M). Fresh v → Fresh (g v))
        (sym (cons-head change f rest [] e)) keeps,
  )

  -- The first change of a request either leaves the index to be dropped or keeps it right.
  pub first_change :
      (call : Call M) (change : Service B M → Service B M) (rest : List (Service B M → Service B M))
      (v : Service B M)
      → change ∷ rest ≡ changes_of o call
      → Ready o call v
      → (rest ≡ invalidate_libraries ∷ []) ⊎ ((rest ≡ []) × (Fresh v → Fresh (change v)))
  unfolding changes_of add_node_changes ingest_sbom_changes ingest_scorecard clear ingest_data
  first_change (adds_node type metadata name) change rest v e h =
      inl (cons-tail change _ rest (invalidate_libraries ∷ []) e)
  first_change (ingests_sbom source) change rest v e h =
      inl (cons-tail change _ rest (invalidate_libraries ∷ []) e)
  first_change (sets_dependency a b) change rest v e h =
      single _ change rest v e (set_dependency_request-Fresh a b v h)
  first_change (caches fuel) change rest v e h =
      single _ change rest v e
        (nodes-Fresh v (cache o.hash fuel v.storage).1 ((cache-Outcome o.hash fuel v.storage).0))
  first_change clears change rest v e h =
      single _ change rest v e
        (nodes-Fresh v (remove_all_caches v.storage).1 (remove_all_caches-SameNodes v.storage))
  first_change (ingests_vulnerability source) change rest v e h =
      single _ change rest v e (ingest_vulnerability-Fresh source v.storage v.libraries h)
  first_change (ingests_scorecard source) change rest v e h =
      single _ change rest v e (λ fresh idx f.
        same-IsFresh idx v.storage (scorecards o.from_string o.scorecards source v.storage).1
          (Keeps.same (scorecards-Keeps v.storage o.from_string o.scorecards source h) refl)
          (fresh idx f))
  first_change (ingests_kev source) change rest v e h =
      single _ change rest v e
        (nodes-Fresh v (kev o.kev source v.storage).1 (kev-SameNodes o.kev source v.storage))
  first_change (ingests_epss source) change rest v e h = single _ change rest v e (
      nodes-Fresh v (epss o.epss o.metadata source v.storage).1
        (epss-SameNodes o.epss o.metadata source v.storage))
  first_change (ingests_vex source) change rest v e h = single _ change rest v e (
      nodes-Fresh v (vex o.encode_vex o.vex source v.storage).1
        (vex-SameNodes o.encode_vex o.vex source v.storage))

  pub invalidate_libraries-Fresh : (v : Service B M) → Fresh (invalidate_libraries v)
  unfolding invalidate_libraries
  invalidate_libraries-Fresh v idx f = absurd cc

  -- A request that is one change, when nothing else runs.
  alone :
      (call : Call M) (f : Service B M → Service B M) (v : Service B M)
      → f ∷ [] ≡ changes_of o call
      → Ready o call v
      → Fresh v
      → Fresh (f v)
  alone call f v e ready fresh = elim (first_change call f [] v e ready) [
    | inl waits ↦ absurd (cons_ne invalidate_libraries [] (sym waits))
    | inr (_, keeps) ↦ keeps fresh
  ]

  -- A request that is handled at once keeps a right index right, or drops it.
  pub handled-Fresh :
      (call : Call M) (v : Service B M) → Ready o call v → Fresh v → Fresh (handled o call v)
  unfolding handled changes_of add_node_request add_node_changes ingest_sbom ingest_sbom_changes
  handled-Fresh (adds_node type metadata name) v h fresh =
      invalidate_libraries-Fresh (on_storage (add_node type metadata name) v).1
  handled-Fresh (ingests_sbom source) v h fresh =
      invalidate_libraries-Fresh (on_storage (sbom o.sbom source) v).1
  handled-Fresh (sets_dependency a b) v h fresh =
      alone (sets_dependency a b) (λ w. (set_dependency_request a b w).1) v refl h fresh
  handled-Fresh (caches fuel) v h fresh =
      alone (caches fuel) (λ w. (on_storage (cache o.hash fuel) w).1) v refl h fresh
  handled-Fresh clears v h fresh = alone clears (λ w. (clear w).1) v refl h fresh
  handled-Fresh (ingests_vulnerability source) v h fresh =
      alone (ingests_vulnerability source)
        (λ w. (ingest_vulnerability o.semver o.from_string o.osv source w).1) v refl h fresh
  handled-Fresh (ingests_scorecard source) v h fresh =
      alone (ingests_scorecard source)
        (λ w. (ingest_scorecard o.from_string o.scorecards source w).1) v refl h fresh
  handled-Fresh (ingests_kev source) v h fresh =
      alone (ingests_kev source) (λ w. (ingest_data (kev o.kev source) w).1) v refl h fresh
  handled-Fresh (ingests_epss source) v h fresh =
      alone (ingests_epss source) (λ w. (ingest_data (epss o.epss o.metadata source) w).1) v refl h
        fresh
  handled-Fresh (ingests_vex source) v h fresh =
      alone (ingests_vex source) (λ w. (ingest_data (vex o.encode_vex o.vex source) w).1) v refl h
        fresh
