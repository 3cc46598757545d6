-- ===== src/Service/Steps.antt =====
-- The requests that a server handles at the same time, as threads of changes to its state. `AddNode`
-- and `IngestSBOM` make two changes, between which other requests can run; every other request is one
-- change. Requests that only read change nothing and are left out.
use mathlib.Core.List.{Memᴰ}
use sapper.Base.{
  nat_eq, text_eq, refl, ◌≡◌, inl, inr, ℕ, Text, true, List, [], ◌∷◌, ◌++◌, Option, none, some, ok,
  err, Result-cases, arith,
}
use sapper.Bitmap.{Bitmaps}
use sapper.Graph.{Store}
use sapper.Graph.Storage.{get_node}
use sapper.Graph.Edit.Loading.{HasRoom}
use sapper.Cache.{cache}
use sapper.Cache.Keys.{Hash}
use sapper.Versions.{Semver}
use sapper.Ingest.Osv.{Vulnerability}
use sapper.Ingest.Purl.{PackageUrl}
use sapper.Ingest.Sbom.{NodeList}
use sapper.Ingest.Loader.{LibraryIndex, build_library_index}
use sapper.Ingest.Scorecards.{ScorecardResult}
use sapper.Ingest.Priorities.{KevEntry, kev}
use sapper.Ingest.Epss.{EpssFormat, epss}
use sapper.Ingest.Vex.{VexDocument, Statement, vex}
use sapper.Service.{
  Service, on_storage, add_node_request, ingest_sbom, add_node_changes, ingest_sbom_changes,
  set_dependency_request, ingest_vulnerability, ingest_scorecard, clear, ingest_data,
}
use sapper.Service.Libraries.{Keeps, get_node-Known, set_dependency-Keeps}
use sapper.Service.Loads.{record_count}
use sapper.Service.Scores.{scores_count}

module _ {B M : Type 0} ⦃bm : Bitmaps B⦄ where
  pub HasRoom-Keeps : (k : ℕ) (s : Store B M) → HasRoom k s → Keeps true k s s
  HasRoom-Keeps k s r = record {
    keyed = r.valid.keyed;
    counted = r.valid.counted;
    room = r.room;
    grows = omega arith;
    same = λ _ id. refl;
  }

  pub set_dependency_request-Keeps :
      (node_id dependency_id : ℕ) (v : Service B M)
      → Keeps true 0 v.storage v.storage
      → Keeps true 0 v.storage (set_dependency_request node_id dependency_id v).1.storage
  unfolding set_dependency_request
  set_dependency_request-Keeps node_id dependency_id v h =
      elim (Result-cases (get_node v.storage node_id)) [
        | inr (x, e) ↦ rw (e, set_dependency_request) h
        | inl (n, e) ↦ elim (Result-cases (get_node v.storage dependency_id)) [
          | inr (x, f) ↦ rw (e, set_dependency_request) (rw f h)
          | inl (m, f) ↦
              rw (e, set_dependency_request)
                (rw f (
                  set_dependency-Keeps true v.storage 0 v.storage n m
                    (get_node-Known true v.storage 0 node_id v.storage n h e)
                    (get_node-Known true v.storage 0 dependency_id v.storage m h f) h))
        ]
      ]

  pub set_dependency_request-libraries :
      (node_id dependency_id : ℕ) (v : Service B M)
      → (set_dependency_request node_id dependency_id v).1.libraries ≡ v.libraries
  unfolding set_dependency_request
  set_dependency_request-libraries node_id dependency_id v =
      elim (Result-cases (get_node v.storage node_id)) [
        | inr (x, e) ↦ rw (e, set_dependency_request) refl
        | inl (n, e) ↦ elim (Result-cases (get_node v.storage dependency_id)) [
          | inr (x, f) ↦ rw (e, set_dependency_request) (rw f refl)
          | inl (m, f) ↦ rw (e, set_dependency_request) (rw f refl)
        ]
      ]

-- What the requests take from outside the program: decoders, the order of semantic versions, the hash
-- of the caches.
pub record Outside (V F M : Type 0) : Type 0 where
  pub semver : Semver V
  pub from_string : Text → Option PackageUrl
  pub osv : Text → Option (Vulnerability × M)
  pub sbom : Text → Option (Option (NodeList M))
  pub scorecards : Text → Option (List (ScorecardResult M))
  pub hash : Hash
  pub metadata : M → Option Vulnerability
  pub kev : Text → Option (List KevEntry)
  pub epss : EpssFormat F
  pub vex : Text → Option VexDocument
  pub encode_vex : Statement → Text → Text
  pub marshal : M → Option Text

-- The requests that can change the server's state, with their messages.
pub data Call (M : Type 0) : Type 0 where
  adds_node : Text → M → Text → Call M
  sets_dependency : ℕ → ℕ → Call M
  caches : ℕ → Call M
  clears : Call M
  ingests_sbom ingests_vulnerability ingests_scorecard : Text → Call M
  ingests_kev ingests_epss ingests_vex : Text → Call M

-- A request that is being handled, and the changes that it has yet to make.
pub record Thread (B M : Type 0) : Type 0 where
  pub call : Call M
  pub rest : List (Service B M → Service B M)

pub record Running (B M : Type 0) : Type 0 where
  pub service : Service B M
  pub threads : List (Thread B M)

module _ {V F B M : Type 0} ⦃bm : Bitmaps B⦄ (o : Outside V F M) where
  -- The changes that a request makes.
  unfoldable pub changes_of : Call M → List (Service B M → Service B M)
  changes_of (adds_node type metadata name) = add_node_changes type metadata name
  changes_of (sets_dependency node_id dependency_id) =
      (λ v. (set_dependency_request node_id dependency_id v).1) ∷ []
  changes_of (caches fuel) = (λ v. (on_storage (cache o.hash fuel) v).1) ∷ []
  changes_of clears = (λ v. (clear v).1) ∷ []
  changes_of (ingests_sbom source) = ingest_sbom_changes o.sbom source
  changes_of (ingests_vulnerability source) =
      (λ v. (ingest_vulnerability o.semver o.from_string o.osv source v).1) ∷ []
  changes_of (ingests_scorecard source) =
      (λ v. (ingest_scorecard o.from_string o.scorecards source v).1) ∷ []
  changes_of (ingests_kev source) = (λ v. (ingest_data (kev o.kev source) v).1) ∷ []
  changes_of (ingests_epss source) = (λ v. (ingest_data (epss o.epss o.metadata source) v).1) ∷ []
  changes_of (ingests_vex source) = (λ v. (ingest_data (vex o.encode_vex o.vex source) v).1) ∷ []

  -- The request handled without another one in between.
  unfoldable pub handled : Call M → Service B M → Service B M
  handled (adds_node type metadata name) v = (add_node_request o.marshal type metadata name v).1
  handled (sets_dependency node_id dependency_id) v =
      (set_dependency_request node_id dependency_id v).1
  handled (caches fuel) v = (on_storage (cache o.hash fuel) v).1
  handled clears v = (clear v).1
  handled (ingests_sbom source) v = (ingest_sbom o.sbom source v).1
  handled (ingests_vulnerability source) v =
      (ingest_vulnerability o.semver o.from_string o.osv source v).1
  handled (ingests_scorecard source) v = (ingest_scorecard o.from_string o.scorecards source v).1
  handled (ingests_kev source) v = (ingest_data (kev o.kev source) v).1
  handled (ingests_epss source) v = (ingest_data (epss o.epss o.metadata source) v).1
  handled (ingests_vex source) v = (ingest_data (vex o.encode_vex o.vex source) v).1

  -- How many nodes an OSV record may add, by the index that is used for it.
  abbrev pub candidates_of : Text → Store B M → Option LibraryIndex → ℕ
  candidates_of source s (some idx) = record_count idx (o.osv source)
  candidates_of source s none = elim (build_library_index o.from_string s) [
    | err e ↦ 0
    | ok idx ↦ record_count idx (o.osv source)
  ]

  -- What the loaders and `SetDependency` need when they run: nodes stored under IDs that the counter
  -- gave out, and IDs that are left.
  abbrev pub Ready : Call M → Service B M → Type 0
  Ready (sets_dependency node_id dependency_id) v = Keeps true 0 v.storage v.storage
  Ready (ingests_vulnerability source) v =
      Keeps true (candidates_of source v.storage v.libraries) v.storage v.storage
  Ready (ingests_scorecard source) v =
      Keeps true (scores_count v.storage o.from_string (o.scorecards source)) v.storage v.storage
  Ready _ v = Unit {0}

  -- A request is handled at once, or comes in, or one that is being handled makes its next change.
  pub data Step (r : Running B M) : Running B M → Type 0 where
    handles :
        (call : Call M)
        → Ready call r.service
        → Step r (record r { service = handled call r.service })
    begins :
        (call : Call M)
        → Step r (record r { threads = record { call = call; rest = changes_of call } ∷ r.threads })
    changes :
        (front back : List (Thread B M)) (call : Call M) (change : Service B M → Service B M)
        (rest : List (Service B M → Service B M))
        → r.threads ≡ front ++ record { call = call; rest = change ∷ rest } ∷ back
        → Ready call r.service
        → Step r (record {
          service = change r.service;
          threads = front ++ record { call = call; rest = rest } ∷ back;
        })

  pub data Steps (r : Running B M) : Running B M → Type 0 where
    start : Steps r r
    next : {p q : Running B M} → Steps r p → Step p q → Steps r q

  -- Every request that came in has made all its changes.
  abbrev pub AllDone : Running B M → Type 0
  AllDone r = (t : Thread B M) → Memᴰ t r.threads → t.rest ≡ []
