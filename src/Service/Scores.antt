-- ===== src/Service/Scores.antt =====
-- Loading scorecards changes no library.
use sapper.Base.{
  nat_eq, text_eq, refl, sym, ap, subst, ◌∙◌, ◌≡◌, ℕ, suc, ◌+◌, Text, text, Map, lookup, keys, true,
  List, [], ◌∷◌, Option, none, some, Result, ok, err, ◌==◌, length, arith, if◌then◌else◌,
}
use mathlib.Core.List.{Memᴰ}
use mathlib.Core.List.Memᴰ
use sapper.Bitmap.{Bitmaps}
use sapper.Graph.{Node, Store, Action, GraphError, ◌>>=◌, return, throw, reading, parse_failed}
use sapper.Graph.Storage.{get_nodes, get_all_keys}
use sapper.Graph.Edit.{add_node, set_dependency}
use sapper.Graph.Edit.Loading.{>>=-keeps, reading-keeps, if-keeps}
use sapper.Ingest.Loader.{is_indexed}
use sapper.Ingest.Osv.{PackageInfo}
use sapper.Ingest.Purl.{PackageUrl, purl_to_package}
use sapper.Ingest.Scorecards.{
  ScorecardResult, results_named, group_results, get_scorecard_node_name, link_result, link_results,
  link_package, score_node, score_nodes, scorecards,
}
use sapper.Service.Reads.{collect-Memᴰ, read_all, all_nodes}
use sapper.Service.Libraries.{
  Keeps, Known, Keeps-le, stored-Known, add_node-Keeps, add_node-Known, set_dependency-Keeps,
  linked-Known,
}

module _ {B M : Type 0} where
  abbrev go_on :
      {A C : Type 0}
      → (A → Action B M C)
      → Result GraphError A × Store B M
      → Result GraphError C × Store B M
  go_on f o = elim o.0 [ ok a ↦ f a o.1 | err e ↦ (err e, o.1) ]

  -- Where a chain gives a result, its first step did.
  >>=-result :
      {A C : Type 0} (m : Action B M A) (f : A → Action B M C) (t : Store B M) (c : C)
      → ((m >>= f) t).0 ≡ ok c
      → (a : A) × (u : Store B M) × (m t ≡ (ok a, u)) × ((f a u).0 ≡ ok c)
  >>=-result {A} {C} m f t c e = split (m t) refl e
    where
      split :
          (o : Result GraphError A × Store B M)
          → m t ≡ o
          → (go_on f o).0 ≡ ok c
          → (a : A) × (u : Store B M) × (m t ≡ (ok a, u)) × ((f a u).0 ≡ ok c)
      split (ok a, u) same e = (a, u, same, e)
      split (err x, u) same e = absurd cc

module _ {B M : Type 0} ⦃bm : Bitmaps B⦄ (s : Store B M) where
  Known-later : (k : ℕ) (t : Store B M) (n : Node B M) → Keeps true k s t → Known s n → Known t n
  Known-later k t n h (low, same) = (omega (arith, h.grows), h.same refl n.id ∙ same)

  link_result-Keeps :
      (k : ℕ) (node : Node B M) (r : ScorecardResult M) (from_string : Text → Option PackageUrl)
      (t : Store B M)
      → Known s node
      → Keeps true (suc k) s t
      → Keeps true k s (link_result from_string node r t).1
  link_result-Keeps k node r from_string t known h =
      let added =
        add_node-Keeps true s k (text "scorecard") r.metadata (get_scorecard_node_name r.purl) t
          (λ _. refl) h in
      >>=-keeps (Keeps true k s) (Keeps true k s)
        (add_node (text "scorecard") r.metadata (get_scorecard_node_name r.purl))
        (λ v. set_dependency (some node) (some v) >>= λ linked. return linked.0) t added (λ _ q. q)
        (λ v u e q.
          >>=-keeps (Keeps true k s) (Keeps true k s) (set_dependency (some node) (some v))
            (λ linked. return linked.0) u
            (set_dependency-Keeps true s k u node v (Known-later k u node q known)
              (subst (λ (w : Store B M). Known w v) (ap (λ p. p.1) e)
                (add_node-Known true s k (text "scorecard") r.metadata
                  (get_scorecard_node_name r.purl) t v added h (ap (λ p. p.0) e)))
              q)
            (λ _ p. p) (λ _ _ _ p. p))

  link_result-Known :
      (node next : Node B M) (r : ScorecardResult M) (from_string : Text → Option PackageUrl)
      (t : Store B M)
      → Known s node
      → (link_result from_string node r t).0 ≡ ok next
      → Known s next
  link_result-Known node next r from_string t known e =
      let (v, u, _, e') =
        >>=-result (add_node (text "scorecard") r.metadata (get_scorecard_node_name r.purl))
          (λ v. set_dependency (some node) (some v) >>= λ linked. return linked.0) t next e in
      let (linked, _, e2, e3) =
        >>=-result (set_dependency (some node) (some v)) (λ linked. return linked.0) u next e' in
      subst (λ (x : Node B M). Known s x) (ok_inj linked.0 next e3)
        (linked-Known true s u node v linked known (ap (λ p. p.0) e2))
    where
      ok_of : Node B M → Result GraphError (Node B M)
      ok_of a = ok a

      ok_inj : (a b : Node B M) → ok_of a ≡ ok_of b → a ≡ b
      ok_inj a b e = cc

module _ {B M : Type 0} ⦃bm : Bitmaps B⦄ (s : Store B M)
    (from_string : Text → Option PackageUrl) where
  link_results-Keeps :
      (k : ℕ) (version : Text) (results : List (ScorecardResult M)) (node : Node B M)
      (t : Store B M)
      → Known s node
      → Keeps true (length results + k) s t
      → Keeps true k s (link_results from_string version node results t).1
  unfolding link_results
  link_results-Keeps k version [] node t known h =
      Keeps-le true s k (length {A = ScorecardResult M} [] + k) t (omega arith) h
  link_results-Keeps k version (r ∷ rest) node t known h =
      let less : Keeps true (length rest + k) s t =
        Keeps-le true s (length rest + k) (length (r ∷ rest) + k) t (omega arith) h in
      let skipped = link_results-Keeps k version rest node t known less in
      let linked =
        >>=-keeps (Keeps true (length rest + k) s) (Keeps true k s) (link_result from_string node r)
          (λ next. link_results from_string version next rest) t
          (link_result-Keeps s (length rest + k) node r from_string t known
            (Keeps-le true s (suc (length rest + k)) (length (r ∷ rest) + k) t (omega arith) h))
          (λ u q. Keeps-le true s k (length rest + k) u (omega arith) q)
          (λ next u e q.
            link_results-Keeps k version rest next u
              (link_result-Known s node next r from_string t known (ap (λ p. p.0) e)) q) in
      if-keeps (Keeps true k s) r.success (at (purl_to_package from_string r.purl)) skip t
        (cases (purl_to_package from_string r.purl) skipped linked) skipped
    where
      skip : Action B M (Unit {0})
      skip = link_results from_string version node rest

      link : Action B M (Unit {0})
      link = link_result from_string node r >>= λ next. link_results from_string version next rest

      at : Option PackageInfo → Action B M (Unit {0})
      at x = elim x [
        | none ↦ skip
        | some scorecard ↦ if scorecard.version == version then link else skip
      ]

      cases :
          (x : Option PackageInfo)
          → Keeps true k s (skip t).1
          → Keeps true k s (link t).1
          → Keeps true k s (at x t).1
      cases none a b = a
      cases (some scorecard) a b =
          if-keeps (Keeps true k s) (scorecard.version == version) link skip t b a

  -- How many scorecards the loops look at.
  abbrev result_count : Map Text (List (ScorecardResult M)) → Option PackageInfo → ℕ
  result_count grouped none = 0
  result_count grouped (some info) = length (results_named info.name grouped)

  abbrev pub score_count : Map Text (List (ScorecardResult M)) → Map ℕ (Node B M) → ℕ
  score_count grouped [] = 0
  score_count grouped ((_, node) ∷ rest) =
      result_count grouped (purl_to_package from_string node.name) + score_count grouped rest

  link_package-Keeps :
      (k : ℕ) (grouped : Map Text (List (ScorecardResult M))) (node : Node B M)
      (x : Option PackageInfo) (t : Store B M)
      → Known s node
      → Keeps true (result_count grouped x + k) s t
      → Keeps true k s (link_package from_string grouped node x t).1
  link_package-Keeps k grouped node none t known h = Keeps-le true s k (0 + k) t (omega arith) h
  link_package-Keeps k grouped node (some info) t known h =
      link_results-Keeps k info.version (results_named info.name grouped) node t known h

  score_nodes-Keeps :
      (grouped : Map Text (List (ScorecardResult M))) (nodes : Map ℕ (Node B M)) (t : Store B M)
      → ((id : ℕ) (n : Node B M) → Memᴰ (id, n) nodes → Known s n)
      → Keeps true (score_count grouped nodes) s t
      → Keeps true 0 s (score_nodes from_string grouped nodes t).1
  unfolding score_nodes score_node
  score_nodes-Keeps grouped [] t known h = h
  score_nodes-Keeps grouped ((id, node) ∷ rest) t known h =
      let known_node = known id node (Memᴰ.head refl) in
      >>=-keeps (Keeps true (score_count grouped rest) s) (Keeps true 0 s)
        (score_node from_string grouped node) (λ _. score_nodes from_string grouped rest) t
        (if-keeps (Keeps true (score_count grouped rest) s) (is_indexed from_string node)
          (link_package from_string grouped node (purl_to_package from_string node.name))
          (return tt) t
          (link_package-Keeps (score_count grouped rest) grouped node
            (purl_to_package from_string node.name) t known_node h)
          (Keeps-le true s (score_count grouped rest) (score_count grouped ((id, node) ∷ rest)) t
            (omega arith) h))
        (λ u q. Keeps-le true s 0 (score_count grouped rest) u (omega arith) q)
        (λ _ u _ q. score_nodes-Keeps grouped rest u (λ i n m. known i n (Memᴰ.tail m)) q)

  abbrev pub scores_count : Option (List (ScorecardResult M)) → ℕ
  scores_count none = 0
  scores_count (some results) = score_count (group_results from_string results []) (all_nodes s)

  abbrev scoring : Text → Option (List (ScorecardResult M)) → Action B M (Unit {0})
  scoring source x = elim x [
    | none ↦ throw (parse_failed source)
    | some results ↦ reading get_all_keys >>= λ ks. reading (λ u. get_nodes u ks) >>= λ nodes.
        score_nodes from_string (group_results from_string results []) nodes
  ]

  scoring-Keeps :
      (source : Text) (x : Option (List (ScorecardResult M)))
      → Keeps true (scores_count x) s s
      → Keeps true 0 s (scoring source x s).1
  scoring-Keeps source none h = h
  scoring-Keeps source (some results) h =
      let grouped = group_results from_string results [] in
      let less = Keeps-le true s 0 (scores_count (some results)) s (omega arith) h in
      reading-keeps (Keeps true 0 s) get_all_keys
        (λ ks. reading (λ u. get_nodes u ks) >>= λ nodes. score_nodes from_string grouped nodes) s
        less
        (λ ks at_keys.
          reading-keeps (Keeps true 0 s) (λ u. get_nodes u ks)
            (λ nodes. score_nodes from_string grouped nodes) s less
            (λ nodes at_nodes.
              subst (λ l. Keeps true 0 s (score_nodes from_string grouped l s).1)
                (sym (read_all s ks nodes at_keys at_nodes))
                (score_nodes-Keeps grouped (all_nodes s) s (λ id n m. known id n (stored id n m))
                  h)))
    where
      stored : (id : ℕ) (n : Node B M) → Memᴰ (id, n) (all_nodes s) → lookup id s.nodes ≡ some n
      stored = collect-Memᴰ s.nodes (keys s.nodes) [] (λ id v m. absurd (Memᴰ.not-nil m))

      known : (id : ℕ) (n : Node B M) → lookup id s.nodes ≡ some n → Known s n
      known id n at =
          stored-Known true s (scores_count (some results)) s n h
            (ap (λ k. lookup k s.nodes) (h.keyed id n at) ∙ at)

  -- Loading scorecards changes no library.
  pub scorecards-Keeps :
      (decode : Text → Option (List (ScorecardResult M))) (source : Text)
      → Keeps true (scores_count (decode source)) s s
      → Keeps true 0 s (scorecards from_string decode source s).1
  unfolding scorecards
  scorecards-Keeps decode [] h = Keeps-le true s 0 (scores_count (decode [])) s (omega arith) h
  scorecards-Keeps decode (c ∷ cs) h = scoring-Keeps (c ∷ cs) (decode (c ∷ cs)) h
