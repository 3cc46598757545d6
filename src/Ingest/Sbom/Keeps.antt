-- ===== src/Ingest/Sbom/Keeps.antt =====
-- Loading an SBOM keeps the graph well formed.
use sapper.Base.{
  nat_eq, text_eq, Text, text, suc, subst, sym, ℕ, ◌+◌, ◌≡◌, Map, lookup, insert, Bool, true, false,
  List, [], ◌∷◌, Option, none, some, ◌==◌, if◌then◌else◌, arith, length,
}
use sapper.Bitmap.{Bitmaps}
use sapper.Graph.{Store, Action, ◌>>=◌, return, throw, reading, parse_failed}
use sapper.Graph.Storage.{get_node}
use sapper.Graph.Edit.{add_node, set_dependency}
use sapper.Graph.Edit.WellFormed.{IsWellFormed}
use sapper.Graph.Edit.Loading.{
  HasRoom, HasRoom-le, add_node-HasRoom, get_node_stored, set_dependency-HasRoom, >>=-keeps,
  reading-keeps,
}
use sapper.Ingest.Sbom.{
  SbomNode, SbomEdge, NodeList, EdgeDirection, from_depends_on_to, to_depends_on_from,
  not_a_dependency, purl_of, add_nodes, link_ids, link_target, link_targets, link_known, link_edge,
  link_edges, load, sbom, dependency_direction, oriented,
}

module _ {B M : Type 0} ⦃bm : Bitmaps B⦄ where
  add_nodes-HasRoom :
      (nodes : List (SbomNode M)) (found : Map Text ℕ) (s : Store B M)
      → HasRoom (length nodes) s
      → HasRoom 0 (add_nodes nodes found s).1
  unfolding add_nodes
  add_nodes-HasRoom [] found s r = r
  add_nodes-HasRoom (n ∷ rest) found s r =
      >>=-keeps (HasRoom (length rest)) (HasRoom 0)
        (add_node (text "library") n.metadata (purl_of n))
        (λ node. add_nodes rest (insert n.id node.id found)) s
        (add_node-HasRoom (length rest) (text "library") n.metadata (purl_of n) s
          (HasRoom-le (length rest + 1) (suc (length rest)) s (omega arith) r))
        (λ t q. HasRoom-le 0 (length rest) t (omega arith) q)
        (λ node t _ q. add_nodes-HasRoom rest (insert n.id node.id found) t q)

  link_ids-HasRoom :
      (k : ℕ) (dependent dependency : ℕ) (s : Store B M)
      → HasRoom k s
      → HasRoom k (link_ids dependent dependency s).1
  unfolding link_ids
  link_ids-HasRoom k dependent dependency s r =
      reading-keeps (HasRoom k) (λ u. get_node u dependent)
        (λ n. reading (λ u. get_node u dependency) >>= λ m.
          set_dependency (some n) (some m) >>= λ _. return tt)
        s r
        (λ n at_n.
          reading-keeps (HasRoom k) (λ u. get_node u dependency)
            (λ m. set_dependency (some n) (some m) >>= λ _. return tt) s r
            (λ m at_m.
              >>=-keeps (HasRoom k) (HasRoom k) (set_dependency (some n) (some m)) (λ _. return tt)
                s
                (set_dependency-HasRoom k s n m (get_node_stored dependent s n r.valid at_n)
                  (get_node_stored dependency s m r.valid at_m) r)
                (λ _ q. q) (λ _ _ _ q. q)))

  -- The cases of the definitions, on their scrutinees.
  abbrev target_at : EdgeDirection → ℕ → Option ℕ → Action B M (Unit {0})
  target_at d from x = elim x [
    | none ↦ return tt
    | some t ↦ if from == t then return tt else link_ids (oriented d from t).0 (oriented d from t).1
  ]

  abbrev known_at : EdgeDirection → Map Text ℕ → SbomEdge → Option ℕ → Action B M (Unit {0})
  known_at d found e x = elim x [ none ↦ return tt | some from ↦ link_targets d found from e.to ]

  abbrev edge_at : Map Text ℕ → SbomEdge → EdgeDirection → Action B M (Unit {0})
  edge_at found e d = elim d [
    | not_a_dependency ↦ return tt
    | from_depends_on_to ↦ link_known from_depends_on_to found e
    | to_depends_on_from ↦ link_known to_depends_on_from found e
  ]

  abbrev document_at : Text → Option (Option (NodeList M)) → Action B M (Unit {0})
  document_at t x = elim x [ none ↦ throw (parse_failed t) | some y ↦ load y ]

  link_target-HasRoom :
      (k : ℕ) (d : EdgeDirection) (found : Map Text ℕ) (from : ℕ) (to : Text) (s : Store B M)
      → HasRoom k s
      → HasRoom k (link_target d found from to s).1
  unfolding link_target
  link_target-HasRoom k d found from to s r = at (lookup to found)
    where
      known :
          (t : ℕ) (same : Bool)
          → HasRoom k
              ((if same then return tt else link_ids (oriented d from t).0 (oriented d from t).1)
                s).1
      known t true = r
      known t false = link_ids-HasRoom k (oriented d from t).0 (oriented d from t).1 s r

      at : (x : Option ℕ) → HasRoom k (target_at d from x s).1
      at none = r
      at (some t) = known t (from == t)

  link_targets-HasRoom :
      (k : ℕ) (d : EdgeDirection) (found : Map Text ℕ) (from : ℕ) (to : List Text) (s : Store B M)
      → HasRoom k s
      → HasRoom k (link_targets d found from to s).1
  unfolding link_targets
  link_targets-HasRoom k d found from [] s r = r
  link_targets-HasRoom k d found from (t ∷ rest) s r =
      >>=-keeps (HasRoom k) (HasRoom k) (link_target d found from t)
        (λ _. link_targets d found from rest) s (link_target-HasRoom k d found from t s r)
        (λ _ q. q) (λ _ u _ q. link_targets-HasRoom k d found from rest u q)

  link_known-HasRoom :
      (k : ℕ) (d : EdgeDirection) (found : Map Text ℕ) (e : SbomEdge) (s : Store B M)
      → HasRoom k s
      → HasRoom k (link_known d found e s).1
  link_known-HasRoom k d found e s r = at (lookup e.from found)
    where
      at : (x : Option ℕ) → HasRoom k (known_at d found e x s).1
      at none = r
      at (some from) = link_targets-HasRoom k d found from e.to s r

  link_edges-HasRoom :
      (k : ℕ) (found : Map Text ℕ) (edges : List SbomEdge) (s : Store B M)
      → HasRoom k s
      → HasRoom k (link_edges found edges s).1
  unfolding link_edges link_edge
  link_edges-HasRoom k found [] s r = r
  link_edges-HasRoom k found (e ∷ rest) s r =
      >>=-keeps (HasRoom k) (HasRoom k) (link_edge found e) (λ _. link_edges found rest) s
        (directed (dependency_direction e.type)) (λ _ q. q)
        (λ _ u _ q. link_edges-HasRoom k found rest u q)
    where
      directed : (d : EdgeDirection) → HasRoom k (edge_at found e d s).1
      directed not_a_dependency = r
      directed from_depends_on_to = link_known-HasRoom k from_depends_on_to found e s r
      directed to_depends_on_from = link_known-HasRoom k to_depends_on_from found e s r

  -- Loading a document that has a node list into a well-formed storage keeps it well formed, also
  -- where another call fails or the list is at fault and the loading stops early, when no `SaveNode`
  -- fails, names can be looked up, and one ID per document node is left.
  pub sbom-IsWellFormed :
      (parse : Text → Option (Option (NodeList M))) (data_ : Text) (l : NodeList M) (s : Store B M)
      → parse data_ ≡ some (some l)
      → HasRoom (length l.nodes) s
      → IsWellFormed (sbom parse data_ s).1
  unfolding sbom
  sbom-IsWellFormed parse [] l s e r = r.valid
  sbom-IsWellFormed parse (c ∷ cs) l s e r =
      subst (λ x. IsWellFormed (document_at (c ∷ cs) x s).1) (sym e) done
    where
      done : IsWellFormed (load (some l) s).1
      done =
          (>>=-keeps (HasRoom 0) (HasRoom 0) (add_nodes l.nodes [])
            (λ found. link_edges found l.edges) s (add_nodes-HasRoom l.nodes [] s r) (λ _ q. q)
            (λ found u _ q. link_edges-HasRoom 0 found l.edges u q)).valid
