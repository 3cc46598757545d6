-- ===== src/Service/Leaderboard.antt =====
-- api/v1/service.go: `CustomLeaderboard`. The goroutines only read the storage, so an interleaving is
-- the order in which they finish, with how many have finished when the `select` looks for an error.
-- `none` is a request that blocks for ever. A number of tokens below 0 is left out.
pub mod Filled
pub mod Ranked
use sapper.Base.{
  nat_eq, text_eq, ℕ, Text, Map, Bool, true, false, List, [], ◌∷◌, Option, none, some, Result, ok,
  err, ◌>>=◌, ◌==◌, if◌then◌else◌, map, length, filter, not, ltb, values,
}
use sapper.Bitmap.{Bitmaps}
use sapper.Graph.{Node, NodeCache, Store, GraphError, not_cached}
use sapper.Graph.Storage.{get_all_keys, get_nodes, get_caches, to_be_cached}
use sapper.Ingest.Affected.{stable_sort}
use sapper.Script.{Expression, parse_and_execute}
use sapper.Service.{ServiceNode, node_to_service_node, is_done}

pub record Query (B M : Type 0) : Type 0 where
  pub node : Node B M
  pub output : List ℕ

pub record ServiceQuery : Type 0 where
  pub node : ServiceNode
  pub output : List ℕ

module _ {B M : Type 0} where
  -- `queryHeap.Less`
  unfoldable pub less : Query B M → Query B M → Bool
  less q r = ltb (length q.output) (length r.output)

  -- container/heap gives the least first; in which order it gives equals is its own business.
  unfoldable pub pop_all : List (Query B M) → List (Query B M)
  unfolding less
  pop_all h = stable_sort less h

  abbrev pub named_nodes : List (Node B M) → List (Node B M)
  named_nodes nodes = filter (λ n. not (n.name == [])) nodes

  -- What is on `errChan` first.
  unfoldable pub first_error :
      (Node B M → Result GraphError B) → List (Node B M) → Option GraphError
  first_error run [] = none
  first_error run (n ∷ rest) = elim (run n) [ err e ↦ some e | ok b ↦ first_error run rest ]

-- What `CustomLeaderboard` reads first.
pub record Snapshot (B M : Type 0) : Type 0 where
  pub nodes : Map ℕ (Node B M)
  pub caches : Map ℕ (NodeCache B)
  pub is_cached : Bool

module _ {B M : Type 0} where
  unfoldable pub take_snapshot : Store B M → Result GraphError (Snapshot B M)
  take_snapshot s = to_be_cached s >>= λ uncached.
      if is_done uncached
      then (get_all_keys s >>= λ keys. get_nodes s keys >>= λ nodes. get_caches s keys >>= λ caches.
          to_be_cached s >>= λ cache_stack.
          ok (record { nodes = nodes; caches = caches; is_cached = is_done cache_stack }))
      else err not_cached

module _ {B M : Type 0} ⦃bm : Bitmaps B⦄ where
  -- What is on `queryChan` at the end.
  unfoldable pub finished_queries :
      (Node B M → Result GraphError B) → List (Node B M) → List (Query B M)
  finished_queries run [] = []
  finished_queries run (n ∷ rest) = elim (run n) [
    | err e ↦ finished_queries run rest
    | ok b ↦ record { node = n; output = bm.to_array b } ∷ finished_queries run rest
  ]

  -- The result is filled from its last place on.
  unfoldable pub fill :
      (M → Option Text)
      → List (Query B M)
      → List ServiceQuery
      → Result GraphError (List ServiceQuery)
  fill marshal [] queries = ok queries
  fill marshal (q ∷ rest) queries = node_to_service_node marshal q.node >>= λ node.
      fill marshal rest (record { node = node; output = q.output } ∷ queries)

  -- What follows the reads; `seen` are the goroutines that have finished when the `select` runs.
  unfoldable pub rank :
      (M → Option Text)
      → (Node B M → Result GraphError B)
      → List (Node B M)
      → List (Node B M)
      → Result GraphError (List ServiceQuery)
  unfolding first_error finished_queries pop_all fill
  rank marshal run seen finished = elim (first_error run seen) [
    | some e ↦ err e
    | none ↦ fill marshal (pop_all (finished_queries run finished)) []
  ]

  -- The number of tokens bounds how many goroutines run; with none, the first one waits for ever.
  abbrev pub blocks : ℕ → List (Node B M) → Bool
  blocks concurrency [] = false
  blocks concurrency (n ∷ rest) = concurrency == 0

  -- An interleaving: of the nodes whose query is run, the list that has finished when the `select`
  -- runs, and the list in the order in which all of them finish.
  unfoldable pub custom_leaderboard :
      (M → Option Text)
      → (Text → Option Expression)
      → (List (Node B M) → List (Node B M) × List (Node B M))
      → ℕ
      → Text
      → Store B M
      → Option (Result GraphError (List ServiceQuery))
  unfolding rank take_snapshot
  custom_leaderboard marshal parse interleaving concurrency script s = elim (take_snapshot s) [
    | err e ↦ some (err e)
    | ok snapshot ↦
        let nodes = named_nodes (values snapshot.nodes) in
        let run = λ (n : Node B M).
          parse_and_execute parse script s n.name
            (map {B = ℕ × Option (Node B M)} (λ e. (e.0, some e.1)) snapshot.nodes) snapshot.caches
            snapshot.is_cached in
        if blocks concurrency nodes
        then none
        else some (rank marshal run (interleaving nodes).0 (interleaving nodes).1)
  ]
