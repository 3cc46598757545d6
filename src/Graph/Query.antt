-- ===== src/Graph/Query.antt =====
-- pkg/graph/graph.go: the queries, over the graph or over the cache.
pub mod Reach
pub mod Work
pub mod Correct
use sapper.Base.{
  nat_eq, ℕ, zero, suc, ◌+◌, Text, Map, lookup, insert, Bool, true, false, List, [], ◌∷◌, ◌++◌,
  Option, none, some, Result, ok, err, ◌>>=◌, elem, length, if◌then◌else◌,
}
use sapper.Bitmap.{Bitmaps}
use sapper.Graph.{
  Direction, parents_direction, children_direction, other_direction, Node, NodeCache, Store,
  GraphError, nil_node, nil_dereference, invalid_direction, no_cache_for, out_of_fuel,
}
use sapper.Graph.Storage.{get_node, get_cache, to_be_cached}

module _ {B M : Type 0} where
  -- The `switch` of `queryBitmap`.
  abbrev pub bitmap_of : Direction → Node B M → Result GraphError B
  bitmap_of parents_direction n = ok n.parents
  bitmap_of children_direction n = ok n.children
  bitmap_of (other_direction d) n = err (invalid_direction d)

  -- The inner loop of `queryBitmap`: the nodes to append to the queue.
  unfoldable pub get_each : Store B M → List ℕ → Result GraphError (List (Node B M))
  unfolding get_node
  get_each s [] = ok []
  get_each s (id ∷ ids) = do node ← get_node s id; rest ← get_each s ids; ok (node ∷ rest)

  -- The loop of both batch queries.
  unfoldable pub batch :
      (Option (Node B M) → Result GraphError (ℕ × B))
      → List (Option (Node B M))
      → Map ℕ B
      → Result GraphError (Map ℕ B)
  batch query [] result = ok result
  batch query (node ∷ nodes) result =
      query node >>= λ (id, answer). batch query nodes (insert id answer result)

module _ {B M : Type 0} ⦃bm : Bitmaps B⦄ where
  abbrev pub degree : Direction → Node B M → ℕ
  degree direction n = elim (bitmap_of direction n) [
    | ok bitmap ↦ length (bm.to_array bitmap)
    | err _ ↦ 0
  ]

  -- The edges that leave nodes not visited yet.
  abbrev pub open_edges : Direction → List ℕ → Map ℕ (Node B M) → ℕ
  open_edges direction visited [] = 0
  open_edges direction visited ((id, n) ∷ nodes) =
      open_edges direction visited nodes + (if elem id visited then 0 else degree direction n)

module _ {B M : Type 0} ⦃bm : Bitmaps B⦄ (s : Store B M) where
  -- The outer loop of `queryBitmap`; `visited` holds the IDs that map to true.
  unfoldable pub query_loop : Direction → ℕ → List (Node B M) → List ℕ → B → Result GraphError B
  unfolding get_each
  query_loop direction fuel [] visited result = ok result
  query_loop direction zero (cur ∷ queue) visited result = err out_of_fuel
  query_loop direction (suc fuel) (cur ∷ queue) visited result = elim (elem cur.id visited) [
    | true ↦ query_loop direction fuel queue visited result
    | false ↦ bitmap_of direction cur >>= λ bitmap. get_each s (bm.to_array bitmap) >>= λ nodes.
        query_loop direction fuel (queue ++ nodes) (cur.id ∷ visited) (bm.or result bitmap)
  ]

  -- Every edge queues one node, and the start is queued once.
  abbrev pub query_fuel : Direction → ℕ
  query_fuel direction = suc (open_edges direction [] s.nodes)

  unfoldable pub query_bitmap : Option (Node B M) → Direction → Result GraphError B
  unfolding query_loop
  query_bitmap none direction = err nil_node
  query_bitmap (some n) direction =
      query_loop direction (query_fuel direction) (n ∷ []) [] bm.new >>= λ result.
      ok (bm.add result n.id)

  unfoldable pub query_dependents_no_cache : Option (Node B M) → Result GraphError B
  unfolding query_bitmap
  query_dependents_no_cache n = query_bitmap n parents_direction

  unfoldable pub query_dependencies_no_cache : Option (Node B M) → Result GraphError B
  unfolding query_bitmap
  query_dependencies_no_cache n = query_bitmap n children_direction

  -- A method on a nil node reads `n.ID` only when the graph is cached.
  unfoldable pub query_dependents : Option (Node B M) → Result GraphError B
  unfolding query_dependents_no_cache to_be_cached get_cache
  query_dependents n = to_be_cached s >>= λ uncached. elim uncached [
    | _ ∷ _ ↦ query_dependents_no_cache n
    | [] ↦ elim n [
      | none ↦ err nil_dereference
      | some m ↦ get_cache s m.id >>= λ cache. ok cache.all_parents
    ]
  ]

  unfoldable pub query_dependencies : Option (Node B M) → Result GraphError B
  unfolding query_dependencies_no_cache to_be_cached get_cache
  query_dependencies n = to_be_cached s >>= λ uncached. elim uncached [
    | _ ∷ _ ↦ query_dependencies_no_cache n
    | [] ↦ elim n [
      | none ↦ err nil_dereference
      | some m ↦ get_cache s m.id >>= λ cache. ok cache.all_children
    ]
  ]

  -- One node of `BatchQueryDependents`; without a cache a nil node fails in the query itself.
  unfoldable pub dependents_of :
      Map ℕ (NodeCache B) → Bool → Option (Node B M) → Result GraphError (ℕ × B)
  unfolding query_dependents_no_cache
  dependents_of caches is_cached none = err nil_node
  dependents_of caches false (some n) =
      query_dependents_no_cache (some n) >>= λ answer. ok (n.id, answer)
  dependents_of caches true (some n) = elim (lookup n.id caches) [
    | none ↦ err (no_cache_for n.id)
    | some cache ↦ ok (n.id, cache.all_parents)
  ]

  -- One node of `BatchQueryDependencies`; a missing cache is dereferenced.
  unfoldable pub dependencies_of :
      Map ℕ (NodeCache B) → Bool → Option (Node B M) → Result GraphError (ℕ × B)
  unfolding query_dependencies_no_cache
  dependencies_of caches is_cached none = err nil_node
  dependencies_of caches false (some n) =
      query_dependencies_no_cache (some n) >>= λ answer. ok (n.id, answer)
  dependencies_of caches true (some n) = elim (lookup n.id caches) [
    | none ↦ err nil_dereference
    | some cache ↦ ok (n.id, cache.all_children)
  ]

  unfoldable pub batch_query_dependents :
      List (Option (Node B M)) → Map ℕ (NodeCache B) → Bool → Result GraphError (Map ℕ B)
  unfolding batch dependents_of
  batch_query_dependents nodes caches is_cached = batch (dependents_of caches is_cached) nodes []

  unfoldable pub batch_query_dependencies :
      List (Option (Node B M)) → Map ℕ (NodeCache B) → Bool → Result GraphError (Map ℕ B)
  unfolding batch dependencies_of
  batch_query_dependencies nodes caches is_cached =
      batch (dependencies_of caches is_cached) nodes []
