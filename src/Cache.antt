-- ===== src/Cache.antt =====
-- pkg/graph/cache.go: `Cache`, which stores for every node what it reaches and what reaches it.
pub mod Keys
pub mod Cycles
pub mod Build
pub mod Outcome
use sapper.Base.{
  nat_eq, text_eq, ℕ, suc, Text, Map, lookup, List, [], ◌∷◌, Option, none, some, Result, ok, err,
  length, ◌>>=◌,
}
use sapper.Bitmap.{Bitmaps}
use sapper.Numbers.{uint32_to_str}
use sapper.Graph.{
  Node, NodeCache, Store, Action, GraphError, Direction, children_direction, parents_direction,
}
use sapper.Graph.Storage.{to_be_cached, get_all_keys, get_nodes, save_caches, clear_cache_stack}
use Keys.{Hash, KeyManagement, get, get_all_keys_and_values}
use Cycles.{find_cycles}
use Build.{build_cache, key_number}

module _ {B : Type 0} ⦃bm : Bitmaps B⦄ where
  -- The loop over the keys: a node reaches itself in both directions.
  unfoldable pub node_caches :
      KeyManagement B → List (Text × B) → Result GraphError (List (NodeCache B))
  node_caches parents [] = ok []
  node_caches parents ((key, children) ∷ rest) = key_number key >>= λ id.
      get parents (uint32_to_str id) >>= λ ancestors. node_caches parents rest >>= λ caches. ok (
        record { id = id; all_parents = bm.add ancestors id; all_children = bm.add children id }
        ∷ caches)

module _ {B M : Type 0} ⦃bm : Bitmaps B⦄ (h : Hash) (fuel : ℕ) where
  -- What `Cache` computes before it writes anything; `fuel` is that of both calls of `buildCache`.
  unfoldable pub compute_caches : Store B M → List ℕ → Result GraphError (List (NodeCache B))
  compute_caches s uncached = get_all_keys s >>= λ keys. get_nodes s keys >>= λ all_nodes.
      find_cycles all_nodes (length keys) >>= λ scc.
      build_cache fuel h uncached children_direction scc all_nodes >>= λ cached_children.
      build_cache fuel h uncached parents_direction scc all_nodes >>= λ cached_parents.
      get_all_keys_and_values cached_children >>= λ entries. node_caches cached_parents entries

  abbrev pub store_caches : Result GraphError (List (NodeCache B)) → Action B M (Unit {0})
  store_caches (err e) s = (err e, s)
  store_caches (ok caches) s =
      let (r, t) = save_caches caches s in
      elim r [ err e ↦ (err e, t) | ok _ ↦ clear_cache_stack t ]

  unfoldable pub cache : Action B M (Unit {0})
  cache s = elim (to_be_cached s) [
    | err e ↦ (err e, s)
    | ok [] ↦ (ok tt, s)
    | ok (id ∷ ids) ↦ store_caches (compute_caches s (id ∷ ids)) s
  ]
