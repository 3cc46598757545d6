-- ===== src/Tests/Caches.antt =====
-- `Cache` on graphs without and with a cycle, with the identity for the hash.
use sapper.Base.{◌⊎◌, err, nat_eq, text_eq, ℕ, ◌≡◌, refl, List, [], ◌∷◌, some, map, values, ok}
use sapper.Bitmap.Listed.{listed}
use sapper.Numbers.{uint32_to_str, str_to_uint32, digits, parse_digits}
use sapper.Graph.{GraphError, NodeCache}
use sapper.Graph.Storage.{
  to_be_cached, get_all_keys, get_nodes, save_caches, clear_cache_stack, collect, insert_caches,
}
use sapper.Graph.Edit.{set_dependency}
use sapper.Cache.{cache, compute_caches, node_caches}
use sapper.Cache.Outcome.{cache-Outcome}
use sapper.Cache.Keys.{Hash, bind_keys, set, get, get_all_keys_and_values, all_values, point_to}
use sapper.Cache.Cycles.{
  find_cycles, all_starts, tarjan_dfs, all_children, child, enter, leave, pop_component,
}
use sapper.Cache.Build.{
  build_cache, cache_nodes, cache_loop, cache_round, round_with, todo_step, add_to_cache,
  get_todo_and_future_nodes, get_todo_and_future_nodes_cached, add_cycles_to_bind_map, bind_groups,
  collect_members, group_keys,
}
use sapper.Tests.Sample.{Graph, two_edges, app, vuln, program}

abbrev plain : Hash
plain = record { sum256 = λ t. t; sprint = λ t. t; hex = λ t. t }

abbrev cached : Graph → List (ℕ × List ℕ × List ℕ)
cached g =
    map {B = ℕ × List ℕ × List ℕ}
      (λ (e : NodeCache (List ℕ)).
        (e.id, listed.to_array e.all_parents, listed.to_array e.all_children))
      (values (cache plain 30 g).1.cache)

unfoldable whole : Unit {0}
unfolding program cache compute_caches node_caches bind_keys set get get_all_keys_and_values
    all_values point_to find_cycles all_starts tarjan_dfs all_children child enter leave
    pop_component build_cache cache_nodes cache_loop cache_round round_with todo_step add_to_cache
    get_todo_and_future_nodes get_todo_and_future_nodes_cached add_cycles_to_bind_map bind_groups
    collect_members group_keys to_be_cached get_all_keys get_nodes save_caches clear_cache_stack
    collect insert_caches uint32_to_str str_to_uint32 digits parse_digits
whole = tt

-- 1 → 2 → 3
chain_run :
    cached two_edges
    ≡ (1, 1 ∷ [], 1 ∷ 2 ∷ 3 ∷ []) ∷ (2, 1 ∷ 2 ∷ [], 2 ∷ 3 ∷ []) ∷ (3, 1 ∷ 2 ∷ 3 ∷ [], 3 ∷ []) ∷ []
unfolding whole
chain_run = refl

abbrev cyclic : Graph
cyclic =
    (set_dependency (some (record vuln { parents = 2 ∷ [] }))
      (some (record app { children = 2 ∷ [] })) two_edges).1

-- 1 → 2 → 3 → 1: one component.
cycle_run :
    let all : List ℕ = 1 ∷ 2 ∷ 3 ∷ [] in
    cached cyclic ≡ (1, all, all) ∷ (2, all, all) ∷ (3, all, all) ∷ []
unfolding whole
cycle_run = refl

-- Nothing is left to cache.
pending_run : ((cache plain 30 two_edges).0 ≡ ok tt) × ((cache plain 30 two_edges).1.pending ≡ [])
unfolding whole
pending_run = (refl, refl)

cache-Outcome_example :
    let r = (cache plain 30 two_edges).0 in
    let t = (cache plain 30 two_edges).1 in
    (t.nodes ≡ two_edges.nodes)
    × (t.ids ≡ two_edges.ids)
    × (((r ≡ ok tt) × (t.pending ≡ []))
        ⊎ ((e : GraphError) × (r ≡ err e) × (t.pending ≡ two_edges.pending)))
cache-Outcome_example = cache-Outcome plain 30 two_edges
