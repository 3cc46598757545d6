-- ===== src/Graph/Storage.antt =====
-- pkg/graph/mockGraph.go: the methods of the storage, in the order of the source. A read is a
-- function of the storage, a write gives the storage after it.
use sapper.Base.{
  nat_eq, text_eq, ℕ, ◌+◌, ◌%◌, ◌^◌, Text, text, Map, lookup, insert, keys, List, [], ◌∷◌, ◌++◌,
  Option, Bool, none, some, Result, ok, err, if◌then◌else◌,
}
use sapper.Graph.{
  Node, NodeCache, Op, Store, GraphError, Action, node_not_found, name_not_found, cache_not_found,
  no_custom_data, failed, parse_failed,
}

module _ {V : Type 0} where
  -- The loop of `GetNodes` and of `GetCaches`: IDs that are missing are left out.
  unfoldable pub collect : Map ℕ V → List ℕ → Map ℕ V → Map ℕ V
  collect stored [] out = out
  collect stored (id ∷ ids) out =
      collect stored ids (elim (lookup id stored) [ none ↦ out | some v ↦ insert id v out ])

module _ {B : Type 0} where
  unfoldable pub insert_caches : List (NodeCache B) → Map ℕ (NodeCache B) → Map ℕ (NodeCache B)
  insert_caches [] m = m
  insert_caches (cache ∷ caches) m = insert_caches caches (insert cache.id cache m)

-- fmt.Sprintf("%s:%s", tag, key)
abbrev pub full_key : Text → Text → Text
full_key tag key = tag ++ (text ":" ++ key)

module _ {B M : Type 0} where
  -- `if m.XErr != nil { return m.XErr }` before the rest of a read.
  abbrev pub checked : {A : Type 0} → Op → Store B M → Result GraphError A → Result GraphError A
  checked op s r = if s.fails op then err (failed op) else r

  -- The same before the rest of a write.
  abbrev pub update : Op → (Store B M → Store B M) → Action B M (Unit {0})
  update op f s = if s.fails op then (err (failed op), s) else (ok tt, f s)

  unfoldable pub save_node : Node B M → Action B M (Unit {0})
  save_node node = update (Op.save_node node.id) (λ m. record m {
    ids = insert node.name node.id m.ids;
    nodes = insert node.id node m.nodes;
    pending = m.pending ++ node.id ∷ [];
  })

  unfoldable pub get_node : Store B M → ℕ → Result GraphError (Node B M)
  get_node m id =
      checked Op.get_node m
        (elim (lookup id m.nodes) [ none ↦ err (node_not_found id) | some node ↦ ok node ])

  -- The loop of `GetNodesByGlob`; `matches` is `filepath.Match`, and `none` a malformed pattern.
  unfoldable pub matching : (Text → Option Bool) → Map ℕ (Node B M) → Option (List (Node B M))
  matching matches [] = some []
  matching matches ((_, node) ∷ rest) = elim (matches node.name) [
    | none ↦ none
    | some matched ↦ elim (matching matches rest) [
      | none ↦ none
      | some nodes ↦ some (if matched then node ∷ nodes else nodes)
    ]
  ]

  unfoldable pub get_nodes_by_glob :
      (Text → Text → Option Bool) → Store B M → Text → Result GraphError (List (Node B M))
  unfolding matching
  get_nodes_by_glob matches m pattern =
      checked Op.get_nodes_by_glob m (elim (matching (matches pattern) m.nodes) [
        | none ↦ err (parse_failed pattern)
        | some nodes ↦ ok nodes
      ])

  unfoldable pub get_all_keys : Store B M → Result GraphError (List ℕ)
  get_all_keys m = checked Op.get_all_keys m (ok (keys m.nodes))

  unfoldable pub save_cache : NodeCache B → Action B M (Unit {0})
  save_cache cache = update Op.save_cache (λ m. record m { cache = insert cache.id cache m.cache })

  unfoldable pub to_be_cached : Store B M → Result GraphError (List ℕ)
  to_be_cached m = checked Op.to_be_cached m (ok m.pending)

  unfoldable pub add_node_to_cached_stack : ℕ → Action B M (Unit {0})
  add_node_to_cached_stack id =
      update Op.add_node_to_cached_stack (λ m. record m { pending = m.pending ++ id ∷ [] })

  unfoldable pub clear_cache_stack : Action B M (Unit {0})
  clear_cache_stack = update Op.clear_cache_stack (λ m. record m { pending = [] })

  unfoldable pub get_cache : Store B M → ℕ → Result GraphError (NodeCache B)
  get_cache m id =
      checked Op.get_cache m
        (elim (lookup id m.cache) [ none ↦ err (cache_not_found id) | some cache ↦ ok cache ])

  -- `m.idCounter++` on a uint32.
  unfoldable pub generate_id : Action B M ℕ
  generate_id m =
      let next = (m.id_counter + 1) % 2 ^ 32 in
      if m.fails Op.generate_id
      then (err (failed Op.generate_id), m)
      else (ok next, record m { id_counter = next })

  unfoldable pub name_to_id : Store B M → Text → Result GraphError ℕ
  name_to_id m name =
      checked Op.name_to_id m
        (elim (lookup name m.ids) [ none ↦ err (name_not_found name) | some id ↦ ok id ])

  unfoldable pub get_nodes : Store B M → List ℕ → Result GraphError (Map ℕ (Node B M))
  get_nodes m ids = checked Op.get_nodes m (ok (collect m.nodes ids []))

  unfoldable pub save_caches : List (NodeCache B) → Action B M (Unit {0})
  unfolding insert_caches
  save_caches caches =
      update Op.save_caches (λ m. record m { cache = insert_caches caches m.cache })

  unfoldable pub get_caches : Store B M → List ℕ → Result GraphError (Map ℕ (NodeCache B))
  get_caches m ids = checked Op.get_caches m (ok (collect m.cache ids []))

  unfoldable pub remove_all_caches : Action B M (Unit {0})
  remove_all_caches =
      update Op.remove_all_caches
        (λ m. record m { pending = m.pending ++ keys m.cache; cache = [] })

  unfoldable pub add_or_update_custom_data : Text → Text → Text → Text → Action B M (Unit {0})
  add_or_update_custom_data tag key data_key value = update Op.add_or_update_custom_data (λ m.
      record m {
        db =
            insert (full_key tag key)
              (insert data_key value
                (elim (lookup (full_key tag key) m.db) [ none ↦ [] | some fields ↦ fields ]))
              m.db;
      })

  unfoldable pub get_custom_data : Store B M → Text → Text → Result GraphError (Map Text Text)
  get_custom_data m tag key = checked Op.get_custom_data m (elim (lookup (full_key tag key) m.db) [
    | none ↦ err (no_custom_data (full_key tag key))
    | some fields ↦ ok fields
  ])
