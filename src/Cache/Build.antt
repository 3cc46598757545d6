-- ===== src/Cache/Build.antt =====
-- pkg/graph/cache.go: `buildCache` and what it calls. The stack has its top at the head.
use sapper.Base.{
  get_elem?, nat_eq, text_eq, ℕ, zero, suc, ◌+◌, Text, Map, lookup, insert, List, [], ◌∷◌, ◌++◌,
  none, some, Result, ok, err, ◌>>=◌, ◌==◌, if◌then◌else◌,
}
use sapper.Bitmap.{Bitmaps}
use sapper.Numbers.{uint32_to_str, str_to_uint32}
use sapper.Graph.{
  Node, GraphError, Direction, children_direction, nil_dereference, out_of_fuel, bad_number,
}
use sapper.Cache.Keys.{Hash, KeyManagement, new_key_management, bind_keys, set, get}
use sapper.Cache.Cycles.{number_at}

pub record StackElm : Type 0 where
  pub id : ℕ
  pub todo_index : ℕ

pub record TodoFuturePair : Type 0 where
  pub todo_nodes : List ℕ
  pub future_nodes : List ℕ

-- The two relations between components, and the cache that is being built.
pub record KeyMaps (B : Type 0) : Type 0 where
  pub cache : KeyManagement B
  pub children : KeyManagement B
  pub parents : KeyManagement B

-- The keys of each component: `parentToKeys[v] = append(parentToKeys[v], str(k))`.
unfoldable pub group_keys : Map ℕ ℕ → Map ℕ (List Text) → Map ℕ (List Text)
group_keys [] groups = groups
group_keys ((k, v) ∷ scc) groups = group_keys scc (
    insert v ((elim (lookup v groups) [ none ↦ [] | some keys ↦ keys ]) ++ uint32_to_str k ∷ [])
      groups)

-- utils.StrToUint32, with the errors of pkg/graph.
abbrev pub key_number : Text → Result GraphError ℕ
key_number key = elim (str_to_uint32 key) [ ok n ↦ ok n | err _ ↦ err bad_number ]

-- What the loop over the keys of a component collects: its children, its parents, and itself.
pub record Members (B : Type 0) : Type 0 where
  pub children_cache : B
  pub parent_cache : B
  pub key_cache : B

module _ {B M : Type 0} ⦃bm : Bitmaps B⦄ (all_nodes : Map ℕ (Node B M)) where
  unfoldable pub collect_members : List Text → Members B → Result GraphError (Members B)
  collect_members [] ms = ok ms
  collect_members (key ∷ keys) ms = key_number key >>= λ int_key. elim (lookup int_key all_nodes) [
    | none ↦ err nil_dereference
    | some node ↦ collect_members keys (record {
      children_cache = bm.or ms.children_cache node.children;
      parent_cache = bm.or ms.parent_cache node.parents;
      key_cache = bm.add (bm.add ms.key_cache int_key) node.id;
    })
  ]

  abbrev bound : Hash → List Text → KeyMaps B → KeyMaps B
  bound h keys ms = record {
    cache = bind_keys h keys ms.cache;
    children = bind_keys h keys ms.children;
    parents = bind_keys h keys ms.parents;
  }

  abbrev filled : List Text → Members B → KeyMaps B → KeyMaps B
  filled [] found ms = ms
  filled (key ∷ keys) found ms = record {
    cache = set key found.key_cache ms.cache;
    children = set key (bm.and_not found.children_cache found.key_cache) ms.children;
    parents = set key (bm.and_not found.parent_cache found.key_cache) ms.parents;
  }

  -- The loop over the components.
  unfoldable pub bind_groups : Hash → Map ℕ (List Text) → KeyMaps B → Result GraphError (KeyMaps B)
  unfolding collect_members
  bind_groups h [] ms = ok ms
  bind_groups h ((_, keys) ∷ groups) ms =
      collect_members keys
        (record { children_cache = bm.new; parent_cache = bm.new; key_cache = bm.new })
      >>= λ found. bind_groups h groups (filled keys found (bound h keys ms))

  unfoldable pub add_cycles_to_bind_map : Hash → Map ℕ ℕ → KeyMaps B → Result GraphError (KeyMaps B)
  unfolding group_keys bind_groups
  add_cycles_to_bind_map h scc ms = bind_groups h (group_keys scc []) ms

module _ {B : Type 0} ⦃bm : Bitmaps B⦄ where
  abbrev pub todo_and_future :
      Text → KeyManagement B → KeyManagement B → Result GraphError TodoFuturePair
  todo_and_future key todo future = get todo key >>= λ t. get future key >>= λ f.
      ok (record { todo_nodes = bm.to_array t; future_nodes = bm.to_array f })

  abbrev pub add_all : List ℕ → B → B
  add_all [] b = b
  add_all (id ∷ ids) b = add_all ids (bm.add b id)

module _ {B M : Type 0} ⦃bm : Bitmaps B⦄ where
  unfoldable pub get_todo_and_future_nodes :
      KeyMaps B → Node B M → Direction → Result GraphError TodoFuturePair
  get_todo_and_future_nodes ms cur direction =
      let key = uint32_to_str cur.id in
      elim direction [
        | children_direction ↦ todo_and_future key ms.children ms.parents
        | _ ↦ todo_and_future key ms.parents ms.children
      ]

  -- The result, and the memo after it.
  unfoldable pub get_todo_and_future_nodes_cached :
      KeyMaps B
      → Node B M
      → Direction
      → Map ℕ TodoFuturePair
      → Result GraphError (TodoFuturePair × Map ℕ TodoFuturePair)
  unfolding get_todo_and_future_nodes
  get_todo_and_future_nodes_cached ms cur direction memo = elim (lookup cur.id memo) [
    | some pair ↦ ok (pair, memo)
    | none ↦
        get_todo_and_future_nodes ms cur direction >>= λ pair. ok (pair, insert cur.id pair memo)
  ]

module _ {B : Type 0} ⦃bm : Bitmaps B⦄ where
  unfoldable pub add_to_cache : KeyManagement B → ℕ → ℕ → Result GraphError (KeyManagement B)
  unfolding get set
  add_to_cache nkm cur todo = get nkm (uint32_to_str cur) >>= λ cur_value.
      get nkm (uint32_to_str todo) >>= λ todo_value.
      ok (set (uint32_to_str cur) (bm.add (bm.or cur_value todo_value) cur) nkm)

pub record Progress (B : Type 0) : Type 0 where
  pub stack : List StackElm
  pub cache : KeyManagement B
  pub already_cached : B
  pub todo_future_cache : Map ℕ TodoFuturePair

-- Pushes the future nodes, the last one on top.
abbrev pub push_all : List ℕ → List StackElm → List StackElm
push_all [] stack = stack
push_all (id ∷ ids) stack = push_all ids (record { id = id; todo_index = 0 } ∷ stack)

module _ {B M : Type 0} ⦃bm : Bitmaps B⦄ (ms : KeyMaps B) (direction : Direction) (scc : Map ℕ ℕ)
    (all_nodes : Map ℕ (Node B M)) where
  -- One todo node of the node on top of the stack.
  unfoldable pub todo_step :
      Node B M → ℕ → ℕ → List StackElm → Progress B → Result GraphError (Progress B)
  unfolding add_to_cache
  todo_step cur index todo rest p =
      let next = record { id = cur.id; todo_index = index + 1 } ∷ rest in
      if number_at scc cur.id == number_at scc todo
      then ok p
      else if bm.contains p.already_cached todo
      then (add_to_cache p.cache cur.id todo >>= λ cache.
          ok (record p { stack = next; cache = cache }))
      else ok (record p { stack = record { id = todo; todo_index = 0 } ∷ next })

  -- The rest of a round, once the todo and the future nodes are known. The index never passes the end.
  unfoldable pub round_with :
      Node B M → ℕ → List StackElm → TodoFuturePair → Progress B → Result GraphError (Progress B)
  unfolding todo_step
  round_with cur index rest pair p = elim (get_elem? pair.todo_nodes index) [
    | none ↦ ok (record p {
      already_cached = bm.add p.already_cached cur.id;
      stack = push_all pair.future_nodes rest;
    })
    | some todo ↦ todo_step cur index todo rest p
  ]

  -- One round of the inner loop, for the top of the stack.
  unfoldable pub cache_round :
      StackElm → List StackElm → Progress B → Result GraphError (Progress B)
  unfolding get_todo_and_future_nodes_cached round_with
  cache_round top rest p = elim (lookup top.id all_nodes) [
    | none ↦ err nil_dereference
    | some cur ↦
        if bm.contains p.already_cached cur.id
        then ok (record p { stack = rest })
        else (get_todo_and_future_nodes_cached ms cur direction p.todo_future_cache
            >>= λ (pair, memo).
                round_with cur top.todo_index rest pair (record p { todo_future_cache = memo }))
  ]

  unfoldable pub cache_loop : ℕ → Progress B → Result GraphError (Progress B)
  unfolding cache_round
  cache_loop zero p = elim p.stack [ [] ↦ ok p | _ ∷ _ ↦ err out_of_fuel ]
  cache_loop (suc fuel) p = elim p.stack [
    | [] ↦ ok p
    | top ∷ rest ↦ cache_round top rest p >>= λ q. cache_loop fuel q
  ]

  -- The loop over the nodes to process.
  unfoldable pub cache_nodes : ℕ → List ℕ → Progress B → Result GraphError (Progress B)
  unfolding cache_loop
  cache_nodes fuel [] p = ok p
  cache_nodes fuel (id ∷ ids) p =
      cache_loop fuel (record p { stack = record { id = id; todo_index = 0 } ∷ [] }) >>= λ q.
      cache_nodes fuel ids q

module _ {B M : Type 0} ⦃bm : Bitmaps B⦄ where
  -- `fuel` bounds the rounds for each node.
  unfoldable pub build_cache :
      ℕ
      → Hash
      → List ℕ
      → Direction
      → Map ℕ ℕ
      → Map ℕ (Node B M)
      → Result GraphError (KeyManagement B)
  unfolding add_cycles_to_bind_map cache_nodes
  build_cache fuel h uncached direction scc all_nodes =
      add_cycles_to_bind_map all_nodes h scc (record {
        cache = new_key_management;
        children = new_key_management;
        parents = new_key_management;
      })
      >>= λ ms.
          cache_nodes ms direction scc all_nodes fuel (bm.to_array (add_all uncached bm.new))
            (record {
              stack = [];
              cache = ms.cache;
              already_cached = bm.new;
              todo_future_cache = [];
            })
          >>= λ p. ok p.cache
