-- ===== src/Cache/Cycles.antt =====
-- pkg/graph/cache.go: `findCycles`, Tarjan's algorithm. The stack has its top at the head.
use sapper.Base.{
  nat_eq, ℕ, zero, suc, ◌+◌, ◌%◌, ◌^◌, min, Map, lookup, insert, List, [], ◌∷◌, none, some, Result,
  ok, err, ◌>>=◌, ◌==◌, if◌then◌else◌,
}
use sapper.Bitmap.{Bitmaps}
use sapper.Graph.{Node, GraphError, nil_dereference, out_of_fuel}

pub record Tarjan (B : Type 0) : Type 0 where
  pub stack : List ℕ
  pub current : ℕ
  pub node_to_tarjan : Map ℕ ℕ
  pub low_link : Map ℕ ℕ
  pub in_stack : B

-- `m[id]` of a map of numbers.
abbrev pub number_at : Map ℕ ℕ → ℕ → ℕ
number_at m id = elim (lookup id m) [ none ↦ 0 | some n ↦ n ]

module _ {B : Type 0} ⦃bm : Bitmaps B⦄ where
  abbrev pub lower : ℕ → ℕ → Tarjan B → Tarjan B
  lower id n st = record st { low_link = insert id (min (number_at st.low_link id) n) st.low_link }

  unfoldable pub enter : ℕ → Tarjan B → Tarjan B
  enter id st =
      let current = st.current + 1 in
      record {
        stack = id ∷ st.stack;
        current = current;
        node_to_tarjan = insert id (current % 2 ^ 32) st.node_to_tarjan;
        low_link = insert id (current % 2 ^ 32) st.low_link;
        in_stack = bm.add st.in_stack id;
      }

  -- One round of the loop over the children, where `visit` is the recursive call.
  unfoldable pub child :
      (ℕ → Tarjan B → Result GraphError (Tarjan B))
      → ℕ
      → ℕ
      → Tarjan B
      → Result GraphError (Tarjan B)
  child visit id next st = elim (lookup next st.node_to_tarjan) [
    | none ↦ visit next st >>= λ t. ok (lower id (number_at t.low_link next) t)
    | some n ↦ ok (if bm.contains st.in_stack next then lower id n st else st)
  ]

  unfoldable pub all_children :
      (ℕ → Tarjan B → Result GraphError (Tarjan B))
      → ℕ
      → List ℕ
      → Tarjan B
      → Result GraphError (Tarjan B)
  unfolding child
  all_children visit id [] st = ok st
  all_children visit id (next ∷ rest) st =
      child visit id next st >>= λ t. all_children visit id rest t

  -- The loop that pops a component, down to its first node.
  unfoldable pub pop_component : ℕ → List ℕ → Tarjan B → Tarjan B
  pop_component root [] st = record st { stack = [] }
  pop_component root (id ∷ stack) st =
      let popped = record st {
        stack = stack;
        in_stack = bm.remove st.in_stack id;
        low_link = insert id (number_at st.node_to_tarjan root) st.low_link;
      } in
      let more = pop_component root stack popped in if root == id then popped else more

  unfoldable pub leave : ℕ → Tarjan B → Tarjan B
  unfolding pop_component
  leave id st =
      if number_at st.node_to_tarjan id == number_at st.low_link id
      then pop_component id st.stack st
      else st

module _ {B M : Type 0} ⦃bm : Bitmaps B⦄ (all_nodes : Map ℕ (Node B M)) where
  -- Each nested call enters another node; the fuel bounds how deep they nest.
  unfoldable pub tarjan_dfs : ℕ → ℕ → Tarjan B → Result GraphError (Tarjan B)
  unfolding enter all_children leave
  tarjan_dfs zero id st = err out_of_fuel
  tarjan_dfs (suc fuel) id st = elim (lookup id all_nodes) [
    | none ↦ err nil_dereference
    | some node ↦
        all_children (tarjan_dfs fuel) id (bm.to_array node.children) (enter id st) >>= λ t.
        ok (leave id t)
  ]

  abbrev start_at : ℕ → ℕ → Tarjan B → Result GraphError (Tarjan B)
  start_at fuel id st = elim (lookup id st.node_to_tarjan) [
    | some _ ↦ ok st
    | none ↦ tarjan_dfs fuel id st
  ]

  -- `for id := 1; id < numOfNodes+1; id++`, with the number of rounds left.
  unfoldable pub all_starts : ℕ → ℕ → ℕ → Tarjan B → Result GraphError (Tarjan B)
  unfolding tarjan_dfs
  all_starts fuel id zero st = ok st
  all_starts fuel id (suc left) st = start_at fuel id st >>= λ t. all_starts fuel (id + 1) left t

  unfoldable pub find_cycles : ℕ → Result GraphError (Map ℕ ℕ)
  unfolding all_starts
  find_cycles num_of_nodes =
      all_starts (suc num_of_nodes) 1 num_of_nodes
        (record { stack = []; current = 0; node_to_tarjan = []; low_link = []; in_stack = bm.new })
      >>= λ t. ok t.low_link
