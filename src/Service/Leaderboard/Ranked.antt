-- ===== src/Service/Leaderboard/Ranked.antt =====
-- The order and the completeness of a leaderboard.
use sapper.Base.{
  refl, sym, ap, subst, ◌∙◌, ◌≡◌, ◌≤◌, ◌↔◌, inl, inr, ℕ, Text, List, [], ◌∷◌, ◌++◌, Option, none,
  Result, ok, err, length, Result-cases,
}
use mathlib.Core.List.{Memᴰ}
use mathlib.Core.List.Memᴰ
use sapper.Bitmap.{Bitmaps}
use sapper.Graph.{Node, GraphError}
use sapper.Ingest.Affected.Sorting.{stable_sort-Ascending, stable_sort-Memᴰ, by_key}
use sapper.Service.{ServiceNode, node_to_service_node}
use sapper.Service.Leaderboard.{
  Query, ServiceQuery, pop_all, less, first_error, finished_queries, rank,
}
use sapper.Service.Leaderboard.Filled.{
  Descending, Descending-behind, size, fill-Descending, fill_total,
}

module _ {B M : Type 0} ⦃bm : Bitmaps B⦄ (marshal : M → Option Text) where
  abbrev mk : Node B M → List ℕ → Query B M
  mk n o = record { node = n; output = o }

  abbrev collected :
      (Node B M → Result GraphError B)
      → Node B M
      → List (Query B M)
      → Result GraphError B
      → List (Query B M)
  collected run n rest r = elim r [ err e ↦ rest | ok b ↦ mk n (bm.to_array b) ∷ rest ]

  finished_queries-Memᴰ :
      (run : Node B M → Result GraphError B) (finished : List (Node B M)) (q : Query B M)
      → Memᴰ q (finished_queries run finished)
        ↔ ((n : Node B M) × (b : B) × Memᴰ n finished × (run n ≡ ok b) × (q ≡ mk n (bm.to_array b)))
  unfolding finished_queries
  finished_queries-Memᴰ run [] q =
      (λ m. absurd (Memᴰ.not-nil m), λ (_, _, m, _, _). absurd (Memᴰ.not-nil m))
  finished_queries-Memᴰ run (n ∷ rest) q =
      let (to, from) = finished_queries-Memᴰ run rest q in
      elim (Result-cases (run n)) [
        | inr (x, bad) ↦
            rw (bad, finished_queries)
              (
                λ m. let (p, b, m', ran, same) = to m in (p, b, Memᴰ.tail m', ran, same),
                λ (p, b, m, ran, same). elim (Memᴰ.cases_cons m) [
                  | inl here ↦ absurd (clash_run x b (sym bad ∙ ap run (sym here) ∙ ran))
                  | inr later ↦ from (p, b, later, ran, same)
                ],
              )
        | inl (c, good) ↦
            rw (good, finished_queries)
              (
                λ m. elim (Memᴰ.cases_cons m) [
                  | inl same ↦ (n, c, Memᴰ.head refl, good, same)
                  | inr later ↦
                      let (p, b, m', ran, same) = to later in (p, b, Memᴰ.tail m', ran, same)
                ],
                λ (p, b, m, ran, same). elim (Memᴰ.cases_cons m) [
                  | inl here ↦ Memᴰ.head (
                      same
                      ∙ ap (λ k. mk k (bm.to_array b)) here
                      ∙ ap (λ k. mk n (bm.to_array k)) (run_inj b c (sym ran ∙ ap run here ∙ good)))
                  | inr later ↦ Memᴰ.tail (from (p, b, later, ran, same))
                ],
              )
      ]
    where
      ran : B → Result GraphError B
      ran b = ok b

      run_inj : (b c : B) → ran b ≡ ran c → b ≡ c
      run_inj b c e = cc

      clash_run : (x : GraphError) (b : B) → err x ≡ ran b → ⊥
      clash_run x b e = cc

  -- When no error is there at the `select`, whatever errors come later, and the nodes can be encoded,
  -- there is a leaderboard. It has the most outputs first, and shows the nodes whose query succeeded,
  -- all of them and no other.
  pub rank-Shown :
      (run : Node B M → Result GraphError B) (seen finished : List (Node B M))
      → first_error run seen ≡ none
      → ((n : Node B M)
          → Memᴰ n finished
          → (m : ServiceNode) × (node_to_service_node marshal n ≡ ok m))
      → (queries : List ServiceQuery) × (rank marshal run seen finished ≡ ok queries)
        × ((front back : List ServiceQuery) (q r : ServiceQuery)
            → queries ≡ front ++ q ∷ back
            → Memᴰ r back
            → length r.output ≤ length q.output)
        × ((r : ServiceQuery)
            → Memᴰ r queries ↔ (
                (n : Node B M) × (b : B) × Memᴰ n finished
                × (run n ≡ ok b)
                × (node_to_service_node marshal n ≡ ok r.node)
                × (r.output ≡ bm.to_array b)))
  unfolding rank pop_all less
  rank-Shown run seen finished no_error encodes =
      let found = finished_queries run finished in
      let (queries, e) = fill_total marshal (pop_all found) [] (λ q m.
        let (n, b, m', _, same) =
          (finished_queries-Memᴰ run finished q).0 ((stable_sort-Memᴰ (by_key size) q found).0 m) in
        let (s, good) = encodes n m' in
        (s, ap (λ (t : Query B M). node_to_service_node marshal t.node) same ∙ good)) in
      let (down, exact) =
        fill-Descending marshal (pop_all found) [] queries (stable_sort-Ascending size found) tt
          (λ _ _ _ m. absurd (Memᴰ.not-nil m)) e in
      (
        queries,
        rw (no_error, rank) e,
        (λ front back q r split m.
            Descending-behind front back q r (subst Descending split down) m),
        (λ r. (
          λ m. elim ((exact r).0 m) [
            | inl none_yet ↦ absurd (Memᴰ.not-nil none_yet)
            | inr (q, m', (node, output)) ↦
                let (n, b, m'', ran, same) =
                  (finished_queries-Memᴰ run finished q).0
                    ((stable_sort-Memᴰ (by_key size) q found).0 m') in
                (
                  n,
                  b,
                  m'',
                  ran,
                  sym (ap (λ (t : Query B M). node_to_service_node marshal t.node) same) ∙ node,
                  output ∙ ap (λ (t : Query B M). t.output) same,
                )
          ],
          λ (n, b, m, ran, node, output). (exact r).1 (
              inr (
                mk n (bm.to_array b),
                (stable_sort-Memᴰ (by_key size) (mk n (bm.to_array b)) found).1 (
                    (finished_queries-Memᴰ run finished (mk n (bm.to_array b))).1
                      (n, b, m, ran, refl)),
                (node, output),
              )),
        )),
      )
