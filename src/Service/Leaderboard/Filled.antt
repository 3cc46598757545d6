-- ===== src/Service/Leaderboard/Filled.antt =====
-- How a leaderboard is filled from the queries that the heap gives.
use sapper.Base.{
  refl, sym, ap, subst, ◌∙◌, ◌≡◌, ◌≤◌, ◌↔◌, ◌⊎◌, inl, inr, ℕ, Text, List, [], ◌∷◌, ◌++◌, Option,
  ◌>>=◌, Result, ok, err, length, arith, Result-cases,
}
use mathlib.Core.List.{Memᴰ}
use mathlib.Core.List.Memᴰ
use sapper.Bitmap.{Bitmaps}
use sapper.Graph.{GraphError}
use sapper.Ingest.Affected.Sorting.{Ascending}
use sapper.Service.{ServiceNode, node_to_service_node}
use sapper.Service.Leaderboard.{Query, ServiceQuery, fill}

abbrev node_ok : ServiceNode → Result GraphError ServiceNode
node_ok n = ok n

abbrev queries_ok : List ServiceQuery → Result GraphError (List ServiceQuery)
queries_ok l = ok l

ok_inj : (a b : List ServiceQuery) → queries_ok a ≡ queries_ok b → a ≡ b
ok_inj a b e = cc

node_inj : (a b : ServiceNode) → node_ok a ≡ node_ok b → a ≡ b
node_inj a b e = cc

clash : {l : List ServiceQuery} (x : GraphError) → err x ≡ queries_ok l → ⊥
clash x e = cc

abbrev show : ServiceNode → List ℕ → ServiceQuery
show n o = record { node = n; output = o }

built : (n : ServiceNode) (o : List ℕ) (r : ServiceQuery) → r.node ≡ n → r.output ≡ o → r ≡ show n o
built n o r e f = ap (λ m. show m r.output) e ∙ ap (λ p. show n p) f

abbrev pub outputs : ServiceQuery → ℕ
outputs q = length q.output

-- The most outputs first.
abbrev pub Descending : List ServiceQuery → Type 0
Descending [] = Unit
Descending (q ∷ qs) = ((r : ServiceQuery) → Memᴰ r qs → outputs r ≤ outputs q) × Descending qs

pub Descending-behind :
    (front back : List ServiceQuery) (q r : ServiceQuery)
    → Descending (front ++ q ∷ back)
    → Memᴰ r back
    → outputs r ≤ outputs q
Descending-behind [] back q r h m = h.0 r m
Descending-behind (f ∷ front) back q r h m = Descending-behind front back q r h.1 m

module _ {B M : Type 0} where
  abbrev pub size : Query B M → ℕ
  size q = length q.output

module _ {B M : Type 0} ⦃bm : Bitmaps B⦄ (marshal : M → Option Text) where
  -- The response has the query's node and outputs.
  abbrev pub Shown : Query B M → ServiceQuery → Type 0
  Shown q r = (node_to_service_node marshal q.node ≡ ok r.node) × (r.output ≡ q.output)

  abbrev filled :
      Query B M
      → List (Query B M)
      → List ServiceQuery
      → Result GraphError ServiceNode
      → Result GraphError (List ServiceQuery)
  filled q xs out r =
      r >>= λ node. fill marshal xs (record { node = node; output = q.output } ∷ out)

  pub fill-Descending :
      (xs : List (Query B M)) (out queries : List ServiceQuery)
      → Ascending size xs
      → Descending out
      → ((q : Query B M) (r : ServiceQuery) → Memᴰ q xs → Memᴰ r out → outputs r ≤ size q)
      → fill marshal xs out ≡ ok queries
      → Descending queries
        × ((r : ServiceQuery)
            → Memᴰ r queries ↔ (Memᴰ r out ⊎ (q : Query B M) × Memᴰ q xs × Shown q r))
  unfolding fill
  fill-Descending [] out queries up down apart e =
      subst
        (λ l.
          Descending l
          × ((r : ServiceQuery)
              → Memᴰ r l ↔ (Memᴰ r out ⊎ (q : Query B M) × Memᴰ q [] × Shown q r)))
        (ok_inj out queries e)
        (down, λ r. (inl, λ o. elim o [ inl m ↦ m | inr (_, m, _) ↦ absurd (Memᴰ.not-nil m) ]))
  fill-Descending (q ∷ xs) out queries up down apart e =
      elim (Result-cases (node_to_service_node marshal q.node)) [
        | inr (x, bad) ↦ absurd (clash x (sym (ap (filled q xs out) bad) ∙ e))
        | inl (n, good) ↦
            let shown : ServiceQuery = record { node = n; output = q.output } in
            let (down', exact) =
              fill-Descending xs (shown ∷ out) queries up.1
                ((λ r m. apart q r (Memᴰ.head refl) m), down)
                (λ p r m m'. elim (Memᴰ.cases_cons m') [
                  | inl same ↦ omega (arith, ap outputs same, up.0 p m)
                  | inr old ↦ apart p r (Memᴰ.tail m) old
                ])
                (sym (ap (filled q xs out) good) ∙ e) in
            (
              down',
              λ r. (
                λ m. elim ((exact r).0 m) [
                  | inl m' ↦ elim (Memᴰ.cases_cons m') [
                    | inl same ↦ inr (
                      q,
                      Memᴰ.head refl,
                      (
                        good ∙ ap (λ (t : ServiceQuery). node_ok t.node) (sym same),
                        ap (λ (t : ServiceQuery). t.output) same,
                      ),
                    )
                    | inr old ↦ inl old
                  ]
                  | inr (p, m', shows) ↦ inr (p, Memᴰ.tail m', shows)
                ],
                λ o. (exact r).1 (elim o [
                  | inl old ↦ inl (Memᴰ.tail old)
                  | inr (p, m, (node, output)) ↦ elim (Memᴰ.cases_cons m) [
                    | inl same ↦ inl (
                        Memᴰ.head (
                          built n q.output r
                            (node_inj r.node n (
                              sym node
                              ∙ ap (λ (t : Query B M). node_to_service_node marshal t.node) same
                              ∙ good))
                            (output ∙ ap (λ (t : Query B M). t.output) same)))
                    | inr later ↦ inr (p, later, (node, output))
                  ]
                ]),
              ),
            )
      ]

  pub fill_total :
      (xs : List (Query B M)) (out : List ServiceQuery)
      → ((q : Query B M)
          → Memᴰ q xs
          → (n : ServiceNode) × (node_to_service_node marshal q.node ≡ ok n))
      → (queries : List ServiceQuery) × (fill marshal xs out ≡ ok queries)
  unfolding fill
  fill_total [] out h = (out, refl)
  fill_total (q ∷ xs) out h =
      let (n, good) = h q (Memᴰ.head refl) in
      let (queries, e) =
        fill_total xs (record { node = n; output = q.output } ∷ out) (λ p m. h p (Memᴰ.tail m)) in
      (queries, ap (filled q xs out) good ∙ e)
