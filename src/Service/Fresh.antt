-- ===== src/Service/Fresh.antt =====
-- The cached index of libraries over the life of a server.
use mathlib.Core.List.{Memᴰ}
use mathlib.Core.List.Memᴰ
use mathlib.Core.Logic.{⊎_elim}
use sapper.Base.{
  nat_eq, text_eq, refl, sym, ap, subst, ◌∙◌, ◌≡◌, ◌↔◌, ◌⊎◌, inl, inr, ℕ, Text, List, [], ◌∷◌, ◌++◌,
  some,
}
use sapper.Bitmap.{Bitmaps}
use sapper.Graph.{Store}
use sapper.Ingest.Purl.{purl_to_package}
use sapper.Ingest.Loader.{LibraryIndex, IndexedPackage, packages_named}
use sapper.Service.{Service, invalidate_libraries, new_service}
use sapper.Service.Libraries.{library_at}
use sapper.Service.Changes.{
  Fresh, first_change, invalidate_libraries-Fresh, handled-Fresh, cons-head, cons-tail, cons_ne,
}
use sapper.Service.Steps.{
  Outside, Call, Thread, Running, changes_of, Ready, handled, handles, begins, changes, Steps,
  start, next, AllDone,
}

module _ {V F B M : Type 0} ⦃bm : Bitmaps B⦄ (o : Outside V F M) where
  -- How far a request can be: at its start, before the index is dropped, or done.
  abbrev Stage : Thread B M → Type 0
  Stage t = (t.rest ≡ changes_of o t.call) ⊎ (t.rest ≡ invalidate_libraries ∷ []) ⊎ (t.rest ≡ [])

  abbrev Pending : List (Thread B M) → Type 0
  Pending threads = (t : Thread B M) × Memᴰ t threads × (t.rest ≡ invalidate_libraries ∷ [])

  -- Some request has yet to drop the index, or the index is right.
  record Sound (r : Running B M) : Type 0 where
    stages : (t : Thread B M) → Memᴰ t r.threads → Stage t
    dropping : Pending r.threads ⊎ Fresh o r.service

  handles-Sound :
      (r : Running B M) (call : Call M)
      → Ready o call r.service
      → Sound r
      → Sound (record r { service = handled o call r.service })
  handles-Sound r call ready h = record {
    stages = h.stages;
    dropping = elim h.dropping [
      | inl pending ↦ inl pending
      | inr fresh ↦ inr (handled-Fresh o call r.service ready fresh)
    ];
  }

  begins-Sound :
      (r : Running B M) (call : Call M)
      → Sound r
      → Sound (record r { threads = record { call = call; rest = changes_of o call } ∷ r.threads })
  begins-Sound r call h = record {
    stages = λ t m. elim (Memᴰ.cases_cons m) [
      | inl e ↦ subst Stage (sym e) (inl refl)
      | inr m' ↦ h.stages t m'
    ];
    dropping = ⊎_elim (λ (t, m, e). inl (t, Memᴰ.tail m, e)) (λ f. inr f) h.dropping;
  }

  module _ (front back : List (Thread B M)) (call : Call M) (change : Service B M → Service B M)
      (rest : List (Service B M → Service B M)) where
    abbrev now : Thread B M
    now = record { call = call; rest = change ∷ rest }

    abbrev later : Thread B M
    later = record { call = call; rest = rest }

    here : (t : Thread B M) → Memᴰ t (front ++ t ∷ back)
    here t = Memᴰ.append_right front (Memᴰ.head refl)

    -- A thread after the change was there before, or is the one that made it.
    moved : (t u w : Thread B M) → Memᴰ t (front ++ u ∷ back) → (t ≡ u) ⊎ Memᴰ t (front ++ w ∷ back)
    moved t u w m = elim (Memᴰ.append_cases front m) [
      | inl m' ↦ inr (Memᴰ.append_left (w ∷ back) m')
      | inr m' ↦ elim (Memᴰ.cases_cons m') [
        | inl e ↦ inl e
        | inr m'' ↦ inr (Memᴰ.append_right front (Memᴰ.tail m''))
      ]
    ]

    -- What the thread that makes the change has left, and what the change does to the index.
    changed :
        (v : Service B M)
        → Stage now
        → Ready o call v
        → (rest ≡ invalidate_libraries ∷ [])
          ⊎ (rest ≡ [])
            × (Fresh o v → Fresh o (change v))
            × (now.rest ≡ invalidate_libraries ∷ [] → Fresh o (change v))
    changed v stage ready = elim stage [
      | inl full ↦ elim (first_change o call change rest v full ready) [
        | inl e ↦ inl e
        | inr (e, keeps) ↦ inr (e, keeps, dropped)
      ]
      | inr (inl last) ↦
          inr (cons-tail change invalidate_libraries rest [] last, λ _. dropped last, dropped)
      | inr (inr done) ↦ absurd (cons_ne change rest done)
    ]
      where
        dropped : now.rest ≡ invalidate_libraries ∷ [] → Fresh o (change v)
        dropped e =
            subst (λ (g : Service B M → Service B M). Fresh o (g v))
              (sym (cons-head change invalidate_libraries rest [] e))
              (invalidate_libraries-Fresh o v)

    changes-Sound :
        (r : Running B M)
        → r.threads ≡ front ++ now ∷ back
        → Ready o call r.service
        → Sound r
        → Sound (record { service = change r.service; threads = front ++ later ∷ back })
    changes-Sound r split ready h =
        let was : (t : Thread B M) → Memᴰ t (front ++ now ∷ back) → Memᴰ t r.threads =
          λ t m. subst (λ l. Memᴰ t l) (sym split) m in
        let outcome = changed r.service (h.stages now (was now (here now))) ready in
        record {
          stages = λ t m. elim (moved t later now m) [
            | inl e ↦
                subst Stage (sym e) (⊎_elim (λ e. inr (inl e)) (λ (e, _, _). inr (inr e)) outcome)
            | inr m' ↦ h.stages t (was t m')
          ];
          dropping = elim outcome [
            | inl e ↦ inl (later, here later, e)
            | inr (_, keeps, dropped) ↦ elim h.dropping [
              | inr fresh ↦ inr (keeps fresh)
              | inl (t, m, e) ↦ elim (moved t now later (subst (λ l. Memᴰ t l) split m)) [
                | inl same ↦ inr (dropped (sym (ap (λ u. u.rest) same) ∙ e))
                | inr m' ↦ inl (t, m', e)
              ]
            ]
          ];
        }

  abbrev started : Store B M → Running B M
  started s = record { service = new_service s; threads = [] }

  Steps-Sound : (s : Store B M) (r : Running B M) → Steps o (started s) r → Sound r
  Steps-Sound s r start = record {
    stages = λ t m. absurd (Memᴰ.not-nil m);
    dropping = inr (λ idx e. absurd cc);
  }
  Steps-Sound s r (next {p} steps (handles call ready)) =
      handles-Sound p call ready (Steps-Sound s p steps)
  Steps-Sound s r (next {p} steps (begins call)) = begins-Sound p call (Steps-Sound s p steps)
  Steps-Sound s r (next {p} steps (changes front back call change rest split ready)) =
      changes-Sound front back call change rest p split ready (Steps-Sound s p steps)

  -- Whatever requests have come to a server, handled at once or with their changes interleaved in any
  -- order, when all of them are done, an index that is cached holds under each name the packages of that name among
  -- the libraries of the storage, and no other. When the OSV and scorecard loaders and `SetDependency`
  -- run, nodes are stored under IDs that the counter gave out, and enough IDs are left.
  pub steps-library_at :
      (s : Store B M) (r : Running B M)
      → Steps o (record { service = new_service s; threads = [] }) r
      → AllDone o r
      → (idx : LibraryIndex) → r.service.libraries ≡ some idx
      → (name : Text) (p : IndexedPackage)
      → Memᴰ p (packages_named name idx) ↔ (
          (id : ℕ) × (purl : Text) × (library_at r.service.storage id ≡ some (p.id, purl))
          × (purl_to_package o.from_string purl ≡ some p.info)
          × (p.info.name ≡ name))
  steps-library_at s r steps done idx e name p =
      let fresh : Fresh o r.service = elim (Sound.dropping (Steps-Sound s r steps)) [
        | inl (t, m, left) ↦ absurd (cons_ne invalidate_libraries [] (sym left ∙ done t m))
        | inr fresh ↦ fresh
      ] in
      let (to, from) = fresh idx e name p in
      (
        λ m. let (id, (purl, library, info, named)) = to m in (id, purl, library, info, named),
        λ (id, purl, library, info, named). from (id, (purl, library, info, named)),
      )
