-- ===== src/Report/Forest/Labels.antt =====
-- The union-find of `mergeAliases` keeps the classes of the findings that names link.
use sapper.Base.{
  nat_eq, text_eq, ℕ, zero, suc, ◌+◌, ◌≤◌, ◌≡◌, refl, sym, ◌∙◌, ap, subst, Text, lookup, insert,
  lookup-insert, Bool, true, false, List, [], ◌∷◌, Option, none, some, if◌then◌else◌, length, elem,
  arith, Bool-cases, Option-cases, inl, inr, nat_beq, nat_beq_iff, text_beq, text_beq_iff,
}
use sapper.Report.Forest.{Forest, unite, claim, claim_all, claim_each, name_count}
use sapper.Report.Forest.Chains.{Leads-le, Represents, relabel, unite-Represents}

-- The names of the finding at an index.
abbrev pub names_at : List (List Text) → ℕ → List Text
names_at [] k = []
names_at (names ∷ rest) zero = names
names_at (names ∷ rest) (suc k) = names_at rest k

-- Two findings that a chain of shared names links.
pub data Linked (all : List (List Text)) : ℕ → ℕ → Type 0 where
  share :
      (a b : ℕ) (name : Text)
      → elem name (names_at all a) ≡ true
      → elem name (names_at all b) ≡ true
      → Linked all a b
  same : (a : ℕ) → Linked all a a
  back : (a b : ℕ) → Linked all a b → Linked all b a
  through : (a b c : ℕ) → Linked all a b → Linked all b c → Linked all a c

relabel_mono :
    (label : ℕ → ℕ) (i j a b : ℕ) → label a ≡ label b → relabel label i j a ≡ relabel label i j b
relabel_mono label i j a b h = ap (λ x. if nat_beq x (label i) then label j else x) h

relabel_joins : (label : ℕ → ℕ) (i j : ℕ) → relabel label i j i ≡ relabel label i j j
relabel_joins label i j =
    ground (arith, nat_beq_iff (label i) (label i), nat_beq_iff (label j) (label i))

some-ne-none : (j : ℕ) → some j ≡ none → ⊥
some-ne-none j e = cc

module _ (all : List (List Text)) where
  -- Equal labels come from links.
  abbrev pub Sound : (ℕ → ℕ) → Type 0
  Sound label = (a b : ℕ) → label a ≡ label b → Linked all a b

  relabel-Sound :
      (label : ℕ → ℕ) (i j : ℕ) → Linked all i j → Sound label → Sound (relabel label i j)
  relabel-Sound label i j link sound a b =
      split (nat_beq (label a) (label i)) (nat_beq (label b) (label i))
        (nat_beq_iff (label a) (label i)).0 (nat_beq_iff (label b) (label i)).0
    where
      split :
          (x y : Bool)
          → (x ≡ true → label a ≡ label i)
          → (y ≡ true → label b ≡ label i)
          → (if x then label j else label a) ≡ (if y then label j else label b)
          → Linked all a b
      split true true f g h = sound a b (f refl ∙ sym (g refl))
      split true false f g h = through a i b (sound a i (f refl)) (through i j b link (sound j b h))
      split false true f g h =
          through a j b (sound a j h) (through j i b (back i j link) (sound i b (sym (g refl))))
      split false false f g h = sound a b h

  -- The forest, the labelling that it stands for, and what both say of the findings so far.
  pub record Agrees (d : ℕ) (f : Forest) (label : ℕ → ℕ) : Type 0 where
    pub represents : Represents f.parent d label
    pub sound : Sound label
    pub owned :
        (name : Text) (j : ℕ) → lookup name f.owner ≡ some j → elem name (names_at all j) ≡ true

  -- The finding `i` is in the class of the owner of the name.
  abbrev pub Sees : Forest → (ℕ → ℕ) → ℕ → Text → Type 0
  Sees f label i name = (j : ℕ) × (lookup name f.owner ≡ some j) × (label i ≡ label j)

  -- What is in one class stays so, and owners stay.
  pub record Extends (f : Forest) (label : ℕ → ℕ) (g : Forest) (later : ℕ → ℕ) : Type 0 where
    pub joined : (a b : ℕ) → label a ≡ label b → later a ≡ later b
    pub owners : (name : Text) (j : ℕ) → lookup name f.owner ≡ some j → lookup name g.owner ≡ some j

  Sees-later :
      (f g : Forest) (label later : ℕ → ℕ) (i : ℕ) (name : Text)
      → Extends f label g later
      → Sees f label i name
      → Sees g later i name
  Sees-later f g label later i name x (j, at, e) = (j, x.owners name j at, x.joined i j e)

  Extends-trans :
      (f g h : Forest) (k l m : ℕ → ℕ) → Extends f k g l → Extends g l h m → Extends f k h m
  Extends-trans f g h k l m x y = record {
    joined = λ a b e. y.joined a b (x.joined a b e);
    owners = λ name j e. y.owners name j (x.owners name j e);
  }

  -- `claim` on what the owner map says of the name.
  abbrev claimed : ℕ → ℕ → Text → Forest → Option ℕ → Forest
  claimed fuel i name f x = elim x [
    | some j ↦ record f { parent = unite fuel i j f.parent }
    | none ↦ record f { owner = insert name i f.owner }
  ]

  abbrev Step : ℕ → ℕ → Text → Forest → (ℕ → ℕ) → Forest → Type 0
  Step d i name f label g =
      (later : ℕ → ℕ) × Agrees (suc d) g later × Extends f label g later × Sees g later i name

  module _ (limit d i : ℕ) (name : Text) (f : Forest) (label : ℕ → ℕ) (h : d ≤ limit)
      (has : elem name (names_at all i) ≡ true) (a : Agrees d f label) where
    claim_owned :
        (j : ℕ)
        → lookup name f.owner ≡ some j
        → Step d i name f label (claimed (suc limit) i name f (some j))
    claim_owned j at = (
      relabel label i j,
      record {
        represents = unite-Represents limit d i j f.parent label h a.represents;
        sound = relabel-Sound label i j (share i j name has (a.owned name j at)) a.sound;
        owned = a.owned;
      },
      record { joined = relabel_mono label i j; owners = λ _ _ e. e },
      (j, at, relabel_joins label i j),
    )

    owned_more :
        (n : Text) (j : ℕ)
        → lookup n (insert name i f.owner) ≡ some j
        → elem n (names_at all j) ≡ true
    owned_more n j e = elim (Bool-cases (text_beq name n)) [
      | inl here ↦
          let name_n : name ≡ n = (text_beq_iff name n).0 here in
          let i_j : i ≡ j = ground (arith, lookup-insert name n i f.owner) in
          subst (λ m. elem m (names_at all j) ≡ true) name_n
            (subst (λ m. elem name (names_at all m) ≡ true) i_j has)
      | inr there ↦ a.owned n j (ground (arith, lookup-insert name n i f.owner))
    ]

    claim_new :
        lookup name f.owner ≡ none → Step d i name f label (claimed (suc limit) i name f none)
    claim_new none_yet = (
      label,
      record {
        represents = λ k. Leads-le f.parent d (suc d) k (label k) (omega arith) (a.represents k);
        sound = a.sound;
        owned = owned_more;
      },
      record {
        joined = λ _ _ e. e;
        owners = λ n j e. elim (Bool-cases (text_beq name n)) [
          | inl here ↦
              let absent : lookup n f.owner ≡ none =
                subst (λ m. lookup m f.owner ≡ none) ((text_beq_iff name n).0 here) none_yet in
              absurd (some-ne-none j (sym e ∙ absent))
          | inr there ↦ ground (arith, lookup-insert name n i f.owner)
        ];
      },
      (i, ground (arith, lookup-insert name name i f.owner, text_beq_iff name name), refl),
    )

    claim_lem : Step d i name f label (claim (suc limit) i name f)
    unfolding claim
    claim_lem = elim (Option-cases (lookup name f.owner)) [
      | inl e ↦
          subst (λ x. Step d i name f label (claimed (suc limit) i name f x)) (sym e) (claim_new e)
      | inr (j, e) ↦
          subst (λ x. Step d i name f label (claimed (suc limit) i name f x)) (sym e)
            (claim_owned j e)
    ]

  -- Every name of the finding `i` that is in the list.
  abbrev pub SeesAll : Forest → (ℕ → ℕ) → ℕ → List Text → Type 0
  SeesAll f label i names = (name : Text) → elem name names ≡ true → Sees f label i name

  claim_all_lem :
      (limit d i : ℕ) (names : List Text) (f : Forest) (label : ℕ → ℕ)
      → d + length names ≤ limit
      → ((name : Text) → elem name names ≡ true → elem name (names_at all i) ≡ true)
      → Agrees d f label
      → (later : ℕ → ℕ) × Agrees (d + length names) (claim_all (suc limit) i names f) later
        × Extends f label (claim_all (suc limit) i names f) later
        × SeesAll (claim_all (suc limit) i names f) later i names
  unfolding claim_all
  claim_all_lem limit d i [] f label h has a = (
    label,
    subst (λ n. Agrees n f label) (omega arith) a,
    record { joined = λ _ _ e. e; owners = λ _ _ e. e },
    λ name e. cc,
  )
  claim_all_lem limit d i (name ∷ names) f label h has a =
      let (k, b, x, seen) =
        claim_lem limit d i name f label (omega (arith, h))
          (has name (ground (arith, text_beq_iff name name))) a in
      let g = claim (suc limit) i name f in
      let (l, c, y, all_seen) =
        claim_all_lem limit (suc d) i names g k (omega (arith, h))
          (λ n e. has n (ground (arith, e))) b in
      let e = claim_all (suc limit) i names g in
      (
        l,
        subst (λ n. Agrees n e l) (omega arith) c,
        Extends-trans f g e label k l x y,
        λ n e'. elim (Bool-cases (text_beq name n)) [
          | inl here ↦
              subst (λ m. Sees e l i m) ((text_beq_iff name n).0 here)
                (Sees-later g e k l i name y seen)
          | inr there ↦ all_seen n (ground (arith, e'))
        ],
      )

  pub claim_each_lem :
      (limit d i : ℕ) (rest : List (List Text)) (f : Forest) (label : ℕ → ℕ)
      → d + name_count rest ≤ limit
      → ((k : ℕ) → names_at all (i + k) ≡ names_at rest k)
      → Agrees d f label
      → (later : ℕ → ℕ) × Agrees (d + name_count rest) (claim_each (suc limit) i rest f) later
        × Extends f label (claim_each (suc limit) i rest f) later
        × ((k : ℕ) → SeesAll (claim_each (suc limit) i rest f) later (i + k) (names_at rest k))
  unfolding claim_each
  claim_each_lem limit d i [] f label h here a = (
    label,
    subst (λ n. Agrees n f label) (omega arith) a,
    record { joined = λ _ _ e. e; owners = λ _ _ e. e },
    λ k name e. cc,
  )
  claim_each_lem limit d i (names ∷ rest) f label h here a =
      let i_0 : i + 0 ≡ i = omega arith in
      let at_i : names_at all i ≡ names = subst (λ n. names_at all n ≡ names) i_0 (here 0) in
      let (k, b, x, seen) =
        claim_all_lem limit d i names f label (omega (arith, h))
          (λ n e. subst (λ ns. elem n ns ≡ true) (sym at_i) e) a in
      let g = claim_all (suc limit) i names f in
      let next : (m : ℕ) → i + 1 + m ≡ i + suc m = λ m. omega arith in
      let (l, c, y, all_seen) =
        claim_each_lem limit (d + length names) (i + 1) rest g k (omega (arith, h))
          (λ m. ap (names_at all) (next m) ∙ here (suc m)) b in
      let e = claim_each (suc limit) (i + 1) rest g in
      (
        l,
        subst (λ n. Agrees n e l) (omega arith) c,
        Extends-trans f g e label k l x y,
        λ m. elim m as (λ w. SeesAll e l (i + w) (names_at (names ∷ rest) w)) [
          | zero ↦
              λ n h'. subst (λ w. Sees e l w n) (sym i_0) (Sees-later g e k l i n y (seen n h'))
          | suc m' ↦ subst (λ w. SeesAll e l w (names_at rest m')) (next m') (all_seen m')
        ],
      )
