-- ===== src/Report/Forest/Chains.antt =====
-- `find` ends at a root, and neither compression nor a union makes a chain to a root too long.
use sapper.Base.{
  nat_eq, ℕ, zero, suc, ◌≤◌, ◌≡◌, ◌⊎◌, inl, inr, refl, sym, ◌∙◌, ap, subst, insert, lookup-insert,
  if◌then◌else◌, leb, arith, Bool-cases, nat_beq, nat_beq_iff,
}
use sapper.Report.Forest.{Parents, parent_of, find, unite}

-- At most `d` steps lead from `i` to the root `r`.
abbrev pub Leads : Parents → ℕ → ℕ → ℕ → Type 0
Leads p zero i r = (i ≡ r) × (parent_of p i ≡ i)
Leads p (suc d) i r = ((i ≡ r) × (parent_of p i ≡ i)) ⊎ Leads p d (parent_of p i) r

pub parent_of-insert :
    (p : Parents) (i r k : ℕ)
    → parent_of (insert i r p) k ≡ (if nat_beq i k then r else parent_of p k)
parent_of-insert p i r k = ground (arith, lookup-insert i k r p)

pub Leads-root : (p : Parents) (d i r : ℕ) → Leads p d i r → parent_of p r ≡ r
Leads-root p zero i r (e, stay) = cc
Leads-root p (suc d) i r (inl (e, stay)) = cc
Leads-root p (suc d) i r (inr l) = Leads-root p d (parent_of p i) r l

pub Leads-here : (p : Parents) (d r : ℕ) → parent_of p r ≡ r → Leads p d r r
Leads-here p zero r stay = (refl, stay)
Leads-here p (suc d) r stay = inl (refl, stay)

Leads-stay : (p : Parents) (d i r : ℕ) → parent_of p i ≡ i → Leads p d i r → i ≡ r
Leads-stay p zero i r stay (e, _) = e
Leads-stay p (suc d) i r stay (inl (e, _)) = e
Leads-stay p (suc d) i r stay (inr l) = Leads-stay p d i r stay (subst (λ k. Leads p d k r) stay l)

pub Leads-unique : (p : Parents) (d e i r s : ℕ) → Leads p d i r → Leads p e i s → r ≡ s
Leads-unique p zero e i r s (same, stay) k = sym same ∙ Leads-stay p e i s stay k
Leads-unique p (suc d) e i r s (inl (same, stay)) k = sym same ∙ Leads-stay p e i s stay k
Leads-unique p (suc d) zero i r s (inr l) (same, stay) =
    sym (sym same ∙ Leads-stay p d i r stay (subst (λ k. Leads p d k r) stay l))
Leads-unique p (suc d) (suc e) i r s (inr l) (inl (same, stay)) =
    sym (sym same ∙ Leads-stay p d i r stay (subst (λ k. Leads p d k r) stay l))
Leads-unique p (suc d) (suc e) i r s (inr l) (inr k) = Leads-unique p d e (parent_of p i) r s l k

-- Every chain of the first forest is one of the second, at most as long.
abbrev pub Refines : Parents → Parents → Type 0
Refines p q = (d k s : ℕ) → Leads p d k s → Leads q d k s

module _ (p : Parents) (e i r : ℕ) (l : Leads p e i r) where
  still_root : parent_of (insert i r p) r ≡ r
  still_root = parent_of-insert p i r r ∙ ground (arith, Leads-root p e i r l)

  compressed_stay : (k : ℕ) → parent_of p k ≡ k → parent_of (insert i r p) k ≡ k
  compressed_stay k stay = elim (Bool-cases (nat_beq i k)) [
    | inl here ↦
        let i_k : i ≡ k = (nat_beq_iff i k).0 here in
        let i_r : i ≡ r = Leads-stay p e i r (ap (parent_of p) i_k ∙ stay ∙ sym i_k) l in
        parent_of-insert p i r k ∙ rw here (sym i_r ∙ i_k)
    | inr there ↦ parent_of-insert p i r k ∙ rw there stay
  ]

  -- Pointing an index to its root.
  compress-Refines : Refines p (insert i r p)
  compress-Refines zero k s (same, stay) = (same, compressed_stay k stay)
  compress-Refines (suc d) k s (inl (same, stay)) = inl (same, compressed_stay k stay)
  compress-Refines (suc d) k s (inr m) = elim (Bool-cases (nat_beq i k)) [
    | inl here ↦
        let i_k : i ≡ k = (nat_beq_iff i k).0 here in
        let r_s : r ≡ s =
          Leads-unique p e (suc d) k r s (subst (λ x. Leads p e x r) i_k l) (inr m) in
        inr (
          subst (λ x. Leads (insert i r p) d x s) (sym (parent_of-insert p i r k ∙ rw here refl))
            (subst (λ x. Leads (insert i r p) d r x) r_s
              (Leads-here (insert i r p) d r still_root)))
    | inr there ↦ inr (
        subst (λ x. Leads (insert i r p) d x s) (sym (parent_of-insert p i r k ∙ rw there refl))
          (compress-Refines d (parent_of p k) s m))
  ]

-- With fuel for one step more, `find` gives the root and keeps every chain.
pub find_lem :
    (fuel : ℕ) (p : Parents) (i r : ℕ)
    → Leads p fuel i r
    → ((find (suc fuel) i p).0 ≡ r) × Refines p (find (suc fuel) i p).1
unfolding find
find_lem zero p i r (same, stay) = rw (stay, (nat_beq_iff i i).1 refl) (same, λ d k s l. l)
find_lem (suc fuel) p i r l = elim (Bool-cases (nat_beq (parent_of p i) i)) [
  | inl stays ↦
      rw stays
        (Leads-stay p (suc fuel) i r ((nat_beq_iff (parent_of p i) i).0 stays) l, λ d k s m. m)
  | inr moves ↦ elim l [
    | inl (same, stay) ↦ absurd (ground (arith, nat_beq_iff (parent_of p i) i))
    | inr m ↦
        let (ends, keeps) = find_lem fuel p (parent_of p i) r m in
        let q = (find (suc fuel) (parent_of p i) p).1 in
        rw (moves, ends)
          (
            refl,
            λ d k s c.
                compress-Refines q (suc fuel) i r (keeps (suc fuel) i r (inr m)) d k s
                  (keeps d k s c),
          )
  ]
]

Leads-more : (p : Parents) (d i r : ℕ) → Leads p d i r → Leads p (suc d) i r
Leads-more p zero i r l = inl l
Leads-more p (suc d) i r (inl h) = inl h
Leads-more p (suc d) i r (inr l) = inr (Leads-more p d (parent_of p i) r l)

pub Leads-le : (p : Parents) (d e i r : ℕ) → d ≤ e → Leads p d i r → Leads p e i r
Leads-le p d zero i r h l =
    let none_left : d ≡ zero = omega arith in subst (λ n. Leads p n i r) none_left l
Leads-le p d (suc e) i r h l = elim (Bool-cases (leb d e)) [
  | inl early ↦ Leads-more p e i r (Leads-le p d e i r (ground arith) l)
  | inr late ↦ let same : d ≡ suc e = ground arith in subst (λ n. Leads p n i r) same l
]

module _ (q : Parents) (a b : ℕ) (root_a : parent_of q a ≡ a) (root_b : parent_of q b ≡ b) where
  union_root :
      (d k : ℕ) → parent_of q k ≡ k → Leads (insert a b q) (suc d) k (if nat_beq k a then b else k)
  union_root d k stay = elim (Bool-cases (nat_beq k a)) [
    | inl here ↦
        let k_a : k ≡ a = (nat_beq_iff k a).0 here in
        rw here (
          inr (
            subst (λ x. Leads (insert a b q) d x b)
              (sym (parent_of-insert q a b k ∙ rw ((nat_beq_iff a k).1 (sym k_a)) refl))
              (Leads-here (insert a b q) d b (parent_of-insert q a b b ∙ ground (arith, root_b)))))
    | inr there ↦ rw there (
        inl
          (refl, parent_of-insert q a b k ∙ ground (arith, stay, nat_beq_iff a k, nat_beq_iff k a)))
  ]

  -- The union of two roots makes every chain at most one step longer.
  union_step :
      (d k s : ℕ) → Leads q d k s → Leads (insert a b q) (suc d) k (if nat_beq s a then b else s)
  union_step zero k s (same, stay) =
      subst (λ x. Leads (insert a b q) (suc zero) k (if nat_beq x a then b else x)) same
        (union_root zero k stay)
  union_step (suc d) k s (inl (same, stay)) =
      subst (λ x. Leads (insert a b q) (suc (suc d)) k (if nat_beq x a then b else x)) same
        (union_root (suc d) k stay)
  union_step (suc d) k s (inr m) = elim (Bool-cases (nat_beq a k)) [
    | inl here ↦
        let a_k : a ≡ k = (nat_beq_iff a k).0 here in
        let stay : parent_of q k ≡ k = ap (parent_of q) (sym a_k) ∙ root_a ∙ a_k in
        subst (λ x. Leads (insert a b q) (suc (suc d)) k (if nat_beq x a then b else x))
          (Leads-stay q (suc d) k s stay (inr m)) (union_root (suc d) k stay)
    | inr there ↦ inr (
        subst (λ x. Leads (insert a b q) (suc d) x (if nat_beq s a then b else s))
          (sym (parent_of-insert q a b k ∙ rw there refl)) (union_step d (parent_of q k) s m))
  ]

-- Every index has a chain of at most `d` steps to the root that the labelling names.
abbrev pub Represents : Parents → ℕ → (ℕ → ℕ) → Type 0
Represents p d label = (k : ℕ) → Leads p d k (label k)

-- The labelling in which the class of `i` takes the label of `j`.
abbrev pub relabel : (ℕ → ℕ) → ℕ → ℕ → ℕ → ℕ
relabel label i j k = if nat_beq (label k) (label i) then label j else label k

pub unite-Represents :
    (limit d i j : ℕ) (p : Parents) (label : ℕ → ℕ)
    → d ≤ limit
    → Represents p d label
    → Represents (unite (suc limit) i j p) (suc d) (relabel label i j)
unfolding unite
unite-Represents limit d i j p label h rep =
    let (end_i, keeps_i) =
      find_lem limit p i (label i) (Leads-le p d limit i (label i) h (rep i)) in
    let q = (find (suc limit) i p).1 in
    let (end_j, keeps_j) =
      find_lem limit q j (label j)
        (keeps_i limit j (label j) (Leads-le p d limit j (label j) h (rep j))) in
    let r = (find (suc limit) j q).1 in
    let kept : Represents r d label = λ k. keeps_j d k (label k) (keeps_i d k (label k) (rep k)) in
    λ k.
      subst (λ a. Leads (insert a (find (suc limit) j q).0 r) (suc d) k (relabel label i j k))
        (sym end_i)
        (subst (λ b. Leads (insert (label i) b r) (suc d) k (relabel label i j k)) (sym end_j)
          (union_step r (label i) (label j) (Leads-root r d i (label i) (kept i))
            (Leads-root r d j (label j) (kept j)) d k (label k) (kept k)))
