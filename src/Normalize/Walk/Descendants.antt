-- ===== src/Normalize/Walk/Descendants.antt =====
-- The descendants of a node: each once, without the node, and exactly the nodes that links lead to.
use spanalyzer.Prelude.{
  List, [], ◌∷◌, ℕ, zero, suc, ◌<◌, ◌≤◌, ◌≡◌, ◌↔◌, refl, ◌∙◌, ap, Bool, true, false, not, ◌||◌,
  none, some, ◌==◌, arith, contains, length, count_if, Bool-cases, inl, inr, Distinct,
  Distinct-concat, any-append, beq_refl, eq_of_beq, count_if-le-length, length-map,
}
use spanalyzer.Prelude.Int.{ℤ, int_eq}
use spanalyzer.Prelude.Maps.{Map, keys, lookup-none_of_keys}
use spanalyzer.Normalize.Walk.{children_of, Visit, mark, walk, descendant_indexes}

module _ (children : Map ℤ (List ℤ)) where
  -- One or more links lead from a node to another.
  pub data Reaches (root : ℤ) : ℤ → Type 0 where
    one_link : {i : ℤ} → contains (children_of children root) i ≡ true → Reaches root i
    more_links :
        {i j : ℤ} → Reaches root i → contains (children_of children i) j ≡ true → Reaches root j

  -- The nodes with links that are not seen yet: each descent uses one up.
  abbrev unseen : List ℤ → ℕ
  unseen seen = count_if (λ k. not (contains seen k)) (keys children)

  count_if_mono :
      (p q : ℤ → Bool) (ks : List ℤ)
      → ((k : ℤ) → p k ≡ true → q k ≡ true)
      → count_if p ks ≤ count_if q ks
  count_if_mono p q [] h = omega arith
  count_if_mono p q (k ∷ ks) h = ground (arith, h k, count_if_mono p q ks h)

  count_if-drop :
      (p q : ℤ → Bool) (ks : List ℤ) (i : ℤ)
      → ((k : ℤ) → p k ≡ true → q k ≡ true)
      → p i ≡ false
      → q i ≡ true
      → contains ks i ≡ true
      → count_if p ks < count_if q ks
  count_if-drop p q [] i h miss hit found = cc
  count_if-drop p q (k ∷ ks) i h miss hit found = elim (Bool-cases (k == i)) [
    | inl same ↦
        ground (arith, count_if_mono p q ks h, ap p (eq_of_beq k i same), ap q (eq_of_beq k i same))
    | inr other ↦ ground (arith, h k, count_if-drop p q ks i h miss hit)
  ]

  -- What a walk over `pending` has done between two visits.
  record Grown (v : Visit) (pending : List ℤ) (w : Visit) : Type 0 where
    pub kept : (i : ℤ) → contains v.seen i ≡ true → contains w.seen i ≡ true
    pub visited : (i : ℤ) → contains pending i ≡ true → contains w.seen i ≡ true
    pub closed :
        (i j : ℤ)
        → contains w.seen i ≡ true
        → contains v.seen i ≡ false
        → contains (children_of children i) j ≡ true
        → contains w.seen j ≡ true

  Grown-none : (v : Visit) → Grown v [] v
  Grown-none v = record { kept = λ i h. h; visited = λ i h. cc; closed = λ i j h k l. cc }

  unseen_mono :
      (v w : Visit)
      → ((i : ℤ) → contains v.seen i ≡ true → contains w.seen i ≡ true)
      → unseen w.seen ≤ unseen v.seen
  unseen_mono v w h =
      count_if_mono (λ k. not (contains w.seen k)) (λ k. not (contains v.seen k)) (keys children)
        (λ k fresh. ground (arith, h k))

  unseen-mark :
      (v : Visit) (i : ℤ)
      → contains v.seen i ≡ false
      → contains (keys children) i ≡ true
      → unseen (mark v i).seen < unseen v.seen
  unseen-mark v i fresh found =
      count_if-drop (λ k. not (contains (mark v i).seen k)) (λ k. not (contains v.seen k))
        (keys children) i (λ k h. ground arith) (ground (arith, beq_refl i)) (ground arith) found

  no_children : (i : ℤ) → contains (keys children) i ≡ false → children_of children i ≡ []
  no_children i h =
      ap (λ found. elim found [ none ↦ [] | some v ↦ v ]) (lookup-none_of_keys i children h)

  walk-none : (fuel : ℕ) (v : Visit) → walk children fuel [] v ≡ v
  unfolding walk
  walk-none zero v = refl
  walk-none (suc fuel) v = refl

  -- A fresh node: marked, its children walked, then the rest.
  Grown-fresh :
      (v : Visit) (i : ℤ) (pending : List ℤ) (w x : Visit)
      → Grown (mark v i) (children_of children i) w
      → Grown w pending x
      → Grown v (i ∷ pending) x
  Grown-fresh v i pending w x below rest = record {
    kept = λ j h. rest.kept j (below.kept j (ground arith));
    visited = λ j h. elim (Bool-cases (i == j)) [
      | inl same ↦ rest.kept j (below.kept j (ground arith))
      | inr other ↦ rest.visited j (ground arith)
    ];
    closed = λ j k seen fresh link. elim (Bool-cases (contains w.seen j)) [
      | inr late ↦ rest.closed j k seen late link
      | inl early ↦ elim (Bool-cases (i == j)) [
        | inl same ↦ rest.kept k (below.visited k (rw (eq_of_beq i j same) link))
        | inr other ↦ rest.kept k (below.closed j k early (ground arith) link)
      ]
    ];
  }

  Grown-seen :
      (v : Visit) (i : ℤ) (pending : List ℤ) (w : Visit)
      → contains v.seen i ≡ true
      → Grown v pending w
      → Grown v (i ∷ pending) w
  Grown-seen v i pending w seen rest = record {
    kept = rest.kept;
    visited = λ j h. elim (Bool-cases (i == j)) [
      | inl same ↦ rest.kept j (rw (← eq_of_beq i j same) seen)
      | inr other ↦ rest.visited j (ground arith)
    ];
    closed = rest.closed;
  }

  -- With more fuel than unseen nodes a walk is complete.
  walk-Grown :
      (fuel : ℕ) (pending : List ℤ) (v : Visit)
      → unseen v.seen < fuel
      → Grown v pending (walk children fuel pending v)
  unfolding walk
  walk-Grown zero pending v h = absurd (omega (arith, h))
  walk-Grown (suc fuel) [] v h = Grown-none v
  walk-Grown (suc fuel) (i ∷ pending) v h = elim (Bool-cases (contains v.seen i)) [
    | inl seen ↦ rw seen (Grown-seen v i pending _ seen (walk-Grown (suc fuel) pending v h))
    | inr fresh ↦
        let below : Grown (mark v i) (children_of children i)
            (walk children fuel (children_of children i) (mark v i)) =
          elim (Bool-cases (contains (keys children) i)) [
            | inl node ↦
                walk-Grown fuel (children_of children i) (mark v i)
                  (omega (arith, unseen-mark v i fresh node, h))
            | inr leaf ↦ rw (no_children i leaf, walk-none fuel (mark v i)) (Grown-none (mark v i))
          ] in
        let w = walk children fuel (children_of children i) (mark v i) in
        let less = unseen_mono v w (λ j k. below.kept j (ground arith)) in
        rw fresh (
          Grown-fresh v i pending w _ below
            (walk-Grown (suc fuel) pending w (omega (arith, less, h))))
  ]

  -- `seen` is the root and what was put out.
  record IsTracked (root : ℤ) (v : Visit) : Type 0 where
    pub tracked : (i : ℤ) → contains v.seen i ≡ (root == i || contains v.out i)
    pub distinct : Distinct v.out
    pub without_root : contains v.out root ≡ false

  mark-IsTracked :
      (root : ℤ) (v : Visit) (i : ℤ)
      → contains v.seen i ≡ false
      → IsTracked root v
      → IsTracked root (mark v i)
  mark-IsTracked root v i fresh t = record {
    tracked = λ j. ground (arith, t.tracked j, any-append (λ x. x == j) v.out (i ∷ []));
    distinct = Distinct-concat v.out i (ground (arith, t.tracked i)) t.distinct;
    without_root =
        any-append (λ x. x == root) v.out (i ∷ [])
        ∙ ground (arith, t.tracked i, t.without_root, int_eq.beq_iff root i, int_eq.beq_iff i root);
  }

  walk-IsTracked :
      (root : ℤ) (fuel : ℕ) (pending : List ℤ) (v : Visit)
      → IsTracked root v
      → IsTracked root (walk children fuel pending v)
  unfolding walk
  walk-IsTracked root zero pending v t = t
  walk-IsTracked root (suc fuel) [] v t = t
  walk-IsTracked root (suc fuel) (i ∷ pending) v t = elim (Bool-cases (contains v.seen i)) [
    | inl seen ↦ rw seen (walk-IsTracked root (suc fuel) pending v t)
    | inr fresh ↦ rw fresh (
        walk-IsTracked root (suc fuel) pending
          (walk children fuel (children_of children i) (mark v i))
          (walk-IsTracked root fuel (children_of children i) (mark v i)
            (mark-IsTracked root v i fresh t)))
  ]

  -- Only what links lead to is put out.
  abbrev Sound : ℤ → Visit → Type 0
  Sound root v = (i : ℤ) → contains v.out i ≡ true → Reaches root i

  walk-Sound :
      (root : ℤ) (fuel : ℕ) (pending : List ℤ) (v : Visit)
      → ((i : ℤ) → contains pending i ≡ true → Reaches root i)
      → Sound root v
      → Sound root (walk children fuel pending v)
  unfolding walk
  walk-Sound root zero pending v from s = s
  walk-Sound root (suc fuel) [] v from s = s
  walk-Sound root (suc fuel) (i ∷ pending) v from s =
      let here = from i (ground (arith, beq_refl i)) in
      let later : (j : ℤ) → contains pending j ≡ true → Reaches root j =
        λ j h. from j (ground (arith, h)) in
      elim (Bool-cases (contains v.seen i)) [
        | inl seen ↦ rw seen (walk-Sound root (suc fuel) pending v later s)
        | inr fresh ↦ rw fresh (
            walk-Sound root (suc fuel) pending
              (walk children fuel (children_of children i) (mark v i)) later
              (walk-Sound root fuel (children_of children i) (mark v i)
                (λ j link. more_links here link)
                (λ j h. elim (Bool-cases (i == j)) [
                  | inl same ↦ rw (← eq_of_beq i j same) here
                  | inr other ↦ s j (ground (arith, any-append (λ x. x == j) v.out (i ∷ [])))
                ])))
      ]

  abbrev start : ℤ → Visit
  start root = record { seen = root ∷ []; out = [] }

  Grown-Reaches :
      (root : ℤ) (w : Visit)
      → Grown (start root) (children_of children root) w
      → (i : ℤ) → Reaches root i
      → contains w.seen i ≡ true
  Grown-Reaches root w g i (one_link link) = g.visited i link
  Grown-Reaches root w g j (more_links {i = i} before link) = elim (Bool-cases (root == i)) [
    | inl same ↦ g.visited j (rw (eq_of_beq root i same) link)
    | inr other ↦ g.closed i j (Grown-Reaches root w g i before) (ground arith) link
  ]

-- No node stands twice among the descendants of a node, and the node itself is not among them, whatever
-- cycles the links have.
pub descendant_indexes-Distinct :
    (root : ℤ) (children : Map ℤ (List ℤ))
    → Distinct (descendant_indexes root children)
      × (contains (descendant_indexes root children) root ≡ false)
unfolding descendant_indexes
descendant_indexes-Distinct root children =
    let t =
      walk-IsTracked children root (suc (length children)) (children_of children root)
        (start children root)
        (record { tracked = λ i. ground arith; distinct = tt; without_root = refl }) in
    (t.distinct, t.without_root)

-- The descendants of a node are exactly the other nodes that one or more links lead to: the walk leaves
-- none out and adds none.
pub descendant_indexes-Reaches :
    (root : ℤ) (children : Map ℤ (List ℤ)) (i : ℤ)
    → (contains (descendant_indexes root children) i ≡ true)
      ↔ (Reaches children root i × ((root == i) ≡ false))
unfolding descendant_indexes
descendant_indexes-Reaches root children i =
    let fuel = suc (length children) in
    let pending = children_of children root in
    let w = walk children fuel pending (start children root) in
    let t =
      walk-IsTracked children root fuel pending (start children root)
        (record { tracked = λ j. ground arith; distinct = tt; without_root = refl }) in
    let s =
      walk-Sound children root fuel pending (start children root) (λ j link. one_link link)
        (λ j h. cc) in
    let g = walk-Grown children fuel pending (start children root) (
      ground (
        arith,
        count_if-le-length (λ k. not (contains (root ∷ []) k)) (keys children),
        length-map (λ (p : ℤ × List ℤ). p.0) children,
      )) in
    (
      λ found. (s i found, ground (arith, t.without_root, eq_of_beq root i)),
      λ h. let seen = Grown-Reaches children root w g i h.0 in ground (arith, t.tracked i, h.1),
    )
