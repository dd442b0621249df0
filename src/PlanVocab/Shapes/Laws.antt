-- ===== src/PlanVocab/Shapes/Laws.antt =====
-- What sorting, compacting and aggregating shapes keep.
use spanalyzer.Prelude.{
  String, List, [], ◌∷◌, ℕ, ◌≡◌, refl, Bool, true, false, ◌&&◌, ◌||◌, ◌==◌, string_eq, Eq, pair_eq,
  bool_eq, arith, any, All, count_if, ltb, if◌then◌else◌, Bool-cases, inl, inr, eq_of_beq,
}
use spanalyzer.Prelude.Order.{Ord, le, string_ord, pair_ord, bool_ord}
use spanalyzer.Prelude.Sorting.{
  sort_by, insert_by, IsSorted, sort_by-IsSorted, count_if-sort_by, any-sort_by,
}
use spanalyzer.PlanVocab.Shapes.{
  ChildLinkShape, link_base, same_child_link_base, merge_links, merge_sorted, aggregate_child_links,
}

module _ {ℓ κ} {A : Type ℓ} {K : Type κ} ⦃o : Ord K⦄ ⦃e : Eq K⦄ (key : A → K) where
  -- Behind a greater key a key does not come again.
  count_if-above :
      (k l : K) (xs : List A)
      → le k l ≡ true
      → (l == k) ≡ false
      → All (λ x. le l (key x) ≡ true) xs
      → count_if (λ x. key x == k) xs ≡ 0
  count_if-above k l [] h n a = refl
  count_if-above k l (x ∷ xs) h n (a, bs) =
      ground
        (arith, count_if-above k l xs h n bs, eq_of_beq (key x) k, e.beq_iff l k, o.antisymm k l)

  insert_by_first :
      (x : A) (xs : List A) → All (λ y. le (key x) (key y) ≡ true) xs → insert_by key x xs ≡ x ∷ xs
  unfolding insert_by
  insert_by_first x [] h = refl
  insert_by_first x (y ∷ ys) (h, hs) = rw h refl

  -- A list that is sorted stays as it is.
  pub sort_by_of_IsSorted : (xs : List A) → IsSorted key xs → sort_by key xs ≡ xs
  unfolding sort_by
  sort_by_of_IsSorted [] s = refl
  sort_by_of_IsSorted (x ∷ xs) (below, s) =
      rw (sort_by_of_IsSorted xs s) (insert_by_first x xs below)

module _ {ℓ} {A : Type ℓ} (p q : A → Bool) where
  any_of_count_if : (xs : List A) → count_if p xs ≡ 0 → any (λ x. p x && q x) xs ≡ false
  any_of_count_if [] h = refl
  any_of_count_if (x ∷ xs) h = ground (arith, any_of_count_if xs)

-- The links of one kind, type and presence of a variable, and whether one of them is repeated.
abbrev pub Base : Type 0
Base = String × (String × Bool)

abbrev pub occurrences : Base → List ChildLinkShape → ℕ
occurrences k shapes = count_if (λ s. link_base s == k) shapes

abbrev pub repeats : Base → List ChildLinkShape → Bool
repeats k shapes = any (λ s. (link_base s == k) && s.repeated) shapes

abbrev pub at_most_one : ℕ → ℕ
at_most_one n = if ltb 0 n then 1 else 0

-- One entry for each base that occurs, marked where there were several or a marked one.
abbrev pub Merges : List ChildLinkShape → List ChildLinkShape → Type 0
Merges shapes merged =
    (k : Base)
    → (occurrences k merged ≡ at_most_one (occurrences k shapes))
      × (repeats k merged ≡ (ltb 1 (occurrences k shapes) || repeats k shapes))

merge_links-Merges :
    (last : ChildLinkShape) (values : List ChildLinkShape)
    → IsSorted link_base (last ∷ values)
    → Merges (last ∷ values) (merge_links last values)
unfolding merge_links same_child_link_base
merge_links-Merges last [] s k = ground arith
merge_links-Merges last (value ∷ values) ((h, hs), (below, s)) k =
    elim (Bool-cases (link_base value == link_base last)) [
      | inl same ↦
          let (c, r) = merge_links-Merges (record last { repeated = true }) values (hs, s) k in
          rw same (ground (arith, c, r, eq_of_beq (link_base value) (link_base last) same))
      | inr other ↦
          let (c, r) = merge_links-Merges value values (below, s) k in
          let gone =
            count_if-above link_base (link_base last) (link_base value) values h other below in
          rw other (elim (Bool-cases (link_base last == k)) [
            | inl here ↦ ground (
              arith,
              c,
              r,
              gone,
              eq_of_beq (link_base last) k here,
              any_of_count_if (λ x. link_base x == k) (λ x. x.repeated) values,
            )
            | inr elsewhere ↦ ground (arith, c, r)
          ])
    ]

merge_links-All :
    (P : Base → Type 0) (last : ChildLinkShape) (values : List ChildLinkShape)
    → P (link_base last)
    → All (λ s. P (link_base s)) values
    → All (λ s. P (link_base s)) (merge_links last values)
unfolding merge_links
merge_links-All P last [] h hs = (h, tt)
merge_links-All P last (value ∷ values) h (k, ks) =
    elim (Bool-cases (same_child_link_base value last)) [
      | inl same ↦ rw same (merge_links-All P (record last { repeated = true }) values h ks)
      | inr other ↦ rw other (h, merge_links-All P value values k ks)
    ]

merge_links-IsSorted :
    (last : ChildLinkShape) (values : List ChildLinkShape)
    → IsSorted link_base (last ∷ values)
    → IsSorted link_base (merge_links last values)
unfolding merge_links
merge_links-IsSorted last [] s = (tt, tt)
merge_links-IsSorted last (value ∷ values) ((h, hs), (below, s)) =
    elim (Bool-cases (same_child_link_base value last)) [
      | inl same ↦ rw same (merge_links-IsSorted (record last { repeated = true }) values (hs, s))
      | inr other ↦ rw other (
        merge_links-All (λ k. le (link_base last) k ≡ true) value values h hs,
        merge_links-IsSorted value values (below, s),
      )
    ]

merge_sorted-IsSorted :
    (values : List ChildLinkShape)
    → IsSorted link_base values
    → IsSorted link_base (merge_sorted values)
unfolding merge_sorted
merge_sorted-IsSorted [] s = tt
merge_sorted-IsSorted (value ∷ values) s = merge_links-IsSorted value values s

merge_sorted-Merges :
    (values : List ChildLinkShape) → IsSorted link_base values → Merges values (merge_sorted values)
unfolding merge_sorted
merge_sorted-Merges [] s k = (refl, refl)
merge_sorted-Merges (value ∷ values) s k = merge_links-Merges value values s k

-- `aggregateChildLinks` gives the links in ascending order, one for each kind, type and presence
-- of a variable that occurs, and marks it as repeated exactly if there were several such links or
-- one that was already marked.
pub aggregate_child_links-Merges :
    (shapes : List ChildLinkShape)
    → IsSorted link_base (aggregate_child_links shapes)
      × Merges shapes (aggregate_child_links shapes)
unfolding aggregate_child_links merge_sorted
aggregate_child_links-Merges shapes =
    let sorted = sort_by-IsSorted link_base shapes in
    (
      merge_sorted-IsSorted (sort_by link_base shapes) sorted,
      λ k.
          let (c, r) = merge_sorted-Merges (sort_by link_base shapes) sorted k in
          ground (
            arith,
            c,
            r,
            count_if-sort_by link_base (λ s. link_base s == k) shapes,
            any-sort_by link_base (λ s. (link_base s == k) && s.repeated) shapes,
          ),
    )

-- No two neighbours have the same base.
abbrev Alternates : List ChildLinkShape → Type 0
Alternates [] = Unit
Alternates (x ∷ []) = Unit
Alternates (x ∷ y ∷ ys) = (same_child_link_base y x ≡ false) × Alternates (y ∷ ys)

re_mark :
    (x last : ChildLinkShape)
    → same_child_link_base last x ≡ false
    → same_child_link_base (record last { repeated = true }) x ≡ false
unfolding same_child_link_base
re_mark x last h = h

merge_links-head :
    (x last : ChildLinkShape) (values : List ChildLinkShape)
    → same_child_link_base last x ≡ false
    → Alternates (merge_links last values)
    → Alternates (x ∷ merge_links last values)
unfolding merge_links
merge_links-head x last [] h a = (h, a)
merge_links-head x last (value ∷ values) h a = elim (Bool-cases (same_child_link_base value last)) [
  | inl same ↦ rw same (
      merge_links-head x (record last { repeated = true }) values (re_mark x last h) (rw same at a))
  | inr other ↦ rw other (h, rw other at a)
]

merge_links-Alternates :
    (last : ChildLinkShape) (values : List ChildLinkShape) → Alternates (merge_links last values)
unfolding merge_links
merge_links-Alternates last [] = tt
merge_links-Alternates last (value ∷ values) = elim (Bool-cases (same_child_link_base value last)) [
  | inl same ↦ rw same (merge_links-Alternates (record last { repeated = true }) values)
  | inr other ↦
      rw other (merge_links-head last value values other (merge_links-Alternates value values))
]

merge_links_of_Alternates :
    (last : ChildLinkShape) (values : List ChildLinkShape)
    → Alternates (last ∷ values)
    → merge_links last values ≡ last ∷ values
unfolding merge_links
merge_links_of_Alternates last [] a = refl
merge_links_of_Alternates last (value ∷ values) (h, a) =
    rw (h, merge_links_of_Alternates value values a) refl

merge_sorted-Alternates : (values : List ChildLinkShape) → Alternates (merge_sorted values)
unfolding merge_sorted
merge_sorted-Alternates [] = tt
merge_sorted-Alternates (value ∷ values) = merge_links-Alternates value values

merge_sorted_of_Alternates :
    (values : List ChildLinkShape) → Alternates values → merge_sorted values ≡ values
unfolding merge_sorted
merge_sorted_of_Alternates [] a = refl
merge_sorted_of_Alternates (value ∷ values) a = merge_links_of_Alternates value values a

-- Aggregating twice, as `inspectNode` does, is aggregating once.
pub aggregate_child_links_idem :
    (shapes : List ChildLinkShape)
    → aggregate_child_links (aggregate_child_links shapes) ≡ aggregate_child_links shapes
unfolding aggregate_child_links
aggregate_child_links_idem shapes =
    rw
      (sort_by_of_IsSorted link_base (merge_sorted (sort_by link_base shapes))
        (merge_sorted-IsSorted (sort_by link_base shapes) (sort_by-IsSorted link_base shapes)))
      (merge_sorted_of_Alternates (merge_sorted (sort_by link_base shapes))
        (merge_sorted-Alternates (sort_by link_base shapes)))
