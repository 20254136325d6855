-- ===== src/Prelude/Sorting.antt =====
-- sort.Slice: a stable sort by insertion, which the library uses itself for up to twelve elements.
use Prim.Native.Nat.{suc}
use mathlib.Core.Path.{◌≡◌, refl, sym, ap, ◌∙◌}
use mathlib.Core.Logic.{inl, inr}
use mathlib.Core.Bool.{Bool, true, false}
use mathlib.Core.List.{List, [], ◌∷◌}
use native.Mathlib.Omega.{arith}
use ubi_quic_e_xtreme_zero_t.Prelude.Bools.{Bool-cases, if◌then◌else◌}
use ubi_quic_e_xtreme_zero_t.Prelude.Lists.{
  All, All-filter_where, All-map, count_where, filter_where, length,
}

module _ {ℓ} {A : Type ℓ} (before : A → A → Bool) where
  unfoldable pub insert_by : A → List A → List A
  insert_by x [] = x ∷ []
  insert_by x (y ∷ ys) = let rest = insert_by x ys in if before y x then y ∷ rest else x ∷ y ∷ ys

  unfoldable pub sort_by : List A → List A
  unfolding insert_by
  sort_by [] = []
  sort_by (x ∷ xs) = insert_by x (sort_by xs)

  -- No later element is before an earlier one.
  abbrev pub Sorted : List A → Type ℓ
  Sorted [] = Unit
  Sorted (x ∷ xs) = All (λ y. before y x ≡ false) xs × Sorted xs

  All-insert_by {κ} :
      (P : A → Type κ) (x : A) (xs : List A) → P x → All P xs → All P (insert_by x xs)
  unfolding insert_by
  All-insert_by P x [] p h = (p, tt)
  All-insert_by P x (y ∷ ys) p h = elim (Bool-cases (before y x)) [
    | inl e ↦ rw e (h.0, All-insert_by P x ys p h.1)
    | inr e ↦ rw e (p, h)
  ]

  pub All-sort_by {κ} : (P : A → Type κ) (xs : List A) → All P xs → All P (sort_by xs)
  unfolding sort_by
  All-sort_by P [] h = tt
  All-sort_by P (x ∷ xs) h = All-insert_by P x (sort_by xs) h.0 (All-sort_by P xs h.1)

  count_where-insert_by :
      (p : A → Bool) (x : A) (xs : List A) → count_where p (insert_by x xs) ≡ count_where p (x ∷ xs)
  unfolding insert_by
  count_where-insert_by p x [] = refl
  count_where-insert_by p x (y ∷ ys) = elim (Bool-cases (before y x)) [
    | inl e ↦ rw e (ground (arith, count_where-insert_by p x ys))
    | inr e ↦ rw e refl
  ]

  -- The sort keeps how many elements pass any test.
  pub count_where-sort_by :
      (p : A → Bool) (xs : List A) → count_where p (sort_by xs) ≡ count_where p xs
  unfolding sort_by
  count_where-sort_by p [] = refl
  count_where-sort_by p (x ∷ xs) =
      count_where-insert_by p x (sort_by xs) ∙ ground (arith, count_where-sort_by p xs)

  length-insert_by : (x : A) (xs : List A) → length (insert_by x xs) ≡ suc (length xs)
  unfolding insert_by
  length-insert_by x [] = refl
  length-insert_by x (y ∷ ys) = elim (Bool-cases (before y x)) [
    | inl e ↦ rw e (ap suc (length-insert_by x ys))
    | inr e ↦ rw e refl
  ]

  pub length-sort_by : (xs : List A) → length (sort_by xs) ≡ length xs
  unfolding sort_by
  length-sort_by [] = refl
  length-sort_by (x ∷ xs) = length-insert_by x (sort_by xs) ∙ ap suc (length-sort_by xs)

  module _ (asym : (a b : A) → before a b ≡ true → before b a ≡ false)
      (neg_trans : (a b c : A) → before b a ≡ false → before c b ≡ false → before c a ≡ false) where
    insert_by-Sorted : (x : A) (xs : List A) → Sorted xs → Sorted (insert_by x xs)
    unfolding insert_by
    insert_by-Sorted x [] s = (tt, tt)
    insert_by-Sorted x (y ∷ ys) s = elim (Bool-cases (before y x)) [
      | inl e ↦
          rw e (
            All-insert_by (λ z. before z y ≡ false) x ys (asym y x e) s.0,
            insert_by-Sorted x ys s.1,
          )
      | inr e ↦ rw e ((e, All-map _ _ ys (λ z h. neg_trans x y z e h) s.0), s)
    ]

    pub sort_by-Sorted : (xs : List A) → Sorted (sort_by xs)
    unfolding sort_by
    sort_by-Sorted [] = tt
    sort_by-Sorted (x ∷ xs) = insert_by-Sorted x (sort_by xs) (sort_by-Sorted xs)

    insert_by_first :
        (x : A) (xs : List A) → All (λ y. before y x ≡ false) xs → insert_by x xs ≡ x ∷ xs
    unfolding insert_by
    insert_by_first x [] h = refl
    insert_by_first x (y ∷ ys) h = rw h.0 refl

    chosen :
        (x : A) (b : Bool) (zs : List A)
        → All (λ z. before z x ≡ false) zs
        → (if b then x ∷ zs else zs) ≡ (if b then insert_by x zs else zs)
    chosen x false zs h = refl
    chosen x true zs h = sym (insert_by_first x zs h)

    filter_where-insert_by :
        (p : A → Bool) (x : A) (xs : List A)
        → Sorted xs
        → filter_where p (insert_by x xs)
          ≡ (if p x then insert_by x (filter_where p xs) else filter_where p xs)
    unfolding insert_by
    filter_where-insert_by p x [] s = ground arith
    filter_where-insert_by p x (y ∷ ys) s = elim (Bool-cases (before y x)) [
      | inl e ↦ rw e (ground (arith, e, filter_where-insert_by p x ys s.1))
      | inr e ↦
          let above : All (λ z. before z x ≡ false) (filter_where p (y ∷ ys)) =
            All-filter_where _ p (y ∷ ys) (e, All-map _ _ ys (λ z h. neg_trans x y z e h) s.0) in
          rw e (chosen x (p x) _ above)
    ]

    -- Leaving elements out and sorting can be exchanged.
    pub filter_where-sort_by :
        (p : A → Bool) (xs : List A) → filter_where p (sort_by xs) ≡ sort_by (filter_where p xs)
    unfolding sort_by
    filter_where-sort_by p [] = refl
    filter_where-sort_by p (x ∷ xs) =
        filter_where-insert_by p x (sort_by xs) (sort_by-Sorted xs)
        ∙ both (p x) (filter_where-sort_by p xs)
      where
        both :
            (b : Bool)
            → filter_where p (sort_by xs) ≡ sort_by (filter_where p xs)
            → (if b then insert_by x (filter_where p (sort_by xs)) else filter_where p (sort_by xs))
              ≡ sort_by (if b then x ∷ filter_where p xs else filter_where p xs)
        both false e = e
        both true e = ap (insert_by x) e
