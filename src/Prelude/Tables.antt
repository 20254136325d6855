-- ===== src/Prelude/Tables.antt =====
-- Laws of tables: counting, selecting and updating rows.
use Prim.Native.Nat.{◌+◌, ◌≤◌}
use mathlib.Core.Path.{◌≡◌, refl, subst}
use mathlib.Core.Logic.{◌⊎◌, inl, inr}
use mathlib.Core.Bool.{Bool, true, false, ◌&&◌, not}
use mathlib.Core.Option.{none, some}
use mathlib.Core.List.{List, [], ◌∷◌, ◌++◌}
use native.Mathlib.Omega.{arith}
use ubi_quic_e_xtreme_zero_t.Prelude.Bools.{Bool-cases, Option-cases, if◌then◌else◌}
use ubi_quic_e_xtreme_zero_t.Prelude.Lists.{
  All, All-map, find_where, any_where, count_where, first_by, update_where,
}

module _ {ℓ} {A : Type ℓ} where
  pub count_where-append :
      (p : A → Bool) (xs ys : List A)
      → count_where p (xs ++ ys) ≡ count_where p xs + count_where p ys
  count_where-append p [] ys = omega arith
  count_where-append p (x ∷ xs) ys = ground (arith, count_where-append p xs ys)

  pub any_where-append :
      (p : A → Bool) (xs ys : List A)
      → any_where p (xs ++ ys) ≡ (if any_where p xs then true else any_where p ys)
  any_where-append p [] ys = refl
  any_where-append p (x ∷ xs) ys = ground (arith, any_where-append p xs ys)

  pub count_where_none :
      (p : A → Bool) (xs : List A) → any_where p xs ≡ false → count_where p xs ≡ 0
  count_where_none p [] h = refl
  count_where_none p (x ∷ xs) h = ground (arith, count_where_none p xs)

  pub any_where_of_count :
      (p : A → Bool) (xs : List A) → count_where p xs ≡ 0 → any_where p xs ≡ false
  any_where_of_count p [] h = refl
  any_where_of_count p (x ∷ xs) h = ground (arith, any_where_of_count p xs)

  pub count_where_mono :
      (p q : A → Bool) (xs : List A)
      → ((a : A) → p a ≡ true → q a ≡ true)
      → count_where p xs ≤ count_where q xs
  count_where_mono p q [] h = omega arith
  count_where_mono p q (x ∷ xs) h = ground (arith, count_where_mono p q xs h, h x)

  -- Two tests that exclude one another, below a third.
  pub count_where_disjoint :
      (p q s : A → Bool) (xs : List A)
      → ((a : A) → p a ≡ true → (q a ≡ false) × (s a ≡ true))
      → ((a : A) → q a ≡ true → s a ≡ true)
      → count_where p xs + count_where q xs ≤ count_where s xs
  count_where_disjoint p q s [] h k = omega arith
  count_where_disjoint p q s (x ∷ xs) h k =
      ground (arith, count_where_disjoint p q s xs h k, h x, k x)

  -- A test that the update leaves alone counts the same rows.
  pub count_where-update_same :
      (q p : A → Bool) (f : A → A) (xs : List A)
      → ((a : A) → p a ≡ true → q (f a) ≡ q a)
      → count_where q (update_where p f xs) ≡ count_where q xs
  unfolding update_where
  count_where-update_same q p f [] h = refl
  count_where-update_same q p f (x ∷ xs) h = ground (arith, count_where-update_same q p f xs h, h x)

  -- A test that fails on the updated rows and then holds by another test `s`.
  pub count_where-update_new :
      (q p s : A → Bool) (f : A → A) (xs : List A)
      → ((a : A) → p a ≡ true → (q a ≡ false) × (q (f a) ≡ s a))
      → count_where q (update_where p f xs) ≡ count_where q xs + count_where (λ a. p a && s a) xs
  unfolding update_where
  count_where-update_new q p s f [] h = refl
  count_where-update_new q p s f (x ∷ xs) h =
      ground (arith, count_where-update_new q p s f xs h, h x)

  pub All-update_where {κ} :
      (P : A → Type κ) (p : A → Bool) (f : A → A) (xs : List A)
      → ((a : A) → p a ≡ true → P a → P (f a))
      → All P xs
      → All P (update_where p f xs)
  unfolding update_where
  All-update_where P p f [] k h = tt
  All-update_where P p f (x ∷ xs) k h = elim (Bool-cases (p x)) [
    | inl e ↦ rw e (k x e h.0, All-update_where P p f xs k h.1)
    | inr e ↦ rw e (h.0, All-update_where P p f xs k h.1)
  ]

  pub update_where_none :
      (p : A → Bool) (f : A → A) (xs : List A) → count_where p xs ≡ 0 → update_where p f xs ≡ xs
  unfolding update_where
  update_where_none p f [] h = refl
  update_where_none p f (x ∷ xs) h = ground (arith, update_where_none p f xs)

  -- Before any update, a test that holds of no row.
  pub count_where-update_zero :
      (p : A → Bool) (f : A → A) (xs : List A)
      → ((a : A) → p (f a) ≡ false)
      → count_where p (update_where p f xs) ≡ 0
  unfolding update_where
  count_where-update_zero p f [] h = refl
  count_where-update_zero p f (x ∷ xs) h = ground (arith, count_where-update_zero p f xs h, h x)

  pub All-find_where {κ} :
      (P : A → Type κ) (p : A → Bool) (xs : List A) (a : A)
      → All P xs
      → find_where p xs ≡ some a
      → P a × (p a ≡ true)
  All-find_where P p [] a h e = cc
  All-find_where P p (x ∷ xs) a h e = ground (arith, h.0, All-find_where P p xs a h.1)

-- `ORDER BY … LIMIT 1`.
module _ {ℓ} {A : Type ℓ} (before : A → A → Bool) (p : A → Bool) where
  pub first_by-test : (xs : List A) (a : A) → first_by before p xs ≡ some a → p a ≡ true
  unfolding first_by
  first_by-test [] a e = cc
  first_by-test (x ∷ xs) a e = elim (Option-cases (first_by before p xs)) [
    | inl n ↦ ground arith
    | inr (b, s) ↦ ground (arith, first_by-test xs b s)
  ]

  -- What holds of every row holds of the row that is found.
  pub All-first_by {κ} :
      (P : A → Type κ) (xs : List A) (a : A) → All P xs → first_by before p xs ≡ some a → P a
  unfolding first_by
  All-first_by P [] a h e = cc
  All-first_by P (x ∷ xs) a h e = elim (Option-cases (first_by before p xs)) [
    | inl n ↦ ground (arith, h.0)
    | inr (b, s) ↦ ground (arith, h.0, All-first_by P xs b h.1 s)
  ]

  pub first_by-none : (xs : List A) → first_by before p xs ≡ none → any_where p xs ≡ false
  unfolding first_by
  first_by-none [] e = refl
  first_by-none (x ∷ xs) e = elim (Option-cases (first_by before p xs)) [
    | inl n ↦ ground (arith, first_by-none xs n)
    | inr (b, s) ↦ ground arith
  ]

  pub first_by-any : (xs : List A) (a : A) → first_by before p xs ≡ some a → any_where p xs ≡ true
  unfolding first_by
  first_by-any [] a e = cc
  first_by-any (x ∷ xs) a e = elim (Option-cases (first_by before p xs)) [
    | inl n ↦ ground arith
    | inr (b, s) ↦ ground (arith, first_by-any xs b s)
  ]

-- Where no rows form a cycle, and a step of the order passes on one side of any third row, no row that
-- satisfies the test comes before the row that is found.
module _ {ℓ} {A : Type ℓ} (before : A → A → Bool) (p : A → Bool)
    (irrefl : (a : A) → before a a ≡ false)
    (asym : (a b : A) → before a b ≡ true → before b a ≡ false)
    (between : (a b c : A) → before a b ≡ true → (before a c ≡ true) ⊎ (before c b ≡ true)) where
  abbrev NotBefore : A → A → Type 0
  NotBefore a r = p r ≡ true → before r a ≡ false

  NotBefore-none : (a : A) (xs : List A) → any_where p xs ≡ false → All (NotBefore a) xs
  NotBefore-none a [] e = tt
  NotBefore-none a (x ∷ xs) e = ((λ t. ground arith), NotBefore-none a xs (ground arith))

  NotBefore-less : (x b r : A) → before b x ≡ false → NotBefore b r → NotBefore x r
  NotBefore-less x b r e h t = elim (Bool-cases (before r x)) [
    | inl q ↦ elim (between r x b q) [ inl u ↦ ground (arith, h t) | inr u ↦ ground arith ]
    | inr q ↦ q
  ]

  pub first_by_least : (xs : List A) (a : A) → first_by before p xs ≡ some a → All (NotBefore a) xs
  unfolding first_by
  first_by_least [] a e = tt
  first_by_least (x ∷ xs) a e = elim (Option-cases (first_by before p xs)) [
    | inl n ↦
        let same : x ≡ a = ground arith in
        ((λ t. rw same (irrefl a)), NotBefore-none a xs (first_by-none before p xs n))
    | inr (b, s) ↦ elim (Bool-cases (p x && not (before b x))) [
      | inl q ↦
          let same : x ≡ a = ground arith in
          (
            (λ t. rw same (irrefl a)),
            subst (λ y. All (NotBefore y) xs) same
                (All-map (NotBefore b) (NotBefore x) xs
                  (λ r h. NotBefore-less x b r (ground arith) h) (first_by_least xs b s)),
          )
      | inr q ↦
          let same : b ≡ a = ground arith in
          (
            (λ t. rw (← same) (asym b x (ground arith))),
            subst (λ y. All (NotBefore y) xs) same (first_by_least xs b s),
          )
    ]
  ]

module _ {ℓ} {A : Type ℓ} where
  pub All-count_zero :
      (q : A → Bool) (xs : List A) → count_where q xs ≡ 0 → All (λ a. q a ≡ false) xs
  All-count_zero q [] h = tt
  All-count_zero q (x ∷ xs) h = (ground arith, All-count_zero q xs (ground arith))

  pub count_where_of_any :
      (q : A → Bool) (xs : List A) → any_where q xs ≡ true → 1 ≤ count_where q xs
  count_where_of_any q [] h = cc
  count_where_of_any q (x ∷ xs) h = ground (arith, count_where_of_any q xs)

  pub count_where-first_by :
      (before : A → A → Bool) (p q : A → Bool) (xs : List A) (a : A)
      → first_by before p xs ≡ some a
      → q a ≡ true
      → 1 ≤ count_where q xs
  unfolding first_by
  count_where-first_by before p q [] a e h = cc
  count_where-first_by before p q (x ∷ xs) a e h = elim (Option-cases (first_by before p xs)) [
    | inl n ↦ ground arith
    | inr (b, s) ↦ ground (arith, count_where-first_by before p q xs b s)
  ]

  -- Where two tests agree on the rows, so do the updates.
  pub update_where_cong :
      (p q : A → Bool) (f : A → A) (xs : List A)
      → All (λ a. p a ≡ q a) xs
      → update_where p f xs ≡ update_where q f xs
  unfolding update_where
  update_where_cong p q f [] h = refl
  update_where_cong p q f (x ∷ xs) h = ground (arith, h.0, update_where_cong p q f xs h.1)

  pub count_where_cong :
      (p q : A → Bool) (xs : List A) → ((a : A) → p a ≡ q a) → count_where p xs ≡ count_where q xs
  count_where_cong p q [] h = refl
  count_where_cong p q (x ∷ xs) h = ground (arith, h x, count_where_cong p q xs h)

  pub count_where-and_const :
      (p : A → Bool) (b : Bool) (xs : List A)
      → count_where (λ a. p a && b) xs ≡ (if b then count_where p xs else 0)
  count_where-and_const p b [] = ground arith
  count_where-and_const p b (x ∷ xs) = ground (arith, count_where-and_const p b xs)

  -- Where at most one row passes the test, the row that is found is that row.
  pub only_row :
      (p : A → Bool) (xs : List A) (a : A)
      → count_where p xs ≤ 1
      → find_where p xs ≡ some a
      → All (λ x. p x ≡ true → x ≡ a) xs
  only_row p [] a c e = tt
  only_row p (x ∷ xs) a c e = elim (Bool-cases (p x)) [
    | inl t ↦ (
      (λ _. ground arith),
      All-map (λ y. p y ≡ false) _ xs (λ y h k. absurd (ground arith))
          (All-count_zero p xs (ground arith)),
    )
    | inr t ↦ ((λ k. absurd (ground arith)), only_row p xs a (ground arith) (ground arith))
  ]

  pub find_where-first_by :
      (before : A → A → Bool) (p q : A → Bool) (xs : List A) (a : A)
      → count_where q xs ≤ 1
      → first_by before p xs ≡ some a
      → q a ≡ true
      → find_where q xs ≡ some a
  unfolding first_by
  find_where-first_by before p q [] a c e h = cc
  find_where-first_by before p q (x ∷ xs) a c e h = elim (Option-cases (first_by before p xs)) [
    | inl n ↦ ground arith
    | inr (b, s) ↦
        ground (arith, count_where-first_by before p q xs b s, find_where-first_by before p q xs b)
  ]

  pub find_where-update_where :
      (p : A → Bool) (f : A → A) (xs : List A) (a : A)
      → ((x : A) → p (f x) ≡ p x)
      → find_where p xs ≡ some a
      → find_where p (update_where p f xs) ≡ some (f a)
  unfolding update_where
  find_where-update_where p f [] a h e = cc
  find_where-update_where p f (x ∷ xs) a h e =
      ground (arith, h x, find_where-update_where p f xs a h)

  pub count_where_zero :
      (p : A → Bool) (xs : List A) → All (λ x. p x ≡ false) xs → count_where p xs ≡ 0
  count_where_zero p [] h = refl
  count_where_zero p (x ∷ xs) h = ground (arith, h.0, count_where_zero p xs h.1)

  pub find_where-append :
      (p : A → Bool) (xs : List A) (a : A)
      → any_where p xs ≡ false
      → p a ≡ true
      → find_where p (xs ++ a ∷ []) ≡ some a
  find_where-append p [] a h k = ground arith
  find_where-append p (x ∷ xs) a h k = ground (arith, find_where-append p xs a)

  pub find_where-none :
      (p : A → Bool) (xs : List A) → find_where p xs ≡ none → any_where p xs ≡ false
  find_where-none p [] h = refl
  find_where-none p (x ∷ xs) h = ground (arith, find_where-none p xs)

  pub any_where_of_find :
      (p : A → Bool) (xs : List A) (a : A) → find_where p xs ≡ some a → any_where p xs ≡ true
  any_where_of_find p [] a h = cc
  any_where_of_find p (x ∷ xs) a h = ground (arith, any_where_of_find p xs a)
