-- ===== src/Transport/Names.antt =====
-- transport.go: the registry as a map from names to transports, and its sorted names.
use ubi_quic_e_xtreme_zero_t.Prelude.{
  if◌then◌else◌, Bool-cases, All, find_where, any_where, count_where, teq, tlt, Text, teq_iff,
  teq_refl, teq-false, tlt_trans, tlt_total, ok, ◌≤◌, ◌≡◌, refl, sym, ap, ◌≢◌, ◌⊎◌, inl, inr, Bool,
  true, false, some, List, [], ◌∷◌, ◌++◌, arith,
}
use ubi_quic_e_xtreme_zero_t.Prelude.Tables.{
  any_where_of_count, count_where-append, count_where_none,
}
use ubi_quic_e_xtreme_zero_t.Transport.{
  IsTransport, Registry, named, register, get, names, insert_text,
}

-- Strictly increasing, byte by byte.
abbrev pub Increasing : List Text → Type 0
Increasing [] = Unit
Increasing (t ∷ us) = All (λ u. tlt t u ≡ true) us × Increasing us

abbrev pub is_name : Text → Text → Bool
is_name n m = teq m n

All-insert_text :
    (t u : Text) (us : List Text)
    → tlt t u ≡ true
    → All (λ v. tlt t v ≡ true) us
    → All (λ v. tlt t v ≡ true) (insert_text u us)
unfolding insert_text
All-insert_text t u [] h k = (h, tt)
All-insert_text t u (v ∷ us) h k = elim (Bool-cases (tlt v u)) [
  | inl q ↦ rw q (k.0, All-insert_text t u us h k.1)
  | inr q ↦ rw q (h, k)
]

All-tlt_trans :
    (t u : Text) (us : List Text)
    → tlt t u ≡ true
    → All (λ v. tlt u v ≡ true) us
    → All (λ v. tlt t v ≡ true) us
All-tlt_trans t u [] h k = tt
All-tlt_trans t u (v ∷ us) h k = (tlt_trans t u v h k.0, All-tlt_trans t u us h k.1)

pub Increasing-insert_text :
    (t : Text) (us : List Text)
    → any_where (is_name t) us ≡ false
    → Increasing us
    → Increasing (insert_text t us)
unfolding insert_text
Increasing-insert_text t [] h k = (tt, tt)
Increasing-insert_text t (u ∷ us) h k = elim (Bool-cases (tlt u t)) [
  | inl q ↦ rw q (All-insert_text u t us q k.0, Increasing-insert_text t us (ground arith) k.1)
  | inr q ↦
      let below = tlt_of_not t u (ground arith) q in
      rw q ((below, All-tlt_trans t u us below k.0), k)
]
  where
    tlt_of_not : (t u : Text) → teq u t ≡ false → tlt u t ≡ false → tlt t u ≡ true
    tlt_of_not t u d q = ground (arith, tlt_total u t, teq_iff u t)

pub count_where-insert_text :
    (p : Text → Bool) (t : Text) (us : List Text)
    → count_where p (insert_text t us) ≡ count_where p (t ∷ us)
unfolding insert_text
count_where-insert_text p t [] = refl
count_where-insert_text p t (u ∷ us) = ground (arith, count_where-insert_text p t us)

module _ {T W : Type 0} (impl : IsTransport T W) where
  open impl use {name_of}

  -- No two entries have the same name.
  abbrev pub IsUnique : Registry impl → Type 0
  IsUnique r = (n : Text) → count_where (named impl n) r ≤ 1

  count_where-names :
      (r : Registry impl) (n : Text)
      → count_where (is_name n) (names impl r) ≡ count_where (named impl n) r
  unfolding names
  count_where-names [] n = refl
  count_where-names (e ∷ es) n =
      ground
        (arith, count_where-names es n, count_where-insert_text (is_name n) e.0 (names impl es))

  Increasing-names : (r : Registry impl) → IsUnique r → Increasing (names impl r)
  unfolding names
  Increasing-names [] h = tt
  Increasing-names (e ∷ es) h =
      Increasing-insert_text e.0 (names impl es)
        (any_where_of_count (is_name e.0) (names impl es)
          (ground (arith, count_where-names es e.0, h e.0, teq_refl e.0)))
        (Increasing-names es (λ n. ground (arith, h n)))

  -- In a registry whose names are unique, Names returns the registered names in increasing order, each of
  -- them once and no other.
  pub names_sorted :
      (r : Registry impl)
      → IsUnique r
      → Increasing (names impl r)
        × ((n : Text) → count_where (is_name n) (names impl r) ≡ count_where (named impl n) r)
  names_sorted r h = (Increasing-names r h, count_where-names r)

  find_where-append :
      (p : Text × T → Bool) (xs ys : Registry impl)
      → find_where p (xs ++ ys) ≡ (if any_where p xs then find_where p xs else find_where p ys)
  find_where-append p [] ys = refl
  find_where-append p (x ∷ xs) ys = ground (arith, find_where-append p xs ys)

  find_where_skip :
      (p : Text × T → Bool) (xs : Registry impl) (y : Text × T)
      → p y ≡ false
      → find_where p (xs ++ y ∷ []) ≡ find_where p xs
  find_where_skip p [] y h = rw h refl
  find_where_skip p (x ∷ xs) y h = ap (λ o. if p x then some x else o) (find_where_skip p xs y h)

  abbrev extended : T → Registry impl → Registry impl
  extended t r = r ++ (name_of t, t) ∷ []

  unique :
      (t : T) (r : Registry impl)
      → IsUnique r
      → any_where (named impl (name_of t)) r ≡ false
      → IsUnique (extended t r)
  unique t r h f n = elim (Bool-cases (teq (name_of t) n)) [
    | inl e ↦
        let same = (teq_iff (name_of t) n).0 e in
        ground (
          arith,
          count_where-append (named impl n) r ((name_of t, t) ∷ []),
          count_where_none (named impl (name_of t)) r f,
          ap (λ m. count_where (named impl m) r) same,
        )
    | inr e ↦ ground (arith, count_where-append (named impl n) r ((name_of t, t) ∷ []), h n)
  ]

  found :
      (t : T) (r : Registry impl)
      → any_where (named impl (name_of t)) r ≡ false
      → get impl (name_of t) (extended t r) ≡ ok t
  unfolding get
  found t r f =
      rw
        (
          find_where-append (named impl (name_of t)) r ((name_of t, t) ∷ []),
          f,
          teq_refl (name_of t),
        )
        refl

  others :
      (t : T) (r : Registry impl) (n : Text)
      → n ≢ name_of t
      → get impl n (extended t r) ≡ get impl n r
  unfolding get
  others t r n d =
      rw
        (find_where_skip (named impl n) r (name_of t, t) (teq-false (name_of t) n (λ q. d (sym q))))
        refl

  -- Register keeps the names unique. When it accepts a transport, Get finds it under its name and finds
  -- under every other name what it found before; when it refuses, the registry is as it was.
  pub register_cases :
      (t : T) (r : Registry impl)
      → IsUnique r
      → IsUnique (register impl (some t) r).1
        × ((((register impl (some t) r).0 ≡ ok tt)
              × (name_of t ≢ [])
              × (get impl (name_of t) (register impl (some t) r).1 ≡ ok t)
              × ((n : Text)
                  → n ≢ name_of t
                  → get impl n (register impl (some t) r).1 ≡ get impl n r))
            ⊎ (((name_of t ≡ []) ⊎ (any_where (named impl (name_of t)) r ≡ true))
                × ((register impl (some t) r).1 ≡ r)))
  unfolding register get
  register_cases t r h = elim (Bool-cases (teq (name_of t) [])) [
    | inl e ↦ rw e (h, inr (inl ((teq_iff (name_of t) []).0 e), refl))
    | inr e ↦ elim (Bool-cases (any_where (named impl (name_of t)) r)) [
      | inl f ↦ rw (e, f) (h, inr (inr refl, refl))
      | inr f ↦
          rw (e, f)
            (
              unique t r h f,
              inl (refl, λ q. ground (arith, teq_iff (name_of t) []), found t r f, others t r),
            )
    ]
  ]
