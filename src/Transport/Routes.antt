-- ===== src/Transport/Routes.antt =====
-- transport.go: which routes ValidateRoute accepts.
use ubi_quic_e_xtreme_zero_t.Prelude.{
  if◌then◌else◌, Bool-cases, Option-cases, find_where, any_where, teq, Text, unknown_transport,
  Result, ok, err, ◌≡◌, refl, ◌↔◌, inl, inr, Bool, true, false, not, ◌&&◌, ◌||◌, List, [], ◌∷◌,
  arith,
}
use ubi_quic_e_xtreme_zero_t.Transport.{
  Capabilities, IsTransport, Registry, Route, named, note, check_stages, get, stages, stage_names,
  validate_route,
}

-- The tests after the loop, on what the loop found.
verdict_iff :
    (q : Capabilities) (bad durable settling : Bool) (o : Result (Bool × Bool))
    → o ≡ (if bad then err unknown_transport else ok (durable, settling))
    → (check_stages q o ≡ ok tt) ↔ (
        (bad ≡ false)
        × (q.durable ≡ true → durable ≡ true)
        × (q.execution_settlement ≡ true → settling ≡ true))
verdict_iff q true durable settling o e = rw e (ground arith)
verdict_iff q false durable settling o e = rw e (ground arith)

module _ {T W : Type 0} (impl : IsTransport T W) where
  open impl use {name_of, capabilities_of, close}

  abbrev is_error : Result T → Bool
  is_error (ok t) = false
  is_error (err x) = true

  abbrev pub offers : (Capabilities → Bool) → Result T → Bool
  offers f (ok t) = f (capabilities_of t)
  offers f (err x) = false

  -- The name of a stage that is not registered.
  abbrev pub is_unknown : Registry impl → Text → Bool
  is_unknown r n = not (teq n []) && is_error (get impl n r)

  -- The name of a stage whose transport can do it.
  abbrev pub can : (Capabilities → Bool) → Registry impl → Text → Bool
  can f r n = not (teq n []) && offers f (get impl n r)

  stages_lem :
      (r : Registry impl) (ns : List Text) (s : Bool × Bool)
      → stages impl r ns s ≡ (
          if any_where (is_unknown r) ns
          then err unknown_transport
          else ok (
            s.0 || any_where (can (λ c. c.durable) r) ns,
            s.1 || any_where (can (λ c. c.execution_settlement) r) ns,
          ))
  unfolding stages get
  stages_lem r [] s = ground arith
  stages_lem r (n ∷ ns) s = elim (Bool-cases (teq n [])) [
    | inl e ↦ rw (e, stages_lem r ns s) (ground arith)
    | inr e ↦ elim (Option-cases (find_where (named impl n) r)) [
      | inl f ↦ rw (e, f) refl
      | inr (a, f) ↦ rw (e, f, stages_lem r ns (note (capabilities_of a.1) s)) (ground arith)
    ]
  ]

  -- ValidateRoute accepts exactly when every named stage of the route is registered, some named stage is
  -- durable if the route requires durability, and some named stage settles executions if the route
  -- requires that. Whatever else the route requires, as reliable or ordered delivery, does not matter.
  pub validate_route_iff :
      (r : Registry impl) (p : Route)
      → (validate_route impl r p ≡ ok tt) ↔ (
          (any_where (is_unknown r) (stage_names p) ≡ false)
          × (p.requires.durable ≡ true → any_where (can (λ c. c.durable) r) (stage_names p) ≡ true)
          × (p.requires.execution_settlement ≡ true
              → any_where (can (λ c. c.execution_settlement) r) (stage_names p) ≡ true))
  unfolding validate_route
  validate_route_iff r p =
      verdict_iff p.requires (any_where (is_unknown r) (stage_names p))
        (any_where (can (λ c. c.durable) r) (stage_names p))
        (any_where (can (λ c. c.execution_settlement) r) (stage_names p))
        (stages impl r (stage_names p) (false, false)) (stages_lem r (stage_names p) (false, false))
