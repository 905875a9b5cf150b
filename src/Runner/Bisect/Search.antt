-- ===== src/Runner/Bisect/Search.antt =====
-- Where the search of `cmd_bisect` ends.
use halley.Common.{
  ℕ, zero, suc, ◌+◌, ◌-◌, ◌/◌, ◌≤◌, ◌<◌, ◌≡◌, refl, ap, ◌∙◌, Bool, true, false, some, ltb, arith,
  Bool-cases, inl, inr, ◌⊎◌,
}
use halley.Runner.Bisect.{search}

-- 2 to the power of the number of tests.
abbrev pub range_of : ℕ → ℕ
range_of zero = 1
range_of (suc fuel) = range_of fuel + range_of fuel

-- Neighbours in the range, the lower one good or the range's lower end, the upper one bad or the
-- range's upper end.
pub record IsBoundary (passes : ℕ → Bool) (lo hi a b : ℕ) : Type 0 where
  pub neighbours : a + 1 ≡ b
  pub above : lo ≤ a
  pub below : b ≤ hi
  pub good : (a ≡ lo) ⊎ (passes a ≡ true)
  pub bad : (b ≡ hi) ⊎ (passes b ≡ false)

module _ (passes : ℕ → Bool) where
  abbrev Ends : ℕ → ℕ → ℕ → Type 0
  Ends fuel lo hi =
      (a : ℕ) × (b : ℕ) × (search fuel passes lo hi ≡ some (a, b)) × IsBoundary passes lo hi a b

  at_once : (fuel lo hi : ℕ) → lo < hi → ltb (lo + 1) hi ≡ false → Ends fuel lo hi
  unfolding search
  at_once zero lo hi lt stop = (
    lo,
    hi,
    ground arith,
    record {
      neighbours = ground arith;
      above = omega arith;
      below = omega arith;
      good = inl refl;
      bad = inl refl;
    },
  )
  at_once (suc fuel) lo hi lt stop = (
    lo,
    hi,
    ground arith,
    record {
      neighbours = ground arith;
      above = omega arith;
      below = omega arith;
      good = inl refl;
      bad = inl refl;
    },
  )

  upper_lem :
      (fuel lo hi a b : ℕ)
      → ltb (lo + 1) hi ≡ true
      → passes ((lo + hi) / 2) ≡ true
      → search fuel passes ((lo + hi) / 2) hi ≡ some (a, b)
      → search (suc fuel) passes lo hi ≡ some (a, b)
  unfolding search
  upper_lem fuel lo hi a b more good e = ground (arith, more, good, e)

  lower_lem :
      (fuel lo hi a b : ℕ)
      → ltb (lo + 1) hi ≡ true
      → passes ((lo + hi) / 2) ≡ false
      → search fuel passes lo ((lo + hi) / 2) ≡ some (a, b)
      → search (suc fuel) passes lo hi ≡ some (a, b)
  unfolding search
  lower_lem fuel lo hi a b more bad e = ground (arith, more, bad, e)

  -- With `fuel` tests, a range of at most 2 to the power of `fuel` commits is searched to the end: the
  -- result is a pair of neighbours in the range, of which the lower passes or is the lower end of the
  -- range, and the upper fails or is its upper end.
  pub search-IsBoundary :
      (fuel lo hi : ℕ)
      → lo < hi
      → hi - lo ≤ range_of fuel
      → (a : ℕ) × (b : ℕ) × (search fuel passes lo hi ≡ some (a, b)) × IsBoundary passes lo hi a b
  search-IsBoundary zero lo hi lt le = at_once zero lo hi lt (ground arith)
  search-IsBoundary (suc fuel) lo hi lt le = elim (Bool-cases (ltb (lo + 1) hi)) [
    | inr stop ↦ at_once (suc fuel) lo hi lt stop
    | inl more ↦ elim (Bool-cases (passes ((lo + hi) / 2))) [
      | inl good ↦
          let (a, b, e, h) =
            search-IsBoundary fuel ((lo + hi) / 2) hi (ground arith) (ground arith) in
          (
            a,
            b,
            upper_lem fuel lo hi a b more good e,
            record {
              neighbours = h.neighbours;
              above = ground (arith, h.above);
              below = h.below;
              good = inr (ground (arith, h.good, good, λ (e : a ≡ (lo + hi) / 2). ap passes e));
              bad = h.bad;
            },
          )
      | inr bad ↦
          let (a, b, e, h) =
            search-IsBoundary fuel lo ((lo + hi) / 2) (ground arith) (ground arith) in
          (
            a,
            b,
            lower_lem fuel lo hi a b more bad e,
            record {
              neighbours = h.neighbours;
              above = h.above;
              below = ground (arith, h.below);
              good = h.good;
              bad = inr (ground (arith, h.bad, bad, λ (e : b ≡ (lo + hi) / 2). ap passes e));
            },
          )
    ]
  ]

  boundary_first :
      (lo hi k a b : ℕ)
      → lo < k
      → k ≤ hi
      → ((i : ℕ) → lo ≤ i → i < k → passes i ≡ true)
      → ((i : ℕ) → k ≤ i → i ≤ hi → passes i ≡ false)
      → IsBoundary passes lo hi a b
      → b ≡ k
  boundary_first lo hi k a b above below good bad h =
      ground (arith, h.neighbours, h.above, h.below, h.good, h.bad, good b, bad a)

  -- With `fuel` tests and a range of at most 2 to the power of `fuel` commits, where every commit
  -- before `k` passes and every commit from `k` on fails, `k` after the lower end of the range and not
  -- after its upper end, the search gives `k` as the first that fails.
  pub search-first :
      (fuel lo hi k : ℕ)
      → hi - lo ≤ range_of fuel
      → lo < k
      → k ≤ hi
      → ((i : ℕ) → lo ≤ i → i < k → passes i ≡ true)
      → ((i : ℕ) → k ≤ i → i ≤ hi → passes i ≡ false)
      → (a : ℕ) × (search fuel passes lo hi ≡ some (a, k))
  search-first fuel lo hi k le above below good bad =
      let (a, b, e, h) = search-IsBoundary fuel lo hi (omega arith) le in
      (a, e ∙ ap (λ i. some (a, i)) (boundary_first lo hi k a b above below good bad h))
