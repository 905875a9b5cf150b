-- ===== src/Pipeline/Writer/Loop.antt =====
-- How the insert loop ends, for every sequence of answers of the database.
use halley.Common.{
  ℕ, ◌+◌, ◌≤◌, ◌≡◌, refl, Bool, true, false, not, Option, none, ◌⊎◌, some, List, [], ◌∷◌, ◌++◌, All,
  if◌then◌else◌, is_some, arith, Bool-cases, Option-cases, inl, inr, ap,
}
use halley.Domain.Errors.{IngestError}
use halley.Domain.Rows.{ObservationRow, BodyRow}
use halley.Pipeline.Retry.{is_transient_error}
use halley.Pipeline.Batch.{Host}
use halley.Pipeline.Writer.{
  Attempt, LoopEnd, success, permanent_failure, shut_down, still_retrying, result_of, insert_loop,
}

module _ (host : Host) where
  -- An attempt with an error that is not transient.
  abbrev pub permanent_result : Option IngestError → Bool
  permanent_result none = false
  permanent_result (some e) = not (is_transient_error host.lower e)

  abbrev pub is_permanent : Attempt → Bool
  is_permanent a = permanent_result (result_of a)

  abbrev pub permanents : List Attempt → ℕ
  permanents [] = 0
  permanents (a ∷ attempts) = (if is_permanent a then 1 else 0) + permanents attempts

  -- The attempts that the loop goes on after: failed, and not interrupted.
  abbrev pub WentOn : List Attempt → Type 0
  WentOn = All (λ a. (is_some (result_of a) ≡ true) × (a.interrupted ≡ false))

  -- The last attempt that the loop made, after those that it went on after; `n` permanent errors
  -- came before, and `total` is their number when the last attempt is made.
  pub record Stops (n : ℕ) (attempts : List Attempt) (Last : Attempt → ℕ → Type 0) : Type 0 where
    pub before : List Attempt
    pub last : Attempt
    pub rest : List Attempt
    pub position : attempts ≡ before ++ last ∷ rest
    pub went_on : WentOn before
    pub few : n + permanents before ≤ 2
    pub ending : Last last (n + permanents before)

  abbrev pub Report : ℕ → List Attempt → LoopEnd → Type 0
  Report n attempts success = Stops n attempts (λ a total. result_of a ≡ none)
  Report n attempts permanent_failure =
      Stops n attempts (λ a total. (is_permanent a ≡ true) × (total ≡ 2))
  Report n attempts shut_down =
      Stops n attempts (λ a total. (is_some (result_of a) ≡ true) × (a.interrupted ≡ true))
  Report n attempts still_retrying = WentOn attempts × (n + permanents attempts ≤ 2)

  abbrev weight : Attempt → ℕ
  weight a = if is_permanent a then 1 else 0

  -- One attempt: what the loop does after it.
  module _ (bodies : List BodyRow) (rows : List ObservationRow) where
    inserted_lem :
        (n : ℕ) (a : Attempt) (attempts : List Attempt)
        → result_of a ≡ none
        → (insert_loop host bodies rows n (a ∷ attempts)).outcome ≡ success
    unfolding insert_loop
    inserted_lem n a attempts e = ground arith

    interrupted_lem :
        (n : ℕ) (a : Attempt) (attempts : List Attempt)
        → is_some (result_of a) ≡ true
        → n + weight a ≤ 2
        → a.interrupted ≡ true
        → (insert_loop host bodies rows n (a ∷ attempts)).outcome ≡ shut_down
    unfolding insert_loop
    interrupted_lem n a attempts failed le e = ground arith

    given_up_lem :
        (n : ℕ) (a : Attempt) (attempts : List Attempt)
        → is_permanent a ≡ true
        → n ≡ 2
        → (insert_loop host bodies rows n (a ∷ attempts)).outcome ≡ permanent_failure
    unfolding insert_loop
    given_up_lem n a attempts e two = ground arith

    went_on_lem :
        (n : ℕ) (a : Attempt) (attempts : List Attempt)
        → is_some (result_of a) ≡ true
        → n + weight a ≤ 2
        → a.interrupted ≡ false
        → (insert_loop host bodies rows n (a ∷ attempts)).outcome
          ≡ (insert_loop host bodies rows (n + weight a) attempts).outcome
    unfolding insert_loop
    went_on_lem n a attempts failed le e = ground arith

  stops_here :
      {Last : Attempt → ℕ → Type 0} (n : ℕ) (a : Attempt) (attempts : List Attempt)
      → n ≤ 2
      → Last a (n + 0)
      → Stops n (a ∷ attempts) Last
  stops_here n a attempts le e = record {
    before = [];
    last = a;
    rest = attempts;
    position = refl;
    went_on = tt;
    few = omega arith;
    ending = e;
  }

  stops_later :
      {Last : Attempt → ℕ → Type 0} (n : ℕ) (a : Attempt) (attempts : List Attempt)
      → is_some (result_of a) ≡ true
      → a.interrupted ≡ false
      → Stops (n + weight a) attempts Last
      → Stops n (a ∷ attempts) Last
  stops_later {Last = Last} n a attempts failed on s =
      let total : n + weight a + permanents s.before ≡ n + (weight a + permanents s.before) =
        omega arith in
      record {
        before = a ∷ s.before;
        last = s.last;
        rest = s.rest;
        position = cc s.position;
        went_on = ((failed, on), s.went_on);
        few = omega (arith, s.few);
        ending = rw (← total) s.ending;
      }

  went_through :
      (n : ℕ) (a : Attempt) (attempts : List Attempt) (o : LoopEnd)
      → is_some (result_of a) ≡ true
      → a.interrupted ≡ false
      → Report (n + weight a) attempts o
      → Report n (a ∷ attempts) o
  went_through n a attempts success failed on r = stops_later n a attempts failed on r
  went_through n a attempts permanent_failure failed on r = stops_later n a attempts failed on r
  went_through n a attempts shut_down failed on r = stops_later n a attempts failed on r
  went_through n a attempts still_retrying failed on (all, le) = (((failed, on), all), omega arith)

  weight-cases :
      (n : ℕ) (a : Attempt) → n ≤ 2 → (n + weight a ≤ 2) ⊎ ((is_permanent a ≡ true) × (n ≡ 2))
  weight-cases n a le = elim (Bool-cases (is_permanent a)) [
    | inl yes_permanent ↦ ground arith
    | inr no_permanent ↦ inl (rw no_permanent (omega arith))
  ]

  failed_lem :
      (bodies : List BodyRow) (rows : List ObservationRow) (n : ℕ) (a : Attempt)
      (attempts : List Attempt)
      → n ≤ 2
      → is_some (result_of a) ≡ true
      → (n + weight a ≤ 2
          → Report
              (n + weight a)
              attempts
              (insert_loop host bodies rows (n + weight a) attempts).outcome)
      → Report n (a ∷ attempts) (insert_loop host bodies rows n (a ∷ attempts)).outcome
  failed_lem bodies rows n a attempts le failed ih = elim (weight-cases n a le) [
    | inl few ↦ elim (Bool-cases a.interrupted) [
      | inl cut ↦
          rw (interrupted_lem bodies rows n a attempts failed few cut)
            (stops_here n a attempts le (failed, cut))
      | inr on ↦
          rw (went_on_lem bodies rows n a attempts failed few on)
            (went_through n a attempts _ failed on (ih few))
    ]
    | inr (third, two) ↦
        rw (given_up_lem bodies rows n a attempts third two)
          (stops_here n a attempts le (third, omega arith))
  ]

  -- The insert loop, entered after `n` permanent errors, `n` at most 2, ends in one of four ways, for
  -- every sequence of answers. In success, the last attempt inserted both the bodies and the
  -- observations. In permanent failure, the last attempt failed with the third permanent error. Shut
  -- down, the last attempt failed and the shutdown came in the sleep after it. Every attempt before
  -- the last failed without an interruption, with at most 2 permanent errors in all. Otherwise
  -- the answers are used up, every attempt failed, and at most 2 errors were permanent: no number of
  -- transient errors ends the loop.
  pub insert_loop-Report :
      (bodies : List BodyRow) (rows : List ObservationRow) (n : ℕ) (attempts : List Attempt)
      → n ≤ 2
      → Report n attempts (insert_loop host bodies rows n attempts).outcome
  insert_loop-Report bodies rows n [] le = unfold insert_loop in (tt, omega arith)
  insert_loop-Report bodies rows n (a ∷ attempts) le = elim (Option-cases (result_of a)) [
    | inl inserted ↦
        rw (inserted_lem bodies rows n a attempts inserted) (stops_here n a attempts le inserted)
    | inr (e, failed) ↦
        failed_lem bodies rows n a attempts le (ap is_some failed)
          (insert_loop-Report bodies rows (n + weight a) attempts)
  ]
