-- ===== src/Receiver/Gate/Token.antt =====
-- What the check of a request answers, for every header.
use Prim.Native.String.{◌++◌}
use text.Mathlib.TextEquality.{starts_with_iff}
use text.Mathlib.TextPositions.{slice-append_right, len-append, starts_with-append}
use text.Mathlib.TextLemmas.{append_assoc, append-eq-nil_iff}
use halley.Common.{
  String, ◌≡◌, ◌≢◌, refl, sym, ◌∙◌, ap, Bool, false, some, str_eq, starts_with, if◌then◌else◌,
  eq_iff, arith, ◌⊎◌, ◌↔◌, Bool-cases, inl, inr,
}
use halley.External.{Uuid}
use halley.Receiver.Auth.{Validated, project, no_project, failed}
use halley.Receiver.Gate.{
  Checked, allowed, refused, unwrapped, missing_token, strip_prefix, answered, with_token,
  authorize,
}

strip_prefix-append : (p t : String) → strip_prefix (p ++ t) p ≡ some t
unfolding strip_prefix
strip_prefix-append p t =
    rw (starts_with-append p t, len-append p t) (ap (λ x. some x) (slice-append_right p t))

ne-empty : (t : String) → str_eq ("Bearer hlly_" ++ t) "" ≡ false
ne-empty t = elim (Bool-cases (str_eq ("Bearer hlly_" ++ t) "")) [
  | inr e ↦ e
  | inl e ↦ cc (
      (eq_iff "Bearer hlly_" "").1
        ((append-eq-nil_iff {p = "Bearer hlly_"} {q = t}).0
          ((eq_iff ("Bearer hlly_" ++ t) "").0 e)).0)
]

hlly-append : (t : String) → "Bearer hlly_" ++ t ≡ "Bearer " ++ ("hlly_" ++ t)
hlly-append t = append_assoc "Bearer " "hlly_" t

strip_prefix-bearer :
    (t : String) → strip_prefix ("Bearer hlly_" ++ t) "Bearer " ≡ some ("hlly_" ++ t)
strip_prefix-bearer t =
    ap (λ h. strip_prefix h "Bearer ") (hlly-append t)
    ∙ strip_prefix-append "Bearer " ("hlly_" ++ t)

module _ {S : Type 0} (validate : String → Validated × S) (auth_required : Bool)
    (default_project : Uuid) (s : S) where
  abbrev check : String → Checked S
  check header = authorize validate auth_required default_project header s

  check-empty :
      check "" ≡ (if auth_required then refused missing_token s else allowed default_project s)
  unfolding authorize
  check-empty = refl

  check-bearer : (t : String) → check ("Bearer hlly_" ++ t) ≡ answered (validate ("hlly_" ++ t))
  unfolding authorize
  check-bearer t =
      rw (ne-empty t, starts_with-append "Bearer hlly_" t)
        (ap (with_token validate) (strip_prefix-bearer t))

  check-other :
      (header : String)
      → str_eq header "" ≡ false
      → starts_with header "Bearer hlly_" ≡ false
      → check header ≡ refused missing_token s
  unfolding authorize
  check-other header e f = rw (e, f) refl

  -- Either there is no header, no key is required, and the project is the default one; or the header
  -- is "Bearer " and a token that begins with "hlly_", and the validation of that token gives the
  -- project.
  abbrev pub Grants : String → Uuid → S → Type 0
  Grants header pid s' =
      ((header ≡ "") × (auth_required ≡ false) × (default_project ≡ pid) × (s ≡ s'))
      ⊎ ((t : String) × (header ≡ "Bearer hlly_" ++ t)
          × (validate ("hlly_" ++ t) ≡ (project pid, s')))

  header-cases :
      (header : String)
      → (header ≡ "")
        ⊎ (((t : String) × (header ≡ "Bearer hlly_" ++ t))
            ⊎ (check header ≡ refused missing_token s))
  header-cases header = elim (Bool-cases (str_eq header "")) [
    | inl e ↦ inl ((eq_iff header "").0 e)
    | inr e ↦ elim (Bool-cases (starts_with header "Bearer hlly_")) [
      | inl f ↦ let h = (starts_with_iff header "Bearer hlly_").0 f in inr (inl (h.0, sym h.1))
      | inr f ↦ inr (inr (check-other header e f))
    ]
  ]

  answered-eq :
      (a : Validated × S) (pid : Uuid) (s' : S)
      → answered a ≡ allowed pid s'
      → a ≡ (project pid, s')
  answered-eq (project u, x) pid s' e = ground arith
  answered-eq (no_project, x) pid s' e = cc
  answered-eq (failed m, x) pid s' e = cc

  answered-ne : (a : Validated × S) → answered a ≢ unwrapped
  answered-ne (project u, x) e = cc
  answered-ne (no_project, x) e = cc
  answered-ne (failed m, x) e = cc

  empty-allowed :
      (pid : Uuid) (s' : S)
      → check "" ≡ allowed pid s'
      → (auth_required ≡ false) × (default_project ≡ pid) × (s ≡ s')
  empty-allowed pid s' e = ground (arith, check-empty)

  pub allowed-Grants :
      (header : String) (pid : Uuid) (s' : S) → check header ≡ allowed pid s' → Grants header pid s'
  allowed-Grants header pid s' e = elim (header-cases header) [
    | inl none_sent ↦
        let (off, same, kept) = empty-allowed pid s' (ap check (sym none_sent) ∙ e) in
        inl (none_sent, off, same, kept)
    | inr (inl (t, h)) ↦ inr (
      t,
      h,
      answered-eq (validate ("hlly_" ++ t)) pid s' (sym (check-bearer t) ∙ ap check (sym h) ∙ e),
    )
    | inr (inr other) ↦ cc
  ]

  Grants-allowed :
      (header : String) (pid : Uuid) (s' : S) → Grants header pid s' → check header ≡ allowed pid s'
  Grants-allowed header pid s' (inl (h, off, same, kept)) = ap check h ∙ ground (arith, check-empty)
  Grants-allowed header pid s' (inr (t, h, valid)) = ap check h ∙ check-bearer t ∙ ap answered valid

  pub check-ne-unwrapped : (header : String) → check header ≢ unwrapped
  check-ne-unwrapped header e = elim (header-cases header) [
    | inl none_sent ↦ ground (arith, check-empty, ap check none_sent)
    | inr (inl (t, h)) ↦
        answered-ne (validate ("hlly_" ++ t)) (sym (check-bearer t) ∙ ap check (sym h) ∙ e)
    | inr (inr other) ↦ cc
  ]

  -- A request is let in, for a project, exactly in those two cases; the check never panics.
  pub authorize_iff :
      (header : String) (pid : Uuid) (s' : S)
      → ((authorize validate auth_required default_project header s ≡ allowed pid s')
          ↔ Grants header pid s')
        × (authorize validate auth_required default_project header s ≢ unwrapped)
  authorize_iff header pid s' =
      ((allowed-Grants header pid s', Grants-allowed header pid s'), check-ne-unwrapped header)
