-- ===== src/Normalizer/Events/Order.antt =====
-- Which messages the bodies hold, and in which order.
use mathlib.Core.List.{append-nil, append_assoc}
use halley.Common.{
  ◌≡◌, refl, String, sym, ap, ◌∙◌, Bool, true, false, List, [], ◌∷◌, ◌++◌, ◌||◌, str_eq,
  if◌then◌else◌, arith, Bool-cases, inl, inr, eq_iff,
}
use halley.External.{External}
use halley.Json.{Value, message}
use halley.Domain.OtlpSpan.{OtlpEvent}
use halley.Normalizer.Attrs.{Attributes, json_str_attr}
use halley.Normalizer.Events.{
  role_of, content_of, is_input, is_output, push_event, messages_from, event_messages, messages_or,
}
use halley.Normalizer.OtelGenAi

-- The messages of the events that an input body is made of, in the order of the events.
abbrev pub inputs : External → List OtlpEvent → List Value
inputs ext [] = []
inputs ext (e ∷ events) =
    if is_input e
    then message (role_of e) (content_of ext e) ∷ inputs ext events
    else inputs ext events

-- The messages of the events that an output body is made of.
abbrev pub outputs : External → List OtlpEvent → List Value
outputs ext [] = []
outputs ext (e ∷ events) =
    if is_output e
    then message "assistant" (content_of ext e) ∷ outputs ext events
    else outputs ext events

abbrev input_name : String → Bool
input_name n = str_eq n "gen_ai.user.message" || str_eq n "gen_ai.system.message"

abbrev output_name : String → Bool
output_name n = str_eq n "gen_ai.assistant.message" || str_eq n "gen_ai.choice"

-- No event is both.
no_output : (n : String) → input_name n ≡ true → output_name n ≡ false
no_output n e = elim (Bool-cases (str_eq n "gen_ai.user.message")) [
  | inl user ↦ ap output_name ((eq_iff n "gen_ai.user.message").0 user)
  | inr other ↦ ap output_name ((eq_iff n "gen_ai.system.message").0 (ground (arith, e, other)))
]

push_lem :
    (ext : External) (i o : List Value) (e : OtlpEvent)
    → push_event ext e (i, o) ≡ (i ++ inputs ext (e ∷ []), o ++ outputs ext (e ∷ []))
unfolding push_event
push_lem ext i o e = elim (Bool-cases (is_input e)) [
  | inl input ↦
      rw (input, no_output e.name input)
        (ap (λ l. (i ++ message (role_of e) (content_of ext e) ∷ [], l)) (sym (append-nil o)))
  | inr other ↦ elim (Bool-cases (is_output e)) [
    | inl output ↦
        rw (other, output)
          (ap (λ l. (l, o ++ message "assistant" (content_of ext e) ∷ [])) (sym (append-nil i)))
    | inr neither ↦ rw (other, neither) (λ j. (sym (append-nil i) j, sym (append-nil o) j))
  ]
]

inputs-cons :
    (ext : External) (e : OtlpEvent) (events : List OtlpEvent)
    → inputs ext (e ∷ []) ++ inputs ext events ≡ inputs ext (e ∷ events)
inputs-cons ext e events = elim (Bool-cases (is_input e)) [
  | inl yes_input ↦ rw yes_input refl
  | inr no_input ↦ rw no_input refl
]

outputs-cons :
    (ext : External) (e : OtlpEvent) (events : List OtlpEvent)
    → outputs ext (e ∷ []) ++ outputs ext events ≡ outputs ext (e ∷ events)
outputs-cons ext e events = elim (Bool-cases (is_output e)) [
  | inl yes_output ↦ rw yes_output refl
  | inr none_made ↦ rw none_made refl
]

messages_lem :
    (ext : External) (i o : List Value) (events : List OtlpEvent)
    → messages_from ext (i, o) events ≡ (i ++ inputs ext events, o ++ outputs ext events)
unfolding messages_from
messages_lem ext i o [] = λ j. (sym (append-nil i) j, sym (append-nil o) j)
messages_lem ext i o (e ∷ events) =
    ap (λ (p : List Value × List Value). messages_from ext p events) (push_lem ext i o e)
    ∙ messages_lem ext (i ++ inputs ext (e ∷ [])) (o ++ outputs ext (e ∷ [])) events
    ∙ (λ j. (
      (append_assoc i (inputs ext (e ∷ [])) (inputs ext events)
            ∙ ap (λ l. i ++ l) (inputs-cons ext e events))
          j,
      (append_assoc o (outputs ext (e ∷ [])) (outputs ext events)
            ∙ ap (λ l. o ++ l) (outputs-cons ext e events))
          j,
    ))

-- The input body of an otel-genai span is the array of the messages of its user and system events, in
-- their order, if there are any, and else the JSON text of `gen_ai.input.messages`; the output body
-- is likewise that of its assistant and choice events, or `gen_ai.output.messages`.
pub extract_bodies-eq :
    (ext : External) (events : List OtlpEvent) (attrs : Attributes)
    → OtelGenAi.extract_bodies ext events attrs ≡ (
      messages_or (inputs ext events) (json_str_attr ext attrs "gen_ai.input.messages"),
      messages_or (outputs ext events) (json_str_attr ext attrs "gen_ai.output.messages"),
    )
unfolding OtelGenAi.extract_bodies event_messages
extract_bodies-eq ext events attrs =
    ap
      (λ (p : List Value × List Value). (
        messages_or p.0 (json_str_attr ext attrs "gen_ai.input.messages"),
        messages_or p.1 (json_str_attr ext attrs "gen_ai.output.messages"),
      ))
      (messages_lem ext [] [] events)
