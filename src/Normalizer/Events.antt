-- ===== src/Normalizer/Events.antt =====
-- The messages that the otel-genai and the openllmetry adapter read from span events: the loop of
-- `extract_bodies` in ingester/src/normalizer/otel_genai.rs.
pub mod Order
use halley.Common.{
  String, Bool, Option, some, List, [], ◌∷◌, ◌++◌, ◌||◌, str_eq, is_empty, if◌then◌else◌, unwrap_or,
  and_then, or_else,
}
use mathlib.Core.Option
use halley.Common.BTreeMap.{get}
use halley.External.{External}
use halley.Json.{Value, null, array, of_items, message}
use halley.Domain.OtlpSpan.{OtlpEvent, as_str, to_json}

unfoldable pub role_of : OtlpEvent → String
unfolding get as_str
role_of event =
    unwrap_or
      (and_then (or_else (get event.attributes "gen_ai.system") (get event.attributes "role"))
        as_str)
      (if str_eq event.name "gen_ai.system.message" then "system" else "user")

unfoldable pub content_of : External → OtlpEvent → Value
unfolding get to_json
content_of ext event =
    unwrap_or
      (Option.map (to_json ext)
        (or_else (get event.attributes "gen_ai.event.content") (get event.attributes "content")))
      null

abbrev pub is_input : OtlpEvent → Bool
is_input event =
    str_eq event.name "gen_ai.user.message" || str_eq event.name "gen_ai.system.message"

abbrev pub is_output : OtlpEvent → Bool
is_output event = str_eq event.name "gen_ai.assistant.message" || str_eq event.name "gen_ai.choice"

-- One round: the messages of the input and of the output, with this event's message pushed.
push_event : External → OtlpEvent → List Value × List Value → List Value × List Value
unfolding role_of content_of
push_event ext event (input, output) =
    if is_input event
    then (input ++ message (role_of event) (content_of ext event) ∷ [], output)
    else (if is_output event
        then (input, output ++ message "assistant" (content_of ext event) ∷ [])
        else (input, output))

messages_from : External → List Value × List Value → List OtlpEvent → List Value × List Value
unfolding push_event
messages_from ext acc [] = acc
messages_from ext acc (e ∷ events) = messages_from ext (push_event ext e acc) events

unfoldable pub event_messages : External → List OtlpEvent → List Value × List Value
unfolding messages_from
event_messages ext events = messages_from ext ([], []) events

-- The array of the messages if there are any, or else the fallback.
abbrev pub messages_or : List Value → Option Value → Option Value
messages_or messages fallback =
    if is_empty messages then fallback else some (array (of_items messages))
