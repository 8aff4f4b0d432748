-- ===== src/Uout/Callbacks/Tests.antt =====
-- Runs of uout/callbacks.cc, and its theorems at inputs where their hypotheses hold.
use components_mcu.Prelude.{
  ℕ, ◌+◌, true, ◌&&◌, some, [], ◌∷◌, ◌++◌, Bytes, codes, ◌==◌, if◌then◌else◌, ◌≡◌, refl, arith,
}
use components_mcu.Uout.Callbacks.{
  Flags, initial_slots, subscribe, unsubscribe, publish_ws_json, filter, publish, text,
  publish_pin_change, quote_string,
}
use components_mcu.Uout.Callbacks.Slots.{Inv, initial-Inv, active, subscribe-Inv, active-subscribe}
use components_mcu.Uout.Callbacks.Delivery.{
  wanted, occurrences, targets, publish_reaches, publish_ws_json-unsubscribe,
}
use components_mcu.Uout.Callbacks.Quoting.{json_string, json_string_overrun}

-- Callback 7 wants pin changes as JSON.
abbrev pin_json_flags : Flags
pin_json_flags = record { evt_flags = 1; fmt_flags = 1; tgt_flags = 0 }

-- A stand-in for `%d` on digits.
abbrev digit : ℕ → Bytes
digit n = (n + 48) ∷ []

abbrev ws_flags : Flags
ws_flags = record { evt_flags = 0; fmt_flags = 1; tgt_flags = 1 }

one_pin_change :
    publish_pin_change digit 5 1 (subscribe 7 pin_json_flags initial_slots).1
    ≡ record {
      target = 7;
      payload = text (codes "{\"mcu\":{\"gpio5\":1}}");
      flags = pin_json_flags;
    }
      ∷ []
unfolding publish_pin_change subscribe filter publish
one_pin_change = refl

active-subscribe_example : active 7 (subscribe 7 pin_json_flags initial_slots).1 ≡ (
    if (subscribe 7 pin_json_flags initial_slots).0 && (7 == 7)
    then some pin_json_flags
    else active 7 initial_slots)
active-subscribe_example =
    active-subscribe 7 pin_json_flags 7 initial_slots (omega arith) initial-Inv

seven_subscribed-Inv : Inv (subscribe 7 pin_json_flags initial_slots).1
seven_subscribed-Inv = subscribe-Inv 7 pin_json_flags initial_slots (omega arith) initial-Inv

publish_reaches_example :
    occurrences 7 (
      targets (
        publish
          (subscribe 7 pin_json_flags initial_slots).1
          (filter pin_json_flags (subscribe 7 pin_json_flags initial_slots).1)
          (text [])
          pin_json_flags))
    ≡ wanted pin_json_flags (active 7 (subscribe 7 pin_json_flags initial_slots).1)
publish_reaches_example =
    publish_reaches pin_json_flags (text []) 7 (subscribe 7 pin_json_flags initial_slots).1
      (omega arith) seven_subscribed-Inv

subscribed : (subscribe 7 pin_json_flags initial_slots).0 ≡ true
unfolding subscribe
subscribed = refl

json_string_overrun_example :
    json_string (quote_string (codes "a" ++ b'\\' ∷ []) ++ b'"' ∷ codes "}")
    ≡ (codes "a" ++ b'"' ∷ (json_string (codes "}")).0, (json_string (codes "}")).1)
json_string_overrun_example = json_string_overrun (codes "a") (codes "}") refl

publish_ws_json-unsubscribe_example :
    publish_ws_json (codes "{}") (unsubscribe 7 (subscribe 7 ws_flags initial_slots).1).1
    ≡ publish_ws_json (codes "{}") (subscribe 7 ws_flags initial_slots).1
publish_ws_json-unsubscribe_example =
    publish_ws_json-unsubscribe (codes "{}") 7 (subscribe 7 ws_flags initial_slots).1

-- So a callback that has unsubscribed is still called.
unsubscribed_called :
    occurrences 7 (
      targets
        (publish_ws_json (codes "{}") (unsubscribe 7 (subscribe 7 ws_flags initial_slots).1).1))
    ≡ 1
unfolding publish_ws_json subscribe unsubscribe
unsubscribed_called = refl
