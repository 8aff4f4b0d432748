-- ===== src/Uout/Callbacks.antt =====
-- Publishers and subscribers: uout/callbacks.cc with the types of uout/include/uout/uo_callbacks.h.
-- A function pointer is a number, 0 for null. The two parallel arrays `uoCb_cbs` and
-- `uoCb_cbs_enable` are one list of slots. A bit field is a number whose lowest bit is the first
-- flag. Publishing yields the list of the calls made; a callback that changes the subscriptions
-- while it runs, and a task that does so between filter and call, are not modelled.
pub mod Slots
pub mod Delivery
pub mod Quoting
mod Tests
use mathlib.Core.Option
use Prim.Native.Nat.{bit_and}
use components_mcu.Prelude.{
  ℕ, zero, suc, ◌+◌, ◌*◌, ◌%◌, Bool, true, false, not, ◌&&◌, ◌||◌, Option, none, some, List, [],
  ◌∷◌, ◌++◌, Bytes, codes, ltb, ◌==◌, if◌then◌else◌, get_or, length, replicate,
}

pub record Flags : Type 0 where
  pub evt_flags : ℕ
  pub fmt_flags : ℕ
  pub tgt_flags : ℕ

pub record Slot : Type 0 where
  pub cb : ℕ
  pub flags : Flags
  pub enabled : Bool

abbrev pub no_flags : Flags
no_flags = record { evt_flags = 0; fmt_flags = 0; tgt_flags = 0 }

abbrev pub empty_slot : Slot
empty_slot = record { cb = 0; flags = no_flags; enabled = false }

abbrev pub cbs_size : ℕ
cbs_size = 8

-- The arrays before the first call.
abbrev pub initial_slots : List Slot
initial_slots = replicate cbs_size empty_slot

-- The tests of the loop over the slots, in pass 0, 1 or 2.
abbrev skips : ℕ → ℕ → Slot → Bool
skips pass msg_cb s =
    ((pass == 0) && not (s.cb == msg_cb))
    || ((pass == 1) && not (s.cb == 0))
    || ((pass == 2) && s.enabled)

-- One pass: the first slot that is not skipped is taken.
take_slot : ℕ → ℕ → Flags → List Slot → Option (List Slot)
take_slot pass msg_cb f [] = none
take_slot pass msg_cb f (s ∷ ss) =
    let later = Option.map (◌∷◌ s) (take_slot pass msg_cb f ss) in
    if skips pass msg_cb s
    then later
    else some (record { cb = msg_cb; flags = f; enabled = true } ∷ ss)

or_else : Option (List Slot) → Option (List Slot) → Option (List Slot)
or_else none o = o
or_else (some ss) o = some ss

unfoldable pub subscribe : ℕ → Flags → List Slot → Bool × List Slot
unfolding or_else take_slot
subscribe msg_cb f ss =
    elim (or_else (take_slot 0 msg_cb f ss)
      (or_else (take_slot 1 msg_cb f ss) (take_slot 2 msg_cb f ss))) [
        | none ↦ (false, ss)
        | some taken ↦ (true, taken)
      ]

-- The first slot of the callback is disabled; it keeps the callback and its flags.
unfoldable pub unsubscribe : ℕ → List Slot → Bool × List Slot
unsubscribe msg_cb [] = (false, [])
unsubscribe msg_cb (s ∷ ss) =
    let rest = unsubscribe msg_cb ss in
    if s.cb == msg_cb then (true, record s { enabled = false } ∷ ss) else (rest.0, s ∷ rest.1)

-- `get_all_callbacks`, from index `i` on.
all_from : ℕ → List Slot → List ℕ
all_from i [] = []
all_from i (s ∷ ss) = if not s.enabled then all_from (i + 1) ss else i ∷ all_from (i + 1) ss

abbrev pub matches : Flags → Flags → Bool
matches asked f =
    not ((bit_and f.evt_flags asked.evt_flags == 0) && (bit_and f.tgt_flags asked.tgt_flags == 0))
    && not (bit_and f.fmt_flags asked.fmt_flags == 0)

slot_at : List Slot → ℕ → Slot
slot_at ss i = get_or ss i empty_slot

-- `uoCb_filter` with a set of indices.
filter_idxs : List Slot → Flags → List ℕ → List ℕ
filter_idxs ss asked [] = []
filter_idxs ss asked (i ∷ is) =
    let rest = filter_idxs ss asked is in
    if matches asked (slot_at ss i).flags then i ∷ rest else rest

unfoldable pub filter : Flags → List Slot → List ℕ
unfolding all_from slot_at filter_idxs
filter asked ss = filter_idxs ss asked (all_from 0 ss)

-- A message: a C object, or the text of a null-terminated string.
pub data Payload : Type 0 where
  pin_change : ℕ → ℕ → Payload
  text : Bytes → Payload

pub record Call : Type 0 where
  pub target : ℕ
  pub payload : Payload
  pub flags : Flags

-- `uoCb_publish`: it ends at the first null pointer.
unfoldable pub publish : List Slot → List ℕ → Payload → Flags → List Call
unfolding slot_at
publish ss [] p f = []
publish ss (i ∷ is) p f =
    let cb = (slot_at ss i).cb in
    let rest = publish ss is p f in
    if cb == 0 then [] else record { target = cb; payload = p; flags = f } ∷ rest

-- The bits of `fmt`.
abbrev pub json_bit : ℕ
json_bit = 1

abbrev pub raw_bit : ℕ
raw_bit = 2

abbrev pub txt_bit : ℕ
txt_bit = 4

-- The bits of `evt` that this file sets.
abbrev pub pin_change_bit : ℕ
pin_change_bit = 1

abbrev pub ip_address_bit : ℕ
ip_address_bit = 2

abbrev pub error_message_bit : ℕ
error_message_bit = 16

abbrev pub log_message_bit : ℕ
log_message_bit = 32

-- `uoCb_publish_wsJson`.
unfoldable pub publish_ws_json : Bytes → List Slot → List Call
publish_ws_json json [] = []
publish_ws_json json (s ∷ ss) =
    let rest = publish_ws_json json ss in
    if s.cb == 0
    then rest
    else if s.flags.tgt_flags % 2 == 0
    then rest
    else record {
      target = s.cb;
      payload = text json;
      flags = record { evt_flags = 0; fmt_flags = json_bit; tgt_flags = 1 };
    }
      ∷ rest

-- Nothing is built or sent where no callback matches.
offer : Flags → Payload → List Slot → List Call
offer f p ss = let is = filter f ss in if length is == 0 then [] else publish ss is p f

-- A text that `snprintf` did not have to cut is published.
offer_text : ℕ → Flags → Bytes → List Slot → List Call
unfolding offer
offer_text size f t ss = if ltb (length t) size then offer f (text t) ss else []

-- `quote_string`.
unfoldable pub quote_string : Bytes → Bytes
quote_string [] = []
quote_string (c ∷ cs) =
    let rest = quote_string cs in if c == b'"' then b'\\' ∷ b'"' ∷ rest else c ∷ rest

pub record LogMessage : Type 0 where
  pub tag : Bytes
  pub txt : Bytes
  pub warn_level : ℕ

-- `print_d` is the conversion of `%d` in `snprintf`.
module _ (print_d : ℕ → Bytes) where
  pin_json : ℕ → ℕ → Bytes
  pin_json gpio_num level =
      codes "{\"mcu\":{\"gpio"
      ++ (print_d gpio_num ++ (codes "\":" ++ (print_d level ++ codes "}}")))

  unfoldable pub publish_pin_change : ℕ → ℕ → List Slot → List Call
  unfolding pin_json offer offer_text
  publish_pin_change gpio_num level ss =
      let asked = λ (fmt : ℕ).
        let f : Flags = record { evt_flags = pin_change_bit; fmt_flags = fmt; tgt_flags = 0 } in
        f in
      offer (asked raw_bit) (pin_change gpio_num level) ss
      ++ offer_text 64 (asked json_bit) (pin_json gpio_num level) ss

  log_json : LogMessage → Bytes
  unfolding quote_string
  log_json m =
      codes "{\"log\":{\"wl\":"
      ++ (print_d m.warn_level
          ++ (codes ", \"tag\":\""
              ++ (m.tag ++ (codes "\", \"txt\":\"" ++ (quote_string m.txt ++ codes "\"}}")))))

  log_txt : LogMessage → Bytes
  log_txt m =
      codes "tf: log:"
      ++ (print_d m.warn_level ++ (codes ":  " ++ (m.tag ++ (codes ": " ++ m.txt))))

  -- `as_txt` is CONFIG_UOUT_PUBLISH_LOG_AS_TXT.
  unfoldable pub publish_log_message : Bool → LogMessage → List Slot → List Call
  unfolding log_json log_txt offer offer_text
  publish_log_message as_txt m ss =
      let severe = if ltb 0 m.warn_level then error_message_bit else 0 in
      let asked = λ (fmt : ℕ).
        let f : Flags = record {
          evt_flags = log_message_bit + severe;
          fmt_flags = fmt;
          tgt_flags = 0;
        } in
        f in
      offer_text 256 (asked json_bit) (log_json m) ss
      ++ (if as_txt then offer_text 128 (asked txt_bit) (log_txt m) ss else [])

-- `as_txt` is CONFIG_UOUT_PUBLISH_IP_ADDR_AS_TXT.
unfoldable pub publish_ip_address : Bool → Bytes → List Slot → List Call
unfolding offer offer_text
publish_ip_address as_txt ip_addr ss =
    let asked = λ (fmt : ℕ).
      let f : Flags = record { evt_flags = ip_address_bit; fmt_flags = fmt; tgt_flags = 0 } in f in
    offer_text 64 (asked json_bit) (codes "{\"mcu\":{\"ipaddr\":\"" ++ (ip_addr ++ codes "\"}}")) ss
    ++ (if as_txt
        then offer_text 64 (asked txt_bit) (codes "tf: ipaddr: " ++ (ip_addr ++ codes ";")) ss
        else [])
