-- ===== src/Uout/Plain.antt =====
-- Replies as text: class `UoutBuilderPlaintext` of uout/cli_out.cc. What the writer got is the state
-- `out`. `interactive` is what `cli_isInteractive` returns, and `reply` what `snprintf` makes of the
-- number of the message and of the tag.
pub mod Lines
mod Tests
use components_mcu.Prelude.{
  ℕ, ◌+◌, Bool, true, false, not, ◌&&◌, Option, none, some, List, [], ◌∷◌, ◌++◌, Bytes, codes,
  length, ltb, ◌==◌, if◌then◌else◌,
}

pub record Plain : Type 0 where
  pub my_length : ℕ
  pub out : Bytes

abbrev pub out_max_len : ℕ
out_max_len = 80

-- What `cli_out_start_reply` writes.
abbrev pub reply_head : Bytes → Bytes
reply_head reply = if ltb 0 (length reply) && ltb (length reply) 64 then reply else []

abbrev pub or_quotes : Option Bytes → Bytes
or_quotes none = codes "\"\""
or_quotes (some val) = val

abbrev pub val_length : Option Bytes → ℕ
val_length none = 0
val_length (some val) = length val

-- ' ', the key, '=' and the value.
abbrev pub entry_text : Bytes → Option Bytes → Bytes
entry_text key val = b' ' ∷ (key ++ b'=' ∷ or_quotes val)

abbrev pub end_reply : Plain → Plain
end_reply s = record { my_length = 0; out = s.out ++ codes ";\n" }

abbrev pub with_head : Bytes → Plain → Plain
with_head reply s = if s.my_length == 0 then record s { out = s.out ++ reply_head reply } else s

module _ (interactive : Bool) (reply : Bytes) where
  -- A length is `none` where it is -1.
  unfoldable pub cli_out_entry : Option Bytes → Option Bytes → Option ℕ → Plain → Plain
  cli_out_entry none val len s = if ltb 0 s.my_length then end_reply s else s
  cli_out_entry (some key) val none s = if ltb 0 s.my_length then end_reply s else s
  cli_out_entry (some key) val (some extra) s =
      let len = extra + (length key + 1) + val_length val in
      let s1 =
        if ltb out_max_len (s.my_length + len) && ltb 0 s.my_length then end_reply s else s in
      let s2 = with_head reply s1 in
      record { my_length = s2.my_length + len; out = s2.out ++ entry_text key val }

  unfoldable pub cli_out_x_reply_entry : Option Bytes → Option Bytes → Option ℕ → Plain → Plain
  unfolding cli_out_entry
  cli_out_x_reply_entry key val len s = if not interactive then s else cli_out_entry key val len s

  unfoldable pub cli_out_close : Plain → Plain
  unfolding cli_out_x_reply_entry
  cli_out_close s = cli_out_x_reply_entry none none (some 0) s

  -- A reply of entries, and its end.
  pub reply_entries : List (Bytes × Bytes) → Plain → Plain
  unfolding cli_out_x_reply_entry cli_out_close
  reply_entries [] s = cli_out_close s
  reply_entries (e ∷ es) s =
      reply_entries es (cli_out_x_reply_entry (some e.0) (some e.1) (some 0) s)

abbrev pub or_nothing : Option Bytes → Bytes
or_nothing none = []
or_nothing (some text) = text

-- The messages of uout/cli_out.cc; `at_id` is what `snprintf` makes of `cli_msgid` with "@%d\n".
module _ (interactive : Bool) (at_id : ℕ → Bytes) where
  unfoldable pub msg_print : ℕ → Option Bytes → Option Bytes → Bytes → Bytes
  msg_print cli_msgid msg tag out =
      let buf = at_id cli_msgid in
      let id =
        if not (cli_msgid == 0) && ltb 0 (length buf) && ltb (length buf) 64 then buf else [] in
      let tag_text : Bytes = elim tag [ none ↦ [] | some t ↦ b':' ∷ t ] in
      if not interactive then out else out ++ (or_nothing msg ++ (id ++ (tag_text ++ codes ": ")))

  unfoldable pub cli_reply_print : ℕ → Option Bytes → Bytes → Bytes
  unfolding msg_print
  cli_reply_print cli_msgid tag out =
      if not interactive then out else msg_print cli_msgid (some (codes "cli_reply")) tag out

  unfoldable pub reply_message : ℕ → Option Bytes → Option Bytes → Bytes → Bytes
  unfolding cli_reply_print
  reply_message cli_msgid tag msg out =
      if not interactive
      then out
      else cli_reply_print cli_msgid tag out ++ (or_nothing msg ++ codes "\n")

  unfoldable pub cli_warning_option_unknown : ℕ → Bytes → Bytes → Bytes
  unfolding msg_print
  cli_warning_option_unknown cli_msgid key out =
      if not interactive
      then out
      else msg_print cli_msgid (some (codes "warning")) (some (codes "unknown-option")) out
        ++ (key ++ codes "\n")

  unfoldable pub cli_msg_ready : Bytes → Bytes
  cli_msg_ready out = if not interactive then out else out ++ codes "\nready:\n"

  -- `cli_msgid` behind it, and the output.
  unfoldable pub reply_id_message : ℕ → ℕ → Option Bytes → Option Bytes → Bytes → ℕ × Bytes
  unfolding cli_reply_print
  reply_id_message cli_msgid id tag msg out =
      if not interactive
      then (cli_msgid, out)
      else (cli_msgid, cli_reply_print id tag out ++ (or_nothing msg ++ codes "\n"))

  abbrev pub cli_reply_success : ℕ → Bytes → Bytes
  cli_reply_success cli_msgid out = reply_message cli_msgid none (some (codes "ok")) out

  -- Without its result -1.
  abbrev pub cli_reply_failure : ℕ → Bytes → Bytes
  cli_reply_failure cli_msgid out = reply_message cli_msgid none (some (codes "error")) out

  abbrev pub cli_reply_result : ℕ → Bool → Bytes → Bool × Bytes
  cli_reply_result cli_msgid success out = (
    success,
    if success then cli_reply_success cli_msgid out else cli_reply_failure cli_msgid out,
  )
