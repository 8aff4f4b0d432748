-- ===== src/Uout/Plain/Tests.antt =====
-- Replies of uout/cli_out.cc.
use components_mcu.Prelude.{ℕ, true, [], ◌∷◌, Bytes, codes, ◌≡◌, refl}
use components_mcu.Uout.Plain.{
  reply_head, reply_entries, cli_out_x_reply_entry, cli_out_close, cli_reply_result, msg_print,
  cli_reply_print, reply_message,
}
use components_mcu.Uout.Plain.Lines.{Reply, reply_entries-Reply}

abbrev some_reply : Bytes
some_reply = codes "tf: cli_reply=7: config:"

two_entries :
    (reply_entries true some_reply
      ((codes "a", codes "1") ∷ (codes "b", codes "22") ∷ [])
      (record { my_length = 0; out = [] })).out
    ≡ codes "tf: cli_reply=7: config: a=1 b=22;\n"
unfolding reply_entries cli_out_x_reply_entry cli_out_close
two_entries = refl

abbrev no_id : ℕ → Bytes
no_id n = []

replied : cli_reply_result true no_id 0 true [] ≡ (true, codes "cli_reply: ok\n")
unfolding reply_message cli_reply_print msg_print
replied = refl

reply_entries-Reply_example :
    Reply
      (reply_head some_reply)
      ((codes "a", codes "1") ∷ (codes "b", codes "22") ∷ [])
      []
      (reply_entries true some_reply
        ((codes "a", codes "1") ∷ (codes "b", codes "22") ∷ [])
        (record { my_length = 0; out = [] })).out
reply_entries-Reply_example =
    reply_entries-Reply some_reply ((codes "a", codes "1") ∷ (codes "b", codes "22") ∷ []) []
