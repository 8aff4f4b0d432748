-- ===== src/Uout/Json/Writing.antt =====
-- Sending what was built: `write_json` and `writeln_json` of uout/status_json.cc. The result -1 is
-- `none`, and a writer that fails takes 0 bytes.
use components_mcu.Prelude.{
  ℕ, ◌+◌, Bool, false, not, Option, none, some, [], ◌∷◌, ◌++◌, Bytes, codes, ltb, ◌==◌,
  if◌then◌else◌, take, length,
}
use components_mcu.Uout.Json.{Target, Builder, free_size}

module _ (target : Target) where
  -- The text is sent and forgotten, what the writer did not take included.
  abbrev pub send_text : Bool → Bytes → Builder → Option ℕ × Builder
  send_text final s b = (
    some (target.write s),
    record b { text = []; eof = final; sent = b.sent ++ take (target.write s) s },
  )

  unfoldable pub write_json : Bool → Builder → Option ℕ × Builder
  write_json final b =
      if b.eof
      then (none, b)
      else if not b.has_target
      then (none, b)
      else if length b.text == 0
      then send_text final (codes "{}") b
      else send_text final b.text b

  -- Of an empty text also the NUL is sent, which `sizeof json` counts. Where the buffer is full, the
  -- newline is sent by a call of its own.
  unfoldable pub writeln_json : Bool → Builder → Option ℕ × Builder
  writeln_json final b =
      let rest = send_text false b.text b in
      let newline = send_text final (codes "\n") rest.1 in
      if b.eof
      then (none, b)
      else if not b.has_target
      then (none, b)
      else if length b.text == 0
      then send_text final (codes "{}\n" ++ 0 ∷ []) b
      else if ltb 0 (free_size b)
      then send_text final (b.text ++ codes "\n") b
      else (some (target.write b.text + target.write (codes "\n")), newline.1)
