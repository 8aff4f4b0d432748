-- ===== src/Uout/Writer.antt =====
-- Writing text to a console or a file: uout/so_target_desc.cc. The two `priv_write` functions
-- differ in the bound of their `assert` only, which is `limit`: 4096 for the console and 2046 for
-- files. `os_write` is write(2): how many bytes of the chunk the n-th call takes, 0 for an error. -1
-- as a result is `none`.
pub mod Lines
pub mod Sending
mod Tests
use components_mcu.Prelude.{
  ℕ, suc, ◌+◌, ◌-◌, Bool, true, false, ◌&&◌, ◌||◌, not, Option, none, some, List, [], ◌∷◌, ◌++◌,
  Bytes, Aborts, aborted, returns, ◌>>=◌, ltb, ◌==◌, if◌then◌else◌, take, drop, length,
}

-- The bytes that reached the file descriptor, and the number of calls of write(2).
pub record Fd : Type 0 where
  pub sent : Bytes
  pub calls : ℕ

abbrev pub crlf : Bytes
crlf = b'\r' ∷ b'\n' ∷ []

-- The variables of the loop: `i`, `prev_c` and `last_chunk`.
pub record Scan : Type 0 where
  pub i : ℕ
  pub prev_c : ℕ
  pub last_chunk : ℕ

pub record Written : Type 0 where
  pub result : Option ℕ
  pub fd : Fd

-- The tests `== len` and `== 1` of `writeln`.
abbrev pub is_returned : Option ℕ → ℕ → Bool
is_returned none len = false
is_returned (some n) len = n == len

module _ (os_write : ℕ → Bytes → ℕ) where
  -- One call of write(2); the flag says that it failed.
  pub put : Bytes → Fd → Bool × Fd
  put chunk fd =
      let n = os_write fd.calls chunk in
      (ltb n 1, record { sent = fd.sent ++ take n chunk; calls = fd.calls + 1 })

  -- `chunk_len > 0 && ::write(myFd, s + last_chunk, chunk_len) < 1`.
  pub put_chunk : Bytes → ℕ → ℕ → Fd → Bool × Fd
  put_chunk s last_chunk chunk_len fd =
      if ltb 0 chunk_len then put (take chunk_len (drop last_chunk s)) fd else (false, fd)

  -- The loop over the bytes of `s`; the list is what is left from index `i` on.
  pub scan : Bytes → Bytes → Scan → Fd → Written
  scan s [] v fd = record { result = some (length s); fd = fd }
  scan s (c ∷ cs) v fd =
      let skipped = scan s cs (record v { i = v.i + 1 }) fd in
      let line = put_chunk s v.last_chunk (v.i - v.last_chunk) fd in
      let ended = put crlf line.1 in
      let next_line =
        scan s cs (record { i = v.i + 1; prev_c = c; last_chunk = v.i + 1 }) ended.1 in
      let last = put_chunk s v.last_chunk (v.i - v.last_chunk + 1) fd in
      let next = scan s cs (record v { i = v.i + 1; prev_c = c }) fd in
      if (c == b'\r') || ((c == b'\n') && (v.prev_c == b'\r'))
      then skipped
      else if c == b'\n'
      then (if line.0
          then record { result = none; fd = line.1 }
          else if ended.0
          then record { result = none; fd = ended.1 }
          else next_line)
      else if v.i + 1 == length s
      then record { result = if last.0 then none else some (length s); fd = last.1 }
      else next

  -- With the assertion `size < limit`.
  unfoldable pub priv_write : ℕ → Bytes → Fd → Aborts Written
  unfolding put put_chunk scan
  priv_write limit s fd =
      if ltb (length s) limit
      then returns (scan s s (record { i = 0; prev_c = 0; last_chunk = 0 }) fd)
      else aborted

  -- What `writeln` does after its text, and after its newline.
  abbrev pub newline_done : ℕ → Written → Aborts Written
  newline_done len second =
      if is_returned second.result 1
      then returns (record { result = some (len + 1); fd = second.fd })
      else returns (record { result = none; fd = second.fd })

  abbrev pub text_done : ℕ → ℕ → Written → Aborts Written
  text_done limit len first =
      let ended = priv_write limit (b'\n' ∷ []) first.fd >>= newline_done len in
      if is_returned first.result len
      then ended
      else returns (record { result = none; fd = first.fd })

  -- `writeln`, with the length given.
  unfoldable pub writeln : ℕ → Bytes → Fd → Aborts Written
  writeln limit s fd = priv_write limit s fd >>= text_done limit (length s)
