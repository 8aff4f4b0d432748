-- ===== src/Uout/Json.antt =====
-- Building JSON text in a buffer: uout/status_json.cc with the class of
-- uout/include/uout/uout_builder_json.hh. The conditions of `precond` are hypotheses where a theorem
-- needs them, and `abort` is `none`. A number that is added is given as its digits, which `ltoa`
-- makes of it. `realloc` says whether an allocation succeeds.
pub mod Buffer
pub mod Steps
pub mod Output
pub mod Success
pub mod Trees
pub mod Texts
pub mod Nesting
pub mod Documents
pub mod Reading
pub mod Elements
pub mod Writing
pub mod Streaming
mod Tests
use components_mcu.Prelude.{
  ℕ, ◌+◌, ◌-◌, ◌*◌, Bool, true, false, not, ◌&&◌, ◌||◌, Option, none, some, List, [], ◌∷◌, ◌++◌,
  Bytes, codes, ltb, leb, ◌==◌, if◌then◌else◌, take, drop, length,
}

-- `text` is what lies before `myBuf_idx`, `size` is 0 for the null pointer, `has_target` says that there
-- is a writer that takes JSON, and `sent` is what it got.
pub record Builder : Type 0 where
  pub text : Bytes
  pub size : ℕ
  pub is_mine : Bool
  pub obj_ct : ℕ
  pub eof : Bool
  pub has_target : Bool
  pub sent : Bytes

abbrev pub buf_max_size : ℕ
buf_max_size = 2048

abbrev pub free_size : Builder → ℕ
free_size b = b.size - length b.text

-- A trailing comma is removed.
abbrev pub strip_comma : Bytes → Bytes
strip_comma [] = []
strip_comma (c ∷ []) = if c == b',' then [] else c ∷ []
strip_comma (c ∷ d ∷ cs) = c ∷ strip_comma (d ∷ cs)

abbrev pub required_size : Bytes → Option Bytes → ℕ
required_size key none = length key + 10 + 10
required_size key (some val) = length key + length val + 10

abbrev pub append : Bytes → Builder → Builder
append s b = record b { text = b.text ++ s }

-- How many bytes of a chunk the writer takes, 0 for an error; and what `memcpy` leaves where the
-- bytes behind the first `n` overlap the place they are moved to, of which C says nothing.
pub record Target : Type 0 where
  pub write : Bytes → ℕ
  pub overlapping : ℕ → Bytes → Bytes

-- `memcpy(myBuf, myBuf + n, myBuf_idx - n)`.
abbrev pub moved : Target → ℕ → Bytes → Bytes
moved target n s =
    if leb (length s) (n + n) then drop n s else take (length s - n) (target.overlapping n s)

module _ (realloc : ℕ → Bool) (target : Target) where
  pub realloc_buffer : ℕ → Builder → Bool × Builder
  realloc_buffer buf_size b =
      if ltb buf_max_size buf_size
      then (false, b)
      else if realloc buf_size
      then (true, record b { size = buf_size })
      else (false, b)

  -- The last character stays in the buffer.
  pub write_some_json : Builder → Builder
  write_some_json b =
      let n = target.write (take (length b.text - 1) b.text) in
      if b.eof || not b.has_target
      then b
      else if ltb (length b.text) 2
      then b
      else if n == 0
      then b
      else record b { text = moved target n b.text; sent = b.sent ++ take n b.text }

  -- The part of `buffer_grow` that allocates.
  pub enlarge_buffer : ℕ → Builder → Bool × Builder
  unfolding realloc_buffer
  enlarge_buffer required b =
      if not b.is_mine
      then (false, b)
      else realloc_buffer
          (if ltb 0 required
            then required + length b.text
            else if b.size == 0
            then 128
            else b.size * 2)
          b

  pub buffer_grow : ℕ → Builder → Bool × Builder
  unfolding write_some_json enlarge_buffer
  buffer_grow required b =
      let b' = write_some_json b in
      if ltb 0 b.size && ltb 0 (length b.text)
      then (if ltb (required + 20) (free_size b') then (true, b') else enlarge_buffer required b')
      else enlarge_buffer required b

  pub not_enough_buffer : Bytes → Option Bytes → Builder → Bool × Builder
  unfolding buffer_grow
  not_enough_buffer key val b =
      let required = required_size key val in
      let grown = buffer_grow required b in
      if ltb (free_size b) required then (not grown.0, grown.1) else (false, b)

  -- The common form of the functions that add text: false where the buffer is not enough.
  pub add : Bytes → Option Bytes → Bytes → ℕ → Builder → Bool × Builder
  unfolding not_enough_buffer
  add key val piece obj_ct b =
      let room = not_enough_buffer key val b in
      if room.0 then (false, room.1) else (true, record (append piece room.1) { obj_ct = obj_ct })

  -- The common form of the functions that close an object or an array. They are for a positive
  -- `m_obj_ct`, as `precond` asserts.
  pub close : Bytes → Builder → Option Builder
  unfolding not_enough_buffer
  close piece b =
      let room = not_enough_buffer [] none b in
      let b' = room.1 in
      if room.0
      then none
      else some (record b' { text = strip_comma b'.text ++ piece; obj_ct = b'.obj_ct - 1 })

  unfoldable pub open_root_object : Option Bytes → Builder → Bool × Builder
  unfolding add
  open_root_object none b = add [] none (codes "{") 1 (record b { text = []; obj_ct = 0 })
  open_root_object (some id) b =
      add id none (codes "{\"from\":\"" ++ (id ++ codes "\",")) 1
        (record b { text = []; obj_ct = 0 })

  unfoldable pub add_object : Option Bytes → Builder → Bool × Builder
  unfolding add
  add_object none b = add [] none (codes "{") (b.obj_ct + 1) b
  add_object (some key) b = add key none (b'"' ∷ (key ++ codes "\":{")) (b.obj_ct + 1) b

  unfoldable pub add_array : Option Bytes → Builder → Bool × Builder
  unfolding add
  add_array none b = add [] none (codes "[") (b.obj_ct + 1) b
  add_array (some key) b = add key none (b'"' ∷ (key ++ codes "\":[")) (b.obj_ct + 1) b

  unfoldable pub close_object : Builder → Option Builder
  unfolding close
  close_object b = close (codes "},") b

  unfoldable pub close_array : Builder → Option Builder
  unfolding close
  close_array b = close (codes "],") b

  unfoldable pub close_root_object : Builder → Option Builder
  unfolding close
  close_root_object b = close (codes "}") b

  unfoldable pub add_key : Bytes → Builder → Bool × Builder
  unfolding add
  add_key key b = add key none (b'"' ∷ (key ++ codes "\":")) b.obj_ct b

  unfoldable pub add_value_s : Bytes → Builder → Bool × Builder
  unfolding add
  add_value_s val b = add (codes "---") (some val) (b'"' ∷ (val ++ codes "\",")) b.obj_ct b

  -- Also `add_value`: the digits only count for the room.
  unfoldable pub add_value_d : Bytes → Builder → Bool × Builder
  unfolding add
  add_value_d digits b = add [] (some digits) (codes ",") b.obj_ct b

  unfoldable pub add_key_value_pair_s : Bytes → Bytes → Builder → Bool × Builder
  unfolding add
  add_key_value_pair_s key val b =
      add key (some val) (b'"' ∷ (key ++ (codes "\":\"" ++ (val ++ codes "\",")))) b.obj_ct b

  unfoldable pub add_key_value_pair_d : Bytes → Bytes → Builder → Bool × Builder
  unfolding add
  add_key_value_pair_d key digits b =
      add key none (b'"' ∷ (key ++ (codes "\":" ++ (digits ++ codes ",")))) b.obj_ct b

  unfoldable pub put_kv_bool : Bytes → Bool → Builder → Bool × Builder
  unfolding add
  put_kv_bool key val b =
      add key none
        (b'"'
          ∷ (key ++ (codes "\":" ++ ((if val then codes "true" else codes "false") ++ codes ","))))
        b.obj_ct b
