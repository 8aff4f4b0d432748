-- ===== src/Uout/Json/Reading.antt =====
-- Text that others put into the buffer of uout/status_json.cc: JSON from functions, and numbers from
-- `snprintf`. A function gets the free size and returns its result, which is not negative, with the
-- bytes that it wrote.
use components_mcu.Prelude.{
  ℕ, zero, suc, ◌+◌, ◌-◌, Bool, true, false, not, ◌&&◌, Option, none, some, [], ◌∷◌, ◌++◌, Bytes,
  codes, ltb, ◌==◌, if◌then◌else◌, take, length,
}
use components_mcu.Uout.Json.{
  Target, Builder, free_size, append, realloc_buffer, buffer_grow, not_enough_buffer, add_array,
  close_array,
}

abbrev pub ToJson : Type 0
ToJson = ℕ → ℕ × Bytes

-- The end of a pass of the loop: a return, the size for the next pass, or a failed assertion.
pub data Pass : Type 0 where
  finished : Bool → Builder → Pass
  next_pass : ℕ → Builder → Pass
  aborts : Pass

-- `none` stands for an index behind the buffer.
abbrev pub advanced : ℕ → Bytes → Builder → Option Builder
advanced n written b = if ltb n (free_size b) then some (append (take n written) b) else none

module _ (realloc : ℕ → Bool) (target : Target) where
  -- `free_buffer`, on a buffer that is not null.
  unfoldable pub free_buffer : Builder → Builder
  free_buffer b = if not b.is_mine then b else record b { size = 0 }

  unfoldable pub alloc_bigger_buffer : ℕ → Builder → Bool × Builder
  unfolding realloc_buffer
  alloc_bigger_buffer total_size b =
      if not (ltb b.size total_size) then (true, b) else realloc_buffer realloc target total_size b

  -- False for a null pointer.
  unfoldable pub get_a_buffer : ℕ → Builder → Bool × Builder
  unfolding buffer_grow
  get_a_buffer required b =
      if ltb (free_size b) (required + 1) then buffer_grow realloc target required b else (true, b)

  -- After the caller wrote `written` behind the text; `precond` bounds `n` by the length of the text.
  unfoldable pub advance_position : ℕ → Bytes → Builder → Bool × Builder
  unfolding buffer_grow
  advance_position n written b =
      let moved = append (take n written) b in
      let grown = buffer_grow realloc target 1 moved in
      if ltb b.size (length b.text + n)
      then (false, b)
      else if b.size == length b.text + n
      then (if grown.0 then (true, grown.1) else (false, record grown.1 { text = [] }))
      else (true, moved)

  unfoldable pub copy_to_buf : Bytes → Builder → Bool × Builder
  unfolding not_enough_buffer
  copy_to_buf s b =
      let room = not_enough_buffer realloc target s none b in
      if room.0 then (false, room.1) else (true, record room.1 { text = s })

  -- From the call of the function on, with the assertion of `postcond`.
  unfoldable pub fill : ToJson → Builder → Pass
  fill f b =
      let n = (f (free_size b)).0 in
      let b' = append (take n (f (free_size b)).1 ++ codes ",") b in
      if ltb 0 n && ltb n (free_size b)
      then (if ltb (length b'.text) b'.size then finished true b' else aborts)
      else if n == 0
      then finished false b
      else next_pass (n + 1 - free_size b) b

  -- One pass of the loop.
  unfoldable pub read_pass : ToJson → ℕ → Builder → Pass
  unfolding buffer_grow fill
  read_pass f required b =
      let grown = buffer_grow realloc target required b in
      if ltb (free_size b) required
      then (if grown.0 then fill f grown.1 else finished false grown.1)
      else fill f b

  abbrev pub last_pass : Pass → Option (Bool × Builder)
  last_pass (finished ok b) = some (ok, b)
  last_pass (next_pass required b) = some (false, b)
  last_pass aborts = none

  abbrev pub pass_again : ToJson → Pass → Option (Bool × Builder)
  pass_again f (finished ok b) = some (ok, b)
  pass_again f (next_pass required b) = last_pass (read_pass f required b)
  pass_again f aborts = none

  -- `none` is `abort`, here and below.
  unfoldable pub read_json_from_function : ToJson → ℕ → Builder → Option (Bool × Builder)
  unfolding read_pass
  read_json_from_function f required b = pass_again f (read_pass f required b)

  -- What follows a call in a loop, whose result false is returned.
  abbrev pub after_call :
      (Builder → Option (Bool × Builder)) → Option (Bool × Builder) → Option (Bool × Builder)
  after_call go none = none
  after_call go (some r) = elim r.0 [ true ↦ go r.1 | false ↦ some (false, r.1) ]

  -- The loop over the elements from index `i` on; false for the return from inside of it.
  unfoldable pub read_elements : (ℕ → ToJson) → ℕ → ℕ → ℕ → Builder → Option (Bool × Builder)
  unfolding read_json_from_function
  read_elements f zero i required b = some (true, b)
  read_elements f (suc left) i required b =
      after_call (λ c. read_elements f left (i + 1) required c)
        (read_json_from_function (f i) required b)

  abbrev pub close_of : Builder → Option (Bool × Builder)
  close_of b = elim (close_array realloc target b) [ none ↦ none | some c ↦ some (true, c) ]

  unfoldable pub read_json_arr_from_function :
      (ℕ → ToJson) → ℕ → ℕ → Builder → Option (Bool × Builder)
  unfolding read_elements
  read_json_arr_from_function f arr_len required b =
      let opened = add_array realloc target none b in
      elim opened.0 [
        | false ↦ some (false, opened.1)
        | true ↦ after_call close_of (read_elements f arr_len 0 required opened.1)
      ]

  -- The loop over the rows from index `li` on; a row whose array cannot be opened is left out.
  unfoldable pub read_rows : (ℕ → ℕ → ToJson) → ℕ → ℕ → ℕ → ℕ → Builder → Option (Bool × Builder)
  unfolding read_elements
  read_rows f zero arr_rlen li required b = some (true, b)
  read_rows f (suc left) arr_rlen li required b =
      let opened = add_array realloc target none b in
      let go = λ (c : Builder). read_rows f left arr_rlen (li + 1) required c in
      elim opened.0 [
        | false ↦ go opened.1
        | true ↦
            after_call go (after_call close_of (read_elements (f li) arr_rlen 0 required opened.1))
      ]

  unfoldable pub read_json_arr2_from_function :
      (ℕ → ℕ → ToJson) → ℕ → ℕ → ℕ → Builder → Option (Bool × Builder)
  unfolding read_rows
  read_json_arr2_from_function f arr_llen arr_rlen required b =
      let opened = add_array realloc target none b in
      elim opened.0 [
        | false ↦ some (false, opened.1)
        | true ↦ after_call close_of (read_rows f arr_llen arr_rlen 0 required opened.1)
      ]

  -- `put_kv` of a number whose digits `snprintf` prints: its result counts what did not fit, too.
  unfoldable pub put_kv_printed : Bytes → Bytes → Builder → Bool × Option Builder
  unfolding not_enough_buffer
  put_kv_printed key digits b =
      let room = not_enough_buffer realloc target key none b in
      let piece = b'"' ∷ (key ++ (codes "\":" ++ (digits ++ codes ","))) in
      if room.0 then (false, some room.1) else (true, advanced (length piece) piece room.1)
