-- ===== src/Txtio/Inout.antt =====
-- txtio/inout.cc. `io_putc_fun` is `none` where the pointer is null; it is asked with the characters
-- that went out before, and says whether it takes one more, false for -1. What came out is the state.
-- What sprintf makes of a number, in base 10 and 16, are the parameters `dec` and `hex`, for itoa and ltoa of
-- utils_misc/esp32/itoa.c. The locks are left out.
use components_mcu.Prelude.{
  ℕ, zero, suc, ◌+◌, ◌/◌, ◌%◌, ◌-◌, Bool, true, false, Option, none, some, List, [], ◌∷◌, ◌++◌,
  Bytes, codes, length, ◌==◌, if◌then◌else◌, ℤ, pos, negsuc,
}

-- The loop over the text; false for the result -1, true for 0.
unfoldable pub put_text : (Bytes → ℕ → Bool) → Bytes → Bytes → Bool × Bytes
put_text put [] out = (true, out)
put_text put (c ∷ cs) out =
    let rest = put_text put cs (out ++ c ∷ []) in if put out c then rest else (false, out)

-- The loop of `io_write` and its return; `len` is the length that was given.
unfoldable pub write_from : (Bytes → ℕ → Bool) → ℕ → Bytes → Bytes → ℤ × Bytes
write_from put len [] out = (pos len, out)
write_from put len (c ∷ cs) out =
    let rest = write_from put len cs (out ++ c ∷ []) in
    if put out c then rest else (negsuc (length cs + 1), out)

module _ (io_putc_fun : Option (Bytes → ℕ → Bool)) where
  unfoldable pub io_putc : ℕ → Bytes → Bool × Bytes
  io_putc c out = elim io_putc_fun [
    | none ↦ (false, out)
    | some put ↦ if put out c then (true, out ++ c ∷ []) else (false, out)
  ]

  abbrev pub io_putlf : Bytes → Bool × Bytes
  io_putlf out = io_putc b'\n' out

  unfoldable pub io_puts : Bytes → Bytes → Bool × Bytes
  unfolding put_text
  io_puts s out = elim io_putc_fun [ none ↦ (false, out) | some put ↦ put_text put s out ]

  unfoldable pub io_write : Bytes → Bytes → ℤ × Bytes
  unfolding write_from
  io_write s out = elim io_putc_fun [
    | none ↦ (negsuc 0, out)
    | some put ↦ write_from put (length s) s out
  ]

  abbrev pub put_comma : Bool → Bytes → Bytes
  put_comma comma out = if comma then (io_puts (codes ", ") out).1 else out

  module _ (dec hex : ℕ → Bytes) where
    abbrev pub itoa : ℕ → ℕ → Bytes
    itoa n radix = if radix == 10 then dec n else hex n

    abbrev pub ltoa : ℕ → ℕ → Bytes
    ltoa n radix = if radix == 10 then dec n else hex n

    unfoldable pub io_putx8 : ℕ → Bytes → Bytes
    unfolding io_puts
    io_putx8 n out = (io_puts (if (n / 16) % 16 == 0 then b'0' ∷ itoa n 16 else itoa n 16) out).1

    -- `n & 0xF0` is not 0 just if `n / 16` is not, for a number of 8 bits, and so on.
    unfoldable pub io_print_hex_8 : ℕ → Bool → Bytes → Bytes
    unfolding io_puts
    io_print_hex_8 n comma out =
        let prefix = if n / 16 == 0 then codes "0x0" else codes "0x" in
        put_comma comma (io_puts (itoa n 16) (io_puts prefix out).1).1

    unfoldable pub io_print_hex_16 : ℕ → Bool → Bytes → Bytes
    unfolding io_puts
    io_print_hex_16 n comma out =
        let prefix =
          if n / 0x10 == 0
          then codes "0x000"
          else if n / 0x100 == 0
          then codes "0x00"
          else if n / 0x1000 == 0
          then codes "0x0"
          else codes "0x" in
        put_comma comma (io_puts (itoa n 16) (io_puts prefix out).1).1

    abbrev pub prefix_32 : ℕ → Bytes
    prefix_32 n =
        if n / 0x10 == 0
        then codes "0x0000000"
        else if n / 0x100 == 0
        then codes "0x000000"
        else if n / 0x1000 == 0
        then codes "0x00000"
        else if n / 0x10000 == 0
        then codes "0x0000"
        else if n / 0x100000 == 0
        then codes "0x000"
        else if n / 0x1000000 == 0
        then codes "0x00"
        else if n / 0x10000000 == 0
        then codes "0x0"
        else codes "0x"

    unfoldable pub io_print_hex_32 : ℕ → Bool → Bytes → Bytes
    unfolding io_puts
    io_print_hex_32 n comma out =
        put_comma comma (io_puts (ltoa n 16) (io_puts (prefix_32 n) out).1).1

    unfoldable pub io_print_hex : ℕ → Bool → Bytes → Bytes
    unfolding io_puts
    io_print_hex n prefix out =
        (io_puts (ltoa n 16) (if prefix then (io_puts (codes "0x") out).1 else out)).1

    -- The digits in base 16 of the high and of the low half.
    unfoldable pub print_bcd : ℕ → Bytes → Bytes
    unfolding io_puts
    print_bcd bcd out = (io_puts (itoa (bcd % 16) 16) (io_puts (itoa ((bcd / 16) % 16) 16) out).1).1

    abbrev pub print_each : (ℕ → ℕ) → Bytes → Bytes → Bytes
    print_each f [] out = out
    print_each f (n ∷ ns) out = print_each f ns (io_print_hex_8 (f n) true out)

    unfoldable pub print_array_8 : Bytes → Bytes → Bytes
    unfolding io_print_hex_8
    print_array_8 src out = (io_putlf (print_each (λ n. n) src out)).1

-- What `io_getline` made of the characters, which end where `io_getc_fun` returns -1: the text before
-- the NUL in the buffer and its length, or the result -1; with what was not read.
pub data GotLine : Type 0 where
  no_line : List ℕ → GotLine
  got_line : Bytes → List ℕ → GotLine

abbrev pub put_front : ℕ → GotLine → GotLine
put_front c (no_line rest) = no_line rest
put_front c (got_line text rest) = got_line (c ∷ text) rest

-- The loop for at most so many characters.
unfoldable pub getline_from : ℕ → List ℕ → GotLine
getline_from zero cs = got_line [] cs
getline_from (suc room) [] = no_line []
getline_from (suc room) (c ∷ cs) =
    let rest = put_front c (getline_from room cs) in if c == b';' then got_line [] cs else rest

-- For a buffer of one byte at least.
unfoldable pub io_getline : ℕ → Option (List ℕ) → GotLine
unfolding getline_from
io_getline buf_size none = no_line []
io_getline buf_size (some cs) = getline_from (buf_size - 1) cs
