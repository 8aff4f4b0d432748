-- ===== src/Txtio/Tests.antt =====
-- Runs of txtio/inout.cc.
use components_mcu.Prelude.{
  ℕ, ◌+◌, ◌-◌, ◌/◌, ◌%◌, ◌^◌, ◌<◌, Bool, true, some, [], ◌∷◌, ◌++◌, Bytes, codes, length, take,
  drop, ltb, if◌then◌else◌, negsuc, inr, ◌≡◌, refl, arith,
}
use components_mcu.Txtio.Inout.{
  io_putc, io_puts, io_write, io_print_hex_8, io_print_hex_16, io_print_hex_32, io_getline,
  got_line, print_array_8,
}
use components_mcu.Txtio.Hex.{Digits, Fixed, io_print_hex-Fixed}
use components_mcu.Txtio.Writing.{io_getline_semicolon}

-- A console that takes all characters, and one that takes two.
abbrev takes_all : Bytes → ℕ → Bool
takes_all log c = true

abbrev takes_two : Bytes → ℕ → Bool
takes_two log c = ltb (length log) 2

abbrev lower_digit : ℕ → ℕ
lower_digit d = if ltb d 10 then b'0' + d else b'a' + (d - 10)

-- For numbers below 256.
abbrev two_digits : ℕ → Bytes
two_digits n =
    if ltb n 16 then lower_digit n ∷ [] else lower_digit (n / 16) ∷ lower_digit (n % 16) ∷ []

printed : io_print_hex_32 (some takes_all) two_digits two_digits 0x2f true [] ≡ codes "0x0000002f, "
unfolding io_print_hex_32 io_puts
printed = refl

listed :
    print_array_8 (some takes_all) two_digits two_digits (1 ∷ 255 ∷ []) [] ≡ codes "0x01, 0xff, \n"
unfolding print_array_8 io_print_hex_8 io_puts io_putc
listed = refl

stops : io_write (some takes_two) (codes "abcde") [] ≡ (negsuc 3, codes "ab")
unfolding io_write
stops = refl

two_digits-Digits : Digits 0x2f (two_digits 0x2f)
two_digits-Digits = record {
  hex = refl;
  value = refl;
  fits = omega arith;
  shortest = inr (omega arith);
}

io_print_hex-Fixed_example :
    (0x2f < 2 ^ 8
      → Fixed 2 0x2f true [] (io_print_hex_8 (some takes_all) two_digits two_digits 0x2f true []))
    × (0x2f < 2 ^ 16
        → Fixed 4 0x2f true []
            (io_print_hex_16 (some takes_all) two_digits two_digits 0x2f true []))
    × (0x2f < 2 ^ 32
        → Fixed 8 0x2f true []
            (io_print_hex_32 (some takes_all) two_digits two_digits 0x2f true []))
io_print_hex-Fixed_example =
    io_print_hex-Fixed takes_all two_digits two_digits 0x2f true [] (λ log c. refl)
      two_digits-Digits

io_getline_semicolon_example : io_getline 4 (some (codes "help" ++ b';' ∷ codes "x")) ≡ (
    if ltb (4 + 1) 4
    then got_line (codes "help") (codes "x")
    else got_line (take 3 (codes "help")) (drop 3 (codes "help") ++ b';' ∷ codes "x"))
io_getline_semicolon_example = io_getline_semicolon 4 (codes "help") (codes "x") (omega arith) refl
