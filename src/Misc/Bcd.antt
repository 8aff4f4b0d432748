-- ===== src/Misc/Bcd.antt =====
-- Packed decimal numbers in a byte: utils_misc/bcd.c. A shift by 4 is a product or a quotient by 16, and
-- a mask of a nibble is a remainder by 16.
use components_mcu.Prelude.{ℕ, ◌+◌, ◌*◌, ◌/◌, ◌%◌, ◌<◌, ◌==◌, if◌then◌else◌, ◌≡◌, arith}

unfoldable pub bcd2dec : ℕ → ℕ
bcd2dec bcd = ((bcd / 16) * 10 + (if bcd % 16 == 15 then 9 else bcd % 16)) % 256

unfoldable pub dec2bcd : ℕ → ℕ
dec2bcd dec = ((dec / 10) % 16) * 16 + (dec % 10) % 16

-- A 9 becomes 0xf.
abbrev nibble : ℕ → ℕ
nibble n = if n == 9 then 15 else n

unfoldable pub dec2bcd_special : ℕ → ℕ
dec2bcd_special dec = (nibble (dec / 10) % 16) * 16 + nibble (dec % 10) % 16

-- A number below 100 is read back from its packed form, and below 90 from the special form also;
-- from 90 on the special form is read as 60 more.
pub bcd2dec-dec2bcd :
    (n : ℕ)
    → n < 100
    → (bcd2dec (dec2bcd n) ≡ n)
      × (bcd2dec (dec2bcd_special n) ≡ (if n / 10 == 9 then n + 60 else n))
unfolding bcd2dec dec2bcd dec2bcd_special
bcd2dec-dec2bcd n h = (ground arith, ground arith)
