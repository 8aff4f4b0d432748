-- ===== src/Stm32/Frames.antt =====
-- What a receiver that checks the checksums makes of the messages of stm32/stm32_bootloader.cc.
use native.Mathlib.Numerals.{unary_clauses}
use components_mcu.Prelude.{
  ℕ, zero, suc, ◌+◌, ◌*◌, ◌/◌, ◌%◌, ◌^◌, ◌≤◌, ◌<◌, true, ◌&&◌, Option, none, some, [], ◌∷◌, ◌++◌,
  Bytes, ◌==◌, ==_refl, if◌then◌else◌, init, init-concat, length, ◌≡◌, refl, sym, ap, ◌∙◌, arith,
}
use components_mcu.Stm32.Bootloader.{xor_bits, xor, xor_all, get_byte, address_bytes}

-- An address with its checksum.
abbrev pub receive_address : Bytes → Option ℕ
receive_address (b3 ∷ b2 ∷ b1 ∷ b0 ∷ c ∷ []) =
    if xor_all 0 (b3 ∷ b2 ∷ b1 ∷ b0 ∷ c ∷ []) == 0
    then some (((b3 * 256 + b2) * 256 + b1) * 256 + b0)
    else none
receive_address _ = none

-- A block that starts with one less than its length and ends with a checksum.
abbrev pub receive_block : Bytes → Option Bytes
receive_block [] = none
receive_block (n ∷ bs) =
    if (length (init bs) == n + 1) && (xor_all 0 (n ∷ bs) == 0) then some (init bs) else none

-- A block as it is sent, in three messages or more.
abbrev pub block : Bytes → Bytes
block data' = let n = (length data' + 255) % 256 in n ∷ (data' ++ xor_all n data' ∷ [])

xor_bits_self : (k a : ℕ) → xor_bits k a a ≡ 0
xor_bits_self zero a = refl
xor_bits_self (suc k) a = omega (arith, xor_bits_self k (a / 2))

xor_bits_zero : (k b : ℕ) → b < 2 ^ k → xor_bits k 0 b ≡ b
xor_bits_zero zero b h = omega (arith, h)
xor_bits_zero (suc k) b h =
    let power : 2 ^ suc k ≡ 2 * 2 ^ k = simp unary_clauses (omega arith) in
    let small : b / 2 < 2 ^ k = omega (arith, h, power) in
    let ih = xor_bits_zero k (b / 2) small in omega (arith, ih)

xor_self : (a : ℕ) → xor a a ≡ 0
unfolding xor
xor_self a = xor_bits_self 8 a

xor_zero : (b : ℕ) → b < 256 → xor 0 b ≡ b
unfolding xor
xor_zero b h = xor_bits_zero 8 b h

xor_all-append : (c : ℕ) (bs : Bytes) (d : ℕ) → xor_all c (bs ++ d ∷ []) ≡ xor (xor_all c bs) d
xor_all-append c [] d = refl
xor_all-append c (b ∷ bs) d = xor_all-append (xor c b) bs d

checksum : (n : ℕ) (bs : Bytes) → n < 256 → xor_all 0 (n ∷ (bs ++ xor_all n bs ∷ [])) ≡ 0
checksum n bs h =
    ap (λ c. xor_all c (bs ++ xor_all n bs ∷ [])) (xor_zero n h)
    ∙ (xor_all-append n bs (xor_all n bs) ∙ xor_self (xor_all n bs))

-- A receiver gets back the address that was sent, of 32 bits, and a block of 1 to 256 bytes: the data of a
-- write or the page numbers of an erasure.
pub receive_address-address_bytes :
    (addr : ℕ) (data' : Bytes)
    → addr < 4294967296
    → 0 < length data'
    → length data' ≤ 256
    → (receive_address (address_bytes addr) ≡ some addr)
      × (receive_block (block data') ≡ some data')
receive_address-address_bytes addr data' small some_bytes fits =
    let b3 = get_byte 3 addr in
    let first = xor_zero b3 (omega arith) in
    let sum = xor (xor (xor b3 (get_byte 2 addr)) (get_byte 1 addr)) (get_byte 0 addr) in
    let zero_sum : xor_all 0 (address_bytes addr) ≡ 0 =
      ap (λ c. xor (xor (xor (xor c (get_byte 2 addr)) (get_byte 1 addr)) (get_byte 0 addr)) sum)
        first
      ∙ xor_self sum in
    let value : ((b3 * 256 + get_byte 2 addr) * 256 + get_byte 1 addr) * 256 + get_byte 0 addr
        ≡ addr =
      omega (arith, small) in
    let n = (length data' + 255) % 256 in
    let body = init-concat data' (xor_all n data') in
    let size : length data' ≡ n + 1 = omega (arith, some_bytes, fits) in
    let sized : (length data' == n + 1) ≡ true =
      ap (λ m. length data' == m) (sym size) ∙ ==_refl (length data') in
    (rw zero_sum (ap some value), rw (body, sized, checksum n data' (omega arith)) refl)
