-- ===== src/Txtio/Hex.antt =====
-- Hexadecimal numbers of txtio/inout.cc.
use components_mcu.Prelude.{
  ℕ, zero, suc, ◌+◌, ◌*◌, ◌/◌, ◌-◌, ◌^◌, ◌≤◌, ◌<◌, Bool, true, false, some, [], ◌∷◌, ◌++◌,
  append_assoc, append-nil, replicate, Bytes, codes, length, ◌==◌, if◌then◌else◌, ltb, leb, ◌&&◌,
  ◌||◌, Bool-cases, ◌⊎◌, inl, inr, ◌≡◌, refl, sym, ap, ◌∙◌, arith,
}
use components_mcu.Txtio.Inout.{
  put_text, io_puts, put_comma, io_print_hex_8, io_print_hex_16, io_print_hex_32,
}

abbrev hex_digit : ℕ → ℕ
hex_digit c = if ltb c b'a' then c - b'0' else c - b'a' + 10

-- The number that hexadecimal digits stand for, behind those of `n`.
abbrev pub hex_value : ℕ → Bytes → ℕ
hex_value n [] = n
hex_value n (c ∷ cs) = hex_value (n * 16 + hex_digit c) cs

abbrev pub are_hex : Bytes → Bool
are_hex [] = true
are_hex (c ∷ cs) = ((leb b'0' c && leb c b'9') || (leb b'a' c && leb c b'f')) && are_hex cs

-- The hexadecimal digits of a number, as few as possible.
pub record Digits (n : ℕ) (ds : Bytes) : Type 0 where
  pub hex : are_hex ds ≡ true
  pub value : hex_value 0 ds ≡ n
  pub fits : n < 16 ^ length ds
  pub shortest : (length ds ≡ 1) ⊎ (16 ^ (length ds - 1) ≤ n)

power_mono : (k m : ℕ) → k ≤ m → 16 ^ k ≤ 16 ^ m
power_mono zero zero h = omega arith
power_mono zero (suc m) h = let i = power_mono zero m (omega arith) in omega (arith, i)
power_mono (suc k) zero h = absurd (omega arith)
power_mono (suc k) (suc m) h = let i = power_mono k m (omega arith) in omega (arith, i)

-- A number that needs so many digits has so many.
length-Digits :
    (n k : ℕ) (ds : Bytes)
    → Digits n ds
    → n < 16 ^ suc k
    → (k ≡ 0) ⊎ (16 ^ k ≤ n)
    → length ds ≡ suc k
length-Digits n k ds d below above = elim (Bool-cases (ltb (length ds) (suc k))) [
  | inl short ↦
      let l : length ds ≤ k = ground arith in
      let p = power_mono (length ds) k l in
      elim above [
        | inl one ↦
            let none_at_all : length ds ≡ 0 = omega (arith, l, one) in
            let fits : n < 1 = rw none_at_all at d.fits in
            elim d.shortest [
              | inl single ↦ absurd (omega (arith, single, none_at_all))
              | inr large ↦
                  let positive : 1 ≤ n = rw none_at_all at large in
                  absurd (omega (arith, positive, fits))
            ]
        | inr large ↦ absurd (omega (arith, large, p, d.fits))
      ]
  | inr enough ↦ elim (Bool-cases (ltb (suc k) (length ds))) [
    | inr same ↦ ground arith
    | inl long ↦
        let l : suc k ≤ length ds - 1 = ground arith in
        let p = power_mono (suc k) (length ds - 1) l in
        elim d.shortest [
          | inl single ↦ absurd (omega (arith, l, single))
          | inr large ↦ absurd (omega (arith, large, p, below))
        ]
  ]
]

-- What is printed behind `out`: "0x" and just `width` hexadecimal digits with the value `n`.
pub record Fixed (width n : ℕ) (comma : Bool) (out out' : Bytes) : Type 0 where
  pub digits : Bytes
  pub all_hex : are_hex digits ≡ true
  pub printed : out' ≡ out ++ (codes "0x" ++ (digits ++ (if comma then codes ", " else [])))
  pub digit_count : length digits ≡ width
  pub value : hex_value 0 digits ≡ n

hex_value_zeros : (z : ℕ) (ds : Bytes) → hex_value 0 (replicate z b'0' ++ ds) ≡ hex_value 0 ds
hex_value_zeros zero ds = refl
hex_value_zeros (suc z) ds = hex_value_zeros z ds

hex_zeros : (z : ℕ) (ds : Bytes) → are_hex ds ≡ true → are_hex (replicate z b'0' ++ ds) ≡ true
hex_zeros zero ds h = h
hex_zeros (suc z) ds h = hex_zeros z ds h

length_zeros : (z : ℕ) (ds : Bytes) → length (replicate z b'0' ++ ds) ≡ z + length ds
length_zeros zero ds = omega arith
length_zeros (suc z) ds = omega (arith, length_zeros z ds)

module _ (put : Bytes → ℕ → Bool) (takes : (log : Bytes) (c : ℕ) → put log c ≡ true) where
  put_text_all : (s out : Bytes) → put_text put s out ≡ (true, out ++ s)
  unfolding put_text
  put_text_all [] out = rw (append-nil out) refl
  put_text_all (c ∷ s) out =
      rw (takes out c)
        (put_text_all s (out ++ c ∷ []) ∙ ap (λ o. (true, o)) (append_assoc out (c ∷ []) s))

  puts_all : (s out : Bytes) → (io_puts (some put) s out).1 ≡ out ++ s
  unfolding io_puts
  puts_all s out = ap (λ r. r.1) (put_text_all s out)

  put_comma_all :
      (comma : Bool) (out : Bytes)
      → put_comma (some put) comma out ≡ out ++ (if comma then codes ", " else [])
  put_comma_all true out = puts_all (codes ", ") out
  put_comma_all false out = sym (append-nil out)

  -- `z` zeros are printed in front of a number that needs `k + 1` digits.
  padded :
      (z k n : ℕ) (ds : Bytes) (comma : Bool) (out : Bytes)
      → Digits n ds
      → n < 16 ^ suc k
      → (k ≡ 0) ⊎ (16 ^ k ≤ n)
      → Fixed (z + suc k) n comma out (
          put_comma
            (some put)
            comma
            (io_puts (some put) ds (io_puts (some put) (codes "0x" ++ replicate z b'0') out).1).1)
  padded z k n ds comma out d below above =
      let end = if comma then codes ", " else [] in
      let zs = replicate z b'0' in
      record {
        digits = zs ++ ds;
        all_hex = hex_zeros z ds d.hex;
        printed =
            rw
              (
                put_comma_all comma
                    (io_puts (some put) ds (io_puts (some put) (codes "0x" ++ zs) out).1).1,
                puts_all ds (io_puts (some put) (codes "0x" ++ zs) out).1,
                puts_all (codes "0x" ++ zs) out,
              )
              (append_assoc (out ++ (codes "0x" ++ zs)) ds end
                ∙ append_assoc out (codes "0x" ++ zs) (ds ++ end)
                ∙ ap (λ t. out ++ (codes "0x" ++ t)) (sym (append_assoc zs ds end)));
        digit_count = omega (arith, length_zeros z ds, length-Digits n k ds d below above);
        value = hex_value_zeros z ds ∙ d.value;
      }

  hex_8 :
      (dec hex : ℕ → Bytes) (n : ℕ) (comma : Bool) (out : Bytes)
      → Digits n (hex n)
      → n < 2 ^ 8
      → Fixed 2 n comma out (io_print_hex_8 (some put) dec hex n comma out)
  unfolding io_print_hex_8
  hex_8 dec hex n comma out d lt = elim (Bool-cases (n / 16 == 0)) [
    | inl c0 ↦ rw c0 (padded 1 0 n (hex n) comma out d (ground arith) (inl refl))
    | inr c0 ↦ rw c0 (padded 0 1 n (hex n) comma out d (omega arith) (inr (ground arith)))
  ]

  hex_16 :
      (dec hex : ℕ → Bytes) (n : ℕ) (comma : Bool) (out : Bytes)
      → Digits n (hex n)
      → n < 2 ^ 16
      → Fixed 4 n comma out (io_print_hex_16 (some put) dec hex n comma out)
  unfolding io_print_hex_16
  hex_16 dec hex n comma out d lt = elim (Bool-cases (n / 0x10 == 0)) [
    | inl c0 ↦ rw c0 (padded 3 0 n (hex n) comma out d (ground arith) (inl refl))
    | inr c0 ↦ elim (Bool-cases (n / 0x100 == 0)) [
      | inl c1 ↦ rw (c0, c1) (padded 2 1 n (hex n) comma out d (ground arith) (inr (ground arith)))
      | inr c1 ↦ elim (Bool-cases (n / 0x1000 == 0)) [
        | inl c2 ↦
            rw (c0, c1, c2) (padded 1 2 n (hex n) comma out d (ground arith) (inr (ground arith)))
        | inr c2 ↦
            rw (c0, c1, c2) (padded 0 3 n (hex n) comma out d (omega arith) (inr (ground arith)))
      ]
    ]
  ]

  hex_32 :
      (dec hex : ℕ → Bytes) (n : ℕ) (comma : Bool) (out : Bytes)
      → Digits n (hex n)
      → n < 2 ^ 32
      → Fixed 8 n comma out (io_print_hex_32 (some put) dec hex n comma out)
  unfolding io_print_hex_32
  hex_32 dec hex n comma out d lt = elim (Bool-cases (n / 0x10 == 0)) [
    | inl c0 ↦ rw c0 (padded 7 0 n (hex n) comma out d (ground arith) (inl refl))
    | inr c0 ↦ elim (Bool-cases (n / 0x100 == 0)) [
      | inl c1 ↦ rw (c0, c1) (padded 6 1 n (hex n) comma out d (ground arith) (inr (ground arith)))
      | inr c1 ↦ elim (Bool-cases (n / 0x1000 == 0)) [
        | inl c2 ↦
            rw (c0, c1, c2) (padded 5 2 n (hex n) comma out d (ground arith) (inr (ground arith)))
        | inr c2 ↦ elim (Bool-cases (n / 0x10000 == 0)) [
          | inl c3 ↦
              rw (c0, c1, c2, c3)
                (padded 4 3 n (hex n) comma out d (ground arith) (inr (ground arith)))
          | inr c3 ↦ elim (Bool-cases (n / 0x100000 == 0)) [
            | inl c4 ↦
                rw (c0, c1, c2, c3, c4)
                  (padded 3 4 n (hex n) comma out d (ground arith) (inr (ground arith)))
            | inr c4 ↦ elim (Bool-cases (n / 0x1000000 == 0)) [
              | inl c5 ↦
                  rw (c0, c1, c2, c3, c4, c5)
                    (padded 2 5 n (hex n) comma out d (ground arith) (inr (ground arith)))
              | inr c5 ↦ elim (Bool-cases (n / 0x10000000 == 0)) [
                | inl c6 ↦
                    rw (c0, c1, c2, c3, c4, c5, c6)
                      (padded 1 6 n (hex n) comma out d (ground arith) (inr (ground arith)))
                | inr c6 ↦
                    rw (c0, c1, c2, c3, c4, c5, c6)
                      (padded 0 7 n (hex n) comma out d (omega arith) (inr (ground arith)))
              ]
            ]
          ]
        ]
      ]
    ]
  ]

-- Where the output takes every character, and sprintf yields for `n` its hexadecimal digits, as few
-- as possible: `io_print_hex_8`, `io_print_hex_16` and `io_print_hex_32` print a number in their
-- range as "0x" and just 2, 4 or 8 digits, each from 0 to 9 or a to f, with the value of the number, and ", " behind them where a
-- comma is asked for.
pub io_print_hex-Fixed :
    (put : Bytes → ℕ → Bool) (dec hex : ℕ → Bytes) (n : ℕ) (comma : Bool) (out : Bytes)
    → ((log : Bytes) (c : ℕ) → put log c ≡ true)
    → Digits n (hex n)
    → (n < 2 ^ 8 → Fixed 2 n comma out (io_print_hex_8 (some put) dec hex n comma out))
      × (n < 2 ^ 16 → Fixed 4 n comma out (io_print_hex_16 (some put) dec hex n comma out))
      × (n < 2 ^ 32 → Fixed 8 n comma out (io_print_hex_32 (some put) dec hex n comma out))
io_print_hex-Fixed put dec hex n comma out takes d = (
  hex_8 put takes dec hex n comma out d,
  hex_16 put takes dec hex n comma out d,
  hex_32 put takes dec hex n comma out d,
)
