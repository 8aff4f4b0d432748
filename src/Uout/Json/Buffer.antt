-- ===== src/Uout/Json/Buffer.antt =====
-- The buffer of uout/status_json.cc has room for what is added, and what is sent of it early is not lost.
use components_mcu.Prelude.{
  ℕ, zero, suc, ◌+◌, ◌-◌, ◌≤◌, ◌<◌, Bool, true, false, not, ◌&&◌, ◌||◌, Option, none, some, [], ◌∷◌,
  ◌++◌, append_assoc, Bytes, ltb, leb, ◌==◌, take, drop, length, length-take, Bool-cases, ◌⊎◌, inl,
  inr, ◌≡◌, refl, ap, ◌∙◌, arith,
}
use components_mcu.Uout.Json.{
  Target, moved, Builder, buf_max_size, free_size, required_size, realloc_buffer, write_some_json,
  enlarge_buffer, buffer_grow, not_enough_buffer,
}

-- The text and its final NUL fit the buffer, or there is no buffer and no text.
abbrev pub Inv : Builder → Type 0
Inv b = (length b.text < b.size) ⊎ ((b.size ≡ 0) × (length b.text ≡ 0))

-- All that was built: what is sent and what is not.
abbrev pub output : Builder → Bytes
output b = b.sent ++ b.text

-- A builder that has the same output, and characters in its buffer if there were any.
abbrev pub Same : Builder → Builder → Type 0
Same b b' =
    (output b' ≡ output b) × ((0 < length b.text → 0 < length b'.text) × (b'.obj_ct ≡ b.obj_ct))

pub length-drop : (n : ℕ) (s : Bytes) → length (drop n s) ≡ length s - n
length-drop zero s = omega arith
length-drop (suc n) [] = omega arith
length-drop (suc n) (c ∷ s) = omega (arith, length-drop n s)

take-drop : (n : ℕ) (s : Bytes) → take n s ++ drop n s ≡ s
take-drop zero s = refl
take-drop (suc n) [] = refl
take-drop (suc n) (c ∷ s) = ap (◌∷◌ c) (take-drop n s)

abbrev unchanged : (b : Builder) → Same b b
unchanged b = (refl, (λ h. h, refl))

-- The buffer has as many bytes free as are required, if the flag says so.
abbrev pub Room : ℕ → Bool → Builder → Type 0
Room required flag b = flag ≡ true → length b.text + required ≤ b.size

-- What an attempt to get more room keeps and gives.
abbrev pub Grown : ℕ → Builder → Bool × Builder → Type 0
Grown required b r = Same b r.1 × (Inv r.1 × Room required r.0 r.1)

pub required_positive : (key : Bytes) (val : Option Bytes) → 0 < required_size key val
required_positive key none = omega arith
required_positive key (some val) = omega arith

-- The writer takes no more than it is given, and either nothing or so much that the rest of a text of one
-- more character, which `memcpy` moves, does not overlap its new place.
abbrev pub TakesMost : Target → Type 0
TakesMost target =
    (s : Bytes)
    → (target.write s ≤ length s)
      × ((target.write s ≡ 0) ⊎ (length s + 1 ≤ target.write s + target.write s))

pub length-moved : (target : Target) (n : ℕ) (s : Bytes) → length (moved target n s) ≤ length s - n
length-moved target n s = elim (Bool-cases (leb (length s) (n + n))) [
  | inl apart ↦ rw apart (omega (arith, length-drop n s))
  | inr over ↦ rw over (omega (arith, length-take (length s - n) (target.overlapping n s)))
]

not-not : (x : Bool) → not (not x) ≡ x
not-not true = refl
not-not false = refl

module _ (realloc : ℕ → Bool) (target : Target) (most : TakesMost target) where
  write_some_json-Same :
      (b : Builder)
      → Inv b
      → Same b (write_some_json realloc target b) × Inv (write_some_json realloc target b)
  unfolding write_some_json
  write_some_json-Same b i =
      let n = target.write (take (length b.text - 1) b.text) in
      let kept = most (take (length b.text - 1) b.text) in
      let chunk = length-take (length b.text - 1) b.text in
      elim (Bool-cases (b.eof || not b.has_target)) [
        | inl off ↦ rw off (unchanged b, i)
        | inr on ↦ elim (Bool-cases (ltb (length b.text) 2)) [
          | inl short ↦ rw (on, short) (unchanged b, i)
          | inr long ↦ elim (Bool-cases (n == 0)) [
            | inl failed ↦ rw (on, long, failed) (unchanged b, i)
            | inr some_sent ↦
                let two : 2 ≤ length b.text = ground arith in
                let left : 0 < length (drop n b.text) =
                  omega (arith, length-drop n b.text, kept.0, chunk, two) in
                let apart : leb (length b.text) (n + n) ≡ true = elim kept.1 [
                  | inl zero_sent ↦ absurd (ground arith)
                  | inr enough ↦
                      let fits : length b.text ≤ n + n = omega (arith, chunk, two, enough) in
                      ground arith
                ] in
                rw (on, long, some_sent, apart)
                  (
                    (
                      append_assoc b.sent (take n b.text) (drop n b.text)
                          ∙ ap (◌++◌ b.sent) (take-drop n b.text),
                      (λ h. left, refl),
                    ),
                    elim i [
                      | inl fits ↦ inl (omega (arith, length-drop n b.text, fits))
                      | inr null ↦ absurd (omega (arith, null.1, two))
                    ],
                  )
          ]
        ]
      ]

  enlarge_buffer-Grown :
      (required : ℕ) (b : Builder)
      → 0 < required
      → Inv b
      → Grown required b (enlarge_buffer realloc target required b)
  unfolding enlarge_buffer realloc_buffer
  enlarge_buffer-Grown required b p i =
      let positive : ltb 0 required ≡ true = ground arith in
      let size = required + length b.text in
      let stuck : Grown required b (false, b) = (unchanged b, (i, λ e. absurd (ground arith))) in
      elim (Bool-cases b.is_mine) [
        | inr user ↦ rw user stuck
        | inl mine ↦ elim (Bool-cases (ltb buf_max_size size)) [
          | inl large ↦ rw (mine, positive, large) stuck
          | inr fits ↦ elim (Bool-cases (realloc size)) [
            | inr failed ↦ rw (mine, positive, fits, failed) stuck
            | inl done ↦
                rw (mine, positive, fits, done)
                  (unchanged b, (inl (omega (arith, p)), λ e. omega arith))
          ]
        ]
      ]

  buffer_grow-Grown :
      (required : ℕ) (b : Builder)
      → 0 < required
      → Inv b
      → Grown required b (buffer_grow realloc target required b)
  unfolding buffer_grow
  buffer_grow-Grown required b p i =
      let flushed = write_some_json-Same b i in
      let b' = write_some_json realloc target b in
      let later = enlarge_buffer-Grown required b' p flushed.1 in
      elim (Bool-cases (ltb 0 b.size && ltb 0 (length b.text))) [
        | inr nothing ↦ rw nothing (enlarge_buffer-Grown required b p i)
        | inl filled ↦ elim (Bool-cases (ltb (required + 20) (free_size b'))) [
          | inl enough ↦ rw (filled, enough) (flushed.0, (flushed.1, λ e. ground arith))
          | inr tight ↦
              rw (filled, tight)
                (
                  (
                    later.0.0 ∙ flushed.0.0,
                    (λ h. later.0.1.0 (flushed.0.1.0 h), later.0.1.1 ∙ flushed.0.1.1),
                  ),
                  later.1,
                )
        ]
      ]

  pub not_enough_buffer-Grown :
      (key : Bytes) (val : Option Bytes) (b : Builder)
      → Inv b
      → let r = not_enough_buffer realloc target key val b in
        Grown (required_size key val) b (not r.0, r.1)
  unfolding not_enough_buffer
  not_enough_buffer-Grown key val b i =
      let required = required_size key val in
      let p : 0 < required = required_positive key val in
      let grown = buffer_grow-Grown required b p i in
      elim (Bool-cases (ltb (free_size b) required)) [
        | inl tight ↦ rw (tight, not-not (buffer_grow realloc target required b).0) grown
        | inr enough ↦ rw enough (unchanged b, (i, λ e. ground arith))
      ]
