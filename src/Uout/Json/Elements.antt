-- ===== src/Uout/Json/Elements.antt =====
-- What `read_json_from_function` of uout/status_json.cc makes of a text that is printed into the buffer.
use components_mcu.Prelude.{
  none, some, ℕ, zero, suc, ◌+◌, ◌-◌, ◌≤◌, ◌<◌, Bool, true, false, ◌&&◌, [], ◌∷◌, ◌++◌,
  append_assoc, Bytes, codes, ltb, ◌==◌, take, length, length-append, Bool-cases, inl, inr, ◌≡◌,
  refl, sym, ap, ◌∙◌, arith,
}
use components_mcu.Uout.Json.{
  Target, Builder, buf_max_size, free_size, append, realloc_buffer, write_some_json, enlarge_buffer,
  buffer_grow,
}
use components_mcu.Uout.Json.Buffer.{Inv, output}
use components_mcu.Uout.Json.Reading.{
  ToJson, aborts, finished, next_pass, fill, read_pass, last_pass, pass_again,
  read_json_from_function,
}

-- A function that prints `e` as `snprintf` does: its result is the whole length, and what does not fit
-- is cut.
abbrev pub prints : Bytes → ToJson
prints e free = (length e, take (free - 1) e)

take_all : (n : ℕ) (e : Bytes) → length e ≤ n → take n e ≡ e
take_all zero [] h = refl
take_all zero (c ∷ e) h = absurd (omega arith)
take_all (suc n) [] h = refl
take_all (suc n) (c ∷ e) h = ap (◌∷◌ c) (take_all n e (omega arith))

take-take_pred : (n : ℕ) (e : Bytes) → length e < n → take (length e) (take (n - 1) e) ≡ e
take-take_pred n e h = rw (take_all (n - 1) e (omega arith)) (take_all (length e) e (omega arith))

length-added : (e t : Bytes) → length (t ++ (e ++ codes ",")) ≡ length t + (length e + 1)
length-added e t = omega (arith, length-append t (e ++ codes ","), length-append e (codes ","))

module _ (realloc : ℕ → Bool) (target : Target) where
  fill_fits :
      (e : Bytes) (b : Builder)
      → 0 < length e
      → length e + 1 < free_size b
      → fill realloc target (prints e) b ≡ finished true (append (e ++ codes ",") b)
  unfolding fill
  fill_fits e b p h =
      let test : (ltb 0 (length e) && ltb (length e) (free_size b)) ≡ true = ground arith in
      let room : ltb (length (b.text ++ (e ++ codes ","))) b.size ≡ true =
        let l = length-added e b.text in ground (arith, l) in
      rw (test, take-take_pred (free_size b) e (omega arith), room) refl

  fill_full :
      (e : Bytes) (b : Builder)
      → 0 < length e
      → length e + 1 ≡ free_size b
      → fill realloc target (prints e) b ≡ aborts
  unfolding fill
  fill_full e b p h =
      let test : (ltb 0 (length e) && ltb (length e) (free_size b)) ≡ true = ground arith in
      let room : ltb (length (b.text ++ (e ++ codes ","))) b.size ≡ false =
        let l = length-added e b.text in ground (arith, l) in
      rw (test, take-take_pred (free_size b) e (omega arith), room) refl

  fill_cut :
      (e : Bytes) (b : Builder)
      → 0 < length e
      → free_size b ≤ length e
      → fill realloc target (prints e) b ≡ next_pass (length e + 1 - free_size b) b
  unfolding fill
  fill_cut e b p h =
      let test : (ltb 0 (length e) && ltb (length e) (free_size b)) ≡ false = ground arith in
      let some_text : (length e == 0) ≡ false = ground arith in rw (test, some_text) refl

  write_some_json_alone :
      (b : Builder) → b.has_target ≡ false → write_some_json realloc target b ≡ b
  unfolding write_some_json
  write_some_json_alone b alone = elim (Bool-cases b.eof) [
    | inl ended ↦ rw ended refl
    | inr open_end ↦ rw (open_end, alone) refl
  ]

  enlarge_short :
      (e : Bytes) (b : Builder)
      → 0 < free_size b
      → free_size b ≤ length e
      → let r = enlarge_buffer realloc target (length e + 1 - free_size b) b in
        (output r.1 ≡ output b) × (free_size r.1 ≤ length e)
  unfolding enlarge_buffer realloc_buffer
  enlarge_short e b p h =
      let positive : ltb 0 (length e + 1 - free_size b) ≡ true = ground arith in
      let size = length e + 1 - free_size b + length b.text in
      elim (Bool-cases b.is_mine) [
        | inr user ↦ rw user (refl, h)
        | inl mine ↦ elim (Bool-cases (ltb buf_max_size size)) [
          | inl large ↦ rw (mine, positive, large) (refl, h)
          | inr fits ↦ elim (Bool-cases (realloc size)) [
            | inr failed ↦ rw (mine, positive, fits, failed) (refl, h)
            | inl done ↦ rw (mine, positive, fits, done) (refl, omega arith)
          ]
        ]
      ]

  -- Without a target nothing is sent, and the second pass gets no more room than it asks for.
  grow_short :
      (e : Bytes) (b : Builder)
      → b.has_target ≡ false
      → 0 < free_size b
      → free_size b ≤ length e
      → let r = buffer_grow realloc target (length e + 1 - free_size b) b in
        (output r.1 ≡ output b) × (free_size r.1 ≤ length e)
  unfolding buffer_grow
  grow_short e b alone p h =
      let required = length e + 1 - free_size b in
      let same = write_some_json_alone b alone in
      let enlarged = enlarge_short e b p h in
      elim (Bool-cases (ltb 0 b.size && ltb 0 (length b.text))) [
        | inr nothing ↦ rw nothing enlarged
        | inl filled ↦ elim (Bool-cases (ltb (required + 20) (free_size b))) [
          | inl enough ↦ rw (filled, same, enough) (refl, h)
          | inr tight ↦ rw (filled, same, tight) enlarged
        ]
      ]

  -- The second pass fails where nothing is sent.
  second_pass_fails :
      (e : Bytes) (b : Builder)
      → b.has_target ≡ false
      → 0 < length e
      → 0 < free_size b
      → free_size b ≤ length e
      → let r =
          last_pass realloc target
            (read_pass realloc target (prints e) (length e + 1 - free_size b) b) in
        (c : Builder) × (r ≡ some (false, c)) × (output c ≡ output b)
  unfolding read_pass
  second_pass_fails e b alone some_text p h =
      let required = length e + 1 - free_size b in
      let (same, short) = grow_short e b alone p h in
      let grown = buffer_grow realloc target required b in
      elim (Bool-cases (ltb (free_size b) required)) [
        | inr roomy ↦ (b, rw (roomy, fill_cut e b some_text h) refl, refl)
        | inl tight ↦ elim (Bool-cases grown.0) [
          | inl ok ↦ (grown.1, rw (tight, ok, fill_cut e grown.1 some_text short) refl, same)
          | inr failed ↦ (grown.1, rw (tight, failed) refl, same)
        ]
      ]

  first_pass :
      (e : Bytes) (required : ℕ) (b : Builder)
      → required ≤ free_size b
      → read_pass realloc target (prints e) required b ≡ fill realloc target (prints e) b
  unfolding read_pass
  first_pass e required b room =
      let enough : ltb (free_size b) required ≡ false = ground arith in rw enough refl

  reads_fitting :
      (e : Bytes) (required : ℕ) (b : Builder)
      → 0 < length e
      → required ≤ free_size b
      → length e + 1 < free_size b
      → read_json_from_function realloc target (prints e) required b
        ≡ some (true, append (e ++ codes ",") b)
  unfolding read_json_from_function
  reads_fitting e required b some_text room h =
      ap (pass_again realloc target (prints e))
        (first_pass e required b room ∙ fill_fits e b some_text h)

  reads_full :
      (e : Bytes) (required : ℕ) (b : Builder)
      → 0 < length e
      → required ≤ free_size b
      → length e + 1 ≡ free_size b
      → read_json_from_function realloc target (prints e) required b ≡ none
  unfolding read_json_from_function
  reads_full e required b some_text room h =
      ap (pass_again realloc target (prints e))
        (first_pass e required b room ∙ fill_full e b some_text h)

  reads_cut :
      (e : Bytes) (required : ℕ) (b : Builder)
      → 0 < length e
      → required ≤ free_size b
      → free_size b ≤ length e
      → read_json_from_function realloc target (prints e) required b
        ≡ last_pass realloc target
            (read_pass realloc target (prints e) (length e + 1 - free_size b) b)
  unfolding read_json_from_function
  reads_cut e required b some_text room h =
      ap (pass_again realloc target (prints e))
        (first_pass e required b room ∙ fill_cut e b some_text h)

  positive_free : (b : Builder) → Inv b → 0 < b.size → 0 < free_size b
  positive_free b i buffer = elim i [
    | inl fits ↦ omega (arith, fits)
    | inr null ↦ omega (arith, null)
  ]

  -- For a builder that is well formed and has no target to send to, with a buffer at least as free as
  -- the size that is asked for first, a function that prints the text `e`, not empty, as `snprintf`
  -- does: where `e` and two more bytes fit, the text and a comma are added, and the builder stays well
  -- formed; where they fit but for one byte, the text fills the buffer, and the assertion at the end
  -- aborts the program; and where `e` does not fit, the call fails and adds nothing, in spite of the
  -- second pass and whatever memory there is.
  pub read_json_from_function_cases :
      (e : Bytes) (required : ℕ) (b : Builder)
      → Inv b
      → b.has_target ≡ false
      → 0 < length e
      → 0 < b.size
      → required ≤ free_size b
      → let r = read_json_from_function realloc target (prints e) required b in
        (length e + 1 < free_size b
          → (c : Builder) × (r ≡ some (true, c))
            × (output c ≡ output b ++ (e ++ codes ","))
            × Inv c)
        × (length e + 1 ≡ free_size b → r ≡ none)
        × (free_size b ≤ length e → (c : Builder) × (r ≡ some (false, c)) × (output c ≡ output b))
  unfolding read_json_from_function
  read_json_from_function_cases e required b i alone some_text buffer room = (
    λ h. (
      append (e ++ codes ",") b,
      reads_fitting e required b some_text room h,
      sym (append_assoc b.sent b.text (e ++ codes ",")),
      inl (omega (arith, length-added e b.text)),
    ),
    λ h. reads_full e required b some_text room h,
    λ h.
        let (c, failed, same) =
          second_pass_fails e b alone some_text (positive_free b i buffer) h in
        (c, reads_cut e required b some_text room h ∙ failed, same),
  )
