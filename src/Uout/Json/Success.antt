-- ===== src/Uout/Json/Success.antt =====
-- Calls of uout/status_json.cc that cannot fail: the builder owns its buffer, memory does not run out, and
-- the largest size of a buffer is not reached.
use components_mcu.Prelude.{
  ℕ, ◌+◌, ◌-◌, ◌≤◌, ◌<◌, Bool, true, false, not, ◌&&◌, ◌||◌, Option, none, some, List, [], ◌∷◌,
  ◌++◌, Bytes, codes, ltb, ◌==◌, take, length, length-append, Bool-cases, inl, inr, ◌≡◌, refl, ap,
  subst, arith,
}
use components_mcu.Uout.Json.{
  Target, Builder, buf_max_size, free_size, strip_comma, required_size, realloc_buffer,
  write_some_json, enlarge_buffer, buffer_grow, not_enough_buffer, add, close, add_object,
  add_array, close_object, close_array, close_root_object, add_key, add_value_s, add_value_d,
  add_key_value_pair_s, add_key_value_pair_d, put_kv_bool,
}
use components_mcu.Uout.Json.Steps.{
  Step, begin_object, begin_array, end_object, end_array, end_root, key, value_s, value_d, pair_s,
  pair_d, pair_bool, succeeded, built_all, HasDigits, AllDigits, perform, run,
}
use components_mcu.Uout.Json.Buffer.{Inv, output, length-moved, TakesMost, required_positive}
use components_mcu.Uout.Json.Output.{Builds, length-strip_comma, run-Builds}

-- A builder with its own buffer and no more than `n` characters in it.
abbrev Holds : ℕ → Builder → Type 0
Holds n b = (b.is_mine ≡ true) × (length b.text ≤ n)

-- The room that a call asks for.
unfoldable pub cost : Step → ℕ
cost (begin_object none) = 20
cost (begin_object (some k)) = length k + 10 + 10
cost (begin_array none) = 20
cost (begin_array (some k)) = length k + 10 + 10
cost end_object = 20
cost end_array = 20
cost end_root = 20
cost (key k) = length k + 10 + 10
cost (value_s v) = 3 + length v + 10
cost (value_d d) = 0 + length d + 10
cost (pair_s k v) = length k + length v + 10
cost (pair_d k d) = length k + 10 + 10
cost (pair_bool k v) = length k + 10 + 10

unfoldable pub costs : List Step → ℕ
unfolding cost
costs [] = 0
costs (s ∷ ss) = cost s + costs ss

module _ (realloc : ℕ → Bool) (target : Target) (plenty : (n : ℕ) → realloc n ≡ true) where
  write_some_json-Holds :
      (n : ℕ) (b : Builder) → Holds n b → Holds n (write_some_json realloc target b)
  unfolding write_some_json
  write_some_json-Holds n b h =
      let k = target.write (take (length b.text - 1) b.text) in
      elim (Bool-cases (b.eof || not b.has_target)) [
        | inl off ↦ rw off h
        | inr on ↦ elim (Bool-cases (ltb (length b.text) 2)) [
          | inl short ↦ rw (on, short) h
          | inr long ↦ elim (Bool-cases (k == 0)) [
            | inl failed ↦ rw (on, long, failed) h
            | inr some_sent ↦
                rw (on, long, some_sent) (h.0, omega (arith, length-moved target k b.text, h.1))
          ]
        ]
      ]

  enlarge_buffer_succeeds :
      (required n : ℕ) (b : Builder)
      → Holds n b
      → 0 < required
      → n + required ≤ buf_max_size
      → let r = enlarge_buffer realloc target required b in (r.0 ≡ true) × Holds n r.1
  unfolding enlarge_buffer realloc_buffer
  enlarge_buffer_succeeds required n b h p l =
      let positive : ltb 0 required ≡ true = ground arith in
      let fits : ltb buf_max_size (required + length b.text) ≡ false = ground arith in
      rw (h.0, positive, fits, plenty (required + length b.text)) (refl, (refl, h.1))

  buffer_grow_succeeds :
      (required n : ℕ) (b : Builder)
      → Holds n b
      → 0 < required
      → n + required ≤ buf_max_size
      → let r = buffer_grow realloc target required b in (r.0 ≡ true) × Holds n r.1
  unfolding buffer_grow
  buffer_grow_succeeds required n b h p l =
      let b' = write_some_json realloc target b in
      let flushed = write_some_json-Holds n b h in
      elim (Bool-cases (ltb 0 b.size && ltb 0 (length b.text))) [
        | inr nothing ↦ rw nothing (enlarge_buffer_succeeds required n b h p l)
        | inl filled ↦ elim (Bool-cases (ltb (required + 20) (free_size b'))) [
          | inl enough ↦ rw (filled, enough) (refl, flushed)
          | inr tight ↦ rw (filled, tight) (enlarge_buffer_succeeds required n b' flushed p l)
        ]
      ]

  not_enough_buffer_succeeds :
      (k : Bytes) (val : Option Bytes) (n : ℕ) (b : Builder)
      → Holds n b
      → n + required_size k val ≤ buf_max_size
      → let r = not_enough_buffer realloc target k val b in (r.0 ≡ false) × Holds n r.1
  unfolding not_enough_buffer
  not_enough_buffer_succeeds k val n b h l =
      let required = required_size k val in
      let grown = buffer_grow_succeeds required n b h (required_positive k val) l in
      elim (Bool-cases (ltb (free_size b) required)) [
        | inl tight ↦ rw tight (ap not grown.0, grown.1)
        | inr enough ↦ rw enough (refl, h)
      ]

  -- A call succeeds, and its text is at most that much longer.
  abbrev Succeeds : ℕ → Option Builder → Type 0
  Succeeds n o = (b : Builder) × ((o ≡ some b) × Holds n b)

  add-Succeeds :
      (k : Bytes) (val : Option Bytes) (piece : Bytes) (ct n : ℕ) (b : Builder)
      → Holds n b
      → length piece < required_size k val
      → n + required_size k val ≤ buf_max_size
      → Succeeds (n + required_size k val) (succeeded (add realloc target k val piece ct b))
  unfolding add
  add-Succeeds k val piece ct n b h p l =
      let r = not_enough_buffer realloc target k val b in
      let room = not_enough_buffer_succeeds k val n b h l in
      rw room.0 (_, (refl, (room.1.0, omega (arith, length-append r.1.text piece, room.1.1, p))))

  close-Succeeds :
      (piece : Bytes) (n : ℕ) (b : Builder)
      → Holds n b
      → length piece < 20
      → n + 20 ≤ buf_max_size
      → Succeeds (n + 20) (close realloc target piece b)
  unfolding close
  close-Succeeds piece n b h p l =
      let r = not_enough_buffer realloc target [] none b in
      let room = not_enough_buffer_succeeds [] none n b h (omega (arith, l)) in
      rw room.0 (
        _,
        (
          refl,
          (
            room.1.0,
            omega (
              arith,
              length-append (strip_comma r.1.text) piece,
              length-strip_comma r.1.text,
              room.1.1,
              p,
            ),
          ),
        ),
      )

  perform-Succeeds :
      (s : Step) (n : ℕ) (b : Builder)
      → Holds n b
      → HasDigits s
      → n + cost s ≤ buf_max_size
      → Succeeds (n + cost s) (perform realloc target s b)
  unfolding cost perform add_object add_array close_object close_array close_root_object add_key
      add_value_s add_value_d add_key_value_pair_s add_key_value_pair_d put_kv_bool
  perform-Succeeds (begin_object none) n b h d l =
      add-Succeeds [] none (codes "{") (b.obj_ct + 1) n b h (omega (arith)) l
  perform-Succeeds (begin_object (some k)) n b h d l =
      add-Succeeds k none (b'"' ∷ (k ++ codes "\":{")) (b.obj_ct + 1) n b h
        (omega (arith, length-append k (codes "\":{"))) l
  perform-Succeeds (begin_array none) n b h d l =
      add-Succeeds [] none (codes "[") (b.obj_ct + 1) n b h (omega (arith)) l
  perform-Succeeds (begin_array (some k)) n b h d l =
      add-Succeeds k none (b'"' ∷ (k ++ codes "\":[")) (b.obj_ct + 1) n b h
        (omega (arith, length-append k (codes "\":["))) l
  perform-Succeeds end_object n b h d l = close-Succeeds (codes "},") n b h (omega arith) l
  perform-Succeeds end_array n b h d l = close-Succeeds (codes "],") n b h (omega arith) l
  perform-Succeeds end_root n b h d l = close-Succeeds (codes "}") n b h (omega arith) l
  perform-Succeeds (key k) n b h d l =
      add-Succeeds k none (b'"' ∷ (k ++ codes "\":")) b.obj_ct n b h
        (omega (arith, length-append k (codes "\":"))) l
  perform-Succeeds (value_s v) n b h d l =
      add-Succeeds (codes "---") (some v) (b'"' ∷ (v ++ codes "\",")) b.obj_ct n b h
        (omega (arith, length-append v (codes "\","))) l
  perform-Succeeds (value_d w) n b h d l =
      add-Succeeds [] (some w) (codes ",") b.obj_ct n b h (omega (arith)) l
  perform-Succeeds (pair_s k v) n b h d l =
      add-Succeeds k (some v) (b'"' ∷ (k ++ (codes "\":\"" ++ (v ++ codes "\",")))) b.obj_ct n b h
        (omega (
          arith,
          length-append k (codes "\":\"" ++ (v ++ codes "\",")),
          length-append v (codes "\","),
        ))
        l
  perform-Succeeds (pair_d k w) n b h d l =
      add-Succeeds k none (b'"' ∷ (k ++ (codes "\":" ++ (w ++ codes ",")))) b.obj_ct n b h
        (omega (
          arith,
          d,
          length-append k (codes "\":" ++ (w ++ codes ",")),
          length-append w (codes ","),
        ))
        l
  perform-Succeeds (pair_bool k true) n b h d l =
      add-Succeeds k none (b'"' ∷ (k ++ codes "\":true,")) b.obj_ct n b h
        (omega (arith, length-append k (codes "\":true,"))) l
  perform-Succeeds (pair_bool k false) n b h d l =
      add-Succeeds k none (b'"' ∷ (k ++ codes "\":false,")) b.obj_ct n b h
        (omega (arith, length-append k (codes "\":false,"))) l

  run_succeeds :
      (ss : List Step) (n : ℕ) (b : Builder)
      → Holds n b
      → AllDigits ss
      → n + costs ss ≤ buf_max_size
      → (b' : Builder) × (run realloc target ss b ≡ some b')
  unfolding run costs
  run_succeeds [] n b h d l = (b, refl)
  run_succeeds (s ∷ ss) n b h d l =
      let (b', (done, h')) = perform-Succeeds s n b h d.0 (omega (arith, l)) in
      rw done (run_succeeds ss (n + cost s) b' h' d.1 (omega (arith, l)))

-- When allocation never fails, the writer takes nothing of what it is given or most of it, each number has at most
-- 11 digits, and the characters in the buffer and the room that the calls ask for are 2048 at most in
-- sum, a sequence of calls on a builder that owns its buffer and has a text succeeds, and what is
-- sent and what is in the buffer are together the text that the calls mean.
pub run-built_all :
    (realloc : ℕ → Bool) (target : Target)
    → ((n : ℕ) → realloc n ≡ true)
    → TakesMost target
    → (ss : List Step) (b : Builder) → Inv b
    → 0 < length b.text
    → b.is_mine ≡ true
    → AllDigits ss
    → length b.text + costs ss ≤ buf_max_size
    → (b' : Builder) × ((run realloc target ss b ≡ some b') × (output b' ≡ built_all ss (output b)))
run-built_all realloc target plenty most ss b i p mine d l =
    let (b', done) =
      run_succeeds realloc target plenty ss (length b.text) b (mine, omega arith) d l in
    let right = run-Builds realloc target most ss b i p d in
    (b', (done, (subst (Builds (built_all ss (output b))) done right).0))
