-- ===== src/Uout/Json/Streaming.antt =====
-- A JSON object that uout/status_json.cc builds and sends, in pieces and at its end.
use components_mcu.Prelude.{
  ℕ, ◌+◌, ◌-◌, ◌≤◌, ◌<◌, Bool, true, false, not, ◌&&◌, ◌||◌, Option, none, some, List, [], ◌∷◌,
  ◌++◌, Bytes, codes, ltb, ◌==◌, if◌then◌else◌, take, length, Bool-cases, ◌≡◌, refl, ap, subst, ◌∙◌,
  inl, inr, arith,
}
use components_mcu.Uout.Json.{
  Target, Builder, buf_max_size, free_size, required_size, realloc_buffer, write_some_json,
  enlarge_buffer, buffer_grow, not_enough_buffer, add, close, add_object, add_array, close_object,
  close_array, close_root_object, add_key, add_value_s, add_value_d, add_key_value_pair_s,
  add_key_value_pair_d, put_kv_bool,
}
use components_mcu.Uout.Json.Steps.{
  Step, begin_object, begin_array, end_object, end_array, end_root, key, value_s, value_d, pair_s,
  pair_d, pair_bool, succeeded, perform, run, next, built_all,
}
use components_mcu.Uout.Json.Buffer.{TakesMost, Inv, output}
use components_mcu.Uout.Json.Output.{Builds, run-Builds}
use components_mcu.Uout.Json.Success.{costs}
use components_mcu.Uout.Json.Trees.{root-AllDigits}
use components_mcu.Uout.Json.Texts.{Members, object_tree, json_text, plain_members, to_items}
use components_mcu.Uout.Json.Documents.{object_calls, run-json}
use components_mcu.Uout.Json.Writing.{send_text, write_json}

-- Building does not end the output.
abbrev Open : Builder → Type 0
Open b = (b.eof ≡ false) × (b.has_target ≡ true)

data OpenSome : Option Builder → Type 0 where
  nothing : OpenSome none
  opened : {b : Builder} → Open b → OpenSome (some b)

all-TakesMost : (target : Target) → ((s : Bytes) → target.write s ≡ length s) → TakesMost target
all-TakesMost target takes [] = (omega (arith, takes []), inl (takes []))
all-TakesMost target takes (c ∷ s) =
    (omega (arith, takes (c ∷ s)), inr (omega (arith, takes (c ∷ s))))

take_whole : (s : Bytes) → take (length s) s ≡ s
take_whole [] = refl
take_whole (c ∷ s) = ap (◌∷◌ c) (take_whole s)

module _ (realloc : ℕ → Bool) (target : Target) where
  write_some_json-Open : (b : Builder) → Open b → Open (write_some_json realloc target b)
  unfolding write_some_json
  write_some_json-Open b h =
      let n = target.write (take (length b.text - 1) b.text) in
      let live : (b.eof || not b.has_target) ≡ false = ground (arith, h) in
      elim (Bool-cases (ltb (length b.text) 2)) [
        | inl short ↦ rw (live, short) h
        | inr long ↦ elim (Bool-cases (n == 0)) [
          | inl failed ↦ rw (live, long, failed) h
          | inr sent ↦ rw (live, long, sent) h
        ]
      ]

  enlarge_buffer-Open :
      (required : ℕ) (b : Builder) → Open b → Open (enlarge_buffer realloc target required b).1
  unfolding enlarge_buffer realloc_buffer
  enlarge_buffer-Open required b h = ground (arith, h)

  buffer_grow-Open :
      (required : ℕ) (b : Builder) → Open b → Open (buffer_grow realloc target required b).1
  unfolding buffer_grow
  buffer_grow-Open required b h =
      let b' = write_some_json realloc target b in
      let h' = write_some_json-Open b h in
      elim (Bool-cases (ltb 0 b.size && ltb 0 (length b.text))) [
        | inr empty ↦ rw empty (enlarge_buffer-Open required b h)
        | inl filled ↦ elim (Bool-cases (ltb (required + 20) (free_size b'))) [
          | inl enough ↦ rw (filled, enough) h'
          | inr tight ↦ rw (filled, tight) (enlarge_buffer-Open required b' h')
        ]
      ]

  not_enough_buffer-Open :
      (k : Bytes) (val : Option Bytes) (b : Builder)
      → Open b
      → Open (not_enough_buffer realloc target k val b).1
  unfolding not_enough_buffer
  not_enough_buffer-Open k val b h = elim (Bool-cases (ltb (free_size b) (required_size k val))) [
    | inl tight ↦ rw tight (buffer_grow-Open (required_size k val) b h)
    | inr enough ↦ rw enough h
  ]

  add-Open :
      (k : Bytes) (val : Option Bytes) (piece : Bytes) (obj_ct : ℕ) (b : Builder)
      → Open b
      → OpenSome (succeeded (add realloc target k val piece obj_ct b))
  unfolding add
  add-Open k val piece obj_ct b h =
      let room = not_enough_buffer-Open k val b h in
      elim (Bool-cases (not_enough_buffer realloc target k val b).0) [
        | inl failed ↦ rw failed nothing
        | inr done ↦ rw done (opened room)
      ]

  close-Open : (piece : Bytes) (b : Builder) → Open b → OpenSome (close realloc target piece b)
  unfolding close
  close-Open piece b h =
      let room = not_enough_buffer-Open [] none b h in
      elim (Bool-cases (not_enough_buffer realloc target [] none b).0) [
        | inl failed ↦ rw failed nothing
        | inr done ↦ rw done (opened room)
      ]

  perform-Open : (s : Step) (b : Builder) → Open b → OpenSome (perform realloc target s b)
  unfolding perform add_object add_array close_object close_array close_root_object add_key
      add_value_s add_value_d add_key_value_pair_s add_key_value_pair_d put_kv_bool
  perform-Open (begin_object none) b h = add-Open [] none (codes "{") (b.obj_ct + 1) b h
  perform-Open (begin_object (some k)) b h =
      add-Open k none (b'"' ∷ (k ++ codes "\":{")) (b.obj_ct + 1) b h
  perform-Open (begin_array none) b h = add-Open [] none (codes "[") (b.obj_ct + 1) b h
  perform-Open (begin_array (some k)) b h =
      add-Open k none (b'"' ∷ (k ++ codes "\":[")) (b.obj_ct + 1) b h
  perform-Open end_object b h = close-Open (codes "},") b h
  perform-Open end_array b h = close-Open (codes "],") b h
  perform-Open end_root b h = close-Open (codes "}") b h
  perform-Open (key k) b h = add-Open k none (b'"' ∷ (k ++ codes "\":")) b.obj_ct b h
  perform-Open (value_s v) b h =
      add-Open (codes "---") (some v) (b'"' ∷ (v ++ codes "\",")) b.obj_ct b h
  perform-Open (value_d d) b h = add-Open [] (some d) (codes ",") b.obj_ct b h
  perform-Open (pair_s k v) b h =
      add-Open k (some v) (b'"' ∷ (k ++ (codes "\":\"" ++ (v ++ codes "\",")))) b.obj_ct b h
  perform-Open (pair_d k d) b h =
      add-Open k none (b'"' ∷ (k ++ (codes "\":" ++ (d ++ codes ",")))) b.obj_ct b h
  perform-Open (pair_bool k v) b h =
      add-Open k none
        (b'"' ∷ (k ++ (codes "\":" ++ ((if v then codes "true" else codes "false") ++ codes ","))))
        b.obj_ct b h

  next-Open :
      (o : Option Builder) (f : Builder → Option Builder)
      → OpenSome o
      → ((b : Builder) → Open b → OpenSome (f b))
      → OpenSome (next f o)
  next-Open none f h g = nothing
  next-Open (some b) f (opened h) g = g b h

  run-Open : (ss : List Step) (b : Builder) → Open b → OpenSome (run realloc target ss b)
  unfolding run
  run-Open [] b h = opened h
  run-Open (s ∷ ss) b h =
      next-Open (perform realloc target s b) (run realloc target ss) (perform-Open s b h)
        (λ c k. run-Open ss c k)

  write_json_text :
      (b : Builder)
      → Open b
      → 0 < length b.text
      → write_json target true b ≡ send_text target true b.text b
  unfolding write_json
  write_json_text b h p =
      let some_text : (length b.text == 0) ≡ false = ground arith in
      let live : not b.has_target ≡ false = ground (arith, h) in
      let going : b.eof ≡ false = h.0 in rw (going, live, some_text) refl

  -- The last text, where the target takes all it is given, and a call after it.
  last_write :
      ((s : Bytes) → target.write s ≡ length s)
      → (b : Builder) → Open b
      → 0 < length b.text
      → ((write_json target true b).1.sent ≡ output b)
        × ((write_json target true b).1.text ≡ [])
        × (write_json target true (write_json target true b).1
            ≡ (none, (write_json target true b).1))
  unfolding write_json
  last_write takes b h p =
      rw (write_json_text b h p)
        (ap (◌++◌ b.sent) (rw (takes b.text) (take_whole b.text)), refl, refl)

opened_lem : {b : Builder} → OpenSome (some b) → Open b
opened_lem (opened h) = h

-- When allocation never fails, the target takes all it is given, the characters in the buffer and the
-- room that the calls ask for are 2048 at most in sum, and no key and no string has a character that JSON
-- escapes: on a builder that owns its buffer, has just opened its root object and has not ended its output,
-- the calls for the members of an object and for its end succeed, and they and `write_json(true)` after
-- them send the text of the object as JSON writes it, in pieces or at once, no more and no less; the
-- buffer is empty, and a further `write_json` sends nothing and returns -1.
pub run-write_json :
    (realloc : ℕ → Bool) (target : Target)
    → ((n : ℕ) → realloc n ≡ true)
    → ((s : Bytes) → target.write s ≡ length s)
    → (ms : Members) (b : Builder) → Inv b
    → plain_members ms ≡ true
    → 0 < length b.text
    → b.is_mine ≡ true
    → b.obj_ct ≡ 1
    → b.eof ≡ false
    → b.has_target ≡ true
    → output b ≡ codes "{"
    → length b.text + costs (object_calls ms) ≤ buf_max_size
    → (b' : Builder) × (run realloc target (object_calls ms) b ≡ some b')
      × ((write_json target true b').1.sent ≡ json_text (object_tree ms))
      × ((write_json target true b').1.text ≡ [])
      × (write_json target true (write_json target true b').1
          ≡ (none, (write_json target true b').1))
unfolding write_json
run-write_json realloc target plenty takes ms b i plain p mine root open_end live start l =
    let calls = object_calls ms in
    let most = all-TakesMost target takes in
    let (nested, (b', (done, text))) =
      run-json realloc target plenty most ms b i plain p mine root open_end start l in
    let right = run-Builds realloc target most calls b i p (root-AllDigits (to_items ms)) in
    let its = subst (Builds (built_all calls (output b))) done right in
    let still = subst OpenSome done (run-Open realloc target calls b (open_end, live)) in
    let (sent, emptied, ended) = last_write realloc target takes b' (opened_lem still) its.1.1 in
    (b', done, sent ∙ text, emptied, ended)
