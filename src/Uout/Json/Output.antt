-- ===== src/Uout/Json/Output.antt =====
-- A sequence of calls of uout/status_json.cc that succeeds builds the text that was meant.
use components_mcu.Prelude.{
  ℕ, ◌+◌, ◌≤◌, ◌<◌, Bool, true, false, not, Option, none, some, List, [], ◌∷◌, ◌++◌, append_assoc,
  Bytes, codes, ◌==◌, length, length-append, Bool-cases, inl, inr, ◌≡◌, refl, sym, ap, ◌∙◌, subst,
  arith,
}
use components_mcu.Uout.Json.{
  Target, Builder, strip_comma, required_size, not_enough_buffer, add, close, add_object, add_array,
  close_object, close_array, close_root_object, add_key, add_value_s, add_value_d,
  add_key_value_pair_s, add_key_value_pair_d, put_kv_bool,
}
use components_mcu.Uout.Json.Steps.{
  Step, begin_object, begin_array, end_object, end_array, end_root, key, value_s, value_d, pair_s,
  pair_d, pair_bool, succeeded, quote, label, built, built_all, HasDigits, AllDigits, perform, run,
  next,
}
use components_mcu.Uout.Json.Buffer.{TakesMost, Inv, output, not_enough_buffer-Grown}

pub strip_comma-append :
    (s : Bytes) (c : ℕ) (t : Bytes) → strip_comma (s ++ c ∷ t) ≡ s ++ strip_comma (c ∷ t)
strip_comma-append [] c t = refl
strip_comma-append (d ∷ []) c t = refl
strip_comma-append (d ∷ e ∷ s) c t = ap (◌∷◌ d) (strip_comma-append (e ∷ s) c t)

pub strip_comma_nonempty : (s t : Bytes) → 0 < length t → strip_comma (s ++ t) ≡ s ++ strip_comma t
strip_comma_nonempty s [] h = absurd (omega (arith, h))
strip_comma_nonempty s (c ∷ t) h = strip_comma-append s c t

pub length-strip_comma : (t : Bytes) → length (strip_comma t) ≤ length t
length-strip_comma [] = omega arith
length-strip_comma (c ∷ []) = elim (Bool-cases (c == b',')) [
  | inl comma ↦ rw comma (omega arith)
  | inr other ↦ rw other (omega arith)
]
length-strip_comma (c ∷ d ∷ t) = omega (arith, length-strip_comma (d ∷ t))

-- A step either fails, or leaves a good builder with the text that was meant.
abbrev pub Builds : Bytes → Option Builder → Type 0
Builds t none = 0 ≤ length t
Builds t (some b) = (output b ≡ t) × (Inv b × (0 < length b.text))

module _ (realloc : ℕ → Bool) (target : Target) (most : TakesMost target) where
  add-Builds :
      (k : Bytes) (val : Option Bytes) (piece : Bytes) (ct : ℕ) (b : Builder)
      → Inv b
      → 0 < length piece
      → length piece < required_size k val
      → Builds (output b ++ piece) (succeeded (add realloc target k val piece ct b))
  unfolding add
  add-Builds k val piece ct b i p l =
      let r = not_enough_buffer realloc target k val b in
      let grown = not_enough_buffer-Grown realloc target most k val b i in
      elim (Bool-cases r.0) [
        | inl full ↦ rw full (omega arith)
        | inr room ↦
            let fits = grown.1.1 (ap not room) in
            rw room (
              sym (append_assoc r.1.sent r.1.text piece) ∙ ap (λ t. t ++ piece) grown.0.0,
              (
                inl (omega (arith, length-append r.1.text piece, fits, l)),
                omega (arith, length-append r.1.text piece, p),
              ),
            )
      ]

  close-Builds :
      (piece : Bytes) (b : Builder)
      → Inv b
      → 0 < length b.text
      → 0 < length piece
      → length piece < 20
      → Builds (strip_comma (output b) ++ piece) (close realloc target piece b)
  unfolding close
  close-Builds piece b i h p l =
      let r = not_enough_buffer realloc target [] none b in
      let grown = not_enough_buffer-Grown realloc target most [] none b i in
      elim (Bool-cases r.0) [
        | inl full ↦ rw full (omega arith)
        | inr room ↦
            let fits = grown.1.1 (ap not room) in
            let shorter = length-strip_comma r.1.text in
            rw room (
              sym (append_assoc r.1.sent (strip_comma r.1.text) piece)
                  ∙ ap (λ t. t ++ piece)
                      (sym (strip_comma_nonempty r.1.sent r.1.text (grown.0.1.0 h))
                        ∙ ap strip_comma grown.0.0),
              (
                inl (omega (arith, length-append (strip_comma r.1.text) piece, fits, l, shorter)),
                omega (arith, length-append (strip_comma r.1.text) piece, p),
              ),
            )
      ]

  as_text :
      (t piece piece' : Bytes) (o : Option Builder)
      → piece ≡ piece'
      → Builds (t ++ piece) o
      → Builds (t ++ piece') o
  as_text t piece piece' o e h = subst (λ x. Builds (t ++ x) o) e h

  perform-Builds :
      (s : Step) (b : Builder)
      → Inv b
      → 0 < length b.text
      → HasDigits s
      → Builds (built s (output b)) (perform realloc target s b)
  unfolding perform built add_object add_array close_object close_array close_root_object add_key
      add_value_s add_value_d add_key_value_pair_s add_key_value_pair_d put_kv_bool
  perform-Builds (begin_object none) b i h d =
      add-Builds [] none (codes "{") (b.obj_ct + 1) b i (omega arith) (omega arith)
  perform-Builds (begin_object (some k)) b i h d =
      as_text (output b) (b'"' ∷ (k ++ codes "\":{")) (label (some k) ++ codes "{") _
        (simp append_assoc)
        (add-Builds k none (b'"' ∷ (k ++ codes "\":{")) (b.obj_ct + 1) b i (omega arith)
          (omega (arith, length-append k (codes "\":{"))))
  perform-Builds (begin_array none) b i h d =
      add-Builds [] none (codes "[") (b.obj_ct + 1) b i (omega arith) (omega arith)
  perform-Builds (begin_array (some k)) b i h d =
      as_text (output b) (b'"' ∷ (k ++ codes "\":[")) (label (some k) ++ codes "[") _
        (simp append_assoc)
        (add-Builds k none (b'"' ∷ (k ++ codes "\":[")) (b.obj_ct + 1) b i (omega arith)
          (omega (arith, length-append k (codes "\":["))))
  perform-Builds end_object b i h d = close-Builds (codes "},") b i h (omega arith) (omega arith)
  perform-Builds end_array b i h d = close-Builds (codes "],") b i h (omega arith) (omega arith)
  perform-Builds end_root b i h d = close-Builds (codes "}") b i h (omega arith) (omega arith)
  perform-Builds (key k) b i h d =
      as_text (output b) (b'"' ∷ (k ++ codes "\":")) (label (some k)) _ (simp append_assoc) (
        add-Builds k none (b'"' ∷ (k ++ codes "\":")) b.obj_ct b i (omega arith)
          (omega (arith, length-append k (codes "\":"))))
  perform-Builds (value_s v) b i h d =
      as_text (output b) (b'"' ∷ (v ++ codes "\",")) (quote v ++ codes ",") _ (simp append_assoc) (
        add-Builds (codes "---") (some v) (b'"' ∷ (v ++ codes "\",")) b.obj_ct b i (omega arith)
          (omega (arith, length-append v (codes "\","))))
  perform-Builds (value_d w) b i h d =
      add-Builds [] (some w) (codes ",") b.obj_ct b i (omega arith) (omega arith)
  perform-Builds (pair_s k v) b i h d =
      let piece = b'"' ∷ (k ++ (codes "\":\"" ++ (v ++ codes "\","))) in
      as_text (output b) piece (label (some k) ++ (quote v ++ codes ",")) _ (simp append_assoc) (
        add-Builds k (some v) piece b.obj_ct b i (omega arith) (
          omega (
            arith,
            length-append k (codes "\":\"" ++ (v ++ codes "\",")),
            length-append v (codes "\","),
          )))
  perform-Builds (pair_d k w) b i h d =
      let piece = b'"' ∷ (k ++ (codes "\":" ++ (w ++ codes ","))) in
      as_text (output b) piece (label (some k) ++ (w ++ codes ",")) _ (simp append_assoc) (
        add-Builds k none piece b.obj_ct b i (omega arith) (
          omega (
            arith,
            d,
            length-append k (codes "\":" ++ (w ++ codes ",")),
            length-append w (codes ","),
          )))
  perform-Builds (pair_bool k true) b i h d =
      as_text (output b) (b'"' ∷ (k ++ codes "\":true,")) (label (some k) ++ codes "true,") _
        (simp append_assoc)
        (add-Builds k none (b'"' ∷ (k ++ codes "\":true,")) b.obj_ct b i (omega arith)
          (omega (arith, length-append k (codes "\":true,"))))
  perform-Builds (pair_bool k false) b i h d =
      as_text (output b) (b'"' ∷ (k ++ codes "\":false,")) (label (some k) ++ codes "false,") _
        (simp append_assoc)
        (add-Builds k none (b'"' ∷ (k ++ codes "\":false,")) b.obj_ct b i (omega arith)
          (omega (arith, length-append k (codes "\":false,"))))

  next-Builds :
      (t : Bytes) (o : Option Builder) (f : Builder → Option Builder) (u : Bytes)
      → Builds t o
      → ((b : Builder) → output b ≡ t → Inv b → 0 < length b.text → Builds u (f b))
      → Builds u (next f o)
  next-Builds t none f u h g = omega arith
  next-Builds t (some b) f u h g = g b h.0 h.1.0 h.1.1

  -- When the writer takes no more bytes than it is given, and each number has at most 11 digits, a
  -- sequence of calls on a builder that has a text fails, or leaves a text that fits the buffer with
  -- its NUL, and what is sent and that text together are what the calls mean, as if nothing had
  -- been sent early.
  pub run-Builds :
      (ss : List Step) (b : Builder)
      → Inv b
      → 0 < length b.text
      → AllDigits ss
      → Builds (built_all ss (output b)) (run realloc target ss b)
  unfolding run built_all
  run-Builds [] b i h d = (refl, (i, h))
  run-Builds (s ∷ ss) b i h d =
      next-Builds (built s (output b)) (perform realloc target s b) (run realloc target ss)
        (built_all ss (built s (output b))) (perform-Builds s b i h d.0)
        (λ c e j k.
          subst (λ t. Builds (built_all ss t) (run realloc target ss c)) e
            (run-Builds ss c j k d.1))
