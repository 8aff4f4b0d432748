-- ===== src/Uout/Callbacks/Quoting.antt =====
-- `quote_string` of uout/callbacks.cc, which makes a log message fit a JSON string.
use components_mcu.Prelude.{
  ℕ, ◌+◌, ◌*◌, ◌≤◌, Bool, true, not, ◌&&◌, [], ◌∷◌, ◌++◌, append-nil, append_assoc, Bytes, ◌==◌,
  if◌then◌else◌, length, Bool-cases, inl, inr, ◌≡◌, ◌≢◌, refl, ap, ◌∙◌, arith,
}
use components_mcu.Uout.Callbacks.{quote_string}

-- What a JSON reader takes for the content of a string: up to the first quote that no backslash
-- stands before. The pairs after a backslash are kept as they are.
pub json_string : Bytes → Bytes × Bytes
json_string [] = ([], [])
json_string (c ∷ []) = if c == b'"' then ([], []) else (c ∷ [], [])
json_string (c ∷ d ∷ cs) =
    let plain = json_string (d ∷ cs) in
    let escaped = json_string cs in
    if c == b'"'
    then ([], d ∷ cs)
    else if c == b'\\'
    then (d ∷ escaped.0, escaped.1)
    else (c ∷ plain.0, plain.1)

abbrev pub no_backslash : Bytes → Bool
no_backslash [] = true
no_backslash (c ∷ cs) = not (c == b'\\') && no_backslash cs

json_plain :
    (c : ℕ) (m : Bytes)
    → c ≢ b'"'
    → c ≢ b'\\'
    → json_string (c ∷ m) ≡ (c ∷ (json_string m).0, (json_string m).1)
unfolding json_string
json_plain c [] q b = ground arith
json_plain c (d ∷ m) q b = ground arith

json_escaped_quote :
    (m : Bytes) → json_string (b'\\' ∷ b'"' ∷ m) ≡ (b'"' ∷ (json_string m).0, (json_string m).1)
unfolding json_string
json_escaped_quote m = refl

json_close : (m : Bytes) → json_string (b'"' ∷ m) ≡ ([], m)
unfolding json_string
json_close [] = refl
json_close (d ∷ m) = refl

json_string-quote :
    (t r : Bytes)
    → no_backslash t ≡ true
    → json_string (quote_string t ++ r) ≡ (t ++ (json_string r).0, (json_string r).1)
unfolding quote_string
json_string-quote [] r h = refl
json_string-quote (c ∷ t) r h =
    let rest = json_string-quote t r (ground arith) in
    elim (Bool-cases (c == b'"')) [
      | inl q ↦
          let e : c ≡ b'"' = ground arith in
          rw e (
            json_escaped_quote (quote_string t ++ r)
            ∙ ap (λ (x : Bytes × Bytes). (b'"' ∷ x.0, x.1)) rest)
      | inr p ↦ rw p (
          json_plain c (quote_string t ++ r) (ground arith) (ground arith)
          ∙ ap (λ (x : Bytes × Bytes). (c ∷ x.0, x.1)) rest)
    ]

-- A text without backslashes that is quoted and put between double quotes is read back whole, and
-- the reader stops at the closing quote.
pub json_string-quote_string :
    (t rest : Bytes)
    → no_backslash t ≡ true
    → json_string (quote_string t ++ b'"' ∷ rest) ≡ (t, rest)
json_string-quote_string t rest h =
    json_string-quote t (b'"' ∷ rest) h ∙ rw (json_close rest, append-nil)

quote_string-concat :
    (t : Bytes) (c : ℕ) → c ≢ b'"' → quote_string (t ++ c ∷ []) ≡ quote_string t ++ c ∷ []
unfolding quote_string
quote_string-concat [] c h = ground arith
quote_string-concat (d ∷ t) c h = ground (arith, quote_string-concat t c h)

-- A message that ends in a backslash, with no other in it, runs over the closing quote: the reader
-- takes that quote and what follows for more of the text.
pub json_string_overrun :
    (t rest : Bytes)
    → no_backslash t ≡ true
    → json_string (quote_string (t ++ b'\\' ∷ []) ++ b'"' ∷ rest)
      ≡ (t ++ b'"' ∷ (json_string rest).0, (json_string rest).1)
json_string_overrun t rest h =
    rw (quote_string-concat t b'\\' (omega arith), append_assoc)
      (json_string-quote t (b'\\' ∷ b'"' ∷ rest) h ∙ rw (json_escaped_quote rest))

-- The quoted text with its end fits the array of `strlen(txt) * 2 + 1` bytes.
pub length-quote_string : (t : Bytes) → length (quote_string t) + 1 ≤ length t * 2 + 1
unfolding quote_string
length-quote_string [] = omega arith
length-quote_string (c ∷ t) = ground (arith, length-quote_string t)
