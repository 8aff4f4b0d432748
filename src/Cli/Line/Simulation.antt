-- ===== src/Cli/Line/Simulation.antt =====
-- The buffer of cli/cmdline_get.cc holds the text of the editor, with no access out of range.
use components_mcu.Prelude.{
  ℕ, zero, suc, ◌+◌, ◌-◌, ◌%◌, ◌≤◌, ◌<◌, Bool, true, false, not, ◌&&◌, ◌||◌, List, [], ◌∷◌, ◌++◌,
  Bytes, ◌==◌, if◌then◌else◌, add32, sub32, u32_mod, get_or, take, init, length, length-set,
  take-set_end, take-set_above, take-suc, init-concat, get_or-set_self, c_str, Bool-cases, inl, inr,
  ◌≡◌, ◌≢◌, refl, sym, ap, ◌∙◌, arith,
}
use components_mcu.Cli.Line.{
  CliBuf, Status, done, error, incomplete, line_buf_full, Outcome, again, returned, is_full,
  is_terminator, erase_last, count_quote, store, finish, accept_counted, accept, read,
  cli_get_commandline,
}
use components_mcu.Cli.Line.Editor.{
  count, count-concat, count-take-le, Edited, pending, entered, edit_char, Edit, waiting, line,
  edit,
}

-- The buffer holds text `t`, with room for one more character or the end.
pub record Holds (b : CliBuf) (t : Bytes) : Type 0 where
  pub length_buf : length b.buf ≡ b.buf_size
  pub size_fits : b.buf_size < u32_mod
  pub room : b.buf_idx < b.buf_size
  pub text : take b.buf_idx b.buf ≡ t
  pub quotes : b.quote_count ≡ count b'"' t

pub Holds-reset :
    (b : CliBuf) (t : Bytes) → Holds b t → Holds (record b { buf_idx = 0; quote_count = 0 }) []
Holds-reset b t h = ground arith

pub quotes-lt :
    {b : CliBuf} {t : Bytes} → Holds b t → (b.quote_count < u32_mod) × (b.quote_count ≤ b.buf_idx)
quotes-lt {b} {t} h =
    let le : count b'"' t ≤ b.buf_idx = rw (← h.text) (count-take-le b'"' b.buf_idx b.buf) in
    omega (arith, h, le)

erase_text :
    (m : Bytes) (i : ℕ)
    → i ≢ 0
    → i < length m
    → take i m ≡ take (i - 1) m ++ get_or m (i - 1) 0 ∷ []
erase_text m zero h k = absurd (h refl)
erase_text m (suc i) h k =
    let e : suc i - 1 ≡ i = omega arith in rw e (take-suc m i 0 (omega arith))

-- A backspace takes the last character away.
module _ (b : CliBuf) (t : Bytes) (h : Holds b t) (ne : b.buf_idx ≢ 0) where
  last : ℕ
  last = get_or b.buf (b.buf_idx - 1) 0

  text_split : t ≡ take (b.buf_idx - 1) b.buf ++ last ∷ []
  unfolding last
  text_split = sym h.text ∙ erase_text b.buf b.buf_idx ne (omega arith)

  index : sub32 b.buf_idx 1 ≡ b.buf_idx - 1
  index = omega arith

  kept : take (b.buf_idx - 1) b.buf ≡ init t
  kept = sym (init-concat (take (b.buf_idx - 1) b.buf) last) ∙ ap init (sym text_split)

  erase_last-Holds : Holds (erase_last b) (init t)
  unfolding erase_last last
  erase_last-Holds = rw index (record {
    length_buf = h.length_buf;
    size_fits = h.size_fits;
    room = omega arith;
    text = kept;
    quotes = ground (
      arith,
      kept,
      ap (count b'"') text_split,
      count-concat b'"' (take (b.buf_idx - 1) b.buf) last,
      quotes-lt h,
    );
  })

store-Holds :
    (b : CliBuf) (t : Bytes) (c : ℕ)
    → Holds b t
    → is_full b ≡ false
    → c < 256
    → Holds (store (count_quote b c) c) (t ++ c ∷ [])
unfolding store count_quote
store-Holds b t c h room byte =
    let e : c % 256 ≡ c = omega arith in
    let i : add32 b.buf_idx 1 ≡ suc b.buf_idx = omega arith in
    rw (e, i)
      (record {
        length_buf = length-set b.buf b.buf_idx c ∙ h.length_buf;
        size_fits = h.size_fits;
        room = ground arith;
        text = take-set_end b.buf b.buf_idx c (omega arith) ∙ ap (λ x. x ++ c ∷ []) h.text;
        quotes = ground (arith, quotes-lt h, count-concat b'"' t c);
      })

c_str-take : (m : Bytes) (n : ℕ) → get_or m n 0 ≡ 0 → c_str m ≡ c_str (take n m)
c_str-take [] zero h = refl
c_str-take [] (suc n) h = refl
c_str-take (c ∷ m) zero h = ground arith
c_str-take (c ∷ m) (suc n) h = ground (arith, c_str-take m n h)

-- After the end of a line the buffer is empty again, and its bytes are the line as a C string.
pub record Ended (b : CliBuf) (l : Bytes) : Type 0 where
  pub emptied : Holds b []
  pub c_string : c_str b.buf ≡ c_str l

finish-Ended : (b : CliBuf) (t : Bytes) → Holds b t → Ended (finish b) t
unfolding finish
finish-Ended b t h = record {
  emptied = record {
    length_buf = length-set b.buf b.buf_idx 0 ∙ h.length_buf;
    size_fits = h.size_fits;
    room = omega arith;
    text = refl;
    quotes = refl;
  };
  c_string =
      c_str-take _ b.buf_idx (get_or-set_self b.buf b.buf_idx 0 0 (omega arith))
      ∙ ap c_str (take-set_above b.buf b.buf_idx b.buf_idx 0 (omega arith) ∙ h.text);
}

abbrev Follows : Outcome → Edited → Type 0
Follows (again err b) (pending t) = (err ≡ false) × Holds b t
Follows (returned s b) (entered l) = (s ≡ done) × Ended b l
Follows _ _ = ⊥

backspace-Follows :
    (b : CliBuf) (t : Bytes)
    → Holds b t
    → Follows (again false (if b.buf_idx == 0 then b else erase_last b)) (pending (init t))
backspace-Follows b t h = elim (Bool-cases (b.buf_idx == 0)) [
  | inl e ↦
      let zero_idx : b.buf_idx ≡ 0 = ground arith in
      let empty : t ≡ [] = sym h.text ∙ ap (λ n. take n b.buf) zero_idx in
      rw (e, empty) (refl, rw empty at h)
  | inr e ↦ rw e (refl, erase_last-Holds b t h (ground arith))
]

terminator_no_quote :
    (allow_lf : Bool) (c : ℕ) → is_terminator allow_lf c ≡ true → (c == b'"') ≡ false
terminator_no_quote allow_lf c h = ground arith

count_quote_plain : (b : CliBuf) (c : ℕ) → (c == b'"') ≡ false → count_quote b c ≡ b
unfolding count_quote
count_quote_plain b c e = rw e

and_false : (x : Bool) → (x && false) ≡ false
and_false true = refl
and_false false = refl

-- A terminator ends the line outside of quotes, and any other character is stored.
counted-Follows :
    (allow_lf : Bool) (b : CliBuf) (t : Bytes) (c : ℕ)
    → Holds b t
    → is_full b ≡ false
    → c < 256
    → Follows (accept_counted allow_lf false (count_quote b c) c) (
        if (count b'"' t % 2 == 0) && is_terminator allow_lf c
        then entered t
        else pending (t ++ c ∷ []))
unfolding accept_counted
counted-Follows allow_lf b t c h room byte = elim (Bool-cases (is_terminator allow_lf c)) [
  | inl term ↦
      let plain = count_quote_plain b c (terminator_no_quote allow_lf c term) in
      elim (Bool-cases (count b'"' t % 2 == 0)) [
        | inl even ↦
            let even' : (b.quote_count % 2 == 0) ≡ true = rw h.quotes even in
            rw (plain, even', even, term) (refl, finish-Ended b t h)
        | inr odd ↦
            let odd' : (b.quote_count % 2 == 0) ≡ false = rw h.quotes odd in
            let kept = rw plain at (store-Holds b t c h room byte) in
            rw (plain, odd', odd) (refl, kept)
      ]
  | inr other ↦
      let stored = store-Holds b t c h room byte in
      rw
        (
          other,
          and_false ((count_quote b c).quote_count % 2 == 0),
          and_false (count b'"' t % 2 == 0),
        )
        (refl, stored)
]

accept-Follows :
    (allow_lf : Bool) (b : CliBuf) (t : Bytes) (c : ℕ)
    → Holds b t
    → is_full b ≡ false
    → c < 256
    → Follows (accept allow_lf false b c) (edit_char allow_lf t c)
unfolding accept edit_char
accept-Follows allow_lf b t c h room byte =
    elim (Bool-cases (not allow_lf && (c == b'\r' || c == b'\n'))) [
      | inl newline ↦ rw newline (refl, Holds-reset b t h)
      | inr other ↦ elim (Bool-cases (c == 8)) [
        | inl back ↦ rw (other, back) (backspace-Follows b t h)
        | inr plain ↦ rw (other, plain) (counted-Follows allow_lf b t c h room byte)
      ]
    ]

-- A round moves the end of the text by one character at most.
abbrev Moves : ℕ → Outcome → Type 0
Moves n (again err b) = b.buf_idx ≤ n + 1
Moves n (returned s b) = Unit {0}

accept-Moves :
    (allow_lf err : Bool) (b : CliBuf) (c : ℕ)
    → b.buf_idx < u32_mod
    → Moves b.buf_idx (accept allow_lf err b c)
unfolding accept
accept-Moves allow_lf err b c h = ground arith

abbrev pub AllBytes : List ℕ → Type 0
AllBytes [] = Unit {0}
AllBytes (c ∷ cs) = (c < 256) × AllBytes cs

-- What the reader returns, against the editor on the same input. With a full buffer it has read
-- some input, less than `n` is left, and buffer and input together are no more than `m`.
abbrev pub Reads : Bool → Edit → ℕ → ℕ → Status → CliBuf → List ℕ → Type 0
Reads allow_lf e n m done b rest = (l : Bytes) × (e ≡ line l rest) × Ended b l
Reads allow_lf e n m incomplete b rest = (t : Bytes) × (e ≡ waiting t) × Holds b t × (rest ≡ [])
Reads allow_lf e n m line_buf_full b rest =
    (t : Bytes) × (e ≡ edit allow_lf t rest)
    × Holds b t
    × (is_full b ≡ true)
    × AllBytes rest
    × (length rest < n)
    × (b.buf_idx + length rest ≤ m)
Reads allow_lf e n m error b rest = ⊥

module _ (allow_lf : Bool) where
  abbrev ReadsAll : Edit → ℕ → ℕ → Status × CliBuf × List ℕ → Type 0
  ReadsAll e n m (s, b, rest) = Reads allow_lf e n m s b rest

  round-Reads :
      (o : Outcome) (e : Edited) (cs : List ℕ) (i n m : ℕ)
      → Follows o e
      → Moves i o
      → AllBytes cs
      → length cs < n
      → i + suc (length cs) ≤ m
      → ((b : CliBuf) (t : Bytes)
          → Holds b t
          → is_full b ≡ false
          → b.buf_idx + length cs ≤ m
          → ReadsAll (edit allow_lf t cs) n m (read allow_lf false b cs))
      → ReadsAll
          (elim e [ pending t ↦ edit allow_lf t cs | entered l ↦ line l cs ])
          n
          m
          (elim o [
            | returned s b ↦ (s, b, cs)
            | again err b ↦ elim (is_full b) [
              | true ↦ (line_buf_full, b, cs)
              | false ↦ read allow_lf err b cs
            ]
          ])
  round-Reads (again err b) (pending t) cs i n m (e, h) mv bytes len sum rec =
      elim (Bool-cases (is_full b)) [
        | inl full ↦ rw full (t, refl, h, full, bytes, len, omega arith)
        | inr free ↦ rw (free, e) (rec b t h free (omega arith))
      ]
  round-Reads (again err b) (entered l) cs i n m f mv bytes len sum rec = absurd f
  round-Reads (returned s b) (pending t) cs i n m f mv bytes len sum rec = absurd f
  round-Reads (returned s b) (entered l) cs i n m (e, h) mv bytes len sum rec = rw e (l, refl, h)

  read-Reads :
      (cs : List ℕ) (b : CliBuf) (t : Bytes) (n m : ℕ)
      → Holds b t
      → is_full b ≡ false
      → AllBytes cs
      → length cs ≤ n
      → b.buf_idx + length cs ≤ m
      → ReadsAll (edit allow_lf t cs) n m (read allow_lf false b cs)
  unfolding read edit
  read-Reads [] b t n m h room bytes len sum = (t, refl, h, refl)
  read-Reads (c ∷ cs) b t n m h room bytes len sum =
      round-Reads (accept allow_lf false b c) (edit_char allow_lf t c) cs b.buf_idx n m
        (accept-Follows allow_lf b t c h room bytes.0)
        (accept-Moves allow_lf false b c (omega arith)) bytes.1 len sum
        (λ b' t' h' free sum'. read-Reads cs b' t' n m h' free bytes.1 (omega arith) sum')

  -- Called on a full buffer, the reader asks for a larger one and reads nothing.
  pub reader_full :
      (b : CliBuf) (cs : List ℕ)
      → is_full b ≡ true
      → cli_get_commandline allow_lf b cs ≡ (line_buf_full, b, cs)
  unfolding cli_get_commandline
  reader_full b cs full = rw full

  pub reader-Reads :
      (b : CliBuf) (t : Bytes) (cs : List ℕ)
      → Holds b t
      → is_full b ≡ false
      → AllBytes cs
      → ReadsAll
          (edit allow_lf t cs)
          (length cs)
          (b.buf_idx + length cs)
          (cli_get_commandline allow_lf b cs)
  unfolding cli_get_commandline
  reader-Reads b t cs h free bytes =
      rw free (read-Reads cs b t (length cs) _ h free bytes (omega arith) (omega arith))
