-- ===== src/Uout/Writer/Sending.antt =====
-- The closed form of what the writers of uout/so_target_desc.cc send, and `writeln`.
use components_mcu.Prelude.{
  aborted, returns, ltb, ◌<◌, ◌≤◌, ℕ, ◌+◌, Bool, true, false, ◌||◌, some, [], ◌∷◌, ◌++◌,
  append_assoc, Bytes, ◌==◌, ==_refl, if◌then◌else◌, length, Bool-cases, inl, inr, ◌≡◌, refl, sym,
  ap, ◌∙◌, arith,
}
use components_mcu.Uout.Writer.{Fd, crlf, Scan, Written, scan, priv_write, writeln}
use components_mcu.Uout.Writer.Lines.{to_crlf, whole_lines, ends_in_cr, emit, scan-emit}

abbrev pub has_newline : Bytes → Bool
has_newline [] = false
has_newline (c ∷ cs) = (c == b'\n') || has_newline cs

-- What the code sends: a text that ends in '\r' loses what follows its last newline.
unfoldable pub sent_of : Bytes → Bytes
sent_of s = to_crlf (if ends_in_cr s then whole_lines s else s)

or_false : (x y : Bool) → (x || y) ≡ false → (x ≡ false) × (y ≡ false)
or_false x y h = ground arith

ends_in_cr-newline : (kept cs : Bytes) → ends_in_cr (kept ++ b'\n' ∷ cs) ≡ ends_in_cr cs
ends_in_cr-newline [] [] = refl
ends_in_cr-newline [] (c ∷ cs) = refl
ends_in_cr-newline (k ∷ []) cs = ends_in_cr-newline [] cs
ends_in_cr-newline (k ∷ l ∷ kept) cs = ends_in_cr-newline (l ∷ kept) cs

ends_in_cr-concat : (kept : Bytes) (c : ℕ) → ends_in_cr (kept ++ c ∷ []) ≡ (c == b'\r')
ends_in_cr-concat [] c = refl
ends_in_cr-concat (k ∷ []) c = refl
ends_in_cr-concat (k ∷ l ∷ kept) c = ends_in_cr-concat (l ∷ kept) c

to_crlf-append : (a b : Bytes) → to_crlf (a ++ b) ≡ to_crlf a ++ to_crlf b
unfolding to_crlf
to_crlf-append [] b = refl
to_crlf-append (c ∷ a) b = elim (Bool-cases (c == b'\n')) [
  | inl nl ↦ rw (nl, to_crlf-append a b) refl
  | inr other ↦ rw (other, to_crlf-append a b) refl
]

to_crlf_plain : (a : Bytes) → has_newline a ≡ false → to_crlf a ≡ a
unfolding to_crlf
to_crlf_plain [] h = refl
to_crlf_plain (c ∷ a) h =
    let both = or_false (c == b'\n') (has_newline a) h in rw (both.0, to_crlf_plain a both.1) refl

length_nonempty : (a : Bytes) (c : ℕ) (cs : Bytes) → (length (a ++ c ∷ cs) == 0) ≡ false
length_nonempty [] c cs = ground arith
length_nonempty (d ∷ a) c cs = ground arith

whole_lines-newline :
    (kept cs : Bytes)
    → has_newline kept ≡ false
    → whole_lines (kept ++ b'\n' ∷ cs) ≡ kept ++ b'\n' ∷ whole_lines cs
unfolding whole_lines
whole_lines-newline [] cs h = refl
whole_lines-newline (k ∷ kept) cs h =
    let both = or_false (k == b'\n') (has_newline kept) h in
    rw (both.0, whole_lines-newline kept cs both.1, length_nonempty kept b'\n' (whole_lines cs))
      refl

whole_lines_none : (a : Bytes) → has_newline a ≡ false → whole_lines a ≡ []
unfolding whole_lines
whole_lines_none [] h = refl
whole_lines_none (c ∷ a) h =
    let both = or_false (c == b'\n') (has_newline a) h in
    rw (both.0, whole_lines_none a both.1) refl

has_newline-concat :
    (a : Bytes) (c : ℕ)
    → has_newline a ≡ false
    → (c == b'\n') ≡ false
    → has_newline (a ++ c ∷ []) ≡ false
has_newline-concat [] c h p = rw p refl
has_newline-concat (d ∷ a) c h p =
    let both = or_false (d == b'\n') (has_newline a) h in
    rw (both.0, has_newline-concat a c both.1 p) refl

sent_of-newline :
    (kept cs : Bytes)
    → has_newline kept ≡ false
    → sent_of (kept ++ b'\n' ∷ cs) ≡ kept ++ (crlf ++ sent_of cs)
unfolding sent_of to_crlf
sent_of-newline kept cs h =
    let plain = to_crlf_plain kept h in
    elim (Bool-cases (ends_in_cr cs)) [
      | inl cr ↦
          rw
            (
              ends_in_cr-newline kept cs,
              cr,
              whole_lines-newline kept cs h,
              to_crlf-append kept (b'\n' ∷ whole_lines cs),
              plain,
            )
            refl
      | inr fine ↦
          rw (ends_in_cr-newline kept cs, fine, to_crlf-append kept (b'\n' ∷ cs), plain) refl
    ]

newline_sent :
    (kept : Bytes) (c : ℕ) (cs : Bytes)
    → (c == b'\n') ≡ true
    → has_newline kept ≡ false
    → kept ++ (crlf ++ sent_of cs) ≡ sent_of (kept ++ c ∷ cs)
newline_sent kept c cs nl h =
    let e : c ≡ b'\n' = ground arith in
    sym (ap (λ x. sent_of (kept ++ x ∷ cs)) e ∙ sent_of-newline kept cs h)

emit-sent_of :
    (kept : Bytes) (c : ℕ) (cs : Bytes)
    → has_newline kept ≡ false
    → emit kept (c ∷ cs) ≡ sent_of (kept ++ c ∷ cs)
unfolding emit sent_of to_crlf
emit-sent_of kept c [] h = elim (Bool-cases (c == b'\n')) [
  | inl nl ↦ rw nl (newline_sent kept c [] nl h)
  | inr other ↦ elim (Bool-cases (c == b'\r')) [
    | inl cr ↦
        rw
          (
            other,
            cr,
            ends_in_cr-concat kept c,
            cr,
            whole_lines_none (kept ++ c ∷ []) (has_newline-concat kept c h other),
          )
          refl
    | inr plain ↦
        rw
          (
            other,
            plain,
            ends_in_cr-concat kept c,
            plain,
            to_crlf_plain (kept ++ c ∷ []) (has_newline-concat kept c h other),
          )
          refl
  ]
]
emit-sent_of kept c (d ∷ cs) h = elim (Bool-cases (c == b'\n')) [
  | inl nl ↦ rw nl (
      ap (λ x. kept ++ (crlf ++ x)) (emit-sent_of [] d cs refl) ∙ newline_sent kept c (d ∷ cs) nl h)
  | inr other ↦ rw other (elim (Bool-cases (c == b'\r')) [
    | inl cr ↦ rw cr (
        emit-sent_of (kept ++ c ∷ []) d cs (has_newline-concat kept c h other)
        ∙ ap sent_of (append_assoc kept (c ∷ []) (d ∷ cs)))
    | inr plain ↦ rw plain (
        emit-sent_of (kept ++ c ∷ []) d cs (has_newline-concat kept c h other)
        ∙ ap sent_of (append_assoc kept (c ∷ []) (d ∷ cs)))
  ])
]

emit-all : (s : Bytes) → emit [] s ≡ sent_of s
unfolding emit sent_of to_crlf
emit-all [] = refl
emit-all (c ∷ cs) = emit-sent_of [] c cs refl

module _ (os_write : ℕ → Bytes → ℕ) (all : (n : ℕ) (b : Bytes) → os_write n b ≡ length b) where
  -- When every write(2) takes the whole of its bytes: a text whose length is below the bound of the
  -- assertion is sent with each newline as "\r\n", but where it ends in '\r' only what goes up to its
  -- last newline, and `priv_write` returns the length that it was given. Any other text aborts
  -- the program.
  pub priv_write-Sends :
      (limit : ℕ) (s : Bytes) (fd : Fd)
      → (length s < limit
          → (w : Written) × (priv_write os_write limit s fd ≡ returns w)
            × (w.result ≡ some (length s))
            × (w.fd.sent ≡ fd.sent ++ sent_of s))
        × (limit ≤ length s → priv_write os_write limit s fd ≡ aborted)
  unfolding priv_write
  priv_write-Sends limit s fd =
      let start : Scan = record { i = 0; prev_c = 0; last_chunk = 0 } in
      let run = scan-emit os_write all s [] [] s start fd refl refl refl (λ e. ground arith) in
      (
        λ h.
            let fits : ltb (length s) limit ≡ true = ground arith in
            (
              scan os_write s s start fd,
              rw fits refl,
              run.0,
              run.1 ∙ ap (◌++◌ fd.sent) (emit-all s),
            ),
        λ h. let large : ltb (length s) limit ≡ false = ground arith in rw large refl,
      )

  -- When every write(2) takes the whole of its bytes, and the length of the text and of a newline is
  -- below the bound of the assertion, `writeln` sends the text as `priv_write` does and "\r\n" behind
  -- it, and returns the length of the text and its newline.
  pub writeln-Sends :
      (limit : ℕ) (s : Bytes) (fd : Fd)
      → length s < limit
      → 1 < limit
      → (w : Written) × (writeln os_write limit s fd ≡ returns w)
        × (w.result ≡ some (length s + 1))
        × (w.fd.sent ≡ fd.sent ++ (sent_of s ++ crlf))
  unfolding writeln sent_of to_crlf
  writeln-Sends limit s fd h one =
      let (first, ran, result, text) = (priv_write-Sends limit s fd).0 h in
      let (second, again, result', newline) =
        (priv_write-Sends limit (b'\n' ∷ []) first.fd).0 one in
      (
        record { result = some (length s + 1); fd = second.fd },
        rw (ran, result, ==_refl (length s), again, result') refl,
        refl,
        newline ∙ ap (λ b. b ++ crlf) text ∙ append_assoc fd.sent (sent_of s) crlf,
      )
