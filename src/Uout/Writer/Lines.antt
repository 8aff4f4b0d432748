-- ===== src/Uout/Writer/Lines.antt =====
-- What `priv_write` of uout/so_target_desc.cc sends, when write(2) takes all that it is given.
use components_mcu.Prelude.{
  ℕ, suc, ◌+◌, ◌-◌, Bool, true, false, ◌&&◌, not, some, [], ◌∷◌, ◌++◌, append-nil, append_assoc,
  Bytes, ltb, ◌==◌, if◌then◌else◌, take, drop, length, length-append, Bool-cases, inl, inr, ◌≡◌,
  ◌≢◌, refl, sym, ap, ◌∙◌, arith,
}
use components_mcu.Uout.Writer.{Fd, crlf, Scan, put, put_chunk, scan}

-- Every newline becomes a carriage return and a newline.
unfoldable pub to_crlf : Bytes → Bytes
to_crlf [] = []
to_crlf (c ∷ cs) = if c == b'\n' then b'\r' ∷ b'\n' ∷ to_crlf cs else c ∷ to_crlf cs

-- The text up to its last newline and with it.
unfoldable pub whole_lines : Bytes → Bytes
whole_lines [] = []
whole_lines (c ∷ cs) =
    let rest = whole_lines cs in
    if c == b'\n' then c ∷ rest else (if length rest == 0 then [] else c ∷ rest)

abbrev pub ends_in_cr : Bytes → Bool
ends_in_cr [] = false
ends_in_cr (c ∷ []) = c == b'\r'
ends_in_cr (c ∷ d ∷ cs) = ends_in_cr (d ∷ cs)

abbrev pub is_empty : Bytes → Bool
is_empty [] = true
is_empty (c ∷ cs) = false

-- What is sent of a text of which `kept` is read and not sent.
unfoldable pub emit : Bytes → Bytes → Bytes
emit kept [] = []
emit kept (c ∷ cs) =
    let line = emit [] cs in
    let next = emit (kept ++ c ∷ []) cs in
    if c == b'\n'
    then kept ++ (crlf ++ line)
    else if not (c == b'\r') && is_empty cs
    then kept ++ c ∷ []
    else next

is_empty-eq-length : (cs : Bytes) (i n : ℕ) → n ≡ i + length cs → (i == n) ≡ is_empty cs
is_empty-eq-length [] i n h = ground arith
is_empty-eq-length (c ∷ cs) i n h = ground arith

next_start :
    (before kept cs : Bytes) (c : ℕ)
    → before ++ (kept ++ c ∷ cs) ≡ ((before ++ kept) ++ c ∷ []) ++ cs
next_start before kept cs c = simp append_assoc

regroup : (a k r : Bytes) → ((a ++ k) ++ crlf) ++ r ≡ a ++ (k ++ (crlf ++ r))
regroup a k r = simp append_assoc

module _ (os_write : ℕ → Bytes → ℕ) (all : (n : ℕ) (b : Bytes) → os_write n b ≡ length b) where
  take-all : (b : Bytes) → take (length b) b ≡ b
  take-all [] = refl
  take-all (c ∷ b) = ap (◌∷◌ c) (take-all b)

  take-all_append : (b r : Bytes) → take (length b) (b ++ r) ≡ b
  take-all_append [] r = refl
  take-all_append (c ∷ b) r = ap (◌∷◌ c) (take-all_append b r)

  drop-all_append : (b r : Bytes) → drop (length b) (b ++ r) ≡ r
  drop-all_append [] r = refl
  drop-all_append (c ∷ b) r = drop-all_append b r

  positive : (b : Bytes) → ltb 0 (suc (length b)) ≡ true
  positive b = ground arith

  put_all :
      (b : Bytes) (fd : Fd)
      → b ≢ []
      → put os_write b fd ≡ (false, record { sent = fd.sent ++ b; calls = fd.calls + 1 })
  unfolding put
  put_all [] fd ne = absurd (ne refl)
  put_all (c ∷ b) fd ne = rw (all fd.calls (c ∷ b), take-all b) (ground arith)

  -- A chunk that is not empty is sent whole.
  put_chunk_all :
      (s before chunk rest : Bytes) (last n : ℕ) (fd : Fd)
      → s ≡ before ++ (chunk ++ rest)
      → last ≡ length before
      → n ≡ length chunk
      → ((put_chunk os_write s last n fd).0 ≡ false)
        × ((put_chunk os_write s last n fd).1.sent ≡ fd.sent ++ chunk)
  unfolding put_chunk
  put_chunk_all s before [] rest last n fd e l m = rw (m, append-nil) (refl, refl)
  put_chunk_all s before (c ∷ chunk) rest last n fd e l m =
      let sent = put_all (c ∷ chunk) fd (λ q. cc) in
      rw
        (
          m,
          l,
          e,
          positive chunk,
          drop-all_append before ((c ∷ chunk) ++ rest),
          take-all_append chunk rest,
          sent,
        )
        (refl, refl)

  -- The state of the scan: `before` is done with, `kept` is read and `rest` is not.
  pub scan-emit :
      (s before kept rest : Bytes) (v : Scan) (fd : Fd)
      → s ≡ before ++ (kept ++ rest)
      → v.last_chunk ≡ length before
      → v.i ≡ length before + length kept
      → v.prev_c ≢ b'\r'
      → ((scan os_write s rest v fd).result ≡ some (length s))
        × ((scan os_write s rest v fd).fd.sent ≡ fd.sent ++ emit kept rest)
  unfolding scan emit
  scan-emit s before kept [] v fd e l m p = (refl, rw append-nil)
  scan-emit s before kept (c ∷ cs) v fd e l m p =
      let size : length s ≡ v.i + 1 + length cs =
        omega (
          arith,
          ap length e,
          length-append before (kept ++ c ∷ cs),
          length-append kept (c ∷ cs),
        ) in
      let end = is_empty-eq-length cs (v.i + 1) (length s) size in
      let noprev : (v.prev_c == b'\r') ≡ false = ground arith in
      let longer : s ≡ before ++ ((kept ++ c ∷ []) ++ cs) =
        e ∙ ap (◌++◌ before) (sym (append_assoc kept (c ∷ []) cs)) in
      let lengths = length-append kept (c ∷ []) in
      let go_on =
        λ (w : Scan) (wl : w.last_chunk ≡ length before) (wi : w.i ≡ v.i + 1)
            (wp : w.prev_c ≢ b'\r').
          scan-emit s before (kept ++ c ∷ []) cs w fd longer wl (omega (arith, wi, lengths)) wp in
      elim (Bool-cases (c == b'\r')) [
        | inl cr ↦
            let no_nl : (c == b'\n') ≡ false = ground arith in
            rw (cr, no_nl) (go_on (record v { i = v.i + 1 }) l refl p)
        | inr other ↦ elim (Bool-cases (c == b'\n')) [
          | inl nl ↦
              let line =
                put_chunk_all s before kept (c ∷ cs) v.last_chunk (v.i - v.last_chunk) fd e l
                  (omega arith) in
              let first = (put_chunk os_write s v.last_chunk (v.i - v.last_chunk) fd).1 in
              let ended = put_all crlf first (λ q. cc) in
              let fine : (put os_write crlf first).0 ≡ false = ap (λ (x : Bool × Fd). x.0) ended in
              let w : Scan = record { i = v.i + 1; prev_c = c; last_chunk = v.i + 1 } in
              let ih =
                scan-emit s ((before ++ kept) ++ c ∷ []) [] cs w (put os_write crlf first).1
                  (e ∙ next_start before kept cs c)
                  (omega
                    (arith, length-append (before ++ kept) (c ∷ []), length-append before kept))
                  (omega
                    (arith, length-append (before ++ kept) (c ∷ []), length-append before kept))
                  (ground arith) in
              let bytes =
                ap (λ (x : Bool × Fd). x.1.sent ++ emit [] cs) ended
                ∙ ap (λ x. (x ++ crlf) ++ emit [] cs) line.1
                ∙ regroup fd.sent kept (emit [] cs) in
              rw (other, nl, noprev, line.0, fine) (ih.0, ih.1 ∙ bytes)
          | inr plain ↦ elim (Bool-cases (is_empty cs)) [
            | inl over ↦
                let last =
                  put_chunk_all s before (kept ++ c ∷ []) cs v.last_chunk (v.i - v.last_chunk + 1)
                    fd longer l (omega (arith, lengths)) in
                rw (other, plain, end, over, last.0) (refl, last.1)
            | inr more ↦
                rw (other, plain, end, more)
                  (go_on (record v { i = v.i + 1; prev_c = c }) l refl (ground arith))
          ]
        ]
      ]
