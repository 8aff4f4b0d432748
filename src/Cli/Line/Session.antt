-- ===== src/Cli/Line/Session.antt =====
-- `get_commandline` of cli/cmdline_set.cc: the reader and the growing of its static buffer.
use mathlib.Core.Option
use components_mcu.Prelude.{
  ℕ, zero, suc, ◌+◌, ◌≤◌, ◌<◌, Bool, true, false, ◌||◌, Option, none, some, List, [], ◌∷◌, Bytes,
  ◌==◌, if◌then◌else◌, add32, u32_mod, get_or, take, length, c_str, Bool-cases, Option-cases, ◌⊎◌,
  inl, inr, ◌≡◌, refl, sym, ap, ◌∙◌, arith,
}
use components_mcu.Cli.Line.{
  CliBuf, null_buf, Status, done, error, incomplete, line_buf_full, is_full, Fetched, is_null,
  grown, enlarge, finished_line, retry, conclude, fetch, get_commandline,
}
use components_mcu.Cli.Line.Editor.{Edit, line, edit, edit_end}
use components_mcu.Cli.Line.Simulation.{Holds, AllBytes, Reads, reader_full, reader-Reads}

-- What the C library promises of `realloc`: a block of the size asked for that begins with the
-- bytes of the old one.
pub record ReallocLaws (realloc : Bytes → ℕ → Option Bytes) : Type 0 where
  pub has_size : (m : Bytes) (n : ℕ) (m' : Bytes) → realloc m n ≡ some m' → length m' ≡ n
  pub keeps :
      (m : Bytes) (n : ℕ) (m' : Bytes) (k : ℕ)
      → realloc m n ≡ some m'
      → k ≤ length m
      → k ≤ n
      → take k m' ≡ take k m

-- The line that a caller gets: none for an empty one, else the C string.
unfoldable pub accepted : Bytes → Option Bytes
accepted l =
    let s = c_str l in
    let c = get_or s 0 0 in if c == 0 || c == b'\r' || c == b'\n' then none else some s

c_str-head : (m : Bytes) → get_or m 0 0 ≡ get_or (c_str m) 0 0
c_str-head [] = refl
c_str-head (c ∷ m) = ground arith

finished_line-accepted :
    (m l : Bytes) → c_str m ≡ c_str l → Option.map c_str (finished_line m) ≡ accepted l
unfolding finished_line accepted
finished_line-accepted m l e = rw (c_str-head m, e) (ground (arith, e))

is_null_of_pos : (m : Bytes) → 0 < length m → is_null m ≡ false
is_null_of_pos [] h = absurd (omega arith)
is_null_of_pos (c ∷ m) h = refl

-- The buffer holds `t`, or nothing was allocated yet.
abbrev pub Ready : CliBuf → Bytes → Type 0
Ready b t = Holds b t ⊎ ((b ≡ null_buf) × (t ≡ []))

module _ (realloc : Bytes → ℕ → Option Bytes) (laws : ReallocLaws realloc) where
  -- What a call returns against the editor: a line; or nothing, with no text lost, after all the
  -- input unless memory ran out.
  abbrev pub Fetches : Bool → Edit → Fetched → Type 0
  Fetches allow_lf e r =
      ((l : Bytes) × (e ≡ line l r.rest) × (Option.map c_str r.line ≡ accepted l) × Ready r.buf [])
      ⊎ ((t : Bytes) × (e ≡ edit allow_lf t r.rest)
          × (r.line ≡ none)
          × Ready r.buf t
          × ((r.rest ≡ []) ⊎ ((n : ℕ) × (realloc r.buf.buf n ≡ none))))

  enlarge_some :
      (b : CliBuf)
      → 0 < b.buf_size
      → enlarge realloc b ≡ grown b (add32 b.buf_size 32) (realloc b.buf (add32 b.buf_size 32))
  unfolding enlarge
  enlarge_some b h = let e : (b.buf_size == 0) ≡ false = ground arith in rw e

  pub enlarge_cases :
      (b : CliBuf) (t : Bytes)
      → Holds b t
      → is_full b ≡ true
      → b.buf_idx + 33 < u32_mod
      → ((b' : CliBuf) × (enlarge realloc b ≡ (true, b'))
          × Holds b' t
          × (is_full b' ≡ false)
          × (b'.buf_idx ≡ b.buf_idx))
        ⊎ ((enlarge realloc b ≡ (false, b)) × (realloc b.buf (add32 b.buf_size 32) ≡ none))
  unfolding grown
  enlarge_cases b t h full small =
      let size : b.buf_size ≡ b.buf_idx + 1 = ground arith in
      let n = add32 b.buf_size 32 in
      let start = enlarge_some b (omega arith) in
      elim (Option-cases (realloc b.buf n)) [
        | inl e ↦ inr (start ∙ ap (grown b n) e, e)
        | inr (p, e) ↦ inl (
          _,
          start ∙ ap (grown b n) e,
          record {
            length_buf = laws.has_size _ _ p e;
            size_fits = omega arith;
            room = omega arith;
            text = laws.keeps _ _ p b.buf_idx e (omega arith) (omega arith) ∙ h.text;
            quotes = h.quotes;
          },
          ground arith,
          refl,
        )
      ]

  settle_fetch :
      (allow_lf : Bool) (e : Edit) (fuel n m : ℕ) (s : Status) (b : CliBuf) (rest : List ℕ)
      → Reads allow_lf e n m s b rest
      → n ≤ fuel
      → m + 33 < u32_mod
      → ((b' : CliBuf) (t' : Bytes)
          → Holds b' t'
          → is_full b' ≡ false
          → AllBytes rest
          → length rest < fuel
          → b'.buf_idx + length rest + 33 < u32_mod
          → (r : Fetched) × (fetch realloc fuel allow_lf b' rest ≡ some r)
            × Fetches allow_lf (edit allow_lf t' rest) r)
      → (r : Fetched) × (conclude realloc (fetch realloc fuel allow_lf) s b rest ≡ some r)
        × Fetches allow_lf e r
  unfolding conclude
  settle_fetch allow_lf e fuel n m done b rest (l, is_line, ended) le small rec =
      (_, refl, inl (l, is_line, finished_line-accepted b.buf l ended.c_string, inl ended.emptied))
  settle_fetch allow_lf e fuel n m incomplete b rest (t, is_waiting, h, none_left) le small rec =
      let over = is_waiting ∙ sym (ap (edit allow_lf t) none_left ∙ edit_end allow_lf t) in
      (_, refl, inr (t, over, refl, inl h, inl none_left))
  settle_fetch allow_lf e fuel n m error b rest f le small rec = absurd f
  settle_fetch allow_lf e fuel n m line_buf_full b rest (t, same, h, full, bytes, lt, sum) le small
        rec =
      elim (enlarge_cases b t h full (omega arith)) [
        | inl (b', e, h', free, idx) ↦
            let (r, ran, f) = rec b' t h' free bytes (omega arith) (omega (arith, idx)) in
            (r, ap (λ g. retry realloc (fetch realloc fuel allow_lf) g b rest) e ∙ ran, rw same f)
        | inr (e, out) ↦ (
          _,
          ap (λ g. retry realloc (fetch realloc fuel allow_lf) g b rest) e,
          inr (t, same, refl, inl h, inr (_, out)),
        )
      ]

  fetch-Fetches :
      (allow_lf : Bool) (fuel : ℕ) (b : CliBuf) (t : Bytes) (cs : List ℕ)
      → Holds b t
      → is_full b ≡ false
      → AllBytes cs
      → length cs < fuel
      → b.buf_idx + length cs + 33 < u32_mod
      → (r : Fetched) × (fetch realloc fuel allow_lf b cs ≡ some r)
        × Fetches allow_lf (edit allow_lf t cs) r
  unfolding fetch
  fetch-Fetches allow_lf zero b t cs h free bytes enough small = absurd (omega arith)
  fetch-Fetches allow_lf (suc fuel) b t cs h free bytes enough small =
      settle_fetch allow_lf _ fuel (length cs) (b.buf_idx + length cs) _ _ _
        (reader-Reads allow_lf b t cs h free bytes) (omega arith) small
        (λ b' t'. fetch-Fetches allow_lf fuel b' t' _)

  -- A call on a full buffer begins by growing it.
  fetch_ready :
      (allow_lf : Bool) (fuel : ℕ) (b : CliBuf) (t : Bytes) (cs : List ℕ)
      → Holds b t
      → AllBytes cs
      → length cs < fuel
      → b.buf_idx + length cs + 33 < u32_mod
      → (r : Fetched) × (fetch realloc (suc fuel) allow_lf b cs ≡ some r)
        × Fetches allow_lf (edit allow_lf t cs) r
  unfolding fetch
  fetch_ready allow_lf fuel b t cs h bytes enough small = elim (Bool-cases (is_full b)) [
    | inr free ↦ fetch-Fetches allow_lf (suc fuel) b t cs h free bytes (omega arith) small
    | inl full ↦
        let (r, ran, f) =
          settle_fetch allow_lf (edit allow_lf t cs) fuel (suc (length cs)) (b.buf_idx + length cs)
            line_buf_full b cs (t, refl, h, full, bytes, omega arith, omega arith) (omega arith)
            small (λ b' t' h' free'. fetch-Fetches allow_lf fuel b' t' cs h' free') in
        (
          r,
          ap (λ x. conclude realloc (fetch realloc fuel allow_lf) x.0 x.1 x.2)
                (reader_full allow_lf b cs full)
              ∙ ran,
          f,
        )
  ]

  -- The first call allocates the buffer.
  pub enlarge_null :
      ((p : Bytes) × (enlarge realloc null_buf ≡ (true, record null_buf { buf = p; buf_size = 64 }))
        × Holds (record null_buf { buf = p; buf_size = 64 }) [])
      ⊎ ((enlarge realloc null_buf ≡ (false, null_buf)) × (realloc [] 64 ≡ none))
  unfolding enlarge grown
  enlarge_null = elim (Option-cases (realloc [] 64)) [
    | inl e ↦ inr (ap (grown null_buf 64) e, e)
    | inr (p, e) ↦ inl (
      p,
      ap (grown null_buf 64) e,
      record {
        length_buf = laws.has_size _ _ p e;
        size_fits = omega arith;
        room = omega arith;
        text = refl;
        quotes = refl;
      },
    )
  ]

  -- On a buffer that is well formed and holds an unfinished text, with input of bytes, sizes that
  -- stay in the range of `unsigned`, a `realloc` that keeps its laws, and fuel for each character
  -- of the input and two more, a call of `get_commandline` ends, and does what the line editor
  -- does: it returns the first line as a C string and leaves the input behind it, and the buffer
  -- is empty; or it returns nothing, and the buffer with the unread input stands for the same
  -- text, where input is left unread only if `realloc` failed.
  pub get_commandline-Fetches :
      (allow_lf : Bool) (fuel : ℕ) (b : CliBuf) (t : Bytes) (cs : List ℕ)
      → Ready b t
      → AllBytes cs
      → length cs + 1 < fuel
      → b.buf_idx + length cs + 33 < u32_mod
      → (r : Fetched) × (get_commandline realloc fuel allow_lf b cs ≡ some r)
        × Fetches allow_lf (edit allow_lf t cs) r
  unfolding get_commandline retry
  get_commandline-Fetches allow_lf zero b t cs ready bytes enough small = absurd (omega arith)
  get_commandline-Fetches allow_lf (suc fuel) b t cs (inl h) bytes enough small =
      let allocated : is_null b.buf ≡ false = is_null_of_pos b.buf (omega arith) in
      rw (allocated, get_commandline) (fetch_ready allow_lf fuel b t cs h bytes (omega arith) small)
  get_commandline-Fetches allow_lf (suc fuel) b t cs (inr (e, empty)) bytes enough small =
      rw (e, empty)
        (elim enlarge_null [
          | inr (failed, out) ↦ (
            _,
            ap (λ g. retry realloc (fetch realloc (suc fuel) allow_lf) g null_buf cs) failed,
            inr ([], refl, refl, inr (refl, refl), inr (64, out)),
          )
          | inl (p, allocated, h) ↦
              let (r, ran, f) =
                fetch_ready allow_lf fuel _ [] cs h bytes (omega arith)
                  (omega (arith, ap (λ (x : CliBuf). x.buf_idx) e)) in
              (
                r,
                ap (λ g. retry realloc (fetch realloc (suc fuel) allow_lf) g null_buf cs) allocated
                    ∙ ran,
                f,
              )
        ])
