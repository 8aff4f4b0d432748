-- ===== src/Cli/Line/Entering.antt =====
-- What a user may type at the reader of cli/cmdline_get.cc and get back as a line.
use mathlib.Core.Option
use components_mcu.Prelude.{
  ℕ, ◌+◌, ◌%◌, ◌<◌, Bool, false, not, ◌&&◌, Option, none, some, List, [], ◌∷◌, ◌++◌, append_assoc,
  append-nil, Bytes, ◌==◌, if◌then◌else◌, u32_mod, length, c_str, inl, inr, ◌≡◌, ◌≢◌, refl, sym, ap,
  ◌∙◌, arith,
}
use components_mcu.Cli.Line.{CliBuf, Fetched, get_commandline}
use components_mcu.Cli.Line.Editor.{
  count, count-concat, pending, entered, edit_char, waiting, line, edit, edit_end,
}
use components_mcu.Cli.Line.Simulation.{AllBytes}
use components_mcu.Cli.Line.Session.{ReallocLaws, accepted, Ready, get_commandline-Fetches}

-- `odd` says that a quote is open. No byte edits the line, and a semicolon stands in quotes.
pub data IsLine : Bool → Bytes → Type 0 where
  closed : IsLine false []
  byte :
      {odd : Bool} {c : ℕ} {l : Bytes}
      → c < 256
      → c ≢ 0
      → c ≢ 8
      → c ≢ b'\r'
      → c ≢ b'\n'
      → ((c == b';') && not odd) ≡ false
      → IsLine (if c == b'"' then not odd else odd) l
      → IsLine odd (c ∷ l)

abbrev Parity : Bool → Bytes → Type 0
Parity odd t = (count b'"' t % 2 == 0) ≡ not odd

Parity-concat :
    (odd : Bool) (t : Bytes) (c : ℕ)
    → Parity odd t
    → Parity (if c == b'"' then not odd else odd) (t ++ c ∷ [])
Parity-concat odd t c p = ground (arith, count-concat b'"' t c)

edit_byte :
    (allow_lf odd : Bool) (t : Bytes) (c : ℕ)
    → Parity odd t
    → c ≢ 8
    → c ≢ b'\r'
    → c ≢ b'\n'
    → ((c == b';') && not odd) ≡ false
    → edit_char allow_lf t c ≡ pending (t ++ c ∷ [])
unfolding edit_char
edit_byte allow_lf odd t c p nb nr nn ns = ground arith

edit_end_of_line :
    (allow_lf : Bool) (t : Bytes) → Parity false t → edit_char allow_lf t b';' ≡ entered t
unfolding edit_char
edit_end_of_line allow_lf t p = ground arith

edit-IsLine :
    (allow_lf : Bool) {odd : Bool} (t : Bytes) {l : Bytes} (rest : List ℕ)
    → Parity odd t
    → IsLine odd l
    → edit allow_lf t (l ++ b';' ∷ rest) ≡ line (t ++ l) rest
unfolding edit
edit-IsLine allow_lf t rest p closed = rw (edit_end_of_line allow_lf t p, edit, append-nil)
edit-IsLine allow_lf {odd = odd} t rest p (byte {c = c} {l = l} small nz nb nr nn ns q) =
    rw (edit_byte allow_lf odd t c p nb nr nn ns, edit)
      (edit-IsLine allow_lf (t ++ c ∷ []) rest (Parity-concat odd t c p) q
        ∙ ap (λ x. line x rest) (append_assoc t (c ∷ []) l))

-- A line that is typed and ended by a semicolon is entered as it was typed.
pub edit_line :
    (allow_lf : Bool) {l : Bytes} (rest : List ℕ)
    → IsLine false l
    → edit allow_lf [] (l ++ b';' ∷ rest) ≡ line l rest
edit_line allow_lf rest q = edit-IsLine allow_lf [] rest refl q

c_str-IsLine : {odd : Bool} {l : Bytes} → IsLine odd l → c_str l ≡ l
c_str-IsLine closed = refl
c_str-IsLine (byte {c = c} {l = l} small nz nb nr nn ns q) = ground (arith, c_str-IsLine q)

accepted-IsLine : {l : Bytes} → IsLine false l → l ≢ [] → accepted l ≡ some l
unfolding accepted
accepted-IsLine closed ne = absurd (ne refl)
accepted-IsLine (byte {c = c} {l = l} small nz nb nr nn ns q) ne =
    let q' : IsLine false (c ∷ l) = byte small nz nb nr nn ns q in
    rw (c_str-IsLine q') (ground arith)

AllBytes-line :
    {odd : Bool} {l : Bytes} (rest : List ℕ)
    → IsLine odd l
    → AllBytes rest
    → AllBytes (l ++ b';' ∷ rest)
AllBytes-line rest closed h = (omega arith, h)
AllBytes-line rest (byte small nz nb nr nn ns q) h = (small, AllBytes-line rest q h)

line-injective : {l m : Bytes} {r s : List ℕ} → line l r ≡ line m s → (l ≡ m) × (r ≡ s)
line-injective e = ground arith

line-ne-waiting : {l t : Bytes} {r : List ℕ} → line l r ≢ waiting t
line-ne-waiting e = cc

-- Where `realloc` keeps its laws and never fails, sizes stay in the range of `unsigned` and the
-- fuel is two more than the characters at least, a line of any length, not empty, that is typed at
-- an empty well-formed buffer and ended by a semicolon is returned as it was typed, and the input
-- behind it stays unread.
pub get_commandline_line :
    (realloc : Bytes → ℕ → Option Bytes)
    → ReallocLaws realloc
    → ((m : Bytes) (n : ℕ) → realloc m n ≢ none)
    → (allow_lf : Bool) (fuel : ℕ) (b : CliBuf) (l : Bytes) (rest : List ℕ) → Ready b []
    → IsLine false l
    → l ≢ []
    → AllBytes rest
    → length (l ++ b';' ∷ rest) + 1 < fuel
    → b.buf_idx + length (l ++ b';' ∷ rest) + 33 < u32_mod
    → (r : Fetched) × (get_commandline realloc fuel allow_lf b (l ++ b';' ∷ rest) ≡ some r)
      × (Option.map c_str r.line ≡ some l)
      × (r.rest ≡ rest)
      × Ready r.buf []
get_commandline_line realloc laws never allow_lf fuel b l rest ready q ne bytes enough small =
    let typed = edit_line allow_lf rest q in
    let (r, ran, f) =
      get_commandline-Fetches realloc laws allow_lf fuel b [] (l ++ b';' ∷ rest) ready
        (AllBytes-line rest q bytes) enough small in
    elim f [
      | inl (m, e, got, empty) ↦
          let same = line-injective (sym typed ∙ e) in
          (r, ran, got ∙ ap accepted (sym same.0) ∙ accepted-IsLine q ne, sym same.1, empty)
      | inr (t, e, nothing, left, inl all) ↦
          absurd (line-ne-waiting (sym typed ∙ e ∙ ap (edit allow_lf t) all ∙ edit_end allow_lf t))
      | inr (t, e, nothing, left, inr (n, out)) ↦ absurd (never _ n out)
    ]
