-- ===== src/Cli/Line/Editor.antt =====
-- What the reader of cli/cmdline_get.cc promises: a line editor over a text of any length.
use components_mcu.Prelude.{
  ℕ, zero, suc, ◌+◌, ◌%◌, ◌≤◌, take, Bool, not, ◌&&◌, ◌||◌, List, [], ◌∷◌, ◌++◌, Bytes, ◌==◌,
  if◌then◌else◌, init, ◌≡◌, refl, arith,
}

abbrev pub count : ℕ → Bytes → ℕ
count b [] = 0
count b (c ∷ cs) = (if c == b then 1 else 0) + count b cs

pub data Edited : Type 0 where
  pending : Bytes → Edited
  entered : Bytes → Edited

abbrev newline : ℕ → Bool
newline c = c == b'\r' || c == b'\n'

-- A newline discards the text (or ends the line, if newlines may end one), a backspace takes its
-- last character away, and a semicolon outside of quotes ends the line.
unfoldable pub edit_char : Bool → Bytes → ℕ → Edited
edit_char allow_lf t c =
    if not allow_lf && newline c
    then pending []
    else if c == 8
    then pending (init t)
    else if (count b'"' t % 2 == 0) && (c == b';' || (allow_lf && newline c))
    then entered t
    else pending (t ++ c ∷ [])

pub data Edit : Type 0 where
  waiting : Bytes → Edit
  line : Bytes → List ℕ → Edit

-- The text after all the input, or the first line and the input behind it.
unfoldable pub edit : Bool → Bytes → List ℕ → Edit
unfolding edit_char
edit allow_lf t [] = waiting t
edit allow_lf t (c ∷ cs) = elim (edit_char allow_lf t c) [
  | pending t' ↦ edit allow_lf t' cs
  | entered l ↦ line l cs
]

pub count-concat :
    (b : ℕ) (t : Bytes) (c : ℕ) → count b (t ++ c ∷ []) ≡ count b t + count b (c ∷ [])
count-concat b [] c = omega arith
count-concat b (x ∷ t) c = ground (arith, count-concat b t c)

pub count-take-le : (b n : ℕ) (t : Bytes) → count b (take n t) ≤ n
count-take-le b zero t = omega arith
count-take-le b (suc n) [] = omega arith
count-take-le b (suc n) (c ∷ t) = ground (arith, count-take-le b n t)

pub edit_end : (allow_lf : Bool) (t : Bytes) → edit allow_lf t [] ≡ waiting t
unfolding edit
edit_end allow_lf t = refl
