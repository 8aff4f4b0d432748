-- ===== src/Cli/Parse/Words.antt =====
-- Command lines as the words that they are printed from, and one round of the parser of
-- cli/cmdline_parse.cc on a word.
pub mod Rounds
pub mod Reading
pub mod Onward
pub mod RoundTrip
pub mod Strings
use components_mcu.Prelude.{
  ℕ, zero, suc, ◌+◌, Bool, true, false, not, ◌&&◌, ◌||◌, Option, none, some, List, [], ◌∷◌, ◌++◌,
  Bytes, codes, ◌==◌, if◌then◌else◌, get_or, length, replicate, map,
}
use components_mcu.Cli.Parse.{Clpar, is_eol, ends_word, equal, string_at}

-- A key alone, a key with a value, a key with a quoted value.
pub data Word : Type 0 where
  flag : Bytes → Word
  plain : Bytes → Bytes → Word
  quoted : Bytes → Bytes → Word

-- The text of a word, before the text `r`.
unfoldable pub print : Word → Bytes → Bytes
print (flag k) r = k ++ r
print (plain k v) r = k ++ b'=' ∷ (v ++ r)
print (quoted k v) r = k ++ b'=' ∷ b'"' ∷ (v ++ b'"' ∷ r)

-- Words, each with the number of spaces less one that follow it if another word does, behind `n`
-- spaces.
unfoldable pub print_line : ℕ → List (Word × ℕ) → Bytes
unfolding print
print_line n [] = []
print_line n ((w, g) ∷ ws) = replicate n b' ' ++ print w (print_line (suc g) ws)

abbrev pub all_of : (ℕ → Bool) → Bytes → Bool
all_of p [] = true
all_of p (c ∷ cs) = p c && all_of p cs

-- Without spaces, equals signs and NUL.
abbrev pub is_clean : Bytes → Bool
is_clean = all_of (λ c. not (ends_word c))

-- Without double quotes and NUL.
abbrev pub is_quotable : Bytes → Bool
is_quotable = all_of (λ c. not ((c == 0) || (c == b'"')))

-- A value that is not read as a quoted one or refused.
abbrev pub starts_value : Bytes → Bool
starts_value [] = false
starts_value (c ∷ cs) = not ((c == b';') || (c == b'"'))

abbrev pub is_global : Bytes → Bool
is_global k = equal k (codes "mid")

abbrev pub is_printable : Word → Bool
is_printable (flag k) = is_clean k && not (length k == 0)
is_printable (plain k v) = is_clean k && (not (is_global k) && (is_clean v && starts_value v))
is_printable (quoted k v) = is_clean k && (not (is_global k) && is_quotable v)

abbrev pub are_printable : List (Word × ℕ) → Bool
are_printable [] = true
are_printable ((w, g) ∷ ws) = is_printable w && are_printable ws

-- The strings of an entry of the array, and those that a word stands for.
abbrev pub Entry : Type 0
Entry = Bytes × Option Bytes

abbrev pub meaning : Word → Entry
meaning (flag k) = (k, none)
meaning (plain k v) = (k, some v)
meaning (quoted k v) = (k, some v)

abbrev pub meanings : List (Word × ℕ) → List Entry
meanings ws = map (λ (x : Word × ℕ). meaning x.0) ws

abbrev pub strings : Bytes → Clpar → Entry
strings line q =
    (string_at line q.key, elim q.val [ none ↦ none | some v ↦ some (string_at line v) ])

-- The line after parsing: NULs stand for the spaces, the equals signs and the closing quotes.
unfoldable pub blank : Word → Bytes → Bytes
blank (flag k) r = k ++ r
blank (plain k v) r = k ++ 0 ∷ (v ++ r)
blank (quoted k v) r = k ++ 0 ∷ b'"' ∷ (v ++ 0 ∷ r)

unfoldable pub blank_line : ℕ → List (Word × ℕ) → Bytes
unfolding blank
blank_line n [] = []
blank_line n ((w, g) ∷ ws) = replicate n 0 ++ blank w (blank_line (suc g) ws)

-- The entry of a word that starts at `i`, and where the word ends.
abbrev pub entry : ℕ → Word → Clpar
entry i (flag k) = record { key = i; val = none }
entry i (plain k v) = record { key = i; val = some (i + (length k + 1)) }
entry i (quoted k v) = record { key = i; val = some (i + (length k + 2)) }

abbrev pub word_length : Word → ℕ
word_length (flag k) = length k
word_length (plain k v) = length k + (1 + length v)
word_length (quoted k v) = length k + (3 + length v)

abbrev pub entries : ℕ → List (Word × ℕ) → List Clpar
entries i [] = []
entries i ((w, g) ∷ ws) = entry i w ∷ entries (i + (word_length w + suc g)) ws
