-- ===== src/Jsmn/Getters.antt =====
-- The getters of jsmn/include/jsmn/jsmn_iterate.hh. What is written to `dst` is the value of an option.
use mathlib.Core.Option
use components_mcu.Prelude.{
  ℕ, ◌+◌, ◌%◌, Bool, true, false, not, ◌&&◌, ◌||◌, Option, none, some, [], ◌∷◌, Bytes, c_str, codes,
  leb, ◌==◌, if◌then◌else◌, take, set, replicate,
}
use components_mcu.Jsmn.Tokens.{
  Json, Token, token_length, text_at, is_string, is_primitive, key_is_equal,
}

-- The bytes of a token.
abbrev pub token_bytes : Json → Token → Bytes
token_bytes c t = take (token_length t) (text_at c t)

-- `copy_string`: the string in the buffer, if it has room.
unfoldable pub copy_string : Json → ℕ → Token → Option Bytes
copy_string c buf_size t =
    if leb buf_size (token_length t) then none else some (c_str (token_bytes c t))

-- `strcmp(a, b) == 0` of two strings.
abbrev pub same_string : Bytes → Bytes → Bool
same_string [] [] = true
same_string (x ∷ a) (y ∷ b) = (x == y) && same_string a b
same_string _ _ = false

-- The comparisons of `get_value` for `bool`.
unfoldable pub asc2bool_json : Bytes → Option Bool
asc2bool_json buf =
    if same_string buf (codes "true") || same_string buf (codes "1")
    then some true
    else if same_string buf (codes "false") || same_string buf (codes "0")
    then some false
    else none

abbrev pub bind : {A B : Type 0} → Option A → (A → Option B) → Option B
bind none f = none
bind (some a) f = f a

unfoldable pub get_bool : Json → Token → Option Bool
get_bool c t = if is_primitive t.kind then bind (copy_string c 32 t) asc2bool_json else none

-- `get_value` for a number, where `convert` is `atof` or `atol` with the conversion to the type.
unfoldable pub get_number : {N : Type 0} → (Bytes → N) → Json → Token → Option N
get_number convert c t =
    if is_primitive t.kind then Option.map convert (copy_string c 32 t) else none

-- `get_value` for an array of characters.
unfoldable pub get_chars : ℕ → Json → Token → Option Bytes
get_chars size c t = if is_string t.kind then copy_string c size t else none

-- `get_value` for `std::string`: the constructor that is called takes a count and a character.
unfoldable pub get_std_string : Json → Token → Option Bytes
get_std_string c t =
    if is_string t.kind then some (replicate t.start (token_length t % 256)) else none

-- `get_value_as_string` with a buffer.
unfoldable pub get_as_string : ℕ → Json → Token → Option Bytes
get_as_string size c t =
    if is_string t.kind || is_primitive t.kind then copy_string c size t else none

-- `get_value_as_string` in place: the pointer into the text, and the text.
unfoldable pub get_in_place : Json → Token → Option ℕ × Json
get_in_place c t =
    if not (is_string t.kind) && not (is_primitive t.kind)
    then (none, c)
    else (some t.start, record c { text = set c.text t.end_index 0 })

-- `takeValue` with a getter: the value, and the iterator.
unfoldable pub take_value : {A : Type 0} → (Json → Token → Option A) → Json → ℕ → Option A × ℕ
take_value get c it =
    let r = get c (c.tok it) in elim r [ none ↦ (none, it) | some a ↦ (some a, it + 1) ]

-- `getValue` with a key.
unfoldable pub get_value_of : {A : Type 0} → (Json → Token → Option A) → Json → ℕ → Bytes → Option A
get_value_of get c it key = if key_is_equal c it key then get c (c.tok (it + 1)) else none

-- `takeValue` with a key.
unfoldable pub take_value_of :
    {A : Type 0} → (Json → Token → Option A) → Json → ℕ → Bytes → Option A × ℕ
take_value_of get c it key = elim (get_value_of get c it key) [
  | none ↦ (none, it)
  | some a ↦ (some a, it + 2)
]
