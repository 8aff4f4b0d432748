-- ===== src/Jsmn/Tokens.antt =====
-- The iterator over JSON tokens: jsmn/include/jsmn/jsmn_iterate.hh. An iterator is an index of the array of
-- tokens, whose cells behind the tokens that were parsed hold anything. `jsmn_parse`, `atol` and `atof`
-- are parameters. A token ends where it starts or behind.
use components_mcu.Prelude.{
  Aborts, aborted, unfinished, returns, ◌>>=◌, ℕ, zero, suc, ◌+◌, ◌-◌, Bool, true, false, not, ◌&&◌,
  ◌||◌, Option, none, some, Bytes, same_prefix, codes, ltb, ◌==◌, if◌then◌else◌, drop, length,
}

-- `jsmntype_t` of jsmn.
pub data Kind : Type 0 where
  undefined : Kind
  object : Kind
  array : Kind
  string : Kind
  primitive : Kind

abbrev pub is_object : Kind → Bool
is_object object = true
is_object _ = false

abbrev pub is_array : Kind → Bool
is_array array = true
is_array _ = false

abbrev pub is_string : Kind → Bool
is_string string = true
is_string _ = false

abbrev pub is_primitive : Kind → Bool
is_primitive primitive = true
is_primitive _ = false

-- The fields of `jsmntok_t` of jsmn that the iterator reads.
pub record Token : Type 0 where
  pub kind : Kind
  pub start : ℕ
  pub end_index : ℕ
  pub size : ℕ

-- `JsmnBaseTmplt`.
pub record Json : Type 0 where
  pub text : Bytes
  pub tok : ℕ → Token
  pub nmb_tok : ℕ

-- `do_parse` with what `jsmn_parse` returns: the number of tokens, none where it is negative, and the array.
unfoldable pub do_parse : (Bytes → Option ℕ × (ℕ → Token)) → Option Bytes → ℕ
do_parse jsmn_parse none = 0
do_parse jsmn_parse (some json) =
    let (r, tok) = jsmn_parse json in
    elim r [ none ↦ 0 | some n ↦ if ltb n 1 || not (is_object (tok 0).kind) then 0 else n ]

-- `operator bool` of an iterator.
abbrev pub is_valid : Json → ℕ → Bool
is_valid c it = ltb it c.nmb_tok

abbrev pub token_length : Token → ℕ
token_length t = t.end_index - t.start

-- The text from a token on.
abbrev pub text_at : Json → Token → Bytes
text_at c t = drop t.start c.text

-- `value_equals_null`, `value_equals_false` and `value_equals_true`.
unfoldable pub value_equals_null : Json → ℕ → Bool
value_equals_null c it =
    let t = c.tok it in
    is_primitive t.kind && (token_length t == 4) && same_prefix 4 (text_at c t) (codes "null")

unfoldable pub value_equals_false : Json → ℕ → Bool
value_equals_false c it =
    let t = c.tok it in
    is_primitive t.kind && (token_length t == 5) && same_prefix 5 (text_at c t) (codes "null")

unfoldable pub value_equals_true : Json → ℕ → Bool
value_equals_true c it =
    let t = c.tok it in
    is_primitive t.kind && (token_length t == 4) && same_prefix 4 (text_at c t) (codes "null")

-- `keyIsEqual`; the key is a string without its end.
unfoldable pub key_is_equal : Json → ℕ → Bytes → Bool
key_is_equal c it key =
    let t = c.tok it in
    is_string t.kind
    && (length key == token_length t)
    && same_prefix (token_length t) (text_at c t) key

abbrev pub same_kind : Kind → Kind → Bool
same_kind undefined undefined = true
same_kind object object = true
same_kind array array = true
same_kind string string = true
same_kind primitive primitive = true
same_kind _ _ = false

-- `keyIsEqual` with the type of the value; no key matches every key.
unfoldable pub key_is_equal_typed : Json → ℕ → Option Bytes → Kind → Bool
key_is_equal_typed c it none kind = same_kind kind (c.tok (it + 1)).kind
key_is_equal_typed c it (some key) kind =
    same_kind kind (c.tok (it + 1)).kind && key_is_equal c it key

unfoldable pub key_starts_with : Json → ℕ → Bytes → Bool
key_starts_with c it key =
    let t = c.tok it in
    is_string t.kind
    && ltb (length key) (token_length t)
    && same_prefix (length key) (text_at c t) key

unfoldable pub key_starts_with_typed : Json → ℕ → Option Bytes → Kind → Bool
key_starts_with_typed c it none kind = same_kind kind (c.tok (it + 1)).kind
key_starts_with_typed c it (some key) kind =
    same_kind kind (c.tok (it + 1)).kind && key_starts_with c it key

-- `skip_key_and_value`, where `skip` is `skip_value`: the result and the iterator.
unfoldable pub skip_pair : Json → (ℕ → Aborts (Bool × ℕ)) → ℕ → Aborts (Bool × ℕ)
skip_pair c skip it = if is_valid c (it + 1) then skip (it + 1) else returns (false, it + 1)

-- The loop of `skip_value` over the members of an object, with its assertion.
unfoldable pub skip_members : Json → (ℕ → Aborts (Bool × ℕ)) → ℕ → ℕ → Aborts ℕ
skip_members c skip zero it = returns it
skip_members c skip (suc count) it =
    let rest = skip_pair c skip it >>= (λ r. skip_members c skip count r.1) in
    if is_valid c it then (if is_string (c.tok it).kind then rest else aborted) else returns it

-- The loop of `skip_value` over the items of an array.
unfoldable pub skip_items : Json → (ℕ → Aborts (Bool × ℕ)) → ℕ → ℕ → Aborts ℕ
skip_items c skip zero it = returns it
skip_items c skip (suc count) it =
    let rest = skip it >>= (λ r. skip_items c skip count r.1) in
    if is_valid c it then rest else returns it

-- `skip_value`; the fuel is the depth of the recursion.
unfoldable pub skip_value : Json → ℕ → ℕ → Aborts (Bool × ℕ)
skip_value c zero it = unfinished
skip_value c (suc fuel) it =
    let t = c.tok it in
    let members = skip_members c (skip_value c fuel) t.size (it + 1) in
    let items = skip_items c (skip_value c fuel) t.size (it + 1) in
    if not (is_valid c it)
    then returns (false, it)
    else if is_object t.kind
    then members >>= (λ i. returns (true, i))
    else if is_array t.kind
    then items >>= (λ i. returns (true, i))
    else returns (true, it + 1)

-- `skip_key_and_value`.
unfoldable pub skip_key_and_value : Json → ℕ → ℕ → Aborts (Bool × ℕ)
skip_key_and_value c fuel it = skip_pair c (skip_value c fuel) it
