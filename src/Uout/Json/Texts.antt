-- ===== src/Uout/Json/Texts.antt =====
-- JSON values as the standard writes them, and the values that uout/status_json.cc writes that way: it does not escape
-- what stands in strings.
use components_mcu.Prelude.{
  ℕ, ◌+◌, ◌-◌, ◌/◌, ◌%◌, Bool, true, false, not, ◌&&◌, ◌||◌, none, some, [], ◌∷◌, ◌++◌, Bytes,
  codes, leb, ltb, ◌==◌, if◌then◌else◌, ◌≡◌, refl, ap, ap₂, arith,
}
use components_mcu.Uout.Json.Trees.{
  Value, Items, string, object, array, no_items, item, json, json_items, json_more,
}

mutual
  pub data Tree : Type 0 where
    string_tree : Bytes → Tree
    object_tree : Members → Tree
    array_tree : Elements → Tree

  pub data Members : Type 0 where
    no_members : Members
    member : Bytes → Tree → Members → Members

  pub data Elements : Type 0 where
    no_elements : Elements
    element : Tree → Elements → Elements

abbrev hex_char : ℕ → ℕ
hex_char d = if ltb d 10 then b'0' + d else b'a' + (d - 10)

-- A character in a string: quotes, backslashes and control characters are escaped.
abbrev escape_char : ℕ → Bytes
escape_char c =
    if (c == b'"') || (c == b'\\')
    then b'\\' ∷ c ∷ []
    else if ltb c 32
    then codes "\\u00" ++ (hex_char (c / 16) ∷ hex_char (c % 16) ∷ [])
    else c ∷ []

abbrev pub escape : Bytes → Bytes
escape [] = []
escape (c ∷ s) = escape_char c ++ escape s

abbrev pub quoted : Bytes → Bytes
quoted s = b'"' ∷ (escape s ++ b'"' ∷ [])

unfoldable mutual
  pub json_text : Tree → Bytes
  json_text (string_tree s) = quoted s
  json_text (object_tree ms) = b'{' ∷ (members_text ms ++ codes "}")
  json_text (array_tree es) = b'[' ∷ (elements_text es ++ codes "]")

  pub members_text : Members → Bytes
  members_text no_members = []
  members_text (member k v ms) = ((quoted k ++ codes ":") ++ json_text v) ++ more_members ms

  pub more_members : Members → Bytes
  more_members no_members = []
  more_members (member k v ms) =
      b',' ∷ (((quoted k ++ codes ":") ++ json_text v) ++ more_members ms)

  pub elements_text : Elements → Bytes
  elements_text no_elements = []
  elements_text (element v es) = json_text v ++ more_elements es

  pub more_elements : Elements → Bytes
  more_elements no_elements = []
  more_elements (element v es) = b',' ∷ (json_text v ++ more_elements es)

-- No character of a string is one that JSON escapes.
abbrev pub is_plain : Bytes → Bool
is_plain [] = true
is_plain (c ∷ s) = not ((c == b'"') || (c == b'\\')) && (leb 32 c && is_plain s)

unfoldable mutual
  pub plain_tree : Tree → Bool
  plain_tree (string_tree s) = is_plain s
  plain_tree (object_tree ms) = plain_members ms
  plain_tree (array_tree es) = plain_elements es

  pub plain_members : Members → Bool
  plain_members no_members = true
  plain_members (member k v ms) = is_plain k && (plain_tree v && plain_members ms)

  pub plain_elements : Elements → Bool
  plain_elements no_elements = true
  plain_elements (element v es) = plain_tree v && plain_elements es

-- The calls: members have keys, and elements have none.
unfoldable mutual
  pub to_value : Tree → Value
  to_value (string_tree s) = string s
  to_value (object_tree ms) = object (to_items ms)
  to_value (array_tree es) = array (to_list es)

  pub to_items : Members → Items
  to_items no_members = no_items
  to_items (member k v ms) = item (some k) (to_value v) (to_items ms)

  pub to_list : Elements → Items
  to_list no_elements = no_items
  to_list (element v es) = item none (to_value v) (to_list es)

escape_plain : (s : Bytes) → is_plain s ≡ true → escape s ≡ s
escape_plain [] h = refl
escape_plain (c ∷ s) h =
    let special : ((c == b'"') || (c == b'\\')) ≡ false = ground arith in
    let printed : ltb c 32 ≡ false = ground arith in
    let rest : is_plain s ≡ true = ground arith in rw (special, printed, escape_plain s rest) refl

quoted_plain : (s : Bytes) → is_plain s ≡ true → b'"' ∷ (s ++ b'"' ∷ []) ≡ quoted s
quoted_plain s h = rw (escape_plain s h) refl

and_left : (x y : Bool) → (x && y) ≡ true → x ≡ true
and_left x y h = ground arith

and_right : (x y : Bool) → (x && y) ≡ true → y ≡ true
and_right x y h = ground arith

mutual
  unfolding json json_text plain_tree to_value

  pub json-to_value : (v : Tree) → plain_tree v ≡ true → json (to_value v) ≡ json_text v
  json-to_value (string_tree s) h = quoted_plain s h
  json-to_value (object_tree ms) h = ap (λ t. b'{' ∷ (t ++ codes "}")) (json_items-to_items ms h)
  json-to_value (array_tree es) h = ap (λ t. b'[' ∷ (t ++ codes "]")) (json_items-to_list es h)

  json_items-to_items :
      (ms : Members) → plain_members ms ≡ true → json_items (to_items ms) ≡ members_text ms
  json_items-to_items no_members h = refl
  json_items-to_items (member k v ms) h =
      let r = and_right (is_plain k) (plain_tree v && plain_members ms) h in
      ap₂ ◌++◌
        (ap₂ (λ a b. (a ++ codes ":") ++ b) (quoted_plain k (and_left (is_plain k) _ h))
          (json-to_value v (and_left (plain_tree v) _ r)))
        (json_more-to_items ms (and_right (plain_tree v) _ r))

  json_more-to_items :
      (ms : Members) → plain_members ms ≡ true → json_more (to_items ms) ≡ more_members ms
  json_more-to_items no_members h = refl
  json_more-to_items (member k v ms) h =
      let r = and_right (is_plain k) (plain_tree v && plain_members ms) h in
      ap (◌∷◌ b',') (
        ap₂ ◌++◌
          (ap₂ (λ a b. (a ++ codes ":") ++ b) (quoted_plain k (and_left (is_plain k) _ h))
            (json-to_value v (and_left (plain_tree v) _ r)))
          (json_more-to_items ms (and_right (plain_tree v) _ r)))

  json_items-to_list :
      (es : Elements) → plain_elements es ≡ true → json_items (to_list es) ≡ elements_text es
  json_items-to_list no_elements h = refl
  json_items-to_list (element v es) h =
      ap₂ ◌++◌ (json-to_value v (and_left (plain_tree v) _ h))
        (json_more-to_list es (and_right (plain_tree v) _ h))

  json_more-to_list :
      (es : Elements) → plain_elements es ≡ true → json_more (to_list es) ≡ more_elements es
  json_more-to_list no_elements h = refl
  json_more-to_list (element v es) h = ap (◌∷◌ b',') (
      ap₂ ◌++◌ (json-to_value v (and_left (plain_tree v) _ h))
        (json_more-to_list es (and_right (plain_tree v) _ h)))
