-- ===== src/Jsmn/Tests.antt =====
-- The iterator over the tokens of `{"a":[1,true]}`.
use components_mcu.Prelude.{
  returns, ℕ, zero, suc, ◌+◌, true, false, some, [], ◌∷◌, Bytes, codes, length, ◌≡◌, refl, arith,
}
use components_mcu.Jsmn.Tokens.{
  object, array, string, primitive, Token, Json, do_parse, value_equals_null, value_equals_true,
  value_equals_false, skip_value, skip_key_and_value,
}
use components_mcu.Jsmn.Getters.{copy_string, asc2bool_json, get_bool, get_std_string, take_value}
use components_mcu.Jsmn.Skipping.{Value, word, items, no_items, item, tokens, skip_value-tokens}
use components_mcu.Jsmn.Values.{NoZero, value_equals_true-value_equals_null}

abbrev document : Bytes
document = codes "{\"a\":[1,true]}"

document-NoZero : NoZero document
document-NoZero = (
  refl,
  (
    refl,
    (
      refl,
      (refl, (refl, (refl, (refl, (refl, (refl, (refl, (refl, (refl, (refl, (refl, tt))))))))))),
    ),
  ),
)

abbrev cell : ℕ → Token
cell zero = record { kind = object; start = 0; end_index = 14; size = 1 }
cell (suc zero) = record { kind = string; start = 2; end_index = 3; size = 1 }
cell (suc (suc zero)) = record { kind = array; start = 5; end_index = 13; size = 2 }
cell (suc (suc (suc zero))) = record { kind = primitive; start = 6; end_index = 7; size = 0 }
cell (suc (suc (suc (suc n)))) = record { kind = primitive; start = 8; end_index = 12; size = 0 }

abbrev doc : Json
doc = record { text = document; tok = cell; nmb_tok = 5 }

abbrev list : Value
list = items 5 13 (item (word 6 7) (item (word 8 12) no_items))

skip_value-tokens_example :
    (skip_value doc 3 2 ≡ returns (true, 1 + 1 + length (tokens list)))
    × (skip_key_and_value doc 3 1 ≡ returns (true, 1 + 1 + length (tokens list)))
unfolding tokens
skip_value-tokens_example =
    skip_value-tokens list doc 2 1 (refl, (refl, (refl, tt))) (omega arith) (omega arith)

value_equals_true-value_equals_null_example :
    (value_equals_true doc 4 ≡ value_equals_null doc 4) × (value_equals_false doc 4 ≡ false)
value_equals_true-value_equals_null_example =
    value_equals_true-value_equals_null doc 4 document-NoZero (omega arith)

parse_run : do_parse (λ json. (some 5, cell)) (some document) ≡ 5
unfolding do_parse
parse_run = refl

bool_run : take_value get_bool doc 4 ≡ (some true, 5)
unfolding take_value get_bool copy_string asc2bool_json
bool_run = refl

-- The text of a token `true` is not told as true.
true_run : value_equals_true doc 4 ≡ false
unfolding value_equals_true
true_run = refl

-- A string of `std::string` is as many characters as the token is far from the start.
std_string_run : get_std_string doc (cell 1) ≡ some (1 ∷ 1 ∷ [])
unfolding get_std_string
std_string_run = refl
