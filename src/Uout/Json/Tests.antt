-- ===== src/Uout/Json/Tests.antt =====
-- Concrete texts for uout/status_json.cc.
use components_mcu.Prelude.{
  ℕ, ◌+◌, ◌-◌, ◌≤◌, ◌<◌, Bool, true, false, none, some, List, [], ◌∷◌, ◌++◌, Bytes, codes, length,
  ltb, if◌then◌else◌, inl, ◌≡◌, refl, arith,
}
use components_mcu.Uout.Json.{Builder, Target, free_size}
use components_mcu.Uout.Json.Steps.{
  Step, begin_array, end_array, end_root, value_s, value_d, pair_s, pair_bool, built_all, run,
}
use components_mcu.Uout.Json.Buffer.{Inv, output}
use components_mcu.Uout.Json.Trees.{item_calls}
use components_mcu.Uout.Json.Texts.{
  Members, string_tree, object_tree, array_tree, no_members, member, no_elements, element,
  json_text, quoted, plain_tree, plain_members, to_value,
}
use components_mcu.Uout.Json.Documents.{object_calls}
use components_mcu.Uout.Json.Success.{costs}
use components_mcu.Uout.Json.Writing.{write_json}
use components_mcu.Uout.Json.Streaming.{run-write_json}
use components_mcu.Uout.Json.Reading.{read_json_from_function}
use components_mcu.Uout.Json.Elements.{prints, read_json_from_function_cases}

abbrev realloc : ℕ → Bool
realloc n = true

-- A writer that leaves one character of three or more.
abbrev most_of : Bytes → ℕ
most_of s = if ltb (length s) 3 then length s else length s - 1

abbrev partial : Target
partial = record { write = most_of; overlapping = λ n s. [] }

abbrev opened : Builder
opened = record {
  text = codes "{";
  size = 20;
  is_mine = true;
  obj_ct = 1;
  eof = false;
  has_target = true;
  sent = [];
}

abbrev some_calls : List Step
some_calls =
    pair_s (codes "a") (codes "b")
    ∷ begin_array (some (codes "l"))
    ∷ value_s (codes "x")
    ∷ end_array
    ∷ pair_bool (codes "t") true
    ∷ end_root
    ∷ []

meant : built_all some_calls (codes "{") ≡ codes "{\"a\":\"b\",\"l\":[\"x\"],\"t\":true}"
unfolding built_all
meant = refl

-- A number that is added to an array leaves a comma only.
number_lost :
    built_all (begin_array (some (codes "l")) ∷ value_d (codes "7") ∷ end_array ∷ []) (codes "{")
    ≡ codes "{\"l\":[],"
unfolding built_all
number_lost = refl

abbrev some_members : Members
some_members = member (codes "a") (string_tree (codes "b")) (
    member (codes "l")
      (array_tree
        (element (string_tree (codes "x")) (element (object_tree no_members) no_elements)))
      no_members)

its_text : json_text (object_tree some_members) ≡ codes "{\"a\":\"b\",\"l\":[\"x\",{}]}"
unfolding json_text
its_text = refl

-- As JSON writes a quote and a newline.
escaped : quoted (codes "\"\n") ≡ codes "\"\\\"\\u000a\""
escaped = refl

is_plain_text : plain_members some_members ≡ true
unfolding plain_tree
is_plain_text = refl

-- A writer that takes all it is given.
abbrev whole : Target
whole = record { write = λ s. length s; overlapping = λ n s. [] }

run-write_json_example :
    (b' : Builder) × (run realloc whole (object_calls some_members) opened ≡ some b')
    × ((write_json whole true b').1.sent ≡ json_text (object_tree some_members))
    × ((write_json whole true b').1.text ≡ [])
    × (write_json whole true (write_json whole true b').1 ≡ (none, (write_json whole true b').1))
unfolding costs item_calls to_value
run-write_json_example =
    run-write_json realloc whole (λ n. refl) (λ s. refl) some_members opened (inl (omega arith))
      is_plain_text (omega arith) refl refl refl refl refl (omega arith)

abbrev lone : Builder
lone = record opened { has_target = false }

-- Eighteen bytes and a comma fill the buffer of 20 with its brace.
abbrev filling : Bytes
filling = codes "{\"abcdefgh\":12345}"

filled_up : read_json_from_function realloc partial (prints filling) 5 lone ≡ none
unfolding read_json_from_function
filled_up = refl

read_json_from_function_cases_example :
    let r = read_json_from_function realloc partial (prints filling) 5 lone in
    (length filling + 1 < free_size lone
      → (c : Builder) × (r ≡ some (true, c))
        × (output c ≡ output lone ++ (filling ++ codes ","))
        × Inv c)
    × (length filling + 1 ≡ free_size lone → r ≡ none)
    × (free_size lone ≤ length filling
        → (c : Builder) × (r ≡ some (false, c)) × (output c ≡ output lone))
read_json_from_function_cases_example =
    read_json_from_function_cases realloc partial filling 5 lone (inl (omega arith)) refl
      (omega arith) (omega arith) (omega arith)
