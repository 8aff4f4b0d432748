-- ===== src/Uout/Json/Documents.antt =====
-- A JSON object built by calls of uout/status_json.cc.
use components_mcu.Prelude.{
  ℕ, ◌+◌, ◌≤◌, ◌<◌, List, Bool, true, some, [], ◌∷◌, ◌++◌, codes, length, ◌≡◌, ap, ◌∙◌, false,
  arith,
}
use components_mcu.Uout.Json.{Target, Builder, buf_max_size}
use components_mcu.Uout.Json.Steps.{Step, end_root, built_all, run}
use components_mcu.Uout.Json.Buffer.{TakesMost, Inv, output}
use components_mcu.Uout.Json.Success.{costs, run-built_all}
use components_mcu.Uout.Json.Trees.{item_calls, root-built, root-AllDigits}
use components_mcu.Uout.Json.Texts.{
  Members, object_tree, json_text, plain_tree, plain_members, to_items, to_value, json-to_value,
}
use components_mcu.Uout.Json.Nesting.{are_allowed, items_allowed}

-- The calls for the members of an object, and for its end.
abbrev pub object_calls : Members → List Step
object_calls ms = item_calls (to_items ms) ++ end_root ∷ []

pub run-json :
    (realloc : ℕ → Bool) (target : Target)
    → ((n : ℕ) → realloc n ≡ true)
    → TakesMost target
    → (ms : Members) (b : Builder) → Inv b
    → plain_members ms ≡ true
    → 0 < length b.text
    → b.is_mine ≡ true
    → b.obj_ct ≡ 1
    → b.eof ≡ false
    → output b ≡ codes "{"
    → length b.text + costs (object_calls ms) ≤ buf_max_size
    → (are_allowed b.obj_ct (object_calls ms) ≡ true)
      × ((b' : Builder) × ((run realloc target (object_calls ms) b ≡ some b')
            × (output b' ≡ json_text (object_tree ms))))
unfolding to_value plain_tree
run-json realloc target plenty most ms b i plain p mine root open_end start l =
    let is = to_items ms in
    let (b', (done, text)) =
      run-built_all realloc target plenty most (object_calls ms) b i p mine (root-AllDigits is) l in
    let right = json-to_value (object_tree ms) plain in
    (
      ap (λ n. are_allowed n (object_calls ms)) root
          ∙ items_allowed is (end_root ∷ []) 1 (omega arith),
      (b', (done, text ∙ (ap (built_all (object_calls ms)) start ∙ (root-built is ∙ right)))),
    )
