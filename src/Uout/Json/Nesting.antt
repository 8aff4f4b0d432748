-- ===== src/Uout/Json/Nesting.antt =====
-- The conditions of `precond` on the nesting of the calls of uout/status_json.cc.
use components_mcu.Prelude.{
  ℕ, ◌+◌, ◌-◌, ◌≤◌, Bool, true, ◌&&◌, Option, none, some, List, [], ◌∷◌, ◌++◌, append_assoc, Bytes,
  leb, ltb, ◌==◌, ◌≡◌, refl, ap, ◌∙◌, arith,
}
use components_mcu.Uout.Json.Steps.{
  Step, begin_object, begin_array, end_object, end_array, end_root,
}
use components_mcu.Uout.Json.Trees.{
  Value, Items, string, object, array, no_items, item, calls, item_calls,
}

-- `m_obj_ct` behind a call.
abbrev count : ℕ → Step → ℕ
count ct (begin_object k) = ct + 1
count ct (begin_array k) = ct + 1
count ct end_object = ct - 1
count ct end_array = ct - 1
count ct end_root = ct - 1
count ct s = ct

-- The condition on `m_obj_ct`, where `ROOT_OBJS` is 1.
abbrev allowed : ℕ → Step → Bool
allowed ct (begin_object k) = leb 1 ct
allowed ct (begin_array k) = leb 1 ct
allowed ct end_object = ltb 1 ct
allowed ct end_array = ltb 1 ct
allowed ct end_root = ct == 1
allowed ct s = true

-- The conditions of all calls.
abbrev pub are_allowed : ℕ → List Step → Bool
are_allowed ct [] = true
are_allowed ct (s ∷ ss) = allowed ct s && are_allowed (count ct s) ss

inside : (n : ℕ) (x : Bool) → 1 ≤ n → (leb 1 n && (ltb 1 (n + 1) && x)) ≡ x
inside n x h =
    let open_root : leb 1 n ≡ true = ground arith in
    let open_here : ltb 1 (n + 1) ≡ true = ground arith in rw (open_root, open_here) refl

back : (n : ℕ) (rest : List Step) → are_allowed (n + 1 - 1) rest ≡ are_allowed n rest
back n rest = let same : n + 1 - 1 ≡ n = omega arith in ap (λ m. are_allowed m rest) same

mutual
  unfolding calls

  calls_allowed :
      (k : Option Bytes) (v : Value) (rest : List Step) (n : ℕ)
      → 1 ≤ n
      → are_allowed n (calls k v ++ rest) ≡ are_allowed n rest
  calls_allowed none (string s) rest n h = refl
  calls_allowed (some k) (string s) rest n h = refl
  calls_allowed k (object is) rest n h =
      ap (λ ss. leb 1 n && are_allowed (n + 1) ss)
        (append_assoc (item_calls is) (end_object ∷ []) rest)
      ∙ ap (λ x. leb 1 n && x) (items_allowed is (end_object ∷ rest) (n + 1) (omega arith))
      ∙ inside n (are_allowed (n + 1 - 1) rest) h
      ∙ back n rest
  calls_allowed k (array is) rest n h =
      ap (λ ss. leb 1 n && are_allowed (n + 1) ss)
        (append_assoc (item_calls is) (end_array ∷ []) rest)
      ∙ ap (λ x. leb 1 n && x) (items_allowed is (end_array ∷ rest) (n + 1) (omega arith))
      ∙ inside n (are_allowed (n + 1 - 1) rest) h
      ∙ back n rest

  pub items_allowed :
      (is : Items) (rest : List Step) (n : ℕ)
      → 1 ≤ n
      → are_allowed n (item_calls is ++ rest) ≡ are_allowed n rest
  items_allowed no_items rest n h = refl
  items_allowed (item k v is) rest n h =
      ap (are_allowed n) (append_assoc (calls k v) (item_calls is) rest)
      ∙ calls_allowed k v (item_calls is ++ rest) n h
      ∙ items_allowed is rest n h
