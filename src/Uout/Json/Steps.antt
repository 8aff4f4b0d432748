-- ===== src/Uout/Json/Steps.antt =====
-- Sequences of calls of uout/status_json.cc, and the text that they mean.
use components_mcu.Prelude.{
  ℕ, ◌≤◌, Bool, Option, none, some, List, [], ◌∷◌, ◌++◌, Bytes, codes, if◌then◌else◌, length,
}
use components_mcu.Uout.Json.{
  Target, Builder, strip_comma, add_object, add_array, close_object, close_array, close_root_object,
  add_key, add_value_s, add_value_d, add_key_value_pair_s, add_key_value_pair_d, put_kv_bool,
}

-- A call that adds to the text.
pub data Step : Type 0 where
  begin_object begin_array : Option Bytes → Step
  end_object end_array end_root : Step
  key value_s value_d : Bytes → Step
  pair_s pair_d : Bytes → Bytes → Step
  pair_bool : Bytes → Bool → Step

abbrev pub succeeded : Bool × Builder → Option Builder
succeeded r = if r.0 then some r.1 else none

abbrev pub quote : Bytes → Bytes
quote s = b'"' ∷ (s ++ b'"' ∷ [])

-- The JSON text of a key, if there is one.
abbrev pub label : Option Bytes → Bytes
label none = []
label (some k) = quote k ++ codes ":"

-- The text that a step makes of the text before it.
unfoldable pub built : Step → Bytes → Bytes
built (begin_object k) t = t ++ (label k ++ codes "{")
built (begin_array k) t = t ++ (label k ++ codes "[")
built end_object t = strip_comma t ++ codes "},"
built end_array t = strip_comma t ++ codes "],"
built end_root t = strip_comma t ++ codes "}"
built (key k) t = t ++ label (some k)
built (value_s v) t = t ++ (quote v ++ codes ",")
built (value_d d) t = t ++ codes ","
built (pair_s k v) t = t ++ (label (some k) ++ (quote v ++ codes ","))
built (pair_d k d) t = t ++ (label (some k) ++ (d ++ codes ","))
built (pair_bool k v) t =
    t ++ (label (some k) ++ ((if v then codes "true" else codes "false") ++ codes ","))

unfoldable pub built_all : List Step → Bytes → Bytes
unfolding built
built_all [] t = t
built_all (s ∷ ss) t = built_all ss (built s t)

-- The digits of an `int`, with its sign, are 11 at most.
abbrev pub HasDigits : Step → Type 0
HasDigits (value_d d) = length d ≤ 11
HasDigits (pair_d k d) = length d ≤ 11
HasDigits s = 0 ≤ 11

abbrev pub AllDigits : List Step → Type 0
AllDigits [] = 0 ≤ 11
AllDigits (s ∷ ss) = HasDigits s × AllDigits ss

abbrev pub next : (Builder → Option Builder) → Option Builder → Option Builder
next f none = none
next f (some b) = f b

module _ (realloc : ℕ → Bool) (target : Target) where
  unfoldable pub perform : Step → Builder → Option Builder
  unfolding add_object add_array close_object close_array close_root_object add_key add_value_s
      add_value_d add_key_value_pair_s add_key_value_pair_d put_kv_bool
  perform (begin_object k) b = succeeded (add_object realloc target k b)
  perform (begin_array k) b = succeeded (add_array realloc target k b)
  perform end_object b = close_object realloc target b
  perform end_array b = close_array realloc target b
  perform end_root b = close_root_object realloc target b
  perform (key k) b = succeeded (add_key realloc target k b)
  perform (value_s v) b = succeeded (add_value_s realloc target v b)
  perform (value_d d) b = succeeded (add_value_d realloc target d b)
  perform (pair_s k v) b = succeeded (add_key_value_pair_s realloc target k v b)
  perform (pair_d k d) b = succeeded (add_key_value_pair_d realloc target k d b)
  perform (pair_bool k v) b = succeeded (put_kv_bool realloc target k v b)

  -- The calls in their order, up to the first that fails.
  unfoldable pub run : List Step → Builder → Option Builder
  unfolding perform
  run [] b = some b
  run (s ∷ ss) b = next (run ss) (perform s b)
