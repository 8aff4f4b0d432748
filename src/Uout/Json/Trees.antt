-- ===== src/Uout/Json/Trees.antt =====
-- JSON values, the calls of uout/status_json.cc that build them, and their text.
use components_mcu.Prelude.{
  ℕ, Option, none, some, List, [], ◌∷◌, ◌++◌, append-nil, append_assoc, Bytes, codes, ◌≡◌, refl,
  sym, ap, ◌∙◌, arith,
}
use components_mcu.Uout.Json.{strip_comma}
use components_mcu.Uout.Json.Steps.{
  Step, begin_object, begin_array, end_object, end_array, end_root, value_s, pair_s, quote, label,
  built, built_all, AllDigits,
}
use components_mcu.Uout.Json.Output.{strip_comma-append}

mutual
  -- A string, an object or an array; `items` is what an object or an array holds, with keys or without.
  pub data Value : Type 0 where
    string : Bytes → Value
    object array : Items → Value

  pub data Items : Type 0 where
    no_items : Items
    item : Option Bytes → Value → Items → Items

unfoldable mutual
  pub calls : Option Bytes → Value → List Step
  calls none (string s) = value_s s ∷ []
  calls (some k) (string s) = pair_s k s ∷ []
  calls k (object is) = begin_object k ∷ (item_calls is ++ end_object ∷ [])
  calls k (array is) = begin_array k ∷ (item_calls is ++ end_array ∷ [])

  pub item_calls : Items → List Step
  item_calls no_items = []
  item_calls (item k v is) = calls k v ++ item_calls is

unfoldable mutual
  -- The JSON text.
  pub json : Value → Bytes
  json (string s) = quote s
  json (object is) = b'{' ∷ (json_items is ++ codes "}")
  json (array is) = b'[' ∷ (json_items is ++ codes "]")

  -- The items with commas between them.
  pub json_items : Items → Bytes
  json_items no_items = []
  json_items (item k v is) = (label k ++ json v) ++ json_more is

  pub json_more : Items → Bytes
  json_more no_items = []
  json_more (item k v is) = b',' ∷ ((label k ++ json v) ++ json_more is)

-- The items, each with a comma behind it.
ended : Items → Bytes
ended no_items = []
ended (item k v is) = (label k ++ json v) ++ b',' ∷ ended is

strip_comma-ended : (is : Items) → strip_comma (b',' ∷ ended is) ≡ json_more is
unfolding ended json
strip_comma-ended no_items = refl
strip_comma-ended (item k v is) =
    strip_comma-append (b',' ∷ (label k ++ json v)) b',' (ended is)
    ∙ ap (λ x. (b',' ∷ (label k ++ json v)) ++ x) (strip_comma-ended is)

-- Behind an opening bracket, the comma of the last item is removed.
strip_comma_open :
    (t : Bytes) (c : ℕ) (is : Items)
    → strip_comma (c ∷ []) ≡ c ∷ []
    → strip_comma (t ++ c ∷ ended is) ≡ t ++ c ∷ json_items is
unfolding ended json
strip_comma_open t c no_items h = strip_comma-append t c [] ∙ ap (◌++◌ t) h
strip_comma_open t c (item k v is) h =
    ap strip_comma (sym (append_assoc t (c ∷ (label k ++ json v)) (b',' ∷ ended is)))
    ∙ (strip_comma-append (t ++ c ∷ (label k ++ json v)) b',' (ended is)
        ∙ (ap (λ x. (t ++ c ∷ (label k ++ json v)) ++ x) (strip_comma-ended is)
            ∙ append_assoc t (c ∷ (label k ++ json v)) (json_more is)))

built_all-append :
    (a b : List Step) (t : Bytes) → built_all (a ++ b) t ≡ built_all b (built_all a t)
unfolding built_all
built_all-append [] b t = refl
built_all-append (s ∷ a) b t = built_all-append a b (built s t)

shift : (t k : Bytes) (o : ℕ) (e : Bytes) → (t ++ (k ++ o ∷ [])) ++ e ≡ (t ++ k) ++ o ∷ e
shift t k o e = simp append_assoc

enclosed :
    (t k j o c : Bytes)
    → (((t ++ k) ++ (o ++ j)) ++ (c ++ codes ",")) ≡ t ++ ((k ++ (o ++ (j ++ c))) ++ codes ",")
enclosed t k j o c = simp append_assoc

mutual
  unfolding calls json built_all built ended

  calls-built :
      (k : Option Bytes) (v : Value) (t : Bytes)
      → built_all (calls k v) t ≡ t ++ ((label k ++ json v) ++ codes ",")
  calls-built none (string s) t = refl
  calls-built (some k) (string s) t =
      ap (◌++◌ t) (sym (append_assoc (label (some k)) (quote s) (codes ",")))
  calls-built k (object is) t =
      built_all-append (item_calls is) (end_object ∷ []) (t ++ (label k ++ codes "{"))
      ∙ (ap (λ x. strip_comma x ++ codes "},") (items-built is (t ++ (label k ++ codes "{")))
          ∙ (ap (λ x. strip_comma x ++ codes "},") (shift t (label k) b'{' (ended is))
              ∙ (ap (λ x. x ++ codes "},") (strip_comma_open (t ++ label k) b'{' is refl)
                  ∙ enclosed t (label k) (json_items is) (codes "{") (codes "}"))))
  calls-built k (array is) t =
      built_all-append (item_calls is) (end_array ∷ []) (t ++ (label k ++ codes "["))
      ∙ (ap (λ x. strip_comma x ++ codes "],") (items-built is (t ++ (label k ++ codes "[")))
          ∙ (ap (λ x. strip_comma x ++ codes "],") (shift t (label k) b'[' (ended is))
              ∙ (ap (λ x. x ++ codes "],") (strip_comma_open (t ++ label k) b'[' is refl)
                  ∙ enclosed t (label k) (json_items is) (codes "[") (codes "]"))))

  items-built : (is : Items) (t : Bytes) → built_all (item_calls is) t ≡ t ++ ended is
  items-built no_items t = sym (append-nil t)
  items-built (item k v is) t =
      built_all-append (calls k v) (item_calls is) t
      ∙ (ap (built_all (item_calls is)) (calls-built k v t)
          ∙ (items-built is (t ++ ((label k ++ json v) ++ codes ",")) ∙ simp append_assoc))

-- The items and the closing of the root object, behind the opening brace.
pub root-built :
    (is : Items) → built_all (item_calls is ++ end_root ∷ []) (codes "{") ≡ json (object is)
unfolding built_all json
root-built is =
    built_all-append (item_calls is) (end_root ∷ []) (codes "{")
    ∙ (ap (λ x. strip_comma x ++ codes "}") (items-built is (codes "{"))
        ∙ ap (λ x. x ++ codes "}") (strip_comma_open [] b'{' is refl))

AllDigits-append : (a b : List Step) → AllDigits a → AllDigits b → AllDigits (a ++ b)
AllDigits-append [] b h k = k
AllDigits-append (s ∷ a) b h k = (h.0, AllDigits-append a b h.1 k)

mutual
  unfolding calls

  calls-AllDigits : (k : Option Bytes) (v : Value) → AllDigits (calls k v)
  calls-AllDigits none (string s) = (omega arith, omega arith)
  calls-AllDigits (some k) (string s) = (omega arith, omega arith)
  calls-AllDigits k (object is) = (
    omega arith,
    AllDigits-append (item_calls is) (end_object ∷ []) (items-AllDigits is)
        (omega arith, omega arith),
  )
  calls-AllDigits k (array is) = (
    omega arith,
    AllDigits-append (item_calls is) (end_array ∷ []) (items-AllDigits is)
        (omega arith, omega arith),
  )

  items-AllDigits : (is : Items) → AllDigits (item_calls is)
  items-AllDigits no_items = omega arith
  items-AllDigits (item k v is) =
      AllDigits-append (calls k v) (item_calls is) (calls-AllDigits k v) (items-AllDigits is)

pub root-AllDigits : (is : Items) → AllDigits (item_calls is ++ end_root ∷ [])
root-AllDigits is =
    AllDigits-append (item_calls is) (end_root ∷ []) (items-AllDigits is) (omega arith, omega arith)
