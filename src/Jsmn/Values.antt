-- ===== src/Jsmn/Values.antt =====
-- Keys and values of jsmn/include/jsmn/jsmn_iterate.hh in a text without zeros.
use components_mcu.Prelude.{
  length-drop, ℕ, zero, suc, ◌+◌, ◌-◌, ◌≤◌, ◌<◌, Bool, true, false, not, ◌&&◌, ◌||◌, ◌⊎◌, ◌↔◌, inl,
  inr, Bool-cases, some, [], ◌∷◌, Bytes, c_str, same_prefix, codes, ◌==◌, ==_iff, take, drop, set,
  get_or, length, length-take, ◌≡◌, refl, sym, ap, ap₂, ◌∙◌, arith,
}
use components_mcu.Jsmn.Tokens.{
  Json, Token, token_length, text_at, is_string, is_primitive, value_equals_null,
  value_equals_false, value_equals_true, key_is_equal,
}
use components_mcu.Jsmn.Getters.{token_bytes, get_in_place}

abbrev pub NoZero : Bytes → Type 0
NoZero [] = Unit {0}
NoZero (c ∷ cs) = ((c == 0) ≡ false) × NoZero cs

true_is_not_false : ¬ (true ≡ false)
true_is_not_false e = cc

nil_is_not_cons : (d : ℕ) (key : Bytes) → ¬ ([] ≡ d ∷ key)
nil_is_not_cons d key e = absurd (omega (arith, ap length e))

and_true : (a b : Bool) → (a && b) ≡ true → (a ≡ true) × (b ≡ true)
and_true true b h = (refl, h)
and_true false b h = (h, cc)

same_prefix_iff :
    (key xs : Bytes)
    → NoZero key
    → (same_prefix (length key) xs key ≡ true) ↔ (take (length key) xs ≡ key)
same_prefix_iff [] xs z = (λ e. refl, λ e. refl)
same_prefix_iff (d ∷ key) [] z =
    ((λ e. absurd (true_is_not_false (sym e ∙ z.0))), (λ e. absurd (nil_is_not_cons d key e)))
same_prefix_iff (d ∷ key) (x ∷ xs) z =
    let (onward, back) = same_prefix_iff key xs z.1 in
    elim (Bool-cases (x == d)) [
      | inr other ↦ (
        (λ e. absurd (true_is_not_false (sym e ∙ rw other refl))),
        (λ e. absurd (true_is_not_false (sym ((==_iff x d).1 (ap (λ l. get_or l 0 0) e)) ∙ other))),
      )
      | inl same ↦
          let nonzero : (x == 0) ≡ false = ap (λ n. n == 0) ((==_iff x d).0 same) ∙ z.0 in
          (
            (λ e. ap₂ ◌∷◌ ((==_iff x d).0 same) (onward (sym (rw (same, nonzero) refl) ∙ e))),
            (λ e. rw (same, nonzero) (back (ap (drop 1) e))),
          )
    ]

-- A token is equal to a key without zeros exactly if it is a string and its text is that key.
pub key_is_equal_iff :
    (c : Json) (it : ℕ) (key : Bytes)
    → NoZero key
    → (c.tok it).end_index ≤ length c.text
    → (key_is_equal c it key ≡ true)
      ↔ ((is_string (c.tok it).kind ≡ true) × (token_bytes c (c.tok it) ≡ key))
unfolding key_is_equal
key_is_equal_iff c it key z inside =
    let t = c.tok it in
    let (onward, back) = same_prefix_iff key (text_at c t) z in
    (
      (λ e.
          let (front, prefix) = and_true (is_string t.kind && (length key == token_length t)) _ e in
          let (string', size) = and_true (is_string t.kind) _ front in
          let n = (==_iff (length key) (token_length t)).0 size in
          (
            string',
            ap (λ m. take m (text_at c t)) (sym n)
                ∙ onward (ap (λ m. same_prefix m (text_at c t) key) n ∙ prefix),
          )),
      (λ e.
          let n : length key ≡ token_length t = omega (
            arith,
            ap length e.1,
            length-take (token_length t) (text_at c t),
            length-drop t.start c.text,
            inside,
          ) in
          let size = (==_iff (length key) (token_length t)).1 n in
          rw (e.0, size)
            (ap (λ m. same_prefix m (text_at c t) key) (sym n)
              ∙ back (ap (λ m. take m (text_at c t)) n ∙ e.1))),
    )

and_false : (a : Bool) → (a && false) ≡ false
and_false true = refl
and_false false = refl

and_middle : (a b : Bool) → (a && false && b) ≡ false
and_middle true b = refl
and_middle false b = refl

and_all_false : (a b c d : Bool) → (a && (b && (c && (d && false)))) ≡ false
and_all_false a b c d = ground arith

fifth : (xs : Bytes) → NoZero xs → 5 ≤ length xs → same_prefix 5 xs (codes "null") ≡ false
fifth [] z h = absurd (omega (arith, h))
fifth (a ∷ []) z h = absurd (omega (arith, h))
fifth (a ∷ b ∷ []) z h = absurd (omega (arith, h))
fifth (a ∷ b ∷ c ∷ []) z h = absurd (omega (arith, h))
fifth (a ∷ b ∷ c ∷ d ∷ []) z h = absurd (omega (arith, h))
fifth (a ∷ b ∷ c ∷ d ∷ e ∷ xs) (za, (zb, (zc, (zd, (ze, z))))) h =
    rw (za, zb, zc, zd, ze) (and_all_false (a == 110) (b == 117) (c == 108) (d == 108))

NoZero-drop : (n : ℕ) (xs : Bytes) → NoZero xs → NoZero (drop n xs)
NoZero-drop zero xs z = z
NoZero-drop (suc n) [] z = tt
NoZero-drop (suc n) (c ∷ xs) z = NoZero-drop n xs z.1

-- In a text without zeros `value_equals_true` tells the same as `value_equals_null`, and `value_equals_false` says
-- false of every token within the text.
pub value_equals_true-value_equals_null :
    (c : Json) (it : ℕ)
    → NoZero c.text
    → (c.tok it).end_index ≤ length c.text
    → (value_equals_true c it ≡ value_equals_null c it) × (value_equals_false c it ≡ false)
unfolding value_equals_true value_equals_null value_equals_false
value_equals_true-value_equals_null c it z inside = (
  refl,
  elim (Bool-cases (token_length (c.tok it) == 5)) [
    | inr no' ↦ rw no' (and_middle (is_primitive (c.tok it).kind) _)
    | inl yes' ↦
        let t = c.tok it in
        let n = (==_iff (token_length t) 5).0 yes' in
        rw
          (
            yes',
            fifth (text_at c t) (NoZero-drop t.start c.text z)
                (omega (arith, n, length-drop t.start c.text, inside)),
          )
          (and_false (is_primitive t.kind && true))
  ],
)

take-nil : (n : ℕ) → take {A = ℕ} n [] ≡ []
take-nil zero = refl
take-nil (suc n) = refl

c_str-set : (xs : Bytes) (j : ℕ) → NoZero xs → c_str (set xs j 0) ≡ take j xs
c_str-set [] zero z = refl
c_str-set [] (suc j) z = refl
c_str-set (x ∷ xs) zero z = refl
c_str-set (x ∷ xs) (suc j) z = rw z.0 (ap (◌∷◌ x) (c_str-set xs j z.1))

c_str-drop-set :
    (xs : Bytes) (i j : ℕ)
    → NoZero xs
    → i ≤ j
    → c_str (drop i (set xs j 0)) ≡ take (j - i) (drop i xs)
c_str-drop-set xs zero j z h = c_str-set xs j z ∙ ap (λ n. take n xs) (omega arith)
c_str-drop-set [] (suc i) j z h = sym (take-nil (j - suc i))
c_str-drop-set (x ∷ xs) (suc i) zero z h = absurd (omega (arith, h))
c_str-drop-set (x ∷ xs) (suc i) (suc j) z h =
    c_str-drop-set xs i j z.1 (omega (arith, h)) ∙ ap (λ n. take n (drop i xs)) (omega arith)

take-drop-set :
    (xs : Bytes) (n i j v : ℕ)
    → (i + n ≤ j) ⊎ (j < i)
    → take n (drop i (set xs j v)) ≡ take n (drop i xs)
take-drop-set [] n i j v h = refl
take-drop-set (x ∷ xs) zero i j v h = refl
take-drop-set (x ∷ xs) (suc n) zero zero v h =
    absurd (elim h [ inl a ↦ omega (arith, a) | inr b ↦ omega (arith, b) ])
take-drop-set (x ∷ xs) (suc n) zero (suc j) v h = ap (◌∷◌ x) (
    take-drop-set xs n 0 j v
      (elim h [ inl a ↦ inl (omega (arith, a)) | inr b ↦ absurd (omega (arith, b)) ]))
take-drop-set (x ∷ xs) (suc n) (suc i) zero v h = refl
take-drop-set (x ∷ xs) (suc n) (suc i) (suc j) v h =
    take-drop-set xs (suc n) i j v
      (elim h [ inl a ↦ inl (omega (arith, a)) | inr b ↦ inr (omega (arith, b)) ])

-- Ending a string or a word in place, in a text without zeros, yields a pointer to a C string that is the text of
-- the token, and leaves the text of each token that ends before it or starts behind the place of the zero.
pub get_in_place_text :
    (c : Json) (t u : Token)
    → NoZero c.text
    → (is_string t.kind || is_primitive t.kind) ≡ true
    → t.start ≤ t.end_index
    → u.start ≤ u.end_index
    → (u.end_index ≤ t.end_index) ⊎ (t.end_index < u.start)
    → ((get_in_place c t).0 ≡ some t.start)
      × ((c_str (text_at (get_in_place c t).1 t) ≡ token_bytes c t)
          × (token_bytes (get_in_place c t).1 u ≡ token_bytes c u))
unfolding get_in_place
get_in_place_text c t u z kind order order' apart =
    let readable : (not (is_string t.kind) && not (is_primitive t.kind)) ≡ false = ground arith in
    rw readable (
      refl,
      (
        c_str-drop-set c.text t.start t.end_index z order,
        take-drop-set c.text (token_length u) u.start t.end_index 0
            (elim apart [ inl a ↦ inl (omega (arith, a, order')) | inr b ↦ inr b ]),
      ),
    )
