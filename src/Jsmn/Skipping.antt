-- ===== src/Jsmn/Skipping.antt =====
-- `skip_value` of jsmn/include/jsmn/jsmn_iterate.hh on the tokens of JSON values.
use components_mcu.Prelude.{
  returns, ◌>>=◌, ℕ, suc, ◌+◌, ◌-◌, ◌≤◌, ◌<◌, true, List, [], ◌∷◌, ◌++◌, length, length-append,
  subst, ◌≡◌, refl, sym, ap, ◌∙◌, arith,
}
use components_mcu.Jsmn.Tokens.{
  Kind, object, array, string, primitive, Token, Json, is_valid, skip_pair, skip_members,
  skip_items, skip_value, skip_key_and_value,
}

-- JSON values, with the positions of their tokens in the text.
mutual
  pub data Value : Type 0 where
    text : ℕ → ℕ → Value
    word : ℕ → ℕ → Value
    members : ℕ → ℕ → Members → Value
    items : ℕ → ℕ → Items → Value

  pub data Members : Type 0 where
    no_members : Members
    member : ℕ → ℕ → Value → Members → Members

  pub data Items : Type 0 where
    no_items : Items
    item : Value → Items → Items

abbrev token : Kind → ℕ → ℕ → ℕ → Token
token k i j n = record { kind = k; start = i; end_index = j; size = n }

abbrev count_members : Members → ℕ
count_members no_members = 0
count_members (member i j v ms) = suc (count_members ms)

abbrev count_items : Items → ℕ
count_items no_items = 0
count_items (item v vs) = suc (count_items vs)

-- The tokens of a value in the order of jsmn: each before what it holds, and a key before its value.
unfoldable mutual
  pub tokens : Value → List Token
  tokens (text i j) = token string i j 0 ∷ []
  tokens (word i j) = token primitive i j 0 ∷ []
  tokens (members i j ms) = token object i j (count_members ms) ∷ member_tokens ms
  tokens (items i j vs) = token array i j (count_items vs) ∷ item_tokens vs

  pub member_tokens : Members → List Token
  member_tokens no_members = []
  member_tokens (member i j v ms) = token string i j 1 ∷ (tokens v ++ member_tokens ms)

  pub item_tokens : Items → List Token
  item_tokens no_items = []
  item_tokens (item v vs) = tokens v ++ item_tokens vs

-- The array holds the tokens from an index on.
abbrev pub Holds : Json → ℕ → List Token → Type 0
Holds c p [] = Unit {0}
Holds c p (t ∷ ts) = (c.tok p ≡ t) × Holds c (p + 1) ts

Holds-front : (c : Json) (p : ℕ) (a b : List Token) → Holds c p (a ++ b) → Holds c p a
Holds-front c p [] b h = tt
Holds-front c p (t ∷ a) b h = (h.0, Holds-front c (p + 1) a b h.1)

Holds-back :
    (c : Json) (p : ℕ) (a b : List Token)
    → Holds c p (a ++ b)
    → (q : ℕ) → q ≡ p + length a
    → Holds c q b
Holds-back c p [] b h q e = subst (λ n. Holds c n b) (sym (e ∙ omega arith)) h
Holds-back c p (t ∷ a) b h q e = Holds-back c (p + 1) a b h.1 q (e ∙ omega arith)

valid : (c : Json) (p : ℕ) → p < c.nmb_tok → is_valid c p ≡ true
valid c p h = ground arith

some_tokens : (v : Value) → 0 < length (tokens v)
unfolding tokens
some_tokens (text i j) = omega arith
some_tokens (word i j) = omega arith
some_tokens (members i j ms) = omega arith
some_tokens (items i j vs) = omega arith

mutual
  unfolding tokens skip_value skip_members skip_items skip_pair

  skips_value :
      (v : Value) (c : Json) (fuel p : ℕ)
      → Holds c p (tokens v)
      → p + length (tokens v) ≤ c.nmb_tok
      → length (tokens v) ≤ suc fuel
      → skip_value c (suc fuel) p ≡ returns (true, p + length (tokens v))
  skips_value (text i j) c fuel p h room f = rw (valid c p (omega (arith, room)), h.0) refl
  skips_value (word i j) c fuel p h room f = rw (valid c p (omega (arith, room)), h.0) refl
  skips_value (members i j ms) c fuel p h room f =
      rw (valid c p (omega (arith, room)), h.0)
        (ap (λ r. r >>= (λ i. returns (true, i)))
            (skips_members ms c fuel (p + 1) h.1 (omega (arith, room)) (omega (arith, f)))
          ∙ ap (λ n. returns (true, n)) (omega arith))
  skips_value (items i j vs) c fuel p h room f =
      rw (valid c p (omega (arith, room)), h.0)
        (ap (λ r. r >>= (λ i. returns (true, i)))
            (skips_items vs c fuel (p + 1) h.1 (omega (arith, room)) (omega (arith, f)))
          ∙ ap (λ n. returns (true, n)) (omega arith))

  skips_members :
      (ms : Members) (c : Json) (fuel p : ℕ)
      → Holds c p (member_tokens ms)
      → p + length (member_tokens ms) ≤ c.nmb_tok
      → length (member_tokens ms) ≤ fuel
      → skip_members c (skip_value c fuel) (count_members ms) p
        ≡ returns (p + length (member_tokens ms))
  skips_members no_members c fuel p h room f = ap returns (omega arith)
  skips_members (member i j v ms) c fuel p h room f =
      let q = p + 1 + length (tokens v) in
      let sizes = length-append (tokens v) (member_tokens ms) in
      let e : fuel ≡ suc (fuel - 1) = omega (arith, f, sizes, some_tokens v) in
      let here : skip_value c fuel (p + 1) ≡ returns (true, q) =
        ap (λ n. skip_value c n (p + 1)) e
        ∙ skips_value v c (fuel - 1) (p + 1)
            (Holds-front c (p + 1) (tokens v) (member_tokens ms) h.1) (omega (arith, room, sizes))
            (omega (arith, f, sizes)) in
      let there =
        skips_members ms c fuel q (Holds-back c (p + 1) (tokens v) (member_tokens ms) h.1 q refl)
          (omega (arith, room, sizes)) (omega (arith, f, sizes)) in
      rw
        (
          valid c p (omega (arith, room)),
          h.0,
          valid c (p + 1) (omega (arith, room, sizes, some_tokens v)),
        )
        (ap (λ r. r >>= (λ r. skip_members c (skip_value c fuel) (count_members ms) r.1)) here
          ∙ (there ∙ ap returns (omega (arith, sizes))))

  skips_items :
      (vs : Items) (c : Json) (fuel p : ℕ)
      → Holds c p (item_tokens vs)
      → p + length (item_tokens vs) ≤ c.nmb_tok
      → length (item_tokens vs) ≤ fuel
      → skip_items c (skip_value c fuel) (count_items vs) p ≡ returns (p + length (item_tokens vs))
  skips_items no_items c fuel p h room f = ap returns (omega arith)
  skips_items (item v vs) c fuel p h room f =
      let q = p + length (tokens v) in
      let sizes = length-append (tokens v) (item_tokens vs) in
      let e : fuel ≡ suc (fuel - 1) = omega (arith, f, sizes, some_tokens v) in
      let here : skip_value c fuel p ≡ returns (true, q) =
        ap (λ n. skip_value c n p) e
        ∙ skips_value v c (fuel - 1) p (Holds-front c p (tokens v) (item_tokens vs) h)
            (omega (arith, room, sizes)) (omega (arith, f, sizes)) in
      let there =
        skips_items vs c fuel q (Holds-back c p (tokens v) (item_tokens vs) h q refl)
          (omega (arith, room, sizes)) (omega (arith, f, sizes)) in
      rw (valid c p (omega (arith, room, sizes, some_tokens v))) (
        ap (λ r. r >>= (λ r. skip_items c (skip_value c fuel) (count_items vs) r.1)) here
        ∙ (there ∙ ap returns (omega (arith, sizes))))

-- Where the array holds the tokens of a value, all of them among the tokens that were parsed, skipping the value
-- leads just behind its last token, and skipping a key and the value from the token before it leads to the
-- same place; no assertion fails. A depth of recursion of the number of the tokens is enough.
pub skip_value-tokens :
    (v : Value) (c : Json) (fuel p : ℕ)
    → Holds c (p + 1) (tokens v)
    → p + 1 + length (tokens v) ≤ c.nmb_tok
    → length (tokens v) ≤ suc fuel
    → (skip_value c (suc fuel) (p + 1) ≡ returns (true, p + 1 + length (tokens v)))
      × (skip_key_and_value c (suc fuel) p ≡ returns (true, p + 1 + length (tokens v)))
unfolding skip_key_and_value skip_pair
skip_value-tokens v c fuel p h room f =
    let e = skips_value v c fuel (p + 1) h room f in
    (e, rw (valid c (p + 1) (omega (arith, room, some_tokens v))) e)
