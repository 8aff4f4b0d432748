-- ===== src/Kvs/Entry.antt =====
-- The entry that a setter of an integer of kvs/host/kvs_posix.cc writes, among the others.
use components_mcu.Prelude.{
  same_prefix, ℕ, ◌-◌, ◌%◌, ◌≤◌, ◌<◌, Bool, true, false, ◌||◌, none, some, List, [], ◌∷◌, ◌++◌,
  Bytes, ◌==◌, if◌then◌else◌, length, length-append, replicate, length-replicate, Bool-cases, ◌⊎◌,
  inl, inr, ◌≡◌, refl, sym, ◌∙◌, subst, arith,
}
use components_mcu.Kvs.Layout.{max_key_len, has_data, li_type_int, li_is_used}
use components_mcu.Kvs.Store.{kvs_type_any, accepts, is_storable, key_array, int_modulus, int_entry}
use components_mcu.Kvs.Nodes.{Node, Good, AllGood}
use components_mcu.Kvs.Keys.{
  matched_by, Absent, Single, key_array-same_prefix, same_prefix-euclidean, same_prefix_sym,
  Absent-agree, Single-insert, Single-alone,
}
use components_mcu.Kvs.Lookup.{lookup, lookup-alone, lookup-insert}

-- The types of up to four bytes: u8, i8, u16, i16, u32 and i32.
abbrev pub is_int_type : ℕ → Bool
is_int_type t =
    (t == 0x01) || (t == 0x11) || (t == 0x02) || (t == 0x12) || (t == 0x04) || (t == 0x14)

-- The entries are good, and every key has at most one.
pub record Stored (ns : List Node) : Type 0 where
  pub good : AllGood ns
  pub single : (k : Bytes) → Single k ns

-- What the types have in common.
pub record IntType (t : ℕ) : Type 0 where
  pub range : t < 256
  pub typed : (t == 0) ≡ false
  pub int : li_type_int t ≡ true
  pub no_data : has_data t ≡ false
  pub used : li_is_used t ≡ true
  pub small : (v : ℕ) → v % int_modulus t < 18446744073709551616
  pub again : (v : ℕ) → (v % int_modulus t) % int_modulus t ≡ v % int_modulus t

int_type_at :
    (t : ℕ)
    → is_int_type t ≡ true
    → (t ≡ 0x01) ⊎ ((t ≡ 0x11) ⊎ ((t ≡ 0x02) ⊎ ((t ≡ 0x12) ⊎ ((t ≡ 0x04) ⊎ (t ≡ 0x14)))))
int_type_at t h = ground arith

laws_u8 : IntType 0x01
laws_u8 = record {
  range = omega arith;
  typed = refl;
  int = refl;
  no_data = refl;
  used = refl;
  small = λ v. omega arith;
  again = λ v. omega arith;
}

laws_i8 : IntType 0x11
laws_i8 = record {
  range = omega arith;
  typed = refl;
  int = refl;
  no_data = refl;
  used = refl;
  small = λ v. omega arith;
  again = λ v. omega arith;
}

laws_u16 : IntType 0x02
laws_u16 = record {
  range = omega arith;
  typed = refl;
  int = refl;
  no_data = refl;
  used = refl;
  small = λ v. omega arith;
  again = λ v. omega arith;
}

laws_i16 : IntType 0x12
laws_i16 = record {
  range = omega arith;
  typed = refl;
  int = refl;
  no_data = refl;
  used = refl;
  small = λ v. omega arith;
  again = λ v. omega arith;
}

laws_u32 : IntType 0x04
laws_u32 = record {
  range = omega arith;
  typed = refl;
  int = refl;
  no_data = refl;
  used = refl;
  small = λ v. omega arith;
  again = λ v. omega arith;
}

laws_i32 : IntType 0x14
laws_i32 = record {
  range = omega arith;
  typed = refl;
  int = refl;
  no_data = refl;
  used = refl;
  small = λ v. omega arith;
  again = λ v. omega arith;
}

pub int_type : (t : ℕ) → is_int_type t ≡ true → IntType t
int_type t h = elim (int_type_at t h) [
  | inl e ↦ subst IntType (sym e) laws_u8
  | inr (inl e) ↦ subst IntType (sym e) laws_i8
  | inr (inr (inl e)) ↦ subst IntType (sym e) laws_u16
  | inr (inr (inr (inl e))) ↦ subst IntType (sym e) laws_i16
  | inr (inr (inr (inr (inl e)))) ↦ subst IntType (sym e) laws_u32
  | inr (inr (inr (inr (inr e)))) ↦ subst IntType (sym e) laws_i32
]

pub AllGood-append : (a b : List Node) → AllGood a → AllGood b → AllGood (a ++ b)
AllGood-append [] b g h = h
AllGood-append (n ∷ a) b g h = (g.0, AllGood-append a b g.1 h)

pub AllGood-front : (a b : List Node) → AllGood (a ++ b) → AllGood a
AllGood-front [] b g = tt
AllGood-front (n ∷ a) b g = (g.0, AllGood-front a b g.1)

pub AllGood-back : (a b : List Node) → AllGood (a ++ b) → AllGood b
AllGood-back [] b g = g
AllGood-back (n ∷ a) b g = AllGood-back a b g.1

pub length-key_array : (k : Bytes) → length k ≤ max_key_len → length (key_array k) ≡ 15
length-key_array k h = omega (
  arith,
  h,
  length-append k (replicate (15 - length k) 0),
  length-replicate {A = ℕ} (15 - length k) 0,
)

pub no_payload : (p : Bytes) → length p ≡ 0 → p ≡ []
no_payload [] h = refl
no_payload (c ∷ p) h = absurd (omega (arith, h))

-- The array of a key agrees with the keys that the key agrees with.
pub key_array-agrees :
    (key j : Bytes)
    → length key ≤ max_key_len
    → same_prefix max_key_len key j ≡ true
    → same_prefix max_key_len (key_array key) j ≡ true
key_array-agrees key j fits s =
    same_prefix-euclidean max_key_len key (key_array key) j
      (same_prefix_sym max_key_len (key_array key) key (key_array-same_prefix key fits)) s

pub key_array-disagrees :
    (key j : Bytes)
    → length key ≤ max_key_len
    → same_prefix max_key_len key j ≡ false
    → same_prefix max_key_len (key_array key) j ≡ false
key_array-disagrees key j fits s = elim (Bool-cases (same_prefix max_key_len (key_array key) j)) [
  | inr other ↦ other
  | inl same ↦
      let agree =
        same_prefix-euclidean max_key_len (key_array key) key j (key_array-same_prefix key fits)
          same in
      cc
]

-- An entry among others that its key does not match.
pub among-Stored :
    (key : Bytes) (e : Node) (a c : List Node)
    → Good e
    → ((j : Bytes) → same_prefix max_key_len key j ≡ false → matched_by j e ≡ false)
    → Absent key a
    → Absent key c
    → AllGood a
    → AllGood c
    → ((k : Bytes) → Single k (a ++ c))
    → Stored (a ++ e ∷ c)
among-Stored key e a c ge apart ha hc ga gc s = record {
  good = AllGood-append a (e ∷ c) ga (ge, gc);
  single = λ k. elim (Bool-cases (same_prefix max_key_len key k)) [
    | inl same ↦ Single-alone k e a c (Absent-agree key k a same ha) (Absent-agree key k c same hc)
    | inr other ↦ Single-insert k e a c (apart k other) (s k)
  ];
}

-- Writing the integer `val` of type `t` at `key`.
module _ (t : ℕ) (key : Bytes) (val : ℕ) (h : is_int_type t ≡ true)
    (fits : length key ≤ max_key_len) where
  abbrev pub entry : Node
  entry = record { info = int_entry t key val; payload = [] }

  pub entry-storable : is_storable (int_entry t key val) ≡ true
  entry-storable = rw ((int_type t h).int) refl

  pub entry-Good : Good entry
  entry-Good = record {
    range = record {
      magic_range = omega arith;
      type_range = (int_type t h).range;
      nval_range = (int_type t h).small val;
      key_range = length-key_array key fits;
    };
    has_cookie = refl;
    typed = (int_type t h).typed;
    storable = entry-storable;
    sized = rw ((int_type t h).no_data) refl;
  }

  entry-matched_by : (j : Bytes) → same_prefix max_key_len key j ≡ true → matched_by j entry ≡ true
  entry-matched_by j s = rw ((int_type t h).used, key_array-agrees key j fits s) refl

  entry-apart : (j : Bytes) → same_prefix max_key_len key j ≡ false → matched_by j entry ≡ false
  entry-apart j s = rw ((int_type t h).used, key_array-disagrees key j fits s) refl

  -- The entry among others that the key does not match.
  module _ (a c : List Node) (ha : Absent key a) (hc : Absent key c) where
    pub entry_among-Stored :
        AllGood a → AllGood c → ((k : Bytes) → Single k (a ++ c)) → Stored (a ++ entry ∷ c)
    entry_among-Stored ga gc s = among-Stored key entry a c entry-Good entry-apart ha hc ga gc s

    pub lookup-entry :
        (j : Bytes) (u : ℕ)
        → (u == kvs_type_any) ≡ false
        → lookup j u (a ++ entry ∷ c) ≡ (
            if same_prefix max_key_len key j
            then (if t == u then some (int_entry t key val) else none)
            else lookup j u (a ++ c))
    unfolding accepts
    lookup-entry j u any = elim (Bool-cases (same_prefix max_key_len key j)) [
      | inl same ↦ rw (same) (
          lookup-alone j u a entry c (Absent-agree key j a same ha) (Absent-agree key j c same hc)
          ∙ rw (entry-matched_by j same, any) refl)
      | inr other ↦ rw other (lookup-insert j u a entry c (entry-apart j other))
    ]
