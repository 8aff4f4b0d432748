-- ===== src/Config/Settings.antt =====
-- The table of settings: `SettingsData`, class `SettingsBase` and class `Settings` of
-- config_kvs/include/config_kvs/settings.hh and settings_template.hh. An item is the number of its
-- enumerator, `none` for a negative one; `otok` is a number, 0 for otok::NONE. The function that
-- outputs a setting is left out of the data.
use components_mcu.Prelude.{
  ℕ, zero, suc, ◌+◌, ◌-◌, ◌%◌, ◌^◌, ◌≤◌, ◌<◌, true, false, Option, none, some, List, [], ◌∷◌, Bytes,
  ◌==◌, if◌then◌else◌, get_or, set, length, Bool-cases, ◌≢◌, inl, inr, ◌≡◌, refl, sym, ap, ◌∙◌,
  arith, get_or-set_self, get_or-set_ne,
}

-- `CBT_none` to `CBT_blob`.
pub data KvsType : Type 0 where
  cbt_none cbt_i8 cbt_u8 cbt_i16 cbt_u16 cbt_i32 cbt_u32 cbt_i64 cbt_u64 cbt_str cbt_f cbt_blob :
      KvsType

pub data StoreFun : Type 0 where
  stf_none stf_direct stf_direct_hex stf_direct_bool : StoreFun

pub record SettingsData : Type 0 where
  pub kvs_key : Bytes
  pub opt_key : ℕ
  pub kvs_type : KvsType
  pub store_fun : StoreFun
  pub id_bit : ℕ

abbrev pub empty_data : SettingsData
empty_data = record {
  kvs_key = [];
  opt_key = 0;
  kvs_type = cbt_none;
  store_fun = stf_none;
  id_bit = 0;
}

-- `m_data[i]`.
abbrev pub data_at : List SettingsData → ℕ → SettingsData
data_at m_data i = get_or m_data i empty_data

-- The loop of `otok2idx`, from index `i` on.
unfoldable pub otok_from : ℕ → ℕ → List SettingsData → Option ℕ
otok_from i opt_key [] = none
otok_from i opt_key (d ∷ ds) =
    let rest = otok_from (i + 1) opt_key ds in if opt_key == d.opt_key then some i else rest

unfoldable pub otok2idx : ℕ → List SettingsData → Option ℕ
unfolding otok_from
otok2idx opt_key m_data = if opt_key == 0 then none else otok_from 0 opt_key m_data

-- `offset` is the parameter `Offset` of the template.
module _ (offset : ℕ) where
  unfoldable pub init_field :
      ℕ → Bytes → ℕ → KvsType → StoreFun → List SettingsData → List SettingsData
  init_field ai kvs_key opt_key kvs_type store_fun m_data =
      let idx = (ai - offset) % 256 in
      set m_data idx (record {
        kvs_key = kvs_key;
        opt_key = opt_key;
        kvs_type = kvs_type;
        store_fun = store_fun;
        id_bit = idx;
      })

  -- The getters by item; a negative one has no data.
  unfoldable pub get_settings_data : Option ℕ → List SettingsData → Option SettingsData
  get_settings_data none m_data = none
  get_settings_data (some item) m_data = some (data_at m_data (item - offset))

  unfoldable pub get_kvs_key : Option ℕ → List SettingsData → Option Bytes
  get_kvs_key none m_data = none
  get_kvs_key (some item) m_data = some (data_at m_data (item - offset)).kvs_key

  unfoldable pub get_kvs_type : Option ℕ → List SettingsData → KvsType
  get_kvs_type none m_data = cbt_none
  get_kvs_type (some item) m_data = (data_at m_data (item - offset)).kvs_type

  unfoldable pub get_opt_key : Option ℕ → List SettingsData → ℕ
  get_opt_key none m_data = 0
  get_opt_key (some item) m_data = (data_at m_data (item - offset)).opt_key

  unfoldable pub get_store_fun : Option ℕ → List SettingsData → StoreFun
  get_store_fun none m_data = stf_none
  get_store_fun (some item) m_data = (data_at m_data (item - offset)).store_fun

  unfoldable pub get_item : ℕ → List SettingsData → Option ℕ
  unfolding otok2idx
  get_item opt_key m_data = elim (otok2idx opt_key m_data) [
    | none ↦ none
    | some idx ↦ some (idx + offset)
  ]

  unfoldable pub get_store_fun_of : ℕ → List SettingsData → StoreFun
  unfolding otok2idx
  get_store_fun_of opt_key m_data = elim (otok2idx opt_key m_data) [
    | none ↦ stf_none
    | some idx ↦ (data_at m_data idx).store_fun
  ]

  -- The type and the key for the storage, by the option.
  unfoldable pub get_kvs_type_of : ℕ → List SettingsData → KvsType
  unfolding get_item get_kvs_type
  get_kvs_type_of opt_key m_data = get_kvs_type (get_item opt_key m_data) m_data

  unfoldable pub get_kvs_key_of : ℕ → List SettingsData → Option Bytes
  unfolding get_item get_kvs_key
  get_kvs_key_of opt_key m_data = get_kvs_key (get_item opt_key m_data) m_data

  -- `BIT64(n)`, a shift in 64 bits, which is defined for `n` below 64.
  unfoldable pub get_bit_mask : ℕ → List SettingsData → ℕ
  unfolding get_item
  get_bit_mask opt_key m_data = elim (get_item opt_key m_data) [
    | none ↦ 0
    | some n ↦ (2 ^ n) % 2 ^ 64
  ]

-- The keys of the options are told apart, up to otok::NONE.
abbrev pub Distinct : List SettingsData → Type 0
Distinct m_data =
    (i j : ℕ)
    → i < length m_data
    → j < length m_data
    → (data_at m_data i).opt_key ≢ 0
    → (data_at m_data i).opt_key ≡ (data_at m_data j).opt_key
    → i ≡ j

-- The first entry with the key is found.
otok_from-first :
    (i opt_key k : ℕ) (ds : List SettingsData)
    → k < length ds
    → (data_at ds k).opt_key ≡ opt_key
    → ((j : ℕ) → j < k → (data_at ds j).opt_key ≢ opt_key)
    → otok_from i opt_key ds ≡ some (i + k)
unfolding otok_from
otok_from-first i opt_key k [] lt e first = absurd (omega arith)
otok_from-first i opt_key zero (d ∷ ds) lt e first =
    let hit : (opt_key == d.opt_key) ≡ true = ground arith in rw hit (ap some (omega arith))
otok_from-first i opt_key (suc k) (d ∷ ds) lt e first =
    let miss : (opt_key == d.opt_key) ≡ false = ground (arith, first 0 (omega arith)) in
    rw miss (
      otok_from-first (i + 1) opt_key k ds (omega arith) e (λ j l. first (suc j) (omega arith))
      ∙ ap some (omega arith))

power_lt : (n m : ℕ) → n < m → 2 ^ n < 2 ^ m
power_lt n zero h = absurd (omega arith)
power_lt zero (suc zero) h = omega arith
power_lt zero (suc (suc m)) h = let i = power_lt zero (suc m) (omega arith) in omega (arith, i)
power_lt (suc n) (suc m) h = let i = power_lt n m (omega arith) in omega (arith, i)

-- In a table whose options are told apart, the item with an option of its own is found again by that
-- option, with its key and its type in the storage and its way to store. Where its number is below 64, its
-- mask is the bit of its number.
pub get_item-get_opt_key :
    (offset item : ℕ) (m_data : List SettingsData)
    → Distinct m_data
    → offset ≤ item
    → item - offset < length m_data
    → get_opt_key offset (some item) m_data ≢ 0
    → let opt_key = get_opt_key offset (some item) m_data in
      (get_item offset opt_key m_data ≡ some item)
      × (get_store_fun_of offset opt_key m_data ≡ get_store_fun offset (some item) m_data)
      × (get_kvs_key_of offset opt_key m_data ≡ get_kvs_key offset (some item) m_data)
      × (get_kvs_type_of offset opt_key m_data ≡ get_kvs_type offset (some item) m_data)
      × (item < 64 → get_bit_mask offset opt_key m_data ≡ 2 ^ item)
unfolding get_kvs_key_of get_kvs_type_of get_opt_key get_item get_store_fun get_store_fun_of
    get_bit_mask otok2idx
get_item-get_opt_key offset item m_data apart le lt nz =
    let k = item - offset in
    let opt_key = (data_at m_data k).opt_key in
    let other : (opt_key == 0) ≡ false = ground arith in
    let first : otok_from 0 opt_key m_data ≡ some k =
      otok_from-first 0 opt_key k m_data lt refl
        (λ j l e. omega (arith, apart j k (omega arith) lt (λ z. nz (sym e ∙ z)) e))
      ∙ ap some (omega arith) in
    let found : otok2idx opt_key m_data ≡ some k = rw (other, otok2idx) first in
    let back : k + offset ≡ item = omega arith in
    let same : get_item offset opt_key m_data ≡ some item = rw (found, get_item) (ap some back) in
    (
      same,
      rw (found, get_store_fun_of) refl,
      rw (same, get_kvs_key_of) refl,
      rw (same, get_kvs_type_of) refl,
      λ small. let below = power_lt item 64 small in rw (same, get_bit_mask) (omega (arith, below)),
    )

-- `initField` of an item whose place is in the table, and below 256, sets what the getters of this
-- item return, and nothing that those of other items in the table return.
pub init_field_only :
    (offset ai item : ℕ) (kvs_key : Bytes) (opt_key : ℕ) (kvs_type : KvsType) (f : StoreFun)
    (m_data : List SettingsData)
    → offset ≤ ai
    → ai - offset < length m_data
    → length m_data ≤ 256
    → offset ≤ item
    → let m_data' = init_field offset ai kvs_key opt_key kvs_type f m_data in
      get_settings_data offset (some item) m_data' ≡ (
        if item == ai
        then some (record {
          kvs_key = kvs_key;
          opt_key = opt_key;
          kvs_type = kvs_type;
          store_fun = f;
          id_bit = ai - offset;
        })
        else get_settings_data offset (some item) m_data)
unfolding init_field get_settings_data
init_field_only offset ai item kvs_key opt_key kvs_type f m_data le lt small le' =
    let idx : (ai - offset) % 256 ≡ ai - offset = omega arith in
    elim (Bool-cases (item == ai)) [
      | inl same ↦
          let e : item - offset ≡ ai - offset = ground arith in
          rw (same, idx, e) (ap some (get_or-set_self m_data (ai - offset) _ empty_data lt))
      | inr other ↦
          let ne : item ≢ ai = ground arith in
          rw (other, idx)
            (ap some (
              get_or-set_ne m_data (ai - offset) (item - offset) _ empty_data
                (λ e. ne (omega (arith, e)))))
    ]
