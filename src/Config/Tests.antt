-- ===== src/Config/Tests.antt =====
-- The settings of config_kvs/ at concrete tables and files.
use components_mcu.Prelude.{
  ℕ, ◌%◌, ◌^◌, ◌≤◌, Bool, true, Option, some, List, [], ◌∷◌, Bytes, codes, if◌then◌else◌, length,
  same_prefix, ◌<◌, Aborts, aborted, unfinished, returns, ◌≡◌, ◌≢◌, refl, arith,
}
use components_mcu.Kvs.Layout.{max_key_len, encode, decode}
use components_mcu.Kvs.Nodes.{Node, file_of}
use components_mcu.Kvs.Blobs.{
  kvs_set_blob, kvs_write_str_or_blob, find_key_blob_w, find_blob_from, visit_blob, consider_blob,
  reuse, read_found,
}
use components_mcu.Kvs.Store.{kvs_find_next, kvs_write, write_at}
use components_mcu.Kvs.Handles.{
  no_handles, kvs_open, kvs_calloc_handle, calloc_from, open_file, kvs_close, kvs_free_handle,
}
use components_mcu.Config.Items.{
  Config, config_read_item_u32, config_read_item_i8, config_save_item_n_u32, config_save_item_b,
}
use components_mcu.Config.Saving.{Usable, config_save_item_n_u32_read, config_save_item_b_reports}
use components_mcu.Config.Settings.{
  SettingsData, cbt_i8, cbt_str, stf_direct, stf_none, get_opt_key, get_item, get_store_fun,
  get_store_fun_of, get_bit_mask, get_kvs_key, get_kvs_key_of, get_kvs_type, get_kvs_type_of,
  Distinct, get_item-get_opt_key,
}

abbrev empty_config : Config
empty_config = record { file = []; handles = no_handles }

empty-Usable : Usable empty_config []
unfolding file_of
empty-Usable = record {
  content = refl;
  stored = record { good = tt; single = λ k. tt };
  free = refl;
}

abbrev verbose_key : Bytes
verbose_key = codes "C_VERBOSE"

abbrev first_config : Option (ℕ × ℕ)
first_config = some (3, 0)

config_save_item_n_u32_read_example :
    (c' : Config) × (config_save_item_n_u32 first_config verbose_key 5 empty_config
      ≡ returns (true, c'))
    × ((ms : List Node) × Usable c' ms)
    × ((config_read_item_u32 first_config verbose_key 1 c').0 ≡ (
        if same_prefix max_key_len verbose_key verbose_key
        then 5 % 4294967296
        else (config_read_item_u32 first_config verbose_key 1 empty_config).0))
    × (same_prefix max_key_len verbose_key verbose_key ≡ true
        → (config_read_item_i8 first_config verbose_key 1 c').0 ≡ 1)
config_save_item_n_u32_read_example =
    config_save_item_n_u32_read 3 0 verbose_key verbose_key 5 1 empty_config [] (omega arith)
      empty-Usable

abbrev blob : Bytes
blob = 7 ∷ []

abbrev one_byte : Aborts (Bool × Config)
one_byte = config_save_item_b first_config verbose_key blob empty_config

abbrev config_of : Aborts (Bool × Config) → Config
config_of aborted = empty_config
config_of unfinished = empty_config
config_of (returns r) = r.1

one_byte_saved : one_byte ≡ returns (true, config_of one_byte)
unfolding config_save_item_b kvs_set_blob kvs_write_str_or_blob read_found find_key_blob_w
    find_blob_from visit_blob consider_blob reuse encode decode kvs_find_next kvs_write write_at
    kvs_open kvs_calloc_handle calloc_from open_file kvs_close kvs_free_handle
one_byte_saved = refl

config_save_item_b_reports_example : length blob ≤ 1
config_save_item_b_reports_example =
    config_save_item_b_reports first_config verbose_key blob empty_config (config_of one_byte)
      one_byte_saved

-- Two settings, from the item 4 on.
abbrev table : List SettingsData
table =
    record {
      kvs_key = verbose_key;
      opt_key = 11;
      kvs_type = cbt_i8;
      store_fun = stf_direct;
      id_bit = 0;
    }
    ∷ record {
      kvs_key = codes "C_WIFI_SSID";
      opt_key = 12;
      kvs_type = cbt_str;
      store_fun = stf_none;
      id_bit = 1;
    }
    ∷ []

table-Distinct : Distinct table
table-Distinct i j hi hj nz e = ground (arith, e)

some_key : get_opt_key 4 (some 5) table ≢ 0
unfolding get_opt_key
some_key e = omega (arith, e)

get_item-get_opt_key_example :
    (get_item 4 (get_opt_key 4 (some 5) table) table ≡ some 5)
    × (get_store_fun_of 4 (get_opt_key 4 (some 5) table) table ≡ get_store_fun 4 (some 5) table)
    × (get_kvs_key_of 4 (get_opt_key 4 (some 5) table) table ≡ get_kvs_key 4 (some 5) table)
    × (get_kvs_type_of 4 (get_opt_key 4 (some 5) table) table ≡ get_kvs_type 4 (some 5) table)
    × (5 < 64 → get_bit_mask 4 (get_opt_key 4 (some 5) table) table ≡ 2 ^ 5)
get_item-get_opt_key_example =
    get_item-get_opt_key 4 5 table table-Distinct (omega arith) (omega arith) some_key
