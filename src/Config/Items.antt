-- ===== src/Config/Items.antt =====
-- Settings in the key-value storage: config_kvs/config_kvs.cc over kvs/host/kvs_posix.cc. `opened` is what
-- open(2) returns for the file of CONFIG_APP_CFG_NAMESPACE, with its size. The commit of the storage does
-- nothing on a host. Numbers are bit patterns; what strtoul and atoi make of a text is a parameter.
use components_mcu.Prelude.{
  ℕ, Bool, true, false, Option, none, some, List, Bytes, ◌==◌, if◌then◌else◌, length, Aborts,
  returns, ◌>>=◌, c_str,
}
use components_mcu.Kvs.Store.{kvs_set_int, kvs_get_int}
use components_mcu.Kvs.Blobs.{kvs_set_str, kvs_get_str, kvs_set_blob, kvs_get_blob}
use components_mcu.Kvs.Handles.{Handle, kvs_open, kvs_close}

-- The file of the settings and the handles of the storage.
pub record Config : Type 0 where
  pub file : Bytes
  pub handles : List Handle

-- KVS_TYPE_u32 and KVS_TYPE_i8.
abbrev pub type_u32 : ℕ
type_u32 = 0x04

abbrev pub type_i8 : ℕ
type_i8 = 0x11

abbrev pub or_default {ℓ} : {A : Type ℓ} → A → Option A → A
or_default def none = def
or_default def (some a) = a

module _ (opened : Option (ℕ × ℕ)) where
  -- The common form of the readers: the handle is closed behind the call.
  abbrev pub reading {ℓ} : {A : Type ℓ} → A → (Bytes → A) → Config → A × Config
  reading def get c =
      let (h, hs) = kvs_open opened c.handles in
      elim h [
        | none ↦ (def, record c { handles = hs })
        | some i ↦ (get c.file, record c { handles = kvs_close (some i) hs })
      ]

  -- The common form of the writers: the result where the store cannot be opened is `unopened`.
  abbrev pub writing : Bool → (Bytes → Aborts (Bool × Bytes)) → Config → Aborts (Bool × Config)
  writing unopened put c =
      let (h, hs) = kvs_open opened c.handles in
      elim h [
        | none ↦ returns (unopened, record c { handles = hs })
        | some i ↦ do
          r ← put c.file
          returns (r.0, record { file = r.1; handles = kvs_close (some i) hs })
      ]

  unfoldable pub config_read_item_u32 : Bytes → ℕ → Config → ℕ × Config
  unfolding kvs_open kvs_close kvs_get_int
  config_read_item_u32 key def c =
      reading def (λ file. or_default def (kvs_get_int type_u32 key file)) c

  unfoldable pub config_read_item_i8 : Bytes → ℕ → Config → ℕ × Config
  unfolding kvs_open kvs_close kvs_get_int
  config_read_item_i8 key def c =
      reading def (λ file. or_default def (kvs_get_int type_i8 key file)) c

  -- The string in a buffer of `d_size` bytes.
  unfoldable pub config_read_item_s : Bytes → ℕ → Bytes → Config → Bytes × Config
  unfolding kvs_open kvs_close kvs_get_str
  config_read_item_s key d_size def c =
      reading def (λ file. let r = kvs_get_str key d_size file in if r.0 then c_str r.1 else def) c

  unfoldable pub config_save_item_n_u32 : Bytes → ℕ → Config → Aborts (Bool × Config)
  unfolding kvs_open kvs_close kvs_set_int
  config_save_item_n_u32 key val c =
      writing true (λ file. kvs_set_int type_u32 key val file >>= (λ f. returns (true, f))) c

  unfoldable pub config_save_item_n_i8 : Bytes → ℕ → Config → Aborts (Bool × Config)
  unfolding kvs_open kvs_close kvs_set_int
  config_save_item_n_i8 key val c =
      writing true (λ file. kvs_set_int type_i8 key val file >>= (λ f. returns (true, f))) c

  unfoldable pub config_save_item_u32 :
      (Bytes → ℕ → ℕ) → Bytes → Bytes → ℕ → Config → Aborts (Bool × Config)
  unfolding config_save_item_n_u32
  config_save_item_u32 strtoul key val base c = config_save_item_n_u32 key (strtoul val base) c

  unfoldable pub config_save_item_i8 : (Bytes → ℕ) → Bytes → Bytes → Config → Aborts (Bool × Config)
  unfolding config_save_item_n_i8
  config_save_item_i8 atoi key val c = config_save_item_n_i8 key (atoi val) c

  -- The bytes of a blob of `d_size` bytes.
  unfoldable pub config_read_item_b : Bytes → ℕ → Bytes → Config → Bytes × Config
  unfolding kvs_open kvs_close kvs_get_blob
  config_read_item_b key d_size def c =
      reading def (λ file. let r = kvs_get_blob key d_size file in if r.0 then r.1 else def) c

  unfoldable pub config_save_item_s : Bytes → Bytes → Config → Aborts (Bool × Config)
  unfolding kvs_open kvs_close kvs_set_str
  config_save_item_s key val c =
      writing false (λ file. kvs_set_str key val file >>= (λ r. returns (r.1, r.0))) c

  -- `size == kvs_set_blob(...)`, where the right side is a `bool`.
  unfoldable pub config_save_item_b : Bytes → Bytes → Config → Aborts (Bool × Config)
  unfolding kvs_open kvs_close kvs_set_blob
  config_save_item_b key val c =
      writing false
        (λ file.
          kvs_set_blob key val file >>= (λ r. returns (length val == (if r.1 then 1 else 0), r.0)))
        c
