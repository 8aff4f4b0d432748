-- ===== src/Kvs/Tests.antt =====
-- The storage of kvs/host at concrete files.
use components_mcu.Prelude.{
  inl, true, false, aborted, returns, ◌>>=◌, same_prefix, none, some, List, [], ◌∷◌, Bytes,
  if◌then◌else◌, ◌≡◌, refl, arith,
}
use components_mcu.Kvs.Layout.{encode, decode, max_key_len}
use components_mcu.Kvs.Store.{
  Place, find_key_int_w, is_storable, int_entry, kvs_find_next, kvs_write, write_at, kvs_set_int,
  kvs_get_int, kvs_erase_key,
}
use components_mcu.Kvs.Blobs.{
  read_found, consider_blob, kvs_set_str, kvs_get_str, kvs_write_str_or_blob, kvs_read_str_or_blob,
  find_key_blob_w, find_blob_from, visit_blob, reuse,
}
use components_mcu.Kvs.Handles.{
  no_handles, calloc_from, kvs_calloc_handle, kvs_free_handle, kvs_close, open_file, kvs_open,
  kvs_open_twice,
}
use components_mcu.Kvs.Foreach.{
  match, key_prefix, foreach_at, foreach_from, foreach_opened, kvs_foreach,
}
use components_mcu.Kvs.Strings.{kvs_write_str_or_blob_read}
use components_mcu.Kvs.Nodes.{Node, file_of}
use components_mcu.Kvs.Entry.{Stored, entry, entry-Good}
use components_mcu.Kvs.Integers.{get_after, kvs_set_int_refines}
use components_mcu.Kvs.History.{Setting, set_all, latest, set_all-latest, kvs_set_int_wide}
use components_mcu.Kvs.Erase.{holds, kvs_erase_key_refines}

abbrev ab : Bytes
ab = 0x61 ∷ 0x62 ∷ []

abbrev cd : Bytes
cd = 0x63 ∷ 0x64 ∷ []

-- An entry of the type u16.
abbrev seven : Node
seven = entry 0x02 ab 7 refl (omega arith)

abbrev one_entry : List Node
one_entry = seven ∷ []

one_entry-Stored : Stored one_entry
one_entry-Stored = record {
  good = (entry-Good 0x02 ab 7 refl (omega arith), tt);
  single = λ k. (λ e. tt, tt);
}

kvs_set_int_refines_example :
    (ms : List Node) × ((kvs_set_int 0x01 cd 300 (file_of one_entry) ≡ returns (file_of ms))
      × (Stored ms
          × (kvs_get_int 0x02 ab (file_of ms)
              ≡ get_after 0x01 cd 300 0x02 ab (kvs_get_int 0x02 ab (file_of one_entry)))))
kvs_set_int_refines_example =
    kvs_set_int_refines 0x01 cd 300 one_entry 0x02 ab refl (omega arith) one_entry-Stored refl

abbrev settings : List Setting
settings =
    record { kind = 0x02; key = ab; val = 7 }
    ∷ record { kind = 0x01; key = cd; val = 300 }
    ∷ record { kind = 0x02; key = ab; val = 8 }
    ∷ []

set_all-latest_example :
    (file : Bytes) × ((set_all settings [] ≡ returns file)
      × (kvs_get_int 0x02 ab file ≡ latest 0x02 ab settings none))
set_all-latest_example =
    set_all-latest settings 0x02 ab
      ((refl, omega arith), ((refl, omega arith), ((refl, omega arith), tt))) refl

latest_run : latest 0x02 ab settings none ≡ some 8
latest_run = refl

kvs_set_int_wide_example :
    (w : Place) × (find_key_int_w ab (file_of one_entry) ≡ returns w)
    × (is_storable (int_entry 0x08 ab 1) ≡ false)
    × (kvs_set_int 0x08 ab 1 (file_of one_entry) ≡ aborted)
kvs_set_int_wide_example =
    kvs_set_int_wide 0x08 ab 1 one_entry refl (omega arith) (omega arith) one_entry-Stored

kvs_erase_key_refines_example :
    (ms : List Node) × ((kvs_erase_key ab (file_of one_entry)
        ≡ returns (holds ab one_entry, file_of ms))
      × (Stored ms
          × (kvs_get_int 0x02 ab (file_of ms) ≡ (
              if same_prefix max_key_len ab ab
              then none
              else kvs_get_int 0x02 ab (file_of one_entry)))))
kvs_erase_key_refines_example = kvs_erase_key_refines ab one_entry 0x02 ab one_entry-Stored

-- A value of another type replaces the first one.
two_settings_run :
    (kvs_set_int 0x02 ab 7 [] >>= kvs_set_int 0x01 ab 300) ≡ kvs_set_int 0x01 ab 300 []
unfolding kvs_set_int encode decode
two_settings_run = refl

-- A string is read back, and again after a shorter one was written in its place.
string_run :
    (kvs_set_str ab (1 ∷ 2 ∷ 3 ∷ []) [] >>= (λ r. returns (kvs_get_str ab 8 r.0)))
    ≡ returns (true, 1 ∷ 2 ∷ 3 ∷ 0 ∷ [])
unfolding kvs_set_str kvs_get_str kvs_write_str_or_blob kvs_read_str_or_blob read_found
    find_key_blob_w find_blob_from visit_blob consider_blob reuse encode decode kvs_find_next
    kvs_write write_at
string_run = refl

kvs_open_twice_example : (kvs_open (some (4, 32)) (kvs_open (some (3, 64)) no_handles).1).0 ≡ none
kvs_open_twice_example = kvs_open_twice no_handles 3 64 (some (4, 32))

-- The handle is free again when the store is closed.
reopen_run :
    (kvs_open (some (4, 32)) (kvs_close (some 3) (kvs_open (some (3, 64)) no_handles).1)).0 ≡ some 3
unfolding kvs_open kvs_calloc_handle calloc_from open_file kvs_close kvs_free_handle
reopen_run = refl

foreach_run :
    (kvs_foreach
      (key_prefix (some (0x61 ∷ [])))
      (λ key t. match)
      0x02
      (some (3, 32))
      (file_of one_entry)
      no_handles).0
    ≡ 1
unfolding kvs_foreach key_prefix kvs_open kvs_calloc_handle calloc_from open_file kvs_close
    kvs_free_handle foreach_opened foreach_from foreach_at kvs_find_next file_of encode decode
foreach_run = refl

kvs_write_str_or_blob_read_example :
    (ms : List Node) × ((kvs_write_str_or_blob 0x21 cd (1 ∷ 2 ∷ []) (file_of one_entry)
        ≡ returns (file_of ms, 2))
      × (Stored ms
          × ((kvs_read_str_or_blob 0x21 cd 8 (file_of ms) ≡ (2, 1 ∷ 2 ∷ []))
              × (kvs_get_int 0x02 ab (file_of ms) ≡ kvs_get_int 0x02 ab (file_of one_entry)))))
kvs_write_str_or_blob_read_example =
    kvs_write_str_or_blob_read 0x21 cd (1 ∷ 2 ∷ []) one_entry 8 0x02 ab refl (omega arith)
      (omega arith) one_entry-Stored (inl refl, tt) refl
