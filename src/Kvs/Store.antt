-- ===== src/Kvs/Store.antt =====
-- The key-value store in a file: kvs/host/kvs_posix.cc. A file is its bytes; lseek(2), read(2) and
-- write(2) do what is asked of them, and a read ends at the end of the file. A handle is the file and
-- its offset. A result of -1 is `none`. The assertion of `kvs_write` and the check of the length of a
-- key by `STRLCPY` abort the program; an operation that may abort returns an `Aborts`.
use mathlib.Core.Option
use components_mcu.Prelude.{
  Aborts, aborted, unfinished, returns, ◌>>=◌, ℕ, zero, suc, ◌+◌, ◌-◌, ◌%◌, ◌^◌, Bool, true, false,
  not, ◌&&◌, ◌||◌, Option, none, some, ◌++◌, Bytes, leb, ◌==◌, if◌then◌else◌, set, drop, take,
  length, replicate,
}
use components_mcu.Kvs.Layout.{
  cookie, max_key_len, LineInfo, blob_len, blob_size, sizeof_line_info, li_size, li_type_int,
  li_is_used, mark_deleted, li_match_key, encode, decode,
}

-- write(2) at an offset; a gap behind the end is filled with zeros.
unfoldable pub write_at : ℕ → Bytes → Bytes → Bytes
write_at pos bs file =
    take pos file ++ (replicate (pos - length file) 0 ++ (bs ++ drop (pos + length bs) file))

-- read(2) at an offset.
abbrev pub read_at : ℕ → ℕ → Bytes → Bytes
read_at pos n file = take n (drop pos file)

-- `kvs_read` with the check of the cookie.
unfoldable pub kvs_read : Bytes → ℕ → Option LineInfo
kvs_read file pos =
    let bs = read_at pos sizeof_line_info file in
    let li = decode bs in
    if length bs == sizeof_line_info then (if li.magic == cookie then some li else none) else none

abbrev pub has_best : Option ℕ → Bool
has_best none = false
has_best (some p) = true

abbrev pub kvs_type_any : ℕ
kvs_type_any = 0xff

-- The test of `kvs_find_next`; no key matches every entry.
unfoldable pub accepts : Option Bytes → ℕ → LineInfo → Bool
accepts none t li = (t == kvs_type_any) || (li.kvs_type == t)
accepts (some key) t li = li_match_key li key && ((t == kvs_type_any) || (li.kvs_type == t))

-- What the loop of `kvs_find_next` does with an entry that was read at `pos`.
unfoldable pub find_at :
    (ℕ → Option (ℕ × LineInfo)) → ℕ → Option Bytes → ℕ → Option LineInfo → Option (ℕ × LineInfo)
unfolding accepts
find_at continue pos key t none = none
find_at continue pos key t (some li) =
    let rest = continue (pos + li_size li) in if accepts key t li then some (pos, li) else rest

-- The loop of `kvs_find_next`: the position and the entry that is found.
unfoldable pub find_from : ℕ → Bytes → ℕ → Option Bytes → ℕ → Option (ℕ × LineInfo)
unfolding kvs_read find_at
find_from zero file pos key t = none
find_from (suc fuel) file pos key t =
    find_at (λ p. find_from fuel file p key t) pos key t (kvs_read file pos)

-- `kvs_find_next` behind the entry `li` at `pos`, or from `pos` on where there is none yet.
unfoldable pub kvs_find_next :
    Bytes → Option LineInfo → ℕ → Option Bytes → ℕ → Option (ℕ × LineInfo)
unfolding find_from
kvs_find_next file none pos key t = find_from (suc (length file)) file pos key t
kvs_find_next file (some li) pos key t =
    find_from (suc (length file)) file (if li.kvs_type == 0 then pos else pos + li_size li) key t

-- The assertion of `kvs_write`.
abbrev pub is_storable : LineInfo → Bool
is_storable li = li_type_int li.kvs_type || leb (blob_len li) (blob_size li)

-- `kvs_write` at an offset: the file, and the offset behind the entry.
unfoldable pub kvs_write : LineInfo → ℕ → Bytes → Aborts (Bytes × ℕ)
unfolding write_at
kvs_write li pos file =
    if is_storable li
    then returns (write_at pos (encode li) file, pos + sizeof_line_info)
    else aborted

-- The offset for a position, which is the end of the file where it is negative.
abbrev pub offset : Option ℕ → Bytes → ℕ
offset none file = length file
offset (some pos) file = pos

-- The file after `kvs_write`.
unfoldable pub put_entry : LineInfo → ℕ → Bytes → Aborts Bytes
unfolding kvs_write
put_entry li pos file = do r ← kvs_write li pos file; returns r.0

-- `SET_BIT(kvs_type, 7)`.
abbrev pub marked : LineInfo → LineInfo
marked li = record li { kvs_type = mark_deleted li.kvs_type }

-- `kvs_deleteNode`.
unfoldable pub delete_node : ℕ → Bytes → Aborts Bytes
unfolding put_entry
delete_node pos file = put_entry (marked (decode (read_at pos sizeof_line_info file))) pos file

-- The variables of the loops that look for a place to write.
pub record Place : Type 0 where
  pub file : Bytes
  pub best : Option ℕ

-- What `find_key_int_w` does with the entry `li` at `pos`.
unfoldable pub visit_int :
    (LineInfo → ℕ → Bool → Place → Aborts Place)
    → Bytes
    → Bool
    → Place
    → Option (ℕ × LineInfo)
    → Aborts Place
unfolding delete_node
visit_int continue key ignore_key v none = returns v
visit_int continue key ignore_key v (some (pos, li)) =
    let go_on = continue li pos ignore_key v in
    let wrong_type = not (li_type_int li.kvs_type) in
    let found = returns (record v { best = some pos }) in
    let remember = continue li pos ignore_key (record v { best = some pos }) in
    if li_match_key li key
    then (if wrong_type
        then delete_node pos v.file >>= (λ f. continue li pos true (record v { file = f }))
        else found)
    else if has_best v.best
    then go_on
    else if li_is_used li.kvs_type || wrong_type
    then go_on
    else if ignore_key
    then found
    else remember

-- The loop of `find_key_int_w`.
unfoldable pub find_int_from : ℕ → Bytes → Option LineInfo → ℕ → Bool → Place → Aborts Place
unfolding visit_int kvs_find_next
find_int_from zero key li pos ignore_key v = unfinished
find_int_from (suc fuel) key li pos ignore_key v =
    visit_int (λ l p i w. find_int_from fuel key (some l) p i w) key ignore_key v
      (kvs_find_next v.file li pos none kvs_type_any)

unfoldable pub find_key_int_w : Bytes → Bytes → Aborts Place
unfolding find_int_from
find_key_int_w key file =
    find_int_from (suc (length file)) key none 0 false (record { file = file; best = none })

-- The bytes of the array of a key; a longer key makes `STRLCPY` abort.
abbrev pub key_array : Bytes → Bytes
key_array key = key ++ replicate (15 - length key) 0

-- The number of bytes of an integer is in the low digits of its type.
abbrev pub int_modulus : ℕ → ℕ
int_modulus t = 256 ^ (t % 16)

abbrev pub int_entry : ℕ → Bytes → ℕ → LineInfo
int_entry t key val = record {
  magic = cookie;
  kvs_type = t;
  nval = val % int_modulus t;
  key = key_array key;
}

-- `kvs_set_i8` to `kvs_set_u64`, for the type `t` and a bit pattern; the result is always true.
unfoldable pub kvs_set_int : ℕ → Bytes → ℕ → Bytes → Aborts Bytes
unfolding find_key_int_w put_entry
kvs_set_int t key val file = find_key_int_w key file >>= (λ v.
    if leb (length key) max_key_len
    then put_entry (int_entry t key val) (offset v.best v.file) v.file
    else aborted)

-- `kvs_get_i8` to `kvs_get_u64`: `none` for the default value.
unfoldable pub kvs_get_int : ℕ → Bytes → Bytes → Option ℕ
unfolding kvs_find_next
kvs_get_int t key file =
    Option.map (λ (r : ℕ × LineInfo). r.1.nval % int_modulus t)
      (kvs_find_next file none 0 (some key) t)

-- What `kvs_erase_key` does with the entry that was found.
unfoldable pub erase_found : Bytes → Option (ℕ × LineInfo) → Aborts (Bool × Bytes)
unfolding put_entry
erase_found file none = returns (false, file)
erase_found file (some (pos, li)) =
    put_entry (record (marked li) { key = set li.key 0 0 }) pos file >>= (λ f. returns (true, f))

unfoldable pub kvs_erase_key : Bytes → Bytes → Aborts (Bool × Bytes)
unfolding erase_found kvs_find_next
kvs_erase_key key file = erase_found file (kvs_find_next file none 0 (some key) kvs_type_any)
