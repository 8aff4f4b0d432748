-- ===== src/Kvs/Blobs.antt =====
-- Strings and blobs of kvs/host/kvs_posix.cc. A size is less than 2^31.
use components_mcu.Prelude.{
  Aborts, aborted, unfinished, returns, ◌>>=◌, ℕ, zero, suc, ◌+◌, ◌-◌, ◌*◌, ◌%◌, Bool, true, false,
  not, ◌&&◌, ◌||◌, Option, none, some, [], ◌∷◌, ◌++◌, Bytes, ltb, leb, ◌==◌, if◌then◌else◌, take,
  length, min,
}
use components_mcu.Kvs.Layout.{
  cookie, max_key_len, LineInfo, blob_len, blob_size, sizeof_line_info, li_size, li_type_int,
  li_is_used, li_match_key,
}
use components_mcu.Kvs.Store.{
  write_at, read_at, kvs_type_any, kvs_find_next, kvs_write, offset, delete_node, key_array,
}

-- The variables of the loop of `find_key_blob_w`: the file, and the best place with what it wastes and
-- its end.
pub record Spot : Type 0 where
  pub file : Bytes
  pub best : Option (ℕ × ℕ)
  pub wasted : ℕ

-- What `find_key_blob_w` does with the entry `li` at `pos` that is not taken for its key.
unfoldable pub consider_blob :
    (LineInfo → ℕ → Bool → Spot → Aborts Spot) → ℕ → ℕ → LineInfo → Bool → Bool → Spot → Aborts Spot
consider_blob continue req_size pos li ignore_key unused_node v =
    let wasted = blob_size li - req_size in
    let here = some (pos, pos + li_size li) in
    let go_on = continue li pos ignore_key v in
    let remember = continue li pos ignore_key (record v { best = here; wasted = wasted }) in
    if li_type_int li.kvs_type || not unused_node || ltb (blob_size li) req_size
    then go_on
    else if (wasted == 0) && ignore_key
    then returns (record v { best = here })
    else if ltb v.wasted wasted
    then go_on
    else remember

-- What `find_key_blob_w` does with the entry `li` at `pos`: the place and its end.
unfoldable pub visit_blob :
    (LineInfo → ℕ → Bool → Spot → Aborts Spot)
    → Bytes
    → ℕ
    → Bool
    → Spot
    → Option (ℕ × LineInfo)
    → Aborts Spot
visit_blob continue key req_size ignore_key v none = returns v
visit_blob continue key req_size ignore_key v (some (pos, li)) =
    let deleting =
      delete_node pos v.file
      >>= (λ f. consider_blob continue req_size pos li true true (record v { file = f })) in
    if li_match_key li key
    then (if not (li_type_int li.kvs_type) && (blob_size li == req_size)
        then returns (record v { best = some (pos, pos + li_size li) })
        else deleting)
    else consider_blob continue req_size pos li ignore_key (not (li_is_used li.kvs_type)) v

-- The loop of `find_key_blob_w`.
unfoldable pub find_blob_from : ℕ → Bytes → ℕ → Option LineInfo → ℕ → Bool → Spot → Aborts Spot
find_blob_from zero key req_size li pos ignore_key v = unfinished
find_blob_from (suc fuel) key req_size li pos ignore_key v =
    visit_blob (λ l p i w. find_blob_from fuel key req_size (some l) p i w) key req_size ignore_key
      v (kvs_find_next v.file li pos none kvs_type_any)

unfoldable pub find_key_blob_w : Bytes → ℕ → Bytes → Aborts Spot
find_key_blob_w key req_size file =
    find_blob_from (suc (length file)) key req_size none 0 false
      (record { file = file; best = none; wasted = 1000 })

abbrev pub blob_entry : ℕ → Bytes → ℕ → ℕ → LineInfo
blob_entry t key len size = record {
  magic = cookie;
  kvs_type = t;
  nval = len % 65536 + 65536 * (size % 65536);
  key = key_array key;
}

-- The size that `kvs_write_str_or_blob` gives the entry, where it writes it, and the file: an entry that is
-- too small is deleted and not used.
unfoldable pub reuse : Option (ℕ × ℕ) → ℕ → Bytes → Aborts (Option ℕ × (ℕ × Bytes))
reuse none len file = returns (none, (len, file))
reuse (some (pos, end_pos)) len file =
    let size = end_pos - pos - sizeof_line_info in
    if ltb size len
    then delete_node pos file >>= (λ f. returns (none, (size, f)))
    else returns (some pos, (size, file))

-- `kvs_write_str_or_blob`: the file, and the number of bytes written.
unfoldable pub kvs_write_str_or_blob : ℕ → Bytes → Bytes → Bytes → Aborts (Bytes × ℕ)
kvs_write_str_or_blob t key src file = do
  v ← find_key_blob_w key (length src) file
  r ← reuse v.best (length src) v.file
  w ←
      (if leb (length key) max_key_len
        then kvs_write (blob_entry t key (length src) r.1.0) (offset r.0 r.1.1) r.1.1
        else aborted)
  returns (write_at w.1 src w.0, length src)

-- What `kvs_read_str_or_blob` does with the entry that was found.
unfoldable pub read_found : ℕ → Bytes → Option (ℕ × LineInfo) → ℕ × Bytes
read_found size file none = (0, [])
read_found size file (some (pos, li)) =
    let len = blob_len li in
    let bs = read_at (pos + sizeof_line_info) len file in
    if ltb size len then (len, []) else if length bs == len then (len, bs) else (0, bs)

-- `kvs_read_str_or_blob`: the number that it returns, and the bytes at `dst`.
unfoldable pub kvs_read_str_or_blob : ℕ → Bytes → ℕ → Bytes → ℕ × Bytes
kvs_read_str_or_blob t key size file = read_found size file (kvs_find_next file none 0 (some key) t)

abbrev pub kvs_type_str : ℕ
kvs_type_str = 0x21

abbrev pub kvs_type_blob : ℕ
kvs_type_blob = 0x42

-- `kvs_set_str` and `kvs_set_blob`; the result of the first is whether all bytes were written.
unfoldable pub kvs_set_str : Bytes → Bytes → Bytes → Aborts (Bytes × Bool)
kvs_set_str key val file =
    kvs_write_str_or_blob kvs_type_str key val file >>= (λ r. returns (r.0, r.1 == length val))

unfoldable pub kvs_set_blob : Bytes → Bytes → Bytes → Aborts (Bytes × Bool)
kvs_set_blob key val file =
    kvs_write_str_or_blob kvs_type_blob key val file >>= (λ r. returns (r.0, not (r.1 == 0)))

-- `kvs_get_blob`, and `kvs_get_str` with the zero that `kvs_read_str` puts behind the bytes that were read.
-- Where the data are longer than the destination, nothing is read and the call fails; the zero that then
-- ends the old bytes of the destination is left out.
unfoldable pub kvs_get_blob : Bytes → ℕ → Bytes → Bool × Bytes
kvs_get_blob key dst_size file =
    let (n, bs) = kvs_read_str_or_blob kvs_type_blob key dst_size file in (dst_size == n, bs)

unfoldable pub kvs_get_str : Bytes → ℕ → Bytes → Bool × Bytes
kvs_get_str key dst_size file =
    let (n, bs) = kvs_read_str_or_blob kvs_type_str key dst_size file in
    (
      not (n == 0) && ltb n dst_size,
      if (n == 0) || ltb dst_size n then bs else take (min n (dst_size - 1)) bs ++ 0 ∷ [],
    )
