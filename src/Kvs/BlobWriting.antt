-- ===== src/Kvs/BlobWriting.antt =====
-- What `kvs_write_str_or_blob` of kvs/host/kvs_posix.cc writes at the end and over an entry.
use components_mcu.Prelude.{
  take-drop, Aborts, aborted, returns, ◌>>=◌, ℕ, ◌+◌, ◌-◌, ◌≤◌, ◌<◌, Bool, true, false, none, some,
  [], ◌++◌, append_assoc, append-nil, Bytes, ltb, leb, if◌then◌else◌, take, drop, length,
  length-append, length-take, ◌≡◌, refl, sym, ap, ap₂, ◌∙◌, arith,
}
use components_mcu.Kvs.Layout.{
  LineInfo, InRange, max_key_len, sizeof_line_info, li_size, blob_size, encode, length-encode,
}
use components_mcu.Kvs.Store.{write_at, kvs_write, offset}
use components_mcu.Kvs.Blobs.{Spot, blob_entry, reuse, find_key_blob_w, kvs_write_str_or_blob}
use components_mcu.Kvs.Nodes.{Node, Good, node_bytes, write_at-over, write_at-end, write_at-node}
use components_mcu.Kvs.BlobPlacing.{HasRoom, blob_mark}
use components_mcu.Kvs.BlobValues.{is_blob_type, written, written-range, written-storable, shift}

-- The part of `kvs_write_str_or_blob` behind the search.
abbrev pub finish_write : ℕ → Bytes → Bytes → Spot → Aborts (Bytes × ℕ)
finish_write t key src v = reuse v.best (length src) v.file >>= (λ r.
    (if leb (length key) max_key_len
      then kvs_write (blob_entry t key (length src) r.1.0) (offset r.0 r.1.1) r.1.1
      else aborted)
    >>= (λ w. returns (write_at w.1 src w.0, length src)))

module _ (t : ℕ) (key src : Bytes) (h : is_blob_type t ≡ true) (fits : length key ≤ max_key_len)
    (short : length src < 65536) where
  pub finish_write-found :
      (file : Bytes) (w : Spot)
      → find_key_blob_w key (length src) file ≡ returns w
      → kvs_write_str_or_blob t key src file ≡ finish_write t key src w
  unfolding kvs_write_str_or_blob
  finish_write-found file w run = rw run refl

  le : leb (length key) max_key_len ≡ true
  le = ground arith

  pub finish_write-end :
      (file : Bytes) (w : Spot)
      → w.file ≡ file
      → w.best ≡ none
      → (all : length src + 0 ≡ length src)
      → finish_write t key src w
        ≡ returns (
          file ++ node_bytes (written t key src h fits short (length src) [] short all),
          length src,
        )
  unfolding reuse kvs_write
  finish_write-end file w e b all =
      let i = blob_entry t key (length src) (length src) in
      let stored = written-storable t key src h fits short (length src) [] short all in
      let range = written-range t key src h fits short (length src) [] short all in
      let step = write_at-end file (encode i) in
      let size : length file + 32 ≡ length (file ++ encode i) =
        omega (arith, length-append file (encode i), length-encode i range) in
      let bytes : write_at (length file + 32) src (write_at (length file) (encode i) file)
          ≡ file ++ (encode i ++ (src ++ [])) =
        ap₂ (λ p f. write_at p src f) size step
        ∙ (write_at-end (file ++ encode i) src
            ∙ (append_assoc file (encode i) src
                ∙ ap (λ s. file ++ (encode i ++ s)) (sym (append-nil src)))) in
      ap₂ (λ f o. finish_write t key src (record { file = f; best = o; wasted = w.wasted })) e b
      ∙ rw (le, stored) (ap (λ f. returns (f, length src)) bytes)

  payload-over :
      (before after : Bytes) (n : Node) (i : LineInfo)
      → Good n
      → InRange i
      → length src ≤ length n.payload
      → write_at
          (length before + 32)
          src
          (write_at (length before) (encode i) (before ++ (node_bytes n ++ after)))
        ≡ before ++ ((encode i ++ (src ++ drop (length src) n.payload)) ++ after)
  payload-over before after n i g range long =
      let front = take (length src) n.payload in
      let back = drop (length src) n.payload in
      let size : length before + 32 ≡ length (before ++ encode i) =
        omega (arith, length-append before (encode i), length-encode i range) in
      let same : length src ≡ length front =
        omega (arith, length-take (length src) n.payload, long) in
      let split =
        ap (λ p. before ++ ((encode i ++ p) ++ after)) (sym (take-drop (length src) n.payload))
        ∙ shift before (encode i) front back after in
      ap₂ (λ p f. write_at p src f) size (write_at-node before after n i g range ∙ split)
      ∙ (write_at-over (before ++ encode i) front src (back ++ after) same
          ∙ sym (shift before (encode i) src back after))

  pub finish_write-over :
      (before after : Bytes) (n : Node) (w : Spot)
      → w.file ≡ before ++ (node_bytes n ++ after)
      → w.best ≡ some (blob_mark (length before) n)
      → Good n
      → HasRoom (length src) n
      → (small : blob_size n.info < 65536)
      → (sum : length src + length (drop (length src) n.payload) ≡ blob_size n.info)
      → finish_write t key src w
        ≡ returns (
          before
              ++ (node_bytes (
                    written t key src h fits short
                      (blob_size n.info)
                      (drop (length src) n.payload)
                      small
                      sum)
                  ++ after),
          length src,
        )
  unfolding reuse kvs_write
  finish_write-over before after n w e b g room small sum =
      let i = blob_entry t key (length src) (blob_size n.info) in
      let stored =
        written-storable t key src h fits short (blob_size n.info) (drop (length src) n.payload)
          small sum in
      let range =
        written-range t key src h fits short (blob_size n.info) (drop (length src) n.payload) small
          sum in
      let size : length before + li_size n.info - length before - sizeof_line_info
          ≡ blob_size n.info =
        rw (room.0) (omega arith) in
      let long : length src ≤ length n.payload = omega (
        arith,
        sum,
        g.sized,
        ap (λ (x : Bool). if x then blob_size n.info else 0) room.0,
        room.1,
      ) in
      let large : ltb (blob_size n.info) (length src) ≡ false = ground arith in
      let bytes : write_at (length before + 32) src
            (write_at (length before) (encode i) (before ++ (node_bytes n ++ after)))
          ≡ before ++ ((encode i ++ (src ++ drop (length src) n.payload)) ++ after) =
        payload-over before after n i g range long in
      ap₂ (λ f o. finish_write t key src (record { file = f; best = o; wasted = w.wasted })) e b
      ∙ rw (size, large, le, stored) (ap (λ f. returns (f, length src)) bytes)
