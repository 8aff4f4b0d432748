-- ===== src/Kvs/BlobValues.antt =====
-- Strings and blobs of kvs/host/kvs_posix.cc are read back.
use components_mcu.Prelude.{
  ℕ, ◌+◌, ◌≤◌, ◌<◌, Bool, true, false, ◌||◌, none, some, List, [], ◌∷◌, ◌++◌, append_assoc, Bytes,
  same_prefix, ltb, leb, ◌==◌, ==_iff, ==_refl, if◌then◌else◌, take, drop, length, length-append,
  Bool-cases, inl, inr, subst, ◌≡◌, refl, sym, ap, ap₂, ◌∙◌, arith,
}
use components_mcu.Kvs.Layout.{
  LineInfo, InRange, max_key_len, li_size, li_is_used, li_type_int, has_data, blob_size, blob_len,
  encode, length-encode,
}
use components_mcu.Kvs.Store.{kvs_type_any, accepts, kvs_find_next, read_at, is_storable}
use components_mcu.Kvs.Blobs.{read_found, blob_entry, kvs_read_str_or_blob}
use components_mcu.Kvs.Nodes.{
  Node, Good, AllGood, node_bytes, length-node_bytes, file_of, file_of-append, drop-all, take-here,
}
use components_mcu.Kvs.Search.{first, kvs_find_next-first}
use components_mcu.Kvs.Keys.{matched_by, same_prefix_refl, Absent, Single}
use components_mcu.Kvs.Entry.{
  Stored, key_array-agrees, key_array-disagrees, length-key_array, among-Stored,
}
use components_mcu.Kvs.Lookup.{not_accepted}

abbrev pub is_blob_type : ℕ → Bool
is_blob_type t = (t == 0x21) || (t == 0x42)

record BlobType (t : ℕ) : Type 0 where
  range : t < 256
  typed : (t == 0) ≡ false
  int : li_type_int t ≡ false
  data' : has_data t ≡ true
  used : li_is_used t ≡ true

blob_type : (t : ℕ) → is_blob_type t ≡ true → BlobType t
blob_type t h = elim (Bool-cases (t == 0x21)) [
  | inl s ↦
      subst BlobType (sym ((==_iff t 0x21).0 s))
        (record { range = omega arith; typed = refl; int = refl; data' = refl; used = refl })
  | inr b ↦
      let blob : t ≡ 0x42 = ground arith in
      subst BlobType (sym blob)
        (record { range = omega arith; typed = refl; int = refl; data' = refl; used = refl })
]

pub shift :
    (b e s r after : Bytes) → b ++ ((e ++ (s ++ r)) ++ after) ≡ (b ++ e) ++ (s ++ (r ++ after))
shift b e s r after =
    ap (◌++◌ b) (append_assoc e (s ++ r) after)
    ∙ (sym (append_assoc b e ((s ++ r) ++ after)) ∙ ap (◌++◌ (b ++ e)) (append_assoc s r after))

or_true : (b : Bool) → (b || true) ≡ true
or_true true = refl
or_true false = refl

choose_pair :
    (b : Bool) (n : ℕ) (x y : Bytes)
    → ◌≡◌ {A = ℕ × Bytes} (if b then (n, x) else (n, y)) (n, if b then x else y)
choose_pair true n x y = refl
choose_pair false n x y = refl

-- A search reaches an entry behind others that the key does not match.
first_among :
    (key : Bytes) (t : ℕ) (a : List Node) (m : Node) (c : List Node) (at : ℕ)
    → Absent key a
    → AllGood a
    → accepts (some key) t m.info ≡ true
    → first (some key) t at (a ++ m ∷ c) ≡ some (at + length (file_of a), m.info)
unfolding first file_of
first_among key t [] m c at ha ga acc = rw acc (ap (λ p. some (p, m.info)) (omega arith))
first_among key t (n ∷ a) m c at ha ga acc = rw (not_accepted key t n ha.0) (
    first_among key t a m c (at + li_size n.info) ha.1 ga.1 acc
    ∙ ap (λ p. some (p, m.info))
        (omega (arith, length-append (node_bytes n) (file_of a), length-node_bytes n ga.0)))

-- Writing the data `src` of type `t` at `key`, in an entry with room for `room` bytes, of which `rest` stay.
module _ (t : ℕ) (key src : Bytes) (h : is_blob_type t ≡ true) (fits : length key ≤ max_key_len)
    (short : length src < 65536) (room : ℕ) (rest : Bytes) (small : room < 65536)
    (sum : length src + length rest ≡ room) where
  abbrev pub info : LineInfo
  info = blob_entry t key (length src) room

  abbrev pub written : Node
  written = record { info = info; payload = src ++ rest }

  pub written-range : InRange info
  written-range = record {
    magic_range = omega arith;
    type_range = (blob_type t h).range;
    nval_range = omega (arith, short, small);
    key_range = length-key_array key fits;
  }

  written_len : blob_len info ≡ length src
  written_len = omega (arith, short, small)

  written_size : blob_size info ≡ room
  written_size = omega (arith, short, small)

  pub written-storable : is_storable info ≡ true
  written-storable =
      let le : leb (length src) room ≡ true = ground arith in
      rw ((blob_type t h).int, written_len, written_size) le

  pub written-Good : Good written
  written-Good = record {
    range = written-range;
    has_cookie = refl;
    typed = (blob_type t h).typed;
    storable = written-storable;
    sized = length-append src rest ∙ (sum ∙ rw ((blob_type t h).data') (sym written_size));
  }

  written-matched_by :
      (j : Bytes) → same_prefix max_key_len key j ≡ true → matched_by j written ≡ true
  written-matched_by j s = rw ((blob_type t h).used, key_array-agrees key j fits s) refl

  pub written-apart :
      (j : Bytes) → same_prefix max_key_len key j ≡ false → matched_by j written ≡ false
  written-apart j s = rw ((blob_type t h).used, key_array-disagrees key j fits s) refl

  same_key : same_prefix max_key_len key key ≡ true
  same_key = same_prefix_refl max_key_len key

  read_payload :
      (before after : Bytes)
      → read_at (length before + 32) (length src) (before ++ (node_bytes written ++ after)) ≡ src
  read_payload before after =
      let size : length before + 32 ≡ length (before ++ encode info) =
        omega (arith, length-append before (encode info), length-encode info written-range) in
      ap₂ (λ p f. take (length src) (drop p f)) size (shift before (encode info) src rest after)
      ∙ (ap (take (length src)) (drop-all (before ++ encode info) (src ++ (rest ++ after)))
          ∙ take-here src (rest ++ after))

  -- The entry among others that the key does not match.
  module _ (a c : List Node) (ha : Absent key a) (hc : Absent key c) (ga : AllGood a)
      (gc : AllGood c) (s : (k : Bytes) → Single k (a ++ c)) where
    pub written_among-Stored : Stored (a ++ written ∷ c)
    written_among-Stored = among-Stored key written a c written-Good written-apart ha hc ga gc s

    found :
        kvs_find_next (file_of (a ++ written ∷ c)) none 0 (some key) t
        ≡ some (length (file_of a), info)
    unfolding accepts
    found =
        kvs_find_next-first (a ++ written ∷ c) (some key) t written_among-Stored.good
        ∙ (first_among key t a written c 0 ha ga
              (rw (written-matched_by key same_key, ==_refl t) (or_true (t == kvs_type_any)))
            ∙ ap (λ p. some (p, info)) (omega arith))

    pub read_back :
        (size : ℕ)
        → kvs_read_str_or_blob t key size (file_of (a ++ written ∷ c))
          ≡ (length src, if ltb size (length src) then [] else src)
    unfolding kvs_read_str_or_blob read_found file_of
    read_back size =
        let bytes =
          ap (read_at (length (file_of a) + 32) (length src)) (file_of-append a (written ∷ c))
          ∙ read_payload (file_of a) (file_of c) in
        ap (read_found size (file_of (a ++ written ∷ c))) found
        ∙ rw (written_len, bytes, ==_refl (length src))
            (choose_pair (ltb size (length src)) (length src) [] src)
