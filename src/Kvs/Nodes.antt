-- ===== src/Kvs/Nodes.antt =====
-- The file of kvs/host/kvs_posix.cc as a list of entries with their data.
use components_mcu.Prelude.{
  returns, ℕ, zero, suc, ◌+◌, ◌-◌, ◌≤◌, true, false, none, some, List, [], ◌∷◌, ◌++◌, append-nil,
  append_assoc, Bytes, ◌==◌, if◌then◌else◌, take, drop, length, length-append, length-take, ◌≡◌,
  refl, sym, ap, ap₂, ◌∙◌, arith,
}
use components_mcu.Kvs.Layout.{
  cookie, LineInfo, InRange, blob_size, has_data, sizeof_line_info, li_size, encode, decode,
  length-encode, decode-encode,
}
use components_mcu.Kvs.Store.{read_at, write_at, kvs_read, is_storable, kvs_write, put_entry}

pub record Node : Type 0 where
  pub info : LineInfo
  pub payload : Bytes

-- The entry is in range, has the cookie and passes the assertion of `kvs_write`, its type is not 0,
-- and its data have the size that it names.
pub record Good (n : Node) : Type 0 where
  pub range : InRange n.info
  pub has_cookie : n.info.magic ≡ cookie
  pub typed : (n.info.kvs_type == 0) ≡ false
  pub storable : is_storable n.info ≡ true
  pub sized : length n.payload ≡ (if has_data n.info.kvs_type then blob_size n.info else 0)

abbrev pub AllGood : List Node → Type 0
AllGood [] = Unit {0}
AllGood (n ∷ ns) = Good n × AllGood ns

abbrev pub node_bytes : Node → Bytes
node_bytes n = encode n.info ++ n.payload

unfoldable pub file_of : List Node → Bytes
file_of [] = []
file_of (n ∷ ns) = node_bytes n ++ file_of ns

pub length-node_bytes : (n : Node) → Good n → length (node_bytes n) ≡ li_size n.info
length-node_bytes n g =
    omega (arith, length-append (encode n.info) n.payload, length-encode n.info g.range, g.sized)

pub file_of-append : (a b : List Node) → file_of (a ++ b) ≡ file_of a ++ file_of b
unfolding file_of
file_of-append [] b = refl
file_of-append (n ∷ a) b =
    ap (◌++◌ (node_bytes n)) (file_of-append a b)
    ∙ sym (append_assoc (node_bytes n) (file_of a) (file_of b))

pub drop-all : (a b : Bytes) → drop (length a) (a ++ b) ≡ b
drop-all [] b = refl
drop-all (c ∷ a) b = drop-all a b

pub take-here : (a b : Bytes) → take (length a) (a ++ b) ≡ a
take-here [] b = refl
take-here (c ∷ a) b = ap (◌∷◌ c) (take-here a b)

drop_beyond : (n : ℕ) (a : Bytes) → length a ≤ n → drop n a ≡ []
drop_beyond zero [] h = refl
drop_beyond zero (c ∷ a) h = absurd (omega (arith, h))
drop_beyond (suc n) [] h = refl
drop_beyond (suc n) (c ∷ a) h = drop_beyond n a (omega (arith, h))

pub decode-node :
    (before : Bytes) (n : Node) (rest : Bytes)
    → Good n
    → decode (read_at (length before) sizeof_line_info (before ++ (node_bytes n ++ rest))) ≡ n.info
decode-node before n rest g =
    ap (λ x. decode (take sizeof_line_info x))
      (drop-all before (node_bytes n ++ rest) ∙ append_assoc (encode n.info) n.payload rest)
    ∙ decode-encode n.info (n.payload ++ rest) g.range

-- Reading at an entry yields it.
pub kvs_read-node :
    (before : Bytes) (n : Node) (rest : Bytes)
    → Good n
    → kvs_read (before ++ (node_bytes n ++ rest)) (length before) ≡ some n.info
unfolding kvs_read
kvs_read-node before n rest g =
    let whole = append_assoc (encode n.info) n.payload rest in
    let at : drop (length before) (before ++ (node_bytes n ++ rest))
        ≡ encode n.info ++ (n.payload ++ rest) =
      drop-all before (node_bytes n ++ rest) ∙ whole in
    let size : length (take sizeof_line_info (encode n.info ++ (n.payload ++ rest)))
        ≡ sizeof_line_info =
      omega (
        arith,
        length-take sizeof_line_info (encode n.info ++ (n.payload ++ rest)),
        length-append (encode n.info) (n.payload ++ rest),
        length-encode n.info g.range,
      ) in
    rw (at, size, decode-encode n.info (n.payload ++ rest) g.range, g.has_cookie) refl

-- Reading at the end finds nothing.
pub kvs_read-end : (before : Bytes) → kvs_read before (length before) ≡ none
unfolding kvs_read
kvs_read-end before =
    let at : drop (length before) before ≡ [] =
      ap (drop (length before)) (sym (append-nil before)) ∙ drop-all before [] in
    rw at refl

-- Writing over as many bytes replaces them.
pub write_at-over :
    (before old new rest : Bytes)
    → length new ≡ length old
    → write_at (length before) new (before ++ (old ++ rest)) ≡ before ++ (new ++ rest)
unfolding write_at
write_at-over before old new rest h =
    let front = take-here before (old ++ rest) in
    let gap : length before - length (before ++ (old ++ rest)) ≡ 0 =
      omega (arith, length-append before (old ++ rest)) in
    let size : length before + length new ≡ length (before ++ old) =
      omega (arith, length-append before old, h) in
    let back : drop (length before + length new) (before ++ (old ++ rest)) ≡ rest =
      ap₂ drop size (sym (append_assoc before old rest)) ∙ drop-all (before ++ old) rest in
    rw (front, gap, back) refl

-- Writing at the end appends.
pub write_at-end : (file new : Bytes) → write_at (length file) new file ≡ file ++ new
unfolding write_at
write_at-end file new =
    let front : take (length file) file ≡ file =
      ap (take (length file)) (sym (append-nil file)) ∙ take-here file [] in
    let gap : length file - length file ≡ 0 = omega arith in
    let back : drop (length file + length new) file ≡ [] =
      drop_beyond (length file + length new) file (omega arith) in
    rw (front, gap, back, append-nil) refl

pub write_at-node :
    (before rest : Bytes) (n : Node) (li : LineInfo)
    → Good n
    → InRange li
    → write_at (length before) (encode li) (before ++ (node_bytes n ++ rest))
      ≡ before ++ ((encode li ++ n.payload) ++ rest)
write_at-node before rest n li g r =
    let same : length (encode li) ≡ length (encode n.info) =
      length-encode li r ∙ sym (length-encode n.info g.range) in
    let over = write_at-over before (encode n.info) (encode li) (n.payload ++ rest) same in
    ap (λ x. write_at (length before) (encode li) (before ++ x))
      (append_assoc (encode n.info) n.payload rest)
    ∙ (over ∙ ap (◌++◌ before) (sym (append_assoc (encode li) n.payload rest)))

-- An entry is written over another one.
pub put_entry-over :
    (before rest : Bytes) (n : Node) (li : LineInfo)
    → Good n
    → InRange li
    → is_storable li ≡ true
    → put_entry li (length before) (before ++ (node_bytes n ++ rest))
      ≡ returns (before ++ ((encode li ++ n.payload) ++ rest))
unfolding put_entry kvs_write
put_entry-over before rest n li g r s = rw s (ap returns (write_at-node before rest n li g r))

-- An entry is written at the end.
pub put_entry-end :
    (file : Bytes) (li : LineInfo)
    → is_storable li ≡ true
    → put_entry li (length file) file ≡ returns (file ++ encode li)
unfolding put_entry kvs_write
put_entry-end file li s = rw s (ap returns (write_at-end file (encode li)))
