-- ===== src/Kvs/Layout.antt =====
-- `struct line_info` of kvs/host/kvs_templates.hh and its macros. In the file it has the layout of x86-64: 32
-- bytes, the union at 8 and the key at 16. The union is the number that its 8 bytes are in little
-- endian; an integer is its bit pattern.
use native.Mathlib.Numerals.{unary_clauses}
use components_mcu.Prelude.{
  same_prefix, ℕ, zero, suc, ◌+◌, ◌*◌, ◌/◌, ◌%◌, ◌^◌, ◌≤◌, ◌<◌, Bool, not, ◌&&◌, [], ◌∷◌, ◌++◌,
  Bytes, ◌==◌, if◌then◌else◌, get_or, drop, take, length, length-append, take-append, ◌≡◌, refl, ap,
  ◌∙◌, arith,
}

abbrev pub cookie : ℕ
cookie = 0xbeef

abbrev pub max_key_len : ℕ
max_key_len = 14

-- `key` holds the 15 bytes of the array.
pub record LineInfo : Type 0 where
  pub magic : ℕ
  pub kvs_type : ℕ
  pub nval : ℕ
  pub key : Bytes

abbrev pub blob_len : LineInfo → ℕ
blob_len li = li.nval % 65536

abbrev pub blob_size : LineInfo → ℕ
blob_size li = (li.nval / 65536) % 65536

-- `kvs_type & 0x60`.
abbrev pub has_data : ℕ → Bool
has_data t = not ((t / 32) % 4 == 0)

abbrev pub sizeof_line_info : ℕ
sizeof_line_info = 32

abbrev pub li_size : LineInfo → ℕ
li_size li = sizeof_line_info + (if has_data li.kvs_type then blob_size li else 0)

abbrev pub li_type_int : ℕ → Bool
li_type_int t = not (has_data t) && not (t % 8 == 0)

abbrev pub li_is_used : ℕ → Bool
li_is_used t = ((t / 128) % 2 == 0) && not (t == 0)

-- `SET_BIT(kvs_type, 7)`.
abbrev pub mark_deleted : ℕ → ℕ
mark_deleted t = if (t / 128) % 2 == 0 then t + 128 else t

abbrev pub li_match_key : LineInfo → Bytes → Bool
li_match_key li key = li_is_used li.kvs_type && same_prefix max_key_len li.key key

-- The bytes of a number in little endian.
abbrev pub bytes_of : ℕ → ℕ → Bytes
bytes_of zero n = []
bytes_of (suc k) n = (n % 256) ∷ bytes_of k (n / 256)

abbrev pub number_of : Bytes → ℕ
number_of [] = 0
number_of (b ∷ bs) = b + 256 * number_of bs

unfoldable pub encode : LineInfo → Bytes
encode li =
    bytes_of 2 li.magic
    ++ (bytes_of 1 li.kvs_type
        ++ (0 ∷ 0 ∷ 0 ∷ 0 ∷ 0 ∷ [] ++ (bytes_of 8 li.nval ++ (li.key ++ 0 ∷ []))))

unfoldable pub decode : Bytes → LineInfo
decode bs = record {
  magic = number_of (take 2 bs);
  kvs_type = get_or bs 2 0;
  nval = number_of (take 8 (drop 8 bs));
  key = take 15 (drop 16 bs);
}

-- The fields are in the range of their types.
pub record InRange (li : LineInfo) : Type 0 where
  pub magic_range : li.magic < 65536
  pub type_range : li.kvs_type < 256
  pub nval_range : li.nval < 18446744073709551616
  pub key_range : length li.key ≡ 15

pub length-encode : (li : LineInfo) → InRange li → length (encode li) ≡ sizeof_line_info
unfolding encode
length-encode li r = omega (arith, length-append li.key (0 ∷ []), r.key_range)

take-all : (k : Bytes) (n : ℕ) → length k ≡ n → take n k ≡ k
take-all [] zero h = refl
take-all [] (suc n) h = refl
take-all (c ∷ k) zero h = absurd (omega (arith, h))
take-all (c ∷ k) (suc n) h = ap (◌∷◌ c) (take-all k n (omega (arith, h)))

take-take : (k r : Bytes) (m n : ℕ) → m ≤ n → take m (take n (k ++ r)) ≡ take m (k ++ r)
take-take k r zero n h = refl
take-take k r (suc m) zero h = absurd (omega arith)
take-take [] [] (suc m) (suc n) h = refl
take-take [] (c ∷ r) (suc m) (suc n) h = ap (◌∷◌ c) (take-take [] r m n (omega arith))
take-take (c ∷ k) r (suc m) (suc n) h = ap (◌∷◌ c) (take-take k r m n (omega arith))

number_of-bytes_of : (k n : ℕ) → n < 256 ^ k → number_of (bytes_of k n) ≡ n
number_of-bytes_of zero n h = omega arith
number_of-bytes_of (suc k) n h =
    let power : 256 ^ suc k ≡ 256 * 256 ^ k = simp unary_clauses (omega arith) in
    let small : n / 256 < 256 ^ k = omega (arith, h, power) in
    let ih = number_of-bytes_of k (n / 256) small in omega (arith, ih)

key-read : (key rest : Bytes) → length key ≡ 15 → take 15 (take 16 ((key ++ 0 ∷ []) ++ rest)) ≡ key
key-read key rest h =
    ap (take 15)
      (take-append 16 (key ++ 0 ∷ []) rest (omega (arith, length-append key (0 ∷ []), h)))
    ∙ (take-take key (0 ∷ []) 15 16 (omega arith)
        ∙ (take-append 15 key (0 ∷ []) (omega (arith, h)) ∙ take-all key 15 h))

-- What is written is read back, whatever follows.
pub decode-encode :
    (li : LineInfo) (rest : Bytes)
    → InRange li
    → decode (take sizeof_line_info (encode li ++ rest)) ≡ li
unfolding encode decode
decode-encode li rest r =
    let m : li.magic % 256 + 256 * ((li.magic / 256) % 256 + 256 * 0) ≡ li.magic =
      omega (arith, r.magic_range) in
    let t : li.kvs_type % 256 ≡ li.kvs_type = omega (arith, r.type_range) in
    let v = number_of-bytes_of 8 li.nval r.nval_range in
    λ i. record {
      magic = m i;
      kvs_type = t i;
      nval = v i;
      key = key-read li.key rest r.key_range i;
    }
