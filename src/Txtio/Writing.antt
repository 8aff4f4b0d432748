-- ===== src/Txtio/Writing.antt =====
-- `io_write` and `io_getline` of txtio/inout.cc.
use components_mcu.Prelude.{
  ℕ, zero, suc, ◌+◌, ◌-◌, ◌<◌, Bool, true, false, not, ◌&&◌, some, List, [], ◌∷◌, ◌++◌, Bytes,
  length, take, drop, ◌==◌, if◌then◌else◌, ltb, ℤ, negsuc, ◌≡◌, refl, ap, ◌∙◌, arith,
}
use components_mcu.Txtio.Inout.{got_line, put_front, getline_from, io_getline}

-- A call that returned `r` for `s` behind `out` stopped at a character that was refused: it returns
-- -1 minus the number of the characters that did not go out.
pub record Stopped (put : Bytes → ℕ → Bool) (s out : Bytes) (r : ℤ × Bytes) : Type 0 where
  pub taken : Bytes
  pub refused : ℕ
  pub rest : Bytes
  pub parts : s ≡ taken ++ refused ∷ rest
  pub refuses : put (out ++ taken) refused ≡ false
  pub result : r ≡ (negsuc (length rest + 1), out ++ taken)

abbrev pub no_semicolon : Bytes → Bool
no_semicolon [] = true
no_semicolon (c ∷ cs) = not (c == b';') && no_semicolon cs

put_front_if :
    (c : ℕ) (test : Bool) (text text' : Bytes) (rest rest' : List ℕ)
    → put_front c (if test then got_line text rest else got_line text' rest')
      ≡ (if test then got_line (c ∷ text) rest else got_line (c ∷ text') rest')
put_front_if c true text text' rest rest' = refl
put_front_if c false text text' rest rest' = refl

getline_from_room :
    (room : ℕ) (text rest : List ℕ)
    → no_semicolon text ≡ true
    → getline_from room (text ++ b';' ∷ rest) ≡ (
        if ltb (length text) room
        then got_line text rest
        else got_line (take room text) (drop room text ++ b';' ∷ rest))
unfolding getline_from
getline_from_room zero text rest free =
    let none_left : ltb (length text) 0 ≡ false = ground arith in rw none_left refl
getline_from_room (suc room) [] rest free =
    let room_left : ltb 0 (suc room) ≡ true = ground arith in rw room_left refl
getline_from_room (suc room) (c ∷ cs) rest free =
    let other : (c == b';') ≡ false = ground arith in
    let rest_free : no_semicolon cs ≡ true = ground arith in
    let same : ltb (suc (length cs)) (suc room) ≡ ltb (length cs) room = ground arith in
    let tail = getline_from_room room cs rest rest_free in
    rw (other, same) (ap (put_front c) tail ∙ put_front_if c (ltb (length cs) room) _ _ _ _)

-- A text without semicolons and with one behind it, read into a buffer of one byte at least: if the
-- text and its NUL fit and leave a byte free, the text is returned and the semicolon is read; if not,
-- what fits in front of the NUL is returned, and the next call goes on behind it.
pub io_getline_semicolon :
    (buf_size : ℕ) (text rest : List ℕ)
    → 0 < buf_size
    → no_semicolon text ≡ true
    → io_getline buf_size (some (text ++ b';' ∷ rest)) ≡ (
        if ltb (length text + 1) buf_size
        then got_line text rest
        else got_line (take (buf_size - 1) text) (drop (buf_size - 1) text ++ b';' ∷ rest))
unfolding io_getline
io_getline_semicolon buf_size text rest h free =
    let same : ltb (length text + 1) buf_size ≡ ltb (length text) (buf_size - 1) = ground arith in
    rw same (getline_from_room (buf_size - 1) text rest free)
