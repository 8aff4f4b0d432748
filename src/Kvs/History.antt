-- ===== src/Kvs/History.antt =====
-- A sequence of calls of the setters of integers of kvs/host/kvs_posix.cc, and calls that abort.
use components_mcu.Prelude.{
  Aborts, aborted, returns, ◌>>=◌, ==_iff, subst, ℕ, ◌/◌, ◌%◌, ◌≤◌, ◌<◌, true, false, ◌||◌, Option,
  none, List, [], ◌∷◌, Bytes, leb, ◌==◌, length, Bool-cases, inl, inr, ◌≡◌, refl, sym, ap, ◌∙◌,
  arith,
}
use components_mcu.Kvs.Layout.{max_key_len}
use components_mcu.Kvs.Store.{
  kvs_type_any, Place, kvs_write, is_storable, put_entry, int_entry, find_key_int_w, kvs_set_int,
  kvs_get_int,
}
use components_mcu.Kvs.Nodes.{Node, file_of}
use components_mcu.Kvs.Entry.{is_int_type, Stored}
use components_mcu.Kvs.Placing.{find_key_int_w-Settled}
use components_mcu.Kvs.Integers.{get_after, kvs_set_int_refines}

pub record Setting : Type 0 where
  pub kind : ℕ
  pub key : Bytes
  pub val : ℕ

abbrev pub AllValid : List Setting → Type 0
AllValid [] = Unit {0}
AllValid (s ∷ ss) = ((is_int_type s.kind ≡ true) × (length s.key ≤ max_key_len)) × AllValid ss

-- The setters one after the other.
unfoldable pub set_all : List Setting → Bytes → Aborts Bytes
unfolding kvs_set_int
set_all [] file = returns file
set_all (s ∷ ss) file = kvs_set_int s.kind s.key s.val file >>= (λ f. set_all ss f)

-- What is known of a key and a type after the settings.
abbrev pub latest : ℕ → Bytes → List Setting → Option ℕ → Option ℕ
latest u j [] before = before
latest u j (s ∷ ss) before = latest u j ss (get_after s.kind s.key s.val u j before)

set_all-from :
    (ss : List Setting) (ns : List Node) (u : ℕ) (j : Bytes)
    → AllValid ss
    → Stored ns
    → (u == kvs_type_any) ≡ false
    → (file : Bytes) × ((set_all ss (file_of ns) ≡ returns file)
        × (kvs_get_int u j file ≡ latest u j ss (kvs_get_int u j (file_of ns))))
unfolding set_all
set_all-from [] ns u j v st any = (file_of ns, (refl, refl))
set_all-from (s ∷ ss) ns u j v st any =
    let (ms, (run, (stm, got))) =
      kvs_set_int_refines s.kind s.key s.val ns u j v.0.0 v.0.1 st any in
    let (file, (rest, gets)) = set_all-from ss ms u j v.1 stm any in
    (file, (ap (λ r. r >>= (λ f. set_all ss f)) run ∙ rest, gets ∙ ap (latest u j ss) got))

-- Any sequence of settings of integers of up to four bytes, each under a key of up to 14 bytes, succeeds on
-- an empty file. Afterwards a key reads as
-- the value of the last setting whose key agrees with it in 14 bytes, for the type of that setting,
-- and as the default for another type or where there is no such setting.
pub set_all-latest :
    (ss : List Setting) (u : ℕ) (j : Bytes)
    → AllValid ss
    → (u == kvs_type_any) ≡ false
    → (file : Bytes) × ((set_all ss [] ≡ returns file)
        × (kvs_get_int u j file ≡ latest u j ss none))
unfolding file_of kvs_get_int
set_all-latest ss u j v any = set_all-from ss [] u j v (record { good = tt; single = λ k. tt }) any

-- A key of more than 14 bytes aborts the program where the search for its entry ends.
pub kvs_set_int_long_key :
    (t : ℕ) (key : Bytes) (val : ℕ) (ns : List Node)
    → max_key_len < length key
    → Stored ns
    → kvs_set_int t key val (file_of ns) ≡ aborted
unfolding kvs_set_int
kvs_set_int_long_key t key val ns h st =
    let long : leb (length key) max_key_len ≡ false = ground arith in
    let (w, (run, settled)) = find_key_int_w-Settled key ns st.good (st.single key) in
    rw (run, long) refl

is_storable_wide :
    (t : ℕ) (key : Bytes) (val : ℕ)
    → ((t == 0x08) || (t == 0x18)) ≡ true
    → (val / 65536) % 65536 < val % 65536
    → is_storable (int_entry t key val) ≡ false
is_storable_wide t key val w h =
    let at : (n : ℕ)
        → is_storable (int_entry n key val) ≡ false
        → t ≡ n
        → is_storable (int_entry t key val) ≡ false =
      λ n e s. subst (λ m. is_storable (int_entry m key val) ≡ false) (sym s) e in
    let small : leb (val % 18446744073709551616 % 65536)
          (val % 18446744073709551616 / 65536 % 65536)
        ≡ false =
      ground arith in
    elim (Bool-cases (t == 0x08)) [
      | inl u ↦ at 0x08 small ((==_iff t 0x08).0 u)
      | inr i ↦ at 0x18 small (ground arith)
    ]

-- `kvs_set_u64` and `kvs_set_i64`, for a key of up to 14 bytes in a file of entries of which every key has at
-- most one, abort the program where the second 16 bits of the value are less than the first. The
-- search for the entry ends, and it is the assertion of `kvs_write` that fails: the types 0x08 and 0x18 are no
-- integers for `li_typeInt`, so that it takes the value for the length and the size of data.
pub kvs_set_int_wide :
    (t : ℕ) (key : Bytes) (val : ℕ) (ns : List Node)
    → ((t == 0x08) || (t == 0x18)) ≡ true
    → (val / 65536) % 65536 < val % 65536
    → length key ≤ max_key_len
    → Stored ns
    → (w : Place) × (find_key_int_w key (file_of ns) ≡ returns w)
      × (is_storable (int_entry t key val) ≡ false)
      × (kvs_set_int t key val (file_of ns) ≡ aborted)
unfolding kvs_set_int put_entry kvs_write
kvs_set_int_wide t key val ns h small short st =
    let fits : leb (length key) max_key_len ≡ true = ground arith in
    let wide = is_storable_wide t key val h small in
    let (w, (run, settled)) = find_key_int_w-Settled key ns st.good (st.single key) in
    (w, run, wide, rw (run, fits, wide) refl)
