-- ===== src/Config/Saving.antt =====
-- What config_kvs/config_kvs.cc reads back after it saved.
use components_mcu.Prelude.{
  ℕ, zero, suc, ◌+◌, ◌%◌, ◌≤◌, ◌<◌, Bool, true, false, not, ◌||◌, Option, none, some, List, [], ◌∷◌,
  Bytes, ◌==◌, if◌then◌else◌, length, same_prefix, Aborts, aborted, unfinished, returns, ◌>>=◌,
  Bool-cases, Option-cases, ◌⊎◌, ◌≢◌, inl, inr, ◌≡◌, refl, sym, ap, ◌∙◌, arith,
}
use components_mcu.Kvs.Layout.{max_key_len}
use components_mcu.Kvs.Store.{kvs_set_int, kvs_get_int}
use components_mcu.Kvs.Nodes.{Node, file_of}
use components_mcu.Kvs.Entry.{Stored}
use components_mcu.Kvs.Blobs.{kvs_set_blob}
use components_mcu.Kvs.Integers.{kvs_set_int_refines}
use components_mcu.Kvs.Handles.{
  Handle, update, calloc_from, kvs_calloc_handle, kvs_free_handle, open_file, kvs_open, kvs_close,
}
use components_mcu.Config.Items.{
  Config, type_u32, type_i8, or_default, reading, writing, config_read_item_u32,
  config_read_item_i8, config_save_item_n_u32, config_save_item_b,
}

-- A handle that is not in use.
abbrev pub has_free : List Handle → Bool
has_free [] = false
has_free (h ∷ hs) = not h.in_use || has_free hs

calloc_from_none :
    (i : ℕ) (o : Option ℕ) (hs : List Handle) → has_free hs ≡ false → (calloc_from i o hs).0 ≡ o
unfolding calloc_from
calloc_from_none i o [] h = refl
calloc_from_none i o (x ∷ xs) h = elim (Bool-cases x.in_use) [
  | inl used ↦
      let rest : has_free xs ≡ false = ground arith in rw used (calloc_from_none (i + 1) o xs rest)
  | inr free ↦ absurd (ground arith)
]

-- The handle that is taken, if one is free.
calloc_from-some :
    (i : ℕ) (o : Option ℕ) (hs : List Handle)
    → has_free hs ≡ true
    → (k : ℕ) × ((calloc_from i o hs).0 ≡ some (i + k)) × (k < length hs)
unfolding calloc_from
calloc_from-some i o [] h = cc
calloc_from-some i o (x ∷ xs) h = elim (Bool-cases x.in_use) [
  | inl used ↦
      let rest : has_free xs ≡ true = ground arith in
      let (k, e, lt) = calloc_from-some (i + 1) o xs rest in
      (suc k, rw used (e ∙ ap some (omega arith)), omega (arith, lt))
  | inr free ↦ elim (Bool-cases (has_free xs)) [
    | inl more ↦
        let (k, e, lt) = calloc_from-some (i + 1) (some i) xs more in
        (suc k, rw free (e ∙ ap some (omega arith)), omega (arith, lt))
    | inr last ↦ (
      0,
      rw free (calloc_from_none (i + 1) (some i) xs last ∙ ap some (omega arith)),
      omega arith,
    )
  ]
]

length-calloc_from :
    (i : ℕ) (o : Option ℕ) (hs : List Handle) → length (calloc_from i o hs).1 ≡ length hs
unfolding calloc_from
length-calloc_from i o [] = refl
length-calloc_from i o (x ∷ xs) = elim (Bool-cases x.in_use) [
  | inl used ↦ rw used (ap suc (length-calloc_from (i + 1) o xs))
  | inr free ↦ rw free (ap suc (length-calloc_from (i + 1) (some i) xs))
]

length-update :
    (k : ℕ) (f : Handle → Handle) (hs : List Handle) → length (update k f hs) ≡ length hs
length-update k f [] = refl
length-update zero f (x ∷ xs) = refl
length-update (suc k) f (x ∷ xs) = ap suc (length-update k f xs)

freed :
    (k : ℕ) (hs : List Handle)
    → k < length hs
    → has_free (update k (λ x. record x { in_use = false }) hs) ≡ true
freed k [] h = absurd (omega arith)
freed zero (x ∷ xs) h = refl
freed (suc k) (x ∷ xs) h = ground (arith, freed k xs (omega arith))

-- With a free handle the storage is opened, and there is a free handle again when it is closed.
open_close :
    (fd size : ℕ) (hs : List Handle)
    → has_free hs ≡ true
    → (k : ℕ) × ((kvs_open (some (fd, size)) hs).0 ≡ some k)
      × (has_free (kvs_close (some k) (kvs_open (some (fd, size)) hs).1) ≡ true)
unfolding kvs_open kvs_calloc_handle open_file kvs_close kvs_free_handle
open_close fd size hs h =
    let (k, e, lt) = calloc_from-some 0 none hs h in
    let same : 0 + k ≡ k = omega arith in
    let taken : (calloc_from 0 none hs).0 ≡ some k = e ∙ ap some same in
    let all = (calloc_from 0 none hs).1 in
    let opened = update k (λ x. record x { fd = fd; file_size = size % 16384 }) all in
    let n : length opened ≡ length hs = length-update k _ all ∙ length-calloc_from 0 none hs in
    (k, rw taken refl, rw taken (freed k opened (omega (arith, n))))

-- The settings as they are found and left: entries of which every key has at most one, and a handle.
pub record Usable (c : Config) (ns : List Node) : Type 0 where
  pub content : c.file ≡ file_of ns
  pub stored : Stored ns
  pub free : has_free c.handles ≡ true

-- A number for a type, and what is read at a key of what is in the file.
abbrev pub stored_number : ℕ → Bytes → ℕ → Bytes → ℕ
stored_number t key def file = or_default def (kvs_get_int t key file)

returns_inj : {a b : Bytes} → returns a ≡ returns b → a ≡ b
returns_inj e = cc

module _ (fd size : ℕ) where
  reading-Usable {ℓ} :
      {A : Type ℓ} (def : A) (get : Bytes → A) (c : Config) (ns : List Node)
      → Usable c ns
      → ((reading (some (fd, size)) def get c).0 ≡ get (file_of ns))
        × Usable (reading (some (fd, size)) def get c).1 ns
  reading-Usable def get c ns u =
      let (k, e, free) = open_close fd size c.handles u.free in
      rw (e, reading)
        (ap get u.content, record { content = u.content; stored = u.stored; free = free })

  writing-Usable :
      (put : Bytes → Aborts Bytes) (c : Config) (ns ms : List Node)
      → Usable c ns
      → put (file_of ns) ≡ returns (file_of ms)
      → Stored ms
      → (c' : Config) × (writing
            (some (fd, size))
            true
            (λ file. put file >>= (λ f. returns (true, f)))
            c
          ≡ returns (true, c'))
        × Usable c' ms
  writing-Usable put c ns ms u run st =
      let (k, e, free) = open_close fd size c.handles u.free in
      let run' : put c.file ≡ returns (file_of ms) = ap put u.content ∙ run in
      (
        record {
          file = file_of ms;
          handles = kvs_close (some k) (kvs_open (some (fd, size)) c.handles).1;
        },
        rw (e, run', writing) refl,
        record { content = refl; stored = st; free = free },
      )

  -- In a store that can be opened, has a free handle and holds entries of which every key has at most
  -- one: `config_save_item_n_u32` of a key of up to 14 bytes returns true and leaves such a store, with
  -- a free handle. `config_read_item_u32` of a key then yields the number modulo 2 ^ 32 where the keys
  -- agree in 14 bytes, and else what it yielded before; `config_read_item_i8` of an agreeing key, which
  -- asks for the other type, yields its default.
  pub config_save_item_n_u32_read :
      (key j : Bytes) (val def : ℕ) (c : Config) (ns : List Node)
      → length key ≤ max_key_len
      → Usable c ns
      → (c' : Config) × (config_save_item_n_u32 (some (fd, size)) key val c ≡ returns (true, c'))
        × ((ms : List Node) × Usable c' ms)
        × ((config_read_item_u32 (some (fd, size)) j def c').0 ≡ (
            if same_prefix max_key_len key j
            then val % 4294967296
            else (config_read_item_u32 (some (fd, size)) j def c).0))
        × (same_prefix max_key_len key j ≡ true
            → (config_read_item_i8 (some (fd, size)) j def c').0 ≡ def)
  unfolding config_save_item_n_u32 config_read_item_u32 config_read_item_i8
  config_save_item_n_u32_read key j val def c ns fits us =
      let (ms, (run, (st, got))) =
        kvs_set_int_refines type_u32 key val ns type_u32 j refl fits us.stored refl in
      let (ns8, (run8, (st8, got8))) =
        kvs_set_int_refines type_u32 key val ns type_i8 j refl fits us.stored refl in
      let (c', done, us') = writing-Usable (kvs_set_int type_u32 key val) c ns ms us run st in
      let before = (reading-Usable def (stored_number type_u32 j def) c ns us).0 in
      let read = (reading-Usable def (stored_number type_u32 j def) c' ms us').0 in
      let read8 = (reading-Usable def (stored_number type_i8 j def) c' ms us').0 in
      let same : file_of ms ≡ file_of ns8 = returns_inj (sym run ∙ run8) in
      (
        c',
        done,
        (ms, us'),
        read ∙ ap (or_default def) got ∙ elim (Bool-cases (same_prefix max_key_len key j)) [
          | inl agree ↦ rw agree refl
          | inr other ↦ rw other (sym before)
        ],
        λ agree.
            read8
            ∙ ap (λ file. stored_number type_i8 j def file) same
            ∙ ap (or_default def) got8
            ∙ rw agree refl,
      )

Aborts-cases :
    {A : Type 0} (r : Aborts A) → ((r ≡ aborted) ⊎ (r ≡ unfinished)) ⊎ ((a : A) × (r ≡ returns a))
Aborts-cases aborted = inl (inl refl)
Aborts-cases unfinished = inl (inr refl)
Aborts-cases (returns a) = inr (a, refl)

-- The result, false for `abort`.
abbrev flag : Aborts (Bool × Config) → Bool
flag aborted = false
flag unfinished = false
flag (returns r) = r.0

false_ne_true : false ≢ true
false_ne_true e = cc

module _ (opened : Option (ℕ × ℕ)) (unopened : Bool) (put : Bytes → Aborts (Bool × Bytes))
    (c : Config) where
  writing_unopened :
      (kvs_open opened c.handles).0 ≡ none
      → writing opened unopened put c
        ≡ returns (unopened, record c { handles = (kvs_open opened c.handles).1 })
  writing_unopened e = rw (e, writing) refl

  writing_open :
      (k : ℕ)
      → (kvs_open opened c.handles).0 ≡ some k
      → writing opened unopened put c ≡ (
          put c.file >>= (λ r. returns (
            r.0,
            record { file = r.1; handles = kvs_close (some k) (kvs_open opened c.handles).1 },
          )))
  writing_open k e = rw (e, writing) refl

small_size : (n : ℕ) (ok : Bool) → (n == (if ok then 1 else 0)) ≡ true → n ≤ 1
small_size n true e = ground arith
small_size n false e = ground arith

-- `config_save_item_b` reports success for no blob of more than one byte, written or not, whatever the
-- store does: it compares the size with the `bool` that `kvs_set_blob` returns.
pub config_save_item_b_reports :
    (opened : Option (ℕ × ℕ)) (key val : Bytes) (c c' : Config)
    → config_save_item_b opened key val c ≡ returns (true, c')
    → length val ≤ 1
unfolding config_save_item_b
config_save_item_b_reports opened key val c c' e =
    let put : Bytes → Aborts (Bool × Bytes) = λ file.
      kvs_set_blob key val file >>= (λ r. returns (length val == (if r.1 then 1 else 0), r.0)) in
    elim (Option-cases (kvs_open opened c.handles).0) [
      | inl unopened ↦
          absurd (false_ne_true (ap flag (sym (writing_unopened opened false put c unopened) ∙ e)))
      | inr (k, is_open) ↦
          let ran = sym (writing_open opened false put c k is_open) ∙ e in
          elim (Aborts-cases (kvs_set_blob key val c.file)) [
            | inl (inl failed) ↦ absurd (false_ne_true (ap flag (rw failed at ran)))
            | inl (inr endless) ↦ absurd (false_ne_true (ap flag (rw endless at ran)))
            | inr (r, done) ↦ small_size (length val) r.1 (ap flag (rw done at ran))
          ]
    ]
