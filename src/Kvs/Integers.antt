-- ===== src/Kvs/Integers.antt =====
-- The setters of integers of kvs/host/kvs_posix.cc as updates of a map.
use mathlib.Core.Option
use components_mcu.Prelude.{
  returns, same_prefix, ==_iff, ℕ, ◌%◌, ◌≤◌, true, false, Option, none, some, List, [], ◌∷◌, ◌++◌,
  append-nil, Bytes, leb, ◌==◌, if◌then◌else◌, length, Bool-cases, ◌⊎◌, inl, inr, ◌≡◌, refl, sym,
  ap, ap₂, ◌∙◌, subst, arith,
}
use components_mcu.Kvs.Layout.{max_key_len, LineInfo, has_data, li_type_int, encode}
use components_mcu.Kvs.Store.{
  Place, kvs_type_any, put_entry, offset, int_modulus, int_entry, find_key_int_w, kvs_set_int,
  kvs_get_int,
}
use components_mcu.Kvs.Nodes.{Node, file_of, file_of-append, put_entry-over, put_entry-end}
use components_mcu.Kvs.Keys.{matched_by, matched_by-apart, Absent, Single, Single-remove}
use components_mcu.Kvs.Place.{Vacancy}
use components_mcu.Kvs.Placing.{IsInt, int_mark, find_key_int_w-Settled}
use components_mcu.Kvs.Entry.{
  is_int_type, Stored, AllGood-front, AllGood-back, no_payload, entry, entry-storable, entry-Good,
  entry_among-Stored, lookup-entry, int_type,
}
use components_mcu.Kvs.Lookup.{
  lookup, kvs_get_int-lookup, lookup-insert, lookup-Deleted, Single-Deleted,
}

-- The value that `kvs_get_int` returns after the value `val` of type `t` was set at `key`.
abbrev pub get_after : ℕ → Bytes → ℕ → ℕ → Bytes → Option ℕ → Option ℕ
get_after t key val u j before =
    if same_prefix max_key_len key j
    then (if t == u then some (val % int_modulus t) else none)
    else before

module _ (t : ℕ) (key : Bytes) (val : ℕ) (h : is_int_type t ≡ true)
    (fits : length key ≤ max_key_len) where
  abbrev written : Node
  written = entry t key val h fits

  -- What becomes of the entries `ns` when the entry is put into a file that the search has left.
  abbrev Puts : List Node → Place → Type 0
  Puts ns w =
      (ms : List Node) × ((put_entry (int_entry t key val) (offset w.best w.file) w.file
          ≡ returns (file_of ms))
        × (Stored ms
            × ((j : Bytes) (u : ℕ)
                → (u == kvs_type_any) ≡ false
                → lookup j u ms ≡ (
                    if same_prefix max_key_len key j
                    then (if t == u then some (int_entry t key val) else none)
                    else lookup j u ns))))

  Puts-end :
      (ns : List Node) (w : Place)
      → Stored ns
      → Absent key ns
      → w.file ≡ file_of ns
      → w.best ≡ none
      → Puts ns w
  unfolding file_of
  Puts-end ns w st ab e b = (
    ns ++ written ∷ [],
    (
      ap₂ (λ f o. put_entry (int_entry t key val) (offset o f) f) e b
          ∙ (put_entry-end (file_of ns) (int_entry t key val) (entry-storable t key val h fits)
              ∙ ap returns (
                  ap (◌++◌ (file_of ns))
                    (sym (append-nil (encode (int_entry t key val))) ∙ sym (append-nil _))
                  ∙ sym (file_of-append ns (written ∷ [])))),
      (
        entry_among-Stored t key val h fits ns [] ab tt st.good tt
            (λ k. subst (Single k) (sym (append-nil ns)) (st.single k)),
        λ j u any.
            lookup-entry t key val h fits ns [] ab tt j u any
            ∙ ap
                (λ l.
                  if same_prefix max_key_len key j
                  then (if t == u then some (int_entry t key val) else none)
                  else lookup j u l)
                (append-nil ns),
      ),
    ),
  )

  Puts-over :
      (a : List Node) (n : Node) (c : List Node) (w : Place)
      → Stored (a ++ n ∷ c)
      → Absent key a
      → Absent key c
      → w.file ≡ file_of (a ++ n ∷ c)
      → w.best ≡ some (length (file_of a))
      → li_type_int n.info.kvs_type ≡ true
      → ((j : Bytes) → same_prefix max_key_len key j ≡ false → matched_by j n ≡ false)
      → Puts (a ++ n ∷ c) w
  unfolding file_of
  Puts-over a n c w st ha hc e b int un =
      let gn = AllGood-back a (n ∷ c) st.good in
      let no_data : has_data n.info.kvs_type ≡ false = ground arith in
      let bare = no_payload n.payload (gn.0.sized ∙ rw no_data refl) in
      (
        a ++ written ∷ c,
        (
          ap₂ (λ f o. put_entry (int_entry t key val) (offset o f) f) (e ∙ file_of-append a (n ∷ c))
                b
              ∙ (put_entry-over (file_of a) (file_of c) n (int_entry t key val) gn.0
                    (entry-Good t key val h fits).range (entry-storable t key val h fits)
                  ∙ ap returns (
                      ap (λ x. file_of a ++ ((encode (int_entry t key val) ++ x) ++ file_of c)) bare
                      ∙ sym (file_of-append a (written ∷ c)))),
          (
            entry_among-Stored t key val h fits a c ha hc (AllGood-front a (n ∷ c) st.good) gn.1
                (λ k. Single-remove k n a c (st.single k)),
            λ j u any.
                lookup-entry t key val h fits a c ha hc j u any
                ∙ elim (Bool-cases (same_prefix max_key_len key j)) [
                  | inl same ↦ rw same refl
                  | inr other ↦ rw other (sym (lookup-insert j u a n c (un j other)))
                ],
          ),
        ),
      )

  putting :
      (ns : List Node) (w : Place)
      → Stored ns
      → w.file ≡ file_of ns
      → ((w.best ≡ none) × Absent key ns) ⊎ Vacancy IsInt int_mark key 0 ns w.best
      → Puts ns w
  putting ns w st e (inl (b, ab)) = Puts-end ns w st ab e b
  putting ns w st e (inr (a, (n, (c, (eq, (at, (int, (ha, (hc, free))))))))) =
      let un : (j : Bytes) → same_prefix max_key_len key j ≡ false → matched_by j n ≡ false =
        λ j s. elim free [ inl m ↦ matched_by-apart key j n s m | inr unused ↦ rw unused refl ] in
      subst (λ l. Puts l w) (sym eq)
        (Puts-over a n c w (subst Stored eq st) ha hc (e ∙ ap file_of eq)
          (at ∙ ap some (omega arith)) int un)

-- Reading after the entry was put in the place of what the key matched.
get-entry :
    (t : ℕ) (key : Bytes) (val u : ℕ) (j : Bytes) (old : Option LineInfo)
    → is_int_type t ≡ true
    → Option.map
        (λ li. li.nval % int_modulus u)
        (if same_prefix max_key_len key j
          then (if t == u then some (int_entry t key val) else none)
          else old)
      ≡ get_after t key val u j (Option.map (λ li. li.nval % int_modulus u) old)
get-entry t key val u j old h = elim (Bool-cases (same_prefix max_key_len key j)) [
  | inr other ↦ rw other refl
  | inl same ↦ elim (Bool-cases (t == u)) [
    | inr differs ↦ rw (same, differs) refl
    | inl equal ↦
        rw (same, equal)
          (ap some (
            ap (λ x. (val % int_modulus t) % int_modulus x) (sym ((==_iff t u).0 equal))
            ∙ (int_type t h).again val))
  ]
]

kvs_set_int_found :
    (t : ℕ) (key : Bytes) (val : ℕ) (file : Bytes) (w : Place)
    → length key ≤ max_key_len
    → find_key_int_w key file ≡ returns w
    → kvs_set_int t key val file ≡ put_entry (int_entry t key val) (offset w.best w.file) w.file
unfolding kvs_set_int
kvs_set_int_found t key val file w fits run =
    let le : leb (length key) max_key_len ≡ true = ground arith in rw (run, le) refl

-- Setting an integer of up to four bytes, under a key of up to 14 bytes, in a file of entries of which every key
-- has at most one, succeeds: no assertion fails, and the file is again one of such entries. Reading the key back, or a
-- key that agrees with it in 14 bytes, yields the value for the type it was set with, and the default
-- for another type; other keys read as before.
pub kvs_set_int_refines :
    (t : ℕ) (key : Bytes) (val : ℕ) (ns : List Node) (u : ℕ) (j : Bytes)
    → is_int_type t ≡ true
    → length key ≤ max_key_len
    → Stored ns
    → (u == kvs_type_any) ≡ false
    → (ms : List Node) × ((kvs_set_int t key val (file_of ns) ≡ returns (file_of ms))
        × (Stored ms
            × (kvs_get_int u j (file_of ms)
                ≡ get_after t key val u j (kvs_get_int u j (file_of ns)))))
kvs_set_int_refines t key val ns u j h fits st any =
    let (w, (run, (after, (e, (d, (g, chosen)))))) =
      find_key_int_w-Settled key ns st.good (st.single key) in
    let st' : Stored after = record {
      good = g;
      single = λ k. Single-Deleted key k ns after st.good d (st.single k);
    } in
    let (ms, (put, (stm, found))) = putting t key val h fits after w st' e chosen in
    let f = λ (li : LineInfo). li.nval % int_modulus u in
    let same : get_after t key val u j (Option.map f (lookup j u after))
        ≡ get_after t key val u j (kvs_get_int u j (file_of ns)) =
      elim (Bool-cases (same_prefix max_key_len key j)) [
        | inl agree ↦ rw agree refl
        | inr other ↦ ap (get_after t key val u j) (
            ap (Option.map f) (lookup-Deleted key j u ns after other st.good d)
            ∙ sym (kvs_get_int-lookup u j ns st.good))
      ] in
    (
      ms,
      (
        kvs_set_int_found t key val (file_of ns) w fits run ∙ put,
        (
          stm,
          kvs_get_int-lookup u j ms stm.good
              ∙ (ap (Option.map f) (found j u any)
                  ∙ (get-entry t key val u j (lookup j u after) h ∙ same)),
        ),
      ),
    )
