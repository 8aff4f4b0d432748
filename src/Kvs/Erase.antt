-- ===== src/Kvs/Erase.antt =====
-- `kvs_erase_key` of kvs/host/kvs_posix.cc.
use mathlib.Core.Option
use components_mcu.Prelude.{
  returns, ◌>>=◌, same_prefix, ℕ, ◌+◌, ◌%◌, Bool, true, false, none, some, List, [], ◌∷◌, ◌++◌,
  Bytes, if◌then◌else◌, length, length-append, set, length-set, ◌||◌, Bool-cases, ◌⊎◌, inl, inr,
  ◌≡◌, refl, sym, ap, ◌∙◌, subst, arith,
}
use components_mcu.Kvs.Layout.{max_key_len, LineInfo, li_size}
use components_mcu.Kvs.Store.{
  kvs_type_any, accepts, put_entry, marked, int_modulus, erase_found, kvs_erase_key, kvs_get_int,
}
use components_mcu.Kvs.Nodes.{
  Node, Good, AllGood, node_bytes, file_of, file_of-append, length-node_bytes, put_entry-over,
}
use components_mcu.Kvs.Search.{first, kvs_find_next-first}
use components_mcu.Kvs.Keys.{
  matched_by, matched_by-apart, Absent, Single, Absent-agree, Absent-insert, Absent-append,
  Single-insert, Single-remove, mark_deleted_laws,
}
use components_mcu.Kvs.Place.{deleted-Good}
use components_mcu.Kvs.Entry.{Stored, AllGood-append, AllGood-front, AllGood-back}
use components_mcu.Kvs.Lookup.{lookup, kvs_get_int-lookup, lookup-Absent, lookup-insert}

abbrev erased_info : LineInfo → LineInfo
erased_info li = record (marked li) { key = set li.key 0 0 }

abbrev erased : Node → Node
erased n = record n { info = erased_info n.info }

erased-Good : (n : Node) → Good n → Good (erased n)
erased-Good n g =
    let d = deleted-Good n g in
    record {
      range = record {
        magic_range = d.range.magic_range;
        type_range = d.range.type_range;
        nval_range = d.range.nval_range;
        key_range = length-set n.info.key 0 0 ∙ g.range.key_range;
      };
      has_cookie = d.has_cookie;
      typed = d.typed;
      storable = d.storable;
      sized = d.sized;
    }

erased_unmatched : (k : Bytes) (n : Node) → Good n → matched_by k (erased n) ≡ false
erased_unmatched k n g =
    let (range, (typed, (size, (int, used)))) =
      mark_deleted_laws n.info.kvs_type g.range.type_range g.typed in
    rw used refl

-- Where the first entry that a key matches stands.
abbrev Found : Bytes → ℕ → List Node → Type 0
Found k at ns =
    (a : List Node) × ((n : Node) × ((c : List Node) × ((ns ≡ a ++ n ∷ c)
          × (Absent k a
              × ((matched_by k n ≡ true)
                  × (first (some k) kvs_type_any at ns
                      ≡ some (at + length (file_of a), n.info)))))))

first-Found :
    (k : Bytes) (at : ℕ) (ns : List Node)
    → AllGood ns
    → ((first (some k) kvs_type_any at ns ≡ none) × Absent k ns) ⊎ Found k at ns
unfolding first accepts file_of
first-Found k at [] g = inl (refl, tt)
first-Found k at (n ∷ ns) g = elim (Bool-cases (matched_by k n)) [
  | inl m ↦ inr ([], (n, (ns, (refl, (tt, (m, rw m (ap (λ p. some (p, n.info)) (omega arith))))))))
  | inr u ↦ elim (first-Found k (at + li_size n.info) ns g.1) [
    | inl (nothing, ab) ↦ inl (rw u nothing, (u, ab))
    | inr (a, (m, (c, (e, (ab, (match, here)))))) ↦ inr (
      n ∷ a,
      (
        m,
        (
          c,
          (
            ap (◌∷◌ n) e,
            (
              (u, ab),
              (
                match,
                rw u (
                    here
                    ∙ ap (λ p. some (p, m.info))
                        (omega (
                          arith,
                          length-append (node_bytes n) (file_of a),
                          length-node_bytes n g.0,
                        ))),
              ),
            ),
          ),
        ),
      ),
    )
  ]
]

Single-behind :
    (k : Bytes) (a : List Node) (n : Node) (c : List Node)
    → matched_by k n ≡ true
    → Single k (a ++ n ∷ c)
    → Absent k c
Single-behind k [] n c m s = s.0 m
Single-behind k (x ∷ a) n c m s = Single-behind k a n c m s.1

-- The entry among the others afterwards.
module _ (key : Bytes) (a : List Node) (n : Node) (c : List Node) (st : Stored (a ++ n ∷ c))
    (ha : Absent key a) (match : matched_by key n ≡ true) where
  rest_good : AllGood (n ∷ c)
  rest_good = AllGood-back a (n ∷ c) st.good

  erased-Stored : Stored (a ++ erased n ∷ c)
  erased-Stored = record {
    good =
        AllGood-append a (erased n ∷ c) (AllGood-front a (n ∷ c) st.good)
          (erased-Good n rest_good.0, rest_good.1);
    single = λ k.
        Single-insert k (erased n) a c (erased_unmatched k n rest_good.0)
          (Single-remove k n a c (st.single k));
  }

  lookup-erased :
      (u : ℕ) (j : Bytes)
      → lookup j u (a ++ erased n ∷ c)
        ≡ (if same_prefix max_key_len key j then none else lookup j u (a ++ n ∷ c))
  lookup-erased u j =
      let gone = erased_unmatched j n rest_good.0 in
      elim (Bool-cases (same_prefix max_key_len key j)) [
        | inl same ↦
            let absent = Absent-append key a c ha (Single-behind key a n c match (st.single key)) in
            rw same (
              lookup-Absent j u _
                (Absent-insert j (erased n) a c gone (Absent-agree key j (a ++ c) same absent)))
        | inr other ↦ rw other (
            lookup-insert j u a (erased n) c gone
            ∙ sym (lookup-insert j u a n c (matched_by-apart key j n other match)))
      ]

-- The key matches an entry.
abbrev pub holds : Bytes → List Node → Bool
holds k [] = false
holds k (n ∷ ns) = matched_by k n || holds k ns

holds-Absent : (k : Bytes) (ns : List Node) → Absent k ns → holds k ns ≡ false
holds-Absent k [] h = refl
holds-Absent k (n ∷ ns) h = rw (h.0, holds-Absent k ns h.1) refl

holds_there :
    (k : Bytes) (a : List Node) (n : Node) (c : List Node)
    → matched_by k n ≡ true
    → holds k (a ++ n ∷ c) ≡ true
holds_there k [] n c m = rw m refl
holds_there k (x ∷ a) n c m = rw (holds_there k a n c m) (ground arith)

abbrev Erases : Bytes → List Node → ℕ → Bytes → Type 0
Erases key ns u j =
    (ms : List Node) × ((kvs_erase_key key (file_of ns) ≡ returns (holds key ns, file_of ms))
      × (Stored ms
          × (kvs_get_int u j (file_of ms)
              ≡ (if same_prefix max_key_len key j then none else kvs_get_int u j (file_of ns)))))

erase-there :
    (key : Bytes) (a : List Node) (n : Node) (c : List Node) (u : ℕ) (j : Bytes)
    → Stored (a ++ n ∷ c)
    → Absent key a
    → matched_by key n ≡ true
    → first (some key) kvs_type_any 0 (a ++ n ∷ c) ≡ some (0 + length (file_of a), n.info)
    → Erases key (a ++ n ∷ c) u j
unfolding kvs_erase_key erase_found file_of
erase-there key a n c u j st ha m here =
    let g = AllGood-back a (n ∷ c) st.good in
    let st' = erased-Stored key a n c st ha m in
    let f = λ (li : LineInfo). li.nval % int_modulus u in
    let found = ap (erase_found (file_of (a ++ n ∷ c))) (
      kvs_find_next-first (a ++ n ∷ c) (some key) kvs_type_any st.good
      ∙ (here ∙ ap (λ p. some (p, n.info)) (omega arith))) in
    let put =
      ap (put_entry (erased_info n.info) (length (file_of a))) (file_of-append a (n ∷ c))
      ∙ put_entry-over (file_of a) (file_of c) n (erased_info n.info) g.0 (erased-Good n g.0).range
          (erased-Good n g.0).storable in
    let same : Option.map f
          (if same_prefix max_key_len key j then none else lookup j u (a ++ n ∷ c))
        ≡ (if same_prefix max_key_len key j then none else kvs_get_int u j (file_of (a ++ n ∷ c))) =
      elim (Bool-cases (same_prefix max_key_len key j)) [
        | inl agree ↦ rw agree refl
        | inr other ↦ rw other (sym (kvs_get_int-lookup u j (a ++ n ∷ c) st.good))
      ] in
    (
      a ++ erased n ∷ c,
      (
        found
            ∙ (ap (λ r. r >>= (λ f. returns (true, f))) put
                ∙ (ap (λ x. returns (true, x)) (sym (file_of-append a (erased n ∷ c)))
                    ∙ ap (λ b. returns (b, file_of (a ++ erased n ∷ c)))
                        (sym (holds_there key a n c m)))),
        (
          st',
          kvs_get_int-lookup u j (a ++ erased n ∷ c) st'.good
              ∙ (ap (Option.map f) (lookup-erased key a n c st ha m u j) ∙ same),
        ),
      ),
    )

-- Erasing a key in a file of entries of which every key has at most one returns true just if the key matches an
-- entry; no assertion fails, and such a file is left. Afterwards
-- the integers of the key, and of keys that agree with it in 14 bytes, read as the default value, and the
-- integers of other keys read as before.
pub kvs_erase_key_refines :
    (key : Bytes) (ns : List Node) (u : ℕ) (j : Bytes) → Stored ns → Erases key ns u j
unfolding kvs_erase_key erase_found
kvs_erase_key_refines key ns u j st = elim (first-Found key 0 ns st.good) [
  | inr (a, (n, (c, (e, (ab, (match, here)))))) ↦
      subst (λ l. Erases key l u j) (sym e)
        (erase-there key a n c u j (subst Stored e st) ab match (
          subst (λ l. first (some key) kvs_type_any 0 l ≡ some (0 + length (file_of a), n.info)) e
            here))
  | inl (nothing, ab) ↦ (
    ns,
    (
      ap (erase_found (file_of ns))
            (kvs_find_next-first ns (some key) kvs_type_any st.good ∙ nothing)
          ∙ ap (λ b. returns (b, file_of ns)) (sym (holds-Absent key ns ab)),
      (
        st,
        elim (Bool-cases (same_prefix max_key_len key j)) [
          | inr other ↦ rw other refl
          | inl same ↦ rw same (
              kvs_get_int-lookup u j ns st.good
              ∙ ap (Option.map (λ (li : LineInfo). li.nval % int_modulus u))
                  (lookup-Absent j u ns (Absent-agree key j ns same ab)))
        ],
      ),
    ),
  )
]
