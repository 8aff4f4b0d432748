-- ===== src/Kvs/Strings.antt =====
-- Writing and reading strings and blobs of kvs/host/kvs_posix.cc.
use mathlib.Core.Option
use components_mcu.Prelude.{
  length-drop, Aborts, returns, ℕ, ◌+◌, ◌%◌, ◌≤◌, ◌<◌, true, false, none, some, List, [], ◌∷◌, ◌++◌,
  append-nil, Bytes, same_prefix, ltb, if◌then◌else◌, drop, length, ◌⊎◌, inl, inr, subst, ◌≡◌, refl,
  sym, ap, ◌∙◌, arith,
}
use components_mcu.Kvs.Layout.{LineInfo, max_key_len, blob_size}
use components_mcu.Kvs.Store.{kvs_get_int, int_modulus}
use components_mcu.Kvs.Blobs.{Spot, kvs_write_str_or_blob, kvs_read_str_or_blob}
use components_mcu.Kvs.Nodes.{Node, node_bytes, file_of, file_of-append}
use components_mcu.Kvs.Keys.{matched_by, matched_by-apart, Absent, Single, Single-remove}
use components_mcu.Kvs.Place.{Vacancy}
use components_mcu.Kvs.BlobPlacing.{HasRoom, blob_mark, AllKnown}
use components_mcu.Kvs.BlobSearch.{find_key_blob_w-Settled}
use components_mcu.Kvs.BlobWriting.{
  finish_write, finish_write-found, finish_write-end, finish_write-over,
}
use components_mcu.Kvs.Entry.{Stored, AllGood-front, AllGood-back}
use components_mcu.Kvs.Lookup.{
  lookup, kvs_get_int-lookup, lookup-insert, lookup-Deleted, Single-Deleted,
}
use components_mcu.Kvs.BlobValues.{
  is_blob_type, written, written-apart, written_among-Stored, read_back,
}

module _ (t : ℕ) (key src : Bytes) (h : is_blob_type t ≡ true) (fits : length key ≤ max_key_len)
    (short : length src < 65536) where
  -- What is shown of a write in a file of the entries `ns`.
  abbrev Writes : List Node → ℕ → ℕ → Bytes → Aborts (Bytes × ℕ) → Type 0
  Writes ns size u j result =
      (ms : List Node) × ((result ≡ returns (file_of ms, length src))
        × (Stored ms
            × ((kvs_read_str_or_blob t key size (file_of ms)
                  ≡ (length src, if ltb size (length src) then [] else src))
                × (lookup j u ms ≡ lookup j u ns))))

  Writes-end :
      (ns : List Node) (w : Spot) (size u : ℕ) (j : Bytes)
      → Stored ns
      → Absent key ns
      → same_prefix max_key_len key j ≡ false
      → w.file ≡ file_of ns
      → w.best ≡ none
      → Writes ns size u j (finish_write t key src w)
  unfolding file_of
  Writes-end ns w size u j st ab apart e b =
      let all : length src + 0 ≡ length src = omega arith in
      let m = written t key src h fits short (length src) [] short all in
      let single = λ (k : Bytes). subst (Single k) (sym (append-nil ns)) (st.single k) in
      (
        ns ++ m ∷ [],
        (
          finish_write-end t key src h fits short (file_of ns) w e b all
              ∙ ap (λ f. returns (f, length src))
                  (ap (◌++◌ (file_of ns)) (sym (append-nil (node_bytes m)))
                    ∙ sym (file_of-append ns (m ∷ []))),
          (
            written_among-Stored t key src h fits short (length src) [] short all ns [] ab tt
                st.good tt single,
            (
              read_back t key src h fits short (length src) [] short all ns [] ab tt st.good tt
                  single size,
              lookup-insert j u ns m []
                    (written-apart t key src h fits short (length src) [] short all j apart)
                  ∙ ap (lookup j u) (append-nil ns),
            ),
          ),
        ),
      )

  Writes-over :
      (a : List Node) (n : Node) (c : List Node) (w : Spot) (size u : ℕ) (j : Bytes)
      → Stored (a ++ n ∷ c)
      → Absent key a
      → Absent key c
      → matched_by j n ≡ false
      → same_prefix max_key_len key j ≡ false
      → w.file ≡ file_of (a ++ n ∷ c)
      → w.best ≡ some (blob_mark (length (file_of a)) n)
      → HasRoom (length src) n
      → Writes (a ++ n ∷ c) size u j (finish_write t key src w)
  unfolding file_of
  Writes-over a n c w size u j st ha hc un apart e b room =
      let ga = AllGood-front a (n ∷ c) st.good in
      let gn = AllGood-back a (n ∷ c) st.good in
      let small : blob_size n.info < 65536 = omega arith in
      let pay : length n.payload ≡ blob_size n.info = gn.0.sized ∙ rw (room.0) refl in
      let sum : length src + length (drop (length src) n.payload) ≡ blob_size n.info =
        omega (arith, length-drop (length src) n.payload, pay, room.1) in
      let rest = drop (length src) n.payload in
      let m = written t key src h fits short (blob_size n.info) rest small sum in
      let single = λ (k : Bytes). Single-remove k n a c (st.single k) in
      (
        a ++ m ∷ c,
        (
          finish_write-over t key src h fits short (file_of a) (file_of c) n w
                (e ∙ file_of-append a (n ∷ c)) b gn.0 room small sum
              ∙ ap (λ f. returns (f, length src)) (sym (file_of-append a (m ∷ c))),
          (
            written_among-Stored t key src h fits short (blob_size n.info) rest small sum a c ha hc
                ga gn.1 single,
            (
              read_back t key src h fits short (blob_size n.info) rest small sum a c ha hc ga gn.1
                  single size,
              lookup-insert j u a m c
                    (written-apart t key src h fits short (blob_size n.info) rest small sum j apart)
                  ∙ sym (lookup-insert j u a n c un),
            ),
          ),
        ),
      )

  writing :
      (ns : List Node) (w : Spot) (size u : ℕ) (j : Bytes)
      → Stored ns
      → same_prefix max_key_len key j ≡ false
      → w.file ≡ file_of ns
      → ((w.best ≡ none) × Absent key ns) ⊎ Vacancy (HasRoom (length src)) blob_mark key 0 ns w.best
      → Writes ns size u j (finish_write t key src w)
  writing ns w size u j st apart e (inl (b, ab)) = Writes-end ns w size u j st ab apart e b
  writing ns w size u j st apart e (inr (a, (n, (c, (eq, (at, (room, (ha, (hc, free))))))))) =
      let un : matched_by j n ≡ false = elim free [
        | inl m ↦ matched_by-apart key j n apart m
        | inr unused ↦ rw unused refl
      ] in
      subst (λ l. Writes l size u j (finish_write t key src w)) (sym eq)
        (Writes-over a n c w size u j (subst Stored eq st) ha hc un apart (e ∙ ap file_of eq)
          (at ∙ ap (λ p. some (blob_mark p n)) (omega arith)) room)

-- Writing a string or a blob of less than 65536 bytes, under a key of up to 14 bytes, in a file of entries without integers of 64 bits, of which
-- every key has at most one, succeeds and leaves a file of entries of which every key has at most one. Reading
-- the key back with room for all of the data yields the data and their length, and with less room only the length. Integers
-- of a key that disagrees in 14 bytes read as before.
pub kvs_write_str_or_blob_read :
    (t : ℕ) (key src : Bytes) (ns : List Node) (size u : ℕ) (j : Bytes)
    → is_blob_type t ≡ true
    → length key ≤ max_key_len
    → length src < 65536
    → Stored ns
    → AllKnown ns
    → same_prefix max_key_len key j ≡ false
    → (ms : List Node) × ((kvs_write_str_or_blob t key src (file_of ns)
          ≡ returns (file_of ms, length src))
        × (Stored ms
            × ((kvs_read_str_or_blob t key size (file_of ms)
                  ≡ (length src, if ltb size (length src) then [] else src))
                × (kvs_get_int u j (file_of ms) ≡ kvs_get_int u j (file_of ns)))))
kvs_write_str_or_blob_read t key src ns size u j h fits short st known apart =
    let (w, (run, (after, (e, (d, (g, chosen)))))) =
      find_key_blob_w-Settled key (length src) ns st.good known (st.single key) in
    let st' : Stored after = record {
      good = g;
      single = λ k. Single-Deleted key k ns after st.good d (st.single k);
    } in
    let (ms, (done, (stm, (read, same)))) =
      writing t key src h fits short after w size u j st' apart e chosen in
    (
      ms,
      (
        finish_write-found t key src h fits short (file_of ns) w run ∙ done,
        (
          stm,
          (
            read,
            kvs_get_int-lookup u j ms stm.good
                ∙ (ap (Option.map (λ (li : LineInfo). li.nval % int_modulus u))
                      (same ∙ lookup-Deleted key j u ns after apart st.good d)
                    ∙ sym (kvs_get_int-lookup u j ns st.good)),
          ),
        ),
      ),
    )
