-- ===== src/Kvs/BlobPlacing.antt =====
-- One round of the loop of `find_key_blob_w` of kvs/host/kvs_posix.cc.
use components_mcu.Prelude.{
  Aborts, returns, ℕ, ◌+◌, ◌-◌, ◌≤◌, Bool, true, false, not, ◌&&◌, ◌||◌, Option, some, List, [],
  ◌∷◌, ◌++◌, append_assoc, Bytes, ltb, ◌==◌, length, Bool-cases, ◌⊎◌, inl, inr, subst, ◌≡◌, refl,
  sym, ap, ◌∙◌, arith,
}
use components_mcu.Kvs.Layout.{LineInfo, li_size, li_is_used, li_type_int, has_data, blob_size}
use components_mcu.Kvs.Blobs.{Spot, consider_blob, visit_blob}
use components_mcu.Kvs.Nodes.{Node, Good, AllGood, node_bytes, file_of}
use components_mcu.Kvs.Keys.{matched_by, Absent, Single, mark_deleted_laws}
use components_mcu.Kvs.Place.{
  Copy, Copy-li_size, Copy-Good, deleted, deleted_unmatched, delete_node-deleted, Settled,
  settled_later, settled_remember, settled_here,
}

-- A place for data of a size is an entry with data that has the room; its offset and its end are remembered.
abbrev pub HasRoom : ℕ → Node → Type 0
HasRoom size n = (has_data n.info.kvs_type ≡ true) × (size ≤ blob_size n.info)

abbrev pub blob_mark : ℕ → Node → ℕ × ℕ
blob_mark p n = (p, p + li_size n.info)

-- An entry is an integer of up to four bytes, or has data.
abbrev pub Known : Node → Type 0
Known n = (li_type_int n.info.kvs_type ≡ true) ⊎ (has_data n.info.kvs_type ≡ true)

abbrev pub AllKnown : List Node → Type 0
AllKnown [] = Unit {0}
AllKnown (n ∷ ns) = Known n × AllKnown ns

not_int :
    (t : ℕ)
    → ((li_type_int t ≡ true) ⊎ (has_data t ≡ true))
    → li_type_int t ≡ false
    → has_data t ≡ true
not_int t (inl int) h = cc
not_int t (inr data') h = data'

Copy-HasRoom :
    (k : Bytes) (size : ℕ) (n m : Node) → Good n → Copy k n m → HasRoom size n → HasRoom size m
Copy-HasRoom k size n m g (inl same) r = subst (HasRoom size) (sym same) r
Copy-HasRoom k size n m g (inr (match, del)) r =
    let (range, (typed, (data', rest))) =
      mark_deleted_laws n.info.kvs_type g.range.type_range g.typed in
    subst (HasRoom size) (sym del) (data' ∙ r.0, r.1)

Copy-blob_mark :
    (k : Bytes) (n m : Node)
    → Good n
    → Copy k n m
    → (p : ℕ) → blob_mark p m ≡ (p, p + li_size n.info)
Copy-blob_mark k n m g copy p = ap (λ s. (p, p + s)) (sym (Copy-li_size k n m g copy))

-- The rest of the loop, behind the entry `n` or its deleted form `m`.
abbrev pub Continues :
    (LineInfo → ℕ → Bool → Spot → Aborts Spot) → Bytes → ℕ → Bytes → Node → List Node → Type 0
Continues continue k size before n ns =
    (m : Node) (i : Bool) (best : Option (ℕ × ℕ)) (wasted : ℕ) (file : Bytes)
    → Copy k n m
    → file ≡ (before ++ node_bytes m) ++ file_of ns
    → (i ≡ true → Absent k ns)
    → (w : Spot) × ((continue n.info (length before) i
            (record { file = file; best = best; wasted = wasted })
          ≡ returns w)
        × Settled (HasRoom size) blob_mark k (before ++ node_bytes m) ns best w.file w.best)

module _ (continue : LineInfo → ℕ → Bool → Spot → Aborts Spot) (k : Bytes) (size : ℕ)
    (before : Bytes) (n : Node) (ns : List Node) (g : AllGood (n ∷ ns)) (known : Known n)
    (single : Single k (n ∷ ns)) (ih : Continues continue k size before n ns) where
  abbrev Ends : Option (ℕ × ℕ) → Aborts Spot → Type 0
  Ends best r =
      (w : Spot) × ((r ≡ returns w)
        × Settled (HasRoom size) blob_mark k before (n ∷ ns) best w.file w.best)

  -- Going on behind the entry, which is not a place.
  pass :
      (m : Node) (ignore : Bool) (best : Option (ℕ × ℕ)) (wasted : ℕ)
      → Copy k n m
      → matched_by k m ≡ false
      → (ignore ≡ true → Absent k ns)
      → Ends best (
          continue n.info (length before) ignore (record {
            file = before ++ (node_bytes m ++ file_of ns);
            best = best;
            wasted = wasted;
          }))
  pass m ignore best wasted copy u ab =
      let (w, (run, settled)) =
        ih m ignore best wasted (before ++ (node_bytes m ++ file_of ns)) copy
          (sym (append_assoc before (node_bytes m) (file_of ns))) ab in
      (
        w,
        (
          run,
          settled_later (HasRoom size) blob_mark k before n m ns best w.file w.best copy
              (Copy-Good k n m g.0 copy) u settled,
        ),
      )

  -- Going on behind the entry, which is the best place so far.
  remember :
      (m : Node) (ignore : Bool) (best : Option (ℕ × ℕ)) (wasted : ℕ)
      → Copy k n m
      → matched_by k m ≡ false
      → li_is_used m.info.kvs_type ≡ false
      → HasRoom size m
      → (ignore ≡ true → Absent k ns)
      → Ends best (
          continue n.info (length before) ignore (record {
            file = before ++ (node_bytes m ++ file_of ns);
            best = some (blob_mark (length before) m);
            wasted = wasted;
          }))
  remember m ignore best wasted copy u unused room ab =
      let (w, (run, settled)) =
        ih m ignore (some (blob_mark (length before) m)) wasted
          (before ++ (node_bytes m ++ file_of ns)) copy
          (sym (append_assoc before (node_bytes m) (file_of ns))) ab in
      (
        w,
        (
          run,
          settled_remember (HasRoom size) blob_mark k before n m ns best w.file w.best copy
              (Copy-Good k n m g.0 copy) u unused room settled,
        ),
      )

  unused_entry :
      (m : Node) (ignore : Bool) (best : Option (ℕ × ℕ)) (wasted : ℕ) (unused : Bool)
      → Copy k n m
      → matched_by k m ≡ false
      → (unused ≡ true → li_is_used m.info.kvs_type ≡ false)
      → (ignore ≡ true → Absent k ns)
      → Ends best (
          consider_blob continue size (length before) n.info ignore unused (record {
            file = before ++ (node_bytes m ++ file_of ns);
            best = best;
            wasted = wasted;
          }))
  unfolding consider_blob file_of
  unused_entry m ignore best wasted unused copy u free ab =
      let waste = blob_size n.info - size in
      let mark = Copy-blob_mark k n m g.0 copy (length before) in
      elim (Bool-cases (li_type_int n.info.kvs_type || not unused || ltb (blob_size n.info) size)) [
        | inl no_place ↦ rw no_place (pass m ignore best wasted copy u ab)
        | inr place ↦
            let int : li_type_int n.info.kvs_type ≡ false = ground arith in
            let idle : unused ≡ true = ground arith in
            let fits : size ≤ blob_size n.info = ground arith in
            let room = Copy-HasRoom k size n m g.0 copy (not_int n.info.kvs_type known int, fits) in
            elim (Bool-cases ((waste == 0) && ignore)) [
              | inl stop ↦
                  let on : ignore ≡ true = ground arith in
                  rw (place, stop)
                    (
                      _,
                      (
                        refl,
                        subst
                            (λ x.
                              Settled (HasRoom size) blob_mark k before (n ∷ ns) best
                                (before ++ (node_bytes m ++ file_of ns)) (some x))
                            mark
                            (settled_here (HasRoom size) blob_mark k before n m ns best g copy
                              (Copy-Good k n m g.0 copy) room (ab on) (inr (free idle))),
                      ),
                    )
              | inr go ↦ elim (Bool-cases (ltb wasted waste)) [
                | inl worse ↦ rw (place, go, worse) (pass m ignore best wasted copy u ab)
                | inr better ↦
                    rw (place, go, better)
                      (subst
                        (λ x. Ends best (
                          continue n.info (length before) ignore (record {
                            file = before ++ (node_bytes m ++ file_of ns);
                            best = some x;
                            wasted = waste;
                          })))
                        mark (remember m ignore best waste copy u (free idle) room ab))
              ]
            ]
      ]

  pub visit :
      (ignore : Bool) (best : Option (ℕ × ℕ)) (wasted : ℕ)
      → (ignore ≡ true → Absent k (n ∷ ns))
      → Ends best (
          visit_blob continue k size ignore
            (record { file = before ++ file_of (n ∷ ns); best = best; wasted = wasted })
            (some (length before, n.info)))
  unfolding visit_blob file_of
  visit ignore best wasted ab = elim (Bool-cases (matched_by k n)) [
    | inr u ↦ rw u (
        unused_entry n ignore best wasted (not (li_is_used n.info.kvs_type)) (inl refl) u
          (λ e. ground arith) (λ e. (ab e).1))
    | inl m ↦ elim (Bool-cases (not (li_type_int n.info.kvs_type) && (blob_size n.info == size))) [
      | inl exact ↦
          let int : li_type_int n.info.kvs_type ≡ false = ground arith in
          let same : size ≤ blob_size n.info = ground arith in
          rw (m, exact)
            (
              _,
              (
                refl,
                settled_here (HasRoom size) blob_mark k before n n ns best g (inl refl) g.0
                    (not_int n.info.kvs_type known int, same) (single.0 m) (inl m),
              ),
            )
      | inr other ↦
          let (range, (typed, (data', (int, used)))) =
            mark_deleted_laws n.info.kvs_type g.0.range.type_range g.0.typed in
          rw (m, other, delete_node-deleted before (file_of ns) n g.0)
            (unused_entry (deleted n) true best wasted true (inr (m, refl))
              (deleted_unmatched k n g.0) (λ e. used) (λ e. single.0 m))
    ]
  ]
