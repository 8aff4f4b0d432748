-- ===== src/Kvs/Placing.antt =====
-- The loop of `find_key_int_w` of kvs/host/kvs_posix.cc finds a place for an integer.
use components_mcu.Prelude.{
  Aborts, returns, ℕ, zero, suc, ◌<◌, Bool, true, false, not, ◌||◌, Option, none, some, List, [],
  ◌∷◌, ◌++◌, append_assoc, Bytes, length, Bool-cases, inl, inr, ◌≡◌, refl, sym, ap, ◌∙◌, arith,
}
use components_mcu.Kvs.Layout.{LineInfo, li_is_used, li_type_int}
use components_mcu.Kvs.Store.{
  Place, kvs_type_any, kvs_find_next, visit_int, find_int_from, find_key_int_w,
}
use components_mcu.Kvs.Nodes.{Node, AllGood, node_bytes, file_of}
use components_mcu.Kvs.Search.{
  first, first-any, kvs_find_next-first, kvs_find_next-behind, length-file_of,
}
use components_mcu.Kvs.Keys.{matched_by, Absent, Single}
use components_mcu.Kvs.Place.{
  Copy, Copy-li_size, Copy-Good, deleted, deleted-Good, deleted_unmatched, delete_node-deleted,
  Settled, settled_later, settled_remember, settled_here,
}

-- A place for an integer is the offset of an integer entry.
abbrev pub IsInt : Node → Type 0
IsInt n = li_type_int n.info.kvs_type ≡ true

abbrev pub int_mark : ℕ → Node → ℕ
int_mark p n = p

-- The rest of the loop, behind the entry `n` or its deleted form `m`.
abbrev Continues :
    (LineInfo → ℕ → Bool → Place → Aborts Place) → Bytes → Bytes → Node → List Node → Type 0
Continues continue k before n ns =
    (m : Node) (i : Bool) (best : Option ℕ) (file : Bytes)
    → Copy k n m
    → file ≡ (before ++ node_bytes m) ++ file_of ns
    → (i ≡ true → Absent k ns)
    → (w : Place) × ((continue n.info (length before) i (record { file = file; best = best })
          ≡ returns w)
        × Settled IsInt int_mark k (before ++ node_bytes m) ns best w.file w.best)

module _ (continue : LineInfo → ℕ → Bool → Place → Aborts Place) (k before : Bytes) (n : Node)
    (ns : List Node) (g : AllGood (n ∷ ns)) (single : Single k (n ∷ ns))
    (ih : Continues continue k before n ns) where
  abbrev Visits : Bool → Option ℕ → Type 0
  Visits ignore best =
      (w : Place) × ((visit_int continue k ignore
            (record { file = before ++ file_of (n ∷ ns); best = best })
            (some (length before, n.info))
          ≡ returns w)
        × Settled IsInt int_mark k before (n ∷ ns) best w.file w.best)

  -- The key is there: with an integer, or with data, and then it is deleted.
  visit_matched : (ignore : Bool) (best : Option ℕ) → matched_by k n ≡ true → Visits ignore best
  unfolding visit_int file_of
  visit_matched ignore best m = elim (Bool-cases (li_type_int n.info.kvs_type)) [
    | inl int ↦
        rw (m, int)
          (
            _,
            (
              refl,
              settled_here IsInt int_mark k before n n ns best g (inl refl) g.0 int (single.0 m)
                  (inl m),
            ),
          )
    | inr data' ↦
        let file = before ++ (node_bytes (deleted n) ++ file_of ns) in
        let (w, (run, settled)) =
          ih (deleted n) true best file (inr (m, refl))
            (sym (append_assoc before (node_bytes (deleted n)) (file_of ns))) (λ e. single.0 m) in
        rw (m, data', delete_node-deleted before (file_of ns) n g.0)
          (
            w,
            (
              run,
              settled_later IsInt int_mark k before n (deleted n) ns best w.file w.best
                  (inr (m, refl)) (deleted-Good n g.0) (deleted_unmatched k n g.0) settled,
            ),
          )
  ]

  pass :
      (ignore : Bool) (best : Option ℕ)
      → matched_by k n ≡ false
      → (ignore ≡ true → Absent k ns)
      → (w : Place) × ((continue n.info
              (length before)
              ignore
              (record { file = before ++ file_of (n ∷ ns); best = best })
            ≡ returns w)
          × Settled IsInt int_mark k before (n ∷ ns) best w.file w.best)
  unfolding file_of
  pass ignore best u ab =
      let (w, (run, settled)) =
        ih n ignore best (before ++ file_of (n ∷ ns)) (inl refl)
          (sym (append_assoc before (node_bytes n) (file_of ns))) ab in
      (
        w,
        (
          run,
          settled_later IsInt int_mark k before n n ns best w.file w.best (inl refl) g.0 u settled,
        ),
      )

  visit_unmatched :
      (ignore : Bool) (best : Option ℕ)
      → matched_by k n ≡ false
      → (ignore ≡ true → Absent k ns)
      → Visits ignore best
  unfolding visit_int file_of
  visit_unmatched ignore (some p) u ab = rw u (pass ignore (some p) u ab)
  visit_unmatched ignore none u ab =
      elim (Bool-cases (li_is_used n.info.kvs_type || not (li_type_int n.info.kvs_type))) [
        | inl no_place ↦ rw (u, no_place) (pass ignore none u ab)
        | inr place ↦
            let unused : li_is_used n.info.kvs_type ≡ false = ground arith in
            let int : li_type_int n.info.kvs_type ≡ true = ground arith in
            elim (Bool-cases ignore) [
              | inl on ↦
                  rw (u, place, on)
                    (
                      _,
                      (
                        refl,
                        settled_here IsInt int_mark k before n n ns none g (inl refl) g.0 int
                            (ab on) (inr unused),
                      ),
                    )
              | inr off ↦
                  let (w, (run, settled)) =
                    ih n false (some (length before)) (before ++ file_of (n ∷ ns)) (inl refl)
                      (sym (append_assoc before (node_bytes n) (file_of ns))) (λ e. cc) in
                  rw (u, place, off)
                    (
                      w,
                      (
                        run,
                        settled_remember IsInt int_mark k before n n ns none w.file w.best
                            (inl refl) g.0 u unused int settled,
                      ),
                    )
            ]
      ]

  visit :
      (ignore : Bool) (best : Option ℕ) → (ignore ≡ true → Absent k (n ∷ ns)) → Visits ignore best
  visit ignore best ab = elim (Bool-cases (matched_by k n)) [
    | inl m ↦ visit_matched ignore best m
    | inr u ↦ visit_unmatched ignore best u (λ e. (ab e).1)
  ]

find_int_from-Settled :
    (fuel : ℕ) (k : Bytes) (li : Option LineInfo) (pos : ℕ) (ignore : Bool) (best : Option ℕ)
    (before : Bytes) (ns : List Node) (file : Bytes)
    → file ≡ before ++ file_of ns
    → kvs_find_next file li pos none kvs_type_any ≡ first none kvs_type_any (length before) ns
    → AllGood ns
    → Single k ns
    → (ignore ≡ true → Absent k ns)
    → length ns < fuel
    → (w : Place) × ((find_int_from fuel k li pos ignore (record { file = file; best = best })
          ≡ returns w)
        × Settled IsInt int_mark k before ns best w.file w.best)
unfolding find_int_from first visit_int
find_int_from-Settled zero k li pos ignore best before ns file e next g s ab f =
    absurd (omega (arith, f))
find_int_from-Settled (suc fuel) k li pos ignore best before [] file e next g s ab f =
    let v : Place = record { file = file; best = best } in
    (
      v,
      (
        ap (visit_int (λ l p i w. find_int_from fuel k (some l) p i w) k ignore v) next,
        ([], (e, (tt, (tt, inl (refl, tt))))),
      ),
    )
find_int_from-Settled (suc fuel) k li pos ignore best before (n ∷ ns) file e next g s ab f =
    let continue =
      λ (l : LineInfo) (p : ℕ) (i : Bool) (w : Place). find_int_from fuel k (some l) p i w in
    let start =
      ap (visit_int continue k ignore (record { file = file; best = best }))
        (next ∙ first-any (length before) n ns) in
    let there =
      ap
        (λ f.
          visit_int continue k ignore (record { file = f; best = best })
            (some (length before, n.info)))
        e in
    let rest : Continues continue k before n ns = λ m i b f' copy e' ab'.
      find_int_from-Settled fuel k (some n.info) (length before) i b (before ++ node_bytes m) ns f'
        e'
        (ap (λ f. kvs_find_next f (some n.info) (length before) none kvs_type_any) e'
          ∙ kvs_find_next-behind before m n.info ns none kvs_type_any (Copy-Good k n m g.0 copy) g.1
              g.0.typed (Copy-li_size k n m g.0 copy))
        g.1 s.1 ab' (omega (arith, f)) in
    let (w, (run, settled)) = visit continue k before n ns g s rest ignore best ab in
    (w, (start ∙ (there ∙ run), settled))

-- `find_key_int_w` on a file of good entries returns a place, or none where no entry is matched; it may
-- have deleted entries that the key matches.
pub find_key_int_w-Settled :
    (k : Bytes) (ns : List Node)
    → AllGood ns
    → Single k ns
    → (w : Place) × ((find_key_int_w k (file_of ns) ≡ returns w)
        × Settled IsInt int_mark k [] ns none w.file w.best)
unfolding find_key_int_w
find_key_int_w-Settled k ns g s =
    find_int_from-Settled (suc (length (file_of ns))) k none 0 false none [] ns (file_of ns) refl
      (kvs_find_next-first ns none kvs_type_any g) g s (λ e. cc)
      (omega (arith, length-file_of ns g))
