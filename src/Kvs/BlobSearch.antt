-- ===== src/Kvs/BlobSearch.antt =====
-- The loop of `find_key_blob_w` of kvs/host/kvs_posix.cc finds a place for a string or a blob.
use components_mcu.Prelude.{
  returns, ℕ, zero, suc, ◌<◌, Bool, true, false, Option, none, some, List, [], ◌∷◌, ◌++◌, Bytes,
  length, inl, ◌≡◌, refl, ap, ◌∙◌, arith,
}
use components_mcu.Kvs.Layout.{LineInfo}
use components_mcu.Kvs.Store.{kvs_type_any, kvs_find_next}
use components_mcu.Kvs.Blobs.{Spot, visit_blob, find_blob_from, find_key_blob_w}
use components_mcu.Kvs.Nodes.{Node, AllGood, node_bytes, file_of}
use components_mcu.Kvs.Search.{
  first, first-any, kvs_find_next-first, kvs_find_next-behind, length-file_of,
}
use components_mcu.Kvs.Keys.{Absent, Single}
use components_mcu.Kvs.Place.{Copy-li_size, Copy-Good, Settled}
use components_mcu.Kvs.BlobPlacing.{HasRoom, blob_mark, AllKnown, Continues, visit}

find_blob_from-Settled :
    (fuel : ℕ) (k : Bytes) (size : ℕ) (li : Option LineInfo) (pos : ℕ) (ignore : Bool)
    (best : Option (ℕ × ℕ)) (wasted : ℕ) (before : Bytes) (ns : List Node) (file : Bytes)
    → file ≡ before ++ file_of ns
    → kvs_find_next file li pos none kvs_type_any ≡ first none kvs_type_any (length before) ns
    → AllGood ns
    → AllKnown ns
    → Single k ns
    → (ignore ≡ true → Absent k ns)
    → length ns < fuel
    → (w : Spot) × ((find_blob_from fuel k size li pos ignore
            (record { file = file; best = best; wasted = wasted })
          ≡ returns w)
        × Settled (HasRoom size) blob_mark k before ns best w.file w.best)
unfolding find_blob_from first visit_blob
find_blob_from-Settled zero k size li pos ignore best wasted before ns file e next g kn s ab f =
    absurd (omega (arith, f))
find_blob_from-Settled (suc fuel) k size li pos ignore best wasted before [] file e next g kn s ab
      f =
    let v : Spot = record { file = file; best = best; wasted = wasted } in
    (
      v,
      (
        ap (visit_blob (λ l p i w. find_blob_from fuel k size (some l) p i w) k size ignore v) next,
        ([], (e, (tt, (tt, inl (refl, tt))))),
      ),
    )
find_blob_from-Settled (suc fuel) k size li pos ignore best wasted before (n ∷ ns) file e next g kn
      s ab f =
    let continue =
      λ (l : LineInfo) (p : ℕ) (i : Bool) (w : Spot). find_blob_from fuel k size (some l) p i w in
    let start =
      ap (visit_blob continue k size ignore (record { file = file; best = best; wasted = wasted }))
        (next ∙ first-any (length before) n ns) in
    let there =
      ap
        (λ f.
          visit_blob continue k size ignore (record { file = f; best = best; wasted = wasted })
            (some (length before, n.info)))
        e in
    let rest : Continues continue k size before n ns = λ m i b wa f' copy e' ab'.
      find_blob_from-Settled fuel k size (some n.info) (length before) i b wa
        (before ++ node_bytes m) ns f' e'
        (ap (λ f. kvs_find_next f (some n.info) (length before) none kvs_type_any) e'
          ∙ kvs_find_next-behind before m n.info ns none kvs_type_any (Copy-Good k n m g.0 copy) g.1
              g.0.typed (Copy-li_size k n m g.0 copy))
        g.1 kn.1 s.1 ab' (omega (arith, f)) in
    let (w, (run, settled)) =
      visit continue k size before n ns g kn.0 s rest ignore best wasted ab in
    (w, (start ∙ (there ∙ run), settled))

-- `find_key_blob_w` on a file of good entries returns a place with room, or none where no entry is matched.
pub find_key_blob_w-Settled :
    (k : Bytes) (size : ℕ) (ns : List Node)
    → AllGood ns
    → AllKnown ns
    → Single k ns
    → (w : Spot) × ((find_key_blob_w k size (file_of ns) ≡ returns w)
        × Settled (HasRoom size) blob_mark k [] ns none w.file w.best)
unfolding find_key_blob_w
find_key_blob_w-Settled k size ns g kn s =
    find_blob_from-Settled (suc (length (file_of ns))) k size none 0 false none 1000 [] ns
      (file_of ns) refl (kvs_find_next-first ns none kvs_type_any g) g kn s (λ e. cc)
      (omega (arith, length-file_of ns g))
