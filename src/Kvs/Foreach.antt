-- ===== src/Kvs/Foreach.antt =====
-- `kvs_foreach` of kvs/host/kvs_posix.cc and of kvs/host/kvs_templates.hh. The test of the key and the callback are
-- functions; no callback is one that matches always. An entry that was found has the cookie, so that
-- the second test of it never fails.
use components_mcu.Prelude.{
  ℕ, zero, suc, ◌+◌, ◌<◌, Bool, true, false, not, ◌&&◌, Option, none, some, List, [], ◌∷◌, ◌++◌,
  append_assoc, Bytes, c_str, same_prefix, ltb, if◌then◌else◌, length, length-append, Bool-cases,
  inl, inr, ◌≡◌, refl, sym, ap, ◌∙◌, arith,
}
use components_mcu.Kvs.Layout.{LineInfo, li_is_used, li_size}
use components_mcu.Kvs.Store.{accepts, kvs_find_next}
use components_mcu.Kvs.Nodes.{Node, AllGood, node_bytes, file_of, length-node_bytes}
use components_mcu.Kvs.Search.{first, kvs_find_next-first, kvs_find_next-behind, length-file_of}
use components_mcu.Kvs.Handles.{Handle, kvs_open, kvs_close}

-- `kvs_cbrT`.
pub data Verdict : Type 0 where
  no_match : Verdict
  match : Verdict
  done : Verdict

-- The test of a key by a prefix; no prefix is one of every key.
unfoldable pub key_prefix : Option Bytes → Bytes → Bool
key_prefix none key = true
key_prefix (some key_match) key =
    let len = length key_match in
    if ltb (length (c_str key)) len then false else same_prefix len key key_match

-- What is done with a verdict, where `count` is the number of matches so far.
abbrev pub judge : (ℕ → ℕ) → ℕ → Verdict → ℕ
judge continue count no_match = continue count
judge continue count match = continue (count + 1)
judge continue count done = count + 1

judge-same :
    (f g : ℕ → ℕ) (count : ℕ) (v : Verdict)
    → ((m : ℕ) → f m ≡ g m)
    → judge f count v ≡ judge g count v
judge-same f g count no_match h = h count
judge-same f g count match h = h (count + 1)
judge-same f g count done h = refl

abbrev pub has_handle : Option ℕ → Bool
has_handle none = false
has_handle (some h) = true

module _ (cmp : Bytes → Bool) (cb : Bytes → ℕ → Verdict) where
  -- The body of the loop, with the entry that was found.
  unfoldable pub foreach_at : (ℕ → LineInfo → ℕ → ℕ) → ℕ → Option (ℕ × LineInfo) → ℕ
  foreach_at continue count none = count
  foreach_at continue count (some (pos, li)) =
      let skipped = continue pos li count in
      let judged = judge (continue pos li) count (cb (c_str li.key) li.kvs_type) in
      if not (li_is_used li.kvs_type) then skipped else if not (cmp li.key) then skipped else judged

  unfoldable pub foreach_from : ℕ → Bytes → Option LineInfo → ℕ → ℕ → ℕ → ℕ
  foreach_from zero file li pos t count = count
  foreach_from (suc fuel) file li pos t count =
      foreach_at (λ p l n. foreach_from fuel file (some l) p t n) count
        (kvs_find_next file li pos none t)

  -- The part of `kvs_foreach` behind the opening of the file.
  unfoldable pub foreach_opened : ℕ → Bytes → Option ℕ → List Handle → ℕ × List Handle
  foreach_opened t file none hs = (0, hs)
  foreach_opened t file (some i) hs =
      (foreach_from (suc (length file)) file none 0 t 0, kvs_close (some i) hs)

  -- `kvs_foreach` on the file that is opened: the count and the handles.
  unfoldable pub kvs_foreach : ℕ → Option (ℕ × ℕ) → Bytes → List Handle → ℕ × List Handle
  kvs_foreach t opened file hs = let (h, hs') = kvs_open opened hs in foreach_opened t file h hs'

  -- The count over entries, one after the other, up to one that the callback calls done.
  unfoldable pub count_entries : ℕ → List Node → ℕ → ℕ
  count_entries t [] count = count
  count_entries t (n ∷ ns) count =
      let skipped = count_entries t ns count in
      let judged = judge (count_entries t ns) count (cb (c_str n.info.key) n.info.kvs_type) in
      if accepts none t n.info && li_is_used n.info.kvs_type && cmp n.info.key
      then judged
      else skipped

  foreach_from-count_entries :
      (ns : List Node) (fuel : ℕ) (file before : Bytes) (li : Option LineInfo) (pos t count : ℕ)
      → file ≡ before ++ file_of ns
      → kvs_find_next file li pos none t ≡ first none t (length before) ns
      → AllGood ns
      → length ns < fuel
      → foreach_from fuel file li pos t count ≡ count_entries t ns count
  unfolding foreach_from foreach_at count_entries first file_of
  foreach_from-count_entries ns zero file before li pos t count e next g h =
      absurd (omega (arith, h))
  foreach_from-count_entries [] (suc fuel) file before li pos t count e next g h =
      ap (foreach_at (λ p l n. foreach_from fuel file (some l) p t n) count) next
  foreach_from-count_entries (n ∷ ns) (suc fuel) file before li pos t count e next g h =
      let body = foreach_at (λ p l n. foreach_from fuel file (some l) p t n) count in
      let here = ap body next in
      let size : length before + li_size n.info ≡ length (before ++ node_bytes n) =
        omega (arith, length-append before (node_bytes n), length-node_bytes n g.0) in
      let e' : file ≡ (before ++ node_bytes n) ++ file_of ns =
        e ∙ sym (append_assoc before (node_bytes n) (file_of ns)) in
      elim (Bool-cases (accepts none t n.info)) [
        | inr no' ↦
            let skip : kvs_find_next file li pos none t
                ≡ first none t (length (before ++ node_bytes n)) ns =
              next ∙ rw no' (ap (λ p. first none t p ns) size) in
            let small : length ns < suc fuel = omega (arith, h) in
            rw no' (
              foreach_from-count_entries ns (suc fuel) file (before ++ node_bytes n) li pos t count
                e' skip g.1 small)
        | inl yes' ↦
            let found : first none t (length before) (n ∷ ns) ≡ some (length before, n.info) =
              rw yes' refl in
            let behind : kvs_find_next file (some n.info) (length before) none t
                ≡ first none t (length (before ++ node_bytes n)) ns =
              ap (λ f. kvs_find_next f (some n.info) (length before) none t) e'
              ∙ kvs_find_next-behind before n n.info ns none t g.0 g.1 g.0.typed refl in
            let small : length ns < fuel = omega (arith, h) in
            let go : (m : ℕ)
                → foreach_from fuel file (some n.info) (length before) t m ≡ count_entries t ns m =
              λ m.
                foreach_from-count_entries ns fuel file (before ++ node_bytes n) (some n.info)
                  (length before) t m e' behind g.1 small in
            let verdict = judge-same _ _ count (cb (c_str n.info.key) n.info.kvs_type) go in
            here
            ∙ (ap body found ∙ elim (Bool-cases (li_is_used n.info.kvs_type)) [
              | inr unused ↦ rw (yes', unused) (go count)
              | inl used ↦ elim (Bool-cases (cmp n.info.key)) [
                | inr other ↦ rw (yes', used, other) (go count)
                | inl fits ↦ rw (yes', used, fits) verdict
              ]
            ])
      ]

  foreach_opened-count_entries :
      (t : ℕ) (ns : List Node) (h : Option ℕ) (hs : List Handle)
      → AllGood ns
      → (foreach_opened t (file_of ns) h hs).0 ≡ (if has_handle h then count_entries t ns 0 else 0)
  unfolding foreach_opened
  foreach_opened-count_entries t ns none hs g = refl
  foreach_opened-count_entries t ns (some i) hs g =
      foreach_from-count_entries ns (suc (length (file_of ns))) (file_of ns) [] none 0 t 0 refl
        (kvs_find_next-first ns none t g) g (omega (arith, length-file_of ns g))

  -- With a handle that is free, `kvs_foreach` on a file of good entries counts the entries of the type that are in use and
  -- whose key passes the test, in their order, those that the callback matches, up to the first that
  -- it calls done; without a free handle it counts none.
  pub kvs_foreach-count_entries :
      (t : ℕ) (fd size : ℕ) (ns : List Node) (hs : List Handle)
      → AllGood ns
      → (kvs_foreach t (some (fd, size)) (file_of ns) hs).0
        ≡ (if has_handle (kvs_open (some (fd, size)) hs).0 then count_entries t ns 0 else 0)
  unfolding kvs_foreach
  kvs_foreach-count_entries t fd size ns hs g =
      foreach_opened-count_entries t ns (kvs_open (some (fd, size)) hs).0
        (kvs_open (some (fd, size)) hs).1 g
