-- ===== src/Kvs/Search.antt =====
-- Searching the file of kvs/host/kvs_posix.cc, entry by entry.
use components_mcu.Prelude.{
  ℕ, zero, suc, ◌+◌, ◌≤◌, ◌<◌, false, Option, none, some, List, [], ◌∷◌, ◌++◌, append-nil,
  append_assoc, Bytes, ◌==◌, if◌then◌else◌, length, length-append, ◌≡◌, refl, sym, ap, ap₂, ◌∙◌,
  arith,
}
use components_mcu.Kvs.Layout.{LineInfo, li_size}
use components_mcu.Kvs.Store.{accepts, kvs_read, find_at, find_from, kvs_find_next, kvs_type_any}
use components_mcu.Kvs.Nodes.{
  Node, Good, AllGood, node_bytes, file_of, length-node_bytes, kvs_read-node, kvs_read-end,
}

-- The first entry that is accepted, and its offset, in entries that start at `at`.
unfoldable pub first : Option Bytes → ℕ → ℕ → List Node → Option (ℕ × LineInfo)
first key t at [] = none
first key t at (n ∷ ns) =
    let rest = first key t (at + li_size n.info) ns in
    if accepts key t n.info then some (at, n.info) else rest

pub find_from-first :
    (fuel : ℕ) (before : Bytes) (ns : List Node) (key : Option Bytes) (t : ℕ)
    → AllGood ns
    → length ns < fuel
    → find_from fuel (before ++ file_of ns) (length before) key t ≡ first key t (length before) ns
unfolding find_from find_at file_of first
find_from-first zero before ns key t g h = absurd (omega (arith, h))
find_from-first (suc fuel) before [] key t g h =
    ap (find_at (λ p. find_from fuel (before ++ []) p key t) (length before) key t)
      (ap (λ f. kvs_read f (length before)) (append-nil before) ∙ kvs_read-end before)
find_from-first (suc fuel) before (n ∷ ns) key t g h =
    let file = before ++ (node_bytes n ++ file_of ns) in
    let here =
      ap (find_at (λ p. find_from fuel file p key t) (length before) key t)
        (kvs_read-node before n (file_of ns) g.0) in
    let size : length (before ++ node_bytes n) ≡ length before + li_size n.info =
      omega (arith, length-append before (node_bytes n), length-node_bytes n g.0) in
    let later : find_from fuel file (length before + li_size n.info) key t
        ≡ first key t (length before + li_size n.info) ns =
      ap₂ (λ f p. find_from fuel f p key t) (sym (append_assoc before (node_bytes n) (file_of ns)))
        (sym size)
      ∙ (find_from-first fuel (before ++ node_bytes n) ns key t g.1 (omega (arith, h))
          ∙ ap (λ p. first key t p ns) size) in
    here ∙ ap (λ r. if accepts key t n.info then some (length before, n.info) else r) later

pub length-file_of : (ns : List Node) → AllGood ns → length ns ≤ length (file_of ns)
unfolding file_of
length-file_of [] g = omega arith
length-file_of (n ∷ ns) g = omega (
  arith,
  length-append (node_bytes n) (file_of ns),
  length-node_bytes n g.0,
  length-file_of ns g.1,
)

-- A search of the whole file.
pub kvs_find_next-first :
    (ns : List Node) (key : Option Bytes) (t : ℕ)
    → AllGood ns
    → kvs_find_next (file_of ns) none 0 key t ≡ first key t 0 ns
unfolding kvs_find_next
kvs_find_next-first ns key t g =
    find_from-first (suc (length (file_of ns))) [] ns key t g (omega (arith, length-file_of ns g))

-- The entry behind one at the end of `before`; `li` may be what was read there earlier.
pub kvs_find_next-behind :
    (before : Bytes) (n : Node) (li : LineInfo) (ns : List Node) (key : Option Bytes) (t : ℕ)
    → Good n
    → AllGood ns
    → (li.kvs_type == 0) ≡ false
    → li_size li ≡ li_size n.info
    → kvs_find_next ((before ++ node_bytes n) ++ file_of ns) (some li) (length before) key t
      ≡ first key t (length (before ++ node_bytes n)) ns
unfolding kvs_find_next
kvs_find_next-behind before n li ns key t g gs typed same =
    let file = (before ++ node_bytes n) ++ file_of ns in
    let size : length before + li_size li ≡ length (before ++ node_bytes n) =
      omega (arith, length-append before (node_bytes n), length-node_bytes n g, same) in
    let bytes = length-append (before ++ node_bytes n) (file_of ns) in
    let pos : (if li.kvs_type == 0 then length before else length before + li_size li)
        ≡ length (before ++ node_bytes n) =
      ap (λ b. if b then length before else length before + li_size li) typed ∙ size in
    ap (λ p. find_from (suc (length file)) file p key t) pos
    ∙ find_from-first (suc (length file)) (before ++ node_bytes n) ns key t gs
        (omega (arith, length-file_of ns gs, bytes))

-- Without a key and a type the next entry is found.
pub first-any :
    (at : ℕ) (n : Node) (ns : List Node) → first none kvs_type_any at (n ∷ ns) ≡ some (at, n.info)
unfolding first accepts
first-any at n ns = refl
