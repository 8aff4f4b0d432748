-- ===== src/Kvs/Place.antt =====
-- Where `find_key_int_w` of kvs/host/kvs_posix.cc lets an integer be written.
use components_mcu.Prelude.{
  subst, sym, Bool, if◌then◌else◌, returns, ℕ, ◌+◌, true, false, Option, some, List, [], ◌∷◌, ◌++◌,
  append_assoc, Bytes, length, length-append, ◌⊎◌, inl, inr, ◌≡◌, refl, ap, ◌∙◌, arith,
}
use components_mcu.Kvs.Layout.{li_size, blob_size, li_is_used, mark_deleted}
use components_mcu.Kvs.Store.{put_entry, marked, delete_node}
use components_mcu.Kvs.Nodes.{Node, Good, AllGood, node_bytes, file_of, put_entry-over, decode-node}
use components_mcu.Kvs.Keys.{matched_by, Absent, mark_deleted_laws}

abbrev pub deleted : Node → Node
deleted n = record n { info = record n.info { kvs_type = mark_deleted n.info.kvs_type } }

pub deleted-Good : (n : Node) → Good n → Good (deleted n)
deleted-Good n g =
    let (range, (typed, (size, (int, used)))) =
      mark_deleted_laws n.info.kvs_type g.range.type_range g.typed in
    record {
      range = record {
        magic_range = g.range.magic_range;
        type_range = range;
        nval_range = g.range.nval_range;
        key_range = g.range.key_range;
      };
      has_cookie = g.has_cookie;
      typed = typed;
      storable = rw (int) g.storable;
      sized = rw (size) g.sized;
    }

pub deleted_unmatched : (k : Bytes) (n : Node) → Good n → matched_by k (deleted n) ≡ false
deleted_unmatched k n g =
    let (range, (typed, (size, (int, used)))) =
      mark_deleted_laws n.info.kvs_type g.range.type_range g.typed in
    rw used refl

-- Deleting an entry in the file.
pub delete_node-deleted :
    (before rest : Bytes) (n : Node)
    → Good n
    → delete_node (length before) (before ++ (node_bytes n ++ rest))
      ≡ returns (before ++ (node_bytes (deleted n) ++ rest))
unfolding delete_node
delete_node-deleted before rest n g =
    let d = deleted-Good n g in
    let pos = length before in
    let file = before ++ (node_bytes n ++ rest) in
    ap (λ li. put_entry (marked li) pos file) (decode-node before n rest g)
    ∙ put_entry-over before rest n (marked n.info) g d.range d.storable

-- Entries of which some that a key matches were deleted.
abbrev pub Deleted : Bytes → List Node → List Node → Type 0
Deleted k [] [] = Unit {0}
Deleted k [] (m ∷ ms) = ⊥
Deleted k (n ∷ ns) [] = ⊥
Deleted k (n ∷ ns) (m ∷ ms) =
    ((m ≡ n) ⊎ ((matched_by k n ≡ true) × (m ≡ deleted n))) × Deleted k ns ms

pub Deleted-same : (k : Bytes) (ns : List Node) → Deleted k ns ns
Deleted-same k [] = tt
Deleted-same k (n ∷ ns) = (inl refl, Deleted-same k ns)

-- An entry as it is, or deleted if the key matches it.
abbrev pub Copy : Bytes → Node → Node → Type 0
Copy k n m = (m ≡ n) ⊎ ((matched_by k n ≡ true) × (m ≡ deleted n))

-- A place for entries that are of a kind, where `mark` is what is remembered of an entry and its offset.
module _ {B : Type 0} (Fits : Node → Type 0) (mark : ℕ → Node → B) where
  -- A place is an entry of the kind that the key matches or that is not in use, and no other entry is matched.
  abbrev pub Vacancy : Bytes → ℕ → List Node → Option B → Type 0
  Vacancy k base ns b =
      (a : List Node) × ((n : Node) × ((c : List Node) × ((ns ≡ a ++ n ∷ c)
            × ((b ≡ some (mark (base + length (file_of a)) n))
                × (Fits n
                    × (Absent k a
                        × (Absent k c
                            × ((matched_by k n ≡ true)
                                ⊎ (li_is_used n.info.kvs_type ≡ false)))))))))

  -- What the loop leaves of the entries behind `before`, where `best` is the place so far: the file, and the place.
  abbrev pub Settled : Bytes → Bytes → List Node → Option B → Bytes → Option B → Type 0
  Settled k before ns best file b =
      (after : List Node) × ((file ≡ before ++ file_of after)
        × (Deleted k ns after
            × (AllGood after
                × (((b ≡ best) × Absent k after) ⊎ Vacancy k (length before) after b))))

  slot_later :
      (k before : Bytes) (m : Node) (after : List Node) (b : Option B)
      → matched_by k m ≡ false
      → Vacancy k (length (before ++ node_bytes m)) after b
      → Vacancy k (length before) (m ∷ after) b
  unfolding file_of
  slot_later k before m after b u (a, (n, (c, (e, (at, (int, (ha, (hc, free)))))))) = (
    m ∷ a,
    (
      n,
      (
        c,
        (
          ap (◌∷◌ m) e,
          (
            at
                ∙ ap (λ p. some (mark p n))
                    (omega (
                      arith,
                      length-append before (node_bytes m),
                      length-append (node_bytes m) (file_of a),
                    )),
            (int, ((u, ha), (hc, free))),
          ),
        ),
      ),
    ),
  )

  pub settled_later :
      (k before : Bytes) (n m : Node) (ns : List Node) (best : Option B) (file : Bytes)
      (b : Option B)
      → Copy k n m
      → Good m
      → matched_by k m ≡ false
      → Settled k (before ++ node_bytes m) ns best file b
      → Settled k before (n ∷ ns) best file b
  unfolding file_of
  settled_later k before n m ns best file b same g u (after, (e, (d, (gs, chosen)))) = (
    m ∷ after,
    (
      e ∙ append_assoc before (node_bytes m) (file_of after),
      (
        (same, d),
        (
          (g, gs),
          elim chosen [
            | inl (keeps, absent) ↦ inl (keeps, (u, absent))
            | inr slot ↦ inr (slot_later k before m after b u slot)
          ],
        ),
      ),
    ),
  )

  pub settled_remember :
      (k before : Bytes) (n m : Node) (ns : List Node) (best : Option B) (file : Bytes)
      (b : Option B)
      → Copy k n m
      → Good m
      → matched_by k m ≡ false
      → li_is_used m.info.kvs_type ≡ false
      → Fits m
      → Settled k (before ++ node_bytes m) ns (some (mark (length before) m)) file b
      → Settled k before (n ∷ ns) best file b
  unfolding file_of
  settled_remember k before n m ns best file b same g u unused int (after, (e, (d, (gs, chosen)))) =
      (
        m ∷ after,
        (
          e ∙ append_assoc before (node_bytes m) (file_of after),
          (
            (same, d),
            (
              (g, gs),
              inr (elim chosen [
                | inl (keeps, absent) ↦ (
                  [],
                  (
                    m,
                    (
                      after,
                      (
                        refl,
                        (
                          keeps ∙ ap (λ p. some (mark p m)) (omega arith),
                          (int, (tt, (absent, inr unused))),
                        ),
                      ),
                    ),
                  ),
                )
                | inr slot ↦ slot_later k before m after b u slot
              ]),
            ),
          ),
        ),
      )

  pub settled_here :
      (k before : Bytes) (n m : Node) (ns : List Node) (best : Option B)
      → AllGood (n ∷ ns)
      → Copy k n m
      → Good m
      → Fits m
      → Absent k ns
      → ((matched_by k m ≡ true) ⊎ (li_is_used m.info.kvs_type ≡ false))
      → Settled k before (n ∷ ns) best (before ++ file_of (m ∷ ns)) (some (mark (length before) m))
  unfolding file_of
  settled_here k before n m ns best g copy gm int absent free = (
    m ∷ ns,
    (
      refl,
      (
        (copy, Deleted-same k ns),
        (
          (gm, g.1),
          inr (
            [],
            (
              m,
              (ns, (refl, (ap (λ p. some (mark p m)) (omega arith), (int, (tt, (absent, free)))))),
            ),
          ),
        ),
      ),
    ),
  )

pub Copy-li_size : (k : Bytes) (n m : Node) → Good n → Copy k n m → li_size n.info ≡ li_size m.info
Copy-li_size k n m g (inl same) = ap (λ (x : Node). li_size x.info) (sym same)
Copy-li_size k n m g (inr (match, del)) =
    let (range, (typed, (size, rest))) =
      mark_deleted_laws n.info.kvs_type g.range.type_range g.typed in
    ap (λ (b : Bool). 32 + (if b then blob_size n.info else 0)) (sym size)
    ∙ ap (λ (x : Node). li_size x.info) (sym del)

pub Copy-Good : (k : Bytes) (n m : Node) → Good n → Copy k n m → Good m
Copy-Good k n m g (inl same) = subst Good (sym same) g
Copy-Good k n m g (inr (match, del)) = subst Good (sym del) (deleted-Good n g)
