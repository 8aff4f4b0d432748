-- ===== src/Kvs/Lookup.antt =====
-- What the searches of kvs/host/kvs_posix.cc find for a key and a type.
use mathlib.Core.Option
use components_mcu.Prelude.{
  same_prefix, ℕ, ◌+◌, ◌%◌, false, Option, none, some, List, [], ◌∷◌, ◌++◌, Bytes, if◌then◌else◌,
  Bool-cases, inl, inr, ◌≡◌, refl, sym, ap, ◌∙◌,
}
use components_mcu.Kvs.Layout.{LineInfo, li_size, max_key_len}
use components_mcu.Kvs.Store.{accepts, int_modulus, kvs_get_int}
use components_mcu.Kvs.Nodes.{Node, AllGood, file_of}
use components_mcu.Kvs.Search.{first, kvs_find_next-first}
use components_mcu.Kvs.Keys.{matched_by, matched_by-apart, Absent, Single}
use components_mcu.Kvs.Place.{deleted, deleted_unmatched, Deleted}

-- The first entry that a key matches and that has the type.
unfoldable pub lookup : Bytes → ℕ → List Node → Option LineInfo
lookup j t [] = none
lookup j t (n ∷ ns) =
    let rest = lookup j t ns in if accepts (some j) t n.info then some n.info else rest

first-lookup :
    (f : LineInfo → ℕ) (j : Bytes) (t at : ℕ) (ns : List Node)
    → Option.map (λ (r : ℕ × LineInfo). f r.1) (first (some j) t at ns)
      ≡ Option.map f (lookup j t ns)
unfolding first lookup
first-lookup f j t at [] = refl
first-lookup f j t at (n ∷ ns) = elim (Bool-cases (accepts (some j) t n.info)) [
  | inl yes' ↦ rw yes' refl
  | inr no' ↦ rw no' (first-lookup f j t (at + li_size n.info) ns)
]

pub kvs_get_int-lookup :
    (t : ℕ) (j : Bytes) (ns : List Node)
    → AllGood ns
    → kvs_get_int t j (file_of ns) ≡ Option.map (λ li. li.nval % int_modulus t) (lookup j t ns)
unfolding kvs_get_int
kvs_get_int-lookup t j ns g =
    ap (Option.map (λ (r : ℕ × LineInfo). r.1.nval % int_modulus t))
      (kvs_find_next-first ns (some j) t g)
    ∙ first-lookup (λ li. li.nval % int_modulus t) j t 0 ns

pub not_accepted :
    (j : Bytes) (t : ℕ) (n : Node) → matched_by j n ≡ false → accepts (some j) t n.info ≡ false
unfolding accepts
not_accepted j t n u = rw u refl

pub lookup-Absent : (j : Bytes) (t : ℕ) (ns : List Node) → Absent j ns → lookup j t ns ≡ none
unfolding lookup
lookup-Absent j t [] a = refl
lookup-Absent j t (n ∷ ns) a = rw (not_accepted j t n a.0) (lookup-Absent j t ns a.1)

pub lookup-append :
    (j : Bytes) (t : ℕ) (a b : List Node) → Absent j a → lookup j t (a ++ b) ≡ lookup j t b
unfolding lookup
lookup-append j t [] b h = refl
lookup-append j t (n ∷ a) b h = rw (not_accepted j t n h.0) (lookup-append j t a b h.1)

-- An entry that is not matched makes no difference.
pub lookup-insert :
    (j : Bytes) (t : ℕ) (a : List Node) (m : Node) (c : List Node)
    → matched_by j m ≡ false
    → lookup j t (a ++ m ∷ c) ≡ lookup j t (a ++ c)
unfolding lookup
lookup-insert j t [] m c u = rw (not_accepted j t m u) refl
lookup-insert j t (n ∷ a) m c u =
    ap (λ r. if accepts (some j) t n.info then some n.info else r) (lookup-insert j t a m c u)

-- The entry of a key that no other entry is matched by.
pub lookup-alone :
    (j : Bytes) (t : ℕ) (a : List Node) (m : Node) (c : List Node)
    → Absent j a
    → Absent j c
    → lookup j t (a ++ m ∷ c) ≡ (if accepts (some j) t m.info then some m.info else none)
unfolding lookup
lookup-alone j t a m c h k =
    lookup-append j t a (m ∷ c) h
    ∙ ap (λ r. if accepts (some j) t m.info then some m.info else r) (lookup-Absent j t c k)

-- Deleting what one key matches changes nothing for a key that disagrees.
pub lookup-Deleted :
    (k j : Bytes) (t : ℕ) (ns ms : List Node)
    → same_prefix max_key_len k j ≡ false
    → AllGood ns
    → Deleted k ns ms
    → lookup j t ms ≡ lookup j t ns
unfolding lookup
lookup-Deleted k j t [] [] h g d = refl
lookup-Deleted k j t [] (m ∷ ms) h g d = absurd d
lookup-Deleted k j t (n ∷ ns) [] h g d = absurd d
lookup-Deleted k j t (n ∷ ns) (m ∷ ms) h g (inl same, d) =
    let ih = lookup-Deleted k j t ns ms h g.1 d in
    ap (λ (x : Node). if accepts (some j) t x.info then some x.info else lookup j t ms) same
    ∙ ap (λ r. if accepts (some j) t n.info then some n.info else r) ih
lookup-Deleted k j t (n ∷ ns) (m ∷ ms) h g (inr (match, del), d) =
    let ih = lookup-Deleted k j t ns ms h g.1 d in
    ap (λ (x : Node). if accepts (some j) t x.info then some x.info else lookup j t ms) del
    ∙ rw
        (
          not_accepted j t (deleted n) (deleted_unmatched j n g.0),
          not_accepted j t n (matched_by-apart k j n h match),
        )
        ih

pub Absent-Deleted :
    (k j : Bytes) (ns ms : List Node) → AllGood ns → Deleted k ns ms → Absent j ns → Absent j ms
Absent-Deleted k j [] [] g d a = tt
Absent-Deleted k j [] (m ∷ ms) g d a = absurd d
Absent-Deleted k j (n ∷ ns) [] g d a = absurd d
Absent-Deleted k j (n ∷ ns) (m ∷ ms) g (inl same, d) a =
    (ap (matched_by j) same ∙ a.0, Absent-Deleted k j ns ms g.1 d a.1)
Absent-Deleted k j (n ∷ ns) (m ∷ ms) g (inr (match, del), d) a =
    (ap (matched_by j) del ∙ deleted_unmatched j n g.0, Absent-Deleted k j ns ms g.1 d a.1)

pub Single-Deleted :
    (k j : Bytes) (ns ms : List Node) → AllGood ns → Deleted k ns ms → Single j ns → Single j ms
Single-Deleted k j [] [] g d s = tt
Single-Deleted k j [] (m ∷ ms) g d s = absurd d
Single-Deleted k j (n ∷ ns) [] g d s = absurd d
Single-Deleted k j (n ∷ ns) (m ∷ ms) g (inl same, d) s = (
  λ e. Absent-Deleted k j ns ms g.1 d (s.0 (sym (ap (matched_by j) same) ∙ e)),
  Single-Deleted k j ns ms g.1 d s.1,
)
Single-Deleted k j (n ∷ ns) (m ∷ ms) g (inr (match, del), d) s =
    let u = ap (matched_by j) del ∙ deleted_unmatched j n g.0 in
    (λ e. cc, Single-Deleted k j ns ms g.1 d s.1)
