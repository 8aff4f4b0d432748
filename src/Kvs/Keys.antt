-- ===== src/Kvs/Keys.antt =====
-- Keys in the file of kvs/host/kvs_posix.cc: which entries a key matches.
use components_mcu.Prelude.{
  same_prefix, ℕ, zero, suc, ◌-◌, ◌≤◌, ◌<◌, Bool, true, false, ◌&&◌, List, [], ◌∷◌, ◌++◌, Bytes,
  ◌==◌, length, replicate, Bool-cases, inl, inr, ◌≡◌, refl, ap, ◌∙◌, arith,
}
use components_mcu.Kvs.Layout.{
  max_key_len, li_match_key, li_is_used, mark_deleted, has_data, li_type_int,
}
use components_mcu.Kvs.Store.{key_array}
use components_mcu.Kvs.Nodes.{Node}

-- Two keys that agree with a third agree.
pub same_prefix-euclidean :
    (n : ℕ) (a b c : Bytes)
    → same_prefix n a b ≡ true
    → same_prefix n a c ≡ true
    → same_prefix n b c ≡ true
same_prefix-euclidean zero a b c h k = refl
same_prefix-euclidean (suc n) [] [] [] h k = refl
same_prefix-euclidean (suc n) [] [] (z ∷ c) h k = k
same_prefix-euclidean (suc n) [] (y ∷ b) [] h k = h
same_prefix-euclidean (suc n) [] (y ∷ b) (z ∷ c) h k = ground arith
same_prefix-euclidean (suc n) (x ∷ a) [] [] h k = refl
same_prefix-euclidean (suc n) (x ∷ a) [] (z ∷ c) h k = ground arith
same_prefix-euclidean (suc n) (x ∷ a) (y ∷ b) [] h k = ground arith
same_prefix-euclidean (suc n) (x ∷ a) (y ∷ b) (z ∷ c) h k =
    ground (arith, same_prefix-euclidean n a b c)

pub same_prefix_refl : (n : ℕ) (a : Bytes) → same_prefix n a a ≡ true
same_prefix_refl zero a = refl
same_prefix_refl (suc n) [] = refl
same_prefix_refl (suc n) (c ∷ a) = ground (arith, same_prefix_refl n a)

pub same_prefix_sym : (n : ℕ) (a b : Bytes) → same_prefix n a b ≡ true → same_prefix n b a ≡ true
same_prefix_sym n a b h = same_prefix-euclidean n a b a h (same_prefix_refl n a)

same_prefix-key_array : (n : ℕ) (k z : Bytes) → same_prefix n (k ++ 0 ∷ z) k ≡ true
same_prefix-key_array zero k z = refl
same_prefix-key_array (suc n) [] z = refl
same_prefix-key_array (suc n) (c ∷ k) z = ground (arith, same_prefix-key_array n k z)

replicate-positive : (n : ℕ) → 0 < n → replicate {A = ℕ} n 0 ≡ 0 ∷ replicate (n - 1) 0
replicate-positive zero h = absurd (omega (arith, h))
replicate-positive (suc n) h = ap (λ k. 0 ∷ replicate k 0) (omega arith)

-- The array of a key matches it.
pub key_array-same_prefix :
    (k : Bytes) → length k ≤ max_key_len → same_prefix max_key_len (key_array k) k ≡ true
key_array-same_prefix k h =
    ap (λ z. same_prefix max_key_len (k ++ z) k)
      (replicate-positive (15 - length k) (omega (arith, h)))
    ∙ same_prefix-key_array max_key_len k (replicate (15 - length k - 1) 0)

and_right : (x y : Bool) → (x && y) ≡ true → y ≡ true
and_right x y h = ground arith

abbrev pub matched_by : Bytes → Node → Bool
matched_by k n = li_match_key n.info k

-- An entry that one key matches is not matched by a key that disagrees.
pub matched_by-apart :
    (k j : Bytes) (n : Node)
    → same_prefix max_key_len k j ≡ false
    → matched_by k n ≡ true
    → matched_by j n ≡ false
matched_by-apart k j n h m = elim (Bool-cases (same_prefix max_key_len n.info.key j)) [
  | inr other ↦ ground arith
  | inl same ↦
      let agree =
        same_prefix-euclidean max_key_len n.info.key k j
          (and_right (li_is_used n.info.kvs_type) _ m) same in
      ground arith
]

-- Keys that agree match the same entries.
pub matched_by-agree :
    (k j : Bytes) (n : Node)
    → same_prefix max_key_len k j ≡ true
    → matched_by k n ≡ false
    → matched_by j n ≡ false
matched_by-agree k j n h u = elim (Bool-cases (same_prefix max_key_len n.info.key j)) [
  | inr other ↦ ground arith
  | inl same ↦
      let back = same_prefix_sym max_key_len n.info.key j same in
      let agree =
        same_prefix-euclidean max_key_len j k n.info.key (same_prefix_sym max_key_len k j h) back in
      let both = same_prefix_sym max_key_len k n.info.key agree in ground arith
]

-- No entry is matched.
abbrev pub Absent : Bytes → List Node → Type 0
Absent k [] = Unit {0}
Absent k (n ∷ ns) = (matched_by k n ≡ false) × Absent k ns

-- At most one entry is matched.
abbrev pub Single : Bytes → List Node → Type 0
Single k [] = Unit {0}
Single k (n ∷ ns) = (matched_by k n ≡ true → Absent k ns) × Single k ns

pub Absent-append : (k : Bytes) (a b : List Node) → Absent k a → Absent k b → Absent k (a ++ b)
Absent-append k [] b h i = i
Absent-append k (n ∷ a) b h i = (h.0, Absent-append k a b h.1 i)

-- A deleted entry keeps its size and its kind and is not in use.
pub mark_deleted_laws :
    (t : ℕ)
    → t < 256
    → ((t == 0) ≡ false)
    → (mark_deleted t < 256)
      × (((mark_deleted t == 0) ≡ false)
          × ((has_data (mark_deleted t) ≡ has_data t)
              × ((li_type_int (mark_deleted t) ≡ li_type_int t)
                  × (li_is_used (mark_deleted t) ≡ false))))
mark_deleted_laws t h z =
    (ground arith, (ground arith, (ground arith, (ground arith, ground arith))))

pub Absent-agree :
    (k j : Bytes) (ns : List Node) → same_prefix max_key_len k j ≡ true → Absent k ns → Absent j ns
Absent-agree k j [] h a = tt
Absent-agree k j (n ∷ ns) h a = (matched_by-agree k j n h a.0, Absent-agree k j ns h a.1)

pub Absent-Single : (j : Bytes) (c : List Node) → Absent j c → Single j c
Absent-Single j [] h = tt
Absent-Single j (n ∷ c) h = (λ e. h.1, Absent-Single j c h.1)

-- Entries with one more between them.
module _ (j : Bytes) (m : Node) where
  pub Absent-insert :
      (a c : List Node) → matched_by j m ≡ false → Absent j (a ++ c) → Absent j (a ++ m ∷ c)
  Absent-insert [] c u h = (u, h)
  Absent-insert (n ∷ a) c u h = (h.0, Absent-insert a c u h.1)

  pub Absent-remove : (a c : List Node) → Absent j (a ++ m ∷ c) → Absent j (a ++ c)
  Absent-remove [] c h = h.1
  Absent-remove (n ∷ a) c h = (h.0, Absent-remove a c h.1)

  pub Single-insert :
      (a c : List Node) → matched_by j m ≡ false → Single j (a ++ c) → Single j (a ++ m ∷ c)
  Single-insert [] c u h = (λ e. cc, h)
  Single-insert (n ∷ a) c u h = (λ e. Absent-insert a c u (h.0 e), Single-insert a c u h.1)

  pub Single-remove : (a c : List Node) → Single j (a ++ m ∷ c) → Single j (a ++ c)
  Single-remove [] c h = h.1
  Single-remove (n ∷ a) c h = (λ e. Absent-remove a c (h.0 e), Single-remove a c h.1)

  pub Single-alone : (a c : List Node) → Absent j a → Absent j c → Single j (a ++ m ∷ c)
  Single-alone [] c h k = (λ e. k, Absent-Single j c k)
  Single-alone (n ∷ a) c h k = (λ e. cc, Single-alone a c h.1 k)
