-- ===== src/Kvs/Handles.antt =====
-- The handles of kvs/host/kvs_posix.cc, and `kvs_foreach`. A handle is its index; what open(2) returns for a name
-- and the flags, and the size of the file, are parameters.
use components_mcu.Prelude.{
  ℕ, zero, suc, ◌+◌, ◌%◌, Bool, true, false, Option, none, some, List, [], ◌∷◌, if◌then◌else◌,
  replicate, Bool-cases, inl, inr, ◌≡◌, refl, ap,
}

-- `struct kvs_handle` without the buffer.
pub record Handle : Type 0 where
  pub fd : ℕ
  pub file_size : ℕ
  pub in_use : Bool

abbrev pub handle_count : ℕ
handle_count = 4

abbrev pub no_handles : List Handle
no_handles = replicate handle_count (record { fd = 0; file_size = 0; in_use = false })

-- The loop of `kvs_callocHandle` from index `i` on, where `h` is the handle so far.
unfoldable pub calloc_from : ℕ → Option ℕ → List Handle → Option ℕ × List Handle
calloc_from i h [] = (h, [])
calloc_from i h (x ∷ xs) =
    let (used, xs') = calloc_from (i + 1) h xs in
    let (taken, ys) = calloc_from (i + 1) (some i) xs in
    if x.in_use then (used, x ∷ xs') else (taken, record x { in_use = true; file_size = 0 } ∷ ys)

unfoldable pub kvs_calloc_handle : List Handle → Option ℕ × List Handle
kvs_calloc_handle hs = calloc_from 0 none hs

-- A handle of the array changed.
abbrev pub update : ℕ → (Handle → Handle) → List Handle → List Handle
update i f [] = []
update zero f (x ∷ xs) = f x ∷ xs
update (suc i) f (x ∷ xs) = x ∷ update i f xs

unfoldable pub kvs_free_handle : ℕ → List Handle → List Handle
kvs_free_handle h hs = update h (λ x. record x { in_use = false }) hs

-- `kvs_close`, which is `kvs_destroyHandle`.
unfoldable pub kvs_close : Option ℕ → List Handle → List Handle
kvs_close none hs = hs
kvs_close (some h) hs = kvs_free_handle h hs

-- The part of `kvs_open` behind the allocation, where `opened` is the descriptor and the size of the file, none where
-- open(2) fails. The size is kept in 14 bits.
unfoldable pub open_file : Option (ℕ × ℕ) → Option ℕ → List Handle → Option ℕ × List Handle
open_file opened none hs = (none, hs)
open_file none (some i) hs = (none, kvs_close (some i) hs)
open_file (some (fd, size)) (some i) hs =
    (some i, update i (λ x. record x { fd = fd; file_size = size % 16384 }) hs)

unfoldable pub kvs_open : Option (ℕ × ℕ) → List Handle → Option ℕ × List Handle
kvs_open opened hs = let (h, hs') = kvs_calloc_handle hs in open_file opened h hs'

abbrev AllUsed : List Handle → Type 0
AllUsed [] = Unit {0}
AllUsed (x ∷ xs) = (x.in_use ≡ true) × AllUsed xs

calloc_from-AllUsed : (i : ℕ) (h : Option ℕ) (hs : List Handle) → AllUsed (calloc_from i h hs).1
unfolding calloc_from
calloc_from-AllUsed i h [] = tt
calloc_from-AllUsed i h (x ∷ xs) = elim (Bool-cases x.in_use) [
  | inl used ↦ rw used (refl, calloc_from-AllUsed (i + 1) h xs)
  | inr free ↦ rw free (refl, calloc_from-AllUsed (i + 1) (some i) xs)
]

calloc_from_full :
    (i : ℕ) (h : Option ℕ) (hs : List Handle) → AllUsed hs → (calloc_from i h hs).0 ≡ h
unfolding calloc_from
calloc_from_full i h [] a = refl
calloc_from_full i h (x ∷ xs) a = rw (a.0) (calloc_from_full (i + 1) h xs a.1)

AllUsed-update :
    (i : ℕ) (fd size : ℕ) (hs : List Handle)
    → AllUsed hs
    → AllUsed (update i (λ x. record x { fd = fd; file_size = size }) hs)
AllUsed-update i fd size [] a = tt
AllUsed-update zero fd size (x ∷ xs) a = a
AllUsed-update (suc i) fd size (x ∷ xs) a = (a.0, AllUsed-update i fd size xs a.1)

open_file-AllUsed :
    (fd size : ℕ) (h : Option ℕ) (hs : List Handle)
    → AllUsed hs
    → AllUsed (open_file (some (fd, size)) h hs).1
unfolding open_file
open_file-AllUsed fd size none hs a = a
open_file-AllUsed fd size (some i) hs a = AllUsed-update i fd (size % 16384) hs a

-- While one store is open no second one can be opened: a call of `kvs_open` that succeeds leaves every handle in use,
-- so that the next call fails, whichever handles were free before.
pub kvs_open_twice :
    (hs : List Handle) (fd size : ℕ) (opened : Option (ℕ × ℕ))
    → (kvs_open opened (kvs_open (some (fd, size)) hs).1).0 ≡ none
unfolding kvs_open kvs_calloc_handle open_file
kvs_open_twice hs fd size opened =
    let first = calloc_from 0 none hs in
    let full = open_file-AllUsed fd size first.0 first.1 (calloc_from-AllUsed 0 none hs) in
    let second = calloc_from 0 none (open_file (some (fd, size)) first.0 first.1).1 in
    ap (λ h. (open_file opened h second.1).0) (calloc_from_full 0 none _ full)
