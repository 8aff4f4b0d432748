-- ===== src/Uout/Plain/Lines.antt =====
-- The lines of a reply of uout/cli_out.cc.
use components_mcu.Prelude.{
  ℕ, ◌+◌, ◌≤◌, ◌<◌, true, false, some, List, [], ◌∷◌, ◌++◌, append_assoc, append-nil, Bytes, codes,
  length, length-append, map, ltb, ◌==◌, Bool-cases, ◌⊎◌, inl, inr, ◌≡◌, refl, sym, ap, ◌∙◌, arith,
}
use components_mcu.Uout.Plain.{
  Plain, out_max_len, reply_head, entry_text, cli_out_entry, cli_out_x_reply_entry, cli_out_close,
  reply_entries,
}

abbrev pub join : List Bytes → Bytes
join [] = []
join (e ∷ es) = e ++ join es

-- All entries of the lines.
abbrev pub flat : List (List Bytes) → List Bytes
flat [] = []
flat (l ∷ ls) = l ++ flat ls

abbrev pub line_text : Bytes → List Bytes → Bytes
line_text head l = head ++ (join l ++ codes ";\n")

abbrev pub lines_text : Bytes → List (List Bytes) → Bytes
lines_text head [] = []
lines_text head (l ∷ ls) = line_text head l ++ lines_text head ls

-- The entries of a line: one, or at most 80 characters and one more for each of them.
abbrev Narrow : List Bytes → Type 0
Narrow l = (length l ≡ 1) ⊎ (length (join l) ≤ out_max_len + length l)

data AllNarrow : List (List Bytes) → Type 0 where
  nil : AllNarrow []
  cons : {l : List Bytes} {ls : List (List Bytes)} → Narrow l → AllNarrow ls → AllNarrow (l ∷ ls)

abbrev pub texts : List (Bytes × Bytes) → List Bytes
texts es = map (λ e. entry_text e.0 (some e.1)) es

-- What follows in a line of the length `m`, behind `start`.
record Onward (head : Bytes) (m : ℕ) (es : List Bytes) (start out : Bytes) : Type 0 where
  more : List Bytes
  lines : List (List Bytes)
  text : out ≡ start ++ (join more ++ (codes ";\n" ++ lines_text head lines))
  all : more ++ flat lines ≡ es
  narrow : (more ≡ []) ⊎ (m + length (join more) ≤ out_max_len + length more)
  fine : AllNarrow lines

length-entry_text :
    (k v : Bytes) → length (entry_text k (some v)) ≡ 0 + (length k + 1) + length v + 1
length-entry_text k v = omega (arith, length-append k (b'=' ∷ v))

wrapped :
    (a n h e m l : Bytes)
    → (((a ++ n) ++ h) ++ e) ++ (m ++ (n ++ l)) ≡ a ++ (n ++ ((h ++ ((e ++ m) ++ n)) ++ l))
wrapped a n h e m l = simp append_assoc refl

continued : (a e m t : Bytes) → (a ++ e) ++ (m ++ t) ≡ a ++ ((e ++ m) ++ t)
continued a e m t = simp append_assoc refl

-- A line that starts with an entry.
first-Narrow :
    (e : Bytes) (len : ℕ) (more : List Bytes)
    → length e ≡ len + 1
    → (more ≡ []) ⊎ (0 + len + length (join more) ≤ out_max_len + length more)
    → Narrow (e ∷ more)
first-Narrow e len more el (inl none_more) = inl (rw none_more refl)
first-Narrow e len more el (inr h) = inr (omega (arith, length-append e (join more), el, h))

still_narrow :
    (e : Bytes) (len m : ℕ) (more : List Bytes)
    → length e ≡ len + 1
    → m + len ≤ out_max_len
    → (more ≡ []) ⊎ (m + len + length (join more) ≤ out_max_len + length more)
    → m + length (join (e ∷ more)) ≤ out_max_len + length (e ∷ more)
still_narrow e len m more el fits (inl none_more) =
    rw none_more (omega (arith, length-append e [], el, fits))
still_narrow e len m more el fits (inr h) = omega (arith, length-append e (join more), el, h)

module _ (reply : Bytes) where
  entry_wide :
      (k v : Bytes) (s : Plain)
      → 0 < s.my_length
      → ltb out_max_len (s.my_length + (0 + (length k + 1) + length v)) ≡ true
      → cli_out_x_reply_entry true reply (some k) (some v) (some 0) s ≡ record {
        my_length = 0 + (0 + (length k + 1) + length v);
        out = ((s.out ++ codes ";\n") ++ reply_head reply) ++ entry_text k (some v);
      }
  unfolding cli_out_x_reply_entry cli_out_entry
  entry_wide k v s p wide =
      let open_line : ltb 0 s.my_length ≡ true = ground arith in rw (wide, open_line) refl

  entry_room :
      (k v : Bytes) (s : Plain)
      → 0 < s.my_length
      → ltb out_max_len (s.my_length + (0 + (length k + 1) + length v)) ≡ false
      → cli_out_x_reply_entry true reply (some k) (some v) (some 0) s ≡ record {
        my_length = s.my_length + (0 + (length k + 1) + length v);
        out = s.out ++ entry_text k (some v);
      }
  unfolding cli_out_x_reply_entry cli_out_entry
  entry_room k v s p room =
      let going_on : (s.my_length == 0) ≡ false = ground arith in rw (room, going_on) refl

  entry_first :
      (k v out : Bytes)
      → cli_out_x_reply_entry true reply
          (some k)
          (some v)
          (some 0)
          (record { my_length = 0; out = out })
        ≡ record {
          my_length = 0 + (0 + (length k + 1) + length v);
          out = (out ++ reply_head reply) ++ entry_text k (some v);
        }
  unfolding cli_out_x_reply_entry cli_out_entry
  entry_first k v out = elim (Bool-cases (ltb out_max_len (0 + (0 + (length k + 1) + length v)))) [
    | inl wide ↦ rw wide refl
    | inr room ↦ rw room refl
  ]

  entries-Onward :
      (es : List (Bytes × Bytes)) (s : Plain)
      → 0 < s.my_length
      → Onward (reply_head reply) s.my_length (texts es) s.out (reply_entries true reply es s).out
  unfolding reply_entries cli_out_close cli_out_x_reply_entry cli_out_entry
  entries-Onward [] s p =
      let open_line : ltb 0 s.my_length ≡ true = ground arith in
      rw open_line
        (record { more = []; lines = []; text = refl; all = refl; narrow = inl refl; fine = nil })
  entries-Onward ((k, v) ∷ es) s p =
      let entry = entry_text k (some v) in
      let len = 0 + (length k + 1) + length v in
      let entry_length = length-entry_text k v in
      let head = reply_head reply in
      elim (Bool-cases (ltb out_max_len (s.my_length + len))) [
        | inl wide ↦
            let next : Plain = record {
              my_length = 0 + len;
              out = ((s.out ++ codes ";\n") ++ head) ++ entry;
            } in
            let h = entries-Onward es next (omega arith) in
            record {
              more = [];
              lines = (entry ∷ h.more) ∷ h.lines;
              text =
                  ap (λ t. (reply_entries true reply es t).out) (entry_wide k v s p wide)
                  ∙ h.text
                  ∙ wrapped s.out (codes ";\n") head entry (join h.more) (lines_text head h.lines);
              all = ap (◌∷◌ entry) h.all;
              narrow = inl refl;
              fine = cons (first-Narrow entry len h.more entry_length h.narrow) h.fine;
            }
        | inr room ↦
            let next : Plain = record { my_length = s.my_length + len; out = s.out ++ entry } in
            let h = entries-Onward es next (omega arith) in
            let fits : s.my_length + len ≤ out_max_len = ground arith in
            record {
              more = entry ∷ h.more;
              lines = h.lines;
              text =
                  ap (λ t. (reply_entries true reply es t).out) (entry_room k v s p room)
                  ∙ h.text
                  ∙ continued s.out entry (join h.more) (codes ";\n" ++ lines_text head h.lines);
              all = ap (◌∷◌ entry) h.all;
              narrow = inr (still_narrow entry len s.my_length h.more entry_length fits h.narrow);
              fine = h.fine;
            }
      ]

-- The whole of a line, with its head and its end.
abbrev pub IsShort : Bytes → List Bytes → Type 0
IsShort head l =
    (length l ≡ 1) ⊎ (length (line_text head l) ≤ length head + out_max_len + length l + 2)

pub data AllShort (head : Bytes) : List (List Bytes) → Type 0 where
  nil_short : AllShort head []
  cons_short :
      {l : List Bytes} {ls : List (List Bytes)}
      → IsShort head l
      → AllShort head ls
      → AllShort head (l ∷ ls)

length-line_text :
    (head : Bytes) (l : List Bytes)
    → length (line_text head l) ≡ length head + (length (join l) + 2)
length-line_text head l =
    omega (arith, length-append head (join l ++ codes ";\n"), length-append (join l) (codes ";\n"))

line-IsShort : (head : Bytes) (l : List Bytes) → Narrow l → IsShort head l
line-IsShort head l (inl one) = inl one
line-IsShort head l (inr h) = inr (omega (arith, length-line_text head l, h))

lines-AllShort : (head : Bytes) (ls : List (List Bytes)) → AllNarrow ls → AllShort head ls
lines-AllShort head [] nil = nil_short
lines-AllShort head (l ∷ ls) (cons h t) =
    cons_short (line-IsShort head l h) (lines-AllShort head ls t)

-- The lines that a reply of the entries `es` makes behind `start`.
pub record Reply (head : Bytes) (es : List (Bytes × Bytes)) (start out : Bytes) : Type 0 where
  pub lines : List (List Bytes)
  pub text : out ≡ start ++ lines_text head lines
  pub all : flat lines ≡ texts es
  pub short : AllShort head lines

begun :
    (a h e m n l : Bytes) → ((a ++ h) ++ e) ++ (m ++ (n ++ l)) ≡ a ++ ((h ++ ((e ++ m) ++ n)) ++ l)
begun a h e m n l = simp append_assoc refl

-- In an interactive session, with no line begun, the entries of a reply and its end go out as lines,
-- each with the head of the reply in front and ";\n" behind: the entries of all lines are those of the
-- reply, in their order, none lost and none cut. A line has one entry, or the whole of it is no longer
-- than its head, 80 characters, one for each of its entries, and the two at its end; so that lines
-- may be longer than the 80 characters of `OUT_MAX_LEN`.
pub reply_entries-Reply :
    (reply : Bytes) (es : List (Bytes × Bytes)) (out : Bytes)
    → Reply
        (reply_head reply)
        es
        out
        (reply_entries true reply es (record { my_length = 0; out = out })).out
unfolding reply_entries cli_out_close cli_out_x_reply_entry cli_out_entry
reply_entries-Reply reply [] out = record {
  lines = [];
  text = sym (append-nil out);
  all = refl;
  short = nil_short;
}
reply_entries-Reply reply ((k, v) ∷ es) out =
    let entry = entry_text k (some v) in
    let len = 0 + (length k + 1) + length v in
    let head = reply_head reply in
    let next : Plain = record { my_length = 0 + len; out = (out ++ head) ++ entry } in
    let h = entries-Onward reply es next (omega arith) in
    record {
      lines = (entry ∷ h.more) ∷ h.lines;
      text =
          ap (λ t. (reply_entries true reply es t).out) (entry_first reply k v out)
          ∙ h.text
          ∙ begun out head entry (join h.more) (codes ";\n") (lines_text head h.lines);
      all = ap (◌∷◌ entry) h.all;
      short =
          lines-AllShort head ((entry ∷ h.more) ∷ h.lines)
            (cons (first-Narrow entry len h.more (length-entry_text k v) h.narrow) h.fine);
    }
