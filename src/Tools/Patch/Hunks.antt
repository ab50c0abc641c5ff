-- ===== src/Tools/Patch/Hunks.antt =====
-- One hunk of a diff, taken as a hunk of a patch, is accepted where its lines stand.
use mow.Prelude.{
  ℕ, ◌+◌, ◌-◌, ◌≤◌, ◌≡◌, refl, ap, ◌∙◌, List, [], ◌∷◌, ◌++◌, map, some, append-nil, append_assoc,
  arith, length, take, drop, get_elem?, Str, str_eq_refl, length-append, take-append,
  get_elem?-append, drop-append_le, length-drop, ok,
}
use mow.Tools.Diff.{OpKind, context, delete, insert, DiffOp, op, Hunk}
use mow.Tools.Diff.Sides.{old_side, new_side, old_side-append}
use mow.Tools.Patch.{PatchHunk, Cursor, apply_line, apply_lines, apply_hunk}

-- A hunk as `formatReplaceDiff` prints it, and `parseUnifiedPatch` reads it: each line behind its
-- tag.
abbrev pub tag : OpKind → ℕ
tag context = b' '
tag delete = b'-'
tag insert = b'+'

abbrev pub as_line : DiffOp → Str
as_line o = tag o.kind ∷ o.text

abbrev pub as_patch : Hunk → PatchHunk
as_patch h = record {
  old_start = h.old_start;
  old_count = h.old_count;
  new_start = h.new_start;
  new_count = h.new_count;
  lines = map as_line h.ops;
}

-- The cursor behind the operations `os`.
abbrev behind : Cursor → List DiffOp → Cursor
behind s os = record {
  pos = s.pos + length (old_side os);
  old_n = s.old_n + length (old_side os);
  new_n = s.new_n + length (new_side os);
  out = s.out ++ new_side os;
}

-- The line at the end of a prefix is the head of what follows it.
get_elem?-here :
    (file p rest : List Str) (x : Str) (n : ℕ)
    → file ≡ p ++ x ∷ rest
    → n ≡ length p
    → get_elem? file n ≡ some x
get_elem?-here file p rest x n e h = rw (e, h) (get_elem?-append p (x ∷ rest))

-- At a position that holds what the operation reads, its line is accepted.
apply_line-as_line :
    (file : List Str) (k : OpKind) (x : Str) (os : List DiffOp) (p rest : List Str) (s : Cursor)
    → file ≡ p ++ (old_side (op k x ∷ os) ++ rest)
    → s.pos ≡ length p
    → apply_line file (as_line (op k x)) s ≡ ok (behind s (op k x ∷ []))
unfolding apply_line
apply_line-as_line file context x os p rest s e h =
    ground (arith, str_eq_refl x, get_elem?-here file p (old_side os ++ rest) x s.pos e h)
apply_line-as_line file delete x os p rest s e h = ground (
  arith,
  str_eq_refl x,
  get_elem?-here file p (old_side os ++ rest) x s.pos e h,
  append-nil s.out,
)
apply_line-as_line file insert x os p rest s e h = ground arith

behind-behind :
    (s : Cursor) (k : OpKind) (x : Str) (os : List DiffOp)
    → behind (behind s (op k x ∷ [])) os ≡ behind s (op k x ∷ os)
behind-behind s context x os = ground (arith, append_assoc s.out (x ∷ []) (new_side os))
behind-behind s delete x os = ground (arith, append-nil s.out)
behind-behind s insert x os = ground (arith, append_assoc s.out (x ∷ []) (new_side os))

-- The lines of `os` are accepted one after another.
apply_lines-as_line :
    (file : List Str) (os : List DiffOp) (p rest : List Str) (s : Cursor)
    → file ≡ p ++ (old_side os ++ rest)
    → s.pos ≡ length p
    → apply_lines file (map as_line os) s ≡ ok (behind s os)
unfolding apply_lines
apply_lines-as_line file [] p rest s e h = ground (arith, append-nil s.out)
apply_lines-as_line file (o ∷ os) p rest s e h =
    let head = old_side (o ∷ []) in
    rw (apply_line-as_line file o.kind o.text os p rest s e h) (
      apply_lines-as_line file os (p ++ head) rest (behind s (o ∷ []))
        (e
          ∙ ap (λ (l : List Str). p ++ (l ++ rest)) (old_side-append (o ∷ []) os)
          ∙ rw (append_assoc head (old_side os) rest, append_assoc p head (old_side os ++ rest)))
        (omega (arith, length-append p head))
      ∙ ap ok (behind-behind s o.kind o.text os))

-- The lines between the cursor and the hunk.
take_between :
    (file p rest : List Str) (cursor n : ℕ)
    → file ≡ p ++ rest
    → cursor ≤ length p
    → n ≡ length p - cursor
    → take n (drop cursor file) ≡ drop cursor p
take_between file p rest cursor n e h m =
    let size : length (drop cursor p) ≡ n = omega (arith, length-drop cursor p) in
    rw (e, drop-append_le cursor p rest h, ← size) (take-append (drop cursor p) rest)

-- `h` was made of the lines that follow `p` in the old file.
pub record StandsAt (h : Hunk) (p : List Str) : Type 0 where
  pub starts : h.old_start ≡ length p + 1
  pub counts_old : h.old_count ≡ length (old_side h.ops)
  pub counts_new : h.new_count ≡ length (new_side h.ops)

abbrev pub after : Hunk → ℕ → List Str → List Str → Cursor
after h cursor out p = record {
  pos = length p + length (old_side h.ops);
  old_n = 0 + length (old_side h.ops);
  new_n = 0 + length (new_side h.ops);
  out = (out ++ drop cursor p) ++ new_side h.ops;
}

-- A hunk that stands behind `p` is accepted, and leaves the cursor behind it.
pub apply_hunk-as_patch :
    (file : List Str) (cursor : ℕ) (out : List Str) (h : Hunk) (p rest : List Str)
    → file ≡ p ++ (old_side h.ops ++ rest)
    → cursor ≤ length p
    → StandsAt h p
    → apply_hunk file cursor out (as_patch h) ≡ ok (after h cursor out p)
unfolding apply_hunk
apply_hunk-as_patch file cursor out h p rest e c st =
    let start : h.old_start - 1 ≡ length p = omega (arith, st.starts) in
    let fits : length p ≤ length file =
      rw e (omega (arith, length-append p (old_side h.ops ++ rest))) in
    let s : Cursor = record { pos = length p; old_n = 0; new_n = 0; out = out ++ drop cursor p } in
    let inner = apply_lines-as_line file h.ops p rest s e refl in
    let between =
      take_between file p (old_side h.ops ++ rest) cursor (length p - cursor) e c refl in
    ground (arith, start, fits, inner, between, st.starts, st.counts_old, st.counts_new)
