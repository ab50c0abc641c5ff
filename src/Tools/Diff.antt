-- ===== src/Tools/Diff.antt =====
-- internal/tools/filediff.go: the line diff by longest common subsequences, and its hunks.
pub mod Sides
pub mod Marks
use mow.Prelude.{
  ℕ, suc, ◌+◌, ◌-◌, max, min, Bool, true, false, ◌&&◌, ◌||◌, List, [], ◌∷◌, ◌++◌, map, Option, none,
  some, leb, if◌then◌else◌, length, take, drop, get_or, Str, str_eq,
}
use mathlib.Core.List.{reverse}

-- The three values of `diffOp.kind`: ' ', '-' and '+'.
pub data OpKind : Type 0 where
  context delete insert : OpKind

pub record DiffOp : Type 0 where
  pub kind : OpKind
  pub text : Str

abbrev pub op : OpKind → Str → DiffOp
op k s = record { kind = k; text = s }

-- The two trimming loops of `diffLines`: how many lines two lists share at their start.
unfoldable pub common_prefix : List Str → List Str → ℕ
common_prefix [] ys = 0
common_prefix (x ∷ xs) [] = 0
common_prefix (x ∷ xs) (y ∷ ys) =
    let rest = common_prefix xs ys in if str_eq x y then suc rest else 0

-- One row of the table, `lcs[i][j..]`, from the line `midA[i]` and the row `lcs[i+1][j..]`.
unfoldable pub lcs_row : Str → List Str → List ℕ → List ℕ
lcs_row x [] below = 0 ∷ []
lcs_row x (y ∷ ys) below =
    let rest = lcs_row x ys (drop 1 below) in
    (if str_eq x y then get_or below 1 0 + 1 else max (get_or below 0 0) (get_or rest 0 0)) ∷ rest

zeros : List Str → List ℕ
zeros = map (λ _. 0)

-- `lcs`: the rows for `midA[i..]`, from i = 0 on; the last is all zeros.
unfoldable pub lcs_table : List Str → List Str → List (List ℕ)
unfolding lcs_row zeros
lcs_table [] ys = (0 ∷ zeros ys) ∷ []
lcs_table (x ∷ xs) ys = let rest = lcs_table xs ys in lcs_row x ys (get_or rest 0 []) ∷ rest

abbrev pub cell : List (List ℕ) → ℕ → ℕ → ℕ
cell table i j = get_or (get_or table i []) j 0

-- The walk from (i, j) through the table; the lists are `midA[i..]` and `midB[j..]`.
unfoldable pub walk : List (List ℕ) → ℕ → ℕ → List Str → List Str → List DiffOp
walk table i j [] ys = map (op insert) ys
walk table i j (x ∷ xs) [] = map (op delete) (x ∷ xs)
walk table i j (x ∷ xs) (y ∷ ys) = elim (str_eq x y) [
  | true ↦ op context x ∷ walk table (i + 1) (j + 1) xs ys
  | false ↦ elim (leb (cell table i (j + 1)) (cell table (i + 1) j)) [
    | true ↦ op delete x ∷ walk table (i + 1) j xs (y ∷ ys)
    | false ↦ op insert y ∷ walk table i (j + 1) (x ∷ xs) ys
  ]
]

unfoldable pub diff_lines : List Str → List Str → List DiffOp
unfolding common_prefix lcs_table walk
diff_lines a b =
    let pre = common_prefix a b in
    let rest_a = drop pre a in
    let rest_b = drop pre b in
    let suf = common_prefix (reverse rest_a) (reverse rest_b) in
    let mid_a = take (length rest_a - suf) rest_a in
    let mid_b = take (length rest_b - suf) rest_b in
    map (op context) (take pre a)
    ++ (walk (lcs_table mid_a mid_b) 0 0 mid_a mid_b
        ++ map (op context) (drop (length rest_a - suf) rest_a))

pub record Hunk : Type 0 where
  pub old_start : ℕ
  pub old_count : ℕ
  pub new_start : ℕ
  pub new_count : ℕ
  pub ops : List DiffOp

abbrev pub is_context : OpKind → Bool
is_context context = true
is_context _ = false

-- How far an operation moves the old and the new line number.
abbrev pub old_lines : OpKind → ℕ
old_lines insert = 0
old_lines _ = 1

abbrev pub new_lines : OpKind → ℕ
new_lines delete = 0
new_lines _ = 1

-- `for j := lo; j <= hi; j++ { keep[j] = true }`, on the marks from index j on.
unfoldable pub mark : ℕ → ℕ → ℕ → List Bool → List Bool
mark lo hi j [] = []
mark lo hi j (k ∷ ks) = (leb lo j && leb j hi || k) ∷ mark lo hi (j + 1) ks

-- The first loop of `buildHunks`, over the operations from index i on.
unfoldable pub mark_changes : ℕ → ℕ → ℕ → List DiffOp → List Bool → List Bool
unfolding mark
mark_changes ctx last i [] keep = keep
mark_changes ctx last i (o ∷ os) keep =
    mark_changes ctx last (i + 1) os
      (if is_context o.kind then keep else mark (i - ctx) (min last (i + ctx)) 0 keep)

abbrev pub open_hunk : ℕ → ℕ → Hunk
open_hunk old new = record {
  old_start = old;
  old_count = 0;
  new_start = new;
  new_count = 0;
  ops = [];
}

abbrev pub push : Hunk → DiffOp → Hunk
push h o = record h {
  old_count = h.old_count + old_lines o.kind;
  new_count = h.new_count + new_lines o.kind;
  ops = h.ops ++ o ∷ [];
}

-- The second loop of `buildHunks`, over the operations left; `some h` is the hunk that the inner
-- loop is filling.
unfoldable pub scan : Option Hunk → ℕ → ℕ → List DiffOp → List Bool → List Hunk
scan none old new [] keep = []
scan (some h) old new [] keep = h ∷ []
scan none old new (o ∷ os) [] = []
scan (some h) old new (o ∷ os) [] = h ∷ []
scan none old new (o ∷ os) (false ∷ keep) =
    scan none (old + old_lines o.kind) (new + new_lines o.kind) os keep
scan none old new (o ∷ os) (true ∷ keep) =
    scan (some (push (open_hunk old new) o)) (old + old_lines o.kind) (new + new_lines o.kind) os
      keep
scan (some h) old new (o ∷ os) (false ∷ keep) =
    h ∷ scan none (old + old_lines o.kind) (new + new_lines o.kind) os keep
scan (some h) old new (o ∷ os) (true ∷ keep) =
    scan (some (push h o)) (old + old_lines o.kind) (new + new_lines o.kind) os keep

unfoldable pub build_hunks : List DiffOp → ℕ → List Hunk
unfolding mark_changes scan
build_hunks ops ctx =
    scan none 1 1 ops (mark_changes ctx (length ops - 1) 0 ops (map (λ _. false) ops))
