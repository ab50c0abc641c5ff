-- ===== src/Tools/Diff/Sides.antt =====
-- The two sides of an edit script: the script of `diffLines a b` takes a to b.
use mathlib.Core.List.{reverse, reverse-append, reverse-reverse}
use mow.Prelude.{
  ℕ, ◌+◌, ◌-◌, ◌≤◌, ◌≡◌, refl, sym, ap, ◌∙◌, List, [], ◌∷◌, ◌++◌, map, arith, length, take, drop,
  Str, str_eq→eq, take-append-drop, length-append, take-append, length-drop,
}
use mow.Tools.Diff.{
  OpKind, context, delete, insert, DiffOp, op, common_prefix, walk, diff_lines, lcs_table,
}

-- What a script reads, and what it writes.
abbrev pub old_text : OpKind → Str → List Str → List Str
old_text insert s rest = rest
old_text _ s rest = s ∷ rest

abbrev pub new_text : OpKind → Str → List Str → List Str
new_text delete s rest = rest
new_text _ s rest = s ∷ rest

abbrev pub old_side : List DiffOp → List Str
old_side [] = []
old_side (o ∷ os) = old_text o.kind o.text (old_side os)

abbrev pub new_side : List DiffOp → List Str
new_side [] = []
new_side (o ∷ os) = new_text o.kind o.text (new_side os)

pub old_side-append : (xs ys : List DiffOp) → old_side (xs ++ ys) ≡ old_side xs ++ old_side ys
old_side-append [] ys = refl
old_side-append (o ∷ os) ys = ground (arith, old_side-append os ys)

pub new_side-append : (xs ys : List DiffOp) → new_side (xs ++ ys) ≡ new_side xs ++ new_side ys
new_side-append [] ys = refl
new_side-append (o ∷ os) ys = ground (arith, new_side-append os ys)

old_side-context : (xs : List Str) → old_side (map (op context) xs) ≡ xs
old_side-context [] = refl
old_side-context (x ∷ xs) = ap (◌∷◌ x) (old_side-context xs)

new_side-context : (xs : List Str) → new_side (map (op context) xs) ≡ xs
new_side-context [] = refl
new_side-context (x ∷ xs) = ap (◌∷◌ x) (new_side-context xs)

old_side-delete : (xs : List Str) → old_side (map (op delete) xs) ≡ xs
old_side-delete [] = refl
old_side-delete (x ∷ xs) = ap (◌∷◌ x) (old_side-delete xs)

new_side-delete : (xs : List Str) → new_side (map (op delete) xs) ≡ []
new_side-delete [] = refl
new_side-delete (x ∷ xs) = new_side-delete xs

old_side-insert : (xs : List Str) → old_side (map (op insert) xs) ≡ []
old_side-insert [] = refl
old_side-insert (x ∷ xs) = old_side-insert xs

new_side-insert : (xs : List Str) → new_side (map (op insert) xs) ≡ xs
new_side-insert [] = refl
new_side-insert (x ∷ xs) = ap (◌∷◌ x) (new_side-insert xs)

walk-sides :
    (t : List (List ℕ)) (i j : ℕ) (xs ys : List Str)
    → (old_side (walk t i j xs ys) ≡ xs) × (new_side (walk t i j xs ys) ≡ ys)
unfolding walk
walk-sides t i j [] ys = (old_side-insert ys, new_side-insert ys)
walk-sides t i j (x ∷ xs) [] = (old_side-delete (x ∷ xs), new_side-delete (x ∷ xs))
walk-sides t i j (x ∷ xs) (y ∷ ys) = ground (
  arith,
  walk-sides t (i + 1) (j + 1) xs ys,
  walk-sides t (i + 1) j xs (y ∷ ys),
  walk-sides t i (j + 1) (x ∷ xs) ys,
  str_eq→eq x y,
)

-- The lines counted by `common_prefix` are the same in both lists, and no more than either has.
take-common_prefix :
    (xs ys : List Str) → take (common_prefix xs ys) xs ≡ take (common_prefix xs ys) ys
unfolding common_prefix
take-common_prefix [] ys = refl
take-common_prefix (x ∷ xs) [] = refl
take-common_prefix (x ∷ xs) (y ∷ ys) = ground (arith, take-common_prefix xs ys, str_eq→eq x y)

common_prefix-le :
    (xs ys : List Str) → (common_prefix xs ys ≤ length xs) × (common_prefix xs ys ≤ length ys)
unfolding common_prefix
common_prefix-le [] ys = omega arith
common_prefix-le (x ∷ xs) [] = omega arith
common_prefix-le (x ∷ xs) (y ∷ ys) = ground (arith, common_prefix-le xs ys)

length-reverse : (xs : List Str) → length (reverse xs) ≡ length xs
length-reverse [] = refl
length-reverse (x ∷ xs) =
    rw (reverse-append (x ∷ []) xs)
      (omega (arith, length-append (reverse xs) (x ∷ []), length-reverse xs))

-- The last lines of a list are the first of its reverse, reversed.
reverse-take : (p s : List Str) → reverse (take (length s) (reverse (p ++ s))) ≡ s
reverse-take p s =
    rw (reverse-append p s, ← length-reverse s, take-append (reverse s) (reverse p))
      (reverse-reverse s)

drop-eq-reverse :
    (n : ℕ) (xs : List Str)
    → n ≤ length xs
    → drop (length xs - n) xs ≡ reverse (take n (reverse xs))
drop-eq-reverse n xs h =
    let p = take (length xs - n) xs in
    let s = drop (length xs - n) xs in
    let whole : p ++ s ≡ xs = take-append-drop (length xs - n) xs in
    let size : length s ≡ n = omega (arith, length-drop (length xs - n) xs) in
    sym (reverse-take p s)
    ∙ ap (λ (l : List Str). reverse (take (length s) (reverse l))) whole
    ∙ ap (λ (k : ℕ). reverse (take k (reverse xs))) size

-- The lines that the second trimming loop counts end both lists.
common_suffix_drop :
    (xs ys : List Str) (n : ℕ)
    → n ≡ common_prefix (reverse xs) (reverse ys)
    → drop (length xs - n) xs ≡ drop (length ys - n) ys
common_suffix_drop xs ys n e =
    let bound = common_prefix-le (reverse xs) (reverse ys) in
    let same : take n (reverse xs) ≡ take n (reverse ys) =
      rw e (take-common_prefix (reverse xs) (reverse ys)) in
    drop-eq-reverse n xs (omega (arith, length-reverse xs, bound))
    ∙ ap reverse same
    ∙ sym (drop-eq-reverse n ys (omega (arith, length-reverse ys, bound)))

-- The script between the trimmed ends.
middle_old :
    (t : List (List ℕ)) (xs ys s : List Str)
    → old_side (walk t 0 0 xs ys ++ map (op context) s) ≡ xs ++ s
middle_old t xs ys s =
    old_side-append (walk t 0 0 xs ys) (map (op context) s)
    ∙ rw ((walk-sides t 0 0 xs ys).0, old_side-context s)

middle_new :
    (t : List (List ℕ)) (xs ys s : List Str)
    → new_side (walk t 0 0 xs ys ++ map (op context) s) ≡ ys ++ s
middle_new t xs ys s =
    new_side-append (walk t 0 0 xs ys) (map (op context) s)
    ∙ rw ((walk-sides t 0 0 xs ys).1, new_side-context s)

-- The script of `diffLines a b` reads exactly the lines of a, in order, and writes exactly those
-- of b.
pub diff_lines-sides :
    (a b : List Str) → (old_side (diff_lines a b) ≡ a) × (new_side (diff_lines a b) ≡ b)
unfolding diff_lines
diff_lines-sides a b =
    let pre = common_prefix a b in
    let ra = drop pre a in
    let rb = drop pre b in
    let suf = common_prefix (reverse ra) (reverse rb) in
    let ma = take (length ra - suf) ra in
    let mb = take (length rb - suf) rb in
    let s = drop (length ra - suf) ra in
    let t = lcs_table ma mb in
    (
      old_side-append (map (op context) (take pre a)) (walk t 0 0 ma mb ++ map (op context) s)
          ∙ rw (old_side-context (take pre a), middle_old t ma mb s)
              (rw (take-append-drop (length ra - suf) ra) (take-append-drop pre a)),
      new_side-append (map (op context) (take pre a)) (walk t 0 0 ma mb ++ map (op context) s)
          ∙ rw (new_side-context (take pre a), middle_new t ma mb s)
              (rw
                (
                  common_suffix_drop ra rb suf refl,
                  take-append-drop (length rb - suf) rb,
                  take-common_prefix a b,
                )
                (take-append-drop pre b)),
    )
