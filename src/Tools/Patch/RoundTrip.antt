-- ===== src/Tools/Patch/RoundTrip.antt =====
-- A diff's hunks, taken as a patch, turn the old lines into the new ones.
use mow.Prelude.{
  ℕ, ◌+◌, ◌≤◌, ◌≡◌, refl, sym, ap, ◌∙◌, Bool, true, false, List, [], ◌∷◌, ◌++◌, map, Option, none,
  some, append-nil, append_assoc, arith, length, drop, Str, length-append, drop-append_le, ok,
}
use mow.Tools.Diff.{
  context, DiffOp, Hunk, open_hunk, push, scan, old_lines, new_lines, build_hunks, diff_lines,
}
use mow.Tools.Diff.Sides.{old_side, new_side, new_side-append, diff_lines-sides}
use mow.Tools.Diff.Marks.{Covers, mark_changes-Covers}
use mow.Tools.Patch.{apply_from}
use mow.Tools.Patch.Hunks.{as_patch}
use mow.Tools.Patch.Held.{
  Held, pending, Held-push, Held-open, file_behind, length_behind, context_sides, apply_from-hunk,
}

abbrev Lines : Type 0
Lines = List Str

-- A line skipped by both sides moves from what is written last to what is cut off the file.
skip_line :
    (cur : ℕ) (out p : Lines) (o : DiffOp) (os : List DiffOp)
    → cur ≤ length p
    → old_side (o ∷ []) ≡ new_side (o ∷ [])
    → out ++ (drop cur (p ++ old_side (o ∷ [])) ++ new_side os)
      ≡ out ++ (drop cur p ++ new_side (o ∷ os))
skip_line cur out p o os c e =
    rw
      (
        drop-append_le cur p (old_side (o ∷ [])) c,
        e,
        append_assoc (drop cur p) (new_side (o ∷ [])) (new_side os),
      )
      (ap (λ (l : Lines). out ++ (drop cur p ++ l)) (sym (new_side-append (o ∷ []) os)))

keep_line :
    (cur : ℕ) (out p : Lines) (done : List DiffOp) (o : DiffOp) (os : List DiffOp)
    → out ++ (drop cur p ++ (new_side (done ++ o ∷ []) ++ new_side os))
      ≡ out ++ (drop cur p ++ (new_side done ++ new_side (o ∷ os)))
keep_line cur out p done o os =
    ap (λ (l : Lines). out ++ (drop cur p ++ l))
      (sym (new_side-append (done ++ o ∷ []) os)
        ∙ ap new_side (append_assoc done (o ∷ []) os)
        ∙ new_side-append done (o ∷ os))

same_line : (o : DiffOp) → o.kind ≡ context → old_side (o ∷ []) ≡ new_side (o ∷ [])
same_line o e = (context_sides o.kind o.text e).0 ∙ sym (context_sides o.kind o.text e).1

drop-length : (p : Lines) → drop (length p) p ≡ []
drop-length [] = refl
drop-length (x ∷ p) = drop-length p

-- The output when the last hunk has ended, written as one list.
regroup : (out a b c : Lines) → ((out ++ a) ++ b) ++ c ≡ out ++ (a ++ (b ++ c))
regroup out a b c = simp append_assoc

-- A line skipped behind a hunk.
skip_behind :
    (cur : ℕ) (out p0 p : Lines) (done : List DiffOp) (o : DiffOp) (os : List DiffOp)
    → o.kind ≡ context
    → ((out ++ drop cur p0) ++ new_side done)
        ++ (drop (length p) (p ++ old_side (o ∷ [])) ++ new_side os)
      ≡ out ++ (drop cur p0 ++ (new_side done ++ new_side (o ∷ os)))
skip_behind cur out p0 p done o os k =
    let out' = (out ++ drop cur p0) ++ new_side done in
    skip_line (length p) out' p o os (omega arith) (same_line o k)
    ∙ ap (λ (l : Lines). out' ++ (l ++ new_side (o ∷ os))) (drop-length p)
    ∙ regroup out (drop cur p0) (new_side done) (new_side (o ∷ os))

module _ (file : Lines) where
  abbrev Applies : Option Hunk → ℕ → Lines → Lines → List Hunk → List DiffOp → Type 0
  Applies held cur out p0 hs os =
      apply_from file cur out (map as_patch hs)
      ≡ ok (out ++ (drop cur p0 ++ (pending held ++ new_side os)))

  apply_from-nil :
      (cur : ℕ) (out p : Lines)
      → file ≡ p ++ []
      → apply_from file cur out [] ≡ ok (out ++ (drop cur p ++ []))
  unfolding apply_from
  apply_from-nil cur out p e = rw (e, append-nil p, append-nil (drop cur p)) refl

  apply_from-last :
      (h : Hunk) (cur : ℕ) (out p0 p : Lines)
      → Held (some h) p0 p
      → file ≡ p ++ []
      → cur ≤ length p0
      → Applies (some h) cur out p0 (h ∷ []) []
  apply_from-last h cur out p0 p q e c =
      apply_from-hunk file cur out h [] p0 p [] e q c
      ∙ apply_from-nil (length p) _ p e
      ∙ ap ok (
          ap (λ (l : Lines). ((out ++ drop cur p0) ++ new_side h.ops) ++ (l ++ [])) (drop-length p)
          ∙ regroup out (drop cur p0) (new_side h.ops) [])

  apply_from-scan :
      (held : Option Hunk) (cur : ℕ) (out p0 p : Lines) (old new : ℕ) (os : List DiffOp)
      (keep : List Bool)
      → Held held p0 p
      → file ≡ p ++ old_side os
      → old ≡ length p + 1
      → cur ≤ length p0
      → Covers os keep
      → Applies held cur out p0 (scan held old new os keep) os
  unfolding scan
  apply_from-scan none cur out p0 p old new [] keep q e l c v =
      apply_from-nil cur out p0 (e ∙ ap (λ (l : Lines). l ++ []) q)
  apply_from-scan (some h) cur out p0 p old new [] keep q e l c v =
      apply_from-last h cur out p0 p q e c
  apply_from-scan none cur out p0 p old new (o ∷ os) [] q e l c v = absurd v
  apply_from-scan (some h) cur out p0 p old new (o ∷ os) [] q e l c v = absurd v
  apply_from-scan none cur out p0 p old new (o ∷ os) (false ∷ keep) q e l c v =
      let p' = p0 ++ old_side (o ∷ []) in
      let e' = e ∙ ap (λ (l : Lines). l ++ old_side (o ∷ os)) q in
      let l' : old ≡ length p0 + 1 = l ∙ ap (λ (l : Lines). length l + 1) q in
      apply_from-scan none cur out p' p' (old + old_lines o.kind) (new + new_lines o.kind) os keep
        refl (file_behind file p0 o os e') (length_behind o.kind o.text p0 old l')
        (omega (arith, length-append p0 (old_side (o ∷ [])))) v.1
      ∙ ap ok (skip_line cur out p0 o os c (same_line o (v.0 refl)))
  apply_from-scan none cur out p0 p old new (o ∷ os) (true ∷ keep) q e l c v =
      let e' = e ∙ ap (λ (l : Lines). l ++ old_side (o ∷ os)) q in
      let l' : old ≡ length p0 + 1 = l ∙ ap (λ (l : Lines). length l + 1) q in
      apply_from-scan (some (push (open_hunk old new) o)) cur out p0 (p0 ++ old_side (o ∷ []))
        (old + old_lines o.kind) (new + new_lines o.kind) os keep (Held-open o p0 old new l')
        (file_behind file p0 o os e') (length_behind o.kind o.text p0 old l') c v.1
      ∙ ap ok (keep_line cur out p0 [] o os)
  apply_from-scan (some h) cur out p0 p old new (o ∷ os) (false ∷ keep) q e l c v =
      let p' = p ++ old_side (o ∷ []) in
      apply_from-hunk file cur out h _ p0 p (old_side (o ∷ os)) e q c
      ∙ apply_from-scan none (length p) ((out ++ drop cur p0) ++ new_side h.ops) p' p'
          (old + old_lines o.kind) (new + new_lines o.kind) os keep refl (file_behind file p o os e)
          (length_behind o.kind o.text p old l) (omega (arith, length-append p (old_side (o ∷ []))))
          v.1
      ∙ ap ok (skip_behind cur out p0 p h.ops o os (v.0 refl))
  apply_from-scan (some h) cur out p0 p old new (o ∷ os) (true ∷ keep) q e l c v =
      apply_from-scan (some (push h o)) cur out p0 (p ++ old_side (o ∷ [])) (old + old_lines o.kind)
        (new + new_lines o.kind) os keep (Held-push h o p0 p q) (file_behind file p o os e)
        (length_behind o.kind o.text p old l) c v.1
      ∙ ap ok (keep_line cur out p0 h.ops o os)

-- The hunks of any edit script, at any width of context, taken as a patch, turn its old side into
-- its new side.
apply_from-build_hunks :
    (os : List DiffOp) (ctx : ℕ)
    → apply_from (old_side os) 0 [] (map as_patch (build_hunks os ctx)) ≡ ok (new_side os)
unfolding build_hunks
apply_from-build_hunks os ctx =
    apply_from-scan (old_side os) none 0 [] [] [] 1 1 os _ refl refl (omega arith) (omega arith)
      (mark_changes-Covers ctx os)

-- For any two lists of lines and any width of context, the hunks that `buildHunks` makes of
-- `diffLines a b`, taken as the hunks of a patch, are accepted by the loop of `applyHunks` on the
-- lines a, and it returns exactly the lines b.
pub apply_from-diff_lines :
    (a b : List Str) (ctx : ℕ)
    → apply_from a 0 [] (map as_patch (build_hunks (diff_lines a b) ctx)) ≡ ok b
apply_from-diff_lines a b ctx =
    let (reads, writes) = diff_lines-sides a b in
    ap (λ (l : Lines). apply_from l 0 [] (map as_patch (build_hunks (diff_lines a b) ctx)))
      (sym reads)
    ∙ apply_from-build_hunks (diff_lines a b) ctx
    ∙ ap ok writes
