-- ===== src/Policy/Jail/Entries.antt =====
-- The whole list that `jailRoots` returns.
use mow.Prelude.{
  ◌≡◌, ◌⊎◌, inl, inr, Bool, true, false, List, [], ◌∷◌, arith, Any, Str, trim_space, is_empty, ok,
  ◌>>=◌, >>=-eq-ok,
}
use mow.Policy.Path.{FilePath, path_eq}
use mow.Policy.Jail.{
  Fs, Policy, canonical, abs, Entry, insert_root, add_root, add_roots, jail_entries,
}
use mow.Policy.Jail.Roots.{
  IsJail, IsLocked, insert_root-IsJail, insert_root-IsLocked, IsLocked-insert_root,
}

module _ (fs : Fs) (p : Policy) where
  -- The canonical path of an entry of the configuration.
  abbrev pub resolved : Str → FilePath
  resolved raw = canonical fs (abs fs (trim_space raw))

  add_root-cases :
      (ro : Bool) (raw : Str) (es : List (Entry fs)) {out : List (Entry fs)}
      → add_root fs p ro raw es ≡ ok out
      → ((is_empty (trim_space raw) ≡ true) × (out ≡ es))
        ⊎ ((path_eq (abs fs (trim_space raw)) [] ≡ false)
            × (out ≡ insert_root fs p (abs fs (trim_space raw)) ro es))
  unfolding add_root
  add_root-cases ro raw es h = ground arith

  add_root-IsJail :
      (ro : Bool) (raw : Str) (es : List (Entry fs)) {out : List (Entry fs)}
      → add_root fs p ro raw es ≡ ok out
      → IsJail fs p es
      → IsJail fs p out
  add_root-IsJail ro raw es h j = elim (add_root-cases ro raw es h) [
    | inl (blank, e) ↦ rw e j
    | inr (below, e) ↦ rw e (insert_root-IsJail fs p (abs fs (trim_space raw)) ro es below j)
  ]

  add_root-IsLocked :
      (ro : Bool) (raw : Str) (es : List (Entry fs)) (c : FilePath) {out : List (Entry fs)}
      → add_root fs p ro raw es ≡ ok out
      → IsLocked fs p c es
      → IsLocked fs p c out
  add_root-IsLocked ro raw es c h l = elim (add_root-cases ro raw es h) [
    | inl (blank, e) ↦ rw e l
    | inr (below, e) ↦ rw e (insert_root-IsLocked fs p (abs fs (trim_space raw)) ro es c l)
  ]

  add_roots-IsJail :
      (ro : Bool) (rs : List Str) (es : List (Entry fs)) {out : List (Entry fs)}
      → add_roots fs p ro rs es ≡ ok out
      → IsJail fs p es
      → IsJail fs p out
  unfolding add_roots
  add_roots-IsJail ro [] es h j = ground arith
  add_roots-IsJail ro (r ∷ rs) es h j =
      let (mid, first, rest) = >>=-eq-ok (add_root fs p ro r es) (add_roots fs p ro rs) h in
      add_roots-IsJail ro rs mid rest (add_root-IsJail ro r es first j)

  add_roots-IsLocked :
      (ro : Bool) (rs : List Str) (es : List (Entry fs)) (c : FilePath) {out : List (Entry fs)}
      → add_roots fs p ro rs es ≡ ok out
      → IsLocked fs p c es
      → IsLocked fs p c out
  unfolding add_roots
  add_roots-IsLocked ro [] es c h l = ground arith
  add_roots-IsLocked ro (r ∷ rs) es c h l =
      let (mid, first, rest) = >>=-eq-ok (add_root fs p ro r es) (add_roots fs p ro rs) h in
      add_roots-IsLocked ro rs mid c rest (add_root-IsLocked ro r es c first l)

  -- A root given as read-only is locked from there on.
  add_roots-locks :
      (rs : List Str) (es : List (Entry fs)) (raw : Str) {out : List (Entry fs)}
      → add_roots fs p true rs es ≡ ok out
      → IsJail fs p es
      → is_empty (trim_space raw) ≡ false
      → Any (λ r. r ≡ raw) rs
      → IsLocked fs p (resolved raw) out
  unfolding add_roots
  add_roots-locks [] es raw h j full m = absurd m
  add_roots-locks (r ∷ rs) es raw h j full m =
      let (mid, first, rest) = >>=-eq-ok (add_root fs p true r es) (add_roots fs p true rs) h in
      elim m [
        | inl e ↦ add_roots-IsLocked true rs mid (resolved raw) rest (now mid (rw e at first))
        | inr later ↦ add_roots-locks rs mid raw rest (add_root-IsJail true r es first j) full later
      ]
    where
      now :
          (mid : List (Entry fs))
          → add_root fs p true raw es ≡ ok mid
          → IsLocked fs p (resolved raw) mid
      now mid first = elim (add_root-cases true raw es first) [
        | inl (blank, e) ↦ cc
        | inr (below, e) ↦ rw e (IsLocked-insert_root fs p (abs fs (trim_space raw)) es j)
      ]

  -- The roots that `jailRoots` returns: none is "/", no canonical path stands twice, and under
  -- ReadOnly every writable one is in the allowlist `WritableRoots`.
  pub jail_entries-IsJail : {es : List (Entry fs)} → jail_entries fs p ≡ ok es → IsJail fs p es
  unfolding jail_entries
  jail_entries-IsJail h =
      let (a, ha, h') =
        >>=-eq-ok (add_root fs p false p.workspace [])
          (λ a.
            add_roots fs p false p.extra_roots a >>= add_roots fs p true p.extra_roots_read_only)
          h in
      let (b, hb, hc) =
        >>=-eq-ok (add_roots fs p false p.extra_roots a)
          (add_roots fs p true p.extra_roots_read_only) h' in
      add_roots-IsJail true p.extra_roots_read_only b hc (
        add_roots-IsJail false p.extra_roots a hb
          (add_root-IsJail false p.workspace [] ha (record { confined = tt; unique = tt })))

  -- A directory listed in `ExtraRootsReadOnly` is a jail root, and a read-only one, whatever else
  -- lists the same directory, under this or another spelling.
  pub jail_entries-IsLocked :
      (raw : Str) {es : List (Entry fs)}
      → jail_entries fs p ≡ ok es
      → is_empty (trim_space raw) ≡ false
      → Any (λ r. r ≡ raw) p.extra_roots_read_only
      → IsLocked fs p (resolved raw) es
  unfolding jail_entries
  jail_entries-IsLocked raw h full m =
      let (a, ha, h') =
        >>=-eq-ok (add_root fs p false p.workspace [])
          (λ a.
            add_roots fs p false p.extra_roots a >>= add_roots fs p true p.extra_roots_read_only)
          h in
      let (b, hb, hc) =
        >>=-eq-ok (add_roots fs p false p.extra_roots a)
          (add_roots fs p true p.extra_roots_read_only) h' in
      add_roots-locks p.extra_roots_read_only b raw hc
        (add_roots-IsJail false p.extra_roots a hb
          (add_root-IsJail false p.workspace [] ha (record { confined = tt; unique = tt })))
        full m
