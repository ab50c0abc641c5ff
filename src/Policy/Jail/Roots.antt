-- ===== src/Policy/Jail/Roots.antt =====
-- The list of jail roots.
use mow.Prelude.{
  ◌≡◌, refl, ◌∙◌, ◌⊎◌, inl, inr, Bool, true, false, not, ◌&&◌, ◌||◌, List, [], ◌∷◌, ◌++◌, arith,
  All, Bool-cases, All-append,
}
use mow.Policy.Path.{FilePath, path_eq, path_eq→eq, path_eq_refl}
use mow.Policy.Jail.{Fs, Policy, canonical, is_writable, Entry, restrict, seen, insert_root}

module _ (fs : Fs) (p : Policy) where
  -- A root is not "/"; under ReadOnly it is writable only if the allowlist has it.
  pub record IsConfined (e : Entry fs) : Type 0 where
    pub below_top : path_eq e.1.path [] ≡ false
    pub allowlisted : p.read_only ≡ true → e.1.read_only ≡ false → is_writable fs p e.0 ≡ true

  abbrev Unique : List (Entry fs) → Type 0
  Unique [] = Unit
  Unique (e ∷ es) = (seen fs e.0 es ≡ false) × Unique es

  -- Every root of that canonical path is read-only.
  abbrev pub Locked : FilePath → List (Entry fs) → Type 0
  Locked c es = All (λ (e : Entry fs). path_eq e.0 c ≡ true → e.1.read_only ≡ true) es

  restrict-IsConfined :
      (c : FilePath) (es : List (Entry fs)) → All IsConfined es → All IsConfined (restrict fs c es)
  unfolding restrict
  restrict-IsConfined c [] h = tt
  restrict-IsConfined c ((d, r) ∷ es) (h, hs) = elim (Bool-cases (path_eq d c)) [
    | inl e ↦ rw e (record { below_top = h.below_top; allowlisted = λ a b. cc }, hs)
    | inr n ↦ rw n (h, restrict-IsConfined c es hs)
  ]

  seen-restrict :
      (c d : FilePath) (es : List (Entry fs)) → seen fs d (restrict fs c es) ≡ seen fs d es
  unfolding restrict
  seen-restrict c d [] = refl
  seen-restrict c d ((x, r) ∷ es) = ground (arith, seen-restrict c d es)

  restrict-Unique : (c : FilePath) (es : List (Entry fs)) → Unique es → Unique (restrict fs c es)
  unfolding restrict
  restrict-Unique c [] h = tt
  restrict-Unique c ((d, r) ∷ es) (h, hs) = elim (Bool-cases (path_eq d c)) [
    | inl e ↦ rw e (h, hs)
    | inr n ↦ rw n (seen-restrict c d es ∙ h, restrict-Unique c es hs)
  ]

  restrict-Locked :
      (c d : FilePath) (es : List (Entry fs)) → Locked d es → Locked d (restrict fs c es)
  unfolding restrict
  restrict-Locked c d [] h = tt
  restrict-Locked c d ((x, r) ∷ es) (h, hs) = elim (Bool-cases (path_eq x c)) [
    | inl e ↦ rw e ((λ _. refl), hs)
    | inr n ↦ rw n (h, restrict-Locked c d es hs)
  ]

  unseen-Locked : (c : FilePath) (es : List (Entry fs)) → seen fs c es ≡ false → Locked c es
  unseen-Locked c [] h = tt
  unseen-Locked c (e ∷ es) h = ((λ at. ground arith), unseen-Locked c es (ground arith))

  -- After the restriction of the one root of that path, it is locked.
  Locked-restrict : (c : FilePath) (es : List (Entry fs)) → Unique es → Locked c (restrict fs c es)
  unfolding restrict
  Locked-restrict c [] u = tt
  Locked-restrict c ((d, r) ∷ es) (u, us) = elim (Bool-cases (path_eq d c)) [
    | inl e ↦ let same = path_eq→eq d c e in rw e ((λ _. refl), unseen-Locked c es (rw same at u))
    | inr n ↦ rw n ((λ at. cc), Locked-restrict c es us)
  ]

  seen-append :
      (d : FilePath) (es : List (Entry fs)) (e : Entry fs)
      → seen fs d (es ++ e ∷ []) ≡ (seen fs d es || path_eq e.0 d)
  seen-append d [] e = ground arith
  seen-append d (x ∷ es) e = ground (arith, seen-append d es e)

  path_eq_sym : (c d : FilePath) → path_eq c d ≡ false → path_eq d c ≡ false
  path_eq_sym c d h = elim (Bool-cases (path_eq d c)) [
    | inl e ↦ let same = path_eq→eq d c e in ground (arith, path_eq_refl c)
    | inr n ↦ n
  ]

  append-Unique :
      (es : List (Entry fs)) (e : Entry fs)
      → seen fs e.0 es ≡ false
      → Unique es
      → Unique (es ++ e ∷ [])
  append-Unique [] e h u = (refl, tt)
  append-Unique (x ∷ es) e h (u, us) = (
    rw (seen-append x.0 es e) (ground (arith, path_eq_sym x.0 e.0)),
    append-Unique es e (ground arith) us,
  )

  -- What `jailRoots` keeps: confined roots, each canonical path once, and what is locked, locked.
  pub record IsJail (es : List (Entry fs)) : Type 0 where
    pub confined : All IsConfined es
    pub unique : Unique es

  pub record IsLocked (c : FilePath) (es : List (Entry fs)) : Type 0 where
    pub present : seen fs c es ≡ true
    pub locked : Locked c es

  fresh_entry :
      (path : FilePath) (ro : Bool)
      → path_eq path [] ≡ false
      → IsConfined (
        canonical fs path,
        record {
          path = path;
          read_only = ro || p.read_only && not (is_writable fs p (canonical fs path));
        },
      )
  fresh_entry path ro h = ground arith

  abbrev locks : FilePath → Bool → Bool
  locks c ro = ro || p.read_only && not (is_writable fs p c)

  -- The three ends of `add`, by what was seen and whether the root is read-only.
  insert_cases :
      (path : FilePath) (ro : Bool) (es : List (Entry fs))
      → let c = canonical fs path in
        ((seen fs c es ≡ true)
          × (locks c ro ≡ true)
          × (insert_root fs p path ro es ≡ restrict fs c es))
        ⊎ ((seen fs c es ≡ true) × (locks c ro ≡ false) × (insert_root fs p path ro es ≡ es))
        ⊎ ((seen fs c es ≡ false)
            × (insert_root fs p path ro es
                ≡ es ++ (c, record { path = path; read_only = locks c ro }) ∷ []))
  unfolding insert_root
  insert_cases path ro es =
      let c = canonical fs path in
      elim (Bool-cases (seen fs c es)) [
        | inl old ↦ elim (Bool-cases (locks c ro)) [
          | inl l ↦ inl (old, l, rw (old, l))
          | inr l ↦ inr (inl (old, l, rw (old, l)))
        ]
        | inr new ↦ inr (inr (new, rw new))
      ]

  pub insert_root-IsJail :
      (path : FilePath) (ro : Bool) (es : List (Entry fs))
      → path_eq path [] ≡ false
      → IsJail es
      → IsJail (insert_root fs p path ro es)
  insert_root-IsJail path ro es h j =
      let c = canonical fs path in
      elim (insert_cases path ro es) [
        | inl (old, l, e) ↦ rw e (record {
          confined = restrict-IsConfined c es j.confined;
          unique = restrict-Unique c es j.unique;
        })
        | inr (inl (old, l, e)) ↦ rw e j
        | inr (inr (new, e)) ↦ rw e (record {
          confined = All-append IsConfined es _ j.confined (fresh_entry path ro h, tt);
          unique = append-Unique es _ new j.unique;
        })
      ]

  append-IsLocked :
      (es : List (Entry fs)) (e : Entry fs) (c : FilePath)
      → seen fs e.0 es ≡ false
      → IsLocked c es
      → IsLocked c (es ++ e ∷ [])
  append-IsLocked es e c new l = record {
    present = rw (seen-append c es e) (ground (arith, l.present));
    locked = All-append _ es (e ∷ []) l.locked ((λ at. other at), tt);
  }
    where
      other : path_eq e.0 c ≡ true → e.1.read_only ≡ true
      other at = let clash = rw (path_eq→eq e.0 c at) at new in ground (arith, l.present)

  pub insert_root-IsLocked :
      (path : FilePath) (ro : Bool) (es : List (Entry fs)) (d : FilePath)
      → IsLocked d es
      → IsLocked d (insert_root fs p path ro es)
  insert_root-IsLocked path ro es d l =
      let c = canonical fs path in
      elim (insert_cases path ro es) [
        | inl (old, lo, e) ↦ rw e (record {
          present = seen-restrict c d es ∙ l.present;
          locked = restrict-Locked c d es l.locked;
        })
        | inr (inl (old, lo, e)) ↦ rw e l
        | inr (inr (new, e)) ↦ rw e (append-IsLocked es _ d new l)
      ]

  pub IsLocked-insert_root :
      (path : FilePath) (es : List (Entry fs))
      → IsJail es
      → IsLocked (canonical fs path) (insert_root fs p path true es)
  IsLocked-insert_root path es j =
      let c = canonical fs path in
      elim (insert_cases path true es) [
        | inl (old, l, e) ↦ rw e (record {
          present = seen-restrict c c es ∙ old;
          locked = Locked-restrict c es j.unique;
        })
        | inr (inl (old, l, e)) ↦ cc
        | inr (inr (new, e)) ↦ rw e (record {
          present = rw (seen-append c es) (ground (arith, path_eq_refl c));
          locked = All-append _ es _ (unseen-Locked c es new) ((λ at. refl), tt);
        })
      ]
