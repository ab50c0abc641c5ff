-- ===== src/Policy/Jail/Match.antt =====
-- The root that a path is held against: the most specific one, and read-only where two tie.
use mathlib.Core.Path.{subst}
use mow.Prelude.{
  ℕ, ◌≤◌, ◌≡◌, refl, ◌⊎◌, inl, inr, Bool, true, false, List, [], ◌∷◌, Option, none, some, arith,
  All, Any, Str, Bool-cases, ok, ◌>>=◌, >>=-eq-ok,
}
use mow.Policy.Path.{FilePath, path_eq, is_under, text_length, join, text_length_pos}
use mow.Policy.Jail.{
  Fs, JailRoot, Policy, canonical, better, match_roots, admit, resolve_in, roots_of,
  resolve_path_for, resolve_symlinks, symlink_depths, jail_entries, Entry,
}

module _ (fs : Fs) (candidate : FilePath) where
  -- A jail root holds the candidate.
  abbrev pub Holds : JailRoot → Type 0
  Holds r = is_under (canonical fs r.path) candidate ≡ true

  abbrev pub size : JailRoot → ℕ
  size r = text_length (canonical fs r.path)

  -- `m` is at least as specific as a root of that size, and read-only if that one is and ties.
  pub record Dominates (m : JailRoot) (n : ℕ) (ro : Bool) : Type 0 where
    pub longer : n ≤ size m
    pub tie : n ≡ size m → ro ≡ true → m.read_only ≡ true

  -- What the loop holds of the roots seen.
  abbrev Best : Option JailRoot → ℕ → Type 0
  Best none n = n ≡ 0
  Best (some m) n = Holds m × (size m ≡ n)

  abbrev Covers : Option JailRoot → JailRoot → Type 0
  Covers none r = ¬ Holds r
  Covers (some m) r = Holds r → Dominates m (size r) r.read_only

  abbrev Extends : Option JailRoot → Option JailRoot → Type 0
  Extends none m' = Unit
  Extends (some m) none = ⊥
  Extends (some m) (some m') = Dominates m' (size m) m.read_only

  abbrev IsFrom : Option JailRoot → List JailRoot → Option JailRoot → Type 0
  IsFrom none roots matched = Unit
  IsFrom (some m') roots matched = (matched ≡ some m') ⊎ Any (λ r. r ≡ m') roots

  record Found (roots : List JailRoot) (matched m' : Option JailRoot) : Type 0 where
    extends : Extends matched m'
    covers : All (Covers m') roots
    from : IsFrom m' roots matched
    holds : (m : JailRoot) → m' ≡ some m → Holds m

  take-Extends :
      (r : JailRoot) (n : ℕ) (matched m' : Option JailRoot)
      → Best matched n
      → better fs r candidate n ≡ true
      → Extends (some r) m'
      → Extends matched m'
  take-Extends r n none m' b h e = tt
  take-Extends r n (some m) none b h e = e
  take-Extends r n (some m) (some m') b h e = ground arith

  take-Covers : (r : JailRoot) (m' : Option JailRoot) → Extends (some r) m' → Covers m' r
  take-Covers r none e = absurd e
  take-Covers r (some m') e = λ _. e

  take-IsFrom :
      (r : JailRoot) (rs : List JailRoot) (matched m' : Option JailRoot)
      → IsFrom m' rs (some r)
      → IsFrom m' (r ∷ rs) matched
  take-IsFrom r rs matched none f = tt
  take-IsFrom r rs matched (some m') (inl e) = inr (inl (ground arith))
  take-IsFrom r rs matched (some m') (inr a) = inr (inr a)

  skip-IsFrom :
      (r : JailRoot) (rs : List JailRoot) (matched m' : Option JailRoot)
      → IsFrom m' rs matched
      → IsFrom m' (r ∷ rs) matched
  skip-IsFrom r rs matched none f = tt
  skip-IsFrom r rs matched (some m') (inl e) = inl e
  skip-IsFrom r rs matched (some m') (inr a) = inr (inr a)

  skip-Covers :
      (r : JailRoot) (n : ℕ) (matched m' : Option JailRoot)
      → path_eq (canonical fs r.path) [] ≡ false
      → Best matched n
      → better fs r candidate n ≡ false
      → Extends matched m'
      → Covers m' r
  skip-Covers r n none none p b h e = λ under. ground (arith, text_length_pos (canonical fs r.path))
  skip-Covers r n none (some m') p b h e =
      λ under. ground (arith, text_length_pos (canonical fs r.path))
  skip-Covers r n (some m) none p b h e = absurd e
  skip-Covers r n (some m) (some m') p b h e = λ under. ground arith

  match_roots-Found :
      (roots : List JailRoot) (n : ℕ) (matched m' : Option JailRoot)
      → Best matched n
      → match_roots fs roots candidate n matched ≡ ok m'
      → Found roots matched m'
  unfolding match_roots
  match_roots-Found [] n none none b h = record {
    extends = tt;
    covers = tt;
    from = tt;
    holds = λ m e. cc;
  }
  match_roots-Found [] n none (some m') b h = cc
  match_roots-Found [] n (some m) none b h = cc
  match_roots-Found [] n (some m) (some m') b h = record {
    extends = ground arith;
    covers = tt;
    from = inl (ground arith);
    holds = λ k e. ground arith;
  }
  match_roots-Found (r ∷ rs) n matched m' b h =
      elim (Bool-cases (path_eq (canonical fs r.path) [])) [
        | inl top ↦ let stopped = rw top at h in cc
        | inr below ↦ elim (Bool-cases (better fs r candidate n)) [
          | inl yes_better ↦
              let next = rw (below, yes_better) at h in
              let found = match_roots-Found rs (size r) (some r) m' (ground arith, refl) next in
              record {
                extends = take-Extends r n matched m' b yes_better found.extends;
                covers = (take-Covers r m' found.extends, found.covers);
                from = take-IsFrom r rs matched m' found.from;
                holds = found.holds;
              }
          | inr not_better ↦
              let next = rw (below, not_better) at h in
              let found = match_roots-Found rs n matched m' b next in
              record {
                extends = found.extends;
                covers =
                    (skip-Covers r n matched m' below b not_better found.extends, found.covers);
                from = skip-IsFrom r rs matched m' found.from;
                holds = found.holds;
              }
        ]
      ]

-- A path stands under a jail root that is the most specific of those that hold it; for a write
-- that root, and every other of its size that holds the path, is writable.
pub record IsJailed (fs : Fs) (roots : List JailRoot) (writes : Bool) (path : FilePath)
    : Type 0 where
  pub root : JailRoot
  pub is_root : Any (λ r. r ≡ root) roots
  pub holds : Holds fs path root
  pub most_specific : All (λ r. Holds fs path r → size fs path r ≤ size fs path root) roots
  pub writable :
      writes ≡ true
      → All (λ r. Holds fs path r → size fs path r ≡ size fs path root → r.read_only ≡ false) roots

All-map :
    {P Q : JailRoot → Type 0} (roots : List JailRoot)
    → ((r : JailRoot) → P r → Q r)
    → All P roots
    → All Q roots
All-map [] f h = tt
All-map (r ∷ rs) f h = (f r h.0, All-map rs f h.1)

not_read_only : (ro m : Bool) → (ro ≡ true → m ≡ true) → m ≡ false → ro ≡ false
not_read_only true m h e = ground (arith, h refl)
not_read_only false m h e = refl

admit-IsJailed :
    (fs : Fs) (roots : List JailRoot) (writes : Bool) (path : FilePath) (m : Option JailRoot)
    {p : FilePath}
    → match_roots fs roots path 0 none ≡ ok m
    → admit fs writes path m ≡ ok p
    → IsJailed fs roots writes p
admit-IsJailed fs roots writes path none e h = cc
admit-IsJailed fs roots writes path (some m) {p} e h =
    let found = match_roots-Found fs path roots 0 none (some m) refl e in
    let same : path ≡ p = ground arith in
    let rw_root : writes ≡ true → m.read_only ≡ false = λ w. ground arith in
    subst (IsJailed fs roots writes) same (record {
      root = m;
      is_root = from_none found.from;
      holds = found.holds m refl;
      most_specific = All-map roots (λ r d under. (d under).longer) found.covers;
      writable = λ w.
          All-map roots
            (λ r d under tied.
              not_read_only r.read_only m.read_only ((d under).tie tied) (rw_root w))
            found.covers;
    })
  where
    from_none :
        (none ≡ some m) ⊎ Any (λ (r : JailRoot). r ≡ m) roots → Any (λ (r : JailRoot). r ≡ m) roots
    from_none (inl e) = cc
    from_none (inr a) = a

resolve_in-IsJailed :
    (fs : Fs) (roots : List JailRoot) (rel : Str) (writes : Bool) {path : FilePath}
    → resolve_in fs roots rel writes ≡ ok path
    → IsJailed fs roots writes path
unfolding resolve_in
resolve_in-IsJailed fs [] rel writes h = cc
resolve_in-IsJailed fs (primary ∷ rest) rel writes h =
    let (candidate, resolved, then_match) =
      >>=-eq-ok (resolve_symlinks fs symlink_depths (join primary.path rel))
        (λ c. match_roots fs (primary ∷ rest) c 0 none >>= λ m. admit fs writes c m) h in
    let (m, matched, admitted) =
      >>=-eq-ok (match_roots fs (primary ∷ rest) candidate 0 none) (admit fs writes candidate)
        then_match in
    admit-IsJailed fs (primary ∷ rest) writes candidate m matched admitted

-- A path that `ResolvePathFor` returns lies under one of the policy's jail roots, the most
-- specific that holds it; a path returned for a write is held by no read-only root that is as
-- specific as that one.
pub resolve_path_for-IsJailed :
    (fs : Fs) (p : Policy) (rel : Str) (writes : Bool) {path : FilePath}
    → resolve_path_for fs p rel writes ≡ ok path
    → (entries : List (Entry fs)) × (jail_entries fs p ≡ ok entries)
      × IsJailed fs (roots_of fs entries) writes path
unfolding resolve_path_for
resolve_path_for-IsJailed fs p rel writes {path} h =
    let rest : (jail_entries fs p >>= λ entries. resolve_in fs (roots_of fs entries) rel writes)
        ≡ ok path =
      ground arith in
    let (entries, e, resolved) =
      >>=-eq-ok (jail_entries fs p) (λ entries. resolve_in fs (roots_of fs entries) rel writes)
        rest in
    (entries, e, resolve_in-IsJailed fs (roots_of fs entries) rel writes resolved)
