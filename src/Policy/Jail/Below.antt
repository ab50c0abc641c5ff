-- ===== src/Policy/Jail/Below.antt =====
-- The root and the rest that a path is opened by.
use mathlib.Core.Path.{subst}
use mow.Prelude.{
  ℕ, ◌≤◌, ◌≡◌, refl, ap, inl, inr, true, false, not, ◌&&◌, List, [], ◌∷◌, ◌++◌, Option, none, some,
  arith, All, Str, Bool-cases, ok, Result-cases, Option-cases,
}
use mow.Policy.Path.{FilePath, path_eq, path_eq→eq, is_under, text_length, join}
use mow.Policy.Jail.{
  Fs, JailRoot, Policy, canonical, better, match_beneath, relative, roots_of, jail_entries,
  beneath_in, beneath, Entry,
}

relative-append : (fs : Fs) (r p : FilePath) → is_under r p ≡ true → relative fs r p ++ r ≡ p
unfolding relative is_under
relative-append fs r [] h = path_eq→eq r [] h
relative-append fs r (x ∷ p) h = elim (Bool-cases (path_eq r (x ∷ p))) [
  | inl e ↦ rw e (path_eq→eq r (x ∷ p) e)
  | inr e ↦
      let under : is_under r p ≡ true = ground arith in
      rw e (ap (λ q. x ∷ q) (relative-append fs r p under))
]

module _ (fs : Fs) (candidate : FilePath) where
  -- A root that is not "/" and holds the path.
  abbrev pub Reaches : JailRoot → Type 0
  Reaches root =
      (path_eq (canonical fs root.path) [] ≡ false)
      × (is_under (canonical fs root.path) candidate ≡ true)

  -- What the loop holds.
  abbrev Best : Option FilePath → ℕ → Type 0
  Best none n = n ≡ 0
  Best (some r) n = (is_under r candidate ≡ true) × (text_length r ≡ n)

  -- The root found is the longest of those that hold the path.
  record Longest (roots : List JailRoot) (n : ℕ) (r : FilePath) : Type 0 where
    under : is_under r candidate ≡ true
    least : n ≤ text_length r
    longest :
        All (λ root. Reaches root → text_length (canonical fs root.path) ≤ text_length r) roots

  match_beneath-Longest :
      (roots : List JailRoot) (n : ℕ) (found : Option FilePath) {r : FilePath}
      → Best found n
      → match_beneath fs roots candidate n found ≡ some r
      → Longest roots n r
  unfolding match_beneath
  match_beneath-Longest [] n none b h = cc
  match_beneath-Longest [] n (some q) b h = record {
    under = ground arith;
    least = ground arith;
    longest = tt;
  }
  match_beneath-Longest (root ∷ roots) n found {r} b h =
      let c = canonical fs root.path in
      elim (Bool-cases (not (path_eq c []) && better fs root candidate n)) [
        | inl e ↦
            let h' : match_beneath fs roots candidate (text_length c) (some c) ≡ some r =
              rw e at h in
            let rest =
              match_beneath-Longest roots (text_length c) (some c) (ground arith, refl) h' in
            record {
              under = rest.under;
              least = ground (arith, rest.least);
              longest = (λ k. rest.least, rest.longest);
            }
        | inr e ↦
            let h' : match_beneath fs roots candidate n found ≡ some r = rw e at h in
            let rest = match_beneath-Longest roots n found b h' in
            record {
              under = rest.under;
              least = rest.least;
              longest = (λ k. ground (arith, rest.least), rest.longest);
            }
      ]

-- A path under a root: the path is the root with the rest behind it, and of the jail's roots that
-- hold it none is longer.
pub record IsBelow (fs : Fs) (roots : List JailRoot) (path root rest : FilePath) : Type 0 where
  pub split : rest ++ root ≡ path
  pub longest :
      All (λ r. Reaches fs path r → text_length (canonical fs r.path) ≤ text_length root) roots

beneath_in-IsBelow :
    (fs : Fs) (roots : List JailRoot) (path root rest : FilePath)
    → beneath_in fs roots path ≡ some (root, rest)
    → IsBelow fs roots path root rest
beneath_in-IsBelow fs roots path root rest h =
    elim (Option-cases (match_beneath fs roots path 0 none)) [
      | inl e ↦ ground arith
      | inr (r, e) ↦
          let l = match_beneath-Longest fs path roots 0 none refl e in
          let is_root : r ≡ root = ground arith in
          let is_rest : relative fs r path ≡ rest = ground arith in
          subst (λ q. IsBelow fs roots path q rest) is_root
            (subst (IsBelow fs roots path r) is_rest
              (record { split = relative-append fs r path l.under; longest = l.longest }))
    ]

-- What `Beneath` returns for a path is a root and a rest that make up the cleaned path again, so
-- opening the rest beneath the root reaches that path; no jail root that holds the path is longer.
pub beneath-IsBelow :
    (fs : Fs) (p : Policy) (raw : Str) (root rest : FilePath)
    → beneath fs p raw ≡ some (root, rest)
    → (entries : List (Entry fs)) × (jail_entries fs p ≡ ok entries)
      × IsBelow fs (roots_of fs entries) (join [] raw) root rest
unfolding beneath
beneath-IsBelow fs p raw root rest h = elim (Result-cases (jail_entries fs p)) [
  | inl (x, e) ↦ ground arith
  | inr (entries, e) ↦
      let found : beneath_in fs (roots_of fs entries) (join [] raw) ≡ some (root, rest) =
        ground arith in
      (entries, e, beneath_in-IsBelow fs (roots_of fs entries) (join [] raw) root rest found)
]
