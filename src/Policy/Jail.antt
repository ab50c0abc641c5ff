-- ===== src/Policy/Jail.antt =====
-- internal/policy/policy.go: the jail roots, and the paths that resolve under them. `Abs` is taken
-- in a working directory that exists; the file system is what `EvalSymlinks`, `Lstat` and
-- `Readlink` say of it while one call lasts.
pub mod Roots
pub mod Match
pub mod Entries
pub mod Below
use mow.Prelude.{
  ℕ, zero, suc, Bool, true, false, not, ◌&&◌, ◌||◌, List, [], ◌∷◌, ◌++◌, map, Option, none, some,
  ltb, ◌==◌, if◌then◌else◌, any, Str, trim_space, is_empty, Result, ok, err, ◌>>=◌,
}
use mow.Policy.Path.{FilePath, path_eq, join, is_abs, is_under, text_length}

pub record Fs : Type 0 where
  pub working_dir : FilePath
  pub eval_symlinks : FilePath → Option FilePath  -- none on an error
  pub is_symlink : FilePath → Bool  -- Lstat succeeds and the mode has ModeSymlink
  pub read_link : FilePath → Option Str  -- none on an error

pub record JailRoot : Type 0 where
  pub path : FilePath
  pub read_only : Bool

-- The fields of `Policy` that the jail reads.
pub record Policy : Type 0 where
  pub workspace : Str
  pub extra_roots : List Str
  pub extra_roots_read_only : List Str
  pub writable_roots : List Str
  pub read_only : Bool

pub data PolicyError : Type 0 where
  workspace_not_set fs_root_not_allowed too_many_symlinks unreadable_link : PolicyError
  read_only_root escapes_workspace : PolicyError

-- The depths 0 to `maxSymlinkDepth`.
abbrev pub symlink_depths : ℕ
symlink_depths = 41

module _ (fs : Fs) where
  -- `filepath.Abs`.
  abbrev pub abs : Str → FilePath
  abs raw = join fs.working_dir raw

  -- The path as `EvalSymlinks` resolves it, or as it is where that fails.
  unfoldable pub canonical : FilePath → FilePath
  canonical p = elim (fs.eval_symlinks p) [ none ↦ p | some q ↦ q ]

  -- `writableSet`.
  unfoldable pub writable_set : List Str → List FilePath
  unfolding canonical
  writable_set [] = []
  writable_set (r ∷ rs) =
      let rest = writable_set rs in
      if is_empty r then rest else canonical (abs (trim_space r)) ∷ rest

  abbrev pub is_writable : Policy → FilePath → Bool
  is_writable p c = any (path_eq c) (writable_set p.writable_roots)

  -- `out` and `seen` of `jailRoots` together: each root with its canonical path.
  abbrev pub Entry : Type 0
  Entry = FilePath × JailRoot

  -- `out[idx].ReadOnly = true` for the root seen under this canonical path.
  unfoldable pub restrict : FilePath → List Entry → List Entry
  restrict c [] = []
  restrict c ((d, r) ∷ es) =
      if path_eq d c then (d, record r { read_only = true }) ∷ es else (d, r) ∷ restrict c es

  abbrev pub seen : FilePath → List Entry → Bool
  seen c = any (λ (e : Entry). path_eq e.0 c)

  -- The closure `add`, behind its test on an empty entry.
  unfoldable pub insert_root : Policy → FilePath → Bool → List Entry → List Entry
  unfolding restrict canonical
  insert_root p path ro out =
      let c = canonical path in
      let ro' = ro || p.read_only && not (is_writable p c) in
      if seen c out
      then (if ro' then restrict c out else out)
      else out ++ (c, record { path = path; read_only = ro' }) ∷ []

  unfoldable pub add_root : Policy → Bool → Str → List Entry → Result PolicyError (List Entry)
  unfolding insert_root
  add_root p ro raw out =
      if is_empty (trim_space raw)
      then ok out
      else if path_eq (abs (trim_space raw)) []
      then err fs_root_not_allowed
      else ok (insert_root p (abs (trim_space raw)) ro out)

  unfoldable pub add_roots : Policy → Bool → List Str → List Entry → Result PolicyError (List Entry)
  unfolding add_root
  add_roots p ro [] out = ok out
  add_roots p ro (r ∷ rs) out = do out' ← add_root p ro r out; add_roots p ro rs out'

  -- `jailRoots`.
  unfoldable pub jail_entries : Policy → Result PolicyError (List Entry)
  unfolding add_roots
  jail_entries p = do
    a ← add_root p false p.workspace []
    b ← add_roots p false p.extra_roots a
    add_roots p true p.extra_roots_read_only b

  -- `resolveSymlinks`; the first argument is 41 - depth, and the recursion is on it and the path. The
  -- target of a link is cleaned as a text; the code passes an absolute one on as it is, which differs
  -- where it has `..` behind a link.
  unfoldable pub resolve_symlinks : ℕ → FilePath → Result PolicyError FilePath
  resolve_symlinks zero path = err too_many_symlinks
  resolve_symlinks (suc left) [] = elim (fs.eval_symlinks []) [ some r ↦ ok r | none ↦ ok [] ]
  resolve_symlinks (suc left) (base ∷ dir) = elim (fs.eval_symlinks (base ∷ dir)) [
    | some r ↦ ok r
    | none ↦ resolve_symlinks (suc left) dir >>= λ rdir. elim (fs.is_symlink (base ∷ rdir)) [
      | false ↦ ok (base ∷ rdir)
      | true ↦ elim (fs.read_link (base ∷ rdir)) [
        | none ↦ err unreadable_link
        | some target ↦ resolve_symlinks left (join rdir target)
      ]
    ]
  ]

  -- One root in the loop of `ResolvePathFor`; the accumulators are `longestLen` and `matchedRoot`.
  abbrev pub better : JailRoot → FilePath → ℕ → Bool
  better root candidate longest =
      let r = canonical root.path in
      is_under r candidate
      && (ltb longest (text_length r) || text_length r == longest && root.read_only)

  unfoldable pub match_roots :
      List JailRoot → FilePath → ℕ → Option JailRoot → Result PolicyError (Option JailRoot)
  unfolding canonical is_under text_length
  match_roots [] candidate longest matched = ok matched
  match_roots (root ∷ rest) candidate longest matched =
      if path_eq (canonical root.path) []
      then err fs_root_not_allowed
      else if better root candidate longest
      then match_roots rest candidate (text_length (canonical root.path)) (some root)
      else match_roots rest candidate longest matched

  -- The end of `ResolvePathFor`.
  abbrev pub admit : Bool → FilePath → Option JailRoot → Result PolicyError FilePath
  admit writes candidate none = err escapes_workspace
  admit writes candidate (some root) =
      if writes && root.read_only then err read_only_root else ok candidate

  -- `ResolvePathFor` behind the list of roots; the first root is the primary one.
  unfoldable pub resolve_in : List JailRoot → Str → Bool → Result PolicyError FilePath
  unfolding resolve_symlinks match_roots
  resolve_in [] rel writes = err workspace_not_set
  resolve_in (primary ∷ rest) rel writes = do
    candidate ← resolve_symlinks symlink_depths (join primary.path rel)
    matched ← match_roots (primary ∷ rest) candidate 0 none
    admit writes candidate matched

  abbrev pub roots_of : List Entry → List JailRoot
  roots_of = map (λ (e : Entry). e.1)

  unfoldable pub resolve_path_for : Policy → Str → Bool → Result PolicyError FilePath
  unfolding jail_entries resolve_in
  resolve_path_for p rel writes =
      if is_empty p.workspace
      then err workspace_not_set
      else jail_entries p >>= λ entries. resolve_in (roots_of entries) rel writes

  -- The loop of `Beneath`; the accumulators are `matchedLen` and `canonical`.
  unfoldable pub match_beneath : List JailRoot → FilePath → ℕ → Option FilePath → Option FilePath
  unfolding canonical is_under text_length
  match_beneath [] candidate longest found = found
  match_beneath (root ∷ rest) candidate longest found =
      let r = canonical root.path in
      let take_it = not (path_eq r []) && better root candidate longest in
      match_beneath rest candidate (if take_it then text_length r else longest)
        (if take_it then some r else found)

  -- `filepath.Rel` of a path under the root: the elements below it, which hold no "..".
  unfoldable pub relative : FilePath → FilePath → FilePath
  relative r [] = []
  relative r (x ∷ p) = let rest = relative r p in if path_eq r (x ∷ p) then [] else x ∷ rest

  abbrev pub beneath_in : List JailRoot → FilePath → Option (FilePath × FilePath)
  beneath_in roots candidate = elim (match_beneath roots candidate 0 none) [
    | none ↦ none
    | some r ↦ some (r, relative r candidate)
  ]

  -- `Beneath`: the root's canonical path and the rest, or none for ok = false.
  unfoldable pub beneath : Policy → Str → Option (FilePath × FilePath)
  unfolding jail_entries match_beneath relative
  beneath p raw = if is_empty p.workspace || not (is_abs raw) then none else elim (jail_entries p) [
    | err e ↦ none
    | ok entries ↦ beneath_in (roots_of entries) (join [] raw)
  ]
