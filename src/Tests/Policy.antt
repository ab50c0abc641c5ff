-- ===== src/Tests/Policy.antt =====
-- A workspace with a read-only part, in a file system where only the top directories exist yet.
use mow.Prelude.{
  ◌≡◌, refl, inl, true, false, List, [], ◌∷◌, Option, none, some, codes, ok, trim_space,
}
use mow.Policy.Tools.Gate.{IsGate, allow_tool-IsGate}
use mow.Policy.Path.{FilePath, path_eq, join}
use mow.Policy.Jail.{Fs, Policy, Entry, jail_entries, beneath, resolve_path_for, roots_of}
use mow.Policy.Jail.Below.{IsBelow, beneath-IsBelow}
use mow.Policy.Jail.Match.{IsJailed, resolve_path_for-IsJailed}
use mow.Policy.Jail.Roots.{IsJail, IsLocked}
use mow.Policy.Jail.Entries.{jail_entries-IsJail, jail_entries-IsLocked, resolved}

abbrev existing : FilePath → Option FilePath
existing [] = some []
existing (x ∷ []) = some (x ∷ [])
existing (x ∷ y ∷ p) = none

abbrev disk : Fs
disk = record {
  working_dir = [];
  eval_symlinks = existing;
  is_symlink = λ _. false;
  read_link = λ _. none;
}

abbrev guarded : Policy
guarded = record {
  workspace = codes "/w";
  extra_roots = [];
  extra_roots_read_only = codes "/w/ro" ∷ [];
  writable_roots = [];
  read_only = false;
}

abbrev target : FilePath
target = codes "b" ∷ codes "a" ∷ codes "w" ∷ []

abbrev roots : List (Entry disk)
roots =
    (codes "w" ∷ [], record { path = codes "w" ∷ []; read_only = false })
    ∷ (codes "ro" ∷ codes "w" ∷ [], record { path = codes "ro" ∷ codes "w" ∷ []; read_only = true })
    ∷ []

resolve_path_for-IsJailed_example :
    (entries : List (Entry disk)) × (jail_entries disk guarded ≡ ok entries)
    × IsJailed disk (roots_of disk entries) true target
unfolding resolve_path_for trim_space join
resolve_path_for-IsJailed_example = resolve_path_for-IsJailed disk guarded (codes "a/./b") true refl

jail_entries-IsJail_example : IsJail disk guarded roots
unfolding jail_entries trim_space path_eq join
jail_entries-IsJail_example = jail_entries-IsJail disk guarded refl

jail_entries-IsLocked_example : IsLocked disk guarded (resolved disk guarded (codes "/w/ro")) roots
unfolding jail_entries trim_space path_eq join
jail_entries-IsLocked_example =
    jail_entries-IsLocked disk guarded (codes "/w/ro") refl refl (inl refl)

allow_tool-IsGate_example :
    IsGate (record { allow_write = true; allow_shell = false }) (codes " Edit")
allow_tool-IsGate_example =
    allow_tool-IsGate (record { allow_write = true; allow_shell = false }) (codes " Edit")

beneath-IsBelow_example :
    (entries : List (Entry disk)) × (jail_entries disk guarded ≡ ok entries)
    × IsBelow disk
        (roots_of disk entries)
        (join [] (codes "/w/ro/x"))
        (codes "ro" ∷ codes "w" ∷ [])
        (codes "x" ∷ [])
unfolding beneath trim_space path_eq join
beneath-IsBelow_example =
    beneath-IsBelow disk guarded (codes "/w/ro/x") (codes "ro" ∷ codes "w" ∷ []) (codes "x" ∷ [])
      refl
