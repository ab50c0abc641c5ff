-- ===== src/Tests/Permstore.antt =====
-- A decision on a shell command, in a store whose digest is the text itself.
use mow.Prelude.{
  ◌≡◌, refl, true, [], ◌∷◌, some, if◌then◌else◌, Str, codes, str_eq, trim_space, to_lower,
}
use mow.Permstore.{allow, deny, Rule, File, key_id, remember, lookup}
use mow.Permstore.Rules.{lookup-remember}

abbrev digest : Str → Str
digest s = s

abbrev denied : Rule
denied = record { id = codes "bash\nls"; tool = codes "bash"; args = codes "ls"; decision = deny }

abbrev file : File
file = record { rules = some (denied ∷ []); saves = true }

abbrev allowed : Rule
allowed = record { id = codes "bash\nls"; tool = codes "bash"; args = codes "ls"; decision = allow }

lookup-remember_example : lookup digest (allowed ∷ []) (codes "bash") (codes "ls") ≡ (
    if str_eq
      (key_id digest (codes " Bash") (codes "ls "))
      (key_id digest (codes "bash") (codes "ls"))
    then some allow
    else lookup digest (denied ∷ []) (codes "bash") (codes "ls"))
unfolding remember trim_space to_lower str_eq
lookup-remember_example =
    lookup-remember digest file (denied ∷ []) (allowed ∷ []) (codes " Bash") (codes "ls ")
      (codes "bash") (codes "ls") allow refl refl
