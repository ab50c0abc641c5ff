-- ===== src/Permstore.antt =====
-- internal/permstore/store.go: the remembered decisions of a workspace. The file is the list of
-- its rules; `digest` is the hex of the first six bytes of SHA-256, a parameter.
pub mod Rules
use mow.Prelude.{
  Bool, true, false, not, List, [], ◌∷◌, ◌++◌, Option, none, some, any, if◌then◌else◌, Str, str_eq,
  trim_space, to_lower, is_empty, Result, ok, err,
}

pub data Decision : Type 0 where
  allow deny : Decision

pub record Rule : Type 0 where
  pub id : Str
  pub tool : Str
  pub args : Str
  pub decision : Decision

pub data StoreError : Type 0 where
  tool_required id_required not_readable not_saved : StoreError

-- The file while one call has its lock: its rules, none where it cannot be read, and whether a
-- save succeeds.
pub record File : Type 0 where
  pub rules : Option (List Rule)
  pub saves : Bool

abbrev pub normal_tool : Str → Str
normal_tool tool = to_lower (trim_space tool)

abbrev save : File → List Rule → Result StoreError (List Rule)
save f rules = if f.saves then ok rules else err not_saved

-- The loop of `Remember`: the rule takes the place of the first one with its id.
unfoldable pub upsert : Rule → List Rule → List Rule
upsert rule [] = rule ∷ []
upsert rule (r ∷ rs) =
    let rest = upsert rule rs in if str_eq r.id rule.id then rule ∷ rs else r ∷ rest

-- The loop of `Revoke`.
unfoldable pub without : Str → List Rule → List Rule
without id [] = []
without id (r ∷ rs) = let rest = without id rs in if str_eq r.id id then rest else r ∷ rest

unfoldable pub decision_of : Str → List Rule → Option Decision
decision_of id [] = none
decision_of id (r ∷ rs) =
    let rest = decision_of id rs in if str_eq r.id id then some r.decision else rest

abbrev pub has_rule : Str → List Rule → Bool
has_rule id = any (λ r. str_eq (Rule.id r) id)

module _ (digest : Str → Str) where
  -- `KeyID`.
  unfoldable pub key_id : Str → Str → Str
  key_id tool args = digest (normal_tool tool ++ 10 ∷ trim_space args)

  abbrev pub new_rule : Str → Str → Decision → Rule
  new_rule tool args decision = record {
    id = key_id (normal_tool tool) (trim_space args);
    tool = normal_tool tool;
    args = trim_space args;
    decision = decision;
  }

  -- `Remember`, with the rules that it saves; its decision is one of the two.
  unfoldable pub remember : File → Str → Str → Decision → Result StoreError (List Rule)
  unfolding upsert key_id
  remember f tool args decision =
      if is_empty (normal_tool tool) then err tool_required else elim f.rules [
        | none ↦ err not_readable
        | some rules ↦ save f (upsert (new_rule tool args decision) rules)
      ]

  -- `Revoke`, with its ok, and the rules behind it.
  unfoldable pub revoke : File → Str → Result StoreError (Bool × List Rule)
  unfolding without
  revoke f raw =
      let id = trim_space raw in
      if is_empty id then err id_required else elim f.rules [
        | none ↦ err not_readable
        | some rules ↦
            if not (has_rule id rules)
            then ok (false, rules)
            else if f.saves
            then ok (true, without id rules)
            else err not_saved
      ]

  -- `Lookup` in the rules of the file.
  unfoldable pub lookup : List Rule → Str → Str → Option Decision
  unfolding decision_of key_id
  lookup rules tool args = decision_of (key_id tool args) rules
