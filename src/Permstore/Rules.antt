-- ===== src/Permstore/Rules.antt =====
-- A decision is found again by the call that it was made for, however the tool is spelt.
use mow.Prelude.{
  ◌≡◌, refl, ap, ◌∙◌, true, List, [], ◌∷◌, none, some, arith, if◌then◌else◌, Str, str_eq,
  str_eq_refl, str_eq→eq, trim_space, to_lower, ok,
}
use mow.Prelude.Trim.{trim_space-trim_space, trim_space-to_lower, to_lower-to_lower}
use mow.Permstore.{
  Decision, Rule, File, normal_tool, upsert, without, decision_of, key_id, new_rule, remember,
  revoke, lookup,
}

decision_of-upsert :
    (id : Str) (rule : Rule) (rules : List Rule)
    → decision_of id (upsert rule rules)
      ≡ (if str_eq rule.id id then some rule.decision else decision_of id rules)
unfolding decision_of upsert
decision_of-upsert id rule [] = refl
decision_of-upsert id rule (r ∷ rs) = ground (
  arith,
  decision_of-upsert id rule rs,
  str_eq→eq r.id rule.id,
  str_eq→eq r.id id,
  str_eq→eq rule.id id,
  str_eq_refl id,
)

decision_of-without :
    (id id' : Str) (rules : List Rule)
    → decision_of id (without id' rules) ≡ (if str_eq id' id then none else decision_of id rules)
unfolding decision_of without
decision_of-without id id' [] = ground arith
decision_of-without id id' (r ∷ rs) = ground (
  arith,
  decision_of-without id id' rs,
  str_eq→eq r.id id',
  str_eq→eq r.id id,
  str_eq→eq id' id,
  str_eq_refl id,
)

normal_tool-normal_tool : (tool : Str) → normal_tool (normal_tool tool) ≡ normal_tool tool
normal_tool-normal_tool tool =
    ap to_lower (trim_space-to_lower (trim_space tool))
    ∙ to_lower-to_lower (trim_space (trim_space tool))
    ∙ ap to_lower (trim_space-trim_space tool)

module _ (digest : Str → Str) where
  key_id-normal :
      (tool args : Str)
      → key_id digest (normal_tool tool) (trim_space args) ≡ key_id digest tool args
  unfolding key_id
  key_id-normal tool args = rw (normal_tool-normal_tool tool, trim_space-trim_space args) refl

  -- What `Remember` saves answers every later `Lookup`: the new decision where the call has the
  -- same key (its tool up to case and space around it, its arguments up to space around them),
  -- what the file said before for any other key.
  pub lookup-remember :
      (f : File) (rules rules' : List Rule) (tool args tool' args' : Str) (d : Decision)
      → f.rules ≡ some rules
      → remember digest f tool args d ≡ ok rules'
      → lookup digest rules' tool' args' ≡ (
          if str_eq (key_id digest tool args) (key_id digest tool' args')
          then some d
          else lookup digest rules tool' args')
  unfolding remember lookup
  lookup-remember f rules rules' tool args tool' args' d e h =
      let rule : Rule = new_rule digest tool args d in
      let saved : rules' ≡ upsert rule rules = ground (arith, e) in
      ap (decision_of (key_id digest tool' args')) saved
      ∙ decision_of-upsert (key_id digest tool' args') rule rules
      ∙ rw (key_id-normal tool args) refl

  -- A `Revoke` that finds the id leaves no decision under it, and every other one as it was.
  pub lookup-revoke :
      (f : File) (rules rules' : List Rule) (id tool args : Str)
      → f.rules ≡ some rules
      → revoke digest f id ≡ ok (true, rules')
      → lookup digest rules' tool args ≡ (
          if str_eq (trim_space id) (key_id digest tool args)
          then none
          else lookup digest rules tool args)
  unfolding revoke lookup
  lookup-revoke f rules rules' id tool args e h =
      let kept : rules' ≡ without (trim_space id) rules = ground (arith, e) in
      ap (decision_of (key_id digest tool args)) kept
      ∙ decision_of-without (key_id digest tool args) (trim_space id) rules
