-- ===== src/Policy/Tools/Gate.antt =====
-- The gate on power tools: what it lets pass does not depend on the spelling.
use mow.Prelude.{
  ◌≡◌, refl, ap, ◌∙◌, arith, All, any, Bool, List, [], ◌∷◌, codes, str_eq, true, false, Option,
  none, some, Str, trim_space, to_lower,
}
use mow.Prelude.Trim.{trim_space-trim_space, trim_space-to_lower, to_lower-to_lower}
use mow.Policy.Tools.{PowerKind, write, shell, Grants, power_tools, normal, granted, allow_tool}

normal-normal : (name : Str) → normal (normal name) ≡ normal name
normal-normal name =
    ap to_lower (trim_space-to_lower (trim_space name))
    ∙ to_lower-to_lower (trim_space (trim_space name))
    ∙ ap to_lower (trim_space-trim_space name)

-- Grants that allow all that others do.
pub record Allows (q p : Grants) : Type 0 where
  pub writes : p.allow_write ≡ true → q.allow_write ≡ true
  pub shells : p.allow_shell ≡ true → q.allow_shell ≡ true

-- Under any spelling of one of the names the gate answers as the flag says.
abbrev Follows : Grants → Str → Bool → List Str → Type 0
Follows p name flag names =
    All (λ n. to_lower (trim_space name) ≡ n → allow_tool p name ≡ flag) names

-- What the gate promises for a tool.
pub record IsGate (p : Grants) (name : Str) : Type 0 where
  pub spelling : allow_tool p (to_lower (trim_space name)) ≡ allow_tool p name
  pub writes :
      Follows p name p.allow_write (codes "write" ∷ codes "edit" ∷ codes "apply_patch" ∷ [])
  pub shells :
      Follows p name p.allow_shell (codes "bash" ∷ codes "proc_start" ∷ codes "proc_stop" ∷ [])
  pub plain :
      any (str_eq (to_lower (trim_space name))) (
          codes "proc_stop"
          ∷ codes "proc_start"
          ∷ codes "bash"
          ∷ codes "apply_patch"
          ∷ codes "edit"
          ∷ codes "write"
          ∷ [])
        ≡ false
      → allow_tool p name ≡ true
  pub monotone : (q : Grants) → Allows q p → allow_tool p name ≡ true → allow_tool q name ≡ true

granted-monotone :
    (p q : Grants) (k : Option PowerKind) → Allows q p → granted p k ≡ true → granted q k ≡ true
granted-monotone p q none a h = refl
granted-monotone p q (some write) a h = a.writes h
granted-monotone p q (some shell) a h = a.shells h

-- `AllowTool` answers alike for every spelling of a name (case, and space around it). It passes
-- write, edit and apply_patch exactly where the write flag is set, bash, proc_start and proc_stop
-- exactly where the shell flag is set, and every other tool always. It never takes a tool back when
-- a flag is added.
pub allow_tool-IsGate : (p : Grants) (name : Str) → IsGate p name
unfolding allow_tool power_tools str_eq
allow_tool-IsGate p name = record {
  spelling = ap (λ n. granted p (power_tools n)) (normal-normal name);
  writes = ((λ e. rw e refl), ((λ e. rw e refl), ((λ e. rw e refl), _)));
  shells = ((λ e. rw e refl), ((λ e. rw e refl), ((λ e. rw e refl), _)));
  plain = λ h. ground arith;
  monotone = λ q a h. granted-monotone p q (power_tools (normal name)) a h;
}
