-- ===== src/Config/Kept.antt =====
-- What a project's configuration leaves as the user has it.
use mow.Prelude.{
  and_left, and_right, All, ℤ, pos, is_positive, is_negative, less_than, if◌then◌else◌, fork, true,
  false, not, ◌||◌, Option, none, some, List, [], ◌∷◌, ◌≡◌, ◌⊎◌, inl, inr, refl, sym, ◌∙◌, ap, Str,
  codes, str_eq, str_eq→eq, is_empty, trim_space,
}
use mow.Config.{Policy, File}
use mow.Config.Merge.{
  put, put_all, put_providers, merge_extensions, trimmed_or, text_or, list_or, option_or,
  positive_or, nonzero_or, limit_or, merged_list, merge_llm, merge_policy, merge_tools,
  merge_skills, merge_overlay,
}
use mow.Config.Project.{lowers_turn_cap, Paths, delete_section, restricted, merge_project}

-- A limit is the one before, or a lower one where there was none or a higher one.
pub IsTightened : ℤ → ℤ → Type 0
IsTightened before after =
    (after ≡ before)
    ⊎ ((is_positive after ≡ true) × ((not (is_positive before) || less_than after before) ≡ true))

-- The section of an extension.
unfoldable pub section : Str → List (Str × Str) → Option Str
section name [] = none
section name ((k, v) ∷ rest) =
    let more = section name rest in if str_eq k name then some v else more

lowers-positive : (n host : ℤ) → lowers_turn_cap n host ≡ true → is_positive n ≡ true
unfolding lowers_turn_cap
lowers-positive n host e = and_left _ _ e

lowers-less :
    (n host : ℤ)
    → lowers_turn_cap n host ≡ true
    → (not (is_positive host) || less_than n host) ≡ true
unfolding lowers_turn_cap
lowers-less n host e = and_right _ _ e

tightened :
    (overlay host : ℤ)
    → IsTightened host (limit_or host (if lowers_turn_cap overlay host then overlay else pos 0))
unfolding IsTightened limit_or
tightened overlay host =
    fork
      (λ (n : ℤ).
        IsTightened host (if is_positive n then n else if is_negative n then pos 0 else host))
      (lowers_turn_cap overlay host) overlay (pos 0)
      (λ e.
        rw (lowers-positive overlay host e)
          (inr (lowers-positive overlay host e, lowers-less overlay host e)))
      (λ _. inl refl)

-- The policy fields that a project does not set at all.
pub record SamePolicy (before after : Policy) : Type 0 where
  pub sandbox : after.sandbox ≡ before.sandbox
  pub extra_roots : after.extra_roots ≡ before.extra_roots
  pub extra_roots_read_only : after.extra_roots_read_only ≡ before.extra_roots_read_only
  pub env_passthrough : after.env_passthrough ≡ before.env_passthrough
  pub max_run_tokens : after.max_run_tokens ≡ before.max_run_tokens
  pub max_run_usd : after.max_run_usd ≡ before.max_run_usd
  pub compact_summary : after.compact_summary ≡ before.compact_summary

pub record KeepsUser (before after : File) : Type 0 where
  pub workspace : after.workspace ≡ before.workspace
  pub llm : after.llm ≡ before.llm
  pub session_dir : after.session_dir ≡ before.session_dir
  pub policy : SamePolicy before.policy after.policy
  pub max_turns : IsTightened before.policy.max_turns after.policy.max_turns
  pub compact_at_tokens : IsTightened before.policy.compact_at_tokens after.policy.compact_at_tokens
  pub write : after.tools.write ≡ before.tools.write
  pub shell : after.tools.shell ≡ before.tools.shell
  pub hashline : after.tools.hashline ≡ before.tools.hashline
  pub selector : after.skills.selector ≡ before.skills.selector
  pub explicit : after.skills.explicit ≡ before.skills.explicit
  pub media : section (codes "media") after.extensions ≡ section (codes "media") before.extensions
  pub acp : section (codes "acp") after.extensions ≡ section (codes "acp") before.extensions

-- No section has this name.
Lacks : Str → List (Str × Str) → Type 0
Lacks name l = All (λ (s : Str × Str). str_eq s.0 name ≡ false) l

delete-Lacks : (name : Str) (l : List (Str × Str)) → Lacks name (delete_section name l)
unfolding Lacks delete_section
delete-Lacks name [] = _
delete-Lacks name ((k, v) ∷ l) =
    let ih = delete-Lacks name l in
    fork (Lacks name) (str_eq k name) (delete_section name l) ((k, v) ∷ delete_section name l)
      (λ _. ih) (λ e. (e, ih))

delete-Lacks_other :
    (name other : Str) (l : List (Str × Str)) → Lacks name l → Lacks name (delete_section other l)
unfolding Lacks delete_section
delete-Lacks_other name other [] lacks = _
delete-Lacks_other name other ((k, v) ∷ l) (e, lacks) =
    let ih = delete-Lacks_other name other l lacks in
    fork (Lacks name) (str_eq k other) (delete_section other l) ((k, v) ∷ delete_section other l)
      (λ _. ih) (λ _. (e, ih))

section-put :
    (name k v : Str) (l : List (Str × Str))
    → str_eq k name ≡ false
    → section name (put k v l) ≡ section name l
unfolding section put
section-put name k v [] e = rw e refl
section-put name k v ((j, w) ∷ l) e =
    let ih = section-put name k v l e in
    fork (λ (m : List (Str × Str)). section name m ≡ section name ((j, w) ∷ l)) (str_eq k j)
      ((k, v) ∷ l) ((j, w) ∷ put k v l)
      (λ same.
        let other : str_eq j name ≡ false =
          ap (λ (t : Str). str_eq t name) (sym (str_eq→eq k j same)) ∙ e in
        rw (e, other) refl)
      (λ _. rw ih refl)

section-merge :
    (name : Str) (o dst : List (Str × Str))
    → Lacks name o
    → section name (merge_extensions o dst) ≡ section name dst
unfolding Lacks merge_extensions
section-merge name [] dst lacks = refl
section-merge name ((k, v) ∷ o) dst (e, lacks) =
    section-merge name o (if is_empty v then dst else put k v dst) lacks
    ∙ fork (λ (m : List (Str × Str)). section name m ≡ section name dst) (is_empty v) dst
        (put k v dst) (λ _. refl) (λ _. section-put name k v dst e)

-- A project's configuration that is laid over the user's leaves as they were: the workspace, all of
-- the model's settings (endpoint, credentials, wire, headers, providers, prices and caps), the
-- directory of sessions, the sandbox, the extra roots, the environment passed to the shell, the
-- spend ceilings, the grants of write and shell, the protocol of edits, the choice of skills and
-- the sections of the extensions `media` and `acp`; the limits of turns and of compaction stay or
-- get lower.
pub merge_project-KeepsUser :
    (paths : Paths) (before o : File) → KeepsUser before (merge_project paths before o)
unfolding merge_project merge_overlay merge_llm merge_policy merge_tools merge_skills restricted
    trimmed_or text_or put_all put_providers positive_or nonzero_or option_or list_or merged_list
    trim_space
merge_project-KeepsUser paths before o = record {
  workspace = refl;
  llm = refl;
  session_dir = refl;
  policy = record {
    sandbox = refl;
    extra_roots = refl;
    extra_roots_read_only = refl;
    env_passthrough = refl;
    max_run_tokens = refl;
    max_run_usd = refl;
    compact_summary = refl;
  };
  max_turns = tightened o.policy.max_turns before.policy.max_turns;
  compact_at_tokens = tightened o.policy.compact_at_tokens before.policy.compact_at_tokens;
  write = refl;
  shell = refl;
  hashline = refl;
  selector = refl;
  explicit = refl;
  media = section-merge (codes "media") _ before.extensions (
      delete-Lacks_other (codes "media") (codes "acp") (delete_section (codes "media") o.extensions)
        (delete-Lacks (codes "media") o.extensions));
  acp =
      section-merge (codes "acp") _ before.extensions
        (delete-Lacks (codes "acp") (delete_section (codes "media") o.extensions));
}
