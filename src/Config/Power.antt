-- ===== src/Config/Power.antt =====
-- The tools that a project's configuration enables.
use mow.Prelude.{
  fork, any, All, All-append, Bool, true, ◌||◌, List, [], ◌∷◌, ◌++◌, ◌≡◌, refl, Str, str_eq,
  str_eq_refl, is_empty, trim_space, to_lower, codes, arith,
}
use mow.Prelude.Trim.{trim_space-trim_space}
use mow.Config.{File}
use mow.Config.Merge.{add_unique, merge_string_list, list_or, merge_tools, merge_overlay}
use mow.Config.Project.{
  is_power_tool, drop_project_tools, Paths, restricted, add_tools, merge_project,
}

-- The tools that only the user may enable, by their names in lower case: those that write files,
-- the shell, and those that make media.
abbrev pub is_reserved : Str → Bool
is_reserved name =
    str_eq name (codes "generate_video")
    || str_eq name (codes "generate_speech")
    || str_eq name (codes "generate_image")
    || str_eq name (codes "bash")
    || str_eq name (codes "apply_patch")
    || str_eq name (codes "edit")
    || str_eq name (codes "write")

-- A reserved tool, whatever its case and the space around it, was enabled before, up to space
-- around the name.
abbrev pub IsGranted : List Str → Str → Type 0
IsGranted before t =
    is_reserved (to_lower (trim_space t)) ≡ true
    → any (λ b. str_eq (trim_space b) (trim_space t)) before ≡ true

is_reserved-is_power_tool :
    (t : Str) → is_reserved (to_lower (trim_space t)) ≡ true → is_power_tool t ≡ true
unfolding is_power_tool
is_reserved-is_power_tool t e = ground arith

trim-IsGranted :
    (before : List Str) (t : Str) → IsGranted before t → IsGranted before (trim_space t)
trim-IsGranted before t granted = rw (trim_space-trim_space t) granted

add_unique-IsGranted :
    (before seen l : List Str)
    → All (IsGranted before) l
    → All (IsGranted before) (add_unique seen l)
unfolding add_unique
add_unique-IsGranted before seen [] all = _
add_unique-IsGranted before seen (s ∷ l) (granted, all) =
    let skip = add_unique-IsGranted before seen l all in
    let keep = add_unique-IsGranted before (trim_space s ∷ seen) l all in
    fork (All (IsGranted before)) (is_empty (trim_space s) || any (str_eq (trim_space s)) seen)
      (add_unique seen l) (trim_space s ∷ add_unique (trim_space s ∷ seen) l) (λ _. skip)
      (λ _. (trim-IsGranted before s granted, keep))

drop-IsGranted : (before enable : List Str) → All (IsGranted before) (drop_project_tools enable)
unfolding drop_project_tools
drop-IsGranted before [] = _
drop-IsGranted before (t ∷ enable) =
    let ih = drop-IsGranted before enable in
    fork (All (IsGranted before)) (is_power_tool t) (drop_project_tools enable)
      (t ∷ drop_project_tools enable) (λ _. ih)
      (λ e. ((λ power. let h = is_reserved-is_power_tool t power in cc), ih))

or_right : (a b : Bool) → b ≡ true → (a || b) ≡ true
or_right a b e = ground arith

more-IsGranted :
    (s : Str) (before l : List Str) → All (IsGranted before) l → All (IsGranted (s ∷ before)) l
more-IsGranted s before [] all = _
more-IsGranted s before (t ∷ l) (granted, all) = (
  (λ power. or_right (str_eq (trim_space s) (trim_space t)) _ (granted power)),
  more-IsGranted s before l all,
)

own-IsGranted : (l : List Str) → All (IsGranted l) l
own-IsGranted [] = _
own-IsGranted (t ∷ l) =
    ((λ _. rw (str_eq_refl (trim_space t)) refl), more-IsGranted t l l (own-IsGranted l))

add_tools-IsGranted :
    (before add : List Str)
    → All (IsGranted before) add
    → All (IsGranted before) (add_tools before add)
unfolding add_tools merge_string_list
add_tools-IsGranted before [] all = own-IsGranted before
add_tools-IsGranted before (t ∷ add) all =
    add_unique-IsGranted before [] (before ++ (t ∷ add))
      (All-append (IsGranted before) before (t ∷ add) (own-IsGranted before) all)

-- Once a project's configuration is laid over the user's, every enabled tool whose name, trimmed and
-- in lower case, is write, edit, apply_patch, bash, generate_image, generate_speech or
-- generate_video was enabled by the user, up to space around the name. Nothing is stated of other
-- tools: a project may enable proc_start and proc_stop.
pub merge_project-IsGranted :
    (paths : Paths) (before o : File)
    → All (IsGranted before.tools.enable) (merge_project paths before o).tools.enable
unfolding merge_project merge_overlay merge_tools restricted list_or
merge_project-IsGranted paths before o =
    add_tools-IsGranted before.tools.enable (drop_project_tools o.tools.enable)
      (drop-IsGranted before.tools.enable o.tools.enable)
