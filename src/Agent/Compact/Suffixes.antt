-- ===== src/Agent/Compact/Suffixes.antt =====
-- The end of a history, from a message that is no tool result on, can follow any other.
use mathlib.Core.Path.{subst}
use mow.Prelude.{
  ◌≡◌, refl, sym, ap, ◌∙◌, inl, inr, true, false, List, [], ◌∷◌, ◌++◌, some, any, append_assoc, Str,
  str_eq, str_eq→eq, Bool-cases, Option-cases,
}
use mow.Agent.Messages.{Message, is_tool, user_role}
use mow.Agent.History.{ids_of, without, is_nil, scan, IsBlock}
use mow.Agent.History.Blocks.{IsBlock-nil}
use mow.Agent.Compact.{from_user, past_tools, align_keep_at_user}

-- The history starts with a message that is no tool result, if with any.
abbrev pub Starts : List Message → Type 0
Starts [] = Unit
Starts (m ∷ ms) = is_tool m ≡ false

suffix-IsBlock :
    (front : List Message) (m : Message) (ms : List Message) (ids left end : List Str)
    → is_tool m ≡ false
    → scan ids left (front ++ (m ∷ ms)) ≡ some (end, [])
    → IsBlock (m ∷ ms)
unfolding scan
suffix-IsBlock [] m ms ids left end no_tool h = elim (Bool-cases (is_nil left)) [
  | inr e ↦ let h' = (rw (no_tool, e) at h) in cc
  | inl e ↦ λ ids'. (end, rw no_tool ((rw (no_tool, e) at h)))
]
suffix-IsBlock (x ∷ front) m ms ids left end no_tool h = elim (Bool-cases (is_tool x)) [
  | inl t ↦ elim (Bool-cases (any (str_eq x.tool_call_id) ids)) [
    | inl a ↦
        suffix-IsBlock front m ms ids (without x.tool_call_id left) end no_tool (rw (t, a) at h)
    | inr a ↦ let h' = (rw (t, a) at h) in cc
  ]
  | inr t ↦ elim (Bool-cases (is_nil left)) [
    | inl e ↦
        suffix-IsBlock front m ms (ids_of x.tool_calls) (ids_of x.tool_calls) end no_tool
          (rw (t, e) at h)
    | inr e ↦ let h' = (rw (t, e) at h) in cc
  ]
]

Starts-IsBlock :
    (front ms : List Message) (ids left end : List Str)
    → Starts ms
    → scan ids left (front ++ ms) ≡ some (end, [])
    → IsBlock ms
Starts-IsBlock front [] ids left end s h = IsBlock-nil
Starts-IsBlock front (m ∷ ms) ids left end s h = suffix-IsBlock front m ms ids left end s h

-- A cut of the list, before a message that is no tool result.
abbrev IsCut : List Message → List Message → Type 0
IsCut ms kept = (front : List Message) × (ms ≡ front ++ kept) × Starts kept

IsCut-cons : (m : Message) (ms kept : List Message) → IsCut ms kept → IsCut (m ∷ ms) kept
IsCut-cons m ms kept (front, e, s) = (m ∷ front, ap (◌∷◌ m) e, s)

user-no_tool : (m : Message) → str_eq m.role user_role ≡ true → is_tool m ≡ false
unfolding is_tool str_eq
user-no_tool m u = rw (str_eq→eq m.role user_role u) refl

from_user-IsCut : (ms kept : List Message) → from_user ms ≡ some kept → IsCut ms kept
unfolding from_user
from_user-IsCut [] kept h = cc
from_user-IsCut (m ∷ ms) kept h = elim (Bool-cases (str_eq m.role user_role)) [
  | inl u ↦
      let h' : some (m ∷ ms) ≡ some kept = (rw u at h) in
      let same : m ∷ ms ≡ kept = cc in subst (IsCut (m ∷ ms)) same ([], refl, user-no_tool m u)
  | inr u ↦ IsCut-cons m ms kept (from_user-IsCut ms kept (rw u at h))
]

past_tools-IsCut : (ms : List Message) → IsCut ms (past_tools ms)
unfolding past_tools
past_tools-IsCut [] = ([], refl, tt)
past_tools-IsCut (m ∷ ms) = elim (Bool-cases (is_tool m)) [
  | inl t ↦ rw t (IsCut-cons m ms (past_tools ms) (past_tools-IsCut ms))
  | inr t ↦ rw t ([], refl, t)
]

align_keep_at_user-IsCut : (ms : List Message) → IsCut ms (align_keep_at_user ms)
unfolding align_keep_at_user
align_keep_at_user-IsCut ms = elim (Option-cases (from_user ms)) [
  | inl e ↦ rw (e, align_keep_at_user) (past_tools-IsCut ms)
  | inr (kept, e) ↦ rw (e, align_keep_at_user) (from_user-IsCut ms kept e)
]

-- What is kept of a history that can be sent again can follow anything.
pub align_keep_at_user-IsBlock :
    (front ms : List Message) (end : List Str)
    → scan [] [] (front ++ ms) ≡ some (end, [])
    → IsBlock (align_keep_at_user ms)
align_keep_at_user-IsBlock front ms end h =
    let (cut, e, s) = align_keep_at_user-IsCut ms in
    Starts-IsBlock (front ++ cut) (align_keep_at_user ms) [] [] end s (
      subst (λ xs. scan [] [] xs ≡ some (end, []))
        (ap (λ xs. front ++ xs) e ∙ sym (append_assoc front cut (align_keep_at_user ms))) h)
