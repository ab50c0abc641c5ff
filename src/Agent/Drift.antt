-- ===== src/Agent/Drift.antt =====
-- internal/agent/drift.go: whether a message that was sent already changed. The hash of a message
-- is a parameter.
pub mod Prefix
use mow.Prelude.{
  ℕ, ◌+◌, ◌&&◌, List, [], ◌∷◌, Option, none, some, ltb, ◌==◌, if◌then◌else◌, length, Str, codes,
  str_eq,
}

-- What the tracker keeps of a message that was sent.
pub record Sent : Type 0 where
  pub hash : ℕ
  pub chars : ℕ
  pub role : Str
  pub name : Str

pub data Reason : Type 0 where
  system_prompt shrank tool_rewritten grew edited : Reason

pub record DriftReport : Type 0 where
  pub turn : ℕ
  pub index : ℕ
  pub prev_len : ℕ
  pub now_len : ℕ
  pub role : Str
  pub name : Str
  pub stale_chars : ℕ
  pub reason : Reason

-- `classifyDrift`.
unfoldable pub classify_drift : ℕ → ℕ → ℕ → Str → Reason
classify_drift idx prev_len now_len role =
    if idx == 0 && str_eq role (codes "system")
    then system_prompt
    else if ltb now_len prev_len
    then shrank
    else if str_eq role (codes "tool")
    then tool_rewritten
    else if ltb prev_len now_len
    then grew
    else edited

unfoldable pub total_chars : List Sent → ℕ
total_chars [] = 0
total_chars (s ∷ ss) = s.chars + total_chars ss

-- The loop over the overlap from the i-th message on.
unfoldable pub first_drift : ℕ → ℕ → ℕ → ℕ → List Sent → List Sent → Option DriftReport
unfolding classify_drift total_chars
first_drift turn prev_len now_len i (p ∷ ps) (s ∷ ss) =
    let rest = first_drift turn prev_len now_len (i + 1) ps ss in
    if p.hash == s.hash
    then rest
    else some (record {
      turn = turn;
      index = i;
      prev_len = prev_len;
      now_len = now_len;
      role = p.role;
      name = p.name;
      stale_chars = total_chars (p ∷ ps);
      reason = classify_drift i prev_len now_len p.role;
    })
first_drift turn prev_len now_len i _ _ = none

abbrev compare_sent : ℕ → Option (List Sent) → List Sent → Option DriftReport
compare_sent turn none now = none
compare_sent turn (some prev) now = first_drift turn (length prev) (length now) 0 prev now

-- `prefixTracker.note`: the report, and what the tracker holds afterwards.
unfoldable pub note : ℕ → Option (List Sent) → List Sent → Option DriftReport × Option (List Sent)
unfolding first_drift
note turn tracker now = (compare_sent turn tracker now, some now)
