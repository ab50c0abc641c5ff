-- ===== src/Agent/Drift/Prefix.antt =====
-- The report points at the first message that changed.
use mow.Prelude.{
  ℕ, ◌+◌, ◌≡◌, ◌≢◌, refl, ap, inl, inr, ◌↔◌, List, [], ◌∷◌, ◌++◌, map, arith, none, some, length,
  take, ◌==◌, Bool-cases,
}
use mow.Agent.Drift.{Sent, DriftReport, total_chars, first_drift, note}

abbrev pub hashes : List Sent → List ℕ
hashes = map (λ (s : Sent). s.hash)

-- A report of the first change: all before it is as it was sent, and what has to be cached again
-- is everything from it on.
pub record IsFirst (prev now : List Sent) (i : ℕ) (d : DriftReport) : Type 0 where
  pub same : List Sent
  pub was : Sent
  pub after : List Sent
  pub is_now : Sent
  pub now_before : List Sent
  pub now_after : List Sent
  pub split : prev ≡ same ++ was ∷ after
  pub now_split : now ≡ now_before ++ is_now ∷ now_after
  pub unchanged : hashes now_before ≡ hashes same
  pub changed : was.hash ≢ is_now.hash
  pub index : d.index ≡ i + length same
  pub stale : d.stale_chars ≡ total_chars (was ∷ after)

module _ (turn prev_len now_len : ℕ) where
  first_drift-IsFirst :
      (i : ℕ) (prev now : List Sent) {d : DriftReport}
      → first_drift turn prev_len now_len i prev now ≡ some d
      → IsFirst prev now i d
  unfolding first_drift
  first_drift-IsFirst i [] now h = cc
  first_drift-IsFirst i (p ∷ prev) [] h = cc
  first_drift-IsFirst i (p ∷ prev) (s ∷ now) {d} h = elim (Bool-cases (p.hash == s.hash)) [
    | inl e ↦
        let h' : first_drift turn prev_len now_len (i + 1) prev now ≡ some d = ground arith in
        let r = first_drift-IsFirst (i + 1) prev now h' in
        record {
          same = p ∷ r.same;
          was = r.was;
          after = r.after;
          is_now = r.is_now;
          now_before = s ∷ r.now_before;
          now_after = r.now_after;
          split = ap (λ xs. p ∷ xs) r.split;
          now_split = ap (λ xs. s ∷ xs) r.now_split;
          unchanged = ground (arith, r.unchanged);
          changed = r.changed;
          index = omega (arith, r.index);
          stale = r.stale;
        }
    | inr e ↦ record {
      same = [];
      was = p;
      after = prev;
      is_now = s;
      now_before = [];
      now_after = now;
      split = refl;
      now_split = refl;
      unchanged = refl;
      changed = ground arith;
      index = ground arith;
      stale = ground arith;
    }
  ]

  first_drift-none :
      (i : ℕ) (prev now : List Sent)
      → (first_drift turn prev_len now_len i prev now ≡ none)
        ↔ (take (length now) (hashes prev) ≡ take (length prev) (hashes now))
  unfolding first_drift
  first_drift-none i [] [] = ground arith
  first_drift-none i [] (s ∷ now) = ground arith
  first_drift-none i (p ∷ prev) [] = ground arith
  first_drift-none i (p ∷ prev) (s ∷ now) = ground (arith, first_drift-none (i + 1) prev now)

-- `note` reports nothing exactly when what was sent before and what is sent now hash alike as far
-- as both go, so growing or cutting the history at its end is no drift; a report points at the
-- first message that changed, and counts the characters of it and of all that were sent after it.
pub note-reports :
    (turn : ℕ) (prev now : List Sent)
    → (((note turn (some prev) now).0 ≡ none)
        ↔ (take (length now) (hashes prev) ≡ take (length prev) (hashes now)))
      × ((d : DriftReport) → (note turn (some prev) now).0 ≡ some d → IsFirst prev now 0 d)
unfolding note
note-reports turn prev now = (
  first_drift-none turn (length prev) (length now) 0 prev now,
  λ d h. first_drift-IsFirst turn (length prev) (length now) 0 prev now h,
)
