-- ===== src/Agent/Truncate/Bounds.antt =====
-- How long a cut tool result can be, and that a second cut at the same limit leaves it alone.
use native.Mathlib.Nat.{le_trans, le-add_right}
use mow.Prelude.{
  ℕ, zero, suc, ◌+◌, ◌-◌, ◌/◌, ◌%◌, ◌^◌, ◌≤◌, ◌<◌, ◌≡◌, inl, inr, [], ◌∷◌, ◌++◌, none, some,
  Bool-cases, Option-cases, arith, ltb, ◌==◌, if◌then◌else◌, length, take, drop, length-append,
  length-take, length-drop, Str, digits, decimal,
}
use mow.Agent.Truncate.{
  last_newline, back_to_rune, truncated_marker, line_cut, truncate_tail, notice, notice_rest,
  tail_start, truncate_middle_note,
}

last_newline-bound : (s : Str) (i : ℕ) → last_newline s ≡ some i → i < length s
unfolding last_newline
last_newline-bound [] i h = cc
last_newline-bound (c ∷ s) i h = elim (Option-cases (last_newline s)) [
  | inl e ↦ let h' : (if c == 10 then some 0 else none) ≡ some i = (rw e at h) in ground (arith, h')
  | inr (j, e) ↦
      let h' : some (suc j) ≡ some i = (rw e at h) in ground (arith, h', last_newline-bound s j e)
]

back_to_rune-bound : (s : Str) (cut : ℕ) → back_to_rune s cut ≤ cut
unfolding back_to_rune
back_to_rune-bound s zero = omega arith
back_to_rune-bound s (suc cut) = ground (arith, back_to_rune-bound s cut)

line_cut-bound : (s : Str) (n : ℕ) → line_cut s n ≤ n
unfolding line_cut
line_cut-bound s n = elim (Option-cases (last_newline (take n s))) [
  | inl e ↦ rw (e, line_cut) (omega arith)
  | inr (i, e) ↦
      rw (e, line_cut) (ground (arith, last_newline-bound (take n s) i e, length-take n s))
]

-- What a cut keeps of the head.
head-bound : (s : Str) (n : ℕ) → length (take (back_to_rune s (line_cut s n)) s) ≤ n
head-bound s n = omega (
  arith,
  length-take (back_to_rune s (line_cut s n)) s,
  back_to_rune-bound s (line_cut s n),
  line_cut-bound s n,
)

tail_start-bound : (s : Str) (n : ℕ) → length s - n ≤ tail_start s n
unfolding tail_start
tail_start-bound s n = ground arith

truncate_tail-bound : (s : Str) (n : ℕ) → length (truncate_tail s n) ≤ n + length truncated_marker
unfolding truncate_tail
truncate_tail-bound s n =
    omega (
      arith,
      length-append (take (back_to_rune s (line_cut s n)) s) truncated_marker,
      head-bound s n,
    )

digits-bound :
    (d fuel n : ℕ) (rest : Str) → n < 10 ^ suc d → length (digits fuel n rest) ≤ suc d + length rest
unfolding digits
digits-bound d zero n rest h = omega arith
digits-bound zero (suc fuel) n rest h = ground (arith, h)
digits-bound (suc d) (suc fuel) n rest h =
    let deeper = digits-bound d fuel (n / 10) ((48 + n % 10) ∷ rest) (omega (arith, h)) in
    ground (arith, deeper)

-- Go's lengths are below 2 ^ 63.
pub notice-bound : (s : Str) (n : ℕ) → length s < 2 ^ 63 → length (notice s n []) ≤ 100
notice-bound s n h =
    let k = length s - n in
    let number = digits-bound 18 (suc k) k [] (omega (arith, h)) in
    omega (arith, number, length-append (decimal k) (notice_rest []))

middle-bound :
    (s head note : Str) (n start : ℕ)
    → length note ≤ n
    → length head ≤ (n - length note) / 4
    → length s - ((n - length note) - (n - length note) / 4) ≤ start
    → length (head ++ note ++ drop start s) ≤ n
middle-bound s head note n start fits short late = omega (
  arith,
  length-append (head ++ note) (drop start s),
  length-append head note,
  length-drop start s,
  fits,
  short,
  late,
)

module _ (extra s : Str) (n : ℕ) where
  abbrev note : Str
  note = notice s n extra

  abbrev room : ℕ
  room = n - length note

  -- The cut of head and tail keeps within the limit.
  kept-bound :
      length note ≤ n
      → length (
          take (back_to_rune s (line_cut s (room / 4))) s
          ++ note
          ++ drop (tail_start s (room - room / 4)) s)
        ≤ n
  kept-bound fits =
      middle-bound s _ note n (tail_start s (room - room / 4)) fits (head-bound s (room / 4))
        (tail_start-bound s (room - room / 4))

  pub truncate_middle_note-bound :
      length (truncate_middle_note extra s n) ≤ n + length truncated_marker
  unfolding truncate_middle_note
  truncate_middle_note-bound = elim (Bool-cases (ltb room 200)) [
    | inl e ↦ rw e (truncate_tail-bound s n)
    | inr e ↦
        rw e (le_trans (kept-bound (ground (arith, e))) (le-add_right n (length truncated_marker)))
  ]

  pub truncate_middle_note-roomy :
      length note + 200 ≤ n → length (truncate_middle_note extra s n) ≤ n
  unfolding truncate_middle_note
  truncate_middle_note-roomy wide = elim (Bool-cases (ltb room 200)) [
    | inl e ↦ absurd (ground (arith, e, wide))
    | inr e ↦ rw e (kept-bound (omega (arith, wide)))
  ]
