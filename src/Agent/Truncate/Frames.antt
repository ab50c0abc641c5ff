-- ===== src/Agent/Truncate/Frames.antt =====
-- What the cut of a tool result keeps of its frame, and that a second cut leaves it alone.
use mow.Prelude.{
  ℕ, ◌+◌, ◌-◌, ◌≤◌, ◌<◌, ◌^◌, ◌≡◌, refl, inl, inr, max, true, false, not, ◌||◌, [], ◌∷◌, ◌++◌,
  Bool-cases, arith, leb, ◌==◌, if◌then◌else◌, drop-append, length, take, length-append,
  length-take, Str, codes, has_prefix,
}
use mow.Agent.Truncate.{
  truncated_marker, truncate_middle_note, untrusted_close, has_suffix, framed, line_end,
  cut_keeping_frame, truncate_tool_result,
}
use mow.Agent.Truncate.Bounds.{truncate_middle_note-bound, truncate_middle_note-roomy, notice-bound}

has_prefix_refl : (s : Str) → has_prefix s s ≡ true
unfolding has_prefix
has_prefix_refl [] = refl
has_prefix_refl (c ∷ s) = ground (arith, has_prefix_refl s)

has_suffix-append : (s t : Str) → has_suffix (s ++ t) t ≡ true
unfolding has_suffix
has_suffix-append s t =
    let d : length (s ++ t) - length t ≡ length s = omega (arith, length-append s t) in
    let l : leb (length t) (length (s ++ t)) ≡ true = ground (arith, length-append s t) in
    rw (l, d, drop-append s t) (has_prefix_refl t)

line_end-bound : (s : Str) → length (line_end s) ≤ length s + 1
line_end-bound s = ground (arith, length-append s (codes "\n"))

module _ (cut : Str → ℕ → Str) (s : Str) (n : ℕ) where
  -- A text within the limit is left alone.
  pub cut_keeping_frame-short : length s ≤ n → cut_keeping_frame cut s n ≡ s
  unfolding cut_keeping_frame
  cut_keeping_frame-short short =
      let e : (n == 0 || leb (length s) n) ≡ true = ground (arith, short) in rw e refl

  cut_keeping_frame-long :
      0 < n
      → n < length s
      → cut_keeping_frame cut s n ≡ (
          if not (framed s)
          then cut s n
          else line_end (
              cut
                (take (length s - length untrusted_close) s)
                (max (n - length untrusted_close - 1) 1))
            ++ untrusted_close)
  unfolding cut_keeping_frame
  cut_keeping_frame-long some_limit long =
      let e : (n == 0 || leb (length s) n) ≡ false = ground (arith, some_limit, long) in rw e refl

  pub cut_keeping_frame-closed :
      0 < n → framed s ≡ true → has_suffix (cut_keeping_frame cut s n) untrusted_close ≡ true
  cut_keeping_frame-closed some_limit f = elim (Bool-cases (leb (length s) n)) [
    | inl e ↦ rw (cut_keeping_frame-short (ground (arith, e))) (ground (arith, f))
    | inr e ↦
        rw (cut_keeping_frame-long some_limit (ground (arith, e)), f)
          (has_suffix-append _ untrusted_close)
  ]

  -- The limit holds up to what the cut itself may add.
  pub cut_keeping_frame-bound :
      (k : ℕ)
      → ((t : Str) (m : ℕ) → length (cut t m) ≤ m + k)
      → 0 < n
      → length (cut_keeping_frame cut s n) ≤ max n 21 + k
  cut_keeping_frame-bound k bound some_limit = elim (Bool-cases (leb (length s) n)) [
    | inl e ↦ rw (cut_keeping_frame-short (ground (arith, e))) (ground (arith, e))
    | inr e ↦
        let inner = take (length s - length untrusted_close) s in
        let m = max (n - length untrusted_close - 1) 1 in
        elim (Bool-cases (framed s)) [
          | inl f ↦
              rw (cut_keeping_frame-long some_limit (ground (arith, e)), f)
                (omega (
                  arith,
                  length-append (line_end (cut inner m)) untrusted_close,
                  line_end-bound (cut inner m),
                  bound inner m,
                ))
          | inr f ↦
              rw (cut_keeping_frame-long some_limit (ground (arith, e)), f)
                (omega (arith, bound s n))
        ]
  ]

  cut_keeping_frame-fits :
      ((t : Str) (m : ℕ) → length t ≤ length s → 300 ≤ m → length (cut t m) ≤ m)
      → 400 ≤ n
      → length (cut_keeping_frame cut s n) ≤ n
  cut_keeping_frame-fits fits wide = elim (Bool-cases (leb (length s) n)) [
    | inl e ↦ rw (cut_keeping_frame-short (ground (arith, e))) (ground (arith, e))
    | inr e ↦
        let inner = take (length s - length untrusted_close) s in
        let m = max (n - length untrusted_close - 1) 1 in
        let shorter : length inner ≤ length s =
          omega (arith, length-take (length s - length untrusted_close) s) in
        elim (Bool-cases (framed s)) [
          | inl f ↦
              rw (cut_keeping_frame-long (omega (arith, wide)) (ground (arith, e)), f)
                (omega (
                  arith,
                  length-append (line_end (cut inner m)) untrusted_close,
                  line_end-bound (cut inner m),
                  fits inner m shorter (omega (arith, wide)),
                  wide,
                ))
          | inr f ↦
              rw (cut_keeping_frame-long (omega (arith, wide)) (ground (arith, e)), f)
                (fits s n (omega arith) (omega (arith, wide)))
        ]
  ]

-- A cut tool result is at most the marker's 15 bytes longer than its limit, or than 21 bytes where
-- the limit is less; one within its limit stays as it was; and an untrusted result in its frame
-- still ends with the tag that closes the frame. The limit is above 0.
pub truncate_tool_result-bound :
    (s : Str) (n : ℕ)
    → 0 < n
    → (length (truncate_tool_result s n) ≤ max n 21 + length truncated_marker)
      × (length s ≤ n → truncate_tool_result s n ≡ s)
      × (framed s ≡ true → has_suffix (truncate_tool_result s n) untrusted_close ≡ true)
truncate_tool_result-bound s n some_limit = (
  cut_keeping_frame-bound (truncate_middle_note []) s n (length truncated_marker)
      (truncate_middle_note-bound []) some_limit,
  cut_keeping_frame-short (truncate_middle_note []) s n,
  cut_keeping_frame-closed (truncate_middle_note []) s n some_limit,
)

-- Under a limit of 400 bytes or more, cutting a result a second time changes nothing, so that what
-- was sent once is sent again byte for byte. A text's length is below 2 ^ 63.
pub truncate_tool_result-stable :
    (s : Str) (n : ℕ)
    → length s < 2 ^ 63
    → 400 ≤ n
    → truncate_tool_result (truncate_tool_result s n) n ≡ truncate_tool_result s n
truncate_tool_result-stable s n small wide =
    cut_keeping_frame-short (truncate_middle_note []) (truncate_tool_result s n) n (
      cut_keeping_frame-fits (truncate_middle_note []) s n
        (λ t m shorter room.
          truncate_middle_note-roomy [] t m
            (omega (arith, notice-bound t m (omega (arith, shorter, small)), room)))
        wide)
