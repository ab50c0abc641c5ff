-- ===== src/Session/Carried.antt =====
-- The runtime of a session is the last one recorded, field by field.
use mow.Prelude.{
  Option-cases, inl, inr, ℕ, ◌+◌, if◌then◌else◌, Bool, Option, none, some, List, [], ◌∷◌, ◌≡◌, refl,
  ◌∙◌, Str, is_empty, trim_space, ok, length,
}
use mow.Session.Log.{Bytes, lines, visit_all, scan_lines}
use mow.Session.Runtime.{
  Setting, Runtime, no_runtime, carry, carry_flag, note_setting, note_line, load_runtime,
}

unfoldable add_setting : Option Setting → List Setting → List Setting
add_setting none rest = rest
add_setting (some s) rest = s ∷ rest

-- The lines that are settings.
unfoldable pub settings : (Bytes → Option Setting) → List Bytes → List Setting
unfolding add_setting
settings decode [] = []
settings decode (line ∷ rest) = add_setting (decode line) (settings decode rest)

-- The last text that is not blank, trimmed; or the empty text.
unfoldable pub last_text : (Setting → Str) → List Setting → Str
last_text field [] = []
last_text field (s ∷ rest) =
    let later = last_text field rest in if is_empty later then trim_space (field s) else later

-- The last flag that is set.
unfoldable pub last_flag : (Setting → Option Bool) → List Setting → Option Bool
last_flag field [] = none
last_flag field (s ∷ rest) =
    let later = last_flag field rest in elim later [ none ↦ field s | some flag ↦ some flag ]

unfoldable text_or : Str → Str → Str
text_or first text = if is_empty text then first else text

text_or-carry :
    (first text later : Str)
    → text_or (carry first text) later
      ≡ text_or first (if is_empty later then trim_space text else later)
unfolding text_or carry
text_or-carry first text [] = refl
text_or-carry first text (c ∷ later) = refl

text_or-empty : (t : Str) → text_or [] t ≡ t
unfolding text_or
text_or-empty [] = refl
text_or-empty (c ∷ t) = refl

flag_or-carry :
    (first : Bool) (flag later : Option Bool)
    → carry_flag (carry_flag first flag) later
      ≡ carry_flag first (elim later as (λ _. Option Bool) [ none ↦ flag | some f ↦ some f ])
unfolding carry_flag
flag_or-carry first flag none = refl
flag_or-carry first flag (some f) = refl

-- The runtime `r` that settings make of a first one.
record IsCarried (first r : Runtime) (ss : List Setting) : Type 0 where
  model : r.model ≡ text_or first.model (last_text (λ s. s.model) ss)
  wire : r.wire ≡ text_or first.wire (last_text (λ s. s.wire) ss)
  effort : r.effort ≡ text_or first.effort (last_text (λ s. s.effort) ss)
  allow_write : r.allow_write ≡ carry_flag first.allow_write (last_flag (λ s. s.allow_write) ss)
  allow_shell : r.allow_shell ≡ carry_flag first.allow_shell (last_flag (λ s. s.allow_shell) ss)
  read_only : r.read_only ≡ carry_flag first.read_only (last_flag (λ s. s.read_only) ss)

none-IsCarried : (r : Runtime) → IsCarried r r []
unfolding last_text last_flag text_or carry_flag
none-IsCarried r = record {
  model = refl;
  wire = refl;
  effort = refl;
  allow_write = refl;
  allow_shell = refl;
  read_only = refl;
}

more-IsCarried :
    (first r : Runtime) (s : Setting) (ss : List Setting)
    → IsCarried (note_setting first s) r ss
    → IsCarried first r (s ∷ ss)
unfolding note_setting last_text last_flag
more-IsCarried first r s ss c = record {
  model = c.model ∙ text_or-carry first.model s.model _;
  wire = c.wire ∙ text_or-carry first.wire s.wire _;
  effort = c.effort ∙ text_or-carry first.effort s.effort _;
  allow_write = c.allow_write ∙ flag_or-carry first.allow_write s.allow_write _;
  allow_shell = c.allow_shell ∙ flag_or-carry first.allow_shell s.allow_shell _;
  read_only = c.read_only ∙ flag_or-carry first.read_only s.read_only _;
}

passed_line :
    (decode : Bytes → Option Setting) (r : Runtime) (offset : ℕ) (line : Bytes)
    → decode line ≡ none
    → note_line decode r offset line ≡ ok r
unfolding note_line
passed_line decode r offset line e = rw (e, note_line) refl

noted_line :
    (decode : Bytes → Option Setting) (r : Runtime) (offset : ℕ) (line : Bytes) (s : Setting)
    → decode line ≡ some s
    → note_line decode r offset line ≡ ok (note_setting r s)
unfolding note_line
noted_line decode r offset line s e = rw (e, note_line) refl

carried :
    (decode : Bytes → Option Setting) (first : Runtime) (offset : ℕ) (ls : List Bytes)
    → (r : Runtime) × (visit_all (note_line decode) first offset ls ≡ ok r)
      × IsCarried first r (settings decode ls)
unfolding visit_all settings add_setting
carried decode first offset [] = (first, refl, none-IsCarried first)
carried decode first offset (line ∷ ls) =
    let passed = carried decode first (offset + length line) ls in
    let noted = λ (s : Setting). carried decode (note_setting first s) (offset + length line) ls in
    elim (Option-cases (decode line)) [
      | inl e ↦ (passed.0, (rw (passed_line decode first offset line e) passed.1), (rw e passed.2))
      | inr (s, e) ↦
          let (r, done, c) = noted s in
          (
            r,
            (rw (noted_line decode first offset line s e) done),
            (rw e (more-IsCarried first r s (settings decode ls) c)),
          )
    ]

-- `LoadRuntime` does not fail on a file that can be read, and each text of the runtime is the last
-- one of its kind that is not blank.
load_runtime-last :
    (decode : Bytes → Option Setting) (file : Bytes)
    → (r : Runtime) × (load_runtime decode file ≡ ok r)
      × (r.model ≡ last_text (λ s. s.model) (settings decode (lines file)))
      × (r.wire ≡ last_text (λ s. s.wire) (settings decode (lines file)))
      × (r.effort ≡ last_text (λ s. s.effort) (settings decode (lines file)))
unfolding load_runtime scan_lines
load_runtime-last decode file =
    let (r, done, c) = carried decode no_runtime 0 (lines file) in
    (r, done, c.model ∙ text_or-empty _, c.wire ∙ text_or-empty _, c.effort ∙ text_or-empty _)
