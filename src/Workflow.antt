-- ===== src/Workflow.antt =====
-- ext/workflow/workflow.go: definitions of phases, and the state of a run.
pub mod Run
pub mod Stored
pub mod Ends
pub mod Resume
use mow.Prelude.{
  ℕ, ◌*◌, Bool, true, false, not, ◌&&◌, ◌||◌, List, [], ◌∷◌, leb, ◌==◌, if◌then◌else◌, all, any,
  length, Str, str_eq, trim_space, is_empty,
}

pub data Status : Type 0 where
  pending running succeeded failed blocked : Status

pub data PhaseStatus : Type 0 where
  phase_pending phase_running phase_succeeded phase_failed phase_blocked : PhaseStatus

-- `SideEffect`; `unset` is the empty string.
pub data SideEffect : Type 0 where
  unset read_only workspace : SideEffect

pub record PromptSpec : Type 0 where
  pub prompt : Str
  pub is_read_only : Bool
  pub allowed_tools : List Str
  pub max_turns : ℕ

-- What a phase does, by its kind. `other` is a kind that is neither, or a phase that carries a
-- prompt and a verifier, or none, against its kind.
pub data PhaseKind : Type 0 where
  prompt_phase : PromptSpec → PhaseKind
  verify_phase other : PhaseKind

pub record Phase : Type 0 where
  pub id : Str
  pub kind : PhaseKind
  pub max_bytes : ℕ
  pub effect : SideEffect

pub record Definition : Type 0 where
  pub name : Str
  pub version : Str
  pub phases : List Phase
  pub max_bytes : ℕ

abbrev pub max_phases : ℕ
max_phases = 64

abbrev pub max_id_bytes : ℕ
max_id_bytes = 128

abbrev pub max_prompt_turns : ℕ
max_prompt_turns = 64

abbrev pub default_max_json_bytes : ℕ
default_max_json_bytes = 64 * 1024

abbrev is_id_char : ℕ → Bool
is_id_char r =
    leb 97 r && leb r 122
    || leb 65 r && leb r 90
    || leb 48 r && leb r 57
    || r == 95
    || r == 45
    || r == 46

-- `validateID`: true where it returns nil.
unfoldable pub validate_id : Str → Bool
validate_id s = not (is_empty s) && leb (length s) max_id_bytes && all is_id_char s

abbrev pub or_max : ℕ → ℕ → ℕ
or_max n default = if n == 0 then default else n

abbrev pub kind_ok : PhaseKind → SideEffect → Bool
kind_ok (prompt_phase s) effect =
    not (is_empty (trim_space s.prompt))
    && leb s.max_turns max_prompt_turns
    && all (λ tool. not (is_empty (trim_space tool))) s.allowed_tools
    && elim effect [ workspace ↦ true | _ ↦ s.is_read_only ]
kind_ok verify_phase effect = elim effect [ workspace ↦ false | _ ↦ true ]
kind_ok other effect = false

-- The loop of `validateDefinition`, with the ids seen.
unfoldable pub phases_ok : ℕ → List Phase → List Str → Bool
unfolding validate_id
phases_ok max [] seen = true
phases_ok max (p ∷ ps) seen =
    validate_id p.id
    && not (any (str_eq p.id) seen)
    && leb p.max_bytes max
    && kind_ok p.kind p.effect
    && phases_ok max ps (p.id ∷ seen)

-- `validateDefinition`: true where it returns nil.
unfoldable pub validate_definition : Definition → Bool
unfolding validate_id phases_ok
validate_definition d =
    let max = or_max d.max_bytes default_max_json_bytes in
    validate_id d.name
    && validate_id d.version
    && leb 1 (length d.phases)
    && leb (length d.phases) max_phases
    && leb max (1024 * 1024)
    && phases_ok max d.phases []
