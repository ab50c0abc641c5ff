-- ===== src/Tests/Session.antt =====
-- Two hosts that share a session file.
use mow.Prelude.{Any, false, ◌≡◌, refl, true, [], ◌∷◌, inl, inr, codes, str_eq, has_prefix, ok}
use mow.Agent.Messages.{ToolCall, Message, plain}
use mow.Session.Store.{sound, torn, validate_id, resolved_path, resolve_valid}
use mow.Session.Repair.{assistant_role, repair_tool_calls, load_messages}
use mow.Session.Replay.{is_headed}
use mow.Session.Writers.{Save, Attempt, Hosts, new_hosts, save, save_all, latest, attempts}
use mow.Session.Shared.{save_all-load}
use mow.Session.Crashes.{attempts-load}
use mow.Session.Paired.{IsPaired, repair_tool_calls-IsPaired}
use mow.Tests.Codec.{rules, greeting, library}
use mow.Tests.Codec.Laws.{library-IsCodec}

abbrev opening : Save
opening = record { host = 1; now = 7; locked = true; messages = rules ∷ [] }

abbrev growth : Save
growth = record { host = 1; now = 8; locked = true; messages = rules ∷ greeting ∷ [] }

abbrev rewrite : Save
rewrite = record { host = 2; now = 9; locked = true; messages = rules ∷ rules ∷ [] }

save_all-load_example :
    (w : Hosts) × (save_all library
        (opening ∷ growth ∷ rewrite ∷ [])
        (new_hosts (codes "/home/me") (codes "s1") 3)
      ≡ ok w)
    × (load_messages library w.log.bytes
        ≡ ok (repair_tool_calls (latest [] (opening ∷ growth ∷ rewrite ∷ []))))
unfolding resolved_path resolve_valid validate_id is_headed str_eq has_prefix
save_all-load_example =
    save_all-load library-IsCodec (codes "/home/me") (codes "s1") 3 (codes "/home/me/s1.jsonl")
      opening (growth ∷ rewrite ∷ []) refl
      (
        (refl, (inl refl, _)),
        ((refl, (inl refl, (inr refl, _))), ((refl, (inl refl, (inl refl, _))), _)),
      )

-- A call that was cut off.
abbrev call : ToolCall
call = record { id = codes " 1"; name = codes "read"; arguments = []; thought_signature = [] }

abbrev caller : Message
caller = record (plain assistant_role false []) { tool_calls = call ∷ call ∷ [] }

repair_tool_calls-IsPaired_example : IsPaired (repair_tool_calls (rules ∷ caller ∷ greeting ∷ []))
repair_tool_calls-IsPaired_example = repair_tool_calls-IsPaired (rules ∷ caller ∷ greeting ∷ [])

-- The first write is torn before the end of its record, the second succeeds.
abbrev torn_save : Attempt
torn_save = record { save = growth; fault = torn 5 (codes "disk full") }

abbrev sound_save : Attempt
sound_save = record { save = rewrite; fault = sound }

attempts-load_example :
    (w : Hosts) × (save library opening (new_hosts (codes "/home/me") (codes "s1") 3) ≡ ok w)
    × Any
        (λ ms.
          load_messages library
            (attempts library
              (torn_save ∷ sound_save ∷ torn_save ∷ [])
              w
              ((rules ∷ []) ∷ [])).0.log.bytes
          ≡ ok (repair_tool_calls ms))
        (attempts library (torn_save ∷ sound_save ∷ torn_save ∷ []) w ((rules ∷ []) ∷ [])).1
unfolding resolved_path resolve_valid validate_id is_headed str_eq has_prefix
attempts-load_example =
    attempts-load library-IsCodec (codes "/home/me") (codes "s1") 3 (codes "/home/me/s1.jsonl")
      opening (torn_save ∷ sound_save ∷ torn_save ∷ []) refl (refl, (inl refl, _))
      (
        (refl, (inl refl, (inr refl, _))),
        ((refl, (inl refl, (inl refl, _))), ((refl, (inl refl, (inr refl, _))), _)),
      )
