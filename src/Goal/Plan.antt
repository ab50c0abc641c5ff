-- ===== src/Goal/Plan.antt =====
-- ext/goal/plan.go: the checklist of a goal. `unicode.IsLetter(r) || unicode.IsDigit(r)` is the
-- parameter `is_word`.
pub mod Ids
use mow.Prelude.{
  decimal, ◌>>=◌, ℕ, ◌+◌, Bool, true, false, not, ◌&&◌, ◌||◌, List, [], ◌∷◌, ◌++◌, Option, none,
  some, ltb, leb, ◌==◌, if◌then◌else◌, all, any, take, Str, codes, str_eq, trim_space, to_lower,
  is_empty, Result, ok, err,
}

-- `PlanItemStatus`; `unset` is the empty string.
pub data PlanItemStatus : Type 0 where
  unset pending done failed skipped : PlanItemStatus

pub record PlanItem : Type 0 where
  pub id : Str
  pub title : Str
  pub status : PlanItemStatus
  pub note : Str
  pub worker : Str

-- A `PlanItem` as the model reports it, its status not read yet.
pub record RawItem : Type 0 where
  pub id : Str
  pub title : Str
  pub status : Str
  pub note : Str
  pub worker : Str

pub data PlanError : Type 0 where
  empty_item_id : PlanError
  bad_item_status unknown_plan_item duplicate_plan_item : Str → PlanError

abbrev pub max_plan_items : ℕ
max_plan_items = 64

-- `Plan`.
abbrev pub Plan : Type 0
Plan = List PlanItem

-- `HasItems`.
abbrev pub has_items : Plan → Bool
has_items [] = false
has_items (it ∷ p) = true

abbrev pub is_settled : PlanItemStatus → Bool
is_settled done = true
is_settled skipped = true
is_settled _ = false

-- `AllDone`.
unfoldable pub all_done : Plan → Bool
all_done p = all (λ it. is_settled (PlanItem.status it)) p

abbrev pub is_pending : PlanItemStatus → Bool
is_pending pending = true
is_pending unset = true
is_pending _ = false

-- `NextPending`.
unfoldable pub next_pending : Plan → Option PlanItem
next_pending [] = none
next_pending (it ∷ p) = let rest = next_pending p in if is_pending it.status then some it else rest

-- `PlanItemStatus(strings.ToLower(strings.TrimSpace(status)))`, none where it is no status.
unfoldable pub parse_status : Str → Option PlanItemStatus
parse_status raw =
    let st = to_lower (trim_space raw) in
    if is_empty st
    then some unset
    else if str_eq st (codes "pending")
    then some pending
    else if str_eq st (codes "done")
    then some done
    else if str_eq st (codes "failed")
    then some failed
    else if str_eq st (codes "skipped")
    then some skipped
    else none

abbrev pub or_status : PlanItemStatus → PlanItemStatus → PlanItemStatus
or_status unset old = old
or_status st old = st

abbrev pub or_text : Str → Str → Str
or_text new old = if is_empty new then old else new

abbrev pub update : PlanItemStatus → Str → PlanItem → PlanItem
update st note it = record it {
  status = or_status st it.status;
  note = or_text (trim_space note) it.note;
}

-- The loop of `SetItem`: none where no item has the id.
unfoldable pub set_first : Str → PlanItemStatus → Str → Plan → Option Plan
set_first id st note [] = none
set_first id st note (it ∷ p) =
    let rest = set_first id st note p in
    if str_eq it.id id
    then some (update st note it ∷ p)
    else elim rest [ none ↦ none | some p' ↦ some (it ∷ p') ]

abbrev or_unknown : Str → Option Plan → Result PlanError Plan
or_unknown id none = err (unknown_plan_item id)
or_unknown id (some p) = ok p

abbrev set_parsed : Str → Str → Str → Plan → Option PlanItemStatus → Result PlanError Plan
set_parsed id status note p none = err (bad_item_status status)
set_parsed id status note p (some st) = or_unknown id (set_first id st note p)

-- `SetItem`.
unfoldable pub set_item : Str → Str → Str → Plan → Result PlanError Plan
unfolding set_first parse_status
set_item raw_id status note p =
    let id = trim_space raw_id in
    if is_empty id then err empty_item_id else set_parsed id status note p (parse_status status)

-- The bytes of a code point in UTF-8.
abbrev utf8_len : ℕ → ℕ
utf8_len c = if ltb c 0x80 then 1 else if ltb c 0x800 then 2 else if ltb c 0x10000 then 3 else 4

abbrev ends_in_dash : Str → Bool
ends_in_dash [] = true
ends_in_dash (c ∷ s) = c == 45

abbrev drop_dash : Str → Str
drop_dash [] = []
drop_dash (c ∷ s) = if c == 45 then s else c ∷ s

module _ (is_word : ℕ → Bool) where
  -- The loop of `slugItemID`; the slug is built last-first, and `bytes` is `b.Len()`.
  unfoldable pub slug_loop : Str → ℕ → Str → Str
  slug_loop [] bytes b = b
  slug_loop (r ∷ rs) bytes b =
      let wrote = is_word r in
      let dash = not wrote && (r == 32 || r == 45 || r == 95) && not (ends_in_dash b) in
      let b' = if wrote then r ∷ b else if dash then 45 ∷ b else b in
      let bytes' = if wrote then bytes + utf8_len r else if dash then bytes + 1 else bytes in
      let rest = slug_loop rs bytes' b' in if leb 24 bytes' then b' else rest

  abbrev reversed : Str → Str → Str
  reversed [] s = s
  reversed (c ∷ b) s = reversed b (c ∷ s)

  -- `slugItemID`. The slug starts with no dash and has no two in a row: `Trim` drops one at most.
  unfoldable pub slug_item_id : Str → ℕ → Str
  unfolding slug_loop
  slug_item_id title i =
      let s = reversed (drop_dash (slug_loop (to_lower title) 0 [])) [] in
      if is_empty s then codes "item-" ++ decimal (i + 1) else s

  abbrev or_pending : PlanItemStatus → PlanItemStatus
  or_pending unset = pending
  or_pending st = st

  abbrev pub item_id : RawItem → ℕ → Str
  item_id it i =
      if is_empty (trim_space it.id) then slug_item_id (trim_space it.title) i else trim_space it.id

  abbrev normal_item : RawItem → Str → Option PlanItemStatus → Result PlanError PlanItem
  normal_item it id none = err (bad_item_status it.status)
  normal_item it id (some st) = ok (record {
    id = id;
    title = or_text (trim_space it.title) id;
    status = or_pending st;
    note = trim_space it.note;
    worker = trim_space it.worker;
  })

  -- The loop of `ReplaceItems`; `seen` and `out` are one list of ids, and of items, in reverse.
  unfoldable pub normal_items : List RawItem → ℕ → List Str → Result PlanError (List PlanItem)
  unfolding slug_item_id parse_status
  normal_items [] i seen = ok []
  normal_items (it ∷ its) i seen =
      let id = item_id it i in
      let rest = normal_items its (i + 1) (id ∷ seen) in
      if any (str_eq id) seen
      then err (duplicate_plan_item id)
      else do out ← normal_item it id (parse_status it.status); outs ← rest; ok (out ∷ outs)

  -- `ReplaceItems`.
  unfoldable pub replace_items : List RawItem → Result PlanError Plan
  unfolding normal_items
  replace_items items = normal_items (take max_plan_items items) 0 []
