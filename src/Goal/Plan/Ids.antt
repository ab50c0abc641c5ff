-- ===== src/Goal/Plan/Ids.antt =====
-- What the operations of a checklist keep: its ids.
use mathlib.Core.Path.{subst}
use mow.Prelude.{
  ℕ, ◌+◌, ◌≤◌, ◌≡◌, ◌≢◌, refl, ap, Bool, false, List, [], ◌∷◌, ◌++◌, some, arith, All, any, length,
  length-take, take, Str, str_eq, str_eq→eq, trim_space, is_empty, ok, Result-cases, Option-cases,
  Bool-cases, inl, inr,
}
use mow.Goal.Plan.{
  PlanItemStatus, unset, PlanItem, RawItem, Plan, set_first, set_item, update, slug_item_id,
  item_id, normal_items, replace_items, parse_status, or_text, max_plan_items,
}

-- No item of the list, and none of the ids seen, has that id twice.
abbrev pub Fresh : List Str → Plan → Type 0
Fresh seen [] = Unit
Fresh seen (it ∷ p) = (any (str_eq it.id) seen ≡ false) × Fresh (it.id ∷ seen) p

-- What `ReplaceItems` normalizes.
pub record IsNormal (it : PlanItem) : Type 0 where
  pub has_id : is_empty it.id ≡ false
  pub has_title : is_empty it.title ≡ false
  pub has_status : it.status ≢ unset

pub record IsChecklist (p : Plan) : Type 0 where
  pub few : length p ≤ max_plan_items
  pub distinct : Fresh [] p
  pub normal : All IsNormal p

-- The item that `SetItem` changes, between those that it keeps.
pub record IsUpdate (id : Str) (st : PlanItemStatus) (note : Str) (p p' : Plan) : Type 0 where
  pub before : Plan
  pub item : PlanItem
  pub after : Plan
  pub was : p ≡ before ++ item ∷ after
  pub is_now : p' ≡ before ++ update st note item ∷ after
  pub found : item.id ≡ id
  pub first : All (λ it. str_eq (PlanItem.id it) id ≡ false) before

or_text-some : (new old : Str) → is_empty old ≡ false → is_empty (or_text new old) ≡ false
or_text-some new old h = ground arith

module _ (is_word : ℕ → Bool) where
  slug_item_id-some : (title : Str) (i : ℕ) → is_empty (slug_item_id is_word title i) ≡ false
  unfolding slug_item_id
  slug_item_id-some title i = ground arith

  item_id-some : (it : RawItem) (i : ℕ) → is_empty (item_id is_word it i) ≡ false
  item_id-some it i = ground (arith, slug_item_id-some (trim_space it.title) i)

  record Normalized (seen : List Str) (items : List RawItem) (p : Plan) : Type 0 where
    same : length p ≡ length items
    fresh : Fresh seen p
    each : All IsNormal p

  normal_items-Normalized :
      (items : List RawItem) (i : ℕ) (seen : List Str) {p : Plan}
      → normal_items is_word items i seen ≡ ok p
      → Normalized seen items p
  unfolding normal_items
  normal_items-Normalized [] i seen h = ground arith
  normal_items-Normalized (it ∷ items) i seen h =
      elim (Result-cases (normal_items is_word items (i + 1) (item_id is_word it i ∷ seen))) [
        | inl (e, q) ↦ ground arith
        | inr (p', q) ↦
            let ih = normal_items-Normalized items (i + 1) (item_id is_word it i ∷ seen) q in
            ground
              (arith, item_id-some it i, or_text-some (trim_space it.title) (item_id is_word it i))
      ]

  -- A checklist that `ReplaceItems` accepts has at most 64 items, whose ids are distinct, and each
  -- item has an id, a title and a status.
  pub replace_items-IsChecklist :
      (items : List RawItem) (p : Plan) → replace_items is_word items ≡ ok p → IsChecklist p
  unfolding replace_items
  replace_items-IsChecklist items p h =
      let n = normal_items-Normalized (take max_plan_items items) 0 [] h in
      record {
        few = omega (arith, n.same, length-take max_plan_items items);
        distinct = n.fresh;
        normal = n.each;
      }

keep-IsUpdate :
    {id : Str} {st : PlanItemStatus} {note : Str} {p q : Plan} (it : PlanItem)
    → str_eq it.id id ≡ false
    → IsUpdate id st note p q
    → IsUpdate id st note (it ∷ p) (it ∷ q)
keep-IsUpdate it h u = record {
  before = it ∷ u.before;
  item = u.item;
  after = u.after;
  was = ap (λ xs. it ∷ xs) u.was;
  is_now = ap (λ xs. it ∷ xs) u.is_now;
  found = u.found;
  first = (h, u.first);
}

set_first-IsUpdate :
    (id : Str) (st : PlanItemStatus) (note : Str) (p : Plan) {p' : Plan}
    → set_first id st note p ≡ some p'
    → IsUpdate id st note p p'
unfolding set_first
set_first-IsUpdate id st note [] h = ground arith
set_first-IsUpdate id st note (it ∷ p) {p'} h = elim (Bool-cases (str_eq it.id id)) [
  | inl e ↦ record {
    before = [];
    item = it;
    after = p;
    was = refl;
    is_now = ground arith;
    found = str_eq→eq it.id id e;
    first = tt;
  }
  | inr e ↦ elim (Option-cases (set_first id st note p)) [
    | inl q ↦ ground arith
    | inr (p'', q) ↦
        let shape : it ∷ p'' ≡ p' = ground arith in
        subst (IsUpdate id st note (it ∷ p)) shape
          (keep-IsUpdate it e (set_first-IsUpdate id st note p q))
  ]
]

-- `SetItem` that succeeds changes one item, the first one with the trimmed id, to the status and
-- the note given (an empty one leaves what was there), and keeps every other item in its place.
pub set_item-IsUpdate :
    (raw_id status note : Str) (p p' : Plan)
    → set_item raw_id status note p ≡ ok p'
    → (st : PlanItemStatus) × (parse_status status ≡ some st)
      × IsUpdate (trim_space raw_id) st note p p'
unfolding set_item
set_item-IsUpdate raw_id status note p p' h = elim (Option-cases (parse_status status)) [
  | inl q ↦ ground arith
  | inr (st, q) ↦
      let found : set_first (trim_space raw_id) st note p ≡ some p' = ground arith in
      (st, q, set_first-IsUpdate (trim_space raw_id) st note p found)
]
