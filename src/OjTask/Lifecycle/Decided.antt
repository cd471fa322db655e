-- ===== src/OjTask/Lifecycle/Decided.antt =====
-- ojTask_preflight.go: what the check before an attempt makes of one item.
use personal_assistant.Base.{
  nat_eq, nat_eq_iff, ltb, ◌≡◌, ◌⊎◌, inl, inr, refl, sym, subst, Bool, true, false, ◌&&◌, ◌||◌,
  List, [], ◌∷◌, Option, ◌==◌, nat_key, Bool-cases, if◌then◌else◌, arith,
}
use personal_assistant.Base.Text.{Text, lit, is_nil, text_eq, text_eq_iff, text_key}
use personal_assistant.Base.Result.{Result, ok, Yields}
use personal_assistant.OjTask.Types.{Error}
use personal_assistant.OjTask.Lifecycle.Draft.{DraftItem}
use personal_assistant.OjTask.Lifecycle.Materialize.{Candidate}
use personal_assistant.OjTask.Lifecycle.Store.{ItemRow, IntakeRow}
use personal_assistant.OjTask.Lifecycle.Preflight.{
  Checked, is_resolved, waits_for_question, invalid_row, apply_resolved_candidate, is_changed,
  by_found, stored_row,
}

-- The item is stored under no id, which the check passes over, or it waits no more.
abbrev pub IsSettled : ItemRow → Type 0
IsSettled row = (row.id ≡ 0) ⊎ (waits_for_question row.item ≡ false)

abbrev IsInvalid : ItemRow → Type 0
IsInvalid row = row.item.resolution_status ≡ lit "invalid"

abbrev IsResolvedTo : Candidate → ItemRow → Type 0
IsResolvedTo candidate row =
    (row.item.resolution_status ≡ lit "resolved")
    × (row.item.resolved_question_id ≡ candidate.question_id)
    × (row.item.resolved_question_code ≡ candidate.question_code)
    × (row.item.resolved_title_snapshot ≡ candidate.title)

-- One question is what the item is resolved to; none or several make it invalid.
abbrev AnswersWith : List Candidate → ItemRow → Type 0
AnswersWith [] row = IsInvalid row
AnswersWith (candidate ∷ []) row = IsResolvedTo candidate row
AnswersWith (candidate ∷ other ∷ others) row = IsInvalid row

-- The item did not wait, or has no id, and is as it was; or it has no title and is invalid; or it
-- waited, and is what the question banks answer for its platform and title.
abbrev IsDecided : (Text → Text → Result Error (List Candidate)) → ItemRow → ItemRow → Type 0
IsDecided by_title old new =
    (((old.id ≡ 0) ⊎ (waits_for_question old.item ≡ false)) × (new ≡ old))
    ⊎ ((is_nil old.item.input_title ≡ true) × IsInvalid new)
    ⊎ ((waits_for_question old.item ≡ true)
        × ((found : List Candidate) × (by_title old.item.platform old.item.input_title ≡ ok found)
            × AnswersWith found new))

-- Nothing but the answer is another: the question, the status and the note.
abbrev IsSameBut : ItemRow → ItemRow → Type 0
IsSameBut old new = new ≡ record old {
  item = record old.item {
    resolved_question_id = new.item.resolved_question_id;
    resolved_question_code = new.item.resolved_question_code;
    resolved_title_snapshot = new.item.resolved_title_snapshot;
    resolution_status = new.item.resolution_status;
    resolution_note = new.item.resolution_note;
  };
}

-- The rows of the same items, those that are resolved as they were, each decided.
abbrev pub AreDecided :
    (Text → Text → Result Error (List Candidate)) → List ItemRow → List ItemRow → Type 0
AreDecided by_title [] [] = Unit
AreDecided by_title [] (new ∷ news) = ⊥
AreDecided by_title (old ∷ olds) [] = ⊥
AreDecided by_title (old ∷ olds) (new ∷ news) =
    (IsSameBut old new
      × ((is_resolved old.item ≡ false) ⊎ (new ≡ old))
      × IsDecided by_title old new)
    × AreDecided by_title olds news

abbrev pub is_passed : ItemRow → Bool
is_passed row = nat_eq row.id 0 || is_resolved row.item

abbrev pub missing_note : Text
missing_note = lit "preflight_input_title_missing"

-- A row that another check leaves as it is.
pub record IsFinal (row : ItemRow) : Type 0 where
  pub titled :
      is_passed row ≡ false
      → is_nil row.item.input_title ≡ true
      → invalid_row missing_note row ≡ row
  pub decided : is_passed row ≡ false → waits_for_question row.item ≡ false

pub passed-IsFinal : (row : ItemRow) → is_passed row ≡ true → IsFinal row
passed-IsFinal row passed = record {
  titled = λ q. absurd (cc (passed, q));
  decided = λ q. absurd (cc (passed, q));
}

invalid_not_pending :
    (note : Text) (row : ItemRow) → waits_for_question (invalid_row note row).item ≡ false
unfolding text_eq
invalid_not_pending note row = refl

pub missing-IsFinal : (row : ItemRow) → IsFinal (invalid_row missing_note row)
missing-IsFinal row = record {
  titled = λ q n. refl;
  decided = λ q. invalid_not_pending missing_note row;
}

resolved_not_pending :
    (status : Text)
    → text_eq status (lit "resolved") ≡ true
    → text_eq status (lit "pending_resolution") ≡ false
unfolding text_eq
resolved_not_pending status q =
    subst (λ s. text_eq s (lit "pending_resolution") ≡ false)
      (sym ((text_eq_iff status (lit "resolved")).0 q)) refl

left_true : (a b : Bool) → (a && b) ≡ true → a ≡ true
left_true a b q = ground arith

pub passed_waits_not :
    (row : ItemRow) → is_passed row ≡ true → (row.id ≡ 0) ⊎ (waits_for_question row.item ≡ false)
passed_waits_not row passed = elim (Bool-cases (nat_eq row.id 0)) [
  | inl zero_id ↦ inl ((nat_eq_iff row.id 0).0 zero_id)
  | inr other ↦ inr (
      resolved_not_pending row.item.resolution_status (
        left_true (row.item.resolution_status == lit "resolved")
          (ltb 0 row.item.resolved_question_id) (ground (arith, passed, other))))
]

-- What is matched with a question was waiting, so that the item is changed.
waits-is_changed :
    (candidate : Candidate) (note : Text) (item : DraftItem)
    → waits_for_question item ≡ true
    → is_changed candidate note item ≡ true
waits-is_changed candidate note item waits = ground (arith, other)
  where
    other : (item.resolution_status == lit "resolved") ≡ false
    other = elim (Bool-cases (item.resolution_status == lit "resolved")) [
      | inl q ↦ absurd (cc (resolved_not_pending item.resolution_status q, waits))
      | inr q ↦ q
    ]

module _ (by_title : Text → Text → Result Error (List Candidate)) where
  abbrev pub IsLeft : ItemRow → ItemRow → Type 0
  IsLeft row new =
      IsFinal new
      × IsSameBut row new
      × ((is_resolved row.item ≡ false) ⊎ (new ≡ row))
      × IsDecided by_title row new

  abbrev pub Leaves : ItemRow → Result Error Checked → Type 0
  Leaves row result = Yields result (λ checked. IsLeft row (stored_row row checked))

  matched-IsLeft :
      (row : ItemRow) (candidate : Candidate)
      → is_resolved row.item ≡ false
      → is_nil row.item.input_title ≡ false
      → waits_for_question row.item ≡ true
      → by_title row.item.platform row.item.input_title ≡ ok (candidate ∷ [])
      → IsLeft row (apply_resolved_candidate candidate (lit "preflight_auto_resolved") row)
  unfolding text_eq
  matched-IsLeft row candidate open_row titled waits found = (
    record { titled = λ q n. absurd (cc (titled, n)); decided = λ q. refl },
    refl,
    inl open_row,
    inr (inr (waits, (candidate ∷ [], found, (refl, refl, refl, refl)))),
  )

  unmatched-IsLeft :
      (row : ItemRow) (found : List Candidate)
      → is_resolved row.item ≡ false
      → is_nil row.item.input_title ≡ false
      → waits_for_question row.item ≡ true
      → by_title row.item.platform row.item.input_title ≡ ok found
      → AnswersWith found (invalid_row (lit "preflight_resolution_failed") row)
      → IsLeft row (invalid_row (lit "preflight_resolution_failed") row)
  unfolding text_eq
  unmatched-IsLeft row found open_row titled waits answered answers = (
    record { titled = λ q n. absurd (cc (titled, n)); decided = λ q. refl },
    refl,
    inl open_row,
    inr (inr (waits, (found, answered, answers))),
  )

  pub by_found-Leaves :
      (row : ItemRow) (intake : Option IntakeRow) (found : List Candidate)
      → is_resolved row.item ≡ false
      → is_nil row.item.input_title ≡ false
      → waits_for_question row.item ≡ true
      → by_title row.item.platform row.item.input_title ≡ ok found
      → Leaves row (ok (by_found row intake found))
  by_found-Leaves row intake [] open_row titled waits answered =
      unmatched-IsLeft row [] open_row titled waits answered refl
  by_found-Leaves row intake (candidate ∷ []) open_row titled waits answered =
      subst
        (λ b. IsLeft row (
          if b
          then apply_resolved_candidate candidate (lit "preflight_auto_resolved") row
          else row))
        (sym (waits-is_changed candidate (lit "preflight_auto_resolved") row.item waits))
        (matched-IsLeft row candidate open_row titled waits answered)
  by_found-Leaves row intake (candidate ∷ other ∷ others) open_row titled waits answered =
      unmatched-IsLeft row (candidate ∷ other ∷ others) open_row titled waits answered refl

pub right_false : (a b : Bool) → (a || b) ≡ false → b ≡ false
right_false a b q = ground arith
