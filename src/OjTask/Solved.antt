-- ===== src/OjTask/Solved.antt =====
-- ojTaskDispatcher.go, resolveOJTaskItemResult: which items count as solved.
use personal_assistant.Base.{
  ℕ, nat_eq, ◌≡◌, ◌↔◌, refl, sym, ap, subst, ◌∙◌, Bool, true, false, not, ◌||◌, Option, none, some,
  if◌then◌else◌, String, ◌==◌, string_key, nat_key,
}
use personal_assistant.Base.Maps.{get}
use personal_assistant.OjTask.Snapshot.{
  ItemResult, completed, pending, PendingReason, no_reason, unsolved, question_not_found, TaskItem,
  Facts, AllFacts, holds, judged_by, judged, resolve_oj_task_item_result,
}

-- What is known of the judge that has this name.
abbrev pub facts_of : String → AllFacts → Option Facts
facts_of platform facts =
    if platform == "luogu"
    then some facts.luogu
    else if platform == "leetcode"
    then some facts.leetcode
    else if platform == "lanqiao"
    then some facts.lanqiao
    else none

-- The item is resolved to a question, and the user's account at its judge has solved it.
abbrev pub IsSolved : ℕ → TaskItem → AllFacts → Type 0
IsSolved user item facts =
    (not (item.resolution_status == "resolved") || nat_eq item.resolved_question_id 0 ≡ false)
    × (f : Facts) × (facts_of item.platform facts ≡ some f)
    × (detail : ℕ) × (get user f.details ≡ some detail)
    × (holds item.resolved_question_id (get detail f.solved) ≡ true)

abbrev result_from : ℕ → ℕ → Option Facts → ItemResult × PendingReason
result_from user question none = (pending, unsolved)
result_from user question (some f) = judged user question f

by_facts :
    (user : ℕ) (item : TaskItem) (facts : AllFacts)
    → resolve_oj_task_item_result user (some item) facts ≡ (
        if not (item.resolution_status == "resolved") || nat_eq item.resolved_question_id 0
        then (pending, question_not_found)
        else result_from user item.resolved_question_id (facts_of item.platform facts))
unfolding resolve_oj_task_item_result
by_facts user item facts =
    ap
      (λ result.
        if not (item.resolution_status == "resolved") || nat_eq item.resolved_question_id 0
        then (pending, question_not_found)
        else result)
      (pushed (item.platform == "luogu") (item.platform == "leetcode") (item.platform == "lanqiao"))
  where
    pushed :
        (a b d : Bool)
        → (if a
            then judged user item.resolved_question_id facts.luogu
            else if b
            then judged user item.resolved_question_id facts.leetcode
            else if d
            then judged user item.resolved_question_id facts.lanqiao
            else (pending, unsolved))
          ≡ result_from user item.resolved_question_id (
              if a
              then some facts.luogu
              else if b
              then some facts.leetcode
              else if d
              then some facts.lanqiao
              else none)
    pushed true b d = refl
    pushed false true d = refl
    pushed false false true = refl
    pushed false false false = refl

completed_is :
    (b : Bool) (result : ItemResult)
    → (if b then pending else result) ≡ completed
    → (b ≡ false) × (result ≡ completed)
completed_is true result q = absurd (cc)
completed_is false result q = (refl, q)

pending_not : pending ≡ completed → ⊥
pending_not q = cc

abbrev verdict : Bool → ItemResult × PendingReason
verdict b = if b then (completed, no_reason) else (pending, unsolved)

solved_question :
    (question : ℕ) (f : Facts) (found : Option ℕ)
    → (judged_by question f found).0 ≡ completed
    → (detail : ℕ) × (found ≡ some detail) × (holds question (get detail f.solved) ≡ true)
solved_question question f none q = absurd (pending_not q)
solved_question question f (some detail) q =
    (detail, refl, of_test (holds question (get detail f.solved)) q)
  where
    of_test : (b : Bool) → (verdict b).0 ≡ completed → b ≡ true
    of_test true q = refl
    of_test false q = absurd (pending_not q)

from_account :
    (user question : ℕ) (known : Option Facts)
    → (result_from user question known).0 ≡ completed
    → (f : Facts) × (known ≡ some f)
      × (detail : ℕ) × (get user f.details ≡ some detail)
      × (holds question (get detail f.solved) ≡ true)
from_account user question none q = absurd (pending_not q)
from_account user question (some f) q =
    let (detail, account, solved) = solved_question question f (get user f.details) q in
    (f, refl, detail, account, solved)

to_account :
    (user question : ℕ) (f : Facts) (found : Option ℕ) (detail : ℕ)
    → found ≡ some detail
    → holds question (get detail f.solved) ≡ true
    → (judged_by question f found).0 ≡ completed
to_account user question f found detail q h =
    subst (λ o. (judged_by question f o).0 ≡ completed) (sym q) (ap (λ b. (verdict b).0) h)

-- An item of a task counts as completed by a user if and only if it is resolved to a question,
-- the user has an account at the item's judge, which is one of the three that are known, and
-- that account has solved the question.
pub completed_exact :
    (user : ℕ) (item : TaskItem) (facts : AllFacts)
    → ((resolve_oj_task_item_result user (some item) facts).0 ≡ completed)
      ↔ IsSolved user item facts
completed_exact user item facts = (forward, backward)
  where
    blocked : Bool
    blocked = not (item.resolution_status == "resolved") || nat_eq item.resolved_question_id 0

    result : ItemResult × PendingReason
    result = result_from user item.resolved_question_id (facts_of item.platform facts)

    of_if :
        (b : Bool)
        → (if b then (pending, question_not_found) else result).0
          ≡ (if b then pending else result.0)
    of_if true = refl
    of_if false = refl

    shape :
        (resolve_oj_task_item_result user (some item) facts).0
        ≡ (if blocked then pending else result.0)
    shape = ap (λ r. r.0) (by_facts user item facts) ∙ of_if blocked

    forward :
        (resolve_oj_task_item_result user (some item) facts).0 ≡ completed
        → IsSolved user item facts
    forward q =
        let (resolved, done) = completed_is blocked result.0 (sym shape ∙ q) in
        let (f, known, detail, account, solved) =
          from_account user item.resolved_question_id (facts_of item.platform facts) done in
        (resolved, f, known, detail, account, solved)

    backward :
        IsSolved user item facts
        → (resolve_oj_task_item_result user (some item) facts).0 ≡ completed
    backward (resolved, f, known, detail, account, solved) =
        shape
        ∙ (ap (λ b. if b then pending else result.0) resolved
            ∙ (ap (λ o. (result_from user item.resolved_question_id o).0) known
                ∙ to_account user item.resolved_question_id f (get user f.details) detail account
                    solved))
