-- ===== src/Outbox/Retries.antt =====
-- MarkAsFailed of internal/repository/system/outboxRepo.go: how often an event is tried.
use personal_assistant.Base.{
  ℕ, zero, suc, ltb, leb, ◌≡◌, refl, ap, ◌∙◌, Bool, false, not, ◌&&◌, String, arith, if◌then◌else◌,
}
use personal_assistant.Outbox.Table.{
  Row, pending, failed, is_pending, is_candidate, Assignment, at_once, left_to_right, count_read,
  failed_row,
}

-- The row after a number of failures.
abbrev pub after_failures : Assignment → ℕ → ℕ → String → ℕ → Row → Row
after_failures assignment max now message zero row = row
after_failures assignment max now message (suc n) row =
    failed_row assignment max now message (after_failures assignment max now message n row)

module _ (assignment : Assignment) (max now : ℕ) (message : String) (row : Row) where
  count-after :
      row.retry_count ≡ 0
      → (n : ℕ) → (after_failures assignment max now message n row).retry_count ≡ n
  unfolding failed_row
  count-after q zero = q
  count-after q (suc n) = ap suc (count-after q n)

  deleted-after : (n : ℕ) → (after_failures assignment max now message n row).deleted ≡ row.deleted
  unfolding failed_row
  deleted-after zero = refl
  deleted-after (suc n) = deleted-after n

verdict :
    (assignment : Assignment) (max n : ℕ)
    → (is_pending (if leb max (suc (count_read assignment n)) then failed else pending)
        && ltb (suc n) max)
      ≡ ltb (count_read assignment (suc n)) max
verdict at_once max n = ground arith
verdict left_to_right max n = ground arith

-- After one or more failures, a row that started with no retries and is not deleted is picked
-- up again if and only if the retry count that the CASE of the update reads for the next
-- failure is below the limit: the number of failures where a database assigns all columns at
-- once, and one more where it assigns them from left to right with the count first.
pub retry_budget :
    (assignment : Assignment) (max now : ℕ) (message : String) (row : Row)
    → row.retry_count ≡ 0
    → row.deleted ≡ false
    → (n : ℕ)
    → is_candidate max (after_failures assignment max now message (suc n) row)
      ≡ ltb (count_read assignment (suc n)) max
unfolding failed_row
retry_budget assignment max now message row q d n =
    ap (λ b. outcome b (after_failures assignment max now message n row).retry_count)
      (deleted-after assignment max now message row n ∙ d)
    ∙ (ap (outcome false) (count-after assignment max now message row q n)
        ∙ verdict assignment max n)
  where
    outcome : Bool → ℕ → Bool
    outcome gone c =
        not gone
        && is_pending (if leb max (suc (count_read assignment c)) then failed else pending)
        && ltb (suc c) max
