-- ===== src/OjTask/Built.antt =====
-- ojTaskDispatcher.go, buildExecutionSnapshot: every snapshot that is built is counted right.
use personal_assistant.Base.{ℕ, List, [], ◌∷◌, String}
use personal_assistant.Base.Maps.{Map}
use personal_assistant.Base.Result.{Result, ok, err, ◌>>=◌}
use personal_assistant.OjTask.Types.{Error}
use personal_assistant.OjTask.Snapshot.{TaskItem, Snapshot, empty_snapshot}
use personal_assistant.OjTask.Build.{
  Reads, or_db_error, build_users, build_execution_snapshot, load_execution_facts, all_found,
}
use personal_assistant.OjTask.Counted.{IsCounted, empty-Counted, user_loop-Counted}

-- A value that is made is counted right; an error makes none.
abbrev pub CountedResult : Result Error Snapshot → Type 0
CountedResult (err cause) = Unit
CountedResult (ok snapshot) = IsCounted 0 0 snapshot

after-Counted {ℓ} :
    {A : Type ℓ} (m : Result Error A) (next : A → Result Error Snapshot)
    → ((a : A) → CountedResult (next a))
    → CountedResult (m >>= next)
after-Counted (err cause) next h = tt
after-Counted (ok value) next h = h value

build_users-Counted :
    (reads : Reads) (items : List TaskItem) (names : Map ℕ String) (orgs_of : Map ℕ (List ℕ))
    (users : List ℕ)
    → CountedResult (build_users reads items names orgs_of users)
build_users-Counted reads items names orgs_of [] = empty-Counted
build_users-Counted reads items names orgs_of (user ∷ users) =
    after-Counted (or_db_error (reads.get_users (user ∷ users))) _ (λ found.
      after-Counted (all_found found (user ∷ users)) _ (λ _.
        after-Counted (load_execution_facts reads.luogu (user ∷ users)) _ (λ luogu.
          after-Counted (load_execution_facts reads.leetcode (user ∷ users)) _ (λ leetcode.
            after-Counted (load_execution_facts reads.lanqiao (user ∷ users)) _ (λ lanqiao.
              user_loop-Counted (record { luogu = luogu; leetcode = leetcode; lanqiao = lanqiao })
                items names orgs_of empty_snapshot (user ∷ users) empty-Counted)))))

-- Whatever the repositories answer, a snapshot that is built is counted right: items and users
-- are solved or open ones, each item counted is a row and each user counted a user's row, the
-- solved ones are the rows that say so, the users' own counters add up to those of the
-- snapshot, and a user is marked as done if and only if none of the items is open.
pub build_execution_snapshot-Counted :
    (reads : Reads) → CountedResult (build_execution_snapshot reads)
unfolding build_execution_snapshot
build_execution_snapshot-Counted reads = after-Counted (or_db_error reads.list_task_orgs) _ (λ orgs.
    after-Counted (or_db_error reads.list_items) _ (λ items.
      after-Counted (or_db_error (reads.list_pairs _)) _
        (λ pairs. build_users-Counted reads _ _ _ _)))
