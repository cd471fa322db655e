-- ===== src/OjTask/Counted.antt =====
-- ojTaskDispatcher.go, buildExecutionSnapshot: the counters of a snapshot against its rows.
use personal_assistant.Base.{
  ℕ, ltb, nat_key, nat_eq, ◌≡◌, refl, ◌+◌, List, [], ◌∷◌, ◌++◌, length, length-append, All,
  All-append, arith, if◌then◌else◌, String, some,
}
use personal_assistant.Base.Maps.{Map, get}
use personal_assistant.Base.Buckets.{or_empty}
use personal_assistant.OjTask.Snapshot.{
  ItemResult, completed, pending, PendingReason, TaskItem, AllFacts, resolve_oj_task_item_result,
  ExecutionUser, UserItemDraft, Snapshot, empty_snapshot, sort_by, add_result, count_item,
}
use personal_assistant.OjTask.Build.{
  item_step, item_loop, new_user, with_orgs, normalize_uint_slice, close_user, user_step, user_loop,
}

abbrev pub one_if_done : ItemResult → ℕ
one_if_done completed = 1
one_if_done pending = 0

-- How many of the rows are of a solved item.
unfoldable pub num_done : List UserItemDraft → ℕ
num_done [] = 0
num_done (draft ∷ drafts) = one_if_done draft.result_status + num_done drafts

-- Sums over the users.
unfoldable pub sum_of : (ExecutionUser → ℕ) → List ExecutionUser → ℕ
sum_of f [] = 0
sum_of f (u ∷ users) = f u + sum_of f users

abbrev pub one_if_all : ExecutionUser → ℕ
one_if_all u = if u.all_completed then 1 else 0

abbrev pub FlagFits : ExecutionUser → Type 0
FlagFits u = u.all_completed ≡ nat_eq u.pending_item_count 0

num_done-snoc :
    (drafts : List UserItemDraft) (draft : UserItemDraft)
    → num_done (drafts ++ draft ∷ []) ≡ num_done drafts + one_if_done draft.result_status
unfolding num_done
num_done-snoc [] draft = omega arith
num_done-snoc (d ∷ drafts) draft = omega (arith, num_done-snoc drafts draft)

sum_of-snoc :
    (f : ExecutionUser → ℕ) (users : List ExecutionUser) (u : ExecutionUser)
    → sum_of f (users ++ u ∷ []) ≡ sum_of f users + f u
unfolding sum_of
sum_of-snoc f [] u = omega arith
sum_of-snoc f (v ∷ users) u = omega (arith, sum_of-snoc f users u)

-- The counters say what the rows do, while a user with so many solved and open items is at work.
pub record IsCounted (done todo : ℕ) (s : Snapshot) : Type 0 where
  pub items_split :
      s.counts.total_item_count ≡ s.counts.completed_item_count + s.counts.pending_item_count
  pub item_rows : s.counts.total_item_count ≡ length s.user_item_drafts
  pub done_rows : s.counts.completed_item_count ≡ num_done s.user_item_drafts
  pub done_sum : s.counts.completed_item_count ≡ sum_of (λ u. u.completed_item_count) s.users + done
  pub todo_sum : s.counts.pending_item_count ≡ sum_of (λ u. u.pending_item_count) s.users + todo
  pub users_split :
      s.counts.total_user_count ≡ s.counts.completed_user_count + s.counts.pending_user_count
  pub user_rows : s.counts.total_user_count ≡ length s.users
  pub all_rows : s.counts.completed_user_count ≡ sum_of one_if_all s.users
  pub flags : All FlagFits s.users

abbrev CountedState : ExecutionUser × Snapshot → Type 0
CountedState state = IsCounted state.0.completed_item_count state.0.pending_item_count state.1

-- The state after an item with this result.
abbrev added : UserItemDraft → ExecutionUser → Snapshot → ExecutionUser × Snapshot
added draft u s = (
  add_result draft.result_status u,
  record {
    users = s.users;
    user_org_drafts = s.user_org_drafts;
    user_item_drafts = s.user_item_drafts ++ draft ∷ [];
    counts = count_item draft.result_status s.counts;
  },
)

added-Counted :
    (user id : ℕ) (result : ItemResult) (why : PendingReason) (u : ExecutionUser) (s : Snapshot)
    → CountedState (u, s)
    → CountedState (
        added
          (record { user_id = user; task_item_id = id; result_status = result; reason = why })
          u
          s)
added-Counted user id completed why u s h =
    let draft : UserItemDraft = record {
      user_id = user;
      task_item_id = id;
      result_status = completed;
      reason = why;
    } in
    record {
      items_split = omega (arith, h.items_split);
      item_rows = omega (arith, h.item_rows, length-append s.user_item_drafts (draft ∷ []));
      done_rows = omega (arith, h.done_rows, num_done-snoc s.user_item_drafts draft);
      done_sum = omega (arith, h.done_sum);
      todo_sum = h.todo_sum;
      users_split = h.users_split;
      user_rows = h.user_rows;
      all_rows = h.all_rows;
      flags = h.flags;
    }
added-Counted user id pending why u s h =
    let draft : UserItemDraft = record {
      user_id = user;
      task_item_id = id;
      result_status = pending;
      reason = why;
    } in
    record {
      items_split = omega (arith, h.items_split);
      item_rows = omega (arith, h.item_rows, length-append s.user_item_drafts (draft ∷ []));
      done_rows = omega (arith, h.done_rows, num_done-snoc s.user_item_drafts draft);
      done_sum = h.done_sum;
      todo_sum = omega (arith, h.todo_sum);
      users_split = h.users_split;
      user_rows = h.user_rows;
      all_rows = h.all_rows;
      flags = h.flags;
    }

item_loop-Counted :
    (user : ℕ) (facts : AllFacts) (state : ExecutionUser × Snapshot) (items : List TaskItem)
    → CountedState state
    → CountedState (item_loop user facts state items)
unfolding item_loop
item_loop-Counted user facts state [] h = h
item_loop-Counted user facts (u, s) (item ∷ items) h =
    let result = resolve_oj_task_item_result user (some item) facts in
    item_loop-Counted user facts (item_step user facts item (u, s)) items
      (added-Counted user item.id result.0 result.1 u s h)

close_user-Counted :
    (u : ExecutionUser) (s : Snapshot) → CountedState (u, s) → IsCounted 0 0 (close_user (u, s))
close_user-Counted u s h =
    let row : ExecutionUser = record {
      user_id = u.user_id;
      all_completed = nat_eq u.pending_item_count 0;
      completed_item_count = u.completed_item_count;
      pending_item_count = u.pending_item_count;
    } in
    record {
      items_split = h.items_split;
      item_rows = h.item_rows;
      done_rows = h.done_rows;
      done_sum = omega (arith, h.done_sum, sum_of-snoc (λ v. v.completed_item_count) s.users row);
      todo_sum = omega (arith, h.todo_sum, sum_of-snoc (λ v. v.pending_item_count) s.users row);
      users_split = ground (arith, h.users_split);
      user_rows = omega (arith, h.user_rows, length-append s.users (row ∷ []));
      all_rows = ground (arith, h.all_rows, sum_of-snoc one_if_all s.users row);
      flags = All-append FlagFits s.users (row ∷ []) h.flags (refl, tt);
    }

module _ (facts : AllFacts) (items : List TaskItem) (names : Map ℕ String)
    (orgs_of : Map ℕ (List ℕ)) where
  user_step-Counted :
      (user : ℕ) (s : Snapshot)
      → IsCounted 0 0 s
      → IsCounted 0 0 (user_step facts items names orgs_of user s)
  user_step-Counted user s h =
      closed
        (item_loop user facts
          (
            new_user user,
            with_orgs user names (sort_by ltb (normalize_uint_slice (or_empty (get user orgs_of))))
                s,
          )
          items)
        (item_loop-Counted user facts _ items
          (opened h (sort_by ltb (normalize_uint_slice (or_empty (get user orgs_of))))))
    where
      closed :
          (state : ExecutionUser × Snapshot) → CountedState state → IsCounted 0 0 (close_user state)
      closed (u, t) k = close_user-Counted u t k

      opened :
          (h : IsCounted 0 0 s) (orgs : List ℕ)
          → CountedState (new_user user, with_orgs user names orgs s)
      opened h orgs = record {
        items_split = h.items_split;
        item_rows = h.item_rows;
        done_rows = h.done_rows;
        done_sum = h.done_sum;
        todo_sum = h.todo_sum;
        users_split = h.users_split;
        user_rows = h.user_rows;
        all_rows = h.all_rows;
        flags = h.flags;
      }

  pub user_loop-Counted :
      (s : Snapshot) (users : List ℕ)
      → IsCounted 0 0 s
      → IsCounted 0 0 (user_loop facts items names orgs_of s users)
  unfolding user_loop
  user_loop-Counted s [] h = h
  user_loop-Counted s (user ∷ users) h =
      user_loop-Counted (user_step facts items names orgs_of user s) users
        (user_step-Counted user s h)

pub empty-Counted : IsCounted 0 0 empty_snapshot
unfolding num_done sum_of
empty-Counted = record {
  items_split = omega arith;
  item_rows = refl;
  done_rows = refl;
  done_sum = omega arith;
  todo_sum = omega arith;
  users_split = omega arith;
  user_rows = refl;
  all_rows = refl;
  flags = tt;
}
