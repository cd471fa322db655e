-- ===== src/OjTask/Build.antt =====
-- ojTaskDispatcher.go, buildExecutionSnapshot: the loops over users and items, and the reads before
-- them, whose answers are given from outside; `none` is a read that fails.
use personal_assistant.Base.{
  ℕ, ltb, nat_eq, Bool, true, false, not, ◌&&◌, ◌||◌, List, [], ◌∷◌, ◌++◌, map, Option, none, some,
  if◌then◌else◌, String, nat_key,
}
use personal_assistant.Base.Maps.{Map, get, put}
use personal_assistant.Base.Buckets.{or_empty}
use personal_assistant.Base.Result.{Result, ok, err, ◌>>=◌}
use personal_assistant.OjTask.Types.{Error, db_error, user_missing}
use personal_assistant.OjTask.Snapshot.{
  TaskItem, Facts, AllFacts, resolve_oj_task_item_result, ExecutionUser, Snapshot, empty_snapshot,
  sort_by, item_before, add_result, count_item, count_user,
}

abbrev pub has_id : ℕ → List ℕ → Bool
has_id id [] = false
has_id id (x ∷ xs) = nat_eq x id || has_id id xs

-- normalizeUintSlice: no zeros, and nothing twice; the first of equal ids stays.
unfoldable pub normalize_loop : List ℕ → List ℕ → List ℕ
normalize_loop seen [] = []
normalize_loop seen (value ∷ values) =
    let skipped = normalize_loop seen values in
    let taken = normalize_loop (value ∷ seen) values in
    if nat_eq value 0 || has_id value seen then skipped else value ∷ taken

unfoldable pub normalize_uint_slice : List ℕ → List ℕ
normalize_uint_slice values = normalize_loop [] values

abbrev pub or_blank : Option String → String
or_blank none = ""
or_blank (some name) = name

abbrev pub item_step : ℕ → AllFacts → TaskItem → ExecutionUser × Snapshot → ExecutionUser × Snapshot
item_step user facts item (u, s) =
    let result = resolve_oj_task_item_result user (some item) facts in
    (
      add_result result.0 u,
      record {
        users = s.users;
        user_org_drafts = s.user_org_drafts;
        user_item_drafts =
            s.user_item_drafts
            ++ (record {
              user_id = user;
              task_item_id = item.id;
              result_status = result.0;
              reason = result.1;
            })
              ∷ [];
        counts = count_item result.0 s.counts;
      },
    )

unfoldable pub item_loop :
    ℕ → AllFacts → ExecutionUser × Snapshot → List TaskItem → ExecutionUser × Snapshot
item_loop user facts state [] = state
item_loop user facts state (item ∷ items) =
    item_loop user facts (item_step user facts item state) items

abbrev pub new_user : ℕ → ExecutionUser
new_user user = record {
  user_id = user;
  all_completed = false;
  completed_item_count = 0;
  pending_item_count = 0;
}

abbrev pub with_orgs : ℕ → Map ℕ String → List ℕ → Snapshot → Snapshot
with_orgs user names orgs s = record {
  users = s.users;
  user_org_drafts =
      s.user_org_drafts
      ++ map (λ org. record { user_id = user; org_id = org; org_name = or_blank (get org names) })
          orgs;
  user_item_drafts = s.user_item_drafts;
  counts = s.counts;
}

-- executionUser.AllCompleted and the counters of users
abbrev pub close_user : ExecutionUser × Snapshot → Snapshot
close_user (u, s) = record {
  users =
      s.users
      ++ (record {
        user_id = u.user_id;
        all_completed = nat_eq u.pending_item_count 0;
        completed_item_count = u.completed_item_count;
        pending_item_count = u.pending_item_count;
      })
        ∷ [];
  user_org_drafts = s.user_org_drafts;
  user_item_drafts = s.user_item_drafts;
  counts = count_user (nat_eq u.pending_item_count 0) s.counts;
}

module _ (facts : AllFacts) (items : List TaskItem) (names : Map ℕ String)
    (orgs_of : Map ℕ (List ℕ)) where
  abbrev pub user_step : ℕ → Snapshot → Snapshot
  user_step user s = close_user (
      item_loop user facts
        (
          new_user user,
          with_orgs user names (sort_by ltb (normalize_uint_slice (or_empty (get user orgs_of)))) s,
        )
        items)

  unfoldable pub user_loop : Snapshot → List ℕ → Snapshot
  user_loop s [] = s
  user_loop s (user ∷ users) = user_loop (user_step user s) users

-- The answers for one judge: accounts of the users as pairs of user and account, and what the accounts
-- have solved.
pub record PlatformReads : Type 0 where
  pub get_by_user_ids : List ℕ → Option (List (ℕ × ℕ))
  pub get_solved : List ℕ → Option (Map ℕ (List ℕ))

pub record Reads : Type 0 where
  pub list_task_orgs : Option (List (ℕ × String))
  pub list_items : Option (List TaskItem)
  pub list_pairs : List ℕ → Option (List (ℕ × ℕ))
  pub get_users : List ℕ → Option (List ℕ)
  pub luogu : PlatformReads
  pub leetcode : PlatformReads
  pub lanqiao : PlatformReads

-- bizerrors.Wrap(bizerrors.CodeDBError, err)
abbrev pub or_db_error {ℓ} : {A : Type ℓ} → Option A → Result Error A
or_db_error none = err db_error
or_db_error (some value) = ok value

-- The accounts whose id is not zero, by user, and their ids.
abbrev pub account_map : Map ℕ ℕ → List (ℕ × ℕ) → Map ℕ ℕ
account_map known [] = known
account_map known ((user, detail) ∷ rest) =
    account_map (if nat_eq detail 0 then known else put user detail known) rest

abbrev pub account_ids : List (ℕ × ℕ) → List ℕ
account_ids [] = []
account_ids ((user, detail) ∷ rest) =
    if nat_eq detail 0 then account_ids rest else detail ∷ account_ids rest

-- loadLuoguExecutionFacts and its two kin
unfoldable pub load_execution_facts : PlatformReads → List ℕ → Result Error Facts
load_execution_facts reads users = or_db_error (reads.get_by_user_ids users) >>= λ rows.
    or_db_error (reads.get_solved (account_ids rows)) >>= λ solved.
    ok (record { details = account_map [] rows; solved = solved })

abbrev pub org_ids : List (ℕ × String) → List ℕ
org_ids [] = []
org_ids ((org, name) ∷ rest) = if nat_eq org 0 then org_ids rest else org ∷ org_ids rest

abbrev pub org_names : Map ℕ String → List (ℕ × String) → Map ℕ String
org_names known [] = known
org_names known ((org, name) ∷ rest) =
    org_names (if nat_eq org 0 then known else put org name known) rest

-- userOrgMap[pair.UserID] = append(userOrgMap[pair.UserID], pair.OrgID)
abbrev pub user_orgs : Map ℕ (List ℕ) → List (ℕ × ℕ) → Map ℕ (List ℕ)
user_orgs known [] = known
user_orgs known ((user, org) ∷ rest) =
    user_orgs
      (if nat_eq user 0 || nat_eq org 0
        then known
        else put user (or_empty (get user known) ++ org ∷ []) known)
      rest

abbrev pub keys_of : Map ℕ (List ℕ) → List ℕ
keys_of [] = []
keys_of ((key, value) ∷ rest) = key ∷ keys_of rest

-- The users must all be there; an id of zero is no user.
abbrev pub all_found : List ℕ → List ℕ → Result Error Bool
all_found found [] = ok true
all_found found (user ∷ users) =
    let rest = all_found found users in
    if has_id user found && not (nat_eq user 0) then rest else err (user_missing user)

abbrev pub build_users :
    Reads → List TaskItem → Map ℕ String → Map ℕ (List ℕ) → List ℕ → Result Error Snapshot
build_users reads items names orgs_of [] = ok empty_snapshot
build_users reads items names orgs_of (user ∷ users) =
    or_db_error (reads.get_users (user ∷ users)) >>= λ found.
    all_found found (user ∷ users) >>= λ _.
    load_execution_facts reads.luogu (user ∷ users) >>= λ luogu.
    load_execution_facts reads.leetcode (user ∷ users) >>= λ leetcode.
    load_execution_facts reads.lanqiao (user ∷ users) >>= λ lanqiao. ok (
      user_loop (record { luogu = luogu; leetcode = leetcode; lanqiao = lanqiao }) items names
        orgs_of empty_snapshot (user ∷ users))

abbrev pub build_orgs :
    Reads → List (ℕ × String) → List TaskItem → List (ℕ × ℕ) → Result Error Snapshot
build_orgs reads orgs items pairs =
    build_users reads (sort_by item_before items) (org_names [] orgs) (user_orgs [] pairs)
      (sort_by ltb (keys_of (user_orgs [] pairs)))

unfoldable pub build_execution_snapshot : Reads → Result Error Snapshot
build_execution_snapshot reads = or_db_error reads.list_task_orgs >>= λ orgs.
    or_db_error reads.list_items >>= λ items.
    or_db_error (reads.list_pairs (org_ids orgs)) >>= λ pairs. build_orgs reads orgs items pairs
