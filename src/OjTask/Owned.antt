-- ===== src/OjTask/Owned.antt =====
-- ojTaskDispatcher.go, buildExecutionSnapshot: each row of a snapshot is of a user of the snapshot.
use personal_assistant.Base.{
  ℕ, ltb, nat_eq, nat_key, ◌≡◌, ◌⊎◌, inl, inr, refl, sym, ap, ◌∙◌, Bool, true, false, not, ◌&&◌,
  List, [], ◌∷◌, ◌++◌, map, All, All-append, All-map, String, some, by_test, arith,
}
use personal_assistant.Base.Maps.{Map, get}
use personal_assistant.Base.Buckets.{or_empty}
use personal_assistant.Base.Result.{Result, ok, err, Yields, yields_then, yields_skip}
use personal_assistant.OjTask.Types.{Error, user_missing}
use personal_assistant.OjTask.Snapshot.{
  ItemResult, completed, pending, TaskItem, AllFacts, resolve_oj_task_item_result, ExecutionUser,
  UserOrgDraft, UserItemDraft, Snapshot, empty_snapshot, sort_by, add_result,
}
use personal_assistant.OjTask.Build.{
  Reads, has_id, or_db_error, item_step, item_loop, new_user, with_orgs, normalize_uint_slice,
  close_user, or_blank, user_step, user_loop, all_found, load_execution_facts, build_users,
  build_execution_snapshot,
}

abbrev pub HasUser : List ExecutionUser → ℕ → Type 0
HasUser [] user = ⊥
HasUser (row ∷ rows) user = (row.user_id ≡ user) ⊎ HasUser rows user

-- The rows are of users of the snapshot, or of the one at work.
abbrev Owner : ℕ → Snapshot → ℕ → Type 0
Owner user s other = (other ≡ user) ⊎ HasUser s.users other

record IsOwnedBy (user : ℕ) (s : Snapshot) : Type 0 where
  orgs : All (λ (d : UserOrgDraft). Owner user s d.user_id) s.user_org_drafts
  items : All (λ (d : UserItemDraft). Owner user s d.user_id) s.user_item_drafts
  positive : All (λ (u : ExecutionUser). nat_eq u.user_id 0 ≡ false) s.users

pub record IsOwned (s : Snapshot) : Type 0 where
  pub orgs : All (λ (d : UserOrgDraft). HasUser s.users d.user_id) s.user_org_drafts
  pub items : All (λ (d : UserItemDraft). HasUser s.users d.user_id) s.user_item_drafts
  pub positive : All (λ (u : ExecutionUser). nat_eq u.user_id 0 ≡ false) s.users

-- A user of the first rows, and the one of the last row.
HasUser-before :
    (rows : List ExecutionUser) (row : ExecutionUser) (user : ℕ)
    → HasUser rows user
    → HasUser (rows ++ row ∷ []) user
HasUser-before [] row user h = absurd h
HasUser-before (r ∷ rows) row user (inl q) = inl q
HasUser-before (r ∷ rows) row user (inr h) = inr (HasUser-before rows row user h)

HasUser-last :
    (rows : List ExecutionUser) (row : ExecutionUser) (user : ℕ)
    → row.user_id ≡ user
    → HasUser (rows ++ row ∷ []) user
HasUser-last [] row user q = inl q
HasUser-last (r ∷ rows) row user q = inr (HasUser-last rows row user q)

same_user : (result : ItemResult) (u : ExecutionUser) → (add_result result u).user_id ≡ u.user_id
same_user completed u = refl
same_user pending u = refl

abbrev OwnedState : ℕ → ExecutionUser × Snapshot → Type 0
OwnedState user state = (state.0.user_id ≡ user) × IsOwnedBy user state.1

item_loop-OwnedState :
    (user : ℕ) (facts : AllFacts) (state : ExecutionUser × Snapshot) (items : List TaskItem)
    → OwnedState user state
    → OwnedState user (item_loop user facts state items)
unfolding item_loop
item_loop-OwnedState user facts state [] h = h
item_loop-OwnedState user facts (u, s) (item ∷ items) (same, owned) =
    let result = resolve_oj_task_item_result user (some item) facts in
    item_loop-OwnedState user facts (item_step user facts item (u, s)) items (
      same_user result.0 u ∙ same,
      record {
        orgs = owned.orgs;
        items =
            All-append (λ (d : UserItemDraft). Owner user s d.user_id) s.user_item_drafts _
              owned.items (inl refl, tt);
        positive = owned.positive;
      },
    )

close_user-IsOwned :
    (user : ℕ) (state : ExecutionUser × Snapshot)
    → nat_eq user 0 ≡ false
    → OwnedState user state
    → IsOwned (close_user state)
close_user-IsOwned user (u, s) there (same, owned) = record {
  orgs = All-map (λ (d : UserOrgDraft) h. owner d.user_id h) s.user_org_drafts owned.orgs;
  items = All-map (λ (d : UserItemDraft) h. owner d.user_id h) s.user_item_drafts owned.items;
  positive =
      All-append (λ (v : ExecutionUser). nat_eq v.user_id 0 ≡ false) s.users _ owned.positive
        (ap (λ n. nat_eq n 0) same ∙ there, tt);
}
  where
    row : ExecutionUser
    row = record {
      user_id = u.user_id;
      all_completed = nat_eq u.pending_item_count 0;
      completed_item_count = u.completed_item_count;
      pending_item_count = u.pending_item_count;
    }

    owner : (other : ℕ) → Owner user s other → HasUser (s.users ++ row ∷ []) other
    owner other (inl q) = HasUser-last s.users row other (same ∙ sym q)
    owner other (inr h) = HasUser-before s.users row other h

module _ (facts : AllFacts) (items : List TaskItem) (names : Map ℕ String)
    (orgs_of : Map ℕ (List ℕ)) where
  opened-IsOwnedBy :
      (user : ℕ) (s : Snapshot) (orgs : List ℕ)
      → IsOwned s
      → IsOwnedBy user (with_orgs user names orgs s)
  opened-IsOwnedBy user s orgs h = record {
    orgs =
        All-append (λ (d : UserOrgDraft). Owner user s d.user_id) s.user_org_drafts _
          (All-map (λ (d : UserOrgDraft) k. inr k) s.user_org_drafts h.orgs) (own orgs);
    items = All-map (λ (d : UserItemDraft) k. inr k) s.user_item_drafts h.items;
    positive = h.positive;
  }
    where
      own :
          (ids : List ℕ)
          → All
              (λ (d : UserOrgDraft). Owner user s d.user_id)
              (map
                (λ org. record {
                  user_id = user;
                  org_id = org;
                  org_name = or_blank (get org names);
                })
                ids)
      own [] = tt
      own (id ∷ ids) = (inl refl, own ids)

  user_step-IsOwned :
      (user : ℕ) (s : Snapshot)
      → nat_eq user 0 ≡ false
      → IsOwned s
      → IsOwned (user_step facts items names orgs_of user s)
  user_step-IsOwned user s there h =
      let orgs = sort_by ltb (normalize_uint_slice (or_empty (get user orgs_of))) in
      close_user-IsOwned user
        (item_loop user facts (new_user user, with_orgs user names orgs s) items) there
        (item_loop-OwnedState user facts (new_user user, with_orgs user names orgs s) items
          (
            refl,
            opened-IsOwnedBy user s
                (sort_by ltb (normalize_uint_slice (or_empty (get user orgs_of)))) h,
          ))

  user_loop-IsOwned :
      (s : Snapshot) (users : List ℕ)
      → All (λ user. nat_eq user 0 ≡ false) users
      → IsOwned s
      → IsOwned (user_loop facts items names orgs_of s users)
  unfolding user_loop
  user_loop-IsOwned s [] p h = h
  user_loop-IsOwned s (user ∷ users) p h =
      user_loop-IsOwned (user_step facts items names orgs_of user s) users p.1
        (user_step-IsOwned user s p.0 h)

all_found-positive :
    (found users : List ℕ)
    → Yields (all_found found users) (λ _. All (λ user. nat_eq user 0 ≡ false) users)
all_found-positive found [] = tt
all_found-positive found (user ∷ users) =
    by_test Holds (has_id user found && not (nat_eq user 0)) (all_found found users)
      (err (user_missing user))
      (λ q. both (all_found found users) q (all_found-positive found users)) (λ _. tt)
  where
    Holds : Result Error Bool → Type 0
    Holds r = Yields r (λ _. All (λ u. nat_eq u 0 ≡ false) (user ∷ users))

    both :
        (r : Result Error Bool)
        → (has_id user found && not (nat_eq user 0)) ≡ true
        → Yields r (λ _. All (λ u. nat_eq u 0 ≡ false) users)
        → Holds r
    both (err cause) q h = tt
    both (ok done) q h = (ground (arith, q), h)

build_users-IsOwned :
    (reads : Reads) (items : List TaskItem) (names : Map ℕ String) (orgs_of : Map ℕ (List ℕ))
    (users : List ℕ)
    → Yields (build_users reads items names orgs_of users) IsOwned
build_users-IsOwned reads items names orgs_of [] = record { orgs = tt; items = tt; positive = tt }
build_users-IsOwned reads items names orgs_of (user ∷ users) =
    yields_skip (or_db_error (reads.get_users (user ∷ users))) _ _ λ found.
      yields_then (all_found found (user ∷ users)) _ _ _ (all_found-positive found (user ∷ users))
        λ _ positive. yields_skip (load_execution_facts reads.luogu (user ∷ users)) _ _ λ luogu.
          yields_skip (load_execution_facts reads.leetcode (user ∷ users)) _ _ λ leetcode.
            yields_skip (load_execution_facts reads.lanqiao (user ∷ users)) _ _ λ lanqiao.
              user_loop-IsOwned (record { luogu = luogu; leetcode = leetcode; lanqiao = lanqiao })
                items names orgs_of empty_snapshot (user ∷ users) positive
                (record { orgs = tt; items = tt; positive = tt })

-- The rows of a snapshot that is built are of its users, whose ids are not zero.
pub build_execution_snapshot-IsOwned :
    (reads : Reads) → Yields (build_execution_snapshot reads) IsOwned
unfolding build_execution_snapshot
build_execution_snapshot-IsOwned reads = yields_skip (or_db_error reads.list_task_orgs) _ _ λ orgs.
    yields_skip (or_db_error reads.list_items) _ _ λ items.
      yields_skip (or_db_error (reads.list_pairs _)) _ _ λ pairs. build_users-IsOwned reads _ _ _ _
