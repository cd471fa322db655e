-- ===== src/OjTask/Persisted.antt =====
-- ojTaskDispatcher.go, persistExecutionSnapshot: a snapshot that was built becomes rows of its users.
use personal_assistant.Base.{ℕ, ◌≡◌, ◌⊎◌, Bool, ◌||◌, List, [], ◌∷◌, some, nat_key}
use personal_assistant.Base.Maps.{Map, get}
use personal_assistant.Base.Result.{Result}
use personal_assistant.OjTask.Snapshot.{UserOrgDraft, UserItemDraft, Snapshot}
use personal_assistant.OjTask.Persist.{UserOrgRow, UserItemRow, SnapshotRows, Writes, item_row}

-- A row with this id is listed for the user.
abbrev pub IsListed : ℕ → ℕ → List (ℕ × ℕ) → Type 0
IsListed id user [] = ⊥
IsListed id user ((i, u) ∷ rest) = ((i ≡ id) × (u ≡ user)) ⊎ IsListed id user rest

-- Some row is listed for the user.
abbrev pub HasListed : ℕ → List (ℕ × ℕ) → Type 0
HasListed user [] = ⊥
HasListed user ((i, u) ∷ rest) = (u ≡ user) ⊎ HasListed user rest

-- The map has an id for the user, and it is that of a row which is listed for the user.
abbrev Resolves : ℕ → List (ℕ × ℕ) → Map ℕ ℕ → Type 0
Resolves user listed ids = (id : ℕ) × (get user ids ≡ some id) × IsListed id user listed

-- Each row is of its draft, and names a row that is listed for the draft's user.
abbrev pub OrgRowsFit : List (ℕ × ℕ) → List UserOrgDraft → List UserOrgRow → Type 0
OrgRowsFit listed [] [] = Unit
OrgRowsFit listed [] (row ∷ rows) = ⊥
OrgRowsFit listed (draft ∷ drafts) [] = ⊥
OrgRowsFit listed (draft ∷ drafts) (row ∷ rows) =
    (row.org_id ≡ draft.org_id)
    × (row.org_name ≡ draft.org_name)
    × IsListed row.execution_user_id draft.user_id listed
    × OrgRowsFit listed drafts rows

abbrev pub ItemRowsFit : List (ℕ × ℕ) → List UserItemDraft → List UserItemRow → Type 0
ItemRowsFit listed [] [] = Unit
ItemRowsFit listed [] (row ∷ rows) = ⊥
ItemRowsFit listed (draft ∷ drafts) [] = ⊥
ItemRowsFit listed (draft ∷ drafts) (row ∷ rows) =
    (row ≡ item_row row.execution_user_id draft)
    × IsListed row.execution_user_id draft.user_id listed
    × ItemRowsFit listed drafts rows

module _ (listed : List (ℕ × ℕ)) (ids : Map ℕ ℕ) where
  abbrev IsReady : ℕ → Type 0
  IsReady user = Resolves user listed ids

abbrev pub a_write_fails : Writes → Bool
a_write_fails writes =
    writes.users_fail || writes.user_orgs_fail || writes.user_items_fail || writes.execution_fails
    || writes.task_fails || writes.commit_fails

abbrev pub FitsSnapshot : List (ℕ × ℕ) → Snapshot → SnapshotRows → Type 0
FitsSnapshot listed snapshot rows =
    (rows.users ≡ snapshot.users)
    × OrgRowsFit listed snapshot.user_org_drafts rows.user_orgs
    × ItemRowsFit listed snapshot.user_item_drafts rows.user_items
