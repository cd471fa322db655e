-- ===== src/Outbox/Table.antt =====
-- internal/repository/system/outboxRepo.go over internal/model/entity/outbox_event.go: the table of
-- events and its queries. Deletion is gorm's soft deletion: a deleted row stays and no query sees it.
use personal_assistant.Base.{
  ℕ, zero, suc, ltb, leb, Bool, true, false, not, ◌&&◌, ◌||◌, String, List, [], ◌∷◌, ◌++◌, map,
  Option, none, some, ◌==◌, string_key, if◌then◌else◌,
}

pub data Status : Type 0 where
  pending published failed : Status

-- The trace columns and the numeric primary key are left out.
pub record Row : Type 0 where
  pub event_id : String
  pub event_type : String
  pub aggregate_id : String
  pub aggregate_type : String
  pub payload : String
  pub status : Status
  pub retry_count : ℕ
  pub error_message : String
  pub published_at : Option ℕ
  pub created_at : ℕ
  pub updated_at : ℕ
  pub deleted : Bool

abbrev pub Table : Type 0
Table = List Row

abbrev pub is_pending : Status → Bool
is_pending pending = true
is_pending published = false
is_pending failed = false

-- A row of the list has the id.
unfoldable pub includes : String → Table → Bool
includes id [] = false
includes id (row ∷ rows) = row.event_id == id || includes id rows

-- The unique index on event_id refuses an id that is there, deleted rows included.
unfoldable pub create : Row → Table → Option Table
create row table = if includes row.event_id table then none else some (table ++ row ∷ [])

abbrev pub is_candidate : ℕ → Row → Bool
is_candidate max_retries row =
    not row.deleted && is_pending row.status && ltb row.retry_count max_retries

unfoldable pub candidates : ℕ → Table → Table
candidates max_retries [] = []
candidates max_retries (row ∷ rows) =
    let rest = candidates max_retries rows in
    if is_candidate max_retries row then row ∷ rest else rest

-- ORDER BY created_at ASC; the database may order rows of one time as it likes, here the order of
-- the table.
unfoldable pub insert : Row → Table → Table
insert row [] = row ∷ []
insert row (first ∷ rest) =
    if leb row.created_at first.created_at then row ∷ first ∷ rest else first ∷ insert row rest

unfoldable pub by_created_at : Table → Table
by_created_at [] = []
by_created_at (row ∷ rows) = insert row (by_created_at rows)

-- LIMIT
unfoldable pub take : ℕ → Table → Table
take zero rows = []
take (suc n) [] = []
take (suc n) (row ∷ rows) = row ∷ take n rows

unfoldable pub get_pending_events : ℕ → ℕ → Table → Table
get_pending_events limit max_retries table =
    take limit (by_created_at (candidates max_retries table))

-- UPDATE … WHERE event_id = ?
unfoldable pub update_where : String → (Row → Row) → Table → Table
update_where id f = map (λ row. if not row.deleted && row.event_id == id then f row else row)

unfoldable pub published_row : ℕ → Row → Row
published_row now row = record row { status = published; published_at = some now; updated_at = now }

unfoldable pub mark_as_published : ℕ → String → Table → Table
mark_as_published now id = update_where id (published_row now)

-- What the CASE of MarkAsFailed reads of retry_count: the old value where a database assigns all
-- columns at once, the new one where it assigns them from left to right with retry_count first.
pub data Assignment : Type 0 where
  at_once left_to_right : Assignment

abbrev pub count_read : Assignment → ℕ → ℕ
count_read at_once retry_count = retry_count
count_read left_to_right retry_count = suc retry_count

unfoldable pub failed_row : Assignment → ℕ → ℕ → String → Row → Row
failed_row assignment max_retries now message row = record row {
  status =
      if leb max_retries (suc (count_read assignment row.retry_count)) then failed else pending;
  error_message = message;
  retry_count = suc row.retry_count;
  updated_at = now;
}

unfoldable pub mark_as_failed : Assignment → ℕ → ℕ → String → String → Table → Table
mark_as_failed assignment max_retries now id message =
    update_where id (failed_row assignment max_retries now message)

abbrev pub is_before : Option ℕ → ℕ → Bool
is_before none time = false
is_before (some at) time = ltb at time

abbrev pub is_published : Status → Bool
is_published pending = false
is_published published = true
is_published failed = false

abbrev pub is_failed : Status → Bool
is_failed pending = false
is_failed published = false
is_failed failed = true

abbrev pub delete_if : (Row → Bool) → Row → Row
delete_if test row = if not row.deleted && test row then record row { deleted = true } else row

unfoldable pub delete_published_before : ℕ → Table → Table
delete_published_before time =
    map (delete_if (λ row. is_published row.status && is_before row.published_at time))

unfoldable pub delete_failed_before : ℕ → Table → Table
delete_failed_before time = map (delete_if (λ row. is_failed row.status && ltb row.updated_at time))
