-- ===== src/Outbox/Reach.antt =====
-- What holds of an outbox in every state that the operations reach: no event is marked published
-- without its message, and the retries are bounded.
use personal_assistant.Base.{
  ℕ, suc, leb, ◌≡◌, ◌⊎◌, refl, sym, ap, subst, ◌∙◌, Bool, true, false, not, ◌&&◌, ◌||◌, String,
  List, [], ◌∷◌, ◌++◌, Option, none, some, ◌==◌, string_key, arith, if◌then◌else◌, Bool-cases, inl,
  inr, map, All, ◌<◌, ◌≤◌,
}
use personal_assistant.Outbox.Table.{
  Row, Table, Assignment, at_once, left_to_right, count_read, Status, pending, published, failed,
  includes, create, published_row, failed_row, delete_if, delete_published_before,
  delete_failed_before,
}
use personal_assistant.Outbox.Rows.{Distinct, map-Distinct, snoc-Distinct}
use personal_assistant.Outbox.Relay.{
  Relay, Attempt, Message, Outbox, message_of, LockAnswer, taken, contended, broken, process_read,
  process_locked, process,
}
use personal_assistant.Outbox.Exact.{
  settled_in, settled_in-keeps, settle, settle_with, hit, gone, miss, delivered, is_success,
  batch_of, relayed, relay_all_exact,
}

-- A message with the id was sent.
unfoldable pub has_message : String → List Message → Bool
has_message id [] = false
has_message id (message ∷ messages) = message.id == id || has_message id messages

abbrev pub IsSettledAs : ℕ → List Message → String → ℕ → Status → Type 0
IsSettledAs max sent id retries pending = retries < max
IsSettledAs max sent id retries published = has_message id sent ≡ true
IsSettledAs max sent id retries failed = (max ≤ suc retries)

-- The row's status says the truth.
abbrev pub IsTruthful : ℕ → List Message → Row → Type 0
IsTruthful max sent row = IsSettledAs max sent row.event_id row.retry_count row.status

abbrev pub Sound : ℕ → Outbox → Type 0
Sound max box = Distinct box.table × All (IsTruthful max box.sent) box.table

-- One operation on the outbox.
pub data Step (relay : Relay) : Outbox → Outbox → Type 0 where
  creates :
      (box : Outbox) (row : Row) (table : Table)
      → row.status ≡ pending
      → row.retry_count < relay.max_retries
      → create row box.table ≡ some table
      → Step relay box (record { table = table; sent = box.sent })
  processes :
      (box : Outbox) (lock : LockAnswer) (reads : Bool) (attempts : String → Attempt)
      → Step relay box (process relay lock reads attempts box).0
  deletes_published :
      (box : Outbox) (time : ℕ)
      → Step relay box (record { table = delete_published_before time box.table; sent = box.sent })
  deletes_failed :
      (box : Outbox) (time : ℕ)
      → Step relay box (record { table = delete_failed_before time box.table; sent = box.sent })

pub data Reach (relay : Relay) : Outbox → Type 0 where
  starts : Reach relay (record { table = []; sent = [] })
  goes_on : (box after : Outbox) → Reach relay box → Step relay box after → Reach relay after

has_message-append :
    (id : String) (xs ys : List Message)
    → has_message id (xs ++ ys) ≡ (has_message id xs || has_message id ys)
unfolding has_message
has_message-append id [] ys = refl
has_message-append id (x ∷ xs) ys = ground (arith, has_message-append id xs ys)

has_message-delivered :
    (attempts : String → Attempt) (id : String) (batch : Table)
    → includes id batch ≡ true
    → is_success (attempts id).publish_error ≡ true
    → has_message id (delivered attempts batch) ≡ true
unfolding has_message delivered includes
has_message-delivered attempts id [] h s = h
has_message-delivered attempts id (event ∷ events) h s = elim (Bool-cases (event.event_id == id)) [
  | inl q ↦
      rw
        (ap (λ x. is_success (attempts x).publish_error)
            ((string_key.same_iff event.event_id id).0 q)
          ∙ s)
        (rw q refl)
  | inr q ↦
      later (is_success (attempts event.event_id).publish_error)
        (has_message-delivered attempts id events (ground (arith, h, q)) s)
]
  where
    later :
        (b : Bool)
        → has_message id (delivered attempts events) ≡ true
        → has_message id
            (if b then message_of event ∷ delivered attempts events else delivered attempts events)
          ≡ true
    later true k = ground (arith, k)
    later false k = k

fails :
    (assignment : Assignment) (max retries : ℕ) (sent : List Message) (id : String)
    → IsSettledAs max sent id
        (suc retries)
        (if leb max (suc (count_read assignment retries)) then failed else pending)
fails at_once max retries sent id = elim (Bool-cases (leb max (suc retries))) [
  | inl q ↦ rw q (ground (arith, q))
  | inr q ↦ rw q (ground (arith, q))
]
fails left_to_right max retries sent id = elim (Bool-cases (leb max (suc (suc retries)))) [
  | inl q ↦ rw q (ground (arith, q))
  | inr q ↦ rw q (ground (arith, q))
]

module _ (relay : Relay) (sent more : List Message) where
  truth-grows :
      (id : String) (retries : ℕ) (status : Status)
      → IsSettledAs relay.max_retries sent id retries status
      → IsSettledAs relay.max_retries (sent ++ more) id retries status
  truth-grows id retries pending h = h
  truth-grows id retries published h = has_message-append id sent more ∙ rw h refl
  truth-grows id retries failed h = h

  settled_truth :
      (marks : Bool) (at : ℕ) (outcome : Option String) (row : Row)
      → (is_success outcome ≡ true → has_message row.event_id more ≡ true)
      → IsTruthful relay.max_retries sent row
      → IsTruthful relay.max_retries (sent ++ more) (settle_with relay marks at outcome row)
  unfolding published_row failed_row
  settled_truth false at outcome row m h = truth-grows row.event_id row.retry_count row.status h
  settled_truth true at none row m h =
      has_message-append row.event_id sent more ∙ ground (arith, m refl)
  settled_truth true at (some message) row m h =
      fails relay.assignment relay.max_retries row.retry_count (sent ++ more) row.event_id

  settled_in-IsTruthful :
      (attempts : String → Attempt) (batch : Table)
      → more ≡ delivered attempts batch
      → (row : Row) → IsTruthful relay.max_retries sent row
      → IsTruthful relay.max_retries (sent ++ more) (settled_in relay attempts batch row)
  unfolding settled_in
  settled_in-IsTruthful attempts batch e row h =
      chosen (Bool-cases row.deleted) (Bool-cases (includes row.event_id batch))
    where
      chosen :
          (row.deleted ≡ true) ⊎ (row.deleted ≡ false)
          → (includes row.event_id batch ≡ true) ⊎ (includes row.event_id batch ≡ false)
          → IsTruthful relay.max_retries (sent ++ more) (
              if not row.deleted && includes row.event_id batch
              then settle relay (attempts row.event_id) row
              else row)
      chosen (inr d) (inl i) =
          subst (IsTruthful relay.max_retries (sent ++ more)) (sym (hit row.deleted _ _ row d i)) (
            settled_truth _ _ (attempts row.event_id).publish_error row
              (λ s.
                ap (has_message row.event_id) e
                ∙ has_message-delivered attempts row.event_id batch i s)
              h)
      chosen (inl d) i =
          subst (IsTruthful relay.max_retries (sent ++ more)) (sym (gone row.deleted _ _ row d))
            (truth-grows row.event_id row.retry_count row.status h)
      chosen d (inr i) =
          subst (IsTruthful relay.max_retries (sent ++ more)) (sym (miss row.deleted _ _ row i))
            (truth-grows row.event_id row.retry_count row.status h)

All-mapped :
    {A : Type 0} (P Q : A → Type 0) (f : A → A)
    → ((a : A) → P a → Q (f a))
    → (xs : List A) → All P xs
    → All Q (map f xs)
All-mapped P Q f k [] h = tt
All-mapped P Q f k (x ∷ xs) h = (k x h.0, All-mapped P Q f k xs h.1)

All-snoc :
    {A : Type 0} (P : A → Type 0) (xs : List A) (x : A) → All P xs → P x → All P (xs ++ x ∷ [])
All-snoc P [] x h p = (p, tt)
All-snoc P (y ∷ xs) x h p = (h.0, All-snoc P xs x h.1 p)

delete_keeps : (test : Row → Bool) (row : Row) → (delete_if test row).event_id ≡ row.event_id
delete_keeps test row = chosen (not row.deleted && test row)
  where
    chosen : (b : Bool) → (if b then record row { deleted = true } else row).event_id ≡ row.event_id
    chosen true = refl
    chosen false = refl

delete-IsTruthful :
    (max : ℕ) (sent : List Message) (test : Row → Bool) (row : Row)
    → IsTruthful max sent row
    → IsTruthful max sent (delete_if test row)
delete-IsTruthful max sent test row h = chosen (not row.deleted && test row)
  where
    chosen : (b : Bool) → IsTruthful max sent (if b then record row { deleted = true } else row)
    chosen true = h
    chosen false = h

delete-Sound :
    (max : ℕ) (test : Row → Bool) (box : Outbox)
    → Sound max box
    → Sound max (record { table = map (delete_if test) box.table; sent = box.sent })
delete-Sound max test box h = (
  map-Distinct (delete_if test) (delete_keeps test) box.table h.0,
  All-mapped _ (IsTruthful max box.sent) (delete_if test) (delete-IsTruthful max box.sent test)
      box.table h.1,
)

IsTruthful-pending :
    (max : ℕ) (sent : List Message) (row : Row)
    → row.status ≡ pending
    → row.retry_count < max
    → IsTruthful max sent row
IsTruthful-pending max sent row p r =
    subst (IsSettledAs max sent row.event_id row.retry_count) (sym p) r

some-injective : {a b : Table} → Option.some a ≡ some b → a ≡ b
some-injective q = cc

create-Sound :
    (max : ℕ) (box : Outbox) (row : Row) (table : Table)
    → row.status ≡ pending
    → row.retry_count < max
    → create row box.table ≡ some table
    → Sound max box
    → Sound max (record { table = table; sent = box.sent })
unfolding create
create-Sound max box row table p r q h = elim (Bool-cases (includes row.event_id box.table)) [
  | inl i ↦ absurd (refused i q)
  | inr i ↦
      subst (λ t. Sound max (record { table = t; sent = box.sent })) (some-injective (accepted i q))
        (
          snoc-Distinct box.table row h.0 i,
          All-snoc (IsTruthful max box.sent) box.table row h.1
              (IsTruthful-pending max box.sent row p r),
        )
]
  where
    refused :
        {b : Bool} → b ≡ true → ¬ ((if b then none else some (box.table ++ row ∷ [])) ≡ some table)
    refused i k = ground (arith, i, k)

    accepted :
        {b : Bool}
        → b ≡ false
        → (if b then none else some (box.table ++ row ∷ [])) ≡ some table
        → Option.some (box.table ++ row ∷ []) ≡ some table
    accepted i k = ground (arith, i, k)

relayed-Sound :
    (relay : Relay) (attempts : String → Attempt) (box : Outbox)
    → Sound relay.max_retries box
    → Sound relay.max_retries (relayed relay attempts box)
relayed-Sound relay attempts box h = (
  map-Distinct _ (settled_in-keeps relay attempts (batch_of relay box)) box.table h.0,
  All-mapped _ (IsTruthful relay.max_retries (relayed relay attempts box).sent) _
      (settled_in-IsTruthful relay box.sent _ attempts (batch_of relay box) refl) box.table h.1,
)

process-cases :
    (relay : Relay) (lock : LockAnswer) (reads : Bool) (attempts : String → Attempt) (box : Outbox)
    → Distinct box.table
    → ((process relay lock reads attempts box).0 ≡ box)
      ⊎ ((process relay lock reads attempts box).0 ≡ relayed relay attempts box)
unfolding process
process-cases relay lock reads attempts box d = by_lock relay.lock_enabled lock reads
  where
    by_read :
        (read : Bool)
        → ((process_read relay read attempts box).0 ≡ box)
          ⊎ ((process_read relay read attempts box).0 ≡ relayed relay attempts box)
    by_read false = inl refl
    by_read true = inr (relay_all_exact relay attempts box d)

    by_lock :
        (b : Bool) (answer : LockAnswer) (read : Bool)
        → ((if b
              then process_locked relay answer read attempts box
              else process_read relay read attempts box).0
            ≡ box)
          ⊎ ((if b
                then process_locked relay answer read attempts box
                else process_read relay read attempts box).0
              ≡ relayed relay attempts box)
    by_lock true taken read = by_read read
    by_lock true contended read = inl refl
    by_lock true broken read = inl refl
    by_lock false answer read = by_read read

-- In every outbox that creations of pending events with retries to spare, runs of the relay
-- with any lock, publish and mark outcomes, and clean-ups reach from the empty one, no event id
-- stands in two rows, every row marked published has its message among those sent, every
-- pending row has fewer retries than the limit, and every failed row has at least the limit
-- less one.
pub Reach-Sound : (relay : Relay) (box : Outbox) → Reach relay box → Sound relay.max_retries box
unfolding delete_published_before delete_failed_before
Reach-Sound relay _ starts = (tt, tt)
Reach-Sound relay _ (goes_on before after r step) = by_step (Reach-Sound relay before r) step
  where
    by_step :
        {a b : Outbox} → Sound relay.max_retries a → Step relay a b → Sound relay.max_retries b
    by_step h (creates box row table p q c) = create-Sound relay.max_retries box row table p q c h
    by_step h (processes box lock reads attempts) =
        elim (process-cases relay lock reads attempts box h.0) [
          | inl e ↦ subst (Sound relay.max_retries) (sym e) h
          | inr e ↦ subst (Sound relay.max_retries) (sym e) (relayed-Sound relay attempts box h)
        ]
    by_step h (deletes_published box time) = delete-Sound relay.max_retries _ box h
    by_step h (deletes_failed box time) = delete-Sound relay.max_retries _ box h
