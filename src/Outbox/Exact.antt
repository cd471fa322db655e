-- ===== src/Outbox/Exact.antt =====
-- Process of internal/infrastructure/outbox/processor.go, against a description row by row.
use personal_assistant.Base.{
  ℕ, ◌≡◌, refl, sym, ap, ◌∙◌, Bool, true, false, not, ◌&&◌, ◌||◌, String, List, [], ◌∷◌, ◌++◌,
  Option, none, some, ◌==◌, string_key, arith, if◌then◌else◌, Bool-cases, inl, inr, map, map-cong,
  map-map, map-same, append-nil, append_assoc,
}
use personal_assistant.Outbox.Table.{
  Row, Table, includes, published_row, failed_row, update_where, mark_as_published, mark_as_failed,
  get_pending_events,
}
use personal_assistant.Outbox.Rows.{Distinct, same_flip, get_pending_events-Distinct}
use personal_assistant.Outbox.Relay.{
  Relay, Attempt, Message, Outbox, message_of, relay_event, relay_all, relay_with, taken, process,
}

-- What an attempt to publish makes of the event's row.
abbrev pub settle_with : Relay → Bool → ℕ → Option String → Row → Row
settle_with relay false at outcome row = row
settle_with relay true at none row = published_row at row
settle_with relay true at (some message) row =
    failed_row relay.assignment relay.max_retries at message row

abbrev pub settle : Relay → Attempt → Row → Row
settle relay attempt row = settle_with relay attempt.marks attempt.at attempt.publish_error row

-- What a run makes of a row.
unfoldable pub settled_in : Relay → (String → Attempt) → Table → Row → Row
settled_in relay attempts batch row =
    if not row.deleted && includes row.event_id batch
    then settle relay (attempts row.event_id) row
    else row

abbrev pub is_success : Option String → Bool
is_success none = true
is_success (some message) = false

-- The messages that a run hands to the publisher with success.
unfoldable pub delivered : (String → Attempt) → Table → List Message
delivered attempts [] = []
delivered attempts (event ∷ events) =
    let rest = delivered attempts events in
    if is_success (attempts event.event_id).publish_error then message_of event ∷ rest else rest

abbrev one : Relay → (String → Attempt) → Row → Row → Row
one relay attempts event row =
    if not row.deleted && row.event_id == event.event_id
    then settle relay (attempts row.event_id) row
    else row

same_row : (b : Bool) (row : Row) → (if b then row else row) ≡ row
same_row true row = refl
same_row false row = refl

settle-same :
    (relay : Relay) (attempts : String → Attempt) (event row : Row)
    → (if not row.deleted && row.event_id == event.event_id
        then settle relay (attempts event.event_id) row
        else row)
      ≡ one relay attempts event row
settle-same relay attempts event row = elim (Bool-cases (row.event_id == event.event_id)) [
  | inl q ↦
      ap
        (λ id.
          if not row.deleted && row.event_id == event.event_id
          then settle relay (attempts id) row
          else row)
        (sym ((string_key.same_iff row.event_id event.event_id).0 q))
  | inr q ↦ ground (arith, q)
]

relay_with-table :
    (relay : Relay) (event : Row) (marks : Bool) (at : ℕ) (outcome : Option String) (box : Outbox)
    → (relay_with relay event marks at outcome box).table
      ≡ map
          (λ row.
            if not row.deleted && row.event_id == event.event_id
            then settle_with relay marks at outcome row
            else row)
          box.table
unfolding mark_as_published mark_as_failed update_where
relay_with-table relay event true at none box = refl
relay_with-table relay event true at (some message) box = refl
relay_with-table relay event false at none box = sym (map-same _ (λ row. same_row _ row) box.table)
relay_with-table relay event false at (some message) box =
    sym (map-same _ (λ row. same_row _ row) box.table)

relay_event-table :
    (relay : Relay) (attempts : String → Attempt) (event : Row) (box : Outbox)
    → (relay_event relay attempts event box).table ≡ map (one relay attempts event) box.table
unfolding relay_event
relay_event-table relay attempts event box =
    relay_with-table relay event _ _ _ box
    ∙ map-cong _ _ (settle-same relay attempts event) box.table

settle-keeps :
    (relay : Relay) (marks : Bool) (at : ℕ) (outcome : Option String) (row : Row)
    → ((settle_with relay marks at outcome row).event_id ≡ row.event_id)
      × ((settle_with relay marks at outcome row).deleted ≡ row.deleted)
unfolding published_row failed_row
settle-keeps relay false at outcome row = (refl, refl)
settle-keeps relay true at none row = (refl, refl)
settle-keeps relay true at (some message) row = (refl, refl)

pub miss : (d i : Bool) (x y : Row) → i ≡ false → (if not d && i then x else y) ≡ y
miss true i x y q = refl
miss false i x y q = rw q refl

pub gone : (d i : Bool) (x y : Row) → d ≡ true → (if not d && i then x else y) ≡ y
gone d i x y q = rw q refl

pub hit : (d i : Bool) (x y : Row) → d ≡ false → i ≡ true → (if not d && i then x else y) ≡ x
hit d i x y q p = rw q (rw p refl)

module _ (relay : Relay) (attempts : String → Attempt) where
  settled-one :
      (event : Row) (events : Table) (row : Row)
      → includes event.event_id events ≡ false
      → settled_in relay attempts events (one relay attempts event row)
        ≡ settled_in relay attempts (event ∷ events) row
  unfolding settled_in includes
  settled-one event events row h = elim (Bool-cases row.deleted) [
    | inl d ↦
        ap (settled_in relay attempts events) (gone row.deleted _ _ row d)
        ∙ (gone row.deleted _ _ row d ∙ sym (gone row.deleted _ _ row d))
    | inr d ↦ elim (Bool-cases (row.event_id == event.event_id)) [
      | inl q ↦
          ap (settled_in relay attempts events) (hit row.deleted _ (now row) row d q)
          ∙ (miss (now row).deleted _ _ (now row) (not_again q)
              ∙ sym (hit row.deleted _ (now row) row d (found q)))
      | inr q ↦
          ap (settled_in relay attempts events) (miss row.deleted _ _ row q)
          ∙ ap (λ i. if not row.deleted && i then now row else row) (elsewhere q)
    ]
  ]
    where
      now : Row → Row
      now r = settle relay (attempts r.event_id) r

      found :
          (row.event_id == event.event_id) ≡ true
          → (event.event_id == row.event_id || includes row.event_id events) ≡ true
      found q =
          ap (λ x. x || includes row.event_id events) (same_flip event.event_id row.event_id ∙ q)

      elsewhere :
          (row.event_id == event.event_id) ≡ false
          → includes row.event_id events
            ≡ (event.event_id == row.event_id || includes row.event_id events)
      elsewhere q =
          sym (
            ap (λ x. x || includes row.event_id events) (same_flip event.event_id row.event_id ∙ q))

      not_again :
          (row.event_id == event.event_id) ≡ true → includes (now row).event_id events ≡ false
      not_again q =
          ap (λ id. includes id events)
            ((settle-keeps relay (attempts row.event_id).marks (attempts row.event_id).at
                (attempts row.event_id).publish_error row).0
              ∙ (string_key.same_iff row.event_id event.event_id).0 q)
          ∙ h

  settled-nothing : (row : Row) → settled_in relay attempts [] row ≡ row
  unfolding settled_in includes
  settled-nothing row = miss row.deleted false _ row refl

  relay_all-table :
      (batch : Table) (box : Outbox)
      → Distinct batch
      → (relay_all relay attempts batch box).table ≡ map (settled_in relay attempts batch) box.table
  unfolding relay_all
  relay_all-table [] box d = sym (map-same _ settled-nothing box.table)
  relay_all-table (event ∷ events) box d =
      relay_all-table events (relay_event relay attempts event box) d.1
      ∙ (ap (map (settled_in relay attempts events)) (relay_event-table relay attempts event box)
          ∙ (map-map _ _ box.table
              ∙ map-cong _ _ (λ row. settled-one event events row d.0) box.table))

  relay_with-sent :
      (event : Row) (marks : Bool) (at : ℕ) (outcome : Option String) (box : Outbox)
      (rest : List Message)
      → (relay_with relay event marks at outcome box).sent ++ rest
        ≡ box.sent ++ (if is_success outcome then message_of event ∷ rest else rest)
  relay_with-sent event marks at none box rest = append_assoc box.sent (message_of event ∷ []) rest
  relay_with-sent event marks at (some message) box rest = refl

  relay_all-sent :
      (batch : Table) (box : Outbox)
      → (relay_all relay attempts batch box).sent ≡ box.sent ++ delivered attempts batch
  unfolding relay_all delivered relay_event
  relay_all-sent [] box = sym (append-nil box.sent)
  relay_all-sent (event ∷ events) box =
      relay_all-sent events (relay_event relay attempts event box)
      ∙ relay_with-sent event _ _ _ box (delivered attempts events)

abbrev pub batch_of : Relay → Outbox → Table
batch_of relay box = get_pending_events relay.batch_size relay.max_retries box.table

either_way {ℓ} : {A : Type ℓ} (b : Bool) (x : A) → (if b then x else x) ≡ x
either_way true x = refl
either_way false x = refl

abbrev pub relayed : Relay → (String → Attempt) → Outbox → Outbox
relayed relay attempts box = record {
  table = map (settled_in relay attempts (batch_of relay box)) box.table;
  sent = box.sent ++ delivered attempts (batch_of relay box);
}

pub relay_all_exact :
    (relay : Relay) (attempts : String → Attempt) (box : Outbox)
    → Distinct box.table
    → relay_all relay attempts (batch_of relay box) box ≡ relayed relay attempts box
relay_all_exact relay attempts box d =
    ap
      (λ rows. record {
        table = rows;
        sent = (relay_all relay attempts (batch_of relay box) box).sent;
      })
      (relay_all-table relay attempts (batch_of relay box) box
        (get_pending_events-Distinct relay.batch_size relay.max_retries box.table d))
    ∙ ap (λ messages. record { table = (relayed relay attempts box).table; sent = messages })
        (relay_all-sent relay attempts (batch_of relay box) box)

-- On a table with distinct event ids, a run of the relay that gets the lock and the batch
-- returns no error; it turns each row into what its own attempt makes of it if the row is not
-- deleted and its id is in the batch of pending events, and leaves every other row as it is;
-- and it appends to the messages sent exactly those of the batch whose publishing succeeded, in
-- the batch's order.
pub process_exact :
    (relay : Relay) (attempts : String → Attempt) (box : Outbox)
    → Distinct box.table
    → process relay taken true attempts box ≡ (relayed relay attempts box, none)
unfolding process
process_exact relay attempts box d =
    either_way relay.lock_enabled _
    ∙ ap (λ after. (after, none)) (relay_all_exact relay attempts box d)

pub settled_in-keeps :
    (relay : Relay) (attempts : String → Attempt) (batch : Table) (row : Row)
    → (settled_in relay attempts batch row).event_id ≡ row.event_id
unfolding settled_in
settled_in-keeps relay attempts batch row = chosen (not row.deleted && includes row.event_id batch)
  where
    chosen :
        (b : Bool)
        → (if b then settle relay (attempts row.event_id) row else row).event_id ≡ row.event_id
    chosen true =
        (settle-keeps relay (attempts row.event_id).marks (attempts row.event_id).at
          (attempts row.event_id).publish_error row).0
    chosen false = refl
