-- ===== src/Outbox/Tests.antt =====
-- An outbox with one event, and the theorems of the outbox modules at it.
use personal_assistant.Base.{
  ◌≡◌, refl, true, false, String, [], ◌∷◌, none, string_key, arith, ltb, map,
}
use personal_assistant.Outbox.Table.{
  Row, published_row, pending, published, at_once, left_to_right, count_read, is_candidate,
  includes, create, get_pending_events, candidates, by_created_at, insert, take,
}
use personal_assistant.Outbox.Relay.{Relay, Attempt, Outbox, taken, process}
use personal_assistant.Outbox.Exact.{relayed, settled_in, process_exact}
use personal_assistant.Outbox.Retries.{after_failures, retry_budget}
use personal_assistant.Outbox.Reach.{Reach, starts, goes_on, creates, processes, Sound, Reach-Sound}

abbrev event : Row
event = record {
  event_id = "e1";
  event_type = "user.created";
  aggregate_id = "7";
  aggregate_type = "user";
  payload = "{}";
  status = pending;
  retry_count = 0;
  error_message = "";
  published_at = none;
  created_at = 10;
  updated_at = 10;
  deleted = false;
}

abbrev relay : Relay
relay = record { batch_size = 100; max_retries = 3; lock_enabled = true; assignment = at_once }

abbrev goes_well : String → Attempt
goes_well id = record { publish_error = none; marks = true; at = 20 }

abbrev before : Outbox
before = record { table = event ∷ []; sent = [] }

process_exact_example :
    process relay taken true goes_well before ≡ (relayed relay goes_well before, none)
unfolding includes
process_exact_example = process_exact relay goes_well before (refl, tt)

is_published_then : map (λ row. row.status) (relayed relay goes_well before).table ≡ published ∷ []
unfolding settled_in get_pending_events candidates by_created_at insert take includes published_row
is_published_then = refl

abbrev reached : Reach relay (process relay taken true goes_well before).0
unfolding create includes
reached =
    goes_on before _ (goes_on _ _ starts (creates _ event (event ∷ []) refl (omega arith) refl))
      (processes before taken true goes_well)

Reach-Sound_example : Sound 3 (process relay taken true goes_well before).0
Reach-Sound_example = Reach-Sound relay (process relay taken true goes_well before).0 reached

retry_budget_example :
    is_candidate 3 (after_failures left_to_right 3 20 "down" 2 event)
    ≡ ltb (count_read left_to_right 2) 3
retry_budget_example = retry_budget left_to_right 3 20 "down" event refl refl 1

two_tries_from_left_to_right : ltb (count_read left_to_right 2) 3 ≡ false
two_tries_from_left_to_right = refl

third_try_at_once : ltb (count_read at_once 2) 3 ≡ true
third_try_at_once = refl
