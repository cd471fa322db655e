-- ===== src/Sse/Broker/Drained.antt =====
-- After a drain the broker takes no connection again, whatever is called.
use personal_assistant.Base.{
  ◌≡◌, refl, ap, ◌∙◌, Bool, true, false, String, Option, none, some, List, [], ◌∷◌, nat_key,
  string_key, arith,
}
use personal_assistant.Base.Maps.{get}
use personal_assistant.Sse.Types.{StreamEvent}
use personal_assistant.Sse.Connection.{Connection}
use personal_assistant.Sse.Broker.{
  Broker, World, broker_is_draining, Wake, context_done, event_ready, heartbeat_due, register,
  unindex, unregister_internal, close, unregister, kick, publish, publish_to_subject,
  publish_to_channel, close_all, revoke_subject, begin_drain, loop_event, loop_step,
}
use personal_assistant.Sse.Broker.Live.{close-shrinks}
use personal_assistant.Sse.Broker.Methods.{
  Call, registers, unregisters, publishes_to_subject, publishes_to_channel, revokes, drains, closes,
  wakes, step,
}

-- Draining, with no connection registered.
pub record IsDrained (w : World) : Type 0 where
  pub flag : w.broker.draining ≡ true
  pub gone : (j : String) → get j w.broker.conns ≡ none

unregister_internal-draining :
    (id : String) (b : Broker) → (unregister_internal id b).draining ≡ b.draining
unfolding unregister_internal unindex
unregister_internal-draining id b = ground arith

close-draining :
    (c : Connection) (reason : String) (w : World)
    → (close c reason w).broker.draining ≡ w.broker.draining
unfolding close
close-draining c reason w = ground (arith, unregister_internal-draining c.id w.broker)

none_of_shrinks :
    (o o' : Option Connection)
    → o ≡ none
    → ((d : Connection) → o' ≡ some d → o ≡ some d)
    → o' ≡ none
none_of_shrinks o none q f = refl
none_of_shrinks o (some d) q f = absurd (cc (q, f d refl))

close-IsDrained :
    (c : Connection) (reason : String) (w : World) → IsDrained w → IsDrained (close c reason w)
close-IsDrained c reason w v = record {
  flag = close-draining c reason w ∙ v.flag;
  gone = λ j. none_of_shrinks _ _ (v.gone j) (close-shrinks c reason w j);
}

unregister-IsDrained : (id : String) (w : World) → IsDrained w → IsDrained (unregister id w)
unfolding unregister
unregister-IsDrained id w v = rw (v.gone id, unregister) v

kick-IsDrained : (ids : List String) (w : World) → IsDrained w → IsDrained (kick ids w)
unfolding kick
kick-IsDrained [] w v = v
kick-IsDrained (id ∷ ids) w v =
    kick-IsDrained ids _ (unregister-IsDrained id _ (record { flag = v.flag; gone = v.gone }))

publish-IsDrained :
    (cs : List Connection) (evt : Option StreamEvent) (w : World)
    → IsDrained w
    → IsDrained (publish cs evt w).0
unfolding publish
publish-IsDrained cs none w v = v
publish-IsDrained cs (some evt) w v = kick-IsDrained _ _ (record { flag = v.flag; gone = v.gone })

close_all-IsDrained :
    (cs : List Connection) (reason : String) (w : World)
    → IsDrained w
    → IsDrained (close_all cs reason w)
unfolding close_all
close_all-IsDrained [] reason w v = v
close_all-IsDrained (c ∷ cs) reason w v =
    close_all-IsDrained cs reason (close c reason w) (close-IsDrained c reason w v)

loop_event-IsDrained :
    (c : Connection) (ok : Bool) (queue : List (Option StreamEvent)) (w : World)
    → IsDrained w
    → IsDrained (loop_event c ok queue w)
unfolding loop_event
loop_event-IsDrained c ok [] w v = v
loop_event-IsDrained c ok (none ∷ queue) w v = record { flag = v.flag; gone = v.gone }
loop_event-IsDrained c true (some evt ∷ queue) w v = record { flag = v.flag; gone = v.gone }
loop_event-IsDrained c false (some evt ∷ queue) w v =
    close-IsDrained c "write_failed" _ (record { flag = v.flag; gone = v.gone })

loop_step-IsDrained :
    (c : Connection) (wake : Wake) (w : World) → IsDrained w → IsDrained (loop_step c wake w)
unfolding loop_step
loop_step-IsDrained c context_done w v =
    ground (arith, close-IsDrained c "context_done" w v, close-IsDrained c "writer_missing" w v)
loop_step-IsDrained c (event_ready ok) w v = ground (
  arith,
  loop_event-IsDrained c ok (w.cells c.addr).queue w v,
  close-IsDrained c "writer_missing" w v,
)
loop_step-IsDrained c (heartbeat_due ok) w v =
    ground (arith, close-IsDrained c "heartbeat_failed" w v, close-IsDrained c "writer_missing" w v)

-- While the broker drains, a registration is refused and changes nothing.
pub register-draining :
    (c : Connection) (w : World)
    → w.broker.draining ≡ true
    → register (some c) w ≡ (w, some broker_is_draining)
unfolding register
register-draining c w q = ground arith

begin_drain-again : (w : World) → w.broker.draining ≡ true → begin_drain w ≡ w
unfolding begin_drain
begin_drain-again w q = ground arith

step-IsDrained : (w : World) (call : Call) → IsDrained w → IsDrained (step w call)
unfolding step publish_to_subject publish_to_channel revoke_subject
step-IsDrained w (registers c) v = rw (ap (λ r. r.0) (register-draining c w v.flag)) v
step-IsDrained w (unregisters id) v = unregister-IsDrained id w v
step-IsDrained w (publishes_to_subject s evt) v = publish-IsDrained _ evt w v
step-IsDrained w (publishes_to_channel ch evt) v = publish-IsDrained _ evt w v
step-IsDrained w (revokes s reason) v = close_all-IsDrained _ reason w v
step-IsDrained w drains v = rw (begin_drain-again w v.flag) v
step-IsDrained w (closes c reason) v = close-IsDrained c reason w v
step-IsDrained w (wakes c wake) v = loop_step-IsDrained c wake w v

pub run : World → List Call → World
run w [] = w
run w (call ∷ calls) = run (step w call) calls

-- Once the broker drains with an empty registry, no sequence of calls registers a connection or
-- ends the drain.
pub run-IsDrained : (w : World) (calls : List Call) → IsDrained w → IsDrained (run w calls)
unfolding run
run-IsDrained w [] v = v
run-IsDrained w (call ∷ calls) v = run-IsDrained (step w call) calls (step-IsDrained w call v)

pub close_all-draining :
    (cs : List Connection) (reason : String) (w : World)
    → (close_all cs reason w).broker.draining ≡ w.broker.draining
unfolding close_all
close_all-draining [] reason w = refl
close_all-draining (c ∷ cs) reason w =
    close_all-draining cs reason (close c reason w) ∙ close-draining c reason w
