-- ===== src/Sse/Broker/Lifecycle.antt =====
-- `Live` through every method of the broker and every event of a connection.
use personal_assistant.Base.{
  ℕ, ◌≡◌, ◌≢◌, refl, ap, ◌∙◌, inl, inr, Bool, true, false, String, Option, none, some, List, [],
  ◌∷◌, nat_key, string_key, nat_eq_iff, arith, Option-cases, All, All-map,
}
use personal_assistant.Base.Maps.{get, get-put, get-del}
use personal_assistant.Sse.Types.{ConnectionPolicy, StreamEvent}
use personal_assistant.Sse.Connection.{Connection, Cells, start, enqueue}
use personal_assistant.Sse.Broker.{
  Broker, World, Wake, context_done, event_ready, heartbeat_due, new_broker, index, register,
  unindex, close, unregister, kick, offer, publish, close_all, loop_event, loop_step,
}
use personal_assistant.Sse.Broker.Live.{Live, Registered, Consistent, close-Live, close-shrinks}

-- Fewer connections, and cells that are as open and as hooked as before.
pub narrow-Live :
    (w w' : World)
    → Live w
    → ((j : String) (d : Connection)
        → get j w'.broker.conns ≡ some d
        → get j w.broker.conns ≡ some d)
    → ((a : ℕ) → (w'.cells a).closed ≡ (w.cells a).closed)
    → ((a : ℕ) → (w'.cells a).has_on_close ≡ (w.cells a).has_on_close)
    → Live w'
narrow-Live w w' v sub same hook = record {
  named = λ id d q. v.named id d (sub id d q);
  is_open = λ d q.
      (same d.addr ∙ (v.is_open d (sub d.id d q)).0, hook d.addr ∙ (v.is_open d (sub d.id d q)).1);
  apart = λ d d' q q'. v.apart d d' (sub d.id d q) (sub d'.id d' q');
}

pub new_broker-Live :
    (policy : ConnectionPolicy) (cells : Cells)
    → Live (record { broker = new_broker policy; cells = cells })
unfolding new_broker get
new_broker-Live policy cells = record {
  named = λ id c q. cc;
  is_open = λ c q. absurd (cc);
  apart = λ c d q. cc;
}

-- What `register` needs of a new connection: an id and an address that are not in use.
pub record IsNew (c : Connection) (w : World) : Type 0 where
  pub new_id : get c.id w.broker.conns ≡ none
  pub new_addr : (d : Connection) → Registered d w.broker → d.addr ≢ c.addr
  pub unclosed : (w.cells c.addr).closed ≡ false

pub register-Live : (c : Connection) (w : World) → Live w → IsNew c w → Live (register (some c) w).0
unfolding register index start
register-Live c w v n = record {
  named = λ id d q.
      ground
        (arith, q, get-put c.id id c w.broker.conns, v.named id d, string_key.same_iff c.id id);
  is_open = λ d q. ground (
    arith,
    q,
    get-put c.id d.id c w.broker.conns,
    v.is_open d,
    n.unclosed,
    n.new_addr d,
    string_key.same_iff c.id d.id,
  );
  apart = λ d d' q q'. ground (
    arith,
    q,
    q',
    get-put c.id d.id c w.broker.conns,
    get-put c.id d'.id c w.broker.conns,
    v.apart d d',
    n.new_addr d,
    n.new_addr d',
    string_key.same_iff c.id d.id,
    string_key.same_iff c.id d'.id,
  );
}

unindex-shrinks :
    (id : String) (c : Connection) (b : Broker) (j : String) (d : Connection)
    → get j (unindex id c b).conns ≡ some d
    → get j b.conns ≡ some d
unfolding unindex
unindex-shrinks id c b j d q = ground (arith, q, get-del id j b.conns)

Registered-Consistent :
    (c : Connection) (w : World) → Live w → Registered c w.broker → Consistent c w.broker
Registered-Consistent c w v r d q e = v.apart d c q r e

pub unregister-Live : (id : String) (w : World) → Live w → Live (unregister id w)
unregister-Live id w v = elim (Option-cases (get id w.broker.conns)) [
  | inl q ↦ unfold unregister in rw (q, unregister) v
  | inr (c, q) ↦
      unfold unregister in
      rw (q, unregister)
        (close-Live c "unregister" _
          (narrow-Live w _ v (unindex-shrinks id c w.broker) (λ a. refl) (λ a. refl))
          λ d r e.
            Registered-Consistent c w v (ap (λ i. get i w.broker.conns) (v.named id c q) ∙ q) d
              (unindex-shrinks id c w.broker d.id d r) e)
]

kick-Live : (ids : List String) (w : World) → Live w → Live (kick ids w)
unfolding kick
kick-Live [] w v = v
kick-Live (id ∷ ids) w v =
    kick-Live ids _ (unregister-Live id _ (narrow-Live w _ v (λ j d q. q) (λ a. refl) (λ a. refl)))

enqueue-open :
    (c : Connection) (evt : Option StreamEvent) (cells : Cells) (a : ℕ)
    → (((enqueue c evt cells).0 a).closed ≡ (cells a).closed)
      × (((enqueue c evt cells).0 a).has_on_close ≡ (cells a).has_on_close)
unfolding enqueue
enqueue-open c evt cells a = ground (arith, nat_eq_iff c.addr a)

pub offer-open :
    (cs : List Connection) (evt : StreamEvent) (cells : Cells) (a : ℕ)
    → (((offer cs evt cells).0 a).closed ≡ (cells a).closed)
      × (((offer cs evt cells).0 a).has_on_close ≡ (cells a).has_on_close)
unfolding offer
offer-open [] evt cells a = (refl, refl)
offer-open (c ∷ cs) evt cells a =
    ground
      (arith, offer-open cs evt (enqueue c (some evt) cells).0 a, enqueue-open c (some evt) cells a)

pub publish-Live :
    (cs : List Connection) (evt : Option StreamEvent) (w : World)
    → Live w
    → Live (publish cs evt w).0
unfolding publish
publish-Live cs none w v = v
publish-Live cs (some evt) w v = kick-Live _ _ (
    narrow-Live w _ v (λ j d q. q) (λ a. (offer-open cs evt w.cells a).0)
      (λ a. (offer-open cs evt w.cells a).1))

close-Consistent :
    (c : Connection) (reason : String) (w : World) (d : Connection)
    → Consistent d w.broker
    → Consistent d (close c reason w).broker
close-Consistent c reason w d k e q = k e (close-shrinks c reason w e.id e q)

-- Every handle of the list stays consistent while connections are closed.
pub close_all-Live :
    (cs : List Connection) (reason : String) (w : World)
    → Live w
    → All (λ c. Consistent c w.broker) cs
    → Live (close_all cs reason w)
unfolding close_all
close_all-Live [] reason w v k = v
close_all-Live (c ∷ cs) reason w v k =
    close_all-Live cs reason (close c reason w) (close-Live c reason w v k.0)
      (All-map (λ d. close-Consistent c reason w d) cs k.1)

-- The connections of a snapshot are registered.
pub All-Consistent :
    (w : World) (cs : List Connection)
    → Live w
    → All (λ c. Registered c w.broker) cs
    → All (λ c. Consistent c w.broker) cs
All-Consistent w cs v = All-map (λ c r. Registered-Consistent c w v r) cs

store-Live :
    (w : World) (cells : Cells)
    → Live w
    → ((a : ℕ) → ((cells a).closed ≡ (w.cells a).closed))
    → ((a : ℕ) → ((cells a).has_on_close ≡ (w.cells a).has_on_close))
    → Live (record w { cells = cells })
store-Live w cells v same hook = narrow-Live w _ v (λ j d q. q) same hook

loop_event-Live :
    (c : Connection) (ok : Bool) (queue : List (Option StreamEvent)) (w : World)
    → Live w
    → Consistent c w.broker
    → Live (loop_event c ok queue w)
unfolding loop_event
loop_event-Live c ok [] w v k = v
loop_event-Live c ok (none ∷ queue) w v k =
    store-Live w _ v (λ a. ground (arith, nat_eq_iff c.addr a))
      (λ a. ground (arith, nat_eq_iff c.addr a))
loop_event-Live c true (some evt ∷ queue) w v k =
    store-Live w _ v (λ a. ground (arith, nat_eq_iff c.addr a))
      (λ a. ground (arith, nat_eq_iff c.addr a))
loop_event-Live c false (some evt ∷ queue) w v k =
    close-Live c "write_failed" _
      (store-Live w _ v (λ a. ground (arith, nat_eq_iff c.addr a))
        (λ a. ground (arith, nat_eq_iff c.addr a)))
      k

pub loop_step-Live :
    (c : Connection) (wake : Wake) (w : World)
    → Live w
    → Consistent c w.broker
    → Live (loop_step c wake w)
unfolding loop_step
loop_step-Live c context_done w v k =
    ground (arith, close-Live c "context_done" w v k, close-Live c "writer_missing" w v k)
loop_step-Live c (event_ready ok) w v k =
    ground (
      arith,
      loop_event-Live c ok (w.cells c.addr).queue w v k,
      close-Live c "writer_missing" w v k,
    )
loop_step-Live c (heartbeat_due ok) w v k =
    ground (arith, close-Live c "heartbeat_failed" w v k, close-Live c "writer_missing" w v k)
