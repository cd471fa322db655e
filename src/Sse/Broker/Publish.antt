-- ===== src/Sse/Broker/Publish.antt =====
-- What a broadcast does: who gets the event, who is kicked, what is counted.
use personal_assistant.Base.{
  ℕ, ◌+◌, ◌%◌, ◌≡◌, ◌≢◌, refl, ap, ◌∙◌, inl, inr, Bool, false, not, ◌&&◌, ◌||◌, String, Option,
  none, some, List, [], ◌∷◌, ◌++◌, if◌then◌else◌, nat_key, string_key, nat_eq_iff, ltb, arith,
  Option-cases, ◌==◌, All, All-map, All-map2, length,
}
use personal_assistant.Base.Maps.{get, get-del}
use personal_assistant.Base.Int.{pos_part}
use personal_assistant.Sse.Types.{StreamEvent}
use personal_assistant.Sse.Connection.{Connection, Cells, enqueue, mark_closed}
use personal_assistant.Sse.Broker.{
  World, unindex, unregister_internal, close, unregister, offer, kick, publish,
}
use personal_assistant.Sse.Broker.Live.{Live, get-close}
use personal_assistant.Sse.Broker.Lifecycle.{narrow-Live, offer-open, unregister-Live}

-- Open, with room in its queue.
abbrev pub accepts : Cells → Connection → Bool
accepts cells c =
    not (cells c.addr).closed
    && ltb (length (cells c.addr).queue) (pos_part c.policy.queue_capacity)

abbrev pub count_accepting : Cells → List Connection → ℕ
count_accepting cells [] = 0
count_accepting cells (c ∷ cs) =
    if accepts cells c then count_accepting cells cs + 1 else count_accepting cells cs

abbrev pub refusing : Cells → List Connection → List String
refusing cells [] = []
refusing cells (c ∷ cs) = if accepts cells c then refusing cells cs else c.id ∷ refusing cells cs

abbrev pub names : String → List String → Bool
names j [] = false
names j (id ∷ ids) = id == j || names j ids

-- The connections of the list are different objects.
abbrev pub Apart : List Connection → Type 0
Apart [] = Unit {0}
Apart (c ∷ cs) = All (λ d. c.addr ≢ d.addr) cs × Apart cs

enqueue-far :
    (c : Connection) (evt : Option StreamEvent) (cells : Cells) (a : ℕ)
    → c.addr ≢ a
    → (enqueue c evt cells).0 a ≡ cells a
unfolding enqueue
enqueue-far c evt cells a far = ground (arith, far)

same_after :
    (c : Connection) (evt : Option StreamEvent) (cells : Cells) (cs : List Connection)
    → All (λ d. c.addr ≢ d.addr) cs
    → (refusing (enqueue c evt cells).0 cs ≡ refusing cells cs)
      × (count_accepting (enqueue c evt cells).0 cs ≡ count_accepting cells cs)
same_after c evt cells [] far = (refl, refl)
same_after c evt cells (d ∷ cs) far =
    ground (arith, same_after c evt cells cs far.1, enqueue-far c evt cells d.addr far.0)

offer-counts :
    (cs : List Connection) (evt : StreamEvent) (cells : Cells)
    → Apart cs
    → ((offer cs evt cells).1 ≡ count_accepting cells cs)
      × ((offer cs evt cells).2 ≡ refusing cells cs)
unfolding offer
offer-counts [] evt cells h = (refl, refl)
offer-counts (c ∷ cs) evt cells h = ground (
  arith,
  taken,
  same_after c (some evt) cells cs h.0,
  offer-counts cs evt (enqueue c (some evt) cells).0 h.1,
)
  where
    taken : (enqueue c (some evt) cells).1 ≡ accepts cells c
    taken = unfold enqueue in ground arith

-- An accepting connection has the event at the end of its queue; any other queue is as it was.
abbrev pub queue_after : Cells → StreamEvent → Connection → List (Option StreamEvent)
queue_after cells evt c =
    if accepts cells c then (cells c.addr).queue ++ some evt ∷ [] else (cells c.addr).queue

offer-far :
    (cs : List Connection) (evt : StreamEvent) (cells : Cells) (a : ℕ)
    → All (λ d. a ≢ d.addr) cs
    → (offer cs evt cells).0 a ≡ cells a
unfolding offer
offer-far [] evt cells a far = refl
offer-far (d ∷ cs) evt cells a far =
    ground (arith, offer-far cs evt (enqueue d (some evt) cells).0 a far.1, untouched)
  where
    untouched : (enqueue d (some evt) cells).0 a ≡ cells a
    untouched = unfold enqueue in ground (arith, far.0)

queues_offered :
    (cs : List Connection) (evt : StreamEvent) (cells : Cells)
    → Apart cs
    → All (λ c. ((offer cs evt cells).0 c.addr).queue ≡ queue_after cells evt c) cs
unfolding offer
queues_offered [] evt cells h = tt
queues_offered (c ∷ cs) evt cells h = (
  ground (arith, mine, offer-far cs evt (enqueue c (some evt) cells).0 c.addr h.0),
  rest (queues_offered cs evt (enqueue c (some evt) cells).0 h.1),
)
  where
    step :
        (d : Connection)
        → c.addr ≢ d.addr
        → ((offer cs evt (enqueue c (some evt) cells).0).0 d.addr).queue
          ≡ queue_after (enqueue c (some evt) cells).0 evt d
        → ((offer (c ∷ cs) evt cells).0 d.addr).queue ≡ queue_after cells evt d
    step d far q = ground (arith, q, enqueue-far c (some evt) cells d.addr far)

    rest :
        All
          (λ d.
            ((offer cs evt (enqueue c (some evt) cells).0).0 d.addr).queue
            ≡ queue_after (enqueue c (some evt) cells).0 evt d)
          cs
        → All (λ d. ((offer (c ∷ cs) evt cells).0 d.addr).queue ≡ queue_after cells evt d) cs
    rest = All-map2 step cs h.0

    mine : ((enqueue c (some evt) cells).0 c.addr).queue ≡ queue_after cells evt c
    mine = unfold enqueue in ground arith

get-unregister :
    (id j : String) (w : World)
    → Live w
    → get j (unregister id w).broker.conns ≡ (if id == j then none else get j w.broker.conns)
get-unregister id j w v = elim (Option-cases (get id w.broker.conns)) [
  | inl q ↦ unfold unregister in rw (q, unregister) (ground (arith, q, string_key.same_iff id j))
  | inr (c, q) ↦
      unfold unregister unindex in
      rw (q, unregister)
        (ground (
          arith,
          q,
          v.named id c q,
          get-close c "unregister" (record w { broker = unindex id c w.broker }) j,
          get-del id j w.broker.conns,
          string_key.same_iff id j,
          string_key.same_iff c.id j,
        ))
]

cells-unregister :
    (id : String) (w : World) (a : ℕ) → ((unregister id w).cells a).queue ≡ (w.cells a).queue
cells-unregister id w a = elim (Option-cases (get id w.broker.conns)) [
  | inl q ↦ unfold unregister in rw (q, unregister)
  | inr (c, q) ↦
      unfold unregister close mark_closed in
      rw (q, unregister) (ground (arith, nat_eq_iff c.addr a))
]

dropped-unregister :
    (id : String) (w : World)
    → (unregister id w).broker.dropped_slow_consumers ≡ w.broker.dropped_slow_consumers
dropped-unregister id w = elim (Option-cases (get id w.broker.conns)) [
  | inl q ↦ unfold unregister in rw (q, unregister)
  | inr (c, q) ↦
      unfold unregister close unregister_internal unindex in rw (q, unregister) (ground arith)
]

abbrev counted : World → World
counted w = record w {
  broker = record (w.broker) {
    dropped_slow_consumers = (w.broker.dropped_slow_consumers + 1) % 18446744073709551616;
  };
}

counted-Live : (w : World) → Live w → Live (counted w)
counted-Live w v = record { named = v.named; is_open = v.is_open; apart = v.apart }

kick_lem :
    (ids : List String) (w : World)
    → Live w
    → ((j : String)
        → get j (kick ids w).broker.conns ≡ (if names j ids then none else get j w.broker.conns))
      × ((a : ℕ) → ((kick ids w).cells a).queue ≡ (w.cells a).queue)
      × ((kick ids w).broker.dropped_slow_consumers % 18446744073709551616
          ≡ (w.broker.dropped_slow_consumers + length ids) % 18446744073709551616)
unfolding kick
kick_lem [] w v = (λ j. refl, λ a. refl, omega arith)
kick_lem (id ∷ ids) w v =
    let v' = unregister-Live id (counted w) (counted-Live w v) in
    let (found, queues, dropped) = kick_lem ids (unregister id (counted w)) v' in
    (
      λ j. ground (arith, found j, get-unregister id j (counted w) (counted-Live w v)),
      λ a. queues a ∙ cells-unregister id (counted w) a,
      ground (arith, dropped, dropped-unregister id (counted w)),
    )

-- In a world whose registered connections are live, publishing an event to different
-- connections returns how many of them were open with room in their queue; each of those gets
-- the event at the end of its queue and the queue of every other connection of the list is as
-- it was; exactly the ids of the others are taken out of the registry; and the counter of slow
-- consumers grows by their number modulo 2^64.
pub publish_exact :
    (cs : List Connection) (evt : StreamEvent) (w : World)
    → Live w
    → Apart cs
    → let (w', delivered) = publish cs (some evt) w in
      (delivered ≡ count_accepting w.cells cs)
      × ((j : String)
          → get j w'.broker.conns
            ≡ (if names j (refusing w.cells cs) then none else get j w.broker.conns))
      × All (λ c. (w'.cells c.addr).queue ≡ queue_after w.cells evt c) cs
      × (w'.broker.dropped_slow_consumers % 18446744073709551616
          ≡ (w.broker.dropped_slow_consumers + length (refusing w.cells cs)) % 18446744073709551616)
unfolding publish
publish_exact cs evt w v h =
    let (delivered, refused) = offer-counts cs evt w.cells h in
    let v' =
      narrow-Live w (record w { cells = (offer cs evt w.cells).0 }) v (λ j d q. q)
        (λ a. (offer-open cs evt w.cells a).0) (λ a. (offer-open cs evt w.cells a).1) in
    let (found, queues, dropped) = kick_lem (offer cs evt w.cells).2 _ v' in
    (
      delivered,
      λ j. found j ∙ ap (λ ids. if names j ids then none else get j w.broker.conns) refused,
      All-map (λ c q. queues c.addr ∙ q) cs (queues_offered cs evt w.cells h),
      dropped
          ∙ ap (λ ids. (w.broker.dropped_slow_consumers + length ids) % 18446744073709551616)
              refused,
    )
