-- ===== src/Sse/Broker/Shutdown.antt =====
-- Closing a snapshot: `RevokeSubject` and `BeginDrain` take out exactly the connections that they
-- snapshot, and leave them closed.
use personal_assistant.Base.{
  ℕ, ◌≡◌, refl, sym, ap, ◌∙◌, ◌⊎◌, inl, inr, Bool, true, false, String, Option, none, some, List,
  [], ◌∷◌, ◌||◌, if◌then◌else◌, nat_key, string_key, nat_eq, nat_eq_iff, arith, Bool-cases, ◌==◌,
  All, All-map,
}
use personal_assistant.Base.Maps.{
  Map, get, Unique, get-head, get-tail, values, values-All, All-values,
}
use personal_assistant.Base.Buckets.{bucket, entry}
use personal_assistant.Sse.Connection.{Connection}
use personal_assistant.Sse.Broker.{
  Broker, World, subject_key, close, close_all, snapshot_all, snapshot_by_subject, revoke_subject,
  begin_drain,
}
use personal_assistant.Sse.Broker.Indexed.{Indexed, selected}
use personal_assistant.Sse.Broker.Methods.{close_all-Indexed}
use personal_assistant.Sse.Broker.Live.{
  Live, Registered, Consistent, close-Live, close_closed, get-close, cells-close,
}

-- Registered still, or closed and gone.
abbrev pub Settled : World → Connection → Type 0
Settled w c =
    Registered c w.broker ⊎ ((get c.id w.broker.conns ≡ none) × ((w.cells c.addr).closed ≡ true))

abbrev pub has_id : String → List Connection → Bool
has_id j [] = false
has_id j (c ∷ cs) = c.id == j || has_id j cs

abbrev pub is_some {ℓ} : {A : Type ℓ} → Option A → Bool
is_some none = false
is_some (some a) = true

closed_stays :
    (c : Connection) (reason : String) (w : World) (a : ℕ)
    → (w.cells a).closed ≡ true
    → ((close c reason w).cells a).closed ≡ true
closed_stays c reason w a h = elim (Bool-cases (nat_eq c.addr a)) [
  | inl e ↦
      ap (λ b. ((close c reason w).cells b).closed) (sym ((nat_eq_iff c.addr a).0 e))
      ∙ close_closed c reason w
  | inr e ↦ rw (cells-close c reason w a (ground arith)) h
]

get-close-Settled :
    (c : Connection) (reason : String) (w : World) (j : String)
    → Live w
    → Settled w c
    → get j (close c reason w).broker.conns ≡ (if c.id == j then none else get j w.broker.conns)
get-close-Settled c reason w j v (inl r) = ground (arith, v.is_open c r, get-close c reason w j)
get-close-Settled c reason w j v (inr (gone, shut)) =
    ground (arith, gone, shut, get-close c reason w j, string_key.same_iff c.id j)

Settled-close :
    (c : Connection) (reason : String) (w : World)
    → Live w
    → Settled w c
    → (d : Connection) → Settled w d
    → Settled (close c reason w) d
Settled-close c reason w v sc d (inr (gone, shut)) = inr (
  ground (arith, gone, get-close-Settled c reason w d.id v sc),
  closed_stays c reason w d.addr shut,
)
Settled-close c reason w v (inr (gone, shut)) d (inl r) =
    inl (ground (arith, r, shut, get-close c reason w d.id))
Settled-close c reason w v (inl rc) d (inl r) = elim (Bool-cases (c.id == d.id)) [
  | inl e ↦ inr (
    rw (get-close-Settled c reason w d.id v (inl rc)) (rw e),
    ap (λ b. ((close c reason w).cells b).closed) (ap (λ x. x.addr) (same e))
        ∙ close_closed c reason w,
  )
  | inr e ↦ inl (rw (get-close-Settled c reason w d.id v (inl rc)) (rw e r))
]
  where
    same : (c.id == d.id) ≡ true → d ≡ c
    same e = ground (arith, r, rc, string_key.same_iff c.id d.id)

pub Settled-Consistent : (w : World) (c : Connection) → Live w → Settled w c → Consistent c w.broker
Settled-Consistent w c v (inl r) d q e = v.apart d c q r e
Settled-Consistent w c v (inr (gone, shut)) d q e =
    absurd (cc ((v.is_open d q).0, ap (λ a. (w.cells a).closed) e, shut))

-- A registry without the connections of a list, each closed; the other entries stay.
close_all_lem :
    (cs : List Connection) (reason : String) (w : World)
    → Live w
    → All (Settled w) cs
    → ((j : String)
        → get j (close_all cs reason w).broker.conns
          ≡ (if has_id j cs then none else get j w.broker.conns))
      × ((a : ℕ) → (w.cells a).closed ≡ true → ((close_all cs reason w).cells a).closed ≡ true)
      × All (λ c. ((close_all cs reason w).cells c.addr).closed ≡ true) cs
unfolding close_all
close_all_lem [] reason w v s = (λ j. refl, λ a h. h, tt)
close_all_lem (c ∷ cs) reason w v s =
    let w' = close c reason w in
    let v' : Live w' = close-Live c reason w v (Settled-Consistent w c v s.0) in
    let (found, keep, shut) =
      close_all_lem cs reason w' v' (All-map (Settled-close c reason w v s.0) cs s.1) in
    (
      λ j. ground (arith, found j, get-close-Settled c reason w j v s.0),
      λ a h. keep a (closed_stays c reason w a h),
      (keep c.addr (close_closed c reason w), shut),
    )

selected-some :
    (s : ℕ) (o : Option Connection) (c : Connection)
    → selected subject_key s o ≡ some c
    → o ≡ some c
selected-some s none c q = cc
selected-some s (some d) c q = ground (arith, q)

pub selected_self :
    (s : ℕ) (o : Option Connection) (c : Connection)
    → o ≡ some c
    → subject_key c ≡ some s
    → selected subject_key s o ≡ some c
selected_self s none c q k = cc
selected_self s (some d) c q k = ground (arith, q, k, nat_key.same_iff s s)

emptied :
    (s : ℕ) (o : Option Connection) (b : Bool)
    → b ≡ is_some (selected subject_key s o)
    → selected subject_key s (if b then none else o) ≡ none
emptied s o true q = refl
emptied s none false q = refl
emptied s (some d) false q = ground arith

entry_registered :
    (s : ℕ) (b : Broker) (j : String) (c : Connection)
    → Indexed b
    → entry s j b.by_subject ≡ some c
    → (get j b.conns ≡ some c) × (c.id ≡ j)
entry_registered s b j c i q =
    let there = selected-some s (get j b.conns) c (sym (i.subject_exact s j) ∙ q) in
    (there, i.named j c there)

has_id-values :
    (j : String) (m : Map String Connection)
    → Unique m
    → ((i : String) (d : Connection) → get i m ≡ some d → d.id ≡ i)
    → has_id j (values m) ≡ is_some (get j m)
unfolding values get
has_id-values j [] u named = refl
has_id-values j ((i, d) ∷ m) u named = ground (
  arith,
  named i d (get-head i d m),
  has_id-values j m u.1 (λ k x q. named k x (get-tail i k d x m u.0 q)),
  ap (λ x. x == j) (named i d (get-head i d m)),
)

pub All-Settled : (w : World) → Indexed w.broker → All (Settled w) (snapshot_all w.broker)
unfolding snapshot_all
All-Settled w i =
    values-All (Settled w) w.broker.conns i.conns_unique
      λ j c q. inl (ap (λ x. get x w.broker.conns) (i.named j c q) ∙ q)

abbrev pub drained : World → World
drained w = record w { broker = record (w.broker) { draining = true } }

pub begin_drain-eq :
    (w : World)
    → w.broker.draining ≡ false
    → begin_drain w ≡ close_all (snapshot_all w.broker) "drain" (drained w)
unfolding begin_drain snapshot_all
begin_drain-eq w q = simp q

pub drained-Live : (w : World) → Live w → Live (drained w)
drained-Live w v = record { named = v.named; is_open = v.is_open; apart = v.apart }

-- A drain leaves no connection registered, and every connection that was registered closed.
pub begin_drain-empties :
    (w : World)
    → Indexed w.broker
    → Live w
    → w.broker.draining ≡ false
    → ((j : String) → get j (begin_drain w).broker.conns ≡ none)
      × ((c : Connection) → Registered c w.broker → ((begin_drain w).cells c.addr).closed ≡ true)
unfolding snapshot_all
begin_drain-empties w i v q =
    let (found, keep, shut) =
      close_all_lem (snapshot_all w.broker) "drain" (drained w) (drained-Live w v)
        (All-Settled w i) in
    rw (begin_drain-eq w q) (
      λ j. ground (arith, found j, has_id-values j w.broker.conns i.conns_unique i.named),
      λ c r. All-values _ w.broker.conns c.id c r shut,
    )

pub subject-Settled :
    (w : World) → Indexed w.broker → (s : ℕ) → All (Settled w) (snapshot_by_subject s w.broker)
unfolding snapshot_by_subject
subject-Settled w i s =
    values-All (Settled w) (bucket s w.broker.by_subject) (i.subject_unique s) λ j c q.
      let (there, same) = entry_registered s w.broker j c i q in
      inl (ap (λ x. get x w.broker.conns) same ∙ there)

-- In a world whose indexes are exact and whose connections are live, revoking a subject takes
-- out of the registry exactly the connections with that subject key, leaves nothing under the
-- subject in the subject index, and closes each registered connection of the subject.
pub revoke_subject_exact :
    (w : World) (s : ℕ) (reason : String)
    → Indexed w.broker
    → Live w
    → ((j : String)
        → get j (revoke_subject s reason w).0.broker.conns ≡ (
            if is_some (selected subject_key s (get j w.broker.conns))
            then none
            else get j w.broker.conns))
      × ((j : String) → entry s j (revoke_subject s reason w).0.broker.by_subject ≡ none)
      × ((c : Connection)
          → Registered c w.broker
          → subject_key c ≡ some s
          → ((revoke_subject s reason w).0.cells c.addr).closed ≡ true)
unfolding revoke_subject snapshot_by_subject
revoke_subject_exact w s reason i v =
    let (found, keep, shut) =
      close_all_lem (snapshot_by_subject s w.broker) reason w v (subject-Settled w i s) in
    let after = close_all-Indexed (snapshot_by_subject s w.broker) reason w i in
    (
      λ j. ground (arith, found j, listed j, i.subject_exact s j),
      λ j.
          after.subject_exact s j
          ∙ (ap (selected subject_key s) (found j)
              ∙ emptied s (get j w.broker.conns) _ (listed j ∙ ap is_some (i.subject_exact s j))),
      λ c r k.
          All-values _ (bucket s w.broker.by_subject) c.id c
            (i.subject_exact s c.id ∙ selected_self s _ c r k) shut,
    )
  where
    listed :
        (j : String)
        → has_id j (values (bucket s w.broker.by_subject)) ≡ is_some (entry s j w.broker.by_subject)
    listed j =
        has_id-values j (bucket s w.broker.by_subject) (i.subject_unique s)
          (λ k d q. (entry_registered s w.broker k d i q).1)
