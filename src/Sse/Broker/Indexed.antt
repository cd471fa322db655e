-- ===== src/Sse/Broker/Indexed.antt =====
-- The broker's indexes describe its connections exactly, through every method.
use personal_assistant.Base.{
  ℕ, ◌≤◌, ◌≡◌, refl, Bool, false, String, Option, none, some, if◌then◌else◌, length, KeyEq, ◌==◌,
  nat_key, string_key, arith,
}
use personal_assistant.Base.Maps.{
  Map, get, put, del, get-put, get-del, Unique, put-Unique, del-Unique,
}
use personal_assistant.Base.Int.{pos, pos_part, leb_ℤ}
use personal_assistant.Base.Buckets.{
  bucket, entry, add_entry, drop_entry, entry-add, entry-drop, length-bucket-add,
  length-bucket-drop, HasNoEmpty, add_entry-HasNoEmpty, drop_entry-HasNoEmpty, add_entry-Unique,
  drop_entry-Unique, add_entry_keys, drop_entry_keys,
}
use personal_assistant.Sse.Connection.{Connection}
use personal_assistant.Sse.Broker.{
  Broker, subject_key, channel_key, add_under, is_full, index, unindex,
}

abbrev has_key {ℓ} : {K : Type ℓ} ⦃e : KeyEq K⦄ → K → Option K → Bool
has_key k none = false
has_key k (some j) = j == k

-- What an index by `key` holds under `k` for a connection id.
abbrev pub selected {ℓ} :
    {K : Type ℓ} ⦃e : KeyEq K⦄ → (Connection → Option K) → K → Option Connection → Option Connection
selected key k none = none
selected key k (some c) = if has_key k (key c) then some c else none

abbrev pub Exact {ℓ} :
    {K : Type ℓ} ⦃e : KeyEq K⦄
    → (Connection → Option K)
    → Map K (Map String Connection)
    → Map String Connection
    → Type ℓ
Exact key m conns = (k : _) (id : String) → entry k id m ≡ selected key k (get id conns)

pub record Indexed (b : Broker) : Type 0 where
  pub named : (id : String) (c : Connection) → get id b.conns ≡ some c → c.id ≡ id
  pub subject_exact : Exact subject_key b.by_subject b.conns
  pub channel_exact : Exact channel_key b.by_channel b.conns
  pub subject_no_empty : HasNoEmpty b.by_subject
  pub channel_no_empty : HasNoEmpty b.by_channel
  pub conns_unique : Unique b.conns
  pub subjects_unique : Unique b.by_subject
  pub channels_unique : Unique b.by_channel
  pub subject_unique : (s : ℕ) → Unique (bucket s b.by_subject)
  pub channel_unique : (s : String) → Unique (bucket s b.by_channel)
  pub subject_limited :
      (s : ℕ) → length (bucket s b.by_subject) ≤ pos_part b.policy.max_connections_per_subject

module _ {ℓ} {K : Type ℓ} ⦃e : KeyEq K⦄ where
  add_keys :
      (c : Connection) (m : Map K (Map String Connection)) (o : Option K)
      → Unique m
      → Unique (add_under (λ s. add_entry s c.id c) o m)
  add_keys c m none u = u
  add_keys c m (some s) u = add_entry_keys s c.id c m u

  drop_keys :
      (id : String) (m : Map K (Map String Connection)) (o : Option K)
      → Unique m
      → Unique (add_under (λ s. drop_entry s id) o m)
  drop_keys id m none u = u
  drop_keys id m (some s) u = drop_entry_keys s id m u

module _ {ℓ} {K : Type ℓ} ⦃e : KeyEq K⦄ (key : Connection → Option K) where
  add-Exact :
      (c : Connection) (m : Map K (Map String Connection)) (conns : Map String Connection)
      (o : Option K)
      → key c ≡ o
      → get c.id conns ≡ none
      → Exact key m conns
      → Exact key (add_under (λ s. add_entry s c.id c) o m) (put c.id c conns)
  add-Exact c m conns none q fresh x k id =
      ground (arith, q, get-put c.id id c conns, x k id, string_key.same_iff c.id id)
  add-Exact c m conns (some s) q fresh x k id = ground (
    arith,
    q,
    get-put c.id id c conns,
    entry-add s k c.id id c m,
    x k id,
    string_key.same_iff c.id id,
  )

  drop-Exact :
      (id : String) (c : Connection) (m : Map K (Map String Connection))
      (conns : Map String Connection) (o : Option K)
      → key c ≡ o
      → get id conns ≡ some c
      → Exact key m conns
      → Exact key (add_under (λ s. drop_entry s id) o m) (del id conns)
  drop-Exact id c m conns none q found x k j =
      ground (arith, q, get-del id j conns, x k j, string_key.same_iff id j)
  drop-Exact id c m conns (some s) q found x k j =
      ground (arith, q, get-del id j conns, entry-drop s k id j m, x k j, string_key.same_iff id j)

  add-Unique :
      (c : Connection) (m : Map K (Map String Connection)) (o : Option K)
      → ((j : K) → Unique (bucket j m))
      → (j : K) → Unique (bucket j (add_under (λ s. add_entry s c.id c) o m))
  add-Unique c m none u j = u j
  add-Unique c m (some s) u j = add_entry-Unique s c.id c m u j

  drop-Unique :
      (id : String) (m : Map K (Map String Connection)) (o : Option K)
      → ((j : K) → Unique (bucket j m))
      → (j : K) → Unique (bucket j (add_under (λ s. drop_entry s id) o m))
  drop-Unique id m none u j = u j
  drop-Unique id m (some s) u j = drop_entry-Unique s id m u j

  add-HasNoEmpty :
      (c : Connection) (m : Map K (Map String Connection)) (o : Option K)
      → HasNoEmpty m
      → HasNoEmpty (add_under (λ s. add_entry s c.id c) o m)
  add-HasNoEmpty c m none n = n
  add-HasNoEmpty c m (some s) n = add_entry-HasNoEmpty s c.id c m n

  drop-HasNoEmpty :
      (id : String) (m : Map K (Map String Connection)) (o : Option K)
      → HasNoEmpty m
      → HasNoEmpty (add_under (λ s. drop_entry s id) o m)
  drop-HasNoEmpty id m none n = n
  drop-HasNoEmpty id m (some s) n = drop_entry-HasNoEmpty s id m n

  drop-length :
      (id : String) (m : Map K (Map String Connection)) (o : Option K) (j : K)
      → length (bucket j (add_under (λ s. drop_entry s id) o m)) ≤ length (bucket j m)
  drop-length id m none j = omega arith
  drop-length id m (some s) j = length-bucket-drop s id m j

index-limited :
    (c : Connection) (b : Broker) (o : Option ℕ)
    → subject_key c ≡ o
    → Indexed b
    → is_full c b ≡ false
    → (s : ℕ)
    → length (bucket s (add_under (λ s. add_entry s c.id c) o b.by_subject))
      ≤ pos_part b.policy.max_connections_per_subject
unfolding is_full
index-limited c b none q v room_left s = v.subject_limited s
index-limited c b (some k) q v room_left s = ground (
  arith,
  room,
  length-bucket-add k c.id c b.by_subject s,
  v.subject_limited s,
  nat_key.same_iff k s,
)
  where
    room : leb_ℤ b.policy.max_connections_per_subject (pos (length (bucket k b.by_subject))) ≡ false
    room = rw (q, is_full) at room_left

pub index-Indexed :
    (c : Connection) (b : Broker)
    → Indexed b
    → get c.id b.conns ≡ none
    → is_full c b ≡ false
    → Indexed (index c b)
unfolding index
index-Indexed c b v fresh room_left = record {
  named = λ id d q.
      ground (arith, get-put c.id id c b.conns, string_key.same_iff c.id id, v.named id d);
  subject_exact = add-Exact subject_key c _ _ (subject_key c) refl fresh v.subject_exact;
  channel_exact = add-Exact channel_key c _ _ (channel_key c) refl fresh v.channel_exact;
  subject_no_empty = add-HasNoEmpty subject_key c _ (subject_key c) v.subject_no_empty;
  channel_no_empty = add-HasNoEmpty channel_key c _ (channel_key c) v.channel_no_empty;
  conns_unique = put-Unique c.id c b.conns v.conns_unique;
  subjects_unique = add_keys c _ (subject_key c) v.subjects_unique;
  channels_unique = add_keys c _ (channel_key c) v.channels_unique;
  subject_unique = add-Unique subject_key c _ (subject_key c) v.subject_unique;
  channel_unique = add-Unique channel_key c _ (channel_key c) v.channel_unique;
  subject_limited = index-limited c b (subject_key c) refl v room_left;
}

pub unindex-Indexed :
    (id : String) (c : Connection) (b : Broker)
    → Indexed b
    → get id b.conns ≡ some c
    → Indexed (unindex id c b)
unfolding unindex
unindex-Indexed id c b v found = record {
  named = λ j d q. ground (arith, get-del id j b.conns, v.named j d);
  subject_exact = drop-Exact subject_key id c _ _ (subject_key c) refl found v.subject_exact;
  channel_exact = drop-Exact channel_key id c _ _ (channel_key c) refl found v.channel_exact;
  subject_no_empty = drop-HasNoEmpty subject_key id _ (subject_key c) v.subject_no_empty;
  channel_no_empty = drop-HasNoEmpty channel_key id _ (channel_key c) v.channel_no_empty;
  conns_unique = del-Unique id b.conns v.conns_unique;
  subjects_unique = drop_keys id _ (subject_key c) v.subjects_unique;
  channels_unique = drop_keys id _ (channel_key c) v.channels_unique;
  subject_unique = drop-Unique subject_key id _ (subject_key c) v.subject_unique;
  channel_unique = drop-Unique channel_key id _ (channel_key c) v.channel_unique;
  subject_limited = λ s.
      omega (arith, drop-length subject_key id b.by_subject (subject_key c) s, v.subject_limited s);
}
