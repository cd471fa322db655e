-- ===== src/Outbox/Rows.antt =====
-- The ids in the lists of internal/repository/system/outboxRepo.go: the query keeps them distinct.
use personal_assistant.Base.{
  ℕ, zero, suc, ◌≡◌, refl, ap, ◌∙◌, false, ◌||◌, String, [], ◌∷◌, ◌++◌, ◌==◌, string_key, map,
  arith, leb, Bool-cases, inl, inr,
}
use personal_assistant.Outbox.Table.{
  Row, Table, includes, candidates, is_candidate, insert, by_created_at, take, get_pending_events,
}

-- No id stands in two rows.
abbrev pub Distinct : Table → Type 0
Distinct [] = Unit
Distinct (row ∷ rows) = (includes row.event_id rows ≡ false) × Distinct rows

includes-insert :
    (id : String) (row : Row) (rows : Table)
    → includes id (insert row rows) ≡ (row.event_id == id || includes id rows)
unfolding includes insert
includes-insert id row [] = refl
includes-insert id row (first ∷ rest) = ground (arith, includes-insert id row rest)

same_sym : (a b : String) → (a == b) ≡ false → (b == a) ≡ false
same_sym a b h = ground (arith, string_key.same_iff a b, string_key.same_iff b a)

insert-Distinct :
    (row : Row) (rows : Table)
    → includes row.event_id rows ≡ false
    → Distinct rows
    → Distinct (insert row rows)
unfolding includes insert
insert-Distinct row [] h d = (refl, tt)
insert-Distinct row (first ∷ rest) h d = elim (Bool-cases (leb row.created_at first.created_at)) [
  | inl q ↦ rw q (h, d)
  | inr q ↦ rw q (kept, insert-Distinct row rest (ground (arith, h)) d.1)
]
  where
    kept : includes first.event_id (insert row rest) ≡ false
    kept =
        includes-insert first.event_id row rest
        ∙ ground (
          arith,
          h,
          d.0,
          string_key.same_iff row.event_id first.event_id,
          string_key.same_iff first.event_id row.event_id,
        )

includes-by_created_at :
    (id : String) (rows : Table) → includes id (by_created_at rows) ≡ includes id rows
unfolding by_created_at includes
includes-by_created_at id [] = refl
includes-by_created_at id (row ∷ rows) =
    includes-insert id row (by_created_at rows)
    ∙ ap (λ x. row.event_id == id || x) (includes-by_created_at id rows)

by_created_at-Distinct : (rows : Table) → Distinct rows → Distinct (by_created_at rows)
unfolding by_created_at
by_created_at-Distinct [] d = tt
by_created_at-Distinct (row ∷ rows) d =
    insert-Distinct row _ (includes-by_created_at row.event_id rows ∙ d.0)
      (by_created_at-Distinct rows d.1)

includes-candidates :
    (max : ℕ) (id : String) (rows : Table)
    → includes id rows ≡ false
    → includes id (candidates max rows) ≡ false
unfolding includes candidates
includes-candidates max id [] h = refl
includes-candidates max id (row ∷ rows) h = elim (Bool-cases (is_candidate max row)) [
  | inl q ↦ rw q (ground (arith, h, includes-candidates max id rows (ground (arith, h))))
  | inr q ↦ rw q (includes-candidates max id rows (ground (arith, h)))
]

candidates-Distinct : (max : ℕ) (rows : Table) → Distinct rows → Distinct (candidates max rows)
unfolding candidates
candidates-Distinct max [] d = tt
candidates-Distinct max (row ∷ rows) d = elim (Bool-cases (is_candidate max row)) [
  | inl q ↦ rw q (includes-candidates max row.event_id rows d.0, candidates-Distinct max rows d.1)
  | inr q ↦ rw q (candidates-Distinct max rows d.1)
]

includes-take :
    (n : ℕ) (id : String) (rows : Table)
    → includes id rows ≡ false
    → includes id (take n rows) ≡ false
unfolding includes take
includes-take zero id rows h = refl
includes-take (suc n) id [] h = refl
includes-take (suc n) id (row ∷ rows) h = ground (arith, h, includes-take n id rows)

take-Distinct : (n : ℕ) (rows : Table) → Distinct rows → Distinct (take n rows)
unfolding take
take-Distinct zero rows d = tt
take-Distinct (suc n) [] d = tt
take-Distinct (suc n) (row ∷ rows) d =
    (includes-take n row.event_id rows d.0, take-Distinct n rows d.1)

pub get_pending_events-Distinct :
    (limit max : ℕ) (table : Table) → Distinct table → Distinct (get_pending_events limit max table)
unfolding get_pending_events
get_pending_events-Distinct limit max table d =
    take-Distinct limit _ (by_created_at-Distinct _ (candidates-Distinct max table d))

pub same_flip : (a b : String) → (a == b) ≡ (b == a)
same_flip a b = ground (arith, string_key.same_iff a b, string_key.same_iff b a)

module _ (f : Row → Row) (keeps : (row : Row) → (f row).event_id ≡ row.event_id) where
  includes-map : (id : String) (rows : Table) → includes id (map f rows) ≡ includes id rows
  unfolding includes
  includes-map id [] = refl
  includes-map id (row ∷ rows) =
      ap (λ x. x == id || includes id (map f rows)) (keeps row)
      ∙ ap (λ x. row.event_id == id || x) (includes-map id rows)

  pub map-Distinct : (rows : Table) → Distinct rows → Distinct (map f rows)
  map-Distinct [] d = tt
  map-Distinct (row ∷ rows) d = (
    ap (λ id. includes id (map f rows)) (keeps row) ∙ (includes-map row.event_id rows ∙ d.0),
    map-Distinct rows d.1,
  )

includes-snoc :
    (id : String) (rows : Table) (row : Row)
    → includes id rows ≡ false
    → (row.event_id == id) ≡ false
    → includes id (rows ++ row ∷ []) ≡ false
unfolding includes
includes-snoc id [] row h q = rw q refl
includes-snoc id (first ∷ rows) row h q =
    ground (arith, h, includes-snoc id rows row (ground (arith, h)) q)

pub snoc-Distinct :
    (rows : Table) (row : Row)
    → Distinct rows
    → includes row.event_id rows ≡ false
    → Distinct (rows ++ row ∷ [])
unfolding includes
snoc-Distinct [] row d h = (refl, tt)
snoc-Distinct (first ∷ rows) row d h = (
  includes-snoc first.event_id rows row d.0
      (same_flip row.event_id first.event_id ∙ ground (arith, h)),
  snoc-Distinct rows row d.1 (ground (arith, h)),
)
