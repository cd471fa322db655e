-- ===== src/OjTask/Lifecycle/Chains.antt =====
-- ojTaskSvc.go and ojTaskRepo.go: the numbers of the versions in a chain (nextVersionNoTx).
use personal_assistant.Base.{
  ℕ, nat_eq, nat_eq_iff, ◌≡◌, ◌<◌, inl, inr, refl, ap, ◌∙◌, Bool, true, false, Option, none, some,
  if◌then◌else◌, nat_key, Bool-cases, [], ◌∷◌, arith,
}
use personal_assistant.Base.Maps.{Map, get}
use personal_assistant.OjTask.Types.{Task}
use personal_assistant.OjTask.Lifecycle.Store.{
  Store, Outside, is_root, larger, latest_version, after_version,
}

-- The ids that the tables give to new rows: positive, and not given before.
pub record IsFresh (outside : Outside) (s : Store) : Type 0 where
  pub fresh : get outside.new_execution_id s.db.executions ≡ none
  pub fresh_task : get outside.new_task_id s.db.tasks ≡ none
  pub positive : (0 < outside.new_execution_id) × (0 < outside.new_task_id)

abbrev pub IsNewest : Store → Option ℕ → ℕ → Type 0
IsNewest s root version =
    (j : ℕ) (u : Task) → get j s.db.tasks ≡ some u → u.root_task_id ≡ root → u.version_no < version

-- The next version number of a chain is larger than each one in it.
pub latest_version_bounds :
    (r j : ℕ) (u : Task) (m : Map ℕ Task)
    → get j m ≡ some u
    → u.root_task_id ≡ some r
    → u.version_no < after_version (latest_version r m)
unfolding get latest_version
latest_version_bounds r j u [] q root = absurd (cc)
latest_version_bounds r j u ((i, t) ∷ rest) q root = elim (Bool-cases (nat_eq i j)) [
  | inl here ↦
      let same : t ≡ u = cc (rw here at q) in
      let of_chain : is_root r t.root_task_id ≡ true =
        ap (λ (v : Task). is_root r v.root_task_id) same
        ∙ (ap (is_root r) root ∙ (nat_eq_iff r r).1 refl) in
      rw of_chain (at_head (latest_version r rest) same)
  | inr other ↦
      behind (is_root r t.root_task_id) (latest_version r rest)
        (latest_version_bounds r j u rest (rw other at q) root)
]
  where
    at_head :
        (others : Option ℕ)
        → t ≡ u
        → u.version_no < after_version (some (larger t.version_no others))
    at_head none same = omega (arith, ap (λ (v : Task). v.version_no) same)
    at_head (some o) same =
        let number : t.version_no ≡ u.version_no = ap (λ (v : Task). v.version_no) same in
        ground (arith, number)

    behind :
        (b : Bool) (others : Option ℕ)
        → u.version_no < after_version others
        → u.version_no < after_version (if b then some (larger t.version_no others) else others)
    behind true none less = ground arith
    behind true (some o) less = ground arith
    behind false others less = less
