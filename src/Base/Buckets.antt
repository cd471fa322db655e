-- ===== src/Base/Buckets.antt =====
-- A Go map of maps whose inner maps are made on the first write and deleted when they run empty.
use Prim.Native.Nat.{suc, ◌≤◌}
use mathlib.Core.Path.{◌≡◌, refl}
use mathlib.Core.Bool.{Bool, true, false}
use mathlib.Core.Logic.{◌≢◌, inl, inr}
use mathlib.Core.Option.{Option, none, some}
use mathlib.Core.List.{List, [], ◌∷◌}
use native.Mathlib.Omega.{arith}
use personal_assistant.Base.Tests.{if◌then◌else◌, Option-cases, Bool-cases}
use personal_assistant.Base.Keys.{KeyEq, ◌==◌}
use personal_assistant.Base.Lists.{length}
use personal_assistant.Base.Maps.{
  Map, get, put, del, get-put, get-del, length-put, length-del, Unique, put-Unique, del-Unique,
}

abbrev pub is_empty {ℓ} : {A : Type ℓ} → List A → Bool
is_empty [] = true
is_empty (x ∷ xs) = false

abbrev pub or_empty {ℓ} : {A : Type ℓ} → Option (List A) → List A
or_empty none = []
or_empty (some b) = b

get_of_is_empty {ℓ κ} :
    {I : Type ℓ} {V : Type κ} ⦃f : KeyEq I⦄ (h : I) (b : Map I V)
    → is_empty b ≡ true
    → get h b ≡ none
unfolding get
get_of_is_empty h [] q = refl
get_of_is_empty h (x ∷ b) q = cc

nil_of_is_empty {ℓ} : {A : Type ℓ} (b : List A) → is_empty b ≡ true → b ≡ []
nil_of_is_empty [] q = refl
nil_of_is_empty (x ∷ b) q = cc

del_nil {ℓ κ} : {I : Type ℓ} {V : Type κ} ⦃f : KeyEq I⦄ (i : I) → del {V = V} i [] ≡ []
unfolding del
del_nil i = refl

put_ne_nil {ℓ κ} :
    {I : Type ℓ} {V : Type κ} ⦃f : KeyEq I⦄ (i : I) (v : V) (b : Map I V) → put i v b ≢ []
unfolding put
put_ne_nil i v [] q = cc
put_ne_nil i v ((h, w) ∷ b) q = ground arith

module _ {ℓ κ μ} {K : Type ℓ} {I : Type κ} {V : Type μ} ⦃e : KeyEq K⦄ ⦃f : KeyEq I⦄ where
  -- m[k], which is the nil map where the key is missing.
  abbrev pub bucket : K → Map K (Map I V) → Map I V
  bucket k m = or_empty (get k m)

  -- m[k][i]
  abbrev pub entry : K → I → Map K (Map I V) → Option V
  entry k i m = get i (bucket k m)

  -- if m[k] == nil { m[k] = make(map) }; m[k][i] = v
  unfoldable pub add_entry : K → I → V → Map K (Map I V) → Map K (Map I V)
  add_entry k i v m = put k (put i v (bucket k m)) m

  -- if b := m[k]; b != nil { delete(b, i); if len(b) == 0 { delete(m, k) } }
  unfoldable pub drop_entry : K → I → Map K (Map I V) → Map K (Map I V)
  drop_entry k i m = elim (get k m) [
    | none ↦ m
    | some b ↦ let rest = del i b in if is_empty rest then del k m else put k rest m
  ]

  pub entry-add :
      (k j : K) (i h : I) (v : V) (m : Map K (Map I V))
      → entry j h (add_entry k i v m)
        ≡ (if k == j then if i == h then some v else entry j h m else entry j h m)
  unfolding add_entry
  entry-add k j i h v m =
      ground
        (arith, get-put k j (put i v (bucket k m)) m, get-put i h v (bucket k m), e.same_iff k j)

  pub length-bucket-add :
      (k : K) (i : I) (v : V) (m : Map K (Map I V)) (j : K)
      → length (bucket j (add_entry k i v m))
        ≤ (if k == j then suc (length (bucket k m)) else length (bucket j m))
  unfolding add_entry
  length-bucket-add k i v m j =
      ground (arith, get-put k j (put i v (bucket k m)) m, length-put i v (bucket k m))

  drop_missing : (k : K) (i : I) (m : Map K (Map I V)) → get k m ≡ none → drop_entry k i m ≡ m
  unfolding drop_entry
  drop_missing k i m q = rw (q, drop_entry)

  drop_present :
      (k : K) (i : I) (m : Map K (Map I V)) (b : Map I V)
      → get k m ≡ some b
      → drop_entry k i m ≡ (if is_empty (del i b) then del k m else put k (del i b) m)
  unfolding drop_entry
  drop_present k i m b q = rw (q, drop_entry)

  pub entry-drop :
      (k j : K) (i h : I) (m : Map K (Map I V))
      → entry j h (drop_entry k i m)
        ≡ (if k == j then if i == h then none else entry j h m else entry j h m)
  entry-drop k j i h m = elim (Option-cases (get k m)) [
    | inl q ↦ rw (drop_missing k i m q) (ground (arith, q, e.same_iff k j, get_none h))
    | inr (b, q) ↦ rw (drop_present k i m b q) (
        ground (
          arith,
          q,
          e.same_iff k j,
          get-del k j m,
          get-put k j (del i b) m,
          get-del i h b,
          get_of_is_empty h (del i b),
          get_none h,
        ))
  ]
    where
      get_none : (h : I) → get {V = V} h [] ≡ none
      get_none h = get_of_is_empty h [] refl

  pub length-bucket-drop :
      (k : K) (i : I) (m : Map K (Map I V)) (j : K)
      → length (bucket j (drop_entry k i m)) ≤ length (bucket j m)
  length-bucket-drop k i m j = elim (Option-cases (get k m)) [
    | inl q ↦ rw (drop_missing k i m q) (omega arith)
    | inr (b, q) ↦
        rw (drop_present k i m b q) (
          ground (arith, q, e.same_iff k j, get-del k j m, get-put k j (del i b) m, length-del i b))
  ]

  -- No key is kept for an empty inner map.
  abbrev pub HasNoEmpty : Map K (Map I V) → Type (ℓ ⊔ κ ⊔ μ)
  HasNoEmpty m = (j : K) → get j m ≢ some []

  pub add_entry-HasNoEmpty :
      (k : K) (i : I) (v : V) (m : Map K (Map I V)) → HasNoEmpty m → HasNoEmpty (add_entry k i v m)
  unfolding add_entry
  add_entry-HasNoEmpty k i v m n j q =
      ground (arith, get-put k j (put i v (bucket k m)) m, put_ne_nil i v (bucket k m), n j)

  pub drop_entry-HasNoEmpty :
      (k : K) (i : I) (m : Map K (Map I V)) → HasNoEmpty m → HasNoEmpty (drop_entry k i m)
  drop_entry-HasNoEmpty k i m n j = elim (Option-cases (get k m)) [
    | inl p ↦ rw (drop_missing k i m p) (n j)
    | inr (b, p) ↦
        rw (drop_present k i m b p) λ q. ground (arith, get-del k j m, get-put k j (del i b) m, n j)
  ]

  pub add_entry-Unique :
      (k : K) (i : I) (v : V) (m : Map K (Map I V))
      → ((j : K) → Unique (bucket j m))
      → (j : K) → Unique (bucket j (add_entry k i v m))
  unfolding add_entry
  add_entry-Unique k i v m u j =
      rw (get-put k j (put i v (bucket k m)) m) (elim (Bool-cases (k == j)) [
        | inl q ↦ rw q (put-Unique i v (bucket k m) (u k))
        | inr q ↦ rw q (u j)
      ])

  bucket-drop :
      (k j : K) (i : I) (m : Map K (Map I V))
      → bucket j (drop_entry k i m) ≡ (if k == j then del i (bucket k m) else bucket j m)
  bucket-drop k j i m = elim (Option-cases (get k m)) [
    | inl p ↦ rw (drop_missing k i m p) (ground (arith, p, e.same_iff k j, del_nil {V = V} i))
    | inr (b, p) ↦ rw (drop_present k i m b p) (
        ground (
          arith,
          p,
          e.same_iff k j,
          get-del k j m,
          get-put k j (del i b) m,
          nil_of_is_empty (del i b),
        ))
  ]

  pub drop_entry-Unique :
      (k : K) (i : I) (m : Map K (Map I V))
      → ((j : K) → Unique (bucket j m))
      → (j : K) → Unique (bucket j (drop_entry k i m))
  drop_entry-Unique k i m u j = rw (bucket-drop k j i m) (elim (Bool-cases (k == j)) [
    | inl q ↦ rw q (del-Unique i (bucket k m) (u k))
    | inr q ↦ rw q (u j)
  ])

  -- The outer map: no key is held twice.
  pub add_entry_keys :
      (k : K) (i : I) (v : V) (m : Map K (Map I V)) → Unique m → Unique (add_entry k i v m)
  unfolding add_entry
  add_entry_keys k i v m u = put-Unique k (put i v (bucket k m)) m u

  pub drop_entry_keys : (k : K) (i : I) (m : Map K (Map I V)) → Unique m → Unique (drop_entry k i m)
  drop_entry_keys k i m u = elim (Option-cases (get k m)) [
    | inl p ↦ rw (drop_missing k i m p) u
    | inr (b, p) ↦ rw (drop_present k i m b p) (elim (Bool-cases (is_empty (del i b))) [
      | inl q ↦ rw q (del-Unique k m u)
      | inr q ↦ rw q (put-Unique k (del i b) m u)
    ])
  ]
