-- ===== src/Chunk/Merge/Largest.antt =====
-- chunker.go, trimLeadingChunkOverlap: how much of a chunk is cut off.
use personal_assistant.Base.{
  ℕ, zero, suc, leb, nat_eq, ◌≡◌, refl, ap, sym, ◌∙◌, ◌-◌, ◌≤◌, ◌<◌, true, false, ◌||◌, [], ◌∷◌,
  length, arith, by_test, ◌==◌, Bool-cases, inl, inr, ◌⊎◌, subst,
}
use personal_assistant.Base.Text.{Text, is_nil, text_key}
use personal_assistant.Chunk.Units.{take, drop}
use personal_assistant.Chunk.Merge.{min_of, overlap_loop, trim_leading_chunk_overlap}

-- The last `n` characters of the one text are the first `n` of the other.
abbrev pub Shares : Text → Text → ℕ → Type 0
Shares previous current n = drop (length previous - n) previous ≡ take n current

-- No text shares as much with the next one, up to the limit.
abbrev pub IsTrimmed : Text → Text → ℕ → Text → Type 0
IsTrimmed previous current limit text =
    (n : ℕ) × (n ≤ limit)
    × (text ≡ drop n current)
    × Shares previous current n
    × ((m : ℕ) → n < m → m ≤ limit → ¬ Shares previous current m)

drop-length : (text : Text) → drop (length text) text ≡ []
unfolding drop
drop-length [] = refl
drop-length (c ∷ cs) = drop-length cs

no_overlap : (previous current : Text) → Shares previous current 0
unfolding take
no_overlap previous current = ap (λ n. drop n previous) (omega arith) ∙ drop-length previous

drop_zero : (text : Text) → text ≡ drop 0 text
unfolding drop
drop_zero text = refl

nat_split : (m limit : ℕ) → m ≤ suc limit → (m ≤ limit) ⊎ (m ≡ suc limit)
nat_split m limit h = elim (Bool-cases (leb m limit)) [
  | inl q ↦ inl (ground (arith, q))
  | inr q ↦ inr (ground (arith, q, h))
]

overlap_loop-IsTrimmed :
    (previous current : Text) (limit : ℕ)
    → IsTrimmed previous current limit (overlap_loop previous current limit)
unfolding overlap_loop
overlap_loop-IsTrimmed previous current zero =
    (0, omega arith, drop_zero current, no_overlap previous current, λ m h k q. omega (arith, h, k))
overlap_loop-IsTrimmed previous current (suc limit) =
    by_test (IsTrimmed previous current (suc limit))
      (drop (length previous - suc limit) previous == take (suc limit) current)
      (drop (suc limit) current) (overlap_loop previous current limit)
      (λ q.
        (suc limit, omega arith, refl, (text_key.same_iff _ _).0 q, λ m h k p. omega (arith, h, k)))
      (λ q.
        let (n, least, trimmed, shared, larger) = overlap_loop-IsTrimmed previous current limit in
        (
          n,
          omega (arith, least),
          trimmed,
          shared,
          λ m h k. still m (λ j. larger m h j) k (unshared q),
        ))
  where
    unshared :
        (drop (length previous - suc limit) previous == take (suc limit) current) ≡ false
        → ¬ Shares previous current (suc limit)
    unshared q s = cc (q, (text_key.same_iff _ _).1 s)

    still :
        (m : ℕ)
        → (m ≤ limit → ¬ Shares previous current m)
        → m ≤ suc limit
        → ¬ Shares previous current (suc limit)
        → ¬ Shares previous current m
    still m below h top = elim (nat_split m limit h) [
      | inl k ↦ below k
      | inr q ↦ subst (λ n. ¬ Shares previous current n) (sym q) top
    ]

-- Merging cuts off the front of a chunk the most characters, up to the overlap and to both
-- lengths, that are also the end of the text before it.
pub trim_leading_chunk_overlap-IsTrimmed :
    (previous current : Text) (overlap : ℕ)
    → IsTrimmed previous current
        (min_of (length current) (min_of (length previous) overlap))
        (trim_leading_chunk_overlap previous current overlap)
unfolding trim_leading_chunk_overlap
trim_leading_chunk_overlap-IsTrimmed previous current overlap =
    by_test (IsTrimmed previous current limit) (is_nil current || nat_eq overlap 0) current
      (overlap_loop previous current limit)
      (λ q. (
        0,
        omega arith,
        drop_zero current,
        no_overlap previous current,
        λ m h k s. none_larger m (limit_zero current q) h k,
      ))
      (λ _. overlap_loop-IsTrimmed previous current limit)
  where
    limit : ℕ
    limit = min_of (length current) (min_of (length previous) overlap)

    small : (a b : ℕ) → nat_eq overlap 0 ≡ true → min_of a (min_of b overlap) ≡ 0
    small a b q = ground (arith, q)

    no_room : (b : ℕ) → min_of 0 b ≡ 0
    no_room b = ground arith

    limit_zero :
        (text : Text)
        → (is_nil text || nat_eq overlap 0) ≡ true
        → min_of (length text) (min_of (length previous) overlap) ≡ 0
    limit_zero [] q = no_room (min_of (length previous) overlap)
    limit_zero (c ∷ cs) q = small (length (c ∷ cs)) (length previous) q

    none_larger : (m : ℕ) → limit ≡ 0 → 0 < m → m ≤ limit → ⊥
    none_larger m z h k = omega (arith, z, h, k)
