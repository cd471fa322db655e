-- ===== src/Memory/Document/Exact.antt =====
-- ShouldStoreDocument of internal/service/system/aiMemoryPolicy.go: which documents are stored.
use personal_assistant.Base.{
  ℕ, ◌≡◌, refl, ap, ◌∙◌, Bool, true, false, not, ◌&&◌, ◌||◌, List, [], ◌∷◌, ◌++◌, arith,
  if◌then◌else◌, Bool-cases, inl, inr,
}
use personal_assistant.Base.Text.{
  Text, lit, is_nil, is_space, trim_space, starts_solid, trim_space_starts,
}
use personal_assistant.Memory.Types.{
  AccessContext, Decision, ScopeDecision, VisibilityDecision, deny, deny_forbidden_source,
  deny_truth_conflict, deny_low_value_content,
}
use personal_assistant.Memory.Access.{
  resolve_visibility, evaluate_memory_access, new_memory_access_target,
}
use personal_assistant.Memory.Access.Resolved.{resolved_is_writable}
use personal_assistant.Memory.Store.{
  is_forbidden_memory_source, visible_if_allowed, visible_of_target,
}
use personal_assistant.Memory.Document.{
  DocumentCandidate, DocumentDecision, deny_document, document_key, document_scope,
  if_document_writable, is_summary, is_low_document, should_store_document, extend, breaks, fields,
  join, normalize_memory_text, hash_memory_value, hashed_text, summary_key, source_key,
  build_dedup_key,
}

join-extend : (b : Bool) (c : ℕ) (words : List Text) → is_nil (join (extend b c words)) ≡ false
unfolding join
join-extend true c [] = refl
join-extend true c (word ∷ words) = refl
join-extend false c [] = refl
join-extend false c (word ∷ []) = refl
join-extend false c (word ∷ (next ∷ rest)) = refl

join-fields : (text : Text) → starts_solid text ≡ true → is_nil (join (fields text)) ≡ is_nil text
unfolding fields join
join-fields [] h = refl
join-fields (c ∷ cs) h = elim (Bool-cases (is_space c)) [
  | inl q ↦ absurd (spaced c cs q h)
  | inr q ↦ rw q (join-extend (breaks cs) c (fields cs))
]
  where
    spaced : (d : ℕ) (ds : Text) → is_space d ≡ true → ¬ (starts_solid (d ∷ ds) ≡ true)
    spaced d ds q k = ground (arith, q, k)

is_nil-normalize : (text : Text) → is_nil (normalize_memory_text text) ≡ is_nil (trim_space text)
unfolding normalize_memory_text
is_nil-normalize text = join-fields (trim_space text) (trim_space_starts text)

module _ (hash lower : Text → Text) (fills : (text : Text) → is_nil (hash text) ≡ false) where
  is_nil-hash : (text : Text) → is_nil (hash_memory_value hash lower text) ≡ is_nil text
  unfolding hash_memory_value
  is_nil-hash [] = refl
  is_nil-hash (c ∷ cs) = fills (c ∷ cs)

  is_nil-hashed : (text : Text) → is_nil (hashed_text hash lower text) ≡ is_nil (trim_space text)
  is_nil-hashed text = is_nil-hash (normalize_memory_text text) ∙ is_nil-normalize text

  source_key_filled :
      (kind id topic otherwise : Text)
      → is_nil otherwise ≡ false
      → is_nil (source_key hash lower kind id topic otherwise) ≡ false
  source_key_filled kind id topic otherwise h =
      chosen (not (is_nil kind) && not (is_nil id) && not (is_nil topic))
    where
      chosen :
          (b : Bool)
          → is_nil (
              if b
              then lit "src:"
                ++ hash_memory_value hash lower (lower (kind ++ 10 ∷ (id ++ 10 ∷ topic)))
              else otherwise)
            ≡ false
      chosen true = refl
      chosen false = h

  summary_key_filled :
      (summary content : Text)
      → (is_nil summary && is_nil content) ≡ false
      → is_nil (summary_key hash lower summary content) ≡ false
  summary_key_filled [] [] h = absurd cc
  summary_key_filled [] (c ∷ cs) h = refl
  summary_key_filled (c ∷ cs) content h = refl

  key_filled :
      (candidate : DocumentCandidate)
      → (is_nil (trim_space candidate.summary) && is_nil (trim_space candidate.content_text))
        ≡ false
      → is_nil (document_key hash lower candidate) ≡ false
  unfolding build_dedup_key
  key_filled candidate h = source_key_filled _ _ _ _ (
      summary_key_filled (hashed_text hash lower candidate.summary)
        (hashed_text hash lower candidate.content_text)
        (ap (λ b. b && is_nil (hashed_text hash lower candidate.content_text))
            (is_nil-hashed candidate.summary)
          ∙ (ap (λ b. is_nil (trim_space candidate.summary) && b)
                (is_nil-hashed candidate.content_text)
              ∙ h)))

  scoped_lem :
      (candidate : DocumentCandidate) (key : Text) (scope visible write : Decision)
      → is_nil key ≡ false
      → (scope.allowed ≡ true → visible.allowed ≡ true)
      → (scope.allowed ≡ true → write.allowed ≡ true)
      → (if not scope.allowed
          then deny_document scope
          else if not visible.allowed
          then deny_document visible
          else if_document_writable hash lower candidate key write).decision.allowed
        ≡ scope.allowed
  scoped_lem candidate key scope visible write k v w = elim (Bool-cases scope.allowed) [
    | inl q ↦ ground (arith, q, v q, w q, k)
    | inr q ↦ ground (arith, q)
  ]

filters_lem :
    (a b c d : Bool) (x : DocumentDecision) (r : Bool)
    → (c ≡ false → x.decision.allowed ≡ r)
    → (if a || d
        then deny_document (deny deny_forbidden_source)
        else if b
        then deny_document (deny deny_truth_conflict)
        else if c
        then deny_document (deny deny_low_value_content)
        else x).decision.allowed
      ≡ (not a && not d && not b && not c && r)
filters_lem true b c d x r q = refl
filters_lem false b c true x r q = refl
filters_lem false true c false x r q = refl
filters_lem false false true false x r q = refl
filters_lem false false false false x r q = q refl

not_blank : (a b c d : Bool) → (a || b || c || d) ≡ false → b ≡ false
not_blank true b c d h = absurd cc
not_blank false true c d h = absurd cc
not_blank false false c d h = refl

-- If the hash never gives the empty text, the policy stores a document candidate if and only if
-- it is no session summary, its source is not forbidden, it does not conflict with the truth
-- source, it is not of low value, and its scope resolves; the later checks of visibility, of
-- writing and of the dedup key never refuse it.
pub store_document_exact :
    (hash lower : Text → Text)
    → ((text : Text) → is_nil (hash text) ≡ false)
    → (candidate : DocumentCandidate) (access : AccessContext)
    → (should_store_document hash lower candidate access).decision.allowed ≡ (
        not (is_summary candidate.memory_type)
        && not (is_forbidden_memory_source candidate.source_kind)
        && not candidate.truth_conflict
        && not (is_low_document candidate)
        && (document_scope candidate access).decision.allowed)
unfolding should_store_document
store_document_exact hash lower fills candidate access = filters_lem _ _ _ _ _ _ (λ q.
    scoped_lem hash lower fills candidate (document_key hash lower candidate) scope.decision
      visible.decision (evaluate_memory_access (new_memory_access_target scope visible) access)
      (key_filled hash lower fills candidate (not_blank _ _ _ _ q))
      (λ p.
        visible_if_allowed scope candidate.source_kind p
          (visible_of_target _ access (resolved_is_writable _ access candidate.source_kind p)))
      (λ p. resolved_is_writable _ access candidate.source_kind p))
  where
    scope : ScopeDecision
    scope = document_scope candidate access

    visible : VisibilityDecision
    visible = resolve_visibility scope candidate.source_kind
