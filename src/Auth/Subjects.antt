-- ===== src/Auth/Subjects.antt =====
-- The subjects of pkg/casbin/casbin.go: BuildSubject names a user in an organisation without
-- ambiguity.
use personal_assistant.Base.{
  ℕ, ◌≡◌, refl, sym, ap, ◌∙◌, false, [], ◌∷◌, ◌++◌, All, arith, if◌then◌else◌, nat_eq,
}
use personal_assistant.Base.Text.{Text, is_nil, is_space, trim_space, trim_space-IsSolid, IsSolid}
use personal_assistant.Base.Decimal.{
  IsDigit, show_nat, show_nat-All, show_nat-IsSolid, show_nat-injective,
}
use personal_assistant.Auth.Casbin.{action_access, action_operate, build_subject}

-- The text before the first character `mark`, and the text behind it.
before : ℕ → Text → Text
before mark [] = []
before mark (c ∷ cs) = if nat_eq c mark then [] else c ∷ before mark cs

behind : ℕ → Text → Text
behind mark [] = []
behind mark (c ∷ cs) = if nat_eq c mark then cs else behind mark cs

before-append : (xs ys : Text) → All IsDigit xs → before 64 (xs ++ 64 ∷ ys) ≡ xs
unfolding before
before-append [] ys h = refl
before-append (x ∷ xs) ys h = ground (arith, h.0, before-append xs ys h.1)

behind-append : (xs ys : Text) → All IsDigit xs → behind 64 (xs ++ 64 ∷ ys) ≡ ys
unfolding behind
behind-append [] ys h = refl
behind-append (x ∷ xs) ys h = ground (arith, h.0, behind-append xs ys h.1)

-- Two pairs of a user and an organisation with one subject are the same pair.
pub build_subject-injective :
    (u o v p : ℕ) → build_subject u o ≡ build_subject v p → (u ≡ v) × (o ≡ p)
unfolding build_subject
build_subject-injective u o v p q = (
  show_nat-injective u v (
      sym (before-append (show_nat u) (show_nat o) (show_nat-All u))
      ∙ (ap (before 64) q ∙ before-append (show_nat v) (show_nat p) (show_nat-All v))),
  show_nat-injective o p (
      sym (behind-append (show_nat u) (show_nat o) (show_nat-All u))
      ∙ (ap (behind 64) q ∙ behind-append (show_nat v) (show_nat p) (show_nat-All v))),
)

All-join : (xs ys : Text) → IsSolid xs → IsSolid ys → IsSolid (xs ++ 64 ∷ ys)
unfolding is_space
All-join [] ys h k = (refl, k)
All-join (x ∷ xs) ys h k = (h.0, All-join xs ys h.1 k)

pub trim-build_subject : (u o : ℕ) → trim_space (build_subject u o) ≡ build_subject u o
unfolding build_subject
trim-build_subject u o =
    trim_space-IsSolid _
      (All-join (show_nat u) (show_nat o) (show_nat-IsSolid u) (show_nat-IsSolid o))

joined_is_not_nil : (xs ys : Text) → is_nil (xs ++ 64 ∷ ys) ≡ false
joined_is_not_nil [] ys = refl
joined_is_not_nil (x ∷ xs) ys = refl

pub is_nil-build_subject : (u o : ℕ) → is_nil (build_subject u o) ≡ false
unfolding build_subject
is_nil-build_subject u o = joined_is_not_nil (show_nat u) (show_nat o)

pub trim-action_operate : trim_space action_operate ≡ action_operate
unfolding is_space
trim-action_operate =
    trim_space-IsSolid _ (refl, (refl, (refl, (refl, (refl, (refl, (refl, tt)))))))

pub trim-action_access : trim_space action_access ≡ action_access
unfolding is_space
trim-action_access = trim_space-IsSolid _ (refl, (refl, (refl, (refl, (refl, (refl, tt))))))
