-- ===== src/Traceparent/Hex.antt =====
-- Hex texts in pkg/observability/w3c/w3c.go: what trimming, lowering and splitting do to them.
use personal_assistant.Base.{
  ℕ, ◌≡◌, refl, ap, ◌∙◌, true, false, [], ◌∷◌, ◌++◌, map, ◌==◌, nat_key, arith,
}
use personal_assistant.Base.Text.{Text, is_space, IsSolid, trim_space-IsSolid}
use personal_assistant.Traceparent.{is_hex_digit, all_hex, is_hex, split, to_lower_char, normalized}

hex_digit_solid : (c : ℕ) → is_hex_digit c ≡ true → is_space c ≡ false
unfolding is_hex_digit is_space
hex_digit_solid c h = ground (arith, h)

pub all_hex-IsSolid : (text : Text) → all_hex text ≡ true → IsSolid text
unfolding all_hex
all_hex-IsSolid [] h = tt
all_hex-IsSolid (c ∷ cs) h =
    (hex_digit_solid c (ground (arith, h)), all_hex-IsSolid cs (ground (arith, h)))

lower_digit :
    (lower_other : ℕ → ℕ) (c : ℕ) → is_hex_digit c ≡ true → to_lower_char lower_other c ≡ c
unfolding is_hex_digit to_lower_char
lower_digit lower_other c h = ground (arith, h)

lower_hex :
    (lower_other : ℕ → ℕ) (text : Text)
    → all_hex text ≡ true
    → map (to_lower_char lower_other) text ≡ text
unfolding all_hex
lower_hex lower_other [] h = refl
lower_hex lower_other (c ∷ cs) h =
    ap (λ d. d ∷ map (to_lower_char lower_other) cs) (lower_digit lower_other c (ground (arith, h)))
    ∙ ap (λ ds. c ∷ ds) (lower_hex lower_other cs (ground (arith, h)))

-- A hex text is its own normal form.
pub normalized-hex :
    (lower_other : ℕ → ℕ) (text : Text) → all_hex text ≡ true → normalized lower_other text ≡ text
unfolding normalized
normalized-hex lower_other text h =
    ap (map (to_lower_char lower_other)) (trim_space-IsSolid text (all_hex-IsSolid text h))
    ∙ lower_hex lower_other text h

pub split-append :
    (text rest : Text) → all_hex text ≡ true → split (text ++ 45 ∷ rest) ≡ text ∷ split rest
unfolding split all_hex is_hex_digit
split-append [] rest h = refl
split-append (c ∷ cs) rest h =
    rw (split-append cs rest (ground (arith, h))) (rw (no_dash c (ground (arith, h))) refl)
  where
    no_dash : (d : ℕ) → is_hex_digit d ≡ true → (d == 45) ≡ false
    no_dash d k = ground (arith, k)

pub split-hex : (text : Text) → all_hex text ≡ true → split text ≡ text ∷ []
unfolding split all_hex is_hex_digit
split-hex [] h = refl
split-hex (c ∷ cs) h =
    rw (split-hex cs (ground (arith, h))) (rw (no_dash c (ground (arith, h))) refl)
  where
    no_dash : (d : ℕ) → is_hex_digit d ≡ true → (d == 45) ≡ false
    no_dash d k = ground (arith, k)

pub is_hex-all_hex : (text : Text) (size : ℕ) → is_hex text size ≡ true → all_hex text ≡ true
unfolding is_hex
is_hex-all_hex text size h = ground (arith, h)

pub join-IsSolid : (text rest : Text) → IsSolid text → IsSolid rest → IsSolid (text ++ 45 ∷ rest)
unfolding is_space
join-IsSolid [] rest h k = (refl, k)
join-IsSolid (c ∷ cs) rest h k = (h.0, join-IsSolid cs rest h.1 k)
