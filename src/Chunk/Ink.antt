-- ===== src/Chunk/Ink.antt =====
-- chunker.go: the characters of a text that are not blank, through splitByRuneWindow,
-- splitByBoundaries and splitNarrativeUnits.
use personal_assistant.Base.{
  ℕ, zero, suc, leb, nat_eq, ◌≡◌, refl, ap, sym, ◌∙◌, ◌-◌, ◌≤◌, ◌<◌, Bool, true, false, ◌||◌, List,
  [], ◌∷◌, ◌++◌, length, append_assoc, append-nil, flat_map, flat_map-nil, flat_map-cons, arith,
  if◌then◌else◌, by_test,
}
use personal_assistant.Base.Text.{Text, is_nil, is_space, trim_left, trim_right, trim_space}
use personal_assistant.Memory.Document.{extend, breaks, fields, join}
use personal_assistant.Chunk.Lines.{normalize_inline_text}
use personal_assistant.Chunk.Units.{
  keep, take, drop, window_loop, window_step, split_by_rune_window, is_strong_boundary,
  is_soft_boundary, boundary_loop, split_by_boundaries, or_whole, fit_or, soft_units, strong_units,
  split_narrative_units,
}

-- The characters that are not blank.
unfoldable pub ink : Text → Text
ink [] = []
ink (c ∷ cs) = if is_space c then ink cs else c ∷ ink cs

-- Those of several texts, in order.
unfoldable pub inks : List Text → Text
inks [] = []
inks (text ∷ texts) = ink text ++ inks texts

ink_nil : ink [] ≡ []
unfolding ink
ink_nil = refl

inks_nil : inks [] ≡ []
unfolding inks
inks_nil = refl

ink-join_nil : ink (join []) ≡ ink []
unfolding join
ink-join_nil = refl

solid_head : (c : ℕ) (cs : Text) → is_space c ≡ false → ink (c ∷ cs) ≡ c ∷ ink cs
unfolding ink
solid_head c cs q = ground (arith, q)

blank_head : (c : ℕ) (cs : Text) → is_space c ≡ true → ink (c ∷ cs) ≡ ink cs
unfolding ink
blank_head c cs q = ground (arith, q)

ink-append : (xs ys : Text) → ink (xs ++ ys) ≡ ink xs ++ ink ys
unfolding ink
ink-append [] ys = refl
ink-append (x ∷ xs) ys = grind (arith, ink-append xs ys)

inks-append : (xs ys : List Text) → inks (xs ++ ys) ≡ inks xs ++ inks ys
unfolding inks
inks-append [] ys = refl
inks-append (x ∷ xs) ys =
    ap (λ t. ink x ++ t) (inks-append xs ys) ∙ sym (append_assoc (ink x) (inks xs) (inks ys))

ink-trim_left : (text : Text) → ink (trim_left text) ≡ ink text
unfolding ink trim_left
ink-trim_left [] = refl
ink-trim_left (c ∷ cs) = ground (arith, ink-trim_left cs)

ink_of_nil : (text : Text) → is_nil text ≡ true → ink text ≡ []
unfolding ink
ink_of_nil [] q = refl
ink_of_nil (c ∷ cs) q = cc

ink-trim_right : (text : Text) → ink (trim_right text) ≡ ink text
unfolding ink trim_right
ink-trim_right [] = refl
ink-trim_right (c ∷ cs) = ground (arith, ink-trim_right cs, ink_of_nil (trim_right cs))

ink-trim_space : (text : Text) → ink (trim_space text) ≡ ink text
unfolding trim_space
ink-trim_space text = ink-trim_right (trim_left text) ∙ ink-trim_left text

inks-keep : (part : Text) (rest : List Text) → inks (keep part rest) ≡ ink part ++ inks rest
unfolding inks ink
inks-keep [] rest = refl
inks-keep (c ∷ cs) rest = refl

inks-single : (text : Text) → inks (text ∷ []) ≡ ink text
unfolding inks
inks-single text = append-nil (ink text)

take-drop : (n : ℕ) (text : Text) → take n text ++ drop n text ≡ text
unfolding take drop
take-drop zero text = refl
take-drop (suc n) [] = refl
take-drop (suc n) (c ∷ cs) = ap (λ t. c ∷ t) (take-drop n cs)

length-drop : (n : ℕ) (text : Text) → length (drop n text) ≡ length text - n
unfolding drop
length-drop zero text = omega arith
length-drop (suc n) [] = omega arith
length-drop (suc n) (c ∷ cs) = omega (arith, length-drop n cs)

drop_all : (n : ℕ) (text : Text) → length text ≤ n → drop n text ≡ []
unfolding drop
drop_all zero [] h = refl
drop_all zero (c ∷ cs) h = absurd (omega arith)
drop_all (suc n) [] h = refl
drop_all (suc n) (c ∷ cs) h = drop_all n cs (omega (arith, h))

ink-take-drop : (n : ℕ) (text : Text) → ink (take n text) ++ ink (drop n text) ≡ ink text
ink-take-drop n text = sym (ink-append (take n text) (drop n text)) ∙ ap ink (take-drop n text)

ink-join :
    (word : Text) (words : List Text) → ink (join (word ∷ words)) ≡ ink word ++ ink (join words)
unfolding join ink is_space
ink-join word [] = sym (append-nil (ink word))
ink-join word (next ∷ words) = ink-append word (32 ∷ join (next ∷ words))

ink-extend :
    (b : Bool) (c : ℕ) (words : List Text)
    → is_space c ≡ false
    → ink (join (extend b c words)) ≡ c ∷ ink (join words)
ink-extend true c words q =
    ink-join (c ∷ []) words
    ∙ ap (λ t. t ++ ink (join words)) (solid_head c [] q ∙ ap (λ t. c ∷ t) ink_nil)
ink-extend false c [] q =
    ink-join (c ∷ []) []
    ∙ ap (λ t. t ++ ink (join [])) (solid_head c [] q ∙ ap (λ t. c ∷ t) ink_nil)
ink-extend false c (word ∷ words) q =
    ink-join (c ∷ word) words
    ∙ (ap (λ t. t ++ ink (join words)) (solid_head c word q)
        ∙ ap (λ t. c ∷ t) (sym (ink-join word words)))

ink-join-fields : (text : Text) → ink (join (fields text)) ≡ ink text
unfolding fields
ink-join-fields [] = ink-join_nil
ink-join-fields (c ∷ cs) =
    by_test (λ words. ink (join words) ≡ ink (c ∷ cs)) (is_space c) (fields cs)
      (extend (breaks cs) c (fields cs)) (λ q. ink-join-fields cs ∙ sym (blank_head c cs q))
      (λ q.
        ink-extend (breaks cs) c (fields cs) q
        ∙ (ap (λ t. c ∷ t) (ink-join-fields cs) ∙ sym (solid_head c cs q)))

ink-normalize : (text : Text) → ink (normalize_inline_text text) ≡ ink text
unfolding normalize_inline_text
ink-normalize text = ink-join-fields (trim_space text) ∙ ink-trim_space text

-- One window, and the windows of what follows it.
window-ink :
    (max : ℕ) (runes : Text) (rest : List Text)
    → inks rest ≡ ink (drop max runes)
    → inks (keep (trim_space (take max runes)) (if leb (length runes) max then [] else rest))
      ≡ ink runes
window-ink max runes rest h =
    inks-keep (trim_space (take max runes)) (if leb (length runes) max then [] else rest)
    ∙ (ap (λ t. t ++ inks (if leb (length runes) max then [] else rest))
          (ink-trim_space (take max runes))
        ∙ (ap (λ t. ink (take max runes) ++ t) next ∙ ink-take-drop max runes))
  where
    within : (n : ℕ) → leb n max ≡ true → n ≤ max
    within n q = ground (arith, q)

    next : inks (if leb (length runes) max then [] else rest) ≡ ink (drop max runes)
    next =
        by_test (λ texts. inks texts ≡ ink (drop max runes)) (leb (length runes) max) [] rest
          (λ q. inks_nil ∙ sym (ap ink (drop_all max runes (within (length runes) q)) ∙ ink_nil))
          (λ _. h)

-- The windows of `splitByRuneWindow`; as many rounds as there are runes are enough.
window_loop-ink :
    (max fuel : ℕ) (runes : Text)
    → 0 < max
    → length runes ≤ fuel
    → inks (window_loop fuel max max runes) ≡ ink runes
unfolding window_loop ink
window_loop-ink max zero [] p h = inks_nil
window_loop-ink max zero (r ∷ rs) p h = absurd (omega arith)
window_loop-ink max (suc fuel) [] p h = inks_nil
window_loop-ink max (suc fuel) (r ∷ rs) p h =
    window-ink max (r ∷ rs) (window_loop fuel max max (drop max (r ∷ rs))) (
      window_loop-ink max fuel (drop max (r ∷ rs)) p
        (omega (arith, length-drop max (r ∷ rs), p, h)))

window_step-zero : (max : ℕ) → window_step max 0 ≡ max
window_step-zero max = ground arith

ink-split_by_rune_window :
    (value : Text) (max : ℕ) → 0 < max → inks (split_by_rune_window value max 0) ≡ ink value
unfolding split_by_rune_window
ink-split_by_rune_window value max p =
    by_test (λ texts. inks texts ≡ ink value) (leb (length value) max) (trim_space value ∷ [])
      (window_loop (length value) max (window_step max 0) value)
      (λ _. inks-single (trim_space value) ∙ ink-trim_space value)
      (λ _.
        ap (λ step. inks (window_loop (length value) max step value)) (window_step-zero max)
        ∙ window_loop-ink max (length value) value p (omega arith))

boundary_loop-ink :
    (is_boundary : ℕ → Bool) (gathered rs : Text)
    → inks (boundary_loop is_boundary gathered rs) ≡ ink (gathered ++ rs)
unfolding boundary_loop
boundary_loop-ink is_boundary gathered [] =
    inks-keep (trim_space gathered) []
    ∙ (ap (λ t. ink (trim_space gathered) ++ t) inks_nil
        ∙ (append-nil (ink (trim_space gathered))
            ∙ (ink-trim_space gathered ∙ sym (ap ink (append-nil gathered)))))
boundary_loop-ink is_boundary gathered (r ∷ rs) =
    by_test (λ texts. inks texts ≡ ink (gathered ++ r ∷ rs)) (is_boundary r)
      (keep (trim_space (gathered ++ r ∷ [])) (boundary_loop is_boundary [] rs))
      (boundary_loop is_boundary (gathered ++ r ∷ []) rs)
      (λ _.
        inks-keep (trim_space (gathered ++ r ∷ [])) (boundary_loop is_boundary [] rs)
        ∙ (ap (λ t. t ++ inks (boundary_loop is_boundary [] rs))
              (ink-trim_space (gathered ++ r ∷ []))
            ∙ (ap (λ t. ink (gathered ++ r ∷ []) ++ t) (boundary_loop-ink is_boundary [] rs)
                ∙ (sym (ink-append (gathered ++ r ∷ []) rs)
                    ∙ ap ink (append_assoc gathered (r ∷ []) rs)))))
      (λ _.
        boundary_loop-ink is_boundary (gathered ++ r ∷ []) rs
        ∙ ap ink (append_assoc gathered (r ∷ []) rs))

ink_of_blank : (text : Text) → is_nil (trim_space text) ≡ true → ink text ≡ []
ink_of_blank text q = sym (ink-trim_space text) ∙ ink_of_nil (trim_space text) q

ink-split_by_boundaries :
    (text : Text) (is_boundary : ℕ → Bool) → inks (split_by_boundaries text is_boundary) ≡ ink text
unfolding split_by_boundaries
ink-split_by_boundaries text is_boundary =
    by_test (λ texts. inks texts ≡ ink text) (is_nil (trim_space text)) []
      (boundary_loop is_boundary [] text) (λ q. inks_nil ∙ sym (ink_of_blank text q))
      (λ _. boundary_loop-ink is_boundary [] text)

ink-or_whole :
    (text : Text) (units : List Text)
    → inks units ≡ ink text
    → inks (or_whole text units) ≡ ink text
ink-or_whole text [] h = inks-single text
ink-or_whole text (unit ∷ units) h = h

ink-fit_or :
    (max : ℕ) (unit : Text) (pieces : List Text)
    → inks pieces ≡ ink unit
    → inks (fit_or max unit pieces) ≡ ink unit
ink-fit_or max unit pieces h =
    by_test (λ texts. inks texts ≡ ink unit) (is_nil unit) [] _
      (λ q. inks_nil ∙ sym (ink_of_nil unit q))
      (λ _.
        by_test (λ texts. inks texts ≡ ink unit) (leb (length unit) max) (unit ∷ []) pieces
          (λ _. inks-single unit) (λ _. h))

inks-flat_map :
    (f : Text → List Text)
    → ((text : Text) → inks (f text) ≡ ink text)
    → (texts : List Text) → inks (flat_map f texts) ≡ inks texts
unfolding inks
inks-flat_map f h [] = ap inks (flat_map-nil f)
inks-flat_map f h (text ∷ texts) =
    ap inks (flat_map-cons f text texts)
    ∙ (inks-append (f text) (flat_map f texts)
        ∙ (ap (λ t. t ++ inks (flat_map f texts)) (h text)
            ∙ ap (λ t. ink text ++ t) (inks-flat_map f h texts)))

soft_units-ink : (max : ℕ) → 0 < max → (unit : Text) → inks (soft_units max unit) ≡ ink unit
unfolding soft_units
soft_units-ink max p unit =
    ink-fit_or max (normalize_inline_text unit) _
      (ink-split_by_rune_window (normalize_inline_text unit) max p)
    ∙ ink-normalize unit

strong_units-ink : (max : ℕ) → 0 < max → (unit : Text) → inks (strong_units max unit) ≡ ink unit
unfolding strong_units
strong_units-ink max p unit =
    ink-fit_or max (normalize_inline_text unit) _ (
      inks-flat_map (soft_units max) (soft_units-ink max p) _
      ∙ ink-or_whole (normalize_inline_text unit) _
          (ink-split_by_boundaries (normalize_inline_text unit) is_soft_boundary))
    ∙ ink-normalize unit

-- The units that a text is split into at sentence and clause boundaries and at windows of runes
-- hold, in order, exactly the characters of the text that are not blank, whatever the limit.
pub ink-split_narrative_units :
    (value : Text) (max : ℕ) → inks (split_narrative_units value max) ≡ ink value
unfolding split_narrative_units
ink-split_narrative_units value max =
    by_test (λ texts. inks texts ≡ ink text) (is_nil text) [] _
      (λ q. inks_nil ∙ sym (ink_of_nil text q))
      (λ _.
        by_test (λ texts. inks texts ≡ ink text) (nat_eq max 0 || leb (length text) max) (text ∷ [])
          pieces (λ _. inks-single text)
          (λ q.
            inks-flat_map (strong_units max) (strong_units-ink max (positive (length text) q)) _
            ∙ ink-or_whole text _ (ink-split_by_boundaries text is_strong_boundary)))
    ∙ ink-normalize value
  where
    text : Text
    text = normalize_inline_text value

    pieces : List Text
    pieces =
        flat_map (strong_units max) (or_whole text (split_by_boundaries text is_strong_boundary))

    positive : (n : ℕ) → (nat_eq max 0 || leb n max) ≡ false → 0 < max
    positive n q = ground (arith, q)
