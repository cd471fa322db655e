-- ===== src/Traceparent/RandomId.antt =====
-- NewTraceID and NewSpanID of pkg/observability/w3c/w3c.go. What `rand.Read` gives, an error or the
-- bytes, is a list of reads; the loop ends at the first that is good.
use personal_assistant.Base.{
  ℕ, ltb, ◌≡◌, refl, ap, ◌∙◌, Bool, true, false, not, ◌&&◌, List, [], ◌∷◌, Option, none, some, ◌==◌,
  nat_key, length, All, ◌<◌, ◌+◌, ◌*◌, ◌/◌, ◌%◌, arith, if◌then◌else◌, Bool-cases, inl, inr, ◌⊎◌,
}
use personal_assistant.Base.Text.{Text}
use personal_assistant.Traceparent.{is_hex_digit, all_hex, is_hex, is_all_zero, is_valid_trace_id}
use personal_assistant.Traceparent.Hex.{normalized-hex, is_hex-all_hex}

abbrev pub Read : Type 0
Read = Option (List ℕ)

unfoldable pub hex_digit : ℕ → ℕ
hex_digit n = if ltb n 10 then 48 + n else 87 + n

-- hex.EncodeToString
unfoldable pub encode_to_string : List ℕ → Text
encode_to_string [] = []
encode_to_string (byte ∷ bytes) =
    hex_digit (byte / 16) ∷ hex_digit (byte % 16) ∷ encode_to_string bytes

-- `none` when the reads of the list are used up.
unfoldable pub new_random_id : List Read → Option Text
new_random_id [] = none
new_random_id (none ∷ reads) = new_random_id reads
new_random_id (some bytes ∷ reads) =
    let retry = new_random_id reads in
    if not (is_all_zero (encode_to_string bytes)) then some (encode_to_string bytes) else retry

-- A read that succeeds fills the buffer with bytes.
abbrev pub Fills : ℕ → Read → Type 0
Fills size none = Unit
Fills size (some bytes) = (length bytes ≡ size) × All (λ byte. byte < 256) bytes

-- Some read succeeds with a byte that is not zero.
abbrev pub HasGood : List Read → Type 0
HasGood [] = ⊥
HasGood (none ∷ reads) = HasGood reads
HasGood (some bytes ∷ reads) = (is_all_zero (encode_to_string bytes) ≡ false) ⊎ HasGood reads

digit-is_hex : (n : ℕ) → n < 16 → is_hex_digit (hex_digit n) ≡ true
unfolding is_hex_digit hex_digit
digit-is_hex n h = ground (arith, h)

encode-all_hex :
    (bytes : List ℕ) → All (λ byte. byte < 256) bytes → all_hex (encode_to_string bytes) ≡ true
unfolding all_hex encode_to_string
encode-all_hex [] h = refl
encode-all_hex (byte ∷ bytes) h =
    rw (digit-is_hex (byte / 16) (omega (arith, h.0)))
      (rw (digit-is_hex (byte % 16) (omega arith)) (encode-all_hex bytes h.1))

length-encode : (bytes : List ℕ) → length (encode_to_string bytes) ≡ 2 * length bytes
unfolding encode_to_string
length-encode [] = refl
length-encode (byte ∷ bytes) = omega (arith, length-encode bytes)

-- What an id must be.
abbrev pub IsId : ℕ → Text → Type 0
IsId size id = (is_hex id (2 * size) ≡ true) × (is_all_zero id ≡ false)

encode-is_hex :
    (size : ℕ) (bytes : List ℕ)
    → Fills size (some bytes)
    → is_hex (encode_to_string bytes) (2 * size) ≡ true
unfolding is_hex
encode-is_hex size bytes h =
    rw (encode-all_hex bytes h.1) (
      sized (length (encode_to_string bytes)) (2 * size)
        (length-encode bytes ∙ ap (λ n. 2 * n) h.0))
  where
    sized : (m n : ℕ) → m ≡ n → (m == n && true) ≡ true
    sized m n q = ground (arith, q)

random_id_lem :
    (size : ℕ) (reads : List Read)
    → All (Fills size) reads
    → HasGood reads
    → (id : Text) × ((new_random_id reads ≡ some id) × IsId size id)
unfolding new_random_id
random_id_lem size [] f g = elim g [ ]
random_id_lem size (none ∷ reads) f g = random_id_lem size reads f.1 g
random_id_lem size (some bytes ∷ reads) f g =
    elim (Bool-cases (is_all_zero (encode_to_string bytes))) [
      | inl q ↦ rw q (random_id_lem size reads f.1 (later q g))
      | inr q ↦ (encode_to_string bytes, (rw q refl, (encode-is_hex size bytes f.0, q)))
    ]
  where
    later :
        is_all_zero (encode_to_string bytes) ≡ true → HasGood (some bytes ∷ reads) → HasGood reads
    later q (inl p) = absurd cc
    later q (inr h) = h

-- If every read of the random source that succeeds gives 16 bytes and some read of the list
-- gives bytes that are not all zero, the loop ends with an id, and the id is a valid trace id.
pub new_trace_id_total :
    (lower_other : ℕ → ℕ) (reads : List Read)
    → All (Fills 16) reads
    → HasGood reads
    → (id : Text) × ((new_random_id reads ≡ some id) × (is_valid_trace_id lower_other id ≡ true))
unfolding is_valid_trace_id
new_trace_id_total lower_other reads f g =
    let found = random_id_lem 16 reads f g in
    (
      found.0,
      (
        found.1.0,
        ap (λ x. is_hex x 32 && not (is_all_zero x))
              (normalized-hex lower_other found.0 (all_of found.0 32 found.1.1.0))
            ∙ checked _ _ found.1.1.0 found.1.1.1,
      ),
    )
  where
    all_of : (text : Text) (size : ℕ) → is_hex text size ≡ true → all_hex text ≡ true
    all_of text size q = is_hex-all_hex text size q

    checked : (a b : Bool) → a ≡ true → b ≡ false → (a && not b) ≡ true
    checked a b q p = rw q (rw p refl)
