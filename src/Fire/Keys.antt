-- ===== src/Fire/Keys.antt =====
-- The keys of the outbox tell channels and revisions apart.
use pi_server.Base.{
  ℕ, ◌≡◌, refl, sym, ap, ◌∙◌, true, false, some, [], ◌∷◌, ◌++◌, Bytes, bytes_eq, bytes_beq,
  bytes_beq_iff, ◌==◌, All, IsDigit, to_string, to_string-IsDigit, arith, subst,
}
use pi_server.Sensor.Protocol.Numbers.{decimal}
use pi_server.Sensor.Protocol.RoundTrip.{decimal-to_string}
use pi_server.Fire.Service.{fire_event_id, retained_delivery_id, lifecycle_delivery_id}

to_string_injective : (m n : ℕ) → to_string m ≡ to_string n → m ≡ n
to_string_injective m n h =
    let same : some m ≡ some n = sym (decimal-to_string m) ∙ ap decimal h ∙ decimal-to_string n in
    cc

-- A colon is no digit.
no_colon : (xs ys : Bytes) → All IsDigit (xs ++ b':' ∷ ys) → ⊥
no_colon [] ys (d, h) = omega (arith, d.1)
no_colon (x ∷ xs) ys (d, h) = no_colon xs ys h

split_at_colon :
    (xs ys : Bytes) (m n : ℕ)
    → xs ++ b':' ∷ to_string m ≡ ys ++ b':' ∷ to_string n
    → (xs ≡ ys) × (m ≡ n)
split_at_colon [] [] m n h = (refl, to_string_injective m n cc)
split_at_colon [] (y ∷ ys) m n h =
    let tail : to_string m ≡ ys ++ b':' ∷ to_string n = cc in
    absurd (no_colon ys (to_string n) (subst (All IsDigit) tail (to_string-IsDigit m)))
split_at_colon (x ∷ xs) [] m n h =
    let tail : to_string n ≡ xs ++ b':' ∷ to_string m = cc in
    absurd (no_colon xs (to_string m) (subst (All IsDigit) tail (to_string-IsDigit n)))
split_at_colon (x ∷ xs) (y ∷ ys) m n h =
    let head : x ≡ y = cc in
    let tail : xs ++ b':' ∷ to_string m ≡ ys ++ b':' ∷ to_string n = cc in
    let (same, number) = split_at_colon xs ys m n tail in
    (ap (λ a. a ∷ xs) head ∙ ap (λ l. y ∷ l) same, number)

-- Two keys of life cycle events that are one are of one channel and one revision.
pub lifecycle_key_injective :
    (a b : Bytes) (m n : ℕ)
    → (lifecycle_delivery_id (fire_event_id a m) == lifecycle_delivery_id (fire_event_id b n))
      ≡ true
    → (a ≡ b) × (m ≡ n)
lifecycle_key_injective a b m n h =
    let short : bytes_beq (a ++ b':' ∷ to_string m) (b ++ b':' ∷ to_string n) ≡ true =
      unfold bytes_beq in h in
    split_at_colon a b m n
      ((bytes_beq_iff (a ++ b':' ∷ to_string m) (b ++ b':' ∷ to_string n)).0 short)

pub retained_key_apart :
    (a b : Bytes) → (a == b) ≡ false → (retained_delivery_id a == retained_delivery_id b) ≡ false
retained_key_apart a b h = unfold bytes_beq in h

pub state_event_apart :
    (a event : Bytes) → (lifecycle_delivery_id event == retained_delivery_id a) ≡ false
unfolding bytes_beq
state_event_apart a event = refl

pub event_state_apart :
    (a event : Bytes) → (retained_delivery_id a == lifecycle_delivery_id event) ≡ false
unfolding bytes_beq
event_state_apart a event = refl
