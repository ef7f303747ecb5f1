-- ===== src/Device/LoRa/Scan.antt =====
-- One round on a longer buffer: bytes that arrive later change no decision that was made.
use native.Mathlib.Decide.{dec_le}
use pi_server.Base.{
  drop_all, ℕ, ◌≤◌, ◌<◌, ◌≡◌, refl, sym, ap, ◌∙◌, inl, inr, not, ◌&&◌, ◌||◌, none, some, [], ◌∷◌,
  ◌++◌, arith, Bytes, length, length-drop, take, drop, take_append_le, drop_append_le, nat_beq, ltb,
  Bool-cases, Option-cases,
}
use pi_server.Device.LoRa.{
  scan_from, Frame, sof_0, sof_1, version_legacy, version_node_aware, max_payload, read_u16,
  read_u32, from_sof, keep_last, Round, wait, reject, found, scan_crc, scan_body, scan_frame, scan,
}

pub from_sof_append :
    (xs ys s : Bytes) → from_sof xs ≡ some s → from_sof (xs ++ ys) ≡ some (s ++ ys)
unfolding from_sof
from_sof_append [] ys s h = cc
from_sof_append (a ∷ []) ys s h = cc
from_sof_append (a ∷ b ∷ xs) ys s h = ground (arith, from_sof_append (b ∷ xs) ys s)

pub from_sof-keep_last :
    (xs ys : Bytes) → from_sof xs ≡ none → from_sof (xs ++ ys) ≡ from_sof (keep_last xs ++ ys)
unfolding from_sof keep_last
from_sof-keep_last [] ys h = refl
from_sof-keep_last (a ∷ []) [] h = ground arith
from_sof-keep_last (a ∷ []) (y ∷ ys) h = ground arith
from_sof-keep_last (a ∷ b ∷ xs) ys h = ground (arith, from_sof-keep_last (b ∷ xs) ys)

pub from_sof_again : (xs s : Bytes) → from_sof xs ≡ some s → from_sof s ≡ some s
unfolding from_sof
from_sof_again [] s h = cc
from_sof_again (a ∷ []) s h = cc
from_sof_again (a ∷ b ∷ xs) s h = elim (Bool-cases (nat_beq a sof_0 && nat_beq b sof_1)) [
  | inl t ↦ let same : a ∷ b ∷ xs ≡ s = ground arith in rw (← same) (ground arith)
  | inr t ↦ from_sof_again (b ∷ xs) s (ground arith)
]

pub length-from_sof : (xs s : Bytes) → from_sof xs ≡ some s → length s ≤ length xs
unfolding from_sof
length-from_sof [] s h = cc
length-from_sof (a ∷ []) s h = cc
length-from_sof (a ∷ b ∷ xs) s h = ground (arith, length-from_sof (b ∷ xs) s)

length-keep_last : (xs : Bytes) → length (keep_last xs) ≤ length xs
unfolding keep_last
length-keep_last [] = omega arith
length-keep_last (a ∷ []) = ground arith
length-keep_last (a ∷ b ∷ xs) = omega (arith, length-keep_last (b ∷ xs))

-- A round with bytes appended: what was rejected or found stays so, and a wait is taken up again.
abbrev pub Extends : Round → Bytes → Round → (Bytes → Round) → Type 0
Extends (wait rest) ys longer again = longer ≡ again (rest ++ ys)
Extends (reject rest) ys longer again = longer ≡ reject (rest ++ ys)
Extends (found f rest) ys longer again = longer ≡ found f (rest ++ ys)

-- The buffer left is shorter, unless the round waits.
abbrev pub Shrinks : ℕ → Round → Type 0
Shrinks n (wait rest) = length rest ≤ n
Shrinks n (reject rest) = length rest < n
Shrinks n (found f rest) = length rest < n

scan_crc-Extends :
    (buffer : Bytes) (f : Frame) (covering tail next ys : Bytes) (again : Bytes → Round)
    → (again (buffer ++ ys) ≡ scan_crc (buffer ++ ys) f covering (tail ++ ys) (next ++ ys))
    → Extends
        (scan_crc buffer f covering tail next)
        ys
        (scan_crc (buffer ++ ys) f covering (tail ++ ys) (next ++ ys))
        again
unfolding scan_crc
scan_crc-Extends buffer f covering [] next ys again h = sym h
scan_crc-Extends buffer f covering (c₁ ∷ []) next ys again h = sym h
scan_crc-Extends buffer f covering (c₁ ∷ c₀ ∷ rest) next ys again h = ground arith

scan_body-Extends :
    (buffer : Bytes) (f : Frame) (header : Bytes) (n : ℕ) (body next ys : Bytes)
    (again : Bytes → Round)
    → again (buffer ++ ys) ≡ scan_body (buffer ++ ys) f header n (body ++ ys) (next ++ ys)
    → Extends
        (scan_body buffer f header n body next)
        ys
        (scan_body (buffer ++ ys) f header n (body ++ ys) (next ++ ys))
        again
unfolding scan_body scan_crc
scan_body-Extends buffer f header n body next ys again h = elim (dec_le n (length body)) [
  | yes p ↦
      rw (take_append_le n body ys p, drop_append_le n body ys p)
        (scan_crc-Extends buffer (record f { payload = take n body }) (header ++ take n body)
          (drop n body) next ys again
          (rw (take_append_le n body ys p, drop_append_le n body ys p) at h))
  | no p ↦ rw (drop_all n body (omega arith), scan_crc) (sym h)
]

scan_frame-Extends :
    (buffer ys : Bytes) (again : Bytes → Round)
    → again (buffer ++ ys) ≡ scan_frame (buffer ++ ys)
    → Extends (scan_frame buffer) ys (scan_frame (buffer ++ ys)) again
unfolding scan_frame
scan_frame-Extends (a ∷ b ∷ v ∷ t ∷ s₃ ∷ s₂ ∷ s₁ ∷ s₀ ∷ l₁ ∷ l₀ ∷ body) ys again h =
    elim (Bool-cases (not (nat_beq v version_legacy || nat_beq v version_node_aware))) [
      | inl p ↦ rw p refl
      | inr p ↦ elim (Bool-cases (ltb max_payload (read_u16 l₁ l₀))) [
        | inl q ↦ rw (p, q) refl
        | inr q ↦
            rw (p, q)
              (scan_body-Extends (a ∷ b ∷ v ∷ t ∷ s₃ ∷ s₂ ∷ s₁ ∷ s₀ ∷ l₁ ∷ l₀ ∷ body)
                (record { version = v; type = t; sequence = read_u32 s₃ s₂ s₁ s₀; payload = [] })
                (v ∷ t ∷ s₃ ∷ s₂ ∷ s₁ ∷ s₀ ∷ l₁ ∷ l₀ ∷ []) (read_u16 l₁ l₀) body
                (b ∷ v ∷ t ∷ s₃ ∷ s₂ ∷ s₁ ∷ s₀ ∷ l₁ ∷ l₀ ∷ body) ys again (rw (p, q) at h))
      ]
    ]
scan_frame-Extends _ ys again h = sym h

keep_last_append : (xs ys : Bytes) → keep_last (xs ++ ys) ≡ keep_last (keep_last xs ++ ys)
unfolding keep_last
keep_last_append [] ys = refl
keep_last_append (a ∷ []) [] = ground arith
keep_last_append (a ∷ []) (y ∷ ys) = ground arith
keep_last_append (a ∷ b ∷ xs) ys = keep_last_append (b ∷ xs) ys

scan_unmarked : (buffer : Bytes) → from_sof buffer ≡ none → scan buffer ≡ wait (keep_last buffer)
unfolding scan
scan_unmarked buffer e = rw (e, scan_from)

pub scan_marked : (buffer s : Bytes) → from_sof buffer ≡ some s → scan buffer ≡ scan_frame s
unfolding scan
scan_marked buffer s e = rw (e, scan_from)

scan-keep_last :
    (buffer ys : Bytes)
    → from_sof buffer ≡ none
    → scan (buffer ++ ys) ≡ scan (keep_last buffer ++ ys)
scan-keep_last buffer ys e = elim (Option-cases (from_sof (keep_last buffer ++ ys))) [
  | inl p ↦
      scan_unmarked (buffer ++ ys) (from_sof-keep_last buffer ys e ∙ p)
      ∙ ap wait (keep_last_append buffer ys)
      ∙ sym (scan_unmarked (keep_last buffer ++ ys) p)
  | inr (s, p) ↦
      scan_marked (buffer ++ ys) s (from_sof-keep_last buffer ys e ∙ p)
      ∙ sym (scan_marked (keep_last buffer ++ ys) s p)
]

pub scan-Extends : (buffer ys : Bytes) → Extends (scan buffer) ys (scan (buffer ++ ys)) scan
scan-Extends buffer ys = elim (Option-cases (from_sof buffer)) [
  | inl e ↦ rw (scan_unmarked buffer e) (scan-keep_last buffer ys e)
  | inr (s, e) ↦
      rw
        (
          scan_marked buffer s e,
          scan_marked (buffer ++ ys) (s ++ ys) (from_sof_append buffer ys s e),
        )
        (scan_frame-Extends s ys scan
          (scan_marked (s ++ ys) (s ++ ys) (from_sof_append s ys s (from_sof_again buffer s e))))
]

scan_crc-Shrinks :
    (buffer : Bytes) (f : Frame) (covering tail next : Bytes)
    → length tail ≤ length buffer
    → length next < length buffer
    → Shrinks (length buffer) (scan_crc buffer f covering tail next)
unfolding scan_crc
scan_crc-Shrinks buffer f covering [] next p q = omega arith
scan_crc-Shrinks buffer f covering (c₁ ∷ []) next p q = omega arith
scan_crc-Shrinks buffer f covering (c₁ ∷ c₀ ∷ rest) next p q = ground arith

scan_frame-Shrinks : (buffer : Bytes) → Shrinks (length buffer) (scan_frame buffer)
unfolding scan_frame
scan_frame-Shrinks (a ∷ b ∷ v ∷ t ∷ s₃ ∷ s₂ ∷ s₁ ∷ s₀ ∷ l₁ ∷ l₀ ∷ body) =
    elim (Bool-cases (not (nat_beq v version_legacy || nat_beq v version_node_aware))) [
      | inl p ↦ rw p (omega arith)
      | inr p ↦ elim (Bool-cases (ltb max_payload (read_u16 l₁ l₀))) [
        | inl q ↦ rw (p, q) (omega arith)
        | inr q ↦
            rw (p, q)
              (scan_crc-Shrinks _ _ _ (drop (read_u16 l₁ l₀) body) _
                (omega (arith, length-drop (read_u16 l₁ l₀) body)) (omega arith))
      ]
    ]
scan_frame-Shrinks _ = omega arith

Shrinks-le : (m n : ℕ) (r : Round) → m ≤ n → Shrinks m r → Shrinks n r
Shrinks-le m n (wait rest) h s = omega arith
Shrinks-le m n (reject rest) h s = omega arith
Shrinks-le m n (found f rest) h s = omega arith

pub scan-Shrinks : (buffer : Bytes) → Shrinks (length buffer) (scan buffer)
scan-Shrinks buffer = elim (Option-cases (from_sof buffer)) [
  | inl e ↦ rw (scan_unmarked buffer e) (length-keep_last buffer)
  | inr (s, e) ↦ rw (scan_marked buffer s e) (
      Shrinks-le (length s) (length buffer) (scan_frame s) (length-from_sof buffer s e)
        (scan_frame-Shrinks s))
]
