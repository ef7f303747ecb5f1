-- ===== src/Device/LoRa/Chunks.antt =====
-- The loop ends, and the boundaries at which the UART delivers bytes make no difference.
use mathlib.Core.List.{append_assoc}
use pi_server.Base.{
  ℕ, zero, suc, ◌+◌, ◌≤◌, ◌<◌, ◌≡◌, refl, sym, ap, ◌∙◌, Option, none, some, List, [], ◌∷◌, ◌++◌,
  arith, Bytes, length, length-append,
}
use pi_server.Device.LoRa.{
  Frame, Round, wait, reject, found, scan, Driver, turn, consume_loop, cons_frame, consume,
}
use pi_server.Device.LoRa.Scan.{Extends, Shrinks, scan-Extends, scan-Shrinks}

turn_total :
    (fuel n : ℕ) (d : Driver) (r : Round)
    → ((d : Driver)
        → length d.buffer < fuel
        → (x : Driver × List Frame) × (consume_loop fuel d ≡ some x))
    → n ≤ fuel
    → Shrinks n r
    → (x : Driver × List Frame) × (turn (consume_loop fuel) d r ≡ some x)
unfolding turn
turn_total fuel n d (wait rest) ih h s = ((record d { buffer = rest }, []), refl)
turn_total fuel n d (reject rest) ih h s = ih _ (omega arith)
turn_total fuel n d (found f rest) ih h s =
    let ((d', fs), e) = ih (record d { buffer = rest }) (omega arith) in ((d', f ∷ fs), rw e)

consume_loop_total :
    (fuel : ℕ) (d : Driver)
    → length d.buffer < fuel
    → (x : Driver × List Frame) × (consume_loop fuel d ≡ some x)
unfolding consume_loop
consume_loop_total zero d h = absurd (omega arith)
consume_loop_total (suc fuel) d h =
    turn_total fuel (length d.buffer) d (scan d.buffer) (consume_loop_total fuel) (omega arith)
      (scan-Shrinks d.buffer)

-- `consume` always ends: the fuel is never used up.
pub consume_total :
    (d : Driver) (bytes : Bytes) → (x : Driver × List Frame) × (consume d bytes ≡ some x)
unfolding consume
consume_total d bytes = consume_loop_total _ _ (omega arith)

-- Two calls of the loop with fuel enough agree.
turn_fuel :
    (f g n : ℕ) (d : Driver) (r : Round)
    → ((d : Driver)
        → length d.buffer < f
        → length d.buffer < g
        → consume_loop f d ≡ consume_loop g d)
    → n ≤ f
    → n ≤ g
    → Shrinks n r
    → turn (consume_loop f) d r ≡ turn (consume_loop g) d r
unfolding turn
turn_fuel f g n d (wait rest) ih p q s = refl
turn_fuel f g n d (reject rest) ih p q s = ih _ (omega arith) (omega arith)
turn_fuel f g n d (found x rest) ih p q s =
    ap (cons_frame x) (ih (record d { buffer = rest }) (omega arith) (omega arith))

consume_loop_fuel :
    (f g : ℕ) (d : Driver)
    → length d.buffer < f
    → length d.buffer < g
    → consume_loop f d ≡ consume_loop g d
unfolding consume_loop
consume_loop_fuel zero g d p q = absurd (omega arith)
consume_loop_fuel (suc f) zero d p q = absurd (omega arith)
consume_loop_fuel (suc f) (suc g) d p q =
    turn_fuel f g (length d.buffer) d (scan d.buffer) (consume_loop_fuel f g) (omega arith)
      (omega arith) (scan-Shrinks d.buffer)

abbrev pub put_before : List Frame → Option (Driver × List Frame) → Option (Driver × List Frame)
put_before fs none = none
put_before fs (some (d, gs)) = some (d, fs ++ gs)

-- One result after another: the frames of both, unless the first has none.
abbrev pub then_more :
    Option (Driver × List Frame)
    → (Driver → Option (Driver × List Frame))
    → Option (Driver × List Frame)
then_more none k = none
then_more (some (d, fs)) k = put_before fs (k d)

put_before_nothing : (o : Option (Driver × List Frame)) → put_before [] o ≡ o
put_before_nothing none = refl
put_before_nothing (some (d, gs)) = refl

cons_frame-put_before :
    (f : Frame) (fs : List Frame) (o : Option (Driver × List Frame))
    → cons_frame f (put_before fs o) ≡ put_before (f ∷ fs) o
cons_frame-put_before f fs none = refl
cons_frame-put_before f fs (some (d, gs)) = refl

cons_frame-then_more :
    (f : Frame) (m : Option (Driver × List Frame)) (k : Driver → Option (Driver × List Frame))
    → cons_frame f (then_more m k) ≡ then_more (cons_frame f m) k
cons_frame-then_more f none k = refl
cons_frame-then_more f (some (d, fs)) k = cons_frame-put_before f fs (k d)

-- A round takes nothing from the buffer of its driver but what `scan` was given.
turn_buffer :
    (next : Driver → Option (Driver × List Frame)) (d : Driver) (b : Bytes) (r : Round)
    → turn next (record d { buffer = b }) r ≡ turn next d r
unfolding turn
turn_buffer next d b (wait rest) = refl
turn_buffer next d b (reject rest) = refl
turn_buffer next d b (found f rest) = refl

module _ (ys : Bytes) where
  abbrev Appends : ℕ → ℕ → Driver → Type 0
  Appends f g d =
      consume_loop g (record d { buffer = d.buffer ++ ys })
      ≡ then_more (consume_loop f d) (λ d'. consume d' ys)

  taken_up :
      (g : ℕ) (d : Driver) (rest : Bytes)
      → length (rest ++ ys) ≤ g
      → turn (consume_loop g) d (scan (rest ++ ys)) ≡ consume (record d { buffer = rest }) ys
  unfolding consume consume_loop
  taken_up g d rest h =
      sym (turn_buffer (consume_loop g) d (rest ++ ys) (scan (rest ++ ys)))
      ∙ consume_loop_fuel (suc g) (suc (length (rest ++ ys))) (record d { buffer = rest ++ ys })
          (omega arith) (omega arith)

  turn_append :
      (f g n : ℕ) (d : Driver) (r r' : Round)
      → ((d : Driver) → length d.buffer < f → length d.buffer + length ys < g → Appends f g d)
      → n ≤ f
      → n + length ys ≤ g
      → Shrinks n r
      → Extends r ys r' scan
      → turn (consume_loop g) d r' ≡ then_more (turn (consume_loop f) d r) (λ d'. consume d' ys)
  unfolding turn
  turn_append f g n d (wait rest) r' ih p q s e =
      ap (turn (consume_loop g) d) e
      ∙ taken_up g d rest (omega (arith, length-append rest ys))
      ∙ sym (put_before_nothing (consume (record d { buffer = rest }) ys))
  turn_append f g n d (reject rest) r' ih p q s e =
      ap (turn (consume_loop g) d) e ∙ ih _ (omega arith) (omega arith)
  turn_append f g n d (found x rest) r' ih p q s e =
      ap (turn (consume_loop g) d) e
      ∙ ap (cons_frame x) (ih (record d { buffer = rest }) (omega arith) (omega arith))
      ∙ cons_frame-then_more x (consume_loop f (record d { buffer = rest })) (λ d'. consume d' ys)

  consume_loop-append :
      (f g : ℕ) (d : Driver) → length d.buffer < f → length d.buffer + length ys < g → Appends f g d
  unfolding consume_loop
  consume_loop-append zero g d p q = absurd (omega arith)
  consume_loop-append (suc f) zero d p q = absurd (omega arith)
  consume_loop-append (suc f) (suc g) d p q =
      turn_buffer (consume_loop g) d (d.buffer ++ ys) (scan (d.buffer ++ ys))
      ∙ turn_append f g (length d.buffer) d (scan d.buffer) (scan (d.buffer ++ ys))
          (consume_loop-append f g) (omega arith) (omega arith) (scan-Shrinks d.buffer)
          (scan-Extends d.buffer ys)

-- Two deliveries one after the other are one delivery of all the bytes: the frames, the rejections
-- and the buffer left are the same, also for garbage and for frames cut in pieces.
pub consume-append :
    (d : Driver) (xs ys : Bytes)
    → consume d (xs ++ ys) ≡ then_more (consume d xs) (λ d'. consume d' ys)
unfolding consume
consume-append d xs ys = rw (← append_assoc) (
    consume_loop-append ys (suc (length (d.buffer ++ xs))) _ (record d { buffer = d.buffer ++ xs })
      (omega arith) (omega (arith, length-append (d.buffer ++ xs) ys)))
