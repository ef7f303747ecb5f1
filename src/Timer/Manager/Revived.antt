-- ===== src/Timer/Manager/Revived.antt =====
-- A replaced timer that comes back.
use pi_server.Base.{
  ℕ, ◌+◌, ◌≤◌, ◌<◌, ◌≡◌, refl, Bool, [], ◌∷◌, arith, Bytes, ℤ, pos, int_eq, int_beq_iff, lookup,
  insert, erase, List,
}
use pi_server.Timer.Manager.{
  no_timers, start, Answers, marked, no_provider, expire_one, pending_count, schedule_impl,
  process_expired, mark_answer, mark_item, with_evidence, top_of, expire_top, expire_from,
  count_current,
}
use pi_server.Timer.Manager.Retries.{run, step, Op, begun, asked, turned}

-- A log's timer is replaced by an earlier one, which expires and is marked; the log is scheduled anew.
abbrev pub replaced : ℤ → Bytes → Bytes → ℕ → ℕ → Answers → ℕ → List Op
replaced id slot_id car_number long short x at =
    begun
    ∷ asked id slot_id car_number (pos (short + long)) 0
    ∷ asked id slot_id car_number (pos short) 0
    ∷ turned x
    ∷ asked id slot_id car_number (pos long) at
    ∷ []

-- A timer that was replaced by an earlier one counts again once the earlier one has been marked as
-- a violation and the log is scheduled anew: two timers of the log are current.
pub replaced_timer_revived :
    (has_callback : Bool) (id : ℤ) (slot_id car_number : Bytes) (long short at : ℕ) (x : Answers)
    → 0 < long
    → 0 < short
    → short ≤ x.now
    → x.now < short + long
    → x.evidence ≡ no_provider
    → x.marking ≡ marked
    → pending_count (run (no_timers has_callback) (replaced id slot_id car_number long short x at))
      ≡ 2
unfolding no_timers run step start schedule_impl expire_one expire_from expire_top top_of
    process_expired with_evidence mark_item mark_answer pending_count count_current lookup insert
    erase
replaced_timer_revived has_callback id slot_id car_number long short at x l s d w e m =
    let same = (int_beq_iff id id).1 refl in ground (arith, same)
