-- ===== src/Scenarios/Timers.antt =====
-- The overstay timers of a log.
use pi_server.Base.{
  ◌+◌, ◌*◌, ◌≤◌, ◌≡◌, refl, true, false, ◌&&◌, [], ◌∷◌, arith, All, text, List, pos, int_eq, ◌==◌,
  lookup, insert,
}
use pi_server.Timer.Manager.{
  count_current, expire_one, top_of, process_expired, retry_after_evidence_pending, no_timers,
  add_timer, Answers, no_provider, provided, marked, not_marked, is_current, pending_count,
  schedule_impl, start,
}
use pi_server.Timer.Manager.Retries.{Op, begun, asked, turned, step, run, AllBounded}
use pi_server.Timer.Manager.Waits.{waits, waits_once, schedules}
use pi_server.Timer.Manager.Awaited.{waits-AllBounded}
use pi_server.Timer.Manager.Replaced.{schedule_impl_replaces}
use pi_server.Timer.Manager.Revived.{replaced, replaced_timer_revived}

abbrev told : Answers
told = record { evidence = no_provider; marking = marked; now = 35; utc_now = text "t" }

abbrev calls : List Op
calls =
    begun
    ∷ asked (pos 7) (text "EV01") (text "12") (pos 30) 0
    ∷ turned (record told { evidence = provided []; marking = not_marked })
    ∷ []

waits-AllBounded_example :
    (waits (pos 7) (no_timers true) calls ≤ 10 * schedules (pos 7) (no_timers true) calls)
    × AllBounded (run (no_timers true) calls)
waits-AllBounded_example = waits-AllBounded (pos 7) true calls

-- The timer waits once, and is scheduled once.
waited_once : waits (pos 7) (no_timers true) calls + schedules (pos 7) (no_timers true) calls ≡ 2
unfolding waits waits_once schedules run step expire_one schedule_impl start no_timers top_of
    process_expired lookup insert retry_after_evidence_pending
waited_once = refl

-- The timer waits for its evidence.
evidence_awaited : pending_count (run (no_timers true) calls) ≡ 1
unfolding pending_count count_current run step expire_one schedule_impl start no_timers top_of
    process_expired lookup insert retry_after_evidence_pending
evidence_awaited = refl

schedule_impl_replaces_example :
    All
      (λ i.
        (i.log_id == pos 7
          && is_current
              (add_timer (run (no_timers true) calls) (pos 7) (text "EV01") (text "12") 70)
              i)
        ≡ false)
      (run (no_timers true) calls).queue
unfolding run step expire_one schedule_impl start no_timers top_of process_expired lookup insert
    retry_after_evidence_pending
schedule_impl_replaces_example =
    schedule_impl_replaces true calls _ (pos 7) (text "EV01") (text "12") (pos 30) 40
      (tt, (tt, (refl, tt))) (omega arith) refl

replaced_timer_revived_example :
    pending_count (run (no_timers true) (replaced (pos 7) (text "EV01") (text "12") 60 30 told 40))
    ≡ 2
replaced_timer_revived_example =
    replaced_timer_revived true (pos 7) (text "EV01") (text "12") 60 30 40 told (omega arith)
      (omega arith) (omega arith) (omega arith) refl refl
