-- ===== src/IoManager/Tests.antt =====
-- An I/O manager with one descriptor registered for READ.
use collabor_ative_schedule.Base.{
  ℕ, ◌≡◌, refl, ◌⊎◌, inl, inr, Bool, true, false, not, ◌&&◌, List, ◌++◌, map, [], ◌∷◌, none, some,
  ◌==◌, if◌then◌else◌, arith, Outcome, ok, fault, assertion, ◌>>=◌, Bool-cases,
}
use collabor_ative_schedule.Callback.{fn}
use collabor_ative_schedule.Fiber.{exec}
use collabor_ative_schedule.Scheduler.{Scheduler, callback}
use collabor_ative_schedule.Timer.{TimerManager, blank, split_expired, get_next_timer}
use collabor_ative_schedule.Timer.Order.{Agree}
use collabor_ative_schedule.Timer.Invariant as TimerInvariant
use collabor_ative_schedule.Timer.Expiry.{after as after_expiry, staying}
use collabor_ative_schedule.IoManager.Handling.{all_waiters}
use collabor_ative_schedule.IoManager.Starving.{
  Readings, rounds, nothing_each, overdue_front_starves,
}
use collabor_ative_schedule.IoManager.Round.{idle_round, due_callbacks, idle_round-all_waiters}
use collabor_ative_schedule.IoManager.{
  read_event, new_context, no_context, IoManager, read_side, at_side, work_of, new_io_manager,
  ensure_context, add_event, trigger_event, get_context, triggered,
}
use collabor_ative_schedule.IoManager.Removal.{del_event, cancel_event, cancel_all}
use collabor_ative_schedule.IoManager.Idle.{
  stopping, Ready, tickle_pipe, descriptor, handle_event, handle_descriptor, waits, before_wait,
}
use collabor_ative_schedule.IoManager.Invariant.{Inv, sum_below}
use collabor_ative_schedule.IoManager.Growth.{new_io_manager-Inv}
use collabor_ative_schedule.IoManager.Trigger.{has}
use collabor_ative_schedule.IoManager.Removing.{Removes}
use collabor_ative_schedule.IoManager.Adding.{waiter, Adds, add_event_cases}
use collabor_ative_schedule.IoManager.Cancel.{del_event_cases, cancel_event_cases}
use collabor_ative_schedule.IoManager.CancelAll.{Clears, cancel_all_cases}
use collabor_ative_schedule.IoManager.Rounds.{
  state_of, cancel_reported, handle_descriptor-eq-cancel,
}
use collabor_ative_schedule.IoManager.Reachable.{Reach, here, next, adds, Keeps, Reach-returns}
use collabor_ative_schedule.IoManager.Polling.{hangup_on_single_event_faults}

add_event_cases_example :
    let r = add_event false 7 read_event (fn 5) (some 1) 2 exec new_io_manager in
    let io₀ = ensure_context 7 new_io_manager in
    (has read_side (new_io_manager.contexts 7).events ≡ true) × (r ≡ fault assertion)
    ⊎ (has read_side (new_io_manager.contexts 7).events ≡ false)
      × (Path Bool false true)
      × (r ≡ ok (false, io₀))
      × Inv io₀
    ⊎ (io' : IoManager) × (has read_side (new_io_manager.contexts 7).events ≡ false)
      × (Path Bool false false)
      × (r ≡ ok (true, io'))
      × Adds read_side (waiter (fn 5) 1 2) 7 io₀ io'
add_event_cases_example =
    add_event_cases read_side false 7 (fn 5) 1 2 exec new_io_manager (omega arith) refl
      new_io_manager-Inv

-- What `addEvent` makes of it, written out.
abbrev watching : IoManager
watching = record {
  contexts = λ i.
      if i == 7
      then record {
        read = record { scheduler = some 1; fiber = none; cb = fn 5 };
        write = no_context;
        fd = i;
        events = read_event;
      }
      else new_context i;
  size = 32;
  pending = 1;
  interest = λ i. if i == 7 then some read_event else none;
  posted = [];
}

watching-added :
    (add_event false 7 read_event (fn 5) (some 1) 2 exec new_io_manager >>= λ r.
    ok (r.1.contexts 7))
    ≡ ok (watching.contexts 7)
unfolding add_event new_io_manager
watching-added = refl

watching-Inv : Inv watching
unfolding sum_below
watching-Inv = record {
  sides = λ i. elim (Bool-cases (i == 7)) [
    | inl e ↦ rw e (record {
      read = record { off = λ h. cc; on = λ h. ((1, refl), inl (refl, refl)) };
      write = record { off = λ h. refl; on = λ h. cc };
    })
    | inr e ↦ rw e (record {
      read = record { off = λ h. refl; on = λ h. cc };
      write = record { off = λ h. refl; on = λ h. cc };
    })
  ];
  kernel = λ i. ground arith;
  named = λ i. ground arith;
  counted = refl;
  beyond = λ i l. ground (arith, l);
  grown = omega arith;
  small = omega arith;
}

cancels_all :
    (cancel_all false 7 watching >>= λ r. ok (r.1.posted)) ≡ ok ((1, callback (fn 5)) ∷ [])
unfolding cancel_all trigger_event get_context triggered
cancels_all = refl

del_event_cases_example :
    let r = del_event false 7 read_event watching in
    ((true && not false) ≡ false) × (r ≡ ok (false, watching))
    ⊎ (io' : IoManager) × ((true && not false) ≡ true)
      × (r ≡ ok (true, io'))
      × Removes read_side 7 watching io' []
del_event_cases_example = del_event_cases read_side false 7 watching watching-Inv

cancel_event_cases_example :
    let r = cancel_event false 7 read_event watching in
    let e = at_side read_side (watching.contexts 7) in
    ((true && not false) ≡ false) × (r ≡ ok (false, watching))
    ⊎ (k : ℕ) × (io' : IoManager) × ((true && not false) ≡ true)
      × (e.scheduler ≡ some k)
      × (r ≡ ok (true, io'))
      × Removes read_side 7 watching io' ((k, work_of e) ∷ [])
cancel_event_cases_example = cancel_event_cases read_side false 7 watching watching-Inv

abbrev scheduler : Scheduler
scheduler = record {
  fibers = [];
  root_fiber = none;
  threads = [];
  thread_ids = [];
  thread_count = 1;
  active = 0;
  idle = 0;
  stopping = false;
  auto_stop = false;
  root_thread = none;
}

abbrev timers : TimerManager
timers = record {
  heap =
      λ a. if a == 1 then record { recurring = false; ms = 500; next = 600; cb = fn 1 } else blank;
  timers = 1 ∷ [];
  tickled = false;
  previous_time = 0;
}

abbrev no_timers : TimerManager
no_timers = record timers { timers = [] }

abbrev late : ℕ → Readings
late now = record { first = now; second = now; later = now; scheduler = scheduler; pending = 0 }

-- The front timer is due at 600.
overdue_front_starves_example :
    rounds (late 601 ∷ late 9000 ∷ []) timers ≡ nothing_each (late 601 ∷ late 9000 ∷ [])
overdue_front_starves_example =
    overdue_front_starves (late 601 ∷ late 9000 ∷ []) 1 timers refl
      ((omega arith, omega arith), ((omega arith, omega arith), tt))

hangup_on_single_event_faults_example :
    handle_event false (descriptor 7 true false true) watching ≡ fault assertion
hangup_on_single_event_faults_example =
    hangup_on_single_event_faults read_side 7 true false watching watching-Inv refl

cancel_all_cases_example :
    let r = cancel_all false 7 watching in
    (Path Bool true false) × (r ≡ ok (false, watching))
    ⊎ (io' : IoManager) × (Path Bool true true) × (r ≡ ok (true, io')) × Clears 7 watching io'
cancel_all_cases_example = cancel_all_cases false 7 watching watching-Inv

handle_descriptor-eq-cancel_example :
    handle_descriptor false 7 read_event watching
    ≡ state_of (cancel_reported false 7 read_event watching)
handle_descriptor-eq-cancel_example =
    handle_descriptor-eq-cancel false 7 read_event watching watching-Inv (λ h. refl) (λ h. h)

abbrev state_after : Outcome (Bool × IoManager) → IoManager
state_after (ok r) = r.1
state_after (fault e) = new_io_manager

abbrev after : IoManager
after = state_after (add_event false 7 read_event (fn 5) (some 1) 2 exec new_io_manager)

after-Reach : Reach after
unfolding add_event new_io_manager
after-Reach = next here (adds read_side false 7 (fn 5) 1 2 exec true (omega arith) refl refl)

Reach-returns_example :
    Inv after
    × Keeps (del_event false 7 read_event after)
    × Keeps (cancel_event false 7 read_event after)
    × Keeps (cancel_all false 7 after)
    × ((io' : IoManager) × (handle_event false (descriptor 7 true false false) after ≡ ok io')
        × Inv io')
unfolding add_event new_io_manager
Reach-returns_example =
    Reach-returns after-Reach read_side false 7 true false false (λ h. refl, λ h. cc)

timers-Inv : TimerInvariant.Inv timers
timers-Inv = record {
  sorted = (tt, tt);
  agree = λ a b m n l. ground (arith, m, n, l);
  armed = λ a h. ground (arith, h);
}

timers-Agree : Agree (after_expiry 600 timers) (staying 600 timers)
unfolding split_expired staying
timers-Agree a b m n l = ground (arith, m, n, l)

round_waits : before_wait 100 scheduler timers 1 100 timers ≡ waits 0
unfolding before_wait get_next_timer
round_waits = refl

-- The timer at 600 and the event of the descriptor 7, with the I/O manager as the scheduler 1.
idle_round-all_waiters_example :
    let evs : List (Bool × Ready) =
      (false, tickle_pipe) ∷ (false, descriptor 7 true false false) ∷ [] in
    (timers' : TimerManager) × (io' : IoManager) × (idle_round 100 scheduler timers 1 100 timers 600
        1 evs timers watching
      ≡ some (ok (timers', io')))
    × Inv io'
    × (io'.posted
        ≡ ([] ++ map (λ cb. (1, callback cb)) (due_callbacks 600 timers))
          ++ all_waiters evs watching.contexts)
idle_round-all_waiters_example =
    idle_round-all_waiters 100 scheduler timers 1 100 timers 0 600 1
      ((false, tickle_pipe) ∷ (false, descriptor 7 true false false) ∷ []) timers watching
      round_waits watching-Inv timers-Inv timers-Agree (omega arith, tt)
      (refl, (λ h. refl, λ h. cc), tt)

hands_on_both :
    map (λ cb. (1, callback cb)) (due_callbacks 600 timers)
      ++ all_waiters ((false, descriptor 7 true false false) ∷ []) watching.contexts
    ≡ (1, callback (fn 1)) ∷ (1, callback (fn 5)) ∷ []
hands_on_both = refl
