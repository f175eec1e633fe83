-- ===== src/Server/Signals.antt =====
-- The events of the main thread of src/serv.cpp: signals and timers. An event of libevent is its
-- address, and what its calls answer are arguments.
use kvproxy.Base.{ℕ, Bool, true, false, Option, none, some, List, [], ◌∷◌, ◌==◌, if◌then◌else◌}
use kvproxy.Base.Order.{nat_ord}
use kvproxy.Base.Map.{Map, lookup, insert, erase}

-- m_signal_events, and the events that libevent has been given (event_add) and not been taken from
-- (event_del).
pub record Events : Type 0 where
  pub m_signal_events : Map ℕ ℕ
  pub pending : List ℕ

-- event_del(ev)
abbrev pub drop_event : ℕ → List ℕ → List ℕ
drop_event ev [] = []
drop_event ev (e ∷ es) = if ev == e then drop_event ev es else e ∷ drop_event ev es

abbrev pub event_del : ℕ → Events → Events
event_del ev s = record s { pending = drop_event ev s.pending }

-- event_add(ev), where it succeeds
abbrev pub event_add : ℕ → Events → Events
event_add ev s = record s { pending = ev ∷ drop_event ev s.pending }

-- deleteSignalEvent
unfoldable pub delete_signal_event : ℕ → Events → Bool × Events
delete_signal_event sig s = elim (lookup sig s.m_signal_events) [
  | none ↦ (false, s)
  | some ev ↦ (true, record (event_del ev s) { m_signal_events = erase sig s.m_signal_events })
]

-- addSignalEvent, for the event that evsignal_new returns (0 is NULL) and whether it can be added;
-- `none` is event_del(NULL).
unfoldable pub add_signal_event : ℕ → ℕ → Bool → Events → Option (Bool × Events)
unfolding delete_signal_event
add_signal_event sig ev added s =
    let s1 = (delete_signal_event sig (event_add ev s)).1 in
    if ev == 0
    then none
    else if added
    then some (true, record s1 { m_signal_events = insert sig ev s1.m_signal_events })
    else some (false, event_del ev s)

-- addTimerEvent, for the address of the new event: the event, or NULL.
unfoldable pub add_timer_event : ℕ → Bool → Events → ℕ × Events
add_timer_event ev added s = if added then (ev, event_add ev s) else (0, event_del ev s)

-- deleteTimerEvent, where event_del answers 0 if `deleted`.
unfoldable pub delete_timer_event : ℕ → Bool → Events → Bool × Events
delete_timer_event ev deleted s = if deleted then (true, event_del ev s) else (false, s)
