-- ===== src/Orchestration/SystemFsm/Paths.antt =====
-- state_machine/system_fsm.py, event by event and over whole sequences of events.
use animacharacter_dev_src.Prelude.{
  ◌⊎◌, ◌↔◌, Result, ◌>>=◌, Exc, sym, inl, inr, ◌≡◌, refl, Bool, true, false, List, [], ◌∷◌, ok,
  arith,
}
use mathlib.Core.List.{Memᴰ}
use animacharacter_dev_src.Prelude.Dict.{Dict, get, put}
use animacharacter_dev_src.Orchestration.Fsm.{
  Fsm, member, allowed, change_state, force_change_state,
}
use animacharacter_dev_src.Orchestration.SystemFsm.{
  SystemState, booting, standby, connecting, active, disconnecting, fault, shutdown,
  SystemState-discrete, SystemEvent, session_creation_requested, session_created,
  session_creation_failed, disconnect_requested, disconnected, fatal_fault, system_fsm,
  process_event,
}

-- The table that the constructor builds.
abbrev pub system_table : Dict SystemState (List SystemState)
system_table =
    (booting, standby ∷ fault ∷ [])
    ∷ (standby, connecting ∷ fault ∷ [])
    ∷ (connecting, standby ∷ active ∷ fault ∷ [])
    ∷ (active, disconnecting ∷ fault ∷ [])
    ∷ (disconnecting, standby ∷ fault ∷ [])
    ∷ (fault, shutdown ∷ [])
    ∷ []

pub system_fsm-table :
    system_fsm ≡ ok (record { state = booting; transitions = system_table; finalized = false })
unfolding system_fsm get put allowed SystemState-discrete
system_fsm-table = refl

-- The intended diagram, written without the code: where an event leads from a state.
unfoldable pub next : SystemEvent → SystemState → SystemState
next fatal_fault s = fault
next session_creation_requested standby = connecting
next session_created connecting = active
next session_creation_failed connecting = standby
next disconnect_requested active = disconnecting
next disconnected active = standby
next disconnected disconnecting = standby
next _ s = s

-- The two changes that the table does not list.
unfoldable pub in_table : SystemEvent → SystemState → Bool
in_table disconnected active = false
in_table fatal_fault shutdown = false
in_table _ _ = true

-- On a machine with the system's table every event is handled without an exception: the state moves
-- as in the diagram `next`, the table stays, and the result reports the old state, the new state and
-- a legal change, except for a disconnection while ACTIVE and a fault during SHUTDOWN.
pub process_event_exact :
    (event : SystemEvent) (f : Fsm SystemState)
    → f.transitions ≡ system_table
    → process_event event f
      ≡ ok (
        record f { state = next event f.state },
        record {
          prev_state = f.state;
          new_state = next event f.state;
          legal_transition = in_table event f.state;
        },
      )
unfolding process_event force_change_state change_state allowed member get next in_table
    SystemState-discrete
process_event_exact fatal_fault f h = ground arith
process_event_exact session_creation_requested f h = ground arith
process_event_exact event f h = ground arith

-- Events handled one after the other.
unfoldable pub run : List SystemEvent → Fsm SystemState → Result Exc (Fsm SystemState)
run [] f = ok f
run (event ∷ events) f = process_event event f >>= λ r. run events r.0

walk : List SystemEvent → SystemState → SystemState
walk [] s = s
walk (event ∷ events) s = walk events (next event s)

run-eq-walk :
    (events : List SystemEvent) (f : Fsm SystemState)
    → f.transitions ≡ system_table
    → run events f ≡ ok (record f { state = walk events f.state })
unfolding run walk
run-eq-walk [] f h = refl
run-eq-walk (event ∷ events) f h =
    rw (process_event_exact event f h)
      (run-eq-walk events (record f { state = next event f.state }) h)

walk-fault : (events : List SystemEvent) → walk events fault ≡ fault
unfolding walk next
walk-fault [] = refl
walk-fault (fatal_fault ∷ events) = walk-fault events
walk-fault (event ∷ events) = walk-fault events

walk_fatal :
    (events : List SystemEvent) (s : SystemState) → Memᴰ fatal_fault events → walk events s ≡ fault
unfolding walk next
walk_fatal [] s m = elim m [ ]
walk_fatal (event ∷ events) s (Memᴰ.head p) = rw (← p) (walk-fault events)
walk_fatal (event ∷ events) s (Memᴰ.tail m) = walk_fatal events (next event s) m

next-fault :
    (event : SystemEvent) (s : SystemState)
    → next event s ≡ fault
    → (event ≡ fatal_fault) ⊎ (s ≡ fault)
unfolding next
next-fault fatal_fault s h = inl refl
next-fault event s h = ground arith

fatal_of_walk :
    (events : List SystemEvent) (s : SystemState)
    → walk events s ≡ fault
    → Memᴰ fatal_fault events ⊎ (s ≡ fault)
unfolding walk
fatal_of_walk [] s h = inr h
fatal_of_walk (event ∷ events) s h = elim (fatal_of_walk events (next event s) h) [
  | inl m ↦ inl (Memᴰ.tail m)
  | inr e ↦ elim (next-fault event s e) [ inl q ↦ inl (Memᴰ.head (sym q)) | inr q ↦ inr q ]
]

-- Whatever the events, a machine with the system's table handles them all, and it ends in FAULT
-- exactly when it started there or a fatal fault was among the events: nothing else leads to FAULT and
-- no event leads out of it.
pub fault_exactly_after_fatal :
    (events : List SystemEvent) (f : Fsm SystemState)
    → f.transitions ≡ system_table
    → (g : Fsm SystemState) × (run events f ≡ ok g)
      × ((g.state ≡ fault) ↔ (Memᴰ fatal_fault events ⊎ (f.state ≡ fault)))
fault_exactly_after_fatal events f h = (
  record f { state = walk events f.state },
  run-eq-walk events f h,
  (
    fatal_of_walk events f.state,
    λ s. elim s [ inl m ↦ walk_fatal events f.state m | inr e ↦ rw e (walk-fault events) ],
  ),
)

-- `sub` occurs in `events` in this order, with other events between.
pub data Within : List SystemEvent → List SystemEvent → Type 0 where
  done : {events : List SystemEvent} → Within [] events
  skip :
      {sub events : List SystemEvent} {e : SystemEvent}
      → Within sub events
      → Within sub (e ∷ events)
  take_it :
      {sub events : List SystemEvent} {e : SystemEvent}
      → Within sub events
      → Within (e ∷ sub) (e ∷ events)

Within-tail :
    {e : SystemEvent} {sub events : List SystemEvent} → Within (e ∷ sub) events → Within sub events
Within-tail (skip w) = skip (Within-tail w)
Within-tail (take_it w) = skip w

-- What the events must still bring before the state is ACTIVE. From the last three it never is.
abbrev missing : SystemState → List SystemEvent
missing active = []
missing connecting = session_created ∷ []
missing standby = session_creation_requested ∷ session_created ∷ []
missing _ = disconnected ∷ session_creation_requested ∷ session_created ∷ []

missing-next :
    (e : SystemEvent) (s : SystemState) (events : List SystemEvent)
    → Within (missing (next e s)) events
    → Within (missing s) (e ∷ events)
unfolding next
missing-next _ active events h = done
missing-next session_creation_requested standby events h = take_it h
missing-next session_created connecting events h = take_it h
missing-next session_creation_failed connecting events h = skip (Within-tail h)
missing-next disconnected disconnecting events h = take_it h
missing-next fatal_fault standby events h = skip (Within-tail h)
missing-next fatal_fault connecting events h = skip (Within-tail (Within-tail h))
missing-next fatal_fault booting events h = skip h
missing-next fatal_fault fault events h = skip h
missing-next fatal_fault shutdown events h = skip h
missing-next e s events h = skip h

missing-walk :
    (events : List SystemEvent) (s : SystemState)
    → walk events s ≡ active
    → Within (missing s) events
unfolding walk
missing-walk [] active h = done
missing-walk [] s h = cc
missing-walk (e ∷ events) s h = missing-next e s events (missing-walk events (next e s) h)

-- From STANDBY the system is ACTIVE after some events only if a session was requested and, later among
-- them, a session was created.
pub active_needs_session :
    (events : List SystemEvent) (f g : Fsm SystemState)
    → f.transitions ≡ system_table
    → f.state ≡ standby
    → run events f ≡ ok g
    → g.state ≡ active
    → Within (session_creation_requested ∷ session_created ∷ []) events
active_needs_session events f g h b r a =
    rw b at (missing-walk events f.state (cc (run-eq-walk events f h)))
