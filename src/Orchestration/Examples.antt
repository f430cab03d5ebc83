-- ===== src/Orchestration/Examples.antt =====
-- Concrete runs of the state machine, and the theorems about it at concrete inputs.
use mathlib.Core.List.{Memᴰ}
use animacharacter_dev_src.Prelude.{
  ◌≡◌, refl, ◌⊎◌, ◌↔◌, true, false, List, [], ◌∷◌, ok, raised, value_error, runtime_error, ite,
  ◌||◌,
}
use animacharacter_dev_src.Prelude.Dict.{get, put}
use animacharacter_dev_src.Orchestration.Fsm
use animacharacter_dev_src.Orchestration.Fsm.{
  Fsm, StateChangeResult, member, allowed, add_transitions, finalize, change_state,
  force_change_state,
}
use animacharacter_dev_src.Orchestration.Fsm.Legality.{
  change_state_exact, allowed-add_transitions, finalized_frozen,
}
use animacharacter_dev_src.Orchestration.SystemFsm.{
  SystemState, booting, standby, active, fault, SystemState-discrete, system_state_key, SystemEvent,
  session_creation_requested, session_created, disconnected, fatal_fault, process_event,
}
use animacharacter_dev_src.Orchestration.SystemFsm.Paths.{
  system_table, next, in_table, process_event_exact, run, fault_exactly_after_fatal, Within,
  active_needs_session,
}

abbrev at_state : SystemState → Fsm SystemState
at_state s = record { state = s; transitions = system_table; finalized = false }

change_state_exact_example :
    ((member active (allowed (at_state standby) standby) ≡ true)
      × (change_state active (at_state standby)
          ≡ ok (
            at_state active,
            record { prev_state = standby; new_state = active; legal_transition = true },
          )))
    ⊎ ((member active (allowed (at_state standby) standby) ≡ false)
        × (change_state active (at_state standby) ≡ raised value_error))
change_state_exact_example = change_state_exact (at_state standby) active

abbrev two_more : Fsm SystemState
two_more = record {
  state = booting;
  transitions = (booting, standby ∷ fault ∷ []) ∷ [];
  finalized = false;
}

allowed-add_transitions_example :
    member fault (allowed two_more booting)
    ≡ ite
        (SystemState-discrete booting booting)
        (member fault (allowed (Fsm.init booting) booting) || member fault (standby ∷ fault ∷ []))
        (member fault (allowed (Fsm.init booting) booting))
unfolding add_transitions Fsm.init allowed get put SystemState-discrete
allowed-add_transitions_example =
    allowed-add_transitions (Fsm.init booting) booting (standby ∷ fault ∷ []) {g = two_more} refl
      booting fault

finalized_frozen_example :
    (add_transitions booting (fault ∷ []) (record (at_state standby) { finalized = true })
      ≡ raised runtime_error)
    × (finalize (record (at_state standby) { finalized = true }) ≡ raised runtime_error)
unfolding finalize
finalized_frozen_example = finalized_frozen (at_state standby) refl booting (fault ∷ [])

process_event_exact_example :
    process_event disconnected (at_state active)
    ≡ ok (
      record (at_state active) { state = next disconnected active },
      record {
        prev_state = active;
        new_state = next disconnected active;
        legal_transition = in_table disconnected active;
      },
    )
process_event_exact_example = process_event_exact disconnected (at_state active) refl

abbrev crash_run : List SystemEvent
crash_run = session_creation_requested ∷ fatal_fault ∷ session_created ∷ []

fault_exactly_after_fatal_example :
    (g : Fsm SystemState) × (run crash_run (at_state standby) ≡ ok g)
    × ((g.state ≡ fault) ↔ (Memᴰ fatal_fault crash_run ⊎ (standby ≡ fault)))
fault_exactly_after_fatal_example = fault_exactly_after_fatal crash_run (at_state standby) refl

abbrev session_run : List SystemEvent
session_run = disconnected ∷ session_creation_requested ∷ session_created ∷ []

active_needs_session_example :
    Within (session_creation_requested ∷ session_created ∷ []) session_run
unfolding run process_event change_state allowed get member SystemState-discrete
active_needs_session_example =
    active_needs_session session_run (at_state standby) (at_state active) refl refl refl refl
