-- ===== src/Orchestration/SystemFsm.antt =====
-- orchestration/state_machine/system_fsm.py: the visible state of the system, driven by semantic
-- events.
pub mod Paths
use animacharacter_dev_src.Prelude.{true, List, [], ◌∷◌, Key, Result, ok, ◌>>=◌, Exc, ite}
use animacharacter_dev_src.Orchestration.Fsm
use animacharacter_dev_src.Orchestration.Fsm.{
  Fsm, StateChangeResult, add_transitions, change_state, force_change_state,
}

pub data SystemState : Type 0 where
  booting standby connecting active disconnecting fault shutdown : SystemState

-- event_mapper.py
pub data SystemEvent : Type 0 where
  session_creation_requested session_created session_creation_failed disconnect_requested :
      SystemEvent
  disconnected fatal_fault : SystemEvent

unfoldable pub SystemState-discrete : Discrete SystemState
SystemState-discrete = hlevel

instance abbrev pub system_state_key : Key SystemState
unfolding SystemState-discrete
system_state_key = record { same = SystemState-discrete }

-- SystemFSM.__init__
unfoldable pub system_fsm : Result Exc (Fsm SystemState)
unfolding Fsm.init add_transitions
system_fsm = do
  f1 ← add_transitions booting (standby ∷ fault ∷ []) (Fsm.init booting)
  f2 ← add_transitions standby (connecting ∷ fault ∷ []) f1
  f3 ← add_transitions connecting (standby ∷ active ∷ fault ∷ []) f2
  f4 ← add_transitions active (disconnecting ∷ fault ∷ []) f3
  f5 ← add_transitions disconnecting (standby ∷ fault ∷ []) f4
  add_transitions fault (shutdown ∷ []) f5

abbrev pub Step : Type 0
Step = Result Exc (Fsm SystemState × StateChangeResult SystemState)

noop : Fsm SystemState → Step
noop f = ok (f, record { prev_state = f.state; new_state = f.state; legal_transition = true })

handle_booting : SystemEvent → Fsm SystemState → Step
handle_booting event f = noop f

handle_standby : SystemEvent → Fsm SystemState → Step
handle_standby session_creation_requested f = change_state connecting f
handle_standby _ f = noop f

handle_connecting : SystemEvent → Fsm SystemState → Step
handle_connecting session_created f = change_state active f
handle_connecting session_creation_failed f = change_state standby f
handle_connecting _ f = noop f

handle_active : SystemEvent → Fsm SystemState → Step
handle_active disconnect_requested f = change_state disconnecting f
handle_active disconnected f = force_change_state standby f
handle_active _ f = noop f

handle_disconnecting : SystemEvent → Fsm SystemState → Step
handle_disconnecting disconnected f = change_state standby f
handle_disconnecting _ f = noop f

-- the tests on `self.state` after the one on FATAL_FAULT
handle_in : SystemState → SystemEvent → Fsm SystemState → Step
handle_in booting = handle_booting
handle_in standby = handle_standby
handle_in connecting = handle_connecting
handle_in active = handle_active
handle_in disconnecting = handle_disconnecting
handle_in _ = λ event f. noop f

unfoldable pub process_event : SystemEvent → Fsm SystemState → Step
unfolding noop handle_booting handle_standby handle_connecting handle_active handle_disconnecting
    handle_in
process_event fatal_fault f =
    ite (SystemState-discrete f.state fault) (noop f) (force_change_state fault f)
process_event event f = handle_in f.state event f
