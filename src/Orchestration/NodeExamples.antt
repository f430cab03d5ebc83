-- ===== src/Orchestration/NodeExamples.antt =====
-- Concrete runs of heartbeats, lifecycle calls and the supervisor, and the theorems about them there.
use animacharacter_dev_src.Prelude.{
  ℕ, ◌+◌, ◌≤◌, ◌<◌, ◌≡◌, refl, true, false, not, ◌&&◌, pos, negsuc, int_key, string_key, none, some,
  List, [], ◌∷◌, length, ok, if◌then◌else◌,
}
use animacharacter_dev_src.Prelude.Ticks.{Ticks, finite, infinite, ticks_float}
use animacharacter_dev_src.Prelude.Dict.{get}
use animacharacter_dev_src.SystemAlerts.Alert.{Alert, level_fatal}
use animacharacter_dev_src.SystemAlerts.Server.{empty_server, on_alert_change}
use animacharacter_dev_src.Orchestration.SystemFsm.{SystemState, standby, fault}
use animacharacter_dev_src.Orchestration.SystemFsm.Paths.{system_table}
use animacharacter_dev_src.Orchestration.Heartbeats.{
  Heartbeat, HeartbeatListener, HbInput, beat, check, no_heartbeats, check_heartbeats, listen,
}
use animacharacter_dev_src.Orchestration.Heartbeats.Timeouts.{
  count, beats, checked, check_heartbeats_exact, reports-le-beats,
}
use animacharacter_dev_src.Orchestration.Lifecycle
use animacharacter_dev_src.Orchestration.Lifecycle.{
  LifecycleNode, Shuts, shutdown_success, is_ready, request_transition, request_state,
  shutdown_transition,
}
use animacharacter_dev_src.Orchestration.Supervisor.{
  Supervisor, Now, SupInput, process_event_received, heartbeat_timed_out, expiry_timer, raise_on,
  supervise_all,
}
use animacharacter_dev_src.Orchestration.ProcNames.{get_domain_from_proc_name, split_colon}
use animacharacter_dev_src.Orchestration.Supervisor.{
  ProcessEvent, crash, process_alert, on_process_event_cb, event_type_of_value,
}
use animacharacter_dev_src.Orchestration.Supervisor.Crash.{core_process_faults}
use animacharacter_dev_src.Orchestration.Supervisor.Faults.{IsSupervised}
use animacharacter_dev_src.Orchestration.Supervisor.Reaction.{
  supervise_all-IsSupervised, fatal_alert_faults,
}

abbrev pulse : Heartbeat Ticks
pulse = record { name = "core:session_manager"; next_within = finite 10 }

abbrev one_entry : HeartbeatListener Ticks
one_entry = record {
  heartbeats = ("core:session_manager", record { deadline = finite 11; reported = false }) ∷ [];
  reports = [];
}

check_heartbeats_exact_example :
    (get (check_heartbeats (finite 12) one_entry).heartbeats "core:session_manager"
      ≡ checked (finite 12) (get one_entry.heartbeats "core:session_manager"))
    × (count "core:session_manager" (check_heartbeats (finite 12) one_entry).reports
        ≡ count "core:session_manager" one_entry.reports
          + elim (get one_entry.heartbeats "core:session_manager") [
            | none ↦ 0
            | some e ↦ if not e.reported && ticks_float.lt_f e.deadline (finite 12) then 1 else 0
          ])
unfolding get
check_heartbeats_exact_example =
    check_heartbeats_exact (finite 12) one_entry "core:session_manager" (refl, tt)

abbrev beating : List (Ticks × HbInput Ticks)
beating = (finite 1, beat pulse) ∷ (finite 12, check) ∷ (finite 14, check) ∷ []

reports-le-beats_example :
    count "core:session_manager" (listen beating no_heartbeats).reports
    ≤ beats "core:session_manager" beating
reports-le-beats_example = reports-le-beats beating "core:session_manager"

-- A node that accepts every transition; its world is its state.
abbrev agreeable : LifecycleNode ℕ
agreeable = record {
  change_state_ready = λ w. true;
  get_state_ready = λ w. true;
  call_change_state = λ t w. (t, some true);
  call_get_state = λ w. (w, some w);
  state_unconfigured = 1;
  state_inactive = 2;
  state_active = 3;
  transition_configure = 1;
  transition_cleanup = 2;
  transition_activate = 3;
  transition_unconfigured_shutdown = 5;
  transition_inactive_shutdown = 6;
  transition_active_shutdown = 7;
}

shutdown_success_example :
    (state transition : ℕ) × ((agreeable.call_get_state 2).1 ≡ some state)
    × Shuts agreeable state transition
    × ((agreeable.call_change_state transition (agreeable.call_get_state 2).0).1 ≡ some true)
unfolding Lifecycle.shutdown request_state shutdown_transition request_transition
shutdown_success_example = shutdown_success agreeable 2 refl

abbrev node_in : SystemState → Supervisor Ticks
node_in state = record {
  alert_server = on_alert_change empty_server;
  fault_ref_alert = none;
  fsm = record { state = state; transitions = system_table; finalized = false };
  statuses = [];
  shutdowns_scheduled = 0;
  context_shut_down = false;
}

node_in-IsSupervised : IsSupervised (node_in standby)
unfolding on_alert_change
node_in-IsSupervised = record { hooked = refl; table = refl; watched = λ h. absurd (cc h) }

abbrev noon : Now Ticks
noon = record { seconds = finite 12; nanoseconds = 12000000000 }

abbrev troubles : List (Now Ticks × SupInput Ticks)
troubles =
    (noon, heartbeat_timed_out "driver:body")
    ∷ (
      noon,
      process_event_received
          (record { proc_name = "core:session_manager"; event_type = 2; exit_code = pos 40 }),
    )
    ∷ (noon, expiry_timer)
    ∷ []

supervise_all-IsSupervised_example :
    IsSupervised (supervise_all (λ n. "n") (finite 30) troubles (node_in standby))
supervise_all-IsSupervised_example =
    supervise_all-IsSupervised (λ n. "n") (finite 30) troubles (node_in standby)
      node_in-IsSupervised

abbrev fire : Alert Ticks
fire = record {
  level = level_fatal;
  src = "body";
  code = pos 200;
  ttl = infinite;
  subcode = negsuc 0;
  brief = "fire";
  description = "";
}

fatal_alert_faults_example :
    (s' : Supervisor Ticks) × (raise_on noon fire (node_in standby) ≡ ok s')
    × (s'.fsm.state ≡ fault)
    × (s'.fault_ref_alert ≡ some fire)
    × (length s'.statuses ≡ length (node_in standby).statuses + 1)
    × (0 < s'.shutdowns_scheduled)
unfolding get on_alert_change
fatal_alert_faults_example =
    fatal_alert_faults noon fire (node_in standby) node_in-IsSupervised refl refl

abbrev crash_of_core : ProcessEvent
crash_of_core = record { proc_name = "core:session_manager"; event_type = 2; exit_code = pos 40 }

core_process_faults_example :
    (s' : Supervisor Ticks) × (on_process_event_cb
        (λ n. "n")
        (finite 30)
        noon
        crash_of_core
        (node_in standby)
      ≡ ok s')
    × (s'.fsm.state ≡ fault)
    × (s'.fault_ref_alert ≡ some (process_alert (λ n. "n") (finite 30) true crash crash_of_core))
    × (0 < s'.shutdowns_scheduled)
unfolding get on_alert_change get_domain_from_proc_name split_colon event_type_of_value
core_process_faults_example =
    core_process_faults (λ n. "n") (finite 30) noon crash_of_core crash (node_in standby)
      node_in-IsSupervised refl refl refl refl
