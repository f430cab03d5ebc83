-- ===== src/Orchestration/Supervisor.antt =====
-- orchestration/supervisor_node.py: the node that owns the alert server, the state machine and the
-- status topic. Timers, topics and the two lifecycle nodes belong to ROS: what the node publishes and
-- schedules is logged in its state, and the lifecycle nodes are those of Orchestration.Lifecycle.
pub mod Faults
pub mod Crash
pub mod Reaction
pub mod Startup
use Prim.Native.String.{◌++◌ as ◌+s◌}
use animacharacter_dev_src.Prelude.{
  ℕ, zero, suc, ◌/◌, ◌==◌, ltb, Bool, true, false, ◌&&◌, not, String, String-discrete, string_key,
  ℤ, pos, negsuc, Key, Float, Option, none, some, List, [], ◌∷◌, ◌++◌, length, drop, Result, ok,
  raised, ◌>>=◌, Exc, value_error, if◌then◌else◌, equal,
}
use animacharacter_dev_src.SystemAlerts.Alert.{
  Alert, AlertActionType, raise, clear, level_warn, level_err, level_fatal, empty_alert,
}
use animacharacter_dev_src.SystemAlerts.Transport.{AlertAction, MsgAlert, to_ros_alert}
use animacharacter_dev_src.SystemAlerts.Server
use animacharacter_dev_src.SystemAlerts.Server.{
  Server, Change, empty_server, handle_request, raise_alert, expire_alerts, on_alert_change,
}
use animacharacter_dev_src.Orchestration.Fsm.{
  Fsm, StateChangeResult, changed, change_state, force_change_state,
}
use animacharacter_dev_src.Orchestration.SystemFsm.{
  SystemState, standby, fault, shutdown, SystemState-discrete, system_state_key, SystemEvent,
  fatal_fault, system_fsm, process_event,
}
use animacharacter_dev_src.Orchestration.EventMapper.{
  map_alert_to_system_event, ftl_core_proc_crash, err_noncritical_proc_crash, heartbeat_timeout,
}
use animacharacter_dev_src.Orchestration.ProcNames.{
  domain_core, get_domain_from_proc_name, get_cause,
}
use animacharacter_dev_src.Orchestration.Lifecycle
use animacharacter_dev_src.Orchestration.Lifecycle.{LifecycleNode}

-- The readings of time.monotonic() and time.monotonic_ns() at a call.
pub record Now (F : Type 0) : Type 0 where
  pub seconds : F
  pub nanoseconds : ℕ

-- interfaces/msg/SystemStatus.msg
pub record SystemStatus (F : Type 0) : Type 0 where
  pub state_id : SystemState
  pub is_degraded : Bool
  pub legal : Bool
  pub timestamp : ℕ
  pub fault_ref : MsgAlert F

-- interfaces/msg/ProcessEvent.msg
pub record ProcessEvent : Type 0 where
  pub proc_name : String
  pub event_type : ℕ
  pub exit_code : ℤ

-- launch_utils.py
pub data SysEventType : Type 0 where
  start exit crash : SysEventType

-- `shutdowns_scheduled` counts the one-shot timers that will call shutdown_system.
pub record Supervisor (F : Type 0) : Type 0 where
  pub alert_server : Server F
  pub fault_ref_alert : Option (Alert F)
  pub fsm : Fsm SystemState
  pub statuses : List (SystemStatus F)
  pub shutdowns_scheduled : ℕ
  pub context_shut_down : Bool

-- What the supervisor's callbacks are called on.
pub data SupInput (F : Type 0) : Type 0 where
  alert_request : AlertAction F → SupInput F
  process_event_received : ProcessEvent → SupInput F
  heartbeat_timed_out : String → SupInput F
  expiry_timer : SupInput F

-- SysEventType(value)
unfoldable pub event_type_of_value : ℕ → Result Exc SysEventType
event_type_of_value n =
    if n == 0
    then ok start
    else if n == 1
    then ok exit
    else if n == 2
    then ok crash
    else raised value_error

abbrev is_core : String → Bool
is_core name = elim (get_domain_from_proc_name name) [ none ↦ false | some d ↦ equal d domain_core ]

abbrev ends : SysEventType → Bool
ends start = false
ends _ = true

abbrev action_name : SysEventType → String
action_name crash = "crashed"
action_name _ = "exited"

abbrev or_unknown : String → String
or_unknown name = if equal name "" then "unknown-process" else name

module _ {F : Type 0} ⦃o : Float F⦄ where
  -- Supervisor.__init__
  unfoldable pub new_supervisor : Result Exc (Supervisor F)
  new_supervisor = do
    fsm ← system_fsm
    ok (record {
      alert_server = on_alert_change empty_server;
      fault_ref_alert = none;
      fsm = fsm;
      statuses = [];
      shutdowns_scheduled = 0;
      context_shut_down = false;
    })

  unfoldable pub is_system_degraded : Supervisor F → Bool
  is_system_degraded s = elim s.alert_server.active_alerts [ [] ↦ false | _ ∷ _ ↦ true ]

  abbrev pub fault_ref_or_empty : Option (Alert F) → Alert F
  fault_ref_or_empty none = empty_alert
  fault_ref_or_empty (some a) = a

  unfoldable pub publish_system_status : Now F → Bool → Supervisor F → Supervisor F
  publish_system_status now legal s = record s {
    statuses =
        s.statuses
        ++ record {
          state_id = s.fsm.state;
          is_degraded = is_system_degraded s;
          legal = legal;
          timestamp = now.nanoseconds / 1000000;
          fault_ref = to_ros_alert (fault_ref_or_empty s.fault_ref_alert);
        }
          ∷ [];
  }

  -- the end of on_alert_change_cb, if the state changed
  unfoldable pub schedule_shutdown : StateChangeResult SystemState → Supervisor F → Supervisor F
  schedule_shutdown result s =
      if changed result && equal s.fsm.state fault
      then record s { shutdowns_scheduled = suc s.shutdowns_scheduled }
      else s

  -- on_alert_change_cb from the call of process_event on
  unfoldable pub apply_event : Now F → SystemEvent → Supervisor F → Result Exc (Supervisor F)
  apply_event now event s = do
    step ← process_event event s.fsm
    ok (
        schedule_shutdown step.1
          (publish_system_status now step.1.legal_transition (record s { fsm = step.0 })))

  abbrev note_fault : SystemEvent → Alert F → Supervisor F → Supervisor F
  note_fault fatal_fault alert s = record s { fault_ref_alert = some alert }
  note_fault _ alert s = s

  abbrev on_event : Now F → Option SystemEvent → Alert F → Supervisor F → Result Exc (Supervisor F)
  on_event now none alert s = ok s
  on_event now (some event) alert s = apply_event now event (note_fault event alert s)

  unfoldable pub on_alert_change_cb :
      Now F → AlertActionType → Alert F → Supervisor F → Result Exc (Supervisor F)
  on_alert_change_cb now action alert s =
      on_event now (map_alert_to_system_event action alert) alert s

  unfoldable pub react_all : Now F → List (Change F) → Supervisor F → Result Exc (Supervisor F)
  react_all now [] s = ok s
  react_all now (c ∷ cs) s = on_alert_change_cb now c.0 c.1 s >>= react_all now cs

  -- The alert server calls back for each change that it announces.
  unfoldable pub with_server : Now F → Server F → Supervisor F → Result Exc (Supervisor F)
  with_server now server s =
      react_all now (drop (length s.alert_server.called_back) server.called_back)
        (record s { alert_server = server })

  unfoldable pub raise_on : Now F → Alert F → Supervisor F → Result Exc (Supervisor F)
  raise_on now alert s = with_server now (raise_alert now.seconds alert s.alert_server) s

  unfoldable pub request_on : Now F → AlertAction F → Supervisor F → Result Exc (Supervisor F)
  request_on now message s = do
    server ← handle_request now.seconds message s.alert_server
    with_server now server s

  unfoldable pub expire_on : Now F → Supervisor F → Result Exc (Supervisor F)
  expire_on now s = with_server now (expire_alerts now.seconds s.alert_server) s

  -- the alert of on_process_event_cb; `thirty` is its literal 30.0
  unfoldable pub process_alert : (ℤ → String) → F → Bool → SysEventType → ProcessEvent → Alert F
  process_alert show thirty core type event =
      let what =
        "process \""
        +s (event.proc_name
            +s ("\" has crashed with code: "
                +s (show event.exit_code +s (".\nCause: " +s get_cause show event.exit_code)))) in
      if core
      then record {
        level = level_fatal;
        src = or_unknown event.proc_name;
        code = ftl_core_proc_crash;
        ttl = o.inf;
        subcode = event.exit_code;
        brief = "Core process " +s action_name type;
        description = "The core " +s what;
      }
      else record {
        level = level_err;
        src = or_unknown event.proc_name;
        code = err_noncritical_proc_crash;
        ttl = thirty;
        subcode = event.exit_code;
        brief = "Non-critical process " +s action_name type;
        description = "The non-critical " +s what;
      }

  unfoldable pub on_process_event_cb :
      (ℤ → String) → F → Now F → ProcessEvent → Supervisor F → Result Exc (Supervisor F)
  on_process_event_cb show thirty now event s = do
    type ← event_type_of_value event.event_type
    if ends type
        then raise_on now (process_alert show thirty (is_core event.proc_name) type event) s
        else ok s

  unfoldable pub heartbeat_alert : Bool → String → Alert F
  heartbeat_alert core name = record {
    level = if core then level_fatal else level_warn;
    src = name;
    code = heartbeat_timeout;
    ttl = o.inf;
    subcode = negsuc 0;
    brief = "Heartbeat " +s (name +s " has timed out");
    description =
        (if core then "The core process \"" else "The non critical process \"")
        +s (name +s "\" heartbeat has timed out.");
  }

  unfoldable pub on_heartbeat_timeout_cb : Now F → String → Supervisor F → Result Exc (Supervisor F)
  on_heartbeat_timeout_cb now name s = raise_on now (heartbeat_alert (is_core name) name) s

  unfoldable pub supervise :
      (ℤ → String) → F → Now F → SupInput F → Supervisor F → Result Exc (Supervisor F)
  supervise show thirty now (alert_request message) s = request_on now message s
  supervise show thirty now (process_event_received event) s =
      on_process_event_cb show thirty now event s
  supervise show thirty now (heartbeat_timed_out name) s = on_heartbeat_timeout_cb now name s
  supervise show thirty now expiry_timer s = expire_on now s

  abbrev pub or_unchanged : Supervisor F → Result Exc (Supervisor F) → Supervisor F
  or_unchanged s (ok s') = s'
  or_unchanged s (raised e) = s

  -- The callbacks of a run, in order; one that raises leaves the node as it was.
  unfoldable pub supervise_all :
      (ℤ → String) → F → List (Now F × SupInput F) → Supervisor F → Supervisor F
  supervise_all show thirty [] s = s
  supervise_all show thirty ((now, i) ∷ is) s =
      supervise_all show thirty is (or_unchanged s (supervise show thirty now i s))

  -- entrypoint up to its call of spinup_system
  unfoldable pub entry_begin : Now F → Supervisor F → Supervisor F
  entry_begin now s = publish_system_status now true s

  -- entrypoint after spinup_system, up to its call of shutdown_system if the spinup failed
  unfoldable pub entry_end : Now F → Bool → Supervisor F → Result Exc (Supervisor F)
  entry_end now started s = do
    step ← change_state (if started then standby else fault) s.fsm
    ok (publish_system_status now true (record s { fsm = step.0 }))

  -- shutdown_system after the lifecycle nodes answered, up to its sleep
  unfoldable pub announce_shutdown : Now F → Supervisor F → Result Exc (Supervisor F)
  announce_shutdown now s = do
    step ← force_change_state shutdown s.fsm
    ok (publish_system_status now step.1.legal_transition (record s { fsm = step.0 }))

  -- shutdown_system after its sleep
  unfoldable pub destroy_context : Supervisor F → Supervisor F
  destroy_context s = record s { context_shut_down = true }

module _ {W : Type 0} (hwmng ssmng : LifecycleNode W) where
  -- spinup_system: each request is made only if those before it succeeded
  unfoldable pub spinup_system : W → W × Bool
  spinup_system w =
      let (w1, configured) = Lifecycle.configure hwmng w in
      if not configured
      then (w1, false)
      else (let (w2, configured') = Lifecycle.configure ssmng w1 in
          if not configured' then (w2, false) else Lifecycle.activate ssmng w2)

  -- the two calls that shutdown_system gathers, one after the other
  unfoldable pub shutdown_nodes : W → W × Bool
  shutdown_nodes w =
      let (w1, a) = Lifecycle.shutdown hwmng w in
      let (w2, b) = Lifecycle.shutdown ssmng w1 in (w2, a && b)
