-- ===== src/Orchestration/EventMapper.antt =====
-- system_commons/alert_codes.py and orchestration/state_machine/event_mapper.py: which alerts are
-- events of the state machine.
use animacharacter_dev_src.Prelude.{ℤ, pos, int_key, equal, Option, none, some, if◌then◌else◌}
use animacharacter_dev_src.SystemAlerts.Alert.{Alert, AlertActionType, raise, clear, level_fatal}
use animacharacter_dev_src.Orchestration.SystemFsm.{
  SystemEvent, session_creation_requested, session_created, session_creation_failed,
  disconnect_requested, disconnected, fatal_fault,
}

abbrev pub inf_session_creation_request : ℤ
inf_session_creation_request = pos 100

abbrev pub inf_session_closure_request : ℤ
inf_session_closure_request = pos 110

abbrev pub inf_session_creation_ok : ℤ
inf_session_creation_ok = pos 120

abbrev pub inf_session_closure_ok : ℤ
inf_session_closure_ok = pos 130

abbrev pub err_session_creation_failed : ℤ
err_session_creation_failed = pos 140

abbrev pub ftl_core_proc_crash : ℤ
ftl_core_proc_crash = pos 200

abbrev pub heartbeat_timeout : ℤ
heartbeat_timeout = pos 220

abbrev pub err_noncritical_proc_crash : ℤ
err_noncritical_proc_crash = pos 230

module _ {F : Type 0} where
  unfoldable pub map_alert_to_system_event : AlertActionType → Alert F → Option SystemEvent
  map_alert_to_system_event raise alert =
      if equal alert.level level_fatal
      then some fatal_fault
      else if equal alert.code inf_session_creation_request
      then some session_creation_requested
      else if equal alert.code inf_session_creation_ok
      then some session_created
      else if equal alert.code err_session_creation_failed
      then some session_creation_failed
      else if equal alert.code inf_session_closure_request
      then some disconnect_requested
      else if equal alert.code inf_session_closure_ok
      then some disconnected
      else none
  map_alert_to_system_event clear alert = none
