-- ===== src/Orchestration/Supervisor/Crash.antt =====
-- on_process_event_cb of orchestration/supervisor_node.py, for the processes of the core.
use animacharacter_dev_src.Prelude.{
  ◌<◌, ◌≡◌, refl, true, false, ℤ, int_key, String, string_key, Float, some, ok, equal_refl,
}
use animacharacter_dev_src.Prelude.Dict.{get}
use animacharacter_dev_src.SystemAlerts.Server.{same_as}
use animacharacter_dev_src.Orchestration.SystemFsm.{fault}
use animacharacter_dev_src.Orchestration.EventMapper.{ftl_core_proc_crash}
use animacharacter_dev_src.Orchestration.ProcNames.{domain_core, get_domain_from_proc_name}
use animacharacter_dev_src.Orchestration.Supervisor.{
  Supervisor, Now, ProcessEvent, SysEventType, event_type_of_value, ends, is_core, process_alert,
  on_process_event_cb,
}
use animacharacter_dev_src.Orchestration.Supervisor.Faults.{IsSupervised}
use animacharacter_dev_src.Orchestration.Supervisor.Reaction.{fatal_alert_faults}

is_core_named :
    (name : String) → get_domain_from_proc_name name ≡ some domain_core → is_core name ≡ true
is_core_named name h = rw (h, is_core) (equal_refl domain_core)

module _ {F : Type 0} ⦃o : Float F⦄ where
  -- When a supervised node hears that a process whose name is in the domain `core` exited or crashed, and
  -- no equal alert is active: the callback returns with the state FAULT, the process's alert as the
  -- reference of the fault, in place of that of a FATAL alert that was received before, and a shutdown
  -- scheduled.
  pub core_process_faults :
      (show : ℤ → String) (thirty : F) (now : Now F) (e : ProcessEvent) (type : SysEventType)
      (s : Supervisor F)
      → IsSupervised s
      → get_domain_from_proc_name e.proc_name ≡ some domain_core
      → event_type_of_value e.event_type ≡ ok type
      → ends type ≡ true
      → same_as
          (process_alert show thirty true type e)
          (get s.alert_server.active_alerts ftl_core_proc_crash)
        ≡ false
      → (s' : Supervisor F) × (on_process_event_cb show thirty now e s ≡ ok s')
        × (s'.fsm.state ≡ fault)
        × (s'.fault_ref_alert ≡ some (process_alert show thirty true type e))
        × (0 < s'.shutdowns_scheduled)
  unfolding on_process_event_cb process_alert
  core_process_faults show thirty now e type s v d t n fresh =
      let (s', returns, state, ref, published, scheduled) =
        fatal_alert_faults now (process_alert show thirty true type e) s v refl fresh in
      (s', rw (t, n, is_core_named e.proc_name d) returns, state, ref, scheduled)
