-- ===== src/Orchestration/Supervisor/Startup.antt =====
-- The entrypoint of the supervisor: the spinup of the lifecycle nodes and the state after it.
use animacharacter_dev_src.Prelude.{◌≡◌, refl, Bool, true, false, Float, raised, value_error, arith}
use animacharacter_dev_src.Prelude.Dict.{get}
use animacharacter_dev_src.Orchestration.Fsm.{change_state, allowed, member}
use animacharacter_dev_src.Orchestration.SystemFsm.{fault, SystemState-discrete, system_state_key}
use animacharacter_dev_src.Orchestration.SystemFsm.Paths.{system_table}
use animacharacter_dev_src.Orchestration.Lifecycle
use animacharacter_dev_src.Orchestration.Lifecycle.{LifecycleNode, request_transition}
use animacharacter_dev_src.Orchestration.Supervisor.{Supervisor, Now, entry_end, spinup_system}

module _ {W : Type 0} (hwmng ssmng : LifecycleNode W) where
  -- The spinup succeeds only if the hardware manager accepted its configuration, then the session manager
  -- its own, and then its activation, each call made on the world that the one before it left.
  pub spinup_success :
      (w : W)
      → (spinup_system hwmng ssmng w).1 ≡ true
      → ((Lifecycle.configure hwmng w).1 ≡ true)
        × ((Lifecycle.configure ssmng (Lifecycle.configure hwmng w).0).1 ≡ true)
        × ((Lifecycle.activate ssmng
              (Lifecycle.configure ssmng (Lifecycle.configure hwmng w).0).0).1
            ≡ true)
  unfolding spinup_system
  spinup_success w h = ground (arith, h)

module _ {F : Type 0} ⦃o : Float F⦄ where
  -- With the system's table, if the state became FAULT during the spinup, the entrypoint raises
  -- ValueError after it, whether the spinup succeeded or failed.
  pub entry_end_from_fault :
      (now : Now F) (started : Bool) (s : Supervisor F)
      → s.fsm.transitions ≡ system_table
      → s.fsm.state ≡ fault
      → entry_end now started s ≡ raised value_error
  unfolding entry_end change_state allowed get member SystemState-discrete
  entry_end_from_fault now true s t f = rw (t, f) refl
  entry_end_from_fault now false s t f = rw (t, f) refl
