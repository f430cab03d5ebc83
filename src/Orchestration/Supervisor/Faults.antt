-- ===== src/Orchestration/Supervisor/Faults.antt =====
-- Callbacks of orchestration/supervisor_node.py that react to a change of the alert server.
use animacharacter_dev_src.Prelude.{
  ◌<◌, ◌≡◌, refl, ◌∙◌, inl, inr, true, ℤ, int_key, Float, Option, none, some, List, [], ◌∷◌, length,
  drop, Result, ok, Exc, arith, Option-cases,
}
use animacharacter_dev_src.Prelude.Dict.{get}
use animacharacter_dev_src.SystemAlerts.Alert.{Alert, AlertActionType, raise, clear}
use animacharacter_dev_src.SystemAlerts.Server.{
  Server, Change, announce, apply_change, raise_alert, clear_alert, clear_all, expire_alerts,
}
use animacharacter_dev_src.Orchestration.Fsm.{changed}
use animacharacter_dev_src.Orchestration.SystemFsm.{
  fault, SystemState-discrete, system_state_key, SystemEvent, fatal_fault,
}
use animacharacter_dev_src.Orchestration.SystemFsm.Paths.{
  system_table, next, in_table, process_event_exact,
}
use animacharacter_dev_src.Orchestration.EventMapper.{map_alert_to_system_event}
use animacharacter_dev_src.Orchestration.Supervisor.{
  Supervisor, Now, publish_system_status, schedule_shutdown, apply_event, note_fault, on_event,
  on_alert_change_cb, react_all, with_server, raise_on, expire_on,
}

module _ {F : Type 0} where
  -- Between two callbacks: the server calls back, the machine has the system's table, and in FAULT a
  -- shutdown is scheduled.
  pub record IsSupervised (s : Supervisor F) : Type 0 where
    pub hooked : s.alert_server.has_callback ≡ true
    pub table : s.fsm.transitions ≡ system_table
    pub watched : s.fsm.state ≡ fault → 0 < s.shutdowns_scheduled

  hooked-announce :
      (action : AlertActionType) (a : Alert F) (v : Server F)
      → (announce action a v).has_callback ≡ v.has_callback
  unfolding announce
  hooked-announce action a v = ground arith

module _ {F : Type 0} ⦃o : Float F⦄ where
  pub hooked-apply_change :
      (now : F) (action : AlertActionType) (a : Alert F) (v : Server F)
      → (apply_change now action a v).0.has_callback ≡ v.has_callback
  unfolding apply_change announce
  hooked-apply_change now raise a v = ground arith
  hooked-apply_change now clear a v = ground arith

  pub hooked-clear_alert :
      (now : F) (code : ℤ) (v : Server F) → (clear_alert now code v).has_callback ≡ v.has_callback
  unfolding clear_alert
  hooked-clear_alert now code v = elim (Option-cases (get v.active_alerts code)) [
    | inl h ↦ rw (h, clear_alert)
    | inr (a, h) ↦ rw (h, clear_alert) (hooked-apply_change now clear a v)
  ]

  hooked-clear_all :
      (now : F) (as' : List (Alert F)) (v : Server F)
      → (clear_all now as' v).has_callback ≡ v.has_callback
  unfolding clear_all
  hooked-clear_all now [] v = refl
  hooked-clear_all now (a ∷ as') v =
      cc (hooked-clear_all now as' (clear_alert now a.code v), hooked-clear_alert now a.code v)

  -- The supervisor after an event, along the diagram of the state machine.
  abbrev pub after_event : Now F → SystemEvent → Supervisor F → Supervisor F
  after_event now event s =
      schedule_shutdown
        (record {
          prev_state = s.fsm.state;
          new_state = next event s.fsm.state;
          legal_transition = in_table event s.fsm.state;
        })
        (publish_system_status now (in_table event s.fsm.state)
          (record s { fsm = record s.fsm { state = next event s.fsm.state } }))

  pub apply_event-eq :
      (now : Now F) (event : SystemEvent) (s : Supervisor F)
      → s.fsm.transitions ≡ system_table
      → apply_event now event s ≡ ok (after_event now event s)
  unfolding apply_event
  apply_event-eq now event s h = rw (process_event_exact event s.fsm h)

  pub after_event-IsSupervised :
      (now : Now F) (event : SystemEvent) (s : Supervisor F)
      → IsSupervised s
      → IsSupervised (after_event now event s)
  unfolding publish_system_status schedule_shutdown changed SystemState-discrete
  after_event-IsSupervised now event s v = record {
    hooked = ground arith;
    table = ground arith;
    watched = λ h. ground arith;
  }

  -- A callback of the supervisor's that returns, in a supervised state.
  abbrev pub Returns : Result Exc (Supervisor F) → Type 0
  Returns r = (s' : Supervisor F) × (r ≡ ok s') × IsSupervised s'

  note_fault-IsSupervised :
      (event : SystemEvent) (a : Alert F) (s : Supervisor F)
      → IsSupervised s
      → IsSupervised (note_fault event a s)
  note_fault-IsSupervised fatal_fault a s v = record {
    hooked = v.hooked;
    table = v.table;
    watched = v.watched;
  }
  note_fault-IsSupervised event a s v = v

  on_event-Returns :
      (now : Now F) (event : Option SystemEvent) (a : Alert F) (s : Supervisor F)
      → IsSupervised s
      → Returns (on_event now event a s)
  on_event-Returns now none a s v = (s, refl, v)
  on_event-Returns now (some event) a s v =
      let w = note_fault-IsSupervised event a s v in
      (
        after_event now event (note_fault event a s),
        apply_event-eq now event (note_fault event a s) w.table,
        after_event-IsSupervised now event (note_fault event a s) w,
      )

  react_all-Returns :
      (now : Now F) (cs : List (Change F)) (s : Supervisor F)
      → IsSupervised s
      → Returns (react_all now cs s)
  unfolding react_all on_alert_change_cb
  react_all-Returns now [] s v = (s, refl, v)
  react_all-Returns now (c ∷ cs) s v =
      let (s1, e1, v1) = on_event-Returns now (map_alert_to_system_event c.0 c.1) c.1 s v in
      let (s2, e2, v2) = react_all-Returns now cs s1 v1 in (s2, rw e1 e2, v2)

  pub with_server-Returns :
      (now : Now F) (server : Server F) (s : Supervisor F)
      → server.has_callback ≡ true
      → IsSupervised s
      → Returns (with_server now server s)
  unfolding with_server
  with_server-Returns now server s h v =
      react_all-Returns now (drop (length s.alert_server.called_back) server.called_back)
        (record s { alert_server = server })
        (record { hooked = h; table = v.table; watched = v.watched })

  pub raise_on-Returns :
      (now : Now F) (a : Alert F) (s : Supervisor F) → IsSupervised s → Returns (raise_on now a s)
  unfolding raise_on raise_alert
  raise_on-Returns now a s v =
      with_server-Returns now (apply_change now.seconds raise a s.alert_server).0 s
        (hooked-apply_change now.seconds raise a s.alert_server ∙ v.hooked) v

  pub expire_on-Returns :
      (now : Now F) (s : Supervisor F) → IsSupervised s → Returns (expire_on now s)
  unfolding expire_on expire_alerts
  expire_on-Returns now s v =
      with_server-Returns now _ s (hooked-clear_all now.seconds _ s.alert_server ∙ v.hooked) v
