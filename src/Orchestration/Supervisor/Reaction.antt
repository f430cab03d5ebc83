-- ===== src/Orchestration/Supervisor/Reaction.antt =====
-- The supervisor's reaction to alerts, crashes, missed heartbeats and the expiry timer.
use animacharacter_dev_src.Prelude.{
  ◌+◌, ◌<◌, ◌≡◌, refl, ◌∙◌, inl, inr, true, false, ◌&&◌, ℤ, int_key, String, Float, some, List, [],
  ◌∷◌, length, drop, Result, ok, raised, ◌>>=◌, Exc, if◌then◌else◌, arith, Bool-cases, drop-append,
  Result-cases, ok-inj, sym, ap, equal, length-append,
}
use animacharacter_dev_src.Prelude.Dict.{get}
use animacharacter_dev_src.SystemAlerts.Alert.{Alert, raise, level_fatal}
use animacharacter_dev_src.SystemAlerts.Transport.{AlertAction, decode_action_message}
use animacharacter_dev_src.SystemAlerts.Server.{
  Server, announce, apply_change, same_as, handle_request, raise_alert,
}
use animacharacter_dev_src.Orchestration.Fsm.{StateChangeResult, changed}
use animacharacter_dev_src.Orchestration.SystemFsm.{
  SystemState, fault, system_state_key, fatal_fault,
}
use animacharacter_dev_src.Orchestration.SystemFsm.Paths.{next}
use animacharacter_dev_src.Orchestration.EventMapper.{map_alert_to_system_event}
use animacharacter_dev_src.Orchestration.Supervisor.{
  Supervisor, SupInput, alert_request, process_event_received, heartbeat_timed_out, expiry_timer,
  Now, ProcessEvent, publish_system_status, schedule_shutdown, event_type_of_value, SysEventType,
  start, exit, crash, ends, process_alert, is_core, heartbeat_alert, on_alert_change_cb, react_all,
  with_server, raise_on, request_on, on_process_event_cb, on_heartbeat_timeout_cb, supervise,
  or_unchanged, supervise_all,
}
use animacharacter_dev_src.Orchestration.Supervisor.Faults.{
  IsSupervised, Returns, hooked-apply_change, with_server-Returns, raise_on-Returns,
  expire_on-Returns, apply_event-eq, after_event, after_event-IsSupervised,
}

module _ {F : Type 0} ⦃o : Float F⦄ where
  -- What a callback leaves, raised or not, is supervised.
  abbrev Keeps : Supervisor F → Result Exc (Supervisor F) → Type 0
  Keeps s r = IsSupervised (or_unchanged s r)

  Keeps-Returns : (s : Supervisor F) (r : Result Exc (Supervisor F)) → Returns r → Keeps s r
  Keeps-Returns s r (s', e, v) = rw e v

  hooked-handle_request :
      (now : F) (m : AlertAction F) (v v' : Server F)
      → handle_request now m v ≡ ok v'
      → v'.has_callback ≡ v.has_callback
  unfolding handle_request
  hooked-handle_request now m v v' h = elim (Result-cases (decode_action_message m)) [
    | inl (e, d) ↦ absurd (cc (rw (d, handle_request) at h))
    | inr (c, d) ↦
        sym (ap (λ w. w.has_callback) (ok-inj (rw (d, handle_request) at h)))
        ∙ hooked-apply_change now c.0 c.1 v
  ]

  request_on-Keeps :
      (now : Now F) (m : AlertAction F) (s : Supervisor F)
      → IsSupervised s
      → Keeps s (request_on now m s)
  unfolding request_on
  request_on-Keeps now m s v = elim (Result-cases (handle_request now.seconds m s.alert_server)) [
    | inl (e, d) ↦ rw d v
    | inr (w, d) ↦ rw d (
        Keeps-Returns s _ (
          with_server-Returns now w s
            (hooked-handle_request now.seconds m s.alert_server w d ∙ v.hooked) v))
  ]

  ended-Keeps :
      (show : ℤ → String) (thirty : F) (now : Now F) (e : ProcessEvent) (s : Supervisor F)
      → IsSupervised s
      → (t : Result Exc SysEventType)
      → Keeps s (
          t >>= λ type.
          if ends type
          then raise_on now (process_alert show thirty (is_core e.proc_name) type e) s
          else ok s)
  ended-Keeps show thirty now e s v (raised x) = v
  ended-Keeps show thirty now e s v (ok start) = v
  ended-Keeps show thirty now e s v (ok exit) = Keeps-Returns s _ (raise_on-Returns now _ s v)
  ended-Keeps show thirty now e s v (ok crash) = Keeps-Returns s _ (raise_on-Returns now _ s v)

  on_process_event_cb-Keeps :
      (show : ℤ → String) (thirty : F) (now : Now F) (e : ProcessEvent) (s : Supervisor F)
      → IsSupervised s
      → Keeps s (on_process_event_cb show thirty now e s)
  unfolding on_process_event_cb
  on_process_event_cb-Keeps show thirty now e s v =
      ended-Keeps show thirty now e s v (event_type_of_value e.event_type)

  supervise-Keeps :
      (show : ℤ → String) (thirty : F) (now : Now F) (i : SupInput F) (s : Supervisor F)
      → IsSupervised s
      → Keeps s (supervise show thirty now i s)
  unfolding supervise on_heartbeat_timeout_cb
  supervise-Keeps show thirty now (alert_request m) s v = request_on-Keeps now m s v
  supervise-Keeps show thirty now (process_event_received e) s v =
      on_process_event_cb-Keeps show thirty now e s v
  supervise-Keeps show thirty now (heartbeat_timed_out name) s v =
      Keeps-Returns s _ (raise_on-Returns now (heartbeat_alert (is_core name) name) s v)
  supervise-Keeps show thirty now expiry_timer s v = Keeps-Returns s _ (expire_on-Returns now s v)

  -- Whatever requests, process events, missed heartbeats and expiries come: the alert server stays
  -- hooked to the supervisor, the state machine keeps the system's table, and once the state is FAULT a
  -- shutdown is scheduled.
  pub supervise_all-IsSupervised :
      (show : ℤ → String) (thirty : F) (is : List (Now F × SupInput F)) (s : Supervisor F)
      → IsSupervised s
      → IsSupervised (supervise_all show thirty is s)
  unfolding supervise_all
  supervise_all-IsSupervised show thirty [] s v = v
  supervise_all-IsSupervised show thirty ((now, i) ∷ is) s v =
      supervise_all-IsSupervised show thirty is _ (supervise-Keeps show thirty now i s v)

  -- the callbacks that a raised alert causes
  drop-called_back :
      (now : F) (a : Alert F) (v : Server F)
      → v.has_callback ≡ true
      → same_as a (get v.active_alerts a.code) ≡ false
      → drop (length v.called_back) (raise_alert now a v).called_back ≡ (raise, a) ∷ []
  unfolding raise_alert apply_change announce
  drop-called_back now a v h n = ground (arith, h, n, drop-append v.called_back ((raise, a) ∷ []))

  -- The supervisor after an announced fatal alert.
  abbrev faulted : Now F → Alert F → Supervisor F → Supervisor F
  faulted now a s = after_event now fatal_fault (record s {
    alert_server = raise_alert now.seconds a s.alert_server;
    fault_ref_alert = some a;
  })

  -- The supervisor as the alert's event finds it.
  abbrev before_fault : Now F → Alert F → Supervisor F → Supervisor F
  before_fault now a s = record s {
    alert_server = raise_alert now.seconds a s.alert_server;
    fault_ref_alert = some a;
  }

  kept_by_schedule :
      (r : StateChangeResult SystemState) (s : Supervisor F)
      → ((schedule_shutdown r s).fsm ≡ s.fsm)
        × ((schedule_shutdown r s).statuses ≡ s.statuses)
        × ((schedule_shutdown r s).fault_ref_alert ≡ s.fault_ref_alert)
  unfolding schedule_shutdown
  kept_by_schedule r s = elim (Bool-cases (changed r && equal s.fsm.state fault)) [
    | inl h ↦ rw h (refl, refl, refl)
    | inr h ↦ rw h (refl, refl, refl)
  ]

  fatal-mapped :
      (a : Alert F) → a.level ≡ level_fatal → map_alert_to_system_event raise a ≡ some fatal_fault
  unfolding map_alert_to_system_event
  fatal-mapped a l = ground (arith, l)

  reacts :
      (now : Now F) (a : Alert F) (s : Supervisor F)
      → IsSupervised s
      → a.level ≡ level_fatal
      → same_as a (get s.alert_server.active_alerts a.code) ≡ false
      → raise_on now a s ≡ ok (after_event now fatal_fault (before_fault now a s))
  unfolding raise_on with_server react_all on_alert_change_cb
  reacts now a s v l n =
      rw (drop-called_back now.seconds a s.alert_server v.hooked n, fatal-mapped a l)
        (ap (λ r. r >>= react_all now [])
          (apply_event-eq now fatal_fault (before_fault now a s) v.table))

  -- A FATAL alert that differs from the active one with its code is not lost, in whatever state, FAULT
  -- included: the supervisor's callback returns with the state FAULT, the alert as the reference of the
  -- fault in place of any earlier one, one more status published, and a shutdown scheduled.
  pub fatal_alert_faults :
      (now : Now F) (a : Alert F) (s : Supervisor F)
      → IsSupervised s
      → a.level ≡ level_fatal
      → same_as a (get s.alert_server.active_alerts a.code) ≡ false
      → (s' : Supervisor F) × (raise_on now a s ≡ ok s')
        × (s'.fsm.state ≡ fault)
        × (s'.fault_ref_alert ≡ some a)
        × (length s'.statuses ≡ length s.statuses + 1)
        × (0 < s'.shutdowns_scheduled)
  unfolding publish_system_status raise_alert next
  fatal_alert_faults now a s v l n =
      let (same_fsm, same_statuses, same_ref) = kept_by_schedule _ _ in
      let w = after_event-IsSupervised now fatal_fault (before_fault now a s) (record {
        hooked = hooked-apply_change now.seconds raise a s.alert_server ∙ v.hooked;
        table = v.table;
        watched = v.watched;
      }) in
      (
        after_event now fatal_fault (before_fault now a s),
        reacts now a s v l n,
        ap (λ g. g.state) same_fsm,
        same_ref,
        ap length same_statuses ∙ length-append s.statuses _,
        w.watched (ap (λ g. g.state) same_fsm),
      )
