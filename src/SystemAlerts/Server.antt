-- ===== src/SystemAlerts/Server.antt =====
-- system_alerts/server.py. `now` is the reading of time.monotonic() at the call, and the messages
-- and callbacks that a call sends out are appended to logs in the state.
pub mod Mirror
pub mod Expiry
use animacharacter_dev_src.Prelude.{
  Bool, true, false, not, ◌&&◌, ℤ, ℤ-discrete, int_key, ltb_ℤ, Float, Option, none, some, List, [],
  ◌∷◌, ◌++◌, Result, ok, raised, Exc, if◌then◌else◌, ℕ, ◌==◌, suc, ◌+◌,
}
use animacharacter_dev_src.Prelude.Dict.{Dict, get, has, put, remove, values}
use animacharacter_dev_src.SystemAlerts.Alert.{Alert, AlertActionType, raise, clear, alert_eq}
use animacharacter_dev_src.SystemAlerts.Transport.{
  AlertAction, build_message, decode_action_message,
}

abbrev pub Change : Type 0 → Type 0
Change F = AlertActionType × Alert F

-- a future of `_change_waiters`; `result` is none until it is done
pub record Waiter (F : Type 0) : Type 0 where
  pub id : ℕ
  pub result : Option (Change F)

pub record Server (F : Type 0) : Type 0 where
  pub active_alerts : Dict ℤ (Alert F)
  pub alert_started_at : Dict ℤ F
  pub has_callback : Bool
  pub change_waiters : List (Waiter F)
  pub next_waiter : ℕ
  pub published : List (AlertAction F)
  pub called_back : List (Change F)

-- What clients, timers and the host node can make the server do.
pub data Input (F : Type 0) : Type 0 where
  requested : AlertAction F → Input F
  raised_locally : Alert F → Input F
  cleared_locally : ℤ → Input F
  timer : Input F
  waiting : Input F
  waited : ℕ → Input F

module _ {F : Type 0} where
  abbrev pub empty_server : Server F
  empty_server = record {
    active_alerts = [];
    alert_started_at = [];
    has_callback = false;
    change_waiters = [];
    next_waiter = 0;
    published = [];
    called_back = [];
  }

  unfoldable pub is_alert_active : Server F → ℤ → Bool
  is_alert_active s code = has s.active_alerts code

  unfoldable pub on_alert_change : Server F → Server F
  on_alert_change s = record s { has_callback = true }

  at_least : ℤ → List (Alert F) → List (Alert F)
  at_least level [] = []
  at_least level (a ∷ as') =
      if ltb_ℤ a.level level then at_least level as' else a ∷ at_least level as'

  unfoldable pub get_alerts_from_level : Server F → ℤ → List (Alert F)
  unfolding at_least
  get_alerts_from_level s level = at_least level (values s.active_alerts)

  -- the loop over the pending waiters
  unfoldable pub notify_waiters : Change F → List (Waiter F) → List (Waiter F)
  notify_waiters c [] = []
  notify_waiters c (w ∷ ws) =
      elim w.result [ none ↦ record w { result = some c } | some _ ↦ w ] ∷ notify_waiters c ws

  -- wait_alert_change up to its `await`: the future is registered
  unfoldable pub wait_begin : Server F → Server F × ℕ
  wait_begin s = (
    record s {
      change_waiters = s.change_waiters ++ record { id = s.next_waiter; result = none } ∷ [];
      next_waiter = suc s.next_waiter;
    },
    s.next_waiter,
  )

  unfoldable pub waiter_result : ℕ → List (Waiter F) → Option (Change F)
  waiter_result i [] = none
  waiter_result i (w ∷ ws) = if w.id == i then w.result else waiter_result i ws

  -- list.remove, of the first entry with the identity
  unfoldable pub drop_waiter : ℕ → List (Waiter F) → List (Waiter F)
  drop_waiter i [] = []
  drop_waiter i (w ∷ ws) = if w.id == i then ws else w ∷ drop_waiter i ws

  -- wait_alert_change after its `await`, on a result or on a timeout
  unfoldable pub wait_end : ℕ → Server F → Server F × Option (Change F)
  wait_end i s = (
    record s { change_waiters = drop_waiter i s.change_waiters },
    waiter_result i s.change_waiters,
  )

  unfoldable pub publish_change : AlertActionType → Alert F → Server F → Server F
  publish_change action alert s = record s {
    published = s.published ++ build_message action alert ∷ [];
  }

  -- `_apply_change` from the publication on
  unfoldable pub announce : AlertActionType → Alert F → Server F → Server F
  unfolding publish_change
  announce action alert s =
      let s1 = publish_change action alert s in
      let s2 =
        (if s1.has_callback
          then record s1 { called_back = s1.called_back ++ (action, alert) ∷ [] }
          else s1) in
      record s2 { change_waiters = notify_waiters (action, alert) s2.change_waiters }

module _ {F : Type 0} ⦃o : Float F⦄ where
  abbrev pub same_as : Alert F → Option (Alert F) → Bool
  same_as alert none = false
  same_as alert (some current) = alert_eq current alert

  unfoldable pub apply_change : F → AlertActionType → Alert F → Server F → Server F × Bool
  apply_change now raise alert s =
      let s1 = record s {
        active_alerts = put s.active_alerts alert.code alert;
        alert_started_at = put s.alert_started_at alert.code now;
      } in
      if same_as alert (get s.active_alerts alert.code)
      then (s1, false)
      else (announce raise alert s1, true)
  apply_change now clear alert s =
      if has s.active_alerts alert.code
      then (
        announce clear alert (record s {
          active_alerts = remove s.active_alerts alert.code;
          alert_started_at = remove s.alert_started_at alert.code;
        }),
        true,
      )
      else (s, false)

  unfoldable pub raise_alert : F → Alert F → Server F → Server F
  raise_alert now alert s = (apply_change now raise alert s).0

  -- `_clear_alert_from_code`
  unfoldable pub clear_alert : F → ℤ → Server F → Server F
  clear_alert now code s = elim (get s.active_alerts code) [
    | none ↦ s
    | some alert ↦ (apply_change now clear alert s).0
  ]

  unfoldable pub handle_request : F → AlertAction F → Server F → Result Exc (Server F)
  handle_request now message s = elim (decode_action_message message) [
    | ok (action, alert) ↦ ok (apply_change now action alert s).0
    | raised x ↦ raised x
  ]

  -- the test of the comprehension in `_expire_alerts`
  unfoldable pub is_expired : F → Server F → ℤ → Alert F → Bool
  is_expired now s code alert = not (o.eq_f alert.ttl o.inf) && elim (get s.alert_started_at code) [
    | none ↦ false
    | some started ↦ o.le_f alert.ttl (o.sub_f now started)
  ]

  unfoldable pub expired_alerts : F → Server F → Dict ℤ (Alert F) → List (Alert F)
  expired_alerts now s [] = []
  expired_alerts now s ((code, alert) ∷ d) =
      let rest = expired_alerts now s d in
      if is_expired now s code alert then alert ∷ rest else rest

  unfoldable pub clear_all : F → List (Alert F) → Server F → Server F
  clear_all now [] s = s
  clear_all now (alert ∷ alerts) s = clear_all now alerts (clear_alert now alert.code s)

  unfoldable pub expire_alerts : F → Server F → Server F
  expire_alerts now s = clear_all now (expired_alerts now s s.active_alerts) s

  abbrev after_request : Server F → Result Exc (Server F) → Server F
  after_request s (ok s') = s'
  after_request s (raised x) = s

  -- One callback at the time `now`; a request that cannot be decoded raises before any change.
  unfoldable pub serve : F × Input F → Server F → Server F
  serve (now, requested m) s = after_request s (handle_request now m s)
  serve (now, raised_locally a) s = raise_alert now a s
  serve (now, cleared_locally code) s = clear_alert now code s
  serve (now, timer) s = expire_alerts now s
  serve (now, waiting) s = (wait_begin s).0
  serve (now, waited i) s = (wait_end i s).0

  unfoldable pub serve_all : List (F × Input F) → Server F → Server F
  serve_all [] s = s
  serve_all (i ∷ is) s = serve_all is (serve i s)
