-- ===== src/SystemAlerts/Server/Mirror.antt =====
-- The tables of system_alerts/server.py and system_alerts/client.py, side by side.
pub mod Handling
pub mod Tables
use animacharacter_dev_src.Prelude.{
  ◌≡◌, refl, true, Float, Option, none, some, List, [], ◌∷◌, ◌++◌, Result, ok, raised, Exc, arith,
  ◌>>=◌, inl, inr, Option-cases, Bool-cases, ap, ◌∙◌, sym, ℤ, int_key, bind-ok, ok-inj,
}
use animacharacter_dev_src.Prelude.Dict.{get, has}
use mathlib.Core.Path.{subst}
use animacharacter_dev_src.SystemAlerts.Server.Mirror.Tables.{
  Same, AreSame, AreFit, put-AreSame, put-AreSame_quiet, remove-AreSame, put-AreFit, remove-AreFit,
  get-AreFit,
}
use animacharacter_dev_src.SystemAlerts.Alert.{Alert, AlertActionType, raise, clear}
use animacharacter_dev_src.SystemAlerts.Transport.{
  AlertAction, build_message, decode_action_message, decode_action_message-build_message, Fits,
  from_ros_alert, action_of_value,
}
use animacharacter_dev_src.SystemAlerts.Client.{Client, handle_change, absorb, mirror_change}
use animacharacter_dev_src.SystemAlerts.Server.{
  Server, Input, requested, raised_locally, cleared_locally, timer, waiting, waited, announce,
  apply_change, raise_alert, clear_alert, handle_request, clear_all, expired_alerts, expire_alerts,
  wait_begin, wait_end, serve, serve_all, same_as, after_request,
}
use animacharacter_dev_src.SystemAlerts.Server.Mirror.Handling.{
  handle_all, handle_all-append, handle_change-build, table-absorb, published-announce,
  table-announce,
}

module _ {F : Type 0} ⦃o : Float F⦄ where
  -- A client that starts as `c` and handles all that `s` has published ends with the codes of the
  -- table of `s` in the same order, each with an alert that is the server's or compares equal to it.
  pub record IsMirrored (c : Client F) (s : Server F) : Type 0 where
    pub client : Client F
    pub handled : handle_all s.published c ≡ ok client
    pub same_table : AreSame client.active_alerts s.active_alerts

  -- The alert of an input, if it has one, fits a message.
  abbrev pub InputFits : Input F → Type 0
  InputFits (requested m) = Fits (from_ros_alert m.alert)
  InputFits (raised_locally a) = Fits a
  InputFits (cleared_locally code) = Unit
  InputFits timer = Unit
  InputFits waiting = Unit
  InputFits (waited i) = Unit

  abbrev pub InputsFit : List (F × Input F) → Type 0
  InputsFit [] = Unit
  InputsFit ((now, i) ∷ is) = InputFits i × InputsFit is

  -- mirrored, with alerts that fit
  abbrev IsKept : Client F → Server F → Type 0
  IsKept c s = IsMirrored c s × AreFit s.active_alerts

  announce-IsMirrored :
      (action : AlertActionType) (alert : Alert F) (c : Client F) (t : Server F) (client : Client F)
      → Fits alert
      → handle_all t.published c ≡ ok client
      → AreSame (mirror_change action alert client.active_alerts) t.active_alerts
      → IsMirrored c (announce action alert t)
  announce-IsMirrored action alert c t client fits p q = record {
    client = absorb action alert client;
    handled =
        rw
          (
            published-announce action alert t,
            handle_all-append t.published (build_message action alert) c,
            p,
          )
          (handle_change-build action alert client fits);
    same_table = rw (table-announce action alert t, table-absorb action alert client) q;
  }

  announce-AreFit :
      (action : AlertActionType) (alert : Alert F) (t : Server F)
      → AreFit t.active_alerts
      → AreFit (announce action alert t).active_alerts
  announce-AreFit action alert t h = rw (table-announce action alert t) h

  clear-IsKept :
      (now : F) (alert : Alert F) (c : Client F) (s : Server F)
      → Fits alert
      → IsKept c s
      → IsKept c (apply_change now clear alert s).0
  unfolding apply_change mirror_change
  clear-IsKept now alert c s fits k = elim (Bool-cases (has s.active_alerts alert.code)) [
    | inl h ↦ rw h (
      announce-IsMirrored clear alert c _ k.0.client fits k.0.handled
          (remove-AreSame k.0.client.active_alerts s.active_alerts alert.code k.0.same_table),
      announce-AreFit clear alert _ (remove-AreFit s.active_alerts alert.code k.1),
    )
    | inr h ↦ rw h k
  ]

  clear_alert-IsKept :
      (now : F) (code : ℤ) (c : Client F) (s : Server F)
      → IsKept c s
      → IsKept c (clear_alert now code s)
  unfolding clear_alert
  clear_alert-IsKept now code c s k = elim (Option-cases (get s.active_alerts code)) [
    | inl h ↦ rw (h, clear_alert) k
    | inr (a, h) ↦
        rw (h, clear_alert) (clear-IsKept now a c s (get-AreFit s.active_alerts code a k.1 h) k)
  ]

  clear_all-IsKept :
      (now : F) (alerts : List (Alert F)) (c : Client F) (s : Server F)
      → IsKept c s
      → IsKept c (clear_all now alerts s)
  unfolding clear_all
  clear_all-IsKept now [] c s k = k
  clear_all-IsKept now (a ∷ alerts) c s k =
      clear_all-IsKept now alerts c (clear_alert now a.code s) (clear_alert-IsKept now a.code c s k)

  quiet-IsKept :
      (c : Client F) (s t : Server F)
      → IsKept c s
      → t.published ≡ s.published
      → t.active_alerts ≡ s.active_alerts
      → IsKept c t
  quiet-IsKept c s t k p q = (
    record {
      client = k.0.client;
      handled = rw p k.0.handled;
      same_table = subst (λ d. AreSame k.0.client.active_alerts d) (sym q) k.0.same_table;
    },
    rw q k.1,
  )

  decoded-Fits :
      (m : AlertAction F) (action : AlertActionType) (alert : Alert F)
      → Fits (from_ros_alert m.alert)
      → decode_action_message m ≡ ok (action, alert)
      → Fits alert
  unfolding decode_action_message
  decoded-Fits m action alert fits h =
      let (a, _, q) = bind-ok (action_of_value m.action) _ (action, alert) h in
      subst Fits (ap (λ c. c.1) (ok-inj q)) fits

module _ {F : Type 0} ⦃o : Float F⦄
    (eq_trans : (x y z : F) → o.eq_f x y ≡ true → o.eq_f y z ≡ true → o.eq_f x z ≡ true) where
  raise-IsKept :
      (now : F) (alert : Alert F) (c : Client F) (s : Server F)
      → Fits alert
      → IsKept c s
      → IsKept c (apply_change now raise alert s).0
  unfolding apply_change mirror_change
  raise-IsKept now alert c s fits k =
      let fit = put-AreFit s.active_alerts alert.code alert fits k.1 in
      elim (Bool-cases (same_as alert (get s.active_alerts alert.code))) [
        | inl h ↦ rw h (
          record {
            client = k.0.client;
            handled = k.0.handled;
            same_table =
                put-AreSame_quiet eq_trans k.0.client.active_alerts s.active_alerts alert.code alert
                  k.0.same_table h;
          },
          fit,
        )
        | inr h ↦ rw h (
          announce-IsMirrored raise alert c _ k.0.client fits k.0.handled (
              put-AreSame k.0.client.active_alerts s.active_alerts alert.code alert k.0.same_table),
          announce-AreFit raise alert _ fit,
        )
      ]

  change-IsKept :
      (now : F) (action : AlertActionType) (alert : Alert F) (c : Client F) (s : Server F)
      → Fits alert
      → IsKept c s
      → IsKept c (apply_change now action alert s).0
  change-IsKept now raise alert c s fits k = raise-IsKept now alert c s fits k
  change-IsKept now clear alert c s fits k = clear-IsKept now alert c s fits k

  request-IsKept :
      (now : F) (r : Result Exc (AlertActionType × Alert F)) (c : Client F) (s : Server F)
      → ((action : AlertActionType) (alert : Alert F) → r ≡ ok (action, alert) → Fits alert)
      → IsKept c s
      → IsKept c (
          after_request s (elim r [
            | ok (action, alert) ↦ ok (apply_change now action alert s).0
            | raised x ↦ raised x
          ]))
  request-IsKept now (ok (action, alert)) c s fits k =
      change-IsKept now action alert c s (fits action alert refl) k
  request-IsKept now (raised x) c s fits k = k

  serve-IsKept :
      (i : F × Input F) (c : Client F) (s : Server F)
      → InputFits i.1
      → IsKept c s
      → IsKept c (serve i s)
  unfolding serve handle_request raise_alert expire_alerts wait_begin wait_end
  serve-IsKept (now, requested msg) c s fits k =
      request-IsKept now (decode_action_message msg) c s
        (λ action alert. decoded-Fits msg action alert fits) k
  serve-IsKept (now, raised_locally a) c s fits k = raise-IsKept now a c s fits k
  serve-IsKept (now, cleared_locally code) c s fits k = clear_alert-IsKept now code c s k
  serve-IsKept (now, timer) c s fits k =
      clear_all-IsKept now (expired_alerts now s s.active_alerts) c s k
  serve-IsKept (now, waiting) c s fits k = quiet-IsKept c s _ k refl refl
  serve-IsKept (now, waited i) c s fits k = quiet-IsKept c s _ k refl refl

  serve_all-IsKept :
      (inputs : List (F × Input F)) (c : Client F) (s : Server F)
      → InputsFit inputs
      → IsKept c s
      → IsKept c (serve_all inputs s)
  unfolding serve_all
  serve_all-IsKept [] c s fits k = k
  serve_all-IsKept (i ∷ inputs) c s fits k =
      serve_all-IsKept inputs c (serve i s) fits.1 (serve-IsKept i c s fits.0 k)

  -- If `==` of floats is transitive, if the level, code and subcode of each alert that is active at
  -- the start, raised locally or requested fit an int32 (as those of a message do), and if a client has
  -- so far mirrored the server: after any requests, local raises and clears, timer expiries and waits
  -- it still mirrors it, by handling the published messages in order. None of them fails to decode,
  -- and its table has the server's codes in the same order, each with the server's alert or one
  -- that compares equal to it, though a repeated raise of an equal alert is not published.
  pub client_mirrors_server :
      (inputs : List (F × Input F)) (c : Client F) (s : Server F)
      → InputsFit inputs
      → AreFit s.active_alerts
      → IsMirrored c s
      → IsMirrored c (serve_all inputs s)
  client_mirrors_server inputs c s fits fit m = (serve_all-IsKept inputs c s fits (m, fit)).0
