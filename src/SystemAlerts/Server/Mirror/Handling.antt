-- ===== src/SystemAlerts/Server/Mirror/Handling.antt =====
-- The messages that system_alerts/client.py handles and system_alerts/server.py publishes.
use animacharacter_dev_src.Prelude.{
  ◌≡◌, refl, List, [], ◌∷◌, ◌++◌, Result, ok, raised, Exc, arith, ◌>>=◌, int_key,
}
use animacharacter_dev_src.SystemAlerts.Alert.{Alert, AlertActionType}
use animacharacter_dev_src.SystemAlerts.Transport.{
  AlertAction, build_message, decode_action_message-build_message, Fits,
}
use animacharacter_dev_src.SystemAlerts.Client.{Client, handle_change, absorb, mirror_change}
use animacharacter_dev_src.SystemAlerts.Server.{Server, announce}

module _ {F : Type 0} where
  -- The messages of the change topic, handled one after the other.
  unfoldable pub handle_all : List (AlertAction F) → Client F → Result Exc (Client F)
  handle_all [] c = ok c
  handle_all (m ∷ ms) c = handle_change m c >>= handle_all ms

  handle_all-append_step :
      (ms : List (AlertAction F)) (m : AlertAction F)
      → ((c : Client F) → handle_all (ms ++ m ∷ []) c ≡ (handle_all ms c >>= handle_change m))
      → (r : Result Exc (Client F))
      → (r >>= handle_all (ms ++ m ∷ [])) ≡ (r >>= handle_all ms >>= handle_change m)
  handle_all-append_step ms m ih (ok c) = ih c
  handle_all-append_step ms m ih (raised x) = refl

  pub handle_all-append :
      (ms : List (AlertAction F)) (m : AlertAction F) (c : Client F)
      → handle_all (ms ++ m ∷ []) c ≡ (handle_all ms c >>= handle_change m)
  unfolding handle_all
  handle_all-append [] m c = ground arith
  handle_all-append (x ∷ ms) m c =
      handle_all-append_step ms m (handle_all-append ms m) (handle_change x c)

  pub handle_change-build :
      (action : AlertActionType) (alert : Alert F) (c : Client F)
      → Fits alert
      → handle_change (build_message action alert) c ≡ ok (absorb action alert c)
  unfolding handle_change
  handle_change-build action alert c fits =
      rw (decode_action_message-build_message action alert fits)

  pub table-absorb :
      (action : AlertActionType) (alert : Alert F) (c : Client F)
      → (absorb action alert c).active_alerts ≡ mirror_change action alert c.active_alerts
  unfolding absorb
  table-absorb action alert c = ground arith

  pub published-announce :
      (action : AlertActionType) (alert : Alert F) (s : Server F)
      → (announce action alert s).published ≡ s.published ++ build_message action alert ∷ []
  unfolding announce
  published-announce action alert s = ground arith

  pub table-announce :
      (action : AlertActionType) (alert : Alert F) (s : Server F)
      → (announce action alert s).active_alerts ≡ s.active_alerts
  unfolding announce
  table-announce action alert s = ground arith
