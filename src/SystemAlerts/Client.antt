-- ===== src/SystemAlerts/Client.antt =====
-- system_alerts/client.py: the mirror of the server's table, and the requests that a client sends.
use animacharacter_dev_src.Prelude.{
  Bool, ℤ, negsuc, int_key, String, Float, Option, none, some, List, [], ◌∷◌, ◌++◌, Result, ok,
  raised, Exc, value_error, ◌>>=◌, equal, if◌then◌else◌, false,
}
use animacharacter_dev_src.Prelude.Dict.{Dict, put, remove}
use animacharacter_dev_src.SystemAlerts.Alert.{
  Alert, AlertActionType, raise, clear, level_info, level_fatal,
}
use animacharacter_dev_src.SystemAlerts.Transport.{
  AlertAction, build_message, decode_action_message,
}

pub record Client (F : Type 0) : Type 0 where
  pub active_alerts : Dict ℤ (Alert F)
  pub has_callback : Bool
  pub called_back : List (AlertActionType × Alert F)
  pub sent : List (AlertAction F)

module _ {F : Type 0} where
  abbrev pub empty_client : Client F
  empty_client = record { active_alerts = []; has_callback = false; called_back = []; sent = [] }

  -- `_handle_change` after decoding
  unfoldable pub mirror_change : AlertActionType → Alert F → Dict ℤ (Alert F) → Dict ℤ (Alert F)
  mirror_change raise alert d = put d alert.code alert
  mirror_change clear alert d = remove d alert.code

  unfoldable pub absorb : AlertActionType → Alert F → Client F → Client F
  absorb action alert c =
      let c1 = record c { active_alerts = mirror_change action alert c.active_alerts } in
      if c1.has_callback
      then record c1 { called_back = c1.called_back ++ (action, alert) ∷ [] }
      else c1

  unfoldable pub handle_change : AlertAction F → Client F → Result Exc (Client F)
  handle_change message c = do
    change ← decode_action_message message
    ok (absorb change.0 change.1 c)

  unfoldable pub publish_action : AlertActionType → Alert F → Client F → Client F
  publish_action action alert c = record c { sent = c.sent ++ build_message action alert ∷ [] }

module _ {F : Type 0} ⦃o : Float F⦄ where
  unfoldable pub default_ttl : Option F → ℤ → Result Exc F
  default_ttl none level =
      if equal level level_info
      then ok o.zero_f
      else if equal level level_fatal
      then ok o.inf
      else raised value_error
  default_ttl (some ttl) level = ok ttl

  unfoldable pub raise_alert :
      ℤ → String → ℤ → Option F → ℤ → String → String → Client F → Result Exc (Client F)
  unfolding publish_action
  raise_alert level src code ttl subcode brief description c = do
    t ← default_ttl ttl level
    ok (
        publish_action raise
          (record {
            level = level;
            src = src;
            code = code;
            ttl = t;
            subcode = subcode;
            brief = brief;
            description = description;
          })
          c)

  unfoldable pub clear_alert : ℤ → Client F → Client F
  unfolding publish_action
  clear_alert code c =
      publish_action clear
        (record {
          level = level_info;
          src = "";
          code = code;
          ttl = o.inf;
          subcode = negsuc 0;
          brief = "";
          description = "";
        })
        c
