-- ===== src/SystemAlerts/Transport.antt =====
-- system_alerts/transport.py: alerts as messages. The fields of interfaces/msg/Alert.msg that are
-- int32 hold the low 32 bits of an integer, as a signed number.
use animacharacter_dev_src.Prelude.{
  suc, ◌%◌, ◌^◌, ◌-◌, ltb, pos, negsuc, Bool, true, arith, ◌≡◌, refl, String, ℤ, String-discrete,
  Result, ok, raised, ◌>>=◌, Exc, value_error, equal, string_key, if◌then◌else◌,
}
use animacharacter_dev_src.SystemAlerts.Alert.{Alert, AlertActionType, raise, clear}

-- interfaces/msg/Alert.msg
pub record MsgAlert (F : Type 0) : Type 0 where
  pub level : ℤ
  pub src : String
  pub code : ℤ
  pub ttl : F
  pub subcode : ℤ
  pub brief : String
  pub description : String

-- interfaces/msg/AlertAction.msg
pub record AlertAction (F : Type 0) : Type 0 where
  pub action : String
  pub alert : MsgAlert F

-- what a field of type int32 holds of an integer
unfoldable pub to_int32 : ℤ → ℤ
to_int32 (pos n) = let r = n % 2 ^ 32 in if ltb r (2 ^ 31) then pos r else negsuc (2 ^ 32 - suc r)
to_int32 (negsuc n) =
    let r = n % 2 ^ 32 in if ltb r (2 ^ 31) then negsuc r else pos (2 ^ 32 - suc r)

-- An integer from -2 ^ 31 on and below 2 ^ 31.
unfoldable pub fits_int32 : ℤ → Bool
fits_int32 (pos n) = ltb n (2 ^ 31)
fits_int32 (negsuc n) = ltb n (2 ^ 31)

pub to_int32_fits : (z : ℤ) → fits_int32 z ≡ true → to_int32 z ≡ z
unfolding fits_int32 to_int32
to_int32_fits (pos n) h = ground (arith, h)
to_int32_fits (negsuc n) h = ground (arith, h)

-- the enum's values
abbrev pub action_value : AlertActionType → String
action_value raise = "raise"
action_value clear = "clear"

-- AlertActionType(value)
unfoldable pub action_of_value : String → Result Exc AlertActionType
action_of_value s =
    if equal s "raise" then ok raise else if equal s "clear" then ok clear else raised value_error

module _ {F : Type 0} where
  unfoldable pub to_ros_alert : Alert F → MsgAlert F
  to_ros_alert a = record {
    level = to_int32 a.level;
    src = a.src;
    code = to_int32 a.code;
    ttl = a.ttl;
    subcode = to_int32 a.subcode;
    brief = a.brief;
    description = a.description;
  }

  unfoldable pub from_ros_alert : MsgAlert F → Alert F
  from_ros_alert m = record {
    level = m.level;
    src = m.src;
    code = m.code;
    ttl = m.ttl;
    subcode = m.subcode;
    brief = m.brief;
    description = m.description;
  }

  unfoldable pub build_message : AlertActionType → Alert F → AlertAction F
  unfolding to_ros_alert
  build_message action alert = record { action = action_value action; alert = to_ros_alert alert }

  unfoldable pub decode_action_message : AlertAction F → Result Exc (AlertActionType × Alert F)
  unfolding from_ros_alert action_of_value
  decode_action_message m = do
    action ← action_of_value m.action
    ok (action, from_ros_alert m.alert)

  -- The level, the code and the subcode fit their fields.
  pub record Fits (a : Alert F) : Type 0 where
    pub level_fits : fits_int32 a.level ≡ true
    pub code_fits : fits_int32 a.code ≡ true
    pub subcode_fits : fits_int32 a.subcode ≡ true

  -- A message that was built of an alert that fits is decoded to the action and the alert.
  pub decode_action_message-build_message :
      (action : AlertActionType) (alert : Alert F)
      → Fits alert
      → decode_action_message (build_message action alert) ≡ ok (action, alert)
  unfolding decode_action_message build_message String-discrete
  decode_action_message-build_message raise alert fits =
      rw
        (
          to_int32_fits alert.level fits.level_fits,
          to_int32_fits alert.code fits.code_fits,
          to_int32_fits alert.subcode fits.subcode_fits,
        )
        refl
  decode_action_message-build_message clear alert fits =
      rw
        (
          to_int32_fits alert.level fits.level_fits,
          to_int32_fits alert.code fits.code_fits,
          to_int32_fits alert.subcode fits.subcode_fits,
        )
        refl
