-- ===== src/SystemAlerts/Examples.antt =====
-- Concrete runs of the alert system, and the theorems about it at concrete inputs.
use animacharacter_dev_src.Prelude.{
  ◌≡◌, refl, String, pos, negsuc, ℤ-discrete, int_key, none, some, List, [], ◌∷◌, ok, raised,
  value_error, true, ◌^◌, ◌-◌, ◌⊎◌, if◌then◌else◌, not, ◌&&◌,
}
use animacharacter_dev_src.Prelude.Ticks.{Ticks, finite, infinite, ticks_float, eq_ticks_sound}
use animacharacter_dev_src.Prelude.Dict.{get, put, remove}
use animacharacter_dev_src.SystemAlerts.Alert.{
  Alert, PyObject, Conversions, py_str, level_warn, raise, alert_eq, to_dict, from_dict,
  from_dict-to_dict,
}
use animacharacter_dev_src.SystemAlerts.Transport.{
  build_message, from_ros_alert, to_ros_alert, to_int32, fits_int32, Fits,
}
use animacharacter_dev_src.SystemAlerts.Client.{empty_client, default_ttl}
use animacharacter_dev_src.SystemAlerts.Server.{
  Server, Input, requested, raised_locally, timer, empty_server, serve, serve_all, raise_alert,
  apply_change, announce, clear_alert, is_expired, expired_alerts, clear_all, expire_alerts,
}
use animacharacter_dev_src.SystemAlerts.Server.Mirror.{IsMirrored, client_mirrors_server}
use animacharacter_dev_src.SystemAlerts.Server.Mirror.Handling.{handle_all}
use animacharacter_dev_src.SystemAlerts.Server.Expiry.{
  IsWellFormed, serve_all-IsWellFormed, expire_alerts_exact,
}

abbrev low_battery : Alert Ticks
low_battery = record {
  level = level_warn;
  src = "body";
  code = pos 160;
  ttl = finite 5;
  subcode = negsuc 0;
  brief = "low battery";
  description = "";
}

abbrev inputs : List (Ticks × Input Ticks)
inputs =
    (finite 10, requested (build_message raise low_battery))
    ∷ (finite 12, raised_locally low_battery)
    ∷ (finite 13, timer)
    ∷ []

low_battery-Fits : Fits low_battery
unfolding fits_int32
low_battery-Fits = record { level_fits = refl; code_fits = refl; subcode_fits = refl }

low_battery_sent-Fits : Fits (from_ros_alert (build_message raise low_battery).alert)
unfolding fits_int32 build_message to_int32 from_ros_alert
low_battery_sent-Fits = record { level_fits = refl; code_fits = refl; subcode_fits = refl }

-- A code of 2 ^ 31 is published as -2 ^ 31.
code_wraps : (to_ros_alert (record low_battery { code = pos (2 ^ 31) })).code ≡ negsuc (2 ^ 31 - 1)
unfolding to_ros_alert to_int32
code_wraps = refl

eq_ticks_trans :
    (x y z : Ticks)
    → ticks_float.eq_f x y ≡ true
    → ticks_float.eq_f y z ≡ true
    → ticks_float.eq_f x z ≡ true
eq_ticks_trans x y z h k = rw (eq_ticks_sound x y h) k

empty-IsMirrored : IsMirrored empty_client (empty_server {F = Ticks})
unfolding handle_all
empty-IsMirrored = record { client = empty_client; handled = refl; same_table = tt }

empty-IsWellFormed : IsWellFormed (empty_server {F = Ticks})
unfolding get
empty-IsWellFormed = record { unique = tt; keyed = tt; timed = λ k. refl }

client_mirrors_server_example : IsMirrored empty_client (serve_all inputs empty_server)
client_mirrors_server_example =
    client_mirrors_server eq_ticks_trans inputs empty_client empty_server
      (low_battery_sent-Fits, (low_battery-Fits, (tt, tt))) tt empty-IsMirrored

serve_all-IsWellFormed_example : IsWellFormed (serve_all inputs empty_server)
serve_all-IsWellFormed_example = serve_all-IsWellFormed inputs empty_server empty-IsWellFormed

abbrev raised_at_ten : Server Ticks
raised_at_ten = (apply_change (finite 10) raise low_battery empty_server).0

-- The alert expires five ticks after it was raised, and not after four.
expires_on_time :
    (get (expire_alerts (finite 15) raised_at_ten).active_alerts (pos 160) ≡ none)
    × (get (expire_alerts (finite 14) raised_at_ten).active_alerts (pos 160) ≡ some low_battery)
unfolding expire_alerts apply_change get put remove alert_eq announce expired_alerts is_expired
    clear_all clear_alert ℤ-discrete
expires_on_time = (refl, refl)

expire_alerts_exact_example :
    ((get raised_at_ten.active_alerts (pos 160) ≡ none)
      × (get (expire_alerts (finite 15) raised_at_ten).active_alerts (pos 160) ≡ none))
    ⊎ ((a : Alert Ticks) × (started : Ticks) × (get raised_at_ten.active_alerts (pos 160) ≡ some a)
        × (get raised_at_ten.alert_started_at (pos 160) ≡ some started)
        × (get (expire_alerts (finite 15) raised_at_ten).active_alerts (pos 160) ≡ (
            if not (ticks_float.eq_f a.ttl infinite)
              && ticks_float.le_f a.ttl (ticks_float.sub_f (finite 15) started)
            then none
            else some a)))
unfolding serve_all serve raise_alert
expire_alerts_exact_example = expire_alerts_exact (finite 15) (pos 160) raised_at_ten (
    serve_all-IsWellFormed ((finite 10, raised_locally low_battery) ∷ []) empty_server
      empty-IsWellFormed)

abbrev show_text : PyObject Ticks → String
show_text (py_str s) = s
show_text _ = "?"

instance abbrev no_parsing : Conversions Ticks
no_parsing = record {
  int_of_float = λ x. raised value_error;
  int_of_str = λ s. raised value_error;
  float_of_int = λ n. raised value_error;
  float_of_str = λ s. raised value_error;
  str_of = show_text;
}

from_dict-to_dict_example : from_dict (to_dict low_battery) ≡ ok low_battery
from_dict-to_dict_example = from_dict-to_dict (λ s. refl) low_battery

no_default_for_warnings : default_ttl {F = Ticks} none level_warn ≡ raised value_error
unfolding default_ttl ℤ-discrete
no_default_for_warnings = refl
