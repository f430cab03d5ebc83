-- ===== src/SystemAlerts/Alert.antt =====
-- system_alerts/alert.py. `F` is the type of floats.
use animacharacter_dev_src.Prelude.{
  ◌≡◌, equal, ℤ-discrete, String-discrete, int_key, string_key, Bool, true, false, ◌&&◌, String, ℤ,
  pos, negsuc, Float, Option, none, some, Result, ok, Exc, ◌>>=◌, [], ◌∷◌,
}
use animacharacter_dev_src.Prelude.Dict.{Dict, get}

-- class Level
abbrev pub level_info : ℤ
level_info = pos 0

abbrev pub level_warn : ℤ
level_warn = pos 1

abbrev pub level_err : ℤ
level_err = pos 2

abbrev pub level_fatal : ℤ
level_fatal = pos 3

pub data AlertActionType : Type 0 where
  raise clear : AlertActionType

pub record Alert (F : Type 0) : Type 0 where
  pub level : ℤ
  pub src : String
  pub code : ℤ
  pub ttl : F
  pub subcode : ℤ
  pub brief : String
  pub description : String

-- a value of a dictionary of objects
pub data PyObject (F : Type 0) : Type 0 where
  py_none : PyObject F
  py_bool : Bool → PyObject F
  py_int : ℤ → PyObject F
  py_float : F → PyObject F
  py_str : String → PyObject F

-- Python's own conversions: int(x), float(x) and str(x)
pub record Conversions (F : Type 0) : Type 0 where
  pub int_of_float : F → Result Exc ℤ
  pub int_of_str : String → Result Exc ℤ
  pub float_of_int : ℤ → Result Exc F
  pub float_of_str : String → Result Exc F
  pub str_of : PyObject F → String

module _ {F : Type 0} ⦃o : Float F⦄ where
  -- the dataclass's `==`
  unfoldable pub alert_eq : Alert F → Alert F → Bool
  unfolding ℤ-discrete String-discrete
  alert_eq a b =
      equal a.level b.level
      && equal a.src b.src
      && equal a.code b.code
      && o.eq_f a.ttl b.ttl
      && equal a.subcode b.subcode
      && equal a.brief b.brief
      && equal a.description b.description

  unfoldable pub empty_alert : Alert F
  empty_alert = record {
    level = level_info;
    src = "";
    code = pos 0;
    ttl = o.inf;
    subcode = pos 0;
    brief = "empty alert";
    description = "";
  }

  unfoldable pub to_dict : Alert F → Dict String (PyObject F)
  to_dict a =
      ("level", py_int a.level)
      ∷ ("src", py_str a.src)
      ∷ ("code", py_int a.code)
      ∷ ("ttl", py_float a.ttl)
      ∷ ("subcode", py_int a.subcode)
      ∷ ("brief", py_str a.brief)
      ∷ ("description", py_str a.description)
      ∷ []

  module _ ⦃c : Conversions F⦄ where
    abbrev or_default : PyObject F → Option (PyObject F) → PyObject F
    or_default d none = d
    or_default d (some v) = v

    as_int : ℤ → PyObject F → Result Exc ℤ
    as_int d (py_bool true) = ok (pos 1)
    as_int d (py_bool false) = ok (pos 0)
    as_int d (py_int n) = ok n
    as_int d (py_float x) = c.int_of_float x
    as_int d (py_str s) = c.int_of_str s
    as_int d py_none = ok d

    coerce_int : Dict String (PyObject F) → String → ℤ → Result Exc ℤ
    unfolding as_int
    coerce_int payload key d = as_int d (or_default (py_int d) (get payload key))

    as_float : F → PyObject F → Result Exc F
    as_float d (py_bool true) = c.float_of_int (pos 1)
    as_float d (py_bool false) = c.float_of_int (pos 0)
    as_float d (py_int n) = c.float_of_int n
    as_float d (py_float x) = ok x
    as_float d (py_str s) = c.float_of_str s
    as_float d py_none = ok d

    coerce_float : Dict String (PyObject F) → String → F → Result Exc F
    unfolding as_float
    coerce_float payload key d = as_float d (or_default (py_float d) (get payload key))

    text_at : Dict String (PyObject F) → String → String
    text_at payload key = c.str_of (or_default (py_str "") (get payload key))

    unfoldable pub from_dict : Dict String (PyObject F) → Result Exc (Alert F)
    unfolding coerce_int coerce_float text_at
    from_dict payload = do
      level ← coerce_int payload "level" level_info
      code ← coerce_int payload "code" (negsuc 0)
      ttl ← coerce_float payload "ttl" o.inf
      subcode ← coerce_int payload "subcode" (negsuc 0)
      ok (record {
        level = level;
        src = text_at payload "src";
        code = code;
        ttl = ttl;
        subcode = subcode;
        brief = text_at payload "brief";
        description = text_at payload "description";
      })

    -- Reading back the dictionary of an alert gives the alert, given that str(s) of a string is the
    -- string itself.
    pub from_dict-to_dict :
        ((s : String) → c.str_of (py_str s) ≡ s) → (a : Alert F) → from_dict (to_dict a) ≡ ok a
    unfolding from_dict to_dict get String-discrete
    from_dict-to_dict text a = rw (text a.src, text a.brief, text a.description)

    -- A dictionary with no entry for an alert's fields is read as the defaults.
    pub from_dict_empty :
        ((s : String) → c.str_of (py_str s) ≡ s)
        → from_dict []
          ≡ ok (record {
            level = level_info;
            src = "";
            code = negsuc 0;
            ttl = o.inf;
            subcode = negsuc 0;
            brief = "";
            description = "";
          })
    unfolding from_dict get
    from_dict_empty text = rw (text "")
