-- ===== src/Hardware/Controller.antt =====
-- hardware_mng/abstract_hw_controller.py: the configuration handlers of a controller and `_flush`, the
-- job of its loop. `H` is the type of handlers; `is_space` tells the characters that str.strip removes.
use Prim.Native.Char.{Char, code}
use animacharacter_dev_src.Prelude.{
  ◌==◌, ◌≡◌, refl, Bool, true, false, ◌&&◌, ◌||◌, String, string_key, ℤ, pos, Key, Option, none,
  some, List, [], ◌∷◌, ◌++◌, Result, ok, raised, Exc, value_error, if◌then◌else◌, Bool-cases, inl,
  inr,
}
use animacharacter_dev_src.Prelude.Dict.{Dict, put}
use animacharacter_dev_src.Hardware.Looper.{
  LoopRequest, LoopAction, stop, continue, LoopDescriptor, returned, after_job, is_running,
}
use animacharacter_dev_src.Hardware.Reconciler.{
  ControllerException, controller_warning, controller_error, controller_fatal, other_exception,
}

-- A JSON value; what is not an object is kept as its text.
mutual
  pub data Json : Type 0 where
    scalar : String → Json
    object : Fields → Json

  pub data Fields : Type 0 where
    no_fields : Fields
    field : String → Json → Fields → Fields

unfoldable pub find_field : String → Fields → Option Json
find_field key no_fields = none
find_field key (field name value fields) =
    let rest = find_field key fields in
    elim (string_key.same name key) [ yes _ ↦ some value | no _ ↦ rest ]

abbrev member_of : Json → String → Option Json
member_of (scalar s) key = none
member_of (object fields) key = find_field key fields

-- `_fetch_dict_deep`
unfoldable pub fetch_dict_deep : Option Json → List String → Option Json
fetch_dict_deep current [] = current
fetch_dict_deep none (key ∷ keys) = none
fetch_dict_deep (some current) (key ∷ keys) = fetch_dict_deep (member_of current key) keys

abbrev cons_part : Char → List String → List String
cons_part c [] = (String.◌∷◌ c "") ∷ []
cons_part c (w ∷ ws) = (String.◌∷◌ c w) ∷ ws

-- path.split('/')
unfoldable pub split_slash : String → List String
split_slash String.[] = "" ∷ []
split_slash (String.◌∷◌ c s) =
    let rest = split_slash s in if code c == b'/' then "" ∷ rest else cons_part c rest

unfoldable pub has_special : String → Bool
has_special String.[] = false
has_special (String.◌∷◌ c s) = (code c == b'@') || has_special s

unfoldable pub is_blank : (Char → Bool) → String → Bool
is_blank is_space String.[] = true
is_blank is_space (String.◌∷◌ c s) = is_space c && is_blank is_space s

unfoldable pub without_blank : (Char → Bool) → List String → List String
without_blank is_space [] = []
without_blank is_space (w ∷ ws) =
    let rest = without_blank is_space ws in if is_blank is_space w then rest else w ∷ rest

-- `_cleanup_path`
unfoldable pub cleanup_path : (Char → Bool) → String → Result Exc (List String)
cleanup_path is_space path =
    if has_special path then raised value_error else ok (without_blank is_space (split_slash path))

-- `calls` are the calls of configuration handlers, and `controls` the commands of each iteration that
-- reached `read`.
pub record Controller (H C : Type 0) : Type 0 where
  pub initialized : Bool
  pub config_handlers : Dict (List String) H
  pub cfg_updates_queue : List Json
  pub calls : List (H × Json)
  pub controls : List (List C)

-- `read` and then `control` in one iteration: they return, or the first exception ends them.
pub data Work : Type 0 where
  works : Work
  fails : ControllerException → Work

module _ {H : Type 0} where
  abbrev called : H → Option Json → List (H × Json)
  called handler none = []
  called handler (some config) = (handler, config) ∷ []

  -- `_dispatch_config`: an exception of a handler's is caught and the next one is called
  unfoldable pub dispatch_config : Json → Dict (List String) H → List (H × Json)
  dispatch_config config [] = []
  dispatch_config config ((parts, handler) ∷ d) =
      called handler (fetch_dict_deep (some config) parts) ++ dispatch_config config d

  unfoldable pub dispatch_all : List Json → Dict (List String) H → List (H × Json)
  dispatch_all [] d = []
  dispatch_all (config ∷ configs) d = dispatch_config config d ++ dispatch_all configs d

abbrev request_of : LoopAction → String → ℤ → String → Option LoopRequest
request_of action name number note =
    some (record {
      action = action;
      signal = some (record { name = name; code = number; note = note });
    })

module _ {H C : Type 0} where
  unfoldable pub subscribe_to_config_path :
      ⦃k : Key (List String)⦄
      → (Char → Bool)
      → String
      → H
      → Controller H C
      → Result Exc (Controller H C)
  subscribe_to_config_path is_space path handler c = elim (cleanup_path is_space path) [
    | ok parts ↦ ok (record c { config_handlers = put c.config_handlers parts handler })
    | raised x ↦ raised x
  ]

  unfoldable pub queue_config_update : Json → Controller H C → Controller H C
  queue_config_update config c = record c { cfg_updates_queue = c.cfg_updates_queue ++ config ∷ [] }

  unfoldable pub execute_queued_config_updates : Controller H C → Controller H C
  execute_queued_config_updates c = record c {
    calls = c.calls ++ dispatch_all c.cfg_updates_queue c.config_handlers;
    cfg_updates_queue = [];
  }

  -- the `except` clauses of `_flush`
  unfoldable pub settle : Work → Controller H C → Controller H C × Option LoopRequest
  settle works c = (c, none)
  settle (fails (controller_warning x d)) c = (c, request_of continue "controller_warning" x d)
  settle (fails (controller_error x d)) c =
      (record c { initialized = false }, request_of stop "controller_error" x d)
  settle (fails (controller_fatal x d)) c =
      (record c { initialized = false }, request_of stop "global_shutdown" x d)
  settle (fails (other_exception d)) c =
      (record c { initialized = false }, request_of stop "controller_exception" (pos 0) d)

  -- `_flush`, on the commands in its queue: the controller, those left there, and the request
  unfoldable pub flush :
      Work → List C → Controller H C → Controller H C × List C × Option LoopRequest
  flush work commands c =
      if c.initialized
      then (let c1 = execute_queued_config_updates c in
          let (c2, request) = settle work (record c1 { controls = c1.controls ++ commands ∷ [] }) in
          (c2, [], request))
      else (c, commands, none)

module _ {H C : Type 0} where
  settle_keeps :
      (work : Work) (c : Controller H C)
      → ((settle work c).0.cfg_updates_queue ≡ c.cfg_updates_queue)
        × ((settle work c).0.calls ≡ c.calls)
  unfolding settle
  settle_keeps works c = (refl, refl)
  settle_keeps (fails (controller_warning x d)) c = (refl, refl)
  settle_keeps (fails (controller_error x d)) c = (refl, refl)
  settle_keeps (fails (controller_fatal x d)) c = (refl, refl)
  settle_keeps (fails (other_exception d)) c = (refl, refl)

module _ {H C F : Type 0} where
  settled :
      (work : Work) (c : Controller H C) (l : LoopDescriptor F)
      → c.initialized ≡ true
      → l.run ≡ true
      → is_running (after_job (returned (settle work c).1) l) ≡ (settle work c).0.initialized
  unfolding settle after_job is_running
  settled works c l i r = rw (i, r) refl
  settled (fails (controller_warning x d)) c l i r = elim (Bool-cases l.has_signal_handler) [
    | inl h ↦ rw (i, h, r) refl
    | inr h ↦ rw (i, h, r) refl
  ]
  settled (fails (controller_error x d)) c l i r = elim (Bool-cases l.has_signal_handler) [
    | inl h ↦ rw h refl
    | inr h ↦ rw h refl
  ]
  settled (fails (controller_fatal x d)) c l i r = elim (Bool-cases l.has_signal_handler) [
    | inl h ↦ rw h refl
    | inr h ↦ rw h refl
  ]
  settled (fails (other_exception d)) c l i r = elim (Bool-cases l.has_signal_handler) [
    | inl h ↦ rw h refl
    | inr h ↦ rw h refl
  ]

  -- An iteration of the loop of an initialized controller, while nothing else stops the loop and whatever
  -- `read` and `control` raise: the thread goes on exactly if the controller is still initialized, the
  -- queued commands and configurations are used up, and each configuration was dispatched in order.
  pub flush-keeps_together :
      (work : Work) (commands : List C) (c : Controller H C) (l : LoopDescriptor F)
      → c.initialized ≡ true
      → l.run ≡ true
      → (is_running (after_job (returned (flush work commands c).2) l)
          ≡ (flush work commands c).0.initialized)
        × ((flush work commands c).1 ≡ [])
        × ((flush work commands c).0.cfg_updates_queue ≡ [])
        × ((flush work commands c).0.calls
            ≡ c.calls ++ dispatch_all c.cfg_updates_queue c.config_handlers)
  unfolding flush execute_queued_config_updates
  flush-keeps_together work commands c l i r = rw i (
    settled work
        (record c {
          initialized = true;
          calls = c.calls ++ dispatch_all c.cfg_updates_queue c.config_handlers;
          cfg_updates_queue = [];
          controls = c.controls ++ commands ∷ [];
        })
        l refl r,
    refl,
    (settle_keeps work _).0,
    (settle_keeps work _).1,
  )
