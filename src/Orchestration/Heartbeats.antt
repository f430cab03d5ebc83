-- ===== src/Orchestration/Heartbeats.antt =====
-- orchestration/heartbeats: processes that announce when their next heartbeat is due, and the
-- listener that reports each missed deadline. `now` is the reading of time.monotonic().
pub mod Timeouts
use animacharacter_dev_src.Prelude.{
  Bool, true, false, not, ◌&&◌, String, string_key, Float, List, [], ◌∷◌, ◌++◌, Result, ok, raised,
  if◌then◌else◌,
}
use animacharacter_dev_src.Prelude.Dict.{Dict, put}

-- interfaces/msg/Heartbeat.msg
pub record Heartbeat (F : Type 0) : Type 0 where
  pub name : String
  pub next_within : F

-- AssertionError
pub data AssertionError : Type 0 where
  assertion_error : AssertionError

pub record HeartbeatGenerator (F : Type 0) : Type 0 where
  pub name : String
  pub period : F
  pub hb_time_window : F

pub record HbEntry (F : Type 0) : Type 0 where
  pub deadline : F
  pub reported : Bool

-- `reports` are the names that `on_timeout` was called with.
pub record HeartbeatListener (F : Type 0) : Type 0 where
  pub heartbeats : Dict String (HbEntry F)
  pub reports : List String

module _ {F : Type 0} where
  abbrev pub no_heartbeats : HeartbeatListener F
  no_heartbeats = record { heartbeats = []; reports = [] }

  -- `single` is the rounding of a float to the float32 of the message's field.
  unfoldable pub send_hb : (F → F) → HeartbeatGenerator F → Heartbeat F
  send_hb single g = record { name = g.name; next_within = single g.hb_time_window }

module _ {F : Type 0} ⦃o : Float F⦄ where
  -- HeartbeatGenerator.__init__, on a node whose name is `node_name`
  unfoldable pub new_generator :
      String → F → F → String → Result AssertionError (HeartbeatGenerator F)
  new_generator node_name period tolerance name =
      if o.lt_f o.zero_f period && o.lt_f o.zero_f tolerance
      then ok (record {
        name = elim (string_key.same name "") [ yes _ ↦ node_name | no _ ↦ name ];
        period = period;
        hb_time_window = o.add_f period tolerance;
      })
      else raised assertion_error

  unfoldable pub heartbeat_received : F → Heartbeat F → HeartbeatListener F → HeartbeatListener F
  heartbeat_received now hb l = record l {
    heartbeats =
        put l.heartbeats hb.name
          (record { deadline = o.add_f now hb.next_within; reported = false });
  }

  -- the condition in the loop of `_check_heartbeats`
  unfoldable pub is_overdue : F → HbEntry F → Bool
  is_overdue now entry = not entry.reported && o.lt_f entry.deadline now

  -- the loop of `_check_heartbeats`: the entries after it, and the names that it reports
  unfoldable pub check_entries : F → Dict String (HbEntry F) → Dict String (HbEntry F) × List String
  check_entries now [] = ([], [])
  check_entries now ((name, entry) ∷ d) =
      let (d', names) = check_entries now d in
      if is_overdue now entry
      then ((name, record entry { reported = true }) ∷ d', name ∷ names)
      else ((name, entry) ∷ d', names)

  unfoldable pub check_heartbeats : F → HeartbeatListener F → HeartbeatListener F
  check_heartbeats now l =
      let (d, names) = check_entries now l.heartbeats in
      record { heartbeats = d; reports = l.reports ++ names }

-- What can happen to a listener.
pub data HbInput (F : Type 0) : Type 0 where
  beat : Heartbeat F → HbInput F
  check : HbInput F

module _ {F : Type 0} ⦃o : Float F⦄ where
  unfoldable pub listen : List (F × HbInput F) → HeartbeatListener F → HeartbeatListener F
  listen [] l = l
  listen ((now, beat hb) ∷ is) l = listen is (heartbeat_received now hb l)
  listen ((now, check) ∷ is) l = listen is (check_heartbeats now l)
