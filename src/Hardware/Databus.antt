-- ===== src/Hardware/Databus.antt =====
-- hardware_mng/databus: topics with one writer and many readers. A writer or a reader holds its topic,
-- which its name stands for, as the bus has one topic for a name. `T` is the type of Python's types.
pub mod Runs
use animacharacter_dev_src.Prelude.{
  ℕ, suc, ltb, Bool, true, false, String, string_key, Key, equal, Option, none, some, List, [], ◌∷◌,
  if◌then◌else◌,
}
use animacharacter_dev_src.Prelude.Dict.{Dict, get, put, keys}

-- DatabusError and its subclass
pub data BusError : Type 0 where
  databus_error databus_topology_error : BusError

-- `state` is the latest value, None before the first, with the sequence number.
pub record Topic (T V : Type 0) : Type 0 where
  pub state : Option V × ℕ
  pub msg_type : T

pub record Databus (T V : Type 0) : Type 0 where
  pub topics : Dict String (Topic T V)
  pub writer_topics : List String
  pub finalized : Bool

pub record DataWriter : Type 0 where
  pub target_topic : String

pub record DataReader : Type 0 where
  pub source_topic : String
  pub last_seq : ℕ

-- What a call leaves behind and its value, or the exception; what was changed before an exception stays.
pub data Outcome (S A : Type 0) : Type 0 where
  done : S → A → Outcome S A
  failed : S → BusError → Outcome S A

abbrev pub left_by : {S A : Type 0} → Outcome S A → S
left_by (done s a) = s
left_by (failed s e) = s

abbrev pub is_in : String → List String → Bool
is_in n [] = false
is_in n (m ∷ ms) = if equal m n then true else is_in n ms

abbrev pub all_written : List String → List String → Bool
all_written [] writers = true
all_written (n ∷ ns) writers = if is_in n writers then all_written ns writers else false

module _ {T V : Type 0} where
  abbrev pub empty_bus : Databus T V
  empty_bus = record { topics = []; writer_topics = []; finalized = false }

  abbrev pub topic_set_val : V → Topic T V → Topic T V
  topic_set_val value t = record t { state = (some value, suc t.state.1) }

  abbrev change : Option (Topic T V) → (Topic T V → Topic T V) → String → Databus T V → Databus T V
  change none f name bus = bus
  change (some t) f name bus = record bus { topics = put bus.topics name (f t) }

  -- DataWriter.write; the topic of a writer is on the bus
  unfoldable pub write : DataWriter → V → Databus T V → Databus T V
  write writer value bus =
      change (get bus.topics writer.target_topic) (topic_set_val value) writer.target_topic bus

  abbrev pub topic_state : Option (Topic T V) → Option V × ℕ
  topic_state none = (none, 0)
  topic_state (some t) = t.state

  -- DatabusTopic.seqnum, of the topic with a name
  unfoldable pub seqnum : Databus T V → String → ℕ
  seqnum bus name = (topic_state (get bus.topics name)).1

  unfoldable pub has_update : DataReader → Databus T V → Bool
  has_update reader bus = ltb reader.last_seq (seqnum bus reader.source_topic)

  unfoldable pub read : DataReader → Databus T V → DataReader × Option V
  read reader bus =
      let (value, seq) = topic_state (get bus.topics reader.source_topic) in
      (record reader { last_seq = seq }, value)

  unfoldable pub finalize : Databus T V → Outcome (Databus T V) Unit
  finalize bus =
      if all_written (keys bus.topics) bus.writer_topics
      then done (record bus { finalized = true }) tt
      else failed bus databus_topology_error

  module _ ⦃e : Key T⦄ where
    abbrev checked_type : Databus T V → String → T → Option (Topic T V) → Outcome (Databus T V) Unit
    checked_type bus name msg_type none =
        done
          (record bus {
            topics = put bus.topics name (record { state = (none, 0); msg_type = msg_type });
          })
          tt
    checked_type bus name msg_type (some t) =
        if equal t.msg_type msg_type then done bus tt else failed bus databus_topology_error

    unfoldable pub require_topic : String → T → Databus T V → Outcome (Databus T V) Unit
    require_topic name msg_type bus = checked_type bus name msg_type (get bus.topics name)

    -- `_register_writer`
    unfoldable pub register_writer : String → Databus T V → Outcome (Databus T V) DataWriter
    register_writer name bus =
        if is_in name bus.writer_topics
        then failed bus databus_topology_error
        else done (record bus { writer_topics = name ∷ bus.writer_topics })
            (record { target_topic = name })

    abbrev pub begin_writer :
        String → V → Outcome (Databus T V) Unit → Outcome (Databus T V) DataWriter
    begin_writer name initial (failed bus x) = failed bus x
    begin_writer name initial (done bus u) =
        register_writer name (write (record { target_topic = name }) initial bus)

    -- `is_instance` is isinstance(initial, topic_msg_type). The constructor of the writer writes the
    -- initial value before the writer is registered.
    unfoldable pub create_writer :
        (T → V → Bool) → String → T → V → Databus T V → Outcome (Databus T V) DataWriter
    create_writer is_instance name msg_type initial bus =
        if is_instance msg_type initial
        then (if bus.finalized
            then failed bus databus_error
            else begin_writer name initial (require_topic name msg_type bus))
        else failed bus databus_error

    abbrev pub begin_reader : String → Outcome (Databus T V) Unit → Outcome (Databus T V) DataReader
    begin_reader name (failed bus x) = failed bus x
    begin_reader name (done bus u) = done bus (record { source_topic = name; last_seq = 0 })

    unfoldable pub create_reader : String → T → Databus T V → Outcome (Databus T V) DataReader
    create_reader name msg_type bus =
        if bus.finalized
        then failed bus databus_error
        else begin_reader name (require_topic name msg_type bus)

-- What can be asked of a bus in set-up and at run time; a writer is used only if it was made.
pub data BusInput (T V : Type 0) : Type 0 where
  make_writer : String → T → V → BusInput T V
  make_reader : String → T → BusInput T V
  write_to : String → V → BusInput T V
  finish : BusInput T V

module _ {T V : Type 0} ⦃e : Key T⦄ where
  unfoldable pub bus_step : (T → V → Bool) → BusInput T V → Databus T V → Databus T V
  bus_step is_instance (make_writer name t v) bus = left_by (create_writer is_instance name t v bus)
  bus_step is_instance (make_reader name t) bus = left_by (create_reader name t bus)
  bus_step is_instance (write_to name v) bus = write (record { target_topic = name }) v bus
  bus_step is_instance finish bus = left_by (finalize bus)

  unfoldable pub run_bus : (T → V → Bool) → List (BusInput T V) → Databus T V → Databus T V
  run_bus is_instance [] bus = bus
  run_bus is_instance (i ∷ is) bus = run_bus is_instance is (bus_step is_instance i bus)
