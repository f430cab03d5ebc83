-- ===== src/Hardware/Databus/Runs.antt =====
-- hardware_mng/databus: reads and writes in sequence, and the topology of a bus.
use animacharacter_dev_src.Prelude.{
  ℕ, suc, ◌+◌, ◌<◌, ◌≡◌, refl, ◌∙◌, ◌↔◌, ap, ltb, Bool, true, false, String, String-discrete,
  string_key, Key, equal, Option, some, List, [], ◌∷◌, if◌then◌else◌, ite, arith, Bool-cases,
  Option-cases, inl, inr,
}
use animacharacter_dev_src.Prelude.Dict.{get, put, keys}
use animacharacter_dev_src.Prelude.Dict.Laws.{get-put, get-put_self}
use animacharacter_dev_src.Hardware.Databus.{
  Topic, Databus, DataReader, BusInput, make_writer, make_reader, write_to, finish, left_by,
  Outcome, begin_writer, begin_reader, done, failed, is_in, topic_state, write, seqnum, has_update,
  read, finalize, require_topic, register_writer, create_writer, create_reader, bus_step, run_bus,
  all_written, databus_topology_error, topic_set_val,
}

-- The last value written to a topic, or the one before.
abbrev pub last_write : {V : Type 0} → String → List (String × V) → Option V → Option V
last_write n [] before = before
last_write n ((m, v) ∷ ws) before = last_write n ws (ite (String-discrete m n) (some v) before)

abbrev pub count_writes : {V : Type 0} → String → List (String × V) → ℕ
count_writes n [] = 0
count_writes n ((m, v) ∷ ws) = ite (String-discrete m n) 1 0 + count_writes n ws

abbrev Once : List String → Type 0
Once [] = Unit
Once (n ∷ ns) = (is_in n ns ≡ false) × Once ns

module _ {T V : Type 0} where
  -- Writes to topics, in order.
  abbrev pub write_all : List (String × V) → Databus T V → Databus T V
  write_all [] bus = bus
  write_all ((n, v) ∷ ws) bus = write_all ws (write (record { target_topic = n }) v bus)

  -- The state of a topic that is on the bus after one write.
  state-write :
      (n m : String) (v : V) (bus : Databus T V) (t : Topic T V)
      → get bus.topics n ≡ some t
      → (t' : Topic T V) × (get (write (record { target_topic = m }) v bus).topics n ≡ some t')
        × (t'.state.0 ≡ ite (String-discrete m n) (some v) t.state.0)
        × (t'.state.1 ≡ ite (String-discrete m n) 1 0 + t.state.1)
  unfolding write
  state-write n m v bus t h = elim (Option-cases (get bus.topics m)) [
    | inl g ↦ rw g (t, h, ground (arith, h, g), ground (arith, h, g))
    | inr (u, g) ↦ rw g (
      ite (String-discrete m n) (topic_set_val v u) t,
      ground (arith, h, g, get-put bus.topics m n (topic_set_val v u)),
      ground (arith, h, g),
      ground (arith, h, g),
    )
  ]

  state-write_all :
      (n : String) (ws : List (String × V)) (bus : Databus T V) (t : Topic T V)
      → get bus.topics n ≡ some t
      → (t' : Topic T V) × (get (write_all ws bus).topics n ≡ some t')
        × (t'.state.0 ≡ last_write n ws t.state.0)
        × (t'.state.1 ≡ count_writes n ws + t.state.1)
  state-write_all n [] bus t h = (t, h, refl, omega arith)
  state-write_all n ((m, v) ∷ ws) bus t h =
      let (t1, h1, v1, c1) = state-write n m v bus t h in
      let (t2, h2, v2, c2) =
        state-write_all n ws (write (record { target_topic = m }) v bus) t1 h1 in
      (t2, h2, v2 ∙ ap (last_write n ws) v1, omega (arith, c1, c2))

  reads-eq :
      (reader : DataReader) (bus bus' : Databus T V) (t t' : Topic T V)
      → get bus.topics reader.source_topic ≡ some t
      → get bus'.topics reader.source_topic ≡ some t'
      → (has_update (read reader bus).0 bus' ≡ ltb t.state.1 t'.state.1)
        × ((read (read reader bus).0 bus').1 ≡ t'.state.0)
        × ((read reader bus).1 ≡ t.state.0)
  unfolding has_update seqnum read
  reads-eq reader bus bus' t t' h h' = (
    ap (λ x. ltb (topic_state x).1 (topic_state (get bus'.topics reader.source_topic)).1) h
        ∙ ap (λ y. ltb t.state.1 (topic_state y).1) h',
    ap (λ y. (topic_state y).0) h',
    ap (λ x. (topic_state x).0) h,
  )

  -- After a read of a topic on the bus, whatever is written to whatever topics: the reader has an update
  -- exactly if its topic was written since, and the next read gives the last value written to it, or what
  -- the first read gave if there was none.
  pub read_sees_writes :
      (reader : DataReader) (bus : Databus T V) (t : Topic T V) (ws : List (String × V))
      → get bus.topics reader.source_topic ≡ some t
      → ((has_update (read reader bus).0 (write_all ws bus) ≡ true)
          ↔ (0 < count_writes reader.source_topic ws))
        × ((read (read reader bus).0 (write_all ws bus)).1
            ≡ last_write reader.source_topic ws (read reader bus).1)
  read_sees_writes reader bus t ws h =
      let (t', h', v, c) = state-write_all reader.source_topic ws bus t h in
      let (u, r', r) = reads-eq reader bus (write_all ws bus) t t' h h' in
      (((λ e. ground (arith, e, u, c)), (λ l. ground (arith, l, u, c))), rw (r', r) v)

module _ {T V : Type 0} where
  -- At most one writer to a topic, and a writer to each topic once the bus is finalized.
  pub record IsWired (bus : Databus T V) : Type 0 where
    pub single : Once bus.writer_topics
    pub complete : bus.finalized ≡ true → all_written (keys bus.topics) bus.writer_topics ≡ true

  keys-put :
      (d : List (String × Topic T V)) (n : String) (t u : Topic T V)
      → get d n ≡ some t
      → keys (put d n u) ≡ keys d
  unfolding get put
  keys-put [] n t u h = cc
  keys-put ((m, w) ∷ d) n t u h = ground (arith, keys-put d n t u)

  write_topology :
      (n : String) (v : V) (bus : Databus T V)
      → (keys (write (record { target_topic = n }) v bus).topics ≡ keys bus.topics)
        × ((write (record { target_topic = n }) v bus).writer_topics ≡ bus.writer_topics)
        × ((write (record { target_topic = n }) v bus).finalized ≡ bus.finalized)
  unfolding write
  write_topology n v bus = elim (Option-cases (get bus.topics n)) [
    | inl g ↦ rw g (refl, refl, refl)
    | inr (u, g) ↦ rw g (keys-put bus.topics n u (topic_set_val v u) g, refl, refl)
  ]

module _ {T V : Type 0} ⦃e : Key T⦄ where
  -- A bus in set-up.
  abbrev Open : Databus T V → Type 0
  Open bus = IsWired bus × (bus.finalized ≡ false)

  require_topic-Open :
      (n : String) (t : T) (bus : Databus T V) → Open bus → Open (left_by (require_topic n t bus))
  unfolding require_topic
  require_topic-Open n t bus (w, f) = elim (Option-cases (get bus.topics n)) [
    | inl g ↦ rw g (record { single = w.single; complete = λ h. absurd (cc (h, f)) }, f)
    | inr (u, g) ↦
        rw g (elim (Bool-cases (equal u.msg_type t)) [ inl b ↦ rw b (w, f) | inr b ↦ rw b (w, f) ])
  ]

  register_writer-IsWired :
      (n : String) (bus : Databus T V) → Open bus → IsWired (left_by (register_writer n bus))
  unfolding register_writer
  register_writer-IsWired n bus (w, f) = elim (Bool-cases (is_in n bus.writer_topics)) [
    | inl b ↦ rw b w
    | inr b ↦ rw b (record { single = (b, w.single); complete = λ h. absurd (cc (h, f)) })
  ]

  write-IsWired :
      (n : String) (v : V) (bus : Databus T V)
      → IsWired bus
      → IsWired (write (record { target_topic = n }) v bus)
  write-IsWired n v bus w =
      let (k, ws, f) = write_topology n v bus in
      record { single = rw ws w.single; complete = rw (k, ws, f) w.complete }

  begin_writer-IsWired :
      (n : String) (v : V) (r : Outcome (Databus T V) Unit)
      → Open (left_by r)
      → IsWired (left_by (begin_writer n v r))
  begin_writer-IsWired n v (failed bus x) w = w.0
  begin_writer-IsWired n v (done bus u) w =
      register_writer-IsWired n (write (record { target_topic = n }) v bus)
        (write-IsWired n v bus w.0, (write_topology n v bus).2 ∙ w.1)

  begin_reader-IsWired :
      (n : String) (r : Outcome (Databus T V) Unit)
      → Open (left_by r)
      → IsWired (left_by (begin_reader n r))
  begin_reader-IsWired n (failed bus x) w = w.0
  begin_reader-IsWired n (done bus u) w = w.0

  guarded-IsWired :
      {A : Type 0} (b : Bool) (r r' : Outcome (Databus T V) A)
      → IsWired (left_by r)
      → (b ≡ false → IsWired (left_by r'))
      → IsWired (left_by (if b then r else r'))
  guarded-IsWired true r r' w k = w
  guarded-IsWired false r r' w k = k refl

  create_writer-IsWired :
      (is_instance : T → V → Bool) (n : String) (t : T) (v : V) (bus : Databus T V)
      → IsWired bus
      → IsWired (left_by (create_writer is_instance n t v bus))
  unfolding create_writer
  create_writer-IsWired is_instance n t v bus w = elim (Bool-cases (is_instance t v)) [
    | inr i ↦ rw i w
    | inl i ↦ rw i (
        guarded-IsWired bus.finalized _ _ w (λ f.
          begin_writer-IsWired n v (require_topic n t bus) (require_topic-Open n t bus (w, f))))
  ]

  create_reader-IsWired :
      (n : String) (t : T) (bus : Databus T V)
      → IsWired bus
      → IsWired (left_by (create_reader n t bus))
  unfolding create_reader
  create_reader-IsWired n t bus w =
      guarded-IsWired bus.finalized _ _ w
        (λ f. begin_reader-IsWired n (require_topic n t bus) (require_topic-Open n t bus (w, f)))

  finalize-IsWired : (bus : Databus T V) → IsWired bus → IsWired (left_by (finalize bus))
  unfolding finalize
  finalize-IsWired bus w = record {
    single = ground (arith, w.single);
    complete = λ h. ground (arith, h, w.complete);
  }

  -- Whatever is asked of a bus, errors included, in whatever order: a topic never has two registered
  -- writers, and once the bus is finalized each of its topics has one.
  pub run_bus-IsWired :
      (is_instance : T → V → Bool) (is : List (BusInput T V)) (bus : Databus T V)
      → IsWired bus
      → IsWired (run_bus is_instance is bus)
  unfolding run_bus bus_step
  run_bus-IsWired is_instance [] bus w = w
  run_bus-IsWired is_instance (make_writer n t v ∷ is) bus w =
      run_bus-IsWired is_instance is _ (create_writer-IsWired is_instance n t v bus w)
  run_bus-IsWired is_instance (make_reader n t ∷ is) bus w =
      run_bus-IsWired is_instance is _ (create_reader-IsWired n t bus w)
  run_bus-IsWired is_instance (write_to n v ∷ is) bus w =
      run_bus-IsWired is_instance is _ (write-IsWired n v bus w)
  run_bus-IsWired is_instance (finish ∷ is) bus w =
      run_bus-IsWired is_instance is _ (finalize-IsWired bus w)

  -- A second writer to a topic of the bus, of the right type and before finalization: the call fails, and
  -- yet the topic has the value it was given as initial, under the next sequence number.
  pub second_writer_overwrites :
      (is_instance : T → V → Bool) (bus : Databus T V) (n : String) (t : Topic T V) (v : V)
      → get bus.topics n ≡ some t
      → is_in n bus.writer_topics ≡ true
      → bus.finalized ≡ false
      → is_instance t.msg_type v ≡ true
      → (bus' : Databus T V) × (create_writer is_instance n t.msg_type v bus
          ≡ failed bus' databus_topology_error)
        × (get bus'.topics n ≡ some (record t { state = (some v, suc t.state.1) }))
  unfolding create_writer register_writer require_topic write
  second_writer_overwrites is_instance bus n t v h i f g = (
    record bus { topics = put bus.topics n (topic_set_val v t) },
    ground (arith, h, i, f, g),
    get-put_self bus.topics n (topic_set_val v t),
  )
