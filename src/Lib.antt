-- ===== src/Lib.antt =====
-- A verification library for the server of the animacharacter system: the processes that run an
-- animatronic character and the libraries they share.
--
-- The modelled parts, and how they interact. Processes raise and clear alerts. The alert server
-- (system_alerts) keeps the active ones, drops those whose time to live is over, and publishes
-- each change; clients mirror it. The supervisor node (orchestration) owns the alert server: it
-- is called back on each change, maps alerts to events of the system's state machine, publishes
-- the system's status, raises alerts of its own for ended processes and missed heartbeats, and
-- schedules the shutdown when the state becomes FAULT; it drives the hardware manager and the
-- session manager as lifecycle nodes. The hardware manager runs each hardware controller in a
-- loop with a thread of its own, lets controllers share data on a databus, and brings controllers
-- to their wanted states by a reconciler. The session manager creates the contexts of client
-- sessions, runs one session in a thread and destroys its context afterwards. The behaviour
-- engine, a library of its own, registers behaviours by name and group and steps them by
-- priority; its context passes messages between them by topics. The driver of the head keeps the
-- values of the axes that controllers write and sends packets of what changed to a
-- microcontroller. Clients and sessions exchange authenticated messages through peers, which
-- sign, number and check them; SafeUdp is a socket that does so for datagrams from any address.
--
-- Files, with the directories below src/animacharacter_server/:
-- - Prelude and its children: shared names, dictionaries that keep insertion order (Dict),
--   results that may raise (Outcomes), bytes and big-endian numbers (Bytes), an interface for
--   Python's floats (Floats) with an instance that runs (Ticks).
-- - SystemAlerts (ros2_ws/src/system_alerts/system_alerts): Alert is alert.py, Transport is
--   transport.py, Client is client.py, Server is server.py. SysAlertsServer's _apply_change,
--   _handle_request, _expire_alerts, raise_alert and wait_alert_change are apply_change,
--   handle_request, expire_alerts, raise_alert and the pair wait_begin and wait_end.
--   Server/Mirror, with Handling and Tables below it, and Server/Expiry hold the proofs.
-- - Orchestration (ros2_ws/src/orchestration/orchestration and libs/system_commons): Fsm is
--   state_machine/fsm.py with its illegal-change errors as values, SystemFsm is
--   state_machine/system_fsm.py, EventMapper is state_machine/event_mapper.py, Heartbeats is
--   heartbeats/__init__.py, Lifecycle is lifecycle_sup_utility.py, ProcNames is proc_names.py and
--   exit_codes.py, Supervisor is supervisor_node.py. Fsm/Legality, SystemFsm/Paths,
--   Heartbeats/Timeouts, Supervisor/Faults, Supervisor/Reaction, Supervisor/Crash and
--   Supervisor/Startup hold the proofs.
-- - Hardware (ros2_ws/src/hardware_mng/hardware_mng): Databus is databus/__init__.py, Looper is
--   looper/looper_util.py, Controller is abstract_hw_controller.py, Reconciler is
--   hw_controller_state_reconciler.py. Databus/Runs, Looper/Stops, Reconciler/Goals and
--   Reconciler/Passes hold the proofs.
-- - Sessions (ros2_ws/src/session_mng/session_mng/session): Manager is session_manager.py with
--   what it uses of runner.py and resource_manager.py. The thread of a session calls
--   _cleanup_active_session in one step and ends in a later one, after the other cleanup
--   callbacks. Manager/Contexts, Manager/Exclusion and Manager/Overlap hold the proofs.
-- - Behaviors (libs/behavior_engine/src/behavior_engine): Registry is registry.py, Executor is
--   executor.py with behavior.py and actions.py, Context is context.py. Registry/Calls,
--   Registry/Index, Executor/Order, Executor/Runs and Context/Delivery hold the proofs.
-- - AuthMsg (shared_libs/authmsg/src/authmsg, from the repository's src/): Protocol is
--   protocol/crypto.py and protocol/protocol.py, WireProtocol is protocol/wire_protocol.py, Peer
--   is core/peer.py over a record of the methods that a derived class implements, UdpEndpoint,
--   UdpPeer and TcpPeer are udp_endpoint.py, core/udp_peer.py and core/tcp_peer.py.
--   Protocol/Exact, Protocol/Size, Protocol/Outcomes, WireProtocol/Replay, WireProtocol/Channel,
--   Peer/Delivery and Peer/Transports hold the proofs; Peer/Delivery is written against an
--   interface of laws, which Peer/Transports fills for both transports.
-- - Drivers (libs/mcuDrivers/src/mcudrivers): Numbers is utils.py, Packing the formats of struct
--   that are used, Head, Head/Flush and Head/Setters are head_driver.py, Body is body_driver.py.
--   Head/Packed, Head/Shown, Head/Runs, Head/Ranges, Head/Faults and Head/LateWrites hold the
--   proofs.
-- - SafeUdp and SafeUdp/Receive (shared_libs/pysafeudp/src/pysafeudp): safeudpsock.py.
--   SafeUdp/Inbound and SafeUdp/Replays hold the proofs.
-- - Packets (shared_libs/packetcodec/src/packetcodec): packet_decoder.py, builtin_packets.py and
--   utils.py; Packets/Motionframe (shared_libs/commons/src/commons/network):
--   udp_motionframe_schema.py. Packets/RoundTrip and Packets/Motionframe/Decoding hold the
--   proofs.
-- - The Examples modules run the definitions and apply the theorems at concrete inputs.
--
-- How state corresponds. An object is a record with its fields; a method is a function from the
-- record to the next one, with the value returned or the exception raised. A coroutine is cut at
-- its awaits, so that other callbacks may come between its parts (wait_begin and wait_end;
-- entry_begin and entry_end). What a node publishes, calls back or schedules is a list or a count
-- in its state. Times are arguments: the reading of the clock at a call. Floats are an interface
-- of comparisons and sums without laws; a theorem that needs one states it; the drivers use a
-- larger interface of their own (Number). A thread of a loop is a point in the function that it
-- runs, and moves from point to point in steps, so that calls of the supervisor may come between
-- any two of them; a join is the list of the steps made meanwhile. The session manager's calls
-- and the threads of its runners are interleaved as inputs in any order. Callbacks of one node
-- are run one at a time, which is an assumption: the supervisor's executor has several threads,
-- its callbacks are in different groups, and they take no lock, so that in the program they can
-- overlap; what happens then is not modelled.
--
-- Fuel and bounds. Every function here is structurally recursive, so that no fuel is used; lists
-- of inputs are of any length. Integers are Python's, without a bound; the int32 fields of an
-- alert's message keep the low 32 bits as a signed number (to_int32), as the conversion of a
-- message does without the optional check of its fields, and an integer beyond 64 bits, which
-- that conversion refuses, is left out; the float32 of a heartbeat's message is a rounding that
-- is given. Bytes are numbers below 256, where a theorem needs it by a hypothesis, and to_bytes
-- and struct raise for a number that does not fit.
--
-- Not modelled. ROS itself (publishers, services, timers, executors) is taken as arguments or
-- logs; lifecycle services are the arguments of LifecycleNode. The exceptions that a signal
-- handler or a heartbeat callback may raise, logging, and the conversion of floats to text are
-- left out. The timing of loops (the sleep for the rest of a period) and queues other than a
-- controller's commands and configurations are left out, and so is the runtime type check of
-- configurations. In shutdown_system the two shutdowns that run concurrently are made one after
-- the other. HMAC, md5, msgpack, the conversion of floats to bytes and the resolution of host
-- names are parameters, the sockets' answers are arguments, and calls on closed sockets and other
-- errors of pynng are left out. The driver's serial device answers by arguments. The calls of one
-- driver come one after another; flush is composed of its part before the lock (flush_motors),
-- the packing under it (pack_dirty, in_buffers) and the sending after it (send_packets), and
-- Head/LateWrites puts a write of another thread between the last two; other overlaps of the
-- methods of a driver are not modelled. The work of a session itself, the hardware manager's
-- node, the executor of behaviours with threads, the launch files and the client library have no
-- model here.
pub mod Prelude
pub mod SystemAlerts
pub mod Orchestration
pub mod Hardware
pub mod Sessions
pub mod Behaviors
pub mod AuthMsg
pub mod Drivers
pub mod SafeUdp
pub mod Packets
