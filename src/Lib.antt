-- ===== src/Lib.antt =====
-- A model of the Veloxity flight controller's decision logic, and what holds of it.
--
-- Parts, and the code that each models:
--   StateMachine  crates/veloxity_core/src/state_machine.rs. Flags has the error bits, Machine the
--                 seven states with one `*_event` function for each `on_event`, Manager the arming
--                 gate around them. Arming, Errors and Failsafe hold the theorems.
--   Rc            crates/veloxity_core/src/rc.rs, and the packet of packets.rs. Types has the data,
--                 Config the mappings, Input the packet intake and the health check, Handler the
--                 arming gestures and `run`.
--   Command       crates/veloxity_core/src/command.rs, and the offboard message of comm/messages.rs.
--                 Manager has the state, the failsafe configuration and the offboard command, Lockout
--                 the angle lockout, Interpret the reading of the sticks, Mux the choice of sources,
--                 Run the composition.
--   Mavlink       comms/veloxity_mavlink/src/parser.rs. Crc has the checksum, Parser the byte-by-byte
--                 state machine; Checksum, Frame, RoundTrip and Stream hold the theorems.
--   Pipeline      crates/veloxity_core/src/rc/command_state.rs, with set_param_and_emit_change of
--                 params/service.rs: one pass of RC, command and state.
--   Log           crates/veloxity_core/src/log.rs and log/drain.rs. Text has the text buffer, Queue the
--                 ring, Drain the drain into the responses.
--   Events        crates/veloxity_core/src/events.rs, over the third-party deque of heapless, whose
--                 documented behaviour is the record IsDeque.
--   Companion     crates/veloxity_core/src/companion.rs: the loops over the companion's messages.
--   Service       crates/veloxity_core/src/command/service.rs. Calibration has the calibration requests
--                 and Board the board requests, Requests and Storage the theorems on them.
--   Sensors       crates/veloxity_core/src/sensors/health.rs.
--   Params        crates/veloxity_core/src/params.rs, params/storage.rs and the names of
--                 params/service.rs. First, Second and Third are the rows of the table, Definition
--                 and Table make the table and its lookups, Image has the bytes and Storage the codec;
--                 Names and Persisted hold the theorems, with the lemmas of Entries, RoundTrip,
--                 Restored and Order.
--   Pwm           crates/veloxity_core/src/pwm.rs and pwm/output_sync.rs. Driver has the trait and the
--                 safe commands, Sync the masks and the switching of the channels, Outputs the
--                 composition of the commands, Rates the protocols and the DShot frame. Settled and
--                 Safe hold the theorems.
--   Control       crates/veloxity_core/src/control.rs, with the traits of estimator.rs, controller.rs and
--                 mixer.rs in Stages. Run has the pipeline, Disarmed the theorem.
--   Reactions     crates/veloxity_core/src/params/reactions.rs. Apply has the loops over the changes, Mappings
--                 and Configured what they do to the radio control.
--   Mixer         crates/veloxity_core/src/mixer/matrix.rs: Tables has the matrices, Canned the canned mixers,
--                 Reflected the parameters that show the chosen one.
--   Requests      crates/veloxity_core/src/params/service.rs: Service has the read and the list requests, Set
--                 the set requests. Listed and Typed hold the theorems, with the lemmas of Stored and
--                 Mixers.
--   Telemetry     crates/veloxity_core/src/comm.rs: the scheduler of the telemetry streams. Streams has the
--                 streams with their rates and samples, Due the tests of a rate, Scheduler the
--                 deadlines and the changes of rates, Send the choice and the sending. Cadence,
--                 Selection, Freshness and Once hold the theorems.
--   Float         what the code does with an f32.
--   Base          numbers, lists and the names that all parts share.
--   Tests         the theorems at concrete inputs, with fixed-point numbers for the floats.
--
-- How the parts interact: `Rc.Handler.run` reads a packet and sends the state machine the loss of the
-- link, its return, and requests to arm and disarm. `Command.Run.run` checks the link again, flies the
-- failsafe command where the state machine is in failsafe, and otherwise resolves the RC and the
-- offboard command into one. `Pipeline.Run` calls both and then lets the state machine settle. Each
-- takes the state manager that it drives and returns the changed one. `Control.Run` takes the command
-- manager's result through the estimator, the controller and the mixer, sets error flags on the
-- way, and sends the PWM driver the composed outputs, or the safe commands of a disarmed vehicle.
--
-- Conventions:
--   - A function that changes its object takes the old value and returns the new one. A function by
--     clauses models a match; an enum-indexed array is a record with a field for each value, and a
--     set of bitflags a record of its bits.
--   - A u32 or u64 sum wraps or saturates as the release build does, and this is written out. A cast
--     from i32 gives the two's complement bits, and usize has 64 bits.
--   - An f32 is an element of a type that is a parameter, with the literals, operations and
--     comparisons that the code uses. Nothing is assumed of them but what a theorem states, so
--     the theorems hold for NaN too.
--   - A Rust panic on an index out of bounds is `none` in Mavlink.Parser. Elsewhere the indices are
--     within the sizes of the arrays.
--   - The loops run over lists or over a given number of indices. The one that pops a queue until it is
--     empty has fuel, one more than the queue's length, which is shown to be enough.
--   - Calls of the logger only append text to the log queue, which no modelled code but the drain
--     reads; they are left out.
--   - The image of the parameters is a function from an index to a byte, of which the first 7004 are
--     stored, and a u32 mask is a function from an index to a bit. The bits of an f32 are a parameter
--     that a round trip asks to give the value back. A PWM driver is a record of its methods with laws
--     on which channels are on.
--
-- Not modelled: the estimator, the controller and the mixing of a command (floating-point arithmetic), the
-- board and platform crates (hardware access), the decoding of a frame's payload (a third-party
-- library), the bytes of the
-- messages that telemetry sends, and the services for sensor processing and
-- scheduling.
pub mod Base
pub mod Float
pub mod Params
pub mod StateMachine
pub mod Rc
pub mod Command
pub mod Pipeline
pub mod Log
pub mod Events
pub mod Companion
pub mod Mavlink
pub mod Tests
pub mod Service
pub mod Requests
pub mod Sensors
pub mod Pwm
pub mod Reactions
pub mod Mixer
pub mod Control
pub mod Telemetry
