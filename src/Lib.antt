-- ===== src/Lib.antt =====
-- Verification of the Pi parking server: the parts that decide what happened in the hall.
--
-- A sensor node sends frames over LoRa (src/device/LoRaDriver.cpp). Their messages become sensor
-- events, which pass in turn the sequence guard (src/parking/ParkingSensorSequenceGuard.cpp, by the
-- policy of include/sensor/SensorSequencePolicy.hpp), the confirmation gate
-- (src/parking/ParkingOccupancyConfirmationGate.cpp) and the slot manager
-- (src/parking/ParkingSlotManager.cpp), which starts and ends the slot's session
-- (src/parking/ParkingOccupancySession.cpp). The captures of a session go to OCR under
-- src/parking/HallOcrPolicy.cpp. The line of guard, gate and slots is
-- src/parking/ParkingSessionWorker.cpp, whose results go to sinks: among them the index of active
-- sessions (src/parking/ActiveParkingSessionIndex.cpp) and the scheduler of the captures
-- (src/parking/CaptureScheduler.cpp).
--
-- Device/LoRa.antt: `LoRaDriver`, with `encode`, `consume`, `send`, `sendTo` and the CRC. A buffer is
--   a list of bytes, a byte a number below 256, and one round of the loop of `consume` is `scan`.
-- Sensor/Sequence.antt: `evaluateSensorSequence` and `commitSensorSequence`.
-- Parking/Event.antt, Parking/SequenceGuard.antt, Parking/Gate.antt, Parking/OcrPolicy.antt,
--   Parking/Session.antt, Parking/Slots.antt, Parking/ActiveIndex.antt, Parking/Worker.antt,
--   Parking/Scheduler.antt, Parking/SensorIndex.antt: the classes of these names, a record each with its
--   methods as functions from state to state.
-- Sensor/Protocol.antt and Sensor/Protocol/Messages.antt: the text lines of the sensors,
--   src/sensor/SensorProtocolParser.cpp, with `parse`, `parseFire` and `isFireLine`.
-- Sensor/Adapter.antt: src/sensor/ParkingSensorEventAdapter.cpp, from a message to a sensor event.
-- Parking/Capture.antt: src/parking/HallCaptureCoordinator.cpp, which ties the session of a slot to the
--   OCR policy and keeps the second image while the first is at OCR.
-- Iva/Aggregator.antt and Iva/Coordinator.antt: src/event/IvaSlotOccupancyAggregator.cpp and
--   src/event/IvaOccupancyCoordinator.cpp, the occupancy that the cameras' video analysis reports.
-- Entrance/Types.antt and Entrance/BestShot.antt: include/entrance/EntranceTypes.hpp and
--   src/entrance/EntranceBestShotCoordinator.cpp, the objects that the entrance camera sees.
-- Timer/Manager.antt: src/timer/TimerManager.cpp, the deadlines of the overstay timers and their
--   retries; one turn of the worker's inner loop is `expire_one`.
-- Parking/Commands.antt: include/parking/SlotTransitionTypes.hpp and src/parking/SlotTransitionTypes.cpp.
-- Parking/Actor.antt: src/parking/SlotTransitionActor.cpp, the lanes of commands before the store; one
--   round of `processIngress` is `select` and `settle`, between which the lock is open.
-- Fire/State.antt and Fire/Outbox.antt: include/event/FireAlarmEvent.hpp and FirePersistence.hpp.
-- Fire/Service.antt, Fire/Signals.antt and Fire/Process.antt: src/event/FireAlarmService.cpp, from a command
--   to a plan, which is a reply or a mutation, and to the reply after the mutation. Fire/Checks.antt and
--   Fire/Store.antt: the mutation in src/database/EventDatabaseFire.cpp. Fire/Decisions.antt: the cases in
--   which a mutation is planned. Fire/Consistent.antt: what the tables of a store have to hold.
--   Fire/Queue.antt: the queue of commands in FireAlarmService.cpp and the turns of its worker.
-- Base.antt: shared names, tests, lists, byte strings and maps. Scenarios.antt: concrete runs.
--
-- Conventions. Strings are lists of bytes. A `std::map` or `std::unordered_map` is an association
-- list with at most one entry per key. Times are natural numbers, in one unit per file, below
-- 2^63 where the source compares them as signed numbers of the clock; no time wraps around but the timestamp of a sensor line, which is turned into 64 bits of nanoseconds. A callback is
-- a parameter, or a function on a state that the callbacks share. The calls that a method makes of its
-- ports are its result, as a list of effects in their order. An exception is `none` or a constructor; a
-- refused line is an error's constructor in place of its text. Counters of 64 bits wrap around. The
-- loop of `consume` runs on fuel, one more than the bytes in the buffer, since each round but the last
-- drops a byte. Mutexes are left out: a method is one step, also where the source opens a session of the
-- OCR policy before it takes the capture coordinator's lock. An expired timer is processed as one step
-- too, although the timers' own lock is open while the database and the callback are called.
--
-- Not modelled: the text of log and error messages, the write of the UART and the reading of a
-- `double` (parameters), the fields that a message or an image only carries along, the evidence
-- records of a session, and the parts of the server that are input and output (database, HTTP, MQTT,
-- cameras, image files) or that wait to be modelled (the bootstrap and the delivery
-- of the fire alarms, the session side of the timers). Of the database only the transaction of a
-- fire mutation is modelled: its tables are maps by their primary keys, a statement succeeds, and the
-- constraints of the schema are left out.
pub mod Base
pub mod Sensor
pub mod Parking
pub mod Device
pub mod Iva
pub mod Entrance
pub mod Scenarios
pub mod Timer
pub mod Fire
