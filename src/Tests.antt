-- ===== src/Tests.antt =====
-- The theorems at concrete inputs.
mod Data
mod StateMachine
mod Rc
mod Command
mod Mavlink
mod Queues
mod Service
mod Pwm
mod Params
mod Telemetry
mod Reactions
mod Requests
