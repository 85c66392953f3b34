-- ===== src/Event.antt =====
-- lueur-cli/src/event.rs: what tasks report on the broadcast channel. A method returns the messages
-- that it puts on the channel; the result of `send` is dropped in the source. Instants and durations
-- are counted in nanoseconds.
pub mod Ids
mod Tests
use lueur.Prelude.{String, ℕ, ◌+◌, ◌%◌, ◌^◌, Bool, Option, List, [], ◌∷◌}
use lueur.Types.Direction.{Direction}
use lueur.Types.StreamSide.{StreamSide}

pub data FaultEvent (F : Type 0) : Type 0 where
  latency : (direction : Direction) (side : StreamSide) (delay : Option ℕ) → FaultEvent F
  dns : (direction : Direction) (side : StreamSide) (triggered : Option Bool) → FaultEvent F
  bandwidth : (direction : Direction) (side : StreamSide) (bps : Option ℕ) → FaultEvent F
  jitter :
      (direction : Direction) (side : StreamSide) (amplitude : Option ℕ) (frequency : Option F)
      → FaultEvent F
  packet_loss : (direction : Direction) (side : StreamSide) → FaultEvent F
  http_response_fault :
      (direction : Direction) (side : StreamSide) (status_code : ℕ) (response_body : Option String)
      → FaultEvent F

unfoldable pub event_type : {F : Type 0} → FaultEvent F → String
event_type (latency _ _ _) = "latency"
event_type (dns _ _ _) = "dns"
event_type (bandwidth _ _ _) = "bandwidth"
event_type (jitter _ _ _ _) = "jitter"
event_type (packet_loss _ _) = "packetloss"
event_type (http_response_fault _ _ _ _) = "httperror"

abbrev pub TaskId : Type 0
TaskId = ℕ

pub data TaskProgressEvent (F : Type 0) : Type 0 where
  started : (id : TaskId) (ts : ℕ) (url : String) → TaskProgressEvent F
  with_fault : (id : TaskId) (ts : ℕ) (fault : FaultEvent F) → TaskProgressEvent F
  ip_resolved : (id : TaskId) (ts : ℕ) (domain : String) (time_taken : F) → TaskProgressEvent F
  fault_applied : (id : TaskId) (ts : ℕ) (fault : FaultEvent F) → TaskProgressEvent F
  ttfb : (id : TaskId) (ts : ℕ) → TaskProgressEvent F
  response_received : (id : TaskId) (ts : ℕ) (status_code : ℕ) → TaskProgressEvent F
  completed :
      (id : TaskId) (ts time_taken from_downstream_length from_upstream_length : ℕ)
      → TaskProgressEvent F
  error : (id : TaskId) (ts : ℕ) (error : String) → TaskProgressEvent F

-- `FaultTaskEvent` and `PassthroughTaskEvent`, the two implementations of `ProxyTaskEvent`.
pub data ProxyTaskEvent : Type 0 where
  fault_task : TaskId → ProxyTaskEvent
  passthrough_task : TaskId → ProxyTaskEvent

-- What a call of a method is told besides the task.
pub data Report (F : Type 0) : Type 0 where
  on_started : (url : String) → Report F
  on_with_fault : (fault : FaultEvent F) → Report F
  on_resolved : (domain : String) (time_taken : F) → Report F
  on_completed : (time_taken from_downstream_length from_upstream_length : ℕ) → Report F
  on_first_byte : Report F
  on_applied : (fault : FaultEvent F) → Report F
  on_response : (status_code : ℕ) → Report F
  on_error : (error : String) → Report F

message : {F : Type 0} → TaskId → (now : ℕ) → Report F → TaskProgressEvent F
message id now (on_started url) = started id now url
message id now (on_with_fault fault) = with_fault id now fault
message id now (on_resolved domain time_taken) = ip_resolved id now domain time_taken
message id now (on_completed time_taken down up) = completed id now time_taken down up
message id now on_first_byte = ttfb id now
message id now (on_applied fault) = fault_applied id now fault
message id now (on_response status_code) = response_received id now status_code
message id now (on_error text) = error id now text

unfoldable pub report :
    {F : Type 0} → ProxyTaskEvent → (now : ℕ) → Report F → List (TaskProgressEvent F)
unfolding message
report (fault_task id) now r = message id now r ∷ []
report (passthrough_task id) now r = []

-- The counter of a `TaskManager`; `fetch_add` wraps round.
pub record TaskManager : Type 0 where
  pub counter : ℕ

unfoldable pub new : TaskManager
new = record { counter = 1 }

unfoldable pub next_id : TaskManager → TaskManager × TaskId
next_id m = (record m { counter = (m.counter + 1) % 2 ^ 64 }, m.counter)

unfoldable pub new_fault_event : TaskManager → TaskManager × ProxyTaskEvent
unfolding next_id
new_fault_event m = let (m', id) = next_id m in (m', fault_task id)

unfoldable pub new_passthrough_event : TaskManager → TaskManager × ProxyTaskEvent
unfolding next_id
new_passthrough_event m = let (m', id) = next_id m in (m', passthrough_task id)
