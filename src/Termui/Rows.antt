-- ===== src/Termui/Rows.antt =====
-- What lueur-cli/src/termui.rs keeps of a task, and the rows it shows for it.
pub mod Panics
use Prim.Native.String.{◌++◌}
use lueur.Prelude.{
  String, ℕ, ◌+◌, ◌-◌, ◌/◌, ◌%◌, ◌^◌, ◌==◌, Option, none, some, List, [], ◌∷◌, map, length, Run,
  done, panic, ◌>>=◌, if◌then◌else◌,
}
use lueur.Prelude.Float.{Float}
use lueur.Event.{FaultEvent, latency, dns, bandwidth, jitter, packet_loss, http_response_fault}
use lueur.Types.Direction
use lueur.Types.StreamSide
use lueur.Termui.Text.{
  Terminal, fault_to_string, latency_to_sparkline_char, format_bandwidth, direction_character,
  status_text,
}

-- `message` is the text of the progress bar; instants and durations are in nanoseconds.
pub record TaskInfo (F : Type 0) : Type 0 where
  pub message : String
  pub url : String
  pub resolution_time : F
  pub started : ℕ
  pub ttfb : Option ℕ
  pub faults : List (FaultEvent F)
  pub status_code : Option ℕ
  pub events : List (FaultEvent F)

-- The delays of the latency events, and the rates of the bandwidth events, that have one.
pub delays : {F : Type 0} → List (FaultEvent F) → List ℕ
delays [] = []
delays (latency _ _ (some d) ∷ events) = d ∷ delays events
delays (_ ∷ events) = delays events

pub rates : {F : Type 0} → List (FaultEvent F) → List ℕ
rates [] = []
rates (bandwidth _ _ (some d) ∷ events) = d ∷ rates events
rates (_ ∷ events) = rates events

rate_of : {F : Type 0} → FaultEvent F → ℕ
rate_of (bandwidth _ _ (some d)) = d
rate_of _ = 0

-- `sum` on `usize`
pub total : List ℕ → ℕ
total [] = 0
total (n ∷ ns) = (n + total ns) % 2 ^ 64

-- `Vec::push`
pushed : {A : Type 0} → List A → A → List A
pushed [] x = x ∷ []
pushed (y ∷ ys) x = y ∷ pushed ys x

-- `rev`, `take` and `rev` keep the last ones.
pub drop : {A : Type 0} → ℕ → List A → List A
drop n [] = []
drop n (x ∷ xs) = if n == 0 then x ∷ xs else drop (n - 1) xs

keep_last : {A : Type 0} → ℕ → List A → List A
unfolding drop
keep_last n xs = drop (length xs - n) xs

concat : List String → String
concat [] = ""
concat (s ∷ ss) = s ++ concat ss

-- The division of `usize`.
pub divided : ℕ → ℕ → Run ℕ
divided n d = if d == 0 then panic else done (n / d)

-- The rate in the row of a finished task: the mean of the bandwidth events, if there is any event.
pub mean_rate : {F : Type 0} → List (FaultEvent F) → Run ℕ
unfolding divided rate_of rates total
mean_rate [] = done 0
mean_rate (event ∷ events) =
    divided (total (map rate_of (event ∷ events))) (length (rates (event ∷ events)))

module _ (fl : Float) (t : Terminal fl) where
  open fl use {F, lit, of_int, add, div}

  pub url_text : String → String
  url_text url = t.dimmed "URL:" ++ " " ++ t.bright_blue url

  dns_text : TaskInfo F → String
  dns_text task_info = t.dimmed "DNS:" ++ " " ++ t.fixed 3 task_info.resolution_time ++ "ms"

  unfoldable pub on_ip_resolved : (time_taken : F) → TaskInfo F → TaskInfo F
  unfolding url_text dns_text
  on_ip_resolved time_taken task_info =
      let task_info' = record task_info { resolution_time = time_taken } in
      record task_info' {
        message = url_text task_info'.url ++ " | " ++ dns_text task_info' ++ " | ...";
      }

  unfoldable pub on_with_fault : FaultEvent F → TaskInfo F → TaskInfo F
  unfolding url_text dns_text fault_to_string pushed
  on_with_fault fault task_info =
      let task_info' = record task_info { faults = pushed task_info.faults fault } in
      record task_info' {
        message =
            url_text task_info'.url
            ++ " | "
            ++ dns_text task_info'
            ++ " | "
            ++ fault_to_string fl t task_info'.faults
            ++ " | ...";
      }

  -- One round of the loop over the faults, while the task runs.
  running_fault : List (FaultEvent F) → FaultEvent F → String
  unfolding latency_to_sparkline_char format_bandwidth direction_character delays rate_of total
      keep_last concat
  running_fault events (latency direction side delay) =
      t.yellow (StreamSide.display side ++ " latency")
      ++ " "
      ++ direction_character fl t direction
      ++ t.padded 28 (concat (keep_last 20 (map (latency_to_sparkline_char fl t) (delays events))))
  running_fault events (bandwidth direction side bps) =
      let count = length events in
      let mean = if count == 0 then 0 else total (map rate_of events) / count in
      " "
      ++ t.yellow (StreamSide.display side ++ " bandwidth")
      ++ " "
      ++ direction_character fl t direction
      ++ format_bandwidth fl t mean
  running_fault events (packet_loss direction side) =
      " " ++ t.yellow (StreamSide.display side ++ " packet loss") ++ " "
  running_fault events _ = ""

  unfoldable pub on_fault_applied : FaultEvent F → TaskInfo F → TaskInfo F
  unfolding url_text dns_text running_fault concat pushed
  on_fault_applied fault task_info =
      let task_info' = record task_info { events = pushed task_info.events fault } in
      record task_info' {
        message =
            url_text task_info'.url
            ++ " | "
            ++ dns_text task_info'
            ++ " | "
            ++ concat (map (running_fault task_info'.events) task_info'.faults)
            ++ " | ...";
      }

  unfoldable pub on_response_received : (status_code : ℕ) → TaskInfo F → TaskInfo F
  unfolding url_text dns_text fault_to_string status_text
  on_response_received status_code task_info = record task_info {
    status_code = some status_code;
    message =
        url_text task_info.url
        ++ " | "
        ++ dns_text task_info
        ++ " | "
        ++ t.dimmed "Faults:"
        ++ " "
        ++ t.yellow (fault_to_string fl t task_info.faults)
        ++ " | "
        ++ t.dimmed "Status:"
        ++ " "
        ++ status_text fl t status_code;
  }

  sum : F → List F → F
  sum before [] = before
  sum before (x ∷ xs) = sum (add before x) xs

  delay_of : FaultEvent F → F
  delay_of (latency _ _ (some d)) = t.millis d
  delay_of _ = lit 0 0

  mean_delay : List (FaultEvent F) → F
  unfolding sum delay_of delays
  mean_delay [] = lit 0 0
  mean_delay (event ∷ events) =
      div (sum (lit 0 0) (map delay_of (event ∷ events)))
        (of_int (length (delays (event ∷ events))))

  -- One round of the loop over the faults of a finished task.
  finished_fault : List (FaultEvent F) → FaultEvent F → Run String
  unfolding mean_delay format_bandwidth mean_rate
  finished_fault events (latency direction side delay) = done (
      t.yellow (StreamSide.display side ++ " " ++ Direction.display direction ++ " latency")
      ++ " "
      ++ t.fixed 3 (mean_delay events)
      ++ "ms")
  finished_fault events (bandwidth direction side bps) = do
    mean ← mean_rate events
    done (
        " "
        ++ t.yellow (StreamSide.display side ++ " bandwidth")
        ++ " "
        ++ format_bandwidth fl t mean)
  finished_fault events (packet_loss direction side) =
      done (" " ++ t.yellow (StreamSide.display side ++ " packet loss") ++ " ")
  finished_fault events _ = done ""

  pub finished_faults : List (FaultEvent F) → List (FaultEvent F) → Run String
  unfolding finished_fault
  finished_faults events [] = done ""
  finished_faults events (fault ∷ faults) = do
    text ← finished_fault events fault
    texts ← finished_faults events faults
    done (text ++ texts)

  ttfb_text : Option ℕ → String
  ttfb_text none = "-"
  ttfb_text (some d) = t.fixed 3 (t.millis d)

  or_zero : Option ℕ → ℕ
  or_zero none = 0
  or_zero (some n) = n

  unfoldable pub finished_row :
      (now from_downstream_length from_upstream_length : ℕ) → TaskInfo F → Run String
  unfolding url_text dns_text status_text ttfb_text or_zero finished_faults
  finished_row now down up task_info = do
    fault_results ← finished_faults task_info.events task_info.faults
    done (
        url_text task_info.url
        ++ " | "
        ++ dns_text task_info
        ++ " | "
        ++ fault_results
        ++ " | "
        ++ t.dimmed "Status:"
        ++ " "
        ++ status_text fl t (or_zero task_info.status_code)
        ++ " | "
        ++ t.dimmed "Duration:"
        ++ " "
        ++ t.fixed 3 (t.millis (now - task_info.started))
        ++ "ms | "
        ++ t.dimmed "TTFB"
        ++ " "
        ++ ttfb_text task_info.ttfb
        ++ "ms | "
        ++ t.dimmed "Sent/Received:"
        ++ " ⭫"
        ++ t.show down
        ++ "/b ⭭"
        ++ t.show up
        ++ "/b |")

  unfoldable pub failed_row : (error : String) → TaskInfo F → String
  unfolding url_text fault_to_string
  failed_row error task_info =
      url_text task_info.url
      ++ " | "
      ++ t.dimmed "DNS:"
      ++ " "
      ++ t.fixed 2 task_info.resolution_time
      ++ "ms | "
      ++ fault_to_string fl t task_info.faults
      ++ " | "
      ++ t.red "Failed:"
      ++ " "
      ++ error
      ++ " |"
