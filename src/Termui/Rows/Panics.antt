-- ===== src/Termui/Rows/Panics.antt =====
-- When the row of a finished task cannot be made.
use lueur.Prelude.{ℕ, ◌≡◌, Bool, true, false, not, ◌&&◌, List, [], ◌∷◌, Run, done, panic, arith}
use lueur.Prelude.Float.{Float}
use lueur.Event.{FaultEvent, latency, dns, bandwidth, jitter, packet_loss, http_response_fault}
use lueur.Termui.Text.{Terminal}
use lueur.Termui.Rows.{
  TaskInfo, rates, divided, mean_rate, finished_fault, finished_faults, finished_row,
}

abbrev is_empty : {A : Type 0} → List A → Bool
is_empty [] = true
is_empty (x ∷ xs) = false

abbrev pub is_panic : {A : Type 0} → Run A → Bool
is_panic panic = true
is_panic (done a) = false

module _ {F : Type 0} where
  abbrev pub any_bandwidth : List (FaultEvent F) → Bool
  any_bandwidth [] = false
  any_bandwidth (bandwidth _ _ _ ∷ faults) = true
  any_bandwidth (_ ∷ faults) = any_bandwidth faults

  -- The events are some, but none has a rate.
  abbrev pub no_rate : List (FaultEvent F) → Bool
  no_rate events = not (is_empty events) && is_empty (rates events)

  is_panic-mean_rate : (events : List (FaultEvent F)) → is_panic (mean_rate events) ≡ no_rate events
  unfolding mean_rate divided
  is_panic-mean_rate [] = ground arith
  is_panic-mean_rate (e ∷ events) = ground arith

module _ (fl : Float) (t : Terminal fl) where
  open fl use {F}

  is_panic-finished_faults :
      (events faults : List (FaultEvent F))
      → is_panic (finished_faults fl t events faults) ≡ (any_bandwidth faults && no_rate events)
  unfolding finished_faults finished_fault
  is_panic-finished_faults events [] = ground arith
  is_panic-finished_faults events (latency _ _ _ ∷ faults) =
      ground (arith, is_panic-finished_faults events faults)
  is_panic-finished_faults events (dns _ _ _ ∷ faults) =
      ground (arith, is_panic-finished_faults events faults)
  is_panic-finished_faults events (bandwidth _ _ _ ∷ faults) =
      ground (arith, is_panic-mean_rate events, is_panic-finished_faults events faults)
  is_panic-finished_faults events (jitter _ _ _ _ ∷ faults) =
      ground (arith, is_panic-finished_faults events faults)
  is_panic-finished_faults events (packet_loss _ _ ∷ faults) =
      ground (arith, is_panic-finished_faults events faults)
  is_panic-finished_faults events (http_response_fault _ _ _ _ ∷ faults) =
      ground (arith, is_panic-finished_faults events faults)

  pub is_panic-finished_row :
      (now down up : ℕ) (task_info : TaskInfo F)
      → is_panic (finished_row fl t now down up task_info)
        ≡ (any_bandwidth task_info.faults && no_rate task_info.events)
  unfolding finished_row
  is_panic-finished_row now down up task_info =
      ground (arith, is_panic-finished_faults task_info.events task_info.faults)
