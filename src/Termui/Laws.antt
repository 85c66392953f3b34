-- ===== src/Termui/Laws.antt =====
-- When the loop that shows the tasks ends by a panic.
pub mod Open
pub mod Unfinished
pub mod Tunnelled
mod Tests
use lueur.Prelude.{ℕ, ◌≡◌, ◌↔◌, true, ◌&&◌, some, panic, arith, ◌>>=◌}
use lueur.Prelude.Float.{Float}
use lueur.Event.{TaskId, completed}
use lueur.Termui.Text.{Terminal}
use lueur.Termui.Rows.{TaskInfo, finished_row}
use lueur.Termui.Rows.Panics.{any_bandwidth, no_rate, is_panic-finished_row}
use lueur.Termui.{Screen, find, finish, on_event}

module _ (fl : Float) (t : Terminal fl) where
  open fl use {F}

  -- The completion of a task that is shown ends the whole loop by a division by zero exactly if a bandwidth fault was
  -- declared for the task and some faults were applied, but none of them was a bandwidth fault with
  -- a rate.
  pub completed-panic_iff :
      (now : ℕ) (screen : Screen F) (id : TaskId) (task_info : TaskInfo F)
      (ts time_taken down up : ℕ)
      → find screen.task_map id ≡ some task_info
      → (on_event fl t now screen (completed id ts time_taken down up) ≡ panic)
        ↔ ((any_bandwidth task_info.faults && no_rate task_info.events) ≡ true)
  unfolding on_event finish
  completed-panic_iff now screen id task_info ts time_taken down up e =
      ground (arith, is_panic-finished_row fl t now down up task_info)
