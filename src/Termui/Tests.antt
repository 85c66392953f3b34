-- ===== src/Termui/Tests.antt =====
-- A screen with one task, at which the theorems about the rows are tried out.
use lueur.Prelude.{
  String, is_some, ℕ, ◌≡◌, ◌↔◌, refl, true, false, ◌&&◌, none, List, [], ◌∷◌, err, ok, arith, panic,
  some,
}
use lueur.Prelude.Fixed.{thousandths}
use lueur.Event.{TaskProgressEvent, latency, bandwidth, started, completed, report}
use lueur.Types.Direction.{egress}
use lueur.Types.StreamSide.{client}
use lueur.Proxy.Forward.{Client, Message, http, execute}
use lueur.Plugin.{CompositePlugin}
use lueur.Termui.Text.{Terminal}
use lueur.Termui.Rows.{TaskInfo}
use lueur.Termui.Rows.Panics.{any_bandwidth, no_rate}
use lueur.Termui.{Screen, find, on_event, handle_displayable_events}
use lueur.Termui.Laws.{completed-panic_iff}
use lueur.Termui.Laws.Open.{open_after, handle_displayable_events-open}
use lueur.Termui.Laws.Unfinished.{unread_body-open}

abbrev plain : Terminal thousandths
plain = record {
  dimmed = λ s. s;
  bright_blue = λ s. s;
  green = λ s. s;
  yellow = λ s. s;
  red = λ s. s;
  show = λ n. "0";
  fixed = λ places x. "0.000";
  padded = λ n s. s;
  millis = λ n. n;
  secs = λ n. n;
}

-- A task with a bandwidth fault, to which only latency was applied.
abbrev slow_task : TaskInfo ℕ
slow_task = record {
  message = "";
  url = "http://shop:80/";
  resolution_time = 0;
  started = 0;
  ttfb = none;
  faults = bandwidth egress client none ∷ [];
  status_code = none;
  events = latency egress client (some 5) ∷ [];
}

abbrev one_task : Screen ℕ
one_task = record { task_map = (3, slow_task) ∷ []; finished = [] }

abbrev ends : TaskProgressEvent ℕ
ends = completed 3 10 10 0 0

completed-panic_iff_example :
    (on_event thousandths plain 10 one_task ends ≡ panic)
    ↔ ((any_bandwidth slow_task.faults && no_rate slow_task.events) ≡ true)
unfolding find
completed-panic_iff_example =
    completed-panic_iff thousandths plain 10 one_task 3 slow_task 10 10 0 0 refl

abbrev no_task : Screen ℕ
no_task = record { task_map = []; finished = [] }

abbrev refused : Client ℕ ℕ String
refused = record {
  Handle = ℕ;
  builder = 0;
  build = λ b. ok b;
  request = λ method url headers bytes. ok 1;
  execute = λ handle r. err "connection refused";
  url_text = λ url. url;
}

abbrev no_plugins : CompositePlugin (http ℕ ℕ ℕ)
no_plugins = record { injectors = [] }

abbrev unread : Message
unread = record { headers = []; body = err "connection reset" }

abbrev opened : (ts : ℕ) (url text : String) → TaskInfo ℕ
opened ts url text = record {
  message = text;
  url = url;
  resolution_time = 0;
  started = ts;
  ttfb = none;
  faults = [];
  status_code = none;
  events = [];
}

abbrev another : List (ℕ × TaskProgressEvent ℕ)
another = (20, started 4 20 "http://a:80/") ∷ []

abbrev two_tasks : Screen ℕ
two_tasks = record {
  task_map =
      (4, opened 20 "http://a:80/" "URL: http://a:80/")
      ∷ (3, opened 10 "http://b:80/" "URL: http://b:80/")
      ∷ [];
  finished = [];
}

unread_body-open_example : is_some (find two_tasks.task_map 3) ≡ true
unfolding handle_displayable_events on_event report execute
unread_body-open_example =
    unread_body-open thousandths plain refused no_plugins 40 "POST" unread "http://b:80/" true
      "connection reset" 3 10 another no_task two_tasks refl (ground arith, tt) refl

handle_displayable_events-open_example :
    is_some (find two_tasks.task_map 3)
    ≡ open_after 3 false ((10, started 3 10 "http://b:80/") ∷ another)
unfolding handle_displayable_events on_event find
handle_displayable_events-open_example =
    handle_displayable_events-open thousandths plain ((10, started 3 10 "http://b:80/") ∷ another)
      no_task two_tasks 3 refl
