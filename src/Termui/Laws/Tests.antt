-- ===== src/Termui/Laws/Tests.antt =====
-- A tunnel to a shop that copies bytes until both sides are closed.
use lueur.Prelude.{is_some, ℕ, ◌≡◌, refl, true, false, none, List, [], ◌∷◌, ok}
use lueur.Prelude.Fixed.{thousandths}
use lueur.Event.{Report, on_started, on_resolved, on_response, on_completed, report}
use lueur.Plugin.{Http, CompositePlugin}
use lueur.Upstream.Fixed.{shop}
use lueur.Proxy.Tunnel.{Net, handle_connect}
use lueur.Termui.Text.{Terminal, status_text}
use lueur.Termui.Rows.{finished_row}
use lueur.Termui.{Screen, find, on_event, handle_displayable_events}
use lueur.Termui.Laws.Tunnelled.{tunnel-closed}

abbrev numbers : Http
numbers = record { Builder = ℕ; Request = ℕ; Response = ℕ; Bidirectional = ℕ; E = Unit {0} }

abbrev open_net : Net ℕ ℕ
open_net = record {
  lookup_ip = λ host. ok (7 ∷ []);
  upgrade = ok 1;
  connect = λ ip port. ok 2;
  copied = λ client server.
      (true, record { count = ok 10; shutdown = none }, record { count = ok 20; shutdown = none });
}

abbrev copied_reports : List (Report ℕ)
copied_reports =
    on_started "https://shop/" ∷ on_resolved "shop" 3 ∷ on_response 0 ∷ on_completed 50 10 20 ∷ []

abbrev plugin : CompositePlugin numbers
plugin = record { injectors = [] }

abbrev plain : Terminal thousandths
plain = record {
  dimmed = λ s. s;
  bright_blue = λ s. s;
  green = λ s. s;
  yellow = λ s. s;
  red = λ s. s;
  show = λ n. "0";
  fixed = λ places x. "0.000";
  padded = λ n s. s;
  millis = λ n. n;
  secs = λ n. n;
}

abbrev no_task : Screen ℕ
no_task = record { task_map = []; finished = [] }

abbrev all_done : Screen ℕ
all_done = record {
  task_map = [];
  finished =
      "URL: https://shop/ | DNS: 0.000ms |  | Status: - | Duration: 0.000ms | TTFB -ms | Sent/Received: ⭫0/b ⭭0/b |"
      ∷ [];
}

tunnel-closed_example : is_some (find all_done.task_map 3) ≡ false
unfolding handle_connect handle_displayable_events on_event report finished_row status_text
tunnel-closed_example =
    tunnel-closed thousandths plain numbers open_net shop (λ url. url) plugin true 3 50
      "https://shop/" 200 copied_reports 3 60 no_task all_done refl refl
