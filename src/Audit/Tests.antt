-- ===== src/Audit/Tests.antt =====
-- The theorem on internal/audit at a small input, and runs of the code.
use nyxora.Common.{ℕ, ◌≡◌, refl, true, false, String, List, [], ◌∷◌, arith, done, panic}
use nyxora.Common.Words.{lt_int, is_negative, neg_int}
use nyxora.Common.Latest.{latest}
use nyxora.Audit.{Request, Logger, new_logger, level_info, level_warning, level_error, get_events}
use nyxora.Audit.Kept.{Entry, log_all, logged, get_events-log_all}

abbrev request : String → Request ℕ
request action = record {
  now = 5;
  category = "config";
  action = action;
  resource = "psk";
  user = "root";
  source_ip = "10.0.0.1";
  details = 0;
}

abbrev entries : List (Entry ℕ)
entries =
    record { level = level_warning; request = request "reload"; success = true; error = "" }
    ∷ record { level = level_info; request = request "read"; success = true; error = "" }
    ∷ record { level = level_error; request = request "save"; success = false; error = "disk full" }
    ∷ []

abbrev logger : Logger ℕ
logger = record { events = []; max_events = 10000; level = level_warning }

get_events-log_all_example :
    get_events 1 (log_all entries logger) ≡ done (latest 1 (logged level_warning entries))
unfolding new_logger
get_events-log_all_example = get_events-log_all entries logger level_warning 1 refl (omega arith)

negative_run : get_events (neg_int 1) logger ≡ panic
unfolding get_events neg_int lt_int is_negative
negative_run = refl
