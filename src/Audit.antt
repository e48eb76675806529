-- ===== src/Audit.antt =====
-- internal/audit/logger.go. Writing an event to the file is left out. `D` is the type of the
-- details.
pub mod Kept
pub mod Tests
use nyxora.Common.{
  ℕ, ◌-◌, Bool, true, false, String, Option, none, some, List, [], if◌then◌else◌, length, drop, ltb,
  Outcome, done, panic, ◌==◌,
}
use nyxora.Common.Words.{lt_int, is_negative}
use nyxora.Common.Latest.{append_last}

abbrev pub level_info : ℕ
level_info = 0

abbrev pub level_warning : ℕ
level_warning = 1

abbrev pub level_error : ℕ
level_error = 2

abbrev pub level_critical : ℕ
level_critical = 3

pub record Event (D : Type 0) : Type 0 where
  pub timestamp : ℕ
  pub level : String
  pub category : String
  pub action : String
  pub resource : String
  pub user : String
  pub source_ip : String
  pub details : D
  pub success : Bool
  pub error : String

-- What the caller of `Log` gives, without the level, and the reading of the clock.
pub record Request (D : Type 0) : Type 0 where
  pub now : ℕ
  pub category : String
  pub action : String
  pub resource : String
  pub user : String
  pub source_ip : String
  pub details : D

pub record Logger (D : Type 0) : Type 0 where
  pub events : List (Event D)
  pub max_events : ℕ
  pub level : ℕ

-- `switch level`, where `Level` is an `int`.
abbrev pub level_text : ℕ → String
level_text level =
    if level == level_warning
    then "WARNING"
    else if level == level_error
    then "ERROR"
    else if level == level_critical
    then "CRITICAL"
    else "INFO"

-- `errMsg` of an error that may be nil.
abbrev pub error_text : Option String → String
error_text none = ""
error_text (some message) = message

module _ {D : Type 0} where
  -- `opened` tells whether the file could be opened.
  unfoldable pub new_logger : Bool → ℕ → Option (Logger D)
  new_logger opened level =
      if opened then some (record { events = []; max_events = 10000; level = level }) else none

  abbrev pub event : ℕ → Request D → Bool → String → Event D
  event level q success error = record {
    timestamp = q.now;
    level = level_text level;
    category = q.category;
    action = q.action;
    resource = q.resource;
    user = q.user;
    source_ip = q.source_ip;
    details = q.details;
    success = success;
    error = error;
  }

  unfoldable pub log : ℕ → Request D → Bool → String → Logger D → Logger D
  log level q success error l =
      if lt_int level l.level
      then l
      else record l { events = append_last l.max_events l.events (event level q success error) }

  unfoldable pub log_info : Request D → Logger D → Logger D
  unfolding log
  log_info q l = log level_info q true "" l

  unfoldable pub log_warning : Request D → Logger D → Logger D
  unfolding log
  log_warning q l = log level_warning q true "" l

  unfoldable pub log_error : Request D → Option String → Logger D → Logger D
  unfolding log
  log_error q err l = log level_error q false (error_text err) l

  unfoldable pub log_critical : Request D → Option String → Logger D → Logger D
  unfolding log
  log_critical q err l = log level_critical q false (error_text err) l

  -- `make` panics on a negative length.
  unfoldable pub get_events : ℕ → Logger D → Outcome (List (Event D))
  get_events count l =
      let n = if lt_int (length l.events) count then length l.events else count in
      if is_negative n then panic else done (drop (length l.events - n) l.events)
