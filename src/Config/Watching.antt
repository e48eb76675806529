-- ===== src/Config/Watching.antt =====
-- internal/config/watcher.go. A reading of the file's modification time is a number, and `none`
-- where `os.Stat` fails; `load` stands for what `Load` gives at that moment. `K` is the type of the
-- callbacks, and a call of one is the pair of it and its argument.
use nyxora.Common.{
  ℕ, Bool, true, false, ◌||◌, String, Option, none, some, if◌then◌else◌, ltb, ◌==◌, Outcome, done,
  panic,
}
use nyxora.Common.Words.{mul_int, is_negative}
use nyxora.Config.Settings.{Config}
use nyxora.Config.Loading.{Loaded, loaded, failed}

pub record Watcher (K : Type 0) : Type 0 where
  pub path : String
  pub last_mod : ℕ
  pub on_change : Option K
  pub running : Bool
  pub stop_closed : Bool
  pub interval : ℕ

module _ {K : Type 0} where
  unfoldable pub new_watcher : String → Option K → ℕ → Watcher K
  new_watcher path f interval_sec = record {
    path = path;
    last_mod = 0;
    on_change = f;
    running = false;
    stop_closed = false;
    interval =
        mul_int (if is_negative interval_sec || (interval_sec == 0) then 5 else interval_sec)
          1_000_000_000;
  }

  -- Whether `Start` returns an error, too. The loop that it leaves running calls `check` at each
  -- tick.
  unfoldable pub start : Option ℕ → Watcher K → Watcher K × Bool
  start none w = (w, true)
  start (some modified) w = (record w { last_mod = modified; running = true }, false)

  abbrev pub notify : Option K → Loaded → Option (K × Config)
  notify none l = none
  notify (some f) (failed e) = none
  notify (some f) (loaded c) = some (f, c)

  -- `modified` is the modification time, and `l` what `Load` gives.
  unfoldable pub check : Option ℕ → Loaded → Watcher K → Watcher K × Option (K × Config)
  check none l w = (w, none)
  check (some modified) l w =
      if ltb w.last_mod modified
      then (record w { last_mod = modified }, notify w.on_change l)
      else (w, none)

  abbrev pub close_stop : Bool → Watcher K → Outcome (Watcher K)
  close_stop true w = panic
  close_stop false w = done (record w { stop_closed = true; running = false })

  unfoldable pub stop : Watcher K → Outcome (Watcher K)
  stop w = if w.running then close_stop w.stop_closed w else done w

  unfoldable pub set_on_change : Option K → Watcher K → Watcher K
  set_on_change f w = record w { on_change = f }
