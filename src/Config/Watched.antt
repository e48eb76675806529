-- ===== src/Config/Watched.antt =====
-- Checks of internal/config/watcher.go, one after another.
use nyxora.Common.{ℕ, ◌≤◌, ◌≡◌, none, some, arith}
use nyxora.Config.Loading.{Loaded}
use nyxora.Config.Watching.{Watcher, check}

-- After a check of a file at a modification time, a check at the same or an earlier one changes
-- nothing and calls nothing, whatever `Load` gave the first time and gives now: a reload that
-- failed is not tried again.
check_again :
    {K : Type 0} (w : Watcher K) (seen later : ℕ) (l m : Loaded)
    → later ≤ seen
    → check (some later) m (check (some seen) l w).0 ≡ ((check (some seen) l w).0, none)
unfolding check
check_again w seen later l m h = ground arith
