-- ===== src/Tests/Parts.antt =====
-- Runs of the theorems on the events, the scheduler and the updates.
use mathlib.Core.List.{Sublistᴰ}
use p2pos.Update.Version.Ranking.{compare_version-rank, rank}
use p2pos.Update.Selection.{IsRanked, select_best_release_newest}
use p2pos.Update.Eligible.{Among, here, IsAllowed}
use p2pos.Events.Channels.{receiving, run-AreSound, publishing, run, AreSound, Op}
use p2pos.Update.Version.{
  compare_parsed, parse_minute, dev_suffix, take_digits, parse_version, ParsedVersion,
  compare_version,
}
use p2pos.Update.Checking.{run_once-IsInstalled, IsInstalled}
use p2pos.Update.{
  channel_name, is_eligible, is_outdated, to_releases_list_url, fetch_release_list, install,
  fetch_single_release, binary_name, asset_url, fetch, pick_listed, get_latest_version,
  check_and_update, pick_fallback, select_best_release, version_of, pick_release, Release, run_once,
  Web,
}
use p2pos.Scheduler.{succeeded, completed, positive, Task}
use p2pos.Events.{Channel, Bus, channel_at}
use p2pos.Events.Delivery.{received_in_order, received, watch, accepted, published}
use p2pos.Text.{
  lower, to_lower, same, trim_suffix, has_prefix, has_suffix, strip_prefix, trim_prefix, is_space,
  trim_right, contains_text, trim_left, trim_space, codes, Text,
}
use p2pos.Common.{
  compare, [], ◌==◌, ◌≤◌, ◌++◌, ◌∷◌, ◌≡◌, if◌then◌else◌, Bool, List, ℕ, arith, ok, refl, false,
  true, some, none,
}

abbrev small_bus : Bus ℕ
small_bus = record { capacity = 2; queue = []; subscribed = true; closed = false } ∷ []

abbrev channel0 : Channel ℕ
channel0 = record { capacity = 2; queue = []; subscribed = true; closed = false }

abbrev traffic : List (Op ℕ)
traffic = publishing 7 ∷ receiving 0 ∷ publishing 8 ∷ []

received_in_order_example :
    (channel_at (run traffic small_bus) 0 ≡ some (watch 0 traffic channel0))
    × (received 0 traffic channel0 ++ (watch 0 traffic channel0).queue
        ≡ channel0.queue ++ accepted 0 traffic channel0)
    × Sublistᴰ (accepted 0 traffic channel0) (published traffic)
unfolding channel_at
received_in_order_example = received_in_order 0 traffic small_bus refl

run-AreSound_example : AreSound (run traffic small_bus)
run-AreSound_example =
    run-AreSound traffic small_bus
      (record { positive = omega arith; bounded = omega arith; live = λ e. refl }, tt)

abbrev task0 : Task
task0 = record {
  name = codes "t";
  interval = positive 5;
  run_on_start = false;
  run = λ n. if n == 1 then completed else succeeded;
}

abbrev older : Release
older = record { tag_name = codes "20240101-0101"; prerelease = false; draft = false; assets = [] }

abbrev newer : Release
newer = record older {
  tag_name = codes "20240102-0101";
  assets = record { name = codes "p2pos-linux"; browser_download_url = codes "https://bin" } ∷ [];
}

abbrev version_old : ParsedVersion
version_old = record { day = 20240101; minute = 101; is_dev = false }

abbrev version_new : ParsedVersion
version_new = record { day = 20240102; minute = 101; is_dev = false }

program : Unit {0}
unfolding version_of parse_version take_digits dev_suffix parse_minute trim_space trim_left
    trim_right is_space trim_prefix strip_prefix has_suffix has_prefix trim_suffix same is_eligible
    channel_name to_lower lower rank
program = tt

old_version : IsRanked older 404802020203
unfolding program
old_version = (version_old, refl, refl)

new_version : IsRanked newer 404802040203
unfolding program
new_version = (version_new, refl, refl)

compare_version-rank_example :
    compare_version (codes "20240101-0101") (codes "20240102-0101")
    ≡ compare (rank version_old) (rank version_new)
unfolding program
compare_version-rank_example =
    compare_version-rank (codes "20240101-0101") (codes "20240102-0101") version_old version_new
      refl refl

select_best_release_newest_example :
    (b : Release) × (m : ℕ) × (select_best_release (older ∷ newer ∷ []) (codes "stable") ≡ some b)
    × Among b (older ∷ newer ∷ [])
    × IsAllowed (codes "stable") b
    × IsRanked b m
    × (404802020203 ≤ m)
unfolding program
select_best_release_newest_example =
    select_best_release_newest (older ∷ newer ∷ []) (codes "stable") older 404802020203
      ((404802020203, old_version), ((404802040203, new_version), tt)) (here refl) (refl, λ e. refl)
      old_version

abbrev web0 : Web
web0 = record {
  Url = Text;
  Body = Text;
  parse_url = λ t. some t;
  host = λ u. u;
  path = λ u. u;
  with_path_per_page = λ u p. u;
  render = λ u. u;
  get = λ t. some (200, t);
  decode_release = λ b. some newer;
  decode_releases = λ b. none;
  goos = codes "linux";
  goarch = codes "amd64";
  executable = some (codes "/bin/p2pos");
}

picked : pick_release web0 (codes "https://feed") (codes "develop") ≡ ok newer
unfolding program pick_release pick_fallback pick_listed fetch fetch_single_release
    fetch_release_list to_releases_list_url contains_text
picked = refl

abbrev fetches : Text → Text → Bool
fetches url exe = true

updates :
    (run_once web0 fetches
      (codes "20240101-0101")
      (some (codes "https://feed"))
      (codes "develop")
      true).1
    ≡ true
unfolding program run_once check_and_update get_latest_version asset_url binary_name install
    is_outdated compare_version compare_parsed pick_release pick_fallback pick_listed fetch
    fetch_single_release fetch_release_list to_releases_list_url contains_text
updates = refl

run_once-IsInstalled_example :
    IsInstalled web0 fetches (codes "20240101-0101") (some (codes "https://feed")) (codes "develop")
    × (true ≡ true)
    × ((run_once web0 fetches
          (codes "20240101-0101")
          (some (codes "https://feed"))
          (codes "develop")
          true).0
        ≡ ok tt)
run_once-IsInstalled_example =
    run_once-IsInstalled web0 fetches (codes "20240101-0101") (some (codes "https://feed"))
      (codes "develop") true updates
