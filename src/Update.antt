-- ===== src/Update.antt =====
-- internal/update/update.go: the choice of a release, the comparison with the running version, and
-- the update itself.
pub mod Version
pub mod Eligible
pub mod Selection
pub mod Picking
pub mod Checking
pub mod Download
use p2pos.Text.{
  trim_suffix, is_blank, has_suffix, codes, trim_space, same, trim_prefix, to_lower, Text,
}
use p2pos.Common.{
  ◌>>◌, Ordering, [], ◌>>=◌, ◌==◌, ◌||◌, ◌&&◌, ◌∷◌, if◌then◌else◌, Result, Bool, Option, List, ℕ,
  not, or_err, require, err, ok, false, true, some, none,
}
use p2pos.Update.Version.{compare_version}

pub record Asset : Type 0 where
  pub name : Text
  pub browser_download_url : Text

-- GithubRelease
pub record Release : Type 0 where
  pub tag_name : Text
  pub prerelease : Bool
  pub draft : Bool
  pub assets : List Asset

-- What the package takes from outside: net/url, net/http and encoding/json, the platform, and the
-- path of the running binary. A missing result is an error.
pub record Web : Type 1 where
  pub Url : Type 0
  pub Body : Type 0
  pub parse_url : Text → Option Url
  pub host : Url → Text
  pub path : Url → Text
  -- the URL with another path and with the query value per_page=20 set
  pub with_path_per_page : Url → Text → Url
  pub render : Url → Text
  -- the status code and the body of a GET
  pub get : Text → Option (ℕ × Body)
  pub decode_release : Body → Option Release
  pub decode_releases : Body → Option (List Release)
  pub goos : Text
  pub goarch : Text
  pub executable : Option Text

pub data Error : Type 0 where
  feed_url_invalid : Error
  fetch_failed : Error
  not_allowed : Error
  no_eligible : Error
  binary_not_found : Error
  executable_unknown : Error
  download_failed : Error

-- The channel, with its default.
unfoldable pub channel_name : Text → Text
channel_name channel =
    let ch = to_lower (trim_space channel) in if is_blank ch then codes "stable" else ch

-- The releases that the loop of selectBestRelease does not skip.
unfoldable pub is_eligible : Text → Release → Bool
is_eligible ch r = not r.draft && not (same ch (codes "stable") && r.prerelease)

abbrev pub is_lt : Ordering → Bool
is_lt Ordering.lt = true
is_lt Ordering.eq = false
is_lt Ordering.gt = false

unfoldable pub version_of : Release → Text
version_of r = trim_prefix r.tag_name (codes "v")

-- The loop's body: `best` is missing as long as `found` is false.
unfoldable pub consider : Text → Option Release → Release → Option Release
consider ch best r = if not (is_eligible ch r) then best else elim best [
  | none ↦ some r
  | some b ↦ if is_lt (compare_version (version_of b) (version_of r)) then some r else some b
]

unfoldable pub select_from : Text → Option Release → List Release → Option Release
select_from ch best [] = best
select_from ch best (r ∷ rest) = select_from ch (consider ch best r) rest

unfoldable pub select_best_release : List Release → Text → Option Release
select_best_release releases channel = select_from (channel_name channel) none releases

module _ (web : Web) where
  open web use {Url, Body, parse_url, host, path, with_path_per_page, render, get}

  unfoldable pub to_releases_list_url : Text → Option Text
  to_releases_list_url feed_url = elim (parse_url feed_url) [
    | none ↦ none
    | some u ↦
        if not (same (host u) (codes "api.github.com"))
        then none
        else if not (has_suffix (path u) (codes "/releases/latest"))
        then none
        else some (render (with_path_per_page u (trim_suffix (path u) (codes "/latest"))))
  ]

  -- The body of a GET that answers 200.
  unfoldable pub fetch : Text → Option Body
  fetch url = elim (get url) [
    | none ↦ none
    | some (status, body) ↦ if status == 200 then some body else none
  ]

  unfoldable pub fetch_single_release : Text → Option Release
  fetch_single_release url = elim (fetch url) [ none ↦ none | some body ↦ web.decode_release body ]

  unfoldable pub fetch_release_list : Text → Option (List Release)
  fetch_release_list url = elim (fetch url) [ none ↦ none | some body ↦ web.decode_releases body ]

  -- The first `if` of pickRelease: the best release of the list that belongs to the feed.
  unfoldable pub pick_listed : Text → Text → Option Release
  pick_listed feed_url ch = elim (to_releases_list_url feed_url) [
    | none ↦ none
    | some list_url ↦ elim (fetch_release_list list_url) [
      | none ↦ none
      | some releases ↦ select_best_release releases ch
    ]
  ]

  unfoldable pub pick_fallback : Text → Text → Result Error Release
  pick_fallback feed_url ch = do
    releases ← or_err (fetch_release_list feed_url) fetch_failed
    or_err (select_best_release releases ch) no_eligible

  unfoldable pub pick_release : Text → Text → Result Error Release
  pick_release feed_url channel =
      let ch = channel_name channel in
      elim (pick_listed feed_url ch) [
        | some best ↦ ok best
        | none ↦ elim (fetch_single_release feed_url) [
          | some release ↦
              if release.draft || (same ch (codes "stable") && release.prerelease)
              then err not_allowed
              else ok release
          | none ↦ pick_fallback feed_url ch
        ]
      ]

  unfoldable pub binary_name : Text
  binary_name =
      if same web.goos (codes "linux")
      then codes "p2pos-linux"
      else if same web.goos (codes "darwin")
      then if same web.goarch (codes "arm64")
        then codes "p2pos-darwin-arm64"
        else codes "p2pos-darwin-amd64"
      else if same web.goos (codes "windows")
      then codes "p2pos-windows.exe"
      else codes "p2pos"

  -- The URL of the first asset with the name, or the empty text.
  unfoldable pub asset_url : Text → List Asset → Text
  asset_url name [] = []
  asset_url name (a ∷ rest) =
      if same a.name name then a.browser_download_url else asset_url name rest

  unfoldable pub get_latest_version : Text → Text → Result Error (Text × Text)
  get_latest_version feed_url channel = do
    release ← pick_release feed_url channel
    let url = asset_url binary_name release.assets
    require (not (is_blank url)) binary_not_found
    ok (release.tag_name, url)

  -- The end of CheckAndUpdate; `download` is DownloadBinary, from a URL to a path, and says
  -- whether it succeeds.
  unfoldable pub install : (Text → Text → Bool) → Text → Result Error Bool
  install download url = do
    exe ← or_err web.executable executable_unknown
    require (download url exe) download_failed
    ok true

  -- compareVersion(currentVer, latestVer) < 0
  unfoldable pub is_outdated : Text → Text → Bool
  is_outdated app_version latest =
      is_lt (compare_version (trim_prefix app_version (codes "v")) (trim_prefix latest (codes "v")))

  unfoldable pub check_and_update : (Text → Text → Bool) → Text → Text → Text → Result Error Bool
  check_and_update download app_version feed_url channel = do
    (latest, url) ← get_latest_version feed_url channel
    if is_outdated app_version latest then install download url else ok false

  -- RunOnce: `feed` is UpdateFeedURL, missing on its error. The second result says whether a
  -- shutdown is requested; `has_shutdown` is `s.shutdown != nil`.
  unfoldable pub run_once :
      (Text → Text → Bool) → Text → Option Text → Text → Bool → Result Error (Unit {0}) × Bool
  run_once download app_version feed channel has_shutdown = elim feed [
    | none ↦ (err feed_url_invalid, false)
    | some feed_url ↦ elim (check_and_update download app_version feed_url channel) [
      | err e ↦ (err e, false)
      | ok updated ↦ (ok tt, updated && has_shutdown)
    ]
  ]
