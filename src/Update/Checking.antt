-- ===== src/Update/Checking.antt =====
-- CheckAndUpdate and RunOnce: what is installed, and when the node is told to stop.
use p2pos.Update.Eligible.{IsAllowed}
use p2pos.Update.Picking.{pick_release-IsAllowed, IsOfFeed, pick_release-IsOfFeed}
use p2pos.Update.Version.{compare_version}
use p2pos.Text.Order.{same-eq}
use p2pos.Update.{
  binary_name, is_outdated, install, asset_url, Asset, get_latest_version, run_once,
  check_and_update, pick_release, Web, Release,
}
use p2pos.Text.{trim_prefix, is_blank, same, codes, Text}
use p2pos.Common.{
  Ordering, Bool-cases, Result-cases, [], ◌⊎◌, ◌∙◌, ◌∷◌, Bool, Option, List, refl, none, ◌≡◌, ap,
  arith, ok, inr, inl, false, true, some,
}

module _ (web : Web) where
  -- The release has an asset of the name at the URL.
  abbrev pub Offers : Text → Text → List Asset → Type 0
  Offers name url [] = ⊥
  Offers name url (a ∷ rest) =
      ((a.name ≡ name) × (a.browser_download_url ≡ url)) ⊎ Offers name url rest

  asset_url-Offers :
      (name url : Text) (assets : List Asset)
      → asset_url web name assets ≡ url
      → is_blank url ≡ false
      → Offers name url assets
  unfolding asset_url
  asset_url-Offers name url [] e h = absurd (ground arith)
  asset_url-Offers name url (a ∷ rest) e h = elim (Bool-cases (same a.name name)) [
    | inl s ↦ inl (same-eq a.name name s, rw s at e)
    | inr s ↦ inr (asset_url-Offers name url rest (rw s at e) h)
  ]

  -- An update that RunOnce may make: the release that pickRelease chooses from the configured feed,
  -- one that the feed gives, that is allowed and strictly newer than the running version and has a
  -- binary for this platform, which was downloaded to the place of the running one.
  pub record IsInstalled (download : Text → Text → Bool) (app_version : Text) (feed : Option Text)
      (channel : Text) : Type 0 where
    pub feed_url : Text
    pub release : Release
    pub url : Text
    pub exe : Text
    pub configured : feed ≡ some feed_url
    pub chosen : pick_release web feed_url channel ≡ ok release
    pub of_feed : IsOfFeed web feed_url release
    pub allowed : IsAllowed channel release
    pub newer :
        compare_version
          (trim_prefix app_version (codes "v"))
          (trim_prefix release.tag_name (codes "v"))
        ≡ Ordering.lt
    pub offered : Offers (binary_name web) url release.assets
    pub located : web.executable ≡ some exe
    pub downloaded : download url exe ≡ true

  get_latest_version-parts :
      (feed_url channel latest url : Text)
      → get_latest_version web feed_url channel ≡ ok (latest, url)
      → (r : Release) × (pick_release web feed_url channel ≡ ok r)
        × (r.tag_name ≡ latest)
        × (asset_url web (binary_name web) r.assets ≡ url)
        × (is_blank url ≡ false)
  unfolding get_latest_version
  get_latest_version-parts feed_url channel latest url h = ground arith

  is_outdated-lt :
      (app_version latest : Text)
      → is_outdated web app_version latest ≡ true
      → compare_version (trim_prefix app_version (codes "v")) (trim_prefix latest (codes "v"))
        ≡ Ordering.lt
  unfolding is_outdated
  is_outdated-lt app_version latest h = ground arith

  install-parts :
      (download : Text → Text → Bool) (url : Text)
      → install web download url ≡ ok true
      → (exe : Text) × (web.executable ≡ some exe) × (download url exe ≡ true)
  unfolding install
  install-parts download url h = ground arith

  check_and_update-parts :
      (download : Text → Text → Bool) (app_version feed_url channel : Text)
      → check_and_update web download app_version feed_url channel ≡ ok true
      → (latest : Text) × (url : Text) × (get_latest_version web feed_url channel
          ≡ ok (latest, url))
        × (is_outdated web app_version latest ≡ true)
        × (install web download url ≡ ok true)
  unfolding check_and_update
  check_and_update-parts download app_version feed_url channel h =
      elim (Result-cases (get_latest_version web feed_url channel)) [
        | inr (e, failed) ↦ absurd (cc (rw (check_and_update, failed) at h))
        | inl ((latest, url), fetched) ↦ elim (Bool-cases (is_outdated web app_version latest)) [
          | inl old ↦ (latest, url, fetched, old, rw (check_and_update, fetched, old) at h)
          | inr new ↦ absurd (cc (rw (check_and_update, fetched, new) at h))
        ]
      ]

  check_and_update-IsInstalled :
      (download : Text → Text → Bool) (app_version feed_url channel : Text)
      → check_and_update web download app_version feed_url channel ≡ ok true
      → IsInstalled download app_version (some feed_url) channel
  check_and_update-IsInstalled download app_version feed_url channel h =
      let (latest, url, fetched, old, inst) =
        check_and_update-parts download app_version feed_url channel h in
      let (r, picked, tag, at, filled) =
        get_latest_version-parts feed_url channel latest url fetched in
      let (exe, located, fine) = install-parts download url inst in
      record {
        feed_url = feed_url;
        release = r;
        url = url;
        exe = exe;
        configured = refl;
        chosen = picked;
        of_feed = pick_release-IsOfFeed web feed_url channel r picked;
        allowed = pick_release-IsAllowed web feed_url channel r picked;
        newer = is_outdated-lt app_version r.tag_name (ap (is_outdated web app_version) tag ∙ old);
        offered = asset_url-Offers (binary_name web) url r.assets at filled;
        located = located;
        downloaded = fine;
      }

  -- RunOnce asks the node to stop only after the download of an update to the place of the running
  -- program has succeeded, and then only if there is someone to ask; on an error it never does. The
  -- update is the release chosen from the configured feed: one that the feed gives, no draft, on
  -- the stable channel no prerelease, strictly newer than the running version, and what was
  -- downloaded is the URL of its asset for this platform.
  pub run_once-IsInstalled :
      (download : Text → Text → Bool) (app_version : Text) (feed : Option Text) (channel : Text)
      (has_shutdown : Bool)
      → (run_once web download app_version feed channel has_shutdown).1 ≡ true
      → IsInstalled download app_version feed channel
        × (has_shutdown ≡ true)
        × ((run_once web download app_version feed channel has_shutdown).0 ≡ ok tt)
  unfolding run_once
  run_once-IsInstalled download app_version none channel has_shutdown h = absurd (cc)
  run_once-IsInstalled download app_version (some feed) channel has_shutdown h =
      elim (Result-cases (check_and_update web download app_version feed channel)) [
        | inl (true, e) ↦
            rw (run_once, e)
              (
                check_and_update-IsInstalled download app_version feed channel e,
                rw (run_once, e) at h,
                refl,
              )
        | inl (false, e) ↦ absurd (cc (rw (run_once, e) at h))
        | inr (f, e) ↦ absurd (cc (rw (run_once, e) at h))
      ]

  -- A feed that offers nothing newer than the running version leads to no download: what a download
  -- would do does not matter.
  pub run_once_up_to_date :
      (download other : Text → Text → Bool) (app_version feed_url channel latest url : Text)
      (has_shutdown : Bool)
      → get_latest_version web feed_url channel ≡ ok (latest, url)
      → is_outdated web app_version latest ≡ false
      → (run_once web download app_version (some feed_url) channel has_shutdown ≡ (ok tt, false))
        × (run_once web other app_version (some feed_url) channel has_shutdown ≡ (ok tt, false))
  unfolding run_once check_and_update
  run_once_up_to_date download other app_version feed_url channel latest url has_shutdown fetched
        fresh =
      (
        rw (run_once, check_and_update, fetched, fresh) refl,
        rw (run_once, check_and_update, fetched, fresh) refl,
      )
