-- ===== src/Update/Picking.antt =====
-- pickRelease: what it chooses comes from the feed and may be used on the channel.
use p2pos.Update.Eligible.{
  select_best_release-is_eligible, Among, IsAllowed, select_best_release-Among,
}
use p2pos.Text.Order.{same-eq, same_iff, same_refl}
use p2pos.Update.{
  fetch_single_release, fetch_release_list, to_releases_list_url, pick_fallback, pick_release,
  pick_listed, Web, is_eligible, Release, channel_name,
}
use p2pos.Text.{same, is_space, lower, to_lower, trim_right, trim_left, trim_space, codes, Text}
use p2pos.Common.{◌⊎◌, List, Option-cases, ◌≡◌, ap, arith, ok, inr, inl, true, some}

stable_twice :
    (channel : Text)
    → same (channel_name channel) (codes "stable") ≡ true
    → channel_name (channel_name channel) ≡ codes "stable"
unfolding channel_name trim_space trim_left trim_right to_lower lower is_space
stable_twice channel h = ap channel_name (same-eq (channel_name channel) (codes "stable") h)

eligible-IsAllowed :
    (channel : Text) (r : Release)
    → is_eligible (channel_name (channel_name channel)) r ≡ true
    → IsAllowed channel r
unfolding is_eligible
eligible-IsAllowed channel r h = (
  ground arith,
  λ e. ground (
    arith,
    stable_twice channel (rw e (same_refl (codes "stable"))),
    same_iff (channel_name (channel_name channel)) (codes "stable"),
  ),
)

module _ (web : Web) where
  pick_listed-is_eligible :
      (feed_url ch : Text) (r : Release)
      → pick_listed web feed_url ch ≡ some r
      → is_eligible (channel_name ch) r ≡ true
  unfolding pick_listed
  pick_listed-is_eligible feed_url ch r h =
      elim (Option-cases (to_releases_list_url web feed_url)) [
        | inl e ↦ absurd (cc (rw (pick_listed, e) at h))
        | inr (url, e) ↦ elim (Option-cases (fetch_release_list web url)) [
          | inl f ↦ absurd (cc (rw (pick_listed, e, f) at h))
          | inr (releases, f) ↦
              select_best_release-is_eligible releases ch r (rw (pick_listed, e, f) at h)
        ]
      ]

  pick_fallback-is_eligible :
      (feed_url ch : Text) (r : Release)
      → pick_fallback web feed_url ch ≡ ok r
      → is_eligible (channel_name ch) r ≡ true
  unfolding pick_fallback
  pick_fallback-is_eligible feed_url ch r h =
      elim (Option-cases (fetch_release_list web feed_url)) [
        | inl e ↦ absurd (cc (rw (e) at h))
        | inr (releases, e) ↦ select_best_release-is_eligible releases ch r (ground arith)
      ]

  -- By whichever of its three ways pickRelease finds a release, it is no draft, and on the stable
  -- channel it is no prerelease.
  pub pick_release-IsAllowed :
      (feed_url channel : Text) (r : Release)
      → pick_release web feed_url channel ≡ ok r
      → IsAllowed channel r
  unfolding pick_release
  pick_release-IsAllowed feed_url channel r h =
      elim (Option-cases (pick_listed web feed_url (channel_name channel))) [
        | inr (b, e) ↦
            eligible-IsAllowed channel r
              (pick_listed-is_eligible feed_url (channel_name channel) r (ground arith))
        | inl e ↦ elim (Option-cases (fetch_single_release web feed_url)) [
          | inr (s, f) ↦ ground (arith, same_iff (channel_name channel) (codes "stable"))
          | inl f ↦
              eligible-IsAllowed channel r
                (pick_fallback-is_eligible feed_url (channel_name channel) r (ground arith))
        ]
      ]

  -- The release is one that the feed gives: of the list that belongs to it, or the one release that
  -- stands at its URL, or of the list that does.
  abbrev pub IsOfFeed : Text → Release → Type 0
  IsOfFeed feed_url r =
      ((list_url : Text) × (releases : List Release) × (to_releases_list_url web feed_url
          ≡ some list_url)
        × (fetch_release_list web list_url ≡ some releases)
        × Among r releases)
      ⊎ ((fetch_single_release web feed_url ≡ some r)
          ⊎ ((releases : List Release) × (fetch_release_list web feed_url ≡ some releases)
              × Among r releases))

  pick_listed-IsOfFeed :
      (feed_url ch : Text) (r : Release)
      → pick_listed web feed_url ch ≡ some r
      → IsOfFeed feed_url r
  unfolding pick_listed
  pick_listed-IsOfFeed feed_url ch r h = elim (Option-cases (to_releases_list_url web feed_url)) [
    | inl e ↦ absurd (cc (rw (pick_listed, e) at h))
    | inr (url, e) ↦ elim (Option-cases (fetch_release_list web url)) [
      | inl f ↦ absurd (cc (rw (pick_listed, e, f) at h))
      | inr (releases, f) ↦ inl (
        url,
        releases,
        e,
        f,
        select_best_release-Among releases ch r (rw (pick_listed, e, f) at h),
      )
    ]
  ]

  pick_fallback-IsOfFeed :
      (feed_url ch : Text) (r : Release)
      → pick_fallback web feed_url ch ≡ ok r
      → IsOfFeed feed_url r
  unfolding pick_fallback
  pick_fallback-IsOfFeed feed_url ch r h = elim (Option-cases (fetch_release_list web feed_url)) [
    | inl e ↦ absurd (cc (rw (e) at h))
    | inr (releases, e) ↦
        inr (inr (releases, e, select_best_release-Among releases ch r (ground arith)))
  ]

  -- What pickRelease chooses is a release that the feed gives.
  pub pick_release-IsOfFeed :
      (feed_url channel : Text) (r : Release)
      → pick_release web feed_url channel ≡ ok r
      → IsOfFeed feed_url r
  unfolding pick_release
  pick_release-IsOfFeed feed_url channel r h =
      elim (Option-cases (pick_listed web feed_url (channel_name channel))) [
        | inr (b, e) ↦ pick_listed-IsOfFeed feed_url (channel_name channel) r (ground arith)
        | inl e ↦ elim (Option-cases (fetch_single_release web feed_url)) [
          | inr (s, f) ↦ inr (inl (ground arith))
          | inl f ↦ pick_fallback-IsOfFeed feed_url (channel_name channel) r (ground arith)
        ]
      ]
