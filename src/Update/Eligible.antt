-- ===== src/Update/Eligible.antt =====
-- selectBestRelease: what it returns is one of the releases and may be used on the channel.
use p2pos.Text.Order.{same-eq, same_iff}
use p2pos.Update.Version.{compare_version}
use p2pos.Update.{
  version_of, channel_name, is_eligible, consider, select_from, is_lt, Release, select_best_release,
}
use p2pos.Text.{codes, same, Text}
use p2pos.Common.{
  false, ◌⊎◌, Bool-cases, [], ◌∷◌, ◌≡◌, Option, List, arith, refl, inr, inl, true, some, none,
}

-- A member of a list, by its place.
pub data Among (r : Release) : List Release → Type 0 where
  here : {s : Release} {rest : List Release} → s ≡ r → Among r (s ∷ rest)
  later : {s : Release} {rest : List Release} → Among r rest → Among r (s ∷ rest)

some-inj : (r b : Release) → some r ≡ some b → r ≡ b
some-inj r b h = cc

consider-is_eligible :
    (ch : Text) (best : Option Release) (r b : Release)
    → ((b' : Release) → best ≡ some b' → is_eligible ch b' ≡ true)
    → consider ch best r ≡ some b
    → is_eligible ch b ≡ true
unfolding consider
consider-is_eligible ch none r b h e = ground arith
consider-is_eligible ch (some b') r b h e = ground (arith, h b' refl)

select_from-is_eligible :
    (ch : Text) (releases : List Release) (best : Option Release) (b : Release)
    → ((b' : Release) → best ≡ some b' → is_eligible ch b' ≡ true)
    → select_from ch best releases ≡ some b
    → is_eligible ch b ≡ true
unfolding select_from
select_from-is_eligible ch [] best b h e = h b e
select_from-is_eligible ch (r ∷ rest) best b h e =
    select_from-is_eligible ch rest (consider ch best r) b
      (λ b' e'. consider-is_eligible ch best r b' h e') e

-- What selectBestRelease returns may be used on the channel.
pub select_best_release-is_eligible :
    (releases : List Release) (channel : Text) (b : Release)
    → select_best_release releases channel ≡ some b
    → is_eligible (channel_name channel) b ≡ true
unfolding select_best_release
select_best_release-is_eligible releases channel b h =
    select_from-is_eligible (channel_name channel) releases none b (λ b' e. absurd (cc)) h

Among-consider :
    (ch : Text) (best : Option Release) (r b : Release) (rest : List Release)
    → consider ch best r ≡ some b
    → (best ≡ some b) ⊎ Among b (r ∷ rest)
unfolding consider
Among-consider ch none r b rest h = elim (Bool-cases (is_eligible ch r)) [
  | inl e ↦ inr (Among.here (some-inj r b (rw (consider, e) at h)))
  | inr e ↦ absurd (cc (rw (consider, e) at h))
]
Among-consider ch (some old) r b rest h = elim (Bool-cases (is_eligible ch r)) [
  | inr e ↦ inl (rw (consider, e) at h)
  | inl e ↦ elim (Bool-cases (is_lt (compare_version (version_of old) (version_of r)))) [
    | inl l ↦ inr (Among.here (some-inj r b (rw (consider, e, l) at h)))
    | inr l ↦ inl (rw (consider, e, l) at h)
  ]
]

Among-select_from :
    (ch : Text) (releases : List Release) (best : Option Release) (b : Release)
    → select_from ch best releases ≡ some b
    → (best ≡ some b) ⊎ Among b releases
unfolding select_from
Among-select_from ch [] best b h = inl h
Among-select_from ch (r ∷ rest) best b h =
    elim (Among-select_from ch rest (consider ch best r) b h) [
      | inl e ↦ Among-consider ch best r b rest e
      | inr a ↦ inr (Among.later a)
    ]

-- What selectBestRelease returns is one of the releases.
pub select_best_release-Among :
    (releases : List Release) (channel : Text) (b : Release)
    → select_best_release releases channel ≡ some b
    → Among b releases
unfolding select_best_release
select_best_release-Among releases channel b h =
    elim (Among-select_from (channel_name channel) releases none b h) [
      | inl e ↦ absurd (cc)
      | inr a ↦ a
    ]

-- What a release may be on a channel: no draft, and on the stable channel no prerelease.
abbrev pub IsAllowed : Text → Release → Type 0
IsAllowed channel r =
    (r.draft ≡ false) × (channel_name channel ≡ codes "stable" → r.prerelease ≡ false)

pub is_eligible-IsAllowed :
    (channel : Text) (r : Release)
    → is_eligible (channel_name channel) r ≡ true
    → IsAllowed channel r
unfolding is_eligible
is_eligible-IsAllowed channel r h =
    (ground arith, λ e. ground (arith, same_iff (channel_name channel) (codes "stable")))

pub is_eligible_of_IsAllowed :
    (channel : Text) (r : Release)
    → IsAllowed channel r
    → is_eligible (channel_name channel) r ≡ true
unfolding is_eligible
is_eligible_of_IsAllowed channel r (whole, tested) =
    elim (Bool-cases (same (channel_name channel) (codes "stable"))) [
      | inl h ↦
          rw (is_eligible, whole, h, tested (same-eq (channel_name channel) (codes "stable") h))
            refl
      | inr h ↦ rw (is_eligible, whole, h) refl
    ]
