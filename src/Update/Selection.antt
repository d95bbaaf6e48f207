-- ===== src/Update/Selection.antt =====
-- selectBestRelease and pickRelease: only eligible releases, and the newest of them.
use p2pos.Update.Eligible.{
  select_best_release-is_eligible, is_eligible-IsAllowed, select_best_release-Among,
  is_eligible_of_IsAllowed, IsAllowed, Among,
}
use p2pos.Update.Version.Ranking.{rank, compare_version-rank}
use p2pos.Update.Version.{parse_version, ParsedVersion}
use p2pos.Update.{
  version_of, channel_name, is_eligible, consider, select_from, is_lt, Release, select_best_release,
}
use p2pos.Text.{Text}
use p2pos.Common.{
  ◌⊎◌, compare, Bool-cases, [], ◌≤◌, ◌∙◌, ◌∷◌, ◌≡◌, Option, List, ℕ, ap, arith, ltb, All, refl, inr,
  inl, true, some, none,
}

-- The rank of a release whose tag is a version of the format.
abbrev pub IsRanked : Release → ℕ → Type 0
IsRanked r n = (v : ParsedVersion) × (parse_version (version_of r) ≡ some v) × (rank v ≡ n)

abbrev pub AllRanked : List Release → Type 0
AllRanked = All (λ r. (n : ℕ) × IsRanked r n)

-- The best so far is ranked, and stands at n or above.
abbrev Reaches : Option Release → ℕ → Type 0
Reaches best n = (b : Release) × (m : ℕ) × (best ≡ some b) × IsRanked b m × (n ≤ m)

is_lt-compare : (a b : ℕ) → is_lt (compare a b) ≡ ltb a b
is_lt-compare a b = ground arith

consider_new :
    (ch : Text) (r : Release) (n : ℕ)
    → is_eligible ch r ≡ true
    → IsRanked r n
    → Reaches (consider ch none r) n
unfolding consider
consider_new ch r n h k = (r, n, rw h refl, k, omega arith)

consider_both :
    (ch : Text) (b r : Release) (m n : ℕ)
    → IsRanked b m
    → IsRanked r n
    → is_eligible ch r ≡ true
    → Reaches (consider ch (some b) r) n × Reaches (consider ch (some b) r) m
unfolding consider
consider_both ch b r m n (u, pu, eu) (v, pv, ev) h = elim (Bool-cases (ltb m n)) [
  | inl l ↦
      let won : consider ch (some b) r ≡ some r =
        rw
          (
            h,
            compare_version-rank (version_of b) (version_of r) u v pu pv,
            eu,
            ev,
            is_lt-compare m n,
            l,
          )
          refl in
      ((r, n, won, (v, pv, ev), omega arith), (r, n, won, (v, pv, ev), ground arith))
  | inr l ↦
      let won : consider ch (some b) r ≡ some b =
        rw
          (
            h,
            compare_version-rank (version_of b) (version_of r) u v pu pv,
            eu,
            ev,
            is_lt-compare m n,
            l,
          )
          refl in
      ((b, m, won, (u, pu, eu), ground arith), (b, m, won, (u, pu, eu), omega arith))
]

consider_keeps :
    (ch : Text) (best : Option Release) (r : Release) (m : ℕ)
    → ((n : ℕ) × IsRanked r n)
    → Reaches best m
    → Reaches (consider ch best r) m
consider_keeps ch best r m (n, kr) (b, k, e, kb, le) = elim (Bool-cases (is_eligible ch r)) [
  | inl h ↦
      let (b', k', e', kb', le') = (consider_both ch b r k n kb kr h).1 in
      (b', k', ap (λ o. consider ch o r) e ∙ e', kb', omega arith)
  | inr h ↦ (b, k, (unfold consider in (rw h e)), kb, le)
]

select_from_keeps :
    (ch : Text) (releases : List Release) (best : Option Release) (m : ℕ)
    → AllRanked releases
    → Reaches best m
    → Reaches (select_from ch best releases) m
unfolding select_from
select_from_keeps ch [] best m k h = h
select_from_keeps ch (r ∷ rest) best m k h =
    select_from_keeps ch rest (consider ch best r) m k.1 (consider_keeps ch best r m k.0 h)

-- The best so far, if there is one, has a rank.
abbrev HasRank : Option Release → Type 0
HasRank best = (best ≡ none) ⊎ ((b : Release) × (m : ℕ) × (best ≡ some b) × IsRanked b m)

HasRank-of_Reaches : (best : Option Release) (m : ℕ) → Reaches best m → HasRank best
HasRank-of_Reaches best m (b, k, e, kb, _) = inr (b, k, e, kb)

consider-Reaches :
    (ch : Text) (best : Option Release) (r : Release) (n : ℕ)
    → HasRank best
    → is_eligible ch r ≡ true
    → IsRanked r n
    → Reaches (consider ch best r) n
consider-Reaches ch best r n (inl e) h k = rw e (consider_new ch r n h k)
consider-Reaches ch best r n (inr (b, m, e, kb)) h k = rw e (consider_both ch b r m n kb k h).0

consider-HasRank :
    (ch : Text) (best : Option Release) (r : Release)
    → ((n : ℕ) × IsRanked r n)
    → HasRank best
    → HasRank (consider ch best r)
unfolding consider
consider-HasRank ch best r (n, k) h = elim (Bool-cases (is_eligible ch r)) [
  | inl e ↦ HasRank-of_Reaches (consider ch best r) n (consider-Reaches ch best r n h e k)
  | inr e ↦ rw e h
]

select_from-Reaches :
    (ch : Text) (releases : List Release) (best : Option Release) (r : Release) (n : ℕ)
    → AllRanked releases
    → HasRank best
    → Among r releases
    → is_eligible ch r ≡ true
    → IsRanked r n
    → Reaches (select_from ch best releases) n
unfolding select_from
select_from-Reaches ch [] best r n k h a el kr = elim a [ ]
select_from-Reaches ch (s ∷ rest) best r n k h (Among.here e) el kr =
    select_from_keeps ch rest (consider ch best s) n k.1
      (rw e (consider-Reaches ch best r n h el kr))
select_from-Reaches ch (s ∷ rest) best r n k h (Among.later a) el kr =
    select_from-Reaches ch rest (consider ch best s) r n k.1 (consider-HasRank ch best s k.0 h) a el
      kr

-- If the tags are versions of the format, selectBestRelease finds a release whenever the list has
-- one that is allowed, that is no draft and on the stable channel no prerelease. The release found
-- is one of the list and allowed itself, and no allowed one of the list is newer.
pub select_best_release_newest :
    (releases : List Release) (channel : Text) (r : Release) (n : ℕ)
    → AllRanked releases
    → Among r releases
    → IsAllowed channel r
    → IsRanked r n
    → (b : Release) × (m : ℕ) × (select_best_release releases channel ≡ some b)
      × Among b releases
      × IsAllowed channel b
      × IsRanked b m
      × (n ≤ m)
unfolding select_best_release
select_best_release_newest releases channel r n k a allowed kr =
    let (b, m, found, kb, le) =
      select_from-Reaches (channel_name channel) releases none r n k (inl refl) a
        (is_eligible_of_IsAllowed channel r allowed) kr in
    (
      b,
      m,
      found,
      select_best_release-Among releases channel b found,
      is_eligible-IsAllowed channel b (select_best_release-is_eligible releases channel b found),
      kb,
      le,
    )
