-- ===== src/Network/Bootstrap/Discovery.antt =====
-- internal/network/node.go, StartBootstrap: the search for a first peer. Time is the list of the ticks, so
-- the interval, with its default of a minute, is not there.
use p2pos.Text.Order.{same_iff}
use p2pos.Env.{Env}
use p2pos.Text.{same, Text}
use p2pos.Common.{
  Bool-cases, [], ◌⊎◌, ◌<◌, ◌+◌, ◌&&◌, ◌∷◌, ◌≢◌, ◌≡◌, if◌then◌else◌, Bool, Option, List, ℕ, not,
  arith, ltb, is_empty, refl, inr, inl, false, true, some, none,
}
use p2pos.Network.Node.{AddrInfo, Node, can_use_business_protocols}

-- One call of `run`: the peers that the host is connected to and the node before it, what the
-- resolver returns (with or without a warning), which candidates can be connected to, and the node
-- after the connection.
pub record Attempt (env : Env) : Type 0 where
  pub before_run : Node env
  pub peers : ℕ
  pub candidates : List AddrInfo
  pub connects : Text → Bool
  pub after_run : Node env

module _ (env : Env) where
  -- The loop over the candidates: whom the node connects to, and whether the search goes on.
  unfoldable pub try_candidates : Text → Attempt env → List AddrInfo → Option Text × Bool
  try_candidates local a [] = (none, true)
  try_candidates local a (candidate ∷ rest) =
      let others = try_candidates local a rest in
      if same candidate.id local
      then others
      else if not (a.connects candidate.id)
      then others
      else (some candidate.id, not (can_use_business_protocols env a.after_run))

  unfoldable pub run_bootstrap : Text → Attempt env → Option Text × Bool
  run_bootstrap local a =
      if can_use_business_protocols env a.before_run && ltb 0 a.peers
      then (none, false)
      else if is_empty a.candidates
      then (none, true)
      else try_candidates local a a.candidates

  -- The turns of the goroutine: a tick with its attempt, or the done context.
  pub data Tick : Type 0 where
    ticked : Attempt env → Tick
    stopped : Tick

  -- The loop: whether it still goes, and how many attempts it has made.
  unfoldable pub tick_bootstrap : Text → List Tick → Bool × ℕ
  tick_bootstrap local [] = (true, 0)
  tick_bootstrap local (stopped ∷ rest) = (false, 0)
  tick_bootstrap local (ticked a ∷ rest) =
      let (goes, made) = tick_bootstrap local rest in
      if (run_bootstrap local a).1 then (goes, made + 1) else (false, 1)

  -- The goroutine of StartBootstrap: it runs once, and then at every tick.
  unfoldable pub start_bootstrap : Text → Attempt env → List Tick → Bool × ℕ
  start_bootstrap local a ticks =
      if (run_bootstrap local a).1
      then (let (goes, made) = tick_bootstrap local ticks in (goes, made + 1))
      else (false, 1)

  -- The node is through: it is configured, and it has a peer that it knows of or has just reached.
  abbrev pub IsThrough : Text → Attempt env → Type 0
  IsThrough local a =
      ((can_use_business_protocols env a.before_run ≡ true) × (0 < a.peers))
      ⊎ ((can_use_business_protocols env a.after_run ≡ true)
          × ((id : Text) × ((run_bootstrap local a).0 ≡ some id)
              × (id ≢ local)
              × (a.connects id ≡ true)))

  try_candidates_stops :
      (local : Text) (a : Attempt env) (cs : List AddrInfo)
      → (try_candidates local a cs).1 ≡ false
      → (can_use_business_protocols env a.after_run ≡ true)
        × ((id : Text) × ((try_candidates local a cs).0 ≡ some id)
            × (id ≢ local)
            × (a.connects id ≡ true))
  unfolding try_candidates
  try_candidates_stops local a [] h = absurd (cc)
  try_candidates_stops local a (c ∷ cs) h = elim (Bool-cases (same c.id local)) [
    | inl own ↦
        simp (try_candidates, own)
          (try_candidates_stops local a cs (simp (try_candidates, own) at h))
    | inr other ↦ elim (Bool-cases (a.connects c.id)) [
      | inr fails ↦
          simp (try_candidates, other, fails)
            (try_candidates_stops local a cs (simp (try_candidates, other, fails) at h))
      | inl connected ↦
          simp (try_candidates, other, connected)
            (
              ground (arith, (simp (try_candidates, other, connected) at h)),
              (c.id, refl, ground (arith, same_iff c.id local), connected),
            )
    ]
  ]

  -- An attempt ends the search only if the node is through: it can use the protocols of the
  -- cluster, and it is connected to a peer or has just connected to a candidate other than itself.
  pub run_bootstrap_stops :
      (local : Text) (a : Attempt env) → (run_bootstrap local a).1 ≡ false → IsThrough local a
  unfolding run_bootstrap
  run_bootstrap_stops local a h =
      elim (Bool-cases (can_use_business_protocols env a.before_run && ltb 0 a.peers)) [
        | inl through ↦ inl (ground arith)
        | inr not_yet ↦ elim (Bool-cases (is_empty a.candidates)) [
          | inl nobody ↦ absurd (cc (simp (run_bootstrap, not_yet, nobody) at h))
          | inr some_body ↦ inr (
              simp (run_bootstrap, not_yet, some_body)
                (try_candidates_stops local a a.candidates
                  (simp (run_bootstrap, not_yet, some_body) at h)))
        ]
      ]
