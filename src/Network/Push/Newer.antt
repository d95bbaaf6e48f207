-- ===== src/Network/Push/Newer.antt =====
-- A node's member list is only replaced by a newer one, and a push that is accepted leaves one that is
-- as new as the pushed one.
use p2pos.Network.Node.{Node, Peers}
use p2pos.Env.{Env}
use p2pos.Time.{Time}
use p2pos.Text.{Text}
use p2pos.Common.{
  refl, Option-cases, ltb→lt, Bool-cases, List, [], ◌⊎◌, ◌≤◌, ◌∙◌, ◌++◌, ◌∷◌, ◌≡◌, Option, ap,
  arith, ltb, ok, inr, inl, some,
}
use mathlib.Core.List.{Memᴰ}
use mathlib.Core.List.Memᴰ
use p2pos.Membership.{Manager, Snapshot, apply}
use p2pos.Membership.Applying.{apply_outcomes}
use p2pos.Network.Push.{on_membership_push}
use p2pos.Network.Push.Fanout.{on_membership_push_outcomes}
use p2pos.Network.Push.Gossip.{Message}

pub split_message :
    (msg : Message) (xs : List Message) (y : Message) (ys zs : List Message)
    → Memᴰ msg (xs ++ y ∷ ys)
    → (msg ≡ y) ⊎ Memᴰ msg (xs ++ (ys ++ zs))
split_message msg [] y ys zs h = elim (Memᴰ.cases_cons h) [
  | inl e ↦ inl e
  | inr m ↦ inr (Memᴰ.append_left zs m)
]
split_message msg (x ∷ xs) y ys zs h = elim (Memᴰ.cases_cons h) [
  | inl e ↦ inr (Memᴰ.head e)
  | inr m ↦ elim (split_message msg xs y ys zs m) [ inl e ↦ inl e | inr k ↦ inr (Memᴰ.tail k) ]
]

pub in_flight_cases :
    (msgs : List Message)
    → (msgs ≡ []) ⊎ ((msg : Message) × (rest : List Message) × (msgs ≡ msg ∷ rest))
in_flight_cases [] = inl refl
in_flight_cases (msg ∷ rest) = inr (msg, rest, refl)

module _ (env : Env) where
  -- The node has a member list that was issued at the time `t` or later.
  abbrev pub IsAsNew : Time → Node env → Type 0
  IsAsNew t n = (m : Manager env) × (n.membership ≡ some m) × (t ≤ m.snapshot.issued_at)

  pub apply-le :
      (m : Manager env) (now : Time) (s : Snapshot)
      → m.snapshot.issued_at ≤ (apply env m now s).0.snapshot.issued_at
  apply-le m now s = elim (apply_outcomes env m now s) [
    | inl (kept, _) ↦ omega (arith, ap (λ x. x.snapshot.issued_at) kept)
    | inr (is_new, newer, _, _) ↦ omega (arith, ap (λ x. x.issued_at) is_new)
  ]

  pub apply-stored :
      (m : Manager env) (now : Time) (s : Snapshot)
      → (apply env m now s).1 ≡ ok tt
      → s.issued_at ≤ (apply env m now s).0.snapshot.issued_at
  apply-stored m now s fine = elim (apply_outcomes env m now s) [
    | inl (kept, f) ↦ elim (Bool-cases (ltb m.snapshot.issued_at s.issued_at)) [
      | inl newer ↦ absurd (cc (fine, (f (ltb→lt m.snapshot.issued_at s.issued_at newer)).1))
      | inr old ↦ ground (arith, ap (λ x. x.snapshot.issued_at) kept)
    ]
    | inr (is_new, newer, _, _) ↦ omega (arith, ap (λ x. x.issued_at) is_new)
  ]

  pub push-IsAsNew :
      (t : Time) (peers : Peers) (now : Time) (remote : Option Text) (s : Snapshot) (n : Node env)
      → IsAsNew t n
      → IsAsNew t (on_membership_push env peers now remote (some s) n).0.0
  push-IsAsNew t peers now remote s n (m, has, new) =
      elim (on_membership_push_outcomes env peers now remote s n m has) [
        | inl (_, _, is, _) ↦ ((apply env m now s).0, is, omega (arith, apply-le m now s))
        | inr (e, _, kept) ↦ (m, ap (λ x. x.0.0.membership) kept ∙ has, new)
      ]

  pub push-stored :
      (peers : Peers) (now : Time) (remote : Option Text) (s : Snapshot) (n : Node env)
      → (on_membership_push env peers now remote (some s) n).1 ≡ ok tt
      → IsAsNew s.issued_at (on_membership_push env peers now remote (some s) n).0.0
  unfolding on_membership_push
  push-stored peers now remote s n fine = elim (Option-cases n.membership) [
    | inl unset ↦ absurd (cc (simp (on_membership_push, unset) at fine))
    | inr (m, has) ↦ elim (on_membership_push_outcomes env peers now remote s n m has) [
      | inl (applied, _, is, _) ↦ ((apply env m now s).0, is, apply-stored m now s applied)
      | inr (e, _, kept) ↦ absurd (cc (fine, ap (λ x. x.1) kept))
    ]
  ]
