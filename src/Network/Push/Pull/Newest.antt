-- ===== src/Network/Push/Pull/Newest.antt =====
-- A node that pulls is at least as new as the peers whose snapshots it accepts.
use p2pos.Network.Push.Pull.{membership_response, fetch_membership_snapshot, pulled}
use p2pos.Text.{is_blank}
use p2pos.Network.Node.{runtime_state, Peers, Node, evaluate_runtime_state}
use p2pos.Env.{Env}
use p2pos.Time.{Time}
use p2pos.Common.{
  Bool, ◌∙◌, ◌++◌, refl, map, List, Result-cases, Bool-cases, [], ◌⊎◌, ◌≤◌, ◌||◌, ◌∷◌, ◌≡◌,
  if◌then◌else◌, Option, subst, sym, ap, arith, err, inr, inl, true, some, none,
}
use mathlib.Core.List.{Memᴰ}
use mathlib.Core.List.Memᴰ
use p2pos.Membership
use p2pos.Membership.{current_snapshot, Manager, Snapshot, apply}
use p2pos.Network.Push.{membership_snapshot, sync_answers, sync_membership}
use p2pos.Network.Push.Newer.{apply-le, apply-stored}

split_answers :
    (a : Time × Option Snapshot) (answers : List (Time × Option Snapshot))
    → Memᴰ a answers
    → (earlier : List (Time × Option Snapshot)) × (later_on : List (Time × Option Snapshot))
      × (answers ≡ earlier ++ a ∷ later_on)
split_answers a [] h = absurd (Memᴰ.not-nil h)
split_answers a (x ∷ xs) h = elim (Memᴰ.cases_cons h) [
  | inl e ↦ ([], xs, ap (λ y. y ∷ xs) (sym e))
  | inr t ↦
      let (earlier, later_on, e) = split_answers a xs t in
      (x ∷ earlier, later_on, ap (λ ys. x ∷ ys) e)
]

module _ (env : Env) where
  -- What a node sends is its snapshot.
  pub pulled-membership :
      (n : Node env) (m : Manager env)
      → n.membership ≡ some m
      → pulled env true true n ≡ some m.snapshot
  unfolding pulled fetch_membership_snapshot membership_response membership_snapshot
      current_snapshot
  pulled-membership n m h =
      simp (pulled, fetch_membership_snapshot, membership_response, membership_snapshot, h)

  -- The manager `m` of the node `n` gets `s` among the answers, and refuses it when its turn comes.
  abbrev pub IsRefused : Node env → List (Time × Option Snapshot) → Manager env → Snapshot → Type 0
  IsRefused n answers m s =
      (earlier : List (Time × Option Snapshot)) × (later_on : List (Time × Option Snapshot))
      × (now : Time) × (error : Membership.Error) × (answers ≡ earlier ++ (now, some s) ∷ later_on)
      × ((apply env (sync_answers env n earlier m).0 now s).1 ≡ err error)

  -- What has become of a pulled snapshot: it is not signed, it was refused, or the manager `last` is
  -- at least as new.
  abbrev pub IsPulled :
      Node env → List (Time × Option Snapshot) → Manager env → Snapshot → Manager env → Type 0
  IsPulled n answers m s last =
      ((is_blank s.sig || is_blank s.issuer_peer_id) ≡ true)
      ⊎ (IsRefused n answers m s ⊎ (s.issued_at ≤ last.snapshot.issued_at))

  -- The manager behind one answer.
  abbrev after_answer : Time → Snapshot → Manager env → Manager env
  after_answer now s m =
      if is_blank s.sig || is_blank s.issuer_peer_id then m else (apply env m now s).0

  after_answer-le :
      (now : Time) (s : Snapshot) (m : Manager env)
      → m.snapshot.issued_at ≤ (after_answer now s m).snapshot.issued_at
  after_answer-le now s m = elim (Bool-cases (is_blank s.sig || is_blank s.issuer_peer_id)) [
    | inl skips ↦ rw skips (omega arith)
    | inr takes ↦ rw takes (apply-le env m now s)
  ]

  sync_answers-le :
      (n : Node env) (answers : List (Time × Option Snapshot)) (m : Manager env)
      → m.snapshot.issued_at ≤ (sync_answers env n answers m).0.snapshot.issued_at
  unfolding sync_answers
  sync_answers-le n [] m = omega arith
  sync_answers-le n ((now, none) ∷ rest) m = sync_answers-le n rest m
  sync_answers-le n ((now, some s) ∷ rest) m =
      omega (arith, after_answer-le now s m, sync_answers-le n rest (after_answer now s m))

  sync_answers-append :
      (n : Node env) (xs ys : List (Time × Option Snapshot)) (m : Manager env)
      → (sync_answers env n (xs ++ ys) m).0 ≡ (sync_answers env n ys (sync_answers env n xs m).0).0
  unfolding sync_answers
  sync_answers-append n [] ys m = refl
  sync_answers-append n ((now, none) ∷ xs) ys m = sync_answers-append n xs ys m
  sync_answers-append n ((now, some s) ∷ xs) ys m =
      sync_answers-append n xs ys (after_answer now s m)

  sync_answers-cons :
      (n : Node env) (now : Time) (s : Snapshot) (rest : List (Time × Option Snapshot))
      (m : Manager env)
      → (sync_answers env n ((now, some s) ∷ rest) m).0
        ≡ (sync_answers env n rest (after_answer now s m)).0
  unfolding sync_answers
  sync_answers-cons n now s rest m = refl

  sync_answers-IsPulled :
      (n : Node env) (now : Time) (answers : List (Time × Option Snapshot)) (m : Manager env)
      (s : Snapshot)
      → Memᴰ (now, some s) answers
      → IsPulled n answers m s (sync_answers env n answers m).0
  sync_answers-IsPulled n now answers m s h =
      let (earlier, later_on, e) = split_answers (now, some s) answers h in
      let reached = (sync_answers env n earlier m).0 in
      elim (Bool-cases (is_blank s.sig || is_blank s.issuer_peer_id)) [
        | inl skips ↦ inl skips
        | inr takes ↦ elim (Result-cases (apply env reached now s).1) [
          | inr (error, bad) ↦ inr (inl (earlier, later_on, now, error, e, bad))
          | inl (_, fine) ↦
              let met : after_answer now s reached ≡ (apply env reached now s).0 = rw takes refl in
              let run_on =
                ap (λ x. (sync_answers env n x m).0) e
                ∙ sync_answers-append n earlier ((now, some s) ∷ later_on) m
                ∙ sync_answers-cons n now s later_on reached in
              inr (
                inr (
                  omega (
                    arith,
                    apply-stored env reached now s fine,
                    ap (λ x. x.snapshot.issued_at) met,
                    sync_answers-le n later_on (after_answer now s reached),
                    ap (λ x. x.snapshot.issued_at) run_on,
                  )))
        ]
      ]

  -- A peer that SyncMembership asks: its node, what comes of the fetch, and the time of the answer.
  pub record Asked : Type 0 where
    pub peer : Node env
    pub opens : Bool
    pub decodes : Bool
    pub at : Time

  abbrev pub answer_of : Asked → Time × Option Snapshot
  answer_of p = (p.at, pulled env p.opens p.decodes p.peer)

  answer_of-membership :
      (p : Asked) (q : Manager env)
      → p.opens ≡ true
      → p.decodes ≡ true
      → p.peer.membership ≡ some q
      → answer_of p ≡ (p.at, some q.snapshot)
  answer_of-membership p q opened decoded has =
      rw (opened, decoded) (ap (λ x. (p.at, x)) (pulled-membership p.peer q has))

  Mem-answers : (p : Asked) (xs : List Asked) → Memᴰ p xs → Memᴰ (answer_of p) (map answer_of xs)
  Mem-answers p [] k = absurd (Memᴰ.not-nil k)
  Mem-answers p (x ∷ xs) k = elim (Memᴰ.cases_cons k) [
    | inl e ↦ Memᴰ.head (ap answer_of e)
    | inr t ↦ Memᴰ.tail (Mem-answers p xs t)
  ]

  -- SyncMembership never makes a node's member list older, whatever fetches fail. Behind it the list
  -- is at least as new as that of every node that was asked, has one, and whose answer came through,
  -- unless its snapshot is not signed or was refused; a node whose stream did not open or whose
  -- answer was not decoded may have a newer one. The runtime state is the one of the new list.
  pub sync_membership-IsPulled :
      (peers : Peers) (asked : List Asked) (n : Node env) (m : Manager env)
      → n.membership ≡ some m
      → (last : Manager env) × ((sync_membership env peers (map answer_of asked) n).0.membership
          ≡ some last)
        × (m.snapshot.issued_at ≤ last.snapshot.issued_at)
        × ((sync_membership env peers (map answer_of asked) n).0.state
            ≡ runtime_state env n.local_id (some last) peers)
        × ((p : Asked) (q : Manager env)
            → Memᴰ p asked
            → p.opens ≡ true
            → p.decodes ≡ true
            → p.peer.membership ≡ some q
            → IsPulled n (map answer_of asked) m q.snapshot last)
  unfolding sync_membership evaluate_runtime_state
  sync_membership-IsPulled peers asked n m h =
      let answers = map answer_of asked in
      (
        (sync_answers env n answers m).0,
        simp (sync_membership, evaluate_runtime_state, h),
        sync_answers-le n answers m,
        simp (sync_membership, evaluate_runtime_state, h),
        λ p q asked_it opened decoded has. sync_answers-IsPulled n p.at answers m q.snapshot (
            subst (λ x. Memᴰ x answers) (answer_of-membership p q opened decoded has)
              (Mem-answers p asked asked_it)),
      )
