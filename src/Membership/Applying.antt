-- ===== src/Membership/Applying.antt =====
-- Manager.Apply: what it stores, when it refuses, and what every state of a manager satisfies.
use p2pos.Common.{
  ◌≡◌, refl, not, ◌&&◌, List, [], map, arith, Bool-cases, inl, inr, ◌∙◌, if◌then◌else◌, ok, err,
  Result-cases, ◌<◌, Option, ◌⊎◌,
}
use p2pos.Text.{Text, codes, is_blank, trim_space, contains}
use p2pos.Text.Sorted.{contains-add_all}
use p2pos.Time.{Time, after}
use p2pos.Env.{Env}
use p2pos.Membership.{
  Snapshot, Error, Manager, normalize_members, initial_manager, load_system_key, new_manager,
  is_member, validate_snapshot, store_newer, apply,
}
use p2pos.Membership.Members.{normalize_members_idem, contains-normalize_members}

-- The snapshot as Apply stores it.
abbrev pub normal : Snapshot → Snapshot
normal s = record s { members = normalize_members s.members }

module _ (env : Env) where
  -- Between two calls the set of a manager holds the members of its snapshot, and these are in
  -- normal form.
  pub record IsConsistent (m : Manager env) : Type 0 where
    pub in_normal_form : normalize_members m.snapshot.members ≡ m.snapshot.members
    pub set_is_members : (a : Text) → contains a m.member_set ≡ contains a m.snapshot.members

  initial_manager-IsConsistent :
      (cluster local : Text) (k : Option env.PubKey) (names : List Text)
      → IsConsistent (initial_manager env cluster local k (normalize_members names))
        × ((a : Text)
            → is_member env (initial_manager env cluster local k (normalize_members names)) a
              ≡ (not (is_blank a) && contains a (map trim_space names)))
  unfolding initial_manager is_member
  initial_manager-IsConsistent cluster local k names = (
    record {
      in_normal_form = normalize_members_idem names;
      set_is_members = λ a. contains-add_all a [] (normalize_members names);
    },
    λ a. contains-add_all a [] (normalize_members names) ∙ contains-normalize_members a names,
  )

  -- A new manager is consistent, and its members are the names given, trimmed.
  pub new_manager-IsConsistent :
      (cluster key local : Text) (names : List Text) {m : Manager env}
      → new_manager env cluster key local names ≡ ok m
      → IsConsistent m
        × ((a : Text) → is_member env m a ≡ (not (is_blank a) && contains a (map trim_space names)))
  unfolding new_manager
  new_manager-IsConsistent cluster key local names {m} h =
      elim (Result-cases (load_system_key env key)) [
        | inl (k, loaded) ↦
            let name = trim_space cluster in
            let id = if is_blank name then codes "default" else name in
            let made : initial_manager env id local k (normalize_members names) ≡ m =
              cc (rw (loaded) at h) in
            rw (← made) (initial_manager-IsConsistent id local k names)
        | inr (e, failed) ↦ absurd (cc (rw (failed) at h))
      ]

  pub store_newer-IsConsistent :
      (m : Manager env) (s : Snapshot)
      → normalize_members s.members ≡ s.members
      → IsConsistent m
      → IsConsistent (store_newer env m s)
  unfolding store_newer
  store_newer-IsConsistent m s n c = elim (Bool-cases (after s.issued_at m.snapshot.issued_at)) [
    | inl h ↦
        rw h (record { in_normal_form = n; set_is_members = λ a. contains-add_all a [] s.members })
    | inr h ↦ rw h c
  ]

  -- Apply keeps a manager consistent, whatever snapshot arrives and whenever.
  pub apply-IsConsistent :
      (m : Manager env) (now : Time) (s : Snapshot)
      → IsConsistent m
      → IsConsistent (apply env m now s).0
  unfolding apply
  apply-IsConsistent m now s c = elim (Result-cases (validate_snapshot env m now (normal s))) [
    | inl (_, h) ↦
        rw (apply, h) (store_newer-IsConsistent m (normal s) (normalize_members_idem s.members) c)
    | inr (_, h) ↦ rw (apply, h) c
  ]

  -- Apply changes the manager only if the snapshot is valid and strictly newer; then the snapshot
  -- is stored in normal form. In every other case the manager stays as it is.
  pub apply_outcomes :
      (m : Manager env) (now : Time) (s : Snapshot)
      → (((apply env m now s).0 ≡ m)
          × ((m.snapshot.issued_at < s.issued_at) → (e : Error) × ((apply env m now s).1 ≡ err e)))
        ⊎ (((apply env m now s).0.snapshot ≡ normal s)
            × (m.snapshot.issued_at < s.issued_at)
            × (validate_snapshot env m now (normal s) ≡ ok tt)
            × ((apply env m now s).1 ≡ ok tt))
  unfolding apply store_newer
  apply_outcomes m now s = elim (Result-cases (validate_snapshot env m now (normal s))) [
    | inl (_, h) ↦ rw (apply, h) (ground arith)
    | inr (e, h) ↦ rw (apply, h) (inl (refl, λ _. (e, refl)))
  ]
