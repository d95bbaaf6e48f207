-- ===== src/App/Setup/Restart.antt =====
-- A node that stops and starts again has the members of the last snapshot that it wrote.
use p2pos.App.Setup.Stored.{list_member_ids-on_applied}
use p2pos.Membership.Members.{normalize_members_idem}
use p2pos.Text.Sorted.{contains-add_all}
use p2pos.Database.{sync_members, list_member_ids, Table, Faults}
use p2pos.Network.Node.{
  set_membership_applied_handler, Node, evaluate_runtime_state, Peers, set_membership_manager,
}
use p2pos.App.Setup.{on_applied, with_proof, checked_proof, setup_membership}
use p2pos.Membership.{
  Snapshot, normalize_members, AdminProof, is_member, Manager, validate_admin_proof,
  load_system_key, new_manager, initial_manager,
}
use p2pos.Env.{Env}
use p2pos.Time.{Time}
use p2pos.Text.{codes, contains, trim_space, is_blank, Text}
use p2pos.Common.{
  Result-cases, [], ◌∙◌, ◌≡◌, if◌then◌else◌, Option, List, sym, ap, ok, refl, inr, inl, false, some,
}
use p2pos.Config.{copy_config, Store, get}

module _ (env : Env) where
  abbrev cluster_name : Text → Text
  cluster_name c = if is_blank (trim_space c) then codes "default" else trim_space c

  new_manager_parts :
      (cluster key local : Text) (names : List Text) (m : Manager env)
      → new_manager env cluster key local names ≡ ok m
      → (k : Option env.PubKey) × (load_system_key env key ≡ ok k)
        × (m ≡ initial_manager env (cluster_name cluster) local k (normalize_members names))
  unfolding new_manager
  new_manager_parts cluster key local names m h = elim (Result-cases (load_system_key env key)) [
    | inl (k, loaded) ↦ (k, loaded, cc (rw loaded at h))
    | inr (e, failed) ↦ absurd (cc (rw failed at h))
  ]

  new_manager_of_key :
      (cluster key local : Text) (names : List Text) (k : Option env.PubKey)
      → load_system_key env key ≡ ok k
      → new_manager env cluster key local names
        ≡ ok (initial_manager env (cluster_name cluster) local k (normalize_members names))
  unfolding new_manager
  new_manager_of_key cluster key local names k loaded = rw loaded refl

  -- The members do not matter for the check of the proof.
  checked_proof-members :
      (now : Time) (local cluster id : Text) (s : Store env) (k : Option env.PubKey)
      (xs ys : List Text)
      → checked_proof env now local s (initial_manager env cluster id k xs)
        ≡ checked_proof env now local s (initial_manager env cluster id k ys)
  unfolding checked_proof validate_admin_proof initial_manager
  checked_proof-members now local cluster id s k xs ys = refl

  -- The node that setupMembership leaves.
  abbrev pub ready : Peers → Manager env → Option AdminProof → Node env → Node env
  ready peers m proof n =
      set_membership_manager env peers m
        (set_membership_applied_handler env (with_proof env proof n))

  pub setup_membership_parts :
      (faults : Faults) (now : Time) (peers : Peers) (s : Store env) (t : Table) (n next : Node env)
      → setup_membership env faults now peers s t n ≡ ok next
      → (names : List Text) × (m : Manager env) × (proof : Option AdminProof) × (list_member_ids
            faults t
          ≡ ok names)
        × (new_manager env s.config.cluster_id s.config.system_pub_key n.local_id names ≡ ok m)
        × (checked_proof env now n.local_id s m ≡ ok proof)
        × (next ≡ ready peers m proof n)
  unfolding setup_membership get copy_config
  setup_membership_parts faults now peers s t n next h =
      elim (Result-cases (list_member_ids faults t)) [
        | inr (e, failed) ↦ absurd (cc (rw failed at h))
        | inl (names, listed) ↦
            elim (Result-cases
              (new_manager env s.config.cluster_id s.config.system_pub_key n.local_id names)) [
                | inr (e, failed) ↦ absurd (cc (rw (listed, failed) at h))
                | inl (m, made) ↦ elim (Result-cases (checked_proof env now n.local_id s m)) [
                  | inr (e, failed) ↦ absurd (cc (rw (listed, made, failed) at h))
                  | inl (proof, checked) ↦
                      (names, m, proof, listed, made, checked, cc (rw (listed, made, checked) at h))
                ]
              ]
      ]

  setup_membership_of_parts :
      (faults : Faults) (now : Time) (peers : Peers) (s : Store env) (t : Table) (n : Node env)
      (names : List Text) (m : Manager env) (proof : Option AdminProof)
      → list_member_ids faults t ≡ ok names
      → new_manager env s.config.cluster_id s.config.system_pub_key n.local_id names ≡ ok m
      → checked_proof env now n.local_id s m ≡ ok proof
      → setup_membership env faults now peers s t n ≡ ok (ready peers m proof n)
  unfolding setup_membership get copy_config
  setup_membership_of_parts faults now peers s t n names m proof listed made checked =
      rw (listed, made, checked) refl

  pub ready-membership :
      (peers : Peers) (m : Manager env) (proof : Option AdminProof) (n : Node env)
      → (ready peers m proof n).membership ≡ some m
  unfolding set_membership_manager evaluate_runtime_state
  ready-membership peers m proof n = refl

  initial_manager-members :
      (cluster local : Text) (k : Option env.PubKey) (names : List Text)
      → ((initial_manager env cluster local k names).snapshot.members ≡ names)
        × ((a : Text)
            → is_member env (initial_manager env cluster local k names) a ≡ contains a names)
  unfolding initial_manager is_member
  initial_manager-members cluster local k names = (refl, λ a. contains-add_all a [] names)

  -- If a node starts with some table, and a handler then writes a snapshot with success, a start
  -- on the new table succeeds at the same time, unless the table cannot be read, and its manager has
  -- exactly the members of the snapshot, in normal form.
  pub setup_membership-on_applied :
      (faults writing reading : Faults) (now later_now : Time) (peers : Peers) (s : Store env)
      (t : Table) (n old : Node env) (snapshot : Snapshot)
      → setup_membership env faults now peers s t n ≡ ok old
      → (sync_members writing later_now snapshot.members t).1 ≡ ok tt
      → reading 0 ≡ false
      → (next : Node env) × (m : Manager env) × (setup_membership env reading now peers s
            (on_applied writing later_now snapshot t)
            n
          ≡ ok next)
        × (next.membership ≡ some m)
        × (m.snapshot.members ≡ normalize_members snapshot.members)
        × ((a : Text) → is_member env m a ≡ contains a (normalize_members snapshot.members))
  setup_membership-on_applied faults writing reading now later_now peers s t n old snapshot started
        written read =
      let (names, m, proof, listed, made, checked, _) =
        setup_membership_parts faults now peers s t n old started in
      let (k, loaded, shape) =
        new_manager_parts s.config.cluster_id s.config.system_pub_key n.local_id names m made in
      let members = normalize_members snapshot.members in
      let cluster = cluster_name s.config.cluster_id in
      let m' = initial_manager env cluster n.local_id k (normalize_members members) in
      let (kept, tested) =
        initial_manager-members cluster n.local_id k (normalize_members members) in
      let normal = normalize_members_idem snapshot.members in
      (
        ready peers m' proof n,
        m',
        setup_membership_of_parts reading now peers s (on_applied writing later_now snapshot t) n
            members m' proof
            (list_member_ids-on_applied writing reading later_now snapshot t written read)
            (new_manager_of_key s.config.cluster_id s.config.system_pub_key n.local_id members k
              loaded)
            (checked_proof-members now n.local_id cluster n.local_id s k (normalize_members members)
                (normalize_members names)
              ∙ ap (checked_proof env now n.local_id s) (sym shape)
              ∙ checked),
        ready-membership peers m' proof n,
        kept ∙ normal,
        λ a. tested a ∙ ap (contains a) normal,
      )
