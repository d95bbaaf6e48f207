-- ===== src/Membership/Convergence.antt =====
-- Replication of snapshots: managers that are given the same valid snapshots, in any order, agree.
use p2pos.Common.{◌≡◌, refl, sym, ap, List, [], ◌∷◌, arith, ◌∙◌, ok}
use p2pos.Time.{Time}
use mathlib.Core.List.{Permᴰ}
use p2pos.Common.{All}
use p2pos.Env.{Env}
use p2pos.Membership.{Snapshot, Manager, check_authority, validate_snapshot, store_newer, apply}
use p2pos.Membership.Applying.{normal}

module _ (env : Env) where
  -- Snapshots arrive, each at its time.
  unfoldable pub deliver : Manager env → List (Time × Snapshot) → Manager env
  deliver m [] = m
  deliver m ((now, s) ∷ rest) = deliver (apply env m now s).0 rest

  -- The snapshot passes the manager's checks at its time.
  abbrev pub IsAccepted : Manager env → Time × Snapshot → Type 0
  IsAccepted m (now, s) = validate_snapshot env m now (normal s) ≡ ok tt

  -- The checks read the manager's cluster and system key alone.
  validate_snapshot-frame :
      (m n : Manager env) (now : Time) (s : Snapshot)
      → n.cluster_id ≡ m.cluster_id
      → n.system_pub ≡ m.system_pub
      → validate_snapshot env n now s ≡ validate_snapshot env m now s
  unfolding validate_snapshot check_authority
  validate_snapshot-frame m n now s p q = rw (p, q) refl

  store_newer-frame :
      (m : Manager env) (s : Snapshot)
      → ((store_newer env m s).cluster_id ≡ m.cluster_id)
        × ((store_newer env m s).system_pub ≡ m.system_pub)
  unfolding store_newer
  store_newer-frame m s = ground arith

  -- Apply never changes the cluster, the system key, or the checks.
  pub apply-frame :
      (m : Manager env) (now : Time) (s : Snapshot)
      → ((apply env m now s).0.cluster_id ≡ m.cluster_id)
        × ((apply env m now s).0.system_pub ≡ m.system_pub)
  unfolding apply
  apply-frame m now s = ground (arith, store_newer-frame m (normal s))

  apply_of_IsAccepted :
      (m : Manager env) (now : Time) (s : Snapshot)
      → IsAccepted m (now, s)
      → (apply env m now s).0 ≡ store_newer env m (normal s)
  unfolding apply
  apply_of_IsAccepted m now s h = rw (apply, h) refl

  IsAccepted-apply :
      (m : Manager env) (now : Time) (s : Snapshot) (d : Time × Snapshot)
      → IsAccepted m d
      → IsAccepted (apply env m now s).0 d
  IsAccepted-apply m now s d h =
      let (p, q) = apply-frame m now s in
      validate_snapshot-frame m (apply env m now s).0 d.0 (normal d.1) p q ∙ h

  -- The newer of two snapshots with different times wins, whichever comes first.
  store_newer_comm :
      (m : Manager env) (s t : Snapshot)
      → (s.issued_at ≡ t.issued_at → s ≡ t)
      → store_newer env (store_newer env m s) t ≡ store_newer env (store_newer env m t) s
  unfolding store_newer
  store_newer_comm m s t h = ground arith

  pub apply_comm :
      (m : Manager env) (d e : Time × Snapshot)
      → IsAccepted m d
      → IsAccepted m e
      → (d.1.issued_at ≡ e.1.issued_at → normal d.1 ≡ normal e.1)
      → (apply env (apply env m d.0 d.1).0 e.0 e.1).0
        ≡ (apply env (apply env m e.0 e.1).0 d.0 d.1).0
  apply_comm m d e hd he h =
      apply_of_IsAccepted (apply env m d.0 d.1).0 e.0 e.1 (IsAccepted-apply m d.0 d.1 e he)
      ∙ ap (λ n. store_newer env n (normal e.1)) (apply_of_IsAccepted m d.0 d.1 hd)
      ∙ store_newer_comm m (normal d.1) (normal e.1) h
      ∙ sym (
          apply_of_IsAccepted (apply env m e.0 e.1).0 d.0 d.1 (IsAccepted-apply m e.0 e.1 d hd)
          ∙ ap (λ n. store_newer env n (normal d.1)) (apply_of_IsAccepted m e.0 e.1 he))

  -- Each delivery is accepted, and bears the one snapshot that was issued at its time.
  abbrev pub AreIssued : Manager env → (Time → Snapshot) → List (Time × Snapshot) → Type 0
  AreIssued m issued = All (λ d. IsAccepted m d × (normal d.1 ≡ issued d.1.issued_at))

  AreIssued-apply :
      (m : Manager env) (now : Time) (s : Snapshot) (issued : Time → Snapshot)
      (ds : List (Time × Snapshot))
      → AreIssued m issued ds
      → AreIssued (apply env m now s).0 issued ds
  AreIssued-apply m now s issued [] h = tt
  AreIssued-apply m now s issued (d ∷ ds) ((ok_d, is_d), rest) =
      ((IsAccepted-apply m now s d ok_d, is_d), AreIssued-apply m now s issued ds rest)

  AreIssued-perm :
      (m : Manager env) (issued : Time → Snapshot) {ds es : List (Time × Snapshot)}
      → Permᴰ ds es
      → AreIssued m issued ds
      → AreIssued m issued es
  AreIssued-perm m issued Permᴰ.nil h = tt
  AreIssued-perm m issued (Permᴰ.cons e p) (x, h) = (rw (← e) x, AreIssued-perm m issued p h)
  AreIssued-perm m issued (Permᴰ.swap e f) (x, (y, h)) = (rw (← f) y, (rw (← e) x, h))
  AreIssued-perm m issued (Permᴰ.trans p q) h =
      AreIssued-perm m issued q (AreIssued-perm m issued p h)

  -- Two managers that start alike and are delivered the same accepted snapshots, in any two
  -- orders, end alike, if no two different snapshots bear one time.
  pub deliver-perm :
      (m : Manager env) (issued : Time → Snapshot) {ds es : List (Time × Snapshot)}
      → Permᴰ ds es
      → AreIssued m issued ds
      → deliver m ds ≡ deliver m es
  unfolding deliver
  deliver-perm m issued Permᴰ.nil h = refl
  deliver-perm m issued (Permᴰ.cons {a = d} {l₁ = ds} e p) (x, h) =
      rw (← e)
        (deliver-perm (apply env m d.0 d.1).0 issued p (AreIssued-apply m d.0 d.1 issued ds h))
  deliver-perm m issued (Permᴰ.swap {a = d} {b = d'} {l = ds} e f) (x, (y, h)) =
      rw (← e, ← f)
        (ap (λ n. deliver n ds) (apply_comm m d d' x.0 y.0 λ same. x.1 ∙ ap issued same ∙ sym y.1))
  deliver-perm m issued (Permᴰ.trans p q) h =
      deliver-perm m issued p h ∙ deliver-perm m issued q (AreIssued-perm m issued p h)
