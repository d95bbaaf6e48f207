-- ===== src/Update/Download/Bounds.antt =====
-- How many lines a download logs.
use p2pos.Update.Download.Replacing.{copy_body-content, flatten}
use p2pos.Update.Download.Logging.{
  copy_body-IsSparse, copy_body-IsAt, IsSparseCopy, IsAt, percents_from, IsTold,
}
use p2pos.Common.{
  length-append, ◌∷◌, List, subst, sym, Result-cases, Bool-cases, [], ◌==◌, ◌⊎◌, ◌≢◌, inr, inl, ◌<◌,
  ◌≤◌, ◌/◌, ◌*◌, ◌-◌, ◌+◌, ◌∙◌, ◌≡◌, ℕ, ap, arith, length, ok, refl, some,
}
use p2pos.Update.Download.{
  Progress, write_chunk, note_progress, Copy, copy_body, unknown_step, Disk, no_progress, Response,
  no_copy, Os, download_binary,
}
use native.Mathlib.Nat.{add-mul-div_left, mul-div_left}

hundred_percent : (d total : ℕ) → 0 < total → total ≤ d → 100 ≤ d * 100 / total
hundred_percent d total known enough =
    let whole : d * 100 ≡ (d - total) * 100 + total * 100 = omega arith in
    omega (arith, ap (λ x. x / total) whole ∙ add-mul-div_left ((d - total) * 100) 100 known)

start-IsAt : IsAt 0 no_progress
unfolding percents_from
start-IsAt = record { next = refl; lines = refl; few = omega arith }

start-IsTold : (total : ℕ) → 0 < total → IsTold total 0 no_copy
start-IsTold total known = record { due = λ _. omega (arith, mul-div_left 0 known); counted = refl }

start-IsSparse : IsSparseCopy (no_copy, ok tt)
start-IsSparse = (record { next = refl; few = omega arith }, λ _. refl)

-- What is logged is what the copy logged, if it came to a copy.
download_binary-copied :
    (os : Os) (r : Response) (d : Disk)
    → (((download_binary os (some r) d).0.1 ≡ []) × ((download_binary os (some r) d).1 ≢ ok tt))
      ⊎ (((download_binary os (some r) d).0.1
            ≡ (copy_body os r.content_length r.chunks no_copy).0.progress.logs)
          × ((download_binary os (some r) d).1 ≡ ok tt
              → (copy_body os r.content_length r.chunks no_copy).1 ≡ ok tt))
unfolding download_binary
download_binary-copied os r d = elim (Bool-cases (r.status == 200)) [
  | inr bad ↦ simp (download_binary, bad) (inl (refl, λ e. cc))
  | inl good ↦ elim (Bool-cases os.creates) [
    | inr denied ↦ simp (download_binary, good, denied) (inl (refl, λ e. cc))
    | inl created ↦ elim (Result-cases (copy_body os r.content_length r.chunks no_copy).1) [
      | inr (e, failed) ↦ simp (download_binary, good, created, failed) (inr (refl, λ h. h))
      | inl (_, copied) ↦ elim (Bool-cases r.ends_well) [
        | inr broken ↦ simp (download_binary, good, created, copied, broken) (inr (refl, λ _. refl))
        | inl whole ↦ simp (download_binary, good, created, copied, whole) (inr (refl, λ _. refl))
      ]
    ]
  ]
]

all_of_due :
    (k : ℕ) (c : Copy) (r : Response)
    → k ≤ 20
    → 0 < r.content_length
    → IsTold r.content_length k c
    → length c.content ≡ length (flatten r.chunks)
    → r.content_length ≤ length (flatten r.chunks)
    → k ≡ 20
all_of_due k c r few known told size enough =
    let full =
      hundred_percent c.progress.downloaded r.content_length known (omega (arith, told.counted)) in
    ground (arith, told.due)

downloaded-note_progress :
    (n : ℕ) (p : Progress) → (note_progress 0 n p).downloaded ≡ p.downloaded + n
unfolding note_progress
downloaded-note_progress n p = ground arith

downloaded-write_chunk :
    (os : Os) (chunk : List ℕ) (c : Copy)
    → (write_chunk os 0 chunk c).0.progress.downloaded ≤ c.progress.downloaded + length chunk
unfolding write_chunk
downloaded-write_chunk os chunk c =
    ground (arith, downloaded-note_progress (length chunk) c.progress)

-- What is counted is never more than the body has, also if a write fails.
downloaded-copy_body :
    (os : Os) (chunks : List (List ℕ)) (c : Copy)
    → (copy_body os 0 chunks c).0.progress.downloaded
      ≤ c.progress.downloaded + length (flatten chunks)
unfolding copy_body flatten
downloaded-copy_body os [] c = omega arith
downloaded-copy_body os (chunk ∷ rest) c =
    let next = (write_chunk os 0 chunk c).0 in
    elim (Result-cases (write_chunk os 0 chunk c).1) [
      | inl (_, fine) ↦
          rw (copy_body, fine)
            (omega (
              arith,
              downloaded-write_chunk os chunk c,
              downloaded-copy_body os rest next,
              length-append chunk (flatten rest),
            ))
      | inr (e, failed) ↦
          rw (copy_body, failed)
            (omega (arith, downloaded-write_chunk os chunk c, length-append chunk (flatten rest)))
    ]

-- A download of a known size logs the percentages 5, 10, 15 and so on in this order, each at most
-- once and none above 100; one that succeeds with no fewer bytes than were announced has logged
-- all the twenty. A download of an unknown size, one that fails too, logs at most one line for every
-- 5 MiB of the body.
pub download_binary-logs :
    (os : Os) (r : Response) (d : Disk)
    → ((0 < r.content_length)
        → (k : ℕ) × (k ≤ 20)
          × ((download_binary os (some r) d).0.1 ≡ percents_from 5 k)
          × ((download_binary os (some r) d).1 ≡ ok tt
              → r.content_length ≤ length (flatten r.chunks)
              → k ≡ 20))
      × ((r.content_length ≡ 0)
          → length (download_binary os (some r) d).0.1 * unknown_step ≤ length (flatten r.chunks))
unfolding percents_from
download_binary-logs os r d = elim (download_binary-copied os r d) [
  | inl (nothing, failed) ↦ (
    λ _. (0, omega arith, nothing, λ h. absurd (failed h)),
    λ _. omega (arith, ap length nothing),
  )
  | inr (logs, copied) ↦ (
    λ known.
        let (k, at, told) =
          copy_body-IsAt os r.content_length 0 r.chunks no_copy known start-IsAt
            (start-IsTold r.content_length known) in
        (
          k,
          at.few,
          logs ∙ at.lines,
          λ h enough.
              all_of_due k (copy_body os r.content_length r.chunks no_copy).0 r at.few known
                (told (copied h))
                (ap length (copy_body-content os r.content_length r.chunks no_copy (copied h)))
                enough,
        ),
    λ unknown.
        let sparse =
          subst (λ n. IsSparseCopy (copy_body os n r.chunks no_copy)) (sym unknown)
            (copy_body-IsSparse os r.chunks no_copy start-IsSparse) in
        let counted =
          subst
            (λ n.
              (copy_body os n r.chunks no_copy).0.progress.downloaded
              ≤ 0 + length (flatten r.chunks))
            (sym unknown) (downloaded-copy_body os r.chunks no_copy) in
        omega (arith, ap length logs, sparse.0.few, counted),
  )
]
