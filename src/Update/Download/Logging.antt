-- ===== src/Update/Download/Logging.antt =====
-- The progress that a download logs: every twentieth of a known size once, and of an unknown size
-- no more than one line for every 5 MiB.
use p2pos.Common.{
  Result, Option-cases, Result-cases, length-append, length, ok, ap₂, lt→ltb, Bool-cases, [], ◌<◌,
  ◌≤◌, ◌/◌, ◌*◌, ◌+◌, ◌&&◌, ◌∙◌, ◌++◌, ◌∷◌, ◌≡◌, List, ℕ, ap, arith, leb, refl, inr, inl, suc, zero,
}
use p2pos.Update.Download.{
  DownloadError, Os, copy_body, write_chunk, unknown_step, Copy, bytes_logged, Progress,
  note_progress, Log, log_percents, percent_logged, Bytes,
}

-- The lines for k percentages from n on, in steps of 5.
unfoldable pub percents_from : ℕ → ℕ → List Log
percents_from n zero = []
percents_from n (suc k) = percent_logged n ∷ percents_from (n + 5) k

percents_from-concat :
    (n k : ℕ) → percents_from n k ++ percent_logged (n + 5 * k) ∷ [] ≡ percents_from n (suc k)
unfolding percents_from
percents_from-concat n zero = ap (λ x. percent_logged x ∷ []) (omega arith)
percents_from-concat n (suc k) =
    ap (λ rest. percent_logged n ∷ rest)
      (ap (λ x. percents_from (n + 5) k ++ percent_logged x ∷ []) (omega arith)
        ∙ percents_from-concat (n + 5) k)

-- k lines have been written, and the next one is due at 5 * (k + 1) percent.
pub record IsAt (k : ℕ) (p : Progress) : Type 0 where
  pub next : p.next_percent ≡ 5 + 5 * k
  pub lines : p.logs ≡ percents_from 5 k
  pub few : k ≤ 20

-- Twenty turns are enough for the loop to come to its end, wherever it begins.
log_percents-IsAt :
    (fuel percent k : ℕ) (p : Progress)
    → IsAt k p
    → 20 ≤ k + fuel
    → (k' : ℕ) × IsAt k' (log_percents fuel percent p)
      × ((k' < 20) → percent < 5 + 5 * k')
      × ((log_percents fuel percent p).downloaded ≡ p.downloaded)
unfolding log_percents
log_percents-IsAt zero percent k p at enough = (k, at, (λ below. absurd (omega arith)), refl)
log_percents-IsAt (suc fuel) percent k p at enough =
    elim (Bool-cases (leb p.next_percent percent && leb p.next_percent 100)) [
      | inl due ↦ rw due (
          log_percents-IsAt fuel percent (suc k)
            (record p {
              next_percent = p.next_percent + 5;
              logs = p.logs ++ percent_logged p.next_percent ∷ [];
            })
            (record {
              next = omega (arith, at.next);
              lines =
                  ap₂ (λ ls n. ls ++ percent_logged n ∷ []) at.lines at.next
                  ∙ percents_from-concat 5 k;
              few = ground (arith, at.next);
            })
            (omega arith))
      | inr over ↦ rw over (k, at, (λ below. ground (arith, at.next)), refl)
    ]

note_progress-IsAt :
    (total n k : ℕ) (p : Progress)
    → 0 < total
    → IsAt k p
    → (k' : ℕ) × IsAt k' (note_progress total n p)
      × ((k' < 20) → (p.downloaded + n) * 100 / total < 5 + 5 * k')
      × ((note_progress total n p).downloaded ≡ p.downloaded + n)
unfolding note_progress
note_progress-IsAt total n k p known at = rw (lt→ltb 0 total known) (
    log_percents-IsAt 20 ((p.downloaded + n) * 100 / total) k
      (record p { downloaded = p.downloaded + n })
      (record { next = at.next; lines = at.lines; few = at.few }) (omega arith))

-- What is known of a copy whose writes have all gone through.
pub record IsTold (total k : ℕ) (c : Copy) : Type 0 where
  pub due : (k < 20) → c.progress.downloaded * 100 / total < 5 + 5 * k
  pub counted : c.progress.downloaded ≡ length c.content

write_chunk-IsAt :
    (os : Os) (total k : ℕ) (chunk : Bytes) (c : Copy)
    → 0 < total
    → IsAt k c.progress
    → IsTold total k c
    → (k' : ℕ) × IsAt k' (write_chunk os total chunk c).0.progress
      × ((write_chunk os total chunk c).1 ≡ ok tt
          → IsTold total k' (write_chunk os total chunk c).0)
unfolding write_chunk
write_chunk-IsAt os total k [] c known at told = (k, at, λ _. told)
write_chunk-IsAt os total k (b ∷ bs) c known at told =
    elim (Option-cases (os.short_write c.writes)) [
      | inr (n, short) ↦ rw short (k, at, λ h. absurd (cc))
      | inl whole ↦
          let (k', at', due, more) =
            note_progress-IsAt total (length (b ∷ bs)) k c.progress known at in
          rw whole (
            k',
            at',
            λ _. record {
              due = λ below. rw more (due below);
              counted = more ∙ omega (arith, told.counted, length-append c.content (b ∷ bs));
            },
          )
    ]

pub copy_body-IsAt :
    (os : Os) (total k : ℕ) (chunks : List Bytes) (c : Copy)
    → 0 < total
    → IsAt k c.progress
    → IsTold total k c
    → (k' : ℕ) × IsAt k' (copy_body os total chunks c).0.progress
      × ((copy_body os total chunks c).1 ≡ ok tt → IsTold total k' (copy_body os total chunks c).0)
unfolding copy_body
copy_body-IsAt os total k [] c known at told = (k, at, λ _. told)
copy_body-IsAt os total k (chunk ∷ rest) c known at told =
    let (k', at', then_told) = write_chunk-IsAt os total k chunk c known at told in
    elim (Result-cases (write_chunk os total chunk c).1) [
      | inl (_, fine) ↦
          rw (copy_body, fine)
            (copy_body-IsAt os total k' rest (write_chunk os total chunk c).0 known at'
              (then_told fine))
      | inr (e, failed) ↦ rw (copy_body, failed) (k', at', λ h. absurd (cc))
    ]

-- The same for a size that is not known.
pub record IsSparse (p : Progress) : Type 0 where
  pub next : p.next_unknown ≡ unknown_step * (length p.logs + 1)
  pub few : length p.logs * unknown_step ≤ p.downloaded

note_progress-IsSparse :
    (n : ℕ) (p : Progress)
    → IsSparse p
    → IsSparse (note_progress 0 n p) × ((note_progress 0 n p).downloaded ≡ p.downloaded + n)
unfolding note_progress
note_progress-IsSparse n p s = elim (Bool-cases (leb p.next_unknown (p.downloaded + n))) [
  | inl due ↦ rw due (
    record {
      next = omega (arith, s.next, length-append p.logs (bytes_logged (p.downloaded + n) ∷ []));
      few =
          ground
            (arith, s.next, s.few, length-append p.logs (bytes_logged (p.downloaded + n) ∷ []));
    },
    refl,
  )
  | inr early ↦ rw early (record { next = s.next; few = omega (arith, s.few) }, refl)
]

-- Sparse lines, and a count that is right unless a write has failed.
abbrev pub IsSparseCopy : Copy × Result DownloadError (Unit {0}) → Type 0
IsSparseCopy (c, result) =
    IsSparse c.progress × (result ≡ ok tt → c.progress.downloaded ≡ length c.content)

write_chunk-IsSparse :
    (os : Os) (chunk : Bytes) (c : Copy)
    → IsSparseCopy (c, ok tt)
    → IsSparseCopy (write_chunk os 0 chunk c)
unfolding write_chunk
write_chunk-IsSparse os [] c s = s
write_chunk-IsSparse os (b ∷ bs) c s = elim (Option-cases (os.short_write c.writes)) [
  | inr (n, short) ↦ rw short (s.0, λ h. absurd (cc))
  | inl whole ↦
      let (sparse, more) = note_progress-IsSparse (length (b ∷ bs)) c.progress s.0 in
      rw whole (sparse, λ _. more ∙ omega (arith, s.1 refl, length-append c.content (b ∷ bs)))
]

pub copy_body-IsSparse :
    (os : Os) (chunks : List Bytes) (c : Copy)
    → IsSparseCopy (c, ok tt)
    → IsSparseCopy (copy_body os 0 chunks c)
unfolding copy_body
copy_body-IsSparse os [] c s = s
copy_body-IsSparse os (chunk ∷ rest) c s =
    let (sparse, counted) = write_chunk-IsSparse os chunk c s in
    elim (Result-cases (write_chunk os 0 chunk c).1) [
      | inl (_, fine) ↦
          rw (copy_body, fine)
            (copy_body-IsSparse os rest (write_chunk os 0 chunk c).0 (sparse, λ _. counted fine))
      | inr (e, failed) ↦ rw (copy_body, failed) (sparse, λ h. absurd (cc))
    ]
