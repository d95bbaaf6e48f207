-- ===== src/Update/Download/Replacing.antt =====
-- A download replaces the binary only as a whole.

use mathlib.Core.List.{append_assoc, append-nil}
use p2pos.Common.{
  eq_of_==, ◌==◌, ◌&&◌, not, err, false, some, Result-cases, Bool-cases, [], ◌⊎◌, ◌∙◌, ◌++◌, ◌∷◌,
  ◌≡◌, Option, List, ℕ, sym, ap, arith, ok, refl, inr, inl, true, none,
}
use p2pos.Update.Download.{
  no_copy, replace_binary, DownloadError, download_binary, Response, read_failed, rename_failed,
  create_failed, bad_status, chmod_failed, get_failed, Binary, Disk, Copy, Os, remove_tmp,
  write_chunk, copy_body, Bytes,
}

-- The body, chunk after chunk.
unfoldable pub flatten : List Bytes → Bytes
flatten [] = []
flatten (chunk ∷ rest) = chunk ++ flatten rest

write_chunk-content :
    (os : Os) (total : ℕ) (chunk : Bytes) (c : Copy)
    → (write_chunk os total chunk c).1 ≡ ok tt
    → (write_chunk os total chunk c).0.content ≡ c.content ++ chunk
unfolding write_chunk
write_chunk-content os total [] c h = sym (append-nil c.content)
write_chunk-content os total (b ∷ bs) c h = ground arith

pub copy_body-content :
    (os : Os) (total : ℕ) (chunks : List Bytes) (c : Copy)
    → (copy_body os total chunks c).1 ≡ ok tt
    → (copy_body os total chunks c).0.content ≡ c.content ++ flatten chunks
unfolding copy_body flatten
copy_body-content os total [] c h = sym (append-nil c.content)
copy_body-content os total (chunk ∷ rest) c h =
    elim (Result-cases (write_chunk os total chunk c).1) [
      | inr (e, failed) ↦ absurd (cc (simp (copy_body, failed) at h))
      | inl (_, fine) ↦
          let next = (write_chunk os total chunk c).0 in
          let step : copy_body os total (chunk ∷ rest) c ≡ copy_body os total rest next =
            simp (copy_body, fine) in
          ap (λ x. x.0.content) step
          ∙ copy_body-content os total rest next (ap (λ x. x.1) (sym step) ∙ h)
          ∙ ap (λ xs. xs ++ flatten rest) (write_chunk-content os total chunk c fine)
          ∙ append_assoc c.content chunk (flatten rest)
    ]

-- The files after an error: the target is what it was, and of the temporary file nothing new is
-- left, unless it could not be removed.
pub record IsUntouched (os : Os) (before after_error : Disk) : Type 0 where
  pub target : after_error.target ≡ before.target
  pub tmp : os.removes ≡ true → (after_error.tmp ≡ none) ⊎ (after_error.tmp ≡ before.tmp)

remove_tmp-IsUntouched :
    (os : Os) (d : Disk) (written : Option Binary)
    → IsUntouched os d (remove_tmp os (record d { tmp = written }))
unfolding remove_tmp
remove_tmp-IsUntouched os d written = elim (Bool-cases os.removes) [
  | inl h ↦ simp (remove_tmp, h) (record { target = refl; tmp = λ _. inl refl })
  | inr h ↦ simp (remove_tmp, h) (record { target = refl; tmp = λ k. absurd (cc) })
]

abbrev installed : Os → Bytes → Disk
installed os content = record {
  target = some (record { content = content; executable = not os.windows });
  tmp = none;
}

replace_binary_outcomes :
    (os : Os) (content : Bytes) (d : Disk) (written : Option Binary)
    → ((e : DownloadError) × ((replace_binary os content (record d { tmp = written })).1 ≡ err e)
        × IsUntouched os d (replace_binary os content (record d { tmp = written })).0)
      ⊎ (replace_binary os content (record d { tmp = written }) ≡ (installed os content, ok tt))
unfolding replace_binary
replace_binary_outcomes os content d written = elim (Bool-cases (not os.windows && not os.chmods)) [
  | inl bad ↦
      simp (replace_binary, bad) (inl (chmod_failed, refl, remove_tmp-IsUntouched os d written))
  | inr fine ↦ elim (Bool-cases os.renames) [
    | inl renamed ↦ simp (replace_binary, fine, renamed) (inr refl)
    | inr kept ↦
        simp (replace_binary, fine, kept)
          (inl (
            rename_failed,
            refl,
            remove_tmp-IsUntouched os d
                (some (record { content = content; executable = not os.windows })),
          ))
  ]
]

-- What a download that succeeds has been checked for.
pub record IsReplaced (os : Os) (r : Response) (d : Disk) : Type 0 where
  pub status : r.status ≡ 200
  pub complete : r.ends_well ≡ true
  pub disk : d ≡ installed os (flatten r.chunks)

unchanged : (os : Os) (d : Disk) → IsUntouched os d d
unchanged os d = record { target = refl; tmp = λ _. inr refl }

-- A download either fails, and then the target is untouched and the temporary file is gone or
-- what it was, unless it could not be removed; or it got a whole body with status 200, and then
-- the target holds exactly the chunks of that body, executable except on Windows, and there is no
-- temporary file.
pub download_binary_outcomes :
    (os : Os) (answer : Option Response) (d : Disk)
    → ((e : DownloadError) × ((download_binary os answer d).1 ≡ err e)
        × IsUntouched os d (download_binary os answer d).0.0)
      ⊎ ((r : Response) × (answer ≡ some r)
          × ((download_binary os answer d).1 ≡ ok tt)
          × IsReplaced os r (download_binary os answer d).0.0)
unfolding download_binary
download_binary_outcomes os none d = inl (get_failed, refl, unchanged os d)
download_binary_outcomes os (some r) d = elim (Bool-cases (r.status == 200)) [
  | inr bad ↦ simp (download_binary, bad) (inl (bad_status, refl, unchanged os d))
  | inl good ↦ elim (Bool-cases os.creates) [
    | inr denied ↦ simp (download_binary, good, denied) (inl (create_failed, refl, unchanged os d))
    | inl created ↦
        let c = (copy_body os r.content_length r.chunks no_copy).0 in
        let written : Option Binary = some (record { content = c.content; executable = false }) in
        elim (Result-cases (copy_body os r.content_length r.chunks no_copy).1) [
          | inr (e, failed) ↦
              simp (download_binary, good, created, failed)
                (inl (e, refl, remove_tmp-IsUntouched os d written))
          | inl (_, copied) ↦ elim (Bool-cases r.ends_well) [
            | inr broken ↦
                simp (download_binary, good, created, copied, broken)
                  (inl (read_failed, refl, remove_tmp-IsUntouched os d written))
            | inl whole ↦
                let content = copy_body-content os r.content_length r.chunks no_copy copied in
                elim (replace_binary_outcomes os c.content d written) [
                  | inl (e, failed, kept) ↦
                      simp (download_binary, good, created, copied, whole) (inl (e, failed, kept))
                  | inr finished ↦
                      simp (download_binary, good, created, copied, whole)
                        (inr (
                          r,
                          refl,
                          ap (λ x. x.1) finished,
                          record {
                            status = eq_of_== r.status 200 good;
                            complete = whole;
                            disk = ap (λ x. x.0) finished ∙ ap (installed os) content;
                          },
                        ))
                ]
          ]
        ]
  ]
]
