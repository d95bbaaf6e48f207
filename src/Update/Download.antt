-- ===== src/Update/Download.antt =====
-- internal/update/update.go: DownloadBinary, on the two files that it touches.
pub mod Logging
pub mod Replacing
pub mod Bounds
use p2pos.Common.{
  [], ◌==◌, ◌/◌, ◌*◌, ◌+◌, ◌&&◌, ◌++◌, ◌∷◌, if◌then◌else◌, Result, Bool, Option, List, ℕ, not, leb,
  ltb, is_empty, length, err, ok, false, some, none, suc, zero,
}

abbrev pub Bytes : Type 0
Bytes = List ℕ

pub record Binary : Type 0 where
  pub content : Bytes
  pub executable : Bool

-- targetPath and targetPath + ".tmp"
pub record Disk : Type 0 where
  pub target : Option Binary
  pub tmp : Option Binary

-- What the operating system does: whether os.Create, os.Chmod, os.Rename and os.Remove succeed, and
-- for each f.Write by its number how many bytes get through before it fails, if it fails.
pub record Os : Type 0 where
  pub windows : Bool
  pub creates : Bool
  pub short_write : ℕ → Option ℕ
  pub chmods : Bool
  pub renames : Bool
  pub removes : Bool

-- The answer to http.Get. The body is what each Read returns, up to the one that returns an error,
-- whose bytes are used too; `ends_well` says that this error is io.EOF. A length that is unknown
-- is 0, since the code tests only `totalSize > 0`.
pub record Response : Type 0 where
  pub status : ℕ
  pub content_length : ℕ
  pub chunks : List Bytes
  pub ends_well : Bool

pub data DownloadError : Type 0 where
  get_failed bad_status create_failed write_failed read_failed chmod_failed rename_failed :
      DownloadError

pub data Log : Type 0 where
  percent_logged : ℕ → Log
  bytes_logged : ℕ → Log

-- An int64 holds the numbers of bytes here, and a hundred times them below 64 PiB.
pub record Progress : Type 0 where
  pub downloaded : ℕ
  pub next_percent : ℕ
  pub next_unknown : ℕ
  pub logs : List Log

abbrev pub unknown_step : ℕ
unknown_step = 5 * 1024 * 1024

abbrev pub no_progress : Progress
no_progress = record { downloaded = 0; next_percent = 5; next_unknown = unknown_step; logs = [] }

-- `for percent >= nextPercent && nextPercent <= 100`, with fuel for the turns
unfoldable pub log_percents : ℕ → ℕ → Progress → Progress
log_percents zero percent p = p
log_percents (suc fuel) percent p =
    let rest = log_percents fuel percent (record p {
      next_percent = p.next_percent + 5;
      logs = p.logs ++ percent_logged p.next_percent ∷ [];
    }) in
    if leb p.next_percent percent && leb p.next_percent 100 then rest else p

-- The part of the loop behind f.Write, for a chunk of n bytes.
unfoldable pub note_progress : ℕ → ℕ → Progress → Progress
note_progress total n given =
    let p = record given { downloaded = given.downloaded + n } in
    if ltb 0 total
    then log_percents 20 (p.downloaded * 100 / total) p
    else if leb p.next_unknown p.downloaded
    then record p {
      next_unknown = p.next_unknown + unknown_step;
      logs = p.logs ++ bytes_logged p.downloaded ∷ [];
    }
    else p

-- The temporary file while it is written, and how often it was.
pub record Copy : Type 0 where
  pub content : Bytes
  pub writes : ℕ
  pub progress : Progress

abbrev pub no_copy : Copy
no_copy = record { content = []; writes = 0; progress = no_progress }

unfoldable pub take : ℕ → Bytes → Bytes
take zero xs = []
take (suc n) [] = []
take (suc n) (x ∷ xs) = x ∷ take n xs

unfoldable pub write_chunk : Os → ℕ → Bytes → Copy → Copy × Result DownloadError (Unit {0})
write_chunk os total chunk c =
    if is_empty chunk then (c, ok tt) else elim (os.short_write c.writes) [
      | some n ↦ (record c { content = c.content ++ take n chunk }, err write_failed)
      | none ↦ (
        record {
          content = c.content ++ chunk;
          writes = c.writes + 1;
          progress = note_progress total (length chunk) c.progress;
        },
        ok tt,
      )
    ]

unfoldable pub copy_body : Os → ℕ → List Bytes → Copy → Copy × Result DownloadError (Unit {0})
copy_body os total [] c = (c, ok tt)
copy_body os total (chunk ∷ rest) c =
    let (next, result) = write_chunk os total chunk c in
    elim result [ err e ↦ (next, err e) | ok _ ↦ copy_body os total rest next ]

-- os.Remove(tmpFile)
unfoldable pub remove_tmp : Os → Disk → Disk
remove_tmp os d = if os.removes then record d { tmp = none } else d

-- os.Chmod and os.Rename, on the finished temporary file
unfoldable pub replace_binary : Os → Bytes → Disk → Disk × Result DownloadError (Unit {0})
replace_binary os content d =
    if not os.windows && not os.chmods
    then (remove_tmp os d, err chmod_failed)
    else let marked = record d {
      tmp = some (record { content = content; executable = not os.windows });
    } in
      if os.renames
      then (record { target = marked.tmp; tmp = none }, ok tt)
      else (remove_tmp os marked, err rename_failed)

-- The disk, what was logged, and the error.
unfoldable pub download_binary :
    Os → Option Response → Disk → (Disk × List Log) × Result DownloadError (Unit {0})
download_binary os none d = ((d, []), err get_failed)
download_binary os (some r) d =
    if not (r.status == 200)
    then ((d, []), err bad_status)
    else if not os.creates
    then ((d, []), err create_failed)
    else let (c, copied) = copy_body os r.content_length r.chunks no_copy in
      let written = record d { tmp = some (record { content = c.content; executable = false }) } in
      elim copied [
        | err e ↦ ((remove_tmp os written, c.progress.logs), err e)
        | ok _ ↦
            if not r.ends_well
            then ((remove_tmp os written, c.progress.logs), err read_failed)
            else let (last, result) = replace_binary os c.content written in
              ((last, c.progress.logs), result)
      ]
