-- ===== src/Transport/Downloader/Lifecycle.antt =====
-- src/transport/http_downloader.cpp: what holds of a download at every step.
use ferriot.Prelude.{
  ◌||◌, ℕ, zero, suc, leb, ◌+◌, ◌*◌, ◌/◌, ◌%◌, ◌^◌, ◌≤◌, ◌<◌, ◌≡◌, Bool, true, false, not, ◌&&◌,
  List, [], ◌∷◌, ltb, if◌then◌else◌, length, arith, present,
}
use native.Mathlib.Nat.{div-le_of_le-mul, mod-eq_of_lt, mul-le-mul_right}
use ferriot.Transport.Downloader.Progress.{Doubles, DownloadProgress, percent}
use ferriot.Transport.Downloader.{
  Phase, opening, transferring, settling, join, Completion, HttpDownloader, start_download, cancel,
  open_file, write_callback, progress_callback, finish, settle, Event, step, run, started_or, at,
  append, is_waiting, wait_for_completion,
}

-- The flag is set from the start until the transfer is over.
abbrev pub is_active : Phase → Bool
is_active opening = true
is_active transferring = true
is_active _ = false

abbrev pub is_success : List Completion → Bool
is_success [] = false
is_success (completion ∷ completions) = completion.success

abbrev pub is_transferring : Phase → Bool
is_transferring transferring = true
is_transferring (settling transfer) = true
is_transferring _ = false

abbrev is_opening : Phase → Bool
is_opening opening = true
is_opening _ = false

abbrev is_in_transfer : Phase → Bool
is_in_transfer transferring = true
is_in_transfer _ = false

module _ {D : Type 0} (doubles : Doubles D) where
  -- The calls of on_progress know the total, so that percent is a quotient.
  abbrev pub all_measured : List (DownloadProgress D) → Bool
  all_measured [] = true
  all_measured (progress ∷ rest) = ltb 0 progress.total_bytes && all_measured rest

  -- A thread that is started calls on_complete once, at its end; the flag is set while it opens and
  -- transfers, and while a call waits for the thread before, which does neither; there is a file
  -- from the opening to the end, and after a success until the next download is started; on_progress is called with totals that are known; and while it transfers,
  -- the speed that progress() gives is the one that the next average is taken with.
  pub record IsConsistent (d : HttpDownloader D) : Type 0 where
    pub once : d.started ≡ length d.completions + (if is_waiting d.phase then 0 else 1)
    pub flagged : d.downloading ≡ (is_active d.phase || present d.joining)
    pub parted : (is_active d.phase && present d.joining) ≡ false
    pub written : (is_transferring d.phase && not (present d.file)) ≡ false
    pub kept : (is_waiting d.phase && (is_success d.completions && not (present d.file))) ≡ false
    pub measured : all_measured d.progress_calls ≡ true
    pub at_rest : is_opening d.phase ≡ true → d.current_progress.speed_mbps ≡ doubles.of_integer 0
    pub shown : is_in_transfer d.phase ≡ true → d.current_progress.speed_mbps ≡ d.context.last_speed

  step-IsConsistent :
      (event : Event) (d : HttpDownloader D) → IsConsistent d → IsConsistent (step doubles event d)
  unfolding step started_or start_download join cancel at open_file write_callback append
      progress_callback finish settle
  step-IsConsistent event d v = record {
    once = ground (arith, v.once, v.flagged, v.written, v.kept);
    flagged = ground (arith, v.once, v.flagged, v.parted, v.written, v.kept);
    parted = ground (arith, v.flagged, v.parted);
    written = ground (arith, v.once, v.flagged, v.written, v.kept);
    kept = ground (arith, v.once, v.flagged, v.written, v.kept);
    measured = ground (arith, v.measured, v.flagged);
    at_rest = λ h. ground (arith, v.at_rest, v.flagged);
    shown = λ h. ground (arith, v.at_rest, v.shown, v.flagged);
  }

  -- Whatever is called, and however the thread's steps fall between the calls: each thread that has
  -- ended has called on_complete once; a download is in progress exactly while the thread opens the
  -- file or transfers, or a call of start_download waits for the end of the thread before; after a
  -- success the file is there until the next download is started;
  -- on_progress has been called with totals above 0 only; and while the thread transfers, the speed
  -- that progress() gives is the one that the next average is taken with.
  pub run-IsConsistent :
      (events : List Event) (d : HttpDownloader D)
      → IsConsistent d
      → IsConsistent (run doubles events d)
  unfolding run
  run-IsConsistent [] d v = v
  run-IsConsistent (event ∷ events) d v =
      run-IsConsistent events (step doubles event d) (step-IsConsistent event d v)

-- A number of bytes that is at most the total, and that times 100 fits in 64 bits, gives a
-- percentage of at most 100, which is the quotient.
pub percent-le :
    {D : Type 0} (progress : DownloadProgress D)
    → 0 < progress.total_bytes
    → progress.bytes_downloaded ≤ progress.total_bytes
    → progress.bytes_downloaded * 100 < 2 ^ 64
    → (percent progress ≤ 100)
      × (percent progress ≡ progress.bytes_downloaded * 100 / progress.total_bytes)
unfolding percent
percent-le progress some_total le fits =
    let bytes = progress.bytes_downloaded in
    let total = progress.total_bytes in
    let bounded : bytes * 100 / total ≤ 100 = div-le_of_le-mul total (mul-le-mul_right 100 le) in
    let whole : bytes * 100 % 2 ^ 64 ≡ bytes * 100 = mod-eq_of_lt fits in
    let byte : bytes * 100 / total % 2 ^ 8 ≡ bytes * 100 / total = mod-eq_of_lt (omega arith) in
    ground (arith, whole, byte, bounded)

-- Where the time limit has passed by the last round, the wait is over.
wait_for_completion-present :
    (elapsed : ℕ → ℕ) (downloading : ℕ → Bool) (limit rounds i : ℕ)
    → leb limit (elapsed (rounds + i)) ≡ true
    → present (wait_for_completion elapsed downloading limit (suc rounds) i) ≡ true
unfolding wait_for_completion
wait_for_completion-present elapsed downloading limit zero i late = ground arith
wait_for_completion-present elapsed downloading limit (suc rounds) i late =
    let later : leb limit (elapsed (rounds + suc i)) ≡ true = grind arith in
    ground (arith, wait_for_completion-present elapsed downloading limit rounds (suc i) later)
