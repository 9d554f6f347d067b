-- ===== src/Transport/Downloader.antt =====
-- include/lwm2m/transport/http_downloader.hpp and src/transport/http_downloader.cpp: a download, as
-- the calls of the application and the steps of the download's thread, one after the other.
--
-- What libcurl, the file system and the clock do comes with the steps. The file is the one at the
-- destination. The application is taken to pass a callback for the completion. A call of
-- start_download that finds no download in progress joins the thread of the one before: it waits for
-- the end of that thread, with downloading_ set, and goes on with a step of its own. The application
-- is taken not to make this call on the thread itself, in on_complete.
pub mod Progress
pub mod Lifecycle
use Prim.Native.String.{String, ◌++◌ as concat}
use ferriot.Prelude.{
  ℕ, zero, suc, ◌+◌, Bool, true, false, not, ◌&&◌, Option, none, some, List, [], ◌∷◌, ◌++◌, leb,
  ltb, if◌then◌else◌, Bytes, is_empty, length,
}
use ferriot.Result.{Result, ok, fail, invalid_state, bad_request}
use ferriot.Transport.Downloader.Progress.{
  Doubles, DownloadProgress, DownloadContext, no_progress, no_context, update_speed,
}

-- What curl_easy_perform and curl_easy_getinfo give; `error_text` is that of curl_easy_strerror, and
-- `http_code_text` the code in decimal.
pub record Transfer : Type 0 where
  pub is_ok : Bool
  pub error_text : String
  pub http_code : ℕ
  pub http_code_text : String
  pub downloaded : ℕ

-- Where the download's thread is. There is none that runs in `no_thread`. In `failing` it could not
-- begin the transfer, and in `settling` the transfer is over; it has cleared downloading_ in both.
pub data Phase : Type 0 where
  no_thread opening transferring : Phase
  failing : String → Phase
  settling : Transfer → Phase

pub record Completion : Type 0 where
  pub success : Bool
  pub error_message : String

pub record HttpDownloader (D : Type 0) : Type 0 where
  pub cancelled : Bool
  pub downloading : Bool
  pub current_progress : DownloadProgress D
  pub phase : Phase
  -- The on_progress of a call of start_download that waits for the thread, if one does.
  pub joining : Option Bool
  -- Of the thread: whether on_progress was passed to it, and its context.
  pub has_on_progress : Bool
  pub context : DownloadContext D
  pub file : Option Bytes
  -- The calls of on_progress and of on_complete, the last one first, and how many threads have been
  -- started.
  pub progress_calls : List (DownloadProgress D)
  pub completions : List Completion
  pub started : ℕ

abbrev pub is_waiting : Phase → Bool
is_waiting no_thread = true
is_waiting _ = false

-- A call, or a step of the thread, with the time where the clock is read.
pub data Event : Type 0 where
  start_call : Bytes → Bool → ℕ → Event
  join_step : ℕ → Event
  cancel_call settle_step : Event
  open_step : String → Bool → Bool → ℕ → Event
  write_step : Bytes → Bool → Event
  progress_step : ℕ → ℕ → ℕ → Event
  finish_step : Transfer → Event

append : Bytes → Option Bytes → Option Bytes
append contents none = none
append contents (some bytes) = some (bytes ++ contents)

module _ {D : Type 0} where
  unfoldable pub cancel : HttpDownloader D → HttpDownloader D
  cancel d = record d { cancelled = true }

  -- The thread ends, with a call of on_complete.
  abbrev pub complete : Bool → String → HttpDownloader D → HttpDownloader D
  complete success error_message d = record d {
    phase = no_thread;
    completions = record { success = success; error_message = error_message } ∷ d.completions;
  }

  -- write_callback: the number of bytes that it takes is 0 where the write fails. A write that fails
  -- is taken to leave the file as it is.
  unfoldable pub write_callback : Bytes → Bool → HttpDownloader D → HttpDownloader D × ℕ
  unfolding append
  write_callback contents is_good d =
      if is_good then (record d { file = append contents d.file }, length contents) else (d, 0)

  -- `// Call user callback if provided`
  abbrev pub report : DownloadProgress D → HttpDownloader D → HttpDownloader D
  report progress d =
      if d.has_on_progress && ltb 0 progress.total_bytes
      then record d { progress_calls = progress ∷ d.progress_calls }
      else d

  -- `// Cleanup`
  unfoldable pub finish : Transfer → HttpDownloader D → HttpDownloader D
  finish transfer d = record d { downloading = false; phase = settling transfer }

  -- `// Handle result`
  unfoldable pub settle : Transfer → HttpDownloader D → HttpDownloader D
  settle transfer d =
      let removed : HttpDownloader D = record d { file = none } in
      if d.cancelled
      then complete false "Download cancelled" removed
      else if not transfer.is_ok
      then complete false (concat "curl error: " transfer.error_text) removed
      else if leb 400 transfer.http_code
      then complete false (concat "HTTP error: " transfer.http_code_text) removed
      else if leb transfer.downloaded 0
      then complete false "Empty download (0 bytes)" removed
      else complete true "" d

  module _ (doubles : Doubles D) where
    -- `// Reset state`, and the thread's start, at the time.
    abbrev pub start_thread : Bool → ℕ → HttpDownloader D → HttpDownloader D
    start_thread on_progress now d = record d {
      cancelled = false;
      current_progress = no_progress doubles now;
      has_on_progress = on_progress;
      phase = opening;
      joining = none;
      started = d.started + 1;
    }

    -- The result is none where the call waits for the thread of the download before.
    unfoldable pub start_download :
        Bytes → Bool → ℕ → HttpDownloader D → HttpDownloader D × Option (Result (Unit {0}))
    start_download url on_progress now d =
        if d.downloading
        then (d, some (fail invalid_state "Download already in progress"))
        else if is_empty url
        then (record d { downloading = false }, some (fail bad_request "URL cannot be empty"))
        else if is_waiting d.phase
        then (start_thread on_progress now (record d { downloading = true }), some (ok tt))
        else (record d { downloading = true; joining = some on_progress }, none)

    started_or : Option Bool → ℕ → HttpDownloader D → HttpDownloader D
    started_or none now d = d
    started_or (some on_progress) now d = start_thread on_progress now d

    -- The end of cleanup_thread in the call that waits, and the rest of that call.
    unfoldable pub join : ℕ → HttpDownloader D → HttpDownloader D
    unfolding started_or
    join now d = if is_waiting d.phase then started_or d.joining now d else d

    -- `// Open output file` and curl_easy_init, each of which may fail, with the thread's start at
    -- the time.
    unfoldable pub open_file : String → Bool → Bool → ℕ → HttpDownloader D → HttpDownloader D
    open_file dest_path is_open has_curl now d₀ =
        let d : HttpDownloader D = record d₀ { context = no_context doubles now } in
        if not is_open
        then record d {
          downloading = false;
          phase = failing (concat "Failed to open output file: " dest_path);
        }
        else if not has_curl
        then record d {
          file = none;
          downloading = false;
          phase = failing "Failed to initialize curl";
        }
        else record d { phase = transferring; file = some [] }

    -- progress_callback: 1 aborts the transfer.
    unfoldable pub progress_callback : ℕ → ℕ → ℕ → HttpDownloader D → HttpDownloader D × ℕ
    progress_callback dltotal dlnow now d =
        if d.cancelled
        then (d, 1)
        else (let ctx = update_speed doubles dlnow now d.context in
            let progress : DownloadProgress D = record {
              bytes_downloaded = dlnow;
              total_bytes = dltotal;
              speed_mbps = ctx.last_speed;
              start_time = d.current_progress.start_time;
            } in
            (report progress (record d { current_progress = progress; context = ctx }), 0))

    at : Phase → Event → HttpDownloader D → HttpDownloader D
    at opening (open_step dest_path is_open has_curl now) d =
        open_file dest_path is_open has_curl now d
    at transferring (write_step contents is_good) d = (write_callback contents is_good d).0
    at transferring (progress_step total bytes now) d = (progress_callback total bytes now d).0
    at transferring (finish_step transfer) d = finish transfer d
    at (failing error_message) settle_step d = complete false error_message d
    at (settling transfer) settle_step d = settle transfer d
    at _ _ d = d

    -- A step that the thread is not at changes nothing.
    unfoldable pub step : Event → HttpDownloader D → HttpDownloader D
    unfolding at
    step (start_call url on_progress now) d = (start_download url on_progress now d).0
    step (join_step now) d = join now d
    step cancel_call d = cancel d
    step event d = at d.phase event d

    unfoldable pub run : List Event → HttpDownloader D → HttpDownloader D
    run [] d = d
    run (event ∷ events) d = run events (step event d)

-- The loop of wait_for_completion, for a number of rounds at most: before round i the time that has
-- passed is `elapsed i`, and `downloading i` is whether a download is in progress.
unfoldable pub wait_for_completion : (ℕ → ℕ) → (ℕ → Bool) → ℕ → ℕ → ℕ → Option Bool
wait_for_completion elapsed downloading limit zero i = none
wait_for_completion elapsed downloading limit (suc rounds) i =
    let rest = wait_for_completion elapsed downloading limit rounds (suc i) in
    if not (downloading i) then some true else if leb limit (elapsed i) then some false else rest
