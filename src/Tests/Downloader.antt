-- ===== src/Tests/Downloader.antt =====
-- src/transport/http_downloader.cpp on a download that is written, cancelled and started again.
use ferriot.Prelude.{
  ℕ, ◌+◌, ◌-◌, ◌*◌, ◌/◌, ltb, leb, ◌≡◌, refl, true, false, none, List, [], ◌∷◌, codes,
}
use ferriot.Prelude.Int.{pos}
use ferriot.Transport.Downloader.Progress.{Doubles, no_progress, no_context, update_speed}
use ferriot.Transport.Downloader.{
  Transfer, no_thread, HttpDownloader, Event, start_call, cancel_call, settle_step, open_step,
  write_step, progress_step, finish_step, run, step, start_download, join, join_step, cancel,
  open_file, write_callback, progress_callback, finish, settle,
}
use ferriot.Transport.Downloader.Lifecycle.{IsConsistent, run-IsConsistent}

-- Whole numbers in place of doubles.
abbrev doubles : Doubles ℕ
doubles = record {
  of_integer = λ n. n;
  tenths = λ n. n;
  add = ◌+◌;
  sub = ◌-◌;
  mul = ◌*◌;
  div = ◌/◌;
  is_positive = λ x. ltb 0 x;
  is_at_most_zero = λ x. leb x 0;
  truncated = pos;
}

abbrev created : HttpDownloader ℕ
created = record {
  cancelled = false;
  downloading = false;
  current_progress = no_progress doubles 0;
  phase = no_thread;
  joining = none;
  has_on_progress = false;
  context = no_context doubles 0;
  file = none;
  progress_calls = [];
  completions = [];
  started = 0;
}

abbrev transfer : Transfer
transfer = record {
  is_ok = true;
  error_text = "";
  http_code = 200;
  http_code_text = "200";
  downloaded = 2;
}

-- The second download waits for the end of the first, and is cancelled after its transfer, before its
-- end.
abbrev events : List Event
events =
    start_call (codes "http://h/f") true 5
    ∷ open_step "f" true true 6
    ∷ progress_step 0 0 7
    ∷ progress_step 2 2 7
    ∷ write_step (7 ∷ 8 ∷ []) true
    ∷ finish_step transfer
    ∷ start_call (codes "http://h/g") false 9
    ∷ settle_step
    ∷ join_step 10
    ∷ open_step "f" true true 10
    ∷ finish_step transfer
    ∷ cancel_call
    ∷ settle_step
    ∷ []

completed :
    (run doubles events created).completions
    ≡ record { success = false; error_message = "Download cancelled" }
      ∷ record { success = true; error_message = "" }
      ∷ []
unfolding run step start_download join cancel open_file write_callback progress_callback finish
    settle
completed = refl

-- The first call of the progress callback does not know the total.
reported :
    (run doubles events created).progress_calls
    ≡ record { bytes_downloaded = 2; total_bytes = 2; speed_mbps = 0; start_time = 5 } ∷ []
unfolding run step start_download join cancel open_file write_callback progress_callback finish
    settle update_speed
reported = refl

run-IsConsistent_example : IsConsistent doubles (run doubles events created)
run-IsConsistent_example = run-IsConsistent doubles events created (record {
  once = refl;
  flagged = refl;
  parted = refl;
  written = refl;
  kept = refl;
  measured = refl;
  at_rest = λ h. refl;
  shown = λ h. refl;
})
