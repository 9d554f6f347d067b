-- ===== src/Transport/Downloader/Progress.antt =====
-- include/lwm2m/transport/http_downloader.hpp and src/transport/http_downloader.cpp: the progress of a
-- download, its speed and what is estimated from it.
--
-- `D` is double, with its operations; a time of the steady clock is a count of nanoseconds, and is not
-- earlier than one that was read before.
use ferriot.Prelude.{ℕ, ◌-◌, ◌*◌, ◌/◌, ◌%◌, ◌^◌, Bool, ◌&&◌, ◌||◌, ◌==◌, leb, ltb, if◌then◌else◌}
use ferriot.Prelude.Int.{ℤ, pos}

pub record Doubles (D : Type 0) : Type 0 where
  -- static_cast<double>, and the literals 0.1, 0.2, …
  pub of_integer : ℕ → D
  pub tenths : ℕ → D
  pub add : D → D → D
  pub sub : D → D → D
  pub mul : D → D → D
  pub div : D → D → D
  -- `> 0` and `<= 0`
  pub is_positive : D → Bool
  pub is_at_most_zero : D → Bool
  -- static_cast<int64_t>
  pub truncated : D → ℤ

pub record DownloadProgress (D : Type 0) : Type 0 where
  pub bytes_downloaded : ℕ
  pub total_bytes : ℕ
  pub speed_mbps : D
  pub start_time : ℕ

-- The members of DownloadContext that the progress is computed from.
pub record DownloadContext (D : Type 0) : Type 0 where
  pub last_progress_time : ℕ
  pub last_bytes : ℕ
  pub last_speed : D

-- std::chrono::duration_cast<std::chrono::milliseconds>
abbrev pub milliseconds_between : ℕ → ℕ → ℕ
milliseconds_between start now = (now - start) / 10 ^ 6

module _ {D : Type 0} where
  -- In uint64_t, and then in uint8_t.
  unfoldable pub percent : DownloadProgress D → ℕ
  percent progress =
      if progress.total_bytes == 0
      then 0
      else ((progress.bytes_downloaded * 100) % 2 ^ 64 / progress.total_bytes) % 2 ^ 8

  unfoldable pub elapsed : ℕ → DownloadProgress D → ℕ
  elapsed now progress = milliseconds_between progress.start_time now

  module _ (doubles : Doubles D) where
    -- DownloadProgress{}, and its time.
    abbrev pub no_progress : ℕ → DownloadProgress D
    no_progress now = record {
      bytes_downloaded = 0;
      total_bytes = 0;
      speed_mbps = doubles.of_integer 0;
      start_time = now;
    }

    -- The context of a thread that starts.
    abbrev pub no_context : ℕ → DownloadContext D
    no_context now = record {
      last_progress_time = now;
      last_bytes = 0;
      last_speed = doubles.of_integer 0;
    }

    unfoldable pub eta : DownloadProgress D → ℤ
    eta progress =
        if doubles.is_at_most_zero progress.speed_mbps
          || leb progress.total_bytes progress.bytes_downloaded
        then pos 0
        else (let remaining =
              doubles.of_integer (progress.total_bytes - progress.bytes_downloaded) in
            let bytes_per_sec =
              doubles.mul (doubles.mul progress.speed_mbps (doubles.of_integer 1024))
                (doubles.of_integer 1024) in
            doubles.truncated (doubles.div remaining bytes_per_sec))

    -- The speed since the context's time, in MB per second.
    abbrev pub measured_speed : ℕ → ℕ → DownloadContext D → D
    measured_speed dlnow ms ctx =
        let bytes_delta =
          doubles.sub (doubles.of_integer dlnow) (doubles.of_integer ctx.last_bytes) in
        let seconds = doubles.div (doubles.of_integer ms) (doubles.of_integer 1000) in
        doubles.div (doubles.div bytes_delta seconds)
          (doubles.mul (doubles.of_integer 1024) (doubles.of_integer 1024))

    -- `// Smooth speed calculation`
    abbrev pub smoothed : D → D → D
    smoothed speed last_speed =
        if doubles.is_positive last_speed
        then doubles.add (doubles.mul (doubles.tenths 7) speed)
            (doubles.mul (doubles.tenths 3) last_speed)
        else speed

    -- `// Calculate speed if enough time has passed`, whose speed is the context's last one then.
    unfoldable pub update_speed : ℕ → ℕ → DownloadContext D → DownloadContext D
    update_speed dlnow now ctx =
        let ms = milliseconds_between ctx.last_progress_time now in
        if leb 250 ms && ltb ctx.last_bytes dlnow
        then record {
          last_progress_time = now;
          last_bytes = dlnow;
          last_speed = smoothed (measured_speed dlnow ms ctx) ctx.last_speed;
        }
        else ctx
