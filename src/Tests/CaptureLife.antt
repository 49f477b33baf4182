-- ===== src/Tests/CaptureLife.antt =====
-- The capture service on a device that opens and on one that does not.
use on_air_record.Base.{refl, true, false, none, some, List, [], ◌∷◌, arith}
use on_air_record.Base.Int.{pos}
use on_air_record.Models.Settings.{Settings}
use on_air_record.Error.{internal, success_of}
use on_air_record.Models.Session.{RecordingSession}
use on_air_record.Repositories.Sessions.{SessionTable, close_dangling}
use on_air_record.Services.Capture.Threads.{CaptureRuntime}
use on_air_record.Services.Capture.State.{Surroundings, Closing, new}
use on_air_record.Services.Capture.Start.{start}
use on_air_record.Services.Capture.Operations.{
  Operation, starts, stops, run, restart, Delay, waited, start_if_configured,
}
use on_air_record.Services.Capture.View.{Coupled}
use on_air_record.Services.Capture.Outcome.{Outcome, trouble_of, device_answer, start-Outcome}
use on_air_record.Services.Capture.Histories.{
  history-Coupled, Yields, fresh-Coupled, auto_start-Yields,
}
use on_air_record.Tests.Settings.{kitchen}

abbrev desk : CaptureRuntime
desk = record {
  device_id = "hw:1";
  device_name = "Desk";
  sample_rate = 16000;
  source_sample_rate = 48000;
  channels = 1;
  source_channels = 2;
  frame_ms = 100;
}

abbrev good_day : Surroundings
good_day = record {
  current = kitchen;
  open_device = λ _. success_of desk;
  problem_advice = none;
  started_at_ms = pos 5000;
  create_answer = none;
  spawn_answer = none;
  unwound_at_ms = pos 5001;
  unwind_answer = none;
}

abbrev no_threads : Surroundings
no_threads = record good_day { spawn_answer = some (internal "no threads") }

abbrev evening : Closing
evening = record { closed_at_ms = pos 9000; close_answer = none }

abbrev left_open : RecordingSession
left_open = record {
  id = 4;
  device_id = "hw:0";
  device_name = "Old";
  sample_rate = 8000;
  channels = 1;
  started_at_ms = pos 100;
  ended_at_ms = none;
}

abbrev sessions_before : SessionTable
sessions_before = record { rows = left_open ∷ []; last_id = 6; uncut = [] }

abbrev day : List Operation
day = starts good_day ∷ starts good_day ∷ stops evening ∷ starts no_threads ∷ []

history-Coupled_example :
    Coupled (run (new (close_dangling sessions_before [])) day)
    × Coupled
        (restart good_day evening
          (starts good_day ∷ [])
          (run (new (close_dangling sessions_before [])) day)).0
history-Coupled_example =
    history-Coupled sessions_before [] day good_day evening (starts good_day ∷ []) (omega arith, tt)

abbrev waiting : Settings
waiting = record kitchen { auto_start = true; auto_start_delay_seconds = 30 }

abbrev half_minute : Delay
half_minute = record { meanwhile = starts good_day ∷ []; interrupted = false; still_wanted = true }

auto_start-Yields_example :
    Yields
      (waited waiting half_minute (new (close_dangling sessions_before [])))
      (stops evening ∷ [])
      (start_if_configured waiting half_minute false good_day
        (stops evening ∷ [])
        (new (close_dangling sessions_before [])))
auto_start-Yields_example =
    auto_start-Yields waiting half_minute false good_day (stops evening ∷ [])
      (new (close_dangling sessions_before [])) refl
      (fresh-Coupled sessions_before [] (omega arith, tt))

start-Outcome_example :
    Outcome no_threads
      (new sessions_before)
      none
      (trouble_of no_threads (device_answer no_threads))
      (start no_threads (new sessions_before))
start-Outcome_example = start-Outcome no_threads (new sessions_before)
