-- ===== src/Tests/Session.antt =====
-- A stream of backend/src/ws/session.rs on a concrete program: a listener who seeks and plays.
use on_air_record.Base.{◌*◌, ◌^◌, ◌≡◌, refl, true, none, some, []}
use on_air_record.Base.Int.{ℤ, pos, ◌-ℤ◌}
use on_air_record.Models.Access.{kept_open}
use on_air_record.Services.Playback.{ok}
use on_air_record.Services.Playback.{
  Library, advance, hops, turn, after_locate, locate, cover, jump, nothing_more,
}
use on_air_record.Models.Access.{requires_login}
use on_air_record.Ws.Session.Commands.{rejoin, back_to_real_time, join_live}
use on_air_record.Tests.Stream.{pcm}
use on_air_record.Ws.Session.{
  World, StreamSession, seek_to, finite, clamp_speed, nearest, distance, round_f32, step_of,
  round_to, playback_speeds, listed_mode, and_then, deliver, stream_info, effective_frame_ms,
}
use on_air_record.Ws.Session.Commands.{
  handle_command, start_playback, drive_playback, after_seek, after_output,
}
use on_air_record.Ws.Session.Loop.{
  Event, incoming, said, opening, greet, Reached, opened, turned, handle, report, enabled,
  take_incoming, take_command, activity_of, same_kind, may_watch_listeners,
}
use on_air_record.Ws.Session.Coherent.{Coherent}
use on_air_record.Ws.Session.Coherent.Heard.{last_told}
use on_air_record.Ws.Session.Coherent.Run.{Reached-Coherent}
use on_air_record.Ws.Session.Coherent.Listed.{report-listed}
use on_air_record.Ws.Session.Speeds.{IsNearest, clamp_speed-IsNearest}

-- Nothing recorded at or after any moment.
abbrev bare : Library
bare = record {
  find_covering = λ t. ok none;
  find_next_after = λ t. ok none;
  read_segment_bytes = λ s offset n. none;
}

abbrev studio : World
studio = record {
  library = bare;
  encoder = pcm;
  delivers = λ n. true;
  capturing = true;
  sample_rate = 44100;
  channels = 1;
  snapshot_frame_ms = 100;
  configured_frame_ms = 100;
  live_edge_ms = some (pos 6000);
  earliest_ms = some (pos 5000);
  now_ms = pos 6500;
  instant_ms = 100;
  auth_mode = ok kept_open;
  signed_in = ok none;
  connected = [];
}

abbrev welcomed : StreamSession
unfolding greet and_then deliver stream_info effective_frame_ms may_watch_listeners
welcomed = (greet studio (opening studio 3)).0

welcomed-Reached : Reached welcomed
unfolding welcomed requires_login
welcomed-Reached = opened studio 3 refl

abbrev seeking : Event
seeking = incoming (said (ok (seek_to (pos 4000))))

abbrev scrubbed : StreamSession
scrubbed = (handle studio (report welcomed) seeking).0

seeking_holds : (handle studio (report welcomed) seeking).1 ≡ true
unfolding handle report welcomed take_incoming take_command handle_command start_playback
    drive_playback after_seek after_output and_then deliver activity_of same_kind advance hops turn
    after_locate locate cover jump nothing_more rejoin back_to_real_time join_live requires_login
seeking_holds = refl

scrubbed-Reached : Reached scrubbed
unfolding enabled
scrubbed-Reached = turned studio welcomed seeking welcomed-Reached refl seeking_holds

Reached-Coherent_example : Coherent scrubbed
Reached-Coherent_example = Reached-Coherent scrubbed scrubbed-Reached

report-listed_example :
    listed_mode (last_told (report scrubbed).id (report scrubbed).calls) ≡ (report scrubbed).mode
report-listed_example = report-listed scrubbed scrubbed-Reached

-- 1.625.
abbrev one_and_five_eighths : ℤ
one_and_five_eighths = pos (13 * 2 ^ 146)

clamp_speed-IsNearest_example :
    IsNearest one_and_five_eighths (clamp_speed (finite one_and_five_eighths)) playback_speeds
clamp_speed-IsNearest_example = clamp_speed-IsNearest one_and_five_eighths

applied_speed : clamp_speed (finite one_and_five_eighths) ≡ 150
unfolding clamp_speed nearest distance round_f32 step_of round_to ◌-ℤ◌
applied_speed = refl

-- All distances from 2 ^ 100, about 1.27e30, are the same f32.
huge_speed : clamp_speed (finite (pos (2 ^ 249))) ≡ 25
unfolding clamp_speed nearest distance round_f32 step_of round_to ◌-ℤ◌
huge_speed = refl
