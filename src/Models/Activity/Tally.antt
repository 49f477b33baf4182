-- ===== src/Models/Activity/Tally.antt =====
-- One listening session as it goes: ListeningTally of backend/src/models/activity.rs.
use on_air_record.Base.{
  ◌≡◌, refl, Bool, true, false, Option, none, some, List, [], ◌∷◌, if◌then◌else◌, ◌||◌, arith, ◌∙◌,
  ap,
}
use on_air_record.Base.Int.{
  ℤ, pos, ◌+ℤ◌, ◌-ℤ◌, ◌≤ℤ◌, max_ℤ, min_ℤ, int_laws, pos_part, neg_part, eq_of_parts, parts_zero,
}
use on_air_record.Models.Activity.{Listened}

pub data PlayerState : Type 0 where
  idle playing paused : PlayerState

pub record ListeningTally : Type 0 where
  pub started_at_ms : ℤ
  pub playing_since_ms : Option ℤ
  pub played_ms : ℤ
  pub earliest_ms : Option ℤ

unfoldable pub new : ℤ → ListeningTally
new started_at_ms = record {
  started_at_ms = started_at_ms;
  playing_since_ms = some started_at_ms;
  played_ms = pos 0;
  earliest_ms = none;
}

-- Idle and paused are one case.
unfoldable pub stop : ListeningTally → Option ℤ → ℤ → ListeningTally
stop t none at_ms = t
stop t (some since) at_ms = record t {
  played_ms = t.played_ms +ℤ max_ℤ (at_ms -ℤ since) (pos 0);
  playing_since_ms = none;
}

unfoldable pub play : ListeningTally → Option ℤ → ℤ → ListeningTally
play t none at_ms = record t { playing_since_ms = some at_ms }
play t (some since) at_ms = t

unfoldable pub player : ListeningTally → PlayerState → ℤ → ListeningTally
unfolding play stop
player t playing at_ms = play t t.playing_since_ms at_ms
player t idle at_ms = stop t t.playing_since_ms at_ms
player t paused at_ms = stop t t.playing_since_ms at_ms

abbrev pub earlier : Option ℤ → ℤ → ℤ
earlier none moment_ms = moment_ms
earlier (some earliest) moment_ms = min_ℤ earliest moment_ms

unfoldable pub went_back_to : ListeningTally → ℤ → ListeningTally
went_back_to t moment_ms = record t { earliest_ms = some (earlier t.earliest_ms moment_ms) }

abbrev pub still_playing : Option ℤ → ℤ → ℤ
still_playing none at_ms = pos 0
still_playing (some since) at_ms = max_ℤ (at_ms -ℤ since) (pos 0)

abbrev pub is_some : Option ℤ → Bool
is_some none = false
is_some (some _) = true

unfoldable pub finish : ListeningTally → ℤ → Listened
finish t at_ms = record {
  started_at_ms = t.started_at_ms;
  connected_ms = max_ℤ (at_ms -ℤ t.started_at_ms) (pos 0);
  played_ms = t.played_ms +ℤ still_playing t.playing_since_ms at_ms;
  played_back = is_some t.earliest_ms;
  earliest_ms = t.earliest_ms;
}

-- What the page reports during a session.
pub data Report : Type 0 where
  reported : PlayerState → ℤ → Report
  went_back : ℤ → Report

unfoldable pub follow : ListeningTally → List Report → ListeningTally
unfolding player went_back_to
follow t [] = t
follow t (reported state at_ms ∷ reports) = follow (player t state at_ms) reports
follow t (went_back moment_ms ∷ reports) = follow (went_back_to t moment_ms) reports

-- Reports in time order, from `now` to the end of the session.
abbrev pub InOrder : ℤ → List Report → ℤ → Type 0
InOrder now [] end_ms = now ≤ℤ end_ms
InOrder now (reported state at_ms ∷ reports) end_ms = (now ≤ℤ at_ms) × InOrder at_ms reports end_ms
InOrder now (went_back moment_ms ∷ reports) end_ms = InOrder now reports end_ms

abbrev pub is_playing : PlayerState → Bool
is_playing playing = true
is_playing idle = false
is_playing paused = false

-- The time from `now` on during which the page plays, stretch by stretch.
abbrev pub heard : Bool → ℤ → List Report → ℤ → ℤ
heard on now [] end_ms = if on then end_ms -ℤ now else pos 0
heard on now (reported state at_ms ∷ reports) end_ms =
    (if on then at_ms -ℤ now else pos 0) +ℤ heard (is_playing state) at_ms reports end_ms
heard on now (went_back moment_ms ∷ reports) end_ms = heard on now reports end_ms

abbrev pub went_back_in : List Report → Bool
went_back_in [] = false
went_back_in (reported state at_ms ∷ reports) = went_back_in reports
went_back_in (went_back moment_ms ∷ reports) = true

-- What a tally has counted by `now`, whether it is playing or not.
counted : ListeningTally → Option ℤ → ℤ → ℤ
counted t none now = t.played_ms
counted t (some since) now = t.played_ms +ℤ (now -ℤ since)

IsSomeBounds : Option ℤ → ℤ → Type 0
IsSomeBounds none now = Unit
IsSomeBounds (some since) now = since ≤ℤ now

record Step (t u : ListeningTally) (on : Bool) (now at_ms : ℤ) : Type 0 where
  since : IsSomeBounds u.playing_since_ms at_ms
  state : is_some u.playing_since_ms ≡ on
  same :
      counted u u.playing_since_ms at_ms
      ≡ counted t t.playing_since_ms now
        +ℤ (if is_some t.playing_since_ms then at_ms -ℤ now else pos 0)

stop-Step :
    (t : ListeningTally) (o : Option ℤ) (now at_ms : ℤ)
    → t.playing_since_ms ≡ o
    → IsSomeBounds o now
    → now ≤ℤ at_ms
    → Step t (stop t o at_ms) false now at_ms
unfolding stop counted IsSomeBounds
stop-Step t none now at_ms e b h = record {
  since = rw e tt;
  state = rw e refl;
  same = rw e (eq_of_parts _ _ (omega int_laws));
}
stop-Step t (some since) now at_ms e b h = record {
  since = tt;
  state = refl;
  same = rw e (omega int_laws);
}

play-Step :
    (t : ListeningTally) (o : Option ℤ) (now at_ms : ℤ)
    → t.playing_since_ms ≡ o
    → IsSomeBounds o now
    → now ≤ℤ at_ms
    → Step t (play t o at_ms) true now at_ms
unfolding play counted IsSomeBounds
play-Step t none now at_ms e b h = record {
  since = omega arith;
  state = refl;
  same = rw e (omega int_laws);
}
play-Step t (some since) now at_ms e b h = record {
  since = rw e (omega (arith, parts_zero now));
  state = rw e refl;
  same = rw e (omega int_laws);
}

player-Step :
    (t : ListeningTally) (state : PlayerState) (now at_ms : ℤ)
    → IsSomeBounds t.playing_since_ms now
    → now ≤ℤ at_ms
    → Step t (player t state at_ms) (is_playing state) now at_ms
unfolding player
player-Step t playing now at_ms b h = play-Step t t.playing_since_ms now at_ms refl b h
player-Step t idle now at_ms b h = stop-Step t t.playing_since_ms now at_ms refl b h
player-Step t paused now at_ms b h = stop-Step t t.playing_since_ms now at_ms refl b h

finish-played :
    (t : ListeningTally) (o : Option ℤ) (now end_ms : ℤ)
    → IsSomeBounds o now
    → now ≤ℤ end_ms
    → t.played_ms +ℤ still_playing o end_ms
      ≡ counted t o now +ℤ (if is_some o then end_ms -ℤ now else pos 0)
unfolding counted IsSomeBounds
finish-played t none now end_ms b h = refl
finish-played t (some since) now end_ms b h = omega int_laws

sum_assoc : (a b c d e : ℤ) → a ≡ b +ℤ c → d ≡ a +ℤ e → d ≡ b +ℤ (c +ℤ e)
sum_assoc a b c d e first second =
    omega (int_laws, ap pos_part first, ap neg_part first, ap pos_part second, ap neg_part second)

follow-played :
    (t : ListeningTally) (now : ℤ) (reports : List Report) (end_ms : ℤ)
    → IsSomeBounds t.playing_since_ms now
    → InOrder now reports end_ms
    → (finish (follow t reports) end_ms).played_ms
      ≡ counted t t.playing_since_ms now +ℤ heard (is_some t.playing_since_ms) now reports end_ms
unfolding follow finish counted
follow-played t now [] end_ms b h = finish-played t t.playing_since_ms now end_ms b h
follow-played t now (went_back m ∷ reports) end_ms b h =
    follow-played (went_back_to t m) now reports end_ms b h
follow-played t now (reported state at_ms ∷ reports) end_ms b h =
    let u = player t state at_ms in
    let s = player-Step t state now at_ms b h.0 in
    let later = follow-played u at_ms reports end_ms s.since h.1 in
    sum_assoc (counted u u.playing_since_ms at_ms) (counted t t.playing_since_ms now)
      (if is_some t.playing_since_ms then at_ms -ℤ now else pos 0)
      (finish (follow u reports) end_ms).played_ms (heard (is_playing state) at_ms reports end_ms)
      s.same
      (later
        ∙ ap (λ on. counted u u.playing_since_ms at_ms +ℤ heard on at_ms reports end_ms) s.state)

play-rest :
    (t : ListeningTally) (o : Option ℤ) (at_ms : ℤ)
    → ((play t o at_ms).started_at_ms ≡ t.started_at_ms)
      × ((play t o at_ms).earliest_ms ≡ t.earliest_ms)
unfolding play
play-rest t none at_ms = (refl, refl)
play-rest t (some since) at_ms = (refl, refl)

stop-rest :
    (t : ListeningTally) (o : Option ℤ) (at_ms : ℤ)
    → ((stop t o at_ms).started_at_ms ≡ t.started_at_ms)
      × ((stop t o at_ms).earliest_ms ≡ t.earliest_ms)
unfolding stop
stop-rest t none at_ms = (refl, refl)
stop-rest t (some since) at_ms = (refl, refl)

player-rest :
    (t : ListeningTally) (state : PlayerState) (at_ms : ℤ)
    → ((player t state at_ms).started_at_ms ≡ t.started_at_ms)
      × ((player t state at_ms).earliest_ms ≡ t.earliest_ms)
unfolding player
player-rest t playing at_ms = play-rest t t.playing_since_ms at_ms
player-rest t idle at_ms = stop-rest t t.playing_since_ms at_ms
player-rest t paused at_ms = stop-rest t t.playing_since_ms at_ms

from_zero : (s total : ℤ) → pos 0 +ℤ (s -ℤ s) +ℤ total ≡ total
from_zero s total = omega int_laws

or_true : (b : Bool) → b || true ≡ true
or_true true = refl
or_true false = refl

or_false : (b : Bool) → b ≡ b || false
or_false true = refl
or_false false = refl

follow-rest :
    (t : ListeningTally) (reports : List Report)
    → ((follow t reports).started_at_ms ≡ t.started_at_ms)
      × (is_some (follow t reports).earliest_ms ≡ is_some t.earliest_ms || went_back_in reports)
unfolding follow
follow-rest t [] = (refl, or_false (is_some t.earliest_ms))
follow-rest t (reported state at_ms ∷ reports) =
    let (started, earliest) = player-rest t state at_ms in
    let (later_started, later) = follow-rest (player t state at_ms) reports in
    (later_started ∙ started, later ∙ ap (λ o. is_some o || went_back_in reports) earliest)
follow-rest t (went_back m ∷ reports) =
    let (started, later) = follow-rest (went_back_to t m) reports in
    (started, later ∙ rw (or_true (is_some t.earliest_ms)) refl)

-- For reports in time order, the event of a finished session says how long the stream was open, and
-- as play time exactly the stretches during which the page played, counting the time before its first
-- report; a session counted as played back is one in which the listener went back.
pub finish-heard :
    (started_at_ms end_ms : ℤ) (reports : List Report)
    → InOrder started_at_ms reports end_ms
    → let event = finish (follow (new started_at_ms) reports) end_ms in
      (event.connected_ms ≡ max_ℤ (end_ms -ℤ started_at_ms) (pos 0))
      × (event.played_ms ≡ heard true started_at_ms reports end_ms)
      × (event.played_back ≡ went_back_in reports)
unfolding finish new counted IsSomeBounds
finish-heard started_at_ms end_ms reports h =
    let (started, back) = follow-rest (new started_at_ms) reports in
    let played = follow-played (new started_at_ms) started_at_ms reports end_ms (omega arith) h in
    (
      ap (λ s. max_ℤ (end_ms -ℤ s) (pos 0)) started,
      played ∙ from_zero started_at_ms (heard true started_at_ms reports end_ms),
      back,
    )
