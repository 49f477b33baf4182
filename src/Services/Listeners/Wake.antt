-- ===== src/Services/Listeners/Wake.antt =====
-- The version that watchers of the listener list wait on (backend/src/services/listener_registry.rs).
use on_air_record.Base.{
  subst, ℕ, ◌+◌, ◌%◌, ◌^◌, ◌≡◌, refl, sym, ◌∙◌, ap, ◌⊎◌, inl, inr, Bool, true, false, Bool-cases,
  Option, none, some, ℕ_discrete, arith, ◌&&◌, not,
}
use on_air_record.Base.Int.{eq_of_parts}
use on_air_record.Base.Maps.{lookup, insert, lookup-insert_self, lookup-insert_ne}
use on_air_record.Models.Activity.Tally.{PlayerState, idle, playing, paused}
use on_air_record.Services.Listeners.{
  ListenerActivity, following, playback, halted, ListenerEntry, ListenerRegistry, Call, registers,
  sets_activity, sets_player, drops, step, register, modify, modify_entry, set_activity, set_player,
  remove_entry, drop_handle, bump, same_activity, same_player, differs,
}

-- The watch channel's version moved on, or every connection is listed as it was.
abbrev pub Woken : ListenerRegistry → ListenerRegistry → Type 0
Woken r t =
    (t.version ≡ (r.version + 1) % 2 ^ 64)
    ⊎ ((t.version ≡ r.version) × ((id : ℕ) → lookup t.entries id ≡ lookup r.entries id))

same_activity-path : (a b : ListenerActivity) → same_activity a b ≡ true → a ≡ b
unfolding same_activity
same_activity-path following following e = refl
same_activity-path (playback x) (playback y) e = ap playback (eq_of_parts x y (ground arith))
same_activity-path halted halted e = refl
same_activity-path _ _ e = ground (arith, e)

same_player-path : (a b : PlayerState) → same_player a b ≡ true → a ≡ b
unfolding same_player
same_player-path idle idle e = refl
same_player-path playing playing e = refl
same_player-path paused paused e = refl
same_player-path _ _ e = ground (arith, e)

insert_same-lookup :
    (r : ListenerRegistry) (k : ℕ) (a : ListenerEntry) (i : ℕ)
    → lookup r.entries k ≡ some a
    → lookup (insert r.entries k a) i ≡ lookup r.entries i
insert_same-lookup r k a i e = elim (ℕ_discrete k i) [
  | yes same ↦
      subst (λ j. lookup (insert r.entries k a) j ≡ lookup r.entries j) same
        (lookup-insert_self r.entries k a ∙ sym e)
  | no other ↦ lookup-insert_ne r.entries a other
]

-- A change of the activity or of the player only.
Touches : (ListenerEntry → ListenerEntry) → Type 0
Touches change =
    (entry : ListenerEntry) → differs entry (change entry) ≡ false → change entry ≡ entry

modify_entry-Woken :
    (r : ListenerRegistry) (k : ℕ) (change : ListenerEntry → ListenerEntry)
    (o : Option ListenerEntry)
    → lookup r.entries k ≡ o
    → Touches change
    → Woken r (modify_entry r k change o)
unfolding modify_entry bump Touches
modify_entry-Woken r k change none e touches = inr (refl, λ id. refl)
modify_entry-Woken r k change (some entry) e touches =
    elim (Bool-cases (differs entry (change entry))) [
      | inl d ↦ rw d (inl refl)
      | inr d ↦ rw d (inr (refl, λ id. rw (touches entry d) (insert_same-lookup r k entry id e)))
    ]

both_true : (x y : Bool) → not (x && y) ≡ false → (x ≡ true) × (y ≡ true)
both_true true true e = (refl, refl)
both_true true false e = ground (arith, e)
both_true false y e = ground (arith, e)

Touches-activity :
    (activity : ListenerActivity) → Touches (λ entry. record entry { activity = activity })
unfolding Touches
Touches-activity activity entry e =
    let (same, _) =
      both_true (same_activity entry.activity activity) (same_player entry.player entry.player) e in
    sym (ap (λ a. record entry { activity = a }) (same_activity-path entry.activity activity same))

Touches-player : (player : PlayerState) → Touches (λ entry. record entry { player = player })
unfolding Touches
Touches-player player entry e =
    let (_, same) =
      both_true (same_activity entry.activity entry.activity) (same_player entry.player player) e in
    sym (ap (λ p. record entry { player = p }) (same_player-path entry.player player same))

remove_entry-Woken :
    (r : ListenerRegistry) (k : ℕ) (o : Option ListenerEntry) → Woken r (remove_entry r k o)
unfolding remove_entry bump
remove_entry-Woken r k none = inr (refl, λ id. refl)
remove_entry-Woken r k (some entry) = inl refl

-- After every call on the registry or on a handle, either the version that watchers wait on has moved
-- on by one (modulo 2 ^ 64), or every connection is listed exactly as before: no change is missed.
pub step-Woken : (r : ListenerRegistry) (call : Call) → Woken r (step r call)
unfolding step register bump set_activity set_player modify drop_handle
step-Woken r (registers account address user_agent now_ms) = inl refl
step-Woken r (sets_activity id activity) =
    modify_entry-Woken r id _ (lookup r.entries id) refl (Touches-activity activity)
step-Woken r (sets_player id player) =
    modify_entry-Woken r id _ (lookup r.entries id) refl (Touches-player player)
step-Woken r (drops id) = remove_entry-Woken r id (lookup r.entries id)
