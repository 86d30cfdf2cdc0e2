-- ===== src/Instances/Assign.antt =====
-- An assignment to an instance, and what finds it again.
use game_gardens_of_karaxas.Base.{
  ℕ, ◌+◌, ◌≤◌, ◌<◌, String, ◌≡◌, inl, inr, refl, ◌∙◌, Bool, true, false, some, List, [], ◌∷◌, arith,
  nat_eq_iff, string_eq_iff, ◌==◌, nat_equality, string_equality, pair_equality, option_equality,
  Bool-cases, Option-cases, first_where, count_where, update_where, any_where, count_where-append,
  first_where-update, first_where_last, count_where-update, first_where-update_where,
}
use game_gardens_of_karaxas.Models.{UserSession}
use game_gardens_of_karaxas.AuthContext.Admission.{replaced_row}
use game_gardens_of_karaxas.Instances.{
  WorldInstance, WorldInstanceMember, InstanceTables, has_ended, is_over, expire_stale_instances,
  resolve_instance_descriptor, ttl_of, Entry, instance_by_id, open_instance, is_inside,
  join_instance, moved_session, assign_session_world_instance,
}

-- the id and the kind of the instance of an entry
abbrev pub place_of : Entry → String × String
place_of entry =
    resolve_instance_descriptor entry.level_id entry.character_id entry.party_id entry.is_hub_level

-- a row that is open from `now` on, for its time to live
abbrev IsOpened : ℕ → String → Entry → WorldInstance → Type 0
IsOpened now kind entry i =
    (i.status ≡ "active")
    × (i.expires_at ≡ some (now + ttl_of kind))
    × (i.level_id ≡ some entry.level_id)

open_there :
    (now : ℕ) (id kind : String) (entry : Entry) (instances : List WorldInstance)
    → (i : WorldInstance) × (instance_by_id id (open_instance now id kind entry instances) ≡ some i)
      × IsOpened now kind entry i
open_there now id kind entry instances =
    let named : (id == id) ≡ true = (string_eq_iff id id).1 refl in
    elim (Option-cases (instance_by_id id instances)) [
      | inl none_yet ↦
          let row : WorldInstance = record {
            id = id;
            kind = kind;
            level_id = some entry.level_id;
            owner_user_id = some entry.user_id;
            party_id = entry.party_id;
            status = "active";
            last_active_at = now;
            expires_at = some (now + ttl_of kind);
          } in
          (
            row,
            (unfold open_instance in
                rw none_yet (
                  first_where_last (λ (i : WorldInstance). i.id == id) instances row none_yet
                    named)),
            (refl, refl, refl),
          )
      | inr (old, found) ↦
          let reopen : WorldInstance → WorldInstance = λ i. record i {
            status = "active";
            level_id = some entry.level_id;
            party_id = entry.party_id;
            last_active_at = now;
            expires_at = some (now + ttl_of kind);
          } in
          (
            reopen old,
            (unfold open_instance in
                rw found (
                  first_where-update (λ (i : WorldInstance). i.id == id) reopen instances old
                    (λ _. refl) found)),
            (refl, refl, refl),
          )
    ]

count_where-none :
    (p : WorldInstanceMember → Bool) (members : List WorldInstanceMember)
    → any_where p members ≡ false
    → count_where p members ≡ 0
count_where-none p [] h = refl
count_where-none p (m ∷ members) h = ground (arith, count_where-none p members)

count_where-some :
    (p : WorldInstanceMember → Bool) (members : List WorldInstanceMember)
    → any_where p members ≡ true
    → 1 ≤ count_where p members
count_where-some p [] h = absurd (ground (arith, h))
count_where-some p (m ∷ members) h = ground (arith, count_where-some p members)

join_once :
    (now : ℕ) (id session : String) (entry : Entry) (members : List WorldInstanceMember)
    → count_where (is_inside id entry.user_id) members ≤ 1
    → count_where (is_inside id entry.user_id) (join_instance now id session entry members) ≡ 1
join_once now id session entry members few =
    let mine = is_inside id entry.user_id in
    elim (Bool-cases (any_where mine members)) [
      | inl old ↦
          unfold join_instance in
          rw old (
            count_where-update mine mine _ members (λ _. refl)
            ∙ ground (arith, few, count_where-some mine members old))
      | inr new ↦
          let own : (id == id) ≡ true = (string_eq_iff id id).1 refl in
          let own_user : (entry.user_id == entry.user_id) ≡ true =
            (nat_eq_iff entry.user_id entry.user_id).1 refl in
          unfold join_instance in
          rw new (
            count_where-append mine members _
            ∙ rw (count_where-none mine members new) (rw (own, own_user) refl))
    ]

-- a row that is not due yet survives
stays_open :
    (later : ℕ) (id : String) (instances : List WorldInstance) (i : WorldInstance)
    → instance_by_id id instances ≡ some i
    → has_ended later i.expires_at ≡ false
    → instance_by_id id (
        update_where
          (is_over later)
          (λ (r : WorldInstance). record r { status = "expired"; last_active_at = later })
          instances)
      ≡ some i
stays_open later id instances i found early =
    first_where-update_where (λ (r : WorldInstance). r.id == id) (is_over later) _ instances i
      (λ _. refl) found
    ∙ rw early (ground arith)

-- A player who is assigned to an instance finds it again: until its time to live has passed, the instance
-- of his session is active and of his level, and he is a member of it once; and the next assignment to
-- the same place, at any time, restores it. The session has a row, and users are members of an instance
-- at most once before.
pub assign_stays :
    (now later again : ℕ) (session row : UserSession) (entry : Entry) (db : InstanceTables)
    → count_where (is_inside (place_of entry).0 entry.user_id) db.members ≤ 1
    → first_where (λ (s : UserSession). s.id == session.id) db.sessions ≡ some row
    → later < now + ttl_of (place_of entry).1
    → (let (first, after) = assign_session_world_instance now session entry db in
        let (expired, kept) = expire_stale_instances later after in
        let moved = moved_session (place_of entry).0 entry session in
        (i : WorldInstance) × (instance_by_id first.instance_id kept.instances ≡ some i)
        × (i.status ≡ "active")
        × (i.level_id ≡ some entry.level_id)
        × (count_where (is_inside first.instance_id entry.user_id) kept.members ≡ 1)
        × (first_where (λ (s : UserSession). s.id == session.id) kept.sessions ≡ some moved)
        × ((assign_session_world_instance again moved entry kept).0.restored ≡ true)
        × ((assign_session_world_instance again moved entry kept).0.instance_id
            ≡ first.instance_id))
unfolding assign_session_world_instance expire_stale_instances
assign_stays now later again session row entry db few found early =
    let place = place_of entry in
    let fresh = (expire_stale_instances now db).1 in
    let (i, there, (active, expires, level)) =
      open_there now place.0 place.1 entry fresh.instances in
    let open_still : has_ended later i.expires_at ≡ false = rw expires (ground (arith, early)) in
    let own : (place.0 == place.0) ≡ true = (string_eq_iff place.0 place.0).1 refl in
    (
      i,
      stays_open later place.0 (open_instance now place.0 place.1 entry fresh.instances) i there
          open_still,
      active,
      level,
      join_once now place.0 session.id entry db.members few,
      replaced_row session.id (moved_session place.0 entry session) db.sessions row found
          ((string_eq_iff session.id session.id).1 refl),
      own,
      refl,
    )
