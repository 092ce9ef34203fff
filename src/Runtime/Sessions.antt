-- ===== src/Runtime/Sessions.antt =====
-- runtime.py, `_announcement_session`: the session of a node's HELLO messages. Both clocks are
-- arguments: `now` is monotonic, in milliseconds, and `host_ms` is the time of day.
use espstation.Common.{
  Bool, false, ℕ, ◌+◌, ◌-◌, ◌≤◌, ◌<◌, ◌≡◌, ◌⊎◌, inl, inr, refl, ap, ◌∙◌, arith, Option, none, some,
  Bool, true, ◌&&◌, ◌==◌, ==_self, ltb, Bool-cases, Option-cases, if◌then◌else◌,
}
use espstation.Common.Dict.{Dict, number_key, get, put, get-put}

-- `HELLO_ANNOUNCE_GAP_S`
abbrev announce_gap_ms : ℕ
announce_gap_ms = 5000

-- (link, time of the last chunk, milliseconds of the session); the session's id is `sess-{node}-{ms}`.
pub record Announcement : Type 0 where
  pub link : ℕ
  pub seen : ℕ
  pub ms : ℕ

pub record Sessions : Type 0 where
  pub announcements : Dict ℕ Announcement
  pub last_session_ms : Dict ℕ ℕ

last_ms : Option ℕ → ℕ
last_ms none = 0
last_ms (some ms) = ms

abbrev max : ℕ → ℕ → ℕ
max a b = if ltb a b then b else a

open_session : Sessions → ℕ → ℕ → ℕ → ℕ → Sessions × ℕ
open_session s link node now host_ms =
    let ms = max host_ms (last_ms (get node s.last_session_ms) + 1) in
    (
      record {
        announcements = put node (record { link = link; seen = now; ms = ms }) s.announcements;
        last_session_ms = put node ms s.last_session_ms;
      },
      ms,
    )

-- A HELLO that follows the node's last one on the same link, soon enough.
abbrev pub continues : Announcement → ℕ → ℕ → Bool
continues known link now = known.link == link && ltb (now - known.seen) announce_gap_ms

session_after : Option Announcement → Sessions → ℕ → ℕ → ℕ → ℕ → Sessions × ℕ
session_after none s link node now host_ms = open_session s link node now host_ms
session_after (some known) s link node now host_ms =
    if continues known link now
    then (
      record s {
        announcements =
            put node (record { link = link; seen = now; ms = known.ms }) s.announcements;
      },
      known.ms,
    )
    else open_session s link node now host_ms

unfoldable pub announcement_session : Sessions → ℕ → ℕ → ℕ → ℕ → Sessions × ℕ
unfolding session_after open_session last_ms
announcement_session s link node now host_ms =
    session_after (get node s.announcements) s link node now host_ms

-- The number of the last session that was opened for a node, 0 if none was.
unfoldable pub last_session : Sessions → ℕ → ℕ
unfolding last_ms
last_session s node = last_ms (get node s.last_session_ms)

-- What opening a session does.
opened :
    (s : Sessions) (link node now host_ms : ℕ)
    → (last_session s node < (open_session s link node now host_ms).1)
      × (host_ms ≤ (open_session s link node now host_ms).1)
      × (last_session (open_session s link node now host_ms).0 node
          ≡ (open_session s link node now host_ms).1)
unfolding open_session last_session
opened s link node now host_ms =
    let ms : ℕ = max host_ms (last_ms (get node s.last_session_ms) + 1) in
    let kept : get node (put node ms s.last_session_ms) ≡ some ms =
      get-put node node ms s.last_session_ms ∙ rw (==_self node) refl in
    (ground arith, ground arith, ap last_ms kept)

-- A HELLO on the same link, less than five seconds after the one before.
abbrev pub follows : Option Announcement → ℕ → ℕ → Bool
follows none link now = false
follows (some known) link now = known.link == link && ltb (now - known.seen) 5000

-- What a HELLO that follows no other opens.
abbrev pub IsNew : Sessions → ℕ → ℕ → Sessions × ℕ → Type 0
IsNew s node host_ms result =
    (last_session s node < result.1)
    × (host_ms ≤ result.1)
    × (last_session result.0 node ≡ result.1)

-- Every HELLO is remembered with the session that it was given.
announcement_session-kept :
    (s : Sessions) (link node now host_ms : ℕ)
    → get node (announcement_session s link node now host_ms).0.announcements
      ≡ some (record {
        link = link;
        seen = now;
        ms = (announcement_session s link node now host_ms).1;
      })
unfolding announcement_session session_after open_session
announcement_session-kept s link node now host_ms = elim (Option-cases (get node s.announcements)) [
  | inl first ↦ rw first (get-put node node _ s.announcements ∙ rw (==_self node) refl)
  | inr (known, there) ↦ elim (Bool-cases (continues known link now)) [
    | inl follows ↦
        rw there (rw follows (get-put node node _ s.announcements ∙ rw (==_self node) refl))
    | inr apart ↦ rw there (rw apart (get-put node node _ s.announcements ∙ rw (==_self node) refl))
  ]
]

by_announcement :
    (s : Sessions) (link node now host_ms : ℕ)
    → ((follows (get node s.announcements) link now ≡ true)
        × ((known : Announcement) × (get node s.announcements ≡ some known)
            × ((announcement_session s link node now host_ms).1 ≡ known.ms))
        × (last_session (announcement_session s link node now host_ms).0 node
            ≡ last_session s node))
      ⊎ ((follows (get node s.announcements) link now ≡ false)
          × IsNew s node host_ms (announcement_session s link node now host_ms))
unfolding announcement_session last_session
by_announcement s link node now host_ms = elim (Option-cases (get node s.announcements)) [
  | inl first ↦ rw first (inr (refl, opened s link node now host_ms))
  | inr (known, there) ↦ elim (Bool-cases (continues known link now)) [
    | inl again ↦ rw there (rw again (inl (refl, (known, refl, refl), refl)))
    | inr apart ↦ rw there (rw apart (inr (refl, opened s link node now host_ms)))
  ]
]

-- The session of a node's HELLO. If it follows the node's last one, on the same link and less than five
-- seconds after it, it has that one's session, and no session was opened; if not, its session is a new
-- one, with a number above that of every session opened for the node before and not before the time of
-- day. Either way the node's announcement is remembered with this link, this time and the session.
pub announcement_session-cases :
    (s : Sessions) (link node now host_ms : ℕ)
    → (((follows (get node s.announcements) link now ≡ true)
          × ((known : Announcement) × (get node s.announcements ≡ some known)
              × ((announcement_session s link node now host_ms).1 ≡ known.ms))
          × (last_session (announcement_session s link node now host_ms).0 node
              ≡ last_session s node))
        ⊎ ((follows (get node s.announcements) link now ≡ false)
            × IsNew s node host_ms (announcement_session s link node now host_ms)))
      × (get node (announcement_session s link node now host_ms).0.announcements
          ≡ some (record {
            link = link;
            seen = now;
            ms = (announcement_session s link node now host_ms).1;
          }))
announcement_session-cases s link node now host_ms =
    (by_announcement s link node now host_ms, announcement_session-kept s link node now host_ms)
