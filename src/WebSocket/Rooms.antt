-- ===== src/WebSocket/Rooms.antt =====
-- Who receives what is sent to a room.
use bridge_framework.Base.{
  ◌≡◌, refl, sym, ap, ◌∙◌, true, false, not, ◌&&◌, ◌||◌, String, none, List, [], ◌∷◌, contains,
  contains-filterb, contains-push, is_empty, unwrap_or, push, if◌then◌else◌, ◌==◌, string_eq,
  ==_iff, arith, Bool-cases, inl, inr,
}
use bridge_framework.Base.Map
use bridge_framework.Base.Map.{Map, get-insert, Distinct}
use bridge_framework.WebSocket.Hub.{
  WsHub, members, others, drop_member, disconnect, join, recipients,
}

contains-empty : (c : String) (ms : List String) → is_empty ms ≡ true → contains c ms ≡ false
contains-empty c [] h = refl
contains-empty c (m ∷ ms) h = absurd (ground arith)

contains-members-drop_member :
    (c conn room : String) (rooms : Map String (List String))
    → Distinct rooms
    → contains c (members room (drop_member conn rooms))
      ≡ (contains c (members room rooms) && not (c == conn))
unfolding drop_member Map.get
contains-members-drop_member c conn room [] d = refl
contains-members-drop_member c conn room ((r, ms) ∷ rooms) d =
    let later = contains-members-drop_member c conn room rooms d.1 in
    let here = contains-filterb (λ m. not (m == conn)) c ms in
    elim (Bool-cases (is_empty (others conn ms))) [
      | inl pruned ↦ elim (Bool-cases (r == room)) [
        | inl same ↦
            let gone : Map.get room rooms ≡ none =
              sym (ap (λ k. Map.get k rooms) ((==_iff r room).0 same)) ∙ d.0 in
            let left = contains-empty c (others conn ms) pruned in
            rw (drop_member, pruned, members, same)
              (later
                ∙ ap (λ o. contains c (unwrap_or [] o) && not (c == conn)) gone
                ∙ sym left
                ∙ here)
        | inr other ↦ rw (drop_member, pruned, members, other) later
      ]
      | inr kept ↦ elim (Bool-cases (r == room)) [
        | inl same ↦ rw (drop_member, kept, members, same) here
        | inr other ↦ rw (drop_member, kept, members, other) later
      ]
    ]

-- After a disconnect a broadcast to any room reaches those that it reached before, less the
-- connection that is gone; no room stands twice in the hub.
pub recipients-disconnect :
    (c conn room sender : String) (hub : WsHub)
    → Distinct hub.rooms
    → contains c (recipients room sender (disconnect conn hub))
      ≡ (contains c (recipients room sender hub) && not (c == conn))
unfolding recipients disconnect
recipients-disconnect c conn room sender hub d =
    let heard = contains-filterb (λ m. not (m == sender)) c in
    ground (
      arith,
      heard (members room (drop_member conn hub.rooms)),
      heard (members room hub.rooms),
      contains-members-drop_member c conn room hub.rooms d,
    )

members-insert :
    (joined room : String) (ms : List String) (rooms : Map String (List String))
    → members room (Map.insert joined ms rooms)
      ≡ (if joined == room then ms else members room rooms)
members-insert joined room ms rooms =
    rw (members, get-insert room joined ms rooms) (ground (arith, Bool-cases (joined == room)))

-- A member that joins again, and one that is new.
again :
    (c conn joined room : String) (rooms : Map String (List String))
    → contains conn (members joined rooms) ≡ true
    → contains c (if joined == room then members joined rooms else members room rooms)
      ≡ (contains c (members room rooms) || (joined == room && c == conn))
again c conn joined room rooms already = elim (Bool-cases (joined == room)) [
  | inl same ↦
      let there = ap (λ r. contains c (members r rooms)) ((==_iff joined room).0 same) in
      elim (Bool-cases (c == conn)) [
        | inl is ↦
            ground
              (arith, there, ap (λ x. contains x (members joined rooms)) ((==_iff c conn).0 is))
        | inr is_not ↦ ground (arith, there)
      ]
  | inr other ↦ ground arith
]

entered :
    (c conn joined room : String) (rooms : Map String (List String))
    → contains c (if joined == room then push (members joined rooms) conn else members room rooms)
      ≡ (contains c (members room rooms) || (joined == room && c == conn))
entered c conn joined room rooms = elim (Bool-cases (joined == room)) [
  | inl same ↦
      let there = ap (λ r. contains c (members r rooms)) ((==_iff joined room).0 same) in
      ground
        (arith, there, contains-push c (members joined rooms) conn, ==_iff conn c, ==_iff c conn)
  | inr other ↦ ground arith
]

-- Who is in a room after a join.
contains-members-join :
    (c conn joined room : String) (hub : WsHub)
    → contains c (members room (join conn joined hub).0.rooms)
      ≡ (contains c (members room hub.rooms) || (joined == room && c == conn))
unfolding join
contains-members-join c conn joined room hub =
    elim (Bool-cases (contains conn (members joined hub.rooms))) [
      | inl already ↦
          rw (join, already, members-insert joined room (members joined hub.rooms) hub.rooms)
            (again c conn joined room hub.rooms already)
      | inr absent ↦
          rw
            (
              join,
              absent,
              members-insert joined room (push (members joined hub.rooms) conn) hub.rooms,
            )
            (entered c conn joined room hub.rooms)
    ]

-- After a join a broadcast to the room reaches the connection too, unless it is the sender, and a
-- broadcast to another room reaches who it reached before.
pub recipients-join :
    (c conn joined room sender : String) (hub : WsHub)
    → contains c (recipients room sender (join conn joined hub).0) ≡ (
        contains c (recipients room sender hub)
        || (joined == room && c == conn && not (c == sender)))
unfolding recipients join
recipients-join c conn joined room sender hub =
    let heard = contains-filterb (λ m. not (m == sender)) c in
    ground (
      arith,
      heard (members room (join conn joined hub).0.rooms),
      heard (members room hub.rooms),
      contains-members-join c conn joined room hub,
      Bool-cases (c == sender),
    )
