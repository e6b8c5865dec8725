-- ===== src/WebSocket/Hub.antt =====
-- `WsHub` of daemon/src/websocket.rs: rooms and their members. The 64-bit count of connections is
-- unbounded here.
use Prim.Native.String.{◌++◌ as join_text}
use bridge_framework.Base.{
  ℕ, zero, suc, ◌+◌, ◌-◌, Bool, true, false, not, String, none, some, List, [], ◌∷◌, length, push,
  filterb, contains, is_empty, chars, decimal, unwrap_or, if◌then◌else◌, ◌==◌, string_eq,
}
use bridge_framework.Base.Map
use bridge_framework.Base.Map.{Map}

pub record WsHub : Type 0 where
  pub rooms : Map String (List String)
  pub next_id : ℕ

abbrev pub new : WsHub
new = record { rooms = []; next_id = 0 }

abbrev pub zeros : ℕ → String
zeros zero = ""
zeros (suc n) = join_text "0" (zeros n)

-- `{:06}`
abbrev pub padded : ℕ → String
padded n = join_text (zeros (6 - length (chars (decimal n)))) (decimal n)

abbrev pub members : String → Map String (List String) → List String
members room rooms = unwrap_or [] (Map.get room rooms)

unfoldable pub enter_all :
    String → List String → Map String (List String) → Map String (List String)
enter_all id [] rooms = rooms
enter_all id (r ∷ rs) rooms = enter_all id rs (Map.insert r (push (members r rooms) id) rooms)

unfoldable pub connect : List String → WsHub → WsHub × String
unfolding enter_all decimal
connect rs hub =
    let next = hub.next_id + 1 in
    let id = join_text "ws" (padded next) in
    (record { rooms = enter_all id rs hub.rooms; next_id = next }, id)

unfoldable pub join : String → String → WsHub → WsHub × Bool
join conn room hub =
    let present = members room hub.rooms in
    if contains conn present
    then (record hub { rooms = Map.insert room present hub.rooms }, false)
    else (record hub { rooms = Map.insert room (push present conn) hub.rooms }, true)

-- `position` and `remove`
abbrev pub remove_first : String → List String → List String
remove_first conn [] = []
remove_first conn (m ∷ ms) = if m == conn then ms else m ∷ remove_first conn ms

unfoldable pub leave : String → String → WsHub → WsHub × Bool
leave conn room hub = elim (Map.get room hub.rooms) [
  | none ↦ (hub, false)
  | some present ↦
      if contains conn present
      then (
        record hub {
          rooms =
              if is_empty (remove_first conn present)
              then Map.remove room hub.rooms
              else Map.insert room (remove_first conn present) hub.rooms;
        },
        true,
      )
      else (hub, false)
]

abbrev pub others : String → List String → List String
others conn ms = filterb (λ m. not (m == conn)) ms

-- The `retain` of `disconnect`, which shortens each room as it goes.
unfoldable pub drop_member : String → Map String (List String) → Map String (List String)
drop_member conn [] = []
drop_member conn ((room, ms) ∷ rooms) =
    let rest = drop_member conn rooms in
    if is_empty (others conn ms) then rest else (room, others conn ms) ∷ rest

unfoldable pub disconnect : String → WsHub → WsHub
unfolding drop_member
disconnect conn hub = record hub { rooms = drop_member conn hub.rooms }

unfoldable pub recipients : String → String → WsHub → List String
recipients room sender hub = others sender (members room hub.rooms)
