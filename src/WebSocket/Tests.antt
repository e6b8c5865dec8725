-- ===== src/WebSocket/Tests.antt =====
-- Frames and rooms at concrete inputs.
use bridge_framework.Base.{◌≡◌, refl, true, [], ◌∷◌, ◌++◌, ok, err, arith, string_eq, decimal}
use bridge_framework.Base.Map
use bridge_framework.Base.Map.{Distinct}
use bridge_framework.WebSocket.{text, encode_frame, decode_frame, need_more}
use bridge_framework.WebSocket.Frames.{client_frame, decode_frame-client_frame}
use bridge_framework.WebSocket.Incremental.{decode_frame-prefix}
use bridge_framework.WebSocket.Hub
use bridge_framework.WebSocket.Hub.{WsHub, connect, disconnect, join, leave, recipients}

decode_frame-client_frame_example :
    decode_frame (client_frame text 1 2 3 255 (b'h' ∷ b'i' ∷ []) ++ [])
    ≡ ok (record { opcode = text; payload = b'h' ∷ b'i' ∷ [] }, 8)
decode_frame-client_frame_example =
    decode_frame-client_frame text 1 2 3 255 (b'h' ∷ b'i' ∷ []) []
      (omega arith, (omega arith, (omega arith, (omega arith, tt))))
      (omega arith, (omega arith, tt)) (omega arith)

decode_frame-prefix_example : decode_frame (129 ∷ 2 ∷ b'h' ∷ []) ≡ err need_more
unfolding encode_frame
decode_frame-prefix_example =
    decode_frame-prefix text (b'h' ∷ b'i' ∷ []) (129 ∷ 2 ∷ b'h' ∷ []) (b'i' ∷ []) (omega arith) refl
      (omega arith)

program : Unit {0}
unfolding connect disconnect join leave recipients decimal Map.get Map.insert Map.remove
program = tt

abbrev hub : WsHub
hub = (join "ws000002" "lobby" (connect ("lobby" ∷ "news" ∷ []) Hub.new).0).0

-- A room that is named twice at the start holds its connection twice, and one copy stays behind.
twice_run :
    ((connect ("lobby" ∷ []) Hub.new).1 ≡ "ws000001")
    × (recipients "lobby" "ws000001" hub ≡ "ws000002" ∷ [])
    × ((leave "ws000001" "a" (connect ("a" ∷ "a" ∷ []) Hub.new).0).1 ≡ true)
    × (recipients "a" "" (leave "ws000001" "a" (connect ("a" ∷ "a" ∷ []) Hub.new).0).0
        ≡ "ws000001" ∷ [])
unfolding program
twice_run = (refl, refl, refl, refl)

hub-Distinct : Distinct hub.rooms
unfolding program
hub-Distinct = (refl, (refl, tt))
