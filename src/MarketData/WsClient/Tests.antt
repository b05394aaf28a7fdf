-- ===== src/MarketData/WsClient/Tests.antt =====
-- The websocket client at a concrete input.
use arb_core.Common.{◌≡◌, List, [], ◌∷◌}
use arb_core.MarketData.WsClient.{
  WsAttempt, refused, connected, text, ping, close, run_ws_with_reconnect, awake, answered,
  all_heard, IsSchedule, sleeps, run_ws_with_reconnect_lem,
}

abbrev attempts : List WsAttempt
attempts =
    refused
    ∷ connected (text "a" ∷ ping (7 ∷ []) ∷ close ∷ text "lost" ∷ [])
    ∷ connected (text "b" ∷ [])
    ∷ []

run_ws_with_reconnect_lem_example :
    let actions = run_ws_with_reconnect (λ i. i) attempts in
    (awake actions ≡ answered (all_heard attempts)) × IsSchedule 0 attempts (sleeps actions)
run_ws_with_reconnect_lem_example = run_ws_with_reconnect_lem (λ i. i) attempts
