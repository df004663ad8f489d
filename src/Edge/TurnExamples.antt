-- ===== src/Edge/TurnExamples.antt =====
-- The theorem on the turns of a dispatcher, applied to a concrete table.
use snagline.Prelude.{
  find, String, ◌≡◌, refl, true, some, [], ◌∷◌, arith, find, any, update_where, utf8, bytes_equal,
}
use snagline.Tx.{ok}
use snagline.Edge.Turns.{
  TurnRow, Turns, bind_dispatcher_turn, complete_dispatcher_turn, completed_binding, new_turn,
  prune, find_turn, valid_binding, valid_completion, within, complete_found, same_request,
  complete_pending, owns, claimed_by, completed_turn,
}
use snagline.Edge.Validate.{valid_routing_token}
use snagline.Edge.Vault.{open_sealed, seal, additional_data, drop}
use snagline.Edge.TurnLaws.{no_turns}
use snagline.Edge.TurnDone.{complete-then-bind}
use snagline.Edge.Scenario.{clear, clear-IsAead, wide, left}

abbrev event : String
event = "bbbbbbbbbbbbbbbbbbbbbbbbbbbbbbbbbbbbbbbbbbbbbbbbbbbbbbbbbbbbbbbb"

abbrev token : String
token = wide []

abbrev turn : TurnRow
turn = new_turn clear "t" event (5 ∷ []) (1 ∷ []) 10 100 50 token

unfoldable done_turns : Turns
unfolding complete_dispatcher_turn valid_completion valid_routing_token within find_turn find
    complete_found same_request open_sealed seal additional_data drop utf8 bytes_equal
    complete_pending owns claimed_by any update_where completed_turn
done_turns =
    left (turn ∷ [])
      (complete_dispatcher_turn clear "t" event (1 ∷ []) (2 ∷ []) 20 token (6 ∷ []) (turn ∷ []))

done_ok :
    complete_dispatcher_turn clear "t" event (1 ∷ []) (2 ∷ []) 20 token (6 ∷ []) (turn ∷ [])
    ≡ ok (tt, done_turns)
unfolding done_turns
done_ok = refl

turn_found : find_turn event (turn ∷ []) ≡ some turn
unfolding find_turn find
turn_found = refl

binding_ok : valid_binding clear "t" event (1 ∷ []) 30 100 50 8 ≡ true
unfolding valid_binding valid_routing_token within
binding_ok = refl

complete-then-bind_example :
    bind_dispatcher_turn clear "t" event (1 ∷ []) 30 100 50 8 (7 ∷ []) token done_turns
    ≡ ok (completed_binding (2 ∷ []), prune 30 done_turns)
complete-then-bind_example =
    complete-then-bind clear "t" clear-IsAead event (1 ∷ []) (2 ∷ []) token (6 ∷ []) refl turn 20 30
      100 50 8 (7 ∷ []) token (turn ∷ []) done_turns done_turns turn_found refl done_ok no_turns
      binding_ok (omega arith)
