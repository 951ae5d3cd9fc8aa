-- ===== src/Tests/Transcripts.antt =====
-- The theorem on the transcripts of extension/src/subagent/transcript.ts at a concrete history.
use pi_better_subagents.Prelude.{◌≡◌, refl, Bool, true, false, List, [], ◌∷◌, map, count_if}
use pi_better_subagents.Subagent.Transcript.{
  ConversationTurn, new, content_of, is_tool, sync, tool_call_count, assistant_role,
}
use pi_better_subagents.Subagent.Transcript.Written.{
  Sync, run, contents, AreBeginnings, sync-contents,
}

abbrev answer : ConversationTurn
answer = record { role = assistant_role; text = 79 ∷ 75 ∷ [] }

-- The role is "tool ls".
abbrev tool_turn : ConversationTurn
tool_turn = record { role = 116 ∷ 111 ∷ 111 ∷ 108 ∷ 32 ∷ 108 ∷ 115 ∷ []; text = [] }

abbrev conversation : List ConversationTurn
conversation = answer ∷ tool_turn ∷ []

abbrev sync_of : Bool → List ConversationTurn → Sync
sync_of ok turns = record { now = 7; ok = ok; session = "s"; child = "ch_1"; turns = turns }

-- The second sync fails.
abbrev syncs : List Sync
syncs = sync_of true (answer ∷ []) ∷ sync_of false conversation ∷ []

syncs-AreBeginnings : AreBeginnings "s" "ch_1" conversation syncs
syncs-AreBeginnings = (λ e. (refl, (tool_turn ∷ [], refl)), (λ e. (refl, ([], refl)), tt))

sync-contents_example :
    (contents "s" "ch_1" (sync 9 true "s" "ch_1" conversation (run new syncs)).appended
      ≡ map content_of conversation)
    × (tool_call_count "ch_1" (sync 9 true "s" "ch_1" conversation (run new syncs))
        ≡ count_if is_tool conversation)
sync-contents_example = sync-contents 9 "s" "ch_1" conversation syncs syncs-AreBeginnings
