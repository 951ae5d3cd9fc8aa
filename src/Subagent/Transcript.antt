-- ===== src/Subagent/Transcript.antt =====
-- The transcripts of children: extension/src/subagent/transcript.ts.
--
-- A text is the list of its code units. A line is what is written of it before its encoding. The
-- files are the log of what was appended, with the session and the child whose file it is.
pub mod Written
use pi_better_subagents.Prelude.{
  ℕ, ◌+◌, Bool, true, false, not, ◌||◌, Option, none, some, List, [], ◌∷◌, ◌++◌, String, map,
  length, take, drop, count_if, leb, is_some, if◌then◌else◌,
}
use pi_better_subagents.Prelude.Dict.{Dict, get, put}
use pi_better_subagents.Batching.Lines.{Text}
use pi_better_subagents.Subagent.Models.{is_space, same_text}

pub record ConversationTurn : Type 0 where
  pub role : Text
  pub text : Text

-- A text, or its beginning and how long it was.
pub data Capped : Type 0 where
  whole : Text → Capped
  cut : (head : Text) (chars : ℕ) → Capped

pub record LineContent : Type 0 where
  pub role : Text
  pub tool : Option Text
  pub text : Capped
  pub is_error : Bool

pub record Line : Type 0 where
  pub ts : ℕ
  pub content : LineContent

pub record Appended : Type 0 where
  pub session_id : String
  pub child_id : String
  pub line : Line

pub record TranscriptWriter : Type 0 where
  pub written : Dict ℕ
  pub tool_calls : Dict ℕ
  pub appended : List Appended

abbrev pub max_text_chars : ℕ
max_text_chars = 3000

unfoldable pub cap_text : Text → Capped
cap_text text =
    if leb (length text) max_text_chars
    then whole text
    else cut (take max_text_chars text) (length text)

-- "tool ", " error", "tool", "assistant" and "assistant error".
abbrev pub tool_prefix : Text
tool_prefix = 116 ∷ 111 ∷ 111 ∷ 108 ∷ 32 ∷ []

abbrev pub error_suffix : Text
error_suffix = 32 ∷ 101 ∷ 114 ∷ 114 ∷ 111 ∷ 114 ∷ []

abbrev pub tool_role : Text
tool_role = 116 ∷ 111 ∷ 111 ∷ 108 ∷ []

abbrev pub assistant_role : Text
assistant_role = 97 ∷ 115 ∷ 115 ∷ 105 ∷ 115 ∷ 116 ∷ 97 ∷ 110 ∷ 116 ∷ []

-- A text up to its first white space, and the rest.
abbrev pub word : Text → Text × Text
word [] = ([], [])
word (a ∷ s) = let rest = word s in if is_space a then ([], a ∷ s) else (a ∷ rest.0, rest.1)

-- The match of `/^tool (\S+)( error)?$/`: the tool, and whether the suffix is there. A word ends
-- where it must, since what may follow it is a space or the end.
unfoldable pub tool_of : Text → Option (Text × Bool)
tool_of role =
    let (name, rest) = word (drop 5 role) in
    if not (same_text (take 5 role) tool_prefix) || leb (length name) 0
    then none
    else if leb (length rest) 0
    then some (name, false)
    else if same_text rest error_suffix
    then some (name, true)
    else none

abbrev pub is_tool : ConversationTurn → Bool
is_tool t = is_some (tool_of t.role)

-- What `transcriptLine` writes of a turn, but for the time.
unfoldable pub content_of : ConversationTurn → LineContent
unfolding tool_of cap_text
content_of turn =
    let model_error = same_text turn.role (assistant_role ++ error_suffix) in
    elim (tool_of turn.role) [
      | some found ↦ record {
        role = tool_role;
        tool = some found.0;
        text = cap_text turn.text;
        is_error = found.1;
      }
      | none ↦ record {
        role = if model_error then assistant_role else turn.role;
        tool = none;
        text = cap_text turn.text;
        is_error = model_error;
      }
    ]

unfoldable pub transcript_line : ConversationTurn → ℕ → Line
unfolding content_of
transcript_line turn ts = record { ts = ts; content = content_of turn }

unfoldable pub new : TranscriptWriter
new = record { written = []; tool_calls = []; appended = [] }

abbrev pub or_zero : Option ℕ → ℕ
or_zero none = 0
or_zero (some n) = n

unfoldable pub written_count : String → TranscriptWriter → ℕ
written_count child w = or_zero (get child w.written)

unfoldable pub tool_call_count : String → TranscriptWriter → ℕ
tool_call_count child w = or_zero (get child w.tool_calls)

-- `sync`; `ok` when the lines could be appended to the file.
unfoldable pub sync :
    (now : ℕ) (ok : Bool) (session child : String)
    → List ConversationTurn
    → TranscriptWriter
    → TranscriptWriter
unfolding written_count tool_call_count transcript_line
sync now ok session child turns w =
    let done = written_count child w in
    let fresh = drop done turns in
    if leb (length turns) done || not ok then w else record {
      written = put child (length turns) w.written;
      tool_calls = put child (tool_call_count child w + count_if is_tool fresh) w.tool_calls;
      appended =
          w.appended
          ++ map
              (λ t. record { session_id = session; child_id = child; line = transcript_line t now })
              fresh;
    }
