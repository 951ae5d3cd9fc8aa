-- ===== src/Subagent/Transcript/Written.antt =====
-- What is written of a child's conversation: extension/src/subagent/transcript.ts.
use pi_better_subagents.Prelude.{
  ℕ, zero, suc, ◌+◌, ◌≤◌, ◌≡◌, refl, sym, subst, ap, ◌∙◌, Bool, true, false, not, ◌&&◌, ◌||◌, List,
  [], ◌∷◌, ◌++◌, String, ◌==ₛ◌, eq_iff, eq_refl, map, append-nil, length, take, drop, count_if,
  count_if-append, All, leb, if◌then◌else◌, if_cases, Bool-cases, inl, inr, arith,
}
use pi_better_subagents.Prelude.Dict.{get, put, get-put}
use pi_better_subagents.Subagent.Transcript.{
  ConversationTurn, LineContent, Appended, TranscriptWriter, is_tool, content_of, transcript_line,
  new, written_count, tool_call_count, sync,
}

pub record Sync : Type 0 where
  pub now : ℕ
  pub ok : Bool
  pub session : String
  pub child : String
  pub turns : List ConversationTurn

unfoldable pub run : TranscriptWriter → List Sync → TranscriptWriter
run w [] = w
run w (e ∷ es) = run (sync e.now e.ok e.session e.child e.turns w) es

-- The file of a child in a session, line by line.
abbrev pub contents : (home child : String) → List Appended → List LineContent
contents home child [] = []
contents home child (a ∷ later) =
    let rest = contents home child later in
    if (a.session_id ==ₛ home) && (a.child_id ==ₛ child) then a.line.content ∷ rest else rest

-- A beginning of a conversation.
abbrev pub IsBeginning : List ConversationTurn → List ConversationTurn → Type 0
IsBeginning conversation turns = (later : List ConversationTurn) × (turns ++ later ≡ conversation)

-- Each sync of the child is of its session and gives a beginning of its conversation.
abbrev pub AreBeginnings : (home child : String) → List ConversationTurn → List Sync → Type 0
AreBeginnings home child conversation es =
    All (λ e. e.child ≡ child → (e.session ≡ home) × IsBeginning conversation e.turns) es

record IsWritten (home child : String) (conversation : List ConversationTurn) (w : TranscriptWriter)
    : Type 0 where
  lines :
      contents home child w.appended ≡ map content_of (take (written_count child w) conversation)
  tools : tool_call_count child w ≡ count_if is_tool (take (written_count child w) conversation)

contents-append :
    (home child : String) (xs ys : List Appended)
    → contents home child (xs ++ ys) ≡ contents home child xs ++ contents home child ys
contents-append home child [] ys = refl
contents-append home child (a ∷ xs) ys = ground (arith, contents-append home child xs ys)

map-append {ℓ κ} :
    {A : Type ℓ} {B : Type κ} (f : A → B) (xs ys : List A) → map f (xs ++ ys) ≡ map f xs ++ map f ys
map-append f [] ys = refl
map-append f (x ∷ xs) ys = ap (λ zs. f x ∷ zs) (map-append f xs ys)

-- A beginning is the turns up to a shorter count and those from there on.
take-beginning {ℓ} :
    {A : Type ℓ} (n : ℕ) (xs ys : List A)
    → n ≤ length xs
    → take n (xs ++ ys) ++ drop n xs ≡ take (length xs) (xs ++ ys)
take-beginning zero [] ys h = refl
take-beginning zero (x ∷ xs) ys h = ap (λ zs. x ∷ zs) (take-beginning zero xs ys (omega arith))
take-beginning (suc n) [] ys h = absurd (omega (arith, h))
take-beginning (suc n) (x ∷ xs) ys h = ap (λ zs. x ∷ zs) (take-beginning n xs ys (omega (arith, h)))

-- The lines of some turns, in the file of a child.
abbrev added : (now : ℕ) (session child : String) → List ConversationTurn → List Appended
added now session child turns =
    map (λ t. record { session_id = session; child_id = child; line = transcript_line t now }) turns

contents-added :
    (now : ℕ) (session j home child : String) (turns : List ConversationTurn)
    → contents home child (added now session j turns)
      ≡ (if (session ==ₛ home) && (j ==ₛ child) then map content_of turns else [])
unfolding transcript_line
contents-added now session j home child [] = ground arith
contents-added now session j home child (t ∷ turns) =
    ground (arith, contents-added now session j home child turns)

-- The writer after some turns of a child were written.
abbrev grown :
    (now : ℕ) (session child : String) → List ConversationTurn → TranscriptWriter → TranscriptWriter
grown now session child turns w =
    let fresh = drop (written_count child w) turns in
    record {
      written = put child (length turns) w.written;
      tool_calls = put child (tool_call_count child w + count_if is_tool fresh) w.tool_calls;
      appended = w.appended ++ added now session child fresh;
    }

same-IsWritten :
    (now : ℕ) (home child : String) (turns later : List ConversationTurn) (w : TranscriptWriter)
    → written_count child w ≤ length turns
    → IsWritten home child (turns ++ later) w
    → IsWritten home child (turns ++ later) (grown now home child turns w)
unfolding written_count tool_call_count
same-IsWritten now home child turns later w le s =
    let done = written_count child w in
    let fresh = drop done turns in
    let all_turns = take-beginning done turns later le in
    let count : written_count child (grown now home child turns w) ≡ length turns =
      ground (arith, get-put child child (length turns) w.written, eq_refl child) in
    let called : tool_call_count child (grown now home child turns w)
        ≡ tool_call_count child w + count_if is_tool fresh =
      ground (
        arith,
        get-put child child (tool_call_count child w + count_if is_tool fresh) w.tool_calls,
        eq_refl child,
      ) in
    let fresh_contents : contents home child (added now home child fresh) ≡ map content_of fresh =
      ground (arith, contents-added now home child home child fresh, eq_refl child, eq_refl home) in
    record {
      lines =
          contents-append home child w.appended (added now home child fresh)
          ∙ ap (λ xs. xs ++ contents home child (added now home child fresh)) s.lines
          ∙ ap (λ xs. map content_of (take done (turns ++ later)) ++ xs) fresh_contents
          ∙ sym (map-append content_of (take done (turns ++ later)) fresh)
          ∙ ap (map content_of) all_turns
          ∙ ap (λ n. map content_of (take n (turns ++ later))) (sym count);
      tools =
          called
          ∙ omega (arith, s.tools, count_if-append is_tool (take done (turns ++ later)) fresh)
          ∙ ap (count_if is_tool) all_turns
          ∙ ap (λ n. count_if is_tool (take n (turns ++ later))) (sym count);
    }

other-IsWritten :
    (now : ℕ) (session j home child : String) (turns conversation : List ConversationTurn)
    (w : TranscriptWriter)
    → (j ==ₛ child) ≡ false
    → IsWritten home child conversation w
    → IsWritten home child conversation (grown now session j turns w)
unfolding written_count tool_call_count
other-IsWritten now session j home child turns conversation w e s =
    let fresh = drop (written_count j w) turns in
    let count : written_count child (grown now session j turns w) ≡ written_count child w =
      ground (arith, get-put j child (length turns) w.written, e) in
    let called : tool_call_count child (grown now session j turns w) ≡ tool_call_count child w =
      ground
        (arith, get-put j child (tool_call_count j w + count_if is_tool fresh) w.tool_calls, e) in
    let no_contents : contents home child (added now session j fresh) ≡ [] =
      ground (arith, contents-added now session j home child fresh, e) in
    record {
      lines =
          contents-append home child w.appended (added now session j fresh)
          ∙ ap (λ xs. contents home child w.appended ++ xs) no_contents
          ∙ append-nil (contents home child w.appended)
          ∙ s.lines
          ∙ ap (λ n. map content_of (take n conversation)) (sym count);
      tools = called ∙ s.tools ∙ ap (λ n. count_if is_tool (take n conversation)) (sym count);
    }

grown-IsWritten :
    (e : Sync) (home child : String) (conversation : List ConversationTurn) (w : TranscriptWriter)
    → written_count e.child w ≤ length e.turns
    → (e.child ≡ child → (e.session ≡ home) × IsBeginning conversation e.turns)
    → IsWritten home child conversation w
    → IsWritten home child conversation (grown e.now e.session e.child e.turns w)
grown-IsWritten e home child conversation w le h s = elim (Bool-cases (e.child ==ₛ child)) [
  | inl t ↦
      let same : e.child ≡ child = ground (arith, eq_iff e.child child, t) in
      let (here, (later, cut)) = h same in
      let Grown : String → String → Type 0 = λ at j.
        written_count j w ≤ length e.turns
        → IsWritten home child conversation (grown e.now at j e.turns w) in
      let Kept : List ConversationTurn → Type 0 = λ c. IsWritten home child c w in
      subst (λ j. Grown e.session j) (sym same)
        (subst (λ at. Grown at child) (sym here)
          (λ le'.
            subst (λ c. IsWritten home child c (grown e.now home child e.turns w)) cut
              (same-IsWritten e.now home child e.turns later w le' (subst Kept (sym cut) s))))
        le
  | inr f ↦ other-IsWritten e.now e.session e.child home child e.turns conversation w f s
]

sync-IsWritten :
    (e : Sync) (home child : String) (conversation : List ConversationTurn) (w : TranscriptWriter)
    → (e.child ≡ child → (e.session ≡ home) × IsBeginning conversation e.turns)
    → IsWritten home child conversation w
    → IsWritten home child conversation (sync e.now e.ok e.session e.child e.turns w)
unfolding sync
sync-IsWritten e home child conversation w h s =
    if_cases (IsWritten home child conversation)
      (leb (length e.turns) (written_count e.child w) || not e.ok) (λ old. s)
      (λ more. grown-IsWritten e home child conversation w (ground (arith, more)) h s)

run-IsWritten :
    (home child : String) (conversation : List ConversationTurn) (es : List Sync)
    (w : TranscriptWriter)
    → AreBeginnings home child conversation es
    → IsWritten home child conversation w
    → IsWritten home child conversation (run w es)
unfolding run
run-IsWritten home child conversation [] w h s = s
run-IsWritten home child conversation (e ∷ es) w (h, hs) s =
    run-IsWritten home child conversation es (sync e.now e.ok e.session e.child e.turns w) hs
      (sync-IsWritten e home child conversation w h s)

take_all {ℓ} : {A : Type ℓ} (n : ℕ) (xs : List A) → length xs ≤ n → take n xs ≡ xs
take_all zero [] h = refl
take_all zero (x ∷ xs) h = absurd (omega (arith, h))
take_all (suc n) [] h = refl
take_all (suc n) (x ∷ xs) h = ap (λ zs. x ∷ zs) (take_all n xs (omega (arith, h)))

-- A sync that succeeds leaves nothing unwritten.
sync-written_count :
    (now : ℕ) (session child : String) (turns : List ConversationTurn) (w : TranscriptWriter)
    → length turns ≤ written_count child (sync now true session child turns w)
unfolding sync written_count
sync-written_count now session child turns w =
    if_cases (λ x. length turns ≤ written_count child x)
      (leb (length turns) (written_count child w) || not true) (λ old. ground (arith, old))
      (λ more. ground (arith, get-put child child (length turns) w.written, eq_refl child))

-- After any history of syncs of any children, which may fail, and in which those of one child are of
-- one session and give beginnings of its conversation, and then a sync of the whole conversation in
-- that session that succeeds: the child's file of that session is exactly the lines of its
-- conversation, each once and in order, and its tool calls are the tool results in it.
pub sync-contents :
    (now : ℕ) (home child : String) (conversation : List ConversationTurn) (es : List Sync)
    → AreBeginnings home child conversation es
    → (contents home child (sync now true home child conversation (run new es)).appended
        ≡ map content_of conversation)
      × (tool_call_count child (sync now true home child conversation (run new es))
          ≡ count_if is_tool conversation)
unfolding new written_count tool_call_count get
sync-contents now home child conversation es h =
    let before = run new es in
    let after = sync now true home child conversation before in
    let last : Sync = record {
      now = now;
      ok = true;
      session = home;
      child = child;
      turns = conversation;
    } in
    let s =
      sync-IsWritten last home child conversation before
        (λ same. (refl, ([], append-nil conversation)))
        (run-IsWritten home child conversation es new h (record { lines = refl; tools = refl })) in
    let ends =
      take_all (written_count child after) conversation
        (sync-written_count now home child conversation before) in
    (s.lines ∙ ap (map content_of) ends, s.tools ∙ ap (count_if is_tool) ends)
