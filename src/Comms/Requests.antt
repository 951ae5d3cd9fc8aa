-- ===== src/Comms/Requests.antt =====
-- Requests, replies and messages of extension/src/comms/comms.ts.
use pi_better_subagents.Prelude.{
  ℕ, ◌≡◌, refl, subst, ap, ◌∙◌, not, if◌then◌else◌, ◌==ₛ◌, inl, inr, Bool, true, false, ◌&&◌,
  Option, none, some, List, [], ◌∷◌, map, keep, String, eq_refl, Option-cases, arith,
}
use pi_better_subagents.Prelude.Dict.{get, get-put}
use pi_better_subagents.Mailbox.{
  Mailbox, MailboxEntry, broadcast, need_decision, append, begin_decision, resolve_decision,
}
use pi_better_subagents.Subagent.{ChildStatus}
use pi_better_subagents.Comms.{
  HostChild, Turn, is_running, is_from, Wake, waits, Sending, sent, not_sent, Delivery, CommsError,
  contact_supervisor, request_decision, contact_of, reply_to, send_to, broadcast_loop, broadcast_to,
  targets, from_of, name_of, run_id_of, supervisor,
}

abbrev is_sent : Sending → Bool
is_sent sent = true
is_sent (not_sent e) = false

-- What a reply to the child resolves.
abbrev Answers : Mailbox → String → String → ℕ → Type 0
Answers m from text p =
    ((resolve_decision m from text).1 ≡ (p, text) ∷ []) × ((resolve_decision m from text).2 ≡ true)

begin_decision-Answers :
    (m m' : Mailbox) (now : ℕ) (from name message text : String) (p : ℕ)
    → begin_decision m now from name message ≡ some (m', p)
    → Answers m' from text p
unfolding begin_decision resolve_decision
begin_decision-Answers m m' now from name message text p h =
    elim (Option-cases (get from m.waiters)) [
      | inr (w, e) ↦ ground arith
      | inl e ↦ ground (
        arith,
        get-put from from
            (record { name = name; message = message; since_ms = now; promise = m.next_promise })
            m.waiters,
        eq_refl from,
      )
    ]

contact_of-Answers :
    (m : Mailbox) (now : ℕ) (from name message text : String) (entry : ℕ) (w : Wake) (p e : ℕ)
    → (o : Option (Mailbox × ℕ)) → begin_decision m now from name message ≡ o
    → (contact_of from name message entry m o).1 ≡ waits w p e
    → Answers (contact_of from name message entry m o).0 from text p
contact_of-Answers m now from name message text entry w p e none f h = ground arith
contact_of-Answers m now from name message text entry w p e (some (m', q)) f h =
    let same : q ≡ p = ground arith in
    subst (λ x. Answers m' from text x) same
      (begin_decision-Answers m m' now from name message text q f)

-- A child that waits after a request.
waits-Answers :
    (now : ℕ) (from name message text : String) (r : Mailbox × MailboxEntry) (w : Wake) (p e : ℕ)
    → (request_decision now from name message r).1 ≡ waits w p e
    → Answers (request_decision now from name message r).0 from text p
unfolding request_decision
waits-Answers now from name message text (m, entry) w p e h =
    contact_of-Answers m now from name message text entry.ref w p e _ refl h

-- Whom a broadcast tells, described by the run, the status and the id of the child alone.
abbrev runs : ChildStatus → Bool
runs ChildStatus.pending = false
runs ChildStatus.running = true
runs ChildStatus.completed = false
runs ChildStatus.failed = false
runs ChildStatus.interrupted = false

abbrev is_other : Option String → HostChild → Bool
is_other none c = true
is_other (some sender) c = not (c.child_id ==ₛ sender)

abbrev pub is_told : (run_id : String) → (from : Option String) → (String → Turn) → HostChild → Bool
is_told run_id from turn c =
    if not (c.run_id ==ₛ run_id)
    then false
    else if not (runs c.status)
    then false
    else is_other from c && (turn c.child_id).is_known && (turn c.child_id).accepted

runs-lem : (s : ChildStatus) → is_running s ≡ runs s
runs-lem ChildStatus.pending = refl
runs-lem ChildStatus.running = refl
runs-lem ChildStatus.completed = refl
runs-lem ChildStatus.failed = refl
runs-lem ChildStatus.interrupted = refl

is_other-lem :
    (from : Option String) (c : HostChild) → not (is_from from c.child_id) ≡ is_other from c
is_other-lem none c = refl
is_other-lem (some sender) c = refl

module _ (get_child : String → Option HostChild) (same_run : String → String → Bool) where
  broadcast_loop-delivered :
      (run_id message : String) (from : Option String) (turn : String → Turn)
      → (ts : List HostChild) (m : Mailbox)
      → (broadcast_loop get_child same_run run_id message from turn ts m).1
        ≡ map
            (λ c. c.child_id)
            (keep (λ c. (turn c.child_id).is_known && (turn c.child_id).accepted) ts)
  unfolding broadcast_loop
  broadcast_loop-delivered run_id message from turn [] m = refl
  broadcast_loop-delivered run_id message from turn (t ∷ ts) m =
      let c = turn t.child_id in
      let waited = c.others m in
      ground (
        arith,
        broadcast_loop-delivered run_id message from turn ts m,
        broadcast_loop-delivered run_id message from turn ts waited,
        broadcast_loop-delivered run_id message from turn ts
            (append waited c.now run_id (from_of from) t.child_id broadcast message).0,
      )

  keep-targets :
      (run_id : String) (from : Option String) (turn : String → Turn) (children : List HostChild)
      → keep
          (λ c. (turn c.child_id).is_known && (turn c.child_id).accepted)
          (targets get_child same_run run_id from children)
        ≡ keep (is_told run_id from turn) children
  unfolding targets
  keep-targets run_id from turn [] = refl
  keep-targets run_id from turn (c ∷ children) =
      ground (arith, keep-targets run_id from turn children, runs-lem c.status, is_other-lem from c)

  -- A broadcast reports exactly those that got it: the children of the run that were running when it
  -- began, but for the sender, that the host still knew when their turn came and that took the
  -- message, in the order of the list, whatever other calls do during its waits.
  pub broadcast_to-delivered :
      (run_id message : String) (from : Option String) (turn : String → Turn)
      → (children : List HostChild) (m : Mailbox)
      → (broadcast_to get_child same_run run_id message from turn children m).1
        ≡ map (λ c. c.child_id) (keep (is_told run_id from turn) children)
  unfolding broadcast_to
  broadcast_to-delivered run_id message from turn children m =
      broadcast_loop-delivered run_id message from turn
        (targets get_child same_run run_id from children) m
      ∙ ap (map (λ c. c.child_id)) (keep-targets run_id from turn children)

  -- A message that is not sent leaves no trace in the mailbox.
  pub send_to-not_sent :
      (now : ℕ) (to message from : String) (delivery : Delivery) (accepted : Delivery → Bool)
      → (m : Mailbox) (e : CommsError)
      → (send_to get_child same_run now to message from delivery accepted m).1 ≡ not_sent e
      → (send_to get_child same_run now to message from delivery accepted m).0 ≡ m
  unfolding send_to
  send_to-not_sent now to message from delivery accepted m e h = ground arith

  reply_to-resolves :
      (later : ℕ) (to text by : String) (p : ℕ) (m : Mailbox)
      → Answers m to text p
      → (reply_to get_child same_run later to text by m).1 ≡ (p, text) ∷ []
  unfolding reply_to
  reply_to-resolves later to text by p m (a, b) = ground arith

  -- A request is answered by the reply that follows it: when `contact_supervisor` left a child
  -- waiting for a promise, a reply to that child is sent and resolves that promise, and no other,
  -- with its text.
  pub contact_supervisor-reply_to :
      (now later : ℕ) (from message text by : String) (m : Mailbox) (w : Wake) (p e : ℕ)
      → (contact_supervisor get_child same_run now from true message m).1 ≡ waits w p e
      → (reply_to get_child same_run later from text by
          (contact_supervisor get_child same_run now from true message m).0).1
        ≡ (p, text) ∷ []
  unfolding contact_supervisor
  contact_supervisor-reply_to now later from message text by m w p e h =
      reply_to-resolves later from text by p _ (
        waits-Answers now from (name_of from (get_child from)) message text
          (append m now (run_id_of (get_child from)) from supervisor need_decision message) w p e h)
