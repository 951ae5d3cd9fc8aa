-- ===== src/Monitor.antt =====
-- The output side of `MonitorRegistry` of extension/src/monitor.ts: what is kept of output that
-- comes before its monitor is known, the cursor that drops what was delivered, and the queue that
-- is filled while the connection recovers.
--
-- A chunk is a text, of its characters. `encode` and `decode` are `Buffer.from(text, "utf8")` and
-- `toString("utf8")` of the runtime. `pushed` is what the batcher of the monitor was given. A cursor that the manager does not send is `none`. The exit event of an early
-- monitor is a flag, and the loop that drops early entries over the limit runs once at most, since
-- an entry is added at a time.
pub mod Cursor
pub mod Spans
pub mod Watch
use pi_better_subagents.Prelude.{
  ℕ, suc, ◌+◌, ◌-◌, Bool, true, false, not, ◌&&◌, ◌||◌, Option, none, some, List, [], ◌∷◌, ◌++◌,
  String, length, drop, ltb, leb, ◌==◌, if◌then◌else◌,
}
use pi_better_subagents.Prelude.Dict.{Dict, get, put, delete}

abbrev pub Text : Type 0
Text = List ℕ

abbrev pub Bytes : Type 0
Bytes = List ℕ

pub record Output : Type 0 where
  pub chunk : Text
  pub cursor : Option ℕ

pub record MonitorEntry : Type 0 where
  pub cursor : ℕ
  pub recovering : Bool
  pub queued_output : List Output
  pub pushed : List Text

pub record Early : Type 0 where
  pub chunks : List Output
  pub chars : ℕ
  pub has_exit : Bool

pub record MonitorRegistry : Type 0 where
  pub entries : Dict MonitorEntry
  pub early : Dict Early

abbrev pub new_entry : MonitorEntry
new_entry = record { cursor = 0; recovering = false; queued_output = []; pushed = [] }

abbrev pub no_output : Early
no_output = record { chunks = []; chars = 0; has_exit = false }

module _ (encode : Text → Bytes) (decode : Bytes → Text) where
  -- The end of `acceptOutput`: no bytes are not pushed.
  unfoldable pub push_bytes : Bytes → MonitorEntry → MonitorEntry
  push_bytes [] e = e
  push_bytes (b ∷ bs) e = record e { pushed = e.pushed ++ decode (b ∷ bs) ∷ [] }

  -- A start below zero is avoided by moving the length of the chunk to the other side.
  unfoldable pub accept_output : Output → MonitorEntry → MonitorEntry
  unfolding push_bytes
  accept_output o e =
      let bytes = encode o.chunk in
      elim o.cursor [
        | none ↦ push_bytes bytes (record e { cursor = e.cursor + length bytes })
        | some next ↦
            let rest =
              if ltb next (e.cursor + length bytes)
              then drop (e.cursor + length bytes - next) bytes
              else bytes in
            if leb next e.cursor then e else push_bytes rest (record e { cursor = next })
      ]

  unfoldable pub accept_all : List Output → MonitorEntry → MonitorEntry
  unfolding accept_output
  accept_all [] e = e
  accept_all (o ∷ os) e = accept_all os (accept_output o e)

abbrev pub drop_first : Dict Early → Dict Early
drop_first [] = []
drop_first (e ∷ es) = es

-- The early entry of a task, made if there is none.
unfoldable pub early_for : (max_ids : ℕ) → String → MonitorRegistry → MonitorRegistry × Early
early_for max_ids id g = elim (get id g.early) [
  | some early ↦ (g, early)
  | none ↦
      let more = put id no_output g.early in
      (record g { early = if ltb max_ids (length more) then drop_first more else more }, no_output)
]

-- The entry is changed in place, if the map still has it.
unfoldable pub set_early : String → Early → MonitorRegistry → MonitorRegistry
set_early id early g = elim (get id g.early) [
  | none ↦ g
  | some old ↦ record g { early = put id early g.early }
]

module _ (encode : Text → Bytes) (decode : Bytes → Text) where
  -- `size` is the length of the chunk as a string.
  unfoldable pub handle_output :
      (max_ids max_chars : ℕ) → String → Output → (size : ℕ) → MonitorRegistry → MonitorRegistry
  unfolding accept_output early_for set_early
  handle_output max_ids max_chars id o size g = elim (get id g.entries) [
    | some e ↦ record g {
      entries =
          put id
            (if e.recovering
              then (record e { queued_output = e.queued_output ++ o ∷ [] })
              else accept_output encode decode o e)
            g.entries;
    }
    | none ↦
        let r = early_for max_ids id g in
        if ltb max_chars (r.1.chars + size)
        then r.0
        else set_early id (record r.1 { chunks = r.1.chunks ++ o ∷ []; chars = r.1.chars + size })
            r.0
  ]

  -- The part of `start` that registers a monitor and replays its early output.
  unfoldable pub register : String → MonitorRegistry → MonitorRegistry × Bool
  unfolding accept_all
  register id g = elim (get id g.early) [
    | none ↦ (record g { entries = put id new_entry g.entries }, false)
    | some early ↦ (
      record g {
        entries = put id (accept_all encode decode early.chunks new_entry) g.entries;
        early = delete id g.early;
      },
      early.has_exit,
    )
  ]

abbrev pub cursor_of : Option ℕ → ℕ
cursor_of none = 0
cursor_of (some n) = n

-- The sort of the queue: stable, by cursor.
unfoldable pub insert_output : Output → List Output → List Output
insert_output o [] = o ∷ []
insert_output o (p ∷ ps) =
    let rest = insert_output o ps in
    if leb (cursor_of o.cursor) (cursor_of p.cursor) then o ∷ p ∷ ps else p ∷ rest

unfoldable pub sort_outputs : List Output → List Output
unfolding insert_output
sort_outputs [] = []
sort_outputs (o ∷ os) = insert_output o (sort_outputs os)

-- The entry before and after the wait of `rewatchAll`.
unfoldable pub begin_rewatch : MonitorEntry → MonitorEntry
begin_rewatch e = record e { recovering = true }

module _ (encode : Text → Bytes) (decode : Bytes → Text) where
  unfoldable pub end_rewatch : MonitorEntry → MonitorEntry
  unfolding accept_all sort_outputs
  end_rewatch e =
      accept_all encode decode (sort_outputs e.queued_output)
        (record e { recovering = false; queued_output = [] })
