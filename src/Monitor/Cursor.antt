-- ===== src/Monitor/Cursor.antt =====
-- The text that `acceptOutput` of extension/src/monitor.ts gives to the batcher.
use pi_better_subagents.Prelude.{
  ℕ, ◌+◌, ◌-◌, ◌≤◌, ◌<◌, ◌≡◌, refl, sym, ap, subst, ◌∙◌, max, some, All, All-take, All-drop,
  nil_of_length, List, [], ◌∷◌, ◌++◌, length, length-append, length-take, length-drop, take, drop,
  map, ltb, leb, leb→le, if_cases, Bool-cases, inl, inr, arith,
}
use mathlib.Core.List.{flatten}
use pi_better_subagents.Monitor.{
  Text, Bytes, Output, MonitorEntry, new_entry, push_bytes, accept_output, accept_all,
}
use pi_better_subagents.Monitor.Spans.{
  Span, reached, AreConnected, IsChar, output_of, take-take, take_joined, drop_of-append,
  flatten-snoc,
}

module _ (encode : Text → Bytes) (decode : Bytes → Text)
    (encode-append : (s t : Text)
      → All IsChar s
      → All IsChar t
      → encode (s ++ t) ≡ encode s ++ encode t)
    (decode-encode : (s : Text) → All IsChar s → decode (encode s) ≡ s) where
  encode-positive : (s : Text) → All IsChar s → 1 ≤ length s → 1 ≤ length (encode s)
  encode-positive s h n = elim (Bool-cases (ltb 0 (length (encode s)))) [
    | inl e ↦ ground (arith, e)
    | inr e ↦
        let silent : length (encode []) ≡ 0 =
          omega
            (arith, ap length (encode-append [] [] tt tt), length-append (encode []) (encode [])) in
        let same : encode s ≡ encode [] =
          nil_of_length (encode s) (ground (arith, e)) ∙ sym (nil_of_length (encode []) silent) in
        let empty = sym (decode-encode s h) ∙ ap decode same ∙ decode-encode [] tt in
        absurd (omega (arith, ap length empty, n))
  ]

  push_bytes-flatten :
      (bs : Bytes) (e : MonitorEntry)
      → 1 ≤ length bs
      → (flatten (push_bytes encode decode bs e).pushed ≡ flatten e.pushed ++ decode bs)
        × ((push_bytes encode decode bs e).cursor ≡ e.cursor)
  unfolding push_bytes
  push_bytes-flatten [] e h = absurd (omega (arith, h))
  push_bytes-flatten (b ∷ bs) e h = (flatten-snoc e.pushed (decode (b ∷ bs)), refl)

  -- A chunk of which a beginning was delivered.
  accept_of_new :
      (front back : Text) (o : Output) (e : MonitorEntry)
      → All IsChar front
      → All IsChar back
      → 1 ≤ length (encode back)
      → o.chunk ≡ front ++ back
      → o.cursor ≡ some (e.cursor + length (encode back))
      → accept_output encode decode o e
        ≡ push_bytes encode decode
            (encode back)
            (record e { cursor = e.cursor + length (encode back) })
  unfolding accept_output
  accept_of_new front back o e f b n cut at =
      let c = e.cursor in
      let next = c + length (encode back) in
      let e' : MonitorEntry = record e { cursor = next } in
      let goal = push_bytes encode decode (encode back) e' in
      let bytes : encode o.chunk ≡ encode front ++ encode back =
        ap encode cut ∙ encode-append front back f b in
      let size : length (encode o.chunk) ≡ length (encode front) + length (encode back) =
        ap length bytes ∙ length-append (encode front) (encode back) in
      rw (at, accept_output)
        (if_cases (λ (x : MonitorEntry). x ≡ goal) (leb next c)
          (λ old. absurd (omega (arith, leb→le next c old, n)))
          (λ new.
            ap (λ (bs : Bytes). push_bytes encode decode bs e')
              (if_cases (λ (x : Bytes). x ≡ encode back) (ltb next (c + length (encode o.chunk)))
                (λ over.
                  ap (λ (bs : Bytes). drop (c + length bs - next) bs) bytes
                  ∙ ap (λ k. drop k (encode front ++ encode back))
                      (omega (arith, length-append (encode front) (encode back)))
                  ∙ drop_of-append (encode front) (encode back))
                (λ whole.
                  bytes
                  ∙ ap (λ (x : Bytes). x ++ encode back)
                      (nil_of_length (encode front) (ground (arith, whole, size)))))))

  accept_of_old :
      (o : Output) (e : MonitorEntry) (n : ℕ)
      → o.cursor ≡ some n
      → n ≤ e.cursor
      → accept_output encode decode o e ≡ e
  unfolding accept_output
  accept_of_old o e n f h = rw (f, accept_output) (ground arith)

  -- The batcher was given the beginning of the stream that has been seen, and the cursor is there.
  IsDelivered : Text → ℕ → MonitorEntry → Type 0
  IsDelivered stream r e =
      (flatten e.pushed ≡ take r stream) × (e.cursor ≡ length (encode (take r stream)))

  accept_past :
      (stream : Text) (r : ℕ) (p : Span) (e : MonitorEntry)
      → All IsChar stream
      → p.start ≤ r
      → p.start + p.size ≤ length stream
      → r < p.start + p.size
      → IsDelivered stream r e
      → IsDelivered stream
          (p.start + p.size)
          (accept_output encode decode (output_of encode stream p) e)
  unfolding IsDelivered
  accept_past stream r p e chars a b more (shown, at) =
      let whole = drop p.start stream in
      let front = take (r - p.start) whole in
      let back = take (p.size - (r - p.start)) (drop (r - p.start) whole) in
      let end = p.start + p.size in
      let front_chars =
        All-take IsChar (r - p.start) whole (All-drop IsChar p.start stream chars) in
      let back_chars =
        All-take IsChar (p.size - (r - p.start)) (drop (r - p.start) whole)
          (All-drop IsChar (r - p.start) whole (All-drop IsChar p.start stream chars)) in
      let cut : take p.size whole ≡ front ++ back =
        take-take (r - p.start) p.size whole (omega arith)
          (omega (arith, length-drop p.start stream, b)) in
      let joined = take_joined stream r p a b more in
      let some_back : 1 ≤ length back = omega (
        arith,
        ap length joined,
        length-append (take r stream) back,
        length-take end stream,
        length-take r stream,
        b,
        more,
      ) in
      let positive = encode-positive back back_chars some_back in
      let at_end : length (encode (take end stream)) ≡ e.cursor + length (encode back) =
        ap (λ (x : Text). length (encode x)) joined
        ∙ ap length (encode-append (take r stream) back (All-take IsChar r stream chars) back_chars)
        ∙ omega (arith, length-append (encode (take r stream)) (encode back), at) in
      let e' : MonitorEntry = record e { cursor = e.cursor + length (encode back) } in
      let given = push_bytes-flatten (encode back) e' positive in
      subst
        (λ (x : MonitorEntry).
          (flatten x.pushed ≡ take end stream) × (x.cursor ≡ length (encode (take end stream))))
        (sym (
          accept_of_new front back (output_of encode stream p) e front_chars back_chars positive cut
            (ap some at_end)))
        (
          given.0
              ∙ ap (λ (x : Text). flatten e.pushed ++ x) (decode-encode back back_chars)
              ∙ ap (λ (x : Text). x ++ back) shown
              ∙ sym joined,
          given.1 ∙ sym at_end,
        )

  accept_before :
      (stream : Text) (r : ℕ) (p : Span) (e : MonitorEntry)
      → All IsChar stream
      → r ≤ length stream
      → p.start + p.size ≤ r
      → IsDelivered stream r e
      → accept_output encode decode (output_of encode stream p) e ≡ e
  unfolding IsDelivered
  accept_before stream r p e chars l less (shown, at) =
      let end = p.start + p.size in
      let back = take (r - end) (drop end stream) in
      let back_chars =
        All-take IsChar (r - end) (drop end stream) (All-drop IsChar end stream chars) in
      let size : length (encode (take r stream))
          ≡ length (encode (take end stream)) + length (encode back) =
        ap (λ (x : Text). length (encode x)) (take-take end r stream less l)
        ∙ ap length
            (encode-append (take end stream) back (All-take IsChar end stream chars) back_chars)
        ∙ length-append (encode (take end stream)) (encode back) in
      accept_of_old (output_of encode stream p) e (length (encode (take end stream))) refl
        (omega (arith, size, at))

  accept-IsDelivered :
      (stream : Text) (r : ℕ) (p : Span) (e : MonitorEntry)
      → All IsChar stream
      → r ≤ length stream
      → p.start ≤ r
      → p.start + p.size ≤ length stream
      → IsDelivered stream r e
      → IsDelivered stream
          (max r (p.start + p.size))
          (accept_output encode decode (output_of encode stream p) e)
  accept-IsDelivered stream r p e chars l a b d = elim (Bool-cases (ltb r (p.start + p.size))) [
    | inl more ↦
        subst
          (λ n. IsDelivered stream n (accept_output encode decode (output_of encode stream p) e))
          (ground (arith, more)) (accept_past stream r p e chars a b (ground (arith, more)) d)
    | inr less ↦
        let same : r ≡ max r (p.start + p.size) = ground (arith, less) in
        subst
          (λ n. IsDelivered stream n (accept_output encode decode (output_of encode stream p) e))
          same
          (subst (IsDelivered stream r)
            (sym (accept_before stream r p e chars l (ground (arith, less)) d)) d)
  ]

  accept_all-IsDelivered :
      (stream : Text) (r : ℕ) (ps : List Span) (e : MonitorEntry)
      → All IsChar stream
      → r ≤ length stream
      → AreConnected (length stream) r ps
      → IsDelivered stream r e
      → IsDelivered stream
          (reached r ps)
          (accept_all encode decode (map (output_of encode stream) ps) e)
  unfolding accept_all
  accept_all-IsDelivered stream r [] e chars l c d = d
  accept_all-IsDelivered stream r (p ∷ ps) e chars l (a, b, c) d =
      accept_all-IsDelivered stream (max r (p.start + p.size)) ps
        (accept_output encode decode (output_of encode stream p) e) chars (omega (arith, l, b)) c
        (accept-IsDelivered stream r p e chars l a b d)

  -- A new monitor delivers every character once and in order: when its chunks are spans of one
  -- stream of characters, each with the number of bytes up to its end as its cursor, in whatever
  -- overlapping or repeated spans, but none past a gap, then the texts that its batcher was given
  -- are together the stream up to the furthest end of a span, and the cursor is the number of bytes
  -- of that. Assumed of UTF-8: on Unicode scalar values the encoding of two texts in a row is that
  -- of both, and decoding undoes it.
  pub accept_all-new_entry :
      (stream : Text) (ps : List Span)
      → All IsChar stream
      → AreConnected (length stream) 0 ps
      → (flatten (accept_all encode decode (map (output_of encode stream) ps) new_entry).pushed
          ≡ take (reached 0 ps) stream)
        × ((accept_all encode decode (map (output_of encode stream) ps) new_entry).cursor
            ≡ length (encode (take (reached 0 ps) stream)))
  unfolding IsDelivered flatten
  accept_all-new_entry stream ps chars c =
      let silent : length (encode []) ≡ 0 =
        omega
          (arith, ap length (encode-append [] [] tt tt), length-append (encode []) (encode [])) in
      accept_all-IsDelivered stream 0 ps new_entry chars (omega arith) c (refl, sym silent)
