-- ===== src/Session/Stream/Stall.antt =====
-- A header that states a size which no message in the buffer can have stops its connection.
use first_server.Common.{
  ℕ, ◌≤◌, ◌≡◌, refl, sym, ap, ◌∙◌, ◌⊎◌, List, [], ◌∷◌, ◌++◌, some, pos, ltb_ℤ, true, length, take,
  drop, arith, length-append, append-nil, subst,
}
use first_server.Net.Object.{max_receive_buffer_size, get_received_span}
use first_server.Net.Object.Laws.{Holds, length-received}
use first_server.Message.Header.{parse_message, sizeof_header}
use first_server.Message.Dispatcher.{MessageDispatcher, Call}
use first_server.Session.Framing.Frames.{Frames, stop, message, parse_message-append}
use first_server.Session.Connection.{ServiceSession}
use first_server.Session.Stream.Defs.{given, feed}
use first_server.Session.Stream.Laws.{recv_completion-Received, given-fits}

-- A header whose size is below that of a header, or beyond the receive buffer.
abbrev pub IsHopeless : List ℕ → Type 0
IsHopeless bytes =
    (sizeof_header ≤ length bytes)
    × ((ltb_ℤ (parse_message bytes).size (pos sizeof_header) ≡ true)
        ⊎ (ltb_ℤ (pos max_receive_buffer_size) (parse_message bytes).size ≡ true))

IsHopeless-append : (bytes more : List ℕ) → IsHopeless bytes → IsHopeless (bytes ++ more)
IsHopeless-append bytes more h =
    (omega (arith, length-append bytes more, h.0), rw (parse_message-append bytes more h.0) h.1)

-- Such bytes split into no message, as long as they are within the buffer.
Frames-IsHopeless :
    {bytes rest : List ℕ} {ms : List (List ℕ)}
    → Frames bytes ms rest
    → IsHopeless bytes
    → length bytes ≤ max_receive_buffer_size
    → (ms ≡ []) × (rest ≡ bytes)
Frames-IsHopeless (stop e none_left) h fit = (refl, e)
Frames-IsHopeless (message m tail e w f) h fit = absurd (
    ground (
      arith,
      w,
      h,
      ap length e,
      length-append m tail,
      ap (λ b. (parse_message b).size) e,
      parse_message-append m tail w.0,
    ))

module _ {ℓ} {H : Type ℓ} (d : MessageDispatcher H) where
  -- Once a header at the front of the committed bytes states a size below that of a header or
  -- beyond the receive buffer, no sequence of receives calls a handler again, whatever the peer
  -- sends, and such a header is still at the front afterwards.
  pub feed-IsHopeless :
      (sizes stream : List ℕ) {n : ℕ} (s : ServiceSession) (log : List (Call H))
      → Holds n s.object
      → IsHopeless (get_received_span s.object)
      → (rest : List ℕ) × (final : ServiceSession) × (feed d sizes stream s log
          ≡ some (rest, final, log))
        × IsHopeless (get_received_span final.object)
  unfolding feed
  feed-IsHopeless [] stream s log v h = (stream, s, refl, h)
  feed-IsHopeless (k ∷ sizes) stream s log v h =
      let chunk = take (given s k) stream in
      let one = recv_completion-Received d s chunk log v (given-fits s k stream v) in
      let (none_left, same) =
        Frames-IsHopeless one.frames (IsHopeless-append (get_received_span s.object) chunk h) (
          omega (
            arith,
            length-append (get_received_span s.object) chunk,
            length-received v,
            given-fits s k stream v,
          )) in
      let (rest, final, ends, kept) =
        feed-IsHopeless sizes (drop (given s k) stream) one.outcome.session one.outcome.log
          one.holds
          (subst IsHopeless (sym same) (IsHopeless-append (get_received_span s.object) chunk h)) in
      (
        rest,
        final,
        rw (one.returns, feed)
            (ends
              ∙ ap (λ l. some (rest, final, l))
                  (ground (arith, one.called, none_left, append-nil log))),
        kept,
      )
