-- ===== src/Session/Stream/Live.antt =====
-- A peer that sends whole messages, none longer than the buffer: every byte is read, and every
-- message is handed over, however the kernel cuts the stream.
use first_server.Common.{
  ℕ, suc, ◌≤◌, ◌<◌, ◌≡◌, refl, sym, ap, ◌∙◌, List, [], ◌∷◌, ◌++◌, some, length, take, drop, arith,
  length-drop, length-append, dec_lt, append-nil, append_assoc, take-append-drop,
}
use first_server.Net.Object.{max_receive_buffer_size, get_received_span}
use first_server.Net.Object.Laws.{Holds, length-received}
use first_server.Message.Dispatcher.{MessageDispatcher, Call}
use first_server.Session.Framing.Frames.{
  NoMessage, Frames-NoMessage, AllMessages, concat, Frames-concat_split, front_of_concat,
}
use first_server.Session.Framing.Laws.{calls, calls-append}
use first_server.Session.Connection.{ServiceSession}
use first_server.Session.Stream.Defs.{given, feed}
use first_server.Session.Stream.Laws.{recv_completion-Received, get_remain_span_lem, given-fits}

-- No message is longer than the receive buffer.
abbrev pub AllFit : List (List ℕ) → Type 0
AllFit [] = Unit
AllFit (m ∷ ms) = (length m ≤ max_receive_buffer_size) × AllFit ms

-- Every receive gives a byte, if there is one and room for it.
abbrev pub AllPositive : List ℕ → Type 0
AllPositive [] = Unit
AllPositive (n ∷ ns) = (1 ≤ n) × AllPositive ns

AllFit-drop : (ms others all : List (List ℕ)) → all ≡ ms ++ others → AllFit all → AllFit others
AllFit-drop ms others all e w = go ms (rw e at w)
  where
    go : (ms : List (List ℕ)) → AllFit (ms ++ others) → AllFit others
    go [] w = w
    go (m ∷ ms) w = go ms w.1

AllMessages-drop :
    (ms others all : List (List ℕ)) → all ≡ ms ++ others → AllMessages all → AllMessages others
AllMessages-drop ms others all e w = go ms (rw e at w)
  where
    go : (ms : List (List ℕ)) → AllMessages (ms ++ others) → AllMessages others
    go [] w = w
    go (m ∷ ms) w = go ms w.1

-- The buffer is never full of bytes that are no message.
room :
    (bytes later : List ℕ) (all : List (List ℕ))
    → bytes ++ later ≡ concat all
    → NoMessage bytes
    → AllMessages all
    → AllFit all
    → length bytes < max_receive_buffer_size
room bytes later [] e none_left w fit = omega (arith, ap length e, length-append bytes later)
room bytes later (m ∷ all) e none_left w fit =
    elim (dec_lt (length bytes) max_receive_buffer_size) [
      | yes h ↦ h
      | no h ↦ absurd (
          none_left m (drop (length m) bytes) (front_of_concat bytes later m all e (omega arith))
            w.0)
    ]

-- Nothing is left to read and nothing is pending: there was no message to come.
done :
    (bytes : List ℕ) (all : List (List ℕ))
    → bytes ++ [] ≡ concat all
    → NoMessage bytes
    → AllMessages all
    → (all ≡ []) × (bytes ≡ [])
done bytes [] e none_left w = (refl, sym (append-nil bytes) ∙ e)
done bytes (m ∷ all) e none_left w =
    absurd (none_left m (concat all) (sym (append-nil bytes) ∙ e) w.0)

-- A receive with room for a byte shortens what is to come.
shorter :
    (s : ServiceSession) (k : ℕ) (stream sizes : List ℕ) {n : ℕ}
    → Holds n s.object
    → length (get_received_span s.object) < max_receive_buffer_size
    → 1 ≤ k
    → length stream ≤ suc (length sizes)
    → length (drop (given s k) stream) ≤ length sizes
shorter s k stream sizes v roomy positive enough =
    omega (arith, length-drop (given s k) stream, (get_remain_span_lem v).1, length-received v)

module _ {ℓ} {H : Type ℓ} (d : MessageDispatcher H) where
  -- A session holds committed bytes with no whole message in them, and the peer's stream completes
  -- these bytes to whole messages, none longer than the receive buffer. If there are as many
  -- receives as bytes to come, and each asks for a byte or more, then all bytes are read, however
  -- the kernel cuts the stream, the handler of each message that has one has been called once, in
  -- order, and nothing is left in the buffer.
  pub feed_delivers :
      (sizes stream : List ℕ) {n : ℕ} (s : ServiceSession) (log : List (Call H))
      (all : List (List ℕ))
      → Holds n s.object
      → NoMessage (get_received_span s.object)
      → get_received_span s.object ++ stream ≡ concat all
      → AllMessages all
      → AllFit all
      → AllPositive sizes
      → length stream ≤ length sizes
      → (final : ServiceSession) × (feed d sizes stream s log
          ≡ some ([], final, log ++ calls d s.main_actor all))
        × (get_received_span final.object ≡ [])
  unfolding feed
  feed_delivers [] [] s log all v none_left e w fit positive enough =
      let (empty, clear) = done (get_received_span s.object) all e none_left w in
      (s, rw (empty, append-nil), clear)
  feed_delivers [] (b ∷ stream) s log all v none_left e w fit positive enough = absurd (omega arith)
  feed_delivers (k ∷ sizes) stream s log all v none_left e w fit positive enough =
      let chunk = take (given s k) stream in
      let later = drop (given s k) stream in
      let one = recv_completion-Received d s chunk log v (given-fits s k stream v) in
      let (others, first, left) =
        Frames-concat_split later all one.frames
          (append_assoc (get_received_span s.object) chunk later
            ∙ ap (◌++◌ (get_received_span s.object)) (take-append-drop (given s k) stream)
            ∙ e)
          w in
      let (final, ends, clear) =
        feed_delivers sizes later one.outcome.session one.outcome.log others one.holds
          (Frames-NoMessage one.frames) left (AllMessages-drop one.messages others all first w)
          (AllFit-drop one.messages others all first fit) positive.1
          (shorter s k stream sizes v
            (room (get_received_span s.object) stream all e none_left w fit) positive.0 enough) in
      (
        final,
        rw (one.returns, feed)
            (ends
              ∙ ap (λ l. some ([], final, l))
                  (ground (
                    arith,
                    one.called,
                    one.same_actor,
                    first,
                    calls-append d s.main_actor one.messages others,
                    append_assoc log (calls d s.main_actor one.messages)
                        (calls d s.main_actor others),
                  ))),
        clear,
      )
