-- ===== src/Session/Stream/Laws.antt =====
-- What a run of receives does to the bytes of the connection.
use first_server.Common.{
  ℕ, ◌+◌, ◌-◌, ◌≤◌, ◌≡◌, refl, sym, ap, ◌∙◌, List, [], ◌∷◌, ◌++◌, Option, some, false, ltb_ℤ, pos,
  length, take, drop, arith, length-take, -ℤ-pos, subst, append_assoc, append-nil, take-append-drop,
}
use first_server.Net.Object.{
  IoUringObject, max_receive_buffer_size, get_received_span, get_remain_span, commit,
}
use first_server.Net.Object.Laws.{Holds, written, received-commit, commit-Holds}
use first_server.Message.Dispatcher.{MessageDispatcher, Call}
use first_server.Session.Framing.{deliver_all}
use first_server.Session.Framing.Frames.{Frames, NoMessage, Frames-NoMessage, stop, Frames-append}
use first_server.Session.Framing.Laws.{calls, calls-append, Delivered, deliver-Delivered}
use first_server.Session.Connection.{
  ServiceSession, Outcome, request_receive, on_received, recv_completion,
}
use first_server.Session.Stream.Defs.{receives, given, feed}

-- The span that a receive asks for is the part of the buffer behind the committed bytes.
pub get_remain_span_lem :
    {n : ℕ} {o : IoUringObject}
    → Holds n o
    → ((get_remain_span o).offset ≡ n) × ((get_remain_span o).size ≡ max_receive_buffer_size - n)
unfolding get_remain_span
get_remain_span_lem {n} v =
    (rw v.committed, rw (v.committed, -ℤ-pos max_receive_buffer_size n v.fits))

pub given-fits :
    {n : ℕ} (s : ServiceSession) (k : ℕ) (stream : List ℕ)
    → Holds n s.object
    → n + length (take (given s k) stream) ≤ max_receive_buffer_size
given-fits {n} s k stream v =
    omega (arith, length-take (given s k) stream, (get_remain_span_lem v).1, v.fits)

module _ {ℓ} {H : Type ℓ} (d : MessageDispatcher H) where
  -- What the completion of a receive of `bytes` does.
  pub record Received (s : ServiceSession) (bytes : List ℕ) (log : List (Call H))
      (r : Option (Outcome H)) : Type ℓ where
    pub outcome : Outcome H
    pub returns : r ≡ some outcome
    pub messages : List (List ℕ)
    pub left : ℕ
    pub frames :
        Frames
          (get_received_span s.object ++ bytes)
          messages
          (get_received_span outcome.session.object)
    pub holds : Holds left outcome.session.object
    pub called : outcome.log ≡ log ++ calls d s.main_actor messages
    pub same_actor : outcome.session.main_actor ≡ s.main_actor
    pub asks : outcome.requests ≡ request_receive outcome.session

  on_received-Received :
      {n : ℕ} (s : ServiceSession) (log : List (Call H))
      → Holds n s.object
      → Received s [] log (on_received d s log)
  unfolding on_received deliver_all
  on_received-Received {n} s log v =
      rw (run.returns, on_received)
        (record {
          outcome = out;
          returns = refl;
          messages = run.messages;
          left = run.left;
          frames = rw append-nil run.frames;
          holds = run.holds;
          called = refl;
          same_actor = refl;
          asks = refl;
        })
    where
      run : Delivered d s.main_actor s.object log (deliver_all d s.main_actor s.object log)
      run = deliver-Delivered d s.main_actor _ n log v (rw v.committed (omega arith))

      s' : ServiceSession
      s' = record s { object = run.final }

      out : Outcome H
      out = record {
        session = s';
        requests = request_receive s';
        log = log ++ calls d s.main_actor run.messages;
      }

  pub recv_completion-Received :
      {n : ℕ} (s : ServiceSession) (bytes : List ℕ) (log : List (Call H))
      → Holds n s.object
      → n + length bytes ≤ max_receive_buffer_size
      → Received s bytes log (recv_completion d (pos (length bytes)) (receives s bytes) log)
  unfolding recv_completion
  recv_completion-Received {n} s bytes log v h =
      rw ((get_remain_span_lem v).0, not_negative)
        (record {
          outcome = later.outcome;
          returns = later.returns;
          messages = later.messages;
          left = later.left;
          frames =
              subst (λ b. Frames b later.messages (get_received_span later.outcome.session.object))
                (append-nil _ ∙ received-commit v bytes h) later.frames;
          holds = later.holds;
          called = later.called;
          same_actor = later.same_actor;
          asks = later.asks;
        })
    where
      not_negative : ltb_ℤ (pos (length bytes)) (pos 0) ≡ false
      not_negative = ground arith

      filled : ServiceSession
      filled = record s { object = commit (pos (length bytes)) (written s.object n bytes) }

      later : Received filled [] log (on_received d filled log)
      later = on_received-Received filled log (commit-Holds v bytes h)

  -- What a run of receives does: it takes a prefix of the stream, and calls the handlers of the
  -- messages that this prefix completes.
  pub record Fed (s : ServiceSession) (stream : List ℕ) (log : List (Call H))
      (r : Option (List ℕ × ServiceSession × List (Call H))) : Type ℓ where
    pub consumed : List ℕ
    pub rest : List ℕ
    pub final : ServiceSession
    pub messages : List (List ℕ)
    pub left : ℕ
    pub returns : r ≡ some (rest, final, log ++ calls d s.main_actor messages)
    pub split : stream ≡ consumed ++ rest
    pub frames :
        Frames (get_received_span s.object ++ consumed) messages (get_received_span final.object)
    pub holds : Holds left final.object
    pub same_actor : final.main_actor ≡ s.main_actor

  -- A receive, and a run after it.
  Fed-cons :
      (s : ServiceSession) (log : List (Call H)) {chunk stream later : List ℕ}
      {r : Option (Outcome H)} {r' : Option (List ℕ × ServiceSession × List (Call H))}
      → chunk ++ later ≡ stream
      → (one : Received s chunk log r) → Fed one.outcome.session later one.outcome.log r'
      → Fed s stream log r'
  Fed-cons s log {chunk} cut one more = record {
    consumed = chunk ++ more.consumed;
    rest = more.rest;
    final = more.final;
    messages = one.messages ++ more.messages;
    left = more.left;
    returns = more.returns ∙ ap (λ l. some (more.rest, more.final, l)) called;
    split = sym cut ∙ ap (◌++◌ chunk) more.split ∙ sym (append_assoc chunk more.consumed more.rest);
    frames =
        subst (λ b. Frames b (one.messages ++ more.messages) (get_received_span more.final.object))
          (append_assoc (get_received_span s.object) chunk more.consumed)
          (Frames-append more.consumed one.frames more.frames);
    holds = more.holds;
    same_actor = more.same_actor ∙ one.same_actor;
  }
    where
      called :
          one.outcome.log ++ calls d one.outcome.session.main_actor more.messages
          ≡ log ++ calls d s.main_actor (one.messages ++ more.messages)
      called = ground (
        arith,
        one.called,
        one.same_actor,
        calls-append d s.main_actor one.messages more.messages,
        append_assoc log (calls d s.main_actor one.messages) (calls d s.main_actor more.messages),
      )

  -- From a session whose committed bytes hold no whole message, any sequence of receives of any
  -- sizes comes back. It has taken a front part of the stream, has called the handlers of exactly
  -- the messages that this part completes, in order, and keeps the bytes that follow the last of
  -- them.
  pub feed-Fed :
      (sizes stream : List ℕ) {n : ℕ} (s : ServiceSession) (log : List (Call H))
      → Holds n s.object
      → NoMessage (get_received_span s.object)
      → Fed s stream log (feed d sizes stream s log)
  unfolding feed
  feed-Fed [] stream {n} s log v none_left = record {
    consumed = [];
    rest = stream;
    final = s;
    messages = [];
    left = n;
    returns = rw (append-nil log);
    split = refl;
    frames = rw append-nil (stop refl none_left);
    holds = v;
    same_actor = refl;
  }
  feed-Fed (k ∷ sizes) stream {n} s log v none_left =
      let chunk = take (given s k) stream in
      let one = recv_completion-Received s chunk log v (given-fits s k stream v) in
      rw (one.returns, feed)
        (Fed-cons s log (take-append-drop (given s k) stream) one (
          feed-Fed sizes (drop (given s k) stream) one.outcome.session one.outcome.log one.holds
            (Frames-NoMessage one.frames)))
