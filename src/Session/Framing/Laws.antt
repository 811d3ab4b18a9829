-- ===== src/Session/Framing/Laws.antt =====
-- The framing loop against the split of the bytes.
use first_server.Common.{
  ℕ, zero, suc, ◌-◌, ◌≤◌, ◌<◌, ◌≡◌, refl, sym, ap, ◌∙◌, inl, inr, List, [], ◌∷◌, ◌++◌, Option, none,
  some, ℤ, pos, negsuc, ltb_ℤ, to_size, signed32, false, ltb, length, take, drop, take-append-drop,
  append_assoc, append-nil, arith, Bool-cases, subst, Option-cases,
}
use first_server.Net.Object.{IoUringObject, get_received_span, process_completed}
use first_server.Net.Object.Laws.{
  Holds, length-received, process_completed-Holds, received-process_completed,
}
use first_server.Message.Header.{parse_message, sizeof_header}
use first_server.Message.Dispatcher.{MessageDispatcher, Call, find, dispatch}
use first_server.Session.Framing.{deliver}
use first_server.Session.Framing.Frames.{
  Frames, NoMessage, parse_message-take, stop, message, NoMessage-short, NoMessage-bad_size,
  NoMessage-partial, front-IsMessage,
}

size_cases :
    (z : ℤ) → ltb_ℤ z (pos sizeof_header) ≡ false → (k : ℕ) × (z ≡ pos k) × (sizeof_header ≤ k)
size_cases (pos k) h = (k, refl, ground arith)
size_cases (negsuc k) h = absurd (ground arith)

module _ {ℓ} {H : Type ℓ} (d : MessageDispatcher H) (actor : Option ℕ) where
  -- The calls that messages lead to, in order: none for a message whose type has no handler.
  abbrev pub calls : List (List ℕ) → List (Call H)
  calls [] = []
  calls (m ∷ ms) = elim (find (signed32 (parse_message m).message_type) d.handlers) [
    | none ↦ calls ms
    | some h ↦ record { handler = h; bytes = m; actor = actor } ∷ calls ms
  ]

  pub calls-append : (ms ms' : List (List ℕ)) → calls (ms ++ ms') ≡ calls ms ++ calls ms'
  calls-append [] ms' = refl
  calls-append (m ∷ ms) ms' = ground (arith, calls-append ms ms')

  -- What a run of the loop from `o` gives.
  pub record Delivered (o : IoUringObject) (log : List (Call H))
      (result : Option (IoUringObject × List (Call H))) : Type ℓ where
    pub messages : List (List ℕ)
    pub final : IoUringObject
    pub left : ℕ
    pub returns : result ≡ some (final, log ++ calls messages)
    pub frames : Frames (get_received_span o) messages (get_received_span final)
    pub holds : Holds left final

  dispatch-calls :
      (m : List ℕ) (ms : List (List ℕ)) (log : List (Call H))
      → (dispatch d (signed32 (parse_message m).message_type) m actor log).1 ++ calls ms
        ≡ log ++ calls (m ∷ ms)
  unfolding dispatch
  dispatch-calls m ms log =
      elim (Option-cases (find (signed32 (parse_message m).message_type) d.handlers)) [
        | inl e ↦ ground (arith, e)
        | inr (h, e) ↦
            let call : List (Call H) = record { handler = h; bytes = m; actor = actor } ∷ [] in
            ground (arith, e, append_assoc log call (calls ms))
      ]

  stopped :
      {n : ℕ} {o : IoUringObject} (log : List (Call H))
      → Holds n o
      → NoMessage (get_received_span o)
      → Delivered o log (some (o, log))
  stopped {n} {o} log v none_left = record {
    messages = [];
    final = o;
    left = n;
    returns = rw (append-nil log);
    frames = stop refl none_left;
    holds = v;
  }

  -- A round that hands the message `m` to the dispatcher, before the rest of the run.
  one_more :
      {n : ℕ} {o : IoUringObject} (log : List (Call H)) (k : ℕ)
      {r : Option (IoUringObject × List (Call H))}
      → Holds n o
      → (parse_message (get_received_span o)).size ≡ pos k
      → sizeof_header ≤ k
      → k ≤ n
      → Delivered
          (process_completed (pos k) o)
          (dispatch d
            (signed32 (parse_message (get_received_span o)).message_type)
            (take k (get_received_span o))
            actor
            log).1
          r
      → Delivered o log r
  one_more {n} {o} log k v e h fit later = record {
    messages = m ∷ later.messages;
    final = later.final;
    left = later.left;
    returns = later.returns ∙ ap (λ l. some (later.final, l)) called;
    frames =
        message m (drop k bytes) (sym (take-append-drop k bytes)) (front-IsMessage bytes k e h fits)
          (subst (λ b. Frames b later.messages (get_received_span later.final))
            (received-process_completed v k fit) later.frames);
    holds = later.holds;
  }
    where
      bytes : List ℕ
      bytes = get_received_span o

      m : List ℕ
      m = take k bytes

      fits : k ≤ length bytes
      fits = omega (arith, length-received v)

      called :
          (dispatch d (signed32 (parse_message bytes).message_type) m actor log).1
            ++ calls later.messages
          ≡ log ++ calls (m ∷ later.messages)
      called =
          ap (λ hd. (dispatch d (signed32 hd.message_type) m actor log).1 ++ calls later.messages)
            (sym (parse_message-take bytes k h fits))
          ∙ dispatch-calls m later.messages log

  -- With a receive buffer of `n` committed bytes and fuel for more than `n` rounds, the loop of
  -- `on_received` ends by itself. It has called the handlers of the messages that the bytes split
  -- into, in order, and leaves the bytes that follow the last of them, committed at the front of
  -- the buffer.
  pub deliver-Delivered :
      (fuel n : ℕ) {o : IoUringObject} (log : List (Call H))
      → Holds n o
      → n < fuel
      → Delivered o log (deliver d actor fuel o log)
  unfolding deliver
  deliver-Delivered zero n log v h = absurd (omega arith)
  deliver-Delivered (suc fuel) n {o} log v h =
      elim (Bool-cases (ltb_ℤ o.commited_size (pos sizeof_header))) [
        | inl short ↦
            rw short (stopped log v (NoMessage-short bytes (ground (arith, length-received v))))
        | inr header ↦ rw header (elim (Bool-cases (ltb_ℤ size (pos sizeof_header))) [
          | inl bad ↦ rw bad (stopped log v (NoMessage-bad_size bytes bad))
          | inr good ↦ rw good (elim (Bool-cases (ltb (length bytes) (to_size size))) [
            | inl partial ↦ rw partial (stopped log v (NoMessage-partial bytes partial))
            | inr whole ↦ rw whole (
                let (k, e, h8) = size_cases size good in
                let fit : k ≤ n = ground (arith, length-received v) in
                rw e (
                  one_more log k v e h8 fit (
                    deliver-Delivered fuel (n - k) _ (process_completed-Holds v k fit)
                      (omega arith))))
          ])
        ])
      ]
    where
      bytes : List ℕ
      bytes = get_received_span o

      size : ℤ
      size = (parse_message bytes).size
