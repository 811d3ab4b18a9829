-- ===== src/Session/Stream/Cut.antt =====
-- Two ways to cut one stream.
use first_server.Common.{
  ℕ, ◌≡◌, sym, ap, ◌∙◌, List, ◌++◌, some, length, length-append, append_parts, arith, subst,
}
use first_server.Net.Object.{get_received_span}
use first_server.Net.Object.Laws.{Holds}
use first_server.Message.Dispatcher.{MessageDispatcher, Call}
use first_server.Session.Connection.{ServiceSession}
use first_server.Session.Framing.Frames.{NoMessage, Frames, Frames-unique}
use first_server.Session.Framing.Laws.{calls}
use first_server.Session.Stream.Defs.{feed}
use first_server.Session.Stream.Laws.{feed-Fed}

-- Fronts of one list, with the same rest.
front_of : (xs ys rest : List ℕ) → xs ++ rest ≡ ys ++ rest → xs ≡ ys
front_of xs ys rest e =
    (append_parts xs ys rest rest e
      (omega (arith, ap length e, length-append xs rest, length-append ys rest))).0

module _ {ℓ} {H : Type ℓ} (d : MessageDispatcher H) where
  -- Where a session's committed bytes hold no whole message, two runs of receives over the same
  -- stream, of different sizes and numbers, that leave the same rest of the stream have called the
  -- same handlers with the same messages, in the same order, and leave the same committed bytes.
  pub feed_cut :
      (sizes sizes' stream : List ℕ) {n : ℕ} (s : ServiceSession) (log : List (Call H))
      → Holds n s.object
      → NoMessage (get_received_span s.object)
      → (rest : List ℕ) (final final' : ServiceSession) (log1 log2 : List (Call H))
      → feed d sizes stream s log ≡ some (rest, final, log1)
      → feed d sizes' stream s log ≡ some (rest, final', log2)
      → (log1 ≡ log2) × (get_received_span final.object ≡ get_received_span final'.object)
  feed_cut sizes sizes' stream s log v none_left rest final final' log1 log2 e e' =
      let one = feed-Fed d sizes stream s log v none_left in
      let two = feed-Fed d sizes' stream s log v none_left in
      let same1 = sym one.returns ∙ e in
      let same2 = sym two.returns ∙ e' in
      let rest1 : one.rest ≡ rest = cc in
      let rest2 : two.rest ≡ rest = cc in
      let read : one.consumed ≡ two.consumed = front_of one.consumed two.consumed rest (
        ap (λ r. one.consumed ++ r) (sym rest1)
        ∙ sym one.split
        ∙ two.split
        ∙ ap (λ r. two.consumed ++ r) rest2) in
      let (messages, left) = Frames-unique one.frames (
        subst
          (λ c.
            Frames (get_received_span s.object ++ c) two.messages
              (get_received_span two.final.object))
          (sym read) two.frames) in
      let final1 : one.final ≡ final = cc in
      let final2 : two.final ≡ final' = cc in
      let logged1 : log ++ calls d s.main_actor one.messages ≡ log1 = cc in
      let logged2 : log ++ calls d s.main_actor two.messages ≡ log2 = cc in
      (
        sym logged1 ∙ ap (λ m. log ++ calls d s.main_actor m) messages ∙ logged2,
        ap (λ f. get_received_span f.object) (sym final1)
            ∙ left
            ∙ ap (λ f. get_received_span f.object) final2,
      )
