-- ===== src/Session/Framing.antt =====
-- The loop of `ServiceSession::on_received` (braid/src/service/src/service/ServiceSession.cc): it
-- cuts the received bytes into messages and hands each to the dispatcher. The loop runs on fuel;
-- each round drops at least a header's eight bytes, so one round more than the committed bytes is
-- enough, and `none` says that the fuel ran out.
pub mod Frames
pub mod Laws
use first_server.Common.{
  ℕ, zero, suc, List, Option, none, some, if◌then◌else◌, ltb, pos, ltb_ℤ, to_size, signed32, length,
  take,
}
use first_server.Net.Object.{IoUringObject, get_received_span, process_completed}
use first_server.Message.Header.{parse_message, sizeof_header}
use first_server.Message.Dispatcher.{MessageDispatcher, Call, dispatch}

module _ {ℓ} {H : Type ℓ} (d : MessageDispatcher H) (main_actor : Option ℕ) where
  unfoldable pub deliver :
      ℕ → IoUringObject → List (Call H) → Option (IoUringObject × List (Call H))
  deliver zero o log = none
  deliver (suc fuel) o log =
      let received_span = get_received_span o in
      let header = parse_message received_span in
      let message_span = take (to_size header.size) received_span in
      let (_, log') = dispatch d (signed32 header.message_type) message_span main_actor log in
      let rest = deliver fuel (process_completed header.size o) log' in
      if ltb_ℤ o.commited_size (pos sizeof_header)
      then some (o, log)
      else if ltb_ℤ header.size (pos sizeof_header)
      then some (o, log)
      else if ltb (length received_span) (to_size header.size)
      then some (o, log)
      else rest

  -- the loop with the fuel that always suffices
  unfoldable pub deliver_all :
      IoUringObject → List (Call H) → Option (IoUringObject × List (Call H))
  deliver_all o log = deliver (suc (to_size o.commited_size)) o log
