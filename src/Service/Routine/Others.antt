-- ===== src/Service/Routine/Others.antt =====
-- What the program has and does not use: IOOperationSend.cc and IOOperationNop.cc of
-- braid/src/service/src/net, and the move constructor of IOCompletion.cc.
use first_server.Common.{
  ℕ, ◌≡◌, refl, List, Option, none, some, Bool, true, false, if◌then◌else◌, ℤ, pos, ltb_ℤ,
}
use first_server.Lockfree.{LockfreeQueue}
use first_server.Net.Object.{IoUringObject}
use first_server.Net.Uring.{IoUring, prep_send, prep_nop}
use first_server.Message.Dispatcher.{MessageDispatcher}
use first_server.Session.Connection.{io_send_buffer}
use first_server.Service.{IoOperation, Service}
use first_server.Service.Routine.{IoCompletion, with_sqe, request_on, handle_io_completion}

-- The new completion, and what is left of the old one: the operation is not taken over.
unfoldable pub move_completion : IoCompletion → IoCompletion × IoCompletion
move_completion io_completion = (
  record {
    has_cqe = io_completion.has_cqe;
    result = io_completion.result;
    completed_operation = none;
  },
  record {
    has_cqe = false;
    result = pos 0;
    completed_operation = io_completion.completed_operation;
  },
)

-- `IOOperationSend::handle_io_completion` and `IOOperationNop::handle_io_completion`, with whether
-- `io_object_` is set: what `on_sent` is called with, and whether `on_event_completed` is called
unfoldable pub send_handle_io_completion : Bool → ℤ → Option ℤ
send_handle_io_completion has_object result =
    if has_object then (if ltb_ℤ result (pos 0) then none else some result) else none

unfoldable pub nop_handle_io_completion : Bool → ℤ → Bool
nop_handle_io_completion has_object result =
    if has_object then (if ltb_ℤ result (pos 0) then false else true) else false

module _ (U : IoUring IoOperation) where
  -- `IOOperationSend::request_io`, where `buffer_` has the bytes
  unfoldable pub send_request_io : List ℕ → IoOperation → IoUringObject → U.Ring → Option U.Ring
  send_request_io bytes op object ring = with_sqe U (prep_send object.socket_fd bytes) op ring

  -- `IOOperationNop::request_io`: whether `on_event_request` is called, and the ring, which may be a
  -- null pointer; `none` is a null pointer that is written through.
  unfoldable pub nop_request_io : Bool → IoOperation → Option U.Ring → Option (Bool × Option U.Ring)
  nop_request_io has_object op none = some (false, none)
  nop_request_io has_object op (some ring) =
      if has_object
      then elim (with_sqe U prep_nop op ring) [ none ↦ none | some ring' ↦ some (true, some ring') ]
      else some (false, some ring)

  -- A send of bytes asks the ring for the same as a send of a buffer with these bytes.
  send_request_io-request_on :
      (bytes : List ℕ) (op : IoOperation) (object : IoUringObject) (ring : U.Ring)
      → send_request_io bytes op object ring ≡ request_on U (io_send_buffer bytes) op object ring
  unfolding send_request_io request_on
  send_request_io-request_on bytes op object ring = refl

  module _ (Sessions : LockfreeQueue ℕ) (Operations : LockfreeQueue IoOperation)
      (acquires : ℕ → Bool) where
    module _ {ℓ} {H : Type ℓ} (d : MessageDispatcher H) where
      -- A completion that has been moved handles nothing, whatever it was a completion of.
      handle-move_completion :
          (completion : IoCompletion) (s : Service Sessions Operations acquires)
          → handle_io_completion U Sessions Operations acquires d (move_completion completion).0 s
            ≡ s
      unfolding handle_io_completion move_completion
      handle-move_completion completion s = refl
