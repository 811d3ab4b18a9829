-- ===== src/Message/Dispatcher/Laws.antt =====
-- Registration: the first handler of a type stays, and other types are not touched.
use first_server.Common.{◌≡◌, none, some, if◌then◌else◌, ℤ, eqb_ℤ, eqb_ℤ→eq, or_else, arith}
use first_server.Message.Dispatcher.{MessageDispatcher, find, register_handler}

-- After a registration a message type has the handler that it had, if it had one; else the
-- registered type has the new handler, and any other type has none.
pub find-register_handler {ℓ} :
    {H : Type ℓ} (t u : ℤ) (h : H) (d : MessageDispatcher H)
    → find u (register_handler t h d).handlers
      ≡ or_else (find u d.handlers) (if eqb_ℤ t u then some h else none)
unfolding find register_handler
find-register_handler t u h d = ground (arith, eqb_ℤ→eq t u)
