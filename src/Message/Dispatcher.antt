-- ===== src/Message/Dispatcher.antt =====
-- braid/src/service/.../message/MessageDispatcher: which handler a message type has.
-- A handler is the application's code, so handlers are values of any type `H`; a call of one is
-- recorded, with the bytes and the actor that it is given, at the end of the log. An actor is known
-- by a number, and `none` is a null pointer.
pub mod Laws
use first_server.Common.{
  ℕ, ◌≡◌, refl, List, [], ◌∷◌, ◌++◌, Option, none, some, Bool, true, false, if◌then◌else◌, ℤ, eqb_ℤ,
}

pub record MessageDispatcher {ℓ} (H : Type ℓ) : Type ℓ where
  pub handlers : List (ℤ × H)

pub record Call {ℓ} (H : Type ℓ) : Type ℓ where
  pub handler : H
  pub bytes : List ℕ
  pub actor : Option ℕ

module _ {ℓ} {H : Type ℓ} where
  unfoldable pub find : ℤ → List (ℤ × H) → Option H
  find t [] = none
  find t ((u, h) ∷ rest) = if eqb_ℤ u t then some h else find t rest

  unfoldable pub dispatch :
      MessageDispatcher H → ℤ → List ℕ → Option ℕ → List (Call H) → Bool × List (Call H)
  dispatch d message_type bytes actor log = elim (find message_type d.handlers) [
    | none ↦ (false, log)
    | some h ↦ (true, log ++ (record { handler = h; bytes = bytes; actor = actor } ∷ []))
  ]

  unfoldable pub register_handler : ℤ → H → MessageDispatcher H → MessageDispatcher H
  register_handler message_type h d = elim (find message_type d.handlers) [
    | some _ ↦ d
    | none ↦ record { handlers = (message_type, h) ∷ d.handlers }
  ]
