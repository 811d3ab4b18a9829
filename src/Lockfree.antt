-- ===== src/Lockfree.antt =====
-- `boost::lockfree::queue`, which the program takes from Boost: a queue of pointers, oldest first.
-- `push` fails, and says so, when no node can be allocated; nothing else fails. The record states
-- this documented behaviour, and the components take a value of it as a parameter.
use first_server.Common.{
  ◌≡◌, refl, sym, ap, ◌∙◌, Bool-cases, ◌⊎◌, ◌↔◌, inl, inr, List, [], ◌∷◌, ◌++◌, Option, none, some,
  Bool, true, false,
}

pub record LockfreeQueue {ℓ} (A : Type ℓ) : Type (ℓ + 1) where
  pub Queue : Type ℓ
  pub contents : Queue → List A
  pub push : A → Queue → Bool × Queue
  pub pop : Queue → Option (A × Queue)
  pub empty : Queue → Bool
  pub push_cases :
      (a : A) (q : Queue)
      → (((push a q).0 ≡ true) × (contents (push a q).1 ≡ contents q ++ (a ∷ [])))
        ⊎ (((push a q).0 ≡ false) × (contents (push a q).1 ≡ contents q))
  pub pop_cases :
      (q : Queue)
      → ((contents q ≡ []) × (pop q ≡ none))
        ⊎ ((a : A) × (q' : Queue) × (contents q ≡ a ∷ contents q') × (pop q ≡ some (a, q')))
  pub empty_iff : (q : Queue) → (empty q ≡ true) ↔ (contents q ≡ [])

-- The allocator of the nodes never runs out.
abbrev pub NeverFails {ℓ} : {A : Type ℓ} → LockfreeQueue A → Type ℓ
NeverFails {A = A} q = (a : A) (s : q.Queue) → (q.push a s).0 ≡ true

-- What `pop` and `empty` say of a queue whose contents are known.
module _ {ℓ} {A : Type ℓ} (Q : LockfreeQueue A) where
  pub pop-cons :
      (q : Q.Queue) (a : A) (l : List A)
      → Q.contents q ≡ a ∷ l
      → (q' : Q.Queue) × (Q.pop q ≡ some (a, q')) × (Q.contents q' ≡ l)
  pop-cons q a l e = elim (Q.pop_cases q) [
    | inl (empty, popped) ↦ absurd (cc)
    | inr (b, q', front, popped) ↦
        let same : a ∷ l ≡ b ∷ Q.contents q' = sym e ∙ front in
        let first : a ≡ b = cc in
        let left : Q.contents q' ≡ l = cc in (q', popped ∙ ap (λ x. some (x, q')) (sym first), left)
  ]

  pub pop-nil : (q : Q.Queue) → Q.contents q ≡ [] → Q.pop q ≡ none
  pop-nil q e = elim (Q.pop_cases q) [
    | inl (empty, popped) ↦ popped
    | inr (a, q', front, popped) ↦ absurd (cc)
  ]

  pub empty-cons : (q : Q.Queue) (a : A) (l : List A) → Q.contents q ≡ a ∷ l → Q.empty q ≡ false
  empty-cons q a l e = elim (Bool-cases (Q.empty q)) [
    | inl f ↦ let none_left = (Q.empty_iff q).0 f in absurd (cc)
    | inr f ↦ f
  ]

-- A value of the interface: lists, with room for everything.
module _ {ℓ} {A : Type ℓ} where
  abbrev pub pop_list : List A → Option (A × List A)
  pop_list [] = none
  pop_list (a ∷ l) = some (a, l)

  abbrev pub is_empty : List A → Bool
  is_empty [] = true
  is_empty (a ∷ l) = false

  pub pop_list_cases :
      (q : List A)
      → ((q ≡ []) × (pop_list q ≡ none))
        ⊎ ((a : A) × (q' : List A) × (q ≡ a ∷ q') × (pop_list q ≡ some (a, q')))
  pop_list_cases [] = inl (refl, refl)
  pop_list_cases (a ∷ l) = inr (a, l, refl, refl)

  pub is_empty_iff : (q : List A) → (is_empty q ≡ true) ↔ (q ≡ [])
  is_empty_iff [] = ((λ _. refl), λ _. refl)
  is_empty_iff (a ∷ l) = ((λ h. cc), λ h. cc)

abbrev pub list_queue {ℓ} : (A : Type ℓ) → LockfreeQueue A
list_queue A = record {
  Queue = List A;
  contents = λ q. q;
  push = λ a q. (true, q ++ (a ∷ []));
  pop = pop_list;
  empty = is_empty;
  push_cases = λ a q. inl (refl, refl);
  pop_cases = pop_list_cases;
  empty_iff = is_empty_iff;
}
