-- ===== src/Broker/Action.antt =====
-- A handler's effects: it ends with a result or an error, and in both cases leaves a state.
use secret_broker.Base.{◌≡◌, refl, arith}
use secret_broker.Base.Result.{Result, ok, err, map_err}
use secret_broker.Store.Ops.{StoreError}
use secret_broker.Broker.Context.{ServiceError, storage}
use secret_broker.Broker.State.{BrokerState}

abbrev pub ActionOr : Type 0 → Type 0 → Type 0 → Type 0
ActionOr E Tree A = BrokerState Tree → Result E A × BrokerState Tree

-- an action with the errors of the handlers
abbrev pub Action : Type 0 → Type 0 → Type 0
Action Tree A = ActionOr ServiceError Tree A

module _ {E Tree A : Type 0} where
  abbrev pub continue :
      {B : Type 0}
      → Result E A × BrokerState Tree
      → (A → ActionOr E Tree B)
      → Result E B × BrokerState Tree
  continue (ok a, s) next = next a s
  continue (err e, s) next = (err e, s)

  infixl 5 ◌>>=◌
  abbrev pub ◌>>=◌ : {B : Type 0} → ActionOr E Tree A → (A → ActionOr E Tree B) → ActionOr E Tree B
  (m >>= next) s = continue (m s) next

  infixl 5 ◌>>◌
  abbrev pub ◌>>◌ : {B : Type 0} → ActionOr E Tree A → ActionOr E Tree B → ActionOr E Tree B
  m >> next = m >>= λ _. next

  abbrev pub pure : A → ActionOr E Tree A
  pure a s = (ok a, s)

  abbrev pub lift : Result E A → ActionOr E Tree A
  lift r s = (r, s)

  module _ {B : Type 0} (next : A → ActionOr E Tree B) {b : B} {s' : BrokerState Tree} where
    -- What a handler that succeeds has done first.
    pub lift-eq-ok :
        (s : BrokerState Tree) (r : Result E A)
        → continue (r, s) next ≡ (ok b, s')
        → (a : A) × (r ≡ ok a) × (next a s ≡ (ok b, s'))
    lift-eq-ok s (ok a) e = (a, refl, e)
    lift-eq-ok s (err x) e = absurd (ground arith)

    pub continue-eq-ok :
        (o : Result E A × BrokerState Tree)
        → continue o next ≡ (ok b, s')
        → (a : A) × (s₁ : BrokerState Tree) × (o ≡ (ok a, s₁)) × (next a s₁ ≡ (ok b, s'))
    continue-eq-ok (ok a, s₁) e = (a, s₁, refl, e)
    continue-eq-ok (err x, s₁) e = absurd (ground arith)

module _ {E Tree A : Type 0} where
  -- a call of the sealed store, with its error turned into one of the handler's
  abbrev pub stored_as :
      (StoreError → E)
      → BrokerState Tree
      → Result StoreError (Tree × A)
      → Result E A × BrokerState Tree
  stored_as f s (ok (t, a)) = (ok a, record s { sealed_store = t })
  stored_as f s (err e) = (err (f e), s)

  -- an action of another handler, whose error becomes one of this handler's
  abbrev pub failing_as : {F : Type 0} → (F → E) → ActionOr F Tree A → ActionOr E Tree A
  failing_as f m s = (map_err f (m s).0, (m s).1)

module _ {Tree A : Type 0} where
  abbrev pub stored :
      BrokerState Tree → Result StoreError (Tree × A) → Result ServiceError A × BrokerState Tree
  stored s (ok (t, a)) = (ok a, record s { sealed_store = t })
  stored s (err e) = (err storage, s)

  -- a call of the sealed store, with `.map_err(ServiceError::Storage)`
  abbrev pub on_store : (Tree → Result StoreError (Tree × A)) → Action Tree A
  on_store call s = stored s (call s.sealed_store)

  module _ {B : Type 0} (next : A → Action Tree B) {b : B} {s' : BrokerState Tree} where
    pub stored-eq-ok :
        (s : BrokerState Tree) (c : Result StoreError (Tree × A))
        → continue (stored s c) next ≡ (ok b, s')
        → (t : Tree) × (a : A) × (c ≡ ok (t, a))
          × (next a (record s { sealed_store = t }) ≡ (ok b, s'))
    stored-eq-ok s (ok (t, a)) e = (t, a, refl, e)
    stored-eq-ok s (err x) e = absurd (ground arith)

abbrev pub get : {E Tree : Type 0} → ActionOr E Tree (BrokerState Tree)
get s = (ok s, s)

abbrev pub modify :
    {E Tree : Type 0} → (BrokerState Tree → BrokerState Tree) → ActionOr E Tree (Unit {0})
modify f s = (ok tt, f s)
