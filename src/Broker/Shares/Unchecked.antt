-- ===== src/Broker/Shares/Unchecked.antt =====
-- What `distribute_share_impl` does with the value of the share that it receives.
use secret_broker.Base.{◌≡◌, refl, ◌%◌, ◌^◌, Bytes, Bool, true, false, ◌||◌, not, ltb, ◌==◌}
use secret_broker.Base.Result.{Result, ok, err, guard}
use secret_broker.Platform.{Platform}
use secret_broker.Transparency.Logger.{EventJson}
use secret_broker.Store.Backend.{Backend}
use secret_broker.Broker.Context.{BrokerClientContext}
use secret_broker.Broker.State.{BrokerState}
use secret_broker.Broker.Lifecycle.{Draws}
use secret_broker.Broker.Action.{ActionOr, continue}
use secret_broker.Broker.Custody.{share_index_range, share_index_mismatch, DistributeShareRequest}
use secret_broker.Broker.Shares.{check_custodian_caller, custody_record, distribute_share_impl}

module _ {E Tree : Type 0} where
  abbrev pub accepts : {A : Type 0} → Result E A × BrokerState Tree → Bool
  accepts (ok a, s) = true
  accepts (err e, s) = false

  -- Both succeed or both fail, and they leave the same state.
  pub record Alike {A : Type 0} (o o' : Result E A × BrokerState Tree) : Type 0 where
    pub same_answer : accepts o ≡ accepts o'
    pub same_state : o.1 ≡ o'.1

  continue-Alike :
      {A B : Type 0} (o : Result E A × BrokerState Tree) (next next' : A → ActionOr E Tree B)
      → ((a : A) (s : BrokerState Tree) → Alike (next a s) (next' a s))
      → Alike (continue o next) (continue o next')
  continue-Alike (ok a, s) next next' alike = alike a s
  continue-Alike (err e, s) next next' alike = record { same_answer = refl; same_state = refl }

abbrev pub with_value : Bytes → DistributeShareRequest → DistributeShareRequest
with_value y req = record req { share = record req.share { y = y } }

-- Whether distribute_share_impl acknowledges a share, and the state that it leaves, are the same
-- for every value of the share.
pub distribute_share_impl-any_value :
    {Tree : Type 0} (p : Platform) (b : Backend Tree) (j : EventJson)
    (context : BrokerClientContext) (req : DistributeShareRequest) (y : Bytes) (d : Draws)
    (s : BrokerState Tree)
    → Alike
        (distribute_share_impl p b j context req d s)
        (distribute_share_impl p b j context (with_value y req) d s)
unfolding distribute_share_impl
distribute_share_impl-any_value p b j context req y d s =
    continue-Alike (check_custodian_caller p b j context req.handle req.custodian_id s) _ _ (λ _ s₁.
      continue-Alike
        (guard (not (req.share_index == 0 || ltb 255 req.share_index)) share_index_range, s₁) _ _
        (λ _ s₂. continue-Alike (custody_record p b j context req.handle d s₂) _ _ (λ _ s₃.
          continue-Alike (guard (req.share.x == req.share_index % 2 ^ 8) share_index_mismatch, s₃) _
            _ (λ _ s₄. record { same_answer = refl; same_state = refl }))))
