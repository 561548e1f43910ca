-- ===== src/Store/Evolution.antt =====
-- Any number of calls of the sealed store, one after the other.
use secret_broker.Base.{◌≡◌, refl, sym, ap, ◌∙◌, subst, arith, Bytes, length}
use secret_broker.Base.Result.{Result, ok, err}
use secret_broker.Platform.{Platform, IsLawful}
use secret_broker.Store.Backend.{Backend, IsBackend}
use secret_broker.Store.Ops.{StoreError}
use secret_broker.Store.Spec.{RecordMap, Call, Reply, run, spec}
use secret_broker.Store.Refinement.{Represents, Seals, Agree, run-Agree}
use secret_broker.Store.Spent.{Spent, KeepsId, answers, spec-Spent}

-- The tree that calls lead to, none of which puts a new record under `id`. A call that fails
-- leaves the tree as it was.
pub data Evolves {Tree : Type 0} (p : Platform) (b : Backend Tree) (id : Bytes)
    : Tree → Tree → Type 0 where
  stays : {t : Tree} → Evolves p b id t t
  calls :
      {t t' t'' : Tree} (nonce h : Bytes) (c : Call) (x : Reply)
      → length nonce ≡ 12
      → Seals p b nonce
      → KeepsId id h c
      → run p b nonce h c t ≡ ok (t', x)
      → Evolves p b id t' t''
      → Evolves p b id t t''

module _ {Tree : Type 0} (p : Platform) (b : Backend Tree) (w : IsLawful p) (bw : IsBackend b)
    (id : Bytes) where
  ok-injective :
      (o o' : Tree × Reply)
      → ◌≡◌ {A = Result StoreError (Tree × Reply)} (ok o) (ok o')
      → (o.0 ≡ o'.0) × (o.1 ≡ o'.1)
  ok-injective o o' f = (ap (λ r. (payload r).0) f, ap (λ r. (payload r).1) f)
    where
      payload : Result StoreError (Tree × Reply) → Tree × Reply
      payload (ok a) = a
      payload (err e) = o

  agreed :
      (t' : Tree) (x : Reply) (m : RecordMap) (h : Bytes) (c : Call)
      (implementation : Result StoreError (Tree × Reply))
      (specification : Result StoreError (RecordMap × Reply))
      → specification ≡ spec p h c m
      → implementation ≡ ok (t', x)
      → Agree p b implementation specification
      → (m' : RecordMap) × (spec p h c m ≡ ok (m', x)) × Represents p b t' m'
  agreed t' x m h c (ok (u, y)) (ok (m', z)) e f (rep, same) =
      let (tree, reply) = ok-injective (u, y) (t', x) f in
      (m', sym e ∙ ap (answers m') (sym same ∙ reply), subst (λ k. Represents p b k m') tree rep)
  agreed t' x m h c (ok o) (err e') e f agree = absurd agree
  agreed t' x m h c (err e') s e f agree = absurd (ground arith)

  -- A record whose token is consumed stays so under every sequence of store calls that puts no new
  -- record under its handle.
  pub Evolves-Spent :
      (t t' : Tree) (m : RecordMap)
      → Represents p b t m
      → Spent (m id)
      → Evolves p b id t t'
      → (m' : RecordMap) × Represents p b t' m' × Spent (m' id)
  Evolves-Spent t t' m rep spent stays = (m, rep, spent)
  Evolves-Spent t t' m rep spent (calls {t' = u} nonce h c x n seals keeps ran rest) =
      let (m', specified, rep') =
        agreed u x m h c (run p b nonce h c t) (spec p h c m) refl ran
          (run-Agree p b w bw t m rep h nonce n seals c) in
      Evolves-Spent u t' m' rep' (spec-Spent p id h m m' x spent c keeps specified) rest
