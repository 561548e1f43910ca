-- ===== src/Broker/Keys/Sealed.antt =====
-- A caveat key that was sealed into a record is the one that verification finds.
use secret_broker.Base.{
  ◌≡◌, refl, arith, Bool, false, some, List, [], ◌∷◌, ◌++◌, length, any, bytes_eq, bytes_eq_refl,
  ◌==◌,
}
use secret_broker.Base.Result.{ok, ok_or, guard, >>=-eq-ok}
use secret_broker.Platform.{Platform}
use secret_broker.Macaroon.Types.{DischargeKeyRef}
use secret_broker.Macaroon.Verifier.{find_key}
use secret_broker.Store.Record.{StoredEnvelopeRecord, ThirdPartyCaveatKey}
use secret_broker.Store.Ops.{or_empty, push_new, with_caveat_key}
use secret_broker.Broker.Context.{storage}
use secret_broker.Broker.Keys.{discharge_key, discharge_keys, discharge_keys_for_record}

abbrev pub same_id : ThirdPartyCaveatKey → ThirdPartyCaveatKey → Bool
same_id entry existing = bytes_eq existing.key_id entry.key_id

module _ (p : Platform) (entry : ThirdPartyCaveatKey) (key : DischargeKeyRef)
    (opened : discharge_key p entry ≡ ok key) where
  discharge_keys-append :
      (entries : List ThirdPartyCaveatKey) (keys : List DischargeKeyRef)
      → discharge_keys p entries ≡ ok keys
      → discharge_keys p (entries ++ entry ∷ []) ≡ ok (keys ++ key ∷ [])
  unfolding discharge_keys
  discharge_keys-append [] keys h = rw opened (ground arith)
  discharge_keys-append (x ∷ entries) keys h =
      let (k, first, h₁) = >>=-eq-ok (discharge_key p x) _ h in
      let (ks, rest, h₂) = >>=-eq-ok (discharge_keys p entries) _ h₁ in
      rw first (rw (discharge_keys-append entries ks rest) (ground arith))

  discharge_key-names :
      (x : ThirdPartyCaveatKey) (k : DischargeKeyRef)
      → discharge_key p x ≡ ok k
      → (k.location ≡ x.location) × (k.key_id ≡ x.key_id)
  unfolding discharge_key
  discharge_key-names x k h =
      let (raw, _, h₁) = >>=-eq-ok (ok_or (p.b64_decode x.secret_b64) storage) _ h in
      let (_, _, h₂) = >>=-eq-ok (guard (length raw == 32) storage) _ h₁ in
      let (condition, _, h₃) = >>=-eq-ok (ok_or x.condition storage) _ h₂ in
      (ground arith, ground arith)

  find_key-append :
      (entries : List ThirdPartyCaveatKey) (keys : List DischargeKeyRef)
      → discharge_keys p entries ≡ ok keys
      → any (same_id entry) entries ≡ false
      → find_key entry.location entry.key_id (keys ++ key ∷ []) ≡ some key
  unfolding discharge_keys any find_key
  find_key-append [] keys h fresh =
      let named = discharge_key-names entry key opened in
      let none_yet : [] ≡ keys = ground arith in
      rw (← none_yet)
        (rw (named.0, named.1) (rw (bytes_eq_refl entry.location, bytes_eq_refl entry.key_id) refl))
  find_key-append (x ∷ entries) keys h fresh =
      let (k, first, h₁) = >>=-eq-ok (discharge_key p x) _ h in
      let (ks, rest, h₂) = >>=-eq-ok (discharge_keys p entries) _ h₁ in
      let whole : (k ∷ ks) ≡ keys = ground arith in
      let other : bytes_eq x.key_id entry.key_id ≡ false = ground arith in
      let others : any (same_id entry) entries ≡ false = ground arith in
      rw (← whole) (
        skips k (ks ++ key ∷ []) (rw (discharge_key-names x k first).1 other)
          (find_key-append entries ks rest others))
    where
      skips :
          (k : DischargeKeyRef) (more : List DischargeKeyRef)
          → bytes_eq k.key_id entry.key_id ≡ false
          → find_key entry.location entry.key_id more ≡ some key
          → find_key entry.location entry.key_id (k ∷ more) ≡ some key
      skips k more other later = ground arith

  push_new-fresh :
      (entries : List ThirdPartyCaveatKey)
      → any (same_id entry) entries ≡ false
      → push_new entry entries ≡ entries ++ entry ∷ []
  unfolding push_new
  push_new-fresh entries fresh = rw fresh refl

  -- When an attenuation seals a key that decodes, under a key id that the record does not hold
  -- yet, the keys of a verification are those of before and this one, and looking up the caveat's
  -- location and key id gives this one.
  pub with_caveat_key-found :
      (r : StoredEnvelopeRecord) (keys : List DischargeKeyRef)
      → discharge_keys_for_record p r ≡ ok keys
      → any (same_id entry) (or_empty r.third_party_caveat_keys) ≡ false
      → (discharge_keys_for_record p (with_caveat_key entry r) ≡ ok (keys ++ key ∷ []))
        × (find_key entry.location entry.key_id (keys ++ key ∷ []) ≡ some key)
  unfolding discharge_keys_for_record
  with_caveat_key-found r keys h fresh =
      let entries = or_empty r.third_party_caveat_keys in
      (
        rw (push_new-fresh entries fresh) (discharge_keys-append entries keys h),
        find_key-append entries keys h fresh,
      )
