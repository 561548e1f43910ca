-- ===== src/Macaroon/Chain/Forgery.antt =====
-- What it takes to present other caveats under a signature.
use secret_broker.Base.{
  ◌≡◌, ◌≢◌, refl, sym, ap, ap₂, ◌∙◌, ◌⊎◌, inl, inr, Bytes, List, [], ◌∷◌, ◌++◌, reverse,
  Bytes-discrete,
}
use mathlib.Core.List.{reverse-append, reverse-reverse}
use secret_broker.Base.Result.{ok}
use secret_broker.Platform.{Platform}
use secret_broker.Macaroon.Types.{Macaroon}
use secret_broker.Macaroon.Chain.{chain, verify_signature}
use secret_broker.Macaroon.Chain.Attenuation.{verify_signature-eq-ok}

-- Two different inputs of HMAC with one output.
pub record Collision (p : Platform) : Type 0 where
  pub key : Bytes
  pub text : Bytes
  pub other_key : Bytes
  pub other_text : Bytes
  pub distinct : (key ≢ other_key) ⊎ (text ≢ other_text)
  pub same_output : p.hmac key text ≡ p.hmac other_key other_text

-- A chain of at least one step that leads from the root key back to it.
pub record Cycle (p : Platform) (root_key : Bytes) : Type 0 where
  pub text : Bytes
  pub texts : List Bytes
  pub returns : chain p root_key (texts ++ text ∷ []) ≡ root_key

abbrev pub Forged : Platform → Bytes → Type 0
Forged p root_key = Collision p ⊎ Cycle p root_key

-- The chain over a list that is given last element first.
chain_back : Platform → Bytes → List Bytes → Bytes
chain_back p k [] = k
chain_back p k (c ∷ cs) = p.hmac (chain_back p k cs) c

module _ (p : Platform) (k : Bytes) where
  chain_back-snoc :
      (cs : List Bytes) (c : Bytes) → chain_back p k (cs ++ c ∷ []) ≡ chain_back p (p.hmac k c) cs
  unfolding chain_back
  chain_back-snoc [] c = refl
  chain_back-snoc (x ∷ cs) c = rw (chain_back-snoc cs c)

chain-eq-chain_back :
    (p : Platform) (k : Bytes) (cs : List Bytes) → chain p k cs ≡ chain_back p k (reverse cs)
unfolding chain chain_back
chain-eq-chain_back p k [] = refl
chain-eq-chain_back p k (c ∷ cs) =
    chain-eq-chain_back p (p.hmac k c) cs
    ∙ sym (chain_back-snoc p k (reverse cs) c)
    ∙ ap (chain_back p k) (sym (reverse-append (c ∷ []) cs))

module _ (p : Platform) (k : Bytes) where
  Cycle-of : (c : Bytes) (cs : List Bytes) → chain_back p k (c ∷ cs) ≡ k → Cycle p k
  Cycle-of c cs e = record {
    text = c;
    texts = reverse cs;
    returns =
        ap (chain p k) (sym (reverse-append (c ∷ []) cs))
        ∙ chain-eq-chain_back p k (reverse (c ∷ cs))
        ∙ ap (chain_back p k) (reverse-reverse (c ∷ cs))
        ∙ e;
  }

  chain_back_injective :
      (r s : List Bytes) → chain_back p k r ≡ chain_back p k s → (r ≡ s) ⊎ Forged p k
  unfolding chain_back
  chain_back_injective [] [] e = inl refl
  chain_back_injective [] (y ∷ s) e = inr (inr (Cycle-of y s (sym e)))
  chain_back_injective (x ∷ r) [] e = inr (inr (Cycle-of x r e))
  chain_back_injective (x ∷ r) (y ∷ s) e = elim (Bytes-discrete x y) [
    | no differ ↦ inr (
        inl (record {
          key = chain_back p k r;
          text = x;
          other_key = chain_back p k s;
          other_text = y;
          distinct = inr differ;
          same_output = e;
        }))
    | yes same ↦ elim (Bytes-discrete (chain_back p k r) (chain_back p k s)) [
      | no differ ↦ inr (
          inl (record {
            key = chain_back p k r;
            text = x;
            other_key = chain_back p k s;
            other_text = y;
            distinct = inl differ;
            same_output = e;
          }))
      | yes agree ↦ elim (chain_back_injective r s agree) [
        | inl tails ↦ inl (ap₂ (λ (a : Bytes) (b : List Bytes). a ∷ b) same tails)
        | inr forged ↦ inr forged
      ]
    ]
  ]

abbrev signed_texts : Macaroon → List Bytes
signed_texts m = m.identifier ∷ m.caveats

authentic_chain :
    (p : Platform) (m : Macaroon) (root_key : Bytes)
    → verify_signature p m root_key ≡ ok tt
    → chain_back p root_key (reverse (signed_texts m)) ≡ m.signature
authentic_chain p m root_key h =
    sym (chain-eq-chain_back p root_key (signed_texts m))
    ∙ unfold chain in verify_signature-eq-ok p m root_key h

-- Two macaroons that are authentic under one root key and carry one signature have the same
-- identifier and the same caveats in the same order, or they exhibit a collision of HMAC or a
-- chain that leads from the root key back to it.
pub same_signature :
    (p : Platform) (m n : Macaroon) (root_key : Bytes)
    → verify_signature p m root_key ≡ ok tt
    → verify_signature p n root_key ≡ ok tt
    → m.signature ≡ n.signature
    → ((m.identifier ≡ n.identifier) × (m.caveats ≡ n.caveats)) ⊎ Forged p root_key
same_signature p m n root_key hm hn s =
    elim (chain_back_injective p root_key (reverse (signed_texts m)) (reverse (signed_texts n))
      agree) [ inl e ↦ inl (cc (whole e), cc (whole e)) | inr f ↦ inr f ]
  where
    agree :
        chain_back p root_key (reverse (signed_texts m))
        ≡ chain_back p root_key (reverse (signed_texts n))
    agree = authentic_chain p m root_key hm ∙ s ∙ sym (authentic_chain p n root_key hn)

    whole : reverse (signed_texts m) ≡ reverse (signed_texts n) → signed_texts m ≡ signed_texts n
    whole e =
        sym (reverse-reverse (signed_texts m)) ∙ ap reverse e ∙ reverse-reverse (signed_texts n)
