-- ===== src/Transparency/Logger/Chain.antt =====
-- The chain of hashes: what the logger writes passes `verify_chain`, and what passes is determined
-- by its head.
use mathlib.Core.List.{reverse_aux, reverse-reverse}
use secret_broker.Base.{
  ◌+◌, ◌≡◌, ◌≢◌, refl, sym, ap, ◌∙◌, ◌⊎◌, inl, inr, Bytes, false, some, List, [], ◌∷◌, ◌++◌, arith,
  length, length-append, length-reverse, bytes_eq_iff, Bytes-discrete, All, reverse,
}
use secret_broker.Base.Result.{ok, ◌>>=◌, ok_or, >>=-eq-ok, bind_assoc, fun_ext_bind}
use secret_broker.Text.{trim, is_empty}
use secret_broker.Platform.{Platform}
use secret_broker.Transparency.Event.{TransparencyEvent}
use secret_broker.Transparency.Logger.{
  Line, EventJson, IsEventJson, TransparencyLogger, genesis_hash, line_hash, append, VerifyResult,
  verify_line, verify_loop, verify_chain, not_json, missing_prev_hash,
}

abbrev pub entry_line : EventJson → TransparencyEvent → TransparencyLogger → Bytes
entry_line j e l = j.to_string (record e { sequence = l.sequence; prev_hash = l.prev_hash })

-- The file ends with a newline and passes `verify_chain`, with the logger's `prev_hash` for its head.
abbrev pub IsChained : Platform → EventJson → TransparencyLogger → Type 0
IsChained p j l =
    (l.torn ≡ [])
    × (verify_chain p j l.lines ≡ ok (record { entries = length l.lines; head_hash = l.prev_hash }))

abbrev pub start : VerifyResult
start = record { entries = 0; head_hash = genesis_hash }

module _ (p : Platform) (j : EventJson) where
  pub verify_loop-append :
      (r : VerifyResult) (lines : List Bytes) (x : Bytes)
      → verify_loop p j r (lines ++ x ∷ []) ≡ (verify_loop p j r lines >>= λ s. verify_line p j s x)
  unfolding verify_loop
  verify_loop-append r [] x = ground arith
  verify_loop-append r (y ∷ lines) x =
      fun_ext_bind (verify_line p j r y) (λ s. verify_loop-append s lines x)
      ∙ sym (
          bind_assoc (verify_line p j r y) (λ s. verify_loop p j s lines)
            (λ s. verify_line p j s x))

  pub verify_chain-loop :
      (lines : List Bytes) → verify_chain p j lines ≡ verify_loop p j start lines
  unfolding verify_chain
  verify_chain-loop lines = refl

  -- a line that names the head so far
  pub verify_line-entry :
      (s : VerifyResult) (e : TransparencyEvent)
      → IsEventJson j
      → e.prev_hash ≡ s.head_hash
      → verify_line p j s (j.to_string e)
        ≡ ok (record { entries = s.entries + 1; head_hash = line_hash p (j.to_string e) })
  unfolding verify_line
  verify_line-entry s e w same =
      rw (w.shows e, w.reads e) (ground (arith, bytes_eq_iff e.prev_hash s.head_hash))

  pub append-IsChained :
      (e : TransparencyEvent) (l : TransparencyLogger)
      → IsEventJson j
      → IsChained p j l
      → IsChained p j (append p j e l)
  unfolding append
  append-IsChained e l w (whole, h) = rw whole (
    refl,
    verify_chain-loop (l.lines ++ entry_line j e l ∷ [])
        ∙ verify_loop-append start l.lines (entry_line j e l)
        ∙ rw (sym (verify_chain-loop l.lines) ∙ h) (
            verify_line-entry _ (record e { sequence = l.sequence; prev_hash = l.prev_hash }) w refl
            ∙ rw (length-append l.lines (entry_line j e l ∷ []))),
  )

-- Two lines with one hash.
pub record HashCollision (p : Platform) : Type 0 where
  pub line : Bytes
  pub other : Bytes
  pub distinct : line ≢ other
  pub same_hash : line_hash p line ≡ line_hash p other

-- The lines, newest first, link up to the head.
abbrev Linked : Platform → EventJson → List Bytes → Bytes → Type 0
Linked p j [] head = Unit {0}
Linked p j (x ∷ xs) head =
    (head ≡ line_hash p x)
    × ((v : Line) × (prev : Bytes) × (j.from_str x ≡ some v)
        × (v.prev_hash ≡ some prev)
        × Linked p j xs prev)

abbrev Solid : Bytes → Type 0
Solid line = is_empty (trim line) ≡ false

module _ (p : Platform) (j : EventJson) where
  verify_line-Linked :
      (r s : VerifyResult) (x : Bytes) (done : List Bytes)
      → Solid x
      → verify_line p j r x ≡ ok s
      → Linked p j done r.head_hash
      → Linked p j (x ∷ done) s.head_hash
  unfolding verify_line
  verify_line-Linked r s x done solid e linked =
      let e' = rw solid at e in
      let (v, read, rest) = >>=-eq-ok (ok_or (j.from_str x) not_json) _ e' in
      let (prev, named, tested) = >>=-eq-ok (ok_or v.prev_hash missing_prev_hash) _ rest in
      (
        ground arith,
        (v, r.head_hash, ground arith, ground (arith, bytes_eq_iff prev r.head_hash), linked),
      )

  verify_loop-Linked :
      (r s : VerifyResult) (lines done : List Bytes)
      → All Solid lines
      → verify_loop p j r lines ≡ ok s
      → Linked p j done r.head_hash
      → Linked p j (reverse_aux lines done) s.head_hash
  unfolding verify_loop
  verify_loop-Linked r s [] done solid e linked = ground arith
  verify_loop-Linked r s (x ∷ lines) done solid e linked =
      let (t, first, rest) = >>=-eq-ok (verify_line p j r x) _ e in
      verify_loop-Linked t s lines (x ∷ done) solid.1 rest
        (verify_line-Linked r t x done solid.0 first linked)

  Linked-lines :
      (xs ys : List Bytes) (head : Bytes)
      → length xs ≡ length ys
      → Linked p j xs head
      → Linked p j ys head
      → (xs ≡ ys) ⊎ HashCollision p
  Linked-lines [] [] head n lx ly = inl refl
  Linked-lines [] (y ∷ ys) head n lx ly = absurd (omega arith)
  Linked-lines (x ∷ xs) [] head n lx ly = absurd (omega arith)
  Linked-lines (x ∷ xs) (y ∷ ys) head n (hx, (v, prev, rv, pv, lx)) (hy, (u, prev', ru, pu, ly)) =
      elim (Bytes-discrete x y) [
        | no differ ↦
            inr (record { line = x; other = y; distinct = differ; same_hash = sym hx ∙ hy })
        | yes same ↦
            let lines : some v ≡ some u = sym rv ∙ ap j.from_str same ∙ ru in
            let prevs : prev' ≡ prev = ground arith in
            elim (Linked-lines xs ys prev (omega arith) lx (rw prevs at ly)) [
              | inl rest ↦ inl (cc)
              | inr collision ↦ inr collision
            ]
      ]

  -- Tamper evidence: two files with as many lines, none of them blank, that pass `verify_chain`
  -- with one head are the same file, or exhibit two lines with one hash.
  pub same_head :
      (xs ys : List Bytes) (r : VerifyResult)
      → All Solid xs
      → All Solid ys
      → length xs ≡ length ys
      → verify_chain p j xs ≡ ok r
      → verify_chain p j ys ≡ ok r
      → (xs ≡ ys) ⊎ HashCollision p
  same_head xs ys r sx sy n hx hy =
      elim (Linked-lines (reverse xs) (reverse ys) r.head_hash
        (omega (arith, length-reverse xs, length-reverse ys))
        (verify_loop-Linked start r xs [] sx (sym (verify_chain-loop p j xs) ∙ hx) tt)
        (verify_loop-Linked start r ys [] sy (sym (verify_chain-loop p j ys) ∙ hy) tt)) [
          | inl e ↦ inl (sym (reverse-reverse xs) ∙ ap reverse e ∙ reverse-reverse ys)
          | inr collision ↦ inr collision
        ]
