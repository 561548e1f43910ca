-- ===== src/Transparency/Logger/Race.antt =====
-- `record` is no critical section: it reads `prev_hash` and writes it under two separate locks.
use secret_broker.Base.{◌+◌, ◌≡◌, ◌≢◌, refl, sym, ◌∙◌, [], ◌∷◌, ◌++◌, bytes_eq_iff, arith, length}
use secret_broker.Base.Result.{ok, err}
use secret_broker.Platform.{Platform}
use secret_broker.Transparency.Event.{TransparencyEvent}
use secret_broker.Transparency.Logger.{
  EventJson, IsEventJson, TransparencyLogger, VerifyResult, begin, publish, write_line, line_hash,
  verify_line, verify_loop, verify_chain, broken,
}
use secret_broker.Transparency.Logger.Chain.{
  entry_line, IsChained, start, verify_loop-append, verify_chain-loop, verify_line-entry,
}

-- Two calls of `record` of which the second begins before the first has written `prev_hash`.
unfoldable pub overlapped :
    Platform
    → EventJson
    → TransparencyEvent
    → TransparencyEvent
    → TransparencyLogger
    → TransparencyLogger
unfolding begin publish write_line
overlapped p j first second l =
    let (line, l₁) = begin j first l in
    let (line', l₂) = begin j second l₁ in
    write_line line' (write_line line (publish p line' (publish p line l₂)))

module _ (p : Platform) (j : EventJson) (w : IsEventJson j) where
  verify_line-stale :
      (s : VerifyResult) (e : TransparencyEvent)
      → e.prev_hash ≢ s.head_hash
      → verify_line p j s (j.to_string e) ≡ err broken
  unfolding verify_line
  verify_line-stale s e differ =
      rw (w.shows e, w.reads e) (ground (arith, bytes_eq_iff e.prev_hash s.head_hash))

  -- Where an event that is written can be read back, whenever two calls of `record` overlap so, on
  -- a chained log, the file no longer passes `verify_chain`, unless the first line happens to hash
  -- to its own predecessor's hash.
  pub overlapped-broken :
      (first second : TransparencyEvent) (l : TransparencyLogger)
      → IsChained p j l
      → l.prev_hash ≢ line_hash p (entry_line j first l)
      → verify_chain p j (overlapped p j first second l).lines ≡ err broken
  unfolding overlapped
  overlapped-broken first second l (whole, h) differ = rw whole (
      let x = entry_line j first l in
      let y = entry_line j second (begin j first l).1 in
      let head : VerifyResult = record { entries = length l.lines; head_hash = l.prev_hash } in
      let next : VerifyResult = record {
        entries = length l.lines + 1;
        head_hash = line_hash p x;
      } in
      let one : verify_loop p j start (l.lines ++ x ∷ []) ≡ ok next =
        verify_loop-append p j start l.lines x
        ∙ rw (sym (verify_chain-loop p j l.lines) ∙ h) (
            verify_line-entry p j head
              (record first { sequence = l.sequence; prev_hash = l.prev_hash }) w refl) in
      verify_chain-loop p j ((l.lines ++ x ∷ []) ++ y ∷ [])
      ∙ verify_loop-append p j start (l.lines ++ x ∷ []) y
      ∙ rw one (
          verify_line-stale next
            (record second { sequence = (begin j first l).1.sequence; prev_hash = l.prev_hash })
            differ))
