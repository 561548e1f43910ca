-- ===== src/Transparency/Logger/Recovery.antt =====
-- A restart of the broker: `TransparencyLogger::new` on the file that the last process left.
use secret_broker.Base.{
  ◌≡◌, ◌+◌, ◌%◌, ◌^◌, refl, sym, subst, Bytes, true, none, some, All, List, [], ◌∷◌, ◌++◌,
}
use secret_broker.Text.{utf8_valid}
use secret_broker.Platform.{Platform}
use secret_broker.Transparency.Event.{TransparencyEvent}
use secret_broker.Transparency.Logger.{
  EventJson, IsEventJson, TransparencyLogger, ChainState, recover_line, recover_loop,
  recover_chain_state, line_hash, new, append,
}
use secret_broker.Transparency.Logger.Chain.{entry_line}

-- a line that `BufRead::lines` does not fail on
abbrev pub Readable : Bytes → Type 0
Readable line = utf8_valid line ≡ true

module _ (j : EventJson) where
  -- What the restart has gathered when it comes to the last line.
  recover_loop-append :
      (s : ChainState) (lines : List Bytes) (x : Bytes)
      → All Readable lines
      → Readable x
      → (t : ChainState) × (recover_loop j s (lines ++ x ∷ []) ≡ some (recover_line j t x))
  unfolding recover_loop
  recover_loop-append s [] x _ last = (s, rw last refl)
  recover_loop-append s (y ∷ lines) x (here, rest) last =
      let (t, done) = recover_loop-append (recover_line j s y) lines x rest last in
      (t, rw here done)

  recover_line-entry :
      (s : ChainState) (e : TransparencyEvent)
      → IsEventJson j
      → recover_line j s (j.to_string e)
        ≡ record { last_seq = e.sequence; last_line = some (j.to_string e) }
  unfolding recover_line
  recover_line-entry s e w = rw (w.shows e, w.reads e)

-- Where an event that is written can be read back, and the file before it is of whole lines of
-- UTF-8, as is the new line, a broker that starts on the file that a record has just extended goes
-- on with the sequence number and the hash that the old process would have used.
pub new-append :
    (p : Platform) (j : EventJson) (e : TransparencyEvent) (l : TransparencyLogger)
    → IsEventJson j
    → l.torn ≡ []
    → All Readable l.lines
    → Readable (entry_line j e l)
    → new p j (append p j e l).lines (append p j e l).torn ≡ some (append p j e l)
unfolding new append recover_chain_state
new-append p j e l w whole lines last =
    let x = entry_line j e l in
    let empty : ChainState = record { last_seq = 0; last_line = none } in
    let (t, done) = recover_loop-append j empty l.lines x lines last in
    let entry =
      recover_line-entry j t (record e { sequence = l.sequence; prev_hash = l.prev_hash }) w in
    let after : TransparencyLogger = record {
      lines = l.lines ++ x ∷ [];
      torn = [];
      sequence = (l.sequence + 1) % 2 ^ 64;
      prev_hash = line_hash p x;
    } in
    let same : append p j e l ≡ after = rw whole refl in
    subst (λ (a : TransparencyLogger). new p j a.lines a.torn ≡ some a) (sym same)
      (rw (new, recover_chain_state, done, entry) refl)
