-- ===== src/Transparency/Logger.antt =====
-- `TransparencyLogger`. The log file is the list of the lines that a newline ends, each as
-- `BufRead::lines` yields it, and what follows the last newline.
pub mod Chain
pub mod Recovery
pub mod Race
use secret_broker.Base.{
  ℕ, ◌+◌, ◌%◌, ◌^◌, ◌≡◌, Bytes, Bool, false, Option, none, some, List, [], ◌∷◌, ◌++◌, bytes_eq,
  if◌then◌else◌,
}
use secret_broker.Base.Result.{Result, ok, err, ◌>>=◌, ◌>>◌, ok_or, guard}
use secret_broker.Text.{lit, trim, is_empty, utf8_valid}
use secret_broker.Platform.{Platform}
use secret_broker.Transparency.Event.{TransparencyEvent}

-- What the readers look up in a line that is JSON.
pub record Line : Type 0 where
  pub sequence : Option ℕ
  pub prev_hash : Option Bytes

-- serde_json on events
pub record EventJson : Type 0 where
  pub to_string : TransparencyEvent → Bytes
  pub from_str : Bytes → Option Line

-- What is written is read back, and is not blank.
pub record IsEventJson (j : EventJson) : Type 0 where
  pub reads :
      (e : TransparencyEvent)
      → j.from_str (j.to_string e)
        ≡ some (record { sequence = some e.sequence; prev_hash = some e.prev_hash })
  pub shows : (e : TransparencyEvent) → is_empty (trim (j.to_string e)) ≡ false

pub record TransparencyLogger : Type 0 where
  pub lines : List Bytes
  pub torn : Bytes
  pub sequence : ℕ
  pub prev_hash : Bytes

-- sixty-four zeros
abbrev pub genesis_hash : Bytes
genesis_hash = lit "0000000000000000000000000000000000000000000000000000000000000000"

-- `hex::encode(Sha256::digest(line.as_bytes()))`
unfoldable pub line_hash : Platform → Bytes → Bytes
line_hash p line = p.hex_encode (p.sha256 line)

pub record ChainState : Type 0 where
  pub last_seq : ℕ
  pub last_line : Option Bytes

abbrev new_sequence : ℕ → Option Line → ℕ
new_sequence last none = last
new_sequence last (some l) = elim l.sequence [ none ↦ last | some seq ↦ seq ]

-- one round of the loop of `recover_chain_state`
unfoldable pub recover_line : EventJson → ChainState → Bytes → ChainState
recover_line j s line =
    if is_empty (trim line)
    then s
    else record { last_seq = new_sequence s.last_seq (j.from_str line); last_line = some line }

-- the loop of `recover_chain_state`; `none` is the error on a line that is not UTF-8
unfoldable pub recover_loop : EventJson → ChainState → List Bytes → Option ChainState
recover_loop j s [] = some s
recover_loop j s (line ∷ lines) =
    let rest = recover_loop j (recover_line j s line) lines in
    if utf8_valid line then rest else none

abbrev head_of : Platform → Option Bytes → Bytes
head_of p none = genesis_hash
head_of p (some line) = line_hash p line

-- `last_seq > 0 || last_line.is_some()`: without a line `last_seq` is still 0.
abbrev next_of : ChainState → ℕ
next_of s = elim s.last_line [ none ↦ 0 | some _ ↦ (s.last_seq + 1) % 2 ^ 64 ]

-- what `reader.lines()` yields
abbrev pub read_lines : List Bytes → Bytes → List Bytes
read_lines lines [] = lines
read_lines lines (c ∷ rest) = lines ++ (c ∷ rest) ∷ []

unfoldable pub recover_chain_state : Platform → EventJson → List Bytes → Option (ℕ × Bytes)
unfolding recover_loop recover_line
recover_chain_state p j lines =
    elim (recover_loop j (record { last_seq = 0; last_line = none }) lines) [
      | none ↦ none
      | some s ↦ some (next_of s, head_of p s.last_line)
    ]

abbrev resumed : List Bytes → Bytes → ℕ × Bytes → TransparencyLogger
resumed lines torn (seq, hash) = record {
  lines = lines;
  torn = torn;
  sequence = seq;
  prev_hash = hash;
}

-- `TransparencyLogger::new` over an existing or empty file; `none` is the error on its content
unfoldable pub new : Platform → EventJson → List Bytes → Bytes → Option TransparencyLogger
unfolding recover_chain_state
new p j lines torn = elim (recover_chain_state p j (read_lines lines torn)) [
  | none ↦ none
  | some state ↦ some (resumed lines torn state)
]

-- The parts of `record` that other calls can come between: `fetch_add` and the read of `prev_hash`,
-- the write of `prev_hash`, and the write of the line, which goes on from a torn one, to the file.
unfoldable pub begin :
    EventJson → TransparencyEvent → TransparencyLogger → Bytes × TransparencyLogger
begin j entry l = (
  j.to_string (record entry { sequence = l.sequence; prev_hash = l.prev_hash }),
  record l { sequence = (l.sequence + 1) % 2 ^ 64 },
)

unfoldable pub publish : Platform → Bytes → TransparencyLogger → TransparencyLogger
unfolding line_hash
publish p line l = record l { prev_hash = line_hash p line }

unfoldable pub write_line : Bytes → TransparencyLogger → TransparencyLogger
write_line line l = record l { lines = l.lines ++ (l.torn ++ line) ∷ []; torn = [] }

-- `record`, run with no other call of it in between
unfoldable pub append :
    Platform → EventJson → TransparencyEvent → TransparencyLogger → TransparencyLogger
unfolding begin publish write_line
append p j entry l = let (line, l') = begin j entry l in write_line line (publish p line l')

pub data ChainError : Type 0 where
  not_json missing_prev_hash broken : ChainError

pub record VerifyResult : Type 0 where
  pub entries : ℕ
  pub head_hash : Bytes

-- one round of the loop of `verify_chain`: `expected_prev` and `last_hash` are equal throughout
unfoldable pub verify_line :
    Platform → EventJson → VerifyResult → Bytes → Result ChainError VerifyResult
unfolding line_hash
verify_line p j r line = if is_empty (trim line) then ok r else do
  value ← ok_or (j.from_str line) not_json
  prev ← ok_or value.prev_hash missing_prev_hash
  guard (bytes_eq prev r.head_hash) broken
  ok (record { entries = r.entries + 1; head_hash = line_hash p line })

unfoldable pub verify_loop :
    Platform → EventJson → VerifyResult → List Bytes → Result ChainError VerifyResult
verify_loop p j r [] = ok r
verify_loop p j r (line ∷ lines) = do r' ← verify_line p j r line; verify_loop p j r' lines

unfoldable pub verify_chain : Platform → EventJson → List Bytes → Result ChainError VerifyResult
unfolding verify_loop verify_line
verify_chain p j lines = verify_loop p j (record { entries = 0; head_hash = genesis_hash }) lines
