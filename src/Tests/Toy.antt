-- ===== src/Tests/Toy.antt =====
-- A small platform and event format that have the documented laws.
use mathlib.Core.List.{reverse-append, reverse-cons}
use secret_broker.Base.{
  ℕ, ◌+◌, ◌*◌, ◌%◌, ◌-◌, ◌≡◌, refl, Bytes, false, Option, none, some, [], ◌∷◌, ◌++◌, map, reverse,
  arith, length, take, take-append, ◌==◌,
}
use secret_broker.Text.{contains, is_empty, trim}
use secret_broker.Platform.{Platform, IsLawful}
use secret_broker.Transparency.Logger.{EventJson, IsEventJson, Line}

abbrev sum : Bytes → ℕ
sum [] = 0
sum (b ∷ s) = b + sum s

abbrev zeros : Bytes
zeros =
    0 ∷ 0 ∷ 0 ∷ 0 ∷ 0 ∷ 0 ∷ 0 ∷ 0 ∷ 0 ∷ 0 ∷ 0 ∷ 0 ∷ 0 ∷ 0 ∷ 0 ∷ 0 ∷ 0 ∷ 0 ∷ 0 ∷ 0 ∷ 0 ∷ 0 ∷ 0 ∷ 0
    ∷ 0 ∷ 0 ∷ 0 ∷ 0 ∷ 0 ∷ 0 ∷ 0 ∷ []

abbrev read_time : Bytes → Option ℕ
read_time [] = none
read_time (t ∷ s) = some t

abbrev pub toy : Platform
toy = record {
  hmac = λ k d. (sum k * 3 + sum d * 5 + 7) % 256 ∷ zeros;
  sha256 = λ d. sum d % 256 ∷ zeros;
  hex_encode = λ s. s;
  b64_encode = λ s. s;
  b64_decode = λ s. some s;
  url_encode = map (λ b. b + 59);
  url_decode = λ s. some (map (λ b. b - 59) s);
  to_rfc3339 = λ t. t ∷ [];
  parse_rfc3339 = read_time;
  rfc_first = 0;
  rfc_last = 1_000_000_000;
  epoch = 8_334_601_228_800;
  last = 16_000_000_000_000;
}

unshift : (s : Bytes) → map (λ b. b - 59) (map (λ b. b + 59) s) ≡ s
unshift [] = refl
unshift (b ∷ s) = let here : b + 59 - 59 ≡ b = omega arith in rw (here, unshift s)

no_colon : (s : Bytes) → contains b':' (map (λ b. b + 59) s) ≡ false
unfolding contains
no_colon [] = refl
no_colon (b ∷ s) = let here : (b + 59 == 58) ≡ false = ground arith in rw (here, no_colon s)

pub toy-IsLawful : IsLawful toy
toy-IsLawful = record {
  length-hmac = λ k d. refl;
  length-sha256 = λ d. refl;
  b64_empty = refl;
  b64_round_trip = λ b. refl;
  url_round_trip = λ b. rw (unshift b);
  url_no_colon = no_colon;
  rfc_round_trip = λ t _ _. refl;
  epoch_fits = omega arith;
  last_fits = omega arith;
}

abbrev read_event : Bytes → Option Line
read_event (c ∷ seq ∷ n ∷ rest) =
    some (record { sequence = some seq; prev_hash = some (take n rest) })
read_event _ = none

abbrev pub toy_json : EventJson
toy_json = record {
  to_string = λ e. b'{' ∷ e.sequence ∷ length e.prev_hash ∷ (e.prev_hash ++ b'}' ∷ []);
  from_str = read_event;
}

is_empty-snoc : (s : Bytes) (b : ℕ) → is_empty (s ++ b ∷ []) ≡ false
unfolding is_empty
is_empty-snoc [] b = refl
is_empty-snoc (c ∷ s) b = refl

trim_braced : (s : Bytes) → is_empty (trim (b'{' ∷ (s ++ b'}' ∷ []))) ≡ false
unfolding trim
trim_braced s = rw (reverse-append (b'{' ∷ s) (b'}' ∷ [])) (
    rw (reverse-cons b'}' (reverse (b'{' ∷ s))) (is_empty-snoc (reverse (reverse (b'{' ∷ s))) b'}'))

pub toy_json-IsEventJson : IsEventJson toy_json
toy_json-IsEventJson = record {
  reads = λ e. rw (take-append e.prev_hash (b'}' ∷ []));
  shows = λ e. trim_braced (e.sequence ∷ length e.prev_hash ∷ e.prev_hash);
}
