-- ===== src/Tests/Codec.antt =====
-- Codecs into bytes, from which a stand-in for serde_json is put together.
use secret_broker.Base.{
  ℕ, zero, suc, ◌≡◌, refl, Bytes, Bool, true, false, Option, none, some, List, [], ◌∷◌, length,
}

pub record Codec (A : Type 0) : Type 0 where
  pub write : A → Bytes → Bytes
  pub read : Bytes → Option (A × Bytes)
  pub back : (a : A) (s : Bytes) → read (write a s) ≡ some (a, s)

abbrev and_then : {A B : Type 0} → Option A → (A → Option B) → Option B
and_then none f = none
and_then (some a) f = f a

abbrev read_number : Bytes → Option (ℕ × Bytes)
read_number [] = none
read_number (n ∷ s) = some (n, s)

abbrev pub number : Codec ℕ
number = record { write = λ n s. n ∷ s; read = read_number; back = λ n s. refl }

module _ {A : Type 0} where
  abbrev pub via :
      {B : Type 0} → Codec B → (to : A → B) (from : B → A) → ((a : A) → from (to a) ≡ a) → Codec A
  via c to from same = record {
    write = λ a s. c.write (to a) s;
    read = λ s. and_then (c.read s) (λ r. some (from r.0, r.1));
    back = λ a s. rw (c.back (to a) s) (rw (same a) refl);
  }

  abbrev pub pair : {B : Type 0} → Codec A → Codec B → Codec (A × B)
  pair c d = record {
    write = λ x s. c.write x.0 (d.write x.1 s);
    read = λ s. and_then (c.read s) (λ r. and_then (d.read r.1) (λ q. some ((r.0, q.0), q.1)));
    back = λ x s. rw (c.back x.0 (d.write x.1 s)) (rw (d.back x.1 s) refl);
  }

  abbrev write_list : Codec A → List A → Bytes → Bytes
  write_list c [] s = s
  write_list c (a ∷ as') s = c.write a (write_list c as' s)

  abbrev read_list : Codec A → ℕ → Bytes → Option (List A × Bytes)
  read_list c zero s = some ([], s)
  read_list c (suc n) s =
      and_then (c.read s) (λ r. and_then (read_list c n r.1) (λ q. some (r.0 ∷ q.0, q.1)))

  pub back_list :
      (c : Codec A) (as' : List A) (s : Bytes)
      → read_list c (length as') (write_list c as' s) ≡ some (as', s)
  back_list c [] s = refl
  back_list c (a ∷ as') s = rw (c.back a (write_list c as' s)) (rw (back_list c as' s) refl)

  abbrev pub list : Codec A → Codec (List A)
  list c = record {
    write = λ as' s. length as' ∷ write_list c as' s;
    read = λ s. and_then (read_number s) (λ r. read_list c r.0 r.1);
    back = λ as' s. back_list c as' s;
  }

  abbrev write_option : Codec A → Option A → Bytes → Bytes
  write_option c none s = 0 ∷ s
  write_option c (some a) s = 1 ∷ c.write a s

  abbrev read_option : Codec A → Bytes → Option (Option A × Bytes)
  read_option c [] = none
  read_option c (zero ∷ s) = some (none, s)
  read_option c (suc n ∷ s) = and_then (c.read s) (λ r. some (some r.0, r.1))

  pub back_option :
      (c : Codec A) (o : Option A) (s : Bytes) → read_option c (write_option c o s) ≡ some (o, s)
  back_option c none s = refl
  back_option c (some a) s = rw (c.back a s) refl

  abbrev pub option : Codec A → Codec (Option A)
  option c = record { write = write_option c; read = read_option c; back = back_option c }

abbrev bit : Bool → ℕ
bit true = 1
bit false = 0

abbrev from_bit : ℕ → Bool
from_bit zero = false
from_bit (suc n) = true

pub from_bit-bit : (b : Bool) → from_bit (bit b) ≡ b
from_bit-bit true = refl
from_bit-bit false = refl

abbrev pub boolean : Codec Bool
boolean = via number bit from_bit from_bit-bit

abbrev pub bytes : Codec Bytes
bytes = list number
