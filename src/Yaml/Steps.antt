-- ===== src/Yaml/Steps.antt =====
-- src/yaml_parser.cpp: the steps of the parser, which go on from one position of a stream to
-- another. `throws` stands for the std::out_of_range of `substr`, which nothing here catches, and
-- `no_fuel` for a step that did not end.
use launch_cpp.Prelude.{ℕ, Option}
use launch_cpp.Errors.{Result, ok, err}
use launch_cpp.Yaml.Streams.{Stream}

pub data Outcome {ℓ} (A : Type ℓ) : Type ℓ where
  returns : A → Outcome A
  throws : Outcome A
  no_fuel : Outcome A

abbrev pub Parse : Type 0 → Type 0
Parse A = Outcome (A × Stream)

infixl 5 ◌>>=◌
abbrev pub ◌>>=◌ : {A B : Type 0} → Parse A → (A → Stream → Parse B) → Parse B
returns (a, s) >>= f = f a s
throws >>= f = throws
no_fuel >>= f = no_fuel

-- The line is read where `tellg` leaves the stream.
abbrev pub with_position :
    {A : Type 0} → (Option ℕ → Stream → Parse A) → Option ℕ × Stream → Parse A
with_position f (pos, s) = f pos s

module _ {Y : Type 0} where
  -- A value, or an error that ends the caller too.
  abbrev pub checked : (Y → Stream → Parse (Result Y)) → Result Y → Stream → Parse (Result Y)
  checked f (ok v) s = f v s
  checked f (err e) s = returns (err e, s)
