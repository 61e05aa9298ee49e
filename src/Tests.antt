-- ===== src/Tests.antt =====
-- A concrete choice of what the program takes from outside, for the instances of the theorems.
mod SampleJson
mod SampleCollections
mod SampleDatabase
mod SampleLaws
mod OrderTests
mod StoreTests
mod OutboxTests
mod PositionTests
mod SessionTests
mod ProjectorTests
mod AlertTests
use kite_mcp_eventsourcing.Prelude.{
  ℕ, zero, suc, String, Bool, true, false, ◌&&◌, ◌≡◌, refl, ap, Option, none, some, List, [], ◌∷◌,
  nat_eq, ltb, ◌==◌, arith, if◌then◌else◌,
}
use kite_mcp_eventsourcing.Result.{Error, message, Result, ok, err}
use kite_mcp_eventsourcing.Domain.{Domain, DomainLaws}
use kite_mcp_eventsourcing.Payload.{Json, JsonLaws, Codec}

-- A payload is the list of its fields.
pub data Token : Type 0 where
  text : String → Token
  number : ℕ → Token

abbrev pub sample_quantity : ℕ → ℕ × Option Error
sample_quantity zero = (zero, some (message "quantity must be positive"))
sample_quantity (suc n) = (suc n, none)

-- Numbers for prices, times and quantities; the quantity 0 is refused.
abbrev pub sample : Domain
sample = record {
  Float = ℕ;
  float_eq = nat_eq;
  float_nonpositive = λ x. ltb x 1;
  float_zero = 0;
  format_float = λ x. "";
  Bytes = List Token;
  Time = ℕ;
  zero_time = 0;
  before = ltb;
  Quantity = ℕ;
  zero_quantity = 0;
  new_quantity = sample_quantity;
  quantity_int = λ q. q;
  Money = ℕ;
  zero_money = 0;
  new_inr = λ x. x;
  amount = λ m. m;
  InstrumentKey = String × String;
  zero_instrument = ("", "");
  instrument_eq = λ a b. (a.0 == b.0) && (a.1 == b.1);
  new_instrument_key = λ e s. (e, s);
  exchange = λ k. k.0;
  tradingsymbol = λ k. k.1;
  position_aggregate_id = λ email k product. email;
}

sample_quantity_kept : (n q : ℕ) → sample_quantity n ≡ (q, none) → q ≡ n
sample_quantity_kept n q h = ground arith

pub sample_laws : DomainLaws sample
sample_laws = record {
  quantity_int-new_quantity = sample_quantity_kept;
  amount-new_inr = λ x. refl;
  new_instrument_key-fields = λ e s. refl;
}
