-- ===== src/Domain.antt =====
-- What aggregate.go, order_aggregate.go, alert_aggregate.go, position_aggregate.go and
-- session_aggregate.go take from outside the repository: `float64`, `time.Time`, and the value
-- types and functions of the modules kite-mcp-domain and kite-mcp-broker. They are parameters;
-- `DomainLaws` names what some theorems rely on.
pub mod Values
use kite_mcp_eventsourcing.Prelude.{String, Bool, Option, ◌≡◌, none}
use kite_mcp_eventsourcing.Prelude.Word.{Int64}
use kite_mcp_eventsourcing.Result.{Error}

pub record Domain : Type 1 where
  -- `float64`, with Go's `==`, the test `x <= 0`, the constant 0 and the text of `%f`
  pub Float : Type 0
  pub float_eq : Float → Float → Bool
  pub float_nonpositive : Float → Bool
  pub float_zero : Float
  pub format_float : Float → String
  -- `[]byte`: the program passes payloads on and never looks into them
  pub Bytes : Type 0
  -- `time.Time`, its zero value and `Before`
  pub Time : Type 0
  pub zero_time : Time
  pub before : Time → Time → Bool
  -- `domain.Quantity`, its zero value, `domain.NewQuantity` and the method `Int`
  pub Quantity : Type 0
  pub zero_quantity : Quantity
  pub new_quantity : Int64 → Quantity × Option Error
  pub quantity_int : Quantity → Int64
  -- `domain.Money`, its zero value, `domain.NewINR` and the field `Amount`
  pub Money : Type 0
  pub zero_money : Money
  pub new_inr : Float → Money
  pub amount : Money → Float
  -- `domain.InstrumentKey`, its zero value, `==`, `domain.NewInstrumentKey` and its two fields
  pub InstrumentKey : Type 0
  pub zero_instrument : InstrumentKey
  pub instrument_eq : InstrumentKey → InstrumentKey → Bool
  pub new_instrument_key : String → String → InstrumentKey
  pub exchange : InstrumentKey → String
  pub tradingsymbol : InstrumentKey → String
  -- `domain.PositionAggregateID`
  pub position_aggregate_id : String → InstrumentKey → String → String

module _ (d : Domain) where
  open d use {Float, Quantity, new_quantity, quantity_int, amount, new_inr}
  open d use {new_instrument_key, exchange, tradingsymbol}

  -- `NewQuantity` keeps the number that it accepts, `NewINR` keeps the amount, and a key built
  -- from the two fields of a key that `NewInstrumentKey` built is that key again.
  pub record DomainLaws : Type 0 where
    pub quantity_int-new_quantity :
        (n : Int64) (q : Quantity) → new_quantity n ≡ (q, none) → quantity_int q ≡ n
    pub amount-new_inr : (x : Float) → amount (new_inr x) ≡ x
    pub new_instrument_key-fields :
        (e s : String)
        → new_instrument_key
            (exchange (new_instrument_key e s))
            (tradingsymbol (new_instrument_key e s))
          ≡ new_instrument_key e s

  -- `broker.OrderParams`: the fields that `Place` reads
  pub record OrderParams : Type 0 where
    pub exchange_name : String
    pub symbol : String
    pub transaction_type : String
    pub order_type : String
    pub product : String
    pub quantity : Int64
    pub price : Float
