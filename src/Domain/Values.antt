-- ===== src/Domain/Values.antt =====
-- Values that the constructors of kite-mcp-domain built, and what makes them come back from their
-- stored form.
use kite_mcp_eventsourcing.Prelude.{String, false, ◌≡◌, ◌≢◌, ◌==◌, none, eq_iff}
use kite_mcp_eventsourcing.Prelude.Word.{Int64}
use kite_mcp_eventsourcing.Domain.{Domain, DomainLaws}

pub not_empty : (t : String) → (t == "") ≡ false → t ≢ ""
not_empty t h e = cc (h, (eq_iff t "").1 e)

module _ (d : Domain) where
  open d use {Float, Quantity, Money, InstrumentKey}
  open d use {new_quantity, new_inr, new_instrument_key}

  abbrev pub IsQuantity : Quantity → Type 0
  IsQuantity q = (n : Int64) × (new_quantity n ≡ (q, none))

  abbrev pub IsPrice : Money → Type 0
  IsPrice p = (x : Float) × (p ≡ new_inr x)

  abbrev pub IsInstrument : InstrumentKey → Type 0
  IsInstrument k =
      (exchange symbol : String) × (symbol ≢ "") × (k ≡ new_instrument_key exchange symbol)

  pub accepted : (n : Int64) → (new_quantity n).1 ≡ none → IsQuantity (new_quantity n).0
  accepted n h = (n, λ i. ((new_quantity n).0, h i))

module _ {d : Domain} (laws : DomainLaws d) where
  open d use {Quantity, Money, InstrumentKey, new_quantity, quantity_int, new_inr, amount}
  open d use {new_instrument_key, exchange, tradingsymbol}

  pub quantity_again : (q : Quantity) → IsQuantity d q → (new_quantity (quantity_int q)).0 ≡ q
  quantity_again q (n, made) = rw (laws.quantity_int-new_quantity n q made, made)

  pub price_again : (p : Money) → IsPrice d p → new_inr (amount p) ≡ p
  price_again p (x, made) = rw (made, laws.amount-new_inr)

  pub instrument_again :
      (k : InstrumentKey) → IsInstrument d k → new_instrument_key (exchange k) (tradingsymbol k) ≡ k
  instrument_again k (e, s, _, made) = rw (made, laws.new_instrument_key-fields)
