-- ===== src/Pricing/Engine.antt =====
-- backend/internal/pricing/pricing.go with the tables of backend/migrations/0012_pricing.up.sql.
-- `matches` is Go's regular expressions: whether a pattern, anchored, matches a pincode. Weights
-- and lengths are not negative, and their product is an int. Of rows that a query does not order, the first is taken.
use pikship.Prelude.{
  ℕ, ◌+◌, ◌-◌, ◌*◌, ◌/◌, ◌%◌, String, Bool, true, false, not, ◌&&◌, Option, none, some, List, [],
  ◌∷◌, ◌==◌, str_eq, leb, ltb, if◌then◌else◌,
}
use pikship.Prelude.Int.{ℤ, pos, ◌+ℤ◌, ◌*ℤ◌}
use pikship.Prelude.Int64.{wrap}
use pikship.Prelude.Table.{select}
use pikship.Prelude.Tx.{not_found, plain, Result, ok, err}
use pikship.Orders.Rows.{PaymentMode, prepaid, cod}

pub data Scope : Type 0 where
  of_seller : ℕ → Scope
  of_seller_type : String → Scope
  pikshipp : Scope

pub record Card : Type 0 where
  pub id : ℕ
  pub scope : Scope
  pub carrier_id : ℕ
  pub service_type : String
  pub effective_from : ℕ
  pub effective_to : Option ℕ
  pub published : Bool

pub record Zone : Type 0 where
  pub card_id : ℕ
  pub zone_code : String
  pub patterns : List String
  pub estimated_days : ℕ

pub record Slab : Type 0 where
  pub card_id : ℕ
  pub zone_code : String
  pub payment_mode : PaymentMode
  pub weight_min_g : ℕ
  pub weight_max_g : ℕ
  pub base_first : ℤ
  pub additional : ℤ
  pub slab_size_g : ℕ

pub record Db : Type 0 where
  pub cards : List Card
  pub zones : List Zone
  pub slabs : List Slab
  -- The table of the sellers, as far as it is read.
  pub seller_type : ℕ → Option String

pub record QuoteInput : Type 0 where
  pub seller_id : ℕ
  pub pickup_pincode : String
  pub ship_to_pincode : String
  pub carrier_id : ℕ
  pub service_type : String
  pub declared_weight_g : ℕ
  pub length_mm : ℕ
  pub width_mm : ℕ
  pub height_mm : ℕ
  pub payment_mode : PaymentMode
  pub declared_value : ℤ

pub record Quote : Type 0 where
  pub carrier_id : ℕ
  pub service_type : String
  pub estimated_days : ℕ
  pub total : ℤ
  pub base : ℤ
  pub additional : ℤ
  pub rate_card_id : ℕ
  pub zone : String

abbrev has_ended : ℕ → Option ℕ → Bool
has_ended now none = false
has_ended now (some t) = leb t now

abbrev pub is_current : ℕ → QuoteInput → Card → Bool
is_current now req c =
    c.published
    && (c.carrier_id == req.carrier_id && str_eq c.service_type req.service_type)
    && (leb c.effective_from now && not (has_ended now c.effective_to))

abbrev same_type : Option String → String → Bool
same_type none t = false
same_type (some s) t = str_eq t s

-- 0, 1 and 2 are the places of the scopes in the query's order; 3 is a scope that it leaves out.
abbrev pub rank_scope : (ℕ → Option String) → ℕ → Scope → ℕ
rank_scope seller_type seller (of_seller s) = if s == seller then 0 else 3
rank_scope seller_type seller (of_seller_type t) = if same_type (seller_type seller) t then 1 else 3
rank_scope seller_type seller pikshipp = 2

abbrev pub rank : Db → ℕ → QuoteInput → Card → ℕ
rank db now req c =
    if is_current now req c then rank_scope db.seller_type req.seller_id c.scope else 3

abbrev or_else : Option Card → Option Card → Option Card
or_else none d = d
or_else (some c) d = some c

abbrev pub at_rank : Db → ℕ → QuoteInput → ℕ → Option Card
at_rank db now req n = select (λ c. rank db now req c == n) db.cards

unfoldable pub resolve_card : Db → ℕ → QuoteInput → Result Card
resolve_card db now req =
    elim (or_else (at_rank db now req 0) (or_else (at_rank db now req 1) (at_rank db now req 2))) [
      | none ↦ err not_found
      | some c ↦ ok c
    ]

abbrev any_matches : (String → String → Bool) → List String → String → Bool
any_matches matches [] pincode = false
any_matches matches (p ∷ ps) pincode =
    if matches p pincode then true else any_matches matches ps pincode

-- Volumetric weight in grams, with the truncation of each division.
abbrev pub volumetric_weight : ℕ → ℕ → ℕ → ℕ
volumetric_weight l w h = l * w * h / 5_000_000 * 1000

abbrev pub chargeable : QuoteInput → ℕ
chargeable req =
    let volumetric = volumetric_weight req.length_mm req.width_mm req.height_mm in
    if ltb req.declared_weight_g volumetric then volumetric else req.declared_weight_g

-- The slabs above the first.
abbrev pub extra_slabs : ℕ → ℕ → ℕ
extra_slabs weight size =
    let extra = weight - size in
    if ltb 0 extra && ltb 0 size
    then (if ltb 0 (extra % size) then extra / size + 1 else extra / size)
    else 0

abbrev pub mode_eq : PaymentMode → PaymentMode → Bool
mode_eq prepaid prepaid = true
mode_eq cod cod = true
mode_eq _ _ = false

abbrev pub is_slab : Card → Zone → QuoteInput → Slab → Bool
is_slab c z req s =
    s.card_id == c.id
    && str_eq s.zone_code z.zone_code
    && (mode_eq s.payment_mode req.payment_mode
        && (leb s.weight_min_g (chargeable req) && ltb (chargeable req) s.weight_max_g))

abbrev pub priced : Card → Zone → QuoteInput → Slab → Quote
priced c z req s =
    let more = wrap (s.additional *ℤ pos (extra_slabs (chargeable req) s.slab_size_g)) in
    record {
      carrier_id = c.carrier_id;
      service_type = c.service_type;
      estimated_days = z.estimated_days;
      total = wrap (s.base_first +ℤ more);
      base = s.base_first;
      additional = more;
      rate_card_id = c.id;
      zone = z.zone_code;
    }

module _ (matches : String → String → Bool) where
  -- The first zone of the card that has a pattern for the pincode, and a code.
  abbrev pub is_zone : Card → QuoteInput → Zone → Bool
  is_zone c req z =
      z.card_id == c.id
      && (any_matches matches z.patterns req.ship_to_pincode && not (str_eq z.zone_code ""))

  abbrev pub quote_slab : Card → Zone → QuoteInput → Option Slab → Result Quote
  quote_slab c z req none = err plain
  quote_slab c z req (some s) = ok (priced c z req s)

  abbrev pub quote_zone : Db → Card → QuoteInput → Option Zone → Result Quote
  quote_zone db c req none = err plain
  quote_zone db c req (some z) = quote_slab c z req (select (is_slab c z req) db.slabs)

  unfoldable pub compute_quote : Db → Card → QuoteInput → Result Quote
  compute_quote db c req = quote_zone db c req (select (is_zone c req) db.zones)

  abbrev pub with_card : Db → QuoteInput → Result Card → Result Quote
  with_card db req (err e) = err e
  with_card db req (ok c) = compute_quote db c req

  unfoldable pub quote : Db → ℕ → QuoteInput → Result Quote
  quote db now req = with_card db req (resolve_card db now req)

  abbrev pub keep_ok : Result Quote → List Quote → List Quote
  keep_ok (err e) qs = qs
  keep_ok (ok q) qs = q ∷ qs

  -- `QuoteAll`, over one request for each candidate.
  abbrev pub quote_all : Db → ℕ → List QuoteInput → List Quote
  quote_all db now [] = []
  quote_all db now (r ∷ rs) = keep_ok (quote db now r) (quote_all db now rs)
