-- ===== src/Pricing/Examples.antt =====
-- A rate card, the theorems applied to it, and quotes for parcels.
use mathlib.Core.List.{Memᴰ}
use pikship.Prelude.{
  ℕ, ◌+◌, ◌*◌, ◌≤◌, ◌<◌, ◌≡◌, refl, ◌⊎◌, String, Bool, true, none, [], ◌∷◌, arith, str_eq,
}
use pikship.Prelude.Int.{pos, ◌+ℤ◌, ◌*ℤ◌}
use pikship.Prelude.Int64.{wrap}
use pikship.Prelude.Tx.{ok}
use pikship.Orders.Rows.{PaymentMode}
use pikship.Pricing.Engine.{
  Scope, Card, Zone, Slab, Db, QuoteInput, Quote, resolve_card, extra_slabs, quote, compute_quote,
  quote_all,
}
use pikship.Pricing.Weights.{slabs_cover}
use pikship.Pricing.Cards.{IsEligible, Reaches, resolve_card-prefers}

abbrev common : Card
common = record {
  id = 1;
  scope = Scope.pikshipp;
  carrier_id = 9;
  service_type = "surface";
  effective_from = 10;
  effective_to = none;
  published = true;
}

abbrev own : Card
own = record common { id = 2; scope = Scope.of_seller 7 }

abbrev zone : Zone
zone = record { card_id = 2; zone_code = "A"; patterns = "560..." ∷ []; estimated_days = 3 }

abbrev slab : Slab
slab = record {
  card_id = 2;
  zone_code = "A";
  payment_mode = PaymentMode.prepaid;
  weight_min_g = 0;
  weight_max_g = 10_000;
  base_first = pos 4000;
  additional = pos 1500;
  slab_size_g = 500;
}

abbrev tables : Db
tables = record {
  cards = common ∷ own ∷ [];
  zones = zone ∷ [];
  slabs = slab ∷ [];
  seller_type = λ _. none;
}

abbrev parcel : QuoteInput
parcel = record {
  seller_id = 7;
  pickup_pincode = "110001";
  ship_to_pincode = "560001";
  carrier_id = 9;
  service_type = "surface";
  declared_weight_g = 1200;
  length_mm = 300;
  width_mm = 200;
  height_mm = 50;
  payment_mode = PaymentMode.prepaid;
  declared_value = pos 99800;
}

-- One pattern, and one pincode for it.
abbrev matches : String → String → Bool
matches p s = str_eq s "560001"

abbrev answer : Quote
answer = record {
  carrier_id = 9;
  service_type = "surface";
  estimated_days = 3;
  total = pos 7000;
  base = pos 4000;
  additional = pos 3000;
  rate_card_id = 2;
  zone = "A";
}

quote_test : quote matches tables 50 parcel ≡ ok answer
unfolding quote compute_quote resolve_card ◌+ℤ◌ ◌*ℤ◌ wrap
quote_test = refl

quote_all_test :
    quote_all matches tables 50 (parcel ∷ record parcel { carrier_id = 8 } ∷ []) ≡ answer ∷ []
unfolding quote compute_quote resolve_card ◌+ℤ◌ ◌*ℤ◌ wrap
quote_all_test = refl

common-IsEligible : IsEligible 50 parcel common
common-IsEligible = record {
  published = refl;
  carrier = refl;
  service = refl;
  begun = omega arith;
  running = λ t e. absurd (cc);
}

resolve_card-prefers_example :
    (c : Card) × (n : ℕ) × (resolve_card tables 50 parcel ≡ ok c)
    × Memᴰ c tables.cards
    × IsEligible 50 parcel c
    × Reaches tables parcel c.scope n
    × (n ≤ 2)
resolve_card-prefers_example =
    resolve_card-prefers tables 50 2 parcel common (Memᴰ.head refl) common-IsEligible refl

slabs_cover_example :
    (1200 ≤ 500 * (extra_slabs 1200 500 + 1))
    × ((extra_slabs 1200 500 ≡ 0) ⊎ (500 * extra_slabs 1200 500 < 1200))
slabs_cover_example = slabs_cover 1200 500 (omega arith)
