-- ===== src/Tracking/Status.antt =====
-- The canonical statuses of backend/internal/tracking/tracking.go and how a carrier's status is
-- brought to one. A text is compared by the codes of its characters; the texts looked for are ASCII.
use Prim.Native.String
use Prim.Native.Char.{code}
use pikship.Prelude.{
  ℕ, ◌+◌, String, Bool, true, false, ◌&&◌, List, [], ◌∷◌, ◌==◌, str_eq, leb, if◌then◌else◌,
}

pub data CanonicalStatus : Type 0 where
  picked_up in_transit out_for_delivery delivered : CanonicalStatus
  rto_initiated rto_delivered exception pending manifested : CanonicalStatus

abbrev pub codes : String → List ℕ
codes Prim.Native.String.String.[] = []
codes (Prim.Native.String.String.◌∷◌ c s) = code c ∷ codes s

-- 'A' is 65, 'Z' is 90.
abbrev pub lower_code : ℕ → ℕ
lower_code c = if leb 65 c && leb c 90 then c + 32 else c

abbrev pub to_lower : List ℕ → List ℕ
to_lower [] = []
to_lower (c ∷ cs) = lower_code c ∷ to_lower cs

-- lower[i : i+len(sub)] == sub.
abbrev pub begins_with : List ℕ → List ℕ → Bool
begins_with [] cs = true
begins_with (s ∷ ss) [] = false
begins_with (s ∷ ss) (c ∷ cs) = if s == c then begins_with ss cs else false

-- The inner loop of `contains`, over the places i.
abbrev pub occurs : List ℕ → List ℕ → Bool
occurs sub [] = begins_with sub []
occurs sub (c ∷ cs) = if begins_with sub (c ∷ cs) then true else occurs sub cs

abbrev is_empty : List ℕ → Bool
is_empty [] = true
is_empty (_ ∷ _) = false

abbrev pub any_occurs : List ℕ → List (List ℕ) → Bool
any_occurs lower [] = false
any_occurs lower (sub ∷ subs) =
    if is_empty sub
    then any_occurs lower subs
    else (if occurs sub lower then true else any_occurs lower subs)

abbrev all_codes : List String → List (List ℕ)
all_codes [] = []
all_codes (s ∷ ss) = codes s ∷ all_codes ss

unfoldable pub contains : String → List String → Bool
contains s subs = any_occurs (to_lower (codes s)) (all_codes subs)

abbrev is_one_of : String → List String → Bool
is_one_of s [] = false
is_one_of s (t ∷ ts) = if str_eq s t then true else is_one_of s ts

-- The fallback on the status text.
abbrev of_text : String → CanonicalStatus
of_text t =
    if contains t ("delivered" ∷ "dlvd" ∷ [])
    then delivered
    else (if contains t ("out for delivery" ∷ "ofd" ∷ [])
        then out_for_delivery
        else (if contains t ("picked up" ∷ "pickup" ∷ [])
            then picked_up
            else (if contains t ("in transit" ∷ "intransit" ∷ [])
                then in_transit
                else (if contains t ("manifested" ∷ "manifest" ∷ [])
                    then manifested
                    else (if contains t ("rto" ∷ []) then rto_initiated else exception)))))

unfoldable pub normalise : String → String → CanonicalStatus
normalise status_code t =
    if is_one_of status_code ("DL" ∷ "DEL" ∷ "DLVD" ∷ "Delivered" ∷ [])
    then delivered
    else (if is_one_of status_code ("OFD" ∷ "OUT-SCAN" ∷ "OUT" ∷ [])
        then out_for_delivery
        else (if is_one_of status_code ("PKP" ∷ "PU" ∷ "PKPU" ∷ "Picked Up" ∷ [])
            then picked_up
            else (if is_one_of status_code ("IT" ∷ "IN-SCAN" ∷ "In Transit" ∷ "TIN" ∷ [])
                then in_transit
                else (if is_one_of status_code ("MAN" ∷ "MFT" ∷ "Manifested" ∷ [])
                    then manifested
                    else (if is_one_of status_code ("RTO" ∷ "RTO-INIT" ∷ "RTN" ∷ [])
                        then rto_initiated
                        else (if is_one_of status_code ("RTO-DL" ∷ "RTN-DL" ∷ [])
                            then rto_delivered
                            else of_text t))))))
