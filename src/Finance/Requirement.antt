-- ===== src/Finance/Requirement.antt =====
-- `parseRequirement`, `toReservationView`, `assertEntrySatisfied`
-- (packages/match-finance/src/domain/match-entry-policies.ts) and `reservationFingerprint`
-- (packages/match-finance/src/domain/reservation-policies.ts).
use mathlib.Core.Path.{refl, subst}
use arena_core.Prelude.{
  ℕ, ◌≡◌, Bool, true, false, not, ◌&&◌, ◌||◌, Option, none, some, [], ◌∷◌, Text, codes, text_eq,
  ltb, leb, ◌==◌, if◌then◌else◌, all, length, arith, Bool-cases, inl, inr,
}
use arena_core.Prelude.Int.{ℤ}
use arena_core.Prelude.Outcome.{Outcome, ok, throw}
use arena_core.Ledger.{coded}
use arena_core.Wallet.Amount.{digits_value, is_digit}
use arena_core.Finance.Types.{FinanceError, match_entry_reservation_match_invalid}

-- The values of a match's configuration, which is JSON.
mutual
  pub data Json : Type 0 where
    json_null : Json
    json_boolean : Bool → Json
    json_number : ℤ → Json
    -- A number that is no integer, by its digits.
    json_fraction : Text → Json
    json_string : Text → Json
    json_array : Items → Json
    json_object : Members → Json

  pub data Members : Type 0 where
    no_member : Members
    member : Text → Json → Members → Members

  pub data Items : Type 0 where
    no_item : Items
    item : Json → Items → Items

-- `value.name`, on an object.
unfoldable pub property : Text → Members → Option Json
property name no_member = none
property name (member key value rest) =
    let later = property name rest in if text_eq key name then some value else later

-- `MatchEntryRequirementSnapshot`.
pub record EntryRequirement : Type 0 where
  pub amount_per_participant : Text
  pub required : Bool

abbrev no_entry : EntryRequirement
no_entry = record { amount_per_participant = codes "0"; required = false }

abbrev entry_of : Text → Bool → EntryRequirement
entry_of text required = record { amount_per_participant = text; required = required }

abbrev Parsed : Type 0 → Type 0
Parsed A = Outcome FinanceError A

-- `/^(0|[1-9]\d{0,12})$/`.
unfoldable pub is_entry_amount : Text → Bool
is_entry_amount [] = false
is_entry_amount (c ∷ cs) =
    (c == b'0' && (length cs == 0))
    || (leb b'1' c && leb c b'9' && all is_digit cs && leb (length cs) 12)

abbrev is_points : Option Json → Bool
is_points (some (json_string s)) = text_eq s (codes "ARENA_POINT")
is_points _ = false

-- The value of `required`, which defaults to whether the amount is positive; `none` if it is no Boolean.
abbrev required_flag : Option Json → ℕ → Option Bool
required_flag none amount = some (ltb 0 amount)
required_flag (some (json_boolean b)) amount = some b
required_flag (some _) amount = none

unfoldable pub checked_entry : Text → Option Bool → Parsed EntryRequirement
checked_entry text none = throw (coded match_entry_reservation_match_invalid)
checked_entry text (some required) =
    let amount = digits_value 0 text in
    if (not required && not (amount == 0)) || (required && amount == 0)
    then throw (coded match_entry_reservation_match_invalid)
    else ok (entry_of text required)

unfoldable pub amount_of_entry : Option Json → Option Json → Parsed EntryRequirement
amount_of_entry (some (json_string text)) required =
    if is_entry_amount text
    then checked_entry text (required_flag required (digits_value 0 text))
    else throw (coded match_entry_reservation_match_invalid)
amount_of_entry _ required = throw (coded match_entry_reservation_match_invalid)

-- The checks on `entryRequirement`; an array has none of the properties.
unfoldable pub parse_entry : Json → Parsed EntryRequirement
parse_entry (json_object entry) =
    if is_points (property (codes "assetCode") entry)
    then amount_of_entry (property (codes "amountPerParticipant") entry)
        (property (codes "required") entry)
    else throw (coded match_entry_reservation_match_invalid)
parse_entry _ = throw (coded match_entry_reservation_match_invalid)

abbrev parse_found : Option Json → Parsed EntryRequirement
parse_found none = ok no_entry
parse_found (some entry) = parse_entry entry

unfoldable pub parse_requirement : Json → Parsed EntryRequirement
parse_requirement (json_object configuration) =
    parse_found (property (codes "entryRequirement") configuration)
parse_requirement _ = ok no_entry

-- What is known of an entry that has passed the checks.
abbrev pub IsConsistent : EntryRequirement → Type 0
IsConsistent r =
    (r.required ≡ ltb 0 (digits_value 0 r.amount_per_participant))
    × (is_entry_amount r.amount_per_participant ≡ true)

checked_entry-IsConsistent :
    (text : Text) (flag : Option Bool) {r : EntryRequirement}
    → is_entry_amount text ≡ true
    → checked_entry text flag ≡ ok r
    → IsConsistent r
unfolding checked_entry
checked_entry-IsConsistent text none valid h = absurd (ground arith)
checked_entry-IsConsistent text (some true) {r} valid h =
    elim (Bool-cases (digits_value 0 text == 0)) [
      | inl zero ↦
          let refused : throw (coded match_entry_reservation_match_invalid) ≡ ok r = rw zero at h in
          absurd (ground arith)
      | inr positive ↦
          let same : ok (entry_of text true) ≡ ok r = rw positive at h in
          let entry : entry_of text true ≡ r = cc same in
          subst IsConsistent entry (ground arith, valid)
    ]
checked_entry-IsConsistent text (some false) {r} valid h =
    elim (Bool-cases (digits_value 0 text == 0)) [
      | inl zero ↦
          let same : ok (entry_of text false) ≡ ok r = rw zero at h in
          let entry : entry_of text false ≡ r = cc same in
          subst IsConsistent entry (ground arith, valid)
      | inr positive ↦
          let refused : throw (coded match_entry_reservation_match_invalid) ≡ ok r =
            rw positive at h in
          absurd (ground arith)
    ]

amount_of_entry-IsConsistent :
    (amount required : Option Json) {r : EntryRequirement}
    → amount_of_entry amount required ≡ ok r
    → IsConsistent r
unfolding amount_of_entry
amount_of_entry-IsConsistent (some (json_string text)) required h =
    elim (Bool-cases (is_entry_amount text)) [
      | inl valid ↦
          checked_entry-IsConsistent text (required_flag required (digits_value 0 text)) valid
            (rw valid at h)
      | inr invalid ↦ let refused = rw invalid at h in absurd (ground arith)
    ]
amount_of_entry-IsConsistent _ required h = absurd (ground arith)

parse_entry-IsConsistent :
    (entry : Json) {r : EntryRequirement} → parse_entry entry ≡ ok r → IsConsistent r
unfolding parse_entry
parse_entry-IsConsistent (json_object entry) h =
    elim (Bool-cases (is_points (property (codes "assetCode") entry))) [
      | inl points ↦ amount_of_entry-IsConsistent _ _ (rw points at h)
      | inr another ↦ let refused = rw another at h in absurd (ground arith)
    ]
parse_entry-IsConsistent _ h = absurd (ground arith)

no_entry-IsConsistent : IsConsistent no_entry
unfolding is_entry_amount digits_value
no_entry-IsConsistent = (refl, refl)

parse_found-IsConsistent :
    (entry : Option Json) {r : EntryRequirement} → parse_found entry ≡ ok r → IsConsistent r
parse_found-IsConsistent none {r} h =
    let same : no_entry ≡ r = cc h in subst IsConsistent same no_entry-IsConsistent
parse_found-IsConsistent (some entry) h = parse_entry-IsConsistent entry h

-- An accepted configuration has an amount of the form that the pattern asks for, and an entry is
-- required exactly when the amount is positive.
pub parse_requirement-IsConsistent :
    (configuration : Json) {r : EntryRequirement}
    → parse_requirement configuration ≡ ok r
    → IsConsistent r
unfolding parse_requirement
parse_requirement-IsConsistent (json_object configuration) h = parse_found-IsConsistent _ h
parse_requirement-IsConsistent _ {r} h =
    let same : no_entry ≡ r = cc h in subst IsConsistent same no_entry-IsConsistent
