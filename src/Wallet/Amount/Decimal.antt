-- ===== src/Wallet/Amount/Decimal.antt =====
-- `parseWalletAmount` and `serializeWalletAmount`
-- (packages/wallet/src/domain/amount.ts), with `BigInt(text)` and `toString(10)`.
use arena_core.Prelude.{
  ℕ, zero, suc, ◌+◌, ◌-◌, ◌*◌, ◌/◌, ◌%◌, ◌^◌, ◌<◌, ◌≤◌, ◌≡◌, refl, Bool, true, false, ◌&&◌, [], ◌∷◌,
  ◌++◌, Text, ltb, leb, if◌then◌else◌, length, all, arith,
}
use native.Mathlib.Nat.{pow-suc}
use arena_core.Prelude.Int.{ℤ, pos, negsuc}
use arena_core.Prelude.Outcome.{ok, throw}
use arena_core.Ledger.{coded}
use arena_core.Wallet.Policies.{Checked, wallet_amount_invalid}

abbrev pub max_wallet_amount : ℕ
max_wallet_amount = 1_000_000_000_000

abbrev pub is_digit : ℕ → Bool
is_digit c = leb b'0' c && leb c b'9'

-- `/^[1-9][0-9]{0,12}$/`.
unfoldable pub is_amount_text : Text → Bool
is_amount_text [] = false
is_amount_text (c ∷ cs) = leb b'1' c && leb c b'9' && all is_digit cs && leb (length cs) 12

-- `BigInt(text)` on decimal digits.
unfoldable pub digits_value : ℕ → Text → ℕ
digits_value acc [] = acc
digits_value acc (c ∷ cs) = digits_value (acc * 10 + (c - b'0')) cs

unfoldable pub parse_wallet_amount : Text → Checked ℕ
unfolding is_amount_text digits_value
parse_wallet_amount input =
    let value = digits_value 0 input in
    if is_amount_text input
    then (if ltb max_wallet_amount value then throw (coded wallet_amount_invalid) else ok value)
    else throw (coded wallet_amount_invalid)

-- The decimal digits of a number; `fuel` bounds their count.
decimal_from : ℕ → ℕ → Text
decimal_from zero n = []
decimal_from (suc fuel) n =
    let more = decimal_from fuel (n / 10) ++ (b'0' + n % 10) ∷ [] in
    if ltb n 10 then (b'0' + n) ∷ [] else more

-- `value.toString(10)`.
unfoldable pub serialize_wallet_amount : ℤ → Text
unfolding decimal_from
serialize_wallet_amount (pos n) = decimal_from (suc n) n
serialize_wallet_amount (negsuc n) = b'-' ∷ decimal_from (suc (suc n)) (suc n)

digits_value-append :
    (acc : ℕ) (cs : Text) (c : ℕ)
    → digits_value acc (cs ++ c ∷ []) ≡ digits_value acc cs * 10 + (c - b'0')
unfolding digits_value
digits_value-append acc [] c = refl
digits_value-append acc (d ∷ cs) c = digits_value-append (acc * 10 + (d - b'0')) cs c

digits_value-decimal_from : (fuel n : ℕ) → n < fuel → digits_value 0 (decimal_from fuel n) ≡ n
unfolding digits_value decimal_from
digits_value-decimal_from zero n h = elim h [ ]
digits_value-decimal_from (suc fuel) n h = ground (
  arith,
  digits_value-append 0 (decimal_from fuel (n / 10)) (b'0' + n % 10),
  digits_value-decimal_from fuel (n / 10),
)

-- The first digit, and the digits' range.
abbrev head_is_positive : Text → Bool
head_is_positive [] = false
head_is_positive (c ∷ cs) = leb b'1' c && leb c b'9'

all_digits-append :
    (cs : Text) (c : ℕ)
    → all is_digit cs ≡ true
    → is_digit c ≡ true
    → all is_digit (cs ++ c ∷ []) ≡ true
all_digits-append [] c h k = ground arith
all_digits-append (d ∷ cs) c h k = ground (arith, all_digits-append cs c)

all_digits-decimal_from : (fuel n : ℕ) → all is_digit (decimal_from fuel n) ≡ true
unfolding decimal_from
all_digits-decimal_from zero n = refl
all_digits-decimal_from (suc fuel) n = ground (
  arith,
  all_digits-append (decimal_from fuel (n / 10)) (b'0' + n % 10),
  all_digits-decimal_from fuel (n / 10),
)

head-append :
    (cs : Text) (c : ℕ) → head_is_positive cs ≡ true → head_is_positive (cs ++ c ∷ []) ≡ true
head-append [] c h = cc
head-append (d ∷ cs) c h = h

head-decimal_from : (fuel n : ℕ) → 0 < n → n < fuel → head_is_positive (decimal_from fuel n) ≡ true
unfolding decimal_from
head-decimal_from zero n p h = elim h [ ]
head-decimal_from (suc fuel) n p h = ground (
  arith,
  head-append (decimal_from fuel (n / 10)) (b'0' + n % 10),
  head-decimal_from fuel (n / 10),
)

length-snoc : (cs : Text) (c : ℕ) → length (cs ++ c ∷ []) ≡ length cs + 1
length-snoc [] c = refl
length-snoc (d ∷ cs) c = omega (arith, length-snoc cs c)

-- A number below 10 ^ (k + 1) has at most k + 1 digits.
length-decimal_from : (fuel n k : ℕ) → n < 10 ^ k * 10 → length (decimal_from fuel n) ≤ k + 1
unfolding decimal_from
length-decimal_from zero n k h = omega arith
length-decimal_from (suc fuel) n zero h = ground arith
length-decimal_from (suc fuel) n (suc k) h = ground (
  arith,
  length-snoc (decimal_from fuel (n / 10)) (b'0' + n % 10),
  length-decimal_from fuel (n / 10) k,
  pow-suc 10 k,
)

is_amount_text_of :
    (cs : Text)
    → head_is_positive cs ≡ true
    → all is_digit cs ≡ true
    → length cs ≤ 13
    → is_amount_text cs ≡ true
unfolding is_amount_text
is_amount_text_of [] h d l = cc
is_amount_text_of (c ∷ cs) h d l = ground arith

-- Every amount from 1 to 1,000,000,000,000 is read back from the text that it is written as.
pub parse-serialize :
    (n : ℕ)
    → 0 < n
    → n ≤ max_wallet_amount
    → parse_wallet_amount (serialize_wallet_amount (pos n)) ≡ ok n
unfolding parse_wallet_amount serialize_wallet_amount
parse-serialize n p h = ground (
  arith,
  digits_value-decimal_from (suc n) n,
  is_amount_text_of (decimal_from (suc n) n),
  head-decimal_from (suc n) n p,
  all_digits-decimal_from (suc n) n,
  length-decimal_from (suc n) n 12,
)

pub le-digits_value : (acc : ℕ) (cs : Text) → acc ≤ digits_value acc cs
unfolding digits_value
le-digits_value acc [] = omega arith
le-digits_value acc (c ∷ cs) = omega (arith, le-digits_value (acc * 10 + (c - b'0')) cs)

-- What is accepted lies between 1 and 1,000,000,000,000.
pub parse_bounds :
    (input : Text) {n : ℕ} → parse_wallet_amount input ≡ ok n → (0 < n) × (n ≤ max_wallet_amount)
unfolding parse_wallet_amount
parse_bounds [] h = ground arith
parse_bounds (c ∷ cs) h = ground (arith, le-digits_value (c - b'0') cs)
