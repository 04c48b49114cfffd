-- ===== src/Loan/Validation/Msisdn.antt =====
-- What the checks of a phone number let through.
use promo_collection.Prelude.{
  ℕ, zero, suc, ◌+◌, ◌-◌, ap, sym, ◌∙◌, ◌≤◌, ◌≡◌, refl, String, true, Option, none, some, ◌⊎◌, inl,
  inr, arith, leb, Bool-cases,
}
use promo_collection.Runtime.{Error}
use promo_collection.Loan.Validation.{
  size, drop, last, is_digit, all_chars, digits_of, clean_msisdn, is_valid_msisdn,
  is_valid_transaction_id, is_valid_keyword, Validation, keyword_checked, transaction_checked,
  msisdn_checked, request_validation,
}

size-drop : (n : ℕ) (s : String) → size (drop n s) ≡ size s - n
size-drop zero s = omega arith
size-drop (suc n) String.[] = omega arith
size-drop (suc n) (String.◌∷◌ c s) = omega (arith, size-drop n s)

drop-digits :
    (n : ℕ) (s : String) → all_chars is_digit s ≡ true → all_chars is_digit (drop n s) ≡ true
drop-digits zero s h = h
drop-digits (suc n) String.[] h = refl
drop-digits (suc n) (String.◌∷◌ c s) h = drop-digits n s (ground arith)

digits_of-digits : (s : String) → all_chars is_digit (digits_of s) ≡ true
digits_of-digits String.[] = refl
digits_of-digits (String.◌∷◌ c s) = ground (arith, digits_of-digits s)

drop-nil : (n : ℕ) → drop n String.[] ≡ String.[]
drop-nil zero = refl
drop-nil (suc n) = refl

step_add : (m n : ℕ) → suc (m + n) ≡ suc m + n
step_add m n = omega arith

drop-drop : (n m : ℕ) (s : String) → drop n (drop m s) ≡ drop (m + n) s
drop-drop n zero s = ap (λ k. drop k s) (omega arith)
drop-drop n (suc m) String.[] = drop-nil n ∙ sym (drop-nil (suc m + n))
drop-drop n (suc m) (String.◌∷◌ c s) =
    drop-drop n m s ∙ ap (λ k. drop k (String.◌∷◌ c s)) (step_add m n)

-- Both ends of a text: the last ten of the last `n` are the last ten.
last-last : (n : ℕ) (s : String) → 10 ≤ n → n ≤ size s → last 10 (last n s) ≡ last 10 s
last-last n s h k =
    ap (λ m. drop m (last n s)) (omega (arith, size-drop (size s - n) s))
    ∙ drop-drop (n - 10) (size s - n) s
    ∙ ap (λ m. drop m s) (omega arith)

pub clean_msisdn-digits : (s : String) → all_chars is_digit (clean_msisdn s) ≡ true
unfolding clean_msisdn
clean_msisdn-digits s = ground (
  arith,
  digits_of-digits s,
  drop-digits (size (digits_of s) - 12) (digits_of s),
  drop-digits (size (digits_of s) - 11) (digits_of s),
  drop-digits (size (digits_of s) - 10) (digits_of s),
)

pub clean_msisdn-size : (s : String) → size (clean_msisdn s) ≤ 12
unfolding clean_msisdn
clean_msisdn-size s = ground (
  arith,
  size-drop (size (digits_of s) - 12) (digits_of s),
  size-drop (size (digits_of s) - 11) (digits_of s),
  size-drop (size (digits_of s) - 10) (digits_of s),
)

last-clean_msisdn :
    (s : String) → 10 ≤ size (clean_msisdn s) → last 10 (clean_msisdn s) ≡ last 10 (digits_of s)
unfolding clean_msisdn
last-clean_msisdn s h = elim (Bool-cases (leb 12 (size (digits_of s)))) [
  | inl e ↦ rw e (last-last 12 (digits_of s) (omega arith) (ground arith))
  | inr e ↦ rw e (elim (Bool-cases (leb 11 (size (digits_of s)))) [
    | inl x ↦ rw x (last-last 11 (digits_of s) (omega arith) (ground arith))
    | inr x ↦ rw x (elim (Bool-cases (leb 10 (size (digits_of s)))) [
      | inl y ↦ rw y (last-last 10 (digits_of s) (omega arith) (ground arith))
      | inr y ↦ rw y refl
    ])
  ])
]

is_valid_msisdn-size : (s : String) → is_valid_msisdn s ≡ none → 10 ≤ size s
unfolding is_valid_msisdn
is_valid_msisdn-size s h = ground arith

-- What a validation without an error has found.
abbrev pub Parts : String → String → String → Validation → Type 0
Parts cleaned keyword id v =
    (is_valid_msisdn cleaned ≡ none)
    × (v.msisdn ≡ last 10 cleaned)
    × (is_valid_transaction_id id ≡ inl (v.channel, v.transaction_number))
    × (is_valid_keyword keyword ≡ none)

keyword_checked-Parts :
    (cleaned keyword id : String) (parts : String × String) (o : Option Error)
    → is_valid_msisdn cleaned ≡ none
    → is_valid_transaction_id id ≡ inl parts
    → is_valid_keyword keyword ≡ o
    → (keyword_checked (last 10 cleaned) parts o).error ≡ none
    → Parts cleaned keyword id (keyword_checked (last 10 cleaned) parts o)
keyword_checked-Parts cleaned keyword id (c, t) none hm ht hk h = (hm, refl, ht, hk)
keyword_checked-Parts cleaned keyword id (c, t) (some e) hm ht hk h = cc

transaction_checked-Parts :
    (cleaned keyword id : String) (r : (String × String) ⊎ Error)
    → is_valid_msisdn cleaned ≡ none
    → is_valid_transaction_id id ≡ r
    → (transaction_checked (last 10 cleaned) keyword r).error ≡ none
    → Parts cleaned keyword id (transaction_checked (last 10 cleaned) keyword r)
transaction_checked-Parts cleaned keyword id (inr e) hm ht h = cc
transaction_checked-Parts cleaned keyword id (inl parts) hm ht h =
    keyword_checked-Parts cleaned keyword id parts _ hm ht refl h

msisdn_checked-Parts :
    (cleaned keyword id : String) (o : Option Error)
    → is_valid_msisdn cleaned ≡ o
    → (msisdn_checked cleaned keyword id o).error ≡ none
    → Parts cleaned keyword id (msisdn_checked cleaned keyword id o)
msisdn_checked-Parts cleaned keyword id (some e) hm h = cc
msisdn_checked-Parts cleaned keyword id none hm h =
    transaction_checked-Parts cleaned keyword id _ hm refl h

pub request_validation-Parts :
    (msisdn keyword id : String)
    → (request_validation msisdn keyword id).error ≡ none
    → Parts (clean_msisdn msisdn) keyword id (request_validation msisdn keyword id)
unfolding request_validation
request_validation-Parts msisdn keyword id h =
    msisdn_checked-Parts (clean_msisdn msisdn) keyword id _ refl h

-- A number that the request validation lets through is the last ten of the digits of the text, all
-- ten of them.
pub request_validation-msisdn :
    (msisdn keyword id : String)
    → (request_validation msisdn keyword id).error ≡ none
    → ((request_validation msisdn keyword id).msisdn ≡ last 10 (digits_of msisdn))
      × (size (request_validation msisdn keyword id).msisdn ≡ 10)
      × (all_chars is_digit (request_validation msisdn keyword id).msisdn ≡ true)
request_validation-msisdn msisdn keyword id h =
    let p = request_validation-Parts msisdn keyword id h in
    let long = is_valid_msisdn-size (clean_msisdn msisdn) p.0 in
    (
      p.1 ∙ last-clean_msisdn msisdn long,
      ap (λ t. size t) p.1
          ∙ omega (arith, long, size-drop (size (clean_msisdn msisdn) - 10) (clean_msisdn msisdn)),
      ap (λ t. all_chars is_digit t) p.1
          ∙ drop-digits (size (clean_msisdn msisdn) - 10) (clean_msisdn msisdn)
              (clean_msisdn-digits msisdn),
    )
