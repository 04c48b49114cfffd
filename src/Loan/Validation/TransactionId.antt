-- ===== src/Loan/Validation/TransactionId.antt =====
-- Splitting a transaction id into its channel and its number.
use promo_collection.Prelude.{
  str_eq, eq_iff, ◌≤◌, ◌≡◌, ◌≢◌, refl, ap, String, Bool, true, false, Option, none, some, List, [],
  ◌∷◌, ◌++◌, inl, inr, arith, find?, All, All-elem, Memᴰ, Bool-cases,
}
use promo_collection.Loan.Validation.{
  size, after_prefix, has_prefix_fold, trim_prefix, is_transaction_char, matches_all, channel_of,
  number_checked, is_valid_transaction_id,
}

-- The first text, then the second.
abbrev pub joined : String → String → String
joined String.[] s = s
joined (String.◌∷◌ c p) s = String.◌∷◌ c (joined p s)

after_prefix-joined : (p s : String) → after_prefix p (joined p s) ≡ some s
after_prefix-joined String.[] s = refl
after_prefix-joined (String.◌∷◌ c p) s = ground (arith, after_prefix-joined p s)

abbrev trimmed : String → Option String → String
trimmed s none = s
trimmed s (some r) = r

trim_prefix-joined : (p s : String) → trim_prefix (joined p s) p ≡ s
trim_prefix-joined p s = ap (λ o. trimmed (joined p s) o) (after_prefix-joined p s)

-- The channels that an id can have: one that a shorter channel before it begins with has none.
abbrev pub recognised : List String
recognised =
    "SMS" ∷ "USSD" ∷ "FB" ∷ "Facebook" ∷ "CXS" ∷ "DPA" ∷ "G1" ∷ "RLInsuff" ∷ "RT" ∷ "1201"
    ∷ "TCOETEST1" ∷ "Test333" ∷ []

abbrev pub Splits : String → String → Type 0
Splits number c =
    size (joined c number) ≤ 70 → is_valid_transaction_id (joined c number) ≡ inl (c, number)

module _ (number : String) (allowed : matches_all is_transaction_char number ≡ true) where
  split-channel : (c : String) → channel_of (joined c number) ≡ some c → Splits number c
  unfolding is_valid_transaction_id
  split-channel c found short = rw found (ground (arith, trim_prefix-joined c number))

  split-recognised : All (Splits number) recognised
  unfolding channel_of
  split-recognised = (
    split-channel _ refl,
    (
      split-channel _ refl,
      (
        split-channel _ refl,
        (
          split-channel _ refl,
          (
            split-channel _ refl,
            (
              split-channel _ refl,
              (
                split-channel _ refl,
                (
                  split-channel _ refl,
                  (
                    split-channel _ refl,
                    (split-channel _ refl, (split-channel _ refl, (split-channel _ refl, tt))),
                  ),
                ),
              ),
            ),
          ),
        ),
      ),
    ),
  )

  -- An id of at most seventy characters that is a channel which can be recognised and then a number
  -- of allowed characters is split into that channel and that number.
  pub is_valid_transaction_id-joined :
      (c : String)
      → Memᴰ c recognised
      → size (joined c number) ≤ 70
      → is_valid_transaction_id (joined c number) ≡ inl (c, number)
  is_valid_transaction_id-joined c known = All-elem (Splits number) known split-recognised

begins_with-g1 :
    (id : String) → has_prefix_fold id "G1TESTLOAN" ≡ true → has_prefix_fold id "G1" ≡ true
begins_with-g1 String.[] h = cc
begins_with-g1 (String.◌∷◌ a String.[]) h = ground arith
begins_with-g1 (String.◌∷◌ a (String.◌∷◌ b s)) h = ground arith

differ : (a b : String) → str_eq a b ≡ false → a ≢ b
differ a b h e = let same = (eq_iff a b).1 e in cc

-- None of the first elements passes the test, if what is found is none of them.
find?-append :
    (p : String → Bool) (xs ys : List String) (c : String)
    → All (λ x. str_eq x c ≡ false) xs
    → find? p (xs ++ ys) ≡ some c
    → (find? p xs ≡ none) × (find? p ys ≡ some c)
find?-append p [] ys c d h = (refl, h)
find?-append p (x ∷ xs) ys c (d, ds) h = ground (arith, differ x c d, find?-append p xs ys c ds)

find?-none :
    (p : String → Bool) (xs : List String) (x : String) (ys : List String)
    → find? p (xs ++ x ∷ ys) ≡ none
    → p x ≡ false
find?-none p [] x ys h = ground arith
find?-none p (y ∷ xs) x ys h = ground (arith, find?-none p xs x ys)

abbrev before_g1 : List String
before_g1 = "SMS" ∷ "USSD" ∷ "FB" ∷ "Facebook" ∷ "CXS" ∷ "DPA" ∷ []

abbrev after_g1 : List String
after_g1 = "Facebook" ∷ "RLInsuff" ∷ "RT" ∷ "1201" ∷ "TCOETEST1" ∷ []

channel_of-shadowed : (id : String) → channel_of id ≢ some "G1TESTLOAN"
unfolding channel_of
channel_of-shadowed id h =
    let p : String → Bool = λ k. has_prefix_fold id k in
    let (earlier, late) =
      find?-append p (before_g1 ++ "G1" ∷ after_g1) ("G1TESTLOAN" ∷ "Test333" ∷ []) "G1TESTLOAN"
        ((
          refl,
          (
            refl,
            (refl, (refl, (refl, (refl, (refl, (refl, (refl, (refl, (refl, (refl, tt)))))))))),
          ),
        ))
        h in
    let g1 = find?-none p before_g1 "G1" after_g1 earlier in
    elim (Bool-cases (p "G1TESTLOAN")) [
      | inl e ↦ let g = begins_with-g1 id e in cc
      | inr e ↦ let d = differ "Test333" "G1TESTLOAN" refl in ground arith
    ]

number_checked-channel :
    (id : String) (o : Option String) (c n : String) → number_checked id o ≡ inl (c, n) → o ≡ some c
number_checked-channel id none c n h = cc
number_checked-channel id (some k) c n h = ground arith

-- No id is of the channel G1TESTLOAN: G1 stands before it.
pub is_valid_transaction_id-shadowed :
    (id number : String) → is_valid_transaction_id id ≢ inl ("G1TESTLOAN", number)
unfolding is_valid_transaction_id
is_valid_transaction_id-shadowed id number h =
    ground
      (arith, channel_of-shadowed id, number_checked-channel id (channel_of id) "G1TESTLOAN" number)
