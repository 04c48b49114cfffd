-- ===== src/Tests/Store.antt =====
-- A collection that is a list in the state, and never fails.
use promo_collection.Prelude.{
  ◌+◌, ◌-◌, ◌<◌, ◌≡◌, ◌≢◌, refl, Bool, true, Option, none, some, List, [], ◌∷◌, ◌++◌, if◌then◌else◌,
  find?, map, erase_first, update_first, count_if, arith,
}
use promo_collection.Runtime.{Outcome, ok, err, no_documents}
use promo_collection.Driver.{Collection}

abbrev pub found : {T : Type 0} → Option T → Outcome T
found none = err no_documents
found (some t) = ok t

-- The documents are in the order of their ids.
abbrev find_last? : {T : Type 0} → (T → Bool) → List T → Option T
find_last? p [] = none
find_last? p (x ∷ xs) = elim (find_last? p xs) [
  | none ↦ if p x then some x else none
  | some t ↦ some t
]

abbrev pub listed : {S T : Type 0} → (S → List T) → (List T → S → S) → Collection S T
listed get put = record {
  find_one = λ p s. (found (find? p (get s)), s);
  find_last = λ p s. (found (find_last? p (get s)), s);
  insert_one = λ t s. (ok 1, put (get s ++ (t ∷ [])) s);
  update_one = λ p f s. (ok tt, put (update_first p f (get s)) s);
  update_many = λ p f s. (ok tt, put (map (λ t. if p t then f t else t) (get s)) s);
  delete_one = λ p s. (ok tt, put (erase_first p (get s)) s);
}

module _ {T : Type 0} (p : T → Bool) where
  pub count_if-append_one :
      (xs : List T) (t : T) → p t ≡ true → count_if p (xs ++ (t ∷ [])) ≡ count_if p xs + 1
  count_if-append_one [] t h = rw h
  count_if-append_one (x ∷ xs) t h = omega (arith, count_if-append_one xs t h)

  pub count_if-erase_first : (xs : List T) → count_if p (erase_first p xs) ≡ count_if p xs - 1
  count_if-erase_first [] = refl
  count_if-erase_first (x ∷ xs) = ground (arith, count_if-erase_first xs)

  pub find?-some : (xs : List T) → 0 < count_if p xs → find? p xs ≢ none
  find?-some [] h e = omega arith
  find?-some (x ∷ xs) h e = ground (arith, find?-some xs)
