-- ===== src/Runtime/Lookups.antt =====
-- Computations that read: `Reads` is one that shows nothing and returns what an optional value is, or
-- fails where there is none, and `Finds` one that fails as a lookup does.
use promo_collection.Prelude.{
  ◌≡◌, refl, subst, ap, ◌∙◌, ◌⊎◌, inl, inr, String, Bool, true, false, Option, none, some, List,
  if◌then◌else◌,
}
use promo_collection.Runtime.Effects.{
  Outcome, ok, err, Go, Error, no_documents, pure, fail, attempt, attempted, wrapping, ◌>>=◌,
  bind_outcome,
}
use promo_collection.Runtime.Guards.{checked, checking}
use promo_collection.Runtime.Runs.{Gives}

abbrev pub Answers : {A : Type 0} → Option A → Outcome A → Type 0
Answers none r = (e : Error) × (r ≡ err e)
Answers (some a) r = r ≡ ok a

abbrev pub lookup_of : {A : Type 0} → Option A → Outcome A
lookup_of none = err no_documents
lookup_of (some a) = ok a

abbrev pub chained : {A B : Type 0} → Option A → (A → Option B) → Option B → Option B
chained none k n = n
chained (some a) k n = k a

-- A value that is computed from what is read.
abbrev pub computed : {A B : Type 0} → (A → B) → Option A → Option B
computed f none = none
computed f (some a) = some (f a)

-- The test holds of the value, and there is one.
abbrev pub holds : {A : Type 0} → Option A → (A → Bool) → Bool
holds none k = false
holds (some a) k = k a

module _ {E S : Type 0} (view : S → List E) where
  pub record Reads {A : Type 0} (m : Go S A) (c : Option A) : Type 0 where
    pub at : (s : S) → (view (m s).1 ≡ view s) × Answers c (m s).0

  pub record Finds {A : Type 0} (m : Go S A) (c : Option A) : Type 0 where
    pub at : (s : S) → (view (m s).1 ≡ view s) × ((m s).0 ≡ lookup_of c)

module _ {E S : Type 0} {view : S → List E} where
  module _ {A : Type 0} where
    pub Reads-pure : (a : A) → Reads view (pure a) (some a)
    unfolding ◌>>=◌
    Reads-pure a = record { at = λ s. (refl, refl) }

    pub Reads-fail : (e : Error) → Reads view (fail {A = A} e) none
    unfolding ◌>>=◌
    Reads-fail e = record { at = λ s. (refl, (e, refl)) }

    pub Reads-same : {m : Go S A} {c x : Option A} → c ≡ x → Reads view m c → Reads view m x
    Reads-same {m} e k = subst (λ o. Reads view m o) e k

    pub Reads-if :
        (b : Bool) (m n : Go S A) (c x : Option A)
        → Reads view m c
        → Reads view n x
        → Reads view (if b then m else n) (if b then c else x)
    Reads-if true m n c x km kn = km
    Reads-if false m n c x km kn = kn

  module _ {A B : Type 0} where
    bind_outcome-Reads :
        (r : Outcome (A ⊎ Error)) (x : A ⊎ Error) (f : A ⊎ Error → Go S B) (s : S) (c : Option B)
        → r ≡ ok x
        → Reads view (f x) c
        → (view (bind_outcome r f s).1 ≡ view s) × Answers c (bind_outcome r f s).0
    bind_outcome-Reads r x f s c e k = rw e (k.at s)

    -- A lookup, with a branch for what is found and one for nothing.
    pub Reads-found :
        (m : Go S A) (f : A ⊎ Error → Go S B) (o : Option A) (k : A → Option B) (n : Option B)
        → Finds view m o
        → ((a : A) → o ≡ some a → Reads view (f (inl a)) (k a))
        → Reads view (f (inr no_documents)) n
        → Reads view (attempt m >>= f) (chained o k n)
    unfolding ◌>>=◌
    Reads-found m f none k n km ka kn = record {
      at = λ s.
          let (v, e) = km.at s in
          let (w, r) =
            bind_outcome-Reads (attempt m s).0 (inr no_documents) f (m s).1 n (ap attempted e) kn in
          (w ∙ v, r);
    }
    Reads-found m f (some a) k n km ka kn = record {
      at = λ s.
          let (v, e) = km.at s in
          let (w, r) =
            bind_outcome-Reads (attempt m s).0 (inl a) f (m s).1 (k a) (ap attempted e)
              (ka a refl) in
          (w ∙ v, r);
    }

    given_outcome-Reads :
        (r : Outcome A) (a : A) (f : A → Go S B) (s : S) (c : Option B)
        → r ≡ ok a
        → Reads view (f a) c
        → (view (bind_outcome r f s).1 ≡ view s) × Answers c (bind_outcome r f s).0
    given_outcome-Reads r a f s c e k = rw e (k.at s)

    -- After a known value.
    pub Reads-given :
        (m : Go S A) (f : A → Go S B) (a : A) (c : Option B)
        → Reads view m (some a)
        → Reads view (f a) c
        → Reads view (m >>= f) c
    unfolding ◌>>=◌
    Reads-given m f a c km k = record {
      at = λ s.
          let (v, e) = km.at s in
          let (w, r) = given_outcome-Reads (m s).0 a f (m s).1 c e k in (w ∙ v, r);
    }

    -- After a value that is read.
    pub Reads-after :
        (m : Go S A) (f : A → Go S B) (a : A) (c : Option B)
        → Gives view m (λ x. x ≡ a)
        → Reads view (f a) c
        → Reads view (m >>= f) c
    Reads-after m f a c km k =
        Reads-given m f a c
          (record { at = λ s. let (x, e, v, h) = km.at s in (v, e ∙ ap (λ y. ok y) h) }) k

  pub Reads-wrapping :
      {A : Type 0} (t : String) (m : Go S A) (a : A)
      → Reads view m (some a)
      → Reads view (wrapping t m) (some a)
  unfolding ◌>>=◌
  Reads-wrapping t m a k = record { at = λ s. let (v, e) = k.at s in (v, rw e refl) }

  module _ {A R : Type 0} (P : Bool → R → Type 0) where
    checked_outcome-Gives :
        (r : Outcome A) (c : Option A) (stop : Error → R) (f : A → Go S R) (s : S) (k : A → Bool)
        → Answers c r
        → ((e : Error) → P false (stop e))
        → ((a : A) → c ≡ some a → Gives view (f a) (P (k a)))
        → (x : R) × ((bind_outcome (attempted r) (checked stop f) s).0 ≡ ok x)
          × (view (bind_outcome (attempted r) (checked stop f) s).1 ≡ view s)
          × P (holds c k) x
    unfolding ◌>>=◌
    checked_outcome-Gives r none stop f s k (e, h) ks kf = rw h (stop e, refl, refl, ks e)
    checked_outcome-Gives r (some a) stop f s k h ks kf = rw h ((kf a refl).at s)

    -- An early return, where the answer is no, or what follows.
    pub Gives-deciding :
        (stop : Error → R) (m : Go S A) (f : A → Go S R) (c : Option A) (k : A → Bool)
        → Reads view m c
        → ((e : Error) → P false (stop e))
        → ((a : A) → c ≡ some a → Gives view (f a) (P (k a)))
        → Gives view (checking stop m f) (P (holds c k))
    unfolding ◌>>=◌
    Gives-deciding stop m f c k km ks kf = record {
      at = λ s.
          let (v, h) = km.at s in
          let (x, e, w, p) = checked_outcome-Gives (m s).0 c stop f (m s).1 k h ks kf in
          (x, e, w ∙ v, p);
    }

  module _ {A B : Type 0} (P : Option A → B → Type 0) where
    found_outcome-Gives :
        (r : Outcome (A ⊎ Error)) (x : A ⊎ Error) (f : A ⊎ Error → Go S B) (s : S) (Q : B → Type 0)
        → r ≡ ok x
        → Gives view (f x) Q
        → (b : B) × ((bind_outcome r f s).0 ≡ ok b) × (view (bind_outcome r f s).1 ≡ view s) × Q b
    found_outcome-Gives r x f s Q e k = rw e (k.at s)

    -- A lookup, with a branch for what is found and one for nothing.
    pub Gives-found :
        (m : Go S A) (f : A ⊎ Error → Go S B) (o : Option A)
        → Finds view m o
        → ((a : A) → Gives view (f (inl a)) (P (some a)))
        → Gives view (f (inr no_documents)) (P none)
        → Gives view (attempt m >>= f) (P o)
    unfolding ◌>>=◌
    Gives-found m f none km ka kn = record {
      at = λ s.
          let (v, e) = km.at s in
          let (b, h, w, p) =
            found_outcome-Gives (attempt m s).0 (inr no_documents) f (m s).1 (P none)
              (ap attempted e) kn in
          (b, h, w ∙ v, p);
    }
    Gives-found m f (some a) km ka kn = record {
      at = λ s.
          let (v, e) = km.at s in
          let (b, h, w, p) =
            found_outcome-Gives (attempt m s).0 (inl a) f (m s).1 (P (some a)) (ap attempted e)
              (ka a) in
          (b, h, w ∙ v, p);
    }

  module _ {A B : Type 0} {P : B → Type 0} where
    read_outcome-Gives :
        (r : Outcome A) (c : Option A) (f : A ⊎ Error → Go S B) (s : S)
        → Answers c r
        → ((a : A) → c ≡ some a → Gives view (f (inl a)) P)
        → ((e : Error) → c ≡ none → Gives view (f (inr e)) P)
        → (b : B) × ((bind_outcome (attempted r) f s).0 ≡ ok b)
          × (view (bind_outcome (attempted r) f s).1 ≡ view s)
          × P b
    unfolding ◌>>=◌
    read_outcome-Gives r none f s (e, h) ka ke = rw h ((ke e refl).at s)
    read_outcome-Gives r (some a) f s h ka ke = rw h ((ka a refl).at s)

    -- A reading, with a branch for what is read and one for a failure.
    pub Gives-read :
        (m : Go S A) (f : A ⊎ Error → Go S B) (c : Option A)
        → Reads view m c
        → ((a : A) → c ≡ some a → Gives view (f (inl a)) P)
        → ((e : Error) → c ≡ none → Gives view (f (inr e)) P)
        → Gives view (attempt m >>= f) P
    unfolding ◌>>=◌
    Gives-read m f c km ka ke = record {
      at = λ s.
          let (v, h) = km.at s in
          let (b, e, w, p) = read_outcome-Gives (m s).0 c f (m s).1 h ka ke in (b, e, w ∙ v, p);
    }

module _ {E S A B : Type 0} (view : S → List E) where
  computed_outcome-Reads :
      (r : Outcome A) (f : A → B) (c : Option A) (s : S)
      → Answers c r
      → (view (bind_outcome {0, 0, 0} r (λ a. pure (f a)) s).1 ≡ view s)
        × Answers (computed f c) (bind_outcome {0, 0, 0} r (λ a. pure (f a)) s).0
  unfolding ◌>>=◌
  computed_outcome-Reads r f none s (e, h) = rw h (refl, (e, refl))
  computed_outcome-Reads r f (some a) s h = rw h (refl, refl)

module _ {E S A B : Type 0} {view : S → List E} where
  -- Computing with what is read.
  pub Reads-computed :
      (m : Go S A) (f : A → B) (c : Option A)
      → Reads view m c
      → Reads view (m >>= λ a. pure (f a)) (computed f c)
  unfolding ◌>>=◌
  Reads-computed m f c km = record {
    at = λ s.
        let (v, h) = km.at s in
        let (w, k) = computed_outcome-Reads view (m s).0 f c (m s).1 h in (w ∙ v, k);
  }
