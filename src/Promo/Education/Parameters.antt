-- ===== src/Promo/Education/Parameters.antt =====
-- The parameters of the education notification.
use promo_collection.Prelude.{String, ◌≡◌, refl, some, List, [], ◌∷◌, map, All}
use promo_collection.Runtime.Returns.{Returns, Returns-bind, Returns-or_fail, Returns-pure}
use promo_collection.Promo.Schema.{NotificationParameter}
use promo_collection.Promo.Education.{lookup, notification_parameters}

-- The parameters are those that the template names, in its order, each with its value of the map.
abbrev pub Filled : List (String × String) → List String → List NotificationParameter → Type 0
Filled values names ps =
    (map (λ p. p.name) ps ≡ names) × All (λ p. lookup p.name values ≡ some p.value) ps

Filled-cons :
    (values : List (String × String)) (name value : String) (names : List String)
    (ps : List NotificationParameter)
    → lookup name values ≡ some value
    → Filled values names ps
    → Filled values (name ∷ names) (record { name = name; value = value } ∷ ps)
Filled-cons values name value names ps e h = (rw h.0, (e, h.1))

-- Where the parameters are built, they are the names of the template in their order, each with the
-- value that the map gives it.
pub notification_parameters-Filled :
    {S : Type 0} (values : List (String × String)) (names : List String)
    → Returns {S = S} (Filled values names) (notification_parameters values names)
unfolding notification_parameters
notification_parameters-Filled values [] = Returns-pure _ (refl, tt)
notification_parameters-Filled values (name ∷ names) =
    Returns-bind (λ v. lookup name values ≡ some v) _ _ (Returns-or_fail _ _ (λ v e. e))
      (λ v e.
        Returns-bind (Filled values names) _ _ (notification_parameters-Filled values names)
          (λ ps h. Returns-pure _ (Filled-cons values name v names ps e h)))
