-- ===== src/Runtime/Strings.antt =====
-- `strings.ToUpper` and `strings.TrimSpace`, on ASCII texts.
use Prim.Native.Char.{Char, code}
use Prim.Native.String.{String}
use promo_collection.Prelude.{◌≡◌, refl, Bool, true, false, ◌&&◌, ◌||◌, ◌==◌, leb, if◌then◌else◌}

-- The letter of the second text at the place where `c` stands in the first.
replaced : String → String → Char → Char
replaced String.[] t c = c
replaced (String.◌∷◌ a s) String.[] c = c
replaced (String.◌∷◌ a s) (String.◌∷◌ b t) c = if code a == code c then b else replaced s t c

unfoldable pub to_upper : String → String
unfolding replaced
to_upper String.[] = ""
to_upper (String.◌∷◌ c s) =
    String.◌∷◌ (replaced "abcdefghijklmnopqrstuvwxyz" "ABCDEFGHIJKLMNOPQRSTUVWXYZ" c) (to_upper s)

-- Tab, line feed, vertical tab, form feed, carriage return and space.
is_space : Char → Bool
is_space c = code c == 32 || (leb 9 (code c) && leb (code c) 13)

trim_left : String → String
unfolding is_space
trim_left String.[] = ""
trim_left (String.◌∷◌ c s) = if is_space c then trim_left s else String.◌∷◌ c s

abbrev is_empty : String → Bool
is_empty String.[] = true
is_empty (String.◌∷◌ c s) = false

trim_right : String → String
unfolding is_space
trim_right String.[] = ""
trim_right (String.◌∷◌ c s) =
    let t = trim_right s in if is_space c && is_empty t then "" else String.◌∷◌ c t

unfoldable pub trim_space : String → String
unfolding trim_left trim_right
trim_space s = trim_right (trim_left s)

normalises : to_upper (trim_space "  promo sku ") ≡ "PROMO SKU"
unfolding to_upper trim_space
normalises = refl
