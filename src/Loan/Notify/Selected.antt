-- ===== src/Loan/Notify/Selected.antt =====
-- Which of several messages is sent.
use promo_collection.Prelude.{
  ◌≡◌, ◌↔◌, ◌⊎◌, refl, sym, ap, inl, inr, Bool, true, false, Option, none, some, String, List, [],
  ◌∷◌, ◌++◌, find?, Memᴰ, All, arith, Bool-cases, str_eq, eq_iff,
}
use mathlib.Core.List.Memᴰ.{head, tail}
use promo_collection.Loan.Templates.{Messages, agrees, has_label, selected_message}

-- The message has the label of the collection from promos exactly if that is enabled.
abbrev pub Suits : Bool → Messages → Type 0
Suits enabled m = Memᴰ "DC_ON" m.labels ↔ (enabled ≡ true)

-- `m` is the first of the messages that suits.
abbrev pub IsFirst : Bool → List Messages → Messages → Type 0
IsFirst enabled ms m =
    (earlier : List Messages) × (later : List Messages) × (ms ≡ earlier ++ m ∷ later)
    × All (λ x. Suits enabled x → ⊥) earlier
    × Suits enabled m

has_label-Mem : (l : String) (ls : List String) → has_label l ls ≡ true → Memᴰ l ls
has_label-Mem l [] h = cc
has_label-Mem l (x ∷ xs) h = elim (Bool-cases (str_eq x l)) [
  | inl same ↦ head (sym ((eq_iff x l).0 same))
  | inr other ↦ tail (has_label-Mem l xs (let e : has_label l xs ≡ true = ground arith in e))
]

Mem-has_label : (l : String) (ls : List String) → Memᴰ l ls → has_label l ls ≡ true
Mem-has_label l [] m = elim m [ ]
Mem-has_label l (x ∷ xs) (head e) =
    let same : str_eq x l ≡ true = (eq_iff x l).1 (sym e) in ground arith
Mem-has_label l (x ∷ xs) (tail m) = ground (arith, Mem-has_label l xs m)

agrees-Suits : (enabled : Bool) (m : Messages) → agrees enabled m ≡ true → Suits enabled m
agrees-Suits true m h = (λ k. refl, λ e. has_label-Mem "DC_ON" m.labels (ground arith))
agrees-Suits false m h =
    (λ k. let labelled = Mem-has_label "DC_ON" m.labels k in ground arith, λ e. cc)

Suits-agrees : (enabled : Bool) (m : Messages) → Suits enabled m → agrees enabled m ≡ true
Suits-agrees true m (h, k) = let labelled = Mem-has_label "DC_ON" m.labels (k refl) in ground arith
Suits-agrees false m (h, k) = elim (Bool-cases (has_label "DC_ON" m.labels)) [
  | inl b ↦ let wrong = h (has_label-Mem "DC_ON" m.labels b) in cc
  | inr b ↦ ground arith
]

not_suiting : (enabled : Bool) (m : Messages) → agrees enabled m ≡ false → Suits enabled m → ⊥
not_suiting enabled m h k = let right = Suits-agrees enabled m k in cc

-- The first that suits is found, or none does.
found-IsFirst :
    (enabled : Bool) (ms : List Messages) (o : Option Messages)
    → find? (agrees enabled) ms ≡ o
    → ((m : Messages) × (o ≡ some m) × IsFirst enabled ms m)
      ⊎ ((o ≡ none) × All (λ x. Suits enabled x → ⊥) ms)
found-IsFirst enabled [] o h = inr (sym h, tt)
found-IsFirst enabled (x ∷ xs) o h = elim (Bool-cases (agrees enabled x)) [
  | inl b ↦
      let e : some x ≡ o = ground arith in
      inl (x, sym e, ([], xs, refl, tt, agrees-Suits enabled x b))
  | inr b ↦
      let e : find? (agrees enabled) xs ≡ o = ground arith in
      elim (found-IsFirst enabled xs o e) [
        | inl (m, k, (earlier, later, l, a, s)) ↦
            inl (m, k, (x ∷ earlier, later, ap (λ ys. x ∷ ys) l, (not_suiting enabled x b, a), s))
        | inr (k, a) ↦ inr (k, (not_suiting enabled x b, a))
      ]
]

-- Of several messages the first that suits is sent: one with the label DC_ON where the collection
-- from promos is enabled, and one without it where it is not. Where none suits, the first is sent.
pub selected_message-IsFirst :
    (enabled : Bool) (m n : Messages) (more : List Messages)
    → IsFirst enabled (m ∷ n ∷ more) (selected_message enabled m (n ∷ more))
      ⊎ ((selected_message enabled m (n ∷ more) ≡ m)
          × All (λ x. Suits enabled x → ⊥) (m ∷ n ∷ more))
unfolding selected_message
selected_message-IsFirst enabled m n more = elim (found-IsFirst enabled (m ∷ n ∷ more) _ refl) [
  | inl (x, e, first) ↦ inl (rw e first)
  | inr (e, all) ↦ inr (rw e refl, all)
]
