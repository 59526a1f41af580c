-- ===== src/ChatMap.antt =====
-- Theorems on the map of the chat manager, a `std::map` of strings, ChatManager.cpp.
use cpp_mmo.Base.{
  All, ℕ, ◌^◌, ◌<◌, ◌≡◌, refl, ap, sym, ◌∙◌, ◌⊎◌, inl, inr, false, Option, none, some, [], ◌∷◌,
  arith, Bool-cases, ltb,
}
use cpp_mmo.Base.Text.{Text, to_string}
use cpp_mmo.Network.Session.{Session}
use cpp_mmo.Chat.{scan}
use cpp_mmo.ChatText.{scan-to_string}
use cpp_mmo.ChatManager.{
  Ordering, less, equal, greater, compare, by_order, Sessions, find_session, store_session,
  erase_session,
}

pub compare_refl : (xs : Text) → compare xs xs ≡ equal
unfolding compare
compare_refl [] = refl
compare_refl (x ∷ xs) =
    let same : ltb x x ≡ false = ground arith in simp (same, compare_refl xs) refl

less≢equal : ¬ (less ≡ equal)
less≢equal h = cc

greater≢equal : ¬ (greater ≡ equal)
greater≢equal h = cc

pub compare_equal : (xs ys : Text) → compare xs ys ≡ equal → xs ≡ ys
unfolding compare
compare_equal [] [] h = refl
compare_equal [] (y ∷ ys) h = cc
compare_equal (x ∷ xs) [] h = cc
compare_equal (x ∷ xs) (y ∷ ys) h = elim (Bool-cases (ltb x y)) [
  | inl below ↦
      let found : compare (x ∷ xs) (y ∷ ys) ≡ less = simp below refl in
      absurd (less≢equal (sym found ∙ h))
  | inr not_below ↦ elim (Bool-cases (ltb y x)) [
    | inl above ↦
        let found : compare (x ∷ xs) (y ∷ ys) ≡ greater = simp (not_below, above) refl in
        absurd (greater≢equal (sym found ∙ h))
    | inr not_above ↦
        let same : x ≡ y = ground arith in
        let found : compare (x ∷ xs) (y ∷ ys) ≡ compare xs ys = simp (not_below, not_above) refl in
        let tails = compare_equal xs ys (sym found ∙ h) in cc
  ]
]

pub to_string_injective : (a b : ℕ) → a < 2 ^ 64 → b < 2 ^ 64 → to_string a ≡ to_string b → a ≡ b
to_string_injective a b ha hb h =
    sym (scan-to_string a (omega arith)) ∙ ap (scan 0) h ∙ scan-to_string b (omega arith)

Ordering-cases : (o : Ordering) → (o ≡ equal) ⊎ ((o ≡ less) ⊎ (o ≡ greater))
Ordering-cases less = inr (inl refl)
Ordering-cases equal = inl refl
Ordering-cases greater = inr (inr refl)

-- Whether the orders of two keys agree.
abbrev pub found_at : Ordering → Option Session → Option Session → Option Session
found_at o here rest = by_order o rest here rest

found_at_twice :
    (o : Ordering) (x y z : Option Session) → found_at o x (found_at o y z) ≡ found_at o x z
found_at_twice less x y z = refl
found_at_twice equal x y z = refl
found_at_twice greater x y z = refl

found_at_swap :
    (o p : Ordering) (x y z : Option Session)
    → (o ≡ equal → p ≡ equal → ⊥)
    → found_at o x (found_at p y z) ≡ found_at p y (found_at o x z)
found_at_swap equal equal x y z h = absurd (h refl refl)
found_at_swap equal less x y z h = refl
found_at_swap equal greater x y z h = refl
found_at_swap less p x y z h = refl
found_at_swap greater p x y z h = refl

find_session_cons :
    (q j : Text) (t : Session) (m : Sessions)
    → find_session q ((j, t) ∷ m) ≡ found_at (compare q j) (some t) (find_session q m)
unfolding find_session
find_session_cons q j t m = refl

apart : (q k j : Text) → ¬ (compare k j ≡ equal) → compare q j ≡ equal → compare q k ≡ equal → ⊥
apart q k j differ e f =
    let same : k ≡ j = sym (compare_equal q k f) ∙ compare_equal q j e in
    differ (ap (λ x. compare x j) same ∙ compare_refl j)

pub find_session-store_session :
    (q k : Text) (s : Session) (m : Sessions)
    → find_session q (store_session k s m) ≡ found_at (compare q k) (some s) (find_session q m)
unfolding store_session
find_session-store_session q k s [] = find_session_cons q k s []
find_session-store_session q k s ((j, t) ∷ m) = elim (Ordering-cases (compare k j)) [
  | inl e ↦
      let same = compare_equal k j e in
      simp e (
        simp (same, find_session_cons)
          (sym (found_at_twice (compare q j) (some s) (some t) (find_session q m))))
  | inr (inl e) ↦ simp e (find_session_cons q k s ((j, t) ∷ m))
  | inr (inr e) ↦
      let differ : ¬ (compare k j ≡ equal) = λ f. greater≢equal (sym e ∙ f) in
      simp (e, find_session_cons, find_session-store_session q k s m)
        (found_at_swap (compare q j) (compare q k) (some t) (some s) (find_session q m)
          (apart q k j differ))
]

pub find_session-erase_session :
    (q k : Text) (m : Sessions)
    → find_session q (erase_session k m) ≡ found_at (compare q k) none (find_session q m)
unfolding erase_session find_session
find_session-erase_session q k [] = nothing (compare q k)
  where
    nothing : (o : Ordering) → none ≡ found_at o none none
    nothing less = refl
    nothing equal = refl
    nothing greater = refl
find_session-erase_session q k ((j, t) ∷ m) = elim (Ordering-cases (compare k j)) [
  | inl e ↦
      let same = compare_equal k j e in
      simp (e, find_session-erase_session q k m)
        (simp (same, find_session_cons)
          (sym (found_at_twice (compare q j) none (some t) (find_session q m))))
  | inr (inl e) ↦
      let differ : ¬ (compare k j ≡ equal) = λ f. less≢equal (sym e ∙ f) in
      simp (e, find_session_cons, find_session-erase_session q k m)
        (found_at_swap (compare q j) (compare q k) (some t) none (find_session q m)
          (apart q k j differ))
  | inr (inr e) ↦
      let differ : ¬ (compare k j ≡ equal) = λ f. greater≢equal (sym e ∙ f) in
      simp (e, find_session_cons, find_session-erase_session q k m)
        (found_at_swap (compare q j) (compare q k) (some t) none (find_session q m)
          (apart q k j differ))
]

compare_flip : (xs ys : Text) → compare xs ys ≡ greater → compare ys xs ≡ less
unfolding compare
compare_flip [] [] h = cc
compare_flip [] (y ∷ ys) h = cc
compare_flip (x ∷ xs) [] h = refl
compare_flip (x ∷ xs) (y ∷ ys) h = ground (arith, compare_flip xs ys)

compare_trans :
    (xs ys zs : Text) → compare xs ys ≡ less → compare ys zs ≡ less → compare xs zs ≡ less
unfolding compare
compare_trans [] [] zs h k = cc
compare_trans [] (y ∷ ys) [] h k = cc
compare_trans [] (y ∷ ys) (z ∷ zs) h k = refl
compare_trans (x ∷ xs) [] zs h k = cc
compare_trans (x ∷ xs) (y ∷ ys) [] h k = cc
compare_trans (x ∷ xs) (y ∷ ys) (z ∷ zs) h k = ground (arith, compare_trans xs ys zs)

-- The entries after an entry have greater keys.
abbrev pub IsOrdered : Sessions → Type 0
IsOrdered [] = Unit
IsOrdered ((j, t) ∷ m) = All (λ e. compare j e.0 ≡ less) m × IsOrdered m

module _ (P : Text × Session → Type 0) where
  pub store_session-All :
      (k : Text) (s : Session) (m : Sessions)
      → ((j : Text) → compare k j ≡ equal → P (j, s))
      → P (k, s)
      → All P m
      → All P (store_session k s m)
  unfolding store_session
  store_session-All k s [] f new h = (new, tt)
  store_session-All k s ((j, t) ∷ m) f new (h, hs) = elim (Ordering-cases (compare k j)) [
    | inl e ↦ simp e (f j e, hs)
    | inr (inl e) ↦ simp e (new, (h, hs))
    | inr (inr e) ↦ simp e (h, store_session-All k s m f new hs)
  ]

  pub erase_session-All : (k : Text) (m : Sessions) → All P m → All P (erase_session k m)
  unfolding erase_session
  erase_session-All k [] h = tt
  erase_session-All k ((j, t) ∷ m) (h, hs) = elim (Ordering-cases (compare k j)) [
    | inl e ↦ simp e (erase_session-All k m hs)
    | inr (inl e) ↦ simp e (h, erase_session-All k m hs)
    | inr (inr e) ↦ simp e (h, erase_session-All k m hs)
  ]

above_trans :
    (k j : Text) (m : Sessions)
    → compare k j ≡ less
    → All (λ e. compare j e.0 ≡ less) m
    → All (λ e. compare k e.0 ≡ less) m
above_trans k j [] h hs = tt
above_trans k j ((i, t) ∷ m) h (below, hs) = (compare_trans k j i h below, above_trans k j m h hs)

pub store_session-IsOrdered :
    (k : Text) (s : Session) (m : Sessions) → IsOrdered m → IsOrdered (store_session k s m)
unfolding store_session
store_session-IsOrdered k s [] h = (tt, tt)
store_session-IsOrdered k s ((j, t) ∷ m) (h, hs) = elim (Ordering-cases (compare k j)) [
  | inl e ↦ simp e (h, hs)
  | inr (inl e) ↦ simp e ((refl, above_trans k j m e h), (h, hs))
  | inr (inr e) ↦
      let below = compare_flip k j e in
      simp e (
        store_session-All (λ e. compare j e.0 ≡ less) k s m
            (λ i f. ap (compare j) (sym (compare_equal k i f)) ∙ below) below h,
        store_session-IsOrdered k s m hs,
      )
]

pub erase_session-IsOrdered :
    (k : Text) (m : Sessions) → IsOrdered m → IsOrdered (erase_session k m)
unfolding erase_session
erase_session-IsOrdered k [] h = tt
erase_session-IsOrdered k ((j, t) ∷ m) (h, hs) = elim (Ordering-cases (compare k j)) [
  | inl e ↦ simp e (erase_session-IsOrdered k m hs)
  | inr (inl e) ↦ simp e (erase_session-All _ k m h, erase_session-IsOrdered k m hs)
  | inr (inr e) ↦ simp e (erase_session-All _ k m h, erase_session-IsOrdered k m hs)
]

pub find_session-above :
    (k : Text) (m : Sessions) → All (λ e. compare k e.0 ≡ less) m → find_session k m ≡ none
unfolding find_session
find_session-above k [] h = refl
find_session-above k ((j, t) ∷ m) (h, hs) = simp h (find_session-above k m hs)
