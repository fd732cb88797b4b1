-- ===== src/Shell/Navigation.antt =====
-- The sidebar marks one screen at most: the screens' paths differ within their first eight letters.
use nyx_darkpool.Base.{
  ℕ, zero, suc, ◌≤◌, ◌⊎◌, ◌≡◌, refl, sym, ap, ◌∙◌, true, false, List, [], ◌∷◌, Text, arith, filter,
  length, take, starts_with, ◌===◌, ===_iff, Bool-cases, inl, inr, All,
}
use nyx_darkpool.Shell.{Item, items, is_active, home}

key : Text → Text
key p = take 8 p

take-starts_with :
    (n : ℕ) (p a : Text) → starts_with p a ≡ true → n ≤ length a → take n p ≡ take n a
unfolding starts_with
take-starts_with zero p a h le = refl
take-starts_with (suc n) p [] h le = ground arith
take-starts_with (suc n) [] (d ∷ a) h le = cc
take-starts_with (suc n) (c ∷ p) (d ∷ a) h le = ground (arith, take-starts_with n p a)

-- A path of at least eight letters, or the home page.
abbrev IsLong : Item → Type 0
IsLong it = (it.href ≡ home) ⊎ ((it.href === home ≡ false) × (8 ≤ length it.href))

key-is_active : (p : Text) (it : Item) → IsLong it → is_active p it ≡ true → key it.href ≡ key p
unfolding is_active
key-is_active p it (inl at_home) h =
    ap key (at_home ∙ sym ((===_iff p home).0 (ground (arith, ===_iff it.href home))))
key-is_active p it (inr (other, long)) h =
    unfold key in sym (take-starts_with 8 p it.href (ground arith) long)

abbrev IsDistinct : List Item → Type 0
IsDistinct [] = Unit
IsDistinct (x ∷ xs) = All (λ y. (key y.href === key x.href) ≡ false) xs × IsDistinct xs

none_of :
    (p k : Text) (xs : List Item)
    → key p ≡ k
    → All (λ y. (key y.href === k) ≡ false) xs
    → All IsLong xs
    → length (filter (is_active p) xs) ≡ 0
none_of p k [] e h long = refl
none_of p k (x ∷ xs) e (differ, h) (l, long) = elim (Bool-cases (is_active p x)) [
  | inl active ↦
      let same : key x.href ≡ k = key-is_active p x l active ∙ e in
      ground (arith, ===_iff (key x.href) k)
  | inr idle ↦ ground (arith, none_of p k xs e h long)
]

count-le :
    (p : Text) (xs : List Item)
    → IsDistinct xs
    → All IsLong xs
    → length (filter (is_active p) xs) ≤ 1
count-le p [] h long = omega arith
count-le p (x ∷ xs) (differ, h) (l, long) = elim (Bool-cases (is_active p x)) [
  | inl active ↦
      let none_else = none_of p (key x.href) xs (sym (key-is_active p x l active)) differ long in
      ground (arith, none_else)
  | inr idle ↦ ground (arith, count-le p xs h long)
]

IsLong-items : All IsLong items
unfolding ◌===◌
IsLong-items = (
  inl refl,
  (
    inr (refl, omega arith),
    (
      inr (refl, omega arith),
      (inr (refl, omega arith), (inr (refl, omega arith), (inr (refl, omega arith), tt))),
    ),
  ),
)

IsDistinct-items : IsDistinct items
unfolding key ◌===◌
IsDistinct-items = (
  (refl, (refl, (refl, (refl, (refl, tt))))),
  (
    (refl, (refl, (refl, (refl, tt)))),
    ((refl, (refl, (refl, tt))), ((refl, (refl, tt)), ((refl, tt), (tt, tt)))),
  ),
)

-- Whatever the path is, at most one item of the sidebar is marked as active.
pub active-le : (pathname : Text) → length (filter (is_active pathname) items) ≤ 1
active-le p = count-le p items IsDistinct-items IsLong-items
