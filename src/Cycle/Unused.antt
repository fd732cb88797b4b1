-- ===== src/Cycle/Unused.antt =====
-- The orders that a greedy pairing leaves unused.
use nyx_darkpool.Base.{
  ◌≡◌, refl, sym, subst, Bool, true, false, ◌||◌, none, List, [], ◌∷◌, ◌++◌, Text, ◌===◌, ===_iff,
  map, filter, All, All-map, arith, Bool-cases, inl, inr,
}
use nyx_darkpool.Book.{Order, MatchPair}
use nyx_darkpool.Book.Reference.{cross, ids, take_first, match_asks}
use nyx_darkpool.Book.Fairness.{IsGreedy, Passed}

-- The order is a party of one of the pairs.
abbrev pub is_used : Text → List MatchPair → Bool
is_used x [] = false
is_used x (p ∷ ps) = (x === p.maker_id || x === p.taker_id) || is_used x ps

-- What crosses an order is used.
abbrev pub Apart : List MatchPair → List Order → Order → Type 0
Apart ps bids a = All (λ b. is_used b.id ps ≡ false → cross a b ≡ false) bids

abbrev pub AllApart : List MatchPair → List Order → List Order → Type 0
AllApart ps asks bids = All (λ a. is_used a.id ps ≡ false → Apart ps bids a) asks

Apart-around :
    (p : MatchPair) (ps : List MatchPair) (a b : Order) (before after : List Order)
    → is_used b.id (p ∷ ps) ≡ true
    → Apart ps (before ++ after) a
    → Apart (p ∷ ps) (before ++ b ∷ after) a
Apart-around p ps a b [] after used h =
    (λ e. absurd (cc), All-map _ _ (λ c k e. k (ground arith)) after h)
Apart-around p ps a b (c ∷ before) after used (k, h) =
    (λ e. k (ground arith), Apart-around p ps a b before after used h)

pub IsGreedy-AllApart :
    {asks bids : List Order} {ps : List (Order × Order)}
    → IsGreedy asks bids ps
    → AllApart (map ids ps) asks bids
IsGreedy-AllApart IsGreedy.done = tt
IsGreedy-AllApart (IsGreedy.pass {bids = bids} passed greedy) =
    (λ e. All-map _ _ (λ b miss e'. miss) bids passed, IsGreedy-AllApart greedy)
IsGreedy-AllApart
      (IsGreedy.take {a = a} {b = b} {asks = asks} {ps = ps} before after same passed hit greedy) =
    let used : is_used b.id (map ids ((a, b) ∷ ps)) ≡ true =
      ground (arith, (===_iff b.id b.id).1 refl) in
    (
      λ e. absurd (ground (arith, (===_iff a.id a.id).1 refl)),
      All-map _ _
          (λ c k e.
            subst (λ l. Apart (map ids ((a, b) ∷ ps)) l c) (sym same)
              (Apart-around (ids (a, b)) (map ids ps) c b before after used (k (ground arith))))
          asks (IsGreedy-AllApart greedy),
    )

pub All-unfilter :
    (P : Order → Type 0) (p : Order → Bool) (l : List Order)
    → All P (filter p l)
    → All (λ a. p a ≡ true → P a) l
All-unfilter P p [] h = tt
All-unfilter P p (a ∷ l) h = elim (Bool-cases (p a)) [
  | inl e ↦ let (k, t) = parts (rw e at h) in (λ e'. k, All-unfilter P p l t)
  | inr e ↦ (λ e'. absurd (cc), All-unfilter P p l (rw e at h))
]
  where
    parts : All P (a ∷ filter p l) → P a × All P (filter p l)
    parts (k, t) = (k, t)

pub All-filter :
    (P Q : Order → Type 0) (p : Order → Bool) (l : List Order)
    → ((a : Order) → P a → p a ≡ true → Q a)
    → All P l
    → All Q (filter p l)
All-filter P Q p [] f h = tt
All-filter P Q p (a ∷ l) f (k, h) = elim (Bool-cases (p a)) [
  | inl e ↦ rw e (f a k e, All-filter P Q p l f h)
  | inr e ↦ rw e (All-filter P Q p l f h)
]

take_first-none : (a : Order) (bids : List Order) → Passed a bids → take_first (cross a) bids ≡ none
unfolding take_first
take_first-none a [] h = refl
take_first-none a (b ∷ bids) (miss, h) = ground (arith, take_first-none a bids h)

pub match_asks-none :
    (asks bids : List Order) → All (λ a. Passed a bids) asks → match_asks asks bids ≡ []
unfolding match_asks
match_asks-none [] bids h = refl
match_asks-none (a ∷ asks) bids (k, h) =
    let missed = take_first-none a bids k in rw (match_asks, missed) (match_asks-none asks bids h)
