-- ===== src/Ui/Laws.antt =====
-- What the display helpers promise.
use nyx_darkpool.Base.{
  ℕ, zero, suc, ◌+◌, ◌-◌, ◌≤◌, ◌<◌, ◌≡◌, refl, [], ◌∷◌, ◌++◌, Text, arith, length, take, drop,
  length-append,
}
use nyx_darkpool.Ui.{ellipsis, short_id}

length-take_of_le : (n : ℕ) (s : Text) → n ≤ length s → length (take n s) ≡ n
length-take_of_le zero s h = refl
length-take_of_le (suc n) [] h = absurd (omega arith)
length-take_of_le (suc n) (c ∷ s) h = omega (arith, length-take_of_le n s (omega arith))

length-drop : (n : ℕ) (s : Text) → length (drop n s) ≡ length s - n
length-drop zero s = omega arith
length-drop (suc n) [] = omega arith
length-drop (suc n) (c ∷ s) = omega (arith, length-drop n s)

length-shown :
    (s : Text) (head tail : ℕ)
    → head + tail + 1 < length s
    → length (take head s ++ ellipsis ∷ drop (length s - tail) s) ≡ head + tail + 1
length-shown s head tail long = omega (
  arith,
  length-append (take head s) (ellipsis ∷ drop (length s - tail) s),
  length-take_of_le head s (omega arith),
  length-drop (length s - tail) s,
)

short_id_of_long :
    (s : Text) (head tail : ℕ)
    → 0 < tail
    → head + tail + 1 < length s
    → short_id s head tail ≡ take head s ++ ellipsis ∷ drop (length s - tail) s
unfolding short_id
short_id_of_long [] head tail pos long = absurd (omega arith)
short_id_of_long (c ∷ s) head tail pos long = ground arith

short_id_of_short :
    (s : Text) (head tail : ℕ)
    → 0 < length s
    → length s ≤ head + tail + 1
    → short_id s head tail ≡ s
unfolding short_id
short_id_of_short [] head tail pos short = absurd (omega arith)
short_id_of_short (c ∷ s) head tail pos short = ground arith

-- Of a text that is longer than `head + tail + 1` the first `head` units, an ellipsis and the last
-- `tail` are shown, if `tail` is not 0: exactly `head + tail + 1` units, which are shown unchanged
-- when they are shortened again.
pub short_id-long :
    (s : Text) (head tail : ℕ)
    → 0 < tail
    → head + tail + 1 < length s
    → (short_id s head tail ≡ take head s ++ ellipsis ∷ drop (length s - tail) s)
      × (length (short_id s head tail) ≡ head + tail + 1)
      × (short_id (short_id s head tail) head tail ≡ short_id s head tail)
short_id-long s head tail pos long =
    let shape = short_id_of_long s head tail pos long in
    let size = length-shown s head tail long in
    (shape, rw shape size, rw shape (short_id_of_short _ head tail (omega arith) (omega arith)))
