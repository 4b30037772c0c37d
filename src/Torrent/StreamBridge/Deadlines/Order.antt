-- ===== src/Torrent/StreamBridge/Deadlines/Order.antt =====
-- src/torrent/libtorrent_stream_bridge.cpp: the deadlines that an order of pieces gives, and what is
-- left of those of an order before.
use nuvio_engine.Common.{
  ℕ, zero, suc, ◌+◌, ◌≡◌, ◌≢◌, refl, sym, ap, ◌∙◌, subst, Bool, true, false, ◌&&◌, not, Bool-cases,
  inl, inr, List, [], ◌∷◌, Option, none, some, In, get_elem?, arith, ◌==◌, if◌then◌else◌, nat_eq,
}
use nuvio_engine.Std.UnorderedMap.{erase_if, member}
use nuvio_engine.Scheduler.DemandPlan.Marks.{Distinct}
use nuvio_engine.Torrent.StreamBridge.{deadline_for}
use nuvio_engine.Cache.PieceCache.{key_eq_instance}
use nuvio_engine.Torrent.StreamBridge.Deadlines.{is_at, order_deadline}

unfoldable pub or_else : Option ℕ → Option ℕ → Option ℕ
or_else none other = other
or_else (some d) other = some d

pub member-In : (piece : ℕ) (xs : List ℕ) → member piece xs ≡ true → In piece xs
unfolding member
member-In piece [] e = cc
member-In piece (x ∷ xs) e = elim (Bool-cases (x == piece)) [
  | inl hit ↦ inl (ground arith)
  | inr miss ↦ inr (member-In piece xs (ground arith))
]

pub In-member : (piece : ℕ) (xs : List ℕ) → In piece xs → member piece xs ≡ true
unfolding member
In-member piece [] i = absurd i
In-member piece (x ∷ xs) (inl e) = ground (arith, e)
In-member piece (x ∷ xs) (inr i) = ground (arith, In-member piece xs i)

pub order_absent :
    (xs : List ℕ) (ordinal piece : ℕ) → ¬ In piece xs → order_deadline xs ordinal piece ≡ none
unfolding order_deadline
order_absent [] ordinal piece h = refl
order_absent (x ∷ xs) ordinal piece h =
    ground
      (arith, order_absent xs (ordinal + 1) piece (λ i. h (inr i)), λ (e : piece ≡ x). h (inl e))

pub In-at : (xs : List ℕ) (i piece : ℕ) → get_elem? xs i ≡ some piece → In piece xs
In-at [] i piece e = cc
In-at (x ∷ xs) zero piece e = inl (ground (arith, e))
In-at (x ∷ xs) (suc i) piece e = inr (In-at xs i piece e)

pub order_step :
    (x piece first later : ℕ) (others : Option ℕ)
    → piece ≢ x
    → others ≡ some later
    → (if x == piece then some first else others) ≡ some later
order_step x piece first later others n e = ground (arith, n, e)

pub order_at :
    (xs : List ℕ) (ordinal i piece : ℕ)
    → Distinct xs
    → get_elem? xs i ≡ some piece
    → order_deadline xs ordinal piece ≡ some (deadline_for (ordinal + i))
unfolding order_deadline
order_at [] ordinal i piece d e = cc
order_at (x ∷ xs) ordinal zero piece d e =
    let same : ordinal ≡ ordinal + 0 = omega arith in
    let hit : x ≡ piece = ground (arith, e) in ground (arith, hit, ap (λ k. deadline_for k) same)
order_at (x ∷ xs) ordinal (suc i) piece d e =
    let sum : ordinal + 1 + i ≡ ordinal + suc i = omega arith in
    order_step x piece (deadline_for ordinal) (deadline_for (ordinal + suc i))
      (order_deadline xs (ordinal + 1) piece)
      (λ s. d.0 (subst (λ k. In k xs) s (In-at xs i piece e)))
      (order_at xs (ordinal + 1) i piece d.1 e ∙ ap (λ k. some (deadline_for k)) sum)

pub unchanged_at :
    (jumped : Bool) (at : Option ℕ) (piece : ℕ)
    → (not jumped && is_at at piece) ≡ true
    → (jumped ≡ false) × (at ≡ some piece)
unfolding is_at
unchanged_at true at piece e = cc
unchanged_at false none piece e = cc
unchanged_at false (some p) piece e = (refl, ground (arith, e))

pub or_else-step :
    (hit : Bool) (others before : Option ℕ) (first : ℕ)
    → (hit ≡ true → others ≡ none)
    → or_else others (if hit then some first else before)
      ≡ or_else (if hit then some first else others) before
unfolding or_else
or_else-step true others before first h = ap (λ o. or_else o (some first)) (h refl)
or_else-step false others before first h = refl

pub or_else-none : (o : Option ℕ) → or_else o none ≡ o
unfolding or_else
or_else-none none = refl
or_else-none (some d) = refl

pub order_missing :
    (xs : List ℕ) (piece : ℕ) → member piece xs ≡ false → order_deadline xs 0 piece ≡ none
order_missing xs piece e = order_absent xs 0 piece (λ i. absurd (cc (e, In-member piece xs i)))

-- Where every piece of the order is reset, no deadline is left.
pub order_reset :
    (xs : List ℕ) (piece : ℕ) → (if member piece xs then none else order_deadline xs 0 piece) ≡ none
order_reset xs piece = elim (Bool-cases (member piece xs)) [
  | inl here ↦ ground (arith, here)
  | inr away ↦ ground (arith, away, order_missing xs piece away)
]

pub order_present :
    (xs : List ℕ) (ordinal piece : ℕ)
    → In piece xs
    → (d : ℕ) × (order_deadline xs ordinal piece ≡ some d)
unfolding order_deadline
order_present [] ordinal piece i = absurd i
order_present (x ∷ xs) ordinal piece (inl e) = (deadline_for ordinal, ground (arith, e))
order_present (x ∷ xs) ordinal piece (inr i) =
    let later = order_present xs (ordinal + 1) piece i in
    elim (Bool-cases (x == piece)) [
      | inl hit ↦ (deadline_for ordinal, ground (arith, hit))
      | inr miss ↦ (later.0, ground (arith, miss, later.1))
    ]

pub member-erase_if :
    (next xs : List ℕ) (piece : ℕ)
    → member piece (erase_if (λ p. member p next) xs)
      ≡ (if member piece next then false else member piece xs)
unfolding erase_if member
member-erase_if next [] piece = ground arith
member-erase_if next (x ∷ xs) piece = elim (Bool-cases (x == piece)) [
  | inl hit ↦
      let same : x ≡ piece = ground (arith, hit) in
      ground (arith, hit, member-erase_if next xs piece, ap (λ p. member p next) same)
  | inr miss ↦ ground (arith, miss, member-erase_if next xs piece)
]

pub or_else-present :
    (reset : Bool) (o other : Option ℕ) (d : ℕ)
    → reset ≡ false
    → o ≡ some d
    → (if reset then none else or_else o other) ≡ o
unfolding or_else
or_else-present true o other d e f = cc
or_else-present false none other d e f = cc
or_else-present false (some x) other d e f = refl

-- What is left where the pieces that the new order does not have are reset.
pub order_left :
    (previous next : List ℕ) (piece : ℕ)
    → (if member piece (erase_if (λ p. member p next) previous)
        then none
        else or_else (order_deadline next 0 piece) (order_deadline previous 0 piece))
      ≡ order_deadline next 0 piece
unfolding or_else
order_left previous next piece = elim (Bool-cases (member piece next)) [
  | inl here ↦
      let d = order_present next 0 piece (member-In piece next here) in
      or_else-present (member piece (erase_if (λ p. member p next) previous))
        (order_deadline next 0 piece) (order_deadline previous 0 piece) d.0
        (ground (arith, member-erase_if next previous piece, here)) d.1
  | inr away ↦
      let same : member piece (erase_if (λ p. member p next) previous) ≡ member piece previous =
        ground (arith, member-erase_if next previous piece, away) in
      let missing = order_missing next piece away in
      (λ i. if same i then none else or_else (missing i) (order_deadline previous 0 piece))
      ∙ order_reset previous piece
      ∙ sym missing
]
