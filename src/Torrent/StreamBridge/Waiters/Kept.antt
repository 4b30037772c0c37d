-- ===== src/Torrent/StreamBridge/Waiters/Kept.antt =====
-- src/torrent/libtorrent_stream_bridge.cpp: no waiter is forgotten: the operations on the table complete
-- a waiter before it leaves, and leave a settled one as it is.
use nuvio_engine.Common.{
  ℕ, ◌≡◌, refl, sym, ap, ◌∙◌, subst, Bool, true, false, Bool-cases, inl, inr, List, [], ◌∷◌, Option,
  none, some, Bytes, In, arith, ◌==◌, if◌then◌else◌,
}
use nuvio_engine.Std.Shared.{modify, modify_same, modify_other}
use nuvio_engine.Std.UnorderedMap.{lookup, erase_if}
use nuvio_engine.Cache.PieceCache.{key_eq, key_eq_iff, key_eq_instance}
use nuvio_engine.Torrent.StreamBridge.State.{PieceKey, PieceWaiter, WaiterTable}
use nuvio_engine.Torrent.StreamBridge.Waiters.{
  is_empty, settled, completed, complete_waiter, complete_waiters, kept_entries, complete_mine,
  complete_entries, publish_blocks, publish_all,
}

abbrev pub Waiters : Type 0
Waiters = ℕ → PieceWaiter

-- A settled waiter is left as it is.
abbrev pub Grows : Waiters → Waiters → Type 0
Grows before after = (w : ℕ) → settled (before w) ≡ true → after w ≡ before w

abbrev pub RegisteredAt : PieceKey → WaiterTable → ℕ → Type 0
RegisteredAt key table w = (ws : List ℕ) × (lookup key table ≡ some ws) × In w ws

abbrev pub Registered : WaiterTable → ℕ → Type 0
Registered table w = (key : PieceKey) × RegisteredAt key table w

pub Grows-trans : (a b c : Waiters) → Grows a b → Grows b c → Grows a c
Grows-trans a b c g h w e = let same = g w e in h w (ap settled same ∙ e) ∙ same

pub Grows-settled :
    (a b : Waiters) (w : ℕ) → Grows a b → settled (a w) ≡ true → settled (b w) ≡ true
Grows-settled a b w g e = ap settled (g w e) ∙ e

pub completed-settled :
    (bytes : Option Bytes) (error : Bytes) (w : PieceWaiter)
    → settled (completed bytes error w) ≡ true
unfolding completed settled
completed-settled bytes error w = ground arith

completed_same :
    (bytes : Option Bytes) (error : Bytes) (w : PieceWaiter)
    → settled w ≡ true
    → completed bytes error w ≡ w
unfolding completed
completed_same bytes error w e = ground (arith, e)

modify-Grows :
    (pointer : ℕ) (f : PieceWaiter → PieceWaiter) (a : Waiters)
    → (settled (a pointer) ≡ true → f (a pointer) ≡ a pointer)
    → Grows a (modify pointer f a)
modify-Grows pointer f a h w e = elim (Bool-cases (w == pointer)) [
  | inl hit ↦
      let same : w ≡ pointer = ground (arith, hit) in
      ap (modify pointer f a) same
      ∙ modify_same pointer f a
      ∙ h (ap (λ p. settled (a p)) (sym same) ∙ e)
      ∙ ap a (sym same)
  | inr miss ↦ modify_other pointer w f a (λ s. absurd (ground (arith, miss, s)))
]

pub complete_waiter-Grows :
    (bytes : Option Bytes) (error : Bytes) (w : ℕ) (a : Waiters)
    → Grows a (complete_waiter bytes error w a)
unfolding complete_waiter
complete_waiter-Grows bytes error w a =
    modify-Grows w (completed bytes error) a (completed_same bytes error (a w))

pub complete_waiter-settled :
    (bytes : Option Bytes) (error : Bytes) (w : ℕ) (a : Waiters)
    → settled (complete_waiter bytes error w a w) ≡ true
unfolding complete_waiter
complete_waiter-settled bytes error w a =
    ap settled (modify_same w (completed bytes error) a) ∙ completed-settled bytes error (a w)

pub complete_waiters-Grows :
    (bytes : Option Bytes) (error : Bytes) (ws : List ℕ) (a : Waiters)
    → Grows a (complete_waiters bytes error ws a)
unfolding complete_waiters
complete_waiters-Grows bytes error [] a = λ w e. refl
complete_waiters-Grows bytes error (v ∷ ws) a =
    Grows-trans a (complete_waiter bytes error v a) _ (complete_waiter-Grows bytes error v a)
      (complete_waiters-Grows bytes error ws (complete_waiter bytes error v a))

pub complete_waiters-settled :
    (bytes : Option Bytes) (error : Bytes) (ws : List ℕ) (a : Waiters) (w : ℕ)
    → In w ws
    → settled (complete_waiters bytes error ws a w) ≡ true
unfolding complete_waiters
complete_waiters-settled bytes error [] a w i = absurd i
complete_waiters-settled bytes error (v ∷ ws) a w (inl e) =
    Grows-settled (complete_waiter bytes error v a) _ w
      (complete_waiters-Grows bytes error ws (complete_waiter bytes error v a))
      (subst (λ p. settled (complete_waiter bytes error p a w) ≡ true) e
        (complete_waiter-settled bytes error w a))
complete_waiters-settled bytes error (v ∷ ws) a w (inr i) =
    complete_waiters-settled bytes error ws (complete_waiter bytes error v a) w i

complete_mine-Grows :
    (mine : ℕ → Bool) (error : Bytes) (ws : List ℕ) (a : Waiters)
    → Grows a (complete_mine mine error ws a)
unfolding complete_mine
complete_mine-Grows mine error [] a = λ w e. refl
complete_mine-Grows mine error (v ∷ ws) a =
    Grows-trans a (if mine v then complete_waiter none error v a else a) _ (by_mine (mine v))
      (complete_mine-Grows mine error ws (if mine v then complete_waiter none error v a else a))
  where
    by_mine : (b : Bool) → Grows a (if b then complete_waiter none error v a else a)
    by_mine true = complete_waiter-Grows none error v a
    by_mine false = λ w e. refl

complete_mine-settled :
    (mine : ℕ → Bool) (error : Bytes) (ws : List ℕ) (a : Waiters) (w : ℕ)
    → mine w ≡ true
    → In w ws
    → settled (complete_mine mine error ws a w) ≡ true
unfolding complete_mine
complete_mine-settled mine error [] a w m i = absurd i
complete_mine-settled mine error (v ∷ ws) a w m (inl e) =
    Grows-settled (if mine v then complete_waiter none error v a else a) _ w
      (complete_mine-Grows mine error ws (if mine v then complete_waiter none error v a else a))
      (subst (λ p. settled ((if mine p then complete_waiter none error p a else a) w) ≡ true) e
        (by_mine (mine w) m))
  where
    by_mine :
        (b : Bool) → b ≡ true → settled ((if b then complete_waiter none error w a else a) w) ≡ true
    by_mine true h = complete_waiter-settled none error w a
    by_mine false h = cc
complete_mine-settled mine error (v ∷ ws) a w m (inr i) =
    complete_mine-settled mine error ws (if mine v then complete_waiter none error v a else a) w m i

pub complete_entries-Grows :
    (takes : PieceKey → Bool) (mine : ℕ → Bool) (error : Bytes) (table : WaiterTable) (a : Waiters)
    → Grows a (complete_entries takes mine error table a)
unfolding complete_entries
complete_entries-Grows takes mine error [] a = λ w e. refl
complete_entries-Grows takes mine error ((key, ws) ∷ rest) a =
    Grows-trans a (if takes key then complete_mine mine error ws a else a) _ (by_takes (takes key))
      (complete_entries-Grows takes mine error rest
        (if takes key then complete_mine mine error ws a else a))
  where
    by_takes : (b : Bool) → Grows a (if b then complete_mine mine error ws a else a)
    by_takes true = complete_mine-Grows mine error ws a
    by_takes false = λ w e. refl

pub complete_entries-settled :
    (takes : PieceKey → Bool) (mine : ℕ → Bool) (error : Bytes) (table : WaiterTable) (a : Waiters)
    (key : PieceKey) (ws : List ℕ) (w : ℕ)
    → takes key ≡ true
    → mine w ≡ true
    → lookup key table ≡ some ws
    → In w ws
    → settled (complete_entries takes mine error table a w) ≡ true
unfolding complete_entries lookup
complete_entries-settled takes mine error [] a key ws w t m e i = cc
complete_entries-settled takes mine error ((k, vs) ∷ rest) a key ws w t m e i =
    elim (Bool-cases (key_eq k key)) [
      | inl hit ↦
          Grows-settled (if takes k then complete_mine mine error vs a else a) _ w
            (complete_entries-Grows takes mine error rest
              (if takes k then complete_mine mine error vs a else a))
            (taken (takes k) (ap takes ((key_eq_iff k key).0 hit) ∙ t) hit)
      | inr miss ↦
          complete_entries-settled takes mine error rest
            (if takes k then complete_mine mine error vs a else a) key ws w t m
            (ground (arith, e, miss)) i
    ]
  where
    taken :
        (b : Bool)
        → b ≡ true
        → key_eq k key ≡ true
        → settled ((if b then complete_mine mine error vs a else a) w) ≡ true
    taken true h hit =
        let same : ws ≡ vs = ground (arith, e, hit) in
        complete_mine-settled mine error vs a w m (subst (In w) same i)
    taken false h hit = cc

In-erase_if :
    (gone : ℕ → Bool) (ws : List ℕ) (w : ℕ) → In w ws → gone w ≡ false → In w (erase_if gone ws)
unfolding erase_if
In-erase_if gone [] w i e = absurd i
In-erase_if gone (v ∷ ws) w (inl s) e = by_gone (gone v) (ap gone (sym s) ∙ e)
  where
    by_gone : (b : Bool) → b ≡ false → In w (if b then erase_if gone ws else v ∷ erase_if gone ws)
    by_gone true h = cc
    by_gone false h = inl s
In-erase_if gone (v ∷ ws) w (inr i) e = by_gone (gone v) (In-erase_if gone ws w i e)
  where
    by_gone :
        (b : Bool)
        → In w (erase_if gone ws)
        → In w (if b then erase_if gone ws else v ∷ erase_if gone ws)
    by_gone true j = j
    by_gone false j = inr j

-- The first entry of the table and its rest, where an entry without a waiter is dropped.
first_entry :
    (k key : PieceKey) (kept : List ℕ) (table : WaiterTable) (w : ℕ)
    → key_eq k key ≡ true
    → In w kept
    → RegisteredAt key (if is_empty kept then table else (k, kept) ∷ table) w
unfolding lookup
first_entry k key [] table w hit i = absurd i
first_entry k key (x ∷ xs) table w hit i = (x ∷ xs, ground (arith, hit), i)

later_entry :
    (k key : PieceKey) (kept : List ℕ) (table : WaiterTable) (w : ℕ)
    → key_eq k key ≡ false
    → RegisteredAt key table w
    → RegisteredAt key (if is_empty kept then table else (k, kept) ∷ table) w
unfolding lookup
later_entry k key [] table w miss r = r
later_entry k key (x ∷ xs) table w miss (ws, e, i) = (ws, ground (arith, e, miss), i)

-- A waiter that is not erased stays in its entry.
pub kept_entries-RegisteredAt :
    (gone : ℕ → Bool) (key : PieceKey) (table : WaiterTable) (w : ℕ)
    → gone w ≡ false
    → RegisteredAt key table w
    → RegisteredAt key (kept_entries gone table) w
unfolding kept_entries lookup
kept_entries-RegisteredAt gone key [] w n (ws, e, i) = cc
kept_entries-RegisteredAt gone key ((k, vs) ∷ rest) w n (ws, e, i) =
    elim (Bool-cases (key_eq k key)) [
      | inl hit ↦
          let same : ws ≡ vs = ground (arith, e, hit) in
          first_entry k key (erase_if gone vs) (kept_entries gone rest) w hit
            (In-erase_if gone vs w (subst (In w) same i) n)
      | inr miss ↦
          later_entry k key (erase_if gone vs) (kept_entries gone rest) w miss
            (kept_entries-RegisteredAt gone key rest w n (ws, ground (arith, e, miss), i))
    ]

pub publish_blocks-Grows :
    (blocks : List Bool) (w : ℕ) (a : Waiters) → Grows a (publish_blocks blocks w a)
unfolding publish_blocks
publish_blocks-Grows blocks w a =
    modify-Grows w (λ x. if settled x then x else record x { finished_blocks = blocks }) a
      (λ e. ground (arith, e))

pub publish_all-Grows :
    (blocks : List Bool) (ws : List ℕ) (a : Waiters) → Grows a (publish_all blocks ws a)
unfolding publish_all
publish_all-Grows blocks [] a = λ w e. refl
publish_all-Grows blocks (v ∷ ws) a =
    Grows-trans a (publish_blocks blocks v a) _ (publish_blocks-Grows blocks v a)
      (publish_all-Grows blocks ws (publish_blocks blocks v a))
