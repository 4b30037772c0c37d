-- ===== src/Torrent/StreamBridge/Kept.antt =====
-- src/torrent/libtorrent_stream_bridge.cpp: a step keeps the waiters: one that is settled stays as it is,
-- and one in the table stays there or is settled.
pub mod Removing
pub mod Commands
pub mod Throwing
pub mod Scheduling
pub mod Reading
pub mod Polling
pub mod Ending
pub mod Steps
pub mod Answers
use nuvio_engine.Common.{
  ℕ, ◌≡◌, ◌⊎◌, refl, sym, ap, ◌∙◌, subst, Bool, true, false, Bool-cases, inl, inr, List, Option,
  none, some, Bytes, In, arith, if◌then◌else◌,
}
use nuvio_engine.Std.Results.{Result, Exception, ok, throws}
use nuvio_engine.Std.UnorderedMap.{lookup, erase, lookup-erase}
use nuvio_engine.Cache.PieceCache.{key_eq, key_eq_iff, key_eq_instance}
use nuvio_engine.Torrent.StreamBridge.State.{PieceKey, Bridge}
use nuvio_engine.Torrent.StreamBridge.Waiters.{
  settled, complete_waiters, finish_piece, fail_piece, erase_waiters,
}
use nuvio_engine.Torrent.StreamBridge.Waiters.Kept.{
  Grows, Registered, Grows-trans, Grows-settled, complete_waiters-Grows, complete_waiters-settled,
  kept_entries-RegisteredAt,
}

-- The waiter is registered, or it is settled.
abbrev pub Held : Bridge → ℕ → Type 0
Held s w = Registered s.piece_waiters w ⊎ (settled (s.waiters w) ≡ true)

pub record Keeps (s t : Bridge) : Type 0 where
  pub grows : Grows s.waiters t.waiters
  pub kept : (w : ℕ) → Registered s.piece_waiters w → Held t w

pub Keeps-same :
    (s t : Bridge) → t.waiters ≡ s.waiters → t.piece_waiters ≡ s.piece_waiters → Keeps s t
Keeps-same s t e f = record {
  grows = λ w h. ap (λ a. a w) e;
  kept = λ w r. inl (subst (λ table. Registered table w) (sym f) r);
}

pub Keeps-Held : (s t : Bridge) → Keeps s t → (w : ℕ) → Held s w → Held t w
Keeps-Held s t k w (inl r) = k.kept w r
Keeps-Held s t k w (inr e) = inr (Grows-settled s.waiters t.waiters w k.grows e)

pub Keeps-trans : (s t u : Bridge) → Keeps s t → Keeps t u → Keeps s u
Keeps-trans s t u k l = record {
  grows = Grows-trans s.waiters t.waiters u.waiters k.grows l.grows;
  kept = λ w r. Keeps-Held t u l w (k.kept w r);
}

-- Case splits on what the code tests.
pub by_bool {ℓ} :
    {A : Type ℓ} (P : A → Type 0) (b : Bool) {x y : A}
    → P x
    → P y
    → P (elim b as (λ c. A) [ true ↦ x | false ↦ y ])
by_bool P true p q = p
by_bool P false p q = q

pub by_if {ℓ} :
    {A : Type ℓ} (P : A → Type 0) (b : Bool) {x y : A} → P x → P y → P (if b then x else y)
by_if P true p q = p
by_if P false p q = q

pub by_result {ℓ κ} :
    {A : Type ℓ} {B : Type κ} (P : A → Type 0) (r : Result B) {f : Exception → A} {g : B → A}
    → ((e : Exception) → P (f e))
    → ((b : B) → P (g b))
    → P (elim r as (λ c. A) [ throws e ↦ f e | ok b ↦ g b ])
by_result P (throws e) p q = p e
by_result P (ok b) p q = q b

pub by_option {ℓ κ} :
    {A : Type ℓ} {B : Type κ} (P : A → Type 0) (o : Option B) {x : A} {f : B → A}
    → P x
    → ((b : B) → P (f b))
    → P (elim o as (λ c. A) [ none ↦ x | some b ↦ f b ])
by_option P none p q = p
by_option P (some b) p q = q b

pub finish_piece-Keeps :
    (key : PieceKey) (bytes : Option Bytes) (error : Bytes) (s : Bridge)
    → Keeps s (finish_piece key bytes error s)
unfolding finish_piece
finish_piece-Keeps key bytes error s = by_found (lookup key s.piece_waiters) refl
  where
    held :
        (found : List ℕ)
        → lookup key s.piece_waiters ≡ some found
        → (w : ℕ) → Registered s.piece_waiters w
        → Registered (erase key s.piece_waiters) w
          ⊎ (settled (complete_waiters bytes error found s.waiters w) ≡ true)
    held found e w (k, (ws, f, i)) = elim (Bool-cases (key_eq key k)) [
      | inl hit ↦
          let same : key ≡ k = (key_eq_iff key k).0 hit in
          let entry : ws ≡ found = ground (arith, e, f, ap (λ j. lookup j s.piece_waiters) same) in
          inr (complete_waiters-settled bytes error found s.waiters w (subst (In w) entry i))
      | inr miss ↦ inl (k, (ws, lookup-erase key k s.piece_waiters ∙ ground (arith, f, miss), i))
    ]

    by_found :
        (o : Option (List ℕ))
        → lookup key s.piece_waiters ≡ o
        → Keeps s (elim o as (λ c. Bridge) [
          | none ↦ s
          | some found ↦ record s {
            waiters = complete_waiters bytes error found s.waiters;
            piece_waiters = erase key s.piece_waiters;
          }
        ])
    by_found none e = Keeps-same s s refl refl
    by_found (some found) e = record {
      grows = complete_waiters-Grows bytes error found s.waiters;
      kept = held found e;
    }

pub fail_piece-Keeps :
    (key : PieceKey) (error : Bytes) (s : Bridge) → Keeps s (fail_piece key error s)
unfolding fail_piece
fail_piece-Keeps key error s =
    let t : Bridge = record s { partial_blocks = erase key s.partial_blocks } in
    Keeps-trans s t _ (Keeps-same s t refl refl) (finish_piece-Keeps key none error t)

-- Where the waiters that are erased are settled.
pub erase_waiters-Keeps :
    (gone : ℕ → Bool) (s : Bridge)
    → ((w : ℕ) → Registered s.piece_waiters w → gone w ≡ true → settled (s.waiters w) ≡ true)
    → Keeps s (erase_waiters gone s)
unfolding erase_waiters
erase_waiters-Keeps gone s h = record {
  grows = λ w e. refl;
  kept = λ w r. elim (Bool-cases (gone w)) [
    | inl hit ↦ inr (h w r hit)
    | inr miss ↦ inl (r.0, kept_entries-RegisteredAt gone r.0 s.piece_waiters w miss r.1)
  ];
}
