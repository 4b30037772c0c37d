-- ===== src/Torrent/StreamBridge/Kept/Reading.antt =====
-- src/torrent/libtorrent_stream_bridge.cpp: a request of a piece registers its waiter or completes it, and
-- keeps the others.
use nuvio_engine.Common.{
  ℕ, ◌≡◌, inl, inr, refl, sym, ap, ◌∙◌, subst, not, ◌||◌, Bool-cases, List, [], ◌∷◌, ◌++◌, Option,
  none, some, Bytes, In, arith, bytes_eq_instance, nat_eq,
}
use nuvio_engine.Text.{codes}
use nuvio_engine.Std.UnorderedMap.{
  lookup, has_key, member, insert_or_assign, lookup-insert_or_assign,
}
use nuvio_engine.Cache.PieceCache.{VerifiedPieceCache, key_eq, key_eq_iff, key_eq_instance, get}
use nuvio_engine.Torrent.StreamBridge.State.{
  PieceKey, HttpCommand, WaiterTable, Bridge, Library, read_piece_data,
}
use nuvio_engine.Torrent.StreamBridge.Waiters.{publish_blocks}
use nuvio_engine.Torrent.StreamBridge.Waiters.Kept.{
  Grows, Registered, complete_waiter-Grows, complete_waiter-settled, publish_blocks-Grows,
}
use nuvio_engine.Torrent.StreamBridge.Kept.{
  Held, Keeps, Keeps-same, Keeps-Held, Keeps-trans, by_bool, by_option, fail_piece-Keeps,
}
use nuvio_engine.Torrent.StreamBridge.Deadlines.{key_of}
use nuvio_engine.Torrent.StreamBridge.Requests.{
  piece_available, set_needs_data, written_blocks, out_of_range, waiters_at, finish,
  register_waiter, start_read, await_blocks, serve_request, process_waiter,
}
use nuvio_engine.Torrent.StreamBridge.Streams.{cancel_state}

-- Where only the waiters change.
pub grown :
    (s t : Bridge) → Grows s.waiters t.waiters → t.piece_waiters ≡ s.piece_waiters → Keeps s t
grown s t g e = record {
  grows = g;
  kept = λ w r. inl (subst (λ table. Registered table w) (sym e) r);
}

-- The waiter of a request is taken over, and the others are kept.
pub record Takes (w : ℕ) (s t : Bridge) : Type 0 where
  pub keeps : Keeps s t
  pub held : Held t w

pub finish-Takes :
    (w : ℕ) (bytes : Option Bytes) (error : Bytes) (s : Bridge) → Takes w s (finish w bytes error s)
unfolding finish
finish-Takes w bytes error s = record {
  keeps = grown s _ (complete_waiter-Grows bytes error w s.waiters) refl;
  held = inr (complete_waiter-settled bytes error w s.waiters);
}

In-last : (w : ℕ) (ws : List ℕ) → In w (ws ++ w ∷ [])
In-last w [] = inl refl
In-last w (v ∷ ws) = inr (In-last w ws)

In-before : (w v : ℕ) (ws : List ℕ) → In w ws → In w (ws ++ v ∷ [])
In-before w v [] i = absurd i
In-before w v (x ∷ ws) (inl e) = inl e
In-before w v (x ∷ ws) (inr i) = inr (In-before w v ws i)

In-waiters_at :
    (key : PieceKey) (table : WaiterTable) (ws : List ℕ) (w : ℕ)
    → lookup key table ≡ some ws
    → In w ws
    → In w (waiters_at key table)
unfolding waiters_at
In-waiters_at key table ws w e i = by_found (lookup key table) e
  where
    by_found :
        (o : Option (List ℕ))
        → o ≡ some ws
        → In w (elim o as (λ c. List ℕ) [ none ↦ [] | some vs ↦ vs ])
    by_found none f = cc
    by_found (some vs) f = let same : ws ≡ vs = ground (arith, f) in subst (In w) same i

register_waiter-Takes : (key : PieceKey) (w : ℕ) (s : Bridge) → Takes w s (register_waiter key w s)
unfolding register_waiter
register_waiter-Takes key w s = record {
  keeps = record { grows = λ v e. refl; kept = λ v r. inl (kept v r) };
  held = inl (
    key,
    (
      waiters_at key s.piece_waiters ++ w ∷ [],
      lookup-insert_or_assign key key (waiters_at key s.piece_waiters ++ w ∷ []) s.piece_waiters
          ∙ ground (arith, key_eq_iff key key),
      In-last w (waiters_at key s.piece_waiters),
    ),
  );
}
  where
    kept :
        (v : ℕ)
        → Registered s.piece_waiters v
        → Registered
            (insert_or_assign key (waiters_at key s.piece_waiters ++ w ∷ []) s.piece_waiters)
            v
    kept v (k, (ws, e, i)) = elim (Bool-cases (key_eq key k)) [
      | inl hit ↦
          let same : key ≡ k = (key_eq_iff key k).0 hit in
          (
            k,
            (
              waiters_at key s.piece_waiters ++ w ∷ [],
              lookup-insert_or_assign key k (waiters_at key s.piece_waiters ++ w ∷ [])
                    s.piece_waiters
                  ∙ ground (arith, hit),
              In-before v w _ (
                  In-waiters_at key s.piece_waiters ws v
                    (ap (λ j. lookup j s.piece_waiters) same ∙ e) i),
            ),
          )
      | inr miss ↦ (
        k,
        (
          ws,
          lookup-insert_or_assign key k (waiters_at key s.piece_waiters ++ w ∷ []) s.piece_waiters
              ∙ ground (arith, miss, e),
          i,
        ),
      )
    ]

start_read-Keeps :
    (library : Library) (now handle : ℕ) (key : PieceKey) (s : Bridge)
    → Keeps s (start_read library now handle key s)
unfolding start_read
start_read-Keeps library now handle key s =
    by_bool (Keeps s) (has_key key s.requested_reads) (Keeps-same s s refl refl) (
      by_option (Keeps s) (library.refuses handle (read_piece_data key.piece))
        (Keeps-same s
          (record s {
            calls = (handle, read_piece_data key.piece) ∷ s.calls;
            requested_reads = insert_or_assign key now s.requested_reads;
          })
          refl refl)
        (λ r. fail_piece-Keeps key (codes "failed to read a downloaded piece") s))

await_blocks-Keeps :
    (library : Library) (handle w : ℕ) (key : PieceKey) (s : Bridge)
    → Keeps s (await_blocks library handle w key s)
unfolding await_blocks
await_blocks-Keeps library handle w key s =
    let written = written_blocks library handle key.piece in
    by_option (Keeps s) (lookup key s.partial_blocks)
      (grown s
        (record s {
          partial_blocks = insert_or_assign key written s.partial_blocks;
          waiters = publish_blocks written w s.waiters;
        })
        (publish_blocks-Grows written w s.waiters) refl)
      (λ blocks.
        grown s (record s { waiters = publish_blocks blocks w s.waiters })
          (publish_blocks-Grows blocks w s.waiters) refl)

pub Takes-after : (w : ℕ) (s t u : Bridge) → Keeps s t → Takes w t u → Takes w s u
Takes-after w s t u k l = record { keeps = Keeps-trans s t u k l.keeps; held = l.held }

Takes-before : (w : ℕ) (s t u : Bridge) → Takes w s t → Keeps t u → Takes w s u
Takes-before w s t u k l = record {
  keeps = Keeps-trans s t u k.keeps l;
  held = Keeps-Held t u l w k.held;
}

serve_request-Takes :
    (library : Library) (now : ℕ) (command : HttpCommand) (w : ℕ) (key : PieceKey)
    (found : VerifiedPieceCache × Option Bytes) (s : Bridge)
    → Takes w s (serve_request library now command w key found s)
unfolding serve_request
serve_request-Takes library now command w key (cache, some bytes) s =
    Takes-after w s _ _ (Keeps-same s _ refl refl) (finish-Takes w (some bytes) [] _)
serve_request-Takes library now command w key (cache, none) s =
    let waiting = register_waiter key w (record s { piece_cache = cache }) in
    let needs = not (piece_available library command.route command.piece waiting) in
    let noted = record waiting {
      active_demands = set_needs_data command.demand_id needs waiting.active_demands;
    } in
    Takes-before w s noted _
      (Takes-before w s waiting noted
        (Takes-after w s (record s { piece_cache = cache }) waiting (Keeps-same s _ refl refl)
          (register_waiter-Takes key w (record s { piece_cache = cache })))
        (Keeps-same waiting noted refl refl))
      (by_bool (Keeps noted) needs (await_blocks-Keeps library command.route.handle w key noted)
        (start_read-Keeps library now command.route.handle key noted))

pub process_waiter-Takes :
    (library : Library) (now : ℕ) (command : HttpCommand) (w : ℕ) (s : Bridge)
    → Takes w s (process_waiter library now command w s)
unfolding process_waiter
process_waiter-Takes library now command w s =
    let route = command.route in
    let key = key_of route.torrent_id command.piece in
    by_bool (Takes w s)
      (member route.torrent_id s.revoked_torrents
        || not (library.is_valid route.handle)
        || not (library.in_session route.handle))
      (finish-Takes w none (codes "torrent is unavailable") s)
      (by_bool (Takes w s) (out_of_range (library.num_pieces route.handle) command.piece)
        (finish-Takes w none (codes "torrent piece is out of range") s)
        (serve_request-Takes library now command w key (get key s.piece_cache) s))

pub cancel_state-Keeps : (state : Option ℕ) (s : Bridge) → Keeps s (cancel_state state s)
unfolding cancel_state
cancel_state-Keeps none s = Keeps-same s s refl refl
cancel_state-Keeps (some state) s = Keeps-same s _ refl refl
