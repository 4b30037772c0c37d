-- ===== src/Tests/Server.antt =====
-- The loopback server on concrete calls and turns of its threads.
use nuvio_engine.Common.{◌≡◌, refl, true, false, List, [], ◌∷◌, ◌++◌, some, Bytes, arith}
use nuvio_engine.Text.{codes}
use nuvio_engine.Http.Protocol.{HttpRequest}
use nuvio_engine.Http.Server.Send.{
  SendCall, interrupted, failed, written, sent, send_all, send_all-terminates,
}
use nuvio_engine.Http.Server.Receive.{RecvCall, received, returned, receive_request_head}
use nuvio_engine.Http.Server.Connection.{HandlerRun, answered, handle_connection}
use nuvio_engine.Http.Server.Connection.Handled.{IsHandled, handle_connection-IsHandled}
use nuvio_engine.Http.Server.Connections.{
  Connections, init, accept_client, take_connection, accepts, takes, Reach, here, next, IsServed,
  Reach-IsServed,
}
use nuvio_engine.Http.Server.Shutdown.{ComesToEnd, stopping_ends}

abbrev send_calls : List SendCall
send_calls = written 2 ∷ interrupted ∷ written 1 ∷ written 1 ∷ written 1 ∷ []

send_all-terminates_example : send_all send_calls (codes "page") ≡ sent 4 true
send_all-terminates_example =
    send_all-terminates send_calls (codes "page")
      (λ h. omega arith, (λ h. omega arith, (λ h. omega arith, (λ h. ground arith, tt))))
      (omega arith, (omega arith, (omega arith, (omega arith, tt)))) (omega arith)

-- A head that comes in two chunks, with the start of a body.
abbrev chunks : List RecvCall
chunks = received (codes "GET /s HTTP/1.1" ++ 13 ∷ 10 ∷ 13 ∷ []) ∷ received (10 ∷ codes "x") ∷ []

abbrev head : Bytes
head = codes "GET /s HTTP/1.1" ++ 13 ∷ 10 ∷ 13 ∷ 10 ∷ []

chunks_run : receive_request_head chunks ≡ returned (some head) false
unfolding receive_request_head
chunks_run = refl

-- The handler writes its page in two calls, the second of which fails after a byte.
abbrev writing : HttpRequest → HandlerRun
writing request = record {
  writes =
      record { connected = true; bytes = codes "pa"; calls = written 2 ∷ [] }
      ∷ record { connected = true; bytes = codes "ge"; calls = written 1 ∷ failed ∷ [] }
      ∷ [];
  stop_requested = false;
}

writing_run : handle_connection writing [] true chunks ≡ answered (codes "pa" ∷ codes "g" ∷ [])
unfolding handle_connection
writing_run = refl

handle_connection-IsHandled_example :
    IsHandled writing [] true chunks (handle_connection writing [] true chunks)
handle_connection-IsHandled_example = handle_connection-IsHandled writing [] true chunks

-- A server with room for one connection: the second one of three is closed at once.
abbrev one_place : Connections
one_place = init 1

one_place-IsServed : IsServed one_place
unfolding init
one_place-IsServed = record {
  bounded = omega arith;
  owned = λ k. omega arith;
  once = λ k. omega arith;
  stopped = λ e. cc;
}

abbrev third_turn : Connections
third_turn = accept_client true 8 (accept_client true 7 one_place)

third_turn_run : third_turn.closed ≡ 8 ∷ []
unfolding accept_client init
third_turn_run = refl

third_turn-Reach : Reach one_place (take_connection third_turn).0
unfolding accept_client init
third_turn-Reach = next (next (next here (accepts true 7 refl)) (accepts true 8 refl)) takes

Reach-IsServed_example : IsServed (take_connection third_turn).0
Reach-IsServed_example = Reach-IsServed one_place-IsServed third_turn-Reach

-- A stopping server with a connection in its queue and one with a worker.
abbrev stopping_server : Connections
stopping_server = record {
  capacity = 4;
  stopping = true;
  drained = false;
  queue = 3 ∷ [];
  active = 1 ∷ [];
  closed = [];
  shut = [];
}

stopping_server-IsServed : IsServed stopping_server
stopping_server-IsServed = record {
  bounded = omega arith;
  owned = λ k. ground arith;
  once = λ k. ground arith;
  stopped = λ e. cc;
}

stopping_ends_example : ComesToEnd stopping_server
stopping_ends_example = stopping_ends stopping_server refl stopping_server-IsServed
