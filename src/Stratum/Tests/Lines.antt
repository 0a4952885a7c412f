-- ===== src/Stratum/Tests/Lines.antt =====
-- The theorems about connections, at concrete inputs.
use xmrpool.Common.{
  ℕ, suc, ◌≡◌, refl, ◌⊎◌, Bool, true, false, Option, none, some, List, [], ◌∷◌, ◌++◌, All,
}
use xmrpool.Common.Ints.{ℤ, pos}
use xmrpool.Common.Assoc.{nat_key, insert, lookup}
use xmrpool.Common.Texts.{Bytes, codes}
use xmrpool.Stratum.Types.{SubmitParams, World, returned}
use xmrpool.Stratum.Handlers.{is_active}
use xmrpool.Stratum.Messages.{JsonRpcReq, handle_message, dispatch, send_result}
use xmrpool.Stratum.Connections.{
  Line, reading, closed, set_deadline, on_request, on_line, after_line, turn, go_on, serve,
  handle_client, Port, new_session, accept_conn, send, Server, accepts, sends, serves, ServerSteps,
  at_port, start, later,
}
use xmrpool.Stratum.Connections.Admission.{started, Limited, ServerSteps-Limited}
use xmrpool.Stratum.Connections.Closing.{Readable, handle_client-Closed}
use xmrpool.Stratum.Tests.{env, world, decoded}

abbrev keepalive : JsonRpcReq SubmitParams
keepalive = record {
  id = some (codes "1");
  method = codes "keepalived";
  params = some (record { id = []; job_id = []; nonce = []; result = [] });
}

-- Every line is the same request.
abbrev decode : Bytes → Option (JsonRpcReq SubmitParams)
decode b = some keepalive

abbrev request_line : Line
request_line = record { data_read = codes "{}"; is_prefix = false; err = none }

abbrev flood : Line
flood = record { data_read = codes "{"; is_prefix = true; err = none }

abbrev deadline : ℤ
deadline = pos 1700000060000

abbrev lines : List Line
lines = request_line ∷ record request_line { data_read = codes "x" } ∷ flood ∷ []

abbrev after_lines : World
after_lines = record world { ticks = 3; sessions = [] }

client_closed :
    handle_client env decoded decode (pos 60000) 0 lines world
    ≡ returned (closed, deadline) after_lines
unfolding handle_client serve go_on turn on_line on_request after_line set_deadline handle_message
    dispatch send_result xmrpool.Common.Ints.◌+ℤ◌
client_closed = refl

handle_client-Closed_example :
    ((closed ≡ reading) × All (Readable env decoded decode (pos 60000) 0) lines)
    ⊎ ((closed ≡ closed)
        × (is_active 0 after_lines.sessions ≡ false)
        × (handle_client env decoded decode (pos 60000) 0 (lines ++ request_line ∷ []) world
            ≡ returned (closed, deadline) after_lines))
handle_client-Closed_example =
    handle_client-Closed env decoded decode (pos 60000) 0 lines (request_line ∷ []) closed deadline
      world after_lines client_closed

abbrev nobody : World
nobody = record world { sessions = [] }

abbrev accepted_world : World
accepted_world = record nobody { session_of = insert 1 (new_session 0 []) nobody.session_of }

abbrev waiting_port : Port
waiting_port = record {
  max_conn = 2;
  accepted = 1;
  tokens = 0;
  waiting = some 1;
  running = [];
  leaving = 0;
}

abbrev serving_port : Port
serving_port = record waiting_port { tokens = 1; waiting = none; running = 1 ∷ [] }

abbrev served_server : Server
served_server = record { world = record accepted_world { ticks = 2 }; ports = serving_port ∷ [] }

a_connection :
    ServerSteps env decoded decode
      (pos 60000)
      (record { world = nobody; ports = started (2 ∷ []) })
      served_server
unfolding accept_conn send turn on_line on_request after_line set_deadline handle_message dispatch
    send_result lookup xmrpool.Common.Ints.◌+ℤ◌
a_connection =
    later
      (later
        (later start
          (at_port [] [] _ waiting_port accepted_world refl (accepts 1 0 [] refl refl refl) refl))
        (at_port [] [] _ serving_port accepted_world refl (sends refl refl) refl))
      (at_port [] [] _ serving_port (record accepted_world { ticks = 2 }) refl
        (serves 1 [] [] request_line (pos 0) deadline refl refl refl) refl)

ServerSteps-Limited_example : Limited (2 ∷ []) served_server
ServerSteps-Limited_example =
    ServerSteps-Limited env decoded decode (pos 60000) (2 ∷ []) nobody served_server refl
      a_connection
