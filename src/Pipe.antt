-- ===== src/Pipe.antt =====
-- src-tauri/src/bin/kwik_helper/pipe.rs: the framing of the one request of a connection, and the accept
-- loop of the server, whose rounds are given by what happens in each. The JSON parser and writer, the
-- authentication of a client and the system's pipes are parameters.
pub mod Framing
pub mod Serving
use kwik_proxy_secure.Prelude.{
  ℕ, zero, suc, ◌+◌, ◌-◌, ◌*◌, length, Bool, true, false, not, ◌&&◌, ◌||◌, List, [], ◌∷◌, ◌++◌,
  Option, none, some, Result, ok, err, ◌>>=◌, ◌>>◌, ensure, if◌then◌else◌, ltb, leb, ◌==◌,
}

pub data Error : Type 0 where
  not_authenticated read_timeout closed too_long not_terminated invalid_json : Error
  accept_failed create_failed not_drained no_listener : Error

abbrev pub max_request_bytes : ℕ
max_request_bytes = 1536 * 1024

abbrev pub newline : ℕ
newline = 10

abbrev pub carriage_return : ℕ
carriage_return = 13

-- `read_until(b'\n')` on at most so many bytes of what the client sends before it closes.
unfoldable pub read_until_newline : ℕ → List ℕ → List ℕ
read_until_newline limit [] = []
read_until_newline zero (b ∷ bs) = []
read_until_newline (suc limit) (b ∷ bs) =
    let rest = read_until_newline limit bs in if b == newline then b ∷ [] else b ∷ rest

abbrev pub last : List ℕ → Option ℕ
last [] = none
last (b ∷ []) = some b
last (b ∷ b' ∷ bs) = last (b' ∷ bs)

abbrev pub pop : List ℕ → List ℕ
pop [] = []
pop (b ∷ []) = []
pop (b ∷ b' ∷ bs) = b ∷ pop (b' ∷ bs)

abbrev pub is_last : ℕ → List ℕ → Bool
is_last b bs = elim (last bs) [ none ↦ false | some l ↦ l == b ]

unfoldable pub pop_carriage_return : List ℕ → List ℕ
pop_carriage_return bs = if is_last carriage_return bs then pop bs else bs

-- The checks of `handle_client` on what was read, up to the JSON text of the request.
unfoldable pub checked_payload : List ℕ → Result Error (List ℕ)
unfolding pop_carriage_return
checked_payload payload = do
  ensure (not (length payload == 0)) closed
  ensure (not (ltb max_request_bytes (length payload))) too_long
  ensure (is_last newline payload) not_terminated
  ok (pop_carriage_return (pop payload))

-- What a client has sent in time, if anything came in time.
abbrev pub payload_of : Option (List ℕ) → Result Error (List ℕ)
payload_of none = err read_timeout
payload_of (some bytes) = checked_payload (read_until_newline (max_request_bytes + 1) bytes)

abbrev pub asked_by :
    {Client Request : Type 0} → Client → Option Request → Result Error (Client × Request)
asked_by client none = err invalid_json
asked_by client (some request) = ok (client, request)

-- `handle_client` up to the dispatch: who asks for what.
unfoldable pub received :
    {Client Request : Type 0}
    → (List ℕ → Option Request)
    → Option Client
    → Option (List ℕ)
    → Result Error (Client × Request)
unfolding read_until_newline checked_payload
received json none sent = err not_authenticated
received json (some client) sent = do payload ← payload_of sent; asked_by client (json payload)

-- `send_response`: the bytes that are written.
abbrev pub framed : List ℕ → List ℕ
framed json = json ++ newline ∷ []

-- The server: whether it holds a listening instance, and its connected workers.
pub record Server : Type 0 where
  pub has_listener : Bool
  pub workers : ℕ

abbrev pub max_instances : ℕ
max_instances = 4

abbrev pub max_client_workers : ℕ
max_client_workers = max_instances - 1

-- How an attempt to create a pipe instance ends, and the shutdown flag that is read after a shortage.
pub data Attempt : Type 0 where
  created : Attempt
  short_of_capacity : Bool → Attempt
  cannot_create : Attempt

pub data Replacement : Type 0 where
  replaced shutting_down cannot_replace waiting : Replacement

-- `create_replacement_pipe`, on the attempts that are made.
unfoldable pub create_replacement_pipe : List Attempt → Replacement
create_replacement_pipe [] = waiting
create_replacement_pipe (created ∷ later) = replaced
create_replacement_pipe (short_of_capacity true ∷ later) = shutting_down
create_replacement_pipe (short_of_capacity false ∷ later) = create_replacement_pipe later
create_replacement_pipe (cannot_create ∷ later) = cannot_replace

-- How a wait for a client ends, and the attempts that follow.
pub data Accepted : Type 0 where
  tick : Accepted
  connected : List Attempt → Accepted
  transient_error : List Attempt → Accepted
  fatal_error : Accepted

-- One round: how many workers end before it, the shutdown flag, and the wait.
pub record Round : Type 0 where
  pub joined : ℕ
  pub shutdown : Bool
  pub accepted : Accepted

-- The loop goes on, has been left, or has returned an error; `stuck` is the wait for an instance.
pub data Progress : Type 0 where
  going_on left_loop stuck : Server → Progress
  failed_loop : Error → Server → Progress

abbrev pub without_listener : Server → Server
without_listener s = record s { has_listener = false }

-- After an accept error the stale listener is closed before a replacement is created.
abbrev pub replace_stale : Server → Replacement → Progress
replace_stale s replaced = going_on (record s { has_listener = true })
replace_stale s shutting_down = left_loop (without_listener s)
replace_stale s cannot_replace = failed_loop create_failed (without_listener s)
replace_stale s waiting = stuck (without_listener s)

-- A connected instance goes to a worker once there is a new listener.
abbrev pub replace_connected : Server → Replacement → Progress
replace_connected s replaced = going_on (record s { has_listener = true; workers = suc s.workers })
replace_connected s shutting_down = left_loop (without_listener s)
replace_connected s cannot_replace = failed_loop create_failed (without_listener s)
replace_connected s waiting = stuck (without_listener s)

abbrev pub accept : Server → Accepted → Progress
accept s tick = going_on s
accept s (connected attempts) = replace_connected s (create_replacement_pipe attempts)
accept s (transient_error attempts) = replace_stale s (create_replacement_pipe attempts)
accept s fatal_error = failed_loop accept_failed (without_listener s)

abbrev pub after_joins : ℕ → Server → Server
after_joins n s = record s { workers = s.workers - n }

-- A round waits for a client only with a free permit and a listener.
unfoldable pub serve_round : Round → Server → Progress
unfolding create_replacement_pipe
serve_round r s =
    let s' = after_joins r.joined s in
    if r.shutdown
    then left_loop s'
    else if leb max_client_workers s'.workers
    then going_on s'
    else if not s'.has_listener
    then failed_loop no_listener s'
    else accept s' r.accepted

abbrev pub go_on : (Server → Progress) → Progress → Progress
go_on next (going_on s) = next s
go_on next (left_loop s) = left_loop s
go_on next (stuck s) = stuck s
go_on next (failed_loop e s) = failed_loop e s

-- The rounds until the loop is left.
unfoldable pub serve : List Round → Server → Progress
unfolding serve_round
serve [] s = going_on s
serve (r ∷ rs) s = go_on (λ s'. serve rs s') (serve_round r s)

-- The end: the listener is closed, and the workers have so long to finish, or are aborted.
unfoldable pub drain : Bool → Server → Server × Result Error (Unit {0})
drain in_time s =
    (record { has_listener = false; workers = 0 }, if in_time then ok tt else err not_drained)

-- `run_prepared_pipe_server`: nothing while it is still running. An error drops the workers.
unfoldable pub run_prepared_pipe_server :
    List Round → Bool → Server → Option (Server × Result Error (Unit {0}))
unfolding serve drain
run_prepared_pipe_server rs in_time s = elim (serve rs s) [
  | going_on s' ↦ none
  | stuck s' ↦ none
  | left_loop s' ↦ some (drain in_time s')
  | failed_loop e s' ↦ some (record { has_listener = false; workers = 0 }, err e)
]

-- What `prepare_pipe_server` hands over.
abbrev pub prepared : Server
prepared = record { has_listener = true; workers = 0 }
