-- ===== src/Pipe/Framing.antt =====
-- src-tauri/src/bin/kwik_helper/pipe.rs: which bytes are taken for a request, and that a framed message is
-- read back.
use mathlib.Core.Path.{ap, subst}
use mathlib.Core.List.{append_assoc}
use kwik_proxy_secure.Prelude.{
  ◌↔◌, >>=-eq-ok, ◌>>=◌, ℕ, zero, suc, ◌+◌, ◌*◌, ◌≤◌, ◌<◌, length, true, false, not, List, [], ◌∷◌,
  ◌++◌, Option, none, some, Result, ok, err, ◌≡◌, ◌∙◌, refl, sym, arith, inl, inr, Bool-cases,
  if◌then◌else◌, ltb, ◌==◌, any, ensure->>-ok,
}
use kwik_proxy_secure.Pipe.{
  asked_by, received, Error, closed, too_long, not_terminated, max_request_bytes, newline,
  read_until_newline, pop, is_last, pop_carriage_return, checked_payload, payload_of, framed,
}

-- No byte is a newline.
abbrev pub IsOneLine : List ℕ → Type 0
IsOneLine bs = any (λ b. b == newline) bs ≡ false

-- Reading stops after the first newline, if the limit allows.
read_until_newline-framed :
    (limit : ℕ) (json rest : List ℕ)
    → IsOneLine json
    → length json < limit
    → read_until_newline limit (json ++ newline ∷ rest) ≡ framed json
unfolding read_until_newline
read_until_newline-framed zero json rest one fits = absurd (ground (arith, fits))
read_until_newline-framed (suc limit) [] rest one fits = refl
read_until_newline-framed (suc limit) (b ∷ json) rest one fits =
    let other : (b == newline) ≡ false = ground (arith, one) in
    let inside =
      read_until_newline-framed limit json rest (ground (arith, one)) (ground (arith, fits)) in
    rw (other, inside) refl

is_last-tail :
    (b : ℕ) (bs : List ℕ)
    → (b == newline) ≡ false
    → is_last newline (b ∷ bs) ≡ true
    → is_last newline bs ≡ true
is_last-tail b [] other h = ground (arith, other, h)
is_last-tail b (b' ∷ bs) other h = h

-- What was read and ends with a newline was sent up to its first newline.
read_until_newline_lem :
    (limit : ℕ) (bytes : List ℕ)
    → is_last newline (read_until_newline limit bytes) ≡ true
    → (json : List ℕ) × (rest : List ℕ) × (bytes ≡ json ++ newline ∷ rest)
      × IsOneLine json
      × (read_until_newline limit bytes ≡ framed json)
unfolding read_until_newline
read_until_newline_lem limit [] h = cc
read_until_newline_lem zero (b ∷ bytes) h = cc
read_until_newline_lem (suc limit) (b ∷ bytes) h = elim (Bool-cases (b == newline)) [
  | inl found ↦
      let here : b ≡ newline = ground (arith, found) in
      ([], bytes, ap (λ x. x ∷ bytes) here, refl, rw (found) (ap (λ x. x ∷ []) here))
  | inr other ↦
      let inside : is_last newline (read_until_newline limit bytes) ≡ true =
        is_last-tail b (read_until_newline limit bytes) other (
          subst
            (λ x. is_last newline (if x then b ∷ [] else b ∷ read_until_newline limit bytes) ≡ true)
            other h) in
      let (json, rest, split, one, read) = read_until_newline_lem limit bytes inside in
      (
        b ∷ json,
        rest,
        ap (λ l. b ∷ l) split,
        ground (arith, other, one),
        rw (other) (ap (λ l. b ∷ l) read),
      )
]

length-framed : (json : List ℕ) → length (framed json) ≡ suc (length json)
length-framed [] = refl
length-framed (b ∷ json) = ap suc (length-framed json)

last-framed : (json : List ℕ) → is_last newline (framed json) ≡ true
last-framed [] = refl
last-framed (b ∷ []) = refl
last-framed (b ∷ b' ∷ json) = last-framed (b' ∷ json)

pop-framed : (json : List ℕ) → pop (framed json) ≡ json
pop-framed [] = refl
pop-framed (b ∷ []) = refl
pop-framed (b ∷ b' ∷ json) = ap (λ l. b ∷ l) (pop-framed (b' ∷ json))

checked_payload-ok :
    (p payload : List ℕ)
    → checked_payload p ≡ ok payload
    → (length p ≤ 1536 * 1024)
      × (is_last newline p ≡ true)
      × (pop_carriage_return (pop p) ≡ payload)
unfolding checked_payload
checked_payload-ok p payload h =
    let (filled, h1) = ensure->>-ok (not (length p == 0)) closed _ h in
    let (small, h2) = ensure->>-ok (not (ltb max_request_bytes (length p))) too_long _ h1 in
    let (ended, h3) =
      ensure->>-ok (is_last newline p) not_terminated (ok (pop_carriage_return (pop p))) h2 in
    (ground (arith, small), ended, ground (arith, h3))

-- What a client sends is taken for a request in exactly one way: it is one line with its newline, of at
-- most 1536 KiB in all, and what follows it is not read; a carriage return at its end is dropped.
payload_of-ok :
    (bytes payload : List ℕ)
    → payload_of (some bytes) ≡ ok payload
    → (json : List ℕ) × (rest : List ℕ) × (bytes ≡ json ++ newline ∷ rest)
      × IsOneLine json
      × (length json < 1536 * 1024)
      × (payload ≡ pop_carriage_return json)
payload_of-ok bytes payload h =
    let (small, ended, same) =
      checked_payload-ok (read_until_newline (max_request_bytes + 1) bytes) payload h in
    let (json, rest, split, one, read) =
      read_until_newline_lem (max_request_bytes + 1) bytes ended in
    let fits : suc (length json) ≤ 1536 * 1024 =
      subst (λ n. n ≤ 1536 * 1024) (ap length read ∙ length-framed json) small in
    (
      json,
      rest,
      split,
      one,
      ground (arith, fits),
      sym same
          ∙ ap (λ l. pop_carriage_return (pop l)) read
          ∙ ap pop_carriage_return (pop-framed json),
    )

-- A message that is framed as `send_response` does it, and that is one line of at most 1536 KiB with
-- its newline, is read back whole whatever follows it, but for a carriage return at its end.
payload_of-framed :
    (json rest : List ℕ)
    → IsOneLine json
    → length json < 1536 * 1024
    → payload_of (some (framed json ++ rest)) ≡ ok (pop_carriage_return json)
unfolding checked_payload
payload_of-framed json rest one fits =
    let read : read_until_newline (max_request_bytes + 1) (framed json ++ rest) ≡ framed json =
      ap (read_until_newline (max_request_bytes + 1)) (append_assoc json (newline ∷ []) rest)
      ∙ read_until_newline-framed (max_request_bytes + 1) json rest one (ground (arith, fits)) in
    let filled : (length (framed json) == 0) ≡ false = ground (arith, length-framed json) in
    let small : ltb max_request_bytes (length (framed json)) ≡ false =
      ground (arith, fits, length-framed json) in
    ap checked_payload read ∙ rw (filled, small, last-framed json, pop-framed json) refl

-- A client's bytes ask for a request: they begin with one line, within the bound, that the JSON parser
-- reads without its carriage return.
pub record Asks {Request : Type 0} (json : List ℕ → Option Request) (request : Request)
    (bytes : List ℕ) : Type 0 where
  pub line : List ℕ
  pub rest : List ℕ
  pub split : bytes ≡ line ++ newline ∷ rest
  pub one_line : IsOneLine line
  pub bounded : length line < 1536 * 1024
  pub parsed : json (pop_carriage_return line) ≡ some request

module _ {Client Request : Type 0} (json : List ℕ → Option Request) (client : Client)
    (request : Request) where
  asked_by-ok :
      (c : Client) (o : Option Request)
      → asked_by c o ≡ ok (client, request)
      → (c ≡ client) × (o ≡ some request)
  asked_by-ok c none h = cc
  asked_by-ok c (some r) h = (ap (λ x. or_else c x) h, ap (λ x. or_none x) h)
    where
      or_else : Client → Result Error (Client × Request) → Client
      or_else d (err e) = d
      or_else d (ok x) = x.0

      or_none : Result Error (Client × Request) → Option Request
      or_none (err e) = none
      or_none (ok x) = some x.1

  received_lem :
      (auth : Option Client) (sent : Option (List ℕ))
      → received json auth sent ≡ ok (client, request)
      → (auth ≡ some client) × ((bytes : List ℕ) × (sent ≡ some bytes) × Asks json request bytes)
  unfolding received
  received_lem none sent h = cc
  received_lem (some c) none h = cc
  received_lem (some c) (some bytes) h =
      let (payload, read, rest) = >>=-eq-ok (payload_of (some bytes)) _ h in
      let (who, what) = asked_by-ok c (json payload) rest in
      let (line, later, split, one, short, same) = payload_of-ok bytes payload read in
      (
        ap some who,
        (
          bytes,
          refl,
          record {
            line = line;
            rest = later;
            split = split;
            one_line = one;
            bounded = short;
            parsed = ap json (sym same) ∙ what;
          },
        ),
      )

  received-line :
      (bytes : List ℕ)
      → Asks json request bytes
      → received json (some client) (some bytes) ≡ ok (client, request)
  unfolding received
  received-line bytes a =
      let read : payload_of (some bytes) ≡ ok (pop_carriage_return a.line) =
        ap (λ b. payload_of (some b)) (a.split ∙ sym (append_assoc a.line (newline ∷ []) a.rest))
        ∙ payload_of-framed a.line a.rest a.one_line a.bounded in
      ap (λ r. r >>= (λ payload. asked_by client (json payload))) read
      ∙ ap (asked_by client) a.parsed

  -- A request is dispatched for a client exactly when the client was authenticated and what it sent in
  -- time begins with one line, of at most 1536 KiB with its newline, that the JSON parser reads as the
  -- request; a carriage return at the end of the line is dropped, and what follows it is not read.
  pub received_iff :
      (auth : Option Client) (sent : Option (List ℕ))
      → (received json auth sent ≡ ok (client, request)) ↔ (
          (auth ≡ some client) × ((bytes : List ℕ) × (sent ≡ some bytes) × Asks json request bytes))
  received_iff auth sent = (
    received_lem auth sent,
    λ (known, (bytes, came, asks)).
        ap (λ a. received json a sent) known
        ∙ ap (received json (some client)) came
        ∙ received-line bytes asks,
  )
