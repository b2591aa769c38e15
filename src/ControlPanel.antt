-- ===== src/ControlPanel.antt =====
-- libraries/ControlPanel: the connection to the control panel, whose packets call handlers by name. A
-- method returns the new panel; `none` is an access out of the bounds of an array or a string. A
-- handler is a function on the state of the rest of the program (`World`) and on the response, to
-- which it adds; the network client is the list `sent` of what it is asked to do, and the bytes
-- that it has received are an argument of `update`.
pub mod Encoding
pub mod Packets
pub mod Safety
pub mod Framing
pub mod Loops
mod Tests
use spu_energy_efficient_sys.Common.{
  ℕ, zero, suc, ◌+◌, ◌-◌, ◌/◌, ◌%◌, ◌^◌, Bool, true, false, not, ◌&&◌, ◌||◌, Option, none, some,
  List, [], ◌∷◌, ◌++◌, get_elem?, set, take, replicate, length, ltb, ◌==◌, ◌>>=◌, if◌then◌else◌,
}

abbrev pub cp_max_argc : ℕ
cp_max_argc = 10

abbrev pub max_callback_amount : ℕ
max_callback_amount = 30

-- The characters of a `String`, and its `==`.
abbrev pub Text : Type 0
Text = List ℕ

unfoldable pub same_text : Text → Text → Bool
same_text [] [] = true
same_text [] (b ∷ bs) = false
same_text (a ∷ rest) [] = false
same_text (a ∷ rest) (b ∷ bs) = let others = same_text rest bs in a == b && others

abbrev pub Handler : Type 0 → Type 0
Handler World = ℕ → List Text → World × Text → World × Text

pub record Callback (World : Type 0) : Type 0 where
  pub name : Text
  pub handler : Handler World

-- `client.connect` and `client.print`.
pub data Output : Type 0 where
  connect_to : Text → ℕ → Output
  print : Text → Output

pub record Panel (World : Type 0) : Type 0 where
  pub callbacks : List (Callback World)
  pub callback_amount : ℕ
  pub response : Text
  pub packet : Text
  pub args : List Text
  pub message : Text
  pub ip : Text
  pub port : ℕ
  pub debug : ℕ
  pub world : World
  pub sent : List Output

abbrev pub newline : ℕ
newline = 10

abbrev pub ampersand : ℕ
ampersand = 38

-- `(char) -1`
abbrev pub no_char : ℕ
no_char = 255

-- The four characters that `snprintf(l, 5, "%04d", n)` leaves: those of the leading digits of a
-- number with more than four.
unfoldable pub leading : ℕ → ℕ → ℕ
leading zero n = n
leading (suc k) n = let rest = leading k (n / 10) in if ltb n 10000 then n else rest

unfoldable pub four_digits : ℕ → Text
four_digits n = (48 + n / 1000 % 10) ∷ (48 + n / 100 % 10) ∷ (48 + n / 10 % 10) ∷ (48 + n % 10) ∷ []

unfoldable pub frame : Text → Text
unfolding leading four_digits
frame r = four_digits (leading 6 (length r)) ++ (r ++ (newline ∷ []))

-- `addToResponse`, which the handlers use.
unfoldable pub add_to_response : Text → Text → Text
add_to_response response r = (response ++ r) ++ (ampersand ∷ [])

-- The loop over the name of a packet: the name, and the packet from where it stops.
unfoldable pub read_message : List ℕ → Text → Option (Text × List ℕ)
read_message [] message = none
read_message (c ∷ cs) message =
    let rest = read_message cs (message ++ (c ∷ [])) in
    if c == ampersand || c == newline then some (message, c ∷ cs) else rest

-- `readPacket`: whether a packet has ended, the packet and the bytes left. It compares a `char` with
-- -1; where `char` is unsigned no byte is, and at the end of the data the loop goes on (`none`).
unfoldable pub read_packet : Bool → List ℕ → Text → Option (Bool × Text × List ℕ)
read_packet signed [] packet = if signed then some (false, packet, []) else none
read_packet signed (c ∷ cs) packet =
    let rest = read_packet signed cs (packet ++ (c ∷ [])) in
    if signed && c == no_char
    then some (false, packet, cs)
    else if c == newline
    then some (true, packet ++ (c ∷ []), cs)
    else rest

module _ {World : Type 0} where
  -- The constructor. The fields that it leaves alone are those of `p`.
  unfoldable pub new_panel : Panel World → ℕ → Panel World
  new_panel p now = record p { callback_amount = 0; debug = now; packet = [] }

  unfoldable pub connect : Panel World → Text → ℕ → Panel World
  connect p new_ip new_port = record p {
    ip = take 19 new_ip;
    port = new_port;
    sent = p.sent ++ (connect_to (take 19 new_ip) new_port ∷ []);
  }

  unfoldable pub create_handler : Panel World → Text → Handler World → Panel World
  create_handler p message handler =
      if ltb p.callback_amount max_callback_amount
      then record p {
        callbacks =
            set p.callbacks p.callback_amount (record { name = message; handler = handler });
        callback_amount = p.callback_amount + 1;
      }
      else p

  unfoldable pub send : Panel World → Text → Panel World
  send p text = record p { sent = p.sent ++ (print (text ++ (newline ∷ [])) ∷ []) }

  -- `getCallbackNumber`, with the handler in place of its index.
  unfoldable pub get_callback : List (Callback World) → Text → Option (Handler World)
  unfolding same_text
  get_callback [] message = none
  get_callback (c ∷ cs) message =
      let rest = get_callback cs message in
      if same_text c.name message then some c.handler else rest

  -- `initArguments`; the caller sets `argc` to 0.
  unfoldable pub init_arguments : Panel World → Panel World
  init_arguments p = record p { args = replicate cp_max_argc [] }

  unfoldable pub call : Panel World → Text → ℕ → Panel World
  unfolding frame get_callback
  call p message argc = elim (get_callback (take p.callback_amount p.callbacks) message) [
    | none ↦ p
    | some handler ↦
        let (w, r) = handler argc p.args (p.world, []) in
        if length r == 0
        then record p { world = w; response = r }
        else record p { world = w; response = frame r; sent = p.sent ++ (print (frame r) ∷ []) }
  ]

  -- One round of the loop over the arguments, for a character other than the newline.
  unfoldable pub read_char : Text → Panel World → ℕ → ℕ → Option (Panel World × ℕ)
  read_char message p argc c =
      if c == ampersand
      then (if argc == cp_max_argc
          then some (init_arguments (call p message argc), 1)
          else some (p, argc + 1))
      else if argc == 0
      then none
      else elim (get_elem? p.args (argc - 1)) [
        | none ↦ none
        | some a ↦ some (record p { args = set p.args (argc - 1) (a ++ (c ∷ [])) }, argc)
      ]

  unfoldable pub read_args : Text → List ℕ → Panel World → ℕ → Option (Panel World × ℕ)
  unfolding read_char
  read_args message [] p argc = none
  read_args message (c ∷ cs) p argc =
      let rest = read_char message p argc c >>= λ (p', argc'). read_args message cs p' argc' in
      if c == newline then some (p, argc) else rest

  -- What `update` does with a whole packet.
  unfoldable pub handle_packet : Panel World → Option (Panel World)
  unfolding read_message
  handle_packet p = read_message p.packet [] >>= λ (message, rest).
      read_args message rest (init_arguments (record p { message = message })) 0 >>= λ (p', argc).
      some (record (init_arguments (call p' message argc)) { packet = [] })

  -- The loop of `update` while bytes are available, for at most `k` rounds.
  unfoldable pub packets : Bool → List ℕ → ℕ → Panel World → Option (Panel World)
  unfolding read_packet handle_packet
  packets signed [] k p = some p
  packets signed (c ∷ cs) zero p = some p
  packets signed (c ∷ cs) (suc k) p =
      read_packet signed (c ∷ cs) p.packet >>= λ (whole, packet, left).
      (let p' = record p { packet = packet } in if whole then handle_packet p' else some p')
      >>= packets signed left k

  -- The two loops as one, byte by byte, where `char` is signed: between two bytes they keep `packet`
  -- and nothing else. A byte that reads as -1 ends the inner loop, not the outer one.
  unfoldable pub receive : List ℕ → Panel World → Option (Panel World)
  unfolding handle_packet
  receive [] p = some p
  receive (c ∷ cs) p =
      let p' = record p { packet = p.packet ++ (c ∷ []) } in
      let next =
        if c == no_char then some p else if c == newline then handle_packet p' else some p' in
      next >>= receive cs

  -- `update`, with what `client.connected` and the two calls of `millis` say, and the bytes that are
  -- available; also those left.
  unfoldable pub update : Panel World → Bool → ℕ → ℕ → List ℕ → Option (Panel World × List ℕ)
  update p connected now later input =
      if not connected && ltb 10000 ((now + 2 ^ 32 - p.debug) % 2 ^ 32)
      then some (record p { debug = later; sent = p.sent ++ (connect_to p.ip p.port ∷ []) }, input)
      else receive input p >>= λ p'. some (p', [])
