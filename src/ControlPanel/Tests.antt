-- ===== src/ControlPanel/Tests.antt =====
-- The control panel on concrete packets.
use spu_energy_efficient_sys.Common.{
  ℕ, ◌<◌, ◌≡◌, refl, ◌≢◌, true, false, inr, Option, none, some, List, [], ◌∷◌, ◌++◌, All, take,
  drop, replicate, arith,
}
use spu_energy_efficient_sys.ControlPanel.{
  Text, Handler, Callback, Panel, new_panel, create_handler, call, connect, send, add_to_response,
  frame, receive, packets, read_packet, read_args, init_arguments, update, newline, no_char, print,
  connect_to,
}
use spu_energy_efficient_sys.ControlPanel.Encoding.{IsPlain, encoded, batches}
use spu_energy_efficient_sys.ControlPanel.Packets.{call_all, reset, receive_lem}
use spu_energy_efficient_sys.ControlPanel.Safety.{IsOpen, update-IsOpen}
use spu_energy_efficient_sys.ControlPanel.Loops.{packets-receive}
use spu_energy_efficient_sys.ControlPanel.Framing.{number, frame_lem}

-- A handler that notes the numbers of its arguments and answers with its first argument.
abbrev echo : Handler (List ℕ)
echo argc args (w, r) = (argc ∷ w, add_to_response r (65 ∷ []))

abbrev idle : Callback (List ℕ)
idle = record { name = []; handler = echo }

abbrev blank_panel : Panel (List ℕ)
blank_panel = record {
  callbacks = replicate 30 idle;
  callback_amount = 9;
  response = [];
  packet = [];
  args = replicate 10 [];
  message = [];
  ip = [];
  port = 0;
  debug = 0;
  world = [];
  sent = [];
}

-- With a handler for `b`.
abbrev panel : Panel (List ℕ)
panel = record blank_panel {
  callbacks = record { name = 98 ∷ []; handler = echo } ∷ replicate 29 idle;
  callback_amount = 1;
}

panel_made : create_handler (new_panel blank_panel 0) (98 ∷ []) echo ≡ panel
unfolding new_panel create_handler
panel_made = refl

b-IsPlain : IsPlain 98
b-IsPlain = (ground arith, ground arith, ground arith)

b_text : All IsPlain (98 ∷ [])
b_text = (b-IsPlain, tt)

abbrev three : List Text
three = replicate 3 (98 ∷ [])

three-IsPlain : All (All IsPlain) three
three-IsPlain = (b_text, (b_text, (b_text, tt)))

receive_lem_example :
    receive (encoded (98 ∷ []) three ++ (99 ∷ [])) panel
    ≡ receive (99 ∷ []) (
        reset (
          call_all
            (record panel { message = 98 ∷ []; packet = encoded (98 ∷ []) three })
            (98 ∷ [])
            (batches [] three)))
receive_lem_example = receive_lem panel (98 ∷ []) three (99 ∷ []) b_text three-IsPlain refl

-- Twelve arguments are two calls, with ten and with two.
abbrev world_after : Option (Panel (List ℕ)) → List ℕ
world_after none = []
world_after (some p) = p.world

twelve : world_after (receive (encoded (98 ∷ []) (replicate 12 (98 ∷ []))) panel) ≡ 2 ∷ 10 ∷ []
unfolding receive call add_to_response read_args init_arguments
twelve = refl

no_newline : IsOpen (98 ∷ [])
no_newline = (ground arith, tt)

update-IsOpen_example :
    (q : Panel (List ℕ)) × (left : List ℕ) × (update
        (record panel { packet = 98 ∷ [] })
        true
        5
        5
        (38 ∷ 38 ∷ 255 ∷ 10 ∷ 7 ∷ [])
      ≡ some (q, left))
    × IsOpen q.packet
update-IsOpen_example =
    update-IsOpen (record panel { packet = 98 ∷ [] }) true 5 5 (38 ∷ 38 ∷ 255 ∷ 10 ∷ 7 ∷ [])
      no_newline

is_kept : 98 ≢ no_char
is_kept e = ground (arith, e)

-- A packet that arrives whole, where `char` is unsigned.
packets-receive_example :
    packets false (98 ∷ 38 ∷ 98 ∷ 10 ∷ []) 4 panel ≡ receive (98 ∷ 38 ∷ 98 ∷ 10 ∷ []) panel
packets-receive_example =
    packets-receive (List ℕ) false (98 ∷ 38 ∷ 98 ∷ 10 ∷ []) panel
      (inr ((is_kept, ((λ e. ground (arith, e)), (is_kept, ((λ e. ground (arith, e)), tt)))), refl))

-- Where `char` is unsigned, the first part of a packet is never read to its end.
unfinished_packet : packets false (98 ∷ 38 ∷ []) 2 panel ≡ none
unfolding packets read_packet
unfinished_packet = refl

three_short : 3 < 10000
three_short = ground arith

frame_lem_example :
    (number 0 (take 4 (frame (65 ∷ 66 ∷ 38 ∷ []))) ≡ 3)
    × (drop 4 (frame (65 ∷ 66 ∷ 38 ∷ [])) ≡ 65 ∷ 66 ∷ 38 ∷ newline ∷ [])
frame_lem_example = frame_lem (65 ∷ 66 ∷ 38 ∷ []) three_short

connected_and_sent :
    (send (connect panel (49 ∷ []) 80) (65 ∷ [])).sent
    ≡ connect_to (49 ∷ []) 80 ∷ print (65 ∷ 10 ∷ []) ∷ []
unfolding send connect
connected_and_sent = refl
