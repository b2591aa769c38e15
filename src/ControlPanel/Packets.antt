-- ===== src/ControlPanel/Packets.antt =====
-- The calls that a packet of the control panel makes.
use spu_energy_efficient_sys.Common.{
  get_elem?-middle, set-middle, ℕ, ◌+◌, ◌-◌, ◌≡◌, ◌≢◌, refl, sym, ap, ◌∙◌, true, false, Option,
  none, some, List, [], ◌∷◌, ◌++◌, replicate, ◌==◌, ◌>>=◌, All, length, length-append, append_assoc,
  append-nil, arith, ◌≤◌, ◌<◌, Bool-cases, inl, inr,
}
use spu_energy_efficient_sys.ControlPanel.{
  Text, Panel, newline, ampersand, cp_max_argc, init_arguments, call, read_message, read_char,
  read_args, handle_packet, receive,
}
use spu_energy_efficient_sys.ControlPanel.Encoding.{
  IsPlain, fields, encoded, batches, padded, is_newline, is_ampersand, is_no_char,
  read_message_plain, read_message_end, padded-room, padded-snoc, IsKept, body-IsKept, encoded-body,
}

module _ {World : Type 0} where
  -- The calls of one packet, a batch each.
  abbrev pub call_all : Panel World → Text → List (List Text) → Panel World
  call_all p name [] = p
  call_all p name (b ∷ bs) = call_all (call (record p { args = padded b }) name (length b)) name bs

  read_char_word :
      (name : Text) (p : Panel World) (done todo : List Text) (a : Text) (c : ℕ)
      → c ≢ ampersand
      → read_char name (record p { args = done ++ (a ∷ todo) }) (length done + 1) c
        ≡ some (record p { args = done ++ ((a ++ (c ∷ [])) ∷ todo) }, length done + 1)
  unfolding read_char
  read_char_word name p done todo a c h =
      let first : (length done + 1 == 0) ≡ false = ground arith in
      let index : length done + 1 - 1 ≡ length done = omega arith in
      rw
        (
          is_ampersand c h,
          first,
          index,
          get_elem?-middle done todo a,
          index,
          set-middle done todo a (a ++ (c ∷ [])),
        )
        refl

  read_word :
      (name : Text) (cs rest : List ℕ) (p : Panel World) (done todo : List Text) (a : Text)
      → All IsPlain cs
      → read_args name (cs ++ rest) (record p { args = done ++ (a ∷ todo) }) (length done + 1)
        ≡ read_args name rest (record p { args = done ++ ((a ++ cs) ∷ todo) }) (length done + 1)
  unfolding read_args
  read_word name [] rest p done todo a h = rw (append-nil a) refl
  read_word name (c ∷ cs) rest p done todo a h =
      rw (is_newline c h.0.0, read_char_word name p done todo a c h.0.1)
        (read_word name cs rest p done todo (a ++ (c ∷ [])) h.1
          ∙ rw (append_assoc a (c ∷ []) cs) refl)

  -- The ampersand of an argument when ten have been read, and when fewer have.
  read_full :
      (name : Text) (rest : List ℕ) (p : Panel World) (argc : ℕ)
      → (argc == cp_max_argc) ≡ true
      → read_args name (ampersand ∷ rest) p argc
        ≡ read_args name rest (init_arguments (call p name argc)) 1
  unfolding read_args read_char
  read_full name rest p argc h = rw h refl

  read_more :
      (name : Text) (rest : List ℕ) (p : Panel World) (argc : ℕ)
      → (argc == cp_max_argc) ≡ false
      → read_args name (ampersand ∷ rest) p argc ≡ read_args name rest p (argc + 1)
  unfolding read_args read_char
  read_more name rest p argc h = rw h refl

  read_end :
      (name : Text) (p : Panel World) (argc : ℕ)
      → read_args name (newline ∷ []) p argc ≡ some (p, argc)
  unfolding read_args
  read_end name p argc = refl

  -- The two cases of an argument behind those of `done`.
  read_into :
      (name : Text) (a : Text) (rest : List ℕ) (p : Panel World) (done : List Text)
      → All IsPlain a
      → length done < cp_max_argc
      → read_args name (ampersand ∷ (a ++ rest)) (record p { args = padded done }) (length done)
        ≡ read_args name rest
            (record p { args = padded (done ++ (a ∷ [])) })
            (length (done ++ (a ∷ [])))
  read_into name a rest p done h few =
      read_more name (a ++ rest) (record p { args = padded done }) (length done) (ground arith)
      ∙ ap (λ xs. read_args name (a ++ rest) (record p { args = xs }) (length done + 1))
          (padded-room done few)
      ∙ read_word name a rest p done (replicate (9 - length done) []) [] h
      ∙ ap (λ xs. read_args name rest (record p { args = xs }) (length done + 1))
          (padded-snoc done a)
      ∙ ap (λ n. read_args name rest (record p { args = padded (done ++ (a ∷ [])) }) n)
          (sym (length-append done (a ∷ [])))

  read_over :
      (name : Text) (a : Text) (rest : List ℕ) (p : Panel World) (argc : ℕ)
      → All IsPlain a
      → (argc == cp_max_argc) ≡ true
      → read_args name (ampersand ∷ (a ++ rest)) p argc
        ≡ read_args name rest (record (call p name argc) { args = padded (a ∷ []) }) 1
  unfolding init_arguments
  read_over name a rest p argc h full =
      read_full name (a ++ rest) p argc full
      ∙ read_word name a rest (call p name argc) [] (replicate 9 []) [] h

  -- The last call, after the loop.
  abbrev finish : Text → Option (Panel World × ℕ) → Option (Panel World)
  finish name r = r >>= λ q. some (call q.0 name q.1)

  -- The loop over the arguments with the last call.
  read_fields :
      (name : Text) (todo : List Text) (p : Panel World) (done : List Text)
      → All (All IsPlain) todo
      → length done ≤ cp_max_argc
      → finish name (
          read_args name
            (fields todo ++ (newline ∷ []))
            (record p { args = padded done })
            (length done))
        ≡ some (call_all p name (batches done todo))
  read_fields name [] p done h few =
      ap (finish name) (read_end name (record p { args = padded done }) (length done))
  read_fields name (a ∷ todo) p done h few =
      let q : Panel World = record p { args = padded done } in
      let rest = fields todo ++ (newline ∷ []) in
      elim (Bool-cases (length done == cp_max_argc)) [
        | inl full ↦
            rw (full, append_assoc a (fields todo) (newline ∷ []))
              (ap (finish name) (read_over name a rest q (length done) h.0 full)
                ∙ read_fields name todo (call q name (length done)) (a ∷ []) h.1 (omega arith))
        | inr free ↦
            let less : length done < cp_max_argc = ground (arith, few, free) in
            rw (free, append_assoc a (fields todo) (newline ∷ []))
              (ap (finish name) (read_into name a rest p done h.0 less)
                ∙ read_fields name todo p (done ++ (a ∷ [])) h.1
                    (omega (arith, less, length-append done (a ∷ []))))
      ]

  -- The end of a packet.
  abbrev pub reset : Panel World → Panel World
  reset p = record (init_arguments p) { packet = [] }

  finish-reset :
      (name : Text) (r : Option (Panel World × ℕ))
      → (r >>= λ (q, argc). some (reset (call q name argc)))
        ≡ (finish name r >>= λ q. some (reset q))
  finish-reset name none = refl
  finish-reset name (some q) = refl

  handle_packet_steps :
      (p q : Panel World) (name : Text) (rest : List ℕ)
      → read_message p.packet [] ≡ some (name, rest)
      → finish name (read_args name rest (init_arguments (record p { message = name })) 0) ≡ some q
      → handle_packet p ≡ some (reset q)
  unfolding handle_packet
  handle_packet_steps p q name rest e f = rw e (finish-reset name _ ∙ rw f refl)

  handle_packet_lem :
      (p : Panel World) (name : Text) (args : List Text)
      → All IsPlain name
      → All (All IsPlain) args
      → p.packet ≡ encoded name args
      → handle_packet p
        ≡ some (reset (call_all (record p { message = name }) name (batches [] args)))
  unfolding init_arguments
  handle_packet_lem p name args plain plains e =
      handle_packet_steps p _ name (fields args ++ (newline ∷ []))
        (ap (λ xs. read_message xs []) e
          ∙ read_message_plain name (fields args ++ (newline ∷ [])) [] plain
          ∙ read_message_end args name)
        (read_fields name args (record p { message = name }) [] plains (omega arith))

  receive_plain :
      (cs rest : List ℕ) (p : Panel World)
      → All IsKept cs
      → receive (cs ++ rest) p ≡ receive rest (record p { packet = p.packet ++ cs })
  unfolding receive
  receive_plain [] rest p h = rw (append-nil p.packet) refl
  receive_plain (c ∷ cs) rest p h =
      rw (is_newline c h.0.0, is_no_char c h.0.1)
        (receive_plain cs rest (record p { packet = p.packet ++ (c ∷ []) }) h.1
          ∙ rw (append_assoc p.packet (c ∷ []) cs) refl)

  receive-newline :
      (rest : List ℕ) (p : Panel World)
      → receive (newline ∷ rest) p
        ≡ (handle_packet (record p { packet = p.packet ++ (newline ∷ []) }) >>= receive rest)
  unfolding receive
  receive-newline rest p = refl

  -- A packet of which no part has arrived: the handler of its name is called once for each batch
  -- of ten of its arguments, and once for the last shorter one (also when it is empty), with empty
  -- arguments behind them; then the next packets are received. Neither the name nor an argument
  -- has a `&`, a newline or the byte 255.
  pub receive_lem :
      (p : Panel World) (name : Text) (args : List Text) (rest : List ℕ)
      → All IsPlain name
      → All (All IsPlain) args
      → p.packet ≡ []
      → receive (encoded name args ++ rest) p
        ≡ receive rest (
            reset (
              call_all
                (record p { message = name; packet = encoded name args })
                name
                (batches [] args)))
  receive_lem p name args rest plain plains e =
      let body = name ++ fields args in
      let whole : (p.packet ++ body) ++ (newline ∷ []) ≡ encoded name args =
        rw e (append_assoc name (fields args) (newline ∷ [])) in
      ap (λ xs. receive xs p) (encoded-body name args rest)
      ∙ receive_plain body (newline ∷ rest) p (body-IsKept name args plain plains)
      ∙ receive-newline rest (record p { packet = p.packet ++ body })
      ∙ ap (λ xs. handle_packet (record p { packet = xs }) >>= receive rest) whole
      ∙ ap (λ r. r >>= receive rest)
          (handle_packet_lem (record p { packet = encoded name args }) name args plain plains refl)
