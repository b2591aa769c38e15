-- ===== src/ControlPanel/Safety.antt =====
-- The control panel under any bytes at all: no fault.
use spu_energy_efficient_sys.Common.{
  ℕ, zero, suc, ◌+◌, ◌-◌, ◌≡◌, ◌≢◌, refl, ap, ◌∙◌, Bool, false, not, ◌&&◌, ◌%◌, ◌^◌, some, List, [],
  ◌∷◌, ◌++◌, get_elem?, set, ltb, ◌==◌, All, length, length-set, arith, ◌≤◌, ◌<◌, Bool-cases, inl,
  inr, ==_iff, ◌⊎◌,
}
use spu_energy_efficient_sys.ControlPanel.{
  Text, Panel, newline, ampersand, no_char, cp_max_argc, init_arguments, call, read_message,
  read_char, read_args, handle_packet, receive, update, connect_to,
}

-- No newline among some characters.
abbrev pub IsOpen : List ℕ → Type 0
IsOpen = All (λ c. c ≢ newline)

test_ne : (a b : ℕ) → a ≢ b → (a == b) ≡ false
test_ne a b h = ground arith

get_elem?-some : (xs : List Text) (i : ℕ) → i < length xs → (a : Text) × (get_elem? xs i ≡ some a)
get_elem?-some [] i h = absurd (omega arith)
get_elem?-some (x ∷ xs) zero h = (x, refl)
get_elem?-some (x ∷ xs) (suc i) h = get_elem?-some xs i (omega arith)

IsOpen-snoc : (xs : List ℕ) (c : ℕ) → IsOpen xs → c ≢ newline → IsOpen (xs ++ (c ∷ []))
IsOpen-snoc [] c h k = (k, tt)
IsOpen-snoc (x ∷ xs) c h k = (h.0, IsOpen-snoc xs c h.1 k)

-- What the loop over the name leaves: the newline alone, or arguments.
abbrev Arguments : List ℕ → Type 0
Arguments rest =
    (rest ≡ newline ∷ [])
    ⊎ ((ys : List ℕ) × (rest ≡ ampersand ∷ (ys ++ (newline ∷ []))) × IsOpen ys)

read_message-some :
    (xs : List ℕ) (m : Text)
    → IsOpen xs
    → (name : Text) × (rest : List ℕ) × (read_message (xs ++ (newline ∷ [])) m ≡ some (name, rest))
      × Arguments rest
unfolding read_message
read_message-some [] m h = (m, newline ∷ [], refl, inl refl)
read_message-some (c ∷ xs) m h = elim (Bool-cases (c == ampersand)) [
  | inl e ↦ (
    m,
    c ∷ (xs ++ (newline ∷ [])),
    rw e refl,
    inr (xs, ap (λ a. a ∷ (xs ++ (newline ∷ []))) ((==_iff c ampersand).0 e), h.1),
  )
  | inr e ↦ rw (e, test_ne c newline h.0) (read_message-some xs (m ++ (c ∷ [])) h.1)
]

module _ {World : Type 0} where
  -- One round of the loop over the arguments stays within the array.
  read_char-some :
      (name : Text) (p : Panel World) (argc c : ℕ)
      → 0 < argc
      → argc ≤ cp_max_argc
      → length p.args ≡ cp_max_argc
      → (q : Panel World) × (n : ℕ) × (read_char name p argc c ≡ some (q, n))
        × (0 < n)
        × (n ≤ cp_max_argc)
        × (length q.args ≡ cp_max_argc)
  unfolding read_char init_arguments
  read_char-some name p argc c low high room = elim (Bool-cases (c == ampersand)) [
    | inl e ↦ elim (Bool-cases (argc == cp_max_argc)) [
      | inl full ↦
          (init_arguments (call p name argc), 1, rw (e, full) refl, omega arith, omega arith, refl)
      | inr free ↦ (p, argc + 1, rw (e, free) refl, omega arith, ground (arith, high, free), room)
    ]
    | inr e ↦
        let (a, found) = get_elem?-some p.args (argc - 1) (omega (arith, low, high, room)) in
        let some_args : (argc == 0) ≡ false = ground (arith, low) in
        (
          record p { args = set p.args (argc - 1) (a ++ (c ∷ [])) },
          argc,
          rw (e, some_args, found) refl,
          low,
          high,
          length-set p.args (argc - 1) (a ++ (c ∷ [])) ∙ room,
        )
  ]

  read_args-some :
      (name : Text) (xs : List ℕ) (p : Panel World) (argc : ℕ)
      → IsOpen xs
      → 0 < argc
      → argc ≤ cp_max_argc
      → length p.args ≡ cp_max_argc
      → (q : Panel World) × (n : ℕ) × (read_args name (xs ++ (newline ∷ [])) p argc ≡ some (q, n))
  unfolding read_args
  read_args-some name [] p argc h low high room = (p, argc, refl)
  read_args-some name (c ∷ xs) p argc h low high room =
      let (q, n, e, low', high', room') = read_char-some name p argc c low high room in
      let (q', n', f) = read_args-some name xs q n h.1 low' high' room' in
      (q', n', rw (test_ne c newline h.0, e) f)

  read_args-Arguments :
      (name : Text) (rest : List ℕ) (p : Panel World)
      → Arguments rest
      → length p.args ≡ cp_max_argc
      → (q : Panel World) × (n : ℕ) × (read_args name rest p 0 ≡ some (q, n))
  unfolding read_args read_char
  read_args-Arguments name rest p (inl e) room = (p, 0, rw e refl)
  read_args-Arguments name rest p (inr (ys, e, h)) room =
      let (q, n, f) = read_args-some name ys p 1 h (omega arith) (omega arith) room in
      (q, n, rw e f)

  room-init : (p : Panel World) → length (init_arguments p).args ≡ cp_max_argc
  unfolding init_arguments
  room-init p = refl

  handle_packet-some :
      (p : Panel World) (xs : List ℕ)
      → p.packet ≡ xs ++ (newline ∷ [])
      → IsOpen xs
      → (q : Panel World) × (handle_packet p ≡ some q) × (q.packet ≡ [])
  unfolding handle_packet
  handle_packet-some p xs e h =
      let (name, rest, f, args) = read_message-some xs [] h in
      let (q, n, g) =
        read_args-Arguments name rest (init_arguments (record p { message = name })) args
          (room-init (record p { message = name })) in
      let read : read_message p.packet [] ≡ some (name, rest) =
        ap (λ ys. read_message ys []) e ∙ f in
      (record (init_arguments (call q name n)) { packet = [] }, rw (read, g) refl, refl)

  receive-some :
      (input : List ℕ) (p : Panel World)
      → IsOpen p.packet
      → (q : Panel World) × (receive input p ≡ some q) × IsOpen q.packet
  unfolding receive
  receive-some [] p h = (p, refl, h)
  receive-some (c ∷ cs) p h = elim (Bool-cases (c == no_char)) [
    | inl none_read ↦ rw none_read (receive-some cs p h)
    | inr e ↦ elim (Bool-cases (c == newline)) [
      | inl end ↦
          let last = (==_iff c newline).0 end in
          let p' : Panel World = record p { packet = p.packet ++ (c ∷ []) } in
          let (q, f, empty) =
            handle_packet-some p' p.packet (ap (λ x. p.packet ++ (x ∷ [])) last) h in
          rw (e, end, f) (receive-some cs q (rw empty tt))
      | inr inside ↦
          rw (e, inside)
            (receive-some cs (record p { packet = p.packet ++ (c ∷ []) })
              (IsOpen-snoc p.packet c h (λ x. absurd (cc ((==_iff c newline).1 x, inside)))))
    ]
  ]

  -- Whatever bytes arrive, and whatever the clock and the connection say, `update` stays within its
  -- arrays and within the packet, when the part of a packet that is kept has no newline; the part
  -- kept afterwards has none either.
  pub update-IsOpen :
      (p : Panel World) (connected : Bool) (now later : ℕ) (input : List ℕ)
      → IsOpen p.packet
      → (q : Panel World) × (left : List ℕ) × (update p connected now later input ≡ some (q, left))
        × IsOpen q.packet
  unfolding update
  update-IsOpen p connected now later input h =
      elim (Bool-cases (not connected && ltb 10000 ((now + 2 ^ 32 - p.debug) % 2 ^ 32))) [
        | inl lost ↦ (
          record p { debug = later; sent = p.sent ++ (connect_to p.ip p.port ∷ []) },
          input,
          rw lost refl,
          h,
        )
        | inr kept ↦
            let (q, e, rest_open) = receive-some input p h in (q, [], rw (kept, e) refl, rest_open)
      ]
