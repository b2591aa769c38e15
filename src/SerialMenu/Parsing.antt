-- ===== src/SerialMenu/Parsing.antt =====
-- The lines that the serial menu reads.
use spu_energy_efficient_sys.Common.{
  get_elem?-middle, set-middle, ℕ, zero, suc, ◌+◌, ◌-◌, ◌≡◌, ◌≢◌, refl, sym, ap, ◌∙◌, Bool, false,
  none, some, List, [], ◌∷◌, ◌++◌, get_elem?, replicate, ◌==◌, All, length, length-append,
  append_assoc, append-nil, arith, ◌≤◌,
}
use spu_energy_efficient_sys.SerialMenu.{
  Text, Menu, Line, newline, comma, max_arg_number, new_line, read_char, read_line, handle_events,
  serial_event,
}

-- A character that stands for itself.
abbrev pub IsPlain : ℕ → Type 0
IsPlain c = (c ≢ newline) × (c ≢ comma)

-- A command as it is typed, without the end of the line.
abbrev pub fields : List Text → List ℕ
fields [] = []
fields (a ∷ rest) = comma ∷ (a ++ fields rest)

abbrev pub command : Text → List Text → List ℕ
command name args = name ++ fields args

is_newline : (c : ℕ) → c ≢ newline → (c == newline) ≡ false
is_newline c h = ground arith

is_comma : (c : ℕ) → c ≢ comma → (c == comma) ≡ false
is_comma c h = ground arith

read_name :
    (cs rest : List ℕ) (name : Text) (args : List Text)
    → All IsPlain cs
    → read_line (cs ++ rest) (record { input_string = name; args = args; argc = 0 })
      ≡ read_line rest (record { input_string = name ++ cs; args = args; argc = 0 })
unfolding read_line read_char
read_name [] rest name args h = rw (append-nil name) refl
read_name (c ∷ cs) rest name args h =
    rw (is_newline c h.0.0, is_comma c h.0.1)
      (read_name cs rest (name ++ (c ∷ [])) args h.1 ∙ rw (append_assoc name (c ∷ []) cs) refl)

-- The line while the argument after `done` is read.
abbrev reading : Text → List Text → Text → List Text → Line
reading name done a todo = record {
  input_string = name;
  args = done ++ (a ∷ todo);
  argc = length done + 1;
}

read_char-reading :
    (name : Text) (done todo : List Text) (a : Text) (c : ℕ)
    → c ≢ comma
    → read_char (reading name done a todo) c ≡ some (reading name done (a ++ (c ∷ [])) todo)
unfolding read_char
read_char-reading name done todo a c h =
    let first : (length done + 1 == 0) ≡ false = ground arith in
    let index : length done + 1 - 1 ≡ length done = omega arith in
    rw
      (
        is_comma c h,
        first,
        index,
        get_elem?-middle done todo a,
        index,
        set-middle done todo a (a ++ (c ∷ [])),
      )
      refl

read_arg :
    (cs rest : List ℕ) (name : Text) (done todo : List Text) (a : Text)
    → All IsPlain cs
    → read_line (cs ++ rest) (reading name done a todo)
      ≡ read_line rest (reading name done (a ++ cs) todo)
unfolding read_line
read_arg [] rest name done todo a h = rw (append-nil a) refl
read_arg (c ∷ cs) rest name done todo a h =
    rw (is_newline c h.0.0, read_char-reading name done todo a c h.0.1)
      (read_arg cs rest name done todo (a ++ (c ∷ [])) h.1 ∙ rw (append_assoc a (c ∷ []) cs) refl)

-- The line after the arguments `done`.
abbrev read : Text → List Text → List Text → Line
read name done slots = record { input_string = name; args = done ++ slots; argc = length done }

-- Empty slots for some arguments.
abbrev blank : List Text → List Text
blank [] = []
blank (a ∷ rest) = [] ∷ blank rest

replicate-blank :
    (args : List Text) (n : ℕ)
    → length args ≤ n
    → replicate n [] ≡ blank args ++ replicate (n - length args) []
replicate-blank [] n h = ap (λ k. replicate k []) (omega arith)
replicate-blank (a ∷ args) zero h = absurd (omega arith)
replicate-blank (a ∷ args) (suc n) h =
    let less : suc n - suc (length args) ≡ n - length args = omega arith in
    rw less (ap (λ xs. [] ∷ xs) (replicate-blank args n (omega arith)))

read_comma :
    (rest : List ℕ) (l : Line)
    → read_line (comma ∷ rest) l ≡ read_line rest (record l { argc = l.argc + 1 })
unfolding read_line read_char
read_comma rest l = refl

reading-read :
    (name : Text) (done slots : List Text) (a : Text)
    → reading name done a slots ≡ read name (done ++ (a ∷ [])) slots
reading-read name done slots a = rw (append_assoc done (a ∷ []) slots, length-append done) refl

read_fields :
    (todo : List Text) (rest : List ℕ) (name : Text) (done more : List Text)
    → All (All IsPlain) todo
    → read_line (fields todo ++ rest) (read name done (blank todo ++ more))
      ≡ read_line rest (read name (done ++ todo) more)
read_fields [] rest name done more h = rw (append-nil done) refl
read_fields (a ∷ todo) rest name done more h =
    let slots = blank todo ++ more in
    read_comma ((a ++ fields todo) ++ rest) (read name done ([] ∷ slots))
    ∙ ap (λ xs. read_line xs (reading name done [] slots)) (append_assoc a (fields todo) rest)
    ∙ read_arg a (fields todo ++ rest) name done slots [] h.0
    ∙ ap (read_line (fields todo ++ rest)) (reading-read name done slots a)
    ∙ read_fields todo rest name (done ++ (a ∷ [])) more h.1
    ∙ ap (λ xs. read_line rest (read name xs more)) (append_assoc done (a ∷ []) todo)

-- The empty slots behind the arguments.
abbrev unused : List Text → List Text
unused args = replicate (max_arg_number - length args) []

read_command :
    (name : Text) (args : List Text) (rest : List ℕ)
    → All IsPlain name
    → All (All IsPlain) args
    → length args ≤ max_arg_number
    → read_line (command name args ++ rest) new_line
      ≡ read_line rest (read name args (replicate (max_arg_number - length args) []))
unfolding new_line
read_command name args rest plain plains few =
    ap (λ xs. read_line xs new_line) (append_assoc name (fields args) rest)
    ∙ read_name name (fields args ++ rest) [] (replicate max_arg_number []) plain
    ∙ ap (λ xs. read_line (fields args ++ rest) (read name [] xs))
        (replicate-blank args max_arg_number few)
    ∙ read_fields args rest name [] (unused args) plains

-- A command with at most ten arguments, in which neither the name nor an argument has a comma or a
-- newline, comes back from its line: the handlers get the name, the arguments (and empty ones up to
-- ten) and their number, and what follows the line stays on the port.
pub serial_event_lem :
    {World : Type 0} (same : Text → Text → Bool) (m : Menu World) (name : Text) (args : List Text)
    (rest : List ℕ) (w : World)
    → All IsPlain name
    → All (All IsPlain) args
    → length args ≤ max_arg_number
    → serial_event same m (command name args ++ (newline ∷ rest)) w
      ≡ some (
        handle_events same m name
            (args ++ replicate (max_arg_number - length args) [])
            (length args)
            w,
        rest,
      )
unfolding serial_event
serial_event_lem same m name args rest w plain plains few =
    rw (read_command name args (newline ∷ rest) plain plains few) refl

-- Of such a command whose end has not arrived yet when the port is read, nothing is kept: no handler
-- is called, and its characters are taken from the port.
pub serial_event_unfinished :
    {World : Type 0} (same : Text → Text → Bool) (m : Menu World) (name : Text) (args : List Text)
    (w : World)
    → All IsPlain name
    → All (All IsPlain) args
    → length args ≤ max_arg_number
    → serial_event same m (command name args) w ≡ some (w, [])
unfolding serial_event
serial_event_unfinished same m name args w plain plains few =
    rw (sym (append-nil (command name args)), read_command name args [] plain plains few) refl

get_elem?-end : (xs : List Text) → get_elem? xs (length xs) ≡ none
get_elem?-end [] = refl
get_elem?-end (x ∷ xs) = get_elem?-end xs

read_char_full :
    (name : Text) (args : List Text) (c : ℕ)
    → c ≢ comma
    → read_char (record { input_string = name; args = args; argc = length args + 1 }) c ≡ none
unfolding read_char
read_char_full name args c h =
    let first : (length args + 1 == 0) ≡ false = ground arith in
    let index : length args + 1 - 1 ≡ length args = omega arith in
    rw (is_comma c h, first, index, get_elem?-end args) refl

read_full :
    (name : Text) (args : List Text) (c : ℕ) (rest : List ℕ)
    → IsPlain c
    → read_line (c ∷ rest) (record { input_string = name; args = args; argc = length args + 1 })
      ≡ none
unfolding read_line
read_full name args c rest h = rw (is_newline c h.0, read_char_full name args c h.1) refl

unused-full : (args : List Text) → length args ≡ max_arg_number → args ++ unused args ≡ args
unused-full args full = ap (λ k. args ++ replicate (max_arg_number - k) []) full ∙ append-nil args

read_overrun :
    (name : Text) (args : List Text) (c : ℕ) (rest : List ℕ)
    → All IsPlain name
    → All (All IsPlain) args
    → length args ≡ max_arg_number
    → IsPlain c
    → read_line (command name args ++ (comma ∷ c ∷ rest)) new_line ≡ none
read_overrun name args c rest plain plains full h =
    read_command name args (comma ∷ c ∷ rest) plain plains (omega arith)
    ∙ read_comma (c ∷ rest) (read name args (unused args))
    ∙ ap
        (λ xs.
          read_line (c ∷ rest) (record { input_string = name; args = xs; argc = length args + 1 }))
        (unused-full args full)
    ∙ read_full name args c rest h

serial_event-fault :
    {World : Type 0} (same : Text → Text → Bool) (m : Menu World) (input : List ℕ) (w : World)
    → read_line input new_line ≡ none
    → serial_event same m input w ≡ none
unfolding serial_event
serial_event-fault same m input w e = rw e refl

-- An eleventh argument that is not empty is written past the array of arguments, whatever comes
-- behind it.
pub serial_event_overrun :
    {World : Type 0} (same : Text → Text → Bool) (m : Menu World) (name : Text) (args : List Text)
    (c : ℕ) (rest : List ℕ) (w : World)
    → All IsPlain name
    → All (All IsPlain) args
    → length args ≡ max_arg_number
    → IsPlain c
    → serial_event same m (command name args ++ (comma ∷ c ∷ rest)) w ≡ none
serial_event_overrun same m name args c rest w plain plains full h =
    serial_event-fault same m (command name args ++ (comma ∷ c ∷ rest)) w
      (read_overrun name args c rest plain plains full h)
