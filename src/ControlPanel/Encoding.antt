-- ===== src/ControlPanel/Encoding.antt =====
-- Packets of the control panel as they are sent, and the name and array operations on them.
use spu_energy_efficient_sys.Common.{
  ℕ, suc, ◌+◌, ◌-◌, ◌≡◌, ◌≢◌, refl, sym, ap, ◌∙◌, false, some, List, [], ◌∷◌, ◌++◌, replicate, ◌==◌,
  if◌then◌else◌, All, length, length-append, append_assoc, append-nil, arith, ◌<◌,
}
use spu_energy_efficient_sys.ControlPanel.{
  Text, newline, ampersand, no_char, cp_max_argc, read_message,
}

-- A character that stands for itself.
abbrev pub IsPlain : ℕ → Type 0
IsPlain c = (c ≢ newline) × (c ≢ ampersand) × (c ≢ no_char)

-- A packet as it is sent.
abbrev pub fields : List Text → List ℕ
fields [] = []
fields (a ∷ rest) = ampersand ∷ (a ++ fields rest)

abbrev pub encoded : Text → List Text → List ℕ
encoded name args = name ++ (fields args ++ (newline ∷ []))

-- The arguments in batches of ten, of which the last may be shorter; `done` is the one begun.
abbrev pub batches : List Text → List Text → List (List Text)
batches done [] = done ∷ []
batches done (a ∷ rest) =
    let full = batches (a ∷ []) rest in
    let begun = batches (done ++ (a ∷ [])) rest in
    if length done == cp_max_argc then done ∷ full else begun

-- The array of arguments with one batch, and empty ones behind it.
abbrev pub padded : List Text → List Text
padded args = args ++ replicate (cp_max_argc - length args) []

pub is_newline : (c : ℕ) → c ≢ newline → (c == newline) ≡ false
is_newline c h = ground arith

pub is_ampersand : (c : ℕ) → c ≢ ampersand → (c == ampersand) ≡ false
is_ampersand c h = ground arith

pub is_no_char : (c : ℕ) → c ≢ no_char → (c == no_char) ≡ false
is_no_char c h = ground arith

pub read_message_plain :
    (name rest : List ℕ) (m : Text)
    → All IsPlain name
    → read_message (name ++ rest) m ≡ read_message rest (m ++ name)
unfolding read_message
read_message_plain [] rest m h = rw (append-nil m) refl
read_message_plain (c ∷ name) rest m h =
    rw (is_ampersand c h.0.1, is_newline c h.0.0)
      (read_message_plain name rest (m ++ (c ∷ [])) h.1 ∙ rw (append_assoc m (c ∷ []) name) refl)

pub read_message_end :
    (args : List Text) (m : Text)
    → read_message (fields args ++ (newline ∷ [])) m ≡ some (m, fields args ++ (newline ∷ []))
unfolding read_message
read_message_end [] m = refl
read_message_end (a ∷ args) m = refl

pub padded-room :
    (done : List Text)
    → length done < cp_max_argc
    → padded done ≡ done ++ ([] ∷ replicate (9 - length done) [])
padded-room done h =
    let room : cp_max_argc - length done ≡ suc (9 - length done) = omega arith in
    ap (λ k. done ++ replicate k []) room

pub padded-snoc :
    (done : List Text) (a : Text)
    → done ++ (a ∷ replicate (9 - length done) []) ≡ padded (done ++ (a ∷ []))
padded-snoc done a =
    let room : cp_max_argc - (length done + 1) ≡ 9 - length done = omega arith in
    rw (length-append done (a ∷ []), room) (sym (append_assoc done (a ∷ []) _))

-- A character that stays in a packet.
abbrev pub IsKept : ℕ → Type 0
IsKept c = (c ≢ newline) × (c ≢ no_char)

pub kept : (xs ys : List ℕ) → All IsPlain xs → All IsKept ys → All IsKept (xs ++ ys)
kept [] ys h k = k
kept (x ∷ xs) ys h k = ((h.0.0, h.0.2), kept xs ys h.1 k)

pub fields-IsKept : (args : List Text) → All (All IsPlain) args → All IsKept (fields args)
fields-IsKept [] h = tt
fields-IsKept (a ∷ args) h =
    ((ground arith, ground arith), kept a (fields args) h.0 (fields-IsKept args h.1))

pub body-IsKept :
    (name : Text) (args : List Text)
    → All IsPlain name
    → All (All IsPlain) args
    → All IsKept (name ++ fields args)
body-IsKept name args plain plains = kept name (fields args) plain (fields-IsKept args plains)

pub encoded-body :
    (name : Text) (args : List Text) (rest : List ℕ)
    → encoded name args ++ rest ≡ (name ++ fields args) ++ (newline ∷ rest)
encoded-body name args rest =
    append_assoc name (fields args ++ (newline ∷ [])) rest
    ∙ ap (λ xs. name ++ xs) (append_assoc (fields args) (newline ∷ []) rest)
    ∙ sym (append_assoc name (fields args) (newline ∷ rest))
