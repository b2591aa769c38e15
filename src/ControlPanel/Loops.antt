-- ===== src/ControlPanel/Loops.antt =====
-- The two loops that receive packets for the control panel, and the same byte by byte.
use spu_energy_efficient_sys.Common.{
  ℕ, zero, suc, ◌+◌, ◌≡◌, ◌≢◌, refl, Bool, true, false, Option, none, some, List, [], ◌∷◌, ◌++◌,
  ◌==◌, ◌&&◌, ◌>>=◌, All, length, arith, ◌≤◌, Bool-cases, inl, inr, ==_iff, ◌⊎◌, no_flag, subst,
  if◌then◌else◌,
}
use spu_energy_efficient_sys.ControlPanel.{
  Text, Panel, newline, no_char, handle_packet, read_packet, packets, receive,
}

-- Whether some bytes end at the end of a packet; `b` is the answer for none.
abbrev pub ends_packet : Bool → List ℕ → Bool
ends_packet b [] = b
ends_packet b (c ∷ cs) = ends_packet (c == newline) cs

-- `char` is signed, or whole packets arrive and no byte is 255.
abbrev pub IsReadable : Bool → Bool → List ℕ → Type 0
IsReadable signed b input =
    (signed ≡ true) ⊎ (All (λ c. c ≢ no_char) input × (ends_packet b input ≡ true))

bind_cong :
    {A : Type 0} (o : Option A) (f g : A → Option A) → ((x : A) → f x ≡ g x) → (o >>= f) ≡ (o >>= g)
bind_cong none f g h = refl
bind_cong (some x) f g h = h x

IsReadable-rest :
    (signed b : Bool) (c : ℕ) (cs : List ℕ)
    → IsReadable signed b (c ∷ cs)
    → IsReadable signed (c == newline) cs
IsReadable-rest signed b c cs (inl s) = inl s
IsReadable-rest signed b c cs (inr (kept, ends)) = inr (kept.1, ends)

-- A byte that ends the inner loop without a packet is read where `char` is signed.
stop-signed :
    (signed b : Bool) (c : ℕ) (cs : List ℕ)
    → IsReadable signed b (c ∷ cs)
    → (signed && c == no_char) ≡ (c == no_char)
stop-signed signed b c cs (inl s) = rw s refl
stop-signed signed b c cs (inr (kept, ends)) = elim (Bool-cases (c == no_char)) [
  | inl same ↦ absurd (kept.0 ((==_iff c no_char).0 same))
  | inr other ↦ ground (arith, other)
]

IsReadable-stop :
    (signed b : Bool) (c : ℕ) (cs : List ℕ)
    → (c == no_char) ≡ true
    → IsReadable signed b (c ∷ cs)
    → IsReadable signed true cs
IsReadable-stop signed b c cs e (inl s) = inl s
IsReadable-stop signed b c cs e (inr (kept, ends)) = absurd (kept.0 ((==_iff c no_char).0 e))

module _ (World : Type 0) (signed : Bool) where
  -- What the outer loop does with the end of the inner one.
  abbrev after : ℕ → Panel World → Bool × Text × List ℕ → Option (Panel World)
  after k p r =
      (let p' = record p { packet = r.1 } in if r.0 then handle_packet p' else some p')
      >>= packets signed r.2 k

  abbrev Inner : List ℕ → Type 0
  Inner cs =
      (k : ℕ) (p : Panel World)
      → length cs ≤ k + 1
      → IsReadable signed false cs
      → (read_packet signed cs p.packet >>= after k p) ≡ receive cs p

  outer :
      (cs : List ℕ) (k : ℕ) (p : Panel World)
      → length cs ≤ k
      → IsReadable signed true cs
      → Inner cs
      → packets signed cs k p ≡ receive cs p
  unfolding packets receive
  outer [] k p h readable inner = refl
  outer (c ∷ cs) zero p h readable inner = absurd (omega (arith, h))
  outer (c ∷ cs) (suc k) p h readable inner = inner k p (omega (arith, h)) readable

  Inner-nil : Inner []
  unfolding read_packet packets receive
  Inner-nil k p h (inl s) = rw s refl
  Inner-nil k p h (inr (kept, ends)) = no_flag ends

  Inner-cons : (c : ℕ) (cs : List ℕ) → Inner cs → Inner (c ∷ cs)
  unfolding read_packet receive
  Inner-cons c cs rest k p h readable =
      let left = IsReadable-rest signed false c cs readable in
      let stop = stop-signed signed false c cs readable in
      elim (Bool-cases (c == no_char)) [
        | inl none_read ↦
            rw (stop, none_read)
              (outer cs k p (omega (arith, h))
                (IsReadable-stop signed false c cs none_read readable) rest)
        | inr e ↦ elim (Bool-cases (c == newline)) [
          | inl end ↦
              rw (stop, e, end)
                (bind_cong (handle_packet (record p { packet = p.packet ++ (c ∷ []) }))
                  (packets signed cs k) (receive cs)
                  λ q.
                    outer cs k q (omega (arith, h)) (subst (λ b. IsReadable signed b cs) end left)
                      rest)
          | inr inside ↦
              rw (stop, e, inside)
                (rest k (record p { packet = p.packet ++ (c ∷ []) }) (omega (arith, h))
                  (subst (λ b. IsReadable signed b cs) inside left))
        ]
      ]

  every-Inner : (cs : List ℕ) → Inner cs
  every-Inner [] = Inner-nil
  every-Inner (c ∷ cs) = Inner-cons c cs (every-Inner cs)

  -- As many rounds of the loop of `update` as there are bytes are enough, and the loop with
  -- `readPacket` in it does what `receive` does byte by byte: where `char` is signed on any bytes, and
  -- where it is unsigned if whole packets arrive of which no byte is 255.
  pub packets-receive :
      (input : List ℕ) (p : Panel World)
      → IsReadable signed true input
      → packets signed input (length input) p ≡ receive input p
  packets-receive input p readable =
      outer input (length input) p (omega arith) readable (every-Inner input)
