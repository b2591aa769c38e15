-- ===== src/SensorByte.antt =====
-- The byte in which the master and the slaves keep and send which sensors and relays are connected,
-- one to a bit: the loops over the array of eight bits that stand in Slave/Slave.ino (sensorInfoByte,
-- readSensors) and in Master/Master.ino (storeSensorInfo, initMasterSensors, handleSensorInfo).
use spu_energy_efficient_sys.Common.{
  ℕ, zero, suc, ◌+◌, ◌*◌, ◌/◌, ◌%◌, ◌≡◌, refl, ap, ◌∙◌, Bool, true, false, List, [], ◌∷◌, ◌++◌,
  length, ◌==◌, if◌then◌else◌, arith, ◌<◌, append-nil, subst,
}

-- `val *= 2; val += b[j] ? 1 : 0` for each bit.
unfoldable pub pack_from : ℕ → List Bool → ℕ
pack_from val [] = val
pack_from val (b ∷ bs) = pack_from (val * 2 + (if b then 1 else 0)) bs

abbrev pub pack : List Bool → ℕ
pack b = pack_from 0 b

-- `b[i] = (val % 2 == 1); val /= 2` for `k` indices from the last on down; `b` has those behind.
unfoldable pub unpack_from : ℕ → ℕ → List Bool → List Bool
unpack_from zero val b = b
unpack_from (suc k) val b = unpack_from k (val / 2) ((val % 2 == 1) ∷ b)

abbrev pub unpack : ℕ → List Bool
unpack val = unpack_from 8 val []

last_bit :
    (c : Bool) (k val : ℕ) (b : List Bool)
    → unpack_from (suc k) (val * 2 + (if c then 1 else 0)) b ≡ unpack_from k val (c ∷ b)
unfolding unpack_from
last_bit true k val b =
    let half : (val * 2 + 1) / 2 ≡ val = omega arith in
    let odd : ((val * 2 + 1) % 2 == 1) ≡ true = ground arith in rw (half, odd) refl
last_bit false k val b =
    let half : (val * 2 + 0) / 2 ≡ val = omega arith in
    let even : ((val * 2 + 0) % 2 == 1) ≡ false = ground arith in rw (half, even) refl

unpack_from-pack_from :
    (bs : List Bool) (k val : ℕ) (b : List Bool)
    → unpack_from (length bs + k) (pack_from val bs) b ≡ unpack_from k val (bs ++ b)
unfolding pack_from
unpack_from-pack_from [] k val b = ap (λ n. unpack_from n val b) (omega arith)
unpack_from-pack_from (c ∷ bs) k val b =
    ap (λ n. unpack_from n (pack_from (val * 2 + (if c then 1 else 0)) bs) b) (omega arith)
    ∙ unpack_from-pack_from bs (suc k) (val * 2 + (if c then 1 else 0)) b
    ∙ last_bit c k val (bs ++ b)

unpack_from-done : (val : ℕ) (b : List Bool) → unpack_from 0 val b ≡ b
unfolding unpack_from
unpack_from-done val b = refl

-- Reading eight bits gives back those that were written.
pub unpack-pack : (bs : List Bool) → length bs ≡ 8 → unpack (pack bs) ≡ bs
unpack-pack bs h =
    ap (λ n. unpack_from n (pack bs) []) (omega arith)
    ∙ unpack_from-pack_from bs 0 0 []
    ∙ unpack_from-done 0 (bs ++ [])
    ∙ append-nil bs

-- `n` doubled `k` times.
abbrev doubled : ℕ → ℕ → ℕ
doubled n zero = n
doubled n (suc k) = doubled (n * 2) k

pack_from_lt : (bs : List Bool) (val n : ℕ) → val < n → pack_from val bs < doubled n (length bs)
unfolding pack_from
pack_from_lt [] val n h = h
pack_from_lt (true ∷ bs) val n h = pack_from_lt bs (val * 2 + 1) (n * 2) (omega arith)
pack_from_lt (false ∷ bs) val n h = pack_from_lt bs (val * 2 + 0) (n * 2) (omega arith)

-- Eight bits make one byte.
pub pack_lt : (bs : List Bool) → length bs ≡ 8 → pack bs < 256
pack_lt bs h = subst (λ k. pack bs < doubled 1 k) h (pack_from_lt bs 0 1 (omega arith))
