-- ===== src/WifiSettings.antt =====
-- The network name and the password in the EEPROM: readSSID, readPassword, writeSSID and
-- writePassword, which stand alike in Slave/Slave.ino and Master/Master.ino.
pub mod Texts
mod Tests
use spu_energy_efficient_sys.Common.{
  ℕ, zero, suc, ◌+◌, Option, none, some, List, [], ◌∷◌, ◌==◌, ◌>>=◌, if◌then◌else◌,
}
use spu_energy_efficient_sys.Eeprom.{Eeprom}
use spu_energy_efficient_sys.Spu.{
  ssid_dir, passwd_dir, max_ssid_length, max_passwd_length, default_ssid, default_passwd,
}

-- A text that was read, or the default when it is empty.
abbrev pub or_default : List ℕ → List ℕ → List ℕ
or_default [] d = d
or_default (c ∷ cs) d = c ∷ cs

module _ (e : Eeprom) where
  open e use {Store, read, write, commit}

  -- The reading loop, for `k` characters from the address `p` on: the text up to its terminator. With
  -- no terminator in the array, what uses the text reads past it.
  unfoldable pub read_text : Store → ℕ → ℕ → Option (List ℕ)
  read_text m p zero = none
  read_text m p (suc k) =
      let rest = read_text m (p + 1) k >>= λ cs. some (read m p ∷ cs) in
      if read m p == 0 then some [] else rest

  unfoldable pub read_ssid : Store → Option (List ℕ)
  read_ssid m = read_text m ssid_dir max_ssid_length >>= λ t. some (or_default t default_ssid)

  unfoldable pub read_password : Store → Option (List ℕ)
  read_password m =
      read_text m passwd_dir max_passwd_length >>= λ t. some (or_default t default_passwd)

  -- The writing loop; `chars` is what stands in the memory of the processor from the pointer on,
  -- also behind the terminator.
  unfoldable pub write_text : Store → ℕ → ℕ → List ℕ → Option Store
  write_text m p zero chars = some m
  write_text m p (suc k) [] = none
  write_text m p (suc k) (c ∷ chars) = write_text (write m p c) (p + 1) k chars

  unfoldable pub write_ssid : Store → List ℕ → Option Store
  write_ssid m ssid = write_text m ssid_dir max_ssid_length ssid >>= λ m'. some (commit m')

  unfoldable pub write_password : Store → List ℕ → Option Store
  write_password m passwd =
      write_text m passwd_dir max_passwd_length passwd >>= λ m'. some (commit m')
