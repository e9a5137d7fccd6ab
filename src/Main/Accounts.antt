-- ===== src/Main/Accounts.antt =====
-- What the host receives for an address and for a signed public key.
use ledger_nano.Base.{ℕ, ◌+◌, ◌≤◌, ◌≡◌, List, [], ◌∷◌, ◌++◌, length, drop, IsU32}
use ledger_nano.Sdk.{Sdk, SdkLaws}
use ledger_nano.Device.{Device}
use ledger_nano.Crypto.Bip44.{IsServed, be4}
use ledger_nano.Crypto.Address.Text.{address_bytes}
use ledger_nano.Crypto.Address.Laws.{compressed}
use ledger_nano.Main.{cla}
use ledger_nano.Main.Keys.{started}

-- The 25 bytes of the address of a point.
abbrev pub point_address : {sdk : Sdk} → SdkLaws sdk → List ℕ → List ℕ
point_address {sdk} laws point =
    address_bytes laws (sdk.ripemd160 (laws.sha256 (laws.sha256 (compressed sdk laws point)))) 0

module _ (sdk : Sdk) (laws : SdkLaws sdk) (s : Device sdk.Sha256) (p1 p2 lc w0 w1 w2 w3 w4 : ℕ)
    (b0 : IsU32 w0) (b1 : IsU32 w1) (b2 : IsU32 w2) (b3 : IsU32 w3) (b4 : IsU32 w4) (rest : List ℕ)
    (q0 q1 q2 q3 q4 : ℕ) (path : s.bip44_path ≡ q0 ∷ q1 ∷ q2 ∷ q3 ∷ q4 ∷ [])
    (fits : 25 + length rest ≤ length s.apdu_buffer) (served : IsServed w0 w1 w2 w3 w4)
    (room : 67 ≤ length s.apdu_buffer) where
  abbrev words : List ℕ
  words = be4 w0 (be4 w1 (be4 w2 (be4 w3 (be4 w4 rest))))

  abbrev key : sdk.PrivateKey
  key = sdk.derive_node (w0 ∷ w1 ∷ w2 ∷ w3 ∷ w4 ∷ [])

  abbrev point : List ℕ
  point = sdk.public_point key

  abbrev behind : ℕ → List ℕ
  behind ins = rest ++ drop (0 + length (cla ∷ ins ∷ p1 ∷ p2 ∷ lc ∷ words)) s.apdu_buffer

  -- The device behind `get_bip44_path`.
  abbrev at_path : ℕ → Device sdk.Sha256
  at_path ins = record (started (cla ∷ ins ∷ p1 ∷ p2 ∷ lc ∷ words) s) {
    bip44_path = w0 ∷ w1 ∷ w2 ∷ w3 ∷ w4 ∷ [];
  }
