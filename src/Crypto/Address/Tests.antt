-- ===== src/Crypto/Address/Tests.antt =====
-- Addresses with the toy SDK.
use ledger_nano.Base.{ℕ, ◌≡◌, refl, List, [], ◌∷◌, arith, replicate}
use ledger_nano.Sdk.Toy.{toy, toy_laws}
use ledger_nano.Crypto.Address.{address_to_base58, to_address, generate_address}
use ledger_nano.Crypto.Address.Text.{Shows, address_bytes}
use ledger_nano.Crypto.Address.Laws.{
  address_to_base58-Shows, to_address-address_to_base58, generate_address-Shows,
}

abbrev hash : List ℕ
hash = replicate 20 7

abbrev out : List ℕ
out = replicate 36 0

abbrev key : List ℕ
key = 2 ∷ replicate 32 9

abbrev point : List ℕ
point = 4 ∷ replicate 64 9

address_to_base58-Shows_example :
    Shows (address_bytes (toy_laws []) hash 0) (address_to_base58 (toy []) (0 ∷ hash) out)
address_to_base58-Shows_example =
    address_to_base58-Shows (toy []) (toy_laws []) hash 0 out refl (omega arith) (omega arith) refl

to_address-address_to_base58_example :
    to_address (toy []) key out ≡ address_to_base58 (toy []) (0 ∷ replicate 20 32) out
to_address-address_to_base58_example =
    to_address-address_to_base58 (toy []) (toy_laws []) key out refl refl

generate_address-Shows_example :
    Shows (address_bytes (toy_laws []) (replicate 20 32) 0) (generate_address (toy []) point out)
generate_address-Shows_example = generate_address-Shows (toy []) (toy_laws []) point out refl refl
