-- ===== src/Ui/Memory.antt =====
-- The bytes of the structure `global` (src/ux.h) in front of `signTxnContext`, as they lie in the
-- memory: the preprocessors of src/ui read and write across its arrays. C leaves such an access
-- undefined; here it meets the neighbouring array, as in the compiled app. What lies behind these
-- 176 bytes is not part of the model: an access there is a fault.
pub mod Laws
use ledger_nano.Base.{
  ℕ, zero, suc, ◌+◌, List, [], ◌∷◌, ◌++◌, none, leb, if◌then◌else◌, take, drop, le_bytes,
  read_bytes, write_bytes,
}
use ledger_nano.Base.Exec.{Exec, gets, defined, modify, ◌>>=◌}
use ledger_nano.Device.{Device}
use ledger_nano.Crypto.Address.{strlen}

-- Where the arrays begin: `bip44_path`, five words, is at 0.
abbrev pub address_at : ℕ
address_at = 20

abbrev pub address_copy_at : ℕ
address_copy_at = 56

abbrev pub custom_text_line_1_at : ℕ
custom_text_line_1_at = 72

abbrev pub custom_text_line_2_at : ℕ
custom_text_line_2_at = 88

abbrev pub current_output_at : ℕ
current_output_at = 104

abbrev pub current_output_display_at : ℕ
current_output_display_at = 108

abbrev pub out_address_at : ℕ
out_address_at = 124

abbrev pub amount_at : ℕ
amount_at = 160

-- Words as the device stores them, lowest byte first.
abbrev pub word_bytes : List ℕ → List ℕ
word_bytes [] = []
word_bytes (w ∷ ws) = le_bytes 4 w ++ word_bytes ws

module _ {Sha : Type 0} where
  unfoldable pub memory : Device Sha → List ℕ
  memory s =
      word_bytes s.bip44_path
      ++ (s.address
          ++ (s.address_copy
              ++ (s.custom_text_line_1
                  ++ (s.custom_text_line_2
                      ++ (s.current_output
                          ++ (s.current_output_display ++ (s.out_address ++ s.amount)))))))

  -- The device with these bytes behind `bip44_path`.
  unfoldable pub store : List ℕ → Device Sha → Device Sha
  store m s = record s {
    address = take 36 (drop address_at m);
    address_copy = take 16 (drop address_copy_at m);
    custom_text_line_1 = take 16 (drop custom_text_line_1_at m);
    custom_text_line_2 = take 16 (drop custom_text_line_2_at m);
    current_output = take 4 (drop current_output_at m);
    current_output_display = take 16 (drop current_output_display_at m);
    out_address = take 36 (drop out_address_at m);
    amount = take 16 (drop amount_at m);
  }

  -- `os_memcpy(at, bs, …)`. No code here writes to `bip44_path`: that would be a fault.
  unfoldable pub write_memory : ℕ → List ℕ → Exec (Device Sha) (Unit {0})
  write_memory at bs = do
    m ← gets memory
    m' ← defined (if leb address_at at then write_bytes m at bs else none)
    modify (store m')

  unfoldable pub read_memory : ℕ → ℕ → Exec (Device Sha) (List ℕ)
  read_memory at n = do m ← gets memory; defined (read_bytes m at n)

  -- `strlen(at)`.
  unfoldable pub strlen_at : ℕ → Exec (Device Sha) ℕ
  strlen_at at = do m ← gets memory; defined (strlen (drop at m))

  -- `strcpy(to, from)`.
  unfoldable pub strcpy : ℕ → ℕ → Exec (Device Sha) (Unit {0})
  strcpy to from = do n ← strlen_at from; bs ← read_memory from (n + 1); write_memory to bs
