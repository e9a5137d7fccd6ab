-- ===== src/Lib.antt =====
-- Verification of the Skycoin app for the Ledger Nano S.
--
-- The program. The main loop (src/main.c) receives a packet (an APDU) from the host, finds the
-- handler of its instruction (src/apdu_handlers.c), and sends the reply with a status word. Four
-- handlers answer at once: version, public key, signed public key, address. They read a BIP-44
-- path from the packet and derive a key pair from it; an address is the base-58 text of a hash of
-- the public key (src/skycoin-api/skycoin_crypto.c). The fifth handler signs a transaction, which
-- comes in many packets: a state machine (src/skycoin-api/txn.c) reads it element by element,
-- keeps the bytes of an element that is not complete, stops at each output for the user's
-- approval (src/ui/newTransaction.c), and at the end signs every input and returns the signatures,
-- three in a packet.
--
-- Files and code:
--   Base         lists, bytes, bounded copies, and the effects of C (state, THROW, undefined
--                behaviour). An access outside an array is `none`, or the outcome `fault`.
--   Sdk          what the app takes from the Ledger SDK, as a record: `cx_hash`, `cx_ecdsa_sign`,
--                `os_perso_derive_node_bip32` and their like. `SdkLaws` has their documented
--                sizes, and that a hash taken in pieces is the hash of the pieces joined.
--   Device       src/ux.h and the globals: the state of all handlers.
--   Crypto       src/skycoin-api/skycoin_crypto.c. Bip44: `get_bip44_path`. Base58:
--                `encode_base_58`, a definition for each loop; Base58/Decode: `base58decode` of
--                scripts/generating_txn.py. Address: `address_to_base58`, `to_address`,
--                `generate_address`, `compress_public_key`, `derive_keypair`. Signature:
--                `convert_signature_from_TLV_to_RS` and `sign`.
--   Txn          src/skycoin-api/txn.c. Buffer: the two copies into `buffer`. Elements and Sigs:
--                the cases of `__txn_next_elem`. Loop: `txn_next_elem`. Scan: the same reader with
--                no packets and no buffer, its specification; Stream, Advance, Outputs, Ready,
--                Step, Refine, Call, Extends and Packets lead from the one to the other. Serial:
--                the bytes that scripts/generating_txn.py sends; Inputs, Shown, Whole and
--                Session: a whole transaction in any packets. Returned, Signing and Replied: the signing cases.
--                Limits: inputs beyond MAX_INPUTS. Lost: an element in three packets.
--   Ui           src/ui. Format, Approval, Screens: the texts of the approval screen,
--                `show_message`, `ui_idle` and `go_to_transaction_screen`. Amounts: the text of an
--                amount, read back. Events: a tick, and the buttons of the address and the
--                message. Io: `io_event` and `io_exchange_al` of src/ui/main_ui.c, over the
--                SDK's part of them. Menu: its menus. Memory: the structure `global` as bytes.
--                Scroll: the preprocessors of src/ui/newTransaction.c and src/ui/getPublicKey.c;
--                its children: what they leave on the screen.
--   Apdu         src/apdu_handlers.c, and the buttons of src/ui/newTransaction.c.
--   Main         the loop of src/main.c; Main/Replies, Keys, Accounts and Signatures: what it
--                sends. Main/Batches and Delivered: all signatures of a transaction. Main/Cancel
--                and Approved: the left and the right button. Main/Complete: from the last
--                approval to the last signature.
--   System       the app as a whole. Events: packets, buttons, drawings, ticks and the entry
--                "Address" of the menu, in any order, and the states that they reach; the SDK
--                calls the handlers of the screen that is displayed, and Reach has the runs in
--                which no call was undefined in C. Fits and Invariant: an invariant of the
--                memory. Screens, Drawing, Buffers, Reading, Outputs, Signing, Handlers,
--                Transactions and Rounds: its lemmas, a file for each group of operations.
--                Reached: the states that the app reaches.
--
-- State. A C array is a list of its length, a C string the bytes in front of its first NUL. The
-- pointer `dataBuffer` is an index in `G_io_apdu_buffer`. An entry of `sig_input`, a union, is its
-- 65 bytes, of which an input is the first 36. The preprocessors read and write over the ends of
-- arrays: there the model has the memory of `global` in the layout of the structure, up to
-- `signTxnContext`. `current_offset` and `direction` are integers. The machine integers are
-- natural numbers with their wrap-around written out: `dataLength` has 16 bits, `offset` and
-- `curr_obj` have 8. TXN_READY, which `__txn_next_elem` stores in `txn_state`, has the number of
-- TXN_COMPUTE_SIGS.
--
-- Bounds. `b58` has 35 cells: the number of 25 bytes, the length of an address, has at most 35
-- digits of base 58. The loop of `txn_next_elem` runs on fuel, one more than the bytes of the
-- packet: a round takes a byte of it at least, or ends the call. The loop that returns the
-- signatures has fuel for five rounds: each adds 65 to `tx`, which stays below 256. Decimal numbers
-- of 32 bits have ten digits.
--
-- Not modelled: the drawing itself (UX_REDISPLAY, and the first drawing of a screen), what the SDK
-- does with an event and with the entries of a menu, the start of the hardware, the wiping of keys,
-- debug output, and exceptions that the SDK throws.
-- The headers and the `#include` lines have nothing that the files above do not.
pub mod Base
pub mod Sdk
pub mod Device
pub mod Crypto
pub mod Txn
pub mod Ui
pub mod Apdu
pub mod Main
pub mod System
