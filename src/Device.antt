-- ===== src/Device.antt =====
-- The app's memory: the types of src/ux.h, and the globals that the handlers share (`global` of
-- src/main.c, `G_io_apdu_buffer`, and `tx` and `flags` of `sky_main`). `Sha` is `cx_sha256_t`.
pub mod Toy
use ledger_nano.Base.{ℕ, Bool, List}
use ledger_nano.Base.Int.{ℤ}
use ledger_nano.Base.Exec.{Exec, ok}

abbrev pub max_inputs : ℕ
max_inputs = 20

-- `txn_state_t`.
pub data TxnState : Type 0 where
  txn_start_in : TxnState
  txn_in : TxnState
  txn_start_out : TxnState
  txn_out : TxnState
  txn_compute_sigs : TxnState
  txn_ret_sigs : TxnState

-- The number of an enumerator.
abbrev pub state_code : TxnState → ℕ
state_code txn_start_in = 0
state_code txn_in = 1
state_code txn_start_out = 2
state_code txn_out = 3
state_code txn_compute_sigs = 4
state_code txn_ret_sigs = 5

-- `txn_ui_state_t`, by its numbers: its values are thrown, and compared with those of
-- `txn_state_t`.
abbrev pub txn_partial : ℕ
txn_partial = 1

abbrev pub txn_partial_out : ℕ
txn_partial_out = 2

abbrev pub txn_approve_out : ℕ
txn_approve_out = 3

abbrev pub txn_ready : ℕ
txn_ready = 4

abbrev pub txn_finished : ℕ
txn_finished = 5

abbrev pub txn_error : ℕ
txn_error = 6

-- `txn_output_t`.
pub record TxnOutput : Type 0 where
  pub address : List ℕ
  pub coin_num : ℕ
  pub hour_num : ℕ

-- `txn_t`. An entry of `sig_input` is the union `sig_input_t`: 65 bytes, of which the input is the
-- first 36.
pub record Txn : Type 0 where
  pub inner_hash : List ℕ
  pub in_num : ℕ
  pub sig_input : List (List ℕ)
  pub out_num : ℕ
  pub cur_output : TxnOutput

-- `signTxnContext_t`. `data_buffer` is the index in `G_io_apdu_buffer` that the pointer
-- `dataBuffer` stands for; the pointer `tx` is always that of `sky_main`, the field of `Device`.
pub record SignTxnContext (Sha : Type 0) : Type 0 where
  pub initialized : Bool
  pub hash : Sha
  pub txn_state : TxnState
  pub txn : Txn
  pub buffer : List ℕ
  pub offset : ℕ
  pub curr_obj : ℕ
  pub data_buffer : ℕ
  pub data_length : ℕ

-- What the screen shows: the argument of the last `UX_DISPLAY` or `UX_MENU_DISPLAY`.
pub data Screen : Type 0 where
  menu_main : Screen
  bagl_ui_address : Screen
  transaction_screen : Screen
  bagl_info_text : Screen

-- `getPublicKeyContext_t`, `transactionContext_t`, the scrolling state of src/ui/main_ui.c, and
-- what the host has been sent. `current_output` is the four bytes of an `unsigned int`, and
-- `callback_interval` the argument of the last `UX_CALLBACK_SET_INTERVAL`. C arrays of bytes are
-- lists of their length. `flags` is 0 or IO_ASYNCH_REPLY, here `asynch_reply`.
pub record Device (Sha : Type 0) : Type 0 where
  pub bip44_path : List ℕ
  pub address : List ℕ
  pub address_copy : List ℕ
  pub custom_text_line_1 : List ℕ
  pub custom_text_line_2 : List ℕ
  pub current_output : List ℕ
  pub current_output_display : List ℕ
  pub out_address : List ℕ
  pub amount : List ℕ
  pub ctx : SignTxnContext Sha
  pub apdu_buffer : List ℕ
  pub tx : ℕ
  pub asynch_reply : Bool
  pub info_text : List ℕ
  pub screen : Screen
  pub ux_step : ℕ
  pub ux_step_count : ℕ
  pub ux_loop_over_curr_element : ℕ
  pub current_offset : ℤ
  pub direction : ℤ
  pub callback_interval : ℕ
  pub sent : List (List ℕ)

abbrev pub put_ctx : {Sha : Type 0} → SignTxnContext Sha → Exec (Device Sha) (Unit {0})
put_ctx c s = ok tt (record s { ctx = c })
