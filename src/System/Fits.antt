-- ===== src/System/Fits.antt =====
-- The sizes that src/ux.h and src/ui/info_message.c give the arrays, and `room` bytes of
-- `G_io_apdu_buffer`, whose size is the SDK's.
use ledger_nano.Base.{ℕ, ◌≡◌, ◌∙◌, List, length}
use ledger_nano.Base.Post.{SameLength}

-- The arrays of `global` in front of `signTxnContext`, `G_io_apdu_buffer` and `info_text`.
pub record Fits (room : ℕ)
    (path address copy line_1 line_2 current display out amount apdu info : List ℕ) : Type 0 where
  pub path_size : length path ≡ 5
  pub address_size : length address ≡ 36
  pub copy_size : length copy ≡ 16
  pub line_1_size : length line_1 ≡ 16
  pub line_2_size : length line_2 ≡ 16
  pub current_size : length current ≡ 4
  pub display_size : length display ≡ 16
  pub out_size : length out ≡ 36
  pub amount_size : length amount ≡ 16
  pub apdu_size : length apdu ≡ room
  pub info_size : length info ≡ 16

-- One array is replaced by another of its length.
module _ {room : ℕ} {path address copy line_1 line_2 current display out amount apdu info : List ℕ}
    (f : Fits room path address copy line_1 line_2 current display out amount apdu info) where
  pub with_apdu :
      (new : List ℕ)
      → SameLength apdu new
      → Fits room path address copy line_1 line_2 current display out amount new info
  with_apdu new e = record {
    path_size = f.path_size;
    address_size = f.address_size;
    copy_size = f.copy_size;
    line_1_size = f.line_1_size;
    line_2_size = f.line_2_size;
    current_size = f.current_size;
    display_size = f.display_size;
    out_size = f.out_size;
    amount_size = f.amount_size;
    apdu_size = e ∙ f.apdu_size;
    info_size = f.info_size;
  }

  pub with_path :
      (new : List ℕ)
      → SameLength path new
      → Fits room new address copy line_1 line_2 current display out amount apdu info
  with_path new e = record {
    path_size = e ∙ f.path_size;
    address_size = f.address_size;
    copy_size = f.copy_size;
    line_1_size = f.line_1_size;
    line_2_size = f.line_2_size;
    current_size = f.current_size;
    display_size = f.display_size;
    out_size = f.out_size;
    amount_size = f.amount_size;
    apdu_size = f.apdu_size;
    info_size = f.info_size;
  }

  pub with_address :
      (new : List ℕ)
      → SameLength address new
      → Fits room path new copy line_1 line_2 current display out amount apdu info
  with_address new e = record {
    path_size = f.path_size;
    address_size = e ∙ f.address_size;
    copy_size = f.copy_size;
    line_1_size = f.line_1_size;
    line_2_size = f.line_2_size;
    current_size = f.current_size;
    display_size = f.display_size;
    out_size = f.out_size;
    amount_size = f.amount_size;
    apdu_size = f.apdu_size;
    info_size = f.info_size;
  }

  pub with_lines :
      (new_1 new_2 : List ℕ)
      → SameLength line_1 new_1
      → SameLength line_2 new_2
      → Fits room path address copy new_1 new_2 current display out amount apdu info
  with_lines new_1 new_2 e_1 e_2 = record {
    path_size = f.path_size;
    address_size = f.address_size;
    copy_size = f.copy_size;
    line_1_size = e_1 ∙ f.line_1_size;
    line_2_size = e_2 ∙ f.line_2_size;
    current_size = f.current_size;
    display_size = f.display_size;
    out_size = f.out_size;
    amount_size = f.amount_size;
    apdu_size = f.apdu_size;
    info_size = f.info_size;
  }

  pub with_texts :
      (new_display new_out new_amount : List ℕ)
      → length new_display ≡ 16
      → SameLength out new_out
      → SameLength amount new_amount
      → Fits room path address copy line_1 line_2 current new_display new_out new_amount apdu info
  with_texts new_display new_out new_amount e_display e_out e_amount = record {
    path_size = f.path_size;
    address_size = f.address_size;
    copy_size = f.copy_size;
    line_1_size = f.line_1_size;
    line_2_size = f.line_2_size;
    current_size = f.current_size;
    display_size = e_display;
    out_size = e_out ∙ f.out_size;
    amount_size = e_amount ∙ f.amount_size;
    apdu_size = f.apdu_size;
    info_size = f.info_size;
  }

  pub with_info :
      (new : List ℕ)
      → SameLength info new
      → Fits room path address copy line_1 line_2 current display out amount apdu new
  with_info new e = record {
    path_size = f.path_size;
    address_size = f.address_size;
    copy_size = f.copy_size;
    line_1_size = f.line_1_size;
    line_2_size = f.line_2_size;
    current_size = f.current_size;
    display_size = f.display_size;
    out_size = f.out_size;
    amount_size = f.amount_size;
    apdu_size = f.apdu_size;
    info_size = e ∙ f.info_size;
  }
