-- ===== src/Ui/Io.antt =====
-- `io_event`, `io_exchange_al` and `io_seproxyhal_display` of src/ui/main_ui.c, over what they take
-- of the SDK: the tags, channels and flags, the macros UX_…, and the calls of the SPI channel.
use Prim.Native.Nat.{bit_and}
use ledger_nano.Base.{ℕ, ◌-◌, List, Bool, ◌==◌, if◌then◌else◌, get_elem?}
use ledger_nano.Base.Exec.{Exec, pure, raise, gets, defined, ◌>>=◌, ◌>>◌}
use ledger_nano.Device.{Device}
use ledger_nano.Ui.Events.{ticker_event}

-- The SDK's part of `io_event`. An event is the bytes of `G_io_seproxyhal_spi_buffer`.
pub record EventSdk (Sha : Type 0) : Type 0 where
  pub tag_finger_event : ℕ
  pub tag_button_push_event : ℕ
  pub tag_display_processed_event : ℕ
  pub tag_ticker_event : ℕ
  pub ux_finger_event : List ℕ → Exec (Device Sha) (Unit {0})
  pub ux_button_push_event : List ℕ → Exec (Device Sha) (Unit {0})
  pub ux_displayed : Device Sha → Bool
  pub ux_displayed_event : Exec (Device Sha) (Unit {0})
  -- The macro runs the block that it is given at some ticks.
  pub ux_ticker_event : List ℕ → Exec (Device Sha) (Unit {0}) → Exec (Device Sha) (Unit {0})
  pub ux_allowed : Device Sha → Bool
  pub ux_redisplay : Exec (Device Sha) (Unit {0})
  pub ux_default_event : Exec (Device Sha) (Unit {0})
  pub is_status_sent : Device Sha → Bool
  pub general_status : Exec (Device Sha) (Unit {0})

module _ {Sha : Type 0} (sdk : EventSdk Sha) where
  -- The block of `SEPROXYHAL_TAG_TICKER_EVENT`.
  unfoldable pub on_tick : Exec (Device Sha) (Unit {0})
  on_tick = do allowed ← gets sdk.ux_allowed; ticker_event allowed sdk.ux_redisplay

  -- `switch (G_io_seproxyhal_spi_buffer[0])`.
  unfoldable pub on_event : ℕ → List ℕ → Exec (Device Sha) (Unit {0})
  unfolding on_tick
  on_event tag buffer =
      if tag == sdk.tag_finger_event
      then sdk.ux_finger_event buffer
      else if tag == sdk.tag_button_push_event
      then sdk.ux_button_push_event buffer
      else if tag == sdk.tag_display_processed_event
      then (do
        displayed ← gets sdk.ux_displayed
        if displayed then pure tt else sdk.ux_displayed_event)
      else if tag == sdk.tag_ticker_event
      then sdk.ux_ticker_event buffer on_tick
      else sdk.ux_default_event

  unfoldable pub io_event : List ℕ → Exec (Device Sha) ℕ
  unfolding on_event
  io_event buffer = do
    tag ← defined (get_elem? buffer 0)
    on_event tag buffer
    sent ← gets sdk.is_status_sent
    if sent then pure tt else sdk.general_status
    pure 1

-- The SDK's part of `io_exchange_al`. `spi_recv` gives the number of bytes that it received.
pub record ChannelSdk (Sha : Type 0) : Type 0 where
  pub io_flags : ℕ
  pub channel_keyboard : ℕ
  pub channel_spi : ℕ
  pub io_reset_after_replied : ℕ
  pub invalid_parameter : ℕ
  pub spi_send : List ℕ → ℕ → Exec (Device Sha) (Unit {0})
  pub spi_recv : Exec (Device Sha) ℕ
  pub reset : Exec (Device Sha) (Unit {0})

module _ {Sha : Type 0} (sdk : ChannelSdk Sha) where
  -- `case CHANNEL_SPI`.
  unfoldable pub exchange_spi : ℕ → ℕ → Exec (Device Sha) ℕ
  exchange_spi channel tx_len = if tx_len == 0 then sdk.spi_recv else (do
    apdu ← gets (λ s. s.apdu_buffer)
    sdk.spi_send apdu tx_len
    if bit_and channel sdk.io_reset_after_replied == 0 then pure tt else sdk.reset
    pure 0)

  -- `channel` is an `unsigned char`.
  unfoldable pub io_exchange_al : ℕ → ℕ → Exec (Device Sha) ℕ
  unfolding exchange_spi
  io_exchange_al channel tx_len =
      let kind = bit_and channel (255 - sdk.io_flags) in
      if kind == sdk.channel_keyboard
      then pure 0
      else if kind == sdk.channel_spi
      then exchange_spi channel tx_len
      else raise sdk.invalid_parameter

-- `io_seproxyhal_display`, on the type of an element; the flags are bits of a byte.
unfoldable pub io_seproxyhal_display :
    {Sha : Type 0}
    → (bagl_type_flags_mask bagl_none : ℕ) → (display_default : Exec (Device Sha) (Unit {0})) → ℕ
    → Exec (Device Sha) (Unit {0})
io_seproxyhal_display bagl_type_flags_mask bagl_none display_default type =
    if bit_and type (255 - bagl_type_flags_mask) == bagl_none then pure tt else display_default
